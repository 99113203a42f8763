-- ===== src/Registries/Moving.antt =====
-- src/Room.cpp: motion and changes of mass keep the registries sound.
use the_game_server.Base.{ℕ, ◌≡◌, true, arith, contains-erase}
use the_game_server.Base.{contains-insert}
use the_game_server.Base.Float.{Float}
use the_game_server.Registries.{Registries}
use the_game_server.Registries.Sound.{live, IsSound}
use the_game_server.Registries.Events.{
  on_motion_started, on_avatar_mass_change, on_cell_mass_change, on_mass_change, on_motion_stopped,
}
use the_game_server.Entity.{Kind}

module _ {F : Type 0} ⦃f : Float F⦄ where
  pub started-IsSound :
      (p : ℕ) (r : Registries F) → live r p ≡ true → IsSound r → IsSound (on_motion_started p r)
  unfolding on_motion_started
  started-IsSound p r l s = record {
    once = s.once;
    dead_once = s.dead_once;
    processing_live = λ q. ground (arith, s.processing_live q, contains-insert p q r.processing);
    random_live = s.random_live;
    new_live = s.new_live;
    created_live = s.created_live;
    activated_live = s.activated_live;
    modified_live = λ q. ground (arith, s.modified_live q, contains-insert p q r.modified);
    viruses_live = s.viruses_live;
    phages_live = s.phages_live;
    mothers_live = s.mothers_live;
    foods_size = s.foods_size;
    viruses_size = s.viruses_size;
    phages_size = s.phages_size;
    mothers_size = s.mothers_size;
    first = s.first;
    parted = s.parted;
  }

  pub stopped-IsSound :
      (p : ℕ) (r : Registries F) → live r p ≡ true → IsSound r → IsSound (on_motion_stopped p r)
  unfolding on_motion_stopped
  stopped-IsSound p r l s = record {
    once = s.once;
    dead_once = s.dead_once;
    processing_live = λ q. ground (arith, s.processing_live q, contains-erase p q r.processing);
    random_live = s.random_live;
    new_live = s.new_live;
    created_live = s.created_live;
    activated_live = s.activated_live;
    modified_live = λ q. ground (arith, s.modified_live q, contains-insert p q r.modified);
    viruses_live = s.viruses_live;
    phages_live = s.phages_live;
    mothers_live = s.mothers_live;
    foods_size = s.foods_size;
    viruses_size = s.viruses_size;
    phages_size = s.phages_size;
    mothers_size = s.mothers_size;
    first = s.first;
    parted = s.parted;
  }

  cell_mass-IsSound :
      (p : ℕ) (delta : F) (r : Registries F)
      → live r p ≡ true
      → IsSound r
      → IsSound (on_cell_mass_change p delta r)
  unfolding on_cell_mass_change
  cell_mass-IsSound p delta r l s = record {
    once = s.once;
    dead_once = s.dead_once;
    processing_live = s.processing_live;
    random_live = s.random_live;
    new_live = s.new_live;
    created_live = s.created_live;
    activated_live = s.activated_live;
    modified_live = λ q. ground (arith, s.modified_live q, contains-insert p q r.modified);
    viruses_live = s.viruses_live;
    phages_live = s.phages_live;
    mothers_live = s.mothers_live;
    foods_size = s.foods_size;
    viruses_size = s.viruses_size;
    phages_size = s.phages_size;
    mothers_size = s.mothers_size;
    first = s.first;
    parted = s.parted;
  }

  avatar_mass-IsSound :
      (p : ℕ) (delta : F) (r : Registries F)
      → live r p ≡ true
      → IsSound r
      → IsSound (on_avatar_mass_change p delta r)
  unfolding on_avatar_mass_change on_cell_mass_change
  avatar_mass-IsSound p delta r l s = record {
    once = s.once;
    dead_once = s.dead_once;
    processing_live = s.processing_live;
    random_live = s.random_live;
    new_live = s.new_live;
    created_live = s.created_live;
    activated_live = s.activated_live;
    modified_live = λ q. ground (arith, s.modified_live q, contains-insert p q r.modified);
    viruses_live = s.viruses_live;
    phages_live = s.phages_live;
    mothers_live = s.mothers_live;
    foods_size = s.foods_size;
    viruses_size = s.viruses_size;
    phages_size = s.phages_size;
    mothers_size = s.mothers_size;
    first = s.first;
    parted = s.parted;
  }

  pub mass-IsSound :
      (k : Kind) (p : ℕ) (delta : F) (r : Registries F)
      → live r p ≡ true
      → IsSound r
      → IsSound (on_mass_change k p delta r)
  unfolding on_mass_change
  mass-IsSound Kind.avatar p delta r l s = avatar_mass-IsSound p delta r l s
  mass-IsSound Kind.food p delta r l s = s
  mass-IsSound Kind.bullet p delta r l s = s
  mass-IsSound Kind.virus p delta r l s = cell_mass-IsSound p delta r l s
  mass-IsSound Kind.phage p delta r l s = cell_mass-IsSound p delta r l s
  mass-IsSound Kind.mother p delta r l s = cell_mass-IsSound p delta r l s
