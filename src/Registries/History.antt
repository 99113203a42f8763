-- ===== src/Registries/History.antt =====
-- Whole histories of the registries of src/Room.cpp.
use the_game_server.Base.{
  ℕ, ◌≤◌, ◌≡◌, refl, ◌≢◌, Bool, true, false, List, [], map, arith, contains, erase, count, pos,
}
use the_game_server.Base.{count-erase}
use the_game_server.Base.Float.{Float, zero_f}
use the_game_server.Entity.{Cell}
use the_game_server.Config.{RoomConfig}
use the_game_server.NextId.{fresh}
use the_game_server.Gridmap.{Gridmap}
use the_game_server.Registries.{Registries}
use the_game_server.Registries.Sound.{
  numbered, IsSound, Event, step, Allowed, created, died, started, stopped, mass_changed, cleared,
}
use the_game_server.Registries.Moving.{started-IsSound, stopped-IsSound, mass-IsSound}
use the_game_server.Registries.Creating.{create-IsSound}
use the_game_server.Registries.Dying.{on_death-IsSound}
use the_game_server.Registries.Clearing.{synchronize-IsSound}
use the_game_server.Counting.{number, number-erase}

two_pass :
    (test : ℕ → Bool) (p q : ℕ) (ps : List ℕ)
    → p ≢ q
    → test p ≡ true
    → test q ≡ true
    → 1 ≤ count p ps
    → 1 ≤ count q ps
    → 2 ≤ number test ps
two_pass test p q ps differ tp tq hp hq =
    ground (arith, number-erase test p ps, number-erase test q (erase p ps), count-erase q p ps)

module _ {F : Type 0} ⦃f : Float F⦄ where
  -- The registries of a room as it is constructed, for a map and whatever is in memory.
  unfoldable pub empty : Gridmap F → (ℕ → Cell F) → Registries F
  empty map memory = record {
    memory = memory;
    next_ids = fresh;
    gridmap = map;
    cells = [];
    viruses = [];
    phages = [];
    mothers = [];
    processing = [];
    for_random_position_check = [];
    new_cells = [];
    created_cells = [];
    activated = [];
    modified = [];
    dead = [];
    food_quantity = pos 0;
    viruses_quantity = pos 0;
    phages_quantity = pos 0;
    mothers_quantity = pos 0;
    mass = zero_f;
    update_leaderboard = false;
  }

  -- Registries that events lead to, one allowed event after the other.
  pub data Reaches (config : RoomConfig F) (r : Registries F) : Registries F → Type 0 where
    stays : Reaches config r r
    then_step :
        {s : Registries F} (e : Event F)
        → Reaches config r s
        → Allowed e s
        → Reaches config r (step config e s)

  step-IsSound :
      (config : RoomConfig F) (e : Event F) (r : Registries F)
      → Allowed e r
      → IsSound r
      → IsSound (step config e r)
  unfolding step Allowed
  step-IsSound config (created k p now) r a s = create-IsSound config k now p r a.0 a.1 s
  step-IsSound config (died p) r a s = on_death-IsSound (r.memory p).kind p r refl a s
  step-IsSound config (started p) r a s = started-IsSound p r a s
  step-IsSound config (stopped p) r a s = stopped-IsSound p r a s
  step-IsSound config (mass_changed p delta) r a s = mass-IsSound (r.memory p).kind p delta r a s
  step-IsSound config cleared r a s = synchronize-IsSound r s

  pub empty-IsSound : (map : Gridmap F) (memory : ℕ → Cell F) → IsSound (empty map memory)
  unfolding empty count contains number
  empty-IsSound map memory = record {
    once = λ q. ground arith;
    dead_once = λ q. ground arith;
    processing_live = λ q h. cc;
    random_live = λ q h. cc;
    new_live = λ q h. cc;
    created_live = λ q h. cc;
    activated_live = λ q h. cc;
    modified_live = λ q h. cc;
    viruses_live = λ q. ground arith;
    phages_live = λ q. ground arith;
    mothers_live = λ q. ground arith;
    foods_size = refl;
    viruses_size = refl;
    phages_size = refl;
    mothers_size = refl;
    first = omega arith;
    parted = λ a. ground arith;
  }

  -- From an empty room, after any events of which each creates a cell at an unused address while a number
  -- is left, or concerns a live cell, or clears up, the registries are sound: the registries of work hold
  -- live cells only, a dead cell waits once for its removal, the quantities are those of the live cells of
  -- the kinds, and every number below the next one is that of one registered cell or waits once for reuse.
  pub reached-IsSound :
      (config : RoomConfig F) (map : Gridmap F) (memory : ℕ → Cell F) (r : Registries F)
      → Reaches config (empty map memory) r
      → IsSound r
  reached-IsSound config map memory r stays = empty-IsSound map memory
  reached-IsSound config map memory r (then_step {s = s} e before a) =
      step-IsSound config e s a (reached-IsSound config map memory s before)

  -- In a room so reached no two registered cells have the same number.
  pub reached_ids_differ :
      (config : RoomConfig F) (map : Gridmap F) (memory : ℕ → Cell F) (r : Registries F) (p q : ℕ)
      → Reaches config (empty map memory) r
      → 1 ≤ count p r.cells
      → 1 ≤ count q r.cells
      → p ≢ q
      → (r.memory p).id ≢ (r.memory q).id
  reached_ids_differ config map memory r p q h hp hq differ same =
      let s = reached-IsSound config map memory r h in
      ground (
        arith,
        two_pass (numbered r.memory (r.memory q).id) p q r.cells differ (ground arith)
            (ground arith) hp hq,
        s.parted (r.memory q).id,
      )
