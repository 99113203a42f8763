-- ===== src/Registries/Events.antt =====
-- src/Room.cpp: what the room does when a cell dies, moves or changes its mass, and its clearing up.
use the_game_server.Base.{ℕ, true, false, List, [], ◌∷◌, insert, erase}
use the_game_server.Base.{pos, ◌-ℤ◌}
use the_game_server.Base.Float.{Float, ◌+F◌}
use the_game_server.Entity.{Cell, Kind, avatar, food, bullet, virus, phage, mother}
use the_game_server.Registries.{Registries, store, prepare_cell_for_destruction, remove_cell}

module _ {F : Type 0} ⦃f : Float F⦄ where
  -- `onAvatarDeath`, `onFoodDeath` and so on.
  unfoldable pub on_death : Kind → ℕ → Registries F → Registries F
  unfolding prepare_cell_for_destruction
  on_death avatar cell r = prepare_cell_for_destruction cell r
  on_death food cell r =
      prepare_cell_for_destruction cell (record r { food_quantity = r.food_quantity -ℤ pos 1 })
  on_death bullet cell r = prepare_cell_for_destruction cell r
  on_death virus cell r =
      let s =
        prepare_cell_for_destruction cell
          (record r { viruses_quantity = r.viruses_quantity -ℤ pos 1 }) in
      record s { viruses = erase cell s.viruses }
  on_death phage cell r =
      let s =
        prepare_cell_for_destruction cell
          (record r { phages_quantity = r.phages_quantity -ℤ pos 1 }) in
      record s { phages = erase cell s.phages }
  on_death mother cell r =
      let s =
        prepare_cell_for_destruction cell
          (record r { mothers_quantity = r.mothers_quantity -ℤ pos 1 }) in
      record s { mothers = erase cell s.mothers }

  unfoldable pub on_motion_started : ℕ → Registries F → Registries F
  on_motion_started cell r = record r {
    processing = insert cell r.processing;
    modified = insert cell r.modified;
  }

  unfoldable pub on_motion_stopped : ℕ → Registries F → Registries F
  on_motion_stopped cell r = record r {
    processing = erase cell r.processing;
    modified = insert cell r.modified;
  }

  unfoldable pub on_cell_mass_change : ℕ → F → Registries F → Registries F
  on_cell_mass_change cell delta r = record r {
    mass = r.mass +F delta;
    modified = insert cell r.modified;
  }

  unfoldable pub on_avatar_mass_change : ℕ → F → Registries F → Registries F
  unfolding on_cell_mass_change
  on_avatar_mass_change cell delta r = record (on_cell_mass_change cell delta r) {
    update_leaderboard = true;
  }

  -- The handlers that the cells of each kind subscribe to a change of mass: food and bullets have none.
  -- The explosion of a mother, which follows, creates cells one after the other.
  unfoldable pub on_mass_change : Kind → ℕ → F → Registries F → Registries F
  unfolding on_avatar_mass_change
  on_mass_change avatar cell delta r = on_avatar_mass_change cell delta r
  on_mass_change food cell delta r = r
  on_mass_change bullet cell delta r = r
  on_mass_change virus cell delta r = on_cell_mass_change cell delta r
  on_mass_change phage cell delta r = on_cell_mass_change cell delta r
  on_mass_change mother cell delta r = on_cell_mass_change cell delta r

  unfoldable pub remove_all : List ℕ → Registries F → Registries F
  unfolding remove_cell
  remove_all [] r = r
  remove_all (cell ∷ cells) r = remove_all cells (remove_cell cell r)

  -- `cell->newly = false`
  unfoldable pub age : List ℕ → (ℕ → Cell F) → ℕ → Cell F
  age [] memory = memory
  age (cell ∷ cells) memory = age cells (store cell (record (memory cell) { newly = false }) memory)

  -- What `synchronize` does to the registries of cells. The parameters of the fighters, the packets to
  -- them, and the fighters that are erased are not part of the registries.
  unfoldable pub synchronize : Registries F → Registries F
  unfolding remove_all age
  synchronize r =
      let s =
        remove_all r.dead
          (record r { modified = []; memory = age r.new_cells r.memory; new_cells = [] }) in
      record s { dead = [] }
