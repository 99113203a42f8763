-- ===== src/Tests/Rooms.antt =====
-- The registries of a room.
use the_game_server.Base.{ℕ, ◌≤◌, refl, ◌≢◌, arith, contains, insert, count}
use the_game_server.Base.Fixed.{Fixed, fixed_float}
use the_game_server.Entity.{Cell, food, virus, avatar}
use the_game_server.Registries.{
  Registries, new_cell, create, create_virus, create_food, update_new_cell_registries, allocate,
}
use the_game_server.Registries.Sound.{created, step, Allowed, IsSound}
use the_game_server.Registries.History.{
  Reaches, empty, reached-IsSound, reached_ids_differ, then_step, stays,
}
use the_game_server.Tests.Data.{config, room_map}
use the_game_server.NextId.{pop, pop_from}

-- What is in memory before any cell is created.
abbrev memory : ℕ → Cell Fixed
memory p = new_cell config avatar 0 0

abbrev room : Registries Fixed
room = empty room_map memory

-- A virus and some food are created.
abbrev two_cells : Registries Fixed
two_cells = step config (created food 6 1) (step config (created virus 5 0) room)

two_cells-Reaches : Reaches config room two_cells
unfolding Allowed step empty create create_virus create_food update_new_cell_registries allocate pop
    pop_from insert contains count
two_cells-Reaches =
    then_step (created food 6 1) (then_step (created virus 5 0) stays (refl, omega arith))
      (refl, omega arith)

reached-IsSound_example : IsSound two_cells
reached-IsSound_example = reached-IsSound config room_map memory two_cells two_cells-Reaches

holds_both : (1 ≤ count 5 two_cells.cells) × (1 ≤ count 6 two_cells.cells)
unfolding Allowed step empty create create_virus create_food update_new_cell_registries allocate pop
    pop_from insert contains count
holds_both = (omega arith, omega arith)

reached_ids_differ_example : (two_cells.memory 5).id ≢ (two_cells.memory 6).id
reached_ids_differ_example =
    reached_ids_differ config room_map memory two_cells 5 6 two_cells-Reaches holds_both.0
      holds_both.1 (omega arith)
