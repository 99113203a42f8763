-- ===== src/Tests/Hunts.antt =====
-- A bot that looks for a target.
use the_game_server.Gridmap.{
  Gridmap, clip, cells_at, indices, row_indices, numbers_from, rows_of, cols_of,
}
use the_game_server.Geometry.{Aabb, box_intersects_point, normalize_box}
use the_game_server.Base.Options.{same_pointer}
use the_game_server.Base.Fixed.{Fixed, fixed_float}
use the_game_server.Base.{◌∷◌, []}
use the_game_server.Registries.{new_cell}
use the_game_server.Registries.History.{empty}
use the_game_server.Entity.Avatars.{is_attractive_for}
use the_game_server.Entity.{food, avatar, kind_code, intersects}
use the_game_server.Bots.{find_target, consider, prefer}
use the_game_server.Gridmap.Search.{query, query_cells, query_sectors}
use the_game_server.Tests.Data.{config, point}
use the_game_server.Tests.Worlds.{silent}
use the_game_server.World.{World, cell_at}
use the_game_server.Base.{◌≡◌, refl, ◌⊎◌, true, false, some, ◌==◌, if◌then◌else◌}
use the_game_server.Base.Float.{◌*F◌}
use the_game_server.Bots.Targets.{find_target_attractive}

abbrev meadow : Aabb Fixed
meadow = record { a = point 0 0; b = point 31 31 }

-- A map of one sector.
abbrev one_sector : Gridmap Fixed
one_sector = record {
  sectors = record { cells = 1 ∷ []; box = meadow } ∷ [];
  box = meadow;
  width = 32;
  height = 32;
  row_count = 1;
  col_count = 1;
  power = 5;
}

-- Food at the place of the avatar.
abbrev field : World Fixed
field = record silent {
  room = record silent.room {
    memory = λ p. new_cell config (if p == 1 then food else avatar) 0 p;
    gridmap = one_sector;
  };
}

abbrev view : Aabb Fixed
view = record { a = point 0 0; b = point 20 20 }

finds_food : find_target view 2 field ≡ some (some 1)
unfolding find_target query query_sectors query_cells consider prefer is_attractive_for intersects
    box_intersects_point new_cell fixed_float empty clip cells_at indices row_indices numbers_from
    rows_of cols_of normalize_box
finds_food = refl

find_target_attractive_example :
    (is_attractive_for (cell_at field 1) (cell_at field 2) ≡ true)
    × ((cell_at field 1).zombie ≡ false)
    × ((kind_code (cell_at field 1).kind ≡ 2)
        ⊎ (kind_code (cell_at field 1).kind ≡ 3)
        ⊎ ((kind_code (cell_at field 1).kind ≡ 1)
            × (same_pointer (cell_at field 1).player (cell_at field 2).player ≡ false)
            × (fixed_float.lt
                  ((cell_at field 1).mass *F fixed_float.literal 5 4)
                  (cell_at field 2).mass
                ≡ true)))
find_target_attractive_example = find_target_attractive view 2 1 field finds_food
