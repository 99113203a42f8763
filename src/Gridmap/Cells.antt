-- ===== src/Gridmap/Cells.antt =====
-- src/Gridmap.cpp: how a cell enters, leaves and changes its sectors.
use the_game_server.Base.{
  ℕ, ◌+◌, ◌*◌, ◌^◌, ◌&&◌, Option, none, some, List, [], ◌∷◌, ltb, ◌==◌, if◌then◌else◌, length,
  insert, erase,
}
use the_game_server.Base.Float.{Float, of_ℕ}
use the_game_server.Base.Options.{◌>>=◌, same_pointer}
use the_game_server.Geometry.{Aabb, vec, box_intersects_circle}
use the_game_server.Entity.{Cell, circle_of, get_aabb}
use the_game_server.Gridmap.{
  Gridmap, Sector, index_of, line_of, clip, get_sector, is_empty, rows_of, cols_of, modify_cells,
}

-- A map and one of the cells.
pub record Placed (F : Type 0) : Type 0 where
  pub grid : Gridmap F
  pub cell : Cell F

module _ {F : Type 0} where
  unfoldable pub erase_from : ℕ → List ℕ → List (Sector F) → List (Sector F)
  erase_from ptr [] ss = ss
  erase_from ptr (i ∷ is) ss = erase_from ptr is (modify_cells (erase ptr) i ss)

module _ {F : Type 0} ⦃f : Float F⦄ where
  -- `sector->cells.insert(cell); cell->sectors.insert(sector);`
  unfoldable pub add_to : ℕ → ℕ → Placed F → Placed F
  add_to ptr i s = record {
    grid = record s.grid { sectors = modify_cells (insert ptr) i s.grid.sectors };
    cell = record s.cell { sectors = insert i s.cell.sectors };
  }

  -- The body of the loop of `insert` and `update`.
  unfoldable pub visit : ℕ → ℕ → Aabb F → Placed F → Option (Placed F)
  unfolding add_to
  visit ptr i box s =
      if box_intersects_circle box (circle_of s.cell)
      then (if ltb i (length s.grid.sectors) then some (add_to ptr i s) else none)
      else some s

  abbrev square : ℕ → ℕ → ℕ → Aabb F
  square x y size = record {
    a = vec (of_ℕ x) (of_ℕ y);
    b = vec (of_ℕ (x + size)) (of_ℕ (y + size));
  }

  unfoldable pub visit_cols : ℕ → ℕ → ℕ → ℕ → ℕ → List ℕ → Placed F → Option (Placed F)
  visit_cols ptr row x y size [] s = some s
  visit_cols ptr row x y size (col ∷ cols) s = do
    t ← visit ptr (index_of s.grid row col) (square x y size) s
    visit_cols ptr row (x + size) y size cols t

  unfoldable pub visit_rows : ℕ → ℕ → ℕ → ℕ → List ℕ → List ℕ → Placed F → Option (Placed F)
  visit_rows ptr x y size [] cols s = some s
  visit_rows ptr x y size (row ∷ rows) cols s = do
    t ← visit_cols ptr row x y size cols s
    visit_rows ptr x (y + size) size rows cols t

  unfoldable pub place : ℕ → Aabb F → Placed F → Option (Placed F)
  place ptr box s =
      let g = s.grid in
      let size = 2 ^ g.power in
      visit_rows ptr (line_of g box.a.x * size) (line_of g box.a.y * size) size (rows_of g box)
        (cols_of g box) s

  -- `assert(sector)` fails for a point that is in no sector.
  unfoldable pub add_found : ℕ → Placed F → Option ℕ → Option (Placed F)
  add_found ptr s none = none
  add_found ptr s (some i) = some (add_to ptr i s)

  unfoldable pub insert_point : ℕ → Placed F → Option (Placed F)
  unfolding add_found
  insert_point ptr s = do found ← get_sector s.grid s.cell.position; add_found ptr s found

  -- The sectors of the corners of a box, for what is done with them.
  unfoldable pub with_corners :
      Gridmap F → Aabb F → (Option ℕ → Option ℕ → Option (Placed F)) → Option (Placed F)
  with_corners g box next = do
    left_top ← get_sector g box.a
    right_bottom ← get_sector g box.b
    next left_top right_bottom

  -- The two assertions are that each corner is in a sector.
  unfoldable pub enter : ℕ → Aabb F → Placed F → Option ℕ → Option ℕ → Option (Placed F)
  enter ptr box s none right_bottom = none
  enter ptr box s (some i) none = none
  enter ptr box s (some i) (some j) =
      place ptr box (record s {
        cell = record s.cell { left_top_sector = some i; right_bottom_sector = some j };
      })

  unfoldable pub insert_circle : ℕ → Placed F → Option (Placed F)
  insert_circle ptr s =
      let box = clip s.grid (get_aabb s.cell) in
      if is_empty box then some s else with_corners s.grid box (enter ptr box s)

  unfoldable pub insert_cell : ℕ → Placed F → Option (Placed F)
  unfolding insert_point insert_circle
  insert_cell ptr s = if s.cell.material_point then insert_point ptr s else insert_circle ptr s

  unfoldable pub erase_cell : ℕ → Placed F → Placed F
  unfolding erase_from
  erase_cell ptr s = record {
    grid = record s.grid { sectors = erase_from ptr s.cell.sectors s.grid.sectors };
    cell = record s.cell { sectors = [] };
  }

  -- A point that is in no sector, or that has left the map, is dereferenced.
  unfoldable pub move_point : ℕ → List ℕ → Option ℕ → Placed F → Option (Placed F)
  move_point ptr [] target s = none
  move_point ptr (current ∷ others) none s = none
  move_point ptr (current ∷ others) (some i) s =
      if current == i
      then some s
      else some (
          add_to ptr i (record {
            grid = record s.grid { sectors = modify_cells (erase ptr) current s.grid.sectors };
            cell = record s.cell { sectors = [] };
          }))

  unfoldable pub update_point : ℕ → Placed F → Option (Placed F)
  unfolding move_point
  update_point ptr s = do
    found ← get_sector s.grid s.cell.position
    move_point ptr s.cell.sectors found s

  -- The assertions on the corners of a circle that has moved are left out.
  unfoldable pub move_circle : ℕ → Aabb F → Placed F → Option ℕ → Option ℕ → Option (Placed F)
  move_circle ptr box s left_top right_bottom =
      if same_pointer s.cell.left_top_sector left_top
        && same_pointer s.cell.right_bottom_sector right_bottom
      then some s
      else place ptr box (
          erase_cell ptr (record s {
            cell = record s.cell { left_top_sector = left_top; right_bottom_sector = right_bottom };
          }))

  unfoldable pub update_circle : ℕ → Placed F → Option (Placed F)
  update_circle ptr s =
      let box = clip s.grid (get_aabb s.cell) in
      if is_empty box then some s else with_corners s.grid box (move_circle ptr box s)

  unfoldable pub update_cell : ℕ → Placed F → Option (Placed F)
  unfolding update_point update_circle
  update_cell ptr s = if s.cell.material_point then update_point ptr s else update_circle ptr s
