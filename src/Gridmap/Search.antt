-- ===== src/Gridmap/Search.antt =====
-- src/Gridmap.cpp: the queries. The cells of a sector are visited in the order of its list; in the code
-- it is the order of their addresses.
use the_game_server.Base.{
  ℕ, ◌+◌, Bool, true, not, ◌&&◌, Option, none, some, List, [], ◌∷◌, ltb, if◌then◌else◌, length,
}
use the_game_server.Base.Float.{Float}
use the_game_server.Base.Options.{◌>>=◌}
use the_game_server.Geometry.{Aabb, box_intersects_point}
use the_game_server.Gridmap.{Gridmap, clip, cells_at, indices, is_empty, rows_of, cols_of}
use the_game_server.Entity.{Cell, intersects}

-- What a handler leaves, and whether the query goes on.
pub record Visit (S : Type 0) : Type 0 where
  pub state : S
  pub goes_on : Bool

module _ {F : Type 0} {S : Type 0} ⦃f : Float F⦄ (cell_of : ℕ → Cell F)
    (handler : ℕ → S → Visit S) where
  -- `for (Cell* obj : sector.cells)`
  unfoldable pub query_cells : Aabb F → List ℕ → S → Visit S
  query_cells box [] s = record { state = s; goes_on = true }
  query_cells box (p ∷ ps) s =
      if intersects (cell_of p) box
      then (let v = handler p s in
          let rest = query_cells box ps v.state in if v.goes_on then rest else v)
      else query_cells box ps s

  unfoldable pub query_sectors : Gridmap F → Aabb F → List ℕ → S → Option (Visit S)
  unfolding query_cells
  query_sectors g box [] s = some (record { state = s; goes_on = true })
  query_sectors g box (i ∷ is) s =
      let v = query_cells box (cells_at g.sectors i) s in
      let rest = query_sectors g box is v.state in
      if ltb i (length g.sectors) then (if v.goes_on then rest else some v) else none

  -- The handler works on a state of its own, and leaves the map as it is.
  unfoldable pub query : Gridmap F → Aabb F → S → Option S
  unfolding query_sectors
  query g box s =
      let aabb = clip g box in
      if is_empty aabb
      then some s
      else do v ← query_sectors g aabb (indices g (rows_of g aabb) (cols_of g aabb)) s; some v.state

module _ {F : Type 0} ⦃f : Float F⦄ (cell_of : ℕ → Cell F) where
  abbrev pub counts : Aabb F → ℕ → Bool
  counts box p = not (cell_of p).zombie && box_intersects_point box (cell_of p).position

  unfoldable pub count_cells : Aabb F → List ℕ → ℕ
  count_cells box [] = 0
  count_cells box (p ∷ ps) = if counts box p then count_cells box ps + 1 else count_cells box ps

  unfoldable pub count_sectors : Gridmap F → Aabb F → List ℕ → Option ℕ
  count_sectors g box [] = some 0
  count_sectors g box (i ∷ is) =
      let rest = count_sectors g box is in
      if ltb i (length g.sectors)
      then (do n ← rest; some (count_cells box (cells_at g.sectors i) + n))
      else none

  unfoldable pub count_in : Gridmap F → Aabb F → Option ℕ
  count_in g box =
      let aabb = clip g box in
      if is_empty aabb
      then some 0
      else count_sectors g aabb (indices g (rows_of g aabb) (cols_of g aabb))
