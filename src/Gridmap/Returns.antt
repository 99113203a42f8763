-- ===== src/Gridmap/Returns.antt =====
-- The loops of src/Gridmap.cpp stay inside the map, so that `insert` and `update` return.
use the_game_server.Gridmap.Rounds.{min_f-le}
use the_game_server.Gridmap.{min_f, max_f, Gridmap, clip, modify_cells, get_sector, is_empty}
use the_game_server.Base.{
  ℕ, ◌≤◌, ◌≡◌, refl, sym, subst, inl, inr, true, ◌&&◌, Option, none, some, List, [], ◌∷◌, ◌==◌,
  if◌then◌else◌, Bool-cases, length, insert, erase, if_either, false, arith, ◌⊎◌,
}
use the_game_server.Base.Float.{Float}
use the_game_server.Base.Options.{◌>>=◌, same_pointer}
use the_game_server.Geometry.{Aabb, Vec2D, contain}
use the_game_server.Gridmap.Bounds.{HasLines, IsMap, get_sector_total}
use the_game_server.Gridmap.Cells.{
  Placed, add_to, place, add_found, insert_cell, move_circle, update_cell, with_corners, erase_cell,
  insert_point, update_circle, insert_circle, enter, move_point, update_point,
}
use the_game_server.Entity.{get_aabb}
use the_game_server.Gridmap.Rounds.{
  Alike-refl, Alike-trans, IsHeld, IsMap-Alike, Returns, changed-Alike, erased-Alike, place-Returns,
}

module _ {F : Type 0} ⦃f : Float F⦄ (laws : HasLines F) where
  -- Neither corner lookup throws, whatever the box.
  get_sector-returns :
      (g : Gridmap F) (p : Vec2D F) → IsMap g → (found : Option ℕ) × (get_sector g p ≡ some found)
  get_sector-returns g p m = elim (get_sector_total laws m p) [
    | inl (inside, i, r, e) ↦ (some i, e)
    | inr (outside, e) ↦ (none, e)
  ]

  with_corners-Returns :
      (g : Gridmap F) (box : Aabb F) (next : Option ℕ → Option ℕ → Option (Placed F))
      → IsMap g
      → ((l r : Option ℕ) → Returns g (next l r))
      → Returns g (with_corners g box next)
  unfolding with_corners
  with_corners-Returns g box next m h =
      let (l, el) = get_sector-returns g box.a m in
      let (r, er) = get_sector-returns g box.b m in
      let (t, e, like) = h l r in (t, rw (el, er) e, like)

  -- Outside the map nothing is done.
  in_map-Returns :
      (box : Aabb F) (s : Placed F) (next : Option ℕ → Option ℕ → Option (Placed F))
      → IsMap s.grid
      → ((l r : Option ℕ) → Returns s.grid (next l r))
      → Returns s.grid (if is_empty box then some s else with_corners s.grid box next)
  in_map-Returns box s next m h = elim (Bool-cases (is_empty box)) [
    | inl off ↦ (s, rw off refl, Alike-refl s.grid)
    | inr on ↦ let (t, e, like) = with_corners-Returns s.grid box next m h in (t, rw on e, like)
  ]

  -- A point of the map is in a sector.
  in_sector :
      (g : Gridmap F) (p : Vec2D F)
      → IsMap g
      → contain g.box p ≡ true
      → (i : ℕ) × (get_sector g p ≡ some (some i))
  in_sector g p m inside = elim (get_sector_total laws m p) [
    | inl (_, i, r, e) ↦ (i, e)
    | inr (outside, e) ↦ cc
  ]

  insert_point-Returns :
      (ptr : ℕ) (s : Placed F)
      → IsMap s.grid
      → contain s.grid.box s.cell.position ≡ true
      → Returns s.grid (insert_point ptr s)
  unfolding insert_point add_found add_to
  insert_point-Returns ptr s m inside =
      let (i, e) = in_sector s.grid s.cell.position m inside in
      (add_to ptr i s, rw e refl, changed-Alike (insert ptr) i s.grid)

  module _ (le_trans : (a b c : F) → f.le a b ≡ true → f.le b c ≡ true → f.le a c ≡ true) where
    -- The bounds of a clipped box along an axis, when they are in order.
    axis_inside :
        (low high a b : F)
        → f.lt (min_f b high) (max_f a low) ≡ false
        → (f.le low (max_f a low) ≡ true)
          × (f.le (max_f a low) high ≡ true)
          × (f.le low (min_f b high) ≡ true)
          × (f.le (min_f b high) high ≡ true)
    axis_inside low high a b h =
        let above : f.le low (max_f a low) ≡ true =
          ground (arith, laws.le_refl low, laws.le_of_not_lt low a) in
        let below = min_f-le laws b high in
        let ordered = laws.le_of_not_lt (max_f a low) (min_f b high) h in
        (above, le_trans _ _ _ ordered below, le_trans _ _ _ above ordered, below)

    corners_inside :
        (g : Gridmap F) (box : Aabb F)
        → is_empty (clip g box) ≡ false
        → (contain g.box (clip g box).a ≡ true) × (contain g.box (clip g box).b ≡ true)
    unfolding clip contain
    corners_inside g box h =
        let x = axis_inside g.box.a.x g.box.b.x box.a.x box.b.x (ground (arith, h)) in
        let y = axis_inside g.box.a.y g.box.b.y box.a.y box.b.y (ground (arith, h)) in
        (ground (arith, x.0, x.1, y.0, y.1), ground (arith, x.2, x.3, y.2, y.3))

    insert_circle-Returns :
        (ptr : ℕ) (s : Placed F) → IsMap s.grid → Returns s.grid (insert_circle ptr s)
    unfolding insert_circle with_corners enter
    insert_circle-Returns ptr s m =
        let box = get_aabb s.cell in
        elim (Bool-cases (is_empty (clip s.grid box))) [
          | inl off ↦ (s, rw off refl, Alike-refl s.grid)
          | inr on ↦
              (let (a, b) = corners_inside s.grid box on in
                let (i, ei) = in_sector s.grid _ m a in
                let (j, ej) = in_sector s.grid _ m b in
                let (t, e, like) =
                  place-Returns laws ptr box
                    (record s {
                      cell = record s.cell {
                        left_top_sector = some i;
                        right_bottom_sector = some j;
                      };
                    })
                    m in
                (t, rw (on, ei, ej) e, like))
        ]

    -- On a map of a width and a height from 1 to 2 ^ 24, where `<=` is transitive, `insert` returns for a
    -- circle, and for a point that is inside the map's box: no index is out of range and no assertion
    -- fails. The map keeps its shape.
    pub insert_cell-Returns :
        (ptr : ℕ) (s : Placed F)
        → IsMap s.grid
        → (s.cell.material_point ≡ false) ⊎ (contain s.grid.box s.cell.position ≡ true)
        → Returns s.grid (insert_cell ptr s)
    unfolding insert_cell
    insert_cell-Returns ptr s m (inl circle) =
        if_either (Returns s.grid) s.cell.material_point (insert_point ptr s) (insert_circle ptr s)
          (λ point. cc) (λ _. insert_circle-Returns ptr s m)
    insert_cell-Returns ptr s m (inr inside) =
        if_either (Returns s.grid) s.cell.material_point (insert_point ptr s) (insert_circle ptr s)
          (λ _. insert_point-Returns ptr s m inside) (λ _. insert_circle-Returns ptr s m)

  -- A circle whose corners have moved, before it is placed.
  abbrev erased : ℕ → Placed F → Option ℕ → Option ℕ → Placed F
  erased ptr s l r =
      erase_cell ptr
        (record s { cell = record s.cell { left_top_sector = l; right_bottom_sector = r } })

  move_circle-Returns :
      (ptr : ℕ) (box : Aabb F) (s : Placed F) (l r : Option ℕ)
      → IsMap s.grid
      → Returns s.grid (move_circle ptr (clip s.grid box) s l r)
  unfolding move_circle erase_cell clip
  move_circle-Returns ptr box s l r m =
      let stays =
        same_pointer s.cell.left_top_sector l && same_pointer s.cell.right_bottom_sector r in
      if_either (Returns s.grid) stays (some s) (place ptr (clip s.grid box) (erased ptr s l r))
        (λ _. (s, refl, Alike-refl s.grid))
        (λ _.
          let like = erased-Alike ptr s.cell.sectors s.grid in
          let (t, e, like') = place-Returns laws ptr box (erased ptr s l r) (IsMap-Alike like m) in
          (t, e, Alike-trans like like'))

  -- A point that has left its sector.
  abbrev moved : ℕ → ℕ → Placed F → Placed F
  moved ptr current s = record {
    grid = record s.grid { sectors = modify_cells (erase ptr) current s.grid.sectors };
    cell = record s.cell { sectors = [] };
  }

  move_point-Returns :
      (ptr : ℕ) (is : List ℕ) (i : ℕ) (s : Placed F)
      → 1 ≤ length is
      → Returns s.grid (move_point ptr is (some i) s)
  unfolding move_point add_to
  move_point-Returns ptr [] i s h = elim h [ ]
  move_point-Returns ptr (current ∷ others) i s h = elim (Bool-cases (current == i)) [
    | inl stays ↦ (s, rw stays refl, Alike-refl s.grid)
    | inr moves ↦ (
      add_to ptr i (moved ptr current s),
      rw moves refl,
      Alike-trans (changed-Alike (erase ptr) current s.grid)
          (changed-Alike (insert ptr) i (moved ptr current s).grid),
    )
  ]

  update_point-Returns :
      (ptr : ℕ) (s : Placed F)
      → IsMap s.grid
      → 1 ≤ length s.cell.sectors
      → contain s.grid.box s.cell.position ≡ true
      → Returns s.grid (update_point ptr s)
  unfolding update_point
  update_point-Returns ptr s m held inside = elim (get_sector_total laws m s.cell.position) [
    | inl (_, i, r, e) ↦
        subst (λ r. Returns s.grid (r >>= λ found. move_point ptr s.cell.sectors found s)) (sym e)
          (move_point-Returns ptr s.cell.sectors i s held)
    | inr (outside, e) ↦ cc
  ]

  update_circle-Returns :
      (ptr : ℕ) (s : Placed F) → IsMap s.grid → Returns s.grid (update_circle ptr s)
  unfolding update_circle
  update_circle-Returns ptr s m =
      let box = get_aabb s.cell in
      in_map-Returns (clip s.grid box) s (move_circle ptr (clip s.grid box) s) m
        (λ l r. move_circle-Returns ptr box s l r m)

  -- On a map of a width and a height from 1 to 2 ^ 24, `update` returns for a circle, and for a point that
  -- is in a sector and inside the map's box: no index is out of range and no null pointer is followed.
  -- The map keeps its shape.
  pub update_cell-Returns :
      (ptr : ℕ) (s : Placed F) → IsMap s.grid → IsHeld s → Returns s.grid (update_cell ptr s)
  unfolding update_cell IsHeld
  update_cell-Returns ptr s m (inl circle) =
      if_either (Returns s.grid) s.cell.material_point (update_point ptr s) (update_circle ptr s)
        (λ point. cc) (λ _. update_circle-Returns ptr s m)
  update_cell-Returns ptr s m (inr (held, inside)) =
      if_either (Returns s.grid) s.cell.material_point (update_point ptr s) (update_circle ptr s)
        (λ _. update_point-Returns ptr s m held inside) (λ _. update_circle-Returns ptr s m)
