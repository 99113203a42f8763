-- ===== src/Gridmap/Links.antt =====
-- Sectors and cells of src/Gridmap.cpp name each other.
use the_game_server.Base.{
  ℕ, zero, suc, ◌≤◌, ◌<◌, ◌≡◌, refl, ap, subst, ◌∙◌, ◌≢◌, ◌⊎◌, inl, inr, false, ◌&&◌, Option, none,
  some, List, [], ◌∷◌, arith, ◌==◌, if◌then◌else◌, Bool-cases, length, contains, erase,
}
use mathlib.Core.Option.{some-injective, Option}
use the_game_server.Base.Float.{Float}
use the_game_server.Gridmap.{
  Sector, cells_at, modify_cells, get_sector, Gridmap, is_empty, clip, resize,
}
use the_game_server.Gridmap.Cells.{
  Placed, erase_cell, insert_circle, insert_point, add_found, insert_cell, move_circle, move_point,
  update_cell, update_circle, update_point, enter, with_corners,
}
use the_game_server.Geometry.{Aabb, Vec2D}
use the_game_server.Entity.{get_aabb, Cell}
use the_game_server.Base.Options.{>>=-eq-some, same_pointer, ◌>>=◌}
use the_game_server.Gridmap.Keeping.{
  cells_at-boxes, Keeps, Keeps-refl, Keeps-trans, Linked, add_to-Keeps, contains_modify_erase,
  erase_cell-Keeps, place-Keeps,
}

module _ {F : Type 0} ⦃f : Float F⦄ where
  get_sector-lt :
      (g : Gridmap F) (p : Vec2D F) (i : ℕ) → get_sector g p ≡ some (some i) → i < length g.sectors
  unfolding get_sector
  get_sector-lt g p i e = ground arith

  add_found-Keeps :
      (ptr : ℕ) (found : Option ℕ) (s t : Placed F)
      → ((i : ℕ) → found ≡ some i → i < length s.grid.sectors)
      → add_found ptr s found ≡ some t
      → Keeps ptr s t
  unfolding add_found
  add_found-Keeps ptr none s t r e = cc
  add_found-Keeps ptr (some i) s t r e =
      subst (Keeps ptr s) (some-injective _ _ e) (add_to-Keeps ptr i s (r i refl))

  insert_point-Keeps : (ptr : ℕ) (s t : Placed F) → insert_point ptr s ≡ some t → Keeps ptr s t
  unfolding insert_point
  insert_point-Keeps ptr s t e =
      let (found, a, b) = >>=-eq-some (get_sector s.grid s.cell.position) (add_found ptr s) e in
      add_found-Keeps ptr found s t (λ i h. get_sector-lt s.grid s.cell.position i (a ∙ ap some h))
        b

  with_corners_cases :
      (g : Gridmap F) (box : Aabb F) (next : Option ℕ → Option ℕ → Option (Placed F)) (t : Placed F)
      → with_corners g box next ≡ some t
      → (left_top : Option ℕ) × (right_bottom : Option ℕ) × (next left_top right_bottom ≡ some t)
  unfolding with_corners
  with_corners_cases g box next t e =
      let (l, a, e') =
        >>=-eq-some (get_sector g box.a) (λ l. get_sector g box.b >>= λ r. next l r) e in
      let (r, b, e'') = >>=-eq-some (get_sector g box.b) (λ r. next l r) e' in (l, r, e'')

  enter-Keeps :
      (ptr : ℕ) (box : Aabb F) (s : Placed F) (left_top right_bottom : Option ℕ) (t : Placed F)
      → enter ptr box s left_top right_bottom ≡ some t
      → Keeps ptr s t
  unfolding enter
  enter-Keeps ptr box s none right_bottom t e = cc
  enter-Keeps ptr box s (some i) none t e = cc
  enter-Keeps ptr box s (some i) (some j) t e =
      Keeps-trans (record { links = λ h. h; others = λ d i h. refl }) (place-Keeps ptr box _ t e)

  -- Outside the map nothing is done.
  in_map-Keeps :
      (ptr : ℕ) (box : Aabb F) (s t : Placed F) (next : Option ℕ → Option ℕ → Option (Placed F))
      → ((l r : Option ℕ) → next l r ≡ some t → Keeps ptr s t)
      → (if is_empty box then some s else with_corners s.grid box next) ≡ some t
      → Keeps ptr s t
  in_map-Keeps ptr box s t next keeps e = elim (Bool-cases (is_empty box)) [
    | inl off ↦ subst (Keeps ptr s) (some-injective _ _ (rw off at e)) (Keeps-refl ptr s)
    | inr on ↦ let (l, r, h) = with_corners_cases s.grid box next t (rw on at e) in keeps l r h
  ]

  insert_circle-Keeps : (ptr : ℕ) (s t : Placed F) → insert_circle ptr s ≡ some t → Keeps ptr s t
  unfolding insert_circle
  insert_circle-Keeps ptr s t e =
      let box = clip s.grid (get_aabb s.cell) in
      in_map-Keeps ptr box s t (enter ptr box s) (λ l r. enter-Keeps ptr box s l r t) e

  insert_cell-Keeps : (ptr : ℕ) (s t : Placed F) → insert_cell ptr s ≡ some t → Keeps ptr s t
  unfolding insert_cell
  insert_cell-Keeps ptr s t e = elim (Bool-cases s.cell.material_point) [
    | inl point ↦ insert_point-Keeps ptr s t (ground arith)
    | inr circle ↦ insert_circle-Keeps ptr s t (ground arith)
  ]

  leave-Keeps :
      (ptr current : ℕ) (s : Placed F)
      → current ∷ [] ≡ s.cell.sectors
      → Keeps ptr s (record {
        grid = record s.grid { sectors = modify_cells (erase ptr) current s.grid.sectors };
        cell = record s.cell { sectors = [] };
      })
  unfolding contains
  leave-Keeps ptr current s same = record {
    links = λ h j.
        ground (
          arith,
          h j,
          ap (contains j) same,
          contains_modify_erase ptr current s.grid.sectors ptr j,
        );
    others = λ d j h. ground (arith, contains_modify_erase ptr current s.grid.sectors d j);
  }

  length-modify_cells :
      (change : List ℕ → List ℕ) (i : ℕ) (ss : List (Sector F))
      → length (modify_cells change i ss) ≡ length ss
  unfolding modify_cells
  length-modify_cells change i [] = refl
  length-modify_cells change zero (s ∷ ss) = refl
  length-modify_cells change (suc i) (s ∷ ss) = ap suc (length-modify_cells change i ss)

  -- A point is in one sector, which is left before the other is entered.
  move_point-Keeps :
      (ptr : ℕ) (is : List ℕ) (target : Option ℕ) (s t : Placed F)
      → length is ≤ 1
      → is ≡ s.cell.sectors
      → ((i : ℕ) → target ≡ some i → i < length s.grid.sectors)
      → move_point ptr is target s ≡ some t
      → Keeps ptr s t
  unfolding move_point
  move_point-Keeps ptr [] target s t one same r e = cc
  move_point-Keeps ptr (current ∷ others) none s t one same r e = cc
  move_point-Keeps ptr (current ∷ []) (some i) s t one same r e = elim (Bool-cases (current == i)) [
    | inl stays ↦ subst (Keeps ptr s) (some-injective _ _ (rw stays at e)) (Keeps-refl ptr s)
    | inr moves ↦ subst (Keeps ptr s) (some-injective _ _ (rw moves at e)) (
        Keeps-trans (leave-Keeps ptr current s same)
          (add_to-Keeps ptr i _ (rw length-modify_cells (r i refl))))
  ]
  move_point-Keeps ptr (current ∷ other ∷ others) (some i) s t one same r e = absurd (omega arith)

  move_circle-Keeps :
      (ptr : ℕ) (box : Aabb F) (s : Placed F) (left_top right_bottom : Option ℕ) (t : Placed F)
      → move_circle ptr box s left_top right_bottom ≡ some t
      → Keeps ptr s t
  unfolding move_circle
  move_circle-Keeps ptr box s left_top right_bottom t e =
      let stays =
        same_pointer s.cell.left_top_sector left_top
        && same_pointer s.cell.right_bottom_sector right_bottom in
      let marked : Placed F = record s {
        cell = record s.cell { left_top_sector = left_top; right_bottom_sector = right_bottom };
      } in
      elim (Bool-cases stays) [
        | inl y ↦ subst (Keeps ptr s) (some-injective _ _ (rw y at e)) (Keeps-refl ptr s)
        | inr n ↦
            Keeps-trans {t = marked} (record { links = λ h. h; others = λ d i h. refl })
              (Keeps-trans (erase_cell-Keeps ptr marked) (place-Keeps ptr box _ t (rw n at e)))
      ]

  update_circle-Keeps : (ptr : ℕ) (s t : Placed F) → update_circle ptr s ≡ some t → Keeps ptr s t
  unfolding update_circle
  update_circle-Keeps ptr s t e =
      let box = clip s.grid (get_aabb s.cell) in
      in_map-Keeps ptr box s t (move_circle ptr box s) (λ l r. move_circle-Keeps ptr box s l r t) e

  update_point-Keeps :
      (ptr : ℕ) (s t : Placed F)
      → length s.cell.sectors ≤ 1
      → update_point ptr s ≡ some t
      → Keeps ptr s t
  unfolding update_point
  update_point-Keeps ptr s t one e =
      let (found, a, b) =
        >>=-eq-some (get_sector s.grid s.cell.position)
          (λ found. move_point ptr s.cell.sectors found s) e in
      move_point-Keeps ptr s.cell.sectors found s t one refl
        (λ i h. get_sector-lt s.grid s.cell.position i (a ∙ ap some h)) b

  update_cell-Keeps :
      (ptr : ℕ) (s t : Placed F)
      → (s.cell.material_point ≡ false) ⊎ (length s.cell.sectors ≤ 1)
      → update_cell ptr s ≡ some t
      → Keeps ptr s t
  unfolding update_cell
  update_cell-Keeps ptr s t one e = elim (Bool-cases s.cell.material_point) [
    | inl point ↦ update_point-Keeps ptr s t (ground arith) (ground arith)
    | inr circle ↦ update_circle-Keeps ptr s t (ground arith)
  ]

  any_operation-Keeps :
      (ptr : ℕ) (s t : Placed F)
      → (s.cell.material_point ≡ false) ⊎ (length s.cell.sectors ≤ 1)
      → (insert_cell ptr s ≡ some t) ⊎ (update_cell ptr s ≡ some t) ⊎ (erase_cell ptr s ≡ t)
      → Keeps ptr s t
  any_operation-Keeps ptr s t one (inl e) = insert_cell-Keeps ptr s t e
  any_operation-Keeps ptr s t one (inr (inl e)) = update_cell-Keeps ptr s t one e
  any_operation-Keeps ptr s t one (inr (inr e)) = subst (Keeps ptr s) e (erase_cell-Keeps ptr s)

  -- A cell that is in no sector is linked to a new map.
  pub resize-Linked :
      (ptr width height power : ℕ) (cell : Cell F)
      → cell.sectors ≡ []
      → Linked ptr (record { grid = resize width height power; cell = cell })
  unfolding resize contains
  resize-Linked ptr width height power cell e i = rw (e, cells_at-boxes F _ _ _ 0 0 0 i) refl

  -- Whenever `insert` or `update` returns, and after `erase`, the sectors that hold the cell are those
  -- that the cell holds, if they were before, and any other cell is in a sector exactly when it was before.
  -- `update` is given a cell that is no point or that is in one sector at most.
  pub operations_keep_links :
      (ptr : ℕ) (s t : Placed F) (other i : ℕ)
      → Linked ptr s
      → (s.cell.material_point ≡ false) ⊎ (length s.cell.sectors ≤ 1)
      → other ≢ ptr
      → (insert_cell ptr s ≡ some t) ⊎ (update_cell ptr s ≡ some t) ⊎ (erase_cell ptr s ≡ t)
      → Linked ptr t
        × (contains other (cells_at t.grid.sectors i) ≡ contains other (cells_at s.grid.sectors i))
  operations_keep_links ptr s t other i linked one differs e =
      let keeps = any_operation-Keeps ptr s t one e in
      (keeps.links linked, keeps.others other i differs)
