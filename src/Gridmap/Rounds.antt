-- ===== src/Gridmap/Rounds.antt =====
-- The loops of src/Gridmap.cpp stay inside the map.
use the_game_server.Base.{
  ℕ, zero, suc, ◌+◌, ◌-◌, ◌*◌, ◌≤◌, ◌<◌, ◌≡◌, refl, ap, ◌∙◌, ◌⊎◌, inl, inr, true, false, Option,
  some, List, [], ◌∷◌, arith, Bool-cases, length, All, insert, erase,
}
use the_game_server.Base.Float.{Float}
use the_game_server.Base.Options.{◌>>=◌}
use the_game_server.Geometry.{Aabb, box_intersects_circle, contain}
use the_game_server.Gridmap.{
  Gridmap, Sector, clip, modify_cells, numbers, numbers_from, rows_of, cols_of, min_f,
}
use the_game_server.Gridmap.Bounds.{HasLines, index_lt, IsMap, row_lt, col_lt}
use the_game_server.Gridmap.Cells.{Placed, erase_from, visit, visit_cols, visit_rows, add_to, place}
use the_game_server.Entity.{circle_of}

numbers_from-All :
    (n first bound : ℕ) → n ≤ bound - first → All (λ i. i < bound) (numbers_from n first)
unfolding numbers_from
numbers_from-All zero first bound h = record {}
numbers_from-All (suc n) first bound h =
    (omega arith, numbers_from-All n (first + 1) bound (omega arith))

pub numbers-All : (first last bound : ℕ) → last < bound → All (λ i. i < bound) (numbers first last)
unfolding numbers
numbers-All first last bound h = numbers_from-All (last + 1 - first) first bound (omega arith)

length-modify_cells :
    (F : Type 0) (change : List ℕ → List ℕ) (i : ℕ) (ss : List (Sector F))
    → length (modify_cells change i ss) ≡ length ss
unfolding modify_cells
length-modify_cells F change i [] = refl
length-modify_cells F change zero (s ∷ ss) = refl
length-modify_cells F change (suc i) (s ∷ ss) = ap suc (length-modify_cells F change i ss)

module _ {F : Type 0} where
  -- Only the cells of the sectors differ.
  pub record Alike (g h : Gridmap F) : Type 0 where
    pub as_many : length h.sectors ≡ length g.sectors
    pub box_same : h.box ≡ g.box
    pub width_same : h.width ≡ g.width
    pub height_same : h.height ≡ g.height
    pub rows_same : h.row_count ≡ g.row_count
    pub cols_same : h.col_count ≡ g.col_count
    pub power_same : h.power ≡ g.power

  pub Alike-refl : (g : Gridmap F) → Alike g g
  Alike-refl g = record {
    as_many = refl;
    box_same = refl;
    width_same = refl;
    height_same = refl;
    rows_same = refl;
    cols_same = refl;
    power_same = refl;
  }

  pub Alike-trans : {g h k : Gridmap F} → Alike g h → Alike h k → Alike g k
  Alike-trans a b = record {
    as_many = b.as_many ∙ a.as_many;
    box_same = b.box_same ∙ a.box_same;
    width_same = b.width_same ∙ a.width_same;
    height_same = b.height_same ∙ a.height_same;
    rows_same = b.rows_same ∙ a.rows_same;
    cols_same = b.cols_same ∙ a.cols_same;
    power_same = b.power_same ∙ a.power_same;
  }

  pub changed-Alike :
      (change : List ℕ → List ℕ) (i : ℕ) (g : Gridmap F)
      → Alike g (record g { sectors = modify_cells change i g.sectors })
  changed-Alike change i g = record {
    as_many = length-modify_cells F change i g.sectors;
    box_same = refl;
    width_same = refl;
    height_same = refl;
    rows_same = refl;
    cols_same = refl;
    power_same = refl;
  }

  erase_from-as_many :
      (p : ℕ) (is : List ℕ) (ss : List (Sector F)) → length (erase_from p is ss) ≡ length ss
  unfolding erase_from
  erase_from-as_many p [] ss = refl
  erase_from-as_many p (i ∷ is) ss =
      erase_from-as_many p is _ ∙ length-modify_cells F (erase p) i ss

  pub erased-Alike :
      (p : ℕ) (is : List ℕ) (g : Gridmap F)
      → Alike g (record g { sectors = erase_from p is g.sectors })
  erased-Alike p is g = record {
    as_many = erase_from-as_many p is g.sectors;
    box_same = refl;
    width_same = refl;
    height_same = refl;
    rows_same = refl;
    cols_same = refl;
    power_same = refl;
  }

  -- The result is there, on a map like the one before.
  abbrev pub Returns : Gridmap F → Option (Placed F) → Type 0
  Returns g r = (t : Placed F) × (r ≡ some t) × Alike g t.grid

  Returns-then :
      {g : Gridmap F} {r : Option (Placed F)} {next : Placed F → Option (Placed F)}
      → Returns g r
      → ((t : Placed F) → Alike g t.grid → Returns t.grid (next t))
      → Returns g (r >>= next)
  Returns-then (t, e, like) rest =
      let (u, e', like') = rest t like in (u, rw (e, e') refl, Alike-trans like like')

module _ {F : Type 0} ⦃f : Float F⦄ where
  pub IsMap-Alike : {g h : Gridmap F} → Alike g h → IsMap g → IsMap h
  IsMap-Alike a m = record {
    sized = rw (a.as_many, a.rows_same, a.cols_same) m.sized;
    rows = rw (a.rows_same, a.height_same, a.power_same) m.rows;
    cols = rw (a.cols_same, a.width_same, a.power_same) m.cols;
    right = rw (a.box_same, a.width_same) m.right;
    bottom = rw (a.box_same, a.height_same) m.bottom;
    wide = rw a.width_same m.wide;
    high = rw a.height_same m.high;
  }

  visit-Returns :
      (ptr i : ℕ) (box : Aabb F) (s : Placed F)
      → i < length s.grid.sectors
      → Returns s.grid (visit ptr i box s)
  unfolding visit add_to
  visit-Returns ptr i box s r = elim (Bool-cases (box_intersects_circle box (circle_of s.cell))) [
    | inl hit ↦ (add_to ptr i s, ground arith, changed-Alike (insert ptr) i s.grid)
    | inr miss ↦ (s, rw miss refl, Alike-refl s.grid)
  ]

  -- Every sector of these rows and columns is on the map.
  abbrev pub OnMap : Gridmap F → List ℕ → List ℕ → Type 0
  OnMap g rows cols =
      All (λ row. row < g.row_count) rows
      × All (λ col. col < g.col_count) cols
      × (length g.sectors ≡ g.row_count * g.col_count)

  OnMap-Alike :
      (rows cols : List ℕ) {g h : Gridmap F} → Alike g h → OnMap g rows cols → OnMap h rows cols
  OnMap-Alike rows cols a (rs, cs, sized) =
      (rw a.rows_same rs, rw a.cols_same cs, rw (a.as_many, a.rows_same, a.cols_same) sized)

  visit_cols-Returns :
      (ptr row x y size : ℕ) (cols : List ℕ) (s : Placed F)
      → row < s.grid.row_count
      → OnMap s.grid [] cols
      → Returns s.grid (visit_cols ptr row x y size cols s)
  unfolding visit_cols
  visit_cols-Returns ptr row x y size [] s r m = (s, refl, Alike-refl s.grid)
  visit_cols-Returns ptr row x y size (col ∷ cols) s r (_, (c, cs), sized) =
      Returns-then
        (visit-Returns ptr _ _ s
          (rw sized (index_lt row col s.grid.row_count s.grid.col_count r c)))
        (λ t like.
          visit_cols-Returns ptr row (x + size) y size cols t (rw like.rows_same r)
            (OnMap-Alike [] cols like (record {}, cs, sized)))

  visit_rows-Returns :
      (ptr x y size : ℕ) (rows cols : List ℕ) (s : Placed F)
      → OnMap s.grid rows cols
      → Returns s.grid (visit_rows ptr x y size rows cols s)
  unfolding visit_rows
  visit_rows-Returns ptr x y size [] cols s m = (s, refl, Alike-refl s.grid)
  visit_rows-Returns ptr x y size (row ∷ rows) cols s ((r, rs), cs, sized) =
      Returns-then (visit_cols-Returns ptr row x y size cols s r (_, cs, sized)) (λ t like.
        visit_rows-Returns ptr x (y + size) size rows cols t
          (OnMap-Alike rows cols like (rs, cs, sized)))

  -- What `update` is given: a circle, or a point that is in a sector and has not left the map.
  unfoldable pub IsHeld : Placed F → Type 0
  IsHeld s =
      (s.cell.material_point ≡ false)
      ⊎ (1 ≤ length s.cell.sectors) × (contain s.grid.box s.cell.position ≡ true)

module _ {F : Type 0} ⦃f : Float F⦄ (laws : HasLines F) where
  open laws use {le_refl, le_of_not_lt}

  pub min_f-le : (a b : F) → f.le (min_f a b) b ≡ true
  min_f-le a b = ground (arith, le_refl b, le_of_not_lt a b)

  pub place-Returns :
      (ptr : ℕ) (box : Aabb F) (s : Placed F)
      → IsMap s.grid
      → Returns s.grid (place ptr (clip s.grid box) s)
  unfolding place clip rows_of cols_of
  place-Returns ptr box s m = visit_rows-Returns ptr _ _ _ _ _ s (
    numbers-All _ _ _ (row_lt laws m _ (min_f-le box.b.y s.grid.box.b.y)),
    numbers-All _ _ _ (col_lt laws m _ (min_f-le box.b.x s.grid.box.b.x)),
    m.sized,
  )
