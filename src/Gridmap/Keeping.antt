-- ===== src/Gridmap/Keeping.antt =====
-- The loops of src/Gridmap.cpp keep the links between sectors and cells.
use the_game_server.Base.{
  ℕ, zero, suc, ◌+◌, ◌<◌, ◌≡◌, refl, subst, ◌∙◌, ◌≢◌, inl, inr, true, false, ◌&&◌, some, List, [],
  ◌∷◌, arith, ltb, ◌==◌, if◌then◌else◌, Bool-cases, length, contains, insert, erase, contains-erase,
  contains-insert,
}
use mathlib.Core.Option.{some-injective}
use the_game_server.Base.Float.{Float}
use the_game_server.Gridmap.{Sector, cells_at, modify_cells, boxes}
use the_game_server.Gridmap.Cells.{
  Placed, add_to, erase_cell, erase_from, place, visit, visit_cols, visit_rows,
}
use the_game_server.Geometry.{Aabb, box_intersects_circle}
use the_game_server.Entity.{circle_of}
use the_game_server.Base.Options.{>>=-eq-some}

module _ {F : Type 0} where
  contains_modify_insert :
      (p i : ℕ) (ss : List (Sector F)) (d j : ℕ)
      → i < length ss
      → contains d (cells_at (modify_cells (insert p) i ss) j)
        ≡ (if i == j && p == d then true else contains d (cells_at ss j))
  unfolding cells_at modify_cells
  contains_modify_insert p i [] d j h = elim h [ ]
  contains_modify_insert p zero (s ∷ ss) d zero h = ground (arith, contains-insert p d s.cells)
  contains_modify_insert p zero (s ∷ ss) d (suc j) h = ground arith
  contains_modify_insert p (suc i) (s ∷ ss) d zero h = ground arith
  contains_modify_insert p (suc i) (s ∷ ss) d (suc j) h =
      ground (arith, contains_modify_insert p i ss d j)

  pub contains_modify_erase :
      (p i : ℕ) (ss : List (Sector F)) (d j : ℕ)
      → contains d (cells_at (modify_cells (erase p) i ss) j)
        ≡ (if i == j && p == d then false else contains d (cells_at ss j))
  unfolding cells_at modify_cells
  contains_modify_erase p i [] d j = unfold contains in ground arith
  contains_modify_erase p zero (s ∷ ss) d zero = ground (arith, contains-erase p d s.cells)
  contains_modify_erase p zero (s ∷ ss) d (suc j) = ground arith
  contains_modify_erase p (suc i) (s ∷ ss) d zero = ground arith
  contains_modify_erase p (suc i) (s ∷ ss) d (suc j) =
      ground (arith, contains_modify_erase p i ss d j)

  contains-erase_from :
      (p : ℕ) (is : List ℕ) (ss : List (Sector F)) (d j : ℕ)
      → contains d (cells_at (erase_from p is ss) j)
        ≡ (if contains j is && p == d then false else contains d (cells_at ss j))
  unfolding erase_from contains
  contains-erase_from p [] ss d j = ground arith
  contains-erase_from p (i ∷ is) ss d j = ground (
    arith,
    contains-erase_from p is (modify_cells (erase p) i ss) d j,
    contains_modify_erase p i ss d j,
  )

  -- The sectors that hold the cell are those that the cell holds.
  abbrev pub Linked : ℕ → Placed F → Type 0
  Linked ptr s = (i : ℕ) → contains ptr (cells_at s.grid.sectors i) ≡ contains i s.cell.sectors

  -- The link is kept, and no sector gains or loses another cell.
  pub record Keeps (ptr : ℕ) (s t : Placed F) : Type 0 where
    pub links : Linked ptr s → Linked ptr t
    pub others :
        (d i : ℕ)
        → d ≢ ptr
        → contains d (cells_at t.grid.sectors i) ≡ contains d (cells_at s.grid.sectors i)

  pub Keeps-refl : (ptr : ℕ) (s : Placed F) → Keeps ptr s s
  Keeps-refl ptr s = record { links = λ h. h; others = λ d i h. refl }

  pub Keeps-trans : {ptr : ℕ} {s t u : Placed F} → Keeps ptr s t → Keeps ptr t u → Keeps ptr s u
  Keeps-trans a b = record {
    links = λ h. b.links (a.links h);
    others = λ d i h. b.others d i h ∙ a.others d i h;
  }

pub cells_at-boxes :
    (F : Type 0) ⦃f : Float F⦄ (n size cols id x y i : ℕ)
    → cells_at (boxes {F = F} n size cols id x y) i ≡ []
unfolding boxes cells_at
cells_at-boxes F zero size cols id x y i = refl
cells_at-boxes F (suc n) size cols id x y zero = refl
cells_at-boxes F (suc n) size cols id x y (suc i) = cells_at-boxes F n size cols (id + 1) _ _ i

module _ {F : Type 0} ⦃f : Float F⦄ where
  pub add_to-Keeps :
      (ptr i : ℕ) (s : Placed F) → i < length s.grid.sectors → Keeps ptr s (add_to ptr i s)
  unfolding add_to
  add_to-Keeps ptr i s r = record {
    links = λ h j. ground (
      arith,
      h j,
      contains_modify_insert ptr i s.grid.sectors ptr j r,
      contains-insert i j s.cell.sectors,
    );
    others = λ d j h. ground (arith, contains_modify_insert ptr i s.grid.sectors d j r);
  }

  pub erase_cell-Keeps : (ptr : ℕ) (s : Placed F) → Keeps ptr s (erase_cell ptr s)
  unfolding erase_cell contains
  erase_cell-Keeps ptr s = record {
    links = λ h j. ground (arith, h j, contains-erase_from ptr s.cell.sectors s.grid.sectors ptr j);
    others = λ d j h. ground (arith, contains-erase_from ptr s.cell.sectors s.grid.sectors d j);
  }

  visit-Keeps :
      (ptr i : ℕ) (box : Aabb F) (s t : Placed F) → visit ptr i box s ≡ some t → Keeps ptr s t
  unfolding visit
  visit-Keeps ptr i box s t e = elim (Bool-cases (box_intersects_circle box (circle_of s.cell))) [
    | inl hit ↦ elim (Bool-cases (ltb i (length s.grid.sectors))) [
      | inl r ↦
          subst (Keeps ptr s) (some-injective _ _ (rw (hit, r) at e))
            (add_to-Keeps ptr i s (ground arith))
      | inr r ↦ cc (rw (hit, r) at e)
    ]
    | inr miss ↦ subst (Keeps ptr s) (some-injective _ _ (rw miss at e)) (Keeps-refl ptr s)
  ]

  visit_cols-Keeps :
      (ptr row x y size : ℕ) (cols : List ℕ) (s t : Placed F)
      → visit_cols ptr row x y size cols s ≡ some t
      → Keeps ptr s t
  unfolding visit_cols
  visit_cols-Keeps ptr row x y size [] s t e =
      subst (Keeps ptr s) (some-injective _ _ e) (Keeps-refl ptr s)
  visit_cols-Keeps ptr row x y size (col ∷ cols) s t e =
      let (u, first, rest) = >>=-eq-some _ _ e in
      Keeps-trans (visit-Keeps ptr _ _ s u first)
        (visit_cols-Keeps ptr row (x + size) y size cols u t rest)

  visit_rows-Keeps :
      (ptr x y size : ℕ) (rows cols : List ℕ) (s t : Placed F)
      → visit_rows ptr x y size rows cols s ≡ some t
      → Keeps ptr s t
  unfolding visit_rows
  visit_rows-Keeps ptr x y size [] cols s t e =
      subst (Keeps ptr s) (some-injective _ _ e) (Keeps-refl ptr s)
  visit_rows-Keeps ptr x y size (row ∷ rows) cols s t e =
      let (u, first, rest) = >>=-eq-some _ _ e in
      Keeps-trans (visit_cols-Keeps ptr row x y size cols s u first)
        (visit_rows-Keeps ptr x (y + size) size rows cols u t rest)

  pub place-Keeps :
      (ptr : ℕ) (box : Aabb F) (s t : Placed F) → place ptr box s ≡ some t → Keeps ptr s t
  unfolding place
  place-Keeps ptr box s t e = visit_rows-Keeps ptr _ _ _ _ _ s t e
