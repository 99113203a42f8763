-- ===== src/Gridmap/Queries.antt =====
-- What the queries of src/Gridmap.cpp visit and count.
use the_game_server.Base.{
  ℕ, ◌≡◌, refl, Bool, true, List, [], ◌∷◌, ◌++◌, arith, if◌then◌else◌, All, ◌<◌, length, ◌*◌,
  All-append, some, length-append, Bool-cases, inl, inr, false, ◌&&◌,
}
use the_game_server.Base.Float.{Float}
use the_game_server.Geometry.{Aabb, box_intersects_point}
use the_game_server.Gridmap.{
  Gridmap, clip, cells_at, indices, is_empty, rows_of, cols_of, row_indices,
}
use the_game_server.Gridmap.Search.{
  Visit, count_cells, count_sectors, query_cells, query_sectors, counts, count_in, query,
}
use the_game_server.Entity.{Cell, intersects}
use the_game_server.Gridmap.Rounds.{OnMap, numbers-All, min_f-le}
use the_game_server.Gridmap.Bounds.{index_lt, HasLines, IsMap, row_lt, col_lt}

-- The members that pass a test, in order.
pub select : (ℕ → Bool) → List ℕ → List ℕ
select test [] = []
select test (p ∷ ps) = if test p then p ∷ select test ps else select test ps

select-append :
    (test : ℕ → Bool) (ps qs : List ℕ) → select test (ps ++ qs) ≡ select test ps ++ select test qs
unfolding select
select-append test [] qs = refl
select-append test (p ∷ ps) qs = ground (arith, select-append test ps qs)

-- A handler is called on each of these in turn, until it says no.
pub walk : {S : Type 0} → (ℕ → S → Visit S) → List ℕ → S → Visit S
walk handler [] s = record { state = s; goes_on = true }
walk handler (p ∷ ps) s =
    let v = handler p s in let rest = walk handler ps v.state in if v.goes_on then rest else v

module _ {F : Type 0} where
  -- The cells of these sectors: a cell that is in two of them is there twice.
  unfoldable pub held : Gridmap F → List ℕ → List ℕ
  held g [] = []
  held g (i ∷ is) = cells_at g.sectors i ++ held g is

module _ {F : Type 0} ⦃f : Float F⦄ where
  -- The cells that pass a test, of the sectors that the part of a box in the map reaches.
  pub hits : Gridmap F → Aabb F → (ℕ → Bool) → List ℕ
  hits g box test =
      let aabb = clip g box in
      if is_empty aabb
      then []
      else select test (held g (indices g (rows_of g aabb) (cols_of g aabb)))

  row_indices-All :
      (g : Gridmap F) (row : ℕ) (cols : List ℕ)
      → row < g.row_count
      → All (λ col. col < g.col_count) cols
      → All (λ i. i < g.row_count * g.col_count) (row_indices g row cols)
  unfolding row_indices
  row_indices-All g row [] r c = record {}
  row_indices-All g row (col ∷ cols) r (c, cs) =
      (index_lt row col g.row_count g.col_count r c, row_indices-All g row cols r cs)

  indices-All :
      (g : Gridmap F) (rows cols : List ℕ)
      → OnMap g rows cols
      → All (λ i. i < length g.sectors) (indices g rows cols)
  unfolding indices
  indices-All g [] cols m = record {}
  indices-All g (row ∷ rows) cols ((r, rs), cs, sized) =
      All-append (λ i. i < length g.sectors) (row_indices g row cols) (indices g rows cols)
        (rw sized (row_indices-All g row cols r cs)) (indices-All g rows cols (rs, cs, sized))

module _ {F : Type 0} {S : Type 0} ⦃f : Float F⦄ (cell_of : ℕ → Cell F)
    (handler : ℕ → S → Visit S) where
  walk-append :
      (ps qs : List ℕ) (s : S)
      → walk handler (ps ++ qs) s
        ≡ (let v = walk handler ps s in if v.goes_on then walk handler qs v.state else v)
  unfolding walk
  walk-append [] qs s = refl
  walk-append (p ∷ ps) qs s = ground (arith, walk-append ps qs (handler p s).state)

  query_cells-walk :
      (box : Aabb F) (ps : List ℕ) (s : S)
      → query_cells cell_of handler box ps s
        ≡ walk handler (select (λ p. intersects (cell_of p) box) ps) s
  unfolding query_cells walk select
  query_cells-walk box [] s = refl
  query_cells-walk box (p ∷ ps) s =
      ground (arith, query_cells-walk box ps s, query_cells-walk box ps (handler p s).state)

  query_sectors-walk :
      (g : Gridmap F) (box : Aabb F) (is : List ℕ) (s : S)
      → All (λ i. i < length g.sectors) is
      → query_sectors cell_of handler g box is s
        ≡ some (walk handler (select (λ p. intersects (cell_of p) box) (held g is)) s)
  unfolding query_sectors walk select held
  query_sectors-walk g box [] s h = refl
  query_sectors-walk g box (i ∷ is) s (r, rs) = ground (
    arith,
    query_cells-walk box (cells_at g.sectors i) s,
    query_sectors-walk g box is (query_cells cell_of handler box (cells_at g.sectors i) s).state rs,
    select-append (λ p. intersects (cell_of p) box) (cells_at g.sectors i) (held g is),
    walk-append (select (λ p. intersects (cell_of p) box) (cells_at g.sectors i))
        (select (λ p. intersects (cell_of p) box) (held g is)) s,
  )

module _ {F : Type 0} ⦃f : Float F⦄ where
  -- A cell that is no zombie and whose centre is inside a box.
  abbrev pub lies_in : Cell F → Aabb F → Bool
  lies_in c box =
      if c.zombie
      then false
      else f.le box.a.x c.position.x
        && f.le c.position.x box.b.x
        && (f.le box.a.y c.position.y && f.le c.position.y box.b.y)

  counts_lem :
      (cell_of : ℕ → Cell F) (box : Aabb F) (p : ℕ) → counts cell_of box p ≡ lies_in (cell_of p) box
  unfolding box_intersects_point
  counts_lem cell_of box p = ground arith

module _ {F : Type 0} ⦃f : Float F⦄ (cell_of : ℕ → Cell F) where
  count_cells-length :
      (box : Aabb F) (ps : List ℕ)
      → count_cells cell_of box ps ≡ length (select (λ p. lies_in (cell_of p) box) ps)
  unfolding count_cells select
  count_cells-length box [] = refl
  count_cells-length box (p ∷ ps) =
      ground (arith, counts_lem cell_of box p, count_cells-length box ps)

  count_sectors-length :
      (g : Gridmap F) (box : Aabb F) (is : List ℕ)
      → All (λ i. i < length g.sectors) is
      → count_sectors cell_of g box is
        ≡ some (length (select (λ p. lies_in (cell_of p) box) (held g is)))
  unfolding count_sectors select held
  count_sectors-length g box [] h = refl
  count_sectors-length g box (i ∷ is) (r, rs) = ground (
    arith,
    count_sectors-length g box is rs,
    count_cells-length box (cells_at g.sectors i),
    select-append (λ p. lies_in (cell_of p) box) (cells_at g.sectors i) (held g is),
    length-append (select (λ p. lies_in (cell_of p) box) (cells_at g.sectors i))
        (select (λ p. lies_in (cell_of p) box) (held g is)),
  )

module _ {F : Type 0} ⦃f : Float F⦄ (laws : HasLines F) where
  pub range-All :
      (g : Gridmap F) (box : Aabb F)
      → IsMap g
      → All
          (λ i. i < length g.sectors)
          (indices g (rows_of g (clip g box)) (cols_of g (clip g box)))
  unfolding clip rows_of cols_of
  range-All g box m = indices-All g _ _ (
    numbers-All _ _ _ (row_lt laws m _ (min_f-le laws box.b.y g.box.b.y)),
    numbers-All _ _ _ (col_lt laws m _ (min_f-le laws box.b.x g.box.b.x)),
    m.sized,
  )

  -- On a map, `query` returns, having called the handler on the cells of the sectors in reach that
  -- intersect the clipped box, sector by sector, until the handler said no.
  pub query-walk :
      {S : Type 0} (cell_of : ℕ → Cell F) (handler : ℕ → S → Visit S) (g : Gridmap F) (box : Aabb F)
      (s : S)
      → IsMap g
      → query cell_of handler g box s
        ≡ some (walk handler (hits g box (λ p. intersects (cell_of p) (clip g box))) s).state
  unfolding query hits walk select
  query-walk cell_of handler g box s m = elim (Bool-cases (is_empty (clip g box))) [
    | inl off ↦ rw off refl
    | inr on ↦
        rw (on, query_sectors-walk cell_of handler g (clip g box) _ s (range-All g box m)) refl
  ]

  -- On a map, `count` returns how many pairs there are of a sector in reach and a cell of it that is no
  -- zombie and whose centre is in the clipped box: it counts a cell of every kind, and counts it once for
  -- each of its sectors.
  pub count_in-length :
      (cell_of : ℕ → Cell F) (g : Gridmap F) (box : Aabb F)
      → IsMap g
      → count_in cell_of g box ≡ some (length (hits g box (λ p. lies_in (cell_of p) (clip g box))))
  unfolding count_in hits
  count_in-length cell_of g box m = elim (Bool-cases (is_empty (clip g box))) [
    | inl off ↦ rw off refl
    | inr on ↦ rw (on, count_sectors-length cell_of g (clip g box) _ (range-All g box m)) refl
  ]
