-- ===== src/Bots/Targets.antt =====
-- What a bot of src/Bot.cpp goes after.
use the_game_server.Bots.{find_target, consider, prefer}
use the_game_server.Geometry.{Aabb}
use the_game_server.World.{World, cell_at}
use the_game_server.Gridmap.Search.{query, query_cells, query_sectors, Visit}
use the_game_server.Base.Options.{◌>>=◌, same_pointer}
use the_game_server.Gridmap.{Gridmap, clip, cells_at, indices, rows_of, cols_of, is_empty}
use the_game_server.Entity.Avatars.{is_attractive_for}
use the_game_server.Entity.{Cell, intersects, kind_code}
use the_game_server.Base.{
  ℕ, ◌≡◌, true, ◌&&◌, Option, none, some, List, [], ◌∷◌, arith, if_either, ltb, false, length,
  if◌then◌else◌, ◌⊎◌, subst,
}
use the_game_server.Base.Float.{Float, ◌*F◌}

module _ {F : Type 0} ⦃f : Float F⦄ where
  attractive_lem :
      (c main : Cell F)
      → is_attractive_for c main ≡ true
      → (c.zombie ≡ false)
        × ((kind_code c.kind ≡ 2)
            ⊎ (kind_code c.kind ≡ 3)
            ⊎ ((kind_code c.kind ≡ 1)
                × (same_pointer c.player main.player ≡ false)
                × (f.lt (c.mass *F f.literal 5 4) main.mass ≡ true)))
  unfolding is_attractive_for kind_code
  attractive_lem c main h = ground (arith, h)

  -- A target is none, or attractive for the avatar.
  abbrev pub IsGood : (ℕ → Cell F) → ℕ → Option ℕ → Type 0
  IsGood memory main none = Unit
  IsGood memory main (some p) = is_attractive_for (memory p) (memory main) ≡ true

  prefer-IsGood :
      (memory : ℕ → Cell F) (main p : ℕ) (target : Option ℕ)
      → IsGood memory main target
      → IsGood memory main (prefer memory main p target)
  unfolding prefer
  prefer-IsGood memory main p none h =
      if_either (IsGood memory main) (is_attractive_for (memory p) (memory main)) (some p) none
        (λ e. e) (λ e. tt)
  prefer-IsGood memory main p (some q) h =
      if_either (IsGood memory main)
        (is_attractive_for (memory p) (memory main) && f.lt (memory q).mass (memory p).mass)
        (some p) (some q) (λ e. ground (arith, e)) (λ e. h)

  cells-IsGood :
      (memory : ℕ → Cell F) (main : ℕ) (box : Aabb F) (ps : List ℕ) (target : Option ℕ)
      → IsGood memory main target
      → IsGood memory main (query_cells memory (consider memory main) box ps target).state
  unfolding query_cells consider
  cells-IsGood memory main box [] target h = h
  cells-IsGood memory main box (p ∷ ps) target h =
      if_either (λ (v : Visit (Option ℕ)). IsGood memory main v.state) (intersects (memory p) box)
        (query_cells memory (consider memory main) box ps (prefer memory main p target))
        (query_cells memory (consider memory main) box ps target)
        (λ e.
          cells-IsGood memory main box ps (prefer memory main p target)
            (prefer-IsGood memory main p target h))
        (λ e. cells-IsGood memory main box ps target h)

  -- What a query leaves, if it does not read outside the map.
  abbrev IsGoodVisit : (ℕ → Cell F) → ℕ → Option (Visit (Option ℕ)) → Type 0
  IsGoodVisit memory main none = Unit
  IsGoodVisit memory main (some v) = IsGood memory main v.state

  sectors_good :
      (memory : ℕ → Cell F) (main : ℕ) (g : Gridmap F) (box : Aabb F) (is : List ℕ)
      (target : Option ℕ)
      → IsGood memory main target
      → IsGoodVisit memory main (query_sectors memory (consider memory main) g box is target)
  unfolding query_sectors
  sectors_good memory main g box [] target h = h
  sectors_good memory main g box (i ∷ is) target h =
      let v = query_cells memory (consider memory main) box (cells_at g.sectors i) target in
      let good = cells-IsGood memory main box (cells_at g.sectors i) target h in
      let rest = query_sectors memory (consider memory main) g box is v.state in
      if_either (IsGoodVisit memory main) (ltb i (length g.sectors))
        (if v.goes_on then rest else some v) none
        (λ e.
          if_either (IsGoodVisit memory main) v.goes_on rest (some v)
            (λ e'. sectors_good memory main g box is v.state good) (λ e'. good))
        (λ e. tt)

  abbrev IsGoodTarget : (ℕ → Cell F) → ℕ → Option (Option ℕ) → Type 0
  IsGoodTarget memory main none = Unit
  IsGoodTarget memory main (some target) = IsGood memory main target

  find_target_good :
      (box : Aabb F) (main : ℕ) (w : World F)
      → IsGoodTarget w.room.memory main (find_target box main w)
  unfolding find_target query
  find_target_good box main w =
      let g = w.room.gridmap in
      let aabb = clip g box in
      let is = indices g (rows_of g aabb) (cols_of g aabb) in
      let v = query_sectors w.room.memory (consider w.room.memory main) g aabb is none in
      if_either (IsGoodTarget w.room.memory main) (is_empty aabb) (some none)
        (do u ← v; some u.state) (λ e. tt)
        (λ e. state_of v (sectors_good w.room.memory main g aabb is none tt))
    where
      state_of :
          (u : Option (Visit (Option ℕ)))
          → IsGoodVisit w.room.memory main u
          → IsGoodTarget w.room.memory main (do x ← u; some x.state)
      state_of none h = tt
      state_of (some u) h = h

  -- The target that a bot finds in its view is attractive for its main avatar: it is not killed, and it is
  -- food, a bullet, or an avatar of another player that is light enough.
  pub find_target_attractive :
      (box : Aabb F) (main p : ℕ) (w : World F)
      → find_target box main w ≡ some (some p)
      → (is_attractive_for (cell_at w p) (cell_at w main) ≡ true)
        × ((cell_at w p).zombie ≡ false)
        × ((kind_code (cell_at w p).kind ≡ 2)
            ⊎ (kind_code (cell_at w p).kind ≡ 3)
            ⊎ ((kind_code (cell_at w p).kind ≡ 1)
                × (same_pointer (cell_at w p).player (cell_at w main).player ≡ false)
                × (f.lt ((cell_at w p).mass *F f.literal 5 4) (cell_at w main).mass ≡ true)))
  find_target_attractive box main p w e =
      let good = subst (IsGoodTarget w.room.memory main) e (find_target_good box main w) in
      let what = attractive_lem (cell_at w p) (cell_at w main) good in (good, what.0, what.1)
