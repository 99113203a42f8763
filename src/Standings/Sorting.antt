-- ===== src/Standings/Sorting.antt =====
-- The sort of the leaderboard of src/Room.cpp.
use the_game_server.Base.{
  ℕ, ◌+◌, ◌≡◌, refl, inl, inr, false, List, [], ◌∷◌, arith, ◌==◌, if◌then◌else◌, Bool-cases, All,
  count,
}
use the_game_server.Base.Float.{Float}
use the_game_server.Player.{Player}
use the_game_server.Player.Order.{player_not_lt_trans, player_lt_asymm}
use the_game_server.Standings.{ahead, enter, sort}

module _ {F : Type 0} ⦃f : Float F⦄ (players : ℕ → Player F) where
  -- No player is behind one that it is ahead of.
  pub IsRanked : List ℕ → Type 0
  IsRanked [] = Unit
  IsRanked (p ∷ ps) = All (λ q. ahead players q p ≡ false) ps × IsRanked ps

  count-enter :
      (a p : ℕ) (ps : List ℕ)
      → count a (enter players p ps) ≡ (if p == a then 1 else 0) + count a ps
  unfolding enter count
  count-enter a p [] = refl
  count-enter a p (q ∷ qs) = ground (arith, count-enter a p qs)

  pub count-sort : (a : ℕ) (ps : List ℕ) → count a (sort players ps) ≡ count a ps
  unfolding sort count
  count-sort a [] = refl
  count-sort a (p ∷ ps) = ground (arith, count-enter a p (sort players ps), count-sort a ps)

  not_ahead_of :
      (p q : ℕ) (qs : List ℕ)
      → ahead players q p ≡ false
      → All (λ r. ahead players r q ≡ false) qs
      → All (λ r. ahead players r p ≡ false) qs
  not_ahead_of p q [] h hs = record {}
  not_ahead_of p q (r ∷ rs) h (k, ks) = (player_not_lt_trans _ _ _ h k, not_ahead_of p q rs h ks)

  All-enter :
      (p q : ℕ) (qs : List ℕ)
      → ahead players p q ≡ false
      → All (λ r. ahead players r q ≡ false) qs
      → All (λ r. ahead players r q ≡ false) (enter players p qs)
  unfolding enter
  All-enter p q [] h hs = (h, record {})
  All-enter p q (r ∷ rs) h (k, ks) = elim (Bool-cases (ahead players r p)) [
    | inl later ↦ rw later (k, All-enter p q rs h ks)
    | inr here ↦ rw here (h, (k, ks))
  ]

  enter-IsRanked : (p : ℕ) (qs : List ℕ) → IsRanked qs → IsRanked (enter players p qs)
  unfolding enter IsRanked
  enter-IsRanked p [] h = (record {}, record {})
  enter-IsRanked p (q ∷ qs) (h, hs) = elim (Bool-cases (ahead players q p)) [
    | inl later ↦ rw later (All-enter p q qs (player_lt_asymm _ _ later) h, enter-IsRanked p qs hs)
    | inr here ↦ rw here ((here, not_ahead_of p q qs here h), (h, hs))
  ]

  pub sort-IsRanked : (ps : List ℕ) → IsRanked (sort players ps)
  unfolding sort IsRanked
  sort-IsRanked [] = record {}
  sort-IsRanked (p ∷ ps) = enter-IsRanked p (sort players ps) (sort-IsRanked ps)
