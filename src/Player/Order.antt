-- ===== src/Player/Order.antt =====
-- The order of players, `operator<` of src/Player.cpp, is a strict order that is total on players with
-- different numbers.
use the_game_server.Base.{◌≡◌, refl}
use the_game_server.Player.{Player, List, text_lt, Float, player_lt}
use the_game_server.Base.{List, ℕ, ◌≡◌, ◌≢◌, true, false, ◌∷◌, arith, ◌⊎◌, [], inr, inl}
use the_game_server.Base.Float.{Float}

text_lt_irrefl : (xs : List ℕ) → text_lt xs xs ≡ false
unfolding text_lt
text_lt_irrefl [] = refl
text_lt_irrefl (x ∷ xs) = ground (arith, text_lt_irrefl xs)

text_lt_trans :
    (xs ys zs : List ℕ) → text_lt xs ys ≡ true → text_lt ys zs ≡ true → text_lt xs zs ≡ true
unfolding text_lt
text_lt_trans [] [] zs h k = cc
text_lt_trans [] (y ∷ ys) [] h k = cc
text_lt_trans [] (y ∷ ys) (z ∷ zs) h k = refl
text_lt_trans (x ∷ xs) [] zs h k = cc
text_lt_trans (x ∷ xs) (y ∷ ys) [] h k = cc
text_lt_trans (x ∷ xs) (y ∷ ys) (z ∷ zs) h k = ground (arith, text_lt_trans xs ys zs)

text_lt_total : (xs ys : List ℕ) → (text_lt xs ys ≡ true) ⊎ (text_lt ys xs ≡ true) ⊎ (xs ≡ ys)
unfolding text_lt
text_lt_total [] [] = inr (inr refl)
text_lt_total [] (y ∷ ys) = inl refl
text_lt_total (x ∷ xs) [] = inr (inl refl)
text_lt_total (x ∷ xs) (y ∷ ys) = ground (arith, text_lt_total xs ys)

text_lt_asymm : (xs ys : List ℕ) → text_lt xs ys ≡ true → text_lt ys xs ≡ false
text_lt_asymm xs ys h = ground (arith, text_lt_trans xs ys xs h, text_lt_irrefl xs)

module _ {F : Type 0} ⦃f : Float F⦄ where
  pub player_lt_irrefl : (p : Player F) → player_lt p p ≡ false
  unfolding player_lt
  player_lt_irrefl p = ground (arith, text_lt_irrefl p.name)

  pub player_lt_trans :
      (p q r : Player F) → player_lt p q ≡ true → player_lt q r ≡ true → player_lt p r ≡ true
  unfolding player_lt
  player_lt_trans p q r h k = ground (
    arith,
    text_lt_trans r.name q.name p.name,
    text_lt_asymm r.name q.name,
    text_lt_asymm q.name p.name,
    text_lt_asymm r.name p.name,
    text_lt_total q.name p.name,
    text_lt_total r.name q.name,
    text_lt_irrefl p.name,
  )

  -- Of two players with different numbers one is less than the other.
  pub player_lt_total :
      (p q : Player F) → p.id ≢ q.id → (player_lt p q ≡ true) ⊎ (player_lt q p ≡ true)
  unfolding player_lt
  player_lt_total p q h = ground (arith, text_lt_total p.name q.name)

  -- If a player is not less than a second, and the second not less than a third, then the first is not
  -- less than the third, for players with equal numbers too: a sort may rely on the order.
  pub player_not_lt_trans :
      (p q r : Player F) → player_lt p q ≡ false → player_lt q r ≡ false → player_lt p r ≡ false
  unfolding player_lt
  player_not_lt_trans p q r h k = ground (
    arith,
    text_lt_trans p.name q.name r.name,
    text_lt_trans r.name p.name q.name,
    text_lt_trans q.name r.name p.name,
    text_lt_asymm r.name q.name,
    text_lt_asymm q.name p.name,
    text_lt_asymm r.name p.name,
    text_lt_total q.name p.name,
    text_lt_total r.name q.name,
    text_lt_total r.name p.name,
  )

  pub player_lt_asymm : (p q : Player F) → player_lt p q ≡ true → player_lt q p ≡ false
  unfolding player_lt
  player_lt_asymm p q h = ground (arith, text_lt_asymm p.name q.name, text_lt_asymm q.name p.name)
