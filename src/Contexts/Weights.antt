-- ===== src/Contexts/Weights.antt =====
-- The measure of what the context of the game has still to run, src/Room.cpp and src/entity/Mother.cpp: the
-- handlers that wait, and what the mothers may still throw.
use the_game_server.Base.{
  ℕ, zero, suc, ◌+◌, ◌-◌, ◌*◌, ◌/◌, ◌≤◌, ◌<◌, ◌≡◌, refl, inl, inr, false, List, [], ◌∷◌, arith,
  ◌==◌, Bool-cases, count,
}
use native.Mathlib.Nat.{
  mul-le-mul_right, div_self, le_trans, div-mul-le_self, lt-div-mul-add, div-lt_iff_lt-mul,
}

-- The sum of a measure over a list.
unfoldable pub total : (ℕ → ℕ) → List ℕ → ℕ
total g [] = 0
total g (x ∷ xs) = g x + total g xs

pub total-ext :
    (g h : ℕ → ℕ) (xs : List ℕ) → ((x : ℕ) → 1 ≤ count x xs → g x ≡ h x) → total g xs ≡ total h xs
unfolding total count
total-ext g h [] e = refl
total-ext g h (x ∷ xs) e = ground (arith, e x, total-ext g h xs (λ q m. e q (ground arith)))

-- A measure that differs at one member, which is there once.
pub total-except :
    (g h : ℕ → ℕ) (p : ℕ) (xs : List ℕ)
    → ((x : ℕ) → (p == x) ≡ false → g x ≡ h x)
    → count p xs ≡ 1
    → total g xs + h p ≡ total h xs + g p
unfolding total count
total-except g h p [] e once = cc
total-except g h p (x ∷ xs) e once = elim (Bool-cases (x == p)) [
  | inl same ↦ ground (arith, total-ext g h xs (λ q m. e q (ground arith)))
  | inr other ↦ ground (arith, e x (ground arith), total-except g h p xs e (ground arith))
]

pub member_le_total : (g : ℕ → ℕ) (p : ℕ) (xs : List ℕ) → 1 ≤ count p xs → g p ≤ total g xs
unfolding total count
member_le_total g p [] h = absurd (omega (arith, h))
member_le_total g p (x ∷ xs) h = elim (Bool-cases (x == p)) [
  | inl same ↦ ground (arith, same)
  | inr other ↦ ground (arith, member_le_total g p xs (ground (arith, h, other)))
]

left_after : (m d s : ℕ) → m < d * s + s → m - (d - 1) * s < 2 * s
left_after m zero s h = ground arith
left_after m (suc d) s h = ground arith

-- A mother that has thrown all it can is left with less than twice the mass of one.
pub rest_splits : (m s : ℕ) → (m - (m / s - 1) * s) / s - 1 ≡ 0
rest_splits m zero = ground arith
rest_splits m (suc s) =
    let small = left_after m (m / suc s) (suc s) (lt-div-mul-add (omega arith)) in
    let few = (div-lt_iff_lt-mul {k = suc s} (omega arith)).1 small in omega (arith, few)

pub zero_div : (s : ℕ) → 0 / s - 1 ≡ 0
zero_div zero = ground arith
zero_div (suc s) = ground arith

pub div-self_any : (s : ℕ) → s / s - 1 ≡ 0
div-self_any zero = ground arith
div-self_any (suc s) = ground (arith, div_self {n = suc s} (omega arith))

pub taken_le : (m s : ℕ) → (m / s - 1) * s ≤ m
taken_le m s = le_trans (mul-le-mul_right s (omega arith)) (div-mul-le_self m s)
