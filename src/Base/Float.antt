-- ===== src/Base/Float.antt =====
-- The arithmetic of `float` and `double`, which the language gives. One carrier stands for both, so
-- the conversions between them are not written. The operations are a parameter of the model; a theorem
-- that needs a law of them names it.
use Prim.Native.Nat.{ℕ}
use mathlib.Core.Bool.{Bool, not}

pub record Float (F : Type 0) : Type 0 where
  -- A literal: the first number over the second.
  pub literal : ℕ → ℕ → F
  pub of_ℕ : ℕ → F
  pub add : F → F → F
  pub sub : F → F → F
  pub mul : F → F → F
  pub div : F → F → F
  pub neg : F → F
  pub sqrt : F → F
  pub le : F → F → Bool
  pub lt : F → F → Bool
  pub eq : F → F → Bool
  -- `static_cast<uint32_t>`, which drops the fraction.
  pub to_ℕ : F → ℕ
  -- The 32 bits of the representation.
  pub bits : F → ℕ

infixl 65 ◌+F◌ ◌-F◌
infixl 70 ◌*F◌ ◌/F◌
module _ {F : Type 0} ⦃f : Float F⦄ where
  abbrev pub ◌+F◌ : F → F → F
  ◌+F◌ = f.add

  abbrev pub ◌-F◌ : F → F → F
  ◌-F◌ = f.sub

  abbrev pub ◌*F◌ : F → F → F
  ◌*F◌ = f.mul

  abbrev pub ◌/F◌ : F → F → F
  ◌/F◌ = f.div

  abbrev pub of_ℕ : ℕ → F
  of_ℕ = f.of_ℕ

  abbrev pub zero_f : F
  zero_f = f.of_ℕ 0

  -- `!=`
  abbrev pub ne_f : F → F → Bool
  ne_f a b = not (f.eq a b)
