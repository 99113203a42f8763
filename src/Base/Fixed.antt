-- ===== src/Base/Fixed.antt =====
-- Thousandths as integers: numbers at which the examples run.
use Prim.Native.Nat.{ℕ, ◌+◌, ◌*◌, ◌/◌, ◌%◌, ◌^◌, zero, suc}
use mathlib.Core.Bool.{not, ◌&&◌}
use the_game_server.Base.Tests.{leb, if◌then◌else◌}
use the_game_server.Base.Ints.{ℤ, pos, negsuc, pos_part, neg_part, sub_ℕ, ◌+ℤ◌, ◌-ℤ◌, ltb_ℤ}
use the_game_server.Base.Float.{Float}

abbrev pub Fixed : Type 0
Fixed = ℤ

abbrev pub magnitude : ℤ → ℕ
magnitude a = pos_part a + neg_part a

-- The magnitude with the sign of a product.
abbrev pub signed : ℤ → ℤ → ℕ → ℤ
signed (pos a) (pos b) n = pos n
signed (pos a) (negsuc b) n = sub_ℕ 0 n
signed (negsuc a) (pos b) n = sub_ℕ 0 n
signed (negsuc a) (negsuc b) n = pos n

-- The square root of a number, rounded down, by trials from the given one.
unfoldable pub root : ℕ → ℕ → ℕ
root zero n = zero
root (suc r) n = let rest = root r n in if leb (suc r * suc r) n then suc r else rest

instance unfoldable pub fixed_float : Float Fixed
unfolding ◌+ℤ◌ ◌-ℤ◌ root
fixed_float = record {
  literal = λ n d. pos (n * 1000 / d);
  of_ℕ = λ n. pos (n * 1000);
  add = λ a b. a +ℤ b;
  sub = λ a b. a -ℤ b;
  mul = λ a b. signed a b (magnitude a * magnitude b / 1000);
  div = λ a b. signed a b (magnitude a * 1000 / magnitude b);
  neg = λ a. pos 0 -ℤ a;
  sqrt = λ a. pos (root 1000 (pos_part a * 1000));
  le = λ a b. not (ltb_ℤ b a);
  lt = ltb_ℤ;
  eq = λ a b. not (ltb_ℤ a b) && not (ltb_ℤ b a);
  to_ℕ = λ a. pos_part a / 1000;
  bits = λ a. elim a [ pos n ↦ n % 2 ^ 31 | negsuc n ↦ 2 ^ 31 + n % 2 ^ 31 ];
}
