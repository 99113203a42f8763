-- ===== src/Wire/RoundTrip.antt =====
-- What src/serialization.hpp writes, it reads back.
use mathlib.Core.List.{foldl-append, append_assoc}
use native.Mathlib.Nat.{pow-suc, pow-zero, mod-eq_of_lt}
use the_game_server.Base.{
  ℕ, zero, suc, ◌+◌, ◌*◌, ◌/◌, ◌%◌, ◌^◌, ◌<◌, ◌≡◌, refl, subst, List, [], ◌∷◌, ◌++◌, arith, length,
  length-append, take-length-append, drop-length-append, ltb, take, drop, false, ◌∙◌,
}
use the_game_server.Wire.{
  Buffer, big_endian, from_big_endian, serialize, serialize_string, ok, deserialize,
  deserialize_string, bytes, Reader, ◌>>=◌,
}

pub length-big_endian : (k value : ℕ) → length (big_endian k value) ≡ k
unfolding big_endian from_big_endian
length-big_endian zero value = refl
length-big_endian (suc k) value = omega (
  arith,
  length-append (big_endian k (value / 256)) (value % 256 ∷ []),
  length-big_endian k (value / 256),
)

from_big_endian-append :
    (xs : List ℕ) (b : ℕ) → from_big_endian (xs ++ b ∷ []) ≡ from_big_endian xs * 256 + b
unfolding from_big_endian
from_big_endian-append xs b = rw foldl-append

pub from_big_endian-big_endian :
    (k value : ℕ) → value < 256 ^ k → from_big_endian (big_endian k value) ≡ value
unfolding big_endian from_big_endian
from_big_endian-big_endian zero value h = let small : value < 1 = rw pow-zero at h in omega arith
from_big_endian-big_endian (suc k) value h =
    let small : value < 256 ^ k * 256 = rw pow-suc at h in
    omega (
      arith,
      from_big_endian-append (big_endian k (value / 256)) (value % 256),
      from_big_endian-big_endian k (value / 256) (omega arith),
    )

-- A field of exactly its own length is split off.
pub deserialize-big_endian :
    (size value : ℕ) (rest : Buffer)
    → value < 256 ^ size
    → deserialize size (big_endian size value ++ rest) ≡ (ok value, rest)
unfolding deserialize
deserialize-big_endian size value rest h =
    let field : List ℕ = big_endian size value in
    let e : length field ≡ size = length-big_endian size value in
    let enough : ltb (length (field ++ rest)) size ≡ false =
      ground (arith, length-append field rest) in
    let front : take size (field ++ rest) ≡ field =
      subst (λ n. take n (field ++ rest) ≡ field) e (take-length-append field rest) in
    let back : drop size (field ++ rest) ≡ rest =
      subst (λ n. drop n (field ++ rest) ≡ rest) e (drop-length-append field rest) in
    rw (enough, front, back, from_big_endian-big_endian size value h)

-- An action that succeeds hands its result and the buffer that is left to the next.
pub bind_ok :
    {A B : Type 0} (m : Reader A) (f : A → Reader B) (buffer : Buffer) {a : A} {rest : Buffer}
    → m buffer ≡ (ok a, rest)
    → (m >>= f) buffer ≡ f a rest
bind_ok m f buffer e = ground arith

pub bytes_lem : (text rest : Buffer) → bytes (length text) (text ++ rest) ≡ (ok text, rest)
unfolding bytes
bytes_lem text rest =
    let enough : ltb (length (text ++ rest)) (length text) ≡ false =
      ground (arith, length-append text rest) in
    rw (enough, take-length-append text rest, drop-length-append text rest)

-- A value that fits its type is read back, and what stands behind it is left in the buffer.
pub deserialize-serialize :
    (size value : ℕ) (rest : Buffer)
    → value < 256 ^ size
    → deserialize size (serialize size [] value ++ rest) ≡ (ok value, rest)
unfolding serialize
deserialize-serialize size value rest h = deserialize-big_endian size value rest h

-- A string of fewer than 2 ^ 16 bytes is read back, and what stands behind it is left in the buffer.
pub deserialize_string-serialize_string :
    (text rest : Buffer)
    → length text < 2 ^ 16
    → deserialize_string (serialize_string [] text ++ rest) ≡ (ok text, rest)
unfolding deserialize_string serialize_string
deserialize_string-serialize_string text rest h =
    rw (append_assoc, mod-eq_of_lt h)
      (bind_ok (deserialize 2) bytes _ (deserialize-big_endian 2 (length text) (text ++ rest) h)
        ∙ bytes_lem text rest)
