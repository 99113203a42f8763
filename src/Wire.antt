-- ===== src/Wire.antt =====
-- src/serialization.hpp. A byte is a number below 256, a buffer a list of bytes. `boost::endian`
-- puts the most significant byte first.
pub mod RoundTrip
use mathlib.Core.List.{foldl}
use the_game_server.Base.{
  ℕ, zero, suc, ◌+◌, ◌*◌, ◌/◌, ◌%◌, ◌^◌, List, [], ◌∷◌, ◌++◌, ltb, if◌then◌else◌, length, take,
  drop,
}
use the_game_server.Base.Float.{Float}

abbrev pub Buffer : Type 0
Buffer = List ℕ

-- `native_to_big` of a value of so many bytes.
unfoldable pub big_endian : ℕ → ℕ → List ℕ
big_endian zero value = []
big_endian (suc k) value = big_endian k (value / 256) ++ value % 256 ∷ []

-- `big_to_native` of the bytes.
unfoldable pub from_big_endian : List ℕ → ℕ
from_big_endian = foldl (λ acc byte. acc * 256 + byte) 0

-- `serialize<T>` at an unsigned `T` of `size` bytes.
unfoldable pub serialize : ℕ → Buffer → ℕ → Buffer
serialize size buffer value = buffer ++ big_endian size value

-- A string's length is cast to `uint16_t`; its bytes are written whole.
unfoldable pub serialize_string : Buffer → List ℕ → Buffer
unfolding serialize
serialize_string buffer text = serialize 2 buffer (length text % 2 ^ 16) ++ text

unfoldable pub serialize_float : {F : Type 0} ⦃f : Float F⦄ → Buffer → F → Buffer
unfolding serialize
serialize_float ⦃f⦄ buffer value = serialize 4 buffer (f.bits value)

-- A result, or the `std::runtime_error` of too short a buffer.
pub data Outcome (A : Type 0) : Type 0 where
  ok : A → Outcome A
  not_enough : Outcome A

-- An action on the buffer, which keeps what it consumed before it throws.
abbrev pub Reader : Type 0 → Type 0
Reader A = Buffer → Outcome A × Buffer

abbrev pub pure : {A : Type 0} → A → Reader A
pure a buffer = (ok a, buffer)

infixl 5 ◌>>=◌
abbrev pub ◌>>=◌ : {A B : Type 0} → Reader A → (A → Reader B) → Reader B
◌>>=◌ m f buffer =
    let (r, rest) = m buffer in elim r [ ok a ↦ f a rest | not_enough ↦ (not_enough, rest) ]

unfoldable pub deserialize : ℕ → Reader ℕ
deserialize size buffer =
    if ltb (length buffer) size
    then (not_enough, buffer)
    else (ok (from_big_endian (take size buffer)), drop size buffer)

unfoldable pub bytes : ℕ → Reader (List ℕ)
bytes count buffer =
    if ltb (length buffer) count
    then (not_enough, buffer)
    else (ok (take count buffer), drop count buffer)

unfoldable pub deserialize_string : Reader (List ℕ)
unfolding bytes deserialize
deserialize_string = do count ← deserialize 2; bytes count
