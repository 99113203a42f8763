-- ===== src/Entity/Format.antt =====
-- A client reads what `format` of src/entity/Cell.cpp, and of src/entity/Avatar.cpp for avatars, has written.
use the_game_server.Entity.Motion.{format}
use the_game_server.Entity.{Cell, Kind, kind_code, avatar}
use the_game_server.Entity.Avatars.{format_avatar}
use the_game_server.Base.{
  ℕ, ◌+◌, ◌/◌, ◌%◌, ◌^◌, ◌<◌, ◌≡◌, refl, ap, ◌∙◌, inl, inr, Bool, true, false, Option, none, some,
  [], ◌++◌, arith, leb, ◌==◌, if◌then◌else◌, Bool-cases,
}
use the_game_server.Base.Float.{Float}
use mathlib.Core.List.{append_assoc}
use the_game_server.Geometry.{is_nonzero}
use the_game_server.Wire.{
  Buffer, Reader, pure, ◌>>=◌, deserialize, serialize, serialize_float, big_endian, ok,
}
use the_game_server.Wire.RoundTrip.{deserialize-big_endian}

pub record CellMessage : Type 0 where
  pub kind : ℕ
  pub newly : Bool
  pub id : ℕ
  pub x_bits : ℕ
  pub y_bits : ℕ
  pub mass : ℕ
  pub radius : ℕ
  pub color : ℕ
  -- The number of an avatar's player.
  pub player : Option ℕ
  -- The bits of a moving cell's velocity.
  pub velocity : Option (ℕ × ℕ)

read_velocity : Bool → Reader (Option (ℕ × ℕ))
read_velocity false = pure none
read_velocity true = do x ← deserialize 4; y ← deserialize 4; pure (some (x, y))

-- What follows the color: the player of an avatar, and the velocity of a moving cell.
read_rest : Bool → Bool → Reader (Option ℕ × Option (ℕ × ℕ))
read_rest false moving = do velocity ← read_velocity moving; pure (none, velocity)
read_rest true moving = do
  player ← deserialize 4
  velocity ← read_velocity moving
  pure (some player, velocity)

pub read_cell : Reader CellMessage
read_cell = do
  t ← deserialize 1
  id ← deserialize 4
  x ← deserialize 4
  y ← deserialize 4
  mass ← deserialize 4
  radius ← deserialize 2
  color ← deserialize 1
  ends ← read_rest (t % 64 == 1) (leb 128 t)
  pure (record {
    kind = t % 64;
    newly = t / 64 % 2 == 1;
    id = id;
    x_bits = x;
    y_bits = y;
    mass = mass;
    radius = radius;
    color = color;
    player = ends.0;
    velocity = ends.1;
  })

kind_code-lt : (k : Kind) → kind_code k < 7
unfolding kind_code
kind_code-lt Kind.avatar = omega arith
kind_code-lt Kind.food = omega arith
kind_code-lt Kind.bullet = omega arith
kind_code-lt Kind.virus = omega arith
kind_code-lt Kind.phage = omega arith
kind_code-lt Kind.mother = omega arith

read_fields :
    (t id x y m r col : ℕ) (tail rest : Buffer) (v : Option ℕ × Option (ℕ × ℕ))
    → t < 2 ^ 8
    → id < 2 ^ 32
    → x < 2 ^ 32
    → y < 2 ^ 32
    → m < 2 ^ 32
    → r < 2 ^ 16
    → col < 2 ^ 8
    → read_rest (t % 64 == 1) (leb 128 t) tail ≡ (ok v, rest)
    → read_cell (
        big_endian 1 t
        ++ (big_endian 4 id
            ++ (big_endian 4 x
                ++ (big_endian 4 y
                    ++ (big_endian 4 m ++ (big_endian 2 r ++ (big_endian 1 col ++ tail)))))))
      ≡ (
        ok (record {
          kind = t % 64;
          newly = t / 64 % 2 == 1;
          id = id;
          x_bits = x;
          y_bits = y;
          mass = m;
          radius = r;
          color = col;
          player = v.0;
          velocity = v.1;
        }),
        rest,
      )
unfolding read_cell
read_fields t id x y m r col tail rest v ht hid hx hy hm hr hc hv =
    let b1 = big_endian 1 col ++ tail in
    let b2 = big_endian 2 r ++ b1 in
    let b3 = big_endian 4 m ++ b2 in
    let b4 = big_endian 4 y ++ b3 in
    let b5 = big_endian 4 x ++ b4 in
    let b6 = big_endian 4 id ++ b5 in
    ground (
      arith,
      deserialize-big_endian 1 t b6 ht,
      deserialize-big_endian 4 id b5 hid,
      deserialize-big_endian 4 x b4 hx,
      deserialize-big_endian 4 y b3 hy,
      deserialize-big_endian 4 m b2 hm,
      deserialize-big_endian 2 r b1 hr,
      deserialize-big_endian 1 col tail hc,
      hv,
    )

-- The type and the flags are read back from their byte.
byte_lem :
    (k : ℕ) (n m : Bool)
    → k < 7
    → let t = k + (if n then 64 else 0) + (if m then 128 else 0) in
      (t < 2 ^ 8) × (t % 64 ≡ k) × ((t / 64 % 2 == 1) ≡ n) × (leb 128 t ≡ m)
byte_lem k true true h = ground arith
byte_lem k true false h = ground arith
byte_lem k false true h = ground arith
byte_lem k false false h = ground arith

-- A cell's fields after its byte, for a reader of the velocity that succeeds.
read_described :
    (k : ℕ) (new moving : Bool) (id x y m r col : ℕ) (tail rest : Buffer)
    (v : Option ℕ × Option (ℕ × ℕ))
    → k < 7
    → id < 2 ^ 32
    → x < 2 ^ 32
    → y < 2 ^ 32
    → m < 2 ^ 32
    → r < 2 ^ 16
    → col < 2 ^ 8
    → read_rest (k == 1) moving tail ≡ (ok v, rest)
    → read_cell (
        big_endian 1 (k + (if new then 64 else 0) + (if moving then 128 else 0))
        ++ (big_endian 4 id
            ++ (big_endian 4 x
                ++ (big_endian 4 y
                    ++ (big_endian 4 m ++ (big_endian 2 r ++ (big_endian 1 col ++ tail)))))))
      ≡ (
        ok (record {
          kind = k;
          newly = new;
          id = id;
          x_bits = x;
          y_bits = y;
          mass = m;
          radius = r;
          color = col;
          player = v.0;
          velocity = v.1;
        }),
        rest,
      )
read_described k new moving id x y m r col tail rest v hk hid hx hy hm hr hc hv =
    let (small, kind, flag, moves) = byte_lem k new moving hk in
    let e =
      read_fields (k + (if new then 64 else 0) + (if moving then 128 else 0)) id x y m r col tail
        rest v small hid hx hy hm hr hc
        (ap
            (λ b.
              read_rest ((k + (if new then 64 else 0) + (if moving then 128 else 0)) % 64 == 1) b
                tail)
            moves
          ∙ ap (λ n. read_rest (n == 1) moving tail) kind
          ∙ hv) in
    rw (kind, flag) at e

-- The bytes of a velocity.
abbrev velocity_bytes : Bool → ℕ → ℕ → Buffer
velocity_bytes false x y = []
velocity_bytes true x y = big_endian 4 x ++ big_endian 4 y

abbrev velocity_of : Bool → ℕ → ℕ → Option (ℕ × ℕ)
velocity_of moving x y = if moving then some (x, y) else none

read_velocity_lem :
    (moving : Bool) (x y : ℕ) (rest : Buffer)
    → x < 2 ^ 32
    → y < 2 ^ 32
    → read_velocity moving (velocity_bytes moving x y ++ rest) ≡ (ok (velocity_of moving x y), rest)
unfolding read_velocity
read_velocity_lem false x y rest hx hy = refl
read_velocity_lem true x y rest hx hy = simp append_assoc (
    ground (
      arith,
      deserialize-big_endian 4 x (big_endian 4 y ++ rest) hx,
      deserialize-big_endian 4 y rest hy,
    ))

read_plain :
    (moving : Bool) (x y : ℕ) (rest : Buffer)
    → x < 2 ^ 32
    → y < 2 ^ 32
    → read_rest false moving (velocity_bytes moving x y ++ rest)
      ≡ (ok (none, velocity_of moving x y), rest)
unfolding read_rest
read_plain moving x y rest hx hy = ground (arith, read_velocity_lem moving x y rest hx hy)

read_owned :
    (id : ℕ) (moving : Bool) (x y : ℕ) (rest : Buffer)
    → id < 2 ^ 32
    → x < 2 ^ 32
    → y < 2 ^ 32
    → read_rest true moving (big_endian 4 id ++ (velocity_bytes moving x y ++ rest))
      ≡ (ok (some id, velocity_of moving x y), rest)
unfolding read_rest
read_owned id moving x y rest hi hx hy = ground (
  arith,
  deserialize-big_endian 4 id (velocity_bytes moving x y ++ rest) hi,
  read_velocity_lem moving x y rest hx hy,
)

module _ {F : Type 0} ⦃f : Float F⦄ where
  -- `cell->format(buffer)`, for the number of the player if the cell is an avatar, which has one.
  unfoldable pub format_cell : ℕ → Cell F → Buffer → Buffer
  unfolding format format_avatar
  format_cell player_id c buffer = elim c.kind [
    | avatar ↦ format_avatar player_id c buffer
    | _ ↦ format c buffer
  ]

  -- What a client learns of a cell: whole mass and radius, the bits of its coordinates and, if it moves,
  -- of its velocity, and the player of an avatar.
  pub described : ℕ → Cell F → CellMessage
  described player_id c = record {
    kind = kind_code c.kind;
    newly = c.newly;
    id = c.id;
    x_bits = f.bits c.position.x;
    y_bits = f.bits c.position.y;
    mass = f.to_ℕ c.mass % 2 ^ 32;
    radius = f.to_ℕ c.radius % 2 ^ 16;
    color = c.color;
    player = if kind_code c.kind == 1 then some player_id else none;
    velocity = velocity_of (is_nonzero c.velocity) (f.bits c.velocity.x) (f.bits c.velocity.y);
  }

  module _ (bits-lt : (a : F) → f.bits a < 2 ^ 32) (player_id : ℕ) (c : Cell F) (rest : Buffer)
      (id-lt : c.id < 2 ^ 32) (color-lt : c.color < 2 ^ 8) where
    read_cell-format_plain :
        (kind_code c.kind == 1) ≡ false
        → read_cell (format c [] ++ rest) ≡ (ok (described player_id c), rest)
    unfolding format described serialize serialize_float big_endian
    read_cell-format_plain plain = elim (Bool-cases (is_nonzero c.velocity)) [
      | inl moving ↦
          rw (moving, plain)
            (simp append_assoc (
              read_described (kind_code c.kind) c.newly true c.id _ _ _ _ c.color _ rest _
                (kind_code-lt c.kind) id-lt (bits-lt c.position.x) (bits-lt c.position.y)
                (omega arith) (omega arith) color-lt
                (rw plain
                  (read_plain true _ _ rest (bits-lt c.velocity.x) (bits-lt c.velocity.y)))))
      | inr resting ↦
          rw (resting, plain)
            (simp append_assoc (
              read_described (kind_code c.kind) c.newly false c.id _ _ _ _ c.color rest rest _
                (kind_code-lt c.kind) id-lt (bits-lt c.position.x) (bits-lt c.position.y)
                (omega arith) (omega arith) color-lt
                (rw plain (
                  read_plain false (f.bits c.velocity.x) (f.bits c.velocity.y) rest
                    (bits-lt c.velocity.x) (bits-lt c.velocity.y)))))
    ]

    read_cell-format_avatar :
        (kind_code c.kind == 1) ≡ true
        → player_id < 2 ^ 32
        → read_cell (format_avatar player_id c [] ++ rest) ≡ (ok (described player_id c), rest)
    unfolding format_avatar described serialize serialize_float big_endian
    read_cell-format_avatar owned hp = elim (Bool-cases (is_nonzero c.velocity)) [
      | inl moving ↦
          rw (moving, owned)
            (simp append_assoc (
              read_described (kind_code c.kind) c.newly true c.id _ _ _ _ c.color _ rest _
                (kind_code-lt c.kind) id-lt (bits-lt c.position.x) (bits-lt c.position.y)
                (omega arith) (omega arith) color-lt
                (rw owned (
                  read_owned player_id true _ _ rest hp (bits-lt c.velocity.x)
                    (bits-lt c.velocity.y)))))
      | inr resting ↦
          rw (resting, owned)
            (simp append_assoc (
              read_described (kind_code c.kind) c.newly false c.id _ _ _ _ c.color _ rest _
                (kind_code-lt c.kind) id-lt (bits-lt c.position.x) (bits-lt c.position.y)
                (omega arith) (omega arith) color-lt
                (rw owned (
                  read_owned player_id false (f.bits c.velocity.x) (f.bits c.velocity.y) rest hp
                    (bits-lt c.velocity.x) (bits-lt c.velocity.y)))))
    ]

  -- A client that reads a formatted cell, whatever follows it, learns the kind, the flag of a new cell,
  -- the number, the color, the whole mass and radius, the bits of the position and of a moving cell's
  -- velocity, and of an avatar the number of its player, and stops where the cell ends. The numbers and the
  -- color are within their types, and the representation of a `float` has 32 bits.
  pub read_cell-format_cell :
      (bits-lt : (a : F) → f.bits a < 2 ^ 32) (player_id : ℕ) (c : Cell F) (rest : Buffer)
      → c.id < 2 ^ 32
      → c.color < 2 ^ 8
      → player_id < 2 ^ 32
      → read_cell (format_cell player_id c [] ++ rest) ≡ (ok (described player_id c), rest)
  unfolding format_cell kind_code
  read_cell-format_cell bits-lt player_id c rest hi hc hp = by_kind c.kind refl
    where
      plain :
          (kind_code c.kind == 1) ≡ false
          → read_cell (format c [] ++ rest) ≡ (ok (described player_id c), rest)
      plain = read_cell-format_plain bits-lt player_id c rest hi hc

      by_kind :
          (k : Kind)
          → c.kind ≡ k
          → read_cell (
              (elim k as (λ z. Buffer) [ avatar ↦ format_avatar player_id c [] | _ ↦ format c [] ])
              ++ rest)
            ≡ (ok (described player_id c), rest)
      by_kind Kind.avatar e =
          read_cell-format_avatar bits-lt player_id c rest hi hc (ap (λ k. kind_code k == 1) e) hp
      by_kind Kind.food e = plain (ap (λ k. kind_code k == 1) e)
      by_kind Kind.bullet e = plain (ap (λ k. kind_code k == 1) e)
      by_kind Kind.virus e = plain (ap (λ k. kind_code k == 1) e)
      by_kind Kind.phage e = plain (ap (λ k. kind_code k == 1) e)
      by_kind Kind.mother e = plain (ap (λ k. kind_code k == 1) e)
