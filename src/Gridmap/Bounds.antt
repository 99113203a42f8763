-- ===== src/Gridmap/Bounds.antt =====
-- The sectors that src/Gridmap.cpp looks up exist.
use the_game_server.Base.{
  ℕ, zero, suc, ◌+◌, ◌-◌, ◌*◌, ◌/◌, ◌^◌, ◌≤◌, ◌<◌, ◌≡◌, refl, ap, ◌⊎◌, inl, inr, true, false, none,
  some, arith, Bool-cases, length,
}
use native.Mathlib.Nat.{div-lt_iff_lt-mul, lt-div-mul-add, one-le-pow}
use the_game_server.Base.Float.{Float}
use the_game_server.Geometry.{Vec2D, contain}
use the_game_server.Gridmap.{Gridmap, boxes, resize, get_sector, index_of, line_of}

-- What the arithmetic says of comparisons and conversions, for numbers that are no NaN: the cast to a
-- whole number is monotone, and gives a whole number below 2 ^ 24 back.
pub record HasLines (F : Type 0) ⦃f : Float F⦄ : Type 0 where
  pub le_refl : (a : F) → f.le a a ≡ true
  pub le_of_not_lt : (a b : F) → f.lt b a ≡ false → f.le a b ≡ true
  pub to_ℕ_mono : (a b : F) → f.le a b ≡ true → f.to_ℕ a ≤ f.to_ℕ b
  pub to_ℕ-of_ℕ : (n : ℕ) → n < 2 ^ 24 → f.to_ℕ (f.of_ℕ n) ≡ n

length-boxes :
    (F : Type 0) ⦃f : Float F⦄ (n size cols id x y : ℕ)
    → length (boxes {F = F} n size cols id x y) ≡ n
unfolding boxes
length-boxes F zero size cols id x y = refl
length-boxes F (suc n) size cols id x y = ap suc (length-boxes F n size cols (id + 1) _ _)

module _ {F : Type 0} ⦃f : Float F⦄ where
  -- A map of a width and a height from 1 to 2 ^ 24.
  pub record IsMap (g : Gridmap F) : Type 0 where
    pub sized : length g.sectors ≡ g.row_count * g.col_count
    pub rows : g.row_count ≡ (g.height + 2 ^ g.power - 1) / 2 ^ g.power
    pub cols : g.col_count ≡ (g.width + 2 ^ g.power - 1) / 2 ^ g.power
    pub right : g.box.b.x ≡ f.of_ℕ (g.width - 1)
    pub bottom : g.box.b.y ≡ f.of_ℕ (g.height - 1)
    pub wide : (1 ≤ g.width) × (g.width ≤ 2 ^ 24)
    pub high : (1 ≤ g.height) × (g.height ≤ 2 ^ 24)

  pub resize-IsMap :
      (width height power : ℕ)
      → (1 ≤ width) × (width ≤ 2 ^ 24)
      → (1 ≤ height) × (height ≤ 2 ^ 24)
      → IsMap (resize width height power)
  unfolding resize
  resize-IsMap width height power w h = record {
    sized = length-boxes F _ _ _ 0 0 0;
    rows = refl;
    cols = refl;
    right = refl;
    bottom = refl;
    wide = w;
    high = h;
  }

-- A line that begins in the room is one of the lines.
line_lt :
    (c extent size : ℕ)
    → 1 ≤ extent
    → 0 < size
    → c ≤ extent - 1
    → c / size < (extent + size - 1) / size
line_lt c extent size e s h =
    (div-lt_iff_lt-mul s).1 (omega (arith, lt-div-mul-add {a = extent + size - 1} s))

pub index_lt : (row col rows cols : ℕ) → row < rows → col < cols → row * cols + col < rows * cols
index_lt row col rows cols r c = grind arith

module _ {F : Type 0} ⦃f : Float F⦄ (laws : HasLines F) where
  open laws use {le_refl, le_of_not_lt, to_ℕ_mono, to_ℕ-of_ℕ}

  -- A coordinate inside the box has a line of the map.
  coordinate_lt :
      (c : F) (extent power : ℕ)
      → (1 ≤ extent) × (extent ≤ 2 ^ 24)
      → f.le c (f.of_ℕ (extent - 1)) ≡ true
      → f.to_ℕ c / 2 ^ power < (extent + 2 ^ power - 1) / 2 ^ power
  coordinate_lt c extent power e h =
      line_lt (f.to_ℕ c) extent (2 ^ power) e.0 (one-le-pow power 2 (omega arith))
        (omega (arith, to_ℕ_mono c _ h, to_ℕ-of_ℕ (extent - 1) (omega arith)))

  module _ {g : Gridmap F} (m : IsMap g) where
    index_of-lt :
        (row col : ℕ)
        → row < g.row_count
        → col < g.col_count
        → index_of g row col < length g.sectors
    index_of-lt row col r c = rw m.sized (index_lt row col g.row_count g.col_count r c)

    pub row_lt : (y : F) → f.le y g.box.b.y ≡ true → line_of g y < g.row_count
    row_lt y h = rw m.rows (coordinate_lt y g.height g.power m.high (rw m.bottom at h))

    pub col_lt : (x : F) → f.le x g.box.b.x ≡ true → line_of g x < g.col_count
    col_lt x h = rw m.cols (coordinate_lt x g.width g.power m.wide (rw m.right at h))

    contain-right : (p : Vec2D F) → contain g.box p ≡ true → f.le p.x g.box.b.x ≡ true
    unfolding contain
    contain-right p h = ground arith

    contain-bottom : (p : Vec2D F) → contain g.box p ≡ true → f.le p.y g.box.b.y ≡ true
    unfolding contain
    contain-bottom p h = ground arith

    -- On a map `getSector` never throws: it gives a sector of the map for a point inside the box, and
    -- the null pointer for any other.
    pub get_sector_total :
        (p : Vec2D F)
        → ((contain g.box p ≡ true)
            × (i : ℕ) × (i < length g.sectors)
            × (get_sector g p ≡ some (some i)))
          ⊎ ((contain g.box p ≡ false) × (get_sector g p ≡ some none))
    unfolding get_sector
    get_sector_total p = elim (Bool-cases (contain g.box p)) [
      | inl inside ↦
          let r =
            index_of-lt (line_of g p.y) (line_of g p.x) (row_lt p.y (contain-bottom p inside))
              (col_lt p.x (contain-right p inside)) in
          inl (inside, index_of g (line_of g p.y) (line_of g p.x), r, ground arith)
      | inr outside ↦ inr (outside, rw outside refl)
    ]
