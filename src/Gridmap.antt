-- ===== src/Gridmap.antt =====
-- src/Gridmap.cpp, its queries apart: the room cut into square sectors, each with the cells that touch it. `none` is the
-- exception of `vector::at`, or what is undefined in the language.
pub mod Cells
pub mod Bounds
pub mod Keeping
pub mod Links
pub mod Rounds
pub mod Returns
pub mod Search
pub mod Queries
use the_game_server.Base.{
  ℕ, zero, suc, ◌+◌, ◌-◌, ◌*◌, ◌/◌, ◌%◌, ◌^◌, ◌≤◌, ◌<◌, min, max, ◌≡◌, refl, sym, ap, subst, ◌∙◌,
  ◌≢◌, ◌↔◌, ◌⊎◌, inl, inr, Bool, true, false, not, ◌&&◌, ◌||◌, Option, none, some, List, [], ◌∷◌,
  ◌++◌, map, arith, ltb, leb, ◌==◌, if◌then◌else◌, Bool-cases, Option-cases, length, take, drop,
  All, contains, insert, erase, count,
}
use the_game_server.Base.Float.{Float, of_ℕ}
use the_game_server.Geometry.{Vec2D, Aabb, vec, contain, zero_vec, box_intersects_circle}
use the_game_server.Entity.{Cell, get_aabb, circle_of}

pub record Sector (F : Type 0) : Type 0 where
  pub cells : List ℕ
  pub box : Aabb F

pub record Gridmap (F : Type 0) : Type 0 where
  pub sectors : List (Sector F)
  pub box : Aabb F
  pub width : ℕ
  pub height : ℕ
  pub row_count : ℕ
  pub col_count : ℕ
  pub power : ℕ

-- The numbers from the first to the last, for `for (i = first; i <= last; ++i)`.
unfoldable pub numbers_from : ℕ → ℕ → List ℕ
numbers_from zero first = []
numbers_from (suc n) first = first ∷ numbers_from n (first + 1)

unfoldable pub numbers : ℕ → ℕ → List ℕ
unfolding numbers_from
numbers first last = numbers_from (last + 1 - first) first

module _ {F : Type 0} where
  -- The cells of a sector; there are none beyond the last sector.
  unfoldable pub cells_at : List (Sector F) → ℕ → List ℕ
  cells_at [] i = []
  cells_at (s ∷ ss) zero = s.cells
  cells_at (s ∷ ss) (suc i) = cells_at ss i

  unfoldable pub modify_cells : (List ℕ → List ℕ) → ℕ → List (Sector F) → List (Sector F)
  modify_cells change i [] = []
  modify_cells change zero (s ∷ ss) = record s { cells = change s.cells } ∷ ss
  modify_cells change (suc i) (s ∷ ss) = s ∷ modify_cells change i ss

module _ {F : Type 0} ⦃f : Float F⦄ where
  -- The boxes of `resize`, one after the other: a row is full when the next number is a multiple of
  -- the number of columns.
  unfoldable pub boxes : ℕ → ℕ → ℕ → ℕ → ℕ → ℕ → List (Sector F)
  boxes zero size cols id x y = []
  boxes (suc n) size cols id x y =
      let row_goes_on = not ((id + 1) % cols == 0) in
      record {
        cells = [];
        box = record {
          a = vec (of_ℕ x) (of_ℕ y);
          b = vec (of_ℕ (x + size - 1)) (of_ℕ (y + size - 1));
        };
      }
      ∷ boxes n size cols (id + 1) (if row_goes_on then x + size else 0)
          (if row_goes_on then y else y + size)

  -- On a new map, whose box begins at the origin. The sizes are from 1 and small enough that no
  -- `uint32_t` wraps.
  unfoldable pub resize : ℕ → ℕ → ℕ → Gridmap F
  unfolding boxes
  resize width height power =
      let size = 2 ^ power in
      let rows = (height + size - 1) / size in
      let cols = (width + size - 1) / size in
      record {
        sectors = boxes (rows * cols) size cols 0 0 0;
        box = record { a = zero_vec; b = vec (of_ℕ (width - 1)) (of_ℕ (height - 1)) };
        width = width;
        height = height;
        row_count = rows;
        col_count = cols;
        power = power;
      }

  -- `std::max` and `std::min`
  abbrev pub max_f : F → F → F
  max_f a b = if f.lt a b then b else a

  abbrev pub min_f : F → F → F
  min_f a b = if f.lt b a then b else a

  unfoldable pub clip : Gridmap F → Aabb F → Aabb F
  clip g box = record {
    a = vec (max_f box.a.x g.box.a.x) (max_f box.a.y g.box.a.y);
    b = vec (min_f box.b.x g.box.b.x) (min_f box.b.y g.box.b.y);
  }

  abbrev pub index_of : Gridmap F → ℕ → ℕ → ℕ
  index_of g row col = row * g.col_count + col

  -- `static_cast<uint32_t>(c) >> m_power`
  abbrev pub line_of : Gridmap F → F → ℕ
  line_of g c = f.to_ℕ c / 2 ^ g.power

  -- `m_sectors.at(i)`
  sector_at : Gridmap F → ℕ → Option (Option ℕ)
  sector_at g i = if ltb i (length g.sectors) then some (some i) else none

  -- The outer `none` is the exception, the inner one the null pointer.
  unfoldable pub get_sector : Gridmap F → Vec2D F → Option (Option ℕ)
  unfolding contain sector_at
  get_sector g point =
      if contain g.box point
      then sector_at g (index_of g (line_of g point.y) (line_of g point.x))
      else some none

  abbrev pub is_empty : Aabb F → Bool
  is_empty box = f.lt box.b.x box.a.x || f.lt box.b.y box.a.y

  -- The sectors of a loop over rows and columns, row by row.
  unfoldable pub row_indices : Gridmap F → ℕ → List ℕ → List ℕ
  row_indices g row [] = []
  row_indices g row (col ∷ cols) = index_of g row col ∷ row_indices g row cols

  unfoldable pub indices : Gridmap F → List ℕ → List ℕ → List ℕ
  unfolding row_indices
  indices g [] cols = []
  indices g (row ∷ rows) cols = row_indices g row cols ++ indices g rows cols

  unfoldable pub rows_of : Gridmap F → Aabb F → List ℕ
  unfolding numbers
  rows_of g box = numbers (line_of g box.a.y) (line_of g box.b.y)

  unfoldable pub cols_of : Gridmap F → Aabb F → List ℕ
  unfolding numbers
  cols_of g box = numbers (line_of g box.a.x) (line_of g box.b.x)
