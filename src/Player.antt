-- ===== src/Player.antt =====
-- The state of a player, src/Player.hpp, and its order. A pointer is a number. The timers and the
-- emitters stand outside the record.
pub mod Order
use the_game_server.Base.{
  ℕ, Bool, false, Option, none, List, [], if◌then◌else◌, ltb, not, ◌∷◌, ◌+◌, ◌||◌, true, ◌&&◌, ◌==◌,
  ◌*◌,
}
use the_game_server.Geometry.{Vec2D, Aabb, zero_vec}
use the_game_server.Base.Float.{Float, zero_f}

pub record Player (F : Type 0) : Type 0 where
  pub id : ℕ
  pub name : List ℕ
  pub sessions : List ℕ
  pub main_session : Option ℕ
  pub avatars : List ℕ
  pub visible_ids : List ℕ
  pub sectors : List ℕ
  pub viewport : Aabb F
  pub viewbox : Aabb F
  pub position : Vec2D F
  pub pointer_offset : Vec2D F
  pub left_top_sector : Option ℕ
  pub right_bottom_sector : Option ℕ
  pub target_player : Option ℕ
  pub killer : Option ℕ
  pub mass : ℕ
  pub max_mass : ℕ
  pub scale : F
  pub color : ℕ
  pub direction_to_target_player : ℕ
  pub is_online : Bool
  pub is_alive : Bool

-- `operator<` on strings: by bytes, and a prefix comes first.
unfoldable pub text_lt : List ℕ → List ℕ → Bool
text_lt [] [] = false
text_lt [] (y ∷ ys) = true
text_lt (x ∷ xs) [] = false
text_lt (x ∷ xs) (y ∷ ys) = ltb x y || (x == y && text_lt xs ys)

module _ {F : Type 0} ⦃f : Float F⦄ where
  abbrev zero_box : Aabb F
  zero_box = record { a = zero_vec; b = zero_vec }

  -- A player as it is constructed.
  unfoldable pub new_player : ℕ → Player F
  new_player id = record {
    id = id;
    name = [];
    sessions = [];
    main_session = none;
    avatars = [];
    visible_ids = [];
    sectors = [];
    viewport = zero_box;
    viewbox = zero_box;
    position = zero_vec;
    pointer_offset = zero_vec;
    left_top_sector = none;
    right_bottom_sector = none;
    target_player = none;
    killer = none;
    mass = 0;
    max_mass = 0;
    scale = zero_f;
    color = 0;
    direction_to_target_player = 0;
    is_online = false;
    is_alive = false;
  }

  unfoldable pub is_dead : Player F → Bool
  is_dead p = not p.is_alive

  unfoldable pub get_status : Player F → ℕ
  get_status p = (if p.is_online then 1 else 0) + (if p.is_alive then 1 else 0) * 2

  -- `operator<`: the names and the numbers are compared the other way round.
  unfoldable pub player_lt : Player F → Player F → Bool
  unfolding text_lt
  player_lt l r =
      ltb l.mass r.mass
      || (not (ltb r.mass l.mass)
          && (text_lt r.name l.name || (not (text_lt l.name r.name) && ltb r.id l.id)))
