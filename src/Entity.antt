-- ===== src/Entity.antt =====
-- The state of a cell, src/entity/Cell.hpp with the fields of src/entity/Avatar.hpp and Mother.hpp. The
-- class of a cell is its kind. A pointer to a cell or to a player is a number, and a pointer to a
-- sector is the sector's index. The emitters stand outside the record.
pub mod Motion
pub mod Format
pub mod Avatars
use the_game_server.Base.{ℕ, Bool, Option, List}
use the_game_server.Base.Float.{Float}
use the_game_server.Geometry.{
  Vec2D, Aabb, Circle, box_intersects_point, ◌+V◌, box_intersects_circle, ◌-V◌,
}

pub data Kind : Type 0 where
  avatar food bullet virus phage mother : Kind

-- The constants `typeAvatar` and so on.
unfoldable pub kind_code : Kind → ℕ
kind_code avatar = 1
kind_code food = 2
kind_code bullet = 3
kind_code virus = 4
kind_code phage = 5
kind_code mother = 6

pub record Cell (F : Type 0) : Type 0 where
  pub position : Vec2D F
  pub radius : F
  pub sectors : List ℕ
  pub left_top_sector : Option ℕ
  pub right_bottom_sector : Option ℕ
  pub created : ℕ
  pub velocity : Vec2D F
  pub force : Vec2D F
  pub creator : Option ℕ
  pub player : Option ℕ
  pub mass : F
  pub resistance_ratio : F
  pub id : ℕ
  pub kind : Kind
  pub color : ℕ
  pub newly : Bool
  pub zombie : Bool
  pub material_point : Bool
  -- Of an avatar.
  pub fusion_time : ℕ
  pub max_velocity : F
  pub recombined : Bool
  pub deflation_mass : F
  -- Of a mother.
  pub nearby_food_quantity : ℕ

module _ {F : Type 0} ⦃f : Float F⦄ where
  abbrev pub circle_of : Cell F → Circle F
  circle_of c = record { position = c.position; radius = c.radius }

  -- `Cell::getAABB`
  unfoldable pub get_aabb : Cell F → Aabb F
  unfolding ◌+V◌ ◌-V◌
  get_aabb c =
      let delta : Vec2D F = record { x = c.radius; y = c.radius } in
      record { a = c.position -V delta; b = c.position +V delta }

  -- `Cell::intersects`, which `Food` overrides.
  unfoldable pub intersects : Cell F → Aabb F → Bool
  intersects c box = elim c.kind [
    | food ↦ box_intersects_point box c.position
    | _ ↦ box_intersects_circle box (circle_of c)
  ]
