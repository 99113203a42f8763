-- ===== src/Entity/Motion.antt =====
-- src/entity/Cell.cpp: mass and motion. An operation gives the cell and the events that it emits.
use the_game_server.Base.{ℕ, ◌+◌, ◌%◌, ◌^◌, true, List, [], ◌∷◌, ◌++◌, if◌then◌else◌}
use the_game_server.Base.Float.{Float, zero_f, ◌+F◌, ◌-F◌, ◌*F◌, ◌/F◌}
use the_game_server.Geometry.{Vec2D, zero_vec, dot, direction, ◌+V◌, ◌-V◌, ◌*V◌, ◌/V◌, is_nonzero}
use the_game_server.Entity.{Cell, kind_code}
use the_game_server.Wire.{Buffer, serialize, serialize_float}
use the_game_server.Config.{RoomConfig}

pub data Emitted (F : Type 0) : Type 0 where
  mass_changed : F → Emitted F
  motion_started motion_stopped died : Emitted F

-- A cell and what it has emitted, the first event first.
pub record Acting (F : Type 0) : Type 0 where
  pub cell : Cell F
  pub emitted : List (Emitted F)

module _ {F : Type 0} ⦃f : Float F⦄ where
  -- `MIN_MASS`
  abbrev pub min_mass : F
  min_mass = f.of_ℕ 1

  -- The constant `M_PI` is an argument.
  unfoldable pub set_mass : RoomConfig F → F → F → Acting F → Acting F
  set_mass config pi value a =
      let mass = if f.le min_mass value then value else min_mass in
      record {
        cell = record a.cell {
          mass = mass;
          radius =
              if a.cell.material_point
              then a.cell.radius
              else config.cell_radius_ratio *F f.sqrt (mass /F pi);
        };
        emitted = a.emitted ++ mass_changed (mass -F a.cell.mass) ∷ [];
      }

  unfoldable pub modify_mass : RoomConfig F → F → F → Acting F → Acting F
  unfolding set_mass
  modify_mass config pi value a = set_mass config pi (a.cell.mass +F value) a

  unfoldable pub modify_velocity : Vec2D F → Acting F → Acting F
  unfolding ◌+V◌
  modify_velocity value a = record {
    cell = record a.cell { velocity = a.cell.velocity +V value };
    emitted = a.emitted ++ motion_started ∷ [];
  }

  unfoldable pub apply_resistance_force : Acting F → Acting F
  unfolding ◌-V◌ ◌*V◌ direction
  apply_resistance_force a = record a {
    cell = record a.cell {
      force =
          a.cell.force -V direction a.cell.velocity *V (a.cell.radius *F a.cell.resistance_ratio);
    };
  }

  abbrev absolute : F → F
  absolute a = if f.lt a zero_f then f.neg a else a

  -- A cell whose direction is reversed stops where it is.
  unfoldable pub simulate : F → Acting F → Acting F
  unfolding ◌+V◌ ◌*V◌ ◌/V◌ direction dot
  simulate dt a =
      let velocity = a.cell.velocity +V (a.cell.force /V a.cell.mass) *V dt in
      let turn = dot (direction velocity) (direction a.cell.velocity) in
      if f.le (absolute (f.of_ℕ 1 +F turn)) (f.literal 1 100)
      then record {
        cell = record a.cell { velocity = zero_vec; force = zero_vec };
        emitted = a.emitted ++ motion_stopped ∷ [];
      }
      else record a {
        cell = record a.cell {
          velocity = velocity;
          position = a.cell.position +V velocity *V dt;
          force = zero_vec;
        };
      }

  unfoldable pub kill : Acting F → Acting F
  kill a = record { cell = record a.cell { zombie = true }; emitted = a.emitted ++ died ∷ [] }

  unfoldable pub start_motion : Acting F → Acting F
  start_motion a = record a { emitted = a.emitted ++ motion_started ∷ [] }

  -- The bits of the type and of the two flags are apart, so that `|` is a sum.
  abbrev pub type_byte : Cell F → ℕ
  type_byte c =
      kind_code c.kind + (if c.newly then 64 else 0) + (if is_nonzero c.velocity then 128 else 0)

  unfoldable pub format : Cell F → Buffer → Buffer
  format c buffer =
      let b = serialize 1 buffer (type_byte c) in
      let b = serialize 4 b c.id in
      let b = serialize_float b c.position.x in
      let b = serialize_float b c.position.y in
      let b = serialize 4 b (f.to_ℕ c.mass % 2 ^ 32) in
      let b = serialize 2 b (f.to_ℕ c.radius % 2 ^ 16) in
      let b = serialize 1 b c.color in
      if is_nonzero c.velocity
      then serialize_float (serialize_float b c.velocity.x) c.velocity.y
      else b
