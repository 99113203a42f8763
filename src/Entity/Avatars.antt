-- ===== src/Entity/Avatars.antt =====
-- src/entity/Avatar.cpp: what an avatar does by itself, and the operations of a cell that its class may
-- override. An operation gives the cell and the events that it emits.
use the_game_server.Base.{ℕ, ◌+◌, ◌%◌, ◌^◌, Bool, false, not, ◌&&◌, ◌||◌, ltb, if◌then◌else◌}
use the_game_server.Base.Float.{Float, ◌+F◌, ◌-F◌, ◌*F◌, ◌/F◌}
use the_game_server.Geometry.{Vec2D, vec_length, direction, ◌+V◌, ◌-V◌, ◌*V◌, is_nonzero}
use the_game_server.Base.Options.{same_pointer}
use the_game_server.Config.{RoomConfig}
use the_game_server.Entity.{Cell, avatar, food, bullet}
use the_game_server.Entity.Motion.{Acting, set_mass, type_byte}
use the_game_server.Wire.{serialize, serialize_float, Buffer}

module _ {F : Type 0} ⦃f : Float F⦄ where
  -- `Avatar::setMass`
  unfoldable pub set_avatar_mass : RoomConfig F → F → F → Acting F → Acting F
  unfolding set_mass
  set_avatar_mass config pi value a =
      let least = f.of_ℕ config.cell_min_mass in
      let b = set_mass config pi (if f.le least value then value else least) a in
      record b {
        cell = record b.cell {
          max_velocity =
              f.of_ℕ config.avatar.max_velocity
              -F config.avatar_velocity_diff
                *F (b.cell.radius -F config.cell_min_radius)
                /F config.cell_radius_diff;
        };
      }

  -- The virtual `setMass`, and `modifyMass`, which calls it.
  unfoldable pub assign_mass : RoomConfig F → F → F → Acting F → Acting F
  unfolding set_mass set_avatar_mass
  assign_mass config pi value a = elim a.cell.kind [
    | avatar ↦ set_avatar_mass config pi value a
    | _ ↦ set_mass config pi value a
  ]

  unfoldable pub change_mass : RoomConfig F → F → F → Acting F → Acting F
  unfolding assign_mass
  change_mass config pi value a = assign_mass config pi (a.cell.mass +F value) a

  unfoldable pub get_max_velocity : Cell F → F
  get_max_velocity c = c.max_velocity

  -- `isRecombined` remembers, in the cell, that the time is over.
  unfoldable pub recombined_by : ℕ → Cell F → Bool
  recombined_by now c = c.recombined || ltb c.fusion_time now

  unfoldable pub check_recombined : ℕ → Acting F → Acting F
  unfolding recombined_by
  check_recombined now a = record a {
    cell = record a.cell { recombined = recombined_by now a.cell };
  }

  unfoldable pub start_recombination : RoomConfig F → ℕ → Acting F → Acting F
  start_recombination config now a = record a {
    cell = record a.cell {
      fusion_time = now + config.avatar.recombination_duration;
      recombined = false;
    };
  }

  unfoldable pub apply_point_attraction_force : Vec2D F → F → Acting F → Acting F
  unfolding ◌+V◌ ◌-V◌ ◌*V◌ vec_length direction
  apply_point_attraction_force point ratio a =
      let c = a.cell in
      let way = point -V c.position in
      let distance = vec_length way in
      let k = if f.lt distance c.radius then distance /F c.radius else f.of_ℕ 1 in
      let v = direction way *V (k *F c.max_velocity) in
      record a { cell = record c { force = c.force +V (v -V c.velocity) *V (c.mass *F ratio) } }

  unfoldable pub setup_deflation : RoomConfig F → Acting F → Acting F
  setup_deflation config a = record a {
    cell = record a.cell { deflation_mass = a.cell.mass *F config.player.deflation_ratio };
  }

  unfoldable pub deflate : RoomConfig F → F → Acting F → Acting F
  unfolding change_mass
  deflate config pi a = change_mass config pi (f.neg a.cell.deflation_mass) a

  -- `isAttractiveFor` of a cell, for an avatar.
  unfoldable pub is_attractive_for : Cell F → Cell F → Bool
  is_attractive_for c other = elim c.kind [
    | avatar ↦
        not (same_pointer c.player other.player)
        && not c.zombie
        && f.lt (c.mass *F f.literal 5 4) other.mass
    | food ↦ not c.zombie
    | bullet ↦ not c.zombie
    | _ ↦ false
  ]

  -- `Avatar::format`: the number of the player, which is not null, stands before the velocity.
  unfoldable pub format_avatar : ℕ → Cell F → Buffer → Buffer
  unfolding serialize serialize_float
  format_avatar player_id c buffer =
      let b = serialize 1 buffer (type_byte c) in
      let b = serialize 4 b c.id in
      let b = serialize_float b c.position.x in
      let b = serialize_float b c.position.y in
      let b = serialize 4 b (f.to_ℕ c.mass % 2 ^ 32) in
      let b = serialize 2 b (f.to_ℕ c.radius % 2 ^ 16) in
      let b = serialize 1 b c.color in
      let b = serialize 4 b player_id in
      if is_nonzero c.velocity
      then serialize_float (serialize_float b c.velocity.x) c.velocity.y
      else b
