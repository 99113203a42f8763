-- ===== src/Interaction.antt =====
-- How two cells of a room act on each other: `interact` in src/entity/Avatar.cpp, Virus.cpp, Phage.cpp and
-- Mother.cpp, and `onAvatarExplode` of src/Player.cpp, with its double dispatch.
pub mod Pairs
pub mod Steps
pub mod Fair
pub mod Meeting
pub mod Symmetry
pub mod Dispatch
use the_game_server.Base.{
  ℕ, zero, suc, ◌+◌, ◌-◌, ◌*◌, ◌/◌, ◌%◌, ◌^◌, ◌≤◌, ◌<◌, min, max, ◌≡◌, refl, sym, ap, subst, ◌∙◌,
  ◌≢◌, ◌↔◌, ◌⊎◌, inl, inr, Bool, true, false, not, ◌&&◌, ◌||◌, Option, none, some, List, [], ◌∷◌,
  ◌++◌, map, arith, ltb, leb, ◌==◌, if◌then◌else◌, Bool-cases, Option-cases, length, take, drop,
  All, contains, insert, erase, count,
}
use the_game_server.Base.Float.{Float, ◌*F◌, ◌+F◌, ◌-F◌, ◌/F◌}
use the_game_server.Config.{RoomConfig}
use the_game_server.World.{
  Host, World, act, create_cell, with_player, write, cell_at, edit_player, random_direction,
  wake_up, player_at, fresh_cell, draw,
}
use the_game_server.Entity.{Cell, Kind, avatar}
use the_game_server.Entity.Motion.{start_motion, kill, modify_velocity}
use the_game_server.Geometry.{
  distance, is_nonzero, square_distance, direction, ◌+V◌, dot, ◌*V◌, ◌-V◌, ◌/V◌,
}
use the_game_server.Entity.Avatars.{change_mass, check_recombined, start_recombination}
use the_game_server.Base.Options.{same_pointer}

module _ {F : Type 0} ⦃f : Float F⦄ (config : RoomConfig F) (host : Host F) where
  -- `squareDistance(a.position, b.position) < reach * reach`
  abbrev pub touches : Cell F → Cell F → F → Bool
  unfolding square_distance
  touches a b reach = f.lt (square_distance a.position b.position) (reach *F reach)

  unfoldable pub grow : ℕ → F → World F → World F
  unfolding act change_mass
  grow p value w = act p (change_mass config host.pi value) w

  unfoldable pub kill_cell : ℕ → World F → World F
  unfolding act kill
  kill_cell p w = act p kill w

  -- `setKiller` of the player of the first cell, with the player of the second.
  unfoldable pub set_killer : Option ℕ → Option ℕ → World F → World F
  unfolding with_player edit_player
  set_killer dead killer w =
      with_player dead (λ q. edit_player q (λ player. record player { killer = killer })) w

  -- `addAvatar`
  unfoldable pub add_avatar : ℕ → ℕ → World F → World F
  unfolding write edit_player
  add_avatar q p w =
      edit_player q (λ player. record player { avatars = insert p player.avatars; is_alive = true })
        (write p (record (cell_at w p) { player = some q }) w)

  -- The greatest of the three masses.
  abbrev pub part_mass : Cell F → ℕ
  part_mass c =
      max (f.to_ℕ (f.literal 1 8 *F c.mass))
        (max config.avatar.explosion_min_mass config.cell_min_mass)

  abbrev pub part_count : ℕ → Cell F → ℕ
  part_count avatars c =
      min (config.player.max_avatars - avatars)
        (min (f.to_ℕ c.mass / part_mass c) config.avatar.explosion_parts)

  -- The body of the loop of `onAvatarExplode`.
  unfoldable pub throw_part : ℕ → ℕ → ℕ → World F → World F
  unfolding create_cell random_direction act write change_mass modify_velocity start_recombination
      add_avatar ◌+V◌ ◌*V◌
  throw_part q p mass w =
      let new = fresh_cell config host w in
      let w = grow new (f.of_ℕ mass) (create_cell config host avatar w) in
      let way = random_direction host w in
      let w = draw w in
      let obj = cell_at w new in
      let w =
        write new
          (record obj {
            position = (cell_at w p).position +V way *V ((cell_at w p).radius +F obj.radius);
            color = (player_at w q).color;
          })
          w in
      let w = act new (modify_velocity (way *V f.of_ℕ config.explode_velocity)) w in
      add_avatar q new (act new (start_recombination config host.now) w)

  unfoldable pub throw_parts : ℕ → ℕ → ℕ → ℕ → World F → World F
  unfolding throw_part
  throw_parts zero q p mass w = w
  throw_parts (suc n) q p mass w = throw_parts n q p mass (throw_part q p mass w)

  unfoldable pub on_avatar_explode : ℕ → ℕ → World F → World F
  unfolding throw_parts act start_recombination
  on_avatar_explode p q w =
      let avatars = length (player_at w q).avatars in
      let mass = part_mass (cell_at w p) in
      let parts = part_count avatars (cell_at w p) in
      let thrown = throw_parts parts q p mass w in
      if leb config.player.max_avatars avatars || parts == 0
      then w
      else act p (start_recombination config host.now)
          (grow p (f.neg (f.of_ℕ (mass * parts % 2 ^ 32))) thrown)

  -- The callback is set for the avatars of a player.
  unfoldable pub explode : ℕ → World F → World F
  unfolding with_player on_avatar_explode
  explode p w = with_player (cell_at w p).player (on_avatar_explode p) w

  unfoldable pub wake_player : ℕ → World F → World F
  unfolding with_player wake_up
  wake_player p w = with_player (cell_at w p).player (wake_up config host) w

  -- The attacker takes the mass of the defender.
  unfoldable pub devour : ℕ → ℕ → World F → World F
  unfolding grow kill_cell set_killer
  devour attacker defender w =
      set_killer (cell_at w defender).player (cell_at w attacker).player
        (kill_cell defender (grow attacker (cell_at w defender).mass w))

  -- Two avatars of one player, when both were asked whether they are recombined.
  unfoldable pub fuse_asked : ℕ → ℕ → World F → World F
  unfolding act start_recombination devour square_distance
  fuse_asked attacker defender w =
      let a = cell_at w attacker in
      let b = cell_at w defender in
      let dd = square_distance a.position b.position in
      let d = a.radius -F f.literal 3 5 *F b.radius in
      let d2 = f.literal 1 4 *F a.radius in
      if not b.recombined || (f.lt (d *F d) dd && f.lt (d2 *F d2) dd)
      then w
      else devour attacker defender (act attacker (start_recombination config host.now) w)

  -- The defender is not asked if the attacker is not recombined.
  unfoldable pub fuse : ℕ → ℕ → World F → World F
  unfolding act check_recombined fuse_asked
  fuse attacker defender w =
      let asked = act attacker (check_recombined host.now) w in
      if not (cell_at asked attacker).recombined
      then asked
      else fuse_asked attacker defender (act defender (check_recombined host.now) asked)

  -- The attacker is the heavier one.
  unfoldable pub attack_other : ℕ → ℕ → World F → World F
  unfolding devour wake_player square_distance
  attack_other attacker defender w =
      let a = cell_at w attacker in
      let b = cell_at w defender in
      let d = a.radius -F f.literal 3 5 *F b.radius in
      if f.lt a.mass (f.literal 5 4 *F b.mass)
        || f.lt (d *F d) (square_distance a.position b.position)
      then w
      else devour attacker defender (wake_player attacker w)

  unfoldable pub attack : ℕ → ℕ → World F → World F
  unfolding fuse attack_other
  attack attacker defender w =
      if same_pointer (cell_at w attacker).player (cell_at w defender).player
      then fuse attacker defender w
      else attack_other attacker defender w
