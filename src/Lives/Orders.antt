-- ===== src/Lives/Orders.antt =====
-- What a player does at the order of its session: src/Player.cpp and `eject` of src/entity/Avatar.cpp.
use the_game_server.Geometry.{Vec2D, is_nonzero, normalize, ◌+V◌, ◌-V◌, ◌*V◌, zero_vec}
use the_game_server.Entity.Avatars.{start_recombination}
use the_game_server.Entity.Motion.{modify_velocity, start_motion}
use the_game_server.Entity.{bullet, avatar, Cell}
use the_game_server.Interaction.{grow, add_avatar}
use the_game_server.World.{
  Host, World, cell_at, player_at, edit_player, fresh_cell, create_cell, act, write,
}
use the_game_server.Base.{
  ℕ, ◌+◌, Bool, true, false, not, ◌&&◌, ◌||◌, List, [], ◌∷◌, leb, if◌then◌else◌, length,
}
use the_game_server.Base.Float.{Float, ◌*F◌, ◌-F◌}
use the_game_server.Config.{RoomConfig}

module _ {F : Type 0} ⦃f : Float F⦄ (config : RoomConfig F) (host : Host F) where
  -- The bullet leaves an avatar that has lost its mass.
  unfoldable pub throw_bullet : ℕ → Vec2D F → World F → World F
  unfolding grow create_cell write act modify_velocity is_nonzero normalize ◌+V◌ ◌-V◌ ◌*V◌
  throw_bullet p point w =
      let w = grow config host p (f.neg (f.of_ℕ config.avatar.ejection_mass_loss)) w in
      let a = cell_at w p in
      let new = fresh_cell config host w in
      let w = create_cell config host bullet w in
      let w =
        write new
          (record (cell_at w new) {
            player = a.player;
            color = a.color;
            position = a.position;
            velocity = a.velocity;
          })
          w in
      let w = grow config host new (f.of_ℕ config.avatar.ejection_mass) w in
      let way = point -V a.position in
      let thrown =
        act new (modify_velocity (normalize way *V f.of_ℕ config.avatar.ejection_velocity)) w in
      let moved =
        write new
          (record (cell_at thrown new) {
            position = (cell_at thrown new).position +V normalize way *V a.radius;
          })
          thrown in
      if is_nonzero way then moved else w

  -- `Avatar::eject`
  unfoldable pub eject_avatar : ℕ → Vec2D F → World F → World F
  unfolding throw_bullet
  eject_avatar p point w =
      let a = cell_at w p in
      if a.zombie
        || f.lt a.mass (f.of_ℕ config.avatar.ejection_min_mass)
        || f.lt (a.mass -F f.of_ℕ config.avatar.ejection_mass_loss) (f.of_ℕ config.cell_min_mass)
      then w
      else throw_bullet p point w

  unfoldable pub eject_all : List ℕ → Vec2D F → World F → World F
  unfolding eject_avatar
  eject_all [] point w = w
  eject_all (p ∷ ps) point w = eject_all ps point (eject_avatar p point w)

  -- `Player::eject`
  unfoldable pub eject : ℕ → Vec2D F → World F → World F
  unfolding eject_all
  eject q point w =
      if (player_at w q).is_alive then eject_all (player_at w q).avatars point w else w

  -- The velocity that a half gets away from the other one.
  unfoldable pub send_off : ℕ → Vec2D F → World F → World F
  send_off p way w =
      if is_nonzero way
      then act p (modify_velocity (normalize way *V f.of_ℕ config.avatar.split_velocity)) w
      else w

  -- Half of an avatar leaves it.
  unfoldable pub split_avatar : ℕ → ℕ → Vec2D F → World F → World F
  unfolding send_off start_recombination
  split_avatar q p point w =
      let half = f.literal 1 2 *F (cell_at w p).mass in
      let new = fresh_cell config host w in
      let w = create_cell config host avatar w in
      let w =
        write new
          (record (cell_at w new) {
            color = (player_at w q).color;
            position = (cell_at w p).position;
            velocity = (cell_at w p).velocity;
          })
          w in
      let w = grow config host p (f.neg half) (grow config host new half w) in
      let w = send_off new (point -V (cell_at w p).position) w in
      act new (start_recombination config host.now) (act p (start_recombination config host.now) w)

  -- An avatar that is heavy enough for two.
  abbrev pub can_split : Cell F → Bool
  can_split a =
      not (f.lt a.mass (f.of_ℕ config.avatar.split_min_mass))
      && not (f.lt (f.literal 1 2 *F a.mass) (f.of_ℕ config.cell_min_mass))

  -- The loop of `split`: the avatars that it has created, for the number of avatars there are.
  unfoldable pub split_all : ℕ → List ℕ → ℕ → Vec2D F → World F → List ℕ × World F
  unfolding split_avatar
  split_all q [] n point w = ([], w)
  split_all q (p ∷ ps) n point w = elim (leb config.player.max_avatars n) [
    | true ↦ ([], w)
    | false ↦ elim (can_split (cell_at w p)) [
      | false ↦ split_all q ps n point w
      | true ↦
          (let rest = split_all q ps (n + 1) point (split_avatar q p point w) in
            (fresh_cell config host w ∷ rest.0, rest.1))
    ]
  ]

  unfoldable pub add_all : ℕ → List ℕ → World F → World F
  unfolding add_avatar
  add_all q [] w = w
  add_all q (p ∷ ps) w = add_all q ps (add_avatar config host q p w)

  -- `Player::split`
  unfoldable pub split : ℕ → Vec2D F → World F → World F
  unfolding split_all add_all
  split q point w =
      let avatars = (player_at w q).avatars in
      let (news, w') = split_all q avatars (length avatars) point w in
      if (player_at w q).is_alive then add_all q news w' else w

  unfoldable pub start_all : List ℕ → World F → World F
  unfolding act start_motion
  start_all [] w = w
  start_all (p ∷ ps) w = start_all ps (act p start_motion w)

  -- `Player::setPointerOffset`
  unfoldable pub set_pointer_offset : ℕ → Vec2D F → World F → World F
  unfolding edit_player start_all is_nonzero
  set_pointer_offset q value w =
      if (player_at w q).is_alive && is_nonzero value
      then start_all (player_at w q).avatars
          (edit_player q (λ player. record player { pointer_offset = value }) w)
      else edit_player q (λ player. record player { pointer_offset = zero_vec }) w
