-- ===== src/Lives/Playing.antt =====
-- How a session begins to play: `respawn` of src/Player.cpp, `createPlayer` and `doPlay` of src/Room.cpp. The
-- handlers that the room has subscribed to a player run later.
use the_game_server.Player.{new_player, is_dead}
use the_game_server.Lives.Ageing.{calc_params}
use the_game_server.Entity.Avatars.{assign_mass}
use the_game_server.Spawning.{settle}
use the_game_server.Interaction.{add_avatar}
use the_game_server.Entity.{avatar}
use the_game_server.Audience.{
  Audience, write_player, emplace, broadcast, find, remove_session, set_observable,
  set_main_session, send_to,
}
use the_game_server.World.{
  Host, World, cell_at, player_at, edit_player, fresh_cell, create_cell, act, write, wake_up,
}
use the_game_server.Base.{ℕ, none, some, List, [], if◌then◌else◌}
use the_game_server.Base.Float.{Float}
use the_game_server.Config.{RoomConfig}
use the_game_server.OutgoingPacket.{
  serialize_play, serialize_player, serialize_player_join, serialize_player_born,
}

module _ {F : Type 0} ⦃f : Float F⦄ (config : RoomConfig F) (host : Host F) where
  -- The packet goes to the main session, if there is one.
  unfoldable pub send_main : ℕ → World F → World F
  unfolding send_to serialize_play
  send_main q w = elim (player_at w q).main_session [
    | none ↦ w
    | some sess ↦ record w {
      audience = send_to sess (serialize_play [] (player_at w q)) w.audience;
    }
  ]

  -- `Player::respawn`
  unfoldable pub respawn : ℕ → World F → World F
  unfolding create_cell act assign_mass settle write add_avatar edit_player calc_params wake_up
      send_main
  respawn q w =
      let new = fresh_cell config host w in
      let v = create_cell config host avatar w in
      let v = act new (assign_mass config host.pi (f.of_ℕ config.player.mass)) v in
      let v = settle config host new v in
      let v = write new (record (cell_at v new) { color = (player_at v q).color }) v in
      let v = add_avatar config host q new v in
      let v = edit_player q (calc_params config v.room.memory) v in
      let v = wake_up config host q v in if (player_at w q).is_alive then w else send_main q v

  -- `createPlayer`, for the address that the allocator gives the player.
  unfoldable pub create_player : ℕ → ℕ → List ℕ → World F → World F
  unfolding write_player new_player emplace broadcast serialize_player
  create_player pointer id name w =
      let player = record (new_player id) { name = name } in
      let a = write_player pointer player w.audience in
      let a = record a { players = emplace id pointer a.players } in
      record w { audience = broadcast (serialize_player [] player) a }

  -- The player of a session: its own, the one of its number, or a new one.
  unfoldable pub player_for : ℕ → ℕ → List ℕ → World F → ℕ × World F
  unfolding find create_player
  player_for pointer sess name w = elim (w.audience.user_of sess).player [
    | some q ↦ (q, w)
    | none ↦ elim (find (w.audience.user_of sess).player_id w.audience.players) [
      | some q ↦ (q, w)
      | none ↦ (pointer, create_player pointer (w.audience.user_of sess).player_id name w)
    ]
  ]

  -- `observable->removeSession(sess); sess->observable(nullptr);`
  unfoldable pub stop_watching : ℕ → Audience F → Audience F
  unfolding remove_session set_observable
  stop_watching sess a = elim (a.user_of sess).observable [
    | none ↦ a
    | some o ↦ set_observable sess none (remove_session o sess a)
  ]

  unfoldable pub enter_life : ℕ → List ℕ → ℕ → World F → World F
  unfolding respawn is_dead
  enter_life q name color w =
      if is_dead (player_at w q)
      then respawn q (edit_player q (λ player. record player { color = color; name = name }) w)
      else w

  -- The packets that all the sessions get.
  unfoldable pub announce : ℕ → Audience F → Audience F
  unfolding serialize_player_join serialize_player_born broadcast serialize_player
  announce q a =
      let player = a.player_of q in
      broadcast (serialize_player_born [] player.id)
        (broadcast (serialize_player_join [] player.id) (broadcast (serialize_player [] player) a))

  -- `doPlay`
  unfoldable pub do_play : ℕ → ℕ → List ℕ → ℕ → World F → World F
  unfolding stop_watching player_for set_main_session enter_life announce
  do_play pointer sess name color w =
      let (q, v) =
        player_for pointer sess name (record w { audience = stop_watching sess w.audience }) in
      let v = record v { audience = set_main_session q sess v.audience } in
      let v = enter_life q name color v in record v { audience = announce q v.audience }
