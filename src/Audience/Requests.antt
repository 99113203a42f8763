-- ===== src/Audience/Requests.antt =====
-- src/Room.cpp: what a session asks of its room. `m_players` and the sets are gone through in the order
-- of their lists.
use the_game_server.Base.{
  ℕ, ◌%◌, ◌^◌, Bool, false, not, ◌||◌, Option, none, some, List, [], ◌∷◌, ◌==◌, if◌then◌else◌,
  length, take, contains, insert, erase,
}
use the_game_server.Base.Float.{Float}
use the_game_server.Geometry.{Vec2D}
use the_game_server.Config.{RoomConfig}
use the_game_server.Player.{Player, is_dead, get_status}
use the_game_server.Wire.{Buffer, serialize, serialize_string, serialize_float}
use the_game_server.OutgoingPacket.{
  serialize_type, serialize_play, serialize_finish, serialize_spectate, serialize_chat_message,
  serialize_player_join, serialize_player_leave, serialize_change_target_player, room,
}
use the_game_server.Audience.{
  Audience, ChatMessage, find, emplace, erase_key, set_observable, set_player_id, write_player,
  send_to, send_all, broadcast, add_session, set_main_session, remove_session,
}
use the_game_server.Base.Options.{same_pointer}

serialize_history : Buffer → List ChatMessage → Buffer
serialize_history buffer [] = buffer
serialize_history buffer (m ∷ ms) =
    serialize_history
      (serialize_string (serialize_string (serialize 4 buffer m.author_id) m.author) m.text) ms

module _ {F : Type 0} ⦃f : Float F⦄ where
  serialize_players : (ℕ → Player F) → Buffer → List (ℕ × ℕ) → Buffer
  serialize_players player_of buffer [] = buffer
  serialize_players player_of buffer ((id, p) ∷ ps) =
      let player = player_of p in
      serialize_players player_of
        (serialize 1 (serialize_string (serialize 4 buffer player.id) player.name)
          (get_status player))
        ps

  -- The counts are cast to `uint8_t`, and all players and messages follow.
  unfoldable pub serialize_room : RoomConfig F → Audience F → Buffer → Buffer
  unfolding serialize_players serialize_history
  serialize_room config a buffer =
      let b = serialize_type buffer room in
      let b = serialize 2 b (config.width % 2 ^ 16) in
      let b = serialize 2 b (config.height % 2 ^ 16) in
      let b = serialize 2 b (config.viewport_base % 2 ^ 16) in
      let b = serialize_float b config.viewport_buffer in
      let b = serialize_float b config.aspect_ratio in
      let b = serialize_float b config.resistance_ratio in
      let b = serialize_float b config.elasticity_ratio in
      let b = serialize_float b config.food.resistance_ratio in
      let b = serialize 1 b (length a.players % 2 ^ 8) in
      let b = serialize_players a.player_of b a.players in
      let b = serialize 1 b (length a.chat_history % 2 ^ 8) in serialize_history b a.chat_history

  -- Everyone hears of the player before the session gets its packet, which was begun before.
  unfoldable pub finish_join : ℕ → ℕ → Buffer → Option ℕ → Audience F → Audience F
  finish_join sess id buffer none a = send_to sess (serialize_finish buffer) a
  finish_join sess id buffer (some p) a =
      let b = broadcast (serialize_player_join [] id) (set_main_session p sess a) in
      send_to sess (serialize_play buffer (b.player_of p)) b

  unfoldable pub do_join : RoomConfig F → ℕ → ℕ → Audience F → Audience F
  unfolding serialize_room finish_join
  do_join config sess id a =
      if contains sess a.sessions
      then a
      else (let b = set_player_id sess id (record a { sessions = insert sess a.sessions }) in
          finish_join sess id (serialize_room config b []) (find id b.players) b)

  unfoldable pub leave_player : ℕ → Option ℕ → Audience F → Audience F
  leave_player sess none a = a
  leave_player sess (some p) a =
      let b = remove_session p sess a in broadcast (serialize_player_leave [] (b.player_of p).id) b

  -- `observable->removeSession(sess); sess->observable(nullptr);`
  unfoldable pub leave_observable : ℕ → Option ℕ → Audience F → Audience F
  leave_observable sess none a = a
  leave_observable sess (some p) a = set_observable sess none (remove_session p sess a)

  -- The session out of the sets of the room.
  unfoldable pub without : ℕ → Audience F → Audience F
  without sess a = record a {
    sessions = erase sess a.sessions;
    move_requests = erase_key sess a.move_requests;
    eject_requests = erase_key sess a.eject_requests;
    split_requests = erase_key sess a.split_requests;
  }

  unfoldable pub do_leave : ℕ → Audience F → Audience F
  unfolding leave_player leave_observable without
  do_leave sess a =
      if contains sess a.sessions
      then (let b = leave_player sess (a.user_of sess).player (without sess a) in
          leave_observable sess (b.user_of sess).observable b)
      else a

  -- The player asked for, or else the first of the leaderboard.
  unfoldable pub target_of : ℕ → Audience F → Option ℕ
  target_of id a = elim (find id a.players) [
    | some p ↦ some p
    | none ↦ elim a.leaderboard [ [] ↦ none | ◌∷◌ p _ ↦ some p ]
  ]

  -- `removeSession` of a player that need not be there.
  unfoldable pub leaves : ℕ → Option ℕ → Audience F → Audience F
  leaves sess none a = a
  leaves sess (some p) a = remove_session p sess a

  -- A dead player is left with its session; the old observable keeps the session's pointer until the
  -- new one is set.
  unfoldable pub watch_target : ℕ → ℕ → Audience F → Audience F
  unfolding leaves
  watch_target sess target a =
      let b = leaves sess (a.user_of sess).player a in
      let c = leaves sess (b.user_of sess).observable b in
      set_observable sess (some target)
        (add_session target sess (send_to sess (serialize_spectate [] (c.player_of target)) c))

  unfoldable pub is_playing : Option ℕ → Audience F → Bool
  is_playing none a = false
  is_playing (some p) a = not (is_dead (a.player_of p))

  unfoldable pub spectate_target : ℕ → Option ℕ → Audience F → Audience F
  unfolding watch_target
  spectate_target sess none a = a
  spectate_target sess (some target) a =
      if not (contains target a.fighters)
      then a
      else (if same_pointer (a.user_of sess).player (some target)
            || same_pointer (a.user_of sess).observable (some target)
          then a
          else watch_target sess target a)

  unfoldable pub do_spectate : ℕ → ℕ → Audience F → Audience F
  unfolding target_of is_playing spectate_target
  do_spectate sess id a =
      if is_playing (a.user_of sess).player a then a else spectate_target sess (target_of id a) a

  -- `emplace` keeps the request that is there.
  unfoldable pub do_move : ℕ → Vec2D F → Audience F → Audience F
  do_move sess point a = record a { move_requests = emplace sess point a.move_requests }

  unfoldable pub do_eject : ℕ → Vec2D F → Audience F → Audience F
  do_eject sess point a = record a { eject_requests = emplace sess point a.eject_requests }

  unfoldable pub do_split : ℕ → Vec2D F → Audience F → Audience F
  do_split sess point a = record a { split_requests = emplace sess point a.split_requests }

  unfoldable pub set_target_player : ℕ → ℕ → Audience F → Audience F
  set_target_player p target a =
      let player = a.player_of p in
      if target == p || same_pointer player.target_player (some target)
      then a
      else send_all player.sessions (serialize_change_target_player [] (a.player_of target).id)
          (write_player p (record player { target_player = some target }) a)

  unfoldable pub watch_found : Option ℕ → Option ℕ → Audience F → Audience F
  unfolding set_target_player
  watch_found none target a = a
  watch_found (some p) none a = a
  watch_found (some p) (some target) a = set_target_player p target a

  unfoldable pub do_watch : ℕ → ℕ → Audience F → Audience F
  unfolding watch_found
  do_watch sess id a = watch_found (a.user_of sess).player (find id a.players) a

  -- The newest message stands first, and the history keeps 128.
  unfoldable pub say : List ℕ → Option ℕ → Audience F → Audience F
  say text none a = a
  say text (some p) a =
      let player = a.player_of p in
      let message : ChatMessage = record {
        text = text;
        author = player.name;
        author_id = player.id;
      } in
      let b = broadcast (serialize_chat_message [] player.id text) a in
      record b { chat_history = take 128 (message ∷ b.chat_history) }

  unfoldable pub do_chat_message : ℕ → List ℕ → Audience F → Audience F
  unfolding say
  do_chat_message sess text a = say text (a.user_of sess).player a
