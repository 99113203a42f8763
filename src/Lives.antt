-- ===== src/Lives.antt =====
-- src/Player.cpp: what the sessions of a player see of its death.
pub mod Orders
pub mod Ageing
pub mod Limits
pub mod Mourning
pub mod Playing
use the_game_server.Base.{
  ℕ, false, Option, none, some, List, [], ◌∷◌, ◌==◌, if◌then◌else◌, length, erase,
}
use the_game_server.Audience.{
  write_player, add_session, send_all, set_player, Audience, set_observable,
}
use the_game_server.Base.Float.{Float}
use the_game_server.Player.{is_dead}
use the_game_server.World.{World, edit_player, player_at}
use the_game_server.OutgoingPacket.{
  serialize_finish, serialize_spectate, serialize_change_target_player,
}

module _ {F : Type 0} ⦃f : Float F⦄ where
  -- `lock` of a weak pointer to a player.
  unfoldable pub lock : Option ℕ → World F → Option ℕ
  lock none w = none
  lock (some q) w = if w.held q then some q else none

  -- A player that is there and alive.
  unfoldable pub alive : Option ℕ → World F → Option ℕ
  unfolding is_dead
  alive none w = none
  alive (some q) w = if is_dead (player_at w q) then none else some q

  -- The killer, or the top player if there is no killer left alive: who is watched, if alive.
  unfoldable pub choose_observable : Option ℕ → World F → Option ℕ
  unfolding lock alive
  choose_observable killer w = elim (alive (lock killer w) w) [
    | some q ↦ some q
    | none ↦ alive (lock w.top_player w) w
  ]

  unfoldable pub watch_all : ℕ → List ℕ → Audience F → Audience F
  unfolding add_session set_observable
  watch_all o [] a = a
  watch_all o (sess ∷ rest) a =
      watch_all o rest (set_observable sess (some o) (add_session o sess a))

  -- `m_mainSession->player(nullptr)`
  unfoldable pub drop_main : Option ℕ → Audience F → Audience F
  unfolding set_player
  drop_main none a = a
  drop_main (some main) a = set_player main none a

  -- `clearSessions`: the player stays online.
  unfoldable pub clear_sessions : ℕ → Audience F → Audience F
  unfolding drop_main write_player
  clear_sessions q a =
      drop_main (a.player_of q).main_session
        (write_player q (record (a.player_of q) { sessions = []; main_session = none }) a)

  unfoldable pub show_death : Option ℕ → ℕ → Audience F → Audience F
  unfolding watch_all send_all serialize_finish serialize_spectate serialize_change_target_player
      clear_sessions
  show_death none q a =
      let sessions = (a.player_of q).sessions in
      let a = write_player q (record (a.player_of q) { target_player = none }) a in
      clear_sessions q
        (send_all sessions (serialize_change_target_player (serialize_finish []) 0) a)
  show_death (some o) q a =
      let sessions = (a.player_of q).sessions in
      let buffer = serialize_spectate [] (a.player_of o) in
      let a = watch_all o sessions a in
      let a = write_player q (record (a.player_of q) { target_player = none }) a in
      clear_sessions q (send_all sessions (serialize_change_target_player buffer 0) a)

  -- `onDeath`, but for the handlers that the room has subscribed to the death of the player.
  unfoldable pub on_player_death : ℕ → World F → World F
  unfolding edit_player choose_observable show_death
  on_player_death q w =
      let w' = edit_player q (λ player. record player { is_alive = false }) w in
      let o = choose_observable (player_at w' q).killer w' in
      record w' { audience = show_death o q w'.audience }

  unfoldable pub remove_avatar : ℕ → ℕ → World F → World F
  unfolding edit_player on_player_death
  remove_avatar q p w =
      let w' = edit_player q (λ player. record player { avatars = erase p player.avatars }) w in
      if length (player_at w' q).avatars == 0 then on_player_death q w' else w'
