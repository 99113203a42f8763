-- ===== src/Audience.antt =====
-- The sessions of a room: src/Room.cpp, `doJoin` to `doChatMessage` without `doPlay`, with the sessions
-- of src/Player.cpp and the data of a session of src/Session.hpp. Sessions and players are pointers.
pub mod Bonds
pub mod Requests
pub mod Histories
pub mod Steps
pub mod Leaving
pub mod Watching
pub mod Runs
use the_game_server.Base.{
  ℕ, zero, suc, ◌+◌, ◌-◌, ◌*◌, ◌/◌, ◌%◌, ◌^◌, ◌≤◌, ◌<◌, min, max, ◌≡◌, refl, sym, ap, subst, ◌∙◌,
  ◌≢◌, ◌↔◌, ◌⊎◌, inl, inr, Bool, true, false, not, ◌&&◌, ◌||◌, Option, none, some, List, [], ◌∷◌,
  ◌++◌, map, arith, ltb, leb, ◌==◌, if◌then◌else◌, Bool-cases, Option-cases, length, take, drop,
  All, contains, insert, erase, count,
}
use the_game_server.Base.Float.{Float}
use the_game_server.Geometry.{Vec2D, zero_vec}
use the_game_server.Player.{Player, is_dead}
use the_game_server.Wire.{Buffer}
use the_game_server.OutgoingPacket.{
  serialize_play, serialize_finish, serialize_spectate, serialize_chat_message,
  serialize_player_join, serialize_player_leave, serialize_change_target_player,
}
use the_game_server.Base.Options.{same_pointer}

-- `UserData` of a session, without its room.
pub record UserData : Type 0 where
  pub player_id : ℕ
  pub player : Option ℕ
  pub observable : Option ℕ

pub record ChatMessage : Type 0 where
  pub text : List ℕ
  pub author : List ℕ
  pub author_id : ℕ

pub record Audience (F : Type 0) : Type 0 where
  pub sessions : List ℕ
  -- The players by their numbers.
  pub players : List (ℕ × ℕ)
  pub player_of : ℕ → Player F
  pub user_of : ℕ → UserData
  pub leaderboard : List ℕ
  pub fighters : List ℕ
  pub move_requests : List (ℕ × Vec2D F)
  pub eject_requests : List (ℕ × Vec2D F)
  pub split_requests : List (ℕ × Vec2D F)
  pub chat_history : List ChatMessage
  -- What was sent to a session, the last first.
  pub sent : List (ℕ × Buffer)

-- A write to memory.
unfoldable pub put : {A : Type 0} → ℕ → A → (ℕ → A) → ℕ → A
put p a memory q = if p == q then a else memory q

unfoldable pub find : ℕ → List (ℕ × ℕ) → Option ℕ
find id [] = none
find id ((key, p) ∷ ps) = let rest = find id ps in if key == id then some p else rest

-- `emplace` and `erase` of a map from sessions.
unfoldable pub emplace : {A : Type 0} → ℕ → A → List (ℕ × A) → List (ℕ × A)
emplace key a [] = (key, a) ∷ []
emplace key a ((k, b) ∷ items) =
    let rest = emplace key a items in if k == key then (k, b) ∷ items else (k, b) ∷ rest

unfoldable pub erase_key : {A : Type 0} → ℕ → List (ℕ × A) → List (ℕ × A)
erase_key key [] = []
erase_key key ((k, b) ∷ items) =
    let rest = erase_key key items in if k == key then rest else (k, b) ∷ rest

module _ {F : Type 0} where
  unfoldable pub set_player : ℕ → Option ℕ → Audience F → Audience F
  unfolding put
  set_player sess p a = record a {
    user_of = put sess (record (a.user_of sess) { player = p }) a.user_of;
  }

  unfoldable pub set_observable : ℕ → Option ℕ → Audience F → Audience F
  set_observable sess p a = record a {
    user_of = put sess (record (a.user_of sess) { observable = p }) a.user_of;
  }

  unfoldable pub set_player_id : ℕ → ℕ → Audience F → Audience F
  set_player_id sess id a = record a {
    user_of = put sess (record (a.user_of sess) { player_id = id }) a.user_of;
  }

  unfoldable pub write_player : ℕ → Player F → Audience F → Audience F
  write_player p player a = record a { player_of = put p player a.player_of }

  unfoldable pub send_to : ℕ → Buffer → Audience F → Audience F
  send_to sess buffer a = record a { sent = (sess, buffer) ∷ a.sent }

  unfoldable pub send_all : List ℕ → Buffer → Audience F → Audience F
  unfolding send_to
  send_all [] buffer a = a
  send_all (sess ∷ rest) buffer a = send_all rest buffer (send_to sess buffer a)

  -- `Room::send`
  unfoldable pub broadcast : Buffer → Audience F → Audience F
  unfolding send_all
  broadcast buffer a = send_all a.sessions buffer a

  -- The player forgets what it has seen when a session is new.
  unfoldable pub add_session : ℕ → ℕ → Audience F → Audience F
  unfolding write_player
  add_session p sess a =
      let player = a.player_of p in
      if contains sess player.sessions
      then a
      else write_player p
          (record player {
            sessions = insert sess player.sessions;
            left_top_sector = none;
            right_bottom_sector = none;
            sectors = [];
            visible_ids = [];
          })
          a

  -- `m_sessions.erase(m_mainSession); m_mainSession->player(nullptr);`
  unfoldable pub release : ℕ → Option ℕ → Audience F → Audience F
  unfolding set_player
  release p none a = a
  release p (some main) a =
      let player = a.player_of p in
      set_player main none
        (write_player p (record player { sessions = erase main player.sessions }) a)

  unfoldable pub attach : ℕ → ℕ → Audience F → Audience F
  unfolding add_session
  attach p sess a = add_session p sess (
      set_player sess (some p)
        (write_player p (record (a.player_of p) { main_session = some sess; is_online = true }) a))

  -- With a session that is not null.
  unfoldable pub set_main_session : ℕ → ℕ → Audience F → Audience F
  unfolding release attach
  set_main_session p sess a = attach p sess (release p (a.player_of p).main_session a)

module _ {F : Type 0} ⦃f : Float F⦄ where
  unfoldable pub remove_session : ℕ → ℕ → Audience F → Audience F
  remove_session p sess a =
      let player = a.player_of p in
      if contains sess player.sessions
      then (if same_pointer player.main_session (some sess)
          then set_player sess none (
              write_player p
                (record player {
                  sessions = erase sess player.sessions;
                  main_session = none;
                  is_online = false;
                  pointer_offset = zero_vec;
                })
                a)
          else write_player p (record player { sessions = erase sess player.sessions }) a)
      else a
