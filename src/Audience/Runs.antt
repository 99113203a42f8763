-- ===== src/Audience/Runs.antt =====
-- Whole histories of the requests of src/Room.cpp.
use the_game_server.Base.{
  refl, ℕ, ◌≡◌, ap, ◌∙◌, inl, inr, true, Option, none, some, arith, Bool-cases, contains, insert,
  if◌then◌else◌, [], if_either,
}
use the_game_server.Base.{contains-insert}
use the_game_server.Base.Float.{Float}
use the_game_server.Config.{RoomConfig}
use the_game_server.Wire.{Buffer}
use the_game_server.Audience.{
  Audience, set_player_id, List, Vec2D, ◌∷◌, find, serialize_chat_message,
}
use the_game_server.Audience.Histories.{
  Same-IsSound, broadcast-Same, IsSound, Same, Same-refl, Same-trans, set_target_player-Same,
}
use the_game_server.Audience.Steps.{
  joined-IsSound, entered-IsSound, set_player_id-Same, send_to-Same,
}
use the_game_server.Audience.Requests.{
  do_join, finish_join, do_chat_message, do_leave, do_move, do_watch, do_eject, say, watch_found,
  do_spectate, do_split,
}
use the_game_server.Audience.Leaving.{do_leave-IsSound}
use the_game_server.Audience.Watching.{do_spectate-IsSound}

-- What sessions ask for, one after the other.
pub data Request (F : Type 0) : Type 0 where
  joins : ℕ → ℕ → Request F
  leaves_room : ℕ → Request F
  spectates watches : ℕ → ℕ → Request F
  moves ejects splits : ℕ → Vec2D F → Request F
  says : ℕ → List ℕ → Request F

module _ {F : Type 0} ⦃f : Float F⦄ where
  finish_join-IsSound :
      (sess id : ℕ) (buffer : Buffer) (player : Option ℕ) (a : Audience F)
      → (a.user_of sess).player ≡ none
      → (a.user_of sess).observable ≡ none
      → contains sess a.sessions ≡ true
      → IsSound a
      → IsSound (finish_join sess id buffer player a)
  unfolding finish_join
  finish_join-IsSound sess id buffer none a h k r v = Same-IsSound (send_to-Same sess _ a) v
  finish_join-IsSound sess id buffer (some p) a h k r v =
      Same-IsSound (send_to-Same sess _ _)
        (Same-IsSound (broadcast-Same _ _) (joined-IsSound p sess a h k r v))

  do_join-IsSound :
      (config : RoomConfig F) (sess id : ℕ) (a : Audience F)
      → IsSound a
      → IsSound (do_join config sess id a)
  unfolding do_join
  do_join-IsSound config sess id a v = elim (Bool-cases (contains sess a.sessions)) [
    | inl there ↦ rw there v
    | inr new ↦
        let e = entered-IsSound sess a v in
        let same = set_player_id-Same sess id (record a { sessions = insert sess a.sessions }) in
        rw new (
          finish_join-IsSound sess id _ _
            (set_player_id sess id (record a { sessions = insert sess a.sessions }))
            (same.player_same sess ∙ v.player_joined sess new)
            (same.observable_same sess ∙ v.observable_joined sess new)
            (ap (contains sess) same.room_same
              ∙ ground (arith, contains-insert sess sess a.sessions))
            (Same-IsSound same e))
  ]

  pointers_alone :
      {a b : Audience F}
      → b.player_of ≡ a.player_of
      → b.user_of ≡ a.user_of
      → b.sessions ≡ a.sessions
      → Same a b
  pointers_alone p u r = record {
    main_same = λ q. ap (λ m. (m q).main_session) p;
    sessions_same = λ q. ap (λ m. (m q).sessions) p;
    player_same = λ s. ap (λ m. (m s).player) u;
    observable_same = λ s. ap (λ m. (m s).observable) u;
    room_same = r;
  }

  do_watch-Same : (sess id : ℕ) (a : Audience F) → Same a (do_watch sess id a)
  unfolding do_watch watch_found
  do_watch-Same sess id a = go (a.user_of sess).player (find id a.players)
    where
      go : (player target : Option ℕ) → Same a (watch_found player target a)
      go none target = Same-refl a
      go (some p) none = Same-refl a
      go (some p) (some target) = set_target_player-Same p target a

  do_chat_message-Same :
      (sess : ℕ) (text : List ℕ) (a : Audience F) → Same a (do_chat_message sess text a)
  unfolding do_chat_message say
  do_chat_message-Same sess text a = go (a.user_of sess).player
    where
      go : (player : Option ℕ) → Same a (say text player a)
      go none = Same-refl a
      go (some p) =
          Same-trans (broadcast-Same (serialize_chat_message [] (a.player_of p).id text) a)
            (pointers_alone refl refl refl)

  -- A session that is not in the room has nothing to spectate.
  pub step : RoomConfig F → Request F → Audience F → Audience F
  step config (joins sess id) a = do_join config sess id a
  step config (leaves_room sess) a = do_leave sess a
  step config (spectates sess id) a = if contains sess a.sessions then do_spectate sess id a else a
  step config (watches sess id) a = do_watch sess id a
  step config (moves sess point) a = do_move sess point a
  step config (ejects sess point) a = do_eject sess point a
  step config (splits sess point) a = do_split sess point a
  step config (says sess text) a = do_chat_message sess text a

  pub run : RoomConfig F → List (Request F) → Audience F → Audience F
  run config [] a = a
  run config (r ∷ rs) a = run config rs (step config r a)

  step-IsSound :
      (config : RoomConfig F) (r : Request F) (a : Audience F)
      → IsSound a
      → IsSound (step config r a)
  unfolding step do_move do_eject do_split
  step-IsSound config (joins sess id) a v = do_join-IsSound config sess id a v
  step-IsSound config (leaves_room sess) a v = do_leave-IsSound sess a v
  step-IsSound config (spectates sess id) a v =
      if_either IsSound (contains sess a.sessions) (do_spectate sess id a) a
        (λ here. do_spectate-IsSound sess id a here v) (λ _. v)
  step-IsSound config (watches sess id) a v = Same-IsSound (do_watch-Same sess id a) v
  step-IsSound config (moves sess point) a v = Same-IsSound (pointers_alone refl refl refl) v
  step-IsSound config (ejects sess point) a v = Same-IsSound (pointers_alone refl refl refl) v
  step-IsSound config (splits sess point) a v = Same-IsSound (pointers_alone refl refl refl) v
  step-IsSound config (says sess text) a v = Same-IsSound (do_chat_message-Same sess text a) v

  -- Whatever sessions ask of a room that is sound, it stays sound: a session is the main session of the
  -- player that it plays and of no other, it never plays and watches at once, the sessions of a player are
  -- its main session and those that watch it, and a session that has left the room neither plays nor
  -- watches. (`play`, and the respawn and death of players, are not among these requests; one that is not in
  -- the room does not ask to spectate.)
  pub run-IsSound :
      (config : RoomConfig F) (rs : List (Request F)) (a : Audience F)
      → IsSound a
      → IsSound (run config rs a)
  unfolding run
  run-IsSound config [] a v = v
  run-IsSound config (r ∷ rs) a v =
      run-IsSound config rs (step config r a) (step-IsSound config r a v)
