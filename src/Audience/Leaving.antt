-- ===== src/Audience/Leaving.antt =====
-- `doLeave` of src/Room.cpp keeps the bonds between sessions and players.
use the_game_server.Base.{
  ℕ, ◌≡◌, refl, sym, ap, ◌∙◌, ◌≢◌, ◌⊎◌, inl, inr, false, Option, none, some, [], arith, Bool-cases,
  contains,
}
use the_game_server.Base.{contains-erase}
use the_game_server.Base.Float.{Float}
use the_game_server.OutgoingPacket.{serialize_player_leave}
use the_game_server.Audience.{Audience, put, set_observable, remove_session}
use the_game_server.Audience.Bonds.{IsBonded, remove_main-IsBonded, leave_watched-IsBonded}
use the_game_server.Audience.Histories.{Same, Same-IsBonded, broadcast-Same, IsSound}
use the_game_server.Audience.Steps.{remove_session-user, remove_session-room, remove_session-main}
use the_game_server.Audience.Requests.{do_leave, leave_player, leave_observable, without}

stays_none : (o o' : Option ℕ) → (o' ≡ o) ⊎ (o' ≡ none) → o ≡ none → o' ≡ none
stays_none o o' (inl e) h = e ∙ h
stays_none o o' (inr e) h = e

module _ {F : Type 0} where
  -- Sound, but for a session that has left the set of the room first.
  record IsLeaving (sess : ℕ) (a : Audience F) : Type 0 where
    pub bonded : IsBonded a
    pub player_else :
        (s : ℕ) → sess ≢ s → contains s a.sessions ≡ false → (a.user_of s).player ≡ none
    pub observable_else :
        (s : ℕ) → sess ≢ s → contains s a.sessions ≡ false → (a.user_of s).observable ≡ none

  Same-IsLeaving : (sess : ℕ) {a b : Audience F} → Same a b → IsLeaving sess a → IsLeaving sess b
  Same-IsLeaving sess x v = record {
    bonded = Same-IsBonded x v.bonded;
    player_else =
        λ s d h. x.player_same s ∙ v.player_else s d (ap (contains s) (sym x.room_same) ∙ h);
    observable_else = λ s d h.
        x.observable_same s ∙ v.observable_else s d (ap (contains s) (sym x.room_same) ∙ h);
  }

module _ {F : Type 0} ⦃f : Float F⦄ where
  without-IsLeaving : (sess : ℕ) (a : Audience F) → IsSound a → IsLeaving sess (without sess a)
  unfolding without
  without-IsLeaving sess a v = record {
    bonded = record {
      main_user = v.bonded.main_user;
      user_main = v.bonded.user_main;
      main_in = v.bonded.main_in;
      watch_in = v.bonded.watch_in;
      bound = v.bonded.bound;
      exclusive = v.bonded.exclusive;
    };
    player_else = λ s d h. v.player_joined s (ground (arith, contains-erase sess s a.sessions));
    observable_else =
        λ s d h. v.observable_joined s (ground (arith, contains-erase sess s a.sessions));
  }

  without_player :
      (sess : ℕ) (a : Audience F) → (a.user_of sess).player ≡ ((without sess a).user_of sess).player
  unfolding without
  without_player sess a = refl

  -- The pointers of a session that stops watching.
  unwatched_player :
      (p sess s : ℕ) (a : Audience F)
      → (a.user_of s).player ≡ none
      → ((set_observable sess none (remove_session p sess a)).user_of s).player ≡ none
  unfolding set_observable put
  unwatched_player p sess s a h =
      ground (arith, remove_session-user p sess s a, remove_session-user p sess sess a)

  unwatched_observable :
      (p sess s : ℕ) (a : Audience F)
      → (sess ≢ s → (a.user_of s).observable ≡ none)
      → ((set_observable sess none (remove_session p sess a)).user_of s).observable ≡ none
  unfolding set_observable put
  unwatched_observable p sess s a h = ground (arith, remove_session-user p sess s a, h)

  unwatched_room :
      (p sess : ℕ) (a : Audience F)
      → (set_observable sess none (remove_session p sess a)).sessions ≡ a.sessions
  unfolding set_observable
  unwatched_room p sess a = remove_session-room p sess a

  leave_player-IsLeaving :
      (sess : ℕ) (player : Option ℕ) (a : Audience F)
      → player ≡ (a.user_of sess).player
      → IsLeaving sess a
      → IsLeaving sess (leave_player sess player a)
        × (((leave_player sess player a).user_of sess).player ≡ none)
  unfolding leave_player
  leave_player-IsLeaving sess none a e v = (v, sym e)
  leave_player-IsLeaving sess (some p) a e v =
      let same =
        broadcast-Same (serialize_player_leave [] ((remove_session p sess a).player_of p).id)
          (remove_session p sess a) in
      (
        Same-IsLeaving sess same (record {
          bonded = remove_main-IsBonded p sess a (sym e) v.bonded;
          player_else = λ s d h.
              stays_none _ _ (remove_session-user p sess s a).1
                (v.player_else s d (ap (contains s) (sym (remove_session-room p sess a)) ∙ h));
          observable_else = λ s d h.
              (remove_session-user p sess s a).0
              ∙ v.observable_else s d (ap (contains s) (sym (remove_session-room p sess a)) ∙ h);
        }),
        same.player_same sess ∙ remove_session-main p sess a v.bonded (sym e),
      )

  leave_observable-IsSound :
      (sess : ℕ) (observable : Option ℕ) (a : Audience F)
      → observable ≡ (a.user_of sess).observable
      → (a.user_of sess).player ≡ none
      → IsLeaving sess a
      → IsSound (leave_observable sess observable a)
  unfolding leave_observable
  leave_observable-IsSound sess none a e h v = record {
    bonded = v.bonded;
    player_joined = λ s out. ground (arith, v.player_else s);
    observable_joined = λ s out. ground (arith, v.observable_else s);
  }
  leave_observable-IsSound sess (some p) a e h v = record {
    bonded = leave_watched-IsBonded p sess a (sym e) v.bonded;
    player_joined = λ s out. unwatched_player p sess s a (
        ground (
          arith,
          v.player_else s,
          unwatched_room p sess a,
          ap (contains s) (unwatched_room p sess a),
        ));
    observable_joined = λ s out.
        unwatched_observable p sess s a
          (λ d. v.observable_else s d (ap (contains s) (sym (unwatched_room p sess a)) ∙ out));
  }

  pub do_leave-IsSound : (sess : ℕ) (a : Audience F) → IsSound a → IsSound (do_leave sess a)
  unfolding do_leave
  do_leave-IsSound sess a v = elim (Bool-cases (contains sess a.sessions)) [
    | inl there ↦
        let (w, free) =
          leave_player-IsLeaving sess (a.user_of sess).player (without sess a)
            (without_player sess a) (without-IsLeaving sess a v) in
        rw there (leave_observable-IsSound sess _ _ refl free w)
    | inr gone ↦ rw gone v
  ]
