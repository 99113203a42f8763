-- ===== src/Audience/Steps.antt =====
-- Every request of a session, src/Room.cpp, keeps the bonds between sessions and players.
use the_game_server.Base.{
  ℕ, ◌≡◌, refl, sym, ap, ◌∙◌, ◌≢◌, ◌⊎◌, true, Option, none, some, List, arith, contains, insert,
}
use the_game_server.Base.{contains-insert}
use the_game_server.Base.Float.{Float}
use the_game_server.Wire.{Buffer}
use the_game_server.Audience.{
  Audience, put, set_player, set_player_id, write_player, send_to, add_session, set_main_session,
  remove_session, release, attach,
}
use the_game_server.Audience.Bonds.{IsBonded, release_main-IsReleased, attach-IsBonded}
use the_game_server.Audience.Histories.{Same, IsSound}

module _ {F : Type 0} ⦃f : Float F⦄ where
  -- What `removeSession` leaves of the pointers of a session.
  pub remove_session-user :
      (p sess s : ℕ) (a : Audience F)
      → (((remove_session p sess a).user_of s).observable ≡ (a.user_of s).observable)
        × ((((remove_session p sess a).user_of s).player ≡ (a.user_of s).player)
            ⊎ (((remove_session p sess a).user_of s).player ≡ none))
  unfolding remove_session set_player write_player put
  remove_session-user p sess s a = ground arith

  pub remove_session-room :
      (p sess : ℕ) (a : Audience F) → (remove_session p sess a).sessions ≡ a.sessions
  unfolding remove_session set_player write_player put
  remove_session-room p sess a = ground arith

  -- The main session is no player's afterwards.
  pub remove_session-main :
      (p sess : ℕ) (a : Audience F)
      → IsBonded a
      → (a.user_of sess).player ≡ some p
      → ((remove_session p sess a).user_of sess).player ≡ none
  unfolding remove_session set_player write_player put
  remove_session-main p sess a b h = ground (arith, b.user_main p sess h, b.main_in p sess)

  release-free :
      (p s : ℕ) (main : Option ℕ) (a : Audience F)
      → (a.user_of s).player ≡ none
      → ((release p main a).user_of s).player ≡ none
  unfolding release set_player write_player put
  release-free p s none a h = h
  release-free p s (some m) a h = ground arith

  release-unwatched :
      (p s : ℕ) (main : Option ℕ) (a : Audience F)
      → (a.user_of s).observable ≡ none
      → ((release p main a).user_of s).observable ≡ none
  unfolding release set_player write_player put
  release-unwatched p s none a h = h
  release-unwatched p s (some m) a h = ground arith

  pub set_main-IsBonded :
      (p sess : ℕ) (a : Audience F)
      → (a.user_of sess).player ≡ none
      → (a.user_of sess).observable ≡ none
      → IsBonded a
      → IsBonded (set_main_session p sess a)
  unfolding set_main_session
  set_main-IsBonded p sess a h k b =
      attach-IsBonded p sess (release p (a.player_of p).main_session a)
        (release-free p sess (a.player_of p).main_session a h)
        (release-unwatched p sess (a.player_of p).main_session a k)
        (release_main-IsReleased p a (a.player_of p).main_session refl b)

  -- Of the sessions only the new one is given a player.
  set_main-user :
      (p sess s : ℕ) (a : Audience F)
      → sess ≢ s
      → (a.user_of s).player ≡ none
      → ((set_main_session p sess a).user_of s).player ≡ none
  unfolding set_main_session release attach add_session set_player write_player put
  set_main-user p sess s a d h = ground arith

  set_main-observable :
      (p sess s : ℕ) (a : Audience F)
      → ((set_main_session p sess a).user_of s).observable ≡ (a.user_of s).observable
  unfolding set_main_session release attach add_session set_player write_player put
  set_main-observable p sess s a = ground arith

  set_main-room : (p sess : ℕ) (a : Audience F) → (set_main_session p sess a).sessions ≡ a.sessions
  unfolding set_main_session release attach add_session set_player write_player put
  set_main-room p sess a = ground arith

  -- The part of `doJoin` that follows when the player is there.
  pub joined-IsSound :
      (p sess : ℕ) (a : Audience F)
      → (a.user_of sess).player ≡ none
      → (a.user_of sess).observable ≡ none
      → contains sess a.sessions ≡ true
      → IsSound a
      → IsSound (set_main_session p sess a)
  joined-IsSound p sess a h k r v = record {
    bonded = set_main-IsBonded p sess a h k v.bonded;
    player_joined = λ s out.
        set_main-user p sess s a
          (λ e.
            cc
              (r, ap (contains s) (set_main-room p sess a), ap (λ t. contains t a.sessions) e, out))
          (v.player_joined s (ap (contains s) (sym (set_main-room p sess a)) ∙ out));
    observable_joined = λ s out.
        set_main-observable p sess s a
        ∙ v.observable_joined s (ap (contains s) (sym (set_main-room p sess a)) ∙ out);
  }

  -- The bonds do not depend on the sessions of the room.
  pub Same-pointers :
      (a : Audience F) (ss : List ℕ) → IsBonded a → IsBonded (record a { sessions = ss })
  Same-pointers a ss b = record {
    main_user = b.main_user;
    user_main = b.user_main;
    main_in = b.main_in;
    watch_in = b.watch_in;
    bound = b.bound;
    exclusive = b.exclusive;
  }

  -- The session enters the room.
  pub entered-IsSound :
      (sess : ℕ) (a : Audience F)
      → IsSound a
      → IsSound (record a { sessions = insert sess a.sessions })
  entered-IsSound sess a v = record {
    bonded = Same-pointers a (insert sess a.sessions) v.bonded;
    player_joined = λ s out. v.player_joined s (ground (arith, contains-insert sess s a.sessions));
    observable_joined =
        λ s out. v.observable_joined s (ground (arith, contains-insert sess s a.sessions));
  }

  pub set_player_id-Same : (sess id : ℕ) (a : Audience F) → Same a (set_player_id sess id a)
  unfolding set_player_id put
  set_player_id-Same sess id a = record {
    main_same = λ q. refl;
    sessions_same = λ q. refl;
    player_same = λ s. ground arith;
    observable_same = λ s. ground arith;
    room_same = refl;
  }

  pub send_to-Same : (sess : ℕ) (buffer : Buffer) (a : Audience F) → Same a (send_to sess buffer a)
  unfolding send_to
  send_to-Same sess buffer a = record {
    main_same = λ p. refl;
    sessions_same = λ p. refl;
    player_same = λ s. refl;
    observable_same = λ s. refl;
    room_same = refl;
  }
