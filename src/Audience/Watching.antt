-- ===== src/Audience/Watching.antt =====
-- `doSpectate` of src/Room.cpp keeps the bonds between sessions and players.
use the_game_server.Base.{
  ℕ, ◌≡◌, refl, sym, ap, ◌∙◌, ◌≢◌, ◌⊎◌, inl, inr, Option, none, some, [], arith, ◌==◌,
  if◌then◌else◌, Bool-cases, contains, if_either, ◌||◌,
}
use the_game_server.Base.Float.{Float}
use the_game_server.Wire.{Buffer}
use the_game_server.OutgoingPacket.{serialize_spectate}
use the_game_server.Audience.{
  Audience, put, set_observable, write_player, send_to, add_session, true, not, same_pointer,
}
use the_game_server.Audience.Bonds.{
  IsBonded, remove_main-IsBonded, leave_watched-IsBonded, watch-IsBonded,
}
use the_game_server.Audience.Histories.{Same, Same-IsBonded, IsSound}
use the_game_server.Audience.Steps.{remove_session-user, remove_session-room, remove_session-main}
use the_game_server.Audience.Requests.{
  watch_target, leaves, do_spectate, spectate_target, is_playing, target_of,
}

module _ {F : Type 0} ⦃f : Float F⦄ where
  -- A session that no longer plays, with the other pointers as they were.
  record Freed (sess : ℕ) (a b : Audience F) : Type 0 where
    pub bonded : IsBonded b
    pub free : (b.user_of sess).player ≡ none
    pub player_kept : (s : ℕ) → (a.user_of s).player ≡ none → (b.user_of s).player ≡ none
    pub observable_kept : (s : ℕ) → (b.user_of s).observable ≡ (a.user_of s).observable
    pub room_kept : b.sessions ≡ a.sessions

  leaves-Freed :
      (sess : ℕ) (player : Option ℕ) (a : Audience F)
      → player ≡ (a.user_of sess).player
      → IsBonded a
      → Freed sess a (leaves sess player a)
  unfolding leaves
  leaves-Freed sess none a e b = record {
    bonded = b;
    free = sym e;
    player_kept = λ s h. h;
    observable_kept = λ s. refl;
    room_kept = refl;
  }
  leaves-Freed sess (some p) a e b = record {
    bonded = remove_main-IsBonded p sess a (sym e) b;
    free = remove_session-main p sess a b (sym e);
    player_kept = λ s h. ground (arith, remove_session-user p sess s a);
    observable_kept = λ s. (remove_session-user p sess s a).0;
    room_kept = remove_session-room p sess a;
  }

  -- What the room is once the session has let go of both.
  abbrev let_go : ℕ → Option ℕ → Audience F → Audience F
  let_go sess observable a = set_observable sess none (leaves sess observable a)

  no_change :
      (sess : ℕ) (a : Audience F)
      → (a.user_of sess).observable ≡ none
      → Same a (set_observable sess none a)
  unfolding set_observable put
  no_change sess a h = record {
    main_same = λ p. refl;
    sessions_same = λ p. refl;
    player_same = λ s. ground arith;
    observable_same = λ s. ground arith;
    room_same = refl;
  }

  let_go-IsBonded :
      (sess : ℕ) (observable : Option ℕ) (a : Audience F)
      → observable ≡ (a.user_of sess).observable
      → IsBonded a
      → IsBonded (let_go sess observable a)
  unfolding leaves
  let_go-IsBonded sess none a e b = Same-IsBonded (no_change sess a (sym e)) b
  let_go-IsBonded sess (some p) a e b = leave_watched-IsBonded p sess a (sym e) b

  -- The second write of the observable hides the first.
  watched_directly :
      (sess target : ℕ) (buffer : Buffer) (c : Audience F)
      → Same
          (set_observable sess (some target) (add_session target sess (set_observable sess none c)))
          (set_observable sess (some target) (add_session target sess (send_to sess buffer c)))
  unfolding set_observable put add_session write_player send_to
  watched_directly sess target buffer c = record {
    main_same = λ p. ground arith;
    sessions_same = λ p. ground arith;
    player_same = λ s. ground arith;
    observable_same = λ s. ground arith;
    room_same = ground arith;
  }

  add_session-user :
      (p sess : ℕ) (a : Audience F)
      → ((add_session p sess a).user_of ≡ a.user_of)
        × ((add_session p sess a).sessions ≡ a.sessions)
  unfolding add_session write_player
  add_session-user p sess a = elim (Bool-cases (contains sess (a.player_of p).sessions)) [
    | inl there ↦ rw there (refl, refl)
    | inr new ↦ rw new (refl, refl)
  ]

  -- `removeSession` of a player that need not be there, as it shows in the sessions.
  leaves-user :
      (sess s : ℕ) (player : Option ℕ) (a : Audience F)
      → (((leaves sess player a).user_of s).observable ≡ (a.user_of s).observable)
        × ((((leaves sess player a).user_of s).player ≡ (a.user_of s).player)
            ⊎ (((leaves sess player a).user_of s).player ≡ none))
        × ((leaves sess player a).sessions ≡ a.sessions)
  unfolding leaves
  leaves-user sess s none a = (refl, inl refl, refl)
  leaves-user sess s (some p) a =
      let u = remove_session-user p sess s a in (u.0, u.1, remove_session-room p sess a)

  set_observable-user :
      (sess s : ℕ) (o : Option ℕ) (a : Audience F)
      → (((set_observable sess o a).user_of s).player ≡ (a.user_of s).player)
        × (((set_observable sess o a).user_of s).observable
            ≡ (if sess == s then o else (a.user_of s).observable))
        × ((set_observable sess o a).sessions ≡ a.sessions)
  unfolding set_observable put
  set_observable-user sess s o a = (ground arith, ground arith, refl)

  watch_target-IsBonded :
      (sess target : ℕ) (a : Audience F) → IsBonded a → IsBonded (watch_target sess target a)
  unfolding watch_target
  watch_target-IsBonded sess target a b =
      let l = leaves-Freed sess (a.user_of sess).player a refl b in
      let b1 = leaves sess (a.user_of sess).player a in
      let g = let_go-IsBonded sess (b1.user_of sess).observable b1 refl l.bonded in
      let c = leaves sess (b1.user_of sess).observable b1 in
      Same-IsBonded (watched_directly sess target _ c) (
        watch-IsBonded target sess (set_observable sess none c)
          (ground (
            arith,
            l.free,
            leaves-user sess sess (b1.user_of sess).observable b1,
            set_observable-user sess sess none c,
          ))
          (ground (arith, set_observable-user sess sess none c)) g)

  -- Only the session that watches has other pointers.
  watch_target-user :
      (sess target s : ℕ) (a : Audience F)
      → ((a.user_of s).player ≡ none → ((watch_target sess target a).user_of s).player ≡ none)
        × (sess ≢ s
            → ((watch_target sess target a).user_of s).observable ≡ (a.user_of s).observable)
        × ((watch_target sess target a).sessions ≡ a.sessions)
  unfolding watch_target send_to
  watch_target-user sess target s a =
      let b1 = leaves sess (a.user_of sess).player a in
      let c = leaves sess (b1.user_of sess).observable b1 in
      let d = send_to sess (serialize_spectate [] (c.player_of target)) c in
      let u1 = leaves-user sess s (a.user_of sess).player a in
      let u2 = leaves-user sess s (b1.user_of sess).observable b1 in
      let u3 = add_session-user target sess d in
      let u4 = set_observable-user sess s (some target) (add_session target sess d) in
      (
        λ h. ground (arith, u1, u2, u4, ap (λ u. (u s).player) u3.0),
        λ n. ground (arith, u1, u2, u4, ap (λ u. (u s).observable) u3.0),
        u4.2 ∙ u3.1 ∙ u2.2 ∙ u1.2,
      )

  watch_target-IsSound :
      (sess target : ℕ) (a : Audience F)
      → contains sess a.sessions ≡ true
      → IsSound a
      → IsSound (watch_target sess target a)
  watch_target-IsSound sess target a here v = record {
    bonded = watch_target-IsBonded sess target a v.bonded;
    player_joined = λ s out.
        let u = watch_target-user sess target s a in
        u.0 (v.player_joined s (ap (contains s) (sym u.2) ∙ out));
    observable_joined = λ s out.
        let u = watch_target-user sess target s a in
        let gone = ap (contains s) (sym u.2) ∙ out in
        u.1 (λ e. cc (here, ap (λ t. contains t a.sessions) e, gone)) ∙ v.observable_joined s gone;
  }

  spectate_target-IsSound :
      (sess : ℕ) (target : Option ℕ) (a : Audience F)
      → contains sess a.sessions ≡ true
      → IsSound a
      → IsSound (spectate_target sess target a)
  unfolding spectate_target
  spectate_target-IsSound sess none a here v = v
  spectate_target-IsSound sess (some target) a here v =
      if_either IsSound (not (contains target a.fighters)) a _ (λ _. v)
        (λ _.
          if_either IsSound
            (same_pointer (a.user_of sess).player (some target)
              || same_pointer (a.user_of sess).observable (some target))
            a (watch_target sess target a) (λ _. v)
            (λ _. watch_target-IsSound sess target a here v))

  pub do_spectate-IsSound :
      (sess id : ℕ) (a : Audience F)
      → contains sess a.sessions ≡ true
      → IsSound a
      → IsSound (do_spectate sess id a)
  unfolding do_spectate
  do_spectate-IsSound sess id a here v =
      if_either IsSound (is_playing (a.user_of sess).player a) a
        (spectate_target sess (target_of id a) a) (λ _. v)
        (λ _. spectate_target-IsSound sess (target_of id a) a here v)
