-- ===== src/Audience/Bonds.antt =====
-- Sessions and players of src/Player.cpp and src/Session.hpp point at each other.
use the_game_server.Base.{ℕ, ◌≡◌, ◌≢◌, ◌⊎◌, true, some, arith, contains, contains-insert}
use the_game_server.Base.{contains-erase}
use the_game_server.Base.Float.{Float}
use the_game_server.Audience.{
  Audience, put, set_player, write_player, remove_session, add_session, set_observable, none,
  release, attach, Option,
}

module _ {F : Type 0} where
  -- The main session of a player is the session whose player it is, no session plays and watches at
  -- once, and the sessions of a player are its main session and those that watch it.
  pub record IsBonded (a : Audience F) : Type 0 where
    pub main_user :
        (p s : ℕ) → (a.player_of p).main_session ≡ some s → (a.user_of s).player ≡ some p
    pub user_main :
        (p s : ℕ) → (a.user_of s).player ≡ some p → (a.player_of p).main_session ≡ some s
    pub main_in :
        (p s : ℕ)
        → (a.player_of p).main_session ≡ some s
        → contains s (a.player_of p).sessions ≡ true
    pub watch_in :
        (p s : ℕ) → (a.user_of s).observable ≡ some p → contains s (a.player_of p).sessions ≡ true
    pub bound :
        (p s : ℕ)
        → contains s (a.player_of p).sessions ≡ true
        → ((a.user_of s).player ≡ some p) ⊎ ((a.user_of s).observable ≡ some p)
    pub exclusive : (p q s : ℕ) → (a.user_of s).player ≡ some p → (a.user_of s).observable ≢ some q

  -- The same, but for a player whose main session is about to be replaced.
  pub record IsReleased (p : ℕ) (a : Audience F) : Type 0 where
    pub main_user :
        (q s : ℕ) → q ≢ p → (a.player_of q).main_session ≡ some s → (a.user_of s).player ≡ some q
    pub user_main :
        (q s : ℕ)
        → (a.user_of s).player ≡ some q
        → (q ≢ p) × ((a.player_of q).main_session ≡ some s)
    pub main_in :
        (q s : ℕ)
        → q ≢ p
        → (a.player_of q).main_session ≡ some s
        → contains s (a.player_of q).sessions ≡ true
    pub watch_in :
        (q s : ℕ) → (a.user_of s).observable ≡ some q → contains s (a.player_of q).sessions ≡ true
    pub bound :
        (q s : ℕ)
        → contains s (a.player_of q).sessions ≡ true
        → ((a.user_of s).player ≡ some q) ⊎ ((a.user_of s).observable ≡ some q)
    pub exclusive : (q r s : ℕ) → (a.user_of s).player ≡ some q → (a.user_of s).observable ≢ some r

module _ {F : Type 0} ⦃f : Float F⦄ where
  -- A session leaves the player that it plays.
  pub remove_main-IsBonded :
      (p sess : ℕ) (a : Audience F)
      → (a.user_of sess).player ≡ some p
      → IsBonded a
      → IsBonded (remove_session p sess a)
  unfolding remove_session set_player write_player put
  remove_main-IsBonded p sess a h b = record {
    main_user = λ q s e.
        ground (arith, b.main_user q s, b.user_main p sess h, b.main_in p sess, b.main_user q sess);
    user_main = λ q s e. ground (arith, b.user_main q s, b.user_main p sess h, b.main_in p sess);
    main_in = λ q s e. ground (
      arith,
      b.main_in q s,
      b.user_main p sess h,
      b.main_in p sess,
      contains-erase sess s (a.player_of p).sessions,
    );
    watch_in = λ q s e. ground (
      arith,
      b.watch_in q s,
      b.user_main p sess h,
      b.main_in p sess,
      b.exclusive p q sess h,
      contains-erase sess s (a.player_of p).sessions,
    );
    bound = λ q s e. ground (
      arith,
      b.bound q s,
      b.user_main p sess h,
      b.main_in p sess,
      contains-erase sess s (a.player_of p).sessions,
    );
    exclusive =
        λ q r s e. ground (arith, b.exclusive q r s, b.user_main p sess h, b.main_in p sess);
  }

  -- A session leaves the player that it watches.
  pub leave_watched-IsBonded :
      (p sess : ℕ) (a : Audience F)
      → (a.user_of sess).observable ≡ some p
      → IsBonded a
      → IsBonded (set_observable sess none (remove_session p sess a))
  unfolding remove_session set_player set_observable write_player put
  leave_watched-IsBonded p sess a h b = record {
    main_user = λ q s e.
        ground
          (arith, b.main_user q s, b.watch_in p sess h, b.main_user p sess, b.exclusive p p sess);
    user_main = λ q s e.
        ground
          (arith, b.user_main q s, b.watch_in p sess h, b.main_user p sess, b.exclusive p p sess);
    main_in = λ q s e. ground (
      arith,
      b.main_in q s,
      b.watch_in p sess h,
      b.main_user q s,
      b.exclusive p p sess,
      b.main_user p sess,
      contains-erase sess s (a.player_of p).sessions,
    );
    watch_in = λ q s e. ground (
      arith,
      b.watch_in q s,
      b.watch_in p sess h,
      b.main_user p sess,
      b.exclusive p p sess,
      contains-erase sess s (a.player_of p).sessions,
    );
    bound = λ q s e. ground (
      arith,
      b.bound q s,
      b.watch_in p sess h,
      b.main_user p sess,
      b.exclusive p p sess,
      contains-erase sess s (a.player_of p).sessions,
    );
    exclusive = λ q r s e.
        ground
          (arith, b.exclusive q r s, b.watch_in p sess h, b.main_user p sess, b.exclusive p p sess);
  }

  -- A free session watches a player.
  pub watch-IsBonded :
      (p sess : ℕ) (a : Audience F)
      → (a.user_of sess).player ≡ none
      → (a.user_of sess).observable ≡ none
      → IsBonded a
      → IsBonded (set_observable sess (some p) (add_session p sess a))
  unfolding add_session set_observable write_player put
  watch-IsBonded p sess a h k b = record {
    main_user = λ q s e. ground (arith, b.main_user q s);
    user_main = λ q s e. ground (arith, b.user_main q s);
    main_in =
        λ q s e. ground (arith, b.main_in q s, contains-insert sess s (a.player_of p).sessions);
    watch_in =
        λ q s e. ground (arith, b.watch_in q s, contains-insert sess s (a.player_of p).sessions);
    bound = λ q s e. ground (arith, b.bound q s, contains-insert sess s (a.player_of p).sessions);
    exclusive = λ q r s e. ground (arith, b.exclusive q r s);
  }

  pub release_main-IsReleased :
      (p : ℕ) (a : Audience F) (main : Option ℕ)
      → main ≡ (a.player_of p).main_session
      → IsBonded a
      → IsReleased p (release p main a)
  unfolding release set_player write_player put
  release_main-IsReleased p a none e b = record {
    main_user = λ q s d e'. b.main_user q s e';
    user_main = λ q s e'. ground (arith, b.user_main q s e', b.user_main p s);
    main_in = λ q s d e'. b.main_in q s e';
    watch_in = b.watch_in;
    bound = b.bound;
    exclusive = b.exclusive;
  }
  release_main-IsReleased p a (some m) e b = record {
    main_user = λ q s d e'. ground (arith, b.main_user q s, b.main_user p m);
    user_main = λ q s e'. ground (arith, b.user_main q s, b.user_main p s, b.main_user p m);
    main_in = λ q s d e'. ground (arith, b.main_in q s);
    watch_in = λ q s e'. ground (
      arith,
      b.watch_in q s,
      b.main_user p m,
      b.exclusive p p m,
      contains-erase m s (a.player_of p).sessions,
    );
    bound = λ q s e'.
        ground (arith, b.bound q s, b.main_user p m, contains-erase m s (a.player_of p).sessions);
    exclusive = λ q r s e'. ground (arith, b.exclusive q r s);
  }

  pub attach-IsBonded :
      (p sess : ℕ) (a : Audience F)
      → (a.user_of sess).player ≡ none
      → (a.user_of sess).observable ≡ none
      → IsReleased p a
      → IsBonded (attach p sess a)
  unfolding attach add_session set_player write_player put
  attach-IsBonded p sess a h k b = record {
    main_user = λ q s e. ground (arith, b.main_user q s);
    user_main = λ q s e. ground (arith, b.user_main q s);
    main_in =
        λ q s e. ground (arith, b.main_in q s, contains-insert sess s (a.player_of p).sessions);
    watch_in =
        λ q s e. ground (arith, b.watch_in q s, contains-insert sess s (a.player_of p).sessions);
    bound = λ q s e. ground (arith, b.bound q s, contains-insert sess s (a.player_of p).sessions);
    exclusive = λ q r s e. ground (arith, b.exclusive q r s);
  }
