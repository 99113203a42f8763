-- ===== src/Audience/Histories.antt =====
-- What the requests of src/Room.cpp keep of the bonds between sessions and players.
use the_game_server.Base.{
  ℕ, ◌≡◌, refl, sym, ap, ◌∙◌, inl, inr, false, ◌||◌, Option, none, some, List, [], ◌∷◌, arith, ◌==◌,
  Bool-cases, contains,
}
use the_game_server.Base.Float.{Float}
use the_game_server.Base.Options.{same_pointer}
use the_game_server.Wire.{Buffer}
use the_game_server.Audience.{Audience, put, write_player, send_to, send_all, broadcast}
use the_game_server.Audience.Bonds.{IsBonded}
use the_game_server.Audience.Requests.{set_target_player}

module _ {F : Type 0} where
  -- The pointers between sessions and players, and the sessions of the room, are as before.
  pub record Same (a b : Audience F) : Type 0 where
    pub main_same : (p : ℕ) → (b.player_of p).main_session ≡ (a.player_of p).main_session
    pub sessions_same : (p : ℕ) → (b.player_of p).sessions ≡ (a.player_of p).sessions
    pub player_same : (s : ℕ) → (b.user_of s).player ≡ (a.user_of s).player
    pub observable_same : (s : ℕ) → (b.user_of s).observable ≡ (a.user_of s).observable
    pub room_same : b.sessions ≡ a.sessions

  pub Same-refl : (a : Audience F) → Same a a
  Same-refl a = record {
    main_same = λ p. refl;
    sessions_same = λ p. refl;
    player_same = λ s. refl;
    observable_same = λ s. refl;
    room_same = refl;
  }

  pub Same-trans : {a b c : Audience F} → Same a b → Same b c → Same a c
  Same-trans x y = record {
    main_same = λ p. y.main_same p ∙ x.main_same p;
    sessions_same = λ p. y.sessions_same p ∙ x.sessions_same p;
    player_same = λ s. y.player_same s ∙ x.player_same s;
    observable_same = λ s. y.observable_same s ∙ x.observable_same s;
    room_same = y.room_same ∙ x.room_same;
  }

  -- Sound: the bonds hold, and a session that is not in the room neither plays nor watches.
  pub record IsSound (a : Audience F) : Type 0 where
    pub bonded : IsBonded a
    pub player_joined : (s : ℕ) → contains s a.sessions ≡ false → (a.user_of s).player ≡ none
    pub observable_joined :
        (s : ℕ) → contains s a.sessions ≡ false → (a.user_of s).observable ≡ none

  pub Same-IsBonded : {a b : Audience F} → Same a b → IsBonded a → IsBonded b
  Same-IsBonded x b = record {
    main_user = λ p s e. x.player_same s ∙ b.main_user p s (sym (x.main_same p) ∙ e);
    user_main = λ p s e. x.main_same p ∙ b.user_main p s (sym (x.player_same s) ∙ e);
    main_in =
        λ p s e. ap (contains s) (x.sessions_same p) ∙ b.main_in p s (sym (x.main_same p) ∙ e);
    watch_in = λ p s e.
        ap (contains s) (x.sessions_same p) ∙ b.watch_in p s (sym (x.observable_same s) ∙ e);
    bound = λ p s e. ground (
      arith,
      b.bound p s (ap (contains s) (sym (x.sessions_same p)) ∙ e),
      x.player_same s,
      x.observable_same s,
    );
    exclusive =
        λ p q s e k. b.exclusive p q s (sym (x.player_same s) ∙ e) (sym (x.observable_same s) ∙ k);
  }

  pub Same-IsSound : {a b : Audience F} → Same a b → IsSound a → IsSound b
  Same-IsSound x v = record {
    bonded = Same-IsBonded x v.bonded;
    player_joined =
        λ s h. x.player_same s ∙ v.player_joined s (ap (contains s) (sym x.room_same) ∙ h);
    observable_joined =
        λ s h. x.observable_same s ∙ v.observable_joined s (ap (contains s) (sym x.room_same) ∙ h);
  }

  pub send_all-Same :
      (ss : List ℕ) (buffer : Buffer) (a : Audience F) → Same a (send_all ss buffer a)
  unfolding send_all send_to
  send_all-Same [] buffer a = Same-refl a
  send_all-Same (s ∷ ss) buffer a =
      Same-trans {b = send_to s buffer a}
        (record {
          main_same = λ p. refl;
          sessions_same = λ p. refl;
          player_same = λ s. refl;
          observable_same = λ s. refl;
          room_same = refl;
        })
        (send_all-Same ss buffer (send_to s buffer a))

  pub broadcast-Same : (buffer : Buffer) (a : Audience F) → Same a (broadcast buffer a)
  unfolding broadcast
  broadcast-Same buffer a = send_all-Same a.sessions buffer a

  write_target-Same :
      (p : ℕ) (target : Option ℕ) (a : Audience F)
      → Same a (write_player p (record (a.player_of p) { target_player = target }) a)
  unfolding write_player put
  write_target-Same p target a = record {
    main_same = λ q. ground arith;
    sessions_same = λ q. ground arith;
    player_same = λ s. refl;
    observable_same = λ s. refl;
    room_same = refl;
  }

module _ {F : Type 0} ⦃f : Float F⦄ where
  pub set_target_player-Same :
      (p target : ℕ) (a : Audience F) → Same a (set_target_player p target a)
  unfolding set_target_player
  set_target_player-Same p target a =
      elim (Bool-cases (target == p || same_pointer (a.player_of p).target_player (some target))) [
        | inl stays ↦ rw stays (Same-refl a)
        | inr changes ↦
            rw changes (Same-trans (write_target-Same p (some target) a) (send_all-Same _ _ _))
      ]
