-- ===== src/Lives/Mourning.antt =====
-- After a player's death its sessions watch another one: src/Player.cpp, `onDeath`.
use the_game_server.World.{World, player_at, edit_player}
use the_game_server.Player.{Player, is_dead}
use the_game_server.Audience.{
  Audience, UserData, set_observable, add_session, write_player, put, send_all, send_to, set_player,
}
use the_game_server.Base.{
  ℕ, ◌≡◌, refl, ap, ◌∙◌, Bool, true, false, ◌||◌, Option, none, some, List, [], ◌∷◌, arith, ◌==◌,
  if◌then◌else◌, contains, contains-insert, if_either,
}
use the_game_server.Lives.{
  clear_sessions, watch_all, drop_main, show_death, serialize_change_target_player,
  serialize_spectate, alive, choose_observable, on_player_death, lock,
}
use the_game_server.Wire.{Buffer}
use the_game_server.Base.Float.{Float}

put_other :
    {A : Type 0} (q o : ℕ) (x : A) (memory : ℕ → A) → (q == o) ≡ false → put q x memory o ≡ memory o
unfolding put
put_other q o x memory h = rw h refl

put_here : {A : Type 0} (q : ℕ) (x : A) (memory : ℕ → A) → put q x memory q ≡ x
unfolding put
put_here q x memory =
    if_either (λ y. y ≡ x) (q == q) x (memory q) (λ h. refl) (λ h. ground (arith, h))

different : (q o : ℕ) (test : ℕ → Bool) → test q ≡ false → test o ≡ true → (q == o) ≡ false
different q o test lacks has = ground (arith, lacks, has)

module _ {F : Type 0} ⦃f : Float F⦄ where
  watched_step :
      (o x : ℕ) (a : Audience F) (s : ℕ)
      → let b = set_observable x (some o) (add_session o x a) in
        (contains s (b.player_of o).sessions ≡ (contains s (a.player_of o).sessions || x == s))
        × ((b.user_of s).observable ≡ (if x == s then some o else (a.user_of s).observable))
  unfolding set_observable add_session write_player put
  watched_step o x a s = ground (arith, contains-insert x s (a.player_of o).sessions)

  watch_all_has :
      (o : ℕ) (rest : List ℕ) (a : Audience F) (s : ℕ)
      → (contains s (a.player_of o).sessions || contains s rest) ≡ true
      → contains s ((watch_all o rest a).player_of o).sessions ≡ true
  unfolding watch_all contains
  watch_all_has o [] a s h = ground (arith, h)
  watch_all_has o (x ∷ rest) a s h =
      watch_all_has o rest (set_observable x (some o) (add_session o x a)) s
        (ground (arith, h, (watched_step o x a s).0))

  watch_all_keeps :
      (o : ℕ) (rest : List ℕ) (a : Audience F) (s : ℕ)
      → ((watch_all o rest a).user_of s).observable
        ≡ (if contains s rest then some o else (a.user_of s).observable)
  unfolding watch_all contains
  watch_all_keeps o [] a s = refl
  watch_all_keeps o (x ∷ rest) a s = ground (
    arith,
    watch_all_keeps o rest (set_observable x (some o) (add_session o x a)) s,
    (watched_step o x a s).1,
  )

  send_all_same :
      (ss : List ℕ) (b : Buffer) (a : Audience F)
      → ((send_all ss b a).player_of ≡ a.player_of) × ((send_all ss b a).user_of ≡ a.user_of)
  unfolding send_all send_to
  send_all_same [] b a = (refl, refl)
  send_all_same (x ∷ ss) b a = send_all_same ss b (send_to x b a)

  drop_main_keeps :
      (m : Option ℕ) (a : Audience F) (s : ℕ)
      → (((drop_main m a).user_of s).observable ≡ (a.user_of s).observable)
        × ((drop_main m a).player_of ≡ a.player_of)
  unfolding drop_main set_player put
  drop_main_keeps none a s = (refl, refl)
  drop_main_keeps (some main) a s = (ground arith, refl)

  -- What the death shows the sessions of a player, when another one is there to watch.
  shown :
      (o q : ℕ) (a : Audience F) (s : ℕ)
      → (q == o) ≡ false
      → contains s (a.player_of q).sessions ≡ true
      → let b = show_death (some o) q a in
        ((b.user_of s).observable ≡ some o)
        × (contains s (b.player_of o).sessions ≡ true)
        × ((b.player_of q).sessions ≡ [])
  unfolding show_death clear_sessions write_player
  shown o q a s differ member =
      let sessions = (a.player_of q).sessions in
      let c = watch_all o sessions a in
      let d = write_player q (record (c.player_of q) { target_player = none }) c in
      let buffer = serialize_change_target_player (serialize_spectate [] (a.player_of o)) 0 in
      let e = send_all sessions buffer d in
      let m = (e.player_of q).main_session in
      let g = write_player q (record (e.player_of q) { sessions = []; main_session = none }) e in
      let sent = send_all_same sessions buffer d in
      let dropped = drop_main_keeps m g s in
      let left : g.player_of o ≡ c.player_of o =
        put_other q o _ e.player_of differ
        ∙ ap (λ (t : ℕ → Player F). t o) sent.0
        ∙ put_other q o _ c.player_of differ in
      (
        dropped.0
            ∙ ap (λ (u : ℕ → UserData). (u s).observable) sent.1
            ∙ watch_all_keeps o sessions a s
            ∙ rw member refl,
        ap (λ (t : ℕ → Player F). contains s (t o).sessions) dropped.1
            ∙ ap (λ (player : Player F). contains s player.sessions) left
            ∙ watch_all_has o sessions a s (ground (arith, member)),
        ap (λ (t : ℕ → Player F). (t q).sessions) dropped.1
            ∙ ap (λ (player : Player F). player.sessions) (put_here q _ e.player_of),
      )

  -- Who is chosen is alive.
  alive_lives :
      (x : Option ℕ) (w : World F) (o : ℕ) → alive x w ≡ some o → (player_at w o).is_alive ≡ true
  unfolding alive is_dead
  alive_lives none w o h = cc
  alive_lives (some q) w o h = ground (arith, h)

  chosen_lives :
      (killer : Option ℕ) (w : World F) (o : ℕ)
      → choose_observable killer w ≡ some o
      → (player_at w o).is_alive ≡ true
  unfolding choose_observable
  chosen_lives killer w o h =
      either (alive (lock killer w) w) (λ e. alive_lives (lock killer w) w o e)
        (λ e. alive_lives (lock w.top_player w) w o e) h
    where
      either :
          (x : Option ℕ)
          → (x ≡ some o → (player_at w o).is_alive ≡ true)
          → (alive (lock w.top_player w) w ≡ some o → (player_at w o).is_alive ≡ true)
          → elim x as (λ z. Option ℕ) [ some q ↦ some q | none ↦ alive (lock w.top_player w) w ]
            ≡ some o
          → (player_at w o).is_alive ≡ true
      either none a b h = b h
      either (some q) a b h = a h

  -- When a player dies while its killer, or else the top player, is there and alive: each session of the dead
  -- player has that player as its observable and is one of its sessions, and the dead player has no session.
  pub on_player_death_watches :
      (q o s : ℕ) (w : World F)
      → choose_observable
          (player_at w q).killer
          (edit_player q (λ player. record player { is_alive = false }) w)
        ≡ some o
      → contains s (player_at w q).sessions ≡ true
      → let w' = on_player_death q w in
        ((w'.audience.user_of s).observable ≡ some o)
        × (contains s (player_at w' o).sessions ≡ true)
        × ((player_at w' q).sessions ≡ [])
  unfolding on_player_death edit_player write_player
  on_player_death_watches q o s w chosen member =
      let w1 = edit_player q (λ player. record player { is_alive = false }) w in
      let here = put_here q (record (player_at w q) { is_alive = false }) w.audience.player_of in
      let killer = ap (λ (player : Player F). player.killer) here in
      let chosen' : choose_observable (player_at w1 q).killer w1 ≡ some o =
        ap (λ k. choose_observable k w1) killer ∙ chosen in
      let dead = ap (λ (player : Player F). player.is_alive) here in
      let lives = chosen_lives (player_at w1 q).killer w1 o chosen' in
      let differ : (q == o) ≡ false =
        different q o (λ (x : ℕ). (player_at w1 x).is_alive) dead lives in
      let listed = ap (λ (player : Player F). contains s player.sessions) here ∙ member in
      rw chosen' (shown o q w1.audience s differ listed)
