-- ===== src/Standings/Members.antt =====
-- Who is on the leaderboard and among the fighters of src/Room.cpp.
use the_game_server.Base.{refl, if◌then◌else◌}
use the_game_server.Base.{Bool, true, not, ◌&&◌, ◌||◌, ap, ◌+◌, ◌≤◌, ◌⊎◌}
use the_game_server.Player.{is_dead, Player}
use the_game_server.Standings.{
  erase_dead, keep_alive, on_player_respawn, on_player_death, update_leaderboard, Standings,
  remove_one, remove_from_leaderboard, send,
}
use the_game_server.Base.{
  ℕ, ◌-◌, ◌≡◌, inl, inr, false, none, List, [], ◌∷◌, arith, ◌==◌, Bool-cases, contains, count,
}
use the_game_server.Base.{contains-insert, contains-erase}
use the_game_server.Base.Float.{Float}
use the_game_server.Standings.Sorting.{count-sort}
use the_game_server.Counting.{count-append, count-contains}

-- What happens to the standings; at a clearing up, with the players as they are at the time.
pub data Event (F : Type 0) : Type 0 where
  respawned died : ℕ → Event F
  updated : ℕ → Event F
  cleared : (ℕ → Player F) → Event F

abbrev pub opened : Standings
opened = record {
  leaderboard = [];
  fighters = [];
  top_player = none;
  update_leaderboard = false;
  sent = [];
}

count-remove_one :
    (a p : ℕ) (ps : List ℕ)
    → count a (remove_one p ps) ≡ (if p == a then count a ps - 1 else count a ps)
unfolding remove_one count
count-remove_one a p [] = ground arith
count-remove_one a p (q ∷ qs) = ground (arith, count-remove_one a p qs)

module _ {F : Type 0} ⦃f : Float F⦄ (players : ℕ → Player F) where
  pub step : Event F → Standings → Standings
  step (respawned p) s = on_player_respawn players p s
  step (died p) s = on_player_death players p s
  step (updated limit) s = update_leaderboard players limit s
  step (cleared now) s = erase_dead now s

  pub run : List (Event F) → Standings → Standings
  run [] s = s
  run (e ∷ es) s = run es (step e s)

  -- An event that the board and the fighters take differently for a player: it respawns while it is a
  -- fighter, or a clearing up erases it because it is dead though the room was not told.
  abbrev pub parts : ℕ → Event F → Standings → Bool
  parts p (respawned q) s = q == p && contains p s.fighters
  parts p (died q) s = false
  parts p (updated limit) s = false
  parts p (cleared now) s = is_dead (now p) && contains p s.fighters

  pub was_parted : ℕ → List (Event F) → Standings → Bool
  was_parted p [] s = false
  was_parted p (e ∷ es) s = parts p e s || was_parted p es (step e s)

  -- The player is on the board as often as it is to be.
  abbrev IsOnce : ℕ → Standings → Type 0
  IsOnce p s = count p s.leaderboard ≡ (if contains p s.fighters then 1 else 0)

  abbrev IsListed : ℕ → Standings → Type 0
  IsListed p s = contains p s.fighters ≡ true → 1 ≤ count p s.leaderboard

  contains-keep_alive :
      (now : ℕ → Player F) (p : ℕ) (ps : List ℕ)
      → contains p (keep_alive now ps) ≡ (not (is_dead (now p)) && contains p ps)
  unfolding keep_alive contains
  contains-keep_alive now p [] = ground arith
  contains-keep_alive now p (q ∷ qs) = elim (Bool-cases (q == p)) [
    | inl same ↦
        (let e : is_dead (now q) ≡ is_dead (now p) =
            ap (λ x. is_dead (now x)) (ground (arith, same)) in
          ground (arith, same, e, contains-keep_alive now p qs))
    | inr other ↦ ground (arith, other, contains-keep_alive now p qs)
  ]

  respawned_counts :
      (p q : ℕ) (s : Standings)
      → let t = on_player_respawn players q s in
        (count p t.leaderboard ≡ count p s.leaderboard + (if q == p then 1 else 0))
        × (contains p t.fighters ≡ (if q == p then true else contains p s.fighters))
  unfolding on_player_respawn send count
  respawned_counts p q s = (
    ground (arith, count-append p s.leaderboard (q ∷ [])),
    ground (arith, contains-insert q p s.fighters),
  )

  died_counts :
      (p q : ℕ) (s : Standings)
      → let t = on_player_death players q s in
        (count p t.leaderboard
          ≡ (if q == p then count p s.leaderboard - 1 else count p s.leaderboard))
        × (contains p t.fighters ≡ (if q == p then false else contains p s.fighters))
  unfolding on_player_death send remove_from_leaderboard
  died_counts p q s = (
    ground (arith, count-remove_one p q s.leaderboard, count-contains q s.leaderboard),
    ground (arith, contains-erase q p s.fighters),
  )

  updated_counts :
      (p limit : ℕ) (s : Standings)
      → let t = update_leaderboard players limit s in
        (count p t.leaderboard ≡ count p s.leaderboard)
        × (contains p t.fighters ≡ contains p s.fighters)
  unfolding update_leaderboard send
  updated_counts p limit s = (ground (arith, count-sort players p s.leaderboard), ground arith)

  step-IsOnce :
      (p : ℕ) (e : Event F) (s : Standings) → parts p e s ≡ false → IsOnce p s → IsOnce p (step e s)
  unfolding step erase_dead
  step-IsOnce p (respawned q) s h once = ground (arith, once, h, respawned_counts p q s)
  step-IsOnce p (died q) s h once = ground (arith, once, died_counts p q s)
  step-IsOnce p (updated limit) s h once = ground (arith, once, updated_counts p limit s)
  step-IsOnce p (cleared now) s h once =
      ground (arith, once, h, contains-keep_alive now p s.fighters)

  step-IsListed : (p : ℕ) (e : Event F) (s : Standings) → IsListed p s → IsListed p (step e s)
  unfolding step erase_dead
  step-IsListed p (respawned q) s listed fights =
      ground (arith, listed, fights, respawned_counts p q s)
  step-IsListed p (died q) s listed fights = ground (arith, listed, fights, died_counts p q s)
  step-IsListed p (updated limit) s listed fights =
      ground (arith, listed, fights, updated_counts p limit s)
  step-IsListed p (cleared now) s listed fights =
      ground (arith, listed, fights, contains-keep_alive now p s.fighters)

  run-IsOnce :
      (p : ℕ) (es : List (Event F)) (s : Standings)
      → was_parted p es s ≡ false
      → IsOnce p s
      → IsOnce p (run es s)
  unfolding run was_parted
  run-IsOnce p [] s h once = once
  run-IsOnce p (e ∷ es) s h once =
      run-IsOnce p es (step e s) (ground (arith, h)) (step-IsOnce p e s (ground (arith, h)) once)

  run-IsListed :
      (p : ℕ) (es : List (Event F)) (s : Standings) → IsListed p s → IsListed p (run es s)
  unfolding run
  run-IsListed p [] s listed = listed
  run-IsListed p (e ∷ es) s listed = run-IsListed p es (step e s) (step-IsListed p e s listed)

  -- From a new room, after any respawns, deaths, updates of the board and clearings up: every fighter is
  -- on the leaderboard; a player that has never respawned while it was a fighter, nor been erased from the
  -- fighters by a clearing up, is on the leaderboard exactly once if it is a fighter, and otherwise not at
  -- all; and a clearing up then leaves the living fighters, and the leaderboard as it is.
  pub run-opened_members :
      (es : List (Event F)) (p : ℕ) (now : ℕ → Player F)
      → let s = run es opened in
        ((contains p s.fighters ≡ false) ⊎ (1 ≤ count p s.leaderboard))
        × ((was_parted p es opened ≡ true)
            ⊎ (count p s.leaderboard ≡ (if contains p s.fighters then 1 else 0)))
        × (contains p (erase_dead now s).fighters
            ≡ (not (is_dead (now p)) && contains p s.fighters))
        × ((erase_dead now s).leaderboard ≡ s.leaderboard)
  unfolding count contains erase_dead
  run-opened_members es p now = (
    elim (Bool-cases (contains p (run es opened).fighters)) [
      | inl fights ↦ inr (run-IsListed p es opened (λ h. ground (arith, h)) fights)
      | inr rests ↦ inl rests
    ],
    elim (Bool-cases (was_parted p es opened)) [
      | inl parted ↦ inl parted
      | inr never ↦ inr (run-IsOnce p es opened never (ground arith))
    ],
    contains-keep_alive now p (run es opened).fighters,
    refl,
  )
