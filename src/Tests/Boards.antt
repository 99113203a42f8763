-- ===== src/Tests/Boards.antt =====
-- The leaderboard.
use the_game_server.Player.{is_dead, player_lt, Player, new_player}
use the_game_server.Standings.{erase_dead, Standings, first, update_leaderboard}
use the_game_server.Standings.Members.{
  Event, respawned, died, updated, cleared, run, opened, was_parted, run-opened_members,
}
use the_game_server.Base.{
  ℕ, ◌*◌, ◌%◌, ◌≡◌, refl, true, false, none, List, [], ◌∷◌, count, ◌⊎◌, arith, contains, ◌≤◌,
  if◌then◌else◌, not, ◌&&◌,
}
use the_game_server.Base.Fixed.{Fixed, fixed_float}
use the_game_server.Player.Order.{player_lt_total, player_not_lt_trans}
use the_game_server.Standings.Sorting.{IsRanked}
use the_game_server.Standings.Top.{update_leaderboard-IsRanked}

-- Three players with different masses.
abbrev players : ℕ → Player Fixed
players p = record (new_player p) { mass = p * 10 % 7 }

abbrev standings : Standings
standings = record {
  leaderboard = 1 ∷ 2 ∷ 3 ∷ [];
  fighters = 1 ∷ 2 ∷ 3 ∷ [];
  top_player = none;
  update_leaderboard = true;
  sent = [];
}

update_leaderboard-IsRanked_example :
    let t = update_leaderboard players 2 standings in
    IsRanked players t.leaderboard
    × ((p : ℕ) → count p t.leaderboard ≡ count p standings.leaderboard)
    × (t.top_player ≡ first players t.leaderboard)
    × (t.update_leaderboard ≡ false)
update_leaderboard-IsRanked_example = update_leaderboard-IsRanked players 2 standings refl

-- The second player comes and dies between two updates of the board, and a clearing up finds it dead.
abbrev evening : List (Event Fixed)
evening =
    respawned 1
    ∷ respawned 2
    ∷ updated 10
    ∷ respawned 3
    ∷ died 2
    ∷ cleared players
    ∷ updated 10
    ∷ []

run-opened_members_example :
    let s = run players evening opened in
    ((contains 2 s.fighters ≡ false) ⊎ (1 ≤ count 2 s.leaderboard))
    × ((was_parted players 2 evening opened ≡ true)
        ⊎ (count 2 s.leaderboard ≡ (if contains 2 s.fighters then 1 else 0)))
    × (contains 2 (erase_dead players s).fighters
        ≡ (not (is_dead (players 2)) && contains 2 s.fighters))
    × ((erase_dead players s).leaderboard ≡ s.leaderboard)
run-opened_members_example = run-opened_members players evening 2 players

player_lt_total_example :
    (player_lt (players 1) (players 2) ≡ true) ⊎ (player_lt (players 2) (players 1) ≡ true)
unfolding new_player
player_lt_total_example = player_lt_total (players 1) (players 2) (omega arith)

player_not_lt_trans_example : player_lt (players 2) (players 3) ≡ false
unfolding player_lt new_player
player_not_lt_trans_example = player_not_lt_trans (players 2) (players 1) (players 3) refl refl
