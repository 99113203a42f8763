-- ===== src/Standings/Top.antt =====
-- What `updateLeaderboard` of src/Room.cpp leaves.
use the_game_server.Base.{ℕ, ◌≡◌, refl, true, false, count}
use the_game_server.Base.Float.{Float}
use the_game_server.Player.{Player}
use the_game_server.Standings.{Standings, first, update_leaderboard, send}
use the_game_server.Standings.Sorting.{IsRanked, sort-IsRanked, count-sort}

module _ {F : Type 0} ⦃f : Float F⦄ where
  -- When the flag is set, `updateLeaderboard` leaves the same players on the board, each as often as
  -- before, no one ahead of one that stands above, with the first as the top player (none on an empty
  -- board) and the flag reset.
  pub update_leaderboard-IsRanked :
      (players : ℕ → Player F) (limit : ℕ) (s : Standings)
      → s.update_leaderboard ≡ true
      → let t = update_leaderboard players limit s in
        IsRanked players t.leaderboard
        × ((p : ℕ) → count p t.leaderboard ≡ count p s.leaderboard)
        × (t.top_player ≡ first players t.leaderboard)
        × (t.update_leaderboard ≡ false)
  unfolding update_leaderboard send
  update_leaderboard-IsRanked players limit s h =
      rw h
        (sort-IsRanked players s.leaderboard, λ p. count-sort players p s.leaderboard, refl, refl)
