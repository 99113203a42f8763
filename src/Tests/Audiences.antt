-- ===== src/Tests/Audiences.antt =====
-- Sessions that join, watch and leave.
use the_game_server.Base.{◌+◌, refl, none, List, [], ◌∷◌, ◌==◌, contains}
use the_game_server.Base.Fixed.{Fixed, fixed_float}
use the_game_server.Player.{new_player}
use the_game_server.Audience.{Audience}
use the_game_server.Audience.Histories.{IsSound}
use the_game_server.Audience.Runs.{
  Request, run, run-IsSound, joins, spectates, moves, says, leaves_room,
}
use the_game_server.Tests.Data.{config, point}

-- A room with two players, the second of whom fights, and no sessions.
abbrev quiet : Audience Fixed
unfolding new_player
quiet = record {
  sessions = [];
  players = (7, 1) ∷ (8, 2) ∷ [];
  player_of = λ p. record (new_player (p + 6)) { is_alive = p == 2 };
  user_of = λ s. record { player_id = 0; player = none; observable = none };
  leaderboard = 2 ∷ [];
  fighters = 2 ∷ [];
  move_requests = [];
  eject_requests = [];
  split_requests = [];
  chat_history = [];
  sent = [];
}

quiet-IsSound : IsSound quiet
unfolding quiet contains
quiet-IsSound = record {
  bonded = record {
    main_user = λ p s e. cc;
    user_main = λ p s e. cc;
    main_in = λ p s e. cc;
    watch_in = λ p s e. cc;
    bound = λ p s e. cc;
    exclusive = λ p q s e. cc;
  };
  player_joined = λ s h. refl;
  observable_joined = λ s h. refl;
}

-- Two sessions join, the first watches the fighter, a third takes the second's player over.
abbrev evening : List (Request Fixed)
evening =
    joins 21 7
    ∷ joins 22 8
    ∷ spectates 21 8
    ∷ moves 22 (point 3 4)
    ∷ joins 23 8
    ∷ says 23 (104 ∷ [])
    ∷ leaves_room 22
    ∷ leaves_room 21
    ∷ []

run-IsSound_example : IsSound (run config evening quiet)
run-IsSound_example = run-IsSound config evening quiet quiet-IsSound
