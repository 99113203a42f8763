-- ===== src/Tests/Lives.antt =====
-- Players that split and die, rooms that fill themselves, and the other parts of the server.
use the_game_server.Spawning.Places.{Gives, try_positions-Gives}
use the_game_server.Base.Fixed.{Fixed, fixed_float}
use the_game_server.Entity.{food, virus, phage, mother}
use the_game_server.Player.{new_player, is_dead}
use the_game_server.Registries.History.{empty}
use the_game_server.Audience.{put, write_player}
use the_game_server.World.{World, player_at, edit_player}
use the_game_server.Tests.Data.{config, point}
use the_game_server.Tests.Worlds.{host, silent, with_food}
use the_game_server.Lives.Orders
use the_game_server.Base.{
  ◌≤◌, ◌≡◌, refl, true, none, some, [], ◌∷◌, arith, ◌==◌, if◌then◌else◌, length, contains,
}
use the_game_server.Lives.{choose_observable, lock, alive, on_player_death}
use the_game_server.Lives.Limits.{split-le_limit}
use the_game_server.Spawning.{
  try_positions, generate_food, generate_viruses, generate_phages, generate_mothers,
}
use the_game_server.Spawning.Quantities.{Fills, generators_fill}
use the_game_server.Base.Float.{of_ℕ}
use the_game_server.Lives.Mourning.{on_player_death_watches}

-- A player without avatars is at the order to split.
split-le_limit_example :
    length (player_at (Orders.split config host 3 (point 5 5) silent) 3).avatars
    ≤ config.player.max_avatars
unfolding new_player
split-le_limit_example = split-le_limit config host 3 (point 5 5) silent (omega arith)

-- Player 1 has two sessions and was killed by player 2, which is alive.
abbrev duel : World Fixed
unfolding new_player
duel = record silent {
  audience = record silent.audience {
    player_of = λ p. record (new_player p) {
      sessions = if p == 1 then 21 ∷ 22 ∷ [] else [];
      killer = if p == 1 then some 2 else none;
      is_alive = true;
    };
  };
  held = λ p. true;
}

on_player_death_watches_example :
    let w' = on_player_death 1 duel in
    ((w'.audience.user_of 22).observable ≡ some 2)
    × (contains 22 (player_at w' 2).sessions ≡ true)
    × ((player_at w' 1).sessions ≡ [])
unfolding duel contains choose_observable lock alive is_dead edit_player write_player put
on_player_death_watches_example = on_player_death_watches 1 2 22 duel refl refl

try_positions-Gives_example :
    Gives config host 3
      (of_ℕ 5)
      (point 0 0)
      with_food
      (try_positions config host 3 (of_ℕ 5) (point 0 0) with_food)
try_positions-Gives_example = try_positions-Gives config host 3 (of_ℕ 5) (point 0 0) with_food

generators_fill_example :
    Fills config host food 10 10 0 silent (generate_food config host silent)
    × Fills config host virus 10 10 0 silent (generate_viruses config host silent)
    × Fills config host phage 10 10 0 silent (generate_phages config host silent)
    × Fills config host mother 10 10 0 silent (generate_mothers config host silent)
unfolding empty
generators_fill_example =
    generators_fill config host 0 0 0 0 silent (omega arith) (omega arith) (omega arith)
      (omega arith) (omega arith) (omega arith) (omega arith) (omega arith) (omega arith)
      (omega arith) (omega arith) (omega arith) refl refl refl refl
