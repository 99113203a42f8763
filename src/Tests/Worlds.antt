-- ===== src/Tests/Worlds.antt =====
-- Rooms in which cells meet and handlers wait.
use the_game_server.Entity.{get_aabb}
use the_game_server.Gridmap.{
  Gridmap, modify_cells, cells_at, resize, boxes, clip, indices, rows_of, cols_of,
}
use the_game_server.Gridmap.Bounds.{IsMap, resize-IsMap}
use the_game_server.Tests.Data.{fixed_HasLines, config}
use the_game_server.Gridmap.Queries.{held}
use the_game_server.Updates.{meet_neighbours, sectors_of}
use the_game_server.Updates.Meetings.{meet_neighbours-Meets, neighbours, AreLive, Meets}
use the_game_server.Entity.Avatars.{change_mass, assign_mass}
use the_game_server.Entity.Motion.{set_mass}
use the_game_server.World.{Host, World, cell_at, create_cell, act, write, post, post_all}
use the_game_server.NextId.{pop, pop_from}
use the_game_server.Registries.{
  create, create_virus, create_food, update_new_cell_registries, allocate, new_cell, store,
  create_mother,
}
use the_game_server.Interaction.Dispatch.{meet, interact}
use the_game_server.Base.{insert, contains, some, sym, length, ap, ◌*◌}
use the_game_server.Interaction.{grow}
use the_game_server.Contexts.Ending.{CountsWhole, weight}
use the_game_server.Registries.History.{empty, empty-IsSound}
use the_game_server.Entity.{avatar, food, virus, mother, kind_code}
use the_game_server.Base.{
  ℕ, suc, ◌≤◌, max, ◌≡◌, refl, subst, true, false, none, List, [], ◌∷◌, arith, contains, insert,
  count,
}
use the_game_server.Audience.{Audience}
use the_game_server.Base.Fixed.{Fixed, fixed_float}
use the_game_server.Interaction.Symmetry.{interact_comm}
use the_game_server.World.Orderly.{IsOrderly, Passes, nobody}
use the_game_server.Base.Float.{of_ℕ}
use the_game_server.Interaction.Fair.{among, births}
use the_game_server.Player.{new_player}
use the_game_server.Registries.Sound.{live}
use the_game_server.Interaction.Meeting.{meet-Passes}
use the_game_server.World.Births.{create-Passes}
use the_game_server.Contexts.Deaths.{IsSettled, run_contexts-IsSettled}
use the_game_server.Interaction.Steps.{grow-Passes}
use the_game_server.Contexts.{run_contexts}
use the_game_server.Contexts.Weights.{total}

-- An allocator that gives the first address above those in use.
abbrev above : List ℕ → ℕ
above [] = 0
above (x ∷ xs) = max (suc x) (above xs)

above_unused : (a : ℕ) (xs : List ℕ) → above xs ≤ a → count a xs ≡ 0
unfolding count
above_unused a [] h = refl
above_unused a (x ∷ xs) h = ground (arith, above_unused a xs (omega (arith, h)))

abbrev pub host : Host Fixed
host = record {
  pi = of_ℕ 3;
  sin = λ a. a;
  cos = λ a. a;
  now = 100;
  address = above;
  real = λ n low high. high;
  integer = λ n low high. low;
}

pub host_fresh : (cells : List ℕ) → count (host.address cells) cells ≡ 0
host_fresh cells = above_unused (above cells) cells (omega arith)

pub fixed-CountsWhole : CountsWhole Fixed
unfolding fixed_float
fixed-CountsWhole = record {
  to_ℕ-of_ℕ = λ k h. omega arith;
  start = λ k h. ground arith;
  take_away = λ a k light h. ground (arith, h);
}

abbrev nobody_there : Audience Fixed
nobody_there = record {
  sessions = [];
  players = [];
  player_of = new_player;
  user_of = λ sess. record { player_id = 0; player = none; observable = none };
  leaderboard = [];
  fighters = [];
  move_requests = [];
  eject_requests = [];
  split_requests = [];
  chat_history = [];
  sent = [];
}

-- The map of a room, whose first sector holds the cells to come.
abbrev crowded : Gridmap Fixed
crowded = record (resize 64 64 5) {
  sectors = modify_cells (λ ps. 0 ∷ 1 ∷ ps) 0 (resize 64 64 5).sectors;
}

crowded-IsMap : IsMap crowded
unfolding resize boxes modify_cells
crowded-IsMap =
    let m : IsMap (resize 64 64 5) = resize-IsMap 64 64 5 (omega arith) (omega arith) in
    record {
      sized = refl;
      rows = m.rows;
      cols = m.cols;
      right = m.right;
      bottom = m.bottom;
      wide = m.wide;
      high = m.high;
    }

abbrev pub silent : World Fixed
silent = record {
  room = empty crowded (λ p. new_cell config avatar 0 0);
  audience = nobody_there;
  timers = λ q. record { deflation = none; deflating = false; annihilation = none };
  game = [];
  deaths = [];
  drawn = 0;
  top_player = none;
  held = λ q. false;
}

silent-IsOrderly : IsOrderly silent
unfolding empty count
silent-IsOrderly = record {
  sound = empty-IsSound crowded (λ p. new_cell config avatar 0 0);
  game_live = tt;
  deaths_once = λ p. ground arith;
}

abbrev with_virus : World Fixed
with_virus = create_cell config host virus silent

with_virus_made :
    Passes nobody 1 silent with_virus
    × (live with_virus.room 0 ≡ true)
    × ((cell_at with_virus 0).zombie ≡ false)
unfolding empty
with_virus_made = create-Passes config host virus silent host_fresh (omega arith) silent-IsOrderly

abbrev pub with_food : World Fixed
with_food = create_cell config host food with_virus

all_room :
    (with_virus.room.next_ids.next_id ≡ 2)
    × (with_food.room.next_ids.next_id ≡ 3)
    × (host.address with_virus.room.cells ≡ 1)
unfolding create_cell create create_virus create_food update_new_cell_registries allocate pop
    pop_from insert contains count empty
all_room = (refl, refl, refl)

with_food_made : Passes nobody 1 with_virus with_food × (live with_food.room 1 ≡ true)
with_food_made =
    let made =
      create-Passes config host food with_virus host_fresh (omega (arith, all_room.0))
        with_virus_made.0.orderly in
    (made.0, subst (λ p. live with_food.room p ≡ true) all_room.2 made.1)

meet-Passes_example :
    Passes
      (among config host host_fresh 0 1)
      (births config host host_fresh)
      with_food
      (meet config host 0 1 with_food).state
meet-Passes_example =
    meet-Passes config host host_fresh 0 1 with_food (with_food_made.0.stays 0 with_virus_made.1)
      with_food_made.1 (omega (arith, all_room.1)) with_food_made.0.orderly

first_neighbours : neighbours config host host_fresh 0 with_food ≡ 0 ∷ 1 ∷ []
unfolding create_cell create create_virus create_food update_new_cell_registries allocate new_cell
    store pop pop_from insert contains empty sectors_of held cells_at modify_cells fixed_float clip
    resize get_aabb indices rows_of cols_of
first_neighbours = refl

both_live : (q : ℕ) → contains q (0 ∷ 1 ∷ []) ≡ true → live with_food.room q ≡ true
unfolding contains
both_live q c = ground (arith, with_food_made.0.stays 0 with_virus_made.1, with_food_made.1)

first_live : AreLive with_food (neighbours config host host_fresh 0 with_food)
first_live = subst (AreLive with_food) (sym first_neighbours) both_live

meet_neighbours-Meets_example :
    (w' : World Fixed) × (meet_neighbours config host 0 with_food ≡ some w')
    × Meets config host host_fresh 0 (neighbours config host host_fresh 0 with_food) with_food w'
unfolding create_cell create_food update_new_cell_registries allocate create_virus empty
meet_neighbours-Meets_example =
    meet_neighbours-Meets config host host_fresh fixed_HasLines 0 with_food crowded-IsMap
      (with_food_made.0.stays 0 with_virus_made.1) first_live
      (omega
        (arith, all_room.1, ap (λ ps. births config host host_fresh * length ps) first_neighbours))
      with_food_made.0.orderly

interact_comm_example : interact config host 0 1 with_food ≡ interact config host 1 0 with_food
unfolding create_cell create create_virus create_food update_new_cell_registries allocate new_cell
    store pop pop_from insert contains empty kind_code
interact_comm_example = interact_comm config host 0 1 with_food refl

-- A mother that is heavy enough to throw others.
abbrev heavy : World Fixed
heavy = grow config host 0 (of_ℕ 1000) (create_cell config host mother silent)

with_mother_made :
    Passes nobody 1 silent (create_cell config host mother silent)
    × (live (create_cell config host mother silent).room 0 ≡ true)
    × ((cell_at (create_cell config host mother silent) 0).zombie ≡ false)
unfolding empty
with_mother_made = create-Passes config host mother silent host_fresh (omega arith) silent-IsOrderly

heavy-IsOrderly : IsOrderly heavy
heavy-IsOrderly =
    (grow-Passes config host 0 (of_ℕ 1000) (create_cell config host mother silent)
      with_mother_made.1 with_mother_made.0.orderly).orderly

-- One handler waits, and 19 mothers may be thrown.
heavy-weight : (weight config host heavy ≡ 77) × (heavy.room.next_ids.next_id ≡ 2)
unfolding grow act write post_all post change_mass assign_mass set_mass create_cell create
    create_mother update_new_cell_registries allocate new_cell store pop pop_from insert contains
    empty kind_code total fixed_float
heavy-weight = (refl, refl)

run_contexts-IsSettled_example :
    IsSettled (run_contexts config host (weight config host heavy) heavy)
run_contexts-IsSettled_example =
    run_contexts-IsSettled config host host_fresh fixed-CountsWhole (omega arith) (omega arith)
      heavy (omega (arith, heavy-weight)) heavy-IsOrderly
