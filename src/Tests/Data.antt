-- ===== src/Tests/Data.antt =====
-- A map, cells and players for the examples, and the laws of their numbers.
use the_game_server.Base.{ℕ, ◌*◌, ◌/◌, ◌≤◌, ◌≡◌, refl, arith, ◌≤ℤ◌, pos_part, true, [], none, false}
use the_game_server.Base.{ℤ, pos, negsuc, ◌+ℤ◌, ◌-ℤ◌}
use the_game_server.Base.Float.{of_ℕ, zero_f}
use the_game_server.Base.Fixed.{Fixed, fixed_float, magnitude, signed}
use the_game_server.Geometry.{Vec2D, vec, zero_vec}
use the_game_server.Geometry.Vectors.{HasSymmetry}
use the_game_server.Config.{RoomConfig}
use the_game_server.Gridmap.{Gridmap, resize, boxes}
use the_game_server.Gridmap.Bounds.{HasLines, IsMap, resize-IsMap}
use the_game_server.Entity.{Cell, virus}

size_swap : (a b : ℤ) → magnitude (a -ℤ b) ≡ magnitude (b -ℤ a)
unfolding ◌-ℤ◌
size_swap a b = ground arith

whole_mono : (a b : ℤ) → a ≤ℤ b → pos_part a / 1000 ≤ pos_part b / 1000
whole_mono a b h = ground arith

square_sub_swap :
    (a b : ℤ)
    → signed (a -ℤ b) (a -ℤ b) (magnitude (a -ℤ b) * magnitude (a -ℤ b) / 1000)
      ≡ signed (b -ℤ a) (b -ℤ a) (magnitude (b -ℤ a) * magnitude (b -ℤ a) / 1000)
square_sub_swap a b = same (a -ℤ b) (b -ℤ a) (size_swap a b)
  where
    same :
        (c d : ℤ)
        → magnitude c ≡ magnitude d
        → signed c c (magnitude c * magnitude c / 1000)
          ≡ signed d d (magnitude d * magnitude d / 1000)
    same (pos m) (pos n) h = rw h refl
    same (pos m) (negsuc n) h = rw h refl
    same (negsuc m) (pos n) h = rw h refl
    same (negsuc m) (negsuc n) h = rw h refl

pub fixed_HasSymmetry : HasSymmetry Fixed
unfolding fixed_float ◌+ℤ◌
fixed_HasSymmetry = record { square_sub_swap = square_sub_swap; add_comm = λ a b. ground arith }

pub fixed_HasLines : HasLines Fixed
unfolding fixed_float
fixed_HasLines = record {
  le_refl = λ a. ground arith;
  le_of_not_lt = λ a b h. ground arith;
  to_ℕ_mono = λ a b h. whole_mono a b (ground arith);
  to_ℕ-of_ℕ = λ n h. omega arith;
}

abbrev pub point : ℕ → ℕ → Vec2D Fixed
point x y = vec (of_ℕ x) (of_ℕ y)

abbrev pub room_map : Gridmap Fixed
unfolding resize boxes
room_map = resize 64 64 5

pub room_map-IsMap : IsMap room_map
unfolding room_map resize
room_map-IsMap = resize-IsMap 64 64 5 (omega arith) (omega arith)

abbrev pub config : RoomConfig Fixed
config = record {
  leaderboard = record { update_interval = 10; limit = 10 };
  player = record {
    mass = 50;
    max_avatars = 10;
    deflation_threshold = 10;
    deflation_interval = 10;
    deflation_ratio = zero_f;
    annihilation_threshold = 10;
    pointer_force_ratio = zero_f;
  };
  bot = record { mass = 50; respawn_delay = 10 };
  avatar = record {
    recombination_duration = 10;
    min_velocity = 10;
    max_velocity = 10;
    explosion_min_mass = 10;
    explosion_parts = 10;
    split_min_mass = 10;
    split_velocity = 10;
    ejection_min_mass = 10;
    ejection_velocity = 10;
    ejection_mass = 10;
    ejection_mass_loss = 10;
  };
  food = record {
    mass = 50;
    radius = 5;
    quantity = 10;
    max_quantity = 10;
    min_velocity = 10;
    max_velocity = 10;
    resistance_ratio = zero_f;
    min_color_index = 10;
    max_color_index = 10;
  };
  virus = record { mass = 50; quantity = 10; max_quantity = 10; life_time = 10; color = 10 };
  phage = record { mass = 50; quantity = 10; max_quantity = 10; life_time = 10; color = 10 };
  mother = record {
    mass = 50;
    quantity = 10;
    max_mass = 1000;
    max_quantity = 10;
    life_time = 10;
    color = 10;
    check_radius = 10;
    base_food_production = zero_f;
    nearby_food_limit = 10;
    food_check_interval = 10;
    food_generation_interval = 10;
  };
  generator = record {
    food = record { interval = 10; quantity = 10; enabled = true };
    virus = record { interval = 10; quantity = 10; enabled = true };
    phage = record { interval = 10; quantity = 10; enabled = true };
    mother = record { interval = 10; quantity = 10; enabled = true };
  };
  eps = zero_f;
  num_threads = 10;
  update_interval = 10;
  sync_interval = 10;
  spawn_pos_try_count = 10;
  check_expirable_cells_interval = 10;
  viewport_base = 10;
  viewport_buffer = zero_f;
  aspect_ratio = zero_f;
  width = 64;
  height = 64;
  max_mass = 1000;
  max_players = 2;
  max_radius = 10;
  scale_ratio = zero_f;
  explode_velocity = 10;
  bot_names = [];
  resistance_ratio = zero_f;
  elasticity_ratio = zero_f;
  cell_min_mass = 10;
  cell_radius_ratio = zero_f;
  simulation_interval = zero_f;
  cell_min_radius = zero_f;
  cell_max_radius = zero_f;
  cell_radius_diff = zero_f;
  avatar_velocity_diff = zero_f;
}

-- A virus in the middle of the map, which is in no sector yet.
abbrev pub virus_cell : Cell Fixed
virus_cell = record {
  position = point 32 32;
  radius = of_ℕ 5;
  sectors = [];
  left_top_sector = none;
  right_bottom_sector = none;
  created = 0;
  velocity = zero_vec;
  force = zero_vec;
  creator = none;
  player = none;
  mass = of_ℕ 100;
  resistance_ratio = zero_f;
  id = 1;
  kind = virus;
  color = 3;
  newly = true;
  zombie = false;
  material_point = false;
  fusion_time = 0;
  max_velocity = zero_f;
  recombined = false;
  deflation_mass = zero_f;
  nearby_food_quantity = 0;
}
