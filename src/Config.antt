-- ===== src/Config.antt =====
-- The configuration of a room, src/Config.hpp. A duration is a number of clock ticks.
use the_game_server.Base.{ℕ, Bool, List}

pub record Leaderboard : Type 0 where
  pub update_interval : ℕ
  pub limit : ℕ

pub record PlayerConfig (F : Type 0) : Type 0 where
  pub mass : ℕ
  pub max_avatars : ℕ
  pub deflation_threshold : ℕ
  pub deflation_interval : ℕ
  pub deflation_ratio : F
  pub annihilation_threshold : ℕ
  pub pointer_force_ratio : F

pub record BotConfig : Type 0 where
  pub mass : ℕ
  pub respawn_delay : ℕ

pub record AvatarConfig : Type 0 where
  pub recombination_duration : ℕ
  pub min_velocity : ℕ
  pub max_velocity : ℕ
  pub explosion_min_mass : ℕ
  pub explosion_parts : ℕ
  pub split_min_mass : ℕ
  pub split_velocity : ℕ
  pub ejection_min_mass : ℕ
  pub ejection_velocity : ℕ
  pub ejection_mass : ℕ
  pub ejection_mass_loss : ℕ

pub record FoodConfig (F : Type 0) : Type 0 where
  pub mass : ℕ
  pub radius : ℕ
  pub quantity : ℕ
  pub max_quantity : ℕ
  pub min_velocity : ℕ
  pub max_velocity : ℕ
  pub resistance_ratio : F
  pub min_color_index : ℕ
  pub max_color_index : ℕ

-- Also the configuration of phages.
pub record VirusConfig : Type 0 where
  pub mass : ℕ
  pub quantity : ℕ
  pub max_quantity : ℕ
  pub life_time : ℕ
  pub color : ℕ

pub record MotherConfig (F : Type 0) : Type 0 where
  pub mass : ℕ
  pub quantity : ℕ
  pub max_mass : ℕ
  pub max_quantity : ℕ
  pub life_time : ℕ
  pub color : ℕ
  pub check_radius : ℕ
  pub base_food_production : F
  pub nearby_food_limit : ℕ
  pub food_check_interval : ℕ
  pub food_generation_interval : ℕ

pub record GeneratorItem : Type 0 where
  pub interval : ℕ
  pub quantity : ℕ
  pub enabled : Bool

pub record Generator : Type 0 where
  pub food : GeneratorItem
  pub virus : GeneratorItem
  pub phage : GeneratorItem
  pub mother : GeneratorItem

pub record RoomConfig (F : Type 0) : Type 0 where
  pub leaderboard : Leaderboard
  pub player : PlayerConfig F
  pub bot : BotConfig
  pub avatar : AvatarConfig
  pub food : FoodConfig F
  pub virus : VirusConfig
  pub phage : VirusConfig
  pub mother : MotherConfig F
  pub generator : Generator
  pub eps : F
  pub num_threads : ℕ
  pub update_interval : ℕ
  pub sync_interval : ℕ
  pub spawn_pos_try_count : ℕ
  pub check_expirable_cells_interval : ℕ
  pub viewport_base : ℕ
  pub viewport_buffer : F
  pub aspect_ratio : F
  pub width : ℕ
  pub height : ℕ
  pub max_mass : ℕ
  pub max_players : ℕ
  pub max_radius : ℕ
  pub scale_ratio : F
  pub explode_velocity : ℕ
  pub bot_names : List (List ℕ)
  pub resistance_ratio : F
  pub elasticity_ratio : F
  pub cell_min_mass : ℕ
  pub cell_radius_ratio : F
  pub simulation_interval : F
  pub cell_min_radius : F
  pub cell_max_radius : F
  pub cell_radius_diff : F
  pub avatar_velocity_diff : F
