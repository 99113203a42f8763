-- ===== src/Spawning/Nearby.antt =====
-- The count of what is near the mothers: `calculateNearbyFood` of src/entity/Mother.cpp and
-- `updateNearbyFoodForMothers` of src/Room.cpp. The map raises an exception when it gives none.
use the_game_server.Base.Options.{◌>>=◌}
use the_game_server.Base.{ℕ, Option, some, List, [], ◌∷◌}
use the_game_server.Base.Float.{Float, ◌+F◌}
use the_game_server.Config.{RoomConfig}
use the_game_server.Geometry.{◌+V◌, ◌-V◌, Aabb, vec}
use the_game_server.Gridmap.Search.{count_in}
use the_game_server.World.{World, write, cell_at}
use the_game_server.Entity.{Cell}

module _ {F : Type 0} ⦃f : Float F⦄ (config : RoomConfig F) where
  -- The box around a mother that is searched.
  unfoldable pub nearby_box : Cell F → Aabb F
  unfolding ◌+V◌ ◌-V◌
  nearby_box c =
      let radius = c.radius +F f.of_ℕ config.mother.check_radius in
      let size = vec radius radius in record { a = c.position -V size; b = c.position +V size }

  -- `Mother::calculateNearbyFood`
  unfoldable pub calculate_nearby_food : ℕ → World F → Option (World F)
  unfolding nearby_box count_in write
  calculate_nearby_food p w = do
    n ← count_in w.room.memory w.room.gridmap (nearby_box (cell_at w p))
    some (write p (record (cell_at w p) { nearby_food_quantity = n }) w)

  -- `updateNearbyFoodForMothers`, for the mothers of the room.
  unfoldable pub update_nearby_food : List ℕ → World F → Option (World F)
  unfolding calculate_nearby_food
  update_nearby_food [] w = some w
  update_nearby_food (p ∷ ps) w = do w' ← calculate_nearby_food p w; update_nearby_food ps w'
