-- ===== src/Spawning.antt =====
-- How the room fills itself with cells: src/Room.cpp, `getRandomPosition`, the generators and
-- `killExpiredCells`, with `generateFood` of src/entity/Mother.cpp, and `respawn` of src/Player.cpp.
pub mod Nearby
pub mod Places
pub mod Quantities
use the_game_server.Base.{ℤ, pos, negsuc, ◌+ℤ◌}
use the_game_server.Interaction.{grow, kill_cell}
use the_game_server.Geometry.{Circle, Vec2D, vec, zero_vec, circles_intersect, ◌+V◌, ◌*V◌}
use the_game_server.Entity.{Kind, Cell, food, virus, phage, mother, circle_of}
use the_game_server.Entity.Motion.{modify_velocity}
use the_game_server.World.{
  Host, World, cell_at, fresh_cell, create_cell, act, write, random_direction, draw,
}
use the_game_server.Base.{
  ℕ, zero, suc, ◌+◌, ◌-◌, ◌*◌, ◌/◌, ◌%◌, ◌^◌, ◌≤◌, ◌<◌, min, max, ◌≡◌, refl, sym, ap, subst, ◌∙◌,
  ◌≢◌, ◌↔◌, ◌⊎◌, inl, inr, Bool, true, false, not, ◌&&◌, ◌||◌, Option, none, some, List, [], ◌∷◌,
  ◌++◌, map, arith, ltb, leb, ◌==◌, if◌then◌else◌, Bool-cases, Option-cases, length, take, drop,
  All, contains, insert, erase, count,
}
use the_game_server.Base.Float.{Float, ◌-F◌, ◌/F◌, ◌*F◌}
use the_game_server.Config.{RoomConfig}

module _ {F : Type 0} ⦃f : Float F⦄ (config : RoomConfig F) (host : Host F) where
  -- A cell of those to be checked that a circle touches.
  unfoldable pub is_taken_place : (ℕ → Cell F) → List ℕ → Circle F → Bool
  unfolding circles_intersect
  is_taken_place memory [] circle = false
  is_taken_place memory (p ∷ ps) circle =
      let rest = is_taken_place memory ps circle in
      circles_intersect (circle_of (memory p)) circle || rest

  -- The tries of `getRandomPosition`: two numbers for each, until a place is free or the tries are over.
  unfoldable pub try_positions : ℕ → F → Vec2D F → World F → Vec2D F × World F
  unfolding is_taken_place
  try_positions zero radius position w = (position, w)
  try_positions (suc n) radius position w =
      let low = f.to_ℕ radius in
      let x = host.integer w.drawn low (f.to_ℕ (f.of_ℕ config.width -F radius)) in
      let y = host.integer (w.drawn + 1) low (f.to_ℕ (f.of_ℕ config.height -F radius)) in
      let place = vec (f.of_ℕ x) (f.of_ℕ y) in
      let w' = record w { drawn = w.drawn + 2 } in
      let again = try_positions n radius place w' in
      if is_taken_place w.room.memory w.room.for_random_position_check
        (record { position = place; radius = radius })
      then again
      else (place, w')

  unfoldable pub get_random_position : F → World F → Vec2D F × World F
  unfolding try_positions
  get_random_position radius w = try_positions config.spawn_pos_try_count radius zero_vec w

  -- `obj.position = getRandomPosition(obj.radius)`
  unfoldable pub settle : ℕ → World F → World F
  unfolding get_random_position write
  settle p w =
      let (place, w') = get_random_position (cell_at w p).radius w in
      write p (record (cell_at w' p) { position = place }) w'

  -- The body of the loop of `generateFood(int)`.
  unfoldable pub generate_one_food : World F → World F
  unfolding create_cell settle write grow
  generate_one_food w =
      let new = fresh_cell config host w in
      let w = settle new (create_cell config host food w) in
      let color = host.integer w.drawn config.food.min_color_index config.food.max_color_index in
      let w =
        write new (record (cell_at w new) { color = color }) (record w { drawn = w.drawn + 1 }) in
      grow config host new (f.of_ℕ config.food.mass) w

  -- The body of the loops of `generateViruses(int)`, `generatePhages(int)` and `generateMothers(int)`.
  unfoldable pub generate_one : Kind → ℕ → World F → World F
  unfolding create_cell settle grow
  generate_one kind mass w =
      let new = fresh_cell config host w in
      settle new (grow config host new (f.of_ℕ mass) (create_cell config host kind w))

  unfoldable pub repeat : ℕ → (World F → World F) → World F → World F
  repeat zero body w = w
  repeat (suc n) body w = repeat n body (body w)

  -- `m_config.maxQuantity - m_quantity`, of unsigned numbers.
  unfoldable pub space_left : ℕ → ℤ → ℕ
  space_left most (pos n) = (2 ^ 32 + most - n) % 2 ^ 32
  space_left most (negsuc n) = (most + n + 1) % 2 ^ 32

  -- A quantity as an unsigned number.
  unfoldable pub unsigned : ℤ → ℕ
  unsigned (pos n) = n
  unsigned (negsuc n) = 2 ^ 32 - n - 1

  -- How often a loop `while (--quantity >= 0)` of an `int` runs for an unsigned number.
  unfoldable pub rounds : ℕ → ℕ
  rounds n = if ltb n (2 ^ 31) then n else 0

  -- A generator of a timer: nothing beyond the greatest mass or number.
  unfoldable pub generate : ℤ → ℕ → ℕ → (World F → World F) → World F → World F
  unfolding repeat space_left unsigned rounds
  generate quantity most portion body w =
      if f.le (f.of_ℕ config.max_mass) w.room.mass || ltb most (unsigned quantity)
      then w
      else repeat (rounds (min portion (space_left most quantity))) body w

  unfoldable pub generate_food : World F → World F
  unfolding generate generate_one_food
  generate_food w =
      generate w.room.food_quantity config.food.max_quantity config.generator.food.quantity
        generate_one_food w

  unfoldable pub generate_viruses : World F → World F
  unfolding generate_one
  generate_viruses w =
      generate w.room.viruses_quantity config.virus.max_quantity config.generator.virus.quantity
        (generate_one virus config.virus.mass) w

  unfoldable pub generate_phages : World F → World F
  generate_phages w =
      generate w.room.phages_quantity config.phage.max_quantity config.generator.phage.quantity
        (generate_one phage config.phage.mass) w

  unfoldable pub generate_mothers : World F → World F
  generate_mothers w =
      generate w.room.mothers_quantity config.mother.max_quantity config.generator.mother.quantity
        (generate_one mother config.mother.mass) w

  -- `killExpired`
  unfoldable pub kill_expired : ℕ → List ℕ → World F → World F
  unfolding kill_cell
  kill_expired time [] w = w
  kill_expired time (p ∷ ps) w =
      kill_expired time ps
        (if ltb ((cell_at w p).created) time then kill_cell config host p w else w)

  -- A time before the clock began is 0.
  unfoldable pub kill_expired_cells : World F → World F
  unfolding kill_expired
  kill_expired_cells w =
      let w = kill_expired (host.now - config.virus.life_time) w.room.viruses w in
      let w = kill_expired (host.now - config.phage.life_time) w.room.phages w in
      kill_expired (host.now - config.mother.life_time) w.room.mothers w

  -- The body of the loop of `Mother::generateFood`.
  unfoldable pub drop_food : ℕ → World F → World F
  unfolding random_direction act modify_velocity ◌+V◌ ◌*V◌
  drop_food p w =
      let way = random_direction host w in
      let w = draw w in
      let a = cell_at w p in
      let new = fresh_cell config host w in
      let w = create_cell config host food w in
      let color = host.integer w.drawn config.food.min_color_index config.food.max_color_index in
      let w =
        write new
          (record (cell_at w new) {
            creator = some p;
            position = a.position +V way *V a.radius;
            color = color;
          })
          (draw w) in
      let w = grow config host new (f.of_ℕ config.food.mass) w in
      let speed =
        host.real w.drawn (f.of_ℕ config.food.min_velocity) (f.of_ℕ config.food.max_velocity) in
      act new (modify_velocity (way *V speed)) (draw w)

  unfoldable pub mother_food_count : Cell F → ℕ
  mother_food_count c =
      let single = f.of_ℕ config.mother.mass in
      let extra = (c.mass -F single) /F single in
      let factor = if f.lt (f.of_ℕ 1) extra then extra else f.of_ℕ 1 in
      f.to_ℕ (factor *F config.mother.base_food_production)

  -- `Mother::generateFood`
  unfoldable pub generate_mother_food : ℕ → World F → World F
  unfolding repeat drop_food mother_food_count write
  generate_mother_food p w =
      let c = cell_at w p in
      let n = mother_food_count c in
      let w' = write p (record c { nearby_food_quantity = c.nearby_food_quantity + n }) w in
      if leb config.mother.nearby_food_limit c.nearby_food_quantity
      then w
      else repeat n (drop_food p) w'

  -- `generateFoodByMothers`, which ends when the room is full.
  unfoldable pub generate_food_by_mothers : List ℕ → World F → World F
  unfolding generate_mother_food unsigned
  generate_food_by_mothers [] w = w
  generate_food_by_mothers (p ∷ ps) w =
      let rest = generate_food_by_mothers ps (generate_mother_food p w) in
      if f.le (f.of_ℕ config.max_mass) w.room.mass
        || leb config.food.max_quantity (unsigned w.room.food_quantity)
      then w
      else rest
