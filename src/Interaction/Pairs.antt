-- ===== src/Interaction/Pairs.antt =====
-- The methods `interact` of src/entity/Avatar.cpp, Virus.cpp, Phage.cpp and Mother.cpp, one for each pair of
-- classes.
use the_game_server.Base.{ℕ, not, ◌&&◌, ◌||◌, some, if◌then◌else◌, Bool}
use the_game_server.Base.Float.{Float, ◌*F◌, ◌+F◌, ◌-F◌, ◌/F◌}
use the_game_server.Config.{RoomConfig}
use the_game_server.World.{Host, World, cell_at, fresh_cell, create_cell, act, write}
use the_game_server.Entity.Motion.{start_motion}
use the_game_server.Geometry.{distance, is_nonzero, ◌+V◌, direction, ◌*V◌, dot, ◌-V◌, ◌/V◌}
use the_game_server.Interaction.{
  attack, explode, grow, cell_at, kill_cell, write, act, touches, wake_player,
}
use the_game_server.Base.Options.{same_pointer}
use the_game_server.Entity.{Kind, Cell}

module _ {F : Type 0} ⦃f : Float F⦄ (config : RoomConfig F) (host : Host F) where
  -- `Avatar::interact(Avatar&)`
  unfoldable pub avatar_avatar : ℕ → ℕ → World F → World F
  unfolding attack
  avatar_avatar this other w =
      if f.lt (cell_at w this).mass (cell_at w other).mass
      then attack config host other this w
      else attack config host this other w

  unfoldable pub avatar_food : ℕ → ℕ → World F → World F
  unfolding grow kill_cell wake_player
  avatar_food this food w =
      let a = cell_at w this in
      let b = cell_at w food in
      if touches config host a b (a.radius +F b.radius)
      then kill_cell config host food
          (grow config host this b.mass (wake_player config host this w))
      else w

  unfoldable pub avatar_bullet : ℕ → ℕ → World F → World F
  unfolding is_nonzero
  avatar_bullet this bullet w =
      let a = cell_at w this in
      let b = cell_at w bullet in
      if f.lt a.mass (f.literal 5 4 *F b.mass)
        || (same_pointer a.player b.player && is_nonzero b.velocity)
        || not (touches config host a b (a.radius -F f.literal 3 5 *F b.radius))
      then w
      else kill_cell config host bullet (
          grow config host this b.mass
            (if same_pointer a.player b.player then w else wake_player config host this w))

  unfoldable pub avatar_virus : ℕ → ℕ → World F → World F
  unfolding explode
  avatar_virus this virus w =
      let a = cell_at w this in
      let b = cell_at w virus in
      if f.lt a.mass (f.literal 5 4 *F b.mass)
        || not (touches config host a b (a.radius -F f.literal 3 5 *F b.radius))
      then w
      else kill_cell config host virus (explode config host this w)

  unfoldable pub avatar_phage : ℕ → ℕ → World F → World F
  avatar_phage this phage w =
      let a = cell_at w this in
      let b = cell_at w phage in
      let least = f.of_ℕ config.cell_min_mass in
      let poison = config.simulation_interval *F b.mass in
      let spare = a.mass -F least in
      if f.le a.mass least
        || f.lt a.mass b.mass
        || not (touches config host a b (a.radius +F b.radius))
      then w
      else grow config host this (f.neg (if f.lt spare poison then spare else poison)) w

  -- The two tests of `Avatar::interact(Mother&)`: the mother takes the avatar, or the avatar breaks it.
  abbrev pub is_taken : Cell F → Cell F → Bool
  unfolding distance
  is_taken a b =
      f.le (f.literal 5 4 *F a.mass) b.mass
      && f.lt (distance a.position b.position) (b.radius -F f.literal 1 4 *F a.radius)

  unfoldable pub break_mother : ℕ → ℕ → World F → World F
  unfolding distance explode
  break_mother this mother w =
      let a = cell_at w this in
      let b = cell_at w mother in
      if f.lt (f.literal 5 4 *F b.mass) a.mass
        && f.lt (distance a.position b.position) (a.radius -F f.literal 1 4 *F b.radius)
      then kill_cell config host mother (explode config host this w)
      else w

  unfoldable pub avatar_mother : ℕ → ℕ → World F → World F
  unfolding break_mother
  avatar_mother this mother w =
      if is_taken (cell_at w this) (cell_at w mother)
      then kill_cell config host this (grow config host mother (cell_at w this).mass w)
      else break_mother this mother w

  -- `Virus::interact(Food&)` and `Phage::interact(Food&)`
  unfoldable pub trap_food : ℕ → ℕ → World F → World F
  trap_food this food w =
      let a = cell_at w this in
      let b = cell_at w food in
      if touches config host a b (a.radius +F b.radius) then kill_cell config host food w else w

  -- `Virus::interact(Bullet&)` and `Phage::interact(Bullet&)`: the bullet pushes the cell.
  unfoldable pub trap_bullet : ℕ → ℕ → World F → World F
  unfolding start_motion write act direction dot ◌-V◌ ◌*V◌ ◌/V◌
  trap_bullet this bullet w =
      let a = cell_at w this in
      let b = cell_at w bullet in
      let normal = direction (a.position -V b.position) in
      let impulse =
        dot (a.velocity -V b.velocity) normal
        *F (f.of_ℕ 2 *F a.mass *F b.mass /F (a.mass +F b.mass)) in
      if touches config host a b (a.radius +F b.radius)
      then kill_cell config host bullet (
          act this start_motion
            (write this (record a { velocity = a.velocity -V normal *V impulse /V a.mass }) w))
      else w

  -- Two cells that touch are killed, and one of the kind takes their mass and place.
  unfoldable pub merge_into : Kind → ℕ → ℕ → World F → World F
  unfolding create_cell write ◌+V◌ ◌*V◌
  merge_into kind this other w =
      let a = cell_at w this in
      let b = cell_at w other in
      let new = fresh_cell config host w in
      let w' = grow config host new (a.mass +F b.mass) (create_cell config host kind w) in
      let middle = (a.position +V b.position) *V f.literal 1 2 in
      if touches config host a b (a.radius +F b.radius)
      then kill_cell config host other (
          kill_cell config host this (write new (record (cell_at w' new) { position = middle }) w'))
      else w

  unfoldable pub mother_food : ℕ → ℕ → World F → World F
  mother_food this food w =
      let a = cell_at w this in
      let b = cell_at w food in
      if (same_pointer b.creator (some this) && is_nonzero b.velocity)
        || not (touches config host a b a.radius)
      then w
      else kill_cell config host food w

  unfoldable pub mother_bullet : ℕ → ℕ → World F → World F
  mother_bullet this bullet w =
      let a = cell_at w this in
      let b = cell_at w bullet in
      if touches config host a b (a.radius -F f.literal 1 4 *F b.radius)
      then kill_cell config host bullet (grow config host this b.mass w)
      else w

  -- `Mother::interact(Virus&)` and `Mother::interact(Phage&)`
  unfoldable pub mother_absorbs : ℕ → ℕ → World F → World F
  mother_absorbs this other w =
      let a = cell_at w this in
      let b = cell_at w other in
      if touches config host a b (a.radius +F b.radius)
      then kill_cell config host other (grow config host this b.mass w)
      else w
