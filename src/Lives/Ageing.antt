-- ===== src/Lives/Ageing.antt =====
-- The timers and the parameters of a player, src/Player.cpp, and `annihilate` of src/entity/Avatar.cpp.
use the_game_server.Geometry.{
  Vec2D, is_nonzero, Aabb, vec, translate, ◌/V◌, ◌+V◌, ◌-V◌, ◌*V◌, zero_vec,
}
use the_game_server.Entity.Avatars.{setup_deflation, deflate, apply_point_attraction_force}
use the_game_server.Entity.{virus, Cell}
use the_game_server.Interaction.{grow, kill_cell}
use the_game_server.World.{
  Host, World, cell_at, player_at, edit_player, fresh_cell, create_cell, act, write,
}
use the_game_server.Base.{
  ℕ, ◌+◌, ◌%◌, ◌^◌, true, false, Option, none, some, List, [], ◌∷◌, ltb, ◌==◌, if◌then◌else◌,
  length,
}
use the_game_server.Base.Float.{Float, ◌+F◌, zero_f, ◌*F◌, ne_f, ◌/F◌, ◌-F◌}
use the_game_server.Config.{RoomConfig}
use the_game_server.Player.{Player}
use the_game_server.Audience.{put}

-- The sums that `calcParams` takes over the avatars.
pub record Sums (F : Type 0) : Type 0 where
  pub position : Vec2D F
  pub radius : F
  pub mass : F

module _ {F : Type 0} ⦃f : Float F⦄ where
  -- The avatar with the greatest mass, the first of those with as much.
  unfoldable pub biggest : (ℕ → Cell F) → ℕ → List ℕ → ℕ
  biggest memory best [] = best
  biggest memory best (p ∷ ps) =
      biggest memory (if f.lt (memory best).mass (memory p).mass then p else best) ps

  unfoldable pub find_the_biggest_avatar : (ℕ → Cell F) → Player F → Option ℕ
  unfolding biggest
  find_the_biggest_avatar memory player = elim player.avatars [
    | [] ↦ none
    | p ∷ ps ↦ some (biggest memory p ps)
  ]

  unfoldable pub sum_up : (ℕ → Cell F) → List ℕ → Sums F → Sums F
  unfolding ◌+V◌ ◌*V◌
  sum_up memory [] s = s
  sum_up memory (p ∷ ps) s =
      let a = memory p in
      sum_up memory ps (record {
        position = s.position +V a.position *V a.mass;
        radius = if f.lt s.radius a.radius then a.radius else s.radius;
        mass = s.mass +F a.mass;
      })

  unfoldable pub scale_for : RoomConfig F → F → F
  scale_for config radius =
      let one = f.of_ℕ 1 in
      let greatest = f.of_ℕ config.max_radius in
      if f.lt greatest radius then one +F config.scale_ratio *F (radius /F greatest -F one) else one

  -- The viewport about a position, for a scale.
  unfoldable pub viewport_at : RoomConfig F → Vec2D F → F → Aabb F
  unfolding ◌-V◌ ◌+V◌
  viewport_at config position scale =
      let one = f.of_ℕ 1 in
      let half_height =
        f.literal 1 2
        *F f.of_ℕ config.viewport_base
        *F (one +F f.of_ℕ 2 *F config.viewport_buffer)
        *F scale in
      let buffer = vec (half_height *F config.aspect_ratio) half_height in
      record { a = position -V buffer; b = position +V buffer }

  unfoldable pub calc_params : RoomConfig F → (ℕ → Cell F) → Player F → Player F
  unfolding sum_up scale_for viewport_at ◌/V◌ ◌-V◌ translate
  calc_params config memory player =
      let s =
        sum_up memory player.avatars
          (record { position = zero_vec; radius = zero_f; mass = zero_f }) in
      let position = if ne_f s.mass zero_f then s.position /V s.mass else s.position in
      let mass = f.to_ℕ s.mass % 2 ^ 32 in
      let scale = scale_for config s.radius in
      if length player.avatars == 0 then record player { mass = 0 } else record player {
        mass = mass;
        max_mass = if ltb player.max_mass mass then mass else player.max_mass;
        scale = if ne_f player.scale scale then scale else player.scale;
        viewport =
            if ne_f player.scale scale
            then viewport_at config position scale
            else translate player.viewport (position -V player.position);
        position = position;
      }

module _ {F : Type 0} ⦃f : Float F⦄ (config : RoomConfig F) (host : Host F) where
  unfoldable pub setup_all : List ℕ → World F → World F
  unfolding act setup_deflation
  setup_all [] w = w
  setup_all (p ∷ ps) w = setup_all ps (act p (setup_deflation config) w)

  unfoldable pub deflate_all : List ℕ → World F → World F
  unfolding act deflate
  deflate_all [] w = w
  deflate_all (p ∷ ps) w = deflate_all ps (act p (deflate config host.pi) w)

  -- `handleDeflation`
  unfoldable pub handle_deflation : ℕ → World F → World F
  unfolding put
  handle_deflation q w = record w {
    timers =
        put q
          (record (w.timers q) {
            deflation = some (host.now + config.player.deflation_interval);
            deflating = true;
          })
          w.timers;
  }

  -- The handlers of the deflation timer: of `scheduleDeflation` in the first round, then of
  -- `handleDeflation`.
  unfoldable pub deflation_over : ℕ → World F → World F
  unfolding setup_all deflate_all handle_deflation
  deflation_over q w =
      let avatars = (player_at w q).avatars in
      handle_deflation q
        (if (w.timers q).deflating then deflate_all avatars w else setup_all avatars w)

  -- `Avatar::annihilate`: a virus with the mass of the avatar, in its place.
  unfoldable pub annihilate : ℕ → World F → World F
  unfolding create_cell grow write kill_cell
  annihilate p w =
      let a = cell_at w p in
      let new = fresh_cell config host w in
      let w = grow config host new a.mass (create_cell config host virus w) in
      kill_cell config host p
        (write new (record (cell_at w new) { position = a.position; color = a.color }) w)

  unfoldable pub annihilate_all : List ℕ → World F → World F
  unfolding annihilate
  annihilate_all [] w = w
  annihilate_all (p ∷ ps) w = annihilate_all ps (annihilate p w)

  -- `handleAnnihilation`, but for the handlers that the room has subscribed to it.
  unfoldable pub handle_annihilation : ℕ → World F → World F
  unfolding annihilate_all edit_player put
  handle_annihilation q w =
      let w' =
        edit_player q (λ player. record player { avatars = []; is_alive = false })
          (annihilate_all (player_at w q).avatars w) in
      record w' { timers = put q (record (w'.timers q) { deflation = none }) w'.timers }

  unfoldable pub attract_all : List ℕ → Vec2D F → World F → World F
  unfolding act apply_point_attraction_force
  attract_all [] point w = w
  attract_all (p ∷ ps) point w =
      attract_all ps point
        (act p (apply_point_attraction_force point config.player.pointer_force_ratio) w)

  unfoldable pub apply_pointer_force : ℕ → World F → World F
  unfolding attract_all is_nonzero ◌+V◌
  apply_pointer_force q w =
      let player = player_at w q in
      if is_nonzero player.pointer_offset
      then attract_all player.avatars (player.position +V player.pointer_offset) w
      else w
