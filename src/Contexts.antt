-- ===== src/Contexts.antt =====
-- The two contexts of a room at the end of `Room::update`, src/Room.cpp: `m_gameContext.run()` and then
-- `m_deathContext.run()`, with the handlers of src/Room.cpp and the explosion of src/entity/Mother.cpp.
pub mod Settling
pub mod Weights
pub mod Ending
pub mod Throwing
pub mod Running
pub mod Deaths
use the_game_server.Base.{Option, none}
use the_game_server.Entity.{Kind, avatar, virus, phage, mother}
use the_game_server.Entity.Motion.{
  Emitted, mass_changed, motion_started, motion_stopped, died, modify_velocity,
}
use the_game_server.Lives.{remove_avatar}
use the_game_server.Interaction.{grow}
use the_game_server.World.{
  Host, World, with_player, cell_at, fresh_cell, create_cell, act, write, random_direction, draw,
}
use the_game_server.Base.{ℕ, zero, suc, ◌-◌, ◌*◌, ◌/◌, List, [], ◌∷◌, ◌==◌, if◌then◌else◌}
use the_game_server.Base.Float.{Float}
use the_game_server.Config.{RoomConfig}
use the_game_server.Entity.{Cell}
use the_game_server.Registries.{Registries}
use the_game_server.Registries.Events.{
  on_cell_mass_change, on_death, on_mass_change, on_motion_started, on_motion_stopped,
}
use the_game_server.Geometry.{◌*V◌}

module _ {F : Type 0} ⦃f : Float F⦄ (config : RoomConfig F) (host : Host F) where
  -- `static_cast<int>(mass) / singleMass - 1`, and 0 for less. The mass of one is positive: the language
  -- leaves a division by 0 undefined.
  abbrev pub splits : Cell F → ℕ
  splits c = f.to_ℕ c.mass / config.mother.mass - 1

  -- The body of the loop of `Mother::explode`.
  unfoldable pub throw_mother : ℕ → World F → World F
  unfolding create_cell write grow act modify_velocity random_direction ◌*V◌
  throw_mother p w =
      let new = fresh_cell config host w in
      let w = create_cell config host mother w in
      let w = write new (record (cell_at w new) { position = (cell_at w p).position }) w in
      let w = grow config host new (f.of_ℕ config.mother.mass) w in
      let way = random_direction host w in
      act new (modify_velocity (way *V f.of_ℕ config.explode_velocity)) (draw w)

  unfoldable pub throw_mothers : ℕ → ℕ → World F → World F
  unfolding throw_mother
  throw_mothers zero p w = w
  throw_mothers (suc n) p w = throw_mothers n p (throw_mother p w)

  -- `Mother::explode`
  unfoldable pub explode_mother : ℕ → World F → World F
  unfolding throw_mothers grow
  explode_mother p w =
      let n = splits (cell_at w p) in
      let rest =
        throw_mothers n p (grow config host p (f.neg (f.of_ℕ (n * config.mother.mass))) w) in
      if n == 0 then w else rest

  -- A handler that changes the registries.
  abbrev pub in_room : (Registries F → Registries F) → World F → World F
  in_room g w = record w { room = g w.room }

  unfoldable pub on_mother_mass_change : ℕ → F → World F → World F
  unfolding on_cell_mass_change explode_mother
  on_mother_mass_change p delta w =
      let w' = in_room (on_cell_mass_change p delta) w in
      if f.le (f.of_ℕ config.mother.max_mass) (cell_at w' p).mass then explode_mother p w' else w'

  -- The handlers that a cell of a kind has subscribed to its changes of mass.
  unfoldable pub handle_mass : Kind → ℕ → F → World F → World F
  unfolding on_mass_change on_mother_mass_change
  handle_mass mother p delta w = on_mother_mass_change p delta w
  handle_mass kind p delta w = in_room (on_mass_change kind p delta) w

  -- Food, bullets and mothers do not subscribe to the beginning of a motion.
  unfoldable pub handle_start : Kind → ℕ → World F → World F
  unfolding on_motion_started
  handle_start avatar p w = in_room (on_motion_started p) w
  handle_start virus p w = in_room (on_motion_started p) w
  handle_start phage p w = in_room (on_motion_started p) w
  handle_start _ p w = w

  -- A handler of the game; a death waits in the other context.
  unfoldable pub handle : ℕ → Emitted F → World F → World F
  unfolding handle_mass handle_start on_motion_stopped
  handle p (mass_changed delta) w = handle_mass (cell_at w p).kind p delta w
  handle p motion_started w = handle_start (cell_at w p).kind p w
  handle p motion_stopped w = in_room (on_motion_stopped p) w
  handle p died w = w

  -- `m_gameContext.run()`: handlers may post more, which run as well.
  unfoldable pub run_game : ℕ → World F → World F
  unfolding handle
  run_game zero w = w
  run_game (suc n) w = elim w.game [
    | [] ↦ w
    | (p, e) ∷ es ↦ run_game n (handle p e (record w { game = es }))
  ]

  -- The player that has subscribed to the death of a cell: that of an avatar, while a bullet, which has a
  -- player as well, is of the room alone.
  abbrev pub mourner : Cell F → Option ℕ
  mourner c = elim c.kind [ avatar ↦ c.player | _ ↦ none ]

  -- `m_deathContext.run()`: the room's handler and that of the player of an avatar.
  unfoldable pub handle_death : ℕ → World F → World F
  unfolding on_death with_player remove_avatar
  handle_death p w =
      with_player (mourner (cell_at w p)) (λ q. remove_avatar q p)
        (in_room (on_death (cell_at w p).kind p) w)

  unfoldable pub run_deaths : List ℕ → World F → World F
  unfolding handle_death
  run_deaths [] w = w
  run_deaths (p ∷ ps) w = run_deaths ps (handle_death p w)

  unfoldable pub run_contexts : ℕ → World F → World F
  unfolding run_game run_deaths
  run_contexts fuel w = let w' = run_game fuel w in run_deaths w'.deaths (record w' { deaths = [] })
