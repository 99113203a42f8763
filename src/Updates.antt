-- ===== src/Updates.antt =====
-- `Room::update` of src/Room.cpp as a whole: the requests of the sessions, the forces of the players with
-- `recombine` of src/Player.cpp, the new cells, the motion, the meetings, and the two contexts.
pub mod Meetings
use the_game_server.World.{edit_player}
use the_game_server.Registries.Events.{synchronize}
use the_game_server.Standings.{keep_alive}
use the_game_server.Lives.Ageing.{calc_params, apply_pointer_force}
use the_game_server.Base.Options.{◌>>=◌}
use the_game_server.Base.{
  ℕ, zero, suc, ◌+◌, ◌-◌, ◌*◌, ◌/◌, ◌%◌, ◌^◌, ◌≤◌, ◌<◌, min, max, ◌≡◌, refl, sym, ap, subst, ◌∙◌,
  ◌≢◌, ◌↔◌, ◌⊎◌, inl, inr, Bool, true, false, not, ◌&&◌, ◌||◌, Option, none, some, List, [], ◌∷◌,
  ◌++◌, map, arith, ltb, leb, ◌==◌, if◌then◌else◌, Bool-cases, Option-cases, length, take, drop,
  All, contains, insert, erase, count,
}
use the_game_server.Base.Float.{Float, ◌+F◌, ◌*F◌, ◌-F◌}
use the_game_server.Config.{RoomConfig}
use the_game_server.World.{Host, World, act, with_player, write, cell_at, player_at}
use the_game_server.Geometry.{
  direction, Aabb, Vec2D, distance, ◌+V◌, ◌-V◌, ◌*V◌, is_nonzero, neg_vec,
}
use the_game_server.Gridmap.{Gridmap, clip, is_empty, cells_at, indices, rows_of, cols_of}
use the_game_server.Gridmap.Cells.{update_cell, visit}
use the_game_server.Interaction.Dispatch.{meet}
use the_game_server.Lives.Orders.{set_pointer_offset, eject, split}
use the_game_server.Registries.Activation.{activate, resolve_cell_position}
use the_game_server.Contexts.{run_contexts}
use the_game_server.Entity.{Cell, intersects, get_aabb}
use the_game_server.Entity.Avatars.{check_recombined}
use the_game_server.Entity.Motion.{apply_resistance_force, simulate}
use the_game_server.Gridmap.Search.{Visit}

module _ {F : Type 0} ⦃f : Float F⦄ where
  -- The part of its box that is on the map.
  abbrev pub reach : Gridmap F → Cell F → Aabb F
  reach g c = clip g (get_aabb c)

  -- The sectors that a cell's box reaches.
  unfoldable pub sectors_of : Gridmap F → Aabb F → List ℕ
  sectors_of g box = if is_empty box then [] else indices g (rows_of g box) (cols_of g box)

module _ {F : Type 0} ⦃f : Float F⦄ (config : RoomConfig F) (host : Host F) where
  -- A loop of `handlePlayerRequests`: what is asked of the player of a session, if it has one.
  unfoldable pub serve : (ℕ → Vec2D F → World F → World F) → List (ℕ × Vec2D F) → World F → World F
  unfolding with_player
  serve method [] w = w
  serve method ((sess, point) ∷ requests) w =
      serve method requests (with_player (w.audience.user_of sess).player (λ q. method q point) w)

  -- `handlePlayerRequests`
  unfoldable pub handle_player_requests : World F → World F
  unfolding serve set_pointer_offset eject split
  handle_player_requests w =
      let w = serve (set_pointer_offset config host) w.audience.move_requests w in
      let w = record w { audience = record w.audience { move_requests = [] } } in
      let w = serve (eject config host) w.audience.eject_requests w in
      let w = record w { audience = record w.audience { eject_requests = [] } } in
      let w = serve (split config host) w.audience.split_requests w in
      record w { audience = record w.audience { split_requests = [] } }

  unfoldable pub add_force : ℕ → Vec2D F → World F → World F
  unfolding write ◌+V◌
  add_force p force w = write p (record (cell_at w p) { force = (cell_at w p).force +V force }) w

  -- `initiator.isRecombined() && target.isRecombined()`: each remembers the answer, and the second one is
  -- asked only where the first one is recombined.
  unfoldable pub ask_recombined : ℕ → ℕ → World F → World F
  unfolding act check_recombined
  ask_recombined p q w =
      let w = act p (check_recombined host.now) w in
      if (cell_at w p).recombined then act q (check_recombined host.now) w else w

  -- `Player::recombine` of two avatars: they attract each other when they are recombined, and push each
  -- other away when they are not and touch.
  unfoldable pub recombine_pair : ℕ → ℕ → World F → World F
  unfolding ask_recombined add_force direction distance ◌-V◌ ◌*V◌ neg_vec
  recombine_pair p q w =
      let w = ask_recombined p q w in
      let a = cell_at w p in
      let b = cell_at w q in
      let way = direction (a.position -V b.position) in
      let apart = distance a.position b.position in
      let radius = a.radius +F b.radius in
      let pull = way *V ((a.mass +F b.mass) *F config.elasticity_ratio) in
      let push = way *V ((a.mass +F b.mass) *F (radius -F apart) *F config.elasticity_ratio) in
      if a.recombined && b.recombined
      then add_force q pull (add_force p (neg_vec pull) w)
      else if f.lt apart radius
      then add_force q (neg_vec push) (add_force p push w)
      else w

  -- The inner loop of `recombine`.
  unfoldable pub recombine_with : ℕ → List ℕ → World F → World F
  unfolding recombine_pair
  recombine_with p [] w = w
  recombine_with p (q ∷ qs) w =
      recombine_with p qs (if (cell_at w q).zombie then w else recombine_pair p q w)

  unfoldable pub recombine_all : List ℕ → World F → World F
  unfolding recombine_with
  recombine_all [] w = w
  recombine_all (p ∷ ps) w =
      recombine_all ps (if (cell_at w p).zombie then w else recombine_with p ps w)

  -- `Player::recombine`
  unfoldable pub recombine : ℕ → World F → World F
  unfolding recombine_all
  recombine q w =
      let avatars = (player_at w q).avatars in
      if ltb (length avatars) 2 then w else recombine_all avatars w

  -- The loop over the fighters.
  unfoldable pub steer : List ℕ → World F → World F
  unfolding apply_pointer_force recombine
  steer [] w = w
  steer (q ∷ qs) w = steer qs (recombine q (apply_pointer_force config host q w))

  -- `m_gridmap.update(cell)`
  unfoldable pub update_in_gridmap : ℕ → World F → Option (World F)
  unfolding update_cell write
  update_in_gridmap p w = do
    s ← update_cell p (record { grid = w.room.gridmap; cell = cell_at w p })
    some (write p s.cell (record w { room = record w.room { gridmap = s.grid } }))

  -- The body of the loop that moves the cells.
  unfoldable pub move_cell : F → ℕ → World F → Option (World F)
  unfolding act apply_resistance_force simulate resolve_cell_position is_nonzero update_in_gridmap
  move_cell dt p w =
      let w = act p apply_resistance_force w in
      let w =
        if is_nonzero (cell_at w p).force
        then record w { room = record w.room { modified = insert p w.room.modified } }
        else w in
      let w = act p (simulate dt) w in
      update_in_gridmap p (record w { room = resolve_cell_position config p w.room })

  unfoldable pub move_cells : F → List ℕ → World F → Option (World F)
  unfolding move_cell
  move_cells dt [] w = some w
  move_cells dt (p ∷ ps) w = do w' ← move_cell dt p w; move_cells dt ps w'

  -- The cells of a sector in the query of a cell that is at work: those that intersect the box at the time.
  unfoldable pub meet_cells : Aabb F → ℕ → List ℕ → World F → Visit (World F)
  unfolding meet intersects
  meet_cells box p [] w = record { state = w; goes_on = true }
  meet_cells box p (q ∷ qs) w =
      if intersects (cell_at w q) box
      then (let v = meet config host p q w in
          let rest = meet_cells box p qs v.state in if v.goes_on then rest else v)
      else meet_cells box p qs w

  -- The sectors of a map; no meeting changes the map itself.
  unfoldable pub meet_sectors : Gridmap F → Aabb F → ℕ → List ℕ → World F → Option (Visit (World F))
  unfolding meet_cells
  meet_sectors g box p [] w = some (record { state = w; goes_on = true })
  meet_sectors g box p (i ∷ is) w =
      let v = meet_cells box p (cells_at g.sectors i) w in
      let rest = meet_sectors g box p is v.state in
      if ltb i (length g.sectors) then (if v.goes_on then rest else some v) else none

  -- `m_gridmap.query(cell->getAABB(), ...)`
  unfoldable pub meet_neighbours : ℕ → World F → Option (World F)
  unfolding meet_sectors sectors_of
  meet_neighbours p w = do
    let g = w.room.gridmap
    let box = reach g (cell_at w p)
    v ← meet_sectors g box p (sectors_of g box) w
    some v.state

  -- The loop in which the cells at work meet the others.
  unfoldable pub meet_all : List ℕ → World F → Option (World F)
  unfolding meet_neighbours
  meet_all [] w = some w
  meet_all (p ∷ ps) w = do
    w' ← (if (cell_at w p).zombie then some w else meet_neighbours p w)
    meet_all ps w'

  unfoldable pub calc_all : List ℕ → World F → World F
  unfolding edit_player calc_params
  calc_all [] w = w
  calc_all (q ∷ qs) w = calc_all qs (edit_player q (calc_params config w.room.memory) w)

  -- `Room::synchronize`, but for the packets of `Player::synchronize`: the parameters of the fighters, the
  -- dead among them, and the registries.
  unfoldable pub synchronize_room : World F → World F
  unfolding calc_all keep_alive synchronize
  synchronize_room w =
      let v = calc_all w.audience.fighters w in
      record v {
        audience = record v.audience {
          fighters = keep_alive v.audience.player_of v.audience.fighters;
        };
        room = synchronize v.room;
      }

  -- `Room::update`, for the time since the last one and the fuel of the game's context. The map raises an
  -- exception when it gives none.
  unfoldable pub update : F → ℕ → World F → Option (World F)
  unfolding handle_player_requests steer activate move_cells meet_all run_contexts
  update dt fuel w = do
    let w1 = handle_player_requests w
    let w2 = steer w1.audience.fighters w1
    room ← activate config w2.room
    let w3 = record w2 { room = room }
    w4 ← move_cells dt w3.room.processing w3
    w5 ← meet_all w4.room.processing w4
    some (run_contexts config host fuel w5)
