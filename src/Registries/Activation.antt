-- ===== src/Registries/Activation.antt =====
-- src/Room.cpp: how a cell is kept inside the room, and how new cells are put on the map.
use the_game_server.Base.{
  ℕ, Bool, true, false, ◌||◌, Option, some, List, [], ◌∷◌, if◌then◌else◌, insert,
}
use the_game_server.Base.Float.{Float, zero_f, ◌+F◌, ◌-F◌}
use the_game_server.Base.Options.{◌>>=◌}
use the_game_server.Geometry.{vec, is_nonzero}
use the_game_server.Config.{RoomConfig}
use the_game_server.Registries.{Registries, store}
use the_game_server.Gridmap.Cells.{insert_cell}

unfoldable pub insert_all : List ℕ → List ℕ → List ℕ
insert_all [] set = set
insert_all (p ∷ ps) set = insert_all ps (insert p set)

module _ {F : Type 0} ⦃f : Float F⦄ where
  -- The new position and velocity along an axis, and whether the cell has met an edge. The lower edge
  -- is at zero; the upper one is given.
  abbrev pub bounce : F → F → F → F → F × F × Bool
  bounce upper radius p v =
      let low = zero_f -F p +F radius in
      let high = p +F radius -F upper in
      if f.le zero_f low
      then (p +F low, f.neg v, true)
      else if f.le zero_f high
      then (p -F high, f.neg v, true)
      else (p, v, false)

  -- Both upper edges are at the width: `box.b.x` stands for the vertical axis too.
  unfoldable pub resolve_cell_position : RoomConfig F → ℕ → Registries F → Registries F
  resolve_cell_position config cell r =
      let c = r.memory cell in
      let upper = f.of_ℕ config.width in
      let (x, vx, at_side) = bounce upper c.radius c.position.x c.velocity.x in
      let (y, vy, at_end) = bounce upper c.radius c.position.y c.velocity.y in
      record r {
        memory = store cell (record c { position = vec x y; velocity = vec vx vy }) r.memory;
        modified = if at_side || at_end then insert cell r.modified else r.modified;
      }

  -- `m_gridmap.insert(cell)`
  unfoldable pub insert_into_gridmap : ℕ → Registries F → Option (Registries F)
  insert_into_gridmap cell r = do
    s ← insert_cell cell (record { grid = r.gridmap; cell = r.memory cell })
    some (record r { gridmap = s.grid; memory = store cell s.cell r.memory })

  -- The loop of `update` over the created cells.
  unfoldable pub place_created : RoomConfig F → List ℕ → Registries F → Option (Registries F)
  unfolding resolve_cell_position insert_into_gridmap
  place_created config [] r = some r
  place_created config (cell ∷ cells) r = do
    s ← insert_into_gridmap cell (resolve_cell_position config cell r)
    place_created config cells (
        if is_nonzero (s.memory cell).velocity
        then record s { processing = insert cell s.processing }
        else s)

  -- The part of `update` that puts the cells created and activated to work.
  unfoldable pub activate : RoomConfig F → Registries F → Option (Registries F)
  unfolding place_created insert_all
  activate config r = do
    s ← place_created config r.created_cells r
    some (record s {
      created_cells = [];
      processing = insert_all s.activated s.processing;
      activated = [];
    })
