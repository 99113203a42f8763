-- ===== src/Registries.antt =====
-- src/Room.cpp: how cells enter and leave the registries of a room. A pointer is a number and the
-- memory is a function from pointers to cells; `new` takes the address that the allocator gives. The
-- sets are lists without repetition.
pub mod Events
pub mod Activation
pub mod Sound
pub mod Moving
pub mod Creating
pub mod Dying
pub mod Clearing
pub mod History
use the_game_server.Base.{
  ℕ, zero, suc, ◌+◌, ◌-◌, ◌*◌, ◌/◌, ◌%◌, ◌^◌, ◌≤◌, ◌<◌, min, max, ◌≡◌, refl, sym, ap, subst, ◌∙◌,
  ◌≢◌, ◌↔◌, ◌⊎◌, inl, inr, Bool, true, false, not, ◌&&◌, ◌||◌, Option, none, some, List, [], ◌∷◌,
  ◌++◌, map, arith, ltb, leb, ◌==◌, if◌then◌else◌, Bool-cases, Option-cases, length, take, drop,
  All, contains, insert, erase, count,
}
use the_game_server.Base.{ℤ, pos, ◌+ℤ◌, ◌-ℤ◌}
use the_game_server.Base.Float.{Float, zero_f, ◌+F◌, ◌-F◌}
use the_game_server.Geometry.{Vec2D, Aabb, vec, zero_vec}
use the_game_server.Config.{RoomConfig}
use the_game_server.NextId.{NextId, fresh, push, pop}
use the_game_server.Entity.{Cell, Kind, avatar, bullet, food, mother, phage, virus}
use the_game_server.Gridmap.{Gridmap}
use the_game_server.Gridmap.Cells.{erase_cell, Placed}

pub record Registries (F : Type 0) : Type 0 where
  pub memory : ℕ → Cell F
  pub next_ids : NextId
  pub gridmap : Gridmap F
  pub cells : List ℕ
  pub viruses : List ℕ
  pub phages : List ℕ
  pub mothers : List ℕ
  pub processing : List ℕ
  pub for_random_position_check : List ℕ
  pub new_cells : List ℕ
  pub created_cells : List ℕ
  pub activated : List ℕ
  pub modified : List ℕ
  pub dead : List ℕ
  pub food_quantity : ℤ
  pub viruses_quantity : ℤ
  pub phages_quantity : ℤ
  pub mothers_quantity : ℤ
  pub mass : F
  pub update_leaderboard : Bool

-- `RegistryModificationOptions`, each of its bits.
pub record Options : Type 0 where
  pub random_position_check : Bool
  pub activated : Bool

abbrev pub options_none : Options
options_none = record { random_position_check = false; activated = false }

abbrev pub options_activated : Options
options_activated = record { random_position_check = false; activated = true }

abbrev pub options_all : Options
options_all = record { random_position_check = true; activated = true }

-- A write to memory.
unfoldable pub store : {F : Type 0} → ℕ → Cell F → (ℕ → Cell F) → ℕ → Cell F
store p c memory q = if p == q then c else memory q

module _ {F : Type 0} ⦃f : Float F⦄ where
  -- The constructors of the classes, at a time and with a number.
  unfoldable pub new_cell : RoomConfig F → Kind → ℕ → ℕ → Cell F
  new_cell config kind now id = record {
    position = zero_vec;
    radius = elim kind [ food ↦ f.of_ℕ config.food.radius | _ ↦ zero_f ];
    sectors = [];
    left_top_sector = none;
    right_bottom_sector = none;
    created = now;
    velocity = zero_vec;
    force = zero_vec;
    creator = none;
    player = none;
    mass = zero_f;
    resistance_ratio = elim kind [
      | food ↦ config.food.resistance_ratio
      | _ ↦ config.resistance_ratio
    ];
    id = id;
    kind = kind;
    color = elim kind [
      | virus ↦ config.virus.color % 2 ^ 8
      | phage ↦ config.phage.color % 2 ^ 8
      | mother ↦ config.mother.color % 2 ^ 8
      | _ ↦ 0
    ];
    newly = true;
    zombie = false;
    material_point = elim kind [ food ↦ true | _ ↦ false ];
    fusion_time = 0;
    max_velocity = zero_f;
    recombined = false;
    deflation_mass = zero_f;
    nearby_food_quantity = 0;
  }

  unfoldable pub update_new_cell_registries : ℕ → Options → Registries F → Registries F
  update_new_cell_registries cell options r = record r {
    cells = insert cell r.cells;
    new_cells = insert cell r.new_cells;
    created_cells = insert cell r.created_cells;
    activated = if options.activated then insert cell r.activated else r.activated;
    modified = insert cell r.modified;
    for_random_position_check =
        if options.random_position_check
        then insert cell r.for_random_position_check
        else r.for_random_position_check;
  }

  -- `new X(..., m_cellNextId.pop())`
  unfoldable pub allocate : RoomConfig F → Kind → ℕ → ℕ → Registries F → Registries F
  unfolding new_cell
  allocate config kind now cell r =
      let (id, next) = pop r.next_ids in
      record r { memory = store cell (new_cell config kind now id) r.memory; next_ids = next }

  unfoldable pub create_avatar : RoomConfig F → ℕ → ℕ → Registries F → Registries F
  unfolding update_new_cell_registries allocate
  create_avatar config now cell r =
      update_new_cell_registries cell options_all (allocate config avatar now cell r)

  unfoldable pub create_food : RoomConfig F → ℕ → ℕ → Registries F → Registries F
  create_food config now cell r =
      let s = update_new_cell_registries cell options_none (allocate config food now cell r) in
      record s { food_quantity = s.food_quantity +ℤ pos 1 }

  unfoldable pub create_bullet : RoomConfig F → ℕ → ℕ → Registries F → Registries F
  create_bullet config now cell r =
      update_new_cell_registries cell options_activated (allocate config bullet now cell r)

  unfoldable pub create_virus : RoomConfig F → ℕ → ℕ → Registries F → Registries F
  create_virus config now cell r =
      let s = update_new_cell_registries cell options_all (allocate config virus now cell r) in
      record s { viruses = insert cell s.viruses; viruses_quantity = s.viruses_quantity +ℤ pos 1 }

  unfoldable pub create_phage : RoomConfig F → ℕ → ℕ → Registries F → Registries F
  create_phage config now cell r =
      let s = update_new_cell_registries cell options_all (allocate config phage now cell r) in
      record s { phages = insert cell s.phages; phages_quantity = s.phages_quantity +ℤ pos 1 }

  unfoldable pub create_mother : RoomConfig F → ℕ → ℕ → Registries F → Registries F
  create_mother config now cell r =
      let s = update_new_cell_registries cell options_all (allocate config mother now cell r) in
      record s { mothers = insert cell s.mothers; mothers_quantity = s.mothers_quantity +ℤ pos 1 }

  unfoldable pub create : Kind → RoomConfig F → ℕ → ℕ → Registries F → Registries F
  create avatar = create_avatar
  create food = create_food
  create bullet = create_bullet
  create virus = create_virus
  create phage = create_phage
  create mother = create_mother

  -- `m_gridmap.erase(cell)`
  unfoldable pub erase_from_gridmap : ℕ → Registries F → Registries F
  erase_from_gridmap cell r =
      let s : Placed F = erase_cell cell (record { grid = r.gridmap; cell = r.memory cell }) in
      record r { gridmap = s.grid; memory = store cell s.cell r.memory }

  unfoldable pub prepare_cell_for_destruction : ℕ → Registries F → Registries F
  unfolding erase_from_gridmap
  prepare_cell_for_destruction cell r = erase_from_gridmap cell (record r {
    dead = r.dead ++ cell ∷ [];
    processing = erase cell r.processing;
    for_random_position_check = erase cell r.for_random_position_check;
    new_cells = erase cell r.new_cells;
    created_cells = erase cell r.created_cells;
    activated = erase cell r.activated;
    modified = erase cell r.modified;
  })

  -- `delete cell` frees the address.
  unfoldable pub remove_cell : ℕ → Registries F → Registries F
  remove_cell cell r = record r {
    mass = r.mass -F (r.memory cell).mass;
    next_ids = push r.next_ids (r.memory cell).id;
    cells = erase cell r.cells;
  }
