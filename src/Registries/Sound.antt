-- ===== src/Registries/Sound.antt =====
-- What the registries of src/Room.cpp agree on between two events.
use the_game_server.Base.{
  ℕ, ◌+◌, ◌≤◌, ◌≡◌, Bool, true, ◌&&◌, ltb, leb, ◌==◌, if◌then◌else◌, length, contains, count, ◌<◌,
  ◌^◌,
}
use the_game_server.Base.{pos}
use the_game_server.Entity.{Kind, kind_code, food, virus, phage, mother, Cell}
use the_game_server.Registries.{Registries, create}
use the_game_server.Counting.{number}
use the_game_server.Base.Float.{Float}
use the_game_server.Config.{RoomConfig}
use the_game_server.Registries.Events.{
  on_death, on_motion_started, on_motion_stopped, on_mass_change, synchronize,
}

module _ {F : Type 0} where
  -- A cell that is registered and does not wait for its removal.
  abbrev pub live : Registries F → ℕ → Bool
  live r p = leb 1 (count p r.cells) && count p r.dead == 0

  abbrev pub is_kind : Registries F → Kind → ℕ → Bool
  is_kind r k p = kind_code (r.memory p).kind == kind_code k

  abbrev pub live_kind : Registries F → Kind → ℕ → Bool
  live_kind r k p = is_kind r k p && live r p

  -- The numbers of the registered cells.
  abbrev pub numbered : (ℕ → Cell F) → ℕ → ℕ → Bool
  numbered memory a p = (memory p).id == a

  -- The sets have no repetition. A dead cell waits once and is still registered, each registry of work
  -- holds live cells only, and the three sets of a kind hold the live cells of it. The four quantities are
  -- the numbers of live cells of their kinds. Each number from 1 up to the next one is that of one
  -- registered cell, or waits once for reuse.
  pub record IsSound (r : Registries F) : Type 0 where
    pub once : (p : ℕ) → count p r.cells ≤ 1
    pub dead_once : (p : ℕ) → count p r.dead ≤ count p r.cells
    pub processing_live : (p : ℕ) → contains p r.processing ≡ true → live r p ≡ true
    pub random_live : (p : ℕ) → contains p r.for_random_position_check ≡ true → live r p ≡ true
    pub new_live : (p : ℕ) → contains p r.new_cells ≡ true → live r p ≡ true
    pub created_live : (p : ℕ) → contains p r.created_cells ≡ true → live r p ≡ true
    pub activated_live : (p : ℕ) → contains p r.activated ≡ true → live r p ≡ true
    pub modified_live : (p : ℕ) → contains p r.modified ≡ true → live r p ≡ true
    pub viruses_live : (p : ℕ) → count p r.viruses ≡ (if live_kind r virus p then 1 else 0)
    pub phages_live : (p : ℕ) → count p r.phages ≡ (if live_kind r phage p then 1 else 0)
    pub mothers_live : (p : ℕ) → count p r.mothers ≡ (if live_kind r mother p then 1 else 0)
    pub foods_size : r.food_quantity ≡ pos (number (live_kind r food) r.cells)
    pub viruses_size : r.viruses_quantity ≡ pos (length r.viruses)
    pub phages_size : r.phages_quantity ≡ pos (length r.phages)
    pub mothers_size : r.mothers_quantity ≡ pos (length r.mothers)
    pub first : 1 ≤ r.next_ids.next_id
    pub parted :
        (a : ℕ)
        → number (numbered r.memory a) r.cells + count a r.next_ids.unused_ids
          ≡ (if leb 1 a && ltb a r.next_ids.next_id then 1 else 0)

-- The events, `created` with the kind, the address of the new cell and the time.
pub data Event (F : Type 0) : Type 0 where
  created : Kind → ℕ → ℕ → Event F
  died started stopped : ℕ → Event F
  mass_changed : ℕ → F → Event F
  cleared : Event F

module _ {F : Type 0} ⦃f : Float F⦄ where
  unfoldable pub step : RoomConfig F → Event F → Registries F → Registries F
  step config (created k p now) r = create k config now p r
  step config (died p) r = on_death (r.memory p).kind p r
  step config (started p) r = on_motion_started p r
  step config (stopped p) r = on_motion_stopped p r
  step config (mass_changed p delta) r = on_mass_change (r.memory p).kind p delta r
  step config cleared r = synchronize r

  -- The allocator gives an address that no registered cell has, and a number is left; the other events
  -- are of a live cell.
  unfoldable pub Allowed : Event F → Registries F → Type 0
  Allowed (created k p now) r = (count p r.cells ≡ 0) × (r.next_ids.next_id + 1 < 2 ^ 32)
  Allowed (died p) r = live r p ≡ true
  Allowed (started p) r = live r p ≡ true
  Allowed (stopped p) r = live r p ≡ true
  Allowed (mass_changed p delta) r = live r p ≡ true
  Allowed cleared r = Unit
