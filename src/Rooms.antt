-- ===== src/Rooms.antt =====
-- src/RoomManager.cpp: the rooms, and which one a player gets. The mutex makes each operation one step. What a
-- room is and how it is made is a parameter: `init` and `start` of a new one, and `hasFreeSpace`.
pub mod Numbers
use the_game_server.Base.{
  ℕ, zero, suc, ◌+◌, ◌-◌, ◌*◌, ◌/◌, ◌%◌, ◌^◌, ◌≤◌, ◌<◌, min, max, ◌≡◌, refl, sym, ap, subst, ◌∙◌,
  ◌≢◌, ◌↔◌, ◌⊎◌, inl, inr, Bool, true, false, not, ◌&&◌, ◌||◌, Option, none, some, List, [], ◌∷◌,
  ◌++◌, map, arith, ltb, leb, ◌==◌, if◌then◌else◌, Bool-cases, Option-cases, length, take, drop,
  All, contains, insert, erase, count,
}

pub record RoomManager (R : Type 0) : Type 0 where
  -- The rooms with their numbers, in the order in which they were made.
  pub items : List (ℕ × R)
  pub next_id : ℕ
  pub threads : ℕ
  -- The guard that keeps the threads at work while there is no room.
  pub guarded : Bool

-- A manager as it is constructed.
unfoldable pub new_manager : {R : Type 0} → RoomManager R
new_manager = record { items = []; next_id = 1; threads = 0; guarded = true }

unfoldable pub start : {R : Type 0} → ℕ → RoomManager R → RoomManager R
start threads m = record m { threads = threads }

module _ {R : Type 0} where
  unfoldable pub stop_all : (R → R) → List (ℕ × R) → List (ℕ × R)
  stop_all stop_room [] = []
  stop_all stop_room ((id, room) ∷ rest) = (id, stop_room room) ∷ stop_all stop_room rest

  unfoldable pub stop : (R → R) → RoomManager R → RoomManager R
  unfolding stop_all
  stop stop_room m = record m { items = stop_all stop_room m.items; threads = 0 }

  unfoldable pub size : RoomManager R → ℕ
  size m = length m.items

module _ {R : Type 0} (make : ℕ → R) (has_free_space : R → Bool) where
  -- The first room that has free space.
  unfoldable pub find_free : List (ℕ × R) → Option (ℕ × R)
  find_free [] = none
  find_free ((id, room) ∷ rest) =
      let later = find_free rest in if has_free_space room then some (id, room) else later

  -- The number and the room that the caller gets.
  unfoldable pub obtain : RoomManager R → (ℕ × R) × RoomManager R
  unfolding find_free
  obtain m = elim (find_free m.items) [
    | some item ↦ (item, m)
    | none ↦
        (let item : ℕ × R = (m.next_id, make m.next_id) in
          (
            item,
            record m {
              items = m.items ++ item ∷ [];
              next_id = (m.next_id + 1) % 2 ^ 32;
              guarded = m.guarded && not (length m.items == 0);
            },
          ))
  ]
