-- ===== src/Rooms/Numbers.antt =====
-- The rooms that src/RoomManager.cpp makes: their numbers, and what a player gets.
use the_game_server.Base.{length-append, All, false, if_either}
use the_game_server.Base.{
  ℕ, ◌+◌, ◌%◌, ◌^◌, ◌<◌, ◌≡◌, refl, ap, subst, ◌⊎◌, inl, inr, Bool, true, not, ◌&&◌, Option, none,
  some, List, [], ◌∷◌, ◌++◌, arith, ◌==◌, length,
}
use the_game_server.Rooms.{RoomManager, find_free, obtain}

module _ {R : Type 0} (make : ℕ → R) (has_free_space : R → Bool) where
  -- The rooms are numbered one after the other.
  abbrev pub IsNumbered : ℕ → List (ℕ × R) → Type 0
  IsNumbered first [] = Unit
  IsNumbered first ((id, room) ∷ rest) = (id ≡ first) × IsNumbered (first + 1) rest

  numbered_append :
      (first : ℕ) (items : List (ℕ × R)) (room : R)
      → IsNumbered first items
      → IsNumbered first (items ++ (first + length items, room) ∷ [])
  numbered_append first [] room h = (omega arith, tt)
  numbered_append first ((id, r) ∷ rest) room h = (
    h.0,
    subst (λ n. IsNumbered (first + 1) (rest ++ (n, room) ∷ [])) (omega arith)
        (numbered_append (first + 1) rest room h.1),
  )

  -- A manager whose rooms have the numbers from 1 on, the next one being the number of rooms and one more.
  pub record IsSound (m : RoomManager R) : Type 0 where
    pub numbered : IsNumbered 1 m.items
    pub next : m.next_id ≡ length m.items + 1

  -- A room that has no free space.
  abbrev pub IsFull : ℕ × R → Type 0
  IsFull item = has_free_space item.1 ≡ false

  -- The first of the rooms that has free space.
  pub record IsFirstFree (items : List (ℕ × R)) (item : ℕ × R) : Type 0 where
    pub before : List (ℕ × R)
    pub after : List (ℕ × R)
    pub there : items ≡ before ++ item ∷ after
    pub full_before : All IsFull before
    pub free : has_free_space item.1 ≡ true

  -- What there is to find.
  Finds : List (ℕ × R) → Option (ℕ × R) → Type 0
  Finds items (some item) = IsFirstFree items item
  Finds items none = All IsFull items

  later_Finds :
      (item : ℕ × R) (rest : List (ℕ × R)) (x : Option (ℕ × R))
      → IsFull item
      → Finds rest x
      → Finds (item ∷ rest) x
  unfolding Finds
  later_Finds item rest (some y) full h = record {
    before = item ∷ h.before;
    after = h.after;
    there = ap (λ (is : List (ℕ × R)). item ∷ is) h.there;
    full_before = (full, h.full_before);
    free = h.free;
  }
  later_Finds item rest none full h = (full, h)

  find_free-Finds : (items : List (ℕ × R)) → Finds items (find_free make has_free_space items)
  unfolding find_free Finds
  find_free-Finds [] = tt
  find_free-Finds ((id, room) ∷ rest) =
      if_either (Finds ((id, room) ∷ rest)) (has_free_space room) (some (id, room))
        (find_free make has_free_space rest)
        (λ free. record { before = []; after = rest; there = refl; full_before = tt; free = free })
        (λ full. later_Finds (id, room) rest _ full (find_free-Finds rest))

  -- What is obtained from a sound manager that has numbers left: the first of its rooms that has free space,
  -- with the number that it has there, and the manager as it was; or, when no room has free space, a new room
  -- with the next number, after the others, in a sound manager.
  pub obtain-IsSound :
      (m : RoomManager R)
      → m.next_id + 1 < 2 ^ 32
      → IsSound m
      → let (item, m') = obtain make has_free_space m in
        IsSound m'
        × ((IsFirstFree m.items item × (m' ≡ m))
            ⊎ (All IsFull m.items
                × (item ≡ (length m.items + 1, make (length m.items + 1)))
                × (m'.items ≡ m.items ++ item ∷ [])))
  unfolding obtain Finds
  obtain-IsSound m room s = cases (find_free make has_free_space m.items) (find_free-Finds m.items)
    where
      cases :
          (x : Option (ℕ × R))
          → Finds m.items x
          → let (item, m') = elim x as (λ z. (ℕ × R) × RoomManager R) [
            | some item ↦ (item, m)
            | none ↦ (
              (m.next_id, make m.next_id),
              record m {
                items = m.items ++ (m.next_id, make m.next_id) ∷ [];
                next_id = (m.next_id + 1) % 2 ^ 32;
                guarded = m.guarded && not (length m.items == 0);
              },
            )
          ] in
            IsSound m'
            × ((IsFirstFree m.items item × (m' ≡ m))
                ⊎ (All IsFull m.items
                    × (item ≡ (length m.items + 1, make (length m.items + 1)))
                    × (m'.items ≡ m.items ++ item ∷ [])))
      cases (some item) found = (s, inl (found, refl))
      cases none full = (
        record {
          numbered =
              subst (λ n. IsNumbered 1 (m.items ++ (n, make m.next_id) ∷ []))
                (omega (arith, s.next)) (numbered_append 1 m.items (make m.next_id) s.numbered);
          next =
              omega (arith, s.next, room, length-append m.items ((m.next_id, make m.next_id) ∷ []));
        },
        inr (full, ap (λ n. (n, make n)) s.next, refl),
      )
