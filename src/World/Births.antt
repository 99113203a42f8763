-- ===== src/World/Births.antt =====
-- src/Room.cpp and src/entity/Cell.cpp: the creation and the death of a cell keep a room orderly.
use the_game_server.Base.{
  ℕ, ◌+◌, ◌^◌, ◌≤◌, ◌<◌, ◌≡◌, refl, true, false, List, [], ◌∷◌, arith, ◌==◌, if◌then◌else◌, All,
  insert, count,
}
use the_game_server.Base.Float.{Float}
use the_game_server.NextId.{pop, pop_from}
use the_game_server.Config.{RoomConfig}
use the_game_server.Registries.{
  Registries, create, create_avatar, create_food, store, create_bullet, create_virus, create_phage,
  create_mother, update_new_cell_registries, allocate, new_cell,
}
use the_game_server.World.{Host, act, create_cell, write, World, post_all, post, cell_at}
use the_game_server.Entity.Motion.{Emitted, kill}
use the_game_server.Registries.Sound.{IsSound, live}
use the_game_server.Entity.{Kind}
use the_game_server.Counting.{count-insert, count-append, count-contains}
use the_game_server.World.Orderly.{IsOrderly, Passes, nobody, write-IsSound}
use the_game_server.Registries.Creating.{create-IsSound}

pop_next : (ids : List ℕ) (next : ℕ) → (pop_from ids next).1.next_id ≤ next + 1
unfolding pop_from
pop_next [] next = omega arith
pop_next (id ∷ ids) next = omega arith

module _ {F : Type 0} ⦃f : Float F⦄ (config : RoomConfig F) where
  -- What a creation leaves of the room, whatever the kind.
  record IsBorn (p : ℕ) (r s : Registries F) : Type 0 where
    pub cells : s.cells ≡ insert p r.cells
    pub dead : s.dead ≡ r.dead
    pub others : (q : ℕ) → (p == q) ≡ false → s.memory q ≡ r.memory q
    pub alive : (s.memory p).zombie ≡ false
    pub numbers : s.next_ids.next_id ≤ r.next_ids.next_id + 1

  create-IsBorn :
      (kind : Kind) (now p : ℕ) (r : Registries F) → IsBorn p r (create kind config now p r)
  unfolding create create_avatar create_food create_bullet create_virus create_phage create_mother
      update_new_cell_registries allocate new_cell store pop
  create-IsBorn Kind.avatar now p r = record {
    cells = refl;
    dead = refl;
    others = λ q h. ground arith;
    alive = ground arith;
    numbers = pop_next r.next_ids.unused_ids r.next_ids.next_id;
  }
  create-IsBorn Kind.food now p r = record {
    cells = refl;
    dead = refl;
    others = λ q h. ground arith;
    alive = ground arith;
    numbers = pop_next r.next_ids.unused_ids r.next_ids.next_id;
  }
  create-IsBorn Kind.bullet now p r = record {
    cells = refl;
    dead = refl;
    others = λ q h. ground arith;
    alive = ground arith;
    numbers = pop_next r.next_ids.unused_ids r.next_ids.next_id;
  }
  create-IsBorn Kind.virus now p r = record {
    cells = refl;
    dead = refl;
    others = λ q h. ground arith;
    alive = ground arith;
    numbers = pop_next r.next_ids.unused_ids r.next_ids.next_id;
  }
  create-IsBorn Kind.phage now p r = record {
    cells = refl;
    dead = refl;
    others = λ q h. ground arith;
    alive = ground arith;
    numbers = pop_next r.next_ids.unused_ids r.next_ids.next_id;
  }
  create-IsBorn Kind.mother now p r = record {
    cells = refl;
    dead = refl;
    others = λ q h. ground arith;
    alive = ground arith;
    numbers = pop_next r.next_ids.unused_ids r.next_ids.next_id;
  }

  pub All-live :
      (r s : Registries F) (es : List (ℕ × Emitted F))
      → ((q : ℕ) → live r q ≡ true → live s q ≡ true)
      → All (λ e. live r e.0 ≡ true) es
      → All (λ e. live s e.0 ≡ true) es
  All-live r s [] more h = tt
  All-live r s (e ∷ es) more h = (more e.0 h.0, All-live r s es more h.1)

  born_live :
      (p : ℕ) (r s : Registries F) (q : ℕ)
      → IsBorn p r s
      → count p r.cells ≡ 0
      → IsSound r
      → live s q ≡ (if p == q then true else live r q)
  born_live p r s q b unused o =
      rw (b.cells, b.dead)
        (ground (arith, count-insert p q r.cells, count-contains p r.cells, o.dead_once p))

  module _ (host : Host F) where
    -- The allocator gives an address that is not in use.
    pub create-Passes :
        (kind : Kind) (w : World F)
        → ((cells : List ℕ) → count (host.address cells) cells ≡ 0)
        → w.room.next_ids.next_id + 1 < 2 ^ 32
        → IsOrderly w
        → Passes nobody 1 w (create_cell config host kind w)
          × (live (create_cell config host kind w).room (host.address w.room.cells) ≡ true)
          × ((cell_at (create_cell config host kind w) (host.address w.room.cells)).zombie ≡ false)
    unfolding create_cell
    create-Passes kind w fresh room o =
        let p = host.address w.room.cells in
        let s = create kind config host.now p w.room in
        let b = create-IsBorn kind host.now p w.room in
        let alive = λ (q : ℕ). born_live p w.room s q b (fresh w.room.cells) o.sound in
        let same = λ (q : ℕ). b.others q in
        (
          record {
            orderly = record {
              sound =
                  create-IsSound config kind host.now p w.room (fresh w.room.cells) room o.sound;
              game_live = All-live w.room s w.game (λ q h. ground (arith, alive q)) o.game_live;
              deaths_once = λ q.
                  ground (arith, o.deaths_once q, alive q, same q, b.alive, fresh w.room.cells);
            };
            stays = λ q h. ground (arith, alive q);
            spared = λ q h d. ground (arith, same q, fresh w.room.cells);
            numbers = b.numbers;
          },
          ground (arith, alive p),
          b.alive,
        )

  -- A live cell that is not killed yet.
  pub kill-Passes :
      (p : ℕ) (w : World F)
      → live w.room p ≡ true
      → (cell_at w p).zombie ≡ false
      → IsOrderly w
      → Passes (λ q. p == q) 0 w (act p kill w)
  unfolding act write store post_all post kill count
  kill-Passes p w l z o = record {
    orderly = record {
      sound = write-IsSound p (record (cell_at w p) { zombie = true }) w.room refl refl o.sound;
      game_live = o.game_live;
      deaths_once = λ q. ground (arith, o.deaths_once q, count-append q w.deaths (p ∷ []));
    };
    stays = λ q h. h;
    spared = λ q h d. ground arith;
    numbers = omega arith;
  }
