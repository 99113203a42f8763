-- ===== src/Registries/Creating.antt =====
-- src/Room.cpp: the creation of a cell keeps the registries sound.
use the_game_server.Base.{
  ℕ, ◌+◌, ◌^◌, ◌≤◌, ◌<◌, ◌≡◌, refl, sym, ap, ◌∙◌, Bool, false, ◌&&◌, List, [], ◌∷◌, arith, ltb, leb,
  ◌==◌, if◌then◌else◌, length, insert, count, ◌+ℤ◌,
}
use the_game_server.Base.{ℤ, pos, contains-insert}
use the_game_server.Base.Float.{Float}
use the_game_server.Entity.{Kind, kind_code, virus, phage, mother, food, avatar, bullet}
use the_game_server.Config.{RoomConfig}
use the_game_server.NextId.{pop, pop_from}
use the_game_server.Registries.{
  Registries, store, create, create_avatar, create_food, create_bullet, create_virus, create_phage,
  create_mother, Options, update_new_cell_registries, allocate, new_cell, options_all, options_none,
  options_activated,
}
use the_game_server.Registries.Sound.{live_kind, IsSound, numbered}
use the_game_server.Counting.{
  number, number-insert, number-ext, count-insert, length-insert, count-contains,
}

-- A new member adds one to the members that pass, if it passes.
number-joined :
    (test test' : ℕ → Bool) (p : ℕ) (passes : Bool) (ps : List ℕ)
    → count p ps ≡ 0
    → ((q : ℕ) → test' q ≡ (if p == q then passes else test q))
    → number test' (insert p ps) ≡ (if passes then number test ps + 1 else number test ps)
number-joined test test' p passes ps h t = ground (
  arith,
  t p,
  number-insert test' p ps (ground (arith, count-contains p ps)),
  number-ext test' test ps (λ q m. ground (arith, t q)),
)

pop_first :
    (ids : List ℕ) (next : ℕ) → next + 1 < 2 ^ 32 → 1 ≤ next → 1 ≤ (pop_from ids next).1.next_id
unfolding pop_from
pop_first [] next room h = ground arith
pop_first (id ∷ ids) next room h = h

pop_parted :
    (ids : List ℕ) (next a held : ℕ)
    → 1 ≤ next
    → next + 1 < 2 ^ 32
    → held + count a ids ≡ (if leb 1 a && ltb a next then 1 else 0)
    → (if (pop_from ids next).0 == a then 1 else 0)
        + held
        + count a (pop_from ids next).1.unused_ids
      ≡ (if leb 1 a && ltb a (pop_from ids next).1.next_id then 1 else 0)
unfolding pop_from count
pop_parted [] next a held first room h = ground arith
pop_parted (id ∷ ids) next a held first room h = ground arith

more_food : (n : ℤ) (m : ℕ) → n ≡ pos m → n +ℤ pos 1 ≡ pos (m + 1)
unfolding ◌+ℤ◌
more_food n m e = rw e (ground arith)

module _ {F : Type 0} ⦃f : Float F⦄ where
  -- A new cell on the registries, with these sets and quantities of the kinds.
  abbrev enrolled :
      RoomConfig F
      → Kind
      → Options
      → ℕ
      → ℕ
      → Registries F
      → List ℕ
      → List ℕ
      → List ℕ
      → ℤ
      → ℤ
      → ℤ
      → ℤ
      → Registries F
  enrolled config k options now p r vs ps ms fq vq pq mq =
      record (update_new_cell_registries p options (allocate config k now p r)) {
        viruses = vs;
        phages = ps;
        mothers = ms;
        food_quantity = fq;
        viruses_quantity = vq;
        phages_quantity = pq;
        mothers_quantity = mq;
      }

  -- A set of the live cells of a kind, with the new cell if it is of that kind.
  abbrev Joined : Kind → Kind → ℕ → Registries F → List ℕ → Type 0
  Joined k kind p r xs =
      (q : ℕ)
      → count q xs
        ≡ (if (if p == q then kind_code k == kind_code kind else live_kind r kind q) then 1 else 0)

  enrolled-IsSound :
      (config : RoomConfig F) (k : Kind) (options : Options) (now p : ℕ) (r : Registries F)
      (vs ps ms : List ℕ) (fq vq pq mq : ℤ)
      → count p r.cells ≡ 0
      → r.next_ids.next_id + 1 < 2 ^ 32
      → Joined k virus p r vs
      → Joined k phage p r ps
      → Joined k mother p r ms
      → fq
        ≡ pos (
            if kind_code k == kind_code food
            then number (live_kind r food) r.cells + 1
            else number (live_kind r food) r.cells)
      → vq ≡ pos (length vs)
      → pq ≡ pos (length ps)
      → mq ≡ pos (length ms)
      → IsSound r
      → IsSound (enrolled config k options now p r vs ps ms fq vq pq mq)
  unfolding update_new_cell_registries allocate new_cell store pop pop_from
  enrolled-IsSound config k options now p r vs ps ms fq vq pq mq unused room hv hp hm lf lv lp lm
        s =
      record {
        once = λ q. ground (arith, s.once q, count-insert p q r.cells, count-contains p r.cells);
        dead_once = λ q. ground (arith, s.dead_once q, count-insert p q r.cells);
        processing_live = λ q. ground (arith, s.processing_live q, count-insert p q r.cells);
        random_live = λ q. ground (
          arith,
          s.random_live q,
          s.dead_once q,
          contains-insert p q r.for_random_position_check,
          count-insert p q r.cells,
          count-contains p r.cells,
        );
        new_live = λ q. ground (
          arith,
          s.new_live q,
          s.dead_once q,
          contains-insert p q r.new_cells,
          count-insert p q r.cells,
          count-contains p r.cells,
        );
        created_live = λ q. ground (
          arith,
          s.created_live q,
          s.dead_once q,
          contains-insert p q r.created_cells,
          count-insert p q r.cells,
          count-contains p r.cells,
        );
        activated_live = λ q. ground (
          arith,
          s.activated_live q,
          s.dead_once q,
          contains-insert p q r.activated,
          count-insert p q r.cells,
          count-contains p r.cells,
        );
        modified_live = λ q. ground (
          arith,
          s.modified_live q,
          s.dead_once q,
          contains-insert p q r.modified,
          count-insert p q r.cells,
          count-contains p r.cells,
        );
        viruses_live = λ q.
            ground (arith, hv q, s.dead_once p, count-insert p q r.cells, count-contains p r.cells);
        phages_live = λ q.
            ground (arith, hp q, s.dead_once p, count-insert p q r.cells, count-contains p r.cells);
        mothers_live = λ q.
            ground (arith, hm q, s.dead_once p, count-insert p q r.cells, count-contains p r.cells);
        foods_size =
            lf
            ∙ ap pos (
                sym (
                  number-joined (live_kind r food) _ p (kind_code k == kind_code food) r.cells
                    unused
                    (λ q.
                      ground (
                        arith,
                        s.dead_once p,
                        count-insert p q r.cells,
                        count-contains p r.cells,
                      ))));
        viruses_size = lv;
        phages_size = lp;
        mothers_size = lm;
        first = pop_first r.next_ids.unused_ids r.next_ids.next_id room s.first;
        parted = λ a. ground (
          arith,
          number-joined (numbered r.memory a)
              (numbered (store p (new_cell config k now (pop r.next_ids).0) r.memory) a) p
              ((pop r.next_ids).0 == a) r.cells unused (λ q. ground arith),
          pop_parted r.next_ids.unused_ids r.next_ids.next_id a
              (number (numbered r.memory a) r.cells) s.first room (s.parted a),
        );
      }

  other-Joined :
      (k kind : Kind) (p : ℕ) (r : Registries F) (xs : List ℕ)
      → kind_code k == kind_code kind ≡ false
      → count p r.cells ≡ 0
      → ((q : ℕ) → count q xs ≡ (if live_kind r kind q then 1 else 0))
      → Joined k kind p r xs
  other-Joined k kind p r xs other unused h q = ground (arith, h q)

  insert-Joined :
      (k : Kind) (p : ℕ) (r : Registries F) (xs : List ℕ)
      → count p r.cells ≡ 0
      → ((q : ℕ) → count q xs ≡ (if live_kind r k q then 1 else 0))
      → Joined k k p r (insert p xs)
  insert-Joined k p r xs unused h q =
      ground (arith, h q, h p, count-insert p q xs, count-contains p xs)

  insert-size :
      (k : Kind) (p : ℕ) (r : Registries F) (xs : List ℕ) (n : ℤ)
      → count p r.cells ≡ 0
      → ((q : ℕ) → count q xs ≡ (if live_kind r k q then 1 else 0))
      → n ≡ pos (length xs)
      → n +ℤ pos 1 ≡ pos (length (insert p xs))
  unfolding ◌+ℤ◌
  insert-size k p r xs n unused h e =
      rw e (ground (arith, h p, length-insert p xs, count-contains p xs))

  pub create-IsSound :
      (config : RoomConfig F) (k : Kind) (now p : ℕ) (r : Registries F)
      → count p r.cells ≡ 0
      → r.next_ids.next_id + 1 < 2 ^ 32
      → IsSound r
      → IsSound (create k config now p r)
  unfolding create create_avatar create_food create_bullet create_virus create_phage create_mother
      kind_code
  create-IsSound config Kind.avatar now p r unused room s =
      enrolled-IsSound config avatar options_all now p r r.viruses r.phages r.mothers
        r.food_quantity r.viruses_quantity r.phages_quantity r.mothers_quantity unused room
        (other-Joined avatar virus p r r.viruses refl unused s.viruses_live)
        (other-Joined avatar phage p r r.phages refl unused s.phages_live)
        (other-Joined avatar mother p r r.mothers refl unused s.mothers_live) s.foods_size
        s.viruses_size s.phages_size s.mothers_size s
  create-IsSound config Kind.food now p r unused room s =
      enrolled-IsSound config food options_none now p r r.viruses r.phages r.mothers
        (r.food_quantity +ℤ pos 1) r.viruses_quantity r.phages_quantity r.mothers_quantity unused
        room (other-Joined food virus p r r.viruses refl unused s.viruses_live)
        (other-Joined food phage p r r.phages refl unused s.phages_live)
        (other-Joined food mother p r r.mothers refl unused s.mothers_live)
        (more_food r.food_quantity (number (live_kind r food) r.cells) s.foods_size) s.viruses_size
        s.phages_size s.mothers_size s
  create-IsSound config Kind.bullet now p r unused room s =
      enrolled-IsSound config bullet options_activated now p r r.viruses r.phages r.mothers
        r.food_quantity r.viruses_quantity r.phages_quantity r.mothers_quantity unused room
        (other-Joined bullet virus p r r.viruses refl unused s.viruses_live)
        (other-Joined bullet phage p r r.phages refl unused s.phages_live)
        (other-Joined bullet mother p r r.mothers refl unused s.mothers_live) s.foods_size
        s.viruses_size s.phages_size s.mothers_size s
  create-IsSound config Kind.virus now p r unused room s =
      enrolled-IsSound config virus options_all now p r (insert p r.viruses) r.phages r.mothers
        r.food_quantity (r.viruses_quantity +ℤ pos 1) r.phages_quantity r.mothers_quantity unused
        room (insert-Joined virus p r r.viruses unused s.viruses_live)
        (other-Joined virus phage p r r.phages refl unused s.phages_live)
        (other-Joined virus mother p r r.mothers refl unused s.mothers_live) s.foods_size
        (insert-size virus p r r.viruses r.viruses_quantity unused s.viruses_live s.viruses_size)
        s.phages_size s.mothers_size s
  create-IsSound config Kind.phage now p r unused room s =
      enrolled-IsSound config phage options_all now p r r.viruses (insert p r.phages) r.mothers
        r.food_quantity r.viruses_quantity (r.phages_quantity +ℤ pos 1) r.mothers_quantity unused
        room (other-Joined phage virus p r r.viruses refl unused s.viruses_live)
        (insert-Joined phage p r r.phages unused s.phages_live)
        (other-Joined phage mother p r r.mothers refl unused s.mothers_live) s.foods_size
        s.viruses_size
        (insert-size phage p r r.phages r.phages_quantity unused s.phages_live s.phages_size)
        s.mothers_size s
  create-IsSound config Kind.mother now p r unused room s =
      enrolled-IsSound config mother options_all now p r r.viruses r.phages (insert p r.mothers)
        r.food_quantity r.viruses_quantity r.phages_quantity (r.mothers_quantity +ℤ pos 1) unused
        room (other-Joined mother virus p r r.viruses refl unused s.viruses_live)
        (other-Joined mother phage p r r.phages refl unused s.phages_live)
        (insert-Joined mother p r r.mothers unused s.mothers_live) s.foods_size s.viruses_size
        s.phages_size
        (insert-size mother p r r.mothers r.mothers_quantity unused s.mothers_live s.mothers_size) s
