-- ===== src/Registries/Dying.antt =====
-- src/Room.cpp: the death of a cell keeps the registries sound.
use the_game_server.Base.{
  ℕ, ◌+◌, ◌≡◌, ap, ◌∙◌, Bool, true, false, List, [], ◌∷◌, arith, ◌==◌, if◌then◌else◌, length, erase,
  count,
}
use the_game_server.Base.{ℤ, pos, ◌-ℤ◌, contains-erase, count-erase}
use the_game_server.Base.Float.{Float}
use the_game_server.Entity.{Kind, kind_code, virus, phage, mother, food}
use the_game_server.Registries.{Registries, store, prepare_cell_for_destruction, erase_from_gridmap}
use the_game_server.Registries.Sound.{live, is_kind, live_kind, numbered, IsSound}
use the_game_server.Counting.{number, number-except, number-ext, length-erase, count-append}
use the_game_server.Gridmap.Cells.{erase_cell}
use the_game_server.Registries.Events.{on_death}

less_food : (n : ℤ) (m m' : ℕ) → n ≡ pos m → m' + 1 ≡ m → n -ℤ pos 1 ≡ pos m'
unfolding ◌-ℤ◌
less_food n m m' e h = rw e (ground arith)

module _ {F : Type 0} ⦃f : Float F⦄ where
  -- A dead cell out of the registries of work, with these sets and quantities of the kinds.
  abbrev buried : ℕ → Registries F → List ℕ → List ℕ → List ℕ → ℤ → ℤ → ℤ → ℤ → Registries F
  buried p r vs ps ms fq vq pq mq = record (prepare_cell_for_destruction p r) {
    viruses = vs;
    phages = ps;
    mothers = ms;
    food_quantity = fq;
    viruses_quantity = vq;
    phages_quantity = pq;
    mothers_quantity = mq;
  }

  -- A set of the live cells of a kind, but for one.
  abbrev Left : Kind → ℕ → Registries F → List ℕ → Type 0
  Left kind p r xs =
      (q : ℕ) → count q xs ≡ (if (if p == q then false else live_kind r kind q) then 1 else 0)

  -- The live cells of a kind, with the dead cell no more among them.
  fewer_food :
      (p : ℕ) (r : Registries F) (test' : ℕ → Bool)
      → ((q : ℕ) → test' q ≡ (if p == q then false else live_kind r food q))
      → live r p ≡ true
      → IsSound r
      → number test' r.cells + (if is_kind r food p then 1 else 0)
        ≡ number (live_kind r food) r.cells
  fewer_food p r test' h l s =
      ground (arith, s.once p, number-except (live_kind r food) test' p r.cells h)

  buried-IsSound :
      (p : ℕ) (r : Registries F) (vs ps ms : List ℕ) (fq vq pq mq : ℤ)
      → live r p ≡ true
      → Left virus p r vs
      → Left phage p r ps
      → Left mother p r ms
      → ((m : ℕ)
          → m + (if is_kind r food p then 1 else 0) ≡ number (live_kind r food) r.cells
          → fq ≡ pos m)
      → vq ≡ pos (length vs)
      → pq ≡ pos (length ps)
      → mq ≡ pos (length ms)
      → IsSound r
      → IsSound (buried p r vs ps ms fq vq pq mq)
  unfolding prepare_cell_for_destruction erase_from_gridmap erase_cell store count
  buried-IsSound p r vs ps ms fq vq pq mq l hv hp hm lf lv lp lm s = record {
    once = s.once;
    dead_once = λ q. ground (arith, s.dead_once q, count-append q r.dead (p ∷ []));
    processing_live = λ q. ground (
      arith,
      s.processing_live q,
      s.dead_once q,
      contains-erase p q r.processing,
      count-append q r.dead (p ∷ []),
    );
    random_live = λ q. ground (
      arith,
      s.random_live q,
      s.dead_once q,
      contains-erase p q r.for_random_position_check,
      count-append q r.dead (p ∷ []),
    );
    new_live = λ q. ground (
      arith,
      s.new_live q,
      s.dead_once q,
      contains-erase p q r.new_cells,
      count-append q r.dead (p ∷ []),
    );
    created_live = λ q. ground (
      arith,
      s.created_live q,
      s.dead_once q,
      contains-erase p q r.created_cells,
      count-append q r.dead (p ∷ []),
    );
    activated_live = λ q. ground (
      arith,
      s.activated_live q,
      s.dead_once q,
      contains-erase p q r.activated,
      count-append q r.dead (p ∷ []),
    );
    modified_live = λ q. ground (
      arith,
      s.modified_live q,
      s.dead_once q,
      contains-erase p q r.modified,
      count-append q r.dead (p ∷ []),
    );
    viruses_live = λ q. ground (arith, hv q, count-append q r.dead (p ∷ []));
    phages_live = λ q. ground (arith, hp q, count-append q r.dead (p ∷ []));
    mothers_live = λ q. ground (arith, hm q, count-append q r.dead (p ∷ []));
    foods_size =
        lf _ (
          fewer_food p r _ (λ q. ground (arith, s.dead_once q, count-append q r.dead (p ∷ []))) l
            s);
    viruses_size = lv;
    phages_size = lp;
    mothers_size = lm;
    first = s.first;
    parted = λ a. ground (
      arith,
      s.parted a,
      number-ext (numbered r.memory a) (numbered (prepare_cell_for_destruction p r).memory a)
          r.cells (λ q _. ground arith),
    );
  }

  other-Left :
      (kind : Kind) (p : ℕ) (r : Registries F) (xs : List ℕ)
      → is_kind r kind p ≡ false
      → ((q : ℕ) → count q xs ≡ (if live_kind r kind q then 1 else 0))
      → Left kind p r xs
  other-Left kind p r xs other h q = ground (arith, h q)

  erase-Left :
      (kind : Kind) (p : ℕ) (r : Registries F) (xs : List ℕ)
      → ((q : ℕ) → count q xs ≡ (if live_kind r kind q then 1 else 0))
      → Left kind p r (erase p xs)
  erase-Left kind p r xs h q = ground (arith, h q, count-erase q p xs)

  erase-size :
      (kind : Kind) (p : ℕ) (r : Registries F) (xs : List ℕ) (n : ℤ)
      → is_kind r kind p ≡ true
      → live r p ≡ true
      → ((q : ℕ) → count q xs ≡ (if live_kind r kind q then 1 else 0))
      → n ≡ pos (length xs)
      → n -ℤ pos 1 ≡ pos (length (erase p xs))
  erase-size kind p r xs n same l h e =
      less_food n (length xs) (length (erase p xs)) e (ground (arith, h p, length-erase p xs))

  other_food :
      (p : ℕ) (r : Registries F)
      → is_kind r food p ≡ false
      → IsSound r
      → (m : ℕ) → m + (if is_kind r food p then 1 else 0) ≡ number (live_kind r food) r.cells
      → r.food_quantity ≡ pos m
  other_food p r other s m h = s.foods_size ∙ ap pos (ground arith)

  pub on_death-IsSound :
      (k : Kind) (p : ℕ) (r : Registries F)
      → (r.memory p).kind ≡ k
      → live r p ≡ true
      → IsSound r
      → IsSound (on_death k p r)
  unfolding on_death prepare_cell_for_destruction erase_from_gridmap kind_code
  on_death-IsSound Kind.avatar p r e l s =
      buried-IsSound p r r.viruses r.phages r.mothers r.food_quantity r.viruses_quantity
        r.phages_quantity r.mothers_quantity l
        (other-Left virus p r r.viruses (ap (λ k. kind_code k == kind_code virus) e) s.viruses_live)
        (other-Left phage p r r.phages (ap (λ k. kind_code k == kind_code phage) e) s.phages_live)
        (other-Left mother p r r.mothers (ap (λ k. kind_code k == kind_code mother) e)
          s.mothers_live)
        (other_food p r (ap (λ k. kind_code k == kind_code food) e) s) s.viruses_size s.phages_size
        s.mothers_size s
  on_death-IsSound Kind.food p r e l s =
      buried-IsSound p r r.viruses r.phages r.mothers (r.food_quantity -ℤ pos 1) r.viruses_quantity
        r.phages_quantity r.mothers_quantity l
        (other-Left virus p r r.viruses (ap (λ k. kind_code k == kind_code virus) e) s.viruses_live)
        (other-Left phage p r r.phages (ap (λ k. kind_code k == kind_code phage) e) s.phages_live)
        (other-Left mother p r r.mothers (ap (λ k. kind_code k == kind_code mother) e)
          s.mothers_live)
        (λ m h.
          less_food r.food_quantity (number (live_kind r food) r.cells) m s.foods_size
            (ground (arith, (ap (λ k. kind_code k == kind_code food) e))))
        s.viruses_size s.phages_size s.mothers_size s
  on_death-IsSound Kind.bullet p r e l s =
      buried-IsSound p r r.viruses r.phages r.mothers r.food_quantity r.viruses_quantity
        r.phages_quantity r.mothers_quantity l
        (other-Left virus p r r.viruses (ap (λ k. kind_code k == kind_code virus) e) s.viruses_live)
        (other-Left phage p r r.phages (ap (λ k. kind_code k == kind_code phage) e) s.phages_live)
        (other-Left mother p r r.mothers (ap (λ k. kind_code k == kind_code mother) e)
          s.mothers_live)
        (other_food p r (ap (λ k. kind_code k == kind_code food) e) s) s.viruses_size s.phages_size
        s.mothers_size s
  on_death-IsSound Kind.virus p r e l s =
      buried-IsSound p r (erase p r.viruses) r.phages r.mothers r.food_quantity
        (r.viruses_quantity -ℤ pos 1) r.phages_quantity r.mothers_quantity l
        (erase-Left virus p r r.viruses s.viruses_live)
        (other-Left phage p r r.phages (ap (λ k. kind_code k == kind_code phage) e) s.phages_live)
        (other-Left mother p r r.mothers (ap (λ k. kind_code k == kind_code mother) e)
          s.mothers_live)
        (other_food p r (ap (λ k. kind_code k == kind_code food) e) s)
        (erase-size virus p r r.viruses r.viruses_quantity
          (ap (λ k. kind_code k == kind_code virus) e) l s.viruses_live s.viruses_size)
        s.phages_size s.mothers_size s
  on_death-IsSound Kind.phage p r e l s =
      buried-IsSound p r r.viruses (erase p r.phages) r.mothers r.food_quantity r.viruses_quantity
        (r.phages_quantity -ℤ pos 1) r.mothers_quantity l
        (other-Left virus p r r.viruses (ap (λ k. kind_code k == kind_code virus) e) s.viruses_live)
        (erase-Left phage p r r.phages s.phages_live)
        (other-Left mother p r r.mothers (ap (λ k. kind_code k == kind_code mother) e)
          s.mothers_live)
        (other_food p r (ap (λ k. kind_code k == kind_code food) e) s) s.viruses_size
        (erase-size phage p r r.phages r.phages_quantity
          (ap (λ k. kind_code k == kind_code phage) e) l s.phages_live s.phages_size)
        s.mothers_size s
  on_death-IsSound Kind.mother p r e l s =
      buried-IsSound p r r.viruses r.phages (erase p r.mothers) r.food_quantity r.viruses_quantity
        r.phages_quantity (r.mothers_quantity -ℤ pos 1) l
        (other-Left virus p r r.viruses (ap (λ k. kind_code k == kind_code virus) e) s.viruses_live)
        (other-Left phage p r r.phages (ap (λ k. kind_code k == kind_code phage) e) s.phages_live)
        (erase-Left mother p r r.mothers s.mothers_live)
        (other_food p r (ap (λ k. kind_code k == kind_code food) e) s) s.viruses_size s.phages_size
        (erase-size mother p r r.mothers r.mothers_quantity
          (ap (λ k. kind_code k == kind_code mother) e) l s.mothers_live s.mothers_size)
        s
