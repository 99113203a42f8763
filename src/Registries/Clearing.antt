-- ===== src/Registries/Clearing.antt =====
-- src/Room.cpp: the removal of the dead cells keeps the registries sound.
use the_game_server.Base.{ℕ, ◌≡◌, refl, ap, ◌∙◌, List, [], ◌∷◌, arith, contains, erase, count}
use the_game_server.Base.{pos, count-erase}
use the_game_server.Base.Float.{Float}
use the_game_server.Entity.{Cell, kind_code, food}
use the_game_server.Registries.{Registries, store, remove_cell}
use the_game_server.Registries.Events.{age, remove_all, synchronize}
use the_game_server.NextId.{push}
use the_game_server.Registries.Sound.{live_kind, numbered, IsSound}
use the_game_server.Counting.{number, number-erase, number-ext}

module _ {F : Type 0} ⦃f : Float F⦄ where
  age_kind :
      (ps : List ℕ) (memory : ℕ → Cell F) (q : ℕ)
      → kind_code (age ps memory q).kind ≡ kind_code (memory q).kind
  unfolding age store
  age_kind [] memory q = refl
  age_kind (p ∷ ps) memory q = age_kind ps _ q ∙ ground arith

  age_id : (ps : List ℕ) (memory : ℕ → Cell F) (q : ℕ) → (age ps memory q).id ≡ (memory q).id
  unfolding age store
  age_id [] memory q = refl
  age_id (p ∷ ps) memory q = age_id ps _ q ∙ ground arith

  -- The registries with what remains of the dead.
  abbrev waiting : List ℕ → Registries F → Registries F
  waiting ps r = record r { dead = ps }

  -- No dead cell counts as food.
  food_stays :
      (p : ℕ) (ps : List ℕ) (r : Registries F)
      → IsSound (waiting (p ∷ ps) r)
      → number (live_kind (waiting (p ∷ ps) r) food) r.cells
        ≡ number (live_kind (waiting ps (remove_cell p r)) food) (erase p r.cells)
  unfolding remove_cell count
  food_stays p ps r s = ground (
    arith,
    number-erase (live_kind (waiting (p ∷ ps) r) food) p r.cells,
    number-ext (live_kind (waiting (p ∷ ps) r) food) (live_kind (waiting ps (remove_cell p r)) food)
        (erase p r.cells) (λ q m. ground (arith, count-erase q p r.cells)),
  )

  removed-IsSound :
      (p : ℕ) (ps : List ℕ) (r : Registries F)
      → IsSound (waiting (p ∷ ps) r)
      → IsSound (waiting ps (remove_cell p r))
  unfolding remove_cell count push
  removed-IsSound p ps r s = record {
    once = λ q. ground (arith, s.once q, count-erase q p r.cells);
    dead_once =
        λ q. ground (arith, s.once p, s.dead_once p, s.dead_once q, count-erase q p r.cells);
    processing_live = λ q. ground (arith, s.processing_live q, count-erase q p r.cells);
    random_live = λ q. ground (arith, s.random_live q, count-erase q p r.cells);
    new_live = λ q. ground (arith, s.new_live q, count-erase q p r.cells);
    created_live = λ q. ground (arith, s.created_live q, count-erase q p r.cells);
    activated_live = λ q. ground (arith, s.activated_live q, count-erase q p r.cells);
    modified_live = λ q. ground (arith, s.modified_live q, count-erase q p r.cells);
    viruses_live = λ q. ground (arith, s.viruses_live q, count-erase q p r.cells);
    phages_live = λ q. ground (arith, s.phages_live q, count-erase q p r.cells);
    mothers_live = λ q. ground (arith, s.mothers_live q, count-erase q p r.cells);
    foods_size = s.foods_size ∙ ap pos (food_stays p ps r s);
    viruses_size = s.viruses_size;
    phages_size = s.phages_size;
    mothers_size = s.mothers_size;
    first = s.first;
    parted = λ a.
        ground (
          arith,
          s.parted a,
          s.once p,
          s.dead_once p,
          number-erase (numbered r.memory a) p r.cells,
        );
  }

  remove_all-IsSound :
      (ps : List ℕ) (r : Registries F)
      → IsSound (waiting ps r)
      → IsSound (waiting [] (remove_all ps r))
  unfolding remove_all
  remove_all-IsSound [] r s = s
  remove_all-IsSound (p ∷ ps) r s =
      remove_all-IsSound ps (remove_cell p r) (removed-IsSound p ps r s)

  -- The registries when no cell is new or modified any more.
  abbrev tidied : Registries F → Registries F
  tidied r = record r { modified = []; memory = age r.new_cells r.memory; new_cells = [] }

  tidied-IsSound : (r : Registries F) → IsSound r → IsSound (tidied r)
  unfolding contains
  tidied-IsSound r s = record {
    once = s.once;
    dead_once = s.dead_once;
    processing_live = s.processing_live;
    random_live = s.random_live;
    new_live = λ q h. cc;
    created_live = s.created_live;
    activated_live = s.activated_live;
    modified_live = λ q h. cc;
    viruses_live = λ q. ground (arith, s.viruses_live q, age_kind r.new_cells r.memory q);
    phages_live = λ q. ground (arith, s.phages_live q, age_kind r.new_cells r.memory q);
    mothers_live = λ q. ground (arith, s.mothers_live q, age_kind r.new_cells r.memory q);
    foods_size =
        s.foods_size
        ∙ ap pos (
            number-ext (live_kind r food) (live_kind (tidied r) food) r.cells
              (λ q _. ground (arith, age_kind r.new_cells r.memory q)));
    viruses_size = s.viruses_size;
    phages_size = s.phages_size;
    mothers_size = s.mothers_size;
    first = s.first;
    parted = λ a. ground (
      arith,
      s.parted a,
      number-ext (numbered r.memory a) (numbered (tidied r).memory a) r.cells
          (λ q _. ground (arith, age_id r.new_cells r.memory q)),
    );
  }

  pub synchronize-IsSound : (r : Registries F) → IsSound r → IsSound (synchronize r)
  unfolding synchronize
  synchronize-IsSound r s = remove_all-IsSound r.dead (tidied r) (tidied-IsSound r s)
