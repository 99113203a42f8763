-- ===== src/World/Orderly.antt =====
-- What the registries of a room and the handlers that wait in its two contexts agree on: src/Room.cpp,
-- src/EventEmitter.hpp, src/entity/Cell.cpp.
use the_game_server.Base.{
  ℕ, ◌+◌, ◌≤◌, ◌≡◌, refl, ap, ◌∙◌, Bool, true, false, ◌&&◌, ◌||◌, List, [], ◌∷◌, ◌++◌, arith,
  if◌then◌else◌, All, count, All-append, pos,
}
use the_game_server.Entity.{Cell, food}
use the_game_server.Entity.Motion.{
  Emitted, Acting, mass_changed, motion_started, motion_stopped, died,
}
use the_game_server.Registries.{store, Registries}
use the_game_server.World.{World, act, post, post_all, write, cell_at}
use the_game_server.Registries.Sound.{live, live_kind, numbered, IsSound}
use the_game_server.Counting.{number-ext}

abbrev pub nobody : ℕ → Bool
nobody p = false

module _ {F : Type 0} where
  -- The registries are sound, the events of the game that wait are of live cells, and a live cell waits
  -- for its death once if it is killed, and not at all if it is not.
  pub record IsOrderly (w : World F) : Type 0 where
    pub sound : IsSound w.room
    pub game_live : All (λ e. live w.room e.0 ≡ true) w.game
    pub deaths_once :
        (p : ℕ) → count p w.deaths ≡ (if live w.room p && (w.room.memory p).zombie then 1 else 0)

  -- The second state is orderly and comes from the first one: the live cells are still there, only those
  -- of a test may have been killed, and at most so many numbers were taken.
  pub record Passes (dies : ℕ → Bool) (n : ℕ) (w w' : World F) : Type 0 where
    pub orderly : IsOrderly w'
    pub stays : (p : ℕ) → live w.room p ≡ true → live w'.room p ≡ true
    pub spared :
        (p : ℕ)
        → live w.room p ≡ true
        → dies p ≡ false
        → (w'.room.memory p).zombie ≡ (w.room.memory p).zombie
    pub numbers : w'.room.next_ids.next_id ≤ w.room.next_ids.next_id + n

  pub Passes-refl : (w : World F) → IsOrderly w → Passes nobody 0 w w
  Passes-refl w o = record {
    orderly = o;
    stays = λ p h. h;
    spared = λ p h d. refl;
    numbers = omega arith;
  }

  pub Passes-trans :
      {dies dies' : ℕ → Bool} {n n' : ℕ} {w w' w'' : World F}
      → Passes dies n w w'
      → Passes dies' n' w' w''
      → Passes (λ p. dies p || dies' p) (n + n') w w''
  Passes-trans h k = record {
    orderly = k.orderly;
    stays = λ p l. k.stays p (h.stays p l);
    spared = λ p l d. k.spared p (h.stays p l) (ground arith) ∙ h.spared p l (ground arith);
    numbers = omega (arith, h.numbers, k.numbers);
  }

  pub Passes-weaken :
      {dies dies' : ℕ → Bool} {n n' : ℕ} {w w' : World F}
      → ((p : ℕ) → dies' p ≡ false → dies p ≡ false)
      → n ≤ n'
      → Passes dies n w w'
      → Passes dies' n' w w'
  Passes-weaken less few h = record {
    orderly = h.orderly;
    stays = h.stays;
    spared = λ p l d. h.spared p l (less p d);
    numbers = omega (arith, h.numbers);
  }

  -- After what kills no one and takes no number.
  pub Passes-then :
      {dies : ℕ → Bool} {n : ℕ} {w w' w'' : World F}
      → Passes nobody 0 w w'
      → (IsOrderly w' → Passes dies n w' w'')
      → Passes dies n w w''
  Passes-then h next =
      let k = next h.orderly in Passes-weaken (λ p d. d) (omega arith) (Passes-trans h k)

  -- The same identity, kind and fate.
  abbrev pub Alike : Cell F → Cell F → Type 0
  Alike c d = (c.id ≡ d.id) × (c.kind ≡ d.kind) × (c.zombie ≡ d.zombie)

  pub write-IsSound :
      (p : ℕ) (c : Cell F) (r : Registries F)
      → c.id ≡ (r.memory p).id
      → c.kind ≡ (r.memory p).kind
      → IsSound r
      → IsSound (record r { memory = store p c r.memory })
  unfolding store
  write-IsSound p c r i k s = record {
    once = s.once;
    dead_once = s.dead_once;
    processing_live = s.processing_live;
    random_live = s.random_live;
    new_live = s.new_live;
    created_live = s.created_live;
    activated_live = s.activated_live;
    modified_live = s.modified_live;
    viruses_live = λ q. ground (arith, s.viruses_live q);
    phages_live = λ q. ground (arith, s.phages_live q);
    mothers_live = λ q. ground (arith, s.mothers_live q);
    foods_size =
        s.foods_size ∙ ap pos (number-ext (live_kind r food) _ r.cells (λ q. ground arith));
    viruses_size = s.viruses_size;
    phages_size = s.phages_size;
    mothers_size = s.mothers_size;
    first = s.first;
    parted = λ a. ground (
      arith,
      s.parted a,
      number-ext (numbered r.memory a) (numbered (store p c r.memory) a) r.cells
          (λ q. ground arith),
    );
  }

  pub write-Passes :
      (p : ℕ) (c : Cell F) (w : World F)
      → Alike c (cell_at w p)
      → IsOrderly w
      → Passes nobody 0 w (write p c w)
  unfolding write store
  write-Passes p c w (i, k, z) o = record {
    orderly = record {
      sound = write-IsSound p c w.room i k o.sound;
      game_live = o.game_live;
      deaths_once = λ q. ground (arith, o.deaths_once q);
    };
    stays = λ q h. h;
    spared = λ q h d. ground arith;
    numbers = omega arith;
  }

  -- An event that is not a death.
  abbrev pub is_game : Emitted F → Bool
  is_game died = false
  is_game _ = true

  abbrev pub are_game : List (Emitted F) → Bool
  are_game [] = true
  are_game (e ∷ es) = is_game e && are_game es

  waiting :
      (p : ℕ) (e : Emitted F) (w : World F)
      → live w.room p ≡ true
      → IsOrderly w
      → Passes nobody 0 w (record w { game = w.game ++ (p, e) ∷ [] })
  waiting p e w l o = record {
    orderly = record {
      sound = o.sound;
      game_live = All-append _ w.game ((p, e) ∷ []) o.game_live (l, tt);
      deaths_once = o.deaths_once;
    };
    stays = λ q h. h;
    spared = λ q h d. refl;
    numbers = omega arith;
  }

  post-Passes :
      (p : ℕ) (e : Emitted F) (w : World F)
      → is_game e ≡ true
      → live w.room p ≡ true
      → IsOrderly w
      → Passes nobody 0 w (post p e w)
  unfolding post
  post-Passes p died w g l o = cc
  post-Passes p (mass_changed d) w g l o = waiting p (mass_changed d) w l o
  post-Passes p motion_started w g l o = waiting p motion_started w l o
  post-Passes p motion_stopped w g l o = waiting p motion_stopped w l o

  post_all-Passes :
      (p : ℕ) (es : List (Emitted F)) (w : World F)
      → are_game es ≡ true
      → live w.room p ≡ true
      → IsOrderly w
      → Passes nobody 0 w (post_all p es w)
  unfolding post_all
  post_all-Passes p [] w g l o = Passes-refl w o
  post_all-Passes p (e ∷ es) w g l o =
      let first = post-Passes p e w (ground arith) l o in
      Passes-then first (post_all-Passes p es (post p e w) (ground arith) (first.stays p l))

  -- A method that neither kills the cell nor changes its number or kind.
  abbrev pub IsHarmless : (Acting F → Acting F) → Type 0
  IsHarmless method =
      (c : Cell F)
      → let a = method (record { cell = c; emitted = [] }) in
        Alike a.cell c × (are_game a.emitted ≡ true)

  pub act-Passes :
      (p : ℕ) (method : Acting F → Acting F) (w : World F)
      → IsHarmless method
      → live w.room p ≡ true
      → IsOrderly w
      → Passes nobody 0 w (act p method w)
  unfolding act
  act-Passes p method w harmless l o =
      let a = method (record { cell = cell_at w p; emitted = [] }) in
      let h = harmless (cell_at w p) in
      let first = write-Passes p a.cell w h.0 o in
      Passes-then first (post_all-Passes p a.emitted (write p a.cell w) h.1 (first.stays p l))
