-- ===== src/Contexts/Ending.antt =====
-- `m_gameContext.run()` of src/Room.cpp ends: each handler leaves less to run.
use the_game_server.Base.{leb, ◌^◌, ◌/◌}
use the_game_server.Registries.{store, Registries}
use the_game_server.Base.{length-append, count, ◌∙◌}
use the_game_server.Contexts.{Cell}
use the_game_server.Entity.Motion.{
  Acting, Emitted, mass_changed, motion_started, motion_stopped, died, set_mass,
}
use the_game_server.World.{Host, World, cell_at, act, write, post, post_all}
use the_game_server.Base.{
  ℕ, ◌+◌, ◌-◌, ◌*◌, ◌≤◌, ◌≡◌, refl, ap, true, List, [], ◌∷◌, arith, ◌==◌, if◌then◌else◌, length,
}
use the_game_server.Base.Float.{Float, ◌+F◌}
use the_game_server.World.Orderly.{are_game}
use the_game_server.Config.{RoomConfig}
use the_game_server.Contexts.Weights.{total, total-ext, total-except}
use the_game_server.Entity.{kind_code}
use the_game_server.Entity.Avatars.{change_mass, assign_mass, set_avatar_mass}

module _ {F : Type 0} where
  pub post_all-room :
      (p : ℕ) (es : List (Emitted F)) (w : World F) → (post_all p es w).room ≡ w.room
  unfolding post_all post
  post_all-room p [] w = refl
  post_all-room p (died ∷ es) w = post_all-room p es (post p died w)
  post_all-room p (mass_changed d ∷ es) w = post_all-room p es (post p (mass_changed d) w)
  post_all-room p (motion_started ∷ es) w = post_all-room p es (post p motion_started w)
  post_all-room p (motion_stopped ∷ es) w = post_all-room p es (post p motion_stopped w)

  post_all-game :
      (p : ℕ) (es : List (Emitted F)) (w : World F)
      → are_game es ≡ true
      → length (post_all p es w).game ≡ length w.game + length es
  unfolding post_all post
  post_all-game p [] w h = omega arith
  post_all-game p (died ∷ es) w h = cc
  post_all-game p (mass_changed d ∷ es) w h = omega (
    arith,
    post_all-game p es (post p (mass_changed d) w) h,
    length-append w.game ((p, mass_changed d) ∷ []),
  )
  post_all-game p (motion_started ∷ es) w h = omega (
    arith,
    post_all-game p es (post p motion_started w) h,
    length-append w.game ((p, motion_started) ∷ []),
  )
  post_all-game p (motion_stopped ∷ es) w h = omega (
    arith,
    post_all-game p es (post p motion_stopped w) h,
    length-append w.game ((p, motion_stopped) ∷ []),
  )

-- What IEEE 754 says of whole numbers up to 2 ^ 24, where the distance of two `float`s is at most 1: they
-- are converted, added to nothing, and taken away from a number that is no NaN exactly.
pub record CountsWhole (F : Type 0) ⦃f : Float F⦄ : Type 0 where
  pub to_ℕ-of_ℕ : (k : ℕ) → k ≤ 2 ^ 24 → f.to_ℕ (f.of_ℕ k) ≡ k
  pub start : (k : ℕ) → k ≤ 2 ^ 24 → f.to_ℕ (f.of_ℕ 0 +F f.of_ℕ k) ≡ k
  pub take_away :
      (a : F) (k : ℕ)
      → f.to_ℕ a ≤ 2 ^ 24
      → k ≤ f.to_ℕ a
      → f.to_ℕ (a +F f.neg (f.of_ℕ k)) ≡ f.to_ℕ a - k

module _ {F : Type 0} ⦃f : Float F⦄ (config : RoomConfig F) (host : Host F) where
  -- What a mother of a whole mass may still throw; one that is heavier than 2 ^ 24 counts as more than any
  -- room has numbers for.
  abbrev pub heft : ℕ → ℕ
  heft m = if leb m (2 ^ 24) then m / config.mother.mass - 1 else 2 ^ 32

  abbrev pub due : Cell F → ℕ
  due c = if kind_code c.kind == 6 then heft (f.to_ℕ c.mass) else 0

  abbrev pub dues : World F → ℕ → ℕ
  dues w p = due (cell_at w p)

  -- What waits, and what the mothers may add to it.
  abbrev pub weight : World F → ℕ
  weight w = length w.game + 4 * total (dues w) w.room.cells

  pub weight-write :
      (p : ℕ) (c : Cell F) (w : World F) → due c ≡ dues w p → weight (write p c w) ≡ weight w
  unfolding write store
  weight-write p c w e =
      omega (arith, total-ext (dues (write p c w)) (dues w) w.room.cells (λ q m. ground arith))

  dues-act :
      (p : ℕ) (method : Acting F → Acting F) (w : World F) (q : ℕ)
      → dues (act p method w) q ≡ (
          if p == q
          then due (method (record { cell = cell_at w p; emitted = [] })).cell
          else dues w q)
  unfolding act write store
  dues-act p method w q =
      let a = method (record { cell = cell_at w p; emitted = [] }) in
      ap (λ (r : Registries F). due (r.memory q)) (post_all-room p a.emitted (write p a.cell w))
      ∙ ground arith

  pub act_cells :
      (p : ℕ) (method : Acting F → Acting F) (w : World F)
      → (act p method w).room.cells ≡ w.room.cells
  unfolding act write
  act_cells p method w = rw post_all-room refl

  act_game :
      (p : ℕ) (method : Acting F → Acting F) (w : World F)
      → let a = method (record { cell = cell_at w p; emitted = [] }) in
        are_game a.emitted ≡ true → length (act p method w).game ≡ length w.game + length a.emitted
  unfolding act write
  act_game p method w h =
      let a = method (record { cell = cell_at w p; emitted = [] }) in
      post_all-game p a.emitted (write p a.cell w) h

  pub weight-act :
      (p : ℕ) (method : Acting F → Acting F) (w : World F)
      → let a = method (record { cell = cell_at w p; emitted = [] }) in
        are_game a.emitted ≡ true
        → due a.cell ≡ dues w p
        → weight (act p method w) ≡ weight w + length a.emitted
  weight-act p method w h e = omega (
    arith,
    act_game p method w h,
    ap (total (dues (act p method w))) (act_cells p method w),
    total-ext (dues (act p method w)) (dues w) w.room.cells
        (λ q m. ground (arith, dues-act p method w q)),
  )

  -- An action of a registered cell that ends what it may throw.
  pub spend_weight :
      (p : ℕ) (method : Acting F → Acting F) (w : World F)
      → let a = method (record { cell = cell_at w p; emitted = [] }) in
        are_game a.emitted ≡ true
        → count p w.room.cells ≡ 1
        → due a.cell ≡ 0
        → weight (act p method w) + 4 * dues w p ≡ weight w + length a.emitted
  spend_weight p method w h once e = omega (
    arith,
    act_game p method w h,
    ap (total (dues (act p method w))) (act_cells p method w),
    dues-act p method w p,
    total-except (dues (act p method w)) (dues w) p w.room.cells
        (λ q m. ground (arith, dues-act p method w q)) once,
    spent,
  )
    where
      spent : dues (act p method w) p ≡ 0
      spent = ground (arith, dues-act p method w p)

  -- What a mass that is set in a mother emits and leaves.
  pub mother_mass :
      (c : Cell F) (value : F)
      → kind_code c.kind ≡ 6
      → let a = change_mass config host.pi value (record { cell = c; emitted = [] }) in
        (are_game a.emitted ≡ true)
        × (length a.emitted ≡ 1)
        × (kind_code a.cell.kind ≡ 6)
        × (a.cell.mass ≡ (if f.le (f.of_ℕ 1) (c.mass +F value) then c.mass +F value else f.of_ℕ 1))
  unfolding change_mass assign_mass set_mass set_avatar_mass kind_code
  mother_mass c value e = ground arith
