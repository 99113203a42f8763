-- ===== src/Spawning/Places.antt =====
-- The search for a place, `getRandomPosition` of src/Room.cpp.
use the_game_server.Base.{contains, if_either}
use the_game_server.Base.Float.{Float, ◌+F◌, ◌-F◌, ◌*F◌}
use the_game_server.Entity.{Cell}
use the_game_server.Geometry.{Vec2D, vec, circles_intersect, square_distance}
use the_game_server.World.{Host, World}
use the_game_server.Registries.{Registries}
use the_game_server.Spawning.{is_taken_place, try_positions}
use the_game_server.Base.{
  ℕ, zero, suc, ◌+◌, ◌*◌, ◌<◌, ◌≡◌, refl, ap, subst, ◌∙◌, ◌⊎◌, inl, inr, Bool, true, false, List,
  [], ◌∷◌, arith, Bool-cases, All, contains,
}
use the_game_server.Config.{RoomConfig}

module _ {F : Type 0} ⦃f : Float F⦄ (config : RoomConfig F) (host : Host F) where
  -- A circle touches a cell, whose centre is no farther than the sum of the radii.
  abbrev pub touched : F → Vec2D F → Cell F → Bool
  touched radius place c =
      let x = c.position.x -F place.x in
      let y = c.position.y -F place.y in
      f.le (x *F x +F y *F y) ((c.radius +F radius) *F (c.radius +F radius))

  -- A circle touches none of the cells to be checked, or one of them.
  abbrev pub IsFree : Registries F → F → Vec2D F → Type 0
  IsFree r radius place =
      All (λ p. touched radius place (r.memory p) ≡ false) r.for_random_position_check

  abbrev pub IsTaken : Registries F → F → Vec2D F → Type 0
  IsTaken r radius place =
      (p : ℕ) × (contains p r.for_random_position_check ≡ true)
      × (touched radius place (r.memory p) ≡ true)

  -- The place that two random numbers give, the first of them after so many.
  abbrev pub place_drawn : F → ℕ → Vec2D F
  place_drawn radius drawn =
      let low = f.to_ℕ radius in
      vec (f.of_ℕ (host.integer drawn low (f.to_ℕ (f.of_ℕ config.width -F radius))))
        (f.of_ℕ (host.integer (drawn + 1) low (f.to_ℕ (f.of_ℕ config.height -F radius))))

  -- The first tries have all failed.
  abbrev pub AreTaken : Registries F → F → ℕ → ℕ → Type 0
  AreTaken r radius drawn k =
      (j : ℕ) → j < k → IsTaken r radius (place_drawn radius (drawn + 2 * j))

  -- The place of the last of some tries, or the one that there was before.
  abbrev pub last_tried : F → ℕ → ℕ → Vec2D F → Vec2D F
  last_tried radius drawn zero position = position
  last_tried radius drawn (suc n) position = place_drawn radius (drawn + 2 * n)

  one_more :
      (r : Registries F) (radius : F) (drawn k : ℕ)
      → IsTaken r radius (place_drawn radius drawn)
      → AreTaken r radius (drawn + 2) k
      → AreTaken r radius drawn (k + 1)
  one_more r radius drawn k first later zero h =
      subst (λ d. IsTaken r radius (place_drawn radius d)) (omega arith) first
  one_more r radius drawn k first later (suc j) h =
      subst (λ d. IsTaken r radius (place_drawn radius d)) (omega arith) (later j (omega arith))

  free_lem :
      (memory : ℕ → Cell F) (ps : List ℕ) (radius : F) (place : Vec2D F)
      → is_taken_place config host memory ps (record { position = place; radius = radius }) ≡ false
      → All (λ p. touched radius place (memory p) ≡ false) ps
  unfolding is_taken_place circles_intersect square_distance
  free_lem memory [] radius place h = tt
  free_lem memory (p ∷ ps) radius place h =
      (ground (arith, h), free_lem memory ps radius place (ground (arith, h)))

  taken_lem :
      (memory : ℕ → Cell F) (ps : List ℕ) (radius : F) (place : Vec2D F)
      → is_taken_place config host memory ps (record { position = place; radius = radius }) ≡ true
      → (p : ℕ) × (contains p ps ≡ true) × (touched radius place (memory p) ≡ true)
  unfolding is_taken_place circles_intersect square_distance contains
  taken_lem memory [] radius place h = cc
  taken_lem memory (p ∷ ps) radius place h = elim (Bool-cases (touched radius place (memory p))) [
    | inl here ↦ (p, ground arith, here)
    | inr apart ↦
        (let (q, m, t) = taken_lem memory ps radius place (ground (arith, h, apart)) in
          (q, ground (arith, m), t))
  ]

  -- What the search gives after the tries before a free place, or after all of them.
  unfoldable pub Gives : ℕ → F → Vec2D F → World F → Vec2D F × World F → Type 0
  Gives n radius position w (place, w') =
      (w'.room ≡ w.room)
      × (((k : ℕ) × (k < n)
            × AreTaken w.room radius w.drawn k
            × IsFree w.room radius place
            × (place ≡ place_drawn radius (w.drawn + 2 * k))
            × (w'.drawn ≡ w.drawn + 2 * (k + 1)))
          ⊎ (AreTaken w.room radius w.drawn n
              × (place ≡ last_tried radius w.drawn n position)
              × (w'.drawn ≡ w.drawn + 2 * n)))

  failed_once :
      (n : ℕ) (radius : F) (position : Vec2D F) (w : World F) (r : Vec2D F × World F)
      → IsTaken w.room radius (place_drawn radius w.drawn)
      → Gives n radius (place_drawn radius w.drawn) (record w { drawn = w.drawn + 2 }) r
      → Gives (suc n) radius position w r
  unfolding Gives
  failed_once n radius position w r first (same, inl (k, few, taken, free, e, d)) = (
    same,
    inl (
      k + 1,
      omega (arith, few),
      one_more w.room radius w.drawn k first taken,
      free,
      e ∙ ap (place_drawn radius) (omega arith),
      omega (arith, d),
    ),
  )
  failed_once n radius position w r first (same, inr (taken, e, d)) = (
    same,
    inr (
      subst (AreTaken w.room radius w.drawn) (omega arith)
          (one_more w.room radius w.drawn n first taken),
      e ∙ last_place n,
      omega (arith, d),
    ),
  )
    where
      last_place :
          (m : ℕ)
          → last_tried radius (w.drawn + 2) m (place_drawn radius w.drawn)
            ≡ place_drawn radius (w.drawn + 2 * m)
      last_place zero = ap (place_drawn radius) (omega arith)
      last_place (suc m) = ap (place_drawn radius) (omega arith)

  -- The search ends and changes nothing in the room. It gives the place of its first try that touches none
  -- of the cells to be checked, with no try after it; and where each of its tries touches one of them, the
  -- place of the last try, or the one that it began with if it has none. Each try takes two random numbers.
  pub try_positions-Gives :
      (n : ℕ) (radius : F) (position : Vec2D F) (w : World F)
      → Gives n radius position w (try_positions config host n radius position w)
  unfolding try_positions Gives
  try_positions-Gives zero radius position w =
      (refl, inr (λ j h. absurd (omega (arith, h)), refl, omega arith))
  try_positions-Gives (suc n) radius position w =
      let place = place_drawn radius w.drawn in
      let w' = record w { drawn = w.drawn + 2 } in
      let again = try_positions-Gives n radius place w' in
      if_either (Gives (suc n) radius position w)
        (is_taken_place config host w.room.memory w.room.for_random_position_check
          (record { position = place; radius = radius }))
        (try_positions config host n radius place w') (place, w')
        (λ h.
          failed_once n radius position w (try_positions config host n radius place w')
            (taken_lem w.room.memory w.room.for_random_position_check radius place h) again)
        (λ h. (
          refl,
          inl (
            0,
            omega arith,
            λ j k. absurd (omega (arith, k)),
            free_lem w.room.memory w.room.for_random_position_check radius place h,
            ap (place_drawn radius) (omega arith),
            omega arith,
          ),
        ))
