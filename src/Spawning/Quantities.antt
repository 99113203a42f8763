-- ===== src/Spawning/Quantities.antt =====
-- The generators of src/Room.cpp: what they leave.
use the_game_server.Spawning.Places.{Gives, try_positions-Gives}
use the_game_server.Entity.Avatars.{change_mass}
use the_game_server.Interaction.{grow}
use the_game_server.Registries.{
  Registries, create, create_food, create_virus, create_phage, create_mother,
  update_new_cell_registries, allocate,
}
use the_game_server.Base.{
  ℤ, pos, ◌+ℤ◌, Bool, true, ◌≤◌, ◌<◌, ◌^◌, min, ◌-◌, ◌||◌, ltb, if◌then◌else◌,
}
use the_game_server.Contexts.Ending.{post_all-room}
use the_game_server.Entity.Motion.{Acting}
use the_game_server.Entity.{Kind, Cell, food, virus, phage, mother}
use the_game_server.World.{Host, World, cell_at, act, write, create_cell}
use the_game_server.Base.{if_either}
use the_game_server.Base.{ℕ, zero, suc, ◌+◌, ◌≡◌, refl, ap, ◌∙◌, false, [], arith}
use the_game_server.Base.Float.{Float}
use the_game_server.Config.{RoomConfig}
use the_game_server.Geometry.{zero_vec}
use the_game_server.Spawning.{
  try_positions, generate, generate_one, generate_viruses, repeat, settle, generate_phages,
  get_random_position, space_left, generate_mothers, unsigned, generate_food, generate_one_food,
  rounds,
}

one_more : (m : ℕ) → pos m +ℤ pos 1 ≡ pos (m + 1)
unfolding ◌+ℤ◌
one_more m = ground arith

module _ {F : Type 0} ⦃f : Float F⦄ (config : RoomConfig F) (host : Host F) where
  -- The quantity of a kind in a room.
  abbrev pub quantity_of : Kind → Registries F → ℤ
  quantity_of food r = r.food_quantity
  quantity_of virus r = r.viruses_quantity
  quantity_of phage r = r.phages_quantity
  quantity_of mother r = r.mothers_quantity
  quantity_of _ r = pos 0

  written :
      (k : Kind) (p : ℕ) (c : Cell F) (w : World F)
      → quantity_of k (write p c w).room ≡ quantity_of k w.room
  unfolding write
  written Kind.avatar p c w = refl
  written Kind.food p c w = refl
  written Kind.bullet p c w = refl
  written Kind.virus p c w = refl
  written Kind.phage p c w = refl
  written Kind.mother p c w = refl

  act_quantity :
      (k : Kind) (p : ℕ) (method : Acting F → Acting F) (w : World F)
      → quantity_of k (act p method w).room ≡ quantity_of k w.room
  unfolding act
  act_quantity k p method w =
      let a = method (record { cell = cell_at w p; emitted = [] }) in
      ap (quantity_of k) (post_all-room p a.emitted (write p a.cell w)) ∙ written k p a.cell w

  -- A body of a loop that makes one more of a kind.
  abbrev MakesOne : Kind → (World F → World F) → Type 0
  MakesOne k body =
      (w : World F) (m : ℕ)
      → quantity_of k w.room ≡ pos m
      → quantity_of k (body w).room ≡ pos (m + 1)

  repeat_quantity :
      (k : Kind) (body : World F → World F) (n : ℕ) (w : World F) (m : ℕ)
      → MakesOne k body
      → quantity_of k w.room ≡ pos m
      → quantity_of k (repeat config host n body w).room ≡ pos (m + n)
  unfolding repeat
  repeat_quantity k body zero w m one e = e ∙ ap pos (omega arith)
  repeat_quantity k body (suc n) w m one e =
      repeat_quantity k body n (body w) (m + 1) one (one w m e) ∙ ap pos (omega arith)

  -- The quantity that a generator leaves: the same in a room that is too heavy, and otherwise a portion
  -- more, as far as the greatest quantity allows.
  abbrev pub Fills : Kind → ℕ → ℕ → ℕ → World F → World F → Type 0
  Fills k most portion m w w' =
      quantity_of k w'.room
      ≡ pos (if f.le (f.of_ℕ config.max_mass) w.room.mass then m else m + min portion (most - m))

  kept :
      (heavy over : Bool) (m x : ℕ)
      → over ≡ false
      → (heavy || over) ≡ true
      → m ≡ (if heavy then m else x)
  kept heavy over m x o h = ground arith

  added :
      (heavy over : Bool) (m n k : ℕ)
      → n ≡ k
      → (heavy || over) ≡ false
      → m + n ≡ (if heavy then m else m + k)
  added heavy over m n k e h = ground arith

  generate-Fills :
      (k : Kind) (body : World F → World F) (most portion m : ℕ) (w : World F)
      → MakesOne k body
      → most < 2 ^ 32
      → portion < 2 ^ 31
      → m ≤ most
      → quantity_of k w.room ≡ pos m
      → Fills k most portion m w (generate config host (quantity_of k w.room) most portion body w)
  unfolding generate space_left unsigned rounds
  generate-Fills k body most portion m w one small few fits e =
      let heavy = f.le (f.of_ℕ config.max_mass) w.room.mass in
      let over = ltb most (unsigned config host (quantity_of k w.room)) in
      let under : over ≡ false =
        ap (λ z. ltb most (unsigned config host z)) e ∙ ground (arith, fits) in
      let space : space_left config host most (quantity_of k w.room) ≡ most - m =
        ap (space_left config host most) e ∙ omega (arith, small, fits) in
      let portions = min portion (space_left config host most (quantity_of k w.room)) in
      let n = rounds config host portions in
      let exact : n ≡ min portion (most - m) = ground (arith, space, few) in
      if_either (Fills k most portion m w) (heavy || over) w (repeat config host n body w)
        (λ h. e ∙ ap pos (kept heavy over m _ under h))
        (λ h. repeat_quantity k body n w m one e ∙ ap pos (added heavy over m n _ exact h))

  settle_quantity :
      (k : Kind) (p : ℕ) (w : World F)
      → quantity_of k (settle config host p w).room ≡ quantity_of k w.room
  unfolding settle get_random_position write Gives
  settle_quantity k p w =
      let r =
        try_positions config host config.spawn_pos_try_count (cell_at w p).radius zero_vec w in
      written k p _ r.1
      ∙ ap (quantity_of k)
          (try_positions-Gives config host config.spawn_pos_try_count (cell_at w p).radius zero_vec
            w).0

  grow_quantity :
      (k : Kind) (p : ℕ) (value : F) (w : World F)
      → quantity_of k (grow config host p value w).room ≡ quantity_of k w.room
  unfolding grow
  grow_quantity k p value w = act_quantity k p (change_mass config host.pi value) w

  -- The kinds whose cells the room counts.
  unfoldable pub is_counted : Kind → Bool
  is_counted food = true
  is_counted virus = true
  is_counted phage = true
  is_counted mother = true
  is_counted _ = false

  create_counts :
      (k : Kind) (w : World F) (m : ℕ)
      → is_counted k ≡ true
      → quantity_of k w.room ≡ pos m
      → quantity_of k (create_cell config host k w).room ≡ pos (m + 1)
  unfolding create_cell create create_food create_virus create_phage create_mother
      update_new_cell_registries allocate is_counted
  create_counts Kind.food w m c e = ap (λ z. z +ℤ pos 1) e ∙ one_more m
  create_counts Kind.virus w m c e = ap (λ z. z +ℤ pos 1) e ∙ one_more m
  create_counts Kind.phage w m c e = ap (λ z. z +ℤ pos 1) e ∙ one_more m
  create_counts Kind.mother w m c e = ap (λ z. z +ℤ pos 1) e ∙ one_more m
  create_counts Kind.avatar w m c e = cc
  create_counts Kind.bullet w m c e = cc

  one_MakesOne :
      (k : Kind) (mass : ℕ) → is_counted k ≡ true → MakesOne k (generate_one config host k mass)
  unfolding generate_one
  one_MakesOne k mass c w m e =
      let new = host.address w.room.cells in
      let w1 = create_cell config host k w in
      settle_quantity k new (grow config host new (f.of_ℕ mass) w1)
      ∙ grow_quantity k new (f.of_ℕ mass) w1
      ∙ create_counts k w m c e

  food_MakesOne : MakesOne food (generate_one_food config host)
  unfolding generate_one_food is_counted
  food_MakesOne w m e =
      let new = host.address w.room.cells in
      let w1 = create_cell config host food w in
      let w2 = settle config host new w1 in
      let color = host.integer w2.drawn config.food.min_color_index config.food.max_color_index in
      let w3 = record w2 { drawn = w2.drawn + 1 } in
      let w4 = write new (record (cell_at w2 new) { color = color }) w3 in
      grow_quantity food new (f.of_ℕ config.food.mass) w4
      ∙ written food new (record (cell_at w2 new) { color = color }) w3
      ∙ settle_quantity food new w1
      ∙ create_counts food w m refl e

  -- Where a room has quantities of food, viruses, phages and mothers within the greatest ones, and the
  -- portions are below 2 ^ 31: each generator leaves the quantity as it is when the mass of the room is at
  -- its greatest, and otherwise adds its portion, as far as the greatest quantity allows.
  pub generators_fill :
      (mf mv mp mm : ℕ) (w : World F)
      → config.food.max_quantity < 2 ^ 32
      → config.virus.max_quantity < 2 ^ 32
      → config.phage.max_quantity < 2 ^ 32
      → config.mother.max_quantity < 2 ^ 32
      → config.generator.food.quantity < 2 ^ 31
      → config.generator.virus.quantity < 2 ^ 31
      → config.generator.phage.quantity < 2 ^ 31
      → config.generator.mother.quantity < 2 ^ 31
      → mf ≤ config.food.max_quantity
      → mv ≤ config.virus.max_quantity
      → mp ≤ config.phage.max_quantity
      → mm ≤ config.mother.max_quantity
      → w.room.food_quantity ≡ pos mf
      → w.room.viruses_quantity ≡ pos mv
      → w.room.phages_quantity ≡ pos mp
      → w.room.mothers_quantity ≡ pos mm
      → Fills food config.food.max_quantity config.generator.food.quantity mf w
          (generate_food config host w)
        × Fills virus config.virus.max_quantity config.generator.virus.quantity mv w
            (generate_viruses config host w)
        × Fills phage config.phage.max_quantity config.generator.phage.quantity mp w
            (generate_phages config host w)
        × Fills mother config.mother.max_quantity config.generator.mother.quantity mm w
            (generate_mothers config host w)
  unfolding generate_food generate_viruses generate_phages generate_mothers is_counted
  generators_fill mf mv mp mm w sf sv sp sm pf pv pp pm ff fv fp fm ef ev ep em = (
    generate-Fills food (generate_one_food config host) config.food.max_quantity
        config.generator.food.quantity mf w food_MakesOne sf pf ff ef,
    generate-Fills virus _ config.virus.max_quantity config.generator.virus.quantity mv w
        (one_MakesOne virus config.virus.mass refl) sv pv fv ev,
    generate-Fills phage _ config.phage.max_quantity config.generator.phage.quantity mp w
        (one_MakesOne phage config.phage.mass refl) sp pp fp ep,
    generate-Fills mother _ config.mother.max_quantity config.generator.mother.quantity mm w
        (one_MakesOne mother config.mother.mass refl) sm pm fm em,
  )
