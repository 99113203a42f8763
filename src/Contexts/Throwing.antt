-- ===== src/Contexts/Throwing.antt =====
-- What the explosion of a mother, src/entity/Mother.cpp, adds to the context of the game.
use the_game_server.Base.{◌^◌}
use the_game_server.Contexts.Ending.{heft}
use the_game_server.Base.{insert, if_either}
use native.Mathlib.Nat.{div-le_self}
use the_game_server.Interaction.{grow}
use the_game_server.Entity.Avatars.{change_mass}
use the_game_server.Registries.{
  create, create_mother, update_new_cell_registries, allocate, new_cell, store,
}
use the_game_server.Entity.{kind_code, mother}
use the_game_server.Geometry.{◌*V◌, Vec2D}
use the_game_server.Entity.Motion.{modify_velocity}
use the_game_server.World.{Host, World, cell_at, act, write, create_cell, random_direction, draw}
use the_game_server.Base.{
  ℕ, zero, suc, ◌+◌, ◌*◌, ◌≤◌, ◌≡◌, refl, ap, ◌∙◌, List, [], arith, ◌==◌, if◌then◌else◌, insert,
  count,
}
use the_game_server.Base.Float.{Float, ◌+F◌}
use the_game_server.Config.{RoomConfig}
use the_game_server.Contexts.Ending.{
  CountsWhole, weight, dues, mother_mass, weight-write, weight-act, due, spend_weight,
}
use the_game_server.Contexts.{throw_mother, Cell, explode_mother, throw_mothers, splits}
use the_game_server.Contexts.Weights.{
  div-self_any, total, zero_div, total-ext, taken_le, rest_splits,
}
use the_game_server.Counting.{count-contains}

module _ {F : Type 0} ⦃f : Float F⦄ (config : RoomConfig F) (host : Host F)
    (fresh : (cells : List ℕ) → count (host.address cells) cells ≡ 0) (whole : CountsWhole F)
    (one : 1 ≤ config.mother.mass) (small : config.mother.mass ≤ 2 ^ 24) where
  -- A mother that has the mass of one throws nothing.
  single_due :
      (m : F)
      → f.to_ℕ m ≡ config.mother.mass
      → heft config host (f.to_ℕ (if f.le (f.of_ℕ 1) m then m else f.of_ℕ 1)) ≡ 0
  single_due m e = ground (
    arith,
    e,
    whole.to_ℕ-of_ℕ 1 (omega arith),
    small,
    div-self_any config.mother.mass,
    div-le_self 1 config.mother.mass,
  )

  born_weight :
      (w : World F) → weight config host (create_cell config host mother w) ≡ weight config host w
  unfolding create_cell create create_mother update_new_cell_registries allocate new_cell store
      total kind_code insert
  born_weight w =
      let new = host.address w.room.cells in
      let w1 = create_cell config host mother w in
      omega (
        arith,
        total-ext (dues config host w1) (dues config host w) w.room.cells
            (λ q m. ground (arith, fresh w.room.cells)),
        joined,
      )
    where
      joined :
          total
            (dues config host (create_cell config host mother w))
            (create_cell config host mother w).room.cells
          ≡ total (dues config host (create_cell config host mother w)) w.room.cells
      joined = ground (
        arith,
        count-contains (host.address w.room.cells) w.room.cells,
        fresh w.room.cells,
        whole.to_ℕ-of_ℕ 0 (omega arith),
        zero_div config.mother.mass,
      )

  -- The first mass that a mother is given leaves it with nothing to throw.
  first_due :
      (c : Cell F)
      → kind_code c.kind ≡ 6
      → c.mass ≡ f.of_ℕ 0
      → due config host
          (change_mass config host.pi
            (f.of_ℕ config.mother.mass)
            (record { cell = c; emitted = [] })).cell
        ≡ due config host c
  first_due c kind empty =
      let s = config.mother.mass in
      let m = mother_mass config host c (f.of_ℕ s) kind in
      let given = ap (λ z. f.to_ℕ (z +F f.of_ℕ s)) empty ∙ whole.start s small in
      ground (
        arith,
        m.2,
        ap (λ z. heft config host (f.to_ℕ z)) m.3,
        ap (λ z. heft config host (f.to_ℕ z)) empty,
        single_due (c.mass +F f.of_ℕ s) given,
        whole.to_ℕ-of_ℕ 0 (omega arith),
        zero_div s,
      )

  -- The new mother, in its place.
  placed_new :
      (w : World F) (position : Vec2D F)
      → let new = host.address w.room.cells in
        let w1 = create_cell config host mother w in
        let c = cell_at (write new (record (cell_at w1 new) { position = position }) w1) new in
        (kind_code c.kind ≡ 6) × (c.mass ≡ f.of_ℕ 0)
  unfolding write store create_cell create create_mother update_new_cell_registries allocate
      new_cell kind_code
  placed_new w position = ground arith

  weight-throw_mother :
      (p : ℕ) (w : World F)
      → weight config host (throw_mother config host p w) ≡ weight config host w + 2
  unfolding throw_mother ◌*V◌ modify_velocity grow
  weight-throw_mother p w =
      let new = host.address w.room.cells in
      let w1 = create_cell config host mother w in
      let placed = record (cell_at w1 new) { position = (cell_at w1 p).position } in
      let w2 = write new placed w1 in
      let value = f.of_ℕ config.mother.mass in
      let (kind, empty) = placed_new w (cell_at w1 p).position in
      let m = mother_mass config host (cell_at w2 new) value kind in
      let w3 = act new (change_mass config host.pi value) w2 in
      let velocity = random_direction host w3 *V f.of_ℕ config.explode_velocity in
      omega (
        arith,
        born_weight w,
        weight-write config host new placed w1 refl,
        weight-act config host new (change_mass config host.pi value) w2 m.0
            (first_due (cell_at w2 new) kind empty),
        m.1,
        weight-act config host new (modify_velocity velocity) (draw w3) refl refl,
      )

  weight-throw_mothers :
      (n p : ℕ) (w : World F)
      → weight config host (throw_mothers config host n p w) ≡ weight config host w + 2 * n
  unfolding throw_mothers
  weight-throw_mothers zero p w = omega arith
  weight-throw_mothers (suc n) p w =
      omega
        (arith, weight-throw_mother p w, weight-throw_mothers n p (throw_mother config host p w))

  -- The mother that explodes has no more to throw.
  last_due :
      (c : Cell F)
      → kind_code c.kind ≡ 6
      → f.to_ℕ c.mass ≤ 2 ^ 24
      → due config host
          (change_mass config host.pi
            (f.neg (f.of_ℕ (splits config host c * config.mother.mass)))
            (record { cell = c; emitted = [] })).cell
        ≡ 0
  last_due c kind light =
      let s = config.mother.mass in
      let n = splits config host c in
      let loss = f.neg (f.of_ℕ (n * s)) in
      let m = mother_mass config host c loss kind in
      let enough : n * s ≤ f.to_ℕ c.mass = taken_le (f.to_ℕ c.mass) s in
      ground (
        arith,
        ap (λ z. heft config host (f.to_ℕ z)) m.3,
        ap (λ z. heft config host z) (whole.take_away c.mass (n * s) light enough),
        light,
        rest_splits (f.to_ℕ c.mass) s,
        ap (λ z. heft config host z) (whole.to_ℕ-of_ℕ 1 (omega arith)),
        div-le_self 1 s,
      )

  -- The explosion of a mother that is registered once and no heavier than 2 ^ 24 adds no weight, and pays for what it creates.
  pub weight-explode_mother :
      (p : ℕ) (w : World F)
      → kind_code (cell_at w p).kind ≡ 6
      → f.to_ℕ (cell_at w p).mass ≤ 2 ^ 24
      → count p w.room.cells ≡ 1
      → weight config host (explode_mother config host p w) + splits config host (cell_at w p)
        ≤ weight config host w
  unfolding explode_mother grow
  weight-explode_mother p w kind light once =
      let c = cell_at w p in
      let n = splits config host c in
      let loss = f.neg (f.of_ℕ (n * config.mother.mass)) in
      let m = mother_mass config host c loss kind in
      let w1 = act p (change_mass config host.pi loss) w in
      let owed : dues config host w p ≡ n = ground arith in
      let less =
        spend_weight config host p (change_mass config host.pi loss) w m.0 once
          (last_due c kind light) in
      let more = weight-throw_mothers n p w1 in
      if_either (λ v. weight config host v + n ≤ weight config host w) (n == 0) w
        (throw_mothers config host n p w1) (λ none. ground arith)
        (λ some. ground (arith, less, more, m.1, owed))
