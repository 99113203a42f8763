-- ===== src/Contexts/Running.antt =====
-- `m_gameContext.run()` and `m_deathContext.run()` of src/Room.cpp: they end, and leave a settled room.
use the_game_server.Contexts.Ending.{dues, CountsWhole, weight}
use the_game_server.Contexts.Weights.{member_le_total}
use the_game_server.Contexts.{
  splits, handle, handle_mass, handle_start, on_mother_mass_change, run_game, in_room,
  explode_mother,
}
use the_game_server.Entity.{kind_code, Kind, avatar, food, bullet, virus, phage, mother}
use the_game_server.Registries.Events.{
  on_motion_started, on_motion_stopped, on_mass_change, on_avatar_mass_change, on_cell_mass_change,
}
use the_game_server.Entity.Motion.{Emitted, mass_changed, motion_started, motion_stopped, died}
use the_game_server.World.{Host, World, cell_at}
use the_game_server.Base.{
  ℕ, zero, suc, ◌+◌, ◌^◌, ◌≤◌, ◌<◌, ◌≡◌, refl, ap, subst, true, List, [], ◌∷◌, arith, length, All,
  count, if_either,
}
use the_game_server.Base.Float.{Float}
use the_game_server.Config.{RoomConfig}
use the_game_server.Registries.Sound.{live}
use the_game_server.World.Orderly.{IsOrderly, Passes, nobody, Passes-refl, Passes-then}
use the_game_server.Contexts.Settling.{
  counted-Passes, handle_start-Passes, stopped-Passes, explode_mother-Passes,
}
use the_game_server.Contexts.Throwing.{weight-explode_mother}

module _ {F : Type 0} ⦃f : Float F⦄ (config : RoomConfig F) (host : Host F)
    (fresh : (cells : List ℕ) → count (host.address cells) cells ≡ 0) (whole : CountsWhole F)
    (one : 1 ≤ config.mother.mass) (small : config.mother.mass ≤ 2 ^ 24) where
  -- A step that kills no one and pays for the numbers that it takes.
  record Spends (w w' : World F) : Type 0 where
    pub taken : ℕ
    pub passes : Passes nobody taken w w'
    pub paid : weight config host w' + taken ≤ weight config host w

  -- A handler that changes neither the cells nor what waits.
  free :
      (w w' : World F)
      → Passes nobody 0 w w'
      → weight config host w' ≡ weight config host w
      → Spends w w'
  free w w' k e = record { taken = 0; passes = k; paid = omega (arith, e) }

  counted_weight :
      (k : Kind) (p : ℕ) (delta : F) (w : World F)
      → weight config host (in_room config host (on_mass_change k p delta) w) ≡ weight config host w
  unfolding on_mass_change on_avatar_mass_change on_cell_mass_change
  counted_weight Kind.avatar p delta w = refl
  counted_weight Kind.food p delta w = refl
  counted_weight Kind.bullet p delta w = refl
  counted_weight Kind.virus p delta w = refl
  counted_weight Kind.phage p delta w = refl
  counted_weight Kind.mother p delta w = refl

  started_weight :
      (k : Kind) (p : ℕ) (w : World F)
      → weight config host (handle_start config host k p w) ≡ weight config host w
  unfolding handle_start on_motion_started
  started_weight Kind.avatar p w = refl
  started_weight Kind.food p w = refl
  started_weight Kind.bullet p w = refl
  started_weight Kind.virus p w = refl
  started_weight Kind.phage p w = refl
  started_weight Kind.mother p w = refl

  -- A live cell is registered once.
  once : (p : ℕ) (w : World F) → live w.room p ≡ true → IsOrderly w → count p w.room.cells ≡ 1
  once p w l o = ground (arith, o.sound.once p)

  -- A mother that is heavier than that has no place in a room with numbers left.
  light_lem :
      (p : ℕ) (w : World F)
      → kind_code (cell_at w p).kind ≡ 6
      → count p w.room.cells ≡ 1
      → weight config host w < 2 ^ 32
      → f.to_ℕ (cell_at w p).mass ≤ 2 ^ 24
  light_lem p w kind once room =
      ground
        (arith, member_le_total (dues config host w) p w.room.cells (omega (arith, once)), room)

  mother_Spends :
      (p : ℕ) (delta : F) (w : World F)
      → kind_code (cell_at w p).kind ≡ 6
      → live w.room p ≡ true
      → w.room.next_ids.next_id + weight config host w < 2 ^ 32
      → IsOrderly w
      → Spends w (on_mother_mass_change config host p delta w)
  unfolding on_mother_mass_change on_cell_mass_change on_mass_change
  mother_Spends p delta w kind l room o =
      let k = counted-Passes config host mother p delta w l o in
      let w1 = in_room config host (on_cell_mass_change p delta) w in
      let light = light_lem p w kind (once p w l o) (omega (arith, room)) in
      let paid =
        weight-explode_mother config host fresh whole one small p w1 kind light (once p w l o) in
      let e =
        explode_mother-Passes config host fresh p w1 l (omega (arith, paid, room)) k.orderly in
      let thrown : Spends w (explode_mother config host p w1) = record {
        taken = splits config host (cell_at w p);
        passes = Passes-then k (λ _. e);
        paid = paid;
      } in
      if_either (Spends w) (f.le (f.of_ℕ config.mother.max_mass) (cell_at w1 p).mass)
        (explode_mother config host p w1) w1 (λ h. thrown) (λ h. free w w1 k refl)

  handle_mass-Spends :
      (k : Kind) (p : ℕ) (delta : F) (w : World F)
      → kind_code (cell_at w p).kind ≡ kind_code k
      → live w.room p ≡ true
      → w.room.next_ids.next_id + weight config host w < 2 ^ 32
      → IsOrderly w
      → Spends w (handle_mass config host k p delta w)
  unfolding handle_mass kind_code
  handle_mass-Spends Kind.mother p delta w e l room o = mother_Spends p delta w e l room o
  handle_mass-Spends Kind.avatar p delta w e l room o =
      free w _ (counted-Passes config host avatar p delta w l o) (counted_weight avatar p delta w)
  handle_mass-Spends Kind.food p delta w e l room o =
      free w _ (counted-Passes config host food p delta w l o) (counted_weight food p delta w)
  handle_mass-Spends Kind.bullet p delta w e l room o =
      free w _ (counted-Passes config host bullet p delta w l o) (counted_weight bullet p delta w)
  handle_mass-Spends Kind.virus p delta w e l room o =
      free w _ (counted-Passes config host virus p delta w l o) (counted_weight virus p delta w)
  handle_mass-Spends Kind.phage p delta w e l room o =
      free w _ (counted-Passes config host phage p delta w l o) (counted_weight phage p delta w)

  handle-Spends :
      (p : ℕ) (e : Emitted F) (w : World F)
      → live w.room p ≡ true
      → w.room.next_ids.next_id + weight config host w < 2 ^ 32
      → IsOrderly w
      → Spends w (handle config host p e w)
  unfolding handle on_motion_stopped
  handle-Spends p (mass_changed delta) w l room o =
      handle_mass-Spends (cell_at w p).kind p delta w refl l room o
  handle-Spends p motion_started w l room o =
      free w _ (handle_start-Passes config host (cell_at w p).kind p w l o)
        (started_weight (cell_at w p).kind p w)
  handle-Spends p motion_stopped w l room o = free w _ (stopped-Passes config host p w l o) refl
  handle-Spends p died w l room o = free w w (Passes-refl w o) refl

  -- The next handler is taken from the queue.
  take_next :
      (w : World F) (p : ℕ) (e : Emitted F) (es : List (ℕ × Emitted F))
      → w.game ≡ (p, e) ∷ es
      → IsOrderly w
      → IsOrderly (record w { game = es }) × (live w.room p ≡ true)
  take_next w p e es h o =
      let all = subst (All (λ x. live w.room x.0 ≡ true)) h o.game_live in
      (record { sound = o.sound; game_live = all.1; deaths_once = o.deaths_once }, all.0)

  -- The room is orderly and the game has nothing to run.
  abbrev pub IsIdle : World F → Type 0
  IsIdle w = IsOrderly w × (w.game ≡ [])

  no_rounds : (es : List (ℕ × Emitted F)) → length es ≤ 0 → es ≡ []
  no_rounds [] h = refl
  no_rounds (e ∷ es) h = ground arith

  -- One round, for what the later ones do.
  round :
      (n : ℕ) (w : World F) (es : List (ℕ × Emitted F))
      → ((v : World F)
          → weight config host v ≤ n
          → v.room.next_ids.next_id + weight config host v < 2 ^ 32
          → IsOrderly v
          → IsIdle (run_game config host n v))
      → w.game ≡ es
      → weight config host w ≤ suc n
      → w.room.next_ids.next_id + weight config host w < 2 ^ 32
      → IsOrderly w
      → IsIdle (elim es [
        | [] ↦ w
        | (p, e) ∷ rest ↦ run_game config host n (handle config host p e (record w { game = rest }))
      ])
  round n w [] again h enough room o = (o, h)
  round n w ((p, e) ∷ es) again h enough room o =
      let w1 = record w { game = es } in
      let (o1, l) = take_next w p e es h o in
      let fewer : weight config host w1 + 1 ≡ weight config host w = omega (arith, ap length h) in
      let s = handle-Spends p e w1 l (omega (arith, fewer, room)) o1 in
      again (handle config host p e w1) (omega (arith, s.paid, fewer, enough))
        (omega (arith, s.paid, s.passes.numbers, fewer, room)) s.passes.orderly

  -- With as many rounds as the weight of what waits, nothing is left to run.
  pub run_game-IsIdle :
      (n : ℕ) (w : World F)
      → weight config host w ≤ n
      → w.room.next_ids.next_id + weight config host w < 2 ^ 32
      → IsOrderly w
      → IsIdle (run_game config host n w)
  unfolding run_game
  run_game-IsIdle zero w enough room o = (o, no_rounds w.game (omega (arith, enough)))
  run_game-IsIdle (suc n) w enough room o = round n w w.game (run_game-IsIdle n) refl enough room o
