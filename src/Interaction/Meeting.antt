-- ===== src/Interaction/Meeting.antt =====
-- Whatever two cells meet, src/entity/*.cpp and `Room::update` of src/Room.cpp: the room stays orderly.
use the_game_server.Interaction.Dispatch.{visit, meet, interact}
use the_game_server.Base.{
  ℕ, ◌≡◌, refl, ◌∙◌, inl, List, arith, ◌==◌, if◌then◌else◌, count, if_either, true, ◌+◌, ◌<◌, ◌^◌,
  not, ◌&&◌,
}
use the_game_server.Base.Float.{Float, ◌+F◌, ◌*F◌, ◌/F◌, ◌-F◌}
use the_game_server.Config.{RoomConfig}
use the_game_server.World.{Host, World, cell_at}
use the_game_server.Interaction.Pairs.{
  avatar_avatar, avatar_bullet, avatar_food, avatar_mother, avatar_phage, avatar_virus, merge_into,
  mother_absorbs, mother_bullet, mother_food, trap_bullet, trap_food, break_mother,
}
use the_game_server.Entity.{Kind, virus, mother, phage}
use the_game_server.Entity.Motion.{start_motion}
use the_game_server.Interaction.Fair.{
  IsFair, branch, fatal, flipped-IsFair, still, attack-IsFair, explode-Passes, quiet, among, births,
  strike, strike_unless,
}
use the_game_server.Interaction.Steps.{wake_player-Passes, grow-Passes, then_kill-Passes}
use the_game_server.World.Orderly.{
  write-Passes, Passes, Passes-refl, Passes-then, act-Passes, nobody, Passes-trans, Passes-weaken,
  IsOrderly,
}
use the_game_server.Base.Options.{same_pointer}
use the_game_server.Interaction.{wake_player, create_cell, grow, write, kill_cell}
use the_game_server.World.Births.{create-Passes}
use the_game_server.Geometry.{◌+V◌, ◌*V◌, direction, ◌-V◌, dot, ◌/V◌}
use the_game_server.Registries.Sound.{live}

module _ {F : Type 0} ⦃f : Float F⦄ (config : RoomConfig F) (host : Host F)
    (fresh : (cells : List ℕ) → count (host.address cells) cells ≡ 0) where
  abbrev Fair : (ℕ → ℕ → World F → World F) → Type 0
  Fair = IsFair config host fresh

  avatar_avatar-IsFair : Fair (avatar_avatar config host)
  unfolding avatar_avatar
  avatar_avatar-IsFair p q w m =
      branch config host fresh p q w _ _ _
        (λ h. flipped-IsFair config host fresh _ (attack-IsFair config host fresh) p q w m)
        (λ h. attack-IsFair config host fresh p q w m)

  avatar_food-IsFair : Fair (avatar_food config host)
  unfolding avatar_food
  avatar_food-IsFair p q w m =
      let k = wake_player-Passes config host p w m.orderly in
      let g =
        grow-Passes config host p (cell_at w q).mass (wake_player config host p w)
          (k.stays p m.first) k.orderly in
      strike config host fresh p q 0 w _ _ (omega arith) m (Passes-then k (λ _. g))

  avatar_bullet-IsFair : Fair (avatar_bullet config host)
  unfolding avatar_bullet
  avatar_bullet-IsFair p q w m =
      let b = cell_at w q in
      let own = same_pointer (cell_at w p).player b.player in
      let woken = if own then w else wake_player config host p w in
      let k =
        if_either (Passes nobody 0 w) own w (wake_player config host p w)
          (λ h. Passes-refl w m.orderly) (λ h. wake_player-Passes config host p w m.orderly) in
      let g = grow-Passes config host p b.mass woken (k.stays p m.first) k.orderly in
      strike_unless config host fresh p q 0 w _ _ (omega arith) m (Passes-then k (λ _. g))

  avatar_virus-IsFair : Fair (avatar_virus config host)
  unfolding avatar_virus
  avatar_virus-IsFair p q w m =
      strike_unless config host fresh p q config.player.max_avatars w _ _ (omega arith) m
        (explode-Passes config host fresh p w m.first m.room m.orderly)

  avatar_phage-IsFair : Fair (avatar_phage config host)
  unfolding avatar_phage
  avatar_phage-IsFair p q w m =
      let spare = (cell_at w p).mass -F f.of_ℕ config.cell_min_mass in
      let poison = config.simulation_interval *F (cell_at w q).mass in
      let g =
        grow-Passes config host p (f.neg (if f.lt spare poison then spare else poison)) w m.first
          m.orderly in
      branch config host fresh p q w _ w _ (λ h. still config host fresh p q w m.orderly)
        (λ h. quiet config host fresh p q g)

  break_mother-IsFair : Fair (break_mother config host)
  unfolding break_mother
  break_mother-IsFair p q w m =
      strike config host fresh p q config.player.max_avatars w _ _ (omega arith) m
        (explode-Passes config host fresh p w m.first m.room m.orderly)

  avatar_mother-IsFair : Fair (avatar_mother config host)
  unfolding avatar_mother
  avatar_mother-IsFair p q w m =
      let g = grow-Passes config host q (cell_at w p).mass w m.second m.orderly in
      let taken = fatal config host fresh p q p 0 w _ (inl refl) (omega arith) m g in
      branch config host fresh p q w _ _ _ (λ h. taken) (λ h. break_mother-IsFair p q w m)

  trap_food-IsFair : Fair (trap_food config host)
  unfolding trap_food
  trap_food-IsFair p q w m =
      strike config host fresh p q 0 w w _ (omega arith) m (Passes-refl w m.orderly)

  trap_bullet-IsFair : Fair (trap_bullet config host)
  unfolding trap_bullet start_motion
  trap_bullet-IsFair p q w m =
      let a = cell_at w p in
      let b = cell_at w q in
      let normal = direction (a.position -V b.position) in
      let impulse =
        dot (a.velocity -V b.velocity) normal
        *F (f.of_ℕ 2 *F a.mass *F b.mass /F (a.mass +F b.mass)) in
      let pushed = record a { velocity = a.velocity -V normal *V impulse /V a.mass } in
      let k = write-Passes p pushed w (refl, refl, refl) m.orderly in
      let g =
        act-Passes p start_motion (write p pushed w) (λ c. ((refl, refl, refl), refl))
          (k.stays p m.first) k.orderly in
      strike config host fresh p q 0 w _ _ (omega arith) m (Passes-then k (λ _. g))

  mother_food-IsFair : Fair (mother_food config host)
  unfolding mother_food
  mother_food-IsFair p q w m =
      strike_unless config host fresh p q 0 w w _ (omega arith) m (Passes-refl w m.orderly)

  mother_bullet-IsFair : Fair (mother_bullet config host)
  unfolding mother_bullet
  mother_bullet-IsFair p q w m =
      strike config host fresh p q 0 w _ _ (omega arith) m
        (grow-Passes config host p (cell_at w q).mass w m.first m.orderly)

  mother_absorbs-IsFair : Fair (mother_absorbs config host)
  unfolding mother_absorbs
  mother_absorbs-IsFair p q w m =
      strike config host fresh p q 0 w _ _ (omega arith) m
        (grow-Passes config host p (cell_at w q).mass w m.first m.orderly)

  -- Two cells that differ are both killed.
  merge_into-IsFair : (kind : Kind) → Fair (merge_into config host kind)
  unfolding merge_into
  merge_into-IsFair kind p q w m =
      let new = host.address w.room.cells in
      let (born, l, _) = create-Passes config host kind w fresh (omega (arith, m.room)) m.orderly in
      let w1 = create_cell config host kind w in
      let mass = (cell_at w p).mass +F (cell_at w q).mass in
      let g = grow-Passes config host new mass w1 l born.orderly in
      let w2 = grow config host new mass w1 in
      let placed = record (cell_at w2 new) {
        position = ((cell_at w p).position +V (cell_at w q).position) *V f.literal 1 2;
      } in
      let k = write-Passes new placed w2 (refl, refl, refl) g.orderly in
      let all = Passes-trans born (Passes-then g (λ _. k)) in
      let one = then_kill-Passes config host p m.first m.first_alive all in
      let w4 = kill_cell config host p (write new placed w2) in
      let two =
        then_kill-Passes config host q (one.stays q m.second)
          (one.spared q m.second m.differ ∙ m.second_alive) (Passes-refl w4 one.orderly) in
      let both =
        Passes-weaken {dies' = among config host fresh p q} {n' = births config host fresh}
          (λ x d. ground arith) (omega arith) (Passes-trans one two) in
      branch config host fresh p q w _ _ _ (λ h. both)
        (λ h. still config host fresh p q w m.orderly)

  nothing-IsFair : Fair (λ p q w. w)
  nothing-IsFair p q w m = still config host fresh p q w m.orderly

  visit-IsFair : (k l : Kind) → Fair (visit config host k l)
  unfolding visit
  visit-IsFair Kind.avatar Kind.avatar = avatar_avatar-IsFair
  visit-IsFair Kind.avatar Kind.food = avatar_food-IsFair
  visit-IsFair Kind.avatar Kind.bullet = avatar_bullet-IsFair
  visit-IsFair Kind.avatar Kind.virus = avatar_virus-IsFair
  visit-IsFair Kind.avatar Kind.phage = avatar_phage-IsFair
  visit-IsFair Kind.avatar Kind.mother = avatar_mother-IsFair
  visit-IsFair Kind.food Kind.avatar = flipped-IsFair config host fresh _ avatar_food-IsFair
  visit-IsFair Kind.food Kind.food = nothing-IsFair
  visit-IsFair Kind.food Kind.bullet = nothing-IsFair
  visit-IsFair Kind.food Kind.virus = flipped-IsFair config host fresh _ trap_food-IsFair
  visit-IsFair Kind.food Kind.phage = flipped-IsFair config host fresh _ trap_food-IsFair
  visit-IsFair Kind.food Kind.mother = flipped-IsFair config host fresh _ mother_food-IsFair
  visit-IsFair Kind.bullet Kind.avatar = flipped-IsFair config host fresh _ avatar_bullet-IsFair
  visit-IsFair Kind.bullet Kind.food = nothing-IsFair
  visit-IsFair Kind.bullet Kind.bullet = nothing-IsFair
  visit-IsFair Kind.bullet Kind.virus = flipped-IsFair config host fresh _ trap_bullet-IsFair
  visit-IsFair Kind.bullet Kind.phage = flipped-IsFair config host fresh _ trap_bullet-IsFair
  visit-IsFair Kind.bullet Kind.mother = flipped-IsFair config host fresh _ mother_bullet-IsFair
  visit-IsFair Kind.virus Kind.avatar = flipped-IsFair config host fresh _ avatar_virus-IsFair
  visit-IsFair Kind.virus Kind.food = trap_food-IsFair
  visit-IsFair Kind.virus Kind.bullet = trap_bullet-IsFair
  visit-IsFair Kind.virus Kind.virus = merge_into-IsFair virus
  visit-IsFair Kind.virus Kind.phage = merge_into-IsFair mother
  visit-IsFair Kind.virus Kind.mother = flipped-IsFair config host fresh _ mother_absorbs-IsFair
  visit-IsFair Kind.phage Kind.avatar = flipped-IsFair config host fresh _ avatar_phage-IsFair
  visit-IsFair Kind.phage Kind.food = trap_food-IsFair
  visit-IsFair Kind.phage Kind.bullet = trap_bullet-IsFair
  visit-IsFair Kind.phage Kind.virus = flipped-IsFair config host fresh _ (merge_into-IsFair mother)
  visit-IsFair Kind.phage Kind.phage = merge_into-IsFair phage
  visit-IsFair Kind.phage Kind.mother = flipped-IsFair config host fresh _ mother_absorbs-IsFair
  visit-IsFair Kind.mother Kind.avatar = flipped-IsFair config host fresh _ avatar_mother-IsFair
  visit-IsFair Kind.mother Kind.food = mother_food-IsFair
  visit-IsFair Kind.mother Kind.bullet = mother_bullet-IsFair
  visit-IsFair Kind.mother Kind.virus = mother_absorbs-IsFair
  visit-IsFair Kind.mother Kind.phage = mother_absorbs-IsFair
  visit-IsFair Kind.mother Kind.mother = nothing-IsFair

  -- Two live cells of an orderly room, where an interaction finds numbers enough for what it may create:
  -- when a cell meets the other one in a query, the room stays orderly, so that a cell that is killed
  -- waits for its death once, no other cell is killed, and at most one number more than the number of
  -- avatars that a player may have is taken.
  pub meet-Passes :
      (p q : ℕ) (w : World F)
      → live w.room p ≡ true
      → live w.room q ≡ true
      → w.room.next_ids.next_id + births config host fresh < 2 ^ 32
      → IsOrderly w
      → Passes
          (among config host fresh p q)
          (births config host fresh)
          w
          (meet config host p q w).state
  unfolding meet interact
  meet-Passes p q w lp lq room o =
      if_either (Passes (among config host fresh p q) (births config host fresh) w)
        (not (p == q) && not (cell_at w p).zombie && not (cell_at w q).zombie) _ w
        (λ h.
          flipped-IsFair config host fresh _ (visit-IsFair (cell_at w q).kind (cell_at w p).kind) p
            q w
            (record {
              differ = ground arith;
              first = lp;
              second = lq;
              first_alive = ground arith;
              second_alive = ground arith;
              room = room;
              orderly = o;
            }))
        (λ h. still config host fresh p q w o)
