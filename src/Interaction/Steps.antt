-- ===== src/Interaction/Steps.antt =====
-- The steps that interactions of src/entity/*.cpp and `onAvatarExplode` of src/Player.cpp are made of keep
-- a room orderly.
use the_game_server.World.{with_player, edit_player, draw, cell_at, player_at}
use the_game_server.Base.{
  ℕ, zero, suc, ◌+◌, ◌^◌, ◌<◌, ◌≡◌, refl, ◌∙◌, true, false, Option, none, some, List, arith, ◌==◌,
  count,
}
use the_game_server.Base.Float.{Float, ◌+F◌}
use the_game_server.Audience.{Audience}
use the_game_server.Config.{RoomConfig}
use the_game_server.World.{Host, Timers, World}
use the_game_server.Entity.Avatars.{
  change_mass, check_recombined, start_recombination, assign_mass, set_avatar_mass,
}
use the_game_server.Entity.Motion.{modify_velocity, set_mass}
use the_game_server.Interaction.{
  add_avatar, devour, grow, kill_cell, set_killer, throw_part, throw_parts, wake_player, act,
  wake_up, create_cell, write, random_direction,
}
use the_game_server.Geometry.{Vec2D, ◌+V◌, ◌*V◌}
use the_game_server.Registries.Sound.{live}
use the_game_server.World.Orderly.{
  IsOrderly, Passes, Passes-weaken, nobody, IsHarmless, Passes-refl, Passes-trans, act-Passes,
  write-Passes, Passes-then,
}
use the_game_server.World.Births.{kill-Passes, create-Passes}
use the_game_server.Entity.{avatar}

module _ {F : Type 0} ⦃f : Float F⦄ where
  -- What touches neither the registries nor what waits.
  pub aside-Passes :
      (audience : Audience F) (timers : ℕ → Timers) (drawn : ℕ) (w : World F)
      → IsOrderly w
      → Passes nobody 0 w (record w { audience = audience; timers = timers; drawn = drawn })
  aside-Passes audience timers drawn w o = record {
    orderly = record { sound = o.sound; game_live = o.game_live; deaths_once = o.deaths_once };
    stays = λ q h. h;
    spared = λ q h d. refl;
    numbers = omega arith;
  }

module _ {F : Type 0} ⦃f : Float F⦄ (config : RoomConfig F) (host : Host F) where
  change_mass-IsHarmless : (value : F) → IsHarmless (change_mass config host.pi value)
  unfolding change_mass assign_mass set_mass set_avatar_mass
  change_mass-IsHarmless value c = ground arith

  pub grow-Passes :
      (p : ℕ) (value : F) (w : World F)
      → live w.room p ≡ true
      → IsOrderly w
      → Passes nobody 0 w (grow config host p value w)
  unfolding grow
  grow-Passes p value w l o =
      act-Passes p (change_mass config host.pi value) w (change_mass-IsHarmless value) l o

  pub moved-Passes :
      (p : ℕ) (value : Vec2D F) (w : World F)
      → live w.room p ≡ true
      → IsOrderly w
      → Passes nobody 0 w (act p (modify_velocity value) w)
  unfolding modify_velocity
  moved-Passes p value w l o = act-Passes p (modify_velocity value) w (λ c. ground arith) l o

  pub recombining-Passes :
      (p : ℕ) (w : World F)
      → live w.room p ≡ true
      → IsOrderly w
      → Passes nobody 0 w (act p (start_recombination config host.now) w)
  unfolding start_recombination
  recombining-Passes p w l o =
      act-Passes p (start_recombination config host.now) w (λ c. ground arith) l o

  pub asked-Passes :
      (p : ℕ) (w : World F)
      → live w.room p ≡ true
      → IsOrderly w
      → Passes nobody 0 w (act p (check_recombined host.now) w)
  unfolding check_recombined
  asked-Passes p w l o = act-Passes p (check_recombined host.now) w (λ c. ground arith) l o

  pub wake_player-Passes :
      (p : ℕ) (w : World F) → IsOrderly w → Passes nobody 0 w (wake_player config host p w)
  unfolding wake_player
  wake_player-Passes p w o = of_player (cell_at w p).player
    where
      of_player : (q : Option ℕ) → Passes nobody 0 w (with_player q (wake_up config host) w)
      of_player none = Passes-refl w o
      of_player (some q) = aside-Passes w.audience (wake_up config host q w).timers w.drawn w o

  set_killer-Passes :
      (dead killer : Option ℕ) (w : World F)
      → IsOrderly w
      → Passes nobody 0 w (set_killer config host dead killer w)
  unfolding set_killer with_player edit_player
  set_killer-Passes none killer w o = Passes-refl w o
  set_killer-Passes (some q) killer w o =
      aside-Passes (edit_player q (λ player. record player { killer = killer }) w).audience w.timers
        w.drawn w o

  add_avatar-Passes :
      (q p : ℕ) (w : World F) → IsOrderly w → Passes nobody 0 w (add_avatar config host q p w)
  unfolding add_avatar edit_player
  add_avatar-Passes q p w o =
      let written = record (cell_at w p) { player = some q } in
      let k = write-Passes p written w (refl, refl, refl) o in
      Passes-then k
        (aside-Passes (add_avatar config host q p w).audience w.timers w.drawn (write p written w))

  -- A death after steps that kill no one.
  pub then_kill-Passes :
      {n : ℕ} {w w' : World F} (p : ℕ)
      → live w.room p ≡ true
      → (cell_at w p).zombie ≡ false
      → Passes nobody n w w'
      → Passes (λ q. p == q) n w (kill_cell config host p w')
  unfolding kill_cell
  then_kill-Passes {n} {w} {w'} p l z k =
      Passes-weaken (λ q d. d) (omega arith)
        (Passes-trans k (kill-Passes config p w' (k.stays p l) (k.spared p l refl ∙ z) k.orderly))

  pub devour-Passes :
      (attacker defender : ℕ) (w : World F)
      → live w.room attacker ≡ true
      → live w.room defender ≡ true
      → (cell_at w defender).zombie ≡ false
      → IsOrderly w
      → Passes (λ q. defender == q) 0 w (devour config host attacker defender w)
  unfolding devour
  devour-Passes a b w la lb z o =
      let k = then_kill-Passes b lb z (grow-Passes a (cell_at w b).mass w la o) in
      Passes-weaken (λ q d. ground arith) (omega arith)
        (Passes-trans k (set_killer-Passes (cell_at w b).player (cell_at w a).player _ k.orderly))

  module _ (fresh : (cells : List ℕ) → count (host.address cells) cells ≡ 0) where
    throw_part-Passes :
        (q p mass : ℕ) (w : World F)
        → w.room.next_ids.next_id + 1 < 2 ^ 32
        → IsOrderly w
        → Passes nobody 1 w (throw_part config host q p mass w)
    unfolding throw_part ◌+V◌ ◌*V◌
    throw_part-Passes q p mass w room o =
        let new = host.address w.room.cells in
        let (born, l, _) = create-Passes config host avatar w fresh room o in
        let w1 = create_cell config host avatar w in
        let g = grow-Passes new (f.of_ℕ mass) w1 l born.orderly in
        let w2 = grow config host new (f.of_ℕ mass) w1 in
        let d = aside-Passes w2.audience w2.timers (w2.drawn + 1) w2 g.orderly in
        let w3 = draw w2 in
        let way = random_direction host w2 in
        let obj = cell_at w3 new in
        let thrown = record obj {
          position = (cell_at w3 p).position +V way *V ((cell_at w3 p).radius +F obj.radius);
          color = (player_at w3 q).color;
        } in
        let l3 = d.stays new (g.stays new l) in
        let r = write-Passes new thrown w3 (refl, refl, refl) d.orderly in
        let w4 = write new thrown w3 in
        let l4 = r.stays new l3 in
        let m = moved-Passes new (way *V f.of_ℕ config.explode_velocity) w4 l4 r.orderly in
        let w5 = act new (modify_velocity (way *V f.of_ℕ config.explode_velocity)) w4 in
        let s = recombining-Passes new w5 (m.stays new l4) m.orderly in
        let w6 = act new (start_recombination config host.now) w5 in
        Passes-weaken (λ x h. h) (omega arith)
          (Passes-trans born (
            Passes-then g (λ _. Passes-then d (λ _.
              Passes-then r
                (λ _. Passes-then m (λ _. Passes-then s (add_avatar-Passes q new w6)))))))

    pub throw_parts-Passes :
        (n q p mass : ℕ) (w : World F)
        → w.room.next_ids.next_id + n < 2 ^ 32
        → IsOrderly w
        → Passes nobody n w (throw_parts config host n q p mass w)
    unfolding throw_parts
    throw_parts-Passes zero q p mass w room o = Passes-refl w o
    throw_parts-Passes (suc n) q p mass w room o =
        let k = throw_part-Passes q p mass w (omega arith) o in
        Passes-weaken (λ x h. h) (omega arith)
          (Passes-trans k (
            throw_parts-Passes n q p mass (throw_part config host q p mass w)
              (omega (arith, k.numbers)) k.orderly))
