-- ===== src/Contexts/Settling.antt =====
-- The handlers of src/Room.cpp that run in the two contexts keep a room orderly; those of deaths need the
-- context of the game to be empty.
use the_game_server.Contexts.{splits}
use the_game_server.Geometry.{◌*V◌}
use the_game_server.Registries.Events.{
  on_cell_mass_change, on_avatar_mass_change, on_mass_change, on_motion_started, on_motion_stopped,
}
use the_game_server.Registries.Moving.{started-IsSound, stopped-IsSound, mass-IsSound}
use the_game_server.World.Births.{All-live, create-Passes}
use the_game_server.Entity.{Kind, mother}
use the_game_server.Interaction.{grow}
use the_game_server.World.{Host, World, cell_at, create_cell, write, random_direction, draw}
use the_game_server.Base.{
  ℕ, zero, suc, ◌+◌, ◌*◌, ◌^◌, ◌<◌, ◌≡◌, refl, true, List, arith, ◌==◌, count, if_either,
}
use the_game_server.Base.Float.{Float}
use the_game_server.Config.{RoomConfig}
use the_game_server.Contexts.{explode_mother, handle_start, throw_mother, throw_mothers, in_room}
use the_game_server.Registries.Sound.{live}
use the_game_server.World.Orderly.{
  IsOrderly, Passes, nobody, Passes-refl, Passes-weaken, Passes-then, Passes-trans, write-Passes,
}
use the_game_server.Interaction.Steps.{grow-Passes, aside-Passes, moved-Passes}

module _ {F : Type 0} ⦃f : Float F⦄ (config : RoomConfig F) (host : Host F) where
  started-Passes :
      (p : ℕ) (w : World F)
      → live w.room p ≡ true
      → IsOrderly w
      → Passes nobody 0 w (in_room config host (on_motion_started p) w)
  unfolding on_motion_started
  started-Passes p w l o = record {
    orderly = record {
      sound = started-IsSound p w.room l o.sound;
      game_live = o.game_live;
      deaths_once = o.deaths_once;
    };
    stays = λ q h. h;
    spared = λ q h d. refl;
    numbers = omega arith;
  }

  pub stopped-Passes :
      (p : ℕ) (w : World F)
      → live w.room p ≡ true
      → IsOrderly w
      → Passes nobody 0 w (in_room config host (on_motion_stopped p) w)
  unfolding on_motion_stopped
  stopped-Passes p w l o = record {
    orderly = record {
      sound = stopped-IsSound p w.room l o.sound;
      game_live = o.game_live;
      deaths_once = o.deaths_once;
    };
    stays = λ q h. h;
    spared = λ q h d. refl;
    numbers = omega arith;
  }

  pub counted-Passes :
      (k : Kind) (p : ℕ) (delta : F) (w : World F)
      → live w.room p ≡ true
      → IsOrderly w
      → Passes nobody 0 w (in_room config host (on_mass_change k p delta) w)
  unfolding on_mass_change on_avatar_mass_change on_cell_mass_change
  counted-Passes k p delta w l o = record {
    orderly = record {
      sound = mass-IsSound k p delta w.room l o.sound;
      game_live =
          All-live config w.room (on_mass_change k p delta w.room) w.game (λ q h. ground arith)
            o.game_live;
      deaths_once = λ q. ground (arith, o.deaths_once q);
    };
    stays = λ q h. ground arith;
    spared = λ q h d. ground arith;
    numbers = ground arith;
  }

  pub handle_start-Passes :
      (k : Kind) (p : ℕ) (w : World F)
      → live w.room p ≡ true
      → IsOrderly w
      → Passes nobody 0 w (handle_start config host k p w)
  unfolding handle_start
  handle_start-Passes Kind.avatar p w l o = started-Passes p w l o
  handle_start-Passes Kind.virus p w l o = started-Passes p w l o
  handle_start-Passes Kind.phage p w l o = started-Passes p w l o
  handle_start-Passes Kind.food p w l o = Passes-refl w o
  handle_start-Passes Kind.bullet p w l o = Passes-refl w o
  handle_start-Passes Kind.mother p w l o = Passes-refl w o

  module _ (fresh : (cells : List ℕ) → count (host.address cells) cells ≡ 0) where
    throw_mother-Passes :
        (p : ℕ) (w : World F)
        → w.room.next_ids.next_id + 1 < 2 ^ 32
        → IsOrderly w
        → Passes nobody 1 w (throw_mother config host p w)
    unfolding throw_mother ◌*V◌
    throw_mother-Passes p w room o =
        let new = host.address w.room.cells in
        let (born, l, _) = create-Passes config host mother w fresh room o in
        let w1 = create_cell config host mother w in
        let placed = record (cell_at w1 new) { position = (cell_at w1 p).position } in
        let r = write-Passes new placed w1 (refl, refl, refl) born.orderly in
        let w2 = write new placed w1 in
        let g =
          grow-Passes config host new (f.of_ℕ config.mother.mass) w2 (r.stays new l) r.orderly in
        let w3 = grow config host new (f.of_ℕ config.mother.mass) w2 in
        let d = aside-Passes w3.audience w3.timers (w3.drawn + 1) w3 g.orderly in
        let m =
          moved-Passes config host new (random_direction host w3 *V f.of_ℕ config.explode_velocity)
            (draw w3) (d.stays new (g.stays new (r.stays new l))) d.orderly in
        Passes-weaken (λ x h. h) (omega arith)
          (Passes-trans born (Passes-then r (λ _. Passes-then g (λ _. Passes-then d (λ _. m)))))

    throw_mothers-Passes :
        (n p : ℕ) (w : World F)
        → w.room.next_ids.next_id + n < 2 ^ 32
        → IsOrderly w
        → Passes nobody n w (throw_mothers config host n p w)
    unfolding throw_mothers
    throw_mothers-Passes zero p w room o = Passes-refl w o
    throw_mothers-Passes (suc n) p w room o =
        let k = throw_mother-Passes p w (omega arith) o in
        Passes-weaken (λ x h. h) (omega arith)
          (Passes-trans k (
            throw_mothers-Passes n p (throw_mother config host p w) (omega (arith, k.numbers))
              k.orderly))

    pub explode_mother-Passes :
        (p : ℕ) (w : World F)
        → live w.room p ≡ true
        → w.room.next_ids.next_id + splits config host (cell_at w p) < 2 ^ 32
        → IsOrderly w
        → Passes nobody (splits config host (cell_at w p)) w (explode_mother config host p w)
    unfolding explode_mother
    explode_mother-Passes p w l room o =
        let loss = f.neg (f.of_ℕ (splits config host (cell_at w p) * config.mother.mass)) in
        let g = grow-Passes config host p loss w l o in
        let t =
          throw_mothers-Passes (splits config host (cell_at w p)) p (grow config host p loss w)
            (omega (arith, g.numbers, room)) g.orderly in
        let idle =
          Passes-weaken {n' = splits config host (cell_at w p)} (λ x h. h) (omega arith)
            (Passes-refl w o) in
        let thrown = Passes-then g (λ _. t) in
        if_either (Passes nobody (splits config host (cell_at w p)) w)
          (splits config host (cell_at w p) == 0) w _ (λ h. idle) (λ h. thrown)
