-- ===== src/Contexts/Deaths.antt =====
-- The handlers of deaths of src/Room.cpp run when the game has nothing to run: the room is settled.
use the_game_server.Base.{◌≤◌}
use the_game_server.Contexts.{mourner, handle_death, in_room, run_contexts, run_deaths, run_game}
use the_game_server.Lives.{remove_avatar, on_player_death}
use the_game_server.Entity.{Kind}
use the_game_server.Gridmap.Cells.{erase_cell}
use the_game_server.Registries.{prepare_cell_for_destruction, erase_from_gridmap, store, Registries}
use the_game_server.Registries.Events.{on_death}
use the_game_server.World.{Host, World, cell_at, with_player, edit_player}
use the_game_server.Base.{
  ℕ, ◌≡◌, refl, true, false, Option, none, some, List, [], ◌∷◌, arith, ◌==◌, if◌then◌else◌, length,
  erase, count, if_either, ◌∙◌, ◌+◌, ◌<◌, ◌^◌,
}
use the_game_server.Base.Float.{Float}
use the_game_server.Registries.Sound.{IsSound, live}
use the_game_server.World.Orderly.{IsOrderly}
use the_game_server.Config.{RoomConfig}
use the_game_server.Counting.{count-append}
use the_game_server.Registries.Dying.{on_death-IsSound}
use the_game_server.Contexts.Ending.{CountsWhole, weight}
use the_game_server.Contexts.Running.{run_game-IsIdle}

module _ {F : Type 0} where
  -- A room between two events: its registries are sound, no handler waits, and no live cell is killed.
  pub record IsSettled (w : World F) : Type 0 where
    pub sound : IsSound w.room
    pub no_game : w.game ≡ []
    pub no_deaths : w.deaths ≡ []
    pub none_killed : (p : ℕ) → live w.room p ≡ true → (w.room.memory p).zombie ≡ false

module _ {F : Type 0} ⦃f : Float F⦄ where
  -- What the death of a cell does to the room.
  record IsBuried (p : ℕ) (r s : Registries F) : Type 0 where
    pub live_then : (q : ℕ) → live s q ≡ (if p == q then false else live r q)
    pub zombie_then : (q : ℕ) → (s.memory q).zombie ≡ (r.memory q).zombie

  on_death-IsBuried :
      (k : Kind) (p : ℕ) (r : Registries F)
      → IsSound r
      → live r p ≡ true
      → IsBuried p r (on_death k p r)
  unfolding on_death prepare_cell_for_destruction erase_from_gridmap erase_cell store count
  on_death-IsBuried Kind.avatar p r o l = record {
    live_then = λ q. ground (arith, count-append q r.dead (p ∷ []));
    zombie_then = λ q. ground arith;
  }
  on_death-IsBuried Kind.food p r o l = record {
    live_then = λ q. ground (arith, count-append q r.dead (p ∷ []));
    zombie_then = λ q. ground arith;
  }
  on_death-IsBuried Kind.bullet p r o l = record {
    live_then = λ q. ground (arith, count-append q r.dead (p ∷ []));
    zombie_then = λ q. ground arith;
  }
  on_death-IsBuried Kind.virus p r o l = record {
    live_then = λ q. ground (arith, count-append q r.dead (p ∷ []));
    zombie_then = λ q. ground arith;
  }
  on_death-IsBuried Kind.phage p r o l = record {
    live_then = λ q. ground (arith, count-append q r.dead (p ∷ []));
    zombie_then = λ q. ground arith;
  }
  on_death-IsBuried Kind.mother p r o l = record {
    live_then = λ q. ground (arith, count-append q r.dead (p ∷ []));
    zombie_then = λ q. ground arith;
  }

  -- The player of an avatar changes only what the sessions see.
  remove_avatar_aside :
      (q : Option ℕ) (p : ℕ) (ps : List ℕ) (w : World F)
      → IsOrderly (record w { deaths = ps })
      → IsOrderly (record (with_player q (λ x. remove_avatar x p) w) { deaths = ps })
  unfolding with_player remove_avatar on_player_death edit_player
  remove_avatar_aside none p ps w o = o
  remove_avatar_aside (some q) p ps w o =
      if_either (λ v. IsOrderly (record v { deaths = ps }))
        (length
            ((edit_player q (λ player. record player { avatars = erase p player.avatars })
                w).audience.player_of
              q).avatars
          == 0)
        (on_player_death q
          (edit_player q (λ player. record player { avatars = erase p player.avatars }) w))
        (edit_player q (λ player. record player { avatars = erase p player.avatars }) w)
        (λ h. record { sound = o.sound; game_live = o.game_live; deaths_once = o.deaths_once })
        (λ h. record { sound = o.sound; game_live = o.game_live; deaths_once = o.deaths_once })

  handle_death-IsOrderly :
      (config : RoomConfig F) (host : Host F) (p : ℕ) (ps : List ℕ) (w : World F)
      → w.game ≡ []
      → IsOrderly (record w { deaths = p ∷ ps })
      → IsOrderly (record (handle_death config host p w) { deaths = ps })
  unfolding handle_death count
  handle_death-IsOrderly config host p ps w idle o =
      let l : live w.room p ≡ true = ground (arith, o.deaths_once p) in
      let b = on_death-IsBuried (cell_at w p).kind p w.room o.sound l in
      let s = on_death-IsSound (cell_at w p).kind p w.room refl l o.sound in
      remove_avatar_aside (mourner config host (cell_at w p)) p ps
        (in_room config host (on_death (cell_at w p).kind p) w)
        (record {
          sound = s;
          game_live = rw idle tt;
          deaths_once = λ q. ground (arith, o.deaths_once q, b.live_then q, b.zombie_then q);
        })

  -- Deaths post nothing.
  remove_avatar_quiet :
      (q : Option ℕ) (p : ℕ) (w : World F)
      → ((with_player q (λ x. remove_avatar x p) w).game ≡ w.game)
        × ((with_player q (λ x. remove_avatar x p) w).deaths ≡ w.deaths)
  unfolding with_player remove_avatar on_player_death edit_player
  remove_avatar_quiet none p w = (refl, refl)
  remove_avatar_quiet (some q) p w =
      if_either (λ v. (v.game ≡ w.game) × (v.deaths ≡ w.deaths))
        (length
            ((edit_player q (λ player. record player { avatars = erase p player.avatars })
                w).audience.player_of
              q).avatars
          == 0)
        (on_player_death q
          (edit_player q (λ player. record player { avatars = erase p player.avatars }) w))
        (edit_player q (λ player. record player { avatars = erase p player.avatars }) w)
        (λ h. (refl, refl)) (λ h. (refl, refl))

  handle_death_quiet :
      (config : RoomConfig F) (host : Host F) (p : ℕ) (w : World F)
      → ((handle_death config host p w).game ≡ w.game)
        × ((handle_death config host p w).deaths ≡ w.deaths)
  unfolding handle_death
  handle_death_quiet config host p w =
      remove_avatar_quiet (mourner config host (cell_at w p)) p
        (in_room config host (on_death (cell_at w p).kind p) w)

  run_deaths-IsSettled :
      (config : RoomConfig F) (host : Host F) (ps : List ℕ) (w : World F)
      → w.game ≡ []
      → w.deaths ≡ []
      → IsOrderly (record w { deaths = ps })
      → IsSettled (run_deaths config host ps w)
  unfolding run_deaths count
  run_deaths-IsSettled config host [] w idle calm o = record {
    sound = o.sound;
    no_game = idle;
    no_deaths = calm;
    none_killed = λ p l. ground (arith, o.deaths_once p);
  }
  run_deaths-IsSettled config host (p ∷ ps) w idle calm o =
      let quiet = handle_death_quiet config host p w in
      run_deaths-IsSettled config host ps (handle_death config host p w) (quiet.0 ∙ idle)
        (quiet.1 ∙ calm) (handle_death-IsOrderly config host p ps w idle o)

  module _ (config : RoomConfig F) (host : Host F) where
    -- From an orderly room, where the allocator gives unused addresses, whole numbers up to 2 ^ 24 are counted
    -- exactly, the mass of one mother is from 1 to 2 ^ 24, and numbers are left for all that the mothers may
    -- throw, of which none is heavier than 2 ^ 24, since the weight counts 2 ^ 32 for one that is: the two
    -- contexts, run one after the other for the weight of what waits, leave a settled room: its registries
    -- are sound, no handler waits in either context, and no live cell is killed.
    pub run_contexts-IsSettled :
        (fresh : (cells : List ℕ) → count (host.address cells) cells ≡ 0) (whole : CountsWhole F)
        (one : 1 ≤ config.mother.mass) (small : config.mother.mass ≤ 2 ^ 24) (w : World F)
        → w.room.next_ids.next_id + weight config host w < 2 ^ 32
        → IsOrderly w
        → IsSettled (run_contexts config host (weight config host w) w)
    unfolding run_contexts
    run_contexts-IsSettled fresh whole one small w room o =
        let n = weight config host w in
        let (o', idle) =
          run_game-IsIdle config host fresh whole one small n w (omega arith) room o in
        let w' = run_game config host n w in
        run_deaths-IsSettled config host w'.deaths (record w' { deaths = [] }) idle refl
          (record { sound = o'.sound; game_live = o'.game_live; deaths_once = o'.deaths_once })
