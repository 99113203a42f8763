-- ===== src/Timers.antt =====
-- src/Timer.cpp and src/EventEmitter.hpp, and what src/Room.cpp starts and stops. The executor runs the
-- handlers that are posted to it in their order.
pub mod Rates
use the_game_server.Base.{
  ℕ, zero, suc, ◌+◌, ◌-◌, ◌*◌, ◌/◌, ◌%◌, ◌^◌, ◌≤◌, ◌<◌, min, max, ◌≡◌, refl, sym, ap, subst, ◌∙◌,
  ◌≢◌, ◌↔◌, ◌⊎◌, inl, inr, Bool, true, false, not, ◌&&◌, ◌||◌, Option, none, some, List, [], ◌∷◌,
  ◌++◌, map, arith, ltb, leb, ◌==◌, if◌then◌else◌, Bool-cases, Option-cases, length, take, drop,
  All, contains, insert, erase, count,
}
use the_game_server.Audience.{emplace, erase_key}
use the_game_server.Config.{Generator, RoomConfig}

-- The wait that is under way ends at the expiration time, unless it was cancelled.
pub record Timer : Type 0 where
  pub interval : ℕ
  pub expiration_time : ℕ
  pub waiting : Bool

unfoldable pub set_interval : ℕ → Timer → Timer
set_interval interval t = record t { interval = interval }

unfoldable pub tick : Timer → Timer
tick t = record t { expiration_time = t.expiration_time + t.interval; waiting = true }

unfoldable pub start_timer : ℕ → Timer → Timer
unfolding tick
start_timer now t = tick (record t { expiration_time = now })

-- `m_timer.cancel()`
unfoldable pub stop_timer : Timer → Timer
stop_timer t = record t { waiting = false }

-- The handler of a wait, at a time: how often the timer's own handler has run, and the next wait.
unfoldable pub wait_over : ℕ → ℕ × Timer → ℕ × Timer
unfolding tick
wait_over now (runs, t) =
    if t.waiting && leb t.expiration_time now then (runs + 1, tick t) else (runs, t)

-- The timers of a room, src/Room.cpp.
pub data RoomTimer : Type 0 where
  update sync update_leaderboard check_expirable_cells update_nearby_food generate_food_by_mothers
        food_generator virus_generator phage_generator mother_generator :
      RoomTimer

-- The timers that `start` starts, in its order.
unfoldable pub started : Generator → List RoomTimer
started g =
    (update ∷ sync ∷ update_leaderboard ∷ check_expirable_cells ∷ update_nearby_food
      ∷ generate_food_by_mothers ∷ [])
    ++ (if g.food.enabled then food_generator ∷ [] else [])
    ++ (if g.virus.enabled then virus_generator ∷ [] else [])
    ++ (if g.phage.enabled then phage_generator ∷ [] else [])
    ++ (if g.mother.enabled then mother_generator ∷ [] else [])

-- The timers that `stop` stops.
unfoldable pub stopped : List RoomTimer
stopped =
    update ∷ sync ∷ update_leaderboard ∷ check_expirable_cells ∷ update_nearby_food
    ∷ generate_food_by_mothers ∷ food_generator ∷ virus_generator ∷ phage_generator
    ∷ mother_generator ∷ []

-- The interval that `init` gives each timer.
unfoldable pub interval_of : {F : Type 0} → RoomConfig F → RoomTimer → ℕ
interval_of config update = config.update_interval
interval_of config sync = config.sync_interval
interval_of config update_leaderboard = config.leaderboard.update_interval
interval_of config check_expirable_cells = config.check_expirable_cells_interval
interval_of config update_nearby_food = config.mother.food_check_interval
interval_of config generate_food_by_mothers = config.mother.food_generation_interval
interval_of config food_generator = config.generator.food.interval
interval_of config virus_generator = config.generator.virus.interval
interval_of config phage_generator = config.generator.phage.interval
interval_of config mother_generator = config.generator.mother.interval

-- An emitter: the handlers by their tags. A tag that has a handler keeps it.
module _ {H : Type 0} where
  unfoldable pub subscribe : ℕ → H → List (ℕ × H) → List (ℕ × H)
  unfolding emplace
  subscribe tag handler subscribers = emplace tag handler subscribers

  unfoldable pub unsubscribe : ℕ → List (ℕ × H) → List (ℕ × H)
  unfolding erase_key
  unsubscribe tag subscribers = erase_key tag subscribers

  -- The handlers that are posted, after those that wait already.
  unfoldable pub emit : List (ℕ × H) → List H → List H
  emit [] posted = posted
  emit ((tag, handler) ∷ rest) posted = emit rest (posted ++ handler ∷ [])
