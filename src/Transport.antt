-- ===== src/Transport.antt =====
-- The send queue of src/Session.cpp. A handler that `asio::dispatch` is given runs at a later step of
-- its own; the socket answers a write or a close at a step that it chooses. The lists `accepted`,
-- `completed` and `dropped` only record what has happened. What a handler does to an empty queue is undefined in the
-- language, and is `none`.
pub mod Queue
pub mod Drain
use the_game_server.Base.{
  ℕ, zero, suc, ◌+◌, ◌-◌, ◌*◌, ◌/◌, ◌%◌, ◌^◌, ◌≤◌, ◌<◌, min, max, ◌≡◌, refl, sym, ap, subst, ◌∙◌,
  ◌≢◌, ◌↔◌, ◌⊎◌, inl, inr, Bool, true, false, not, ◌&&◌, ◌||◌, Option, none, some, List, [], ◌∷◌,
  ◌++◌, map, arith, ltb, leb, ◌==◌, if◌then◌else◌, Bool-cases, Option-cases, length, take, drop,
  All, contains, insert, erase, count,
}

pub record Transport (A : Type 0) : Type 0 where
  pub send_queue : List A
  pub closed : Bool
  -- Runs of `doWrite` that are dispatched.
  pub dispatched : ℕ
  -- The buffer of the `async_write` that has not been answered.
  pub in_flight : Option A
  -- Whether an `async_close` has not been answered.
  pub closing : Bool
  pub accepted : List A
  pub completed : List A
  pub dropped : List A

pub data Event (A : Type 0) : Type 0 where
  sends : A → Event A
  closes runs_write write_answered close_answered : Event A

module _ {A : Type 0} where
  unfoldable pub opened : Transport A
  opened = record {
    send_queue = [];
    closed = false;
    dispatched = 0;
    in_flight = none;
    closing = false;
    accepted = [];
    completed = [];
    dropped = [];
  }

  unfoldable pub do_send : Transport A → A → Transport A
  do_send s buffer = if s.closed then s else record s {
    send_queue = s.send_queue ++ buffer ∷ [];
    accepted = s.accepted ++ buffer ∷ [];
    dispatched =
        if length (s.send_queue ++ buffer ∷ []) == 1 then s.dispatched + 1 else s.dispatched;
  }

  pub do_close : Transport A → Transport A
  do_close s = if s.closed then s else record s { closed = true; closing = true }

  write_front : Transport A → List A → Option (Transport A)
  write_front s [] = none
  write_front s (buffer ∷ rest) = some (record s { in_flight = some buffer })

  pub do_write : Transport A → Option (Transport A)
  unfolding write_front
  do_write s = if s.closed then some s else write_front s s.send_queue

  pop_front : Transport A → List A → Option (Transport A)
  pop_front s [] = none
  pop_front s (buffer ∷ rest) = some (record s {
    send_queue = rest;
    completed = s.completed ++ buffer ∷ [];
    dispatched = if length rest == 0 then s.dispatched else s.dispatched + 1;
  })

  -- An error is logged, and the queue goes on all the same.
  pub on_write : Transport A → Option (Transport A)
  unfolding pop_front
  on_write s = pop_front s s.send_queue

  pub on_close : Transport A → Transport A
  on_close s = record s { send_queue = []; dropped = s.send_queue ++ s.dropped }

  -- A dispatched handler runs if there is one; the socket answers only what it was asked, and answers
  -- a write that is under way before it answers a close. Any other event does not happen.
  unfoldable pub step : Transport A → Event A → Option (Transport A)
  unfolding do_send do_close do_write on_write on_close
  step s (sends buffer) = some (do_send s buffer)
  step s closes = some (do_close s)
  step s runs_write =
      if ltb 0 s.dispatched then do_write (record s { dispatched = s.dispatched - 1 }) else some s
  step s write_answered = elim s.in_flight [
    | none ↦ some s
    | some buffer ↦ on_write (record s { in_flight = none })
  ]
  step s close_answered = elim s.in_flight [
    | none ↦ if s.closing then some (on_close (record s { closing = false })) else some s
    | some buffer ↦ some s
  ]

  unfoldable pub run : Transport A → List (Event A) → Option (Transport A)
  run s [] = some s
  run s (e ∷ es) = elim (step s e) [ none ↦ none | some t ↦ run t es ]
