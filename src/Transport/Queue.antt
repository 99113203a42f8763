-- ===== src/Transport/Queue.antt =====
-- The handlers of src/Session.cpp never touch an empty queue, start one write at a time and keep the
-- order of the buffers.
use the_game_server.Base.{
  ℕ, ◌+◌, ◌-◌, ◌≤◌, ◌<◌, ◌≡◌, refl, ◌⊎◌, inl, inr, true, false, Option, none, some, List, [], ◌∷◌,
  ◌++◌, arith, ◌==◌, if◌then◌else◌, Option-cases, length, length-append,
}
use mathlib.Core.List.{append_assoc, append-nil}
use the_game_server.Transport.{
  Transport, opened, step, run, Event, do_send, do_write, on_write, sends, do_close, on_close,
  closes, runs_write, write_answered, close_answered,
}

module _ {A : Type 0} where
  abbrev writing : Option A → ℕ
  writing none = 0
  writing (some b) = 1

  -- The buffer that is being written is the front of the queue.
  abbrev IsFront : Option A → List A → Type 0
  IsFront none q = Unit
  IsFront (some b) [] = ⊥
  IsFront (some b) (c ∷ q) = b ≡ c

  -- While a session is open one write is dispatched or under way exactly if buffers wait. The
  -- completed buffers, the waiting ones and those dropped by a close are the accepted ones, in order.
  pub record IsSound (s : Transport A) : Type 0 where
    pub one_write : s.dispatched + writing s.in_flight ≤ 1
    pub busy :
        (s.closed ≡ true)
        ⊎ (s.dispatched + writing s.in_flight ≡ (if length s.send_queue == 0 then 0 else 1))
    pub front : IsFront s.in_flight s.send_queue
    pub in_order : s.completed ++ (s.send_queue ++ s.dropped) ≡ s.accepted
    pub asked : (s.closing ≡ false) ⊎ (s.closed ≡ true)
    pub kept : (s.closed ≡ true) ⊎ (s.dropped ≡ [])

  -- A step is taken, and is sound again.
  abbrev pub Goes : Option (Transport A) → Type 0
  Goes none = ⊥
  Goes (some s) = IsSound s

  append-IsFront : (o : Option A) (q r : List A) → IsFront o q → IsFront o (q ++ r)
  append-IsFront none q r h = tt
  append-IsFront (some b) [] r h = absurd h
  append-IsFront (some b) (c ∷ q) r h = h

  do_send-IsSound : (s : Transport A) (buffer : A) → IsSound s → IsSound (do_send s buffer)
  unfolding do_send
  do_send-IsSound s buffer v = ground (
    arith,
    length-append s.send_queue (buffer ∷ []),
    append-IsFront s.in_flight s.send_queue (buffer ∷ []) v.front,
    append_assoc s.completed s.send_queue (buffer ∷ []),
    append-nil s.send_queue,
    append-nil (s.send_queue ++ buffer ∷ []),
  )

  do_write-Goes :
      (s : Transport A) (q : List A)
      → q ≡ s.send_queue
      → 0 < s.dispatched
      → IsSound s
      → Goes (do_write (record s { dispatched = s.dispatched - 1 }))
  unfolding do_write
  do_write-Goes s [] e d v = ground arith
  do_write-Goes s (b ∷ q) e d v = ground arith

  on_write-Goes :
      (s : Transport A) (b : A) (q : List A)
      → q ≡ s.send_queue
      → s.in_flight ≡ some b
      → IsSound s
      → Goes (on_write (record s { in_flight = none }))
  unfolding on_write
  on_write-Goes s b [] e i v = ground arith
  on_write-Goes s b (c ∷ q) e i v =
      ground (arith, append_assoc s.completed (c ∷ []) (q ++ s.dropped))

  step-Goes : (s : Transport A) (e : Event A) → IsSound s → Goes (step s e)
  unfolding step
  step-Goes s (sends buffer) v = do_send-IsSound s buffer v
  step-Goes s closes v = unfold do_close in ground arith
  step-Goes s runs_write v = ground (arith, do_write-Goes s s.send_queue refl)
  step-Goes s write_answered v = elim (Option-cases s.in_flight) [
    | inl e ↦ ground arith
    | inr (b, e) ↦ ground (arith, on_write-Goes s b s.send_queue refl e v)
  ]
  step-Goes s close_answered v = unfold on_close in ground arith

  pub run-Goes : (s : Transport A) (es : List (Event A)) → IsSound s → Goes (run s es)
  unfolding run
  run-Goes s [] v = v
  run-Goes s (e ∷ es) v = elim (Option-cases (step s e)) [
    | inl none_ ↦ absurd (rw none_ at (step-Goes s e v))
    | inr (t, e') ↦ rw (e', run) (run-Goes t es (rw e' at (step-Goes s e v)))
  ]

  opened-IsSound : IsSound (opened {A = A})
  unfolding opened
  opened-IsSound = ground arith

  -- Whatever is sent on a new session, whenever it is closed, and however its handlers and the answers
  -- of the socket interleave: no handler meets an empty queue, there is at most one write at a time and
  -- it is that of the front of the queue, while the session is open a write is dispatched or under way
  -- exactly if buffers wait, and the completed, the waiting and the dropped buffers are the accepted
  -- ones, in the order in which they were sent. (A write under way is answered before a close.)
  pub run-opened-Goes : (es : List (Event A)) → Goes (run opened es)
  run-opened-Goes es = run-Goes opened es opened-IsSound
