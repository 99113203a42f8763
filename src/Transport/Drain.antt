-- ===== src/Transport/Drain.antt =====
-- An open session of src/Session.cpp sends everything that waits.
use the_game_server.Base.{
  ℕ, zero, suc, ◌≡◌, refl, sym, subst, ◌∙◌, false, none, some, List, [], ◌∷◌, ◌++◌, arith, ◌==◌,
  if◌then◌else◌, length,
}
use mathlib.Core.List.{append-nil}
use the_game_server.Transport.{
  Transport, Event, runs_write, write_answered, opened, step, run, do_write, on_write,
}
use the_game_server.Transport.Queue.{IsSound, Goes, run-Goes, run-opened-Goes}

module _ {A : Type 0} where
  -- So many times, a dispatched handler runs and the socket answers.
  pub rounds : ℕ → List (Event A)
  rounds zero = []
  rounds (suc n) = runs_write ∷ write_answered ∷ rounds n

  abbrev advanced : Transport A → A → List A → Transport A
  advanced s b rest = record s {
    send_queue = rest;
    completed = s.completed ++ b ∷ [];
    in_flight = none;
    dispatched = if length rest == 0 then 0 else 1;
  }

  module _ (s : Transport A) (b : A) (rest : List A) (waits : b ∷ rest ≡ s.send_queue)
      (open_ : s.closed ≡ false) (v : IsSound s) where
    step_twice :
        (es : List (Event A))
        → run s (runs_write ∷ write_answered ∷ es) ≡ run (advanced s b rest) es
    unfolding run step do_write on_write
    step_twice es = ground arith

    advanced-IsSound : IsSound (advanced s b rest)
    unfolding run
    advanced-IsSound =
        subst Goes (step_twice []) ((run-Goes s (runs_write ∷ write_answered ∷ []) v))

  drained :
      (q : List A) (s : Transport A)
      → q ≡ s.send_queue
      → s.closed ≡ false
      → IsSound s
      → (t : Transport A) × (run s (rounds (length q)) ≡ some t)
        × (t.send_queue ≡ [])
        × (t.completed ≡ s.accepted)
  unfolding run rounds
  drained [] s e o v = (s, refl, sym e, ground (arith, append-nil s.completed))
  drained (b ∷ rest) s e o v =
      let (t, r, d, c) =
        drained rest (advanced s b rest) refl o (advanced-IsSound s b rest e o v) in
      (t, step_twice s b rest e o v (rounds (length rest)) ∙ r, d, c)

  -- An open session stops only when it has sent everything: from any state that the events reach, if
  -- it is open, as many rounds as buffers wait empty the queue, and all that was accepted is completed,
  -- in order.
  pub run_drains :
      (es : List (Event A)) (s : Transport A)
      → run opened es ≡ some s
      → s.closed ≡ false
      → (t : Transport A) × (run s (rounds (length s.send_queue)) ≡ some t)
        × (t.send_queue ≡ [])
        × (t.completed ≡ s.accepted)
  run_drains es s e o = drained s.send_queue s refl o (rw e at (run-opened-Goes es))
