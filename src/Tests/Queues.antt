-- ===== src/Tests/Queues.antt =====
-- Send queues.
use the_game_server.Base.{ℕ, ◌≡◌, refl, false, some, List, [], ◌∷◌, length}
use the_game_server.Transport.{
  Transport, Event, opened, run, sends, do_send, runs_write, write_answered, step,
}
use the_game_server.Transport.Queue.{run-opened-Goes, Goes}
use the_game_server.Transport.Drain.{run_drains, rounds}

-- Two buffers are sent, the first write completes, and the second is under way.
abbrev events : List (Event ℕ)
events = sends 5 ∷ sends 6 ∷ runs_write ∷ write_answered ∷ runs_write ∷ []

run-opened-Goes_example : Goes (run opened events)
run-opened-Goes_example = run-opened-Goes events

-- Two buffers wait.
abbrev two_sent : Transport ℕ
unfolding opened do_send
two_sent = do_send (do_send opened 5) 6

two_sent_reached : run opened (sends 5 ∷ sends 6 ∷ []) ≡ some two_sent
unfolding run step two_sent
two_sent_reached = refl

two_sent_open : two_sent.closed ≡ false
unfolding two_sent
two_sent_open = refl

run_drains_example :
    (t : Transport ℕ) × (run two_sent (rounds (length two_sent.send_queue)) ≡ some t)
    × (t.send_queue ≡ [])
    × (t.completed ≡ two_sent.accepted)
run_drains_example = run_drains (sends 5 ∷ sends 6 ∷ []) two_sent two_sent_reached two_sent_open
