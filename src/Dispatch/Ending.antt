-- ===== src/Dispatch/Ending.antt =====
-- The loop of `sessionMessageHandler`, src/Application.cpp, ends.
use the_game_server.Base.{
  ℕ, zero, suc, ◌+◌, ◌≤◌, ◌≡◌, refl, ap, Bool, true, false, Option, none, some, List, [], ◌∷◌,
  arith, ◌==◌, if◌then◌else◌, length, ℤ,
}
use the_game_server.Base.{length-drop}
use the_game_server.Wire.{
  Buffer, Reader, Outcome, pure, ◌>>=◌, deserialize, deserialize_string, bytes, not_enough,
}
use the_game_server.Dispatch.{
  Command, Handled, handler_of, user_after, record_command, add_command, handle_messages,
  read_point, read_player, read_play, read_text, pings, says, greets_again, greets, moves, ejects,
  splits, spectates, watches, ok, run_handler,
}

-- A reader that leaves no more than it was given.
abbrev Shrinks : {A : Type 0} → Reader A → Type 0
Shrinks r = (buffer : Buffer) → length (r buffer).1 ≤ length buffer

deserialize-Shrinks : (size : ℕ) → Shrinks (deserialize size)
unfolding deserialize
deserialize-Shrinks size buffer = ground (arith, length-drop size buffer)

bytes-Shrinks : (size : ℕ) → Shrinks (bytes size)
unfolding bytes
bytes-Shrinks size buffer = ground (arith, length-drop size buffer)

-- What follows a reader that left no more than a bound.
next-bound :
    (next : ℕ → Reader (List ℕ)) (bound : ℕ) (o : Outcome ℕ) (rest : Buffer)
    → length rest ≤ bound
    → ((n : ℕ) → Shrinks (next n))
    → length (◌>>=◌ {A = ℕ} {B = List ℕ} (λ b. (o, rest)) next []).1 ≤ bound
next-bound next bound (ok n) rest h hn = omega (arith, hn n rest)
next-bound next bound not_enough rest h hn = h

string-Shrinks : Shrinks deserialize_string
unfolding deserialize_string
string-Shrinks buffer =
    next-bound bytes (length buffer) (deserialize 2 buffer).0 (deserialize 2 buffer).1
      (deserialize-Shrinks 2 buffer) bytes-Shrinks

point-Shrinks : (command : ℤ → ℤ → Command) → Shrinks (read_point command)
unfolding read_point
point-Shrinks command buffer =
    ground (arith, deserialize-Shrinks 2 buffer, deserialize-Shrinks 2 (deserialize 2 buffer).1)

player-Shrinks : (command : ℕ → Command) → Shrinks (read_player command)
unfolding read_player
player-Shrinks command buffer = ground (arith, deserialize-Shrinks 4 buffer)

text-Shrinks : (command : List ℕ → Command) → Shrinks (read_text command)
unfolding read_text
text-Shrinks command buffer = ground (arith, string-Shrinks buffer)

play-Shrinks : Shrinks read_play
unfolding read_play
play-Shrinks buffer =
    ground (arith, string-Shrinks buffer, deserialize-Shrinks 1 (deserialize_string buffer).1)

-- Whatever there is to shrink.
abbrev AllShrink : Option (Reader Command) → Type 0
AllShrink none = Unit
AllShrink (some r) = Shrinks r

known-AllShrink :
    (b : Bool) (r : Reader Command) (rest : Option (Reader Command))
    → Shrinks r
    → AllShrink rest
    → AllShrink (if b then some r else rest)
known-AllShrink true r rest h hs = h
known-AllShrink false r rest h hs = hs

greeting-Shrinks :
    (has_user : Bool) → Shrinks (if has_user then pure greets_again else read_text greets)
greeting-Shrinks true buffer = omega arith
greeting-Shrinks false buffer = text-Shrinks greets buffer

handler_of-Shrinks : (has_user : Bool) (t : ℕ) → AllShrink (handler_of has_user t)
unfolding handler_of
handler_of-Shrinks has_user t =
    known-AllShrink (t == 1) (pure pings) _ (λ buffer. omega arith)
      (known-AllShrink (t == 2) (read_text says) _ (text-Shrinks says) (
        known-AllShrink (t == 3) _ _ (greeting-Shrinks has_user) (
          known-AllShrink (t == 4) read_play _ play-Shrinks (
            known-AllShrink (t == 5) (read_point moves) _ (point-Shrinks moves) (
              known-AllShrink (t == 6) (read_point ejects) _ (point-Shrinks ejects) (
                known-AllShrink (t == 7) (read_point splits) _ (point-Shrinks splits) (
                  known-AllShrink (t == 8) (read_player spectates) _ (player-Shrinks spectates) (
                    known-AllShrink (t == 10) (read_player watches) none (player-Shrinks watches)
                      (record {})))))))))

length-add_command :
    (o : Outcome Command) (h : Handled) → length (add_command o h).commands ≤ length h.commands + 1
unfolding add_command record_command
length-add_command (ok c) h = omega arith
length-add_command not_enough h = omega arith

left-add_command : (o : Outcome Command) (h : Handled) → (add_command o h).left ≡ h.left
unfolding add_command
left-add_command o h = refl

handle_empty :
    (gets_user : Buffer → Bool) (n : ℕ) (has_user : Bool)
    → handle_messages gets_user n has_user [] ≡ record { commands = []; left = [] }
unfolding handle_messages
handle_empty gets_user zero has_user = refl
handle_empty gets_user (suc n) has_user = refl

-- A round ends if the rounds after it end on what it leaves.
run_handler_ends :
    (gets_user : Buffer → Bool) (r : Option (Reader Command)) (has_user : Bool) (rest : Buffer)
    (next next' : Bool → Buffer → Handled)
    → AllShrink r
    → ((u : Bool) (b : Buffer)
        → length b ≤ length rest
        → (next u b ≡ next' u b) × (length (next u b).commands + length (next u b).left ≤ length b))
    → let h = run_handler gets_user r has_user rest next in
      (h ≡ run_handler gets_user r has_user rest next')
      × (length h.commands + length h.left ≤ length rest + 1)
unfolding run_handler
run_handler_ends gets_user none has_user rest next next' s ends = (refl, omega arith)
run_handler_ends gets_user (some read) has_user rest next next' s ends =
    let (o, left) = read rest in
    let (same, few) = ends (user_after (gets_user left) has_user o) left (s rest) in
    (
      ap (add_command o) same,
      omega (
        arith,
        few,
        s rest,
        length-add_command o (next (user_after (gets_user left) has_user o) left),
        ap length (left-add_command o (next (user_after (gets_user left) has_user o) left)),
      ),
    )

-- With any two amounts of fuel that are the length of the buffer or more the loop does the same, so that
-- it has ended; and it executes at most one command for each byte that it consumes, whatever the bytes
-- are, whether or not the session has a user, and whether or not its greetings get one.
pub handle_messages_ends :
    (gets_user : Buffer → Bool) (n m : ℕ) (has_user : Bool) (buffer : Buffer)
    → length buffer ≤ n
    → length buffer ≤ m
    → let h = handle_messages gets_user n has_user buffer in
      (h ≡ handle_messages gets_user m has_user buffer)
      × (length h.commands + length h.left ≤ length buffer)
unfolding handle_messages
handle_messages_ends gets_user n m has_user [] hn hm =
    rw (handle_empty gets_user n has_user, handle_empty gets_user m has_user) (refl, omega arith)
handle_messages_ends gets_user zero m has_user (t ∷ rest) hn hm = absurd (omega arith)
handle_messages_ends gets_user (suc n) zero has_user (t ∷ rest) hn hm = absurd (omega arith)
handle_messages_ends gets_user (suc n) (suc m) has_user (t ∷ rest) hn hm =
    let (same, few) =
      run_handler_ends gets_user (handler_of has_user t) has_user rest (handle_messages gets_user n)
        (handle_messages gets_user m) (handler_of-Shrinks has_user t)
        (λ u b h. handle_messages_ends gets_user n m u b (omega arith) (omega arith)) in
    (same, omega arith)
