-- ===== src/Dispatch.antt =====
-- src/Application.cpp: the loop of `sessionMessageHandler` and what its actions read. A command is what an
-- action has read; the calls of the room that follow, and the shortening of texts, are left out.
pub mod Ending
use the_game_server.Base.{
  ℕ, zero, suc, ◌+◌, ◌-◌, ◌*◌, ◌/◌, ◌%◌, ◌^◌, ◌≤◌, ◌<◌, min, max, ◌≡◌, refl, sym, ap, subst, ◌∙◌,
  ◌≢◌, ◌↔◌, ◌⊎◌, inl, inr, Bool, true, false, not, ◌&&◌, ◌||◌, Option, none, some, List, [], ◌∷◌,
  ◌++◌, map, arith, ltb, leb, ◌==◌, if◌then◌else◌, Bool-cases, Option-cases, length, take, drop,
  All, contains, insert, erase, count,
}
use the_game_server.Base.{ℤ, pos, negsuc}
use the_game_server.Wire.{
  Buffer, Reader, Outcome, pure, ◌>>=◌, deserialize, deserialize_string, ok, not_enough,
}

-- `greets_again` is a greeting of a session that has a user: it reads nothing.
pub data Command : Type 0 where
  pings greets_again : Command
  says greets : List ℕ → Command
  plays : List ℕ → ℕ → Command
  moves ejects splits : ℤ → ℤ → Command
  spectates watches : ℕ → Command

-- Two bytes as an `int16_t`.
abbrev pub signed_16 : ℕ → ℤ
signed_16 n = if ltb n (2 ^ 15) then pos n else negsuc (2 ^ 16 - 1 - n)

unfoldable pub read_point : (ℤ → ℤ → Command) → Reader Command
read_point command = do
  x ← deserialize 2
  y ← deserialize 2
  pure (command (signed_16 x) (signed_16 y))

unfoldable pub read_player : (ℕ → Command) → Reader Command
read_player command = do id ← deserialize 4; pure (command id)

unfoldable pub read_play : Reader Command
read_play = do name ← deserialize_string; color ← deserialize 1; pure (plays name color)

unfoldable pub read_text : (List ℕ → Command) → Reader Command
read_text command = do text ← deserialize_string; pure (command text)

-- The handlers of the types of messages, for a session that has a user or none.
unfoldable pub handler_of : Bool → ℕ → Option (Reader Command)
unfolding read_point read_player read_play read_text
handler_of has_user t =
    if t == 1
    then some (pure pings)
    else if t == 2
    then some (read_text says)
    else if t == 3
    then some (if has_user then pure greets_again else read_text greets)
    else if t == 4
    then some read_play
    else if t == 5
    then some (read_point moves)
    else if t == 6
    then some (read_point ejects)
    else if t == 7
    then some (read_point splits)
    else if t == 8
    then some (read_player spectates)
    else if t == 10
    then some (read_player watches)
    else none

-- A greeting that was read gives the session its user, where the users' cache has not raised an
-- exception.
unfoldable pub user_after : Bool → Bool → Outcome Command → Bool
user_after gets_user has_user not_enough = has_user
user_after gets_user has_user (ok c) = has_user || elim c [ greets _ ↦ gets_user | _ ↦ false ]

-- An exception is logged, and the loop goes on with what the buffer still holds.
unfoldable pub record_command : Outcome Command → List Command → List Command
record_command not_enough cs = cs
record_command (ok c) cs = c ∷ cs

-- What the loop has done: the commands, and the buffer that it leaves.
pub record Handled : Type 0 where
  pub commands : List Command
  pub left : Buffer

unfoldable pub add_command : Outcome Command → Handled → Handled
unfolding record_command
add_command o h = record h { commands = record_command o h.commands }

-- The rest of a round, with what the rounds after it do. Whether the users' cache gives a user to a
-- greeting is told by what the buffer holds after it, which no two rounds share.
unfoldable pub run_handler :
    (Buffer → Bool) → Option (Reader Command) → Bool → Buffer → (Bool → Buffer → Handled) → Handled
unfolding add_command user_after
run_handler gets_user none has_user rest next = record { commands = []; left = rest }
run_handler gets_user (some read) has_user rest next =
    let (o, left) = read rest in add_command o (next (user_after (gets_user left) has_user o) left)

-- One round after another, as long as the buffer is not empty; the type is one byte.
unfoldable pub handle_messages : (Buffer → Bool) → ℕ → Bool → Buffer → Handled
unfolding run_handler
handle_messages gets_user zero has_user buffer = record { commands = []; left = buffer }
handle_messages gets_user (suc n) has_user [] = record { commands = []; left = [] }
handle_messages gets_user (suc n) has_user (t ∷ rest) =
    run_handler gets_user (handler_of has_user t) has_user rest (handle_messages gets_user n)
