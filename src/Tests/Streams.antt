-- ===== src/Tests/Streams.antt =====
-- Numbers of cells, buffers and messages.
use the_game_server.Base.{◌≡◌, List, [], ◌∷◌, ◌++◌, arith, count}
use the_game_server.Base.Fixed.{Fixed, fixed_float}
use the_game_server.NextId.{pop}
use the_game_server.NextId.Partition.{
  Call, takes, gives, run, start, IsPartition, run-start-IsPartition, pop_unheld,
}
use the_game_server.Wire.{Buffer, serialize, deserialize, serialize_string, deserialize_string, ok}
use the_game_server.Wire.RoundTrip.{deserialize-serialize, deserialize_string-serialize_string}
use the_game_server.OutgoingPacket.Decoding.{read_message}
use the_game_server.OutgoingPacket.RoundTrip.{
  Sending, written, meaning, read_message-written, sends_leaderboard,
}

-- Two numbers are taken, the first is given back and taken again.
abbrev calls : List Call
calls = takes ∷ takes ∷ gives 1 ∷ takes ∷ []

run-start-IsPartition_example : IsPartition (run start calls)
run-start-IsPartition_example = run-start-IsPartition calls (omega arith)

pop_unheld_example : count (pop (run start calls).pool).0 (run start calls).used ≡ 0
pop_unheld_example = pop_unheld calls (omega arith)

deserialize-serialize_example : deserialize 2 (serialize 2 [] 515 ++ 7 ∷ []) ≡ (ok 515, 7 ∷ [])
deserialize-serialize_example = deserialize-serialize 2 515 (7 ∷ []) (omega arith)

abbrev greeting_text : Buffer
greeting_text = 104 ∷ 105 ∷ []

deserialize_string-serialize_string_example :
    deserialize_string (serialize_string [] greeting_text ++ 7 ∷ []) ≡ (ok greeting_text, 7 ∷ [])
deserialize_string-serialize_string_example =
    deserialize_string-serialize_string greeting_text (7 ∷ []) (omega arith)

abbrev board : Sending Fixed
board = sends_leaderboard ((7, 120) ∷ (9, 80) ∷ (4, 60) ∷ []) 2

read_message-written_example : read_message (written board ++ 3 ∷ []) ≡ (ok (meaning board), 3 ∷ [])
read_message-written_example = read_message-written board (3 ∷ []) (
  (
    (omega arith, omega arith),
    ((omega arith, omega arith), ((omega arith, omega arith), record {})),
  ),
  omega arith,
)
