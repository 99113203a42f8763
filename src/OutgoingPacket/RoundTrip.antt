-- ===== src/OutgoingPacket/RoundTrip.antt =====
-- A client reads what the functions of src/OutgoingPacket.cpp write.
use the_game_server.Base.{
  ℕ, ◌%◌, ◌^◌, ◌<◌, min, ◌≡◌, refl, ◌∙◌, List, [], ◌++◌, arith, length, take, All, length-take,
  All-take, take-length-take,
}
use mathlib.Core.List.{append_assoc}
use the_game_server.Base.Float.{Float}
use the_game_server.Player.{Player}
use the_game_server.OutgoingPacket.{
  serialize_type, code, serialize_pong, serialize_finish, serialize_greeting, serialize_leaderboard,
  serialize_player, serialize_play, serialize_spectate, serialize_player_remove,
  serialize_player_join, serialize_player_leave, serialize_player_born, serialize_player_dead,
  serialize_change_target_player, serialize_chat_message, serialize_entries, serialize,
  serialize_string,
}
use the_game_server.OutgoingPacket.Decoding.{
  Message, pong, finish, greeting, leaderboard, player, player_remove, player_join, player_leave,
  player_born, player_dead, change_target_player, play, spectate, chat_message, EntryFits,
  read_body, read_message, read_id_lem, read_text_lem, read_view_lem, read_entries_lem, text_field,
  serialize_entries-append,
}
use the_game_server.Wire.{Buffer, Outcome, ok, big_endian, deserialize, serialize, serialize_string}
use the_game_server.Wire.RoundTrip.{bind_ok, deserialize-big_endian}

-- A call of one of the functions on an empty buffer.
pub data Sending (F : Type 0) : Type 0 where
  sends_pong sends_finish : Sending F
  sends_greeting : List ℕ → Sending F
  sends_leaderboard : List (ℕ × ℕ) → ℕ → Sending F
  sends_player sends_play sends_spectate : Player F → Sending F
  sends_remove sends_join sends_leave sends_born sends_dead sends_target : ℕ → Sending F
  sends_chat : ℕ → List ℕ → Sending F

module _ {F : Type 0} ⦃f : Float F⦄ where
  pub written : Sending F → Buffer
  unfolding serialize_type code serialize serialize_string serialize_pong serialize_finish
      serialize_greeting serialize_leaderboard serialize_player serialize_play serialize_spectate
      serialize_player_remove serialize_player_join serialize_player_leave serialize_player_born
      serialize_player_dead serialize_change_target_player serialize_chat_message
  written sends_pong = serialize_pong []
  written sends_finish = serialize_finish []
  written (sends_greeting sid) = serialize_greeting [] sid
  written (sends_leaderboard items limit) = serialize_leaderboard [] items limit
  written (sends_player p) = serialize_player [] p
  written (sends_play p) = serialize_play [] p
  written (sends_spectate p) = serialize_spectate [] p
  written (sends_remove id) = serialize_player_remove [] id
  written (sends_join id) = serialize_player_join [] id
  written (sends_leave id) = serialize_player_leave [] id
  written (sends_born id) = serialize_player_born [] id
  written (sends_dead id) = serialize_player_dead [] id
  written (sends_target id) = serialize_change_target_player [] id
  written (sends_chat id text) = serialize_chat_message [] id text

  abbrev viewed : (ℕ → ℕ → ℕ → ℕ → Message) → Player F → Message
  viewed message p =
      message p.id (f.to_ℕ p.position.x % 2 ^ 16) (f.to_ℕ p.position.y % 2 ^ 16) p.max_mass

  -- What the message says.
  pub meaning : Sending F → Message
  meaning sends_pong = pong
  meaning sends_finish = finish
  meaning (sends_greeting sid) = greeting sid
  meaning (sends_leaderboard items limit) = leaderboard (take limit items)
  meaning (sends_player p) = player p.id p.name
  meaning (sends_play p) = viewed play p
  meaning (sends_spectate p) = viewed spectate p
  meaning (sends_remove id) = player_remove id
  meaning (sends_join id) = player_join id
  meaning (sends_leave id) = player_leave id
  meaning (sends_born id) = player_born id
  meaning (sends_dead id) = player_dead id
  meaning (sends_target id) = change_target_player id
  meaning (sends_chat id text) = chat_message id text

  -- The ranges of the types that the arguments have, strings of fewer than 2 ^ 16 bytes, and at most
  -- 255 entries.
  abbrev pub Fits : Sending F → Type 0
  Fits sends_pong = Unit
  Fits sends_finish = Unit
  Fits (sends_greeting sid) = length sid < 2 ^ 16
  Fits (sends_leaderboard items limit) = All EntryFits items × (limit < 2 ^ 8)
  Fits (sends_player p) = (p.id < 2 ^ 32) × (length p.name < 2 ^ 16)
  Fits (sends_play p) = (p.id < 2 ^ 32) × (p.max_mass < 2 ^ 32)
  Fits (sends_spectate p) = (p.id < 2 ^ 32) × (p.max_mass < 2 ^ 32)
  Fits (sends_chat id text) = (id < 2 ^ 32) × (length text < 2 ^ 16)
  Fits (sends_remove id) = id < 2 ^ 32
  Fits (sends_join id) = id < 2 ^ 32
  Fits (sends_leave id) = id < 2 ^ 32
  Fits (sends_born id) = id < 2 ^ 32
  Fits (sends_dead id) = id < 2 ^ 32
  Fits (sends_target id) = id < 2 ^ 32

-- The type's byte decides how the rest is read.
typed :
    (t : ℕ) (body : Buffer) {result : Outcome Message × Buffer}
    → t < 256
    → read_body t body ≡ result
    → read_message (big_endian 1 t ++ body) ≡ result
unfolding read_message
typed t body h e = bind_ok (deserialize 1) read_body _ (deserialize-big_endian 1 t body h) ∙ e

leaderboard_body :
    (xs : List (ℕ × ℕ)) (rest : Buffer)
    → All EntryFits xs
    → length xs < 256
    → read_body 5 (big_endian 1 (length xs) ++ (serialize_entries [] xs ++ rest))
      ≡ (ok (leaderboard xs), rest)
unfolding read_body
leaderboard_body xs rest fits small = ground (
  arith,
  deserialize-big_endian 1 (length xs) (serialize_entries [] xs ++ rest) small,
  read_entries_lem xs rest fits,
)

leaderboard_bytes :
    (items : List (ℕ × ℕ)) (limit : ℕ)
    → limit < 2 ^ 8
    → serialize_leaderboard [] items limit
      ≡ big_endian 1 5
        ++ (big_endian 1 (length (take limit items)) ++ serialize_entries [] (take limit items))
unfolding serialize_leaderboard serialize_type code serialize
leaderboard_bytes items limit small =
    let e : min (length items) limit % 2 ^ 8 ≡ length (take limit items) =
      omega (arith, length-take limit items) in
    rw (e, take-length-take limit items, serialize_entries-append) (simp append_assoc)

leaderboard_lem :
    (items : List (ℕ × ℕ)) (limit : ℕ) (rest : Buffer)
    → All EntryFits items
    → limit < 2 ^ 8
    → read_message (serialize_leaderboard [] items limit ++ rest)
      ≡ (ok (leaderboard (take limit items)), rest)
leaderboard_lem items limit rest fits small = rw (leaderboard_bytes items limit small) (
    simp append_assoc (
      typed 5 _ (omega arith) (
        leaderboard_body (take limit items) rest (All-take EntryFits limit items fits)
          (omega (arith, length-take limit items)))))

module _ {F : Type 0} ⦃f : Float F⦄ where
  -- A client that reads a message, whatever follows it, learns what the server had to say, and stops
  -- where the message ends. The arguments are within the ranges of `Fits`.
  pub read_message-written :
      (s : Sending F) (rest : Buffer)
      → Fits s
      → read_message (written s ++ rest) ≡ (ok (meaning s), rest)
  unfolding written meaning read_body
  read_message-written sends_pong rest h = typed 1 rest (omega arith) refl
  read_message-written sends_finish rest h = typed 14 rest (omega arith) refl
  read_message-written (sends_greeting sid) rest h =
      simp append_assoc (typed 2 _ (omega arith) (ground (arith, text_field sid rest h)))
  read_message-written (sends_leaderboard items limit) rest h =
      leaderboard_lem items limit rest h.0 h.1
  read_message-written (sends_player p) rest h =
      simp append_assoc (typed 6 _ (omega arith) (read_text_lem player p.id p.name rest h.0 h.1))
  read_message-written (sends_play p) rest h =
      simp append_assoc
        (typed 12 _ (omega arith) (read_view_lem play p.id _ _ p.max_mass rest h.0 h.1))
  read_message-written (sends_spectate p) rest h =
      simp append_assoc
        (typed 13 _ (omega arith) (read_view_lem spectate p.id _ _ p.max_mass rest h.0 h.1))
  read_message-written (sends_remove id) rest h =
      rw append_assoc (typed 7 _ (omega arith) (read_id_lem player_remove id rest h))
  read_message-written (sends_join id) rest h =
      rw append_assoc (typed 8 _ (omega arith) (read_id_lem player_join id rest h))
  read_message-written (sends_leave id) rest h =
      rw append_assoc (typed 9 _ (omega arith) (read_id_lem player_leave id rest h))
  read_message-written (sends_born id) rest h =
      rw append_assoc (typed 10 _ (omega arith) (read_id_lem player_born id rest h))
  read_message-written (sends_dead id) rest h =
      rw append_assoc (typed 11 _ (omega arith) (read_id_lem player_dead id rest h))
  read_message-written (sends_target id) rest h =
      rw append_assoc (typed 16 _ (omega arith) (read_id_lem change_target_player id rest h))
  read_message-written (sends_chat id text) rest h =
      simp append_assoc (typed 15 _ (omega arith) (read_text_lem chat_message id text rest h.0 h.1))
