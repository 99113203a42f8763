-- ===== src/OutgoingPacket/Decoding.antt =====
-- A client's reading of the messages of src/OutgoingPacket.cpp. The reading is a description of the
-- format that stands apart from the code that writes it.
use the_game_server.Base.{
  ℕ, zero, suc, ◌%◌, ◌^◌, ◌<◌, ◌≡◌, refl, ◌∙◌, List, [], ◌∷◌, ◌++◌, arith, ◌==◌, if◌then◌else◌,
  length, All,
}
use mathlib.Core.List.{append_assoc, append-nil}
use native.Mathlib.Nat.{mod-eq_of_lt}
use the_game_server.Wire.{
  Buffer, Reader, ok, pure, ◌>>=◌, deserialize, deserialize_string, big_endian, serialize, bytes,
}
use the_game_server.Wire.RoundTrip.{deserialize-big_endian, bind_ok, bytes_lem}
use the_game_server.OutgoingPacket.{serialize_entries}

-- What a client learns from a message.
pub data Message : Type 0 where
  pong finish unknown : Message
  greeting : List ℕ → Message
  leaderboard : List (ℕ × ℕ) → Message
  player : ℕ → List ℕ → Message
  player_remove player_join player_leave player_born player_dead : ℕ → Message
  change_target_player : ℕ → Message
  play spectate : ℕ → ℕ → ℕ → ℕ → Message
  chat_message : ℕ → List ℕ → Message

unfoldable pub read_entries : ℕ → Reader (List (ℕ × ℕ))
read_entries zero = pure []
read_entries (suc n) = do
  id ← deserialize 4
  mass ← deserialize 4
  items ← read_entries n
  pure ((id, mass) ∷ items)

unfoldable pub read_view : (ℕ → ℕ → ℕ → ℕ → Message) → Reader Message
read_view message = do
  id ← deserialize 4
  x ← deserialize 2
  y ← deserialize 2
  max_mass ← deserialize 4
  pure (message id x y max_mass)

unfoldable pub read_id : (ℕ → Message) → Reader Message
read_id message = do id ← deserialize 4; pure (message id)

unfoldable pub read_text : (ℕ → List ℕ → Message) → Reader Message
read_text message = do id ← deserialize 4; text ← deserialize_string; pure (message id text)

unfoldable pub read_body : ℕ → Reader Message
read_body t =
    if t == 1
    then pure pong
    else if t == 2
    then (do sid ← deserialize_string; pure (greeting sid))
    else if t == 5
    then (do n ← deserialize 1; items ← read_entries n; pure (leaderboard items))
    else if t == 6
    then read_text player
    else if t == 7
    then read_id player_remove
    else if t == 8
    then read_id player_join
    else if t == 9
    then read_id player_leave
    else if t == 10
    then read_id player_born
    else if t == 11
    then read_id player_dead
    else if t == 12
    then read_view play
    else if t == 13
    then read_view spectate
    else if t == 14
    then pure finish
    else if t == 15
    then read_text chat_message
    else if t == 16
    then read_id change_target_player
    else pure unknown

unfoldable pub read_message : Reader Message
unfolding read_body
read_message = do t ← deserialize 1; read_body t

pub text_field :
    (text rest : Buffer)
    → length text < 2 ^ 16
    → deserialize_string (big_endian 2 (length text % 2 ^ 16) ++ (text ++ rest)) ≡ (ok text, rest)
unfolding deserialize_string
text_field text rest h = rw (mod-eq_of_lt h) (
    bind_ok (deserialize 2) bytes _ (deserialize-big_endian 2 (length text) (text ++ rest) h)
    ∙ bytes_lem text rest)

pub read_id_lem :
    (message : ℕ → Message) (id : ℕ) (rest : Buffer)
    → id < 2 ^ 32
    → read_id message (big_endian 4 id ++ rest) ≡ (ok (message id), rest)
unfolding read_id
read_id_lem message id rest h = ground (arith, deserialize-big_endian 4 id rest h)

pub read_text_lem :
    (message : ℕ → List ℕ → Message) (id : ℕ) (text rest : Buffer)
    → id < 2 ^ 32
    → length text < 2 ^ 16
    → read_text message (big_endian 4 id ++ (big_endian 2 (length text % 2 ^ 16) ++ (text ++ rest)))
      ≡ (ok (message id text), rest)
unfolding read_text
read_text_lem message id text rest h k = ground (
  arith,
  deserialize-big_endian 4 id (big_endian 2 (length text % 2 ^ 16) ++ (text ++ rest)) h,
  text_field text rest k,
)

pub read_view_lem :
    (message : ℕ → ℕ → ℕ → ℕ → Message) (id x y m : ℕ) (rest : Buffer)
    → id < 2 ^ 32
    → m < 2 ^ 32
    → read_view message (
        big_endian 4 id
        ++ (big_endian 2 (x % 2 ^ 16) ++ (big_endian 2 (y % 2 ^ 16) ++ (big_endian 4 m ++ rest))))
      ≡ (ok (message id (x % 2 ^ 16) (y % 2 ^ 16) m), rest)
unfolding read_view
read_view_lem message id x y m rest hi hm =
    let tail_y : Buffer = big_endian 2 (y % 2 ^ 16) ++ (big_endian 4 m ++ rest) in
    ground (
      arith,
      deserialize-big_endian 4 id (big_endian 2 (x % 2 ^ 16) ++ tail_y) hi,
      deserialize-big_endian 2 (x % 2 ^ 16) tail_y (omega arith),
      deserialize-big_endian 2 (y % 2 ^ 16) (big_endian 4 m ++ rest) (omega arith),
      deserialize-big_endian 4 m rest hm,
    )

pub serialize_entries-append :
    (items : List (ℕ × ℕ)) (buffer : Buffer)
    → serialize_entries buffer items ≡ buffer ++ serialize_entries [] items
unfolding serialize_entries serialize
serialize_entries-append [] buffer = simp append-nil
serialize_entries-append ((id, mass) ∷ items) buffer =
    rw
      (
        serialize_entries-append items ((buffer ++ big_endian 4 id) ++ big_endian 4 mass),
        serialize_entries-append items (big_endian 4 id ++ big_endian 4 mass),
      )
      (simp append_assoc)

entries_cons :
    (id mass : ℕ) (items : List (ℕ × ℕ)) (rest : Buffer)
    → serialize_entries [] ((id, mass) ∷ items) ++ rest
      ≡ big_endian 4 id ++ (big_endian 4 mass ++ (serialize_entries [] items ++ rest))
entries_cons id mass items rest =
    rw (unfold_entries, serialize_entries-append items (big_endian 4 id ++ big_endian 4 mass))
      (simp append_assoc)
  where
    unfold_entries :
        serialize_entries [] ((id, mass) ∷ items)
        ≡ serialize_entries (big_endian 4 id ++ big_endian 4 mass) items
    unfold_entries = unfold serialize_entries serialize in refl

abbrev pub EntryFits : ℕ × ℕ → Type 0
EntryFits e = (e.0 < 2 ^ 32) × (e.1 < 2 ^ 32)

pub read_entries_lem :
    (items : List (ℕ × ℕ)) (rest : Buffer)
    → All EntryFits items
    → read_entries (length items) (serialize_entries [] items ++ rest) ≡ (ok items, rest)
unfolding read_entries
read_entries_lem [] rest h = unfold serialize_entries in refl
read_entries_lem ((id, mass) ∷ items) rest h = rw (entries_cons id mass items rest) (
    ground (
      arith,
      deserialize-big_endian 4 id (big_endian 4 mass ++ (serialize_entries [] items ++ rest)) h.0.0,
      deserialize-big_endian 4 mass (serialize_entries [] items ++ rest) h.0.1,
      read_entries_lem items rest h.1,
    ))
