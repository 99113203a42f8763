-- ===== src/OutgoingPacket.antt =====
-- src/OutgoingPacket.hpp and src/OutgoingPacket.cpp: the messages that the server sends.
pub mod Decoding
pub mod RoundTrip
use the_game_server.Base.{
  ℕ, zero, suc, ◌+◌, ◌-◌, ◌*◌, ◌/◌, ◌%◌, ◌^◌, ◌≤◌, ◌<◌, min, max, ◌≡◌, refl, sym, ap, subst, ◌∙◌,
  ◌≢◌, ◌↔◌, ◌⊎◌, inl, inr, Bool, true, false, not, ◌&&◌, ◌||◌, Option, none, some, List, [], ◌∷◌,
  ◌++◌, map, arith, ltb, leb, ◌==◌, if◌then◌else◌, Bool-cases, Option-cases, length, take, drop,
  All, contains, insert, erase, count,
}
use the_game_server.Player.{Player}
use the_game_server.Base.Float.{Float}
use the_game_server.Wire.{Buffer, serialize_string, serialize}

-- The numbers of the messages. The byte of a type is `serialize`d as any `uint8_t`.
pub data PacketType : Type 0 where
  pong greeting room frame leaderboard player player_remove player_join : PacketType
  player_leave player_born player_dead play spectate finish chat_message : PacketType
  change_target_player : PacketType

unfoldable pub code : PacketType → ℕ
code pong = 1
code greeting = 2
code room = 3
code frame = 4
code leaderboard = 5
code player = 6
code player_remove = 7
code player_join = 8
code player_leave = 9
code player_born = 10
code player_dead = 11
code play = 12
code spectate = 13
code finish = 14
code chat_message = 15
code change_target_player = 16

unfoldable pub serialize_type : Buffer → PacketType → Buffer
serialize_type buffer type = serialize 1 buffer (code type)

unfoldable pub serialize_pong : Buffer → Buffer
serialize_pong buffer = serialize_type buffer pong

unfoldable pub serialize_greeting : Buffer → List ℕ → Buffer
serialize_greeting buffer sid = serialize_string (serialize_type buffer greeting) sid

unfoldable pub serialize_player_remove : Buffer → ℕ → Buffer
serialize_player_remove buffer id = serialize 4 (serialize_type buffer player_remove) id

unfoldable pub serialize_player_join : Buffer → ℕ → Buffer
serialize_player_join buffer id = serialize 4 (serialize_type buffer player_join) id

unfoldable pub serialize_player_leave : Buffer → ℕ → Buffer
serialize_player_leave buffer id = serialize 4 (serialize_type buffer player_leave) id

unfoldable pub serialize_player_born : Buffer → ℕ → Buffer
serialize_player_born buffer id = serialize 4 (serialize_type buffer player_born) id

unfoldable pub serialize_player_dead : Buffer → ℕ → Buffer
serialize_player_dead buffer id = serialize 4 (serialize_type buffer player_dead) id

unfoldable pub serialize_finish : Buffer → Buffer
serialize_finish buffer = serialize_type buffer finish

unfoldable pub serialize_chat_message : Buffer → ℕ → List ℕ → Buffer
serialize_chat_message buffer id text =
    serialize_string (serialize 4 (serialize_type buffer chat_message) id) text

unfoldable pub serialize_change_target_player : Buffer → ℕ → Buffer
serialize_change_target_player buffer id =
    serialize 4 (serialize_type buffer change_target_player) id

-- The number and the mass of each player, for the loop of `serializeLeaderboard`.
unfoldable pub serialize_entries : Buffer → List (ℕ × ℕ) → Buffer
serialize_entries buffer [] = buffer
serialize_entries buffer ((id, mass) ∷ items) =
    serialize_entries (serialize 4 (serialize 4 buffer id) mass) items

-- The count is cast to `uint8_t`, and so many entries follow.
unfoldable pub serialize_leaderboard : Buffer → List (ℕ × ℕ) → ℕ → Buffer
unfolding serialize_entries
serialize_leaderboard buffer items limit =
    let count = min (length items) limit % 2 ^ 8 in
    serialize_entries (serialize 1 (serialize_type buffer leaderboard) count) (take count items)

module _ {F : Type 0} ⦃f : Float F⦄ where
  unfoldable pub serialize_player : Buffer → Player F → Buffer
  serialize_player buffer p =
      serialize_string (serialize 4 (serialize_type buffer player) p.id) p.name

  -- Number, position in whole units, and greatest mass.
  unfoldable pub serialize_view : Buffer → Player F → Buffer
  serialize_view buffer p =
      serialize 4
        (serialize 2 (serialize 2 (serialize 4 buffer p.id) (f.to_ℕ p.position.x % 2 ^ 16))
          (f.to_ℕ p.position.y % 2 ^ 16))
        p.max_mass

  unfoldable pub serialize_play : Buffer → Player F → Buffer
  unfolding serialize_view
  serialize_play buffer p = serialize_view (serialize_type buffer play) p

  unfoldable pub serialize_spectate : Buffer → Player F → Buffer
  unfolding serialize_view
  serialize_spectate buffer p = serialize_view (serialize_type buffer spectate) p
