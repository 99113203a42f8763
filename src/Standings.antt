-- ===== src/Standings.antt =====
-- src/Room.cpp: the leaderboard and the fighters, with the events of players that change them. A player
-- is a pointer; the players are read from memory.
pub mod Sorting
pub mod Top
pub mod Members
use the_game_server.Player.{is_dead, Player, player_lt}
use the_game_server.Base.{
  ℕ, zero, suc, ◌+◌, ◌-◌, ◌*◌, ◌/◌, ◌%◌, ◌^◌, ◌≤◌, ◌<◌, min, max, ◌≡◌, refl, sym, ap, subst, ◌∙◌,
  ◌≢◌, ◌↔◌, ◌⊎◌, inl, inr, Bool, true, false, not, ◌&&◌, ◌||◌, Option, none, some, List, [], ◌∷◌,
  ◌++◌, map, arith, ltb, leb, ◌==◌, if◌then◌else◌, Bool-cases, Option-cases, length, take, drop,
  All, contains, insert, erase, count,
}
use the_game_server.Base.Float.{Float}
use the_game_server.Wire.{Buffer}
use the_game_server.OutgoingPacket.{
  serialize_leaderboard, serialize_player_born, serialize_player_dead,
}

pub record Standings : Type 0 where
  pub leaderboard : List ℕ
  pub fighters : List ℕ
  pub top_player : Option ℕ
  pub update_leaderboard : Bool
  -- The buffers sent to every session, the last one first.
  pub sent : List Buffer

-- `find` and `erase` of one element.
unfoldable pub remove_one : ℕ → List ℕ → List ℕ
remove_one p [] = []
remove_one p (q ∷ qs) = let rest = remove_one p qs in if q == p then qs else q ∷ rest

unfoldable pub send : Buffer → Standings → Standings
send buffer s = record s { sent = buffer ∷ s.sent }

unfoldable pub remove_from_leaderboard : ℕ → Standings → Standings
unfolding remove_one contains
remove_from_leaderboard p s =
    if contains p s.leaderboard
    then record s { leaderboard = remove_one p s.leaderboard; update_leaderboard = true }
    else s

module _ {F : Type 0} ⦃f : Float F⦄ (players : ℕ → Player F) where
  -- `*b < *a`
  abbrev pub ahead : ℕ → ℕ → Bool
  ahead a b = player_lt (players b) (players a)

  -- `std::sort`
  unfoldable pub enter : ℕ → List ℕ → List ℕ
  enter p [] = p ∷ []
  enter p (q ∷ qs) = let rest = enter p qs in if ahead q p then q ∷ rest else p ∷ q ∷ qs

  unfoldable pub sort : List ℕ → List ℕ
  unfolding enter
  sort [] = []
  sort (p ∷ ps) = enter p (sort ps)

  -- `m_topPlayer.reset()` on an empty board, and the first player otherwise.
  abbrev pub first : List ℕ → Option ℕ
  first [] = none
  first (p ∷ ps) = some p

  -- The number and the mass of each player.
  unfoldable pub entries : List ℕ → List (ℕ × ℕ)
  entries [] = []
  entries (p ∷ ps) = ((players p).id, (players p).mass) ∷ entries ps

  unfoldable pub update_leaderboard : ℕ → Standings → Standings
  unfolding sort entries send
  update_leaderboard limit s =
      if s.update_leaderboard
      then (let board = sort s.leaderboard in
          send (serialize_leaderboard [] (entries board) limit) (record s {
            leaderboard = board;
            top_player = first board;
            update_leaderboard = false;
          }))
      else s

  unfoldable pub on_player_respawn : ℕ → Standings → Standings
  on_player_respawn p s = send (serialize_player_born [] (players p).id) (record s {
    leaderboard = s.leaderboard ++ p ∷ [];
    update_leaderboard = true;
    fighters = insert p s.fighters;
  })

  -- `std::erase_if(m_fighters, ...)` of `synchronize`: the leaderboard stays as it is.
  unfoldable pub keep_alive : List ℕ → List ℕ
  unfolding is_dead
  keep_alive [] = []
  keep_alive (p ∷ ps) = let rest = keep_alive ps in if is_dead (players p) then rest else p ∷ rest

  unfoldable pub erase_dead : Standings → Standings
  unfolding keep_alive
  erase_dead s = record s { fighters = keep_alive s.fighters }

  unfoldable pub on_player_death : ℕ → Standings → Standings
  unfolding remove_from_leaderboard
  on_player_death p s =
      let t = remove_from_leaderboard p s in
      send (serialize_player_dead [] (players p).id) (record t { fighters = erase p t.fighters })
