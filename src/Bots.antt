-- ===== src/Bots.antt =====
-- src/Bot.cpp: a player that the server moves. Its own fields stand beside those of the player; the timers of
-- navigation and respawn are those of src/Timer.cpp and of the executor.
pub mod Targets
use the_game_server.Lives.Ageing.{find_the_biggest_avatar}
use the_game_server.Entity.Avatars.{is_attractive_for, assign_mass}
use the_game_server.Lives.Orders.{start_all}
use the_game_server.Lives.{remove_avatar}
use the_game_server.Lives.Playing.{respawn}
use the_game_server.Entity.{Cell, food, bullet, avatar}
use the_game_server.Gridmap.Search.{Visit, query}
use the_game_server.Geometry.{Aabb, ◌-V◌, zero_vec}
use the_game_server.World.{Host, World, cell_at, player_at, edit_player, act}
use the_game_server.Base.{
  ℕ, zero, suc, ◌+◌, ◌-◌, ◌*◌, ◌/◌, ◌%◌, ◌^◌, ◌≤◌, ◌<◌, min, max, ◌≡◌, refl, sym, ap, subst, ◌∙◌,
  ◌≢◌, ◌↔◌, ◌⊎◌, inl, inr, Bool, true, false, not, ◌&&◌, ◌||◌, Option, none, some, List, [], ◌∷◌,
  ◌++◌, map, arith, ltb, leb, ◌==◌, if◌then◌else◌, Bool-cases, Option-cases, length, take, drop,
  All, contains, insert, erase, count,
}
use the_game_server.Base.Float.{Float}
use the_game_server.Config.{RoomConfig}

pub record Bot : Type 0 where
  pub main_avatar : Option ℕ
  pub target : Option ℕ
  -- When the wait for the respawn ends.
  pub respawn_at : Option ℕ

module _ {F : Type 0} ⦃f : Float F⦄ where
  -- The better one of the target there is and a cell that is visited, for the main avatar.
  unfoldable pub prefer : (ℕ → Cell F) → ℕ → ℕ → Option ℕ → Option ℕ
  unfolding is_attractive_for
  prefer memory main p none = if is_attractive_for (memory p) (memory main) then some p else none
  prefer memory main p (some q) =
      if is_attractive_for (memory p) (memory main) && f.lt (memory q).mass (memory p).mass
      then some p
      else some q

  -- The handler of the query in `choseTarget`.
  unfoldable pub consider : (ℕ → Cell F) → ℕ → ℕ → Option ℕ → Visit (Option ℕ)
  unfolding prefer
  consider memory main p target = record { state = prefer memory main p target; goes_on = true }

  -- The cell that `choseTarget` finds in the view of a player. The query reads outside the map when it gives
  -- none at all.
  unfoldable pub find_target : Aabb F → ℕ → World F → Option (Option ℕ)
  unfolding consider query
  find_target view_box main w =
      query w.room.memory (consider w.room.memory main) w.room.gridmap view_box none

  -- The target that the bot goes on to follow.
  unfoldable pub is_followed : ℕ → Option ℕ → World F → Bool
  is_followed main none w = false
  is_followed main (some p) w = is_attractive_for (cell_at w p) (cell_at w main)

  unfoldable pub follow : ℕ → Option ℕ → World F → World F
  unfolding edit_player ◌-V◌
  follow q none w = w
  follow q (some p) w =
      edit_player q
        (λ player. record player { pointer_offset = (cell_at w p).position -V player.position }) w

module _ {F : Type 0} ⦃f : Float F⦄ (config : RoomConfig F) (host : Host F) where
  -- `choseTarget`: the player starts its motion when there is a target.
  unfoldable pub chose_target : ℕ → ℕ → Bot × World F → Option (Bot × World F)
  unfolding find_target start_all
  chose_target q main (bot, w) = elim (find_target (player_at w q).viewbox main w) [
    | none ↦ none
    | some none ↦ some (bot, w)
    | some (some p) ↦
        some (record bot { target = some p }, start_all config host (player_at w q).avatars w)
  ]

  -- `navigate`
  unfoldable pub navigate : ℕ → Bot × World F → Option (Bot × World F)
  unfolding find_the_biggest_avatar is_followed follow chose_target edit_player
  navigate q (bot, w) =
      let main = find_the_biggest_avatar w.room.memory (player_at w q) in
      let led = record bot { main_avatar = main } in
      elim main [
        | none ↦ some (led, w)
        | some p ↦
            (if (cell_at w p).zombie
              then some (led, w)
              else (if is_followed p bot.target w
                  then some (led, follow q bot.target w)
                  else chose_target q p (
                    led,
                    edit_player q (λ player. record player { pointer_offset = zero_vec }) w,
                  )))
      ]

  -- `Bot::respawn`: the mass of a bot for its main avatar, which is not null.
  unfoldable pub respawn_bot : ℕ → Bot × World F → Option (Bot × World F)
  unfolding respawn act assign_mass find_the_biggest_avatar
  respawn_bot q (bot, w) =
      let v = respawn config host q w in
      let main =
        if (player_at w q).is_alive
        then bot.main_avatar
        else find_the_biggest_avatar v.room.memory (player_at v q) in
      elim main [
        | none ↦ none
        | some p ↦ some (
          record bot { main_avatar = some p; target = none },
          act p (assign_mass config host.pi (f.of_ℕ config.bot.mass)) v,
        )
      ]

  -- `Bot::removeAvatar`, with `scheduleRespawn`.
  unfoldable pub remove_bot_avatar : ℕ → ℕ → Bot × World F → Bot × World F
  unfolding remove_avatar find_the_biggest_avatar
  remove_bot_avatar q p (bot, w) =
      let v = remove_avatar q p w in
      let player = player_at v q in
      (
        record bot {
          main_avatar = find_the_biggest_avatar v.room.memory player;
          respawn_at =
              if player.is_alive
              then bot.respawn_at
              else some (host.now + config.bot.respawn_delay);
        },
        v,
      )
