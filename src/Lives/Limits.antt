-- ===== src/Lives/Limits.antt =====
-- Orders of a player of src/Player.cpp keep the number of its avatars within the limit.
use the_game_server.Counting.{length-insert}
use the_game_server.Geometry.{is_nonzero, normalize, ◌*V◌, Vec2D}
use the_game_server.Entity.Motion.{
  modify_velocity, Acting, Emitted, died, mass_changed, motion_started, motion_stopped,
}
use the_game_server.Entity.Avatars.{change_mass}
use the_game_server.Interaction.{grow, add_avatar}
use the_game_server.World.{
  Host, World, cell_at, fresh_cell, create_cell, act, write, post, post_all, player_at, edit_player,
}
use the_game_server.Base.{
  ℕ, ◌+◌, ◌≤◌, max, ◌≡◌, refl, Bool, true, false, List, [], ◌∷◌, arith, leb, length, if_either, ◌∙◌,
  ap,
}
use the_game_server.Base.Float.{Float}
use the_game_server.Config.{RoomConfig}
use the_game_server.Lives.Orders.{split_all, split_avatar, can_split, add_all, send_off, split}
use the_game_server.Audience.{Audience, write_player, put}

module _ {F : Type 0} ⦃f : Float F⦄ (config : RoomConfig F) (host : Host F) where
  -- Each branch of the loop of `split`.
  branches_fit :
      (full heavy : Bool) (n x : ℕ) (w : World F) (light more : List ℕ × World F)
      → (full ≡ leb config.player.max_avatars n)
      → n + length light.0 ≤ max n config.player.max_avatars
      → n + 1 + length more.0 ≤ max (n + 1) config.player.max_avatars
      → n
          + length
              (elim full as (λ b. List ℕ × World F) [
                | true ↦ ([], w)
                | false ↦ elim heavy as (λ b. List ℕ × World F) [
                  | false ↦ light
                  | true ↦ (x ∷ more.0, more.1)
                ]
              ]).0
        ≤ max n config.player.max_avatars
  branches_fit true heavy n x w light more e l m = omega arith
  branches_fit false true n x w light more e l m = ground (arith, e, m)
  branches_fit false false n x w light more e l m = l

  -- The avatars that a split creates fit beside those there are.
  split_all_fits :
      (q : ℕ) (ps : List ℕ) (n : ℕ) (point : Vec2D F) (w : World F)
      → n + length (split_all config host q ps n point w).0 ≤ max n config.player.max_avatars
  unfolding split_all
  split_all_fits q [] n point w = omega arith
  split_all_fits q (p ∷ ps) n point w =
      branches_fit (leb config.player.max_avatars n) (can_split config host (cell_at w p)) n
        (fresh_cell config host w) w (split_all config host q ps n point w)
        (split_all config host q ps (n + 1) point (split_avatar config host q p point w)) refl
        (split_all_fits q ps n point w)
        (split_all_fits q ps (n + 1) point (split_avatar config host q p point w))

  -- An action of a cell leaves the players as they are.
  post_all-audience :
      (p : ℕ) (es : List (Emitted F)) (w : World F) → (post_all p es w).audience ≡ w.audience
  unfolding post_all post
  post_all-audience p [] w = refl
  post_all-audience p (died ∷ es) w = post_all-audience p es (post p died w)
  post_all-audience p (mass_changed d ∷ es) w = post_all-audience p es (post p (mass_changed d) w)
  post_all-audience p (motion_started ∷ es) w = post_all-audience p es (post p motion_started w)
  post_all-audience p (motion_stopped ∷ es) w = post_all-audience p es (post p motion_stopped w)

  act-audience :
      (p : ℕ) (method : Acting F → Acting F) (w : World F) → (act p method w).audience ≡ w.audience
  unfolding act write
  act-audience p method w =
      let a = method (record { cell = cell_at w p; emitted = [] }) in
      post_all-audience p a.emitted (write p a.cell w)

  acted :
      (p : ℕ) (method : Acting F → Acting F) (v w : World F)
      → v.audience ≡ w.audience
      → (act p method v).audience ≡ w.audience
  acted p method v w h = act-audience p method v ∙ h

  grown :
      (p : ℕ) (value : F) (v w : World F)
      → v.audience ≡ w.audience
      → (grow config host p value v).audience ≡ w.audience
  unfolding grow
  grown p value v w h = acted p (change_mass config host.pi value) v w h

  sent_off :
      (p : ℕ) (way : Vec2D F) (v w : World F)
      → v.audience ≡ w.audience
      → (send_off config host p way v).audience ≡ w.audience
  unfolding send_off
  sent_off p way v w h =
      if_either (λ (u : World F). u.audience ≡ w.audience) (is_nonzero way)
        (act p (modify_velocity (normalize way *V f.of_ℕ config.avatar.split_velocity)) v) v
        (λ _.
          acted p (modify_velocity (normalize way *V f.of_ℕ config.avatar.split_velocity)) v w h)
        (λ _. h)

  split_avatar-audience :
      (q p : ℕ) (point : Vec2D F) (w : World F)
      → (split_avatar config host q p point w).audience ≡ w.audience
  unfolding split_avatar create_cell write
  split_avatar-audience q p point w =
      acted _ _ _ w (acted p _ _ w (sent_off _ _ _ w (grown p _ _ w (grown _ _ _ w refl))))

  split_all-audience :
      (q : ℕ) (ps : List ℕ) (n : ℕ) (point : Vec2D F) (w : World F)
      → (split_all config host q ps n point w).1.audience ≡ w.audience
  unfolding split_all
  split_all-audience q [] n point w = refl
  split_all-audience q (p ∷ ps) n point w =
      each (leb config.player.max_avatars n) (can_split config host (cell_at w p))
        (split_all config host q ps n point w)
        (split_all config host q ps (n + 1) point (split_avatar config host q p point w))
        (split_all-audience q ps n point w)
        (split_all-audience q ps (n + 1) point (split_avatar config host q p point w)
          ∙ split_avatar-audience q p point w)
    where
      each :
          (full heavy : Bool) (light more : List ℕ × World F)
          → light.1.audience ≡ w.audience
          → more.1.audience ≡ w.audience
          → (elim full as (λ b. List ℕ × World F) [
            | true ↦ ([], w)
            | false ↦ elim heavy as (λ b. List ℕ × World F) [
              | false ↦ light
              | true ↦ (fresh_cell config host w ∷ more.0, more.1)
            ]
          ]).1.audience
            ≡ w.audience
      each true heavy light more l m = refl
      each false true light more l m = m
      each false false light more l m = l

  -- Each avatar that is added makes one more at most.
  add_all_fits :
      (q : ℕ) (ps : List ℕ) (w : World F)
      → length (player_at (add_all config host q ps w) q).avatars
        ≤ length (player_at w q).avatars + length ps
  unfolding add_all add_avatar edit_player write_player put
  add_all_fits q [] w = omega arith
  add_all_fits q (p ∷ ps) w = ground (
    arith,
    add_all_fits q ps (add_avatar config host q p w),
    length-insert p (player_at w q).avatars,
  )

  -- A player that has no more avatars than the limit has no more after it has split.
  pub split-le_limit :
      (q : ℕ) (point : Vec2D F) (w : World F)
      → length (player_at w q).avatars ≤ config.player.max_avatars
      → length (player_at (split config host q point w) q).avatars ≤ config.player.max_avatars
  unfolding split
  split-le_limit q point w few =
      let avatars = (player_at w q).avatars in
      let made = split_all config host q avatars (length avatars) point w in
      let same =
        ap (λ (a : Audience F). length (a.player_of q).avatars)
          (split_all-audience q avatars (length avatars) point w) in
      if_either (λ (v : World F). length (player_at v q).avatars ≤ config.player.max_avatars)
        (player_at w q).is_alive (add_all config host q made.0 made.1) w
        (λ h. omega (
          arith,
          add_all_fits q made.0 made.1,
          split_all_fits q avatars (length avatars) point w,
          same,
          few,
        ))
        (λ h. few)
