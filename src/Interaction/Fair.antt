-- ===== src/Interaction/Fair.antt =====
-- Each interaction of src/entity/*.cpp keeps a room orderly, and kills no cell but the two.
use the_game_server.World.{with_player, cell_at, player_at, act, Host, World}
use the_game_server.Base.{
  ℕ, ◌+◌, ◌*◌, ◌%◌, ◌^◌, ◌≤◌, ◌<◌, ◌≡◌, refl, ◌∙◌, ◌⊎◌, inl, inr, Bool, true, false, ◌||◌, Option,
  none, some, List, arith, ◌==◌, if◌then◌else◌, length, count, if_either,
}
use the_game_server.Base.Float.{Float}
use the_game_server.Config.{RoomConfig}
use the_game_server.Interaction.{
  attack, devour, explode, fuse, on_avatar_explode, kill_cell, part_count, part_mass, fuse_asked,
  throw_parts, grow, attack_other,
}
use the_game_server.Interaction.Steps.{
  asked-Passes, wake_player-Passes, devour-Passes, recombining-Passes, then_kill-Passes,
  throw_parts-Passes, grow-Passes,
}
use the_game_server.Registries.Sound.{live}
use the_game_server.World.Orderly.{
  IsOrderly, Passes, Passes-weaken, Passes-refl, Passes-then, nobody, Passes-trans,
}
use the_game_server.Entity.Avatars.{check_recombined}

module _ {F : Type 0} ⦃f : Float F⦄ (config : RoomConfig F) (host : Host F)
    (fresh : (cells : List ℕ) → count (host.address cells) cells ≡ 0) where
  -- The most numbers that one interaction takes.
  abbrev pub births : ℕ
  births = config.player.max_avatars + 1

  -- Two live cells that differ and are not killed, in an orderly room that has numbers left.
  pub record IsMet (p q : ℕ) (w : World F) : Type 0 where
    pub differ : (p == q) ≡ false
    pub first : live w.room p ≡ true
    pub second : live w.room q ≡ true
    pub first_alive : (cell_at w p).zombie ≡ false
    pub second_alive : (cell_at w q).zombie ≡ false
    pub room : w.room.next_ids.next_id + births < 2 ^ 32
    pub orderly : IsOrderly w

  abbrev pub among : ℕ → ℕ → ℕ → Bool
  among p q x = p == x || q == x

  -- What an interaction of two cells may do.
  abbrev pub IsFair : (ℕ → ℕ → World F → World F) → Type 0
  IsFair g = (p q : ℕ) (w : World F) → IsMet p q w → Passes (among p q) births w (g p q w)

  pub swapped : (p q : ℕ) (w : World F) → IsMet p q w → IsMet q p w
  swapped p q w m = record {
    differ = ground (arith, m.differ);
    first = m.second;
    second = m.first;
    first_alive = m.second_alive;
    second_alive = m.first_alive;
    room = m.room;
    orderly = m.orderly;
  }

  pub flipped-IsFair : (g : ℕ → ℕ → World F → World F) → IsFair g → IsFair (λ p q. g q p)
  flipped-IsFair g h p q w m =
      Passes-weaken (λ x d. ground arith) (omega arith) (h q p w (swapped p q w m))

  pub still : (p q : ℕ) (w : World F) → IsOrderly w → Passes (among p q) births w w
  still p q w o = Passes-weaken (λ x d. refl) (omega arith) (Passes-refl w o)

  pub explode-Passes :
      (p : ℕ) (w : World F)
      → live w.room p ≡ true
      → w.room.next_ids.next_id + births < 2 ^ 32
      → IsOrderly w
      → Passes nobody config.player.max_avatars w (explode config host p w)
  unfolding explode with_player on_avatar_explode
  explode-Passes p w l room o = of_player (cell_at w p).player
    where
      idle : Passes nobody config.player.max_avatars w w
      idle = Passes-weaken (λ x h. h) (omega arith) (Passes-refl w o)

      of_player :
          (q : Option ℕ)
          → Passes nobody config.player.max_avatars w
              (with_player q (on_avatar_explode config host p) w)
      of_player none = idle
      of_player (some q) =
          let n = part_count config host (length (player_at w q).avatars) (cell_at w p) in
          let mass = part_mass config host (cell_at w p) in
          let t = throw_parts-Passes config host fresh n q p mass w (omega (arith, room)) o in
          let w1 = throw_parts config host n q p mass w in
          let loss = f.neg (f.of_ℕ (mass * n % 2 ^ 32)) in
          let g = grow-Passes config host p loss w1 (t.stays p l) t.orderly in
          let w2 = grow config host p loss w1 in
          let r = recombining-Passes config host p w2 (g.stays p (t.stays p l)) g.orderly in
          let all =
            Passes-weaken (λ x h. h) (omega arith) (Passes-trans t (Passes-then g (λ _. r))) in
          if_either (Passes nobody config.player.max_avatars w) _ w _ (λ h. idle) (λ h. all)

  -- Both branches of a test.
  pub branch :
      (p q : ℕ) (w : World F) (b : Bool) (x y : World F)
      → (b ≡ true → Passes (among p q) births w x)
      → (b ≡ false → Passes (among p q) births w y)
      → Passes (among p q) births w (if b then x else y)
  branch p q w b x y = if_either (Passes (among p q) births w) b x y

  -- A death at the end.
  pub fatal :
      (p q victim n : ℕ) (w w' : World F)
      → (victim ≡ p) ⊎ (victim ≡ q)
      → n ≤ births
      → IsMet p q w
      → Passes nobody n w w'
      → Passes (among p q) births w (kill_cell config host victim w')
  fatal p q victim n w w' (inl e) few m k =
      Passes-weaken (λ x d. ground arith) few
        (then_kill-Passes config host victim (rw e m.first) (rw e m.first_alive) k)
  fatal p q victim n w w' (inr e) few m k =
      Passes-weaken (λ x d. ground arith) few
        (then_kill-Passes config host victim (rw e m.second) (rw e m.second_alive) k)

  -- The second cell dies where a test holds, or where it fails.
  pub strike :
      (p q n : ℕ) (w w' : World F) (b : Bool)
      → n ≤ births
      → IsMet p q w
      → Passes nobody n w w'
      → Passes (among p q) births w (if b then kill_cell config host q w' else w)
  strike p q n w w' b few m k =
      branch p q w b _ w (λ h. fatal p q q n w w' (inr refl) few m k) (λ h. still p q w m.orderly)

  pub strike_unless :
      (p q n : ℕ) (w w' : World F) (b : Bool)
      → n ≤ births
      → IsMet p q w
      → Passes nobody n w w'
      → Passes (among p q) births w (if b then w else kill_cell config host q w')
  strike_unless p q n w w' b few m k =
      branch p q w b w _ (λ h. still p q w m.orderly) (λ h. fatal p q q n w w' (inr refl) few m k)

  pub quiet : (p q : ℕ) {w w' : World F} → Passes nobody 0 w w' → Passes (among p q) births w w'
  quiet p q k = Passes-weaken (λ x d. refl) (omega arith) k

  devour-IsFair : IsFair (devour config host)
  devour-IsFair p q w m =
      Passes-weaken (λ x d. ground arith) (omega arith)
        (devour-Passes config host p q w m.first m.second m.second_alive m.orderly)

  -- Two cells are still met after what kills no one.
  pub later : (p q : ℕ) {w w' : World F} → IsMet p q w → Passes nobody 0 w w' → IsMet p q w'
  later p q m k = record {
    differ = m.differ;
    first = k.stays p m.first;
    second = k.stays q m.second;
    first_alive = k.spared p m.first refl ∙ m.first_alive;
    second_alive = k.spared q m.second refl ∙ m.second_alive;
    room = omega (arith, k.numbers, m.room);
    orderly = k.orderly;
  }

  fuse_asked-IsFair : IsFair (fuse_asked config host)
  unfolding fuse_asked
  fuse_asked-IsFair p q w m =
      let s = recombining-Passes config host p w m.first m.orderly in
      branch p q w _ _ _ (λ h. still p q w m.orderly)
        (λ h. Passes-then s (λ _. devour-IsFair p q _ (later p q m s)))

  fuse-IsFair : IsFair (fuse config host)
  unfolding fuse
  fuse-IsFair p q w m =
      let a = asked-Passes config host p w m.first m.orderly in
      let w1 = act p (check_recombined host.now) w in
      let m1 = later p q m a in
      let b = asked-Passes config host q w1 m1.second m1.orderly in
      branch p q w _ _ _ (λ h. quiet p q a)
        (λ h. Passes-then a (λ _. Passes-then b (λ _. fuse_asked-IsFair p q _ (later p q m1 b))))

  attack_other-IsFair : IsFair (attack_other config host)
  unfolding attack_other
  attack_other-IsFair p q w m =
      let k = wake_player-Passes config host p w m.orderly in
      branch p q w _ _ _ (λ h. still p q w m.orderly)
        (λ h. Passes-then k (λ _. devour-IsFair p q _ (later p q m k)))

  pub attack-IsFair : IsFair (attack config host)
  unfolding attack
  attack-IsFair p q w m =
      branch p q w _ _ _ (λ h. fuse-IsFair p q w m) (λ h. attack_other-IsFair p q w m)
