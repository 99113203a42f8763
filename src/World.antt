-- ===== src/World.antt =====
-- What the cells and the players of a room share when they act on one another: the registries of
-- src/Room.cpp, its sessions and players, the timers of src/Player.cpp, and the handlers that
-- src/EventEmitter.hpp has posted to the two contexts of a room, `m_gameContext` and `m_deathContext`.
pub mod Orderly
pub mod Births
use the_game_server.Base.{ℕ, ◌+◌, Bool, false, Option, none, some, List, [], ◌∷◌, ◌++◌}
use the_game_server.Audience.{write_player, Audience, put}
use the_game_server.Base.Float.{Float, zero_f, ◌*F◌}
use the_game_server.Entity.{Cell, Kind}
use the_game_server.Entity.Motion.{Acting, Emitted, mass_changed, motion_started}
use the_game_server.Player.{Player}
use the_game_server.Entity.Motion.{
  Emitted, Acting, mass_changed, motion_started, motion_stopped, died,
}
use the_game_server.Registries.{Registries, store, create}
use the_game_server.Config.{RoomConfig}
use the_game_server.Geometry.{Vec2D, vec}

-- What the program does not implement itself: the constant `M_PI`, the functions `sin` and `cos`, the
-- clock during one handler, the allocator, which sees the addresses in use, and the random numbers, each
-- for the number of those drawn before it.
pub record Host (F : Type 0) : Type 0 where
  pub pi : F
  pub sin : F → F
  pub cos : F → F
  pub now : ℕ
  pub address : List ℕ → ℕ
  pub real : ℕ → F → F → F
  pub integer : ℕ → ℕ → ℕ → ℕ

-- The wait for deflation, in its first or in a later round, and the wait for annihilation: when they end.
pub record Timers : Type 0 where
  pub deflation : Option ℕ
  pub deflating : Bool
  pub annihilation : Option ℕ

pub record World (F : Type 0) : Type 0 where
  pub room : Registries F
  pub audience : Audience F
  pub timers : ℕ → Timers
  pub game : List (ℕ × Emitted F)
  pub deaths : List ℕ
  pub drawn : ℕ
  pub top_player : Option ℕ
  -- Whether a pointer that owns the player is left, so that a weak one can be locked.
  pub held : ℕ → Bool

module _ {F : Type 0} where
  abbrev pub cell_at : World F → ℕ → Cell F
  cell_at w p = w.room.memory p

  abbrev pub player_at : World F → ℕ → Player F
  player_at w q = w.audience.player_of q

  -- `emit`: a cell's death is posted to the context of deaths, the rest to that of the game.
  unfoldable pub post : ℕ → Emitted F → World F → World F
  post p died w = record w { deaths = w.deaths ++ p ∷ [] }
  post p (mass_changed delta) w = record w { game = w.game ++ (p, mass_changed delta) ∷ [] }
  post p motion_started w = record w { game = w.game ++ (p, motion_started) ∷ [] }
  post p motion_stopped w = record w { game = w.game ++ (p, motion_stopped) ∷ [] }

  unfoldable pub post_all : ℕ → List (Emitted F) → World F → World F
  unfolding post
  post_all p [] w = w
  post_all p (e ∷ es) w = post_all p es (post p e w)

  unfoldable pub write : ℕ → Cell F → World F → World F
  unfolding store
  write p c w = record w { room = record w.room { memory = store p c w.room.memory } }

  -- A method of a cell, with what it emits.
  unfoldable pub act : ℕ → (Acting F → Acting F) → World F → World F
  unfolding post_all write
  act p method w =
      let a = method (record { cell = cell_at w p; emitted = [] }) in
      post_all p a.emitted (write p a.cell w)

  unfoldable pub edit_player : ℕ → (Player F → Player F) → World F → World F
  unfolding write_player
  edit_player q g w = record w { audience = write_player q (g (player_at w q)) w.audience }

  -- What is done to the player of a cell, if it has one.
  unfoldable pub with_player : Option ℕ → (ℕ → World F → World F) → World F → World F
  with_player none g w = w
  with_player (some q) g w = g q w

  abbrev pub draw : World F → World F
  draw w = record w { drawn = w.drawn + 1 }

module _ {F : Type 0} ⦃f : Float F⦄ (host : Host F) where
  -- `getRandomDirection`, and the random number that it uses up.
  unfoldable pub random_direction : World F → Vec2D F
  random_direction w =
      let angle = host.real w.drawn zero_f (f.of_ℕ 2 *F host.pi) in
      vec (host.sin angle) (host.cos angle)

module _ {F : Type 0} ⦃f : Float F⦄ (config : RoomConfig F) (host : Host F) where
  -- The cell that `create kind` gives, before it is created.
  abbrev pub fresh_cell : World F → ℕ
  fresh_cell w = host.address w.room.cells

  -- `m_entityFactory.createAvatar()` and so on.
  unfoldable pub create_cell : Kind → World F → World F
  unfolding create
  create_cell kind w = record w {
    room = create kind config host.now (host.address w.room.cells) w.room;
  }

  -- The timers of a player start again.
  unfoldable pub schedule_deflation : ℕ → World F → World F
  unfolding put
  schedule_deflation q w = record w {
    timers =
        put q
          (record (w.timers q) {
            deflation = some (host.now + config.player.deflation_threshold);
            deflating = false;
          })
          w.timers;
  }

  unfoldable pub schedule_annihilation : ℕ → World F → World F
  unfolding put
  schedule_annihilation q w = record w {
    timers =
        put q
          (record (w.timers q) {
            annihilation = some (host.now + config.player.annihilation_threshold);
          })
          w.timers;
  }

  unfoldable pub wake_up : ℕ → World F → World F
  unfolding schedule_deflation schedule_annihilation put
  wake_up q w = schedule_annihilation q (schedule_deflation q w)
