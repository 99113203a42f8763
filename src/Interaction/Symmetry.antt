-- ===== src/Interaction/Symmetry.antt =====
-- The double dispatch of src/entity/*.cpp: which of two cells of different classes begins makes no difference.
use the_game_server.Entity.{kind_code, Kind}
use the_game_server.Interaction.Dispatch.{visit, interact}
use the_game_server.World.{Host, World, cell_at}
use the_game_server.Base.{ℕ, ◌≡◌, refl, ap, false, arith, ◌==◌}
use the_game_server.Base.Float.{Float}
use the_game_server.Config.{RoomConfig}

module _ {F : Type 0} ⦃f : Float F⦄ (config : RoomConfig F) (host : Host F) where
  visit-swap :
      (k l : Kind) (p q : ℕ)
      → (kind_code k == kind_code l) ≡ false
      → visit config host k l p q ≡ visit config host l k q p
  unfolding visit kind_code
  visit-swap Kind.avatar Kind.avatar p q h = ground (arith, h)
  visit-swap Kind.avatar Kind.food p q h = refl
  visit-swap Kind.avatar Kind.bullet p q h = refl
  visit-swap Kind.avatar Kind.virus p q h = refl
  visit-swap Kind.avatar Kind.phage p q h = refl
  visit-swap Kind.avatar Kind.mother p q h = refl
  visit-swap Kind.food Kind.avatar p q h = refl
  visit-swap Kind.food Kind.food p q h = ground (arith, h)
  visit-swap Kind.food Kind.bullet p q h = refl
  visit-swap Kind.food Kind.virus p q h = refl
  visit-swap Kind.food Kind.phage p q h = refl
  visit-swap Kind.food Kind.mother p q h = refl
  visit-swap Kind.bullet Kind.avatar p q h = refl
  visit-swap Kind.bullet Kind.food p q h = refl
  visit-swap Kind.bullet Kind.bullet p q h = ground (arith, h)
  visit-swap Kind.bullet Kind.virus p q h = refl
  visit-swap Kind.bullet Kind.phage p q h = refl
  visit-swap Kind.bullet Kind.mother p q h = refl
  visit-swap Kind.virus Kind.avatar p q h = refl
  visit-swap Kind.virus Kind.food p q h = refl
  visit-swap Kind.virus Kind.bullet p q h = refl
  visit-swap Kind.virus Kind.virus p q h = ground (arith, h)
  visit-swap Kind.virus Kind.phage p q h = refl
  visit-swap Kind.virus Kind.mother p q h = refl
  visit-swap Kind.phage Kind.avatar p q h = refl
  visit-swap Kind.phage Kind.food p q h = refl
  visit-swap Kind.phage Kind.bullet p q h = refl
  visit-swap Kind.phage Kind.virus p q h = refl
  visit-swap Kind.phage Kind.phage p q h = ground (arith, h)
  visit-swap Kind.phage Kind.mother p q h = refl
  visit-swap Kind.mother Kind.avatar p q h = refl
  visit-swap Kind.mother Kind.food p q h = refl
  visit-swap Kind.mother Kind.bullet p q h = refl
  visit-swap Kind.mother Kind.virus p q h = refl
  visit-swap Kind.mother Kind.phage p q h = refl
  visit-swap Kind.mother Kind.mother p q h = ground (arith, h)

  -- Two cells of different kinds: what happens when the first one calls `interact` of the second is what
  -- happens when the second one calls that of the first.
  pub interact_comm :
      (p q : ℕ) (w : World F)
      → (kind_code (cell_at w p).kind == kind_code (cell_at w q).kind) ≡ false
      → interact config host p q w ≡ interact config host q p w
  unfolding interact
  interact_comm p q w differ =
      ap (λ g. g w) (visit-swap (cell_at w q).kind (cell_at w p).kind q p (ground (arith, differ)))
