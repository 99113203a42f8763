-- ===== src/Interaction/Dispatch.antt =====
-- The double dispatch of `interact`: a cell calls `interact` of the other one with its own class.
use the_game_server.Base.{ℕ, not, ◌&&◌, ◌==◌, if◌then◌else◌}
use the_game_server.Base.Float.{Float}
use the_game_server.Config.{RoomConfig}
use the_game_server.World.{Host, World, cell_at}
use the_game_server.Gridmap.Search.{Visit}
use the_game_server.Entity.{Kind, avatar, food, bullet, virus, phage, mother}
use the_game_server.Interaction.Pairs.{
  avatar_avatar, avatar_food, avatar_bullet, avatar_virus, avatar_phage, avatar_mother, trap_food,
  trap_bullet, merge_into, mother_food, mother_bullet, mother_absorbs,
}

module _ {F : Type 0} ⦃f : Float F⦄ (config : RoomConfig F) (host : Host F) where
  -- `this.interact(other)`, for the class of each, first that of `this`. A method that a class does not
  -- override does nothing.
  unfoldable pub visit : Kind → Kind → ℕ → ℕ → World F → World F
  unfolding avatar_avatar avatar_food avatar_bullet avatar_virus avatar_phage avatar_mother
      trap_food trap_bullet merge_into mother_food mother_bullet mother_absorbs
  visit avatar avatar p q = avatar_avatar config host p q
  visit avatar food p q = avatar_food config host p q
  visit avatar bullet p q = avatar_bullet config host p q
  visit avatar virus p q = avatar_virus config host p q
  visit avatar phage p q = avatar_phage config host p q
  visit avatar mother p q = avatar_mother config host p q
  visit food avatar p q = avatar_food config host q p
  visit food virus p q = trap_food config host q p
  visit food phage p q = trap_food config host q p
  visit food mother p q = mother_food config host q p
  visit food _ p q = λ w. w
  visit bullet avatar p q = avatar_bullet config host q p
  visit bullet virus p q = trap_bullet config host q p
  visit bullet phage p q = trap_bullet config host q p
  visit bullet mother p q = mother_bullet config host q p
  visit bullet _ p q = λ w. w
  visit virus avatar p q = avatar_virus config host q p
  visit virus food p q = trap_food config host p q
  visit virus bullet p q = trap_bullet config host p q
  visit virus virus p q = merge_into config host virus p q
  visit virus phage p q = merge_into config host mother p q
  visit virus mother p q = mother_absorbs config host q p
  visit phage avatar p q = avatar_phage config host q p
  visit phage food p q = trap_food config host p q
  visit phage bullet p q = trap_bullet config host p q
  visit phage virus p q = merge_into config host mother q p
  visit phage phage p q = merge_into config host phage p q
  visit phage mother p q = mother_absorbs config host q p
  visit mother avatar p q = avatar_mother config host q p
  visit mother food p q = mother_food config host p q
  visit mother bullet p q = mother_bullet config host p q
  visit mother virus p q = mother_absorbs config host p q
  visit mother phage p q = mother_absorbs config host p q
  visit mother mother p q = λ w. w

  -- `cell->interact(target)`
  unfoldable pub interact : ℕ → ℕ → World F → World F
  unfolding visit
  interact cell target w = visit (cell_at w target).kind (cell_at w cell).kind target cell w

  -- The handler of the query in `Room::update`: what it does, and whether the query goes on.
  unfoldable pub meet : ℕ → ℕ → World F → Visit (World F)
  unfolding interact
  meet cell target w =
      let w' =
        if not (cell == target) && not (cell_at w cell).zombie && not (cell_at w target).zombie
        then interact cell target w
        else w in
      record { state = w'; goes_on = not (cell_at w' cell).zombie }
