-- ===== src/Updates/Meetings.antt =====
-- What the query of one cell at work does in `Room::update`, src/Room.cpp.
use the_game_server.Entity.{Cell, get_aabb}
use the_game_server.Gridmap.{is_empty, rows_of, cols_of, indices}
use the_game_server.Gridmap.Bounds.{HasLines, IsMap}
use the_game_server.World.{World}
use the_game_server.Gridmap.Queries.{held, range-All}
use the_game_server.Updates.{
  meet_cells, Host, cell_at, meet_sectors, meet_neighbours, sectors_of, reach,
}
use the_game_server.Base.{
  ℕ, ◌+◌, ◌*◌, ◌^◌, ◌<◌, ◌≡◌, refl, Bool, true, ◌||◌, List, [], ◌∷◌, ◌++◌, arith, ◌==◌,
  if◌then◌else◌, length, contains, count, if_either, length-append, All, some, Bool-cases, inl, inr,
  false, ◌∙◌, ltb,
}
use the_game_server.Base.Float.{Float}
use the_game_server.Config.{RoomConfig}
use the_game_server.Registries.Sound.{live}
use the_game_server.Geometry.{Aabb}
use the_game_server.World.Orderly.{IsOrderly, Passes, Passes-weaken, Passes-refl, Passes-trans}
use the_game_server.Interaction.Fair.{among, births, still}
use the_game_server.Interaction.Dispatch.{meet}
use the_game_server.Interaction.Meeting.{meet-Passes}
use the_game_server.Gridmap.Search.{Visit}
use the_game_server.Entity.{intersects}
use the_game_server.Gridmap.{Gridmap, cells_at}

-- A cell and others.
abbrev pub touched : ℕ → List ℕ → ℕ → Bool
touched p qs x = p == x || contains x qs

-- A test that holds before a test that holds, or does not.
both_hold :
    {A : Type 0} (b c : Bool) (x y z : A)
    → b ≡ true
    → c ≡ true
    → (if b then (if c then x else y) else z) ≡ x
both_hold b c x y z h k = rw (h, k) refl

only_first :
    {A : Type 0} (b c : Bool) (x y z : A)
    → b ≡ true
    → c ≡ false
    → (if b then (if c then x else y) else z) ≡ y
only_first b c x y z h k = rw (h, k) refl

shares : (n a b c : ℕ) → c ≡ a + b → n * c ≡ n * a + n * b
shares n a b c e = rw e (grind arith)

contains-append :
    (a : ℕ) (xs ys : List ℕ) → contains a (xs ++ ys) ≡ (contains a xs || contains a ys)
unfolding contains
contains-append a [] ys = refl
contains-append a (x ∷ xs) ys = ground (arith, contains-append a xs ys)

module _ {F : Type 0} where
  -- All of these cells are live.
  abbrev pub AreLive : World F → List ℕ → Type 0
  AreLive w qs = (q : ℕ) → contains q qs ≡ true → live w.room q ≡ true

module _ {F : Type 0} ⦃f : Float F⦄ (config : RoomConfig F) (host : Host F)
    (fresh : (cells : List ℕ) → count (host.address cells) cells ≡ 0) where
  -- What a cell may do to others that it may meet, each once.
  abbrev pub Meets : ℕ → List ℕ → World F → World F → Type 0
  Meets p qs w w' = Passes (touched p qs) (births config host fresh * length qs) w w'

  stays_put : (p : ℕ) (qs : List ℕ) (w : World F) → IsOrderly w → Meets p qs w w
  stays_put p qs w o = Passes-weaken (λ x d. refl) (omega arith) (Passes-refl w o)

  -- One more.
  one_more :
      (p q : ℕ) (qs : List ℕ) (w w' w'' : World F)
      → Passes (among config host fresh p q) (births config host fresh) w w'
      → Meets p qs w' w''
      → Meets p (q ∷ qs) w w''
  unfolding contains
  one_more p q qs w w' w'' h k =
      Passes-weaken (λ x d. ground (arith, d)) (omega arith) (Passes-trans h k)

  meet_cells-Meets :
      (box : Aabb F) (p : ℕ) (qs : List ℕ) (w : World F)
      → live w.room p ≡ true
      → AreLive w qs
      → w.room.next_ids.next_id + births config host fresh * length qs < 2 ^ 32
      → IsOrderly w
      → Meets p qs w (meet_cells config host box p qs w).state
  unfolding meet_cells contains
  meet_cells-Meets box p [] w l ls room o = stays_put p [] w o
  meet_cells-Meets box p (q ∷ qs) w l ls room o =
      let v = meet config host p q w in
      let h = meet-Passes config host fresh p q w l (ls q (ground arith)) (omega (arith, room)) o in
      let rest = meet_cells config host box p qs v.state in
      let later =
        meet_cells-Meets box p qs v.state (h.stays p l)
          (λ x c. h.stays x (ls x (ground (arith, c)))) (omega (arith, room, h.numbers))
          h.orderly in
      let skipped =
        meet_cells-Meets box p qs w l (λ x c. ls x (ground (arith, c))) (omega (arith, room)) o in
      if_either (λ (u : Visit (World F)). Meets p (q ∷ qs) w u.state) (intersects (cell_at w q) box)
        (if v.goes_on then rest else v) (meet_cells config host box p qs w)
        (λ i.
          if_either (λ (u : Visit (World F)). Meets p (q ∷ qs) w u.state) v.goes_on rest v
            (λ g. one_more p q qs w v.state rest.state h later)
            (λ g. one_more p q qs w v.state v.state h (stays_put p qs v.state h.orderly)))
        (λ i. one_more p q qs w w _ (still config host fresh p q w o) skipped)

  -- The same, for cells one after the other in two lists.
  Meets-append :
      (p : ℕ) (ps qs : List ℕ) (w w' w'' : World F)
      → Meets p ps w w'
      → Meets p qs w' w''
      → Meets p (ps ++ qs) w w''
  Meets-append p ps qs w w' w'' h k =
      Passes-weaken (λ x d. ground (arith, d, contains-append x ps qs))
        (omega (
          arith,
          shares (births config host fresh) (length ps) (length qs) (length (ps ++ qs))
              (length-append ps qs),
        ))
        (Passes-trans h k)

  meet_sectors-Meets :
      (g : Gridmap F) (box : Aabb F) (p : ℕ) (is : List ℕ) (w : World F)
      → All (λ i. i < length g.sectors) is
      → live w.room p ≡ true
      → AreLive w (held g is)
      → w.room.next_ids.next_id + births config host fresh * length (held g is) < 2 ^ 32
      → IsOrderly w
      → (v : Visit (World F)) × (meet_sectors config host g box p is w ≡ some v)
        × Meets p (held g is) w v.state
  unfolding meet_sectors held
  meet_sectors-Meets g box p [] w rs l ls room o =
      (record { state = w; goes_on = true }, refl, stays_put p [] w o)
  meet_sectors-Meets g box p (i ∷ is) w (r, rs) l ls room o =
      let qs = cells_at g.sectors i in
      let more =
        shares (births config host fresh) (length qs) (length (held g is))
          (length (qs ++ held g is)) (length-append qs (held g is)) in
      let v = meet_cells config host box p qs w in
      let h =
        meet_cells-Meets box p qs w l
          (λ x c. ls x (ground (arith, c, contains-append x qs (held g is))))
          (omega (arith, room, more)) o in
      let (u, e, k) =
        meet_sectors-Meets g box p is v.state rs (h.stays p l)
          (λ x c. h.stays x (ls x (ground (arith, c, contains-append x qs (held g is)))))
          (omega (arith, room, more, h.numbers)) h.orderly in
      let within : ltb i (length g.sectors) ≡ true = ground (arith, r) in
      elim (Bool-cases v.goes_on) [
        | inl on ↦ (
          u,
          both_hold _ v.goes_on _ _ _ within on ∙ e,
          Meets-append p qs (held g is) w v.state u.state h k,
        )
        | inr off ↦ (
          v,
          only_first _ v.goes_on _ _ _ within off,
          Meets-append p qs (held g is) w v.state v.state h
              (stays_put p (held g is) v.state h.orderly),
        )
      ]

  sectors_of-All :
      (laws : HasLines F) (g : Gridmap F) (c : Cell F)
      → IsMap g
      → All (λ i. i < length g.sectors) (sectors_of g (reach g c))
  unfolding sectors_of
  sectors_of-All laws g c m =
      if_either (All (λ i. i < length g.sectors)) (is_empty (reach g c)) []
        (indices g (rows_of g (reach g c)) (cols_of g (reach g c))) (λ e. tt)
        (λ e. range-All laws g (get_aabb c) m)

  -- The cells of the sectors that a cell's box reaches.
  abbrev pub neighbours : ℕ → World F → List ℕ
  neighbours p w =
      held w.room.gridmap (sectors_of w.room.gridmap (reach w.room.gridmap (cell_at w p)))

  -- On a map whose sectors in reach hold live cells, in an orderly room with numbers left for each meeting:
  -- the query of a live cell in `update` returns, whatever cells it meets and however they change on the
  -- way, and leaves an orderly room, in which only the cell itself and the cells of those sectors may have
  -- been killed.
  pub meet_neighbours-Meets :
      (laws : HasLines F) (p : ℕ) (w : World F)
      → IsMap w.room.gridmap
      → live w.room p ≡ true
      → AreLive w (neighbours p w)
      → w.room.next_ids.next_id + births config host fresh * length (neighbours p w) < 2 ^ 32
      → IsOrderly w
      → (w' : World F) × (meet_neighbours config host p w ≡ some w') × Meets p (neighbours p w) w w'
  unfolding meet_neighbours
  meet_neighbours-Meets laws p w m l ls room o =
      let g = w.room.gridmap in
      let box = reach g (cell_at w p) in
      let (v, e, h) =
        meet_sectors-Meets g box p (sectors_of g box) w (sectors_of-All laws g (cell_at w p) m) l ls
          room o in
      (v.state, rw e refl, h)
