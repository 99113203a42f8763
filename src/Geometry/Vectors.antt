-- ===== src/Geometry/Vectors.antt =====
-- Laws of the boxes and circles of src/geometry.
use the_game_server.Base.{Bool-cases, ◌||◌, ◌⊎◌, inl, inr}
use the_game_server.Base.{refl, Bool}
use the_game_server.Base.{◌≡◌, true, false, arith, if◌then◌else◌}
use the_game_server.Base.Float.{Float, ◌+F◌, ◌-F◌, ◌*F◌}
use the_game_server.Geometry.{
  Aabb, normalize_box, circles_intersect, square_distance, Vec2D, circles_overlap_within_distance,
  Circle,
}

module _ {F : Type 0} ⦃f : Float F⦄ where
  -- Along an axis the bounds are those that there were, in the same order or swapped.
  abbrev pub SameBounds : F → F → F → F → Type 0
  SameBounds a b a' b' = ((a' ≡ a) × (b' ≡ b)) ⊎ ((a' ≡ b) × (b' ≡ a))

  kept_or_swapped : (c : Bool) (a b : F) → SameBounds a b (if c then b else a) (if c then a else b)
  kept_or_swapped true a b = inr (refl, refl)
  kept_or_swapped false a b = inl (refl, refl)

  -- If `<` is asymmetric, `normalize` puts the corners of a box in order along both axes, keeps the two
  -- bounds of each axis, and leaves a box that is in order as it is.
  pub normalize_box_ordered :
      (lt_asymm : (a b : F) → f.lt a b ≡ true → f.lt b a ≡ false) (box : Aabb F)
      → let n = normalize_box box in
        (f.lt n.b.x n.a.x ≡ false)
        × (f.lt n.b.y n.a.y ≡ false)
        × SameBounds box.a.x box.b.x n.a.x n.b.x
        × SameBounds box.a.y box.b.y n.a.y n.b.y
        × (((f.lt box.b.x box.a.x || f.lt box.b.y box.a.y) ≡ true) ⊎ (n ≡ box))
  unfolding normalize_box
  normalize_box_ordered lt_asymm box = (
    ground (arith, lt_asymm box.b.x box.a.x),
    ground (arith, lt_asymm box.b.y box.a.y),
    kept_or_swapped (f.lt box.b.x box.a.x) box.a.x box.b.x,
    kept_or_swapped (f.lt box.b.y box.a.y) box.a.y box.b.y,
    elim (Bool-cases (f.lt box.b.x box.a.x || f.lt box.b.y box.a.y)) [
      | inl swaps ↦ inl swaps
      | inr ordered ↦
          (let x : f.lt box.b.x box.a.x ≡ false = ground (arith, ordered) in
            let y : f.lt box.b.y box.a.y ≡ false = ground (arith, ordered) in inr (rw (x, y) refl))
    ],
  )

-- What IEEE 754 says of the operations, for numbers that are no NaN: neither the square of a difference
-- nor a sum depends on the order.
pub record HasSymmetry (F : Type 0) ⦃f : Float F⦄ : Type 0 where
  pub square_sub_swap : (a b : F) → (a -F b) *F (a -F b) ≡ (b -F a) *F (b -F a)
  pub add_comm : (a b : F) → a +F b ≡ b +F a

module _ {F : Type 0} ⦃f : Float F⦄ (laws : HasSymmetry F) where
  open laws use {square_sub_swap, add_comm}

  pub square_distance_comm : (p q : Vec2D F) → square_distance p q ≡ square_distance q p
  unfolding square_distance
  square_distance_comm p q = rw (square_sub_swap p.x q.x, square_sub_swap p.y q.y)

  -- Neither test of two circles depends on the order of the circles.
  pub circle_tests_comm :
      (c d : Circle F) (inclusion_distance : F)
      → (circles_intersect c d ≡ circles_intersect d c)
        × (circles_overlap_within_distance c d inclusion_distance
            ≡ circles_overlap_within_distance d c inclusion_distance)
  unfolding circles_intersect circles_overlap_within_distance
  circle_tests_comm c d inclusion_distance = (
    cc (
      square_sub_swap c.position.x d.position.x,
      square_sub_swap c.position.y d.position.y,
      add_comm c.radius d.radius,
    ),
    cc (
      square_sub_swap c.position.x d.position.x,
      square_sub_swap c.position.y d.position.y,
      add_comm c.radius d.radius,
    ),
  )
