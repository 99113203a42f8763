-- ===== src/Geometry/Intersection.antt =====
-- The tests of src/geometry/geometry.cpp against independent descriptions of them.
use the_game_server.Base.{◌≡◌, Option, Bool, true, some, not, if◌then◌else◌, none, ◌&&◌, arith}
use the_game_server.Geometry.{box_intersects_circle, Float, Aabb, Circle, ◌-F◌}
use the_game_server.Base.Float.{◌-F◌}

module _ {F : Type 0} ⦃f : Float F⦄ where
  -- How far a coordinate lies outside an interval: none if it lies inside.
  abbrev pub gap : F → F → F → Option F
  gap lo hi c = if f.lt c lo then some (lo -F c) else if f.lt hi c then some (c -F hi) else none

  abbrev pub within_x : Option F → F → Bool
  within_x none r = true
  within_x (some d) r = not (f.lt r d)

  abbrev pub within_y : Option F → F → Bool
  within_y none r = true
  within_y (some d) r = f.le d r

  -- The test of a box against a circle treats the circle as its bounding square: it passes exactly when
  -- the distance from the centre to the box along each axis, if there is one, is at most the radius.
  -- Nothing is assumed of the arithmetic.
  pub box_intersects_circle_iff_axes :
      (box : Aabb F) (circle : Circle F)
      → let c = circle.position in
        box_intersects_circle box circle
        ≡ within_x (gap box.a.x box.b.x c.x) circle.radius
          && within_y (gap box.a.y box.b.y c.y) circle.radius
  unfolding box_intersects_circle
  box_intersects_circle_iff_axes box circle = ground arith
