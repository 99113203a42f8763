-- ===== src/Geometry.antt =====
-- src/geometry/Vec2D.cpp, AABB.cpp, Circle.hpp and geometry.cpp.
pub mod Intersection
pub mod Vectors
use the_game_server.Base.{ℕ, Bool, true, false, not, ◌&&◌, ◌||◌, if◌then◌else◌}
use the_game_server.Base.Float.{Float, ◌+F◌, ◌-F◌, ◌*F◌, ◌/F◌, zero_f, ne_f}

pub record Vec2D (F : Type 0) : Type 0 where
  pub x : F
  pub y : F

pub record Aabb (F : Type 0) : Type 0 where
  pub a : Vec2D F
  pub b : Vec2D F

pub record Circle (F : Type 0) : Type 0 where
  pub position : Vec2D F
  pub radius : F

abbrev pub vec : {F : Type 0} → F → F → Vec2D F
vec x y = record { x = x; y = y }

module _ {F : Type 0} ⦃f : Float F⦄ where
  -- `Vec2D::zero`
  abbrev pub zero_vec : Vec2D F
  zero_vec = vec zero_f zero_f

  infixl 65 ◌+V◌ ◌-V◌
  infixl 70 ◌*V◌ ◌/V◌
  unfoldable pub ◌+V◌ : Vec2D F → Vec2D F → Vec2D F
  u +V v = vec (u.x +F v.x) (u.y +F v.y)

  unfoldable pub ◌-V◌ : Vec2D F → Vec2D F → Vec2D F
  u -V v = vec (u.x -F v.x) (u.y -F v.y)

  unfoldable pub neg_vec : Vec2D F → Vec2D F
  neg_vec v = vec (f.neg v.x) (f.neg v.y)

  -- The scalar product.
  unfoldable pub dot : Vec2D F → Vec2D F → F
  dot u v = u.x *F v.x +F u.y *F v.y

  unfoldable pub ◌*V◌ : Vec2D F → F → Vec2D F
  v *V k = vec (v.x *F k) (v.y *F k)

  unfoldable pub ◌/V◌ : Vec2D F → F → Vec2D F
  v /V k = vec (v.x /F k) (v.y /F k)

  -- `operator bool`
  unfoldable pub is_nonzero : Vec2D F → Bool
  is_nonzero v = ne_f v.x zero_f || ne_f v.y zero_f

  unfoldable pub equal : Vec2D F → Vec2D F → Bool
  equal u v = f.eq u.x v.x && f.eq u.y v.y

  -- `operator<`, and `operator>` with its arguments swapped.
  unfoldable pub before : Vec2D F → Vec2D F → Bool
  before u v = f.lt u.x v.x || (f.eq u.x v.x && f.lt u.y v.y)

  unfoldable pub square_length : Vec2D F → F
  square_length v = v.x *F v.x +F v.y *F v.y

  unfoldable pub vec_length : Vec2D F → F
  unfolding square_length
  vec_length v = f.sqrt (square_length v)

  unfoldable pub normalize : Vec2D F → Vec2D F
  unfolding vec_length
  normalize v = let l = vec_length v in if f.lt zero_f l then vec (v.x /F l) (v.y /F l) else v

  unfoldable pub direction : Vec2D F → Vec2D F
  unfolding normalize
  direction v = normalize v

  -- `AABB::normalize`
  unfoldable pub normalize_box : Aabb F → Aabb F
  normalize_box box = record {
    a = vec (if f.lt b.x a.x then b.x else a.x) (if f.lt b.y a.y then b.y else a.y);
    b = vec (if f.lt b.x a.x then a.x else b.x) (if f.lt b.y a.y then a.y else b.y);
  }
    where
      open box use {a, b}

  unfoldable pub translate : Aabb F → Vec2D F → Aabb F
  unfolding ◌+V◌
  translate box point = record { a = box.a +V point; b = box.b +V point }

  unfoldable pub contain : Aabb F → Vec2D F → Bool
  contain box p = f.le box.a.x p.x && f.le p.x box.b.x && f.le box.a.y p.y && f.le p.y box.b.y

  unfoldable pub width : Aabb F → F
  width box = box.b.x -F box.a.x

  unfoldable pub height : Aabb F → F
  height box = box.b.y -F box.a.y

  unfoldable pub square_distance : Vec2D F → Vec2D F → F
  square_distance p q = let a = p.x -F q.x in let b = p.y -F q.y in a *F a +F b *F b

  unfoldable pub distance : Vec2D F → Vec2D F → F
  distance p q = let a = p.x -F q.x in let b = p.y -F q.y in f.sqrt (a *F a +F b *F b)

  -- The overloads of `intersects`.
  unfoldable pub circle_intersects_point : Circle F → Vec2D F → Bool
  circle_intersects_point circle p =
      let a = p.x -F circle.position.x in
      let b = p.y -F circle.position.y in f.le (a *F a +F b *F b) (circle.radius *F circle.radius)

  unfoldable pub circles_intersect : Circle F → Circle F → Bool
  unfolding square_distance
  circles_intersect c d =
      f.le (square_distance c.position d.position)
        ((c.radius +F d.radius) *F (c.radius +F d.radius))

  unfoldable pub box_intersects_point : Aabb F → Vec2D F → Bool
  box_intersects_point box p =
      f.le box.a.x p.x && f.le p.x box.b.x && f.le box.a.y p.y && f.le p.y box.b.y

  unfoldable pub box_intersects_circle : Aabb F → Circle F → Bool
  box_intersects_circle box circle =
      if f.lt c.x box.a.x
      then if f.lt circle.radius (box.a.x -F c.x)
        then false
        else if f.lt c.y box.a.y
        then f.le (box.a.y -F c.y) circle.radius
        else if f.lt box.b.y c.y
        then f.le (c.y -F box.b.y) circle.radius
        else true
      else if f.lt box.b.x c.x
      then if f.lt circle.radius (c.x -F box.b.x)
        then false
        else if f.lt c.y box.a.y
        then f.le (box.a.y -F c.y) circle.radius
        else if f.lt box.b.y c.y
        then f.le (c.y -F box.b.y) circle.radius
        else true
      else if f.lt c.y box.a.y
      then f.le (box.a.y -F c.y) circle.radius
      else if f.lt box.b.y c.y
      then f.le (c.y -F box.b.y) circle.radius
      else true
    where
      open circle use {position as c}

  unfoldable pub circles_overlap_within_distance : Circle F → Circle F → F → Bool
  unfolding square_distance
  circles_overlap_within_distance c d inclusion_distance =
      let min_distance = c.radius +F d.radius -F inclusion_distance in
      if f.lt min_distance zero_f
      then false
      else f.lt (square_distance c.position d.position) (min_distance *F min_distance)
