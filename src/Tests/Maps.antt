-- ===== src/Tests/Maps.antt =====
-- Boxes, circles and a map of two by two sectors.
use the_game_server.Gridmap.Queries.{lies_in, hits, walk, count_in-length, query-walk}
use the_game_server.Geometry.Vectors.{SameBounds, normalize_box_ordered, circle_tests_comm}
use the_game_server.Base.{
  refl, ℕ, ◌<◌, ◌≡◌, ◌⊎◌, true, false, ◌&&◌, none, some, arith, length, contains, inl, ◌+◌, ltb,
  ◌||◌,
}
use the_game_server.Base.Float.{of_ℕ}
use the_game_server.Base.Fixed.{Fixed, fixed_float}
use the_game_server.Geometry.{
  Aabb, Circle, normalize_box, contain, box_intersects_circle, circles_intersect,
  circles_overlap_within_distance,
}
use the_game_server.Geometry.Intersection.{box_intersects_circle_iff_axes, gap, within_x, within_y}
use the_game_server.Entity.{intersects}
use the_game_server.Gridmap.{resize, get_sector, cells_at, clip}
use the_game_server.Gridmap.Bounds.{IsMap, resize-IsMap, get_sector_total}
use the_game_server.Gridmap.Cells.{Placed, insert_cell, update_cell}
use the_game_server.Gridmap.Rounds.{Returns, IsHeld, IsMap-Alike}
use the_game_server.Gridmap.Returns.{insert_cell-Returns, update_cell-Returns}
use the_game_server.Tests.Data.{
  virus_cell, fixed_HasSymmetry, fixed_HasLines, point, room_map, room_map-IsMap,
}
use the_game_server.Gridmap.Keeping.{Linked}
use the_game_server.Gridmap.Links.{operations_keep_links, resize-Linked}
use the_game_server.Gridmap.Search.{Visit, count_in, query}

abbrev box : Aabb Fixed
box = record { a = point 20 40; b = point 10 5 }

abbrev circle : Circle Fixed
circle = record { position = point 30 30; radius = of_ℕ 10 }

abbrev neighbour : Circle Fixed
neighbour = record { position = point 35 30; radius = of_ℕ 4 }

box_intersects_circle_iff_axes_example :
    box_intersects_circle box circle
    ≡ within_x (gap box.a.x box.b.x circle.position.x) circle.radius
      && within_y (gap box.a.y box.b.y circle.position.y) circle.radius
box_intersects_circle_iff_axes_example = box_intersects_circle_iff_axes box circle

lt_asymm : (a b : Fixed) → fixed_float.lt a b ≡ true → fixed_float.lt b a ≡ false
unfolding fixed_float
lt_asymm a b h = ground arith

normalize_box_ordered_example :
    let n = normalize_box box in
    (fixed_float.lt n.b.x n.a.x ≡ false)
    × (fixed_float.lt n.b.y n.a.y ≡ false)
    × SameBounds box.a.x box.b.x n.a.x n.b.x
    × SameBounds box.a.y box.b.y n.a.y n.b.y
    × (((fixed_float.lt box.b.x box.a.x || fixed_float.lt box.b.y box.a.y) ≡ true) ⊎ (n ≡ box))
normalize_box_ordered_example = normalize_box_ordered lt_asymm box

circle_tests_comm_example :
    (circles_intersect circle neighbour ≡ circles_intersect neighbour circle)
    × (circles_overlap_within_distance circle neighbour (of_ℕ 2)
        ≡ circles_overlap_within_distance neighbour circle (of_ℕ 2))
circle_tests_comm_example = circle_tests_comm fixed_HasSymmetry circle neighbour (of_ℕ 2)

resize-IsMap_example : IsMap (resize {F = Fixed} 64 64 5)
resize-IsMap_example = resize-IsMap 64 64 5 (omega arith, omega arith) (omega arith, omega arith)

get_sector_total_example :
    ((contain room_map.box (point 40 3) ≡ true)
      × (i : ℕ) × (i < length room_map.sectors)
      × (get_sector room_map (point 40 3) ≡ some (some i)))
    ⊎ ((contain room_map.box (point 40 3) ≡ false) × (get_sector room_map (point 40 3) ≡ some none))
get_sector_total_example = get_sector_total fixed_HasLines room_map-IsMap (point 40 3)

le_trans :
    (a b c : Fixed)
    → fixed_float.le a b ≡ true
    → fixed_float.le b c ≡ true
    → fixed_float.le a c ≡ true
unfolding fixed_float
le_trans a b c h k = ground arith

abbrev before : Placed Fixed
before = record { grid = room_map; cell = virus_cell }

insert_cell-Returns_example : Returns room_map (insert_cell 8 before)
insert_cell-Returns_example =
    insert_cell-Returns fixed_HasLines le_trans 8 before room_map-IsMap (inl refl)

-- The map with the virus.
inserted : Returns room_map (insert_cell 8 before)
inserted = insert_cell-Returns fixed_HasLines le_trans 8 before room_map-IsMap (inl refl)

abbrev after : Placed Fixed
after = inserted.0

after-IsMap : IsMap after.grid
after-IsMap = IsMap-Alike inserted.2 room_map-IsMap

operations_keep_links_example :
    Linked 8 after
    × (contains 9 (cells_at after.grid.sectors 0) ≡ contains 9 (cells_at room_map.sectors 0))
unfolding resize
operations_keep_links_example =
    operations_keep_links 8 before after 9 0 (resize-Linked 8 64 64 5 virus_cell refl) (inl refl)
      (omega arith) (inl inserted.1)

before-IsHeld : IsHeld before
unfolding IsHeld
before-IsHeld = inl refl

update_cell-Returns_example : Returns room_map (update_cell 8 before)
update_cell-Returns_example =
    update_cell-Returns fixed_HasLines 8 before room_map-IsMap before-IsHeld

-- A handler that counts its calls and stops at the second one.
abbrev counting : ℕ → ℕ → Visit ℕ
counting p n = record { state = n + 1; goes_on = ltb n 1 }

abbrev whole : Aabb Fixed
whole = record { a = point 0 0; b = point 63 63 }

query-walk_example :
    query (λ _. virus_cell) counting after.grid whole 0
    ≡ some
        (walk counting
          (hits after.grid whole (λ p. intersects virus_cell (clip after.grid whole)))
          0).state
query-walk_example =
    query-walk fixed_HasLines (λ _. virus_cell) counting after.grid whole 0 after-IsMap

count_in-length_example :
    count_in (λ _. virus_cell) after.grid whole
    ≡ some (length (hits after.grid whole (λ _. lies_in virus_cell (clip after.grid whole))))
count_in-length_example =
    count_in-length fixed_HasLines (λ _. virus_cell) after.grid whole after-IsMap
