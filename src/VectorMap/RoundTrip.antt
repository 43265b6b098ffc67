-- ===== src/VectorMap/RoundTrip.antt =====
-- The rows of every item of vector_map/lib/vector_map/vector_map.cpp are read back.
use autoware_ai_common.Base.{and_then, ap, some, ◌≡◌}
use autoware_ai_common.VectorMap.Columns.{Decimals, Lacks}
use autoware_ai_common.VectorMap.Items.{
  IsItem, Item, area, box, cross_road, cross_walk, curb, curve_mirror, drive_on_portion, dt_lane,
  fence, guard_rail, gutter, kind_of, lane, line, node, point, pole, print_item, rail_crossing,
  read_item, road_edge, road_mark, road_pole, road_sign, side_strip, side_walk, signal, stop_line,
  street_light, utility_pole, vector, wall, way_area, white_line, zebra_zone,
}
use autoware_ai_common.VectorMap.Points.{
  print_node-line, print_point-line, print_vector-line, read_node-print, read_point-print,
  read_vector-print,
}
use autoware_ai_common.VectorMap.Shapes.{
  print_area-line, print_box-line, print_line-line, print_pole-line, read_area-print,
  read_box-print, read_line-print, read_pole-print,
}
use autoware_ai_common.VectorMap.Ways.{
  print_dt_lane-line, print_way_area-line, read_dt_lane-print, read_way_area-print,
}
use autoware_ai_common.VectorMap.Lanes.{print_lane-line, read_lane-print}
use autoware_ai_common.VectorMap.Edges.{
  print_curb-line, print_gutter-line, print_road_edge-line, print_side_strip-line, read_curb-print,
  read_gutter-print, read_road_edge-print, read_side_strip-print,
}
use autoware_ai_common.VectorMap.Markings.{
  print_road_mark-line, print_stop_line-line, print_white_line-line, print_zebra_zone-line,
  read_road_mark-print, read_stop_line-print, read_white_line-print, read_zebra_zone-print,
}
use autoware_ai_common.VectorMap.Crossings.{
  print_cross_road-line, print_cross_walk-line, print_rail_crossing-line, read_cross_road-print,
  read_cross_walk-print, read_rail_crossing-print,
}
use autoware_ai_common.VectorMap.Surfaces.{
  print_drive_on_portion-line, print_side_walk-line, read_drive_on_portion-print,
  read_side_walk-print,
}
use autoware_ai_common.VectorMap.Signs.{
  print_curve_mirror-line, print_road_sign-line, print_signal-line, read_curve_mirror-print,
  read_road_sign-print, read_signal-print,
}
use autoware_ai_common.VectorMap.Posts.{
  print_road_pole-line, print_street_light-line, print_utility_pole-line, read_road_pole-print,
  read_street_light-print, read_utility_pole-print,
}
use autoware_ai_common.VectorMap.Barriers.{
  print_fence-line, print_guard_rail-line, print_wall-line, read_fence-print, read_guard_rail-print,
  read_wall-print,
}

module _ {W : Type 0} ⦃t : Decimals W⦄ where
  -- Every item of a map, of each of the 32 types, is read back from the row that it is printed as, when
  -- its integers are in the range of an int, the text of each of its doubles is not empty, has no comma
  -- and no end of line and is read as it, and its colour is neither of these characters.
  pub read_item-print : (x : Item W) → IsItem x → read_item (kind_of x) (print_item x) ≡ some x
  unfolding read_item print_item
  read_item-print (point x) h = ap (λ o. and_then o (λ y. some (point y))) (read_point-print x h)
  read_item-print (vector x) h = ap (λ o. and_then o (λ y. some (vector y))) (read_vector-print x h)
  read_item-print (line x) h = ap (λ o. and_then o (λ y. some (line y))) (read_line-print x h)
  read_item-print (area x) h = ap (λ o. and_then o (λ y. some (area y))) (read_area-print x h)
  read_item-print (pole x) h = ap (λ o. and_then o (λ y. some (pole y))) (read_pole-print x h)
  read_item-print (box x) h = ap (λ o. and_then o (λ y. some (box y))) (read_box-print x h)
  read_item-print (dt_lane x) h =
      ap (λ o. and_then o (λ y. some (dt_lane y))) (read_dt_lane-print x h)
  read_item-print (node x) h = ap (λ o. and_then o (λ y. some (node y))) (read_node-print x h)
  read_item-print (lane x) h = ap (λ o. and_then o (λ y. some (lane y))) (read_lane-print x h)
  read_item-print (way_area x) h =
      ap (λ o. and_then o (λ y. some (way_area y))) (read_way_area-print x h)
  read_item-print (road_edge x) h =
      ap (λ o. and_then o (λ y. some (road_edge y))) (read_road_edge-print x h)
  read_item-print (gutter x) h = ap (λ o. and_then o (λ y. some (gutter y))) (read_gutter-print x h)
  read_item-print (curb x) h = ap (λ o. and_then o (λ y. some (curb y))) (read_curb-print x h)
  read_item-print (white_line x) h =
      ap (λ o. and_then o (λ y. some (white_line y))) (read_white_line-print x h)
  read_item-print (stop_line x) h =
      ap (λ o. and_then o (λ y. some (stop_line y))) (read_stop_line-print x h)
  read_item-print (zebra_zone x) h =
      ap (λ o. and_then o (λ y. some (zebra_zone y))) (read_zebra_zone-print x h)
  read_item-print (cross_walk x) h =
      ap (λ o. and_then o (λ y. some (cross_walk y))) (read_cross_walk-print x h)
  read_item-print (road_mark x) h =
      ap (λ o. and_then o (λ y. some (road_mark y))) (read_road_mark-print x h)
  read_item-print (road_pole x) h =
      ap (λ o. and_then o (λ y. some (road_pole y))) (read_road_pole-print x h)
  read_item-print (road_sign x) h =
      ap (λ o. and_then o (λ y. some (road_sign y))) (read_road_sign-print x h)
  read_item-print (signal x) h = ap (λ o. and_then o (λ y. some (signal y))) (read_signal-print x h)
  read_item-print (street_light x) h =
      ap (λ o. and_then o (λ y. some (street_light y))) (read_street_light-print x h)
  read_item-print (utility_pole x) h =
      ap (λ o. and_then o (λ y. some (utility_pole y))) (read_utility_pole-print x h)
  read_item-print (guard_rail x) h =
      ap (λ o. and_then o (λ y. some (guard_rail y))) (read_guard_rail-print x h)
  read_item-print (side_walk x) h =
      ap (λ o. and_then o (λ y. some (side_walk y))) (read_side_walk-print x h)
  read_item-print (drive_on_portion x) h =
      ap (λ o. and_then o (λ y. some (drive_on_portion y))) (read_drive_on_portion-print x h)
  read_item-print (cross_road x) h =
      ap (λ o. and_then o (λ y. some (cross_road y))) (read_cross_road-print x h)
  read_item-print (side_strip x) h =
      ap (λ o. and_then o (λ y. some (side_strip y))) (read_side_strip-print x h)
  read_item-print (curve_mirror x) h =
      ap (λ o. and_then o (λ y. some (curve_mirror y))) (read_curve_mirror-print x h)
  read_item-print (wall x) h = ap (λ o. and_then o (λ y. some (wall y))) (read_wall-print x h)
  read_item-print (fence x) h = ap (λ o. and_then o (λ y. some (fence y))) (read_fence-print x h)
  read_item-print (rail_crossing x) h =
      ap (λ o. and_then o (λ y. some (rail_crossing y))) (read_rail_crossing-print x h)

  pub print_item-line : (x : Item W) → IsItem x → Lacks b'\n' (print_item x)
  unfolding print_item
  print_item-line (point x) h = print_point-line x h
  print_item-line (vector x) h = print_vector-line x h
  print_item-line (line x) h = print_line-line x h
  print_item-line (area x) h = print_area-line x h
  print_item-line (pole x) h = print_pole-line x h
  print_item-line (box x) h = print_box-line x h
  print_item-line (dt_lane x) h = print_dt_lane-line x h
  print_item-line (node x) h = print_node-line x h
  print_item-line (lane x) h = print_lane-line x h
  print_item-line (way_area x) h = print_way_area-line x h
  print_item-line (road_edge x) h = print_road_edge-line x h
  print_item-line (gutter x) h = print_gutter-line x h
  print_item-line (curb x) h = print_curb-line x h
  print_item-line (white_line x) h = print_white_line-line x h
  print_item-line (stop_line x) h = print_stop_line-line x h
  print_item-line (zebra_zone x) h = print_zebra_zone-line x h
  print_item-line (cross_walk x) h = print_cross_walk-line x h
  print_item-line (road_mark x) h = print_road_mark-line x h
  print_item-line (road_pole x) h = print_road_pole-line x h
  print_item-line (road_sign x) h = print_road_sign-line x h
  print_item-line (signal x) h = print_signal-line x h
  print_item-line (street_light x) h = print_street_light-line x h
  print_item-line (utility_pole x) h = print_utility_pole-line x h
  print_item-line (guard_rail x) h = print_guard_rail-line x h
  print_item-line (side_walk x) h = print_side_walk-line x h
  print_item-line (drive_on_portion x) h = print_drive_on_portion-line x h
  print_item-line (cross_road x) h = print_cross_road-line x h
  print_item-line (side_strip x) h = print_side_strip-line x h
  print_item-line (curve_mirror x) h = print_curve_mirror-line x h
  print_item-line (wall x) h = print_wall-line x h
  print_item-line (fence x) h = print_fence-line x h
  print_item-line (rail_crossing x) h = print_rail_crossing-line x h
