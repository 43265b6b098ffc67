-- ===== src/VectorMap/Items.antt =====
-- The overloads of operator<< and operator>> of vector_map/lib/vector_map/vector_map.cpp as functions on one
-- type, with what the type of the argument chooses there chosen by a kind.
use autoware_ai_common.Base.{Option, and_then, some}
use autoware_ai_common.VectorMap.Numbers.{Bytes}
use autoware_ai_common.VectorMap.Columns.{Decimals}
use autoware_ai_common.VectorMap.Points.{
  IsNode, IsPoint, IsVector, Node, Point, Vector, print_node, print_point, print_vector, read_node,
  read_point, read_vector,
}
use autoware_ai_common.VectorMap.Shapes.{
  Area, Box, IsArea, IsBox, IsLine, IsPole, Line, Pole, print_area, print_box, print_line,
  print_pole, read_area, read_box, read_line, read_pole,
}
use autoware_ai_common.VectorMap.Ways.{
  DtLane, IsDtLane, IsWayArea, WayArea, print_dt_lane, print_way_area, read_dt_lane, read_way_area,
}
use autoware_ai_common.VectorMap.Lanes.{IsLane, Lane, print_lane, read_lane}
use autoware_ai_common.VectorMap.Edges.{
  Curb, Gutter, IsCurb, IsGutter, IsRoadEdge, IsSideStrip, RoadEdge, SideStrip, print_curb,
  print_gutter, print_road_edge, print_side_strip, read_curb, read_gutter, read_road_edge,
  read_side_strip,
}
use autoware_ai_common.VectorMap.Markings.{
  IsRoadMark, IsStopLine, IsWhiteLine, IsZebraZone, RoadMark, StopLine, WhiteLine, ZebraZone,
  print_road_mark, print_stop_line, print_white_line, print_zebra_zone, read_road_mark,
  read_stop_line, read_white_line, read_zebra_zone,
}
use autoware_ai_common.VectorMap.Crossings.{
  CrossRoad, CrossWalk, IsCrossRoad, IsCrossWalk, IsRailCrossing, RailCrossing, print_cross_road,
  print_cross_walk, print_rail_crossing, read_cross_road, read_cross_walk, read_rail_crossing,
}
use autoware_ai_common.VectorMap.Surfaces.{
  DriveOnPortion, IsDriveOnPortion, IsSideWalk, SideWalk, print_drive_on_portion, print_side_walk,
  read_drive_on_portion, read_side_walk,
}
use autoware_ai_common.VectorMap.Signs.{
  CurveMirror, IsCurveMirror, IsRoadSign, IsSignal, RoadSign, Signal, print_curve_mirror,
  print_road_sign, print_signal, read_curve_mirror, read_road_sign, read_signal,
}
use autoware_ai_common.VectorMap.Posts.{
  IsRoadPole, IsStreetLight, IsUtilityPole, RoadPole, StreetLight, UtilityPole, print_road_pole,
  print_street_light, print_utility_pole, read_road_pole, read_street_light, read_utility_pole,
}
use autoware_ai_common.VectorMap.Barriers.{
  Fence, GuardRail, IsFence, IsGuardRail, IsWall, Wall, print_fence, print_guard_rail, print_wall,
  read_fence, read_guard_rail, read_wall,
}

pub data Kind : Type 0 where
  a_point : Kind
  a_vector : Kind
  a_line : Kind
  a_area : Kind
  a_pole : Kind
  a_box : Kind
  a_dt_lane : Kind
  a_node : Kind
  a_lane : Kind
  a_way_area : Kind
  a_road_edge : Kind
  a_gutter : Kind
  a_curb : Kind
  a_white_line : Kind
  a_stop_line : Kind
  a_zebra_zone : Kind
  a_cross_walk : Kind
  a_road_mark : Kind
  a_road_pole : Kind
  a_road_sign : Kind
  a_signal : Kind
  a_street_light : Kind
  a_utility_pole : Kind
  a_guard_rail : Kind
  a_side_walk : Kind
  a_drive_on_portion : Kind
  a_cross_road : Kind
  a_side_strip : Kind
  a_curve_mirror : Kind
  a_wall : Kind
  a_fence : Kind
  a_rail_crossing : Kind

pub data Item (W : Type 0) : Type 0 where
  point : Point W → Item W
  vector : Vector W → Item W
  line : Line → Item W
  area : Area → Item W
  pole : Pole W → Item W
  box : Box W → Item W
  dt_lane : DtLane W → Item W
  node : Node → Item W
  lane : Lane W → Item W
  way_area : WayArea → Item W
  road_edge : RoadEdge → Item W
  gutter : Gutter → Item W
  curb : Curb W → Item W
  white_line : WhiteLine W → Item W
  stop_line : StopLine → Item W
  zebra_zone : ZebraZone → Item W
  cross_walk : CrossWalk → Item W
  road_mark : RoadMark → Item W
  road_pole : RoadPole → Item W
  road_sign : RoadSign → Item W
  signal : Signal → Item W
  street_light : StreetLight → Item W
  utility_pole : UtilityPole → Item W
  guard_rail : GuardRail → Item W
  side_walk : SideWalk → Item W
  drive_on_portion : DriveOnPortion → Item W
  cross_road : CrossRoad → Item W
  side_strip : SideStrip → Item W
  curve_mirror : CurveMirror → Item W
  wall : Wall → Item W
  fence : Fence → Item W
  rail_crossing : RailCrossing → Item W

abbrev pub kind_of : {W : Type 0} → Item W → Kind
kind_of (point x) = a_point
kind_of (vector x) = a_vector
kind_of (line x) = a_line
kind_of (area x) = a_area
kind_of (pole x) = a_pole
kind_of (box x) = a_box
kind_of (dt_lane x) = a_dt_lane
kind_of (node x) = a_node
kind_of (lane x) = a_lane
kind_of (way_area x) = a_way_area
kind_of (road_edge x) = a_road_edge
kind_of (gutter x) = a_gutter
kind_of (curb x) = a_curb
kind_of (white_line x) = a_white_line
kind_of (stop_line x) = a_stop_line
kind_of (zebra_zone x) = a_zebra_zone
kind_of (cross_walk x) = a_cross_walk
kind_of (road_mark x) = a_road_mark
kind_of (road_pole x) = a_road_pole
kind_of (road_sign x) = a_road_sign
kind_of (signal x) = a_signal
kind_of (street_light x) = a_street_light
kind_of (utility_pole x) = a_utility_pole
kind_of (guard_rail x) = a_guard_rail
kind_of (side_walk x) = a_side_walk
kind_of (drive_on_portion x) = a_drive_on_portion
kind_of (cross_road x) = a_cross_road
kind_of (side_strip x) = a_side_strip
kind_of (curve_mirror x) = a_curve_mirror
kind_of (wall x) = a_wall
kind_of (fence x) = a_fence
kind_of (rail_crossing x) = a_rail_crossing

module _ {W : Type 0} ⦃t : Decimals W⦄ where
  unfoldable pub print_item : Item W → Bytes
  print_item (point x) = print_point x
  print_item (vector x) = print_vector x
  print_item (line x) = print_line x
  print_item (area x) = print_area x
  print_item (pole x) = print_pole x
  print_item (box x) = print_box x
  print_item (dt_lane x) = print_dt_lane x
  print_item (node x) = print_node x
  print_item (lane x) = print_lane x
  print_item (way_area x) = print_way_area x
  print_item (road_edge x) = print_road_edge x
  print_item (gutter x) = print_gutter x
  print_item (curb x) = print_curb x
  print_item (white_line x) = print_white_line x
  print_item (stop_line x) = print_stop_line x
  print_item (zebra_zone x) = print_zebra_zone x
  print_item (cross_walk x) = print_cross_walk x
  print_item (road_mark x) = print_road_mark x
  print_item (road_pole x) = print_road_pole x
  print_item (road_sign x) = print_road_sign x
  print_item (signal x) = print_signal x
  print_item (street_light x) = print_street_light x
  print_item (utility_pole x) = print_utility_pole x
  print_item (guard_rail x) = print_guard_rail x
  print_item (side_walk x) = print_side_walk x
  print_item (drive_on_portion x) = print_drive_on_portion x
  print_item (cross_road x) = print_cross_road x
  print_item (side_strip x) = print_side_strip x
  print_item (curve_mirror x) = print_curve_mirror x
  print_item (wall x) = print_wall x
  print_item (fence x) = print_fence x
  print_item (rail_crossing x) = print_rail_crossing x

  unfoldable pub read_item : Kind → Bytes → Option (Item W)
  read_item a_point s = and_then (read_point s) (λ x. some (point x))
  read_item a_vector s = and_then (read_vector s) (λ x. some (vector x))
  read_item a_line s = and_then (read_line s) (λ x. some (line x))
  read_item a_area s = and_then (read_area s) (λ x. some (area x))
  read_item a_pole s = and_then (read_pole s) (λ x. some (pole x))
  read_item a_box s = and_then (read_box s) (λ x. some (box x))
  read_item a_dt_lane s = and_then (read_dt_lane s) (λ x. some (dt_lane x))
  read_item a_node s = and_then (read_node s) (λ x. some (node x))
  read_item a_lane s = and_then (read_lane s) (λ x. some (lane x))
  read_item a_way_area s = and_then (read_way_area s) (λ x. some (way_area x))
  read_item a_road_edge s = and_then (read_road_edge s) (λ x. some (road_edge x))
  read_item a_gutter s = and_then (read_gutter s) (λ x. some (gutter x))
  read_item a_curb s = and_then (read_curb s) (λ x. some (curb x))
  read_item a_white_line s = and_then (read_white_line s) (λ x. some (white_line x))
  read_item a_stop_line s = and_then (read_stop_line s) (λ x. some (stop_line x))
  read_item a_zebra_zone s = and_then (read_zebra_zone s) (λ x. some (zebra_zone x))
  read_item a_cross_walk s = and_then (read_cross_walk s) (λ x. some (cross_walk x))
  read_item a_road_mark s = and_then (read_road_mark s) (λ x. some (road_mark x))
  read_item a_road_pole s = and_then (read_road_pole s) (λ x. some (road_pole x))
  read_item a_road_sign s = and_then (read_road_sign s) (λ x. some (road_sign x))
  read_item a_signal s = and_then (read_signal s) (λ x. some (signal x))
  read_item a_street_light s = and_then (read_street_light s) (λ x. some (street_light x))
  read_item a_utility_pole s = and_then (read_utility_pole s) (λ x. some (utility_pole x))
  read_item a_guard_rail s = and_then (read_guard_rail s) (λ x. some (guard_rail x))
  read_item a_side_walk s = and_then (read_side_walk s) (λ x. some (side_walk x))
  read_item a_drive_on_portion s =
      and_then (read_drive_on_portion s) (λ x. some (drive_on_portion x))
  read_item a_cross_road s = and_then (read_cross_road s) (λ x. some (cross_road x))
  read_item a_side_strip s = and_then (read_side_strip s) (λ x. some (side_strip x))
  read_item a_curve_mirror s = and_then (read_curve_mirror s) (λ x. some (curve_mirror x))
  read_item a_wall s = and_then (read_wall s) (λ x. some (wall x))
  read_item a_fence s = and_then (read_fence s) (λ x. some (fence x))
  read_item a_rail_crossing s = and_then (read_rail_crossing s) (λ x. some (rail_crossing x))

  -- The numbers of an item are numbers of an `int`, or are read back from their print.
  abbrev pub IsItem : Item W → Type 0
  IsItem (point x) = IsPoint x
  IsItem (vector x) = IsVector x
  IsItem (line x) = IsLine x
  IsItem (area x) = IsArea x
  IsItem (pole x) = IsPole x
  IsItem (box x) = IsBox x
  IsItem (dt_lane x) = IsDtLane x
  IsItem (node x) = IsNode x
  IsItem (lane x) = IsLane x
  IsItem (way_area x) = IsWayArea x
  IsItem (road_edge x) = IsRoadEdge x
  IsItem (gutter x) = IsGutter x
  IsItem (curb x) = IsCurb x
  IsItem (white_line x) = IsWhiteLine x
  IsItem (stop_line x) = IsStopLine x
  IsItem (zebra_zone x) = IsZebraZone x
  IsItem (cross_walk x) = IsCrossWalk x
  IsItem (road_mark x) = IsRoadMark x
  IsItem (road_pole x) = IsRoadPole x
  IsItem (road_sign x) = IsRoadSign x
  IsItem (signal x) = IsSignal x
  IsItem (street_light x) = IsStreetLight x
  IsItem (utility_pole x) = IsUtilityPole x
  IsItem (guard_rail x) = IsGuardRail x
  IsItem (side_walk x) = IsSideWalk x
  IsItem (drive_on_portion x) = IsDriveOnPortion x
  IsItem (cross_road x) = IsCrossRoad x
  IsItem (side_strip x) = IsSideStrip x
  IsItem (curve_mirror x) = IsCurveMirror x
  IsItem (wall x) = IsWall x
  IsItem (fence x) = IsFence x
  IsItem (rail_crossing x) = IsRailCrossing x
