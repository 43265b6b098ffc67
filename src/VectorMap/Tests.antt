-- ===== src/VectorMap/Tests.antt =====
-- Runs of the map's model on small inputs.
use autoware_ai_common.Base.{
  List, [], ap, arith, find_if, if◌then◌else◌, map, none, refl, some, subst, sym, ℕ, ◌<◌, ◌∷◌, ◌≡◌,
}
use autoware_ai_common.VectorMap.Markers.{
  MapItems, create_area_marker, create_marker, ends_of, finish, is_zero, no_line, no_point, red,
}
use autoware_ai_common.VectorMap.Handles.{by_id, find_by_key, find_by_key-update_map}
use autoware_ai_common.VectorMap.Points.{Point, Vector}
use autoware_ai_common.VectorMap.Shapes.{Area, Line, update_line}
use autoware_ai_common.Base.Int.{eqb_ℤ, negsuc, pos, ℤ}
use autoware_ai_common.Base.Double.{int_double}
use autoware_ai_common.Base.Map.{lookup, or_else}
use autoware_ai_common.VectorMap.Numbers.{
  IsInt, digits, int_bound, read_signed, read_ℕ, show_ℕ, show_ℤ, skip_space, stoi, stoi-show_ℤ,
  value,
}
use autoware_ai_common.VectorMap.Columns.{Decimals, IsShown, join, show_ℤ-IsPart, show_ℤ-line}
use autoware_ai_common.VectorMap.Items.{Item, a_line, kind_of, line, print_item, read_item, vector}
use autoware_ai_common.VectorMap.Files.{file_of, parse, parse-file_of}
use autoware_ai_common.VectorMap.Lanes.{IsLane, Lane, lane_columns, read_lane}
use autoware_ai_common.VectorMap.ShortLanes.{read_lane-take, take, without_attributes, without_link}
use autoware_ai_common.VectorMap.Outlines.{
  IsLooping, IsOutline, create_area_marker-loop, create_area_marker-outline, outline_points,
}
use autoware_ai_common.VectorMap.RoundTrip.{read_item-print}

-- Whole numbers in the place of doubles.
instance abbrev int_decimals : Decimals ℤ
int_decimals = record { show_double = show_ℤ; stod = stoi }

shown : (x : ℤ) → IsInt x → IsShown x
shown x h = record { read = stoi-show_ℤ x h; column = show_ℤ-IsPart x h; line = show_ℤ-line x h }

abbrev small : (n : ℕ) → n < int_bound → IsInt (pos n)
small n h = (h, omega arith)

abbrev below : IsInt (negsuc 41)
below = (omega arith, omega arith)

abbrev some_vector : Vector ℤ
some_vector = record { vid = pos 7; pid = pos 0; hang = negsuc 41; vang = pos 90 }

read_item-print_example :
    read_item (kind_of (vector some_vector)) (print_item (vector some_vector))
    ≡ some (vector some_vector)
read_item-print_example = read_item-print (vector some_vector) (
  small 7 (omega arith),
  small 0 (omega arith),
  shown (negsuc 41) below,
  shown (pos 90) (small 90 (omega arith)),
)

abbrev first_line : Line
first_line = record { lid = pos 1; bpid = pos 1; fpid = pos 2; blid = pos 0; flid = pos 2 }

abbrev second_line : Line
second_line = record { lid = pos 2; bpid = pos 2; fpid = pos 3; blid = pos 1; flid = pos 0 }

abbrev items : List (Item ℤ)
items = line first_line ∷ line second_line ∷ []

parse-file_of_example :
    parse (read_item a_line) (file_of ((b'I' ∷ b'D' ∷ []) ∷ map print_item items)) ≡ some items
parse-file_of_example = parse-file_of a_line (b'I' ∷ b'D' ∷ []) items refl (
  (
    refl,
    (
      small 1 (omega arith),
      small 1 (omega arith),
      small 2 (omega arith),
      small 0 (omega arith),
      small 2 (omega arith),
    ),
  ),
  (
    (
      refl,
      (
        small 2 (omega arith),
        small 2 (omega arith),
        small 3 (omega arith),
        small 1 (omega arith),
        small 0 (omega arith),
      ),
    ),
    tt,
  ),
)

-- A text that is no number, and a number that is out of range.
no_numbers : (stoi (b'-' ∷ []) ≡ none) × (stoi (show_ℕ 2147483648) ≡ none)
unfolding stoi read_signed skip_space show_ℕ digits read_ℕ value
no_numbers = (refl, refl)

abbrev some_lane : Lane ℤ
some_lane = record {
  lnid = pos 0;
  did = pos 1;
  blid = pos 2;
  flid = pos 3;
  bnid = pos 4;
  fnid = pos 5;
  jct = pos 6;
  blid2 = pos 7;
  blid3 = pos 8;
  blid4 = pos 9;
  flid2 = pos 10;
  flid3 = pos 11;
  flid4 = pos 12;
  clossid = pos 13;
  span = pos 14;
  lcnt = pos 15;
  lno = pos 16;
  lanetype = pos 17;
  limitvel = pos 18;
  refvel = pos 19;
  roadsecid = pos 20;
  lanecfgfg = pos 21;
  linkwaid = pos 22;
}

some_lane-IsLane : IsLane some_lane
some_lane-IsLane = (
  small 0 (omega arith),
  small 1 (omega arith),
  small 2 (omega arith),
  small 3 (omega arith),
  small 4 (omega arith),
  small 5 (omega arith),
  small 6 (omega arith),
  small 7 (omega arith),
  small 8 (omega arith),
  small 9 (omega arith),
  small 10 (omega arith),
  small 11 (omega arith),
  small 12 (omega arith),
  small 13 (omega arith),
  shown (pos 14) (small 14 (omega arith)),
  small 15 (omega arith),
  small 16 (omega arith),
  small 17 (omega arith),
  small 18 (omega arith),
  small 19 (omega arith),
  small 20 (omega arith),
  small 21 (omega arith),
  small 22 (omega arith),
)

read_lane-take_example :
    (read_lane (join b',' (take 17 (lane_columns some_lane))) ≡ some (without_attributes some_lane))
    × (read_lane (join b',' (take 22 (lane_columns some_lane))) ≡ some (without_link some_lane))
read_lane-take_example = read_lane-take some_lane some_lane-IsLane

abbrev lines : List Line
lines =
    record first_line { lid = pos 0 }
    ∷ first_line
    ∷ second_line
    ∷ record second_line { lid = pos 1 }
    ∷ []

find_by_key-update_map_example : find_by_key no_line (pos 1) (update_line lines) ≡ (
    if eqb_ℤ (pos 1) (pos 0)
    then no_line
    else or_else (find_if (λ x. eqb_ℤ x.lid (pos 1)) lines) no_line)
find_by_key-update_map_example = find_by_key-update_map (λ x. x.lid) no_line lines (pos 1)

abbrev at_id : ℤ → Point ℤ
at_id n = record no_point { pid = n; bx = n }

abbrev vmap : MapItems ℤ
vmap = record {
  point_map = (pos 1, at_id (pos 1)) ∷ (pos 2, at_id (pos 2)) ∷ (pos 3, at_id (pos 3)) ∷ [];
  line_map = (pos 1, first_line) ∷ (pos 2, second_line) ∷ [];
}

abbrev some_area : Area
some_area = record { aid = pos 1; slid = pos 1; elid = pos 2 }

first_found : lookup (pos 1) vmap.line_map ≡ some first_line
unfolding lookup
first_found = refl

vmap-IsOutline : IsOutline vmap first_line (second_line ∷ [])
unfolding lookup ends_of
vmap-IsOutline = (refl, refl, refl, refl, (refl, refl))

create_area_marker-outline_example :
    create_area_marker 2 "area" (pos 1) red vmap some_area
    ≡ some (
        finish red (record (create_marker "area" (pos 1)) {
          points = outline_points vmap (first_line ∷ second_line ∷ []);
        }))
create_area_marker-outline_example =
    create_area_marker-outline 2 "area" (pos 1) red vmap some_area first_line (second_line ∷ [])
      refl first_found refl refl (omega arith) vmap-IsOutline

-- A line that leads to itself.
abbrev knot : Line
knot = record first_line { flid = pos 1 }

abbrev knotted : MapItems ℤ
knotted = record vmap { line_map = (pos 1, knot) ∷ [] }

knot-IsLooping : (l : Line) → l ≡ knot → IsLooping knotted (λ k. k ≡ knot) l
unfolding lookup ends_of
knot-IsLooping l e =
    subst (IsLooping knotted (λ k. k ≡ knot)) (sym e)
      (record { ends = refl; leads = refl; there = refl; stays = refl })

knot_found : find_by_key no_line (pos 1) knotted.line_map ≡ knot
unfolding lookup
knot_found = refl

create_area_marker-loop_example : create_area_marker 100 "area" (pos 1) red knotted some_area ≡ none
create_area_marker-loop_example =
    create_area_marker-loop 100 "area" (pos 1) red knotted some_area (λ k. k ≡ knot) refl
      (ap (λ l. is_zero l.lid) knot_found) (ap (λ l. is_zero l.blid) knot_found) knot-IsLooping
      knot_found
