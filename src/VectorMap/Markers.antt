-- ===== src/VectorMap/Markers.antt =====
-- The colours and the markers of lines and areas of vector_map/lib/vector_map/vector_map.cpp. Of a marker
-- of type LINE_STRIP these are the fields that the code sets; `enabled` is the action ADD. An equality of
-- doubles is the two comparisons with <=. The loop over the lines of an area has fuel.
use autoware_ai_common.Base.{
  Bool, List, Option, String, [], false, if◌then◌else◌, none, not, some, suc, zero, ℕ, ◌&&◌, ◌++◌,
  ◌∷◌,
}
use autoware_ai_common.VectorMap.Handles.{by_id, find_by_key}
use autoware_ai_common.VectorMap.Points.{Point}
use autoware_ai_common.VectorMap.Shapes.{Area, Line}
use autoware_ai_common.Base.Int.{eqb_ℤ, pos, ℤ}
use autoware_ai_common.Base.Double.{Double}
use autoware_ai_common.Base.Map.{Map}

pub data Color : Type 0 where
  black : Color
  gray : Color
  light_red : Color
  light_green : Color
  light_blue : Color
  light_yellow : Color
  light_cyan : Color
  light_magenta : Color
  red : Color
  green : Color
  blue : Color
  yellow : Color
  cyan : Color
  magenta : Color
  white : Color
  -- any other number
  no_color : Color

pub record Rgba (W : Type 0) : Type 0 where
  pub r : W
  pub g : W
  pub b : W
  pub a : W

pub record GeomPoint (W : Type 0) : Type 0 where
  pub x : W
  pub y : W
  pub z : W

pub record Marker (W : Type 0) : Type 0 where
  pub ns : String
  pub id : ℤ
  pub enabled : Bool
  pub points : List (GeomPoint W)
  pub scale_x : W
  pub color : Rgba W

-- The maps of a VectorMap that the markers use.
pub record MapItems (W : Type 0) : Type 0 where
  pub point_map : Map ℤ (Point W)
  pub line_map : Map ℤ Line

abbrev pub no_line : Line
no_line = record { lid = pos 0; bpid = pos 0; fpid = pos 0; blid = pos 0; flid = pos 0 }

abbrev pub is_zero : ℤ → Bool
is_zero n = eqb_ℤ n (pos 0)

module _ {W : Type 0} ⦃d : Double W⦄ where
  abbrev pub color_value : ℕ → W
  color_value n = d.milli (pos n)

  -- createColorRGBA
  unfoldable pub create_color_rgba : Color → Rgba W
  create_color_rgba black = record {
    r = color_value 0;
    g = color_value 0;
    b = color_value 0;
    a = color_value 1000;
  }
  create_color_rgba gray = record {
    r = color_value 500;
    g = color_value 500;
    b = color_value 500;
    a = color_value 1000;
  }
  create_color_rgba light_red = record {
    r = color_value 930;
    g = color_value 560;
    b = color_value 560;
    a = color_value 1000;
  }
  create_color_rgba light_green = record {
    r = color_value 560;
    g = color_value 930;
    b = color_value 560;
    a = color_value 1000;
  }
  create_color_rgba light_blue = record {
    r = color_value 560;
    g = color_value 560;
    b = color_value 930;
    a = color_value 1000;
  }
  create_color_rgba light_yellow = record {
    r = color_value 930;
    g = color_value 930;
    b = color_value 560;
    a = color_value 1000;
  }
  create_color_rgba light_cyan = record {
    r = color_value 560;
    g = color_value 930;
    b = color_value 930;
    a = color_value 1000;
  }
  create_color_rgba light_magenta = record {
    r = color_value 930;
    g = color_value 560;
    b = color_value 930;
    a = color_value 1000;
  }
  create_color_rgba red = record {
    r = color_value 1000;
    g = color_value 0;
    b = color_value 0;
    a = color_value 1000;
  }
  create_color_rgba green = record {
    r = color_value 0;
    g = color_value 1000;
    b = color_value 0;
    a = color_value 1000;
  }
  create_color_rgba blue = record {
    r = color_value 0;
    g = color_value 0;
    b = color_value 1000;
    a = color_value 1000;
  }
  create_color_rgba yellow = record {
    r = color_value 1000;
    g = color_value 1000;
    b = color_value 0;
    a = color_value 1000;
  }
  create_color_rgba cyan = record {
    r = color_value 0;
    g = color_value 1000;
    b = color_value 1000;
    a = color_value 1000;
  }
  create_color_rgba magenta = record {
    r = color_value 1000;
    g = color_value 0;
    b = color_value 1000;
    a = color_value 1000;
  }
  create_color_rgba white = record {
    r = color_value 1000;
    g = color_value 1000;
    b = color_value 1000;
    a = color_value 1000;
  }
  create_color_rgba no_color = record {
    r = color_value 0;
    g = color_value 0;
    b = color_value 0;
    a = color_value 0;
  }

  -- color.a == COLOR_VALUE_MIN
  abbrev pub is_hidden : Rgba W → Bool
  is_hidden c = d.le c.a (color_value 0) && d.le (color_value 0) c.a

  -- createMarker, of type LINE_STRIP
  abbrev pub create_marker : String → ℤ → Marker W
  create_marker ns id = record {
    ns = ns;
    id = id;
    enabled = false;
    points = [];
    scale_x = color_value 0;
    color = record { r = color_value 0; g = color_value 0; b = color_value 0; a = color_value 0 };
  }

  -- convertPointToGeomPoint, which swaps the axes
  abbrev pub convert_point_to_geom_point : Point W → GeomPoint W
  convert_point_to_geom_point p = record { x = p.ly; y = p.bx; z = p.h }

  abbrev pub no_point : Point W
  no_point = record {
    pid = pos 0;
    b = color_value 0;
    l = color_value 0;
    h = color_value 0;
    bx = color_value 0;
    ly = color_value 0;
    ref = pos 0;
    mcode1 = pos 0;
    mcode2 = pos 0;
    mcode3 = pos 0;
  }

  -- The two ends of a line, if both points are there.
  unfoldable pub ends_of : MapItems W → Line → Option (List (GeomPoint W))
  ends_of vmap line =
      let bp = find_by_key no_point line.bpid vmap.point_map in
      let fp = find_by_key no_point line.fpid vmap.point_map in
      if is_zero bp.pid
      then none
      else if is_zero fp.pid
      then none
      else some (convert_point_to_geom_point bp ∷ convert_point_to_geom_point fp ∷ [])

  -- The last statements of the markers: the scale, the colour and the action.
  abbrev pub finish : Color → Marker W → Marker W
  finish color marker =
      let rgba = create_color_rgba color in
      record marker { scale_x = color_value 80; color = rgba; enabled = not (is_hidden rgba) }

  -- createLineMarker
  unfoldable pub create_line_marker : String → ℤ → Color → MapItems W → Line → Marker W
  unfolding ends_of create_color_rgba
  create_line_marker ns id color vmap line =
      let marker = create_marker ns id in
      if is_zero line.lid then marker else elim (ends_of vmap line) [
        | none ↦ marker
        | some ends ↦ finish color (record marker { points = ends })
      ]

  -- The rest of createAreaMarker from a line on. `none` is a loop that needs more rounds.
  unfoldable pub draw_lines : ℕ → Color → MapItems W → Line → Marker W → Option (Marker W)
  draw_lines zero color vmap line marker = none
  draw_lines (suc n) color vmap line marker =
      let next = find_by_key no_line line.flid vmap.line_map in
      let rest = λ (m : Marker W). draw_lines n color vmap next m in
      elim (ends_of vmap line) [
        | none ↦ some marker
        | some ends ↦
            let marker2 = record marker { points = marker.points ++ ends } in
            if is_zero line.flid
            then some (finish color marker2)
            else if is_zero next.lid
            then some marker2
            else rest marker2
      ]

  -- createAreaMarker
  unfoldable pub create_area_marker : ℕ → String → ℤ → Color → MapItems W → Area → Option (Marker W)
  unfolding draw_lines
  create_area_marker fuel ns id color vmap area =
      let marker = create_marker ns id in
      let line = find_by_key no_line area.slid vmap.line_map in
      if is_zero area.aid
      then some marker
      else if is_zero line.lid
      then some marker
      else if not (is_zero line.blid)
      then some marker
      else draw_lines fuel color vmap line marker
