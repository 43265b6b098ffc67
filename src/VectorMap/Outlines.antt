-- ===== src/VectorMap/Outlines.antt =====
-- What createAreaMarker of vector_map/lib/vector_map/vector_map.cpp draws, and when it ends.
use autoware_ai_common.Base.{
  List, Option-cases, String, [], ap, append-nil, append_assoc, arith, false, inl, inr, is_some,
  length, none, refl, some, suc, sym, true, zero, ℕ, ◌++◌, ◌<◌, ◌∙◌, ◌∷◌, ◌≡◌,
}
use autoware_ai_common.VectorMap.Markers.{
  Color, GeomPoint, MapItems, Marker, create_area_marker, create_marker, draw_lines, ends_of,
  finish, is_zero, no_line,
}
use autoware_ai_common.VectorMap.Handles.{by_id, find_by_key}
use autoware_ai_common.VectorMap.Shapes.{Area, Line}
use autoware_ai_common.Base.Double.{Double}
use autoware_ai_common.Base.Map.{lookup, or_else}
use autoware_ai_common.Base.Int.{ℤ}

module _ {W : Type 0} ⦃d : Double W⦄ where
  abbrev ends_or_none : MapItems W → Line → List (GeomPoint W)
  ends_or_none vmap line = or_else (ends_of vmap line) []

  -- Lines that each lead on to the next one, with their ends there; the last one leads nowhere.
  abbrev pub IsOutline : MapItems W → Line → List Line → Type 0
  IsOutline vmap line [] = (is_some (ends_of vmap line) ≡ true) × (is_zero line.flid ≡ true)
  IsOutline vmap line (next ∷ rest) =
      (is_some (ends_of vmap line) ≡ true)
      × (is_zero line.flid ≡ false)
      × (lookup line.flid vmap.line_map ≡ some next)
      × (is_zero next.lid ≡ false)
      × IsOutline vmap next rest

  abbrev pub outline_points : MapItems W → List Line → List (GeomPoint W)
  outline_points vmap [] = []
  outline_points vmap (line ∷ rest) = ends_or_none vmap line ++ outline_points vmap rest

  draw_lines-IsOutline :
      (n : ℕ) (color : Color) (vmap : MapItems W) (line : Line) (rest : List Line)
      (marker : Marker W)
      → length rest < n
      → IsOutline vmap line rest
      → draw_lines n color vmap line marker
        ≡ some (
            finish color
              (record marker { points = marker.points ++ outline_points vmap (line ∷ rest) }))
  unfolding draw_lines
  draw_lines-IsOutline zero color vmap line rest marker b h = absurd (omega (arith, b))
  draw_lines-IsOutline (suc n) color vmap line [] marker b (e, z) =
      elim (Option-cases (ends_of vmap line)) [
        | inl n ↦ absurd (cc (e, n))
        | inr (ends, n) ↦
            rw (draw_lines, n, z)
              (ap (λ ps. some (finish color (record marker { points = marker.points ++ ps })))
                (sym (append-nil ends)))
      ]
  draw_lines-IsOutline (suc n) color vmap line (next ∷ rest) marker b (e, z, f, y, h) =
      elim (Option-cases (ends_of vmap line)) [
        | inl u ↦ absurd (cc (e, u))
        | inr (ends, u) ↦
            rw (draw_lines, u, z, f, y)
              (draw_lines-IsOutline n color vmap next rest
                  (record marker { points = marker.points ++ ends }) (omega (arith, b)) h
                ∙ ap (λ ps. some (finish color (record marker { points = ps })))
                    (append_assoc marker.points ends (outline_points vmap (next ∷ rest))))
      ]

  -- For an area that is there and whose first line is there and has no line before it, with lines that
  -- lead on from one to the next until the last and whose ends are all there, createAreaMarker ends, after
  -- no more rounds than there are lines: the marker has the ends of the lines in their order, and it is
  -- shown unless the colour is hidden.
  pub create_area_marker-outline :
      (n : ℕ) (ns : String) (id : ℤ) (color : Color) (vmap : MapItems W) (area : Area) (line : Line)
      (rest : List Line)
      → is_zero area.aid ≡ false
      → lookup area.slid vmap.line_map ≡ some line
      → is_zero line.lid ≡ false
      → is_zero line.blid ≡ true
      → length rest < n
      → IsOutline vmap line rest
      → create_area_marker n ns id color vmap area
        ≡ some (
            finish color
              (record (create_marker ns id) { points = outline_points vmap (line ∷ rest) }))
  unfolding create_area_marker
  create_area_marker-outline n ns id color vmap area line rest a f l b k h =
      rw (a, f, l, b) (draw_lines-IsOutline n color vmap line rest (create_marker ns id) k h)

  -- A line of a loop: its ends are there, and it leads on to another one.
  pub record IsLooping (vmap : MapItems W) (P : Line → Type 0) (line : Line) : Type 0 where
    pub ends : is_some (ends_of vmap line) ≡ true
    pub leads : is_zero line.flid ≡ false
    pub there : is_zero (find_by_key no_line line.flid vmap.line_map).lid ≡ false
    pub stays : P (find_by_key no_line line.flid vmap.line_map)

  draw_lines-loop :
      (n : ℕ) (color : Color) (vmap : MapItems W) (P : Line → Type 0) (line : Line)
      (marker : Marker W)
      → ((l : Line) → P l → IsLooping vmap P l)
      → P line
      → draw_lines n color vmap line marker ≡ none
  unfolding draw_lines
  draw_lines-loop zero color vmap P line marker loop p = refl
  draw_lines-loop (suc n) color vmap P line marker loop p =
      let q = loop line p in
      elim (Option-cases (ends_of vmap line)) [
        | inl u ↦ absurd (cc (q.ends, u))
        | inr (ends, u) ↦
            rw (draw_lines, u, q.leads, q.there)
              (draw_lines-loop n color vmap P (find_by_key no_line line.flid vmap.line_map)
                (record marker { points = marker.points ++ ends }) loop q.stays)
      ]

  -- For an area whose first line has no line before it, and whose lines, from that one on, never leave a
  -- set in which each leads on to another with its ends there, the loop of createAreaMarker never ends:
  -- no number of rounds is enough.
  pub create_area_marker-loop :
      (n : ℕ) (ns : String) (id : ℤ) (color : Color) (vmap : MapItems W) (area : Area)
      (P : Line → Type 0)
      → is_zero area.aid ≡ false
      → is_zero (find_by_key no_line area.slid vmap.line_map).lid ≡ false
      → is_zero (find_by_key no_line area.slid vmap.line_map).blid ≡ true
      → ((l : Line) → P l → IsLooping vmap P l)
      → P (find_by_key no_line area.slid vmap.line_map)
      → create_area_marker n ns id color vmap area ≡ none
  unfolding create_area_marker
  create_area_marker-loop n ns id color vmap area P a l b loop p =
      rw (a, l, b)
        (draw_lines-loop n color vmap P (find_by_key no_line area.slid vmap.line_map)
          (create_marker ns id) loop p)
