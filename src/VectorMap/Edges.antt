-- ===== src/VectorMap/Edges.antt =====
-- Edges of the road: road edges, gutters, curbs and side strips of vector_map/lib/vector_map/vector_map.cpp: operator<<, operator>>
-- and the updaters.
use autoware_ai_common.Base.{List, Option, [], refl, some, ◌∷◌, ◌≡◌}
use autoware_ai_common.Base.Int.{ℤ}
use autoware_ai_common.Base.Map.{Map}
use autoware_ai_common.VectorMap.Numbers.{Bytes, IsInt, show_ℤ, stoi-show_ℤ}
use autoware_ai_common.VectorMap.Columns.{
  Decimals, IsShown, Lacks, columns, double_at, int_at, join, Lacks-join, show_ℤ-IsPart,
  show_ℤ-line, split-join, ◌>>=◌, ◌◂◌,
}
use autoware_ai_common.VectorMap.Handles.{by_id, update_map}

pub record RoadEdge : Type 0 where
  pub id : ℤ
  pub lid : ℤ
  pub linkid : ℤ

-- What operator<< puts between commas.
abbrev pub road_edge_columns : RoadEdge → List Bytes
road_edge_columns obj = show_ℤ obj.id ∷ show_ℤ obj.lid ∷ show_ℤ obj.linkid ∷ []

unfoldable pub print_road_edge : RoadEdge → Bytes
print_road_edge obj = join b',' (road_edge_columns obj)

unfoldable pub read_road_edge : Bytes → Option RoadEdge
read_road_edge s =
    let cs = columns s in
    do
      id ← int_at 0 cs
      lid ← int_at 1 cs
      linkid ← int_at 2 cs
      some (record { id = id; lid = lid; linkid = linkid })

abbrev pub IsRoadEdge : RoadEdge → Type 0
IsRoadEdge x = IsInt x.id × IsInt x.lid × IsInt x.linkid

pub read_road_edge-print :
    (x : RoadEdge) → IsRoadEdge x → read_road_edge (print_road_edge x) ≡ some x
unfolding read_road_edge print_road_edge
read_road_edge-print x h =
    rw
      (
        split-join b',' (road_edge_columns x)
            (show_ℤ-IsPart x.id h.0 ◂ show_ℤ-IsPart x.lid h.1 ◂ show_ℤ-IsPart x.linkid h.2 ◂ tt),
        stoi-show_ℤ x.id h.0,
        stoi-show_ℤ x.lid h.1,
        stoi-show_ℤ x.linkid h.2,
      )
      refl

pub print_road_edge-line : (x : RoadEdge) → IsRoadEdge x → Lacks b'\n' (print_road_edge x)
unfolding print_road_edge
print_road_edge-line x h =
    Lacks-join b',' b'\n' (road_edge_columns x) refl
      (show_ℤ-line x.id h.0 ◂ show_ℤ-line x.lid h.1 ◂ show_ℤ-line x.linkid h.2 ◂ tt)

-- updateRoadEdge
abbrev pub update_road_edge : List RoadEdge → Map ℤ RoadEdge
update_road_edge = update_map (λ obj. obj.id)

pub record Gutter : Type 0 where
  pub id : ℤ
  pub aid : ℤ
  pub type : ℤ
  pub linkid : ℤ

-- What operator<< puts between commas.
abbrev pub gutter_columns : Gutter → List Bytes
gutter_columns obj = show_ℤ obj.id ∷ show_ℤ obj.aid ∷ show_ℤ obj.type ∷ show_ℤ obj.linkid ∷ []

unfoldable pub print_gutter : Gutter → Bytes
print_gutter obj = join b',' (gutter_columns obj)

unfoldable pub read_gutter : Bytes → Option Gutter
read_gutter s =
    let cs = columns s in
    do
      id ← int_at 0 cs
      aid ← int_at 1 cs
      type ← int_at 2 cs
      linkid ← int_at 3 cs
      some (record { id = id; aid = aid; type = type; linkid = linkid })

abbrev pub IsGutter : Gutter → Type 0
IsGutter x = IsInt x.id × IsInt x.aid × IsInt x.type × IsInt x.linkid

pub read_gutter-print : (x : Gutter) → IsGutter x → read_gutter (print_gutter x) ≡ some x
unfolding read_gutter print_gutter
read_gutter-print x h =
    rw
      (
        split-join b',' (gutter_columns x) (
            show_ℤ-IsPart x.id h.0
            ◂ show_ℤ-IsPart x.aid h.1
            ◂ show_ℤ-IsPart x.type h.2
            ◂ show_ℤ-IsPart x.linkid h.3
            ◂ tt),
        stoi-show_ℤ x.id h.0,
        stoi-show_ℤ x.aid h.1,
        stoi-show_ℤ x.type h.2,
        stoi-show_ℤ x.linkid h.3,
      )
      refl

pub print_gutter-line : (x : Gutter) → IsGutter x → Lacks b'\n' (print_gutter x)
unfolding print_gutter
print_gutter-line x h = Lacks-join b',' b'\n' (gutter_columns x) refl (
    show_ℤ-line x.id h.0
    ◂ show_ℤ-line x.aid h.1
    ◂ show_ℤ-line x.type h.2
    ◂ show_ℤ-line x.linkid h.3
    ◂ tt)

-- updateGutter
abbrev pub update_gutter : List Gutter → Map ℤ Gutter
update_gutter = update_map (λ obj. obj.id)

pub record Curb (W : Type 0) : Type 0 where
  pub id : ℤ
  pub lid : ℤ
  pub height : W
  pub width : W
  pub dir : ℤ
  pub linkid : ℤ

module _ {W : Type 0} ⦃t : Decimals W⦄ where
  -- What operator<< puts between commas.
  abbrev pub curb_columns : Curb W → List Bytes
  curb_columns obj =
      show_ℤ obj.id
      ∷ show_ℤ obj.lid
      ∷ t.show_double obj.height
      ∷ t.show_double obj.width
      ∷ show_ℤ obj.dir
      ∷ show_ℤ obj.linkid
      ∷ []

  unfoldable pub print_curb : Curb W → Bytes
  print_curb obj = join b',' (curb_columns obj)

  unfoldable pub read_curb : Bytes → Option (Curb W)
  read_curb s =
      let cs = columns s in
      do
        id ← int_at 0 cs
        lid ← int_at 1 cs
        height ← double_at 2 cs
        width ← double_at 3 cs
        dir ← int_at 4 cs
        linkid ← int_at 5 cs
        some (record {
          id = id;
          lid = lid;
          height = height;
          width = width;
          dir = dir;
          linkid = linkid;
        })

  abbrev pub IsCurb : Curb W → Type 0
  IsCurb x =
      IsInt x.id × IsInt x.lid × IsShown x.height × IsShown x.width × IsInt x.dir × IsInt x.linkid

  pub read_curb-print : (x : Curb W) → IsCurb x → read_curb (print_curb x) ≡ some x
  unfolding read_curb print_curb
  read_curb-print x h =
      rw
        (
          split-join b',' (curb_columns x) (
              show_ℤ-IsPart x.id h.0
              ◂ show_ℤ-IsPart x.lid h.1
              ◂ h.2.column
              ◂ h.3.column
              ◂ show_ℤ-IsPart x.dir h.4
              ◂ show_ℤ-IsPart x.linkid h.5
              ◂ tt),
          stoi-show_ℤ x.id h.0,
          stoi-show_ℤ x.lid h.1,
          h.2.read,
          h.3.read,
          stoi-show_ℤ x.dir h.4,
          stoi-show_ℤ x.linkid h.5,
        )
        refl

  pub print_curb-line : (x : Curb W) → IsCurb x → Lacks b'\n' (print_curb x)
  unfolding print_curb
  print_curb-line x h = Lacks-join b',' b'\n' (curb_columns x) refl (
      show_ℤ-line x.id h.0
      ◂ show_ℤ-line x.lid h.1
      ◂ h.2.line
      ◂ h.3.line
      ◂ show_ℤ-line x.dir h.4
      ◂ show_ℤ-line x.linkid h.5
      ◂ tt)

-- updateCurb
abbrev pub update_curb : {W : Type 0} → List (Curb W) → Map ℤ (Curb W)
update_curb = update_map (λ obj. obj.id)

pub record SideStrip : Type 0 where
  pub id : ℤ
  pub lid : ℤ
  pub linkid : ℤ

-- What operator<< puts between commas.
abbrev pub side_strip_columns : SideStrip → List Bytes
side_strip_columns obj = show_ℤ obj.id ∷ show_ℤ obj.lid ∷ show_ℤ obj.linkid ∷ []

unfoldable pub print_side_strip : SideStrip → Bytes
print_side_strip obj = join b',' (side_strip_columns obj)

unfoldable pub read_side_strip : Bytes → Option SideStrip
read_side_strip s =
    let cs = columns s in
    do
      id ← int_at 0 cs
      lid ← int_at 1 cs
      linkid ← int_at 2 cs
      some (record { id = id; lid = lid; linkid = linkid })

abbrev pub IsSideStrip : SideStrip → Type 0
IsSideStrip x = IsInt x.id × IsInt x.lid × IsInt x.linkid

pub read_side_strip-print :
    (x : SideStrip) → IsSideStrip x → read_side_strip (print_side_strip x) ≡ some x
unfolding read_side_strip print_side_strip
read_side_strip-print x h =
    rw
      (
        split-join b',' (side_strip_columns x)
            (show_ℤ-IsPart x.id h.0 ◂ show_ℤ-IsPart x.lid h.1 ◂ show_ℤ-IsPart x.linkid h.2 ◂ tt),
        stoi-show_ℤ x.id h.0,
        stoi-show_ℤ x.lid h.1,
        stoi-show_ℤ x.linkid h.2,
      )
      refl

pub print_side_strip-line : (x : SideStrip) → IsSideStrip x → Lacks b'\n' (print_side_strip x)
unfolding print_side_strip
print_side_strip-line x h =
    Lacks-join b',' b'\n' (side_strip_columns x) refl
      (show_ℤ-line x.id h.0 ◂ show_ℤ-line x.lid h.1 ◂ show_ℤ-line x.linkid h.2 ◂ tt)

-- updateSideStrip
abbrev pub update_side_strip : List SideStrip → Map ℤ SideStrip
update_side_strip = update_map (λ obj. obj.id)
