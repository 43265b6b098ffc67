-- ===== src/VectorMap/Markings.antt =====
-- Markings of the road of vector_map/lib/vector_map/vector_map.cpp: operator<<, operator>>
-- and the updaters.
use autoware_ai_common.Base.{List, Option, [], refl, some, ℕ, ◌∷◌, ◌≡◌}
use autoware_ai_common.Base.Int.{ℤ}
use autoware_ai_common.Base.Map.{Map}
use autoware_ai_common.VectorMap.Numbers.{Bytes, IsInt, show_ℤ, stoi-show_ℤ}
use autoware_ai_common.VectorMap.Columns.{
  Decimals, IsChar, IsShown, Lacks, char_at, columns, double_at, int_at, join, Lacks-join,
  show_ℤ-IsPart, show_ℤ-line, split-join, ◌>>=◌, ◌◂◌,
}
use autoware_ai_common.VectorMap.Handles.{by_id, update_map}

pub record WhiteLine (W : Type 0) : Type 0 where
  pub id : ℤ
  pub lid : ℤ
  pub width : W
  pub color : ℕ
  pub type : ℤ
  pub linkid : ℤ

module _ {W : Type 0} ⦃t : Decimals W⦄ where
  -- What operator<< puts between commas.
  abbrev pub white_line_columns : WhiteLine W → List Bytes
  white_line_columns obj =
      show_ℤ obj.id
      ∷ show_ℤ obj.lid
      ∷ t.show_double obj.width
      ∷ (obj.color ∷ [])
      ∷ show_ℤ obj.type
      ∷ show_ℤ obj.linkid
      ∷ []

  unfoldable pub print_white_line : WhiteLine W → Bytes
  print_white_line obj = join b',' (white_line_columns obj)

  unfoldable pub read_white_line : Bytes → Option (WhiteLine W)
  read_white_line s =
      let cs = columns s in
      do
        id ← int_at 0 cs
        lid ← int_at 1 cs
        width ← double_at 2 cs
        color ← char_at 3 cs
        type ← int_at 4 cs
        linkid ← int_at 5 cs
        some (record {
          id = id;
          lid = lid;
          width = width;
          color = color;
          type = type;
          linkid = linkid;
        })

  abbrev pub IsWhiteLine : WhiteLine W → Type 0
  IsWhiteLine x =
      IsInt x.id × IsInt x.lid × IsShown x.width × IsChar x.color × IsInt x.type × IsInt x.linkid

  pub read_white_line-print :
      (x : WhiteLine W) → IsWhiteLine x → read_white_line (print_white_line x) ≡ some x
  unfolding read_white_line print_white_line
  read_white_line-print x h =
      rw
        (
          split-join b',' (white_line_columns x) (
              show_ℤ-IsPart x.id h.0
              ◂ show_ℤ-IsPart x.lid h.1
              ◂ h.2.column
              ◂ (h.3.0, refl)
              ◂ show_ℤ-IsPart x.type h.4
              ◂ show_ℤ-IsPart x.linkid h.5
              ◂ tt),
          stoi-show_ℤ x.id h.0,
          stoi-show_ℤ x.lid h.1,
          h.2.read,
          stoi-show_ℤ x.type h.4,
          stoi-show_ℤ x.linkid h.5,
        )
        refl

  pub print_white_line-line : (x : WhiteLine W) → IsWhiteLine x → Lacks b'\n' (print_white_line x)
  unfolding print_white_line
  print_white_line-line x h = Lacks-join b',' b'\n' (white_line_columns x) refl (
      show_ℤ-line x.id h.0
      ◂ show_ℤ-line x.lid h.1
      ◂ h.2.line
      ◂ h.3.1
      ◂ show_ℤ-line x.type h.4
      ◂ show_ℤ-line x.linkid h.5
      ◂ tt)

-- updateWhiteLine
abbrev pub update_white_line : {W : Type 0} → List (WhiteLine W) → Map ℤ (WhiteLine W)
update_white_line = update_map (λ obj. obj.id)

pub record StopLine : Type 0 where
  pub id : ℤ
  pub lid : ℤ
  pub tlid : ℤ
  pub signid : ℤ
  pub linkid : ℤ

-- What operator<< puts between commas.
abbrev pub stop_line_columns : StopLine → List Bytes
stop_line_columns obj =
    show_ℤ obj.id ∷ show_ℤ obj.lid ∷ show_ℤ obj.tlid ∷ show_ℤ obj.signid ∷ show_ℤ obj.linkid ∷ []

unfoldable pub print_stop_line : StopLine → Bytes
print_stop_line obj = join b',' (stop_line_columns obj)

unfoldable pub read_stop_line : Bytes → Option StopLine
read_stop_line s =
    let cs = columns s in
    do
      id ← int_at 0 cs
      lid ← int_at 1 cs
      tlid ← int_at 2 cs
      signid ← int_at 3 cs
      linkid ← int_at 4 cs
      some (record { id = id; lid = lid; tlid = tlid; signid = signid; linkid = linkid })

abbrev pub IsStopLine : StopLine → Type 0
IsStopLine x = IsInt x.id × IsInt x.lid × IsInt x.tlid × IsInt x.signid × IsInt x.linkid

pub read_stop_line-print :
    (x : StopLine) → IsStopLine x → read_stop_line (print_stop_line x) ≡ some x
unfolding read_stop_line print_stop_line
read_stop_line-print x h =
    rw
      (
        split-join b',' (stop_line_columns x) (
            show_ℤ-IsPart x.id h.0
            ◂ show_ℤ-IsPart x.lid h.1
            ◂ show_ℤ-IsPart x.tlid h.2
            ◂ show_ℤ-IsPart x.signid h.3
            ◂ show_ℤ-IsPart x.linkid h.4
            ◂ tt),
        stoi-show_ℤ x.id h.0,
        stoi-show_ℤ x.lid h.1,
        stoi-show_ℤ x.tlid h.2,
        stoi-show_ℤ x.signid h.3,
        stoi-show_ℤ x.linkid h.4,
      )
      refl

pub print_stop_line-line : (x : StopLine) → IsStopLine x → Lacks b'\n' (print_stop_line x)
unfolding print_stop_line
print_stop_line-line x h = Lacks-join b',' b'\n' (stop_line_columns x) refl (
    show_ℤ-line x.id h.0
    ◂ show_ℤ-line x.lid h.1
    ◂ show_ℤ-line x.tlid h.2
    ◂ show_ℤ-line x.signid h.3
    ◂ show_ℤ-line x.linkid h.4
    ◂ tt)

-- updateStopLine
abbrev pub update_stop_line : List StopLine → Map ℤ StopLine
update_stop_line = update_map (λ obj. obj.id)

pub record ZebraZone : Type 0 where
  pub id : ℤ
  pub aid : ℤ
  pub linkid : ℤ

-- What operator<< puts between commas.
abbrev pub zebra_zone_columns : ZebraZone → List Bytes
zebra_zone_columns obj = show_ℤ obj.id ∷ show_ℤ obj.aid ∷ show_ℤ obj.linkid ∷ []

unfoldable pub print_zebra_zone : ZebraZone → Bytes
print_zebra_zone obj = join b',' (zebra_zone_columns obj)

unfoldable pub read_zebra_zone : Bytes → Option ZebraZone
read_zebra_zone s =
    let cs = columns s in
    do
      id ← int_at 0 cs
      aid ← int_at 1 cs
      linkid ← int_at 2 cs
      some (record { id = id; aid = aid; linkid = linkid })

abbrev pub IsZebraZone : ZebraZone → Type 0
IsZebraZone x = IsInt x.id × IsInt x.aid × IsInt x.linkid

pub read_zebra_zone-print :
    (x : ZebraZone) → IsZebraZone x → read_zebra_zone (print_zebra_zone x) ≡ some x
unfolding read_zebra_zone print_zebra_zone
read_zebra_zone-print x h =
    rw
      (
        split-join b',' (zebra_zone_columns x)
            (show_ℤ-IsPart x.id h.0 ◂ show_ℤ-IsPart x.aid h.1 ◂ show_ℤ-IsPart x.linkid h.2 ◂ tt),
        stoi-show_ℤ x.id h.0,
        stoi-show_ℤ x.aid h.1,
        stoi-show_ℤ x.linkid h.2,
      )
      refl

pub print_zebra_zone-line : (x : ZebraZone) → IsZebraZone x → Lacks b'\n' (print_zebra_zone x)
unfolding print_zebra_zone
print_zebra_zone-line x h =
    Lacks-join b',' b'\n' (zebra_zone_columns x) refl
      (show_ℤ-line x.id h.0 ◂ show_ℤ-line x.aid h.1 ◂ show_ℤ-line x.linkid h.2 ◂ tt)

-- updateZebraZone
abbrev pub update_zebra_zone : List ZebraZone → Map ℤ ZebraZone
update_zebra_zone = update_map (λ obj. obj.id)

pub record RoadMark : Type 0 where
  pub id : ℤ
  pub aid : ℤ
  pub type : ℤ
  pub linkid : ℤ

-- What operator<< puts between commas.
abbrev pub road_mark_columns : RoadMark → List Bytes
road_mark_columns obj = show_ℤ obj.id ∷ show_ℤ obj.aid ∷ show_ℤ obj.type ∷ show_ℤ obj.linkid ∷ []

unfoldable pub print_road_mark : RoadMark → Bytes
print_road_mark obj = join b',' (road_mark_columns obj)

unfoldable pub read_road_mark : Bytes → Option RoadMark
read_road_mark s =
    let cs = columns s in
    do
      id ← int_at 0 cs
      aid ← int_at 1 cs
      type ← int_at 2 cs
      linkid ← int_at 3 cs
      some (record { id = id; aid = aid; type = type; linkid = linkid })

abbrev pub IsRoadMark : RoadMark → Type 0
IsRoadMark x = IsInt x.id × IsInt x.aid × IsInt x.type × IsInt x.linkid

pub read_road_mark-print :
    (x : RoadMark) → IsRoadMark x → read_road_mark (print_road_mark x) ≡ some x
unfolding read_road_mark print_road_mark
read_road_mark-print x h =
    rw
      (
        split-join b',' (road_mark_columns x) (
            show_ℤ-IsPart x.id h.0
            ◂ show_ℤ-IsPart x.aid h.1
            ◂ show_ℤ-IsPart x.type h.2
            ◂ show_ℤ-IsPart x.linkid h.3
            ◂ tt),
        stoi-show_ℤ x.id h.0,
        stoi-show_ℤ x.aid h.1,
        stoi-show_ℤ x.type h.2,
        stoi-show_ℤ x.linkid h.3,
      )
      refl

pub print_road_mark-line : (x : RoadMark) → IsRoadMark x → Lacks b'\n' (print_road_mark x)
unfolding print_road_mark
print_road_mark-line x h = Lacks-join b',' b'\n' (road_mark_columns x) refl (
    show_ℤ-line x.id h.0
    ◂ show_ℤ-line x.aid h.1
    ◂ show_ℤ-line x.type h.2
    ◂ show_ℤ-line x.linkid h.3
    ◂ tt)

-- updateRoadMark
abbrev pub update_road_mark : List RoadMark → Map ℤ RoadMark
update_road_mark = update_map (λ obj. obj.id)
