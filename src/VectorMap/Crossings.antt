-- ===== src/VectorMap/Crossings.antt =====
-- Crossings of vector_map/lib/vector_map/vector_map.cpp: operator<<, operator>>
-- and the updaters.
use autoware_ai_common.Base.{List, Option, [], refl, some, ◌∷◌, ◌≡◌}
use autoware_ai_common.Base.Int.{ℤ}
use autoware_ai_common.Base.Map.{Map}
use autoware_ai_common.VectorMap.Numbers.{Bytes, IsInt, show_ℤ, stoi-show_ℤ}
use autoware_ai_common.VectorMap.Columns.{
  Lacks, columns, int_at, join, Lacks-join, show_ℤ-IsPart, show_ℤ-line, split-join, ◌>>=◌, ◌◂◌,
}
use autoware_ai_common.VectorMap.Handles.{by_id, update_map}

pub record CrossWalk : Type 0 where
  pub id : ℤ
  pub aid : ℤ
  pub type : ℤ
  pub bdid : ℤ
  pub linkid : ℤ

-- What operator<< puts between commas.
abbrev pub cross_walk_columns : CrossWalk → List Bytes
cross_walk_columns obj =
    show_ℤ obj.id ∷ show_ℤ obj.aid ∷ show_ℤ obj.type ∷ show_ℤ obj.bdid ∷ show_ℤ obj.linkid ∷ []

unfoldable pub print_cross_walk : CrossWalk → Bytes
print_cross_walk obj = join b',' (cross_walk_columns obj)

unfoldable pub read_cross_walk : Bytes → Option CrossWalk
read_cross_walk s =
    let cs = columns s in
    do
      id ← int_at 0 cs
      aid ← int_at 1 cs
      type ← int_at 2 cs
      bdid ← int_at 3 cs
      linkid ← int_at 4 cs
      some (record { id = id; aid = aid; type = type; bdid = bdid; linkid = linkid })

abbrev pub IsCrossWalk : CrossWalk → Type 0
IsCrossWalk x = IsInt x.id × IsInt x.aid × IsInt x.type × IsInt x.bdid × IsInt x.linkid

pub read_cross_walk-print :
    (x : CrossWalk) → IsCrossWalk x → read_cross_walk (print_cross_walk x) ≡ some x
unfolding read_cross_walk print_cross_walk
read_cross_walk-print x h =
    rw
      (
        split-join b',' (cross_walk_columns x) (
            show_ℤ-IsPart x.id h.0
            ◂ show_ℤ-IsPart x.aid h.1
            ◂ show_ℤ-IsPart x.type h.2
            ◂ show_ℤ-IsPart x.bdid h.3
            ◂ show_ℤ-IsPart x.linkid h.4
            ◂ tt),
        stoi-show_ℤ x.id h.0,
        stoi-show_ℤ x.aid h.1,
        stoi-show_ℤ x.type h.2,
        stoi-show_ℤ x.bdid h.3,
        stoi-show_ℤ x.linkid h.4,
      )
      refl

pub print_cross_walk-line : (x : CrossWalk) → IsCrossWalk x → Lacks b'\n' (print_cross_walk x)
unfolding print_cross_walk
print_cross_walk-line x h = Lacks-join b',' b'\n' (cross_walk_columns x) refl (
    show_ℤ-line x.id h.0
    ◂ show_ℤ-line x.aid h.1
    ◂ show_ℤ-line x.type h.2
    ◂ show_ℤ-line x.bdid h.3
    ◂ show_ℤ-line x.linkid h.4
    ◂ tt)

-- updateCrossWalk
abbrev pub update_cross_walk : List CrossWalk → Map ℤ CrossWalk
update_cross_walk = update_map (λ obj. obj.id)

pub record CrossRoad : Type 0 where
  pub id : ℤ
  pub aid : ℤ
  pub linkid : ℤ

-- What operator<< puts between commas.
abbrev pub cross_road_columns : CrossRoad → List Bytes
cross_road_columns obj = show_ℤ obj.id ∷ show_ℤ obj.aid ∷ show_ℤ obj.linkid ∷ []

unfoldable pub print_cross_road : CrossRoad → Bytes
print_cross_road obj = join b',' (cross_road_columns obj)

unfoldable pub read_cross_road : Bytes → Option CrossRoad
read_cross_road s =
    let cs = columns s in
    do
      id ← int_at 0 cs
      aid ← int_at 1 cs
      linkid ← int_at 2 cs
      some (record { id = id; aid = aid; linkid = linkid })

abbrev pub IsCrossRoad : CrossRoad → Type 0
IsCrossRoad x = IsInt x.id × IsInt x.aid × IsInt x.linkid

pub read_cross_road-print :
    (x : CrossRoad) → IsCrossRoad x → read_cross_road (print_cross_road x) ≡ some x
unfolding read_cross_road print_cross_road
read_cross_road-print x h =
    rw
      (
        split-join b',' (cross_road_columns x)
            (show_ℤ-IsPart x.id h.0 ◂ show_ℤ-IsPart x.aid h.1 ◂ show_ℤ-IsPart x.linkid h.2 ◂ tt),
        stoi-show_ℤ x.id h.0,
        stoi-show_ℤ x.aid h.1,
        stoi-show_ℤ x.linkid h.2,
      )
      refl

pub print_cross_road-line : (x : CrossRoad) → IsCrossRoad x → Lacks b'\n' (print_cross_road x)
unfolding print_cross_road
print_cross_road-line x h =
    Lacks-join b',' b'\n' (cross_road_columns x) refl
      (show_ℤ-line x.id h.0 ◂ show_ℤ-line x.aid h.1 ◂ show_ℤ-line x.linkid h.2 ◂ tt)

-- updateCrossRoad
abbrev pub update_cross_road : List CrossRoad → Map ℤ CrossRoad
update_cross_road = update_map (λ obj. obj.id)

pub record RailCrossing : Type 0 where
  pub id : ℤ
  pub aid : ℤ
  pub linkid : ℤ

-- What operator<< puts between commas.
abbrev pub rail_crossing_columns : RailCrossing → List Bytes
rail_crossing_columns obj = show_ℤ obj.id ∷ show_ℤ obj.aid ∷ show_ℤ obj.linkid ∷ []

unfoldable pub print_rail_crossing : RailCrossing → Bytes
print_rail_crossing obj = join b',' (rail_crossing_columns obj)

unfoldable pub read_rail_crossing : Bytes → Option RailCrossing
read_rail_crossing s =
    let cs = columns s in
    do
      id ← int_at 0 cs
      aid ← int_at 1 cs
      linkid ← int_at 2 cs
      some (record { id = id; aid = aid; linkid = linkid })

abbrev pub IsRailCrossing : RailCrossing → Type 0
IsRailCrossing x = IsInt x.id × IsInt x.aid × IsInt x.linkid

pub read_rail_crossing-print :
    (x : RailCrossing) → IsRailCrossing x → read_rail_crossing (print_rail_crossing x) ≡ some x
unfolding read_rail_crossing print_rail_crossing
read_rail_crossing-print x h =
    rw
      (
        split-join b',' (rail_crossing_columns x)
            (show_ℤ-IsPart x.id h.0 ◂ show_ℤ-IsPart x.aid h.1 ◂ show_ℤ-IsPart x.linkid h.2 ◂ tt),
        stoi-show_ℤ x.id h.0,
        stoi-show_ℤ x.aid h.1,
        stoi-show_ℤ x.linkid h.2,
      )
      refl

pub print_rail_crossing-line :
    (x : RailCrossing) → IsRailCrossing x → Lacks b'\n' (print_rail_crossing x)
unfolding print_rail_crossing
print_rail_crossing-line x h =
    Lacks-join b',' b'\n' (rail_crossing_columns x) refl
      (show_ℤ-line x.id h.0 ◂ show_ℤ-line x.aid h.1 ◂ show_ℤ-line x.linkid h.2 ◂ tt)

-- updateRailCrossing
abbrev pub update_rail_crossing : List RailCrossing → Map ℤ RailCrossing
update_rail_crossing = update_map (λ obj. obj.id)
