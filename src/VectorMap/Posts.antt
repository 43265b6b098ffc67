-- ===== src/VectorMap/Posts.antt =====
-- Road poles, street lights and utility poles of vector_map/lib/vector_map/vector_map.cpp: operator<<, operator>>
-- and the updaters.
use autoware_ai_common.Base.{List, Option, [], refl, some, ◌∷◌, ◌≡◌}
use autoware_ai_common.Base.Int.{ℤ}
use autoware_ai_common.Base.Map.{Map}
use autoware_ai_common.VectorMap.Numbers.{Bytes, IsInt, show_ℤ, stoi-show_ℤ}
use autoware_ai_common.VectorMap.Columns.{
  Lacks, columns, int_at, join, Lacks-join, show_ℤ-IsPart, show_ℤ-line, split-join, ◌>>=◌, ◌◂◌,
}
use autoware_ai_common.VectorMap.Handles.{by_id, update_map}

pub record RoadPole : Type 0 where
  pub id : ℤ
  pub plid : ℤ
  pub linkid : ℤ

-- What operator<< puts between commas.
abbrev pub road_pole_columns : RoadPole → List Bytes
road_pole_columns obj = show_ℤ obj.id ∷ show_ℤ obj.plid ∷ show_ℤ obj.linkid ∷ []

unfoldable pub print_road_pole : RoadPole → Bytes
print_road_pole obj = join b',' (road_pole_columns obj)

unfoldable pub read_road_pole : Bytes → Option RoadPole
read_road_pole s =
    let cs = columns s in
    do
      id ← int_at 0 cs
      plid ← int_at 1 cs
      linkid ← int_at 2 cs
      some (record { id = id; plid = plid; linkid = linkid })

abbrev pub IsRoadPole : RoadPole → Type 0
IsRoadPole x = IsInt x.id × IsInt x.plid × IsInt x.linkid

pub read_road_pole-print :
    (x : RoadPole) → IsRoadPole x → read_road_pole (print_road_pole x) ≡ some x
unfolding read_road_pole print_road_pole
read_road_pole-print x h =
    rw
      (
        split-join b',' (road_pole_columns x)
            (show_ℤ-IsPart x.id h.0 ◂ show_ℤ-IsPart x.plid h.1 ◂ show_ℤ-IsPart x.linkid h.2 ◂ tt),
        stoi-show_ℤ x.id h.0,
        stoi-show_ℤ x.plid h.1,
        stoi-show_ℤ x.linkid h.2,
      )
      refl

pub print_road_pole-line : (x : RoadPole) → IsRoadPole x → Lacks b'\n' (print_road_pole x)
unfolding print_road_pole
print_road_pole-line x h =
    Lacks-join b',' b'\n' (road_pole_columns x) refl
      (show_ℤ-line x.id h.0 ◂ show_ℤ-line x.plid h.1 ◂ show_ℤ-line x.linkid h.2 ◂ tt)

-- updateRoadPole
abbrev pub update_road_pole : List RoadPole → Map ℤ RoadPole
update_road_pole = update_map (λ obj. obj.id)

pub record StreetLight : Type 0 where
  pub id : ℤ
  pub lid : ℤ
  pub plid : ℤ
  pub linkid : ℤ

-- What operator<< puts between commas.
abbrev pub street_light_columns : StreetLight → List Bytes
street_light_columns obj = show_ℤ obj.id ∷ show_ℤ obj.lid ∷ show_ℤ obj.plid ∷ show_ℤ obj.linkid ∷ []

unfoldable pub print_street_light : StreetLight → Bytes
print_street_light obj = join b',' (street_light_columns obj)

unfoldable pub read_street_light : Bytes → Option StreetLight
read_street_light s =
    let cs = columns s in
    do
      id ← int_at 0 cs
      lid ← int_at 1 cs
      plid ← int_at 2 cs
      linkid ← int_at 3 cs
      some (record { id = id; lid = lid; plid = plid; linkid = linkid })

abbrev pub IsStreetLight : StreetLight → Type 0
IsStreetLight x = IsInt x.id × IsInt x.lid × IsInt x.plid × IsInt x.linkid

pub read_street_light-print :
    (x : StreetLight) → IsStreetLight x → read_street_light (print_street_light x) ≡ some x
unfolding read_street_light print_street_light
read_street_light-print x h =
    rw
      (
        split-join b',' (street_light_columns x) (
            show_ℤ-IsPart x.id h.0
            ◂ show_ℤ-IsPart x.lid h.1
            ◂ show_ℤ-IsPart x.plid h.2
            ◂ show_ℤ-IsPart x.linkid h.3
            ◂ tt),
        stoi-show_ℤ x.id h.0,
        stoi-show_ℤ x.lid h.1,
        stoi-show_ℤ x.plid h.2,
        stoi-show_ℤ x.linkid h.3,
      )
      refl

pub print_street_light-line :
    (x : StreetLight) → IsStreetLight x → Lacks b'\n' (print_street_light x)
unfolding print_street_light
print_street_light-line x h = Lacks-join b',' b'\n' (street_light_columns x) refl (
    show_ℤ-line x.id h.0
    ◂ show_ℤ-line x.lid h.1
    ◂ show_ℤ-line x.plid h.2
    ◂ show_ℤ-line x.linkid h.3
    ◂ tt)

-- updateStreetLight
abbrev pub update_street_light : List StreetLight → Map ℤ StreetLight
update_street_light = update_map (λ obj. obj.id)

pub record UtilityPole : Type 0 where
  pub id : ℤ
  pub plid : ℤ
  pub linkid : ℤ

-- What operator<< puts between commas.
abbrev pub utility_pole_columns : UtilityPole → List Bytes
utility_pole_columns obj = show_ℤ obj.id ∷ show_ℤ obj.plid ∷ show_ℤ obj.linkid ∷ []

unfoldable pub print_utility_pole : UtilityPole → Bytes
print_utility_pole obj = join b',' (utility_pole_columns obj)

unfoldable pub read_utility_pole : Bytes → Option UtilityPole
read_utility_pole s =
    let cs = columns s in
    do
      id ← int_at 0 cs
      plid ← int_at 1 cs
      linkid ← int_at 2 cs
      some (record { id = id; plid = plid; linkid = linkid })

abbrev pub IsUtilityPole : UtilityPole → Type 0
IsUtilityPole x = IsInt x.id × IsInt x.plid × IsInt x.linkid

pub read_utility_pole-print :
    (x : UtilityPole) → IsUtilityPole x → read_utility_pole (print_utility_pole x) ≡ some x
unfolding read_utility_pole print_utility_pole
read_utility_pole-print x h =
    rw
      (
        split-join b',' (utility_pole_columns x)
            (show_ℤ-IsPart x.id h.0 ◂ show_ℤ-IsPart x.plid h.1 ◂ show_ℤ-IsPart x.linkid h.2 ◂ tt),
        stoi-show_ℤ x.id h.0,
        stoi-show_ℤ x.plid h.1,
        stoi-show_ℤ x.linkid h.2,
      )
      refl

pub print_utility_pole-line :
    (x : UtilityPole) → IsUtilityPole x → Lacks b'\n' (print_utility_pole x)
unfolding print_utility_pole
print_utility_pole-line x h =
    Lacks-join b',' b'\n' (utility_pole_columns x) refl
      (show_ℤ-line x.id h.0 ◂ show_ℤ-line x.plid h.1 ◂ show_ℤ-line x.linkid h.2 ◂ tt)

-- updateUtilityPole
abbrev pub update_utility_pole : List UtilityPole → Map ℤ UtilityPole
update_utility_pole = update_map (λ obj. obj.id)
