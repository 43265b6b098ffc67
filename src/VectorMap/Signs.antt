-- ===== src/VectorMap/Signs.antt =====
-- Road signs, signals and curve mirrors of vector_map/lib/vector_map/vector_map.cpp: operator<<, operator>>
-- and the updaters.
use autoware_ai_common.Base.{List, Option, [], refl, some, ◌∷◌, ◌≡◌}
use autoware_ai_common.Base.Int.{ℤ}
use autoware_ai_common.Base.Map.{Map}
use autoware_ai_common.VectorMap.Numbers.{Bytes, IsInt, show_ℤ, stoi-show_ℤ}
use autoware_ai_common.VectorMap.Columns.{
  Lacks, columns, int_at, join, Lacks-join, show_ℤ-IsPart, show_ℤ-line, split-join, ◌>>=◌, ◌◂◌,
}
use autoware_ai_common.VectorMap.Handles.{by_id, update_map}

pub record RoadSign : Type 0 where
  pub id : ℤ
  pub vid : ℤ
  pub plid : ℤ
  pub type : ℤ
  pub linkid : ℤ

-- What operator<< puts between commas.
abbrev pub road_sign_columns : RoadSign → List Bytes
road_sign_columns obj =
    show_ℤ obj.id ∷ show_ℤ obj.vid ∷ show_ℤ obj.plid ∷ show_ℤ obj.type ∷ show_ℤ obj.linkid ∷ []

unfoldable pub print_road_sign : RoadSign → Bytes
print_road_sign obj = join b',' (road_sign_columns obj)

unfoldable pub read_road_sign : Bytes → Option RoadSign
read_road_sign s =
    let cs = columns s in
    do
      id ← int_at 0 cs
      vid ← int_at 1 cs
      plid ← int_at 2 cs
      type ← int_at 3 cs
      linkid ← int_at 4 cs
      some (record { id = id; vid = vid; plid = plid; type = type; linkid = linkid })

abbrev pub IsRoadSign : RoadSign → Type 0
IsRoadSign x = IsInt x.id × IsInt x.vid × IsInt x.plid × IsInt x.type × IsInt x.linkid

pub read_road_sign-print :
    (x : RoadSign) → IsRoadSign x → read_road_sign (print_road_sign x) ≡ some x
unfolding read_road_sign print_road_sign
read_road_sign-print x h =
    rw
      (
        split-join b',' (road_sign_columns x) (
            show_ℤ-IsPart x.id h.0
            ◂ show_ℤ-IsPart x.vid h.1
            ◂ show_ℤ-IsPart x.plid h.2
            ◂ show_ℤ-IsPart x.type h.3
            ◂ show_ℤ-IsPart x.linkid h.4
            ◂ tt),
        stoi-show_ℤ x.id h.0,
        stoi-show_ℤ x.vid h.1,
        stoi-show_ℤ x.plid h.2,
        stoi-show_ℤ x.type h.3,
        stoi-show_ℤ x.linkid h.4,
      )
      refl

pub print_road_sign-line : (x : RoadSign) → IsRoadSign x → Lacks b'\n' (print_road_sign x)
unfolding print_road_sign
print_road_sign-line x h = Lacks-join b',' b'\n' (road_sign_columns x) refl (
    show_ℤ-line x.id h.0
    ◂ show_ℤ-line x.vid h.1
    ◂ show_ℤ-line x.plid h.2
    ◂ show_ℤ-line x.type h.3
    ◂ show_ℤ-line x.linkid h.4
    ◂ tt)

-- updateRoadSign
abbrev pub update_road_sign : List RoadSign → Map ℤ RoadSign
update_road_sign = update_map (λ obj. obj.id)

pub record Signal : Type 0 where
  pub id : ℤ
  pub vid : ℤ
  pub plid : ℤ
  pub type : ℤ
  pub linkid : ℤ

-- What operator<< puts between commas.
abbrev pub signal_columns : Signal → List Bytes
signal_columns obj =
    show_ℤ obj.id ∷ show_ℤ obj.vid ∷ show_ℤ obj.plid ∷ show_ℤ obj.type ∷ show_ℤ obj.linkid ∷ []

unfoldable pub print_signal : Signal → Bytes
print_signal obj = join b',' (signal_columns obj)

unfoldable pub read_signal : Bytes → Option Signal
read_signal s =
    let cs = columns s in
    do
      id ← int_at 0 cs
      vid ← int_at 1 cs
      plid ← int_at 2 cs
      type ← int_at 3 cs
      linkid ← int_at 4 cs
      some (record { id = id; vid = vid; plid = plid; type = type; linkid = linkid })

abbrev pub IsSignal : Signal → Type 0
IsSignal x = IsInt x.id × IsInt x.vid × IsInt x.plid × IsInt x.type × IsInt x.linkid

pub read_signal-print : (x : Signal) → IsSignal x → read_signal (print_signal x) ≡ some x
unfolding read_signal print_signal
read_signal-print x h =
    rw
      (
        split-join b',' (signal_columns x) (
            show_ℤ-IsPart x.id h.0
            ◂ show_ℤ-IsPart x.vid h.1
            ◂ show_ℤ-IsPart x.plid h.2
            ◂ show_ℤ-IsPart x.type h.3
            ◂ show_ℤ-IsPart x.linkid h.4
            ◂ tt),
        stoi-show_ℤ x.id h.0,
        stoi-show_ℤ x.vid h.1,
        stoi-show_ℤ x.plid h.2,
        stoi-show_ℤ x.type h.3,
        stoi-show_ℤ x.linkid h.4,
      )
      refl

pub print_signal-line : (x : Signal) → IsSignal x → Lacks b'\n' (print_signal x)
unfolding print_signal
print_signal-line x h = Lacks-join b',' b'\n' (signal_columns x) refl (
    show_ℤ-line x.id h.0
    ◂ show_ℤ-line x.vid h.1
    ◂ show_ℤ-line x.plid h.2
    ◂ show_ℤ-line x.type h.3
    ◂ show_ℤ-line x.linkid h.4
    ◂ tt)

-- updateSignal
abbrev pub update_signal : List Signal → Map ℤ Signal
update_signal = update_map (λ obj. obj.id)

pub record CurveMirror : Type 0 where
  pub id : ℤ
  pub vid : ℤ
  pub plid : ℤ
  pub type : ℤ
  pub linkid : ℤ

-- What operator<< puts between commas.
abbrev pub curve_mirror_columns : CurveMirror → List Bytes
curve_mirror_columns obj =
    show_ℤ obj.id ∷ show_ℤ obj.vid ∷ show_ℤ obj.plid ∷ show_ℤ obj.type ∷ show_ℤ obj.linkid ∷ []

unfoldable pub print_curve_mirror : CurveMirror → Bytes
print_curve_mirror obj = join b',' (curve_mirror_columns obj)

unfoldable pub read_curve_mirror : Bytes → Option CurveMirror
read_curve_mirror s =
    let cs = columns s in
    do
      id ← int_at 0 cs
      vid ← int_at 1 cs
      plid ← int_at 2 cs
      type ← int_at 3 cs
      linkid ← int_at 4 cs
      some (record { id = id; vid = vid; plid = plid; type = type; linkid = linkid })

abbrev pub IsCurveMirror : CurveMirror → Type 0
IsCurveMirror x = IsInt x.id × IsInt x.vid × IsInt x.plid × IsInt x.type × IsInt x.linkid

pub read_curve_mirror-print :
    (x : CurveMirror) → IsCurveMirror x → read_curve_mirror (print_curve_mirror x) ≡ some x
unfolding read_curve_mirror print_curve_mirror
read_curve_mirror-print x h =
    rw
      (
        split-join b',' (curve_mirror_columns x) (
            show_ℤ-IsPart x.id h.0
            ◂ show_ℤ-IsPart x.vid h.1
            ◂ show_ℤ-IsPart x.plid h.2
            ◂ show_ℤ-IsPart x.type h.3
            ◂ show_ℤ-IsPart x.linkid h.4
            ◂ tt),
        stoi-show_ℤ x.id h.0,
        stoi-show_ℤ x.vid h.1,
        stoi-show_ℤ x.plid h.2,
        stoi-show_ℤ x.type h.3,
        stoi-show_ℤ x.linkid h.4,
      )
      refl

pub print_curve_mirror-line :
    (x : CurveMirror) → IsCurveMirror x → Lacks b'\n' (print_curve_mirror x)
unfolding print_curve_mirror
print_curve_mirror-line x h = Lacks-join b',' b'\n' (curve_mirror_columns x) refl (
    show_ℤ-line x.id h.0
    ◂ show_ℤ-line x.vid h.1
    ◂ show_ℤ-line x.plid h.2
    ◂ show_ℤ-line x.type h.3
    ◂ show_ℤ-line x.linkid h.4
    ◂ tt)

-- updateCurveMirror
abbrev pub update_curve_mirror : List CurveMirror → Map ℤ CurveMirror
update_curve_mirror = update_map (λ obj. obj.id)
