-- ===== src/VectorMap/Ways.antt =====
-- The centre points of lanes and the areas of a way of vector_map/lib/vector_map/vector_map.cpp: operator<<, operator>>
-- and the updaters.
use autoware_ai_common.Base.{List, Option, [], refl, some, ◌∷◌, ◌≡◌}
use autoware_ai_common.Base.Int.{ℤ}
use autoware_ai_common.Base.Map.{Map}
use autoware_ai_common.VectorMap.Numbers.{Bytes, IsInt, show_ℤ, stoi-show_ℤ}
use autoware_ai_common.VectorMap.Columns.{
  Decimals, IsShown, Lacks, columns, double_at, int_at, join, Lacks-join, show_ℤ-IsPart,
  show_ℤ-line, split-join, ◌>>=◌, ◌◂◌,
}
use autoware_ai_common.VectorMap.Handles.{by_id, update_map}

pub record DtLane (W : Type 0) : Type 0 where
  pub did : ℤ
  pub dist : W
  pub pid : ℤ
  pub dir : W
  pub apara : W
  pub r : W
  pub slope : W
  pub cant : W
  pub lw : W
  pub rw : W

module _ {W : Type 0} ⦃t : Decimals W⦄ where
  -- What operator<< puts between commas.
  abbrev pub dt_lane_columns : DtLane W → List Bytes
  dt_lane_columns obj =
      show_ℤ obj.did
      ∷ t.show_double obj.dist
      ∷ show_ℤ obj.pid
      ∷ t.show_double obj.dir
      ∷ t.show_double obj.apara
      ∷ t.show_double obj.r
      ∷ t.show_double obj.slope
      ∷ t.show_double obj.cant
      ∷ t.show_double obj.lw
      ∷ t.show_double obj.rw
      ∷ []

  unfoldable pub print_dt_lane : DtLane W → Bytes
  print_dt_lane obj = join b',' (dt_lane_columns obj)

  unfoldable pub read_dt_lane : Bytes → Option (DtLane W)
  read_dt_lane s =
      let cs = columns s in
      do
        did ← int_at 0 cs
        dist ← double_at 1 cs
        pid ← int_at 2 cs
        dir ← double_at 3 cs
        apara ← double_at 4 cs
        r ← double_at 5 cs
        slope ← double_at 6 cs
        cant ← double_at 7 cs
        lw ← double_at 8 cs
        rw ← double_at 9 cs
        some (record {
          did = did;
          dist = dist;
          pid = pid;
          dir = dir;
          apara = apara;
          r = r;
          slope = slope;
          cant = cant;
          lw = lw;
          rw = rw;
        })

  abbrev pub IsDtLane : DtLane W → Type 0
  IsDtLane x =
      IsInt x.did
      × IsShown x.dist
      × IsInt x.pid
      × IsShown x.dir
      × IsShown x.apara
      × IsShown x.r
      × IsShown x.slope
      × IsShown x.cant
      × IsShown x.lw
      × IsShown x.rw

  pub read_dt_lane-print : (x : DtLane W) → IsDtLane x → read_dt_lane (print_dt_lane x) ≡ some x
  unfolding read_dt_lane print_dt_lane
  read_dt_lane-print x h =
      rw
        (
          split-join b',' (dt_lane_columns x) (
              show_ℤ-IsPart x.did h.0
              ◂ h.1.column
              ◂ show_ℤ-IsPart x.pid h.2
              ◂ h.3.column
              ◂ h.4.column
              ◂ h.5.column
              ◂ h.6.column
              ◂ h.7.column
              ◂ h.8.column
              ◂ h.9.column
              ◂ tt),
          stoi-show_ℤ x.did h.0,
          h.1.read,
          stoi-show_ℤ x.pid h.2,
          h.3.read,
          h.4.read,
          h.5.read,
          h.6.read,
          h.7.read,
          h.8.read,
          h.9.read,
        )
        refl

  pub print_dt_lane-line : (x : DtLane W) → IsDtLane x → Lacks b'\n' (print_dt_lane x)
  unfolding print_dt_lane
  print_dt_lane-line x h = Lacks-join b',' b'\n' (dt_lane_columns x) refl (
      show_ℤ-line x.did h.0
      ◂ h.1.line
      ◂ show_ℤ-line x.pid h.2
      ◂ h.3.line
      ◂ h.4.line
      ◂ h.5.line
      ◂ h.6.line
      ◂ h.7.line
      ◂ h.8.line
      ◂ h.9.line
      ◂ tt)

-- updateDTLane
abbrev pub update_dt_lane : {W : Type 0} → List (DtLane W) → Map ℤ (DtLane W)
update_dt_lane = update_map (λ obj. obj.did)

pub record WayArea : Type 0 where
  pub waid : ℤ
  pub aid : ℤ

-- What operator<< puts between commas.
abbrev pub way_area_columns : WayArea → List Bytes
way_area_columns obj = show_ℤ obj.waid ∷ show_ℤ obj.aid ∷ []

unfoldable pub print_way_area : WayArea → Bytes
print_way_area obj = join b',' (way_area_columns obj)

unfoldable pub read_way_area : Bytes → Option WayArea
read_way_area s =
    let cs = columns s in
    do waid ← int_at 0 cs; aid ← int_at 1 cs; some (record { waid = waid; aid = aid })

abbrev pub IsWayArea : WayArea → Type 0
IsWayArea x = IsInt x.waid × IsInt x.aid

pub read_way_area-print : (x : WayArea) → IsWayArea x → read_way_area (print_way_area x) ≡ some x
unfolding read_way_area print_way_area
read_way_area-print x h =
    rw
      (
        split-join b',' (way_area_columns x)
            (show_ℤ-IsPart x.waid h.0 ◂ show_ℤ-IsPart x.aid h.1 ◂ tt),
        stoi-show_ℤ x.waid h.0,
        stoi-show_ℤ x.aid h.1,
      )
      refl

pub print_way_area-line : (x : WayArea) → IsWayArea x → Lacks b'\n' (print_way_area x)
unfolding print_way_area
print_way_area-line x h =
    Lacks-join b',' b'\n' (way_area_columns x) refl
      (show_ℤ-line x.waid h.0 ◂ show_ℤ-line x.aid h.1 ◂ tt)

-- updateWayArea
abbrev pub update_way_area : List WayArea → Map ℤ WayArea
update_way_area = update_map (λ obj. obj.waid)
