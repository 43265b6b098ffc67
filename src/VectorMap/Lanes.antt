-- ===== src/VectorMap/Lanes.antt =====
-- Lanes, whose rows have 17, 22 or 23 columns of vector_map/lib/vector_map/vector_map.cpp: operator<<, operator>>
-- and the updaters.
use autoware_ai_common.Base.{
  All, List, Option, [], if◌then◌else◌, length, refl, some, ◌==◌, ◌∷◌, ◌≡◌,
}
use autoware_ai_common.Base.Int.{pos, ℤ}
use autoware_ai_common.Base.Map.{Map}
use autoware_ai_common.VectorMap.Numbers.{Bytes, IsInt, show_ℤ, stoi-show_ℤ}
use autoware_ai_common.VectorMap.Columns.{
  Decimals, IsPart, IsShown, Lacks, columns, double_at, int_at, join, Lacks-join, show_ℤ-IsPart,
  show_ℤ-line, split-join, ◌>>=◌, ◌◂◌,
}
use autoware_ai_common.VectorMap.Handles.{by_id, update_map}

pub record Lane (W : Type 0) : Type 0 where
  pub lnid : ℤ
  pub did : ℤ
  pub blid : ℤ
  pub flid : ℤ
  pub bnid : ℤ
  pub fnid : ℤ
  pub jct : ℤ
  pub blid2 : ℤ
  pub blid3 : ℤ
  pub blid4 : ℤ
  pub flid2 : ℤ
  pub flid3 : ℤ
  pub flid4 : ℤ
  pub clossid : ℤ
  pub span : W
  pub lcnt : ℤ
  pub lno : ℤ
  pub lanetype : ℤ
  pub limitvel : ℤ
  pub refvel : ℤ
  pub roadsecid : ℤ
  pub lanecfgfg : ℤ
  pub linkwaid : ℤ

module _ {W : Type 0} ⦃t : Decimals W⦄ where
  -- What operator<< puts between commas.
  abbrev pub lane_columns : Lane W → List Bytes
  lane_columns obj =
      show_ℤ obj.lnid
      ∷ show_ℤ obj.did
      ∷ show_ℤ obj.blid
      ∷ show_ℤ obj.flid
      ∷ show_ℤ obj.bnid
      ∷ show_ℤ obj.fnid
      ∷ show_ℤ obj.jct
      ∷ show_ℤ obj.blid2
      ∷ show_ℤ obj.blid3
      ∷ show_ℤ obj.blid4
      ∷ show_ℤ obj.flid2
      ∷ show_ℤ obj.flid3
      ∷ show_ℤ obj.flid4
      ∷ show_ℤ obj.clossid
      ∷ t.show_double obj.span
      ∷ show_ℤ obj.lcnt
      ∷ show_ℤ obj.lno
      ∷ show_ℤ obj.lanetype
      ∷ show_ℤ obj.limitvel
      ∷ show_ℤ obj.refvel
      ∷ show_ℤ obj.roadsecid
      ∷ show_ℤ obj.lanecfgfg
      ∷ show_ℤ obj.linkwaid
      ∷ []

  unfoldable pub print_lane : Lane W → Bytes
  print_lane obj = join b',' (lane_columns obj)

  -- The end of the reader, after the 22 columns that most rows have.
  unfoldable pub read_linkwaid : List Bytes → Lane W → Option (Lane W)
  read_linkwaid cs obj =
      if length cs == 22
      then some obj
      else do linkwaid ← int_at 22 cs; some (record obj { linkwaid = linkwaid })

  -- The reader after the 17 columns that every row has.
  unfoldable pub read_rest : List Bytes → Lane W → Option (Lane W)
  unfolding read_linkwaid
  read_rest cs obj = if length cs == 17 then some obj else do
    lanetype ← int_at 17 cs
    limitvel ← int_at 18 cs
    refvel ← int_at 19 cs
    roadsecid ← int_at 20 cs
    lanecfgfg ← int_at 21 cs
    read_linkwaid cs (record obj {
      lanetype = lanetype;
      limitvel = limitvel;
      refvel = refvel;
      roadsecid = roadsecid;
      lanecfgfg = lanecfgfg;
    })

  unfoldable pub read_lane : Bytes → Option (Lane W)
  unfolding read_rest
  read_lane s =
      let cs = columns s in
      do
        lnid ← int_at 0 cs
        did ← int_at 1 cs
        blid ← int_at 2 cs
        flid ← int_at 3 cs
        bnid ← int_at 4 cs
        fnid ← int_at 5 cs
        jct ← int_at 6 cs
        blid2 ← int_at 7 cs
        blid3 ← int_at 8 cs
        blid4 ← int_at 9 cs
        flid2 ← int_at 10 cs
        flid3 ← int_at 11 cs
        flid4 ← int_at 12 cs
        clossid ← int_at 13 cs
        span ← double_at 14 cs
        lcnt ← int_at 15 cs
        lno ← int_at 16 cs
        read_rest cs (record {
          lnid = lnid;
          did = did;
          blid = blid;
          flid = flid;
          bnid = bnid;
          fnid = fnid;
          jct = jct;
          blid2 = blid2;
          blid3 = blid3;
          blid4 = blid4;
          flid2 = flid2;
          flid3 = flid3;
          flid4 = flid4;
          clossid = clossid;
          span = span;
          lcnt = lcnt;
          lno = lno;
          lanetype = pos 0;
          limitvel = pos 0;
          refvel = pos 0;
          roadsecid = pos 0;
          lanecfgfg = pos 0;
          linkwaid = pos 0;
        })

  abbrev pub IsLane : Lane W → Type 0
  IsLane x =
      IsInt x.lnid
      × IsInt x.did
      × IsInt x.blid
      × IsInt x.flid
      × IsInt x.bnid
      × IsInt x.fnid
      × IsInt x.jct
      × IsInt x.blid2
      × IsInt x.blid3
      × IsInt x.blid4
      × IsInt x.flid2
      × IsInt x.flid3
      × IsInt x.flid4
      × IsInt x.clossid
      × IsShown x.span
      × IsInt x.lcnt
      × IsInt x.lno
      × IsInt x.lanetype
      × IsInt x.limitvel
      × IsInt x.refvel
      × IsInt x.roadsecid
      × IsInt x.lanecfgfg
      × IsInt x.linkwaid

  pub lane_columns-IsPart : (x : Lane W) → IsLane x → All (IsPart b',') (lane_columns x)
  lane_columns-IsPart x h =
      (show_ℤ-IsPart x.lnid h.0
        ◂ show_ℤ-IsPart x.did h.1
        ◂ show_ℤ-IsPart x.blid h.2
        ◂ show_ℤ-IsPart x.flid h.3
        ◂ show_ℤ-IsPart x.bnid h.4
        ◂ show_ℤ-IsPart x.fnid h.5
        ◂ show_ℤ-IsPart x.jct h.6
        ◂ show_ℤ-IsPart x.blid2 h.7
        ◂ show_ℤ-IsPart x.blid3 h.8
        ◂ show_ℤ-IsPart x.blid4 h.9
        ◂ show_ℤ-IsPart x.flid2 h.10
        ◂ show_ℤ-IsPart x.flid3 h.11
        ◂ show_ℤ-IsPart x.flid4 h.12
        ◂ show_ℤ-IsPart x.clossid h.13
        ◂ h.14.column
        ◂ show_ℤ-IsPart x.lcnt h.15
        ◂ show_ℤ-IsPart x.lno h.16
        ◂ show_ℤ-IsPart x.lanetype h.17
        ◂ show_ℤ-IsPart x.limitvel h.18
        ◂ show_ℤ-IsPart x.refvel h.19
        ◂ show_ℤ-IsPart x.roadsecid h.20
        ◂ show_ℤ-IsPart x.lanecfgfg h.21
        ◂ show_ℤ-IsPart x.linkwaid h.22
        ◂ tt)

  pub read_lane-print : (x : Lane W) → IsLane x → read_lane (print_lane x) ≡ some x
  unfolding read_lane print_lane read_rest read_linkwaid
  read_lane-print x h =
      rw
        (
          split-join b',' (lane_columns x) (lane_columns-IsPart x h),
          stoi-show_ℤ x.lnid h.0,
          stoi-show_ℤ x.did h.1,
          stoi-show_ℤ x.blid h.2,
          stoi-show_ℤ x.flid h.3,
          stoi-show_ℤ x.bnid h.4,
          stoi-show_ℤ x.fnid h.5,
          stoi-show_ℤ x.jct h.6,
          stoi-show_ℤ x.blid2 h.7,
          stoi-show_ℤ x.blid3 h.8,
          stoi-show_ℤ x.blid4 h.9,
          stoi-show_ℤ x.flid2 h.10,
          stoi-show_ℤ x.flid3 h.11,
          stoi-show_ℤ x.flid4 h.12,
          stoi-show_ℤ x.clossid h.13,
          h.14.read,
          stoi-show_ℤ x.lcnt h.15,
          stoi-show_ℤ x.lno h.16,
          stoi-show_ℤ x.lanetype h.17,
          stoi-show_ℤ x.limitvel h.18,
          stoi-show_ℤ x.refvel h.19,
          stoi-show_ℤ x.roadsecid h.20,
          stoi-show_ℤ x.lanecfgfg h.21,
          stoi-show_ℤ x.linkwaid h.22,
        )
        refl

  pub print_lane-line : (x : Lane W) → IsLane x → Lacks b'\n' (print_lane x)
  unfolding print_lane
  print_lane-line x h = Lacks-join b',' b'\n' (lane_columns x) refl (
      show_ℤ-line x.lnid h.0
      ◂ show_ℤ-line x.did h.1
      ◂ show_ℤ-line x.blid h.2
      ◂ show_ℤ-line x.flid h.3
      ◂ show_ℤ-line x.bnid h.4
      ◂ show_ℤ-line x.fnid h.5
      ◂ show_ℤ-line x.jct h.6
      ◂ show_ℤ-line x.blid2 h.7
      ◂ show_ℤ-line x.blid3 h.8
      ◂ show_ℤ-line x.blid4 h.9
      ◂ show_ℤ-line x.flid2 h.10
      ◂ show_ℤ-line x.flid3 h.11
      ◂ show_ℤ-line x.flid4 h.12
      ◂ show_ℤ-line x.clossid h.13
      ◂ h.14.line
      ◂ show_ℤ-line x.lcnt h.15
      ◂ show_ℤ-line x.lno h.16
      ◂ show_ℤ-line x.lanetype h.17
      ◂ show_ℤ-line x.limitvel h.18
      ◂ show_ℤ-line x.refvel h.19
      ◂ show_ℤ-line x.roadsecid h.20
      ◂ show_ℤ-line x.lanecfgfg h.21
      ◂ show_ℤ-line x.linkwaid h.22
      ◂ tt)

-- updateLane
abbrev pub update_lane : {W : Type 0} → List (Lane W) → Map ℤ (Lane W)
update_lane = update_map (λ obj. obj.lnid)
