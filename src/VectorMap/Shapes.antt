-- ===== src/VectorMap/Shapes.antt =====
-- Lines, areas, poles and boxes of vector_map/lib/vector_map/vector_map.cpp: operator<<, operator>>
-- and the updaters.
use autoware_ai_common.Base.{List, Option, [], refl, some, ◌∷◌, ◌≡◌}
use autoware_ai_common.Base.Int.{ℤ}
use autoware_ai_common.Base.Map.{Map}
use autoware_ai_common.VectorMap.Numbers.{Bytes, IsInt, show_ℤ, stoi-show_ℤ}
use autoware_ai_common.VectorMap.Columns.{
  Decimals, IsShown, Lacks, columns, double_at, int_at, join, Lacks-join, show_ℤ-IsPart,
  show_ℤ-line, split-join, ◌>>=◌, ◌◂◌,
}
use autoware_ai_common.VectorMap.Handles.{by_id, update_map}

pub record Line : Type 0 where
  pub lid : ℤ
  pub bpid : ℤ
  pub fpid : ℤ
  pub blid : ℤ
  pub flid : ℤ

-- What operator<< puts between commas.
abbrev pub line_columns : Line → List Bytes
line_columns obj =
    show_ℤ obj.lid ∷ show_ℤ obj.bpid ∷ show_ℤ obj.fpid ∷ show_ℤ obj.blid ∷ show_ℤ obj.flid ∷ []

unfoldable pub print_line : Line → Bytes
print_line obj = join b',' (line_columns obj)

unfoldable pub read_line : Bytes → Option Line
read_line s =
    let cs = columns s in
    do
      lid ← int_at 0 cs
      bpid ← int_at 1 cs
      fpid ← int_at 2 cs
      blid ← int_at 3 cs
      flid ← int_at 4 cs
      some (record { lid = lid; bpid = bpid; fpid = fpid; blid = blid; flid = flid })

abbrev pub IsLine : Line → Type 0
IsLine x = IsInt x.lid × IsInt x.bpid × IsInt x.fpid × IsInt x.blid × IsInt x.flid

pub read_line-print : (x : Line) → IsLine x → read_line (print_line x) ≡ some x
unfolding read_line print_line
read_line-print x h =
    rw
      (
        split-join b',' (line_columns x) (
            show_ℤ-IsPart x.lid h.0
            ◂ show_ℤ-IsPart x.bpid h.1
            ◂ show_ℤ-IsPart x.fpid h.2
            ◂ show_ℤ-IsPart x.blid h.3
            ◂ show_ℤ-IsPart x.flid h.4
            ◂ tt),
        stoi-show_ℤ x.lid h.0,
        stoi-show_ℤ x.bpid h.1,
        stoi-show_ℤ x.fpid h.2,
        stoi-show_ℤ x.blid h.3,
        stoi-show_ℤ x.flid h.4,
      )
      refl

pub print_line-line : (x : Line) → IsLine x → Lacks b'\n' (print_line x)
unfolding print_line
print_line-line x h = Lacks-join b',' b'\n' (line_columns x) refl (
    show_ℤ-line x.lid h.0
    ◂ show_ℤ-line x.bpid h.1
    ◂ show_ℤ-line x.fpid h.2
    ◂ show_ℤ-line x.blid h.3
    ◂ show_ℤ-line x.flid h.4
    ◂ tt)

-- updateLine
abbrev pub update_line : List Line → Map ℤ Line
update_line = update_map (λ obj. obj.lid)

pub record Area : Type 0 where
  pub aid : ℤ
  pub slid : ℤ
  pub elid : ℤ

-- What operator<< puts between commas.
abbrev pub area_columns : Area → List Bytes
area_columns obj = show_ℤ obj.aid ∷ show_ℤ obj.slid ∷ show_ℤ obj.elid ∷ []

unfoldable pub print_area : Area → Bytes
print_area obj = join b',' (area_columns obj)

unfoldable pub read_area : Bytes → Option Area
read_area s =
    let cs = columns s in
    do
      aid ← int_at 0 cs
      slid ← int_at 1 cs
      elid ← int_at 2 cs
      some (record { aid = aid; slid = slid; elid = elid })

abbrev pub IsArea : Area → Type 0
IsArea x = IsInt x.aid × IsInt x.slid × IsInt x.elid

pub read_area-print : (x : Area) → IsArea x → read_area (print_area x) ≡ some x
unfolding read_area print_area
read_area-print x h =
    rw
      (
        split-join b',' (area_columns x)
            (show_ℤ-IsPart x.aid h.0 ◂ show_ℤ-IsPart x.slid h.1 ◂ show_ℤ-IsPart x.elid h.2 ◂ tt),
        stoi-show_ℤ x.aid h.0,
        stoi-show_ℤ x.slid h.1,
        stoi-show_ℤ x.elid h.2,
      )
      refl

pub print_area-line : (x : Area) → IsArea x → Lacks b'\n' (print_area x)
unfolding print_area
print_area-line x h =
    Lacks-join b',' b'\n' (area_columns x) refl
      (show_ℤ-line x.aid h.0 ◂ show_ℤ-line x.slid h.1 ◂ show_ℤ-line x.elid h.2 ◂ tt)

-- updateArea
abbrev pub update_area : List Area → Map ℤ Area
update_area = update_map (λ obj. obj.aid)

pub record Pole (W : Type 0) : Type 0 where
  pub plid : ℤ
  pub vid : ℤ
  pub length : W
  pub dim : W

module _ {W : Type 0} ⦃t : Decimals W⦄ where
  -- What operator<< puts between commas.
  abbrev pub pole_columns : Pole W → List Bytes
  pole_columns obj =
      show_ℤ obj.plid ∷ show_ℤ obj.vid ∷ t.show_double obj.length ∷ t.show_double obj.dim ∷ []

  unfoldable pub print_pole : Pole W → Bytes
  print_pole obj = join b',' (pole_columns obj)

  unfoldable pub read_pole : Bytes → Option (Pole W)
  read_pole s =
      let cs = columns s in
      do
        plid ← int_at 0 cs
        vid ← int_at 1 cs
        length ← double_at 2 cs
        dim ← double_at 3 cs
        some (record { plid = plid; vid = vid; length = length; dim = dim })

  abbrev pub IsPole : Pole W → Type 0
  IsPole x = IsInt x.plid × IsInt x.vid × IsShown x.length × IsShown x.dim

  pub read_pole-print : (x : Pole W) → IsPole x → read_pole (print_pole x) ≡ some x
  unfolding read_pole print_pole
  read_pole-print x h =
      rw
        (
          split-join b',' (pole_columns x)
              (show_ℤ-IsPart x.plid h.0 ◂ show_ℤ-IsPart x.vid h.1 ◂ h.2.column ◂ h.3.column ◂ tt),
          stoi-show_ℤ x.plid h.0,
          stoi-show_ℤ x.vid h.1,
          h.2.read,
          h.3.read,
        )
        refl

  pub print_pole-line : (x : Pole W) → IsPole x → Lacks b'\n' (print_pole x)
  unfolding print_pole
  print_pole-line x h =
      Lacks-join b',' b'\n' (pole_columns x) refl
        (show_ℤ-line x.plid h.0 ◂ show_ℤ-line x.vid h.1 ◂ h.2.line ◂ h.3.line ◂ tt)

-- updatePole
abbrev pub update_pole : {W : Type 0} → List (Pole W) → Map ℤ (Pole W)
update_pole = update_map (λ obj. obj.plid)

pub record Box (W : Type 0) : Type 0 where
  pub bid : ℤ
  pub pid1 : ℤ
  pub pid2 : ℤ
  pub pid3 : ℤ
  pub pid4 : ℤ
  pub height : W

module _ {W : Type 0} ⦃t : Decimals W⦄ where
  -- What operator<< puts between commas.
  abbrev pub box_columns : Box W → List Bytes
  box_columns obj =
      show_ℤ obj.bid
      ∷ show_ℤ obj.pid1
      ∷ show_ℤ obj.pid2
      ∷ show_ℤ obj.pid3
      ∷ show_ℤ obj.pid4
      ∷ t.show_double obj.height
      ∷ []

  unfoldable pub print_box : Box W → Bytes
  print_box obj = join b',' (box_columns obj)

  unfoldable pub read_box : Bytes → Option (Box W)
  read_box s =
      let cs = columns s in
      do
        bid ← int_at 0 cs
        pid1 ← int_at 1 cs
        pid2 ← int_at 2 cs
        pid3 ← int_at 3 cs
        pid4 ← int_at 4 cs
        height ← double_at 5 cs
        some (record {
          bid = bid;
          pid1 = pid1;
          pid2 = pid2;
          pid3 = pid3;
          pid4 = pid4;
          height = height;
        })

  abbrev pub IsBox : Box W → Type 0
  IsBox x =
      IsInt x.bid × IsInt x.pid1 × IsInt x.pid2 × IsInt x.pid3 × IsInt x.pid4 × IsShown x.height

  pub read_box-print : (x : Box W) → IsBox x → read_box (print_box x) ≡ some x
  unfolding read_box print_box
  read_box-print x h =
      rw
        (
          split-join b',' (box_columns x) (
              show_ℤ-IsPart x.bid h.0
              ◂ show_ℤ-IsPart x.pid1 h.1
              ◂ show_ℤ-IsPart x.pid2 h.2
              ◂ show_ℤ-IsPart x.pid3 h.3
              ◂ show_ℤ-IsPart x.pid4 h.4
              ◂ h.5.column
              ◂ tt),
          stoi-show_ℤ x.bid h.0,
          stoi-show_ℤ x.pid1 h.1,
          stoi-show_ℤ x.pid2 h.2,
          stoi-show_ℤ x.pid3 h.3,
          stoi-show_ℤ x.pid4 h.4,
          h.5.read,
        )
        refl

  pub print_box-line : (x : Box W) → IsBox x → Lacks b'\n' (print_box x)
  unfolding print_box
  print_box-line x h = Lacks-join b',' b'\n' (box_columns x) refl (
      show_ℤ-line x.bid h.0
      ◂ show_ℤ-line x.pid1 h.1
      ◂ show_ℤ-line x.pid2 h.2
      ◂ show_ℤ-line x.pid3 h.3
      ◂ show_ℤ-line x.pid4 h.4
      ◂ h.5.line
      ◂ tt)

-- updateBox
abbrev pub update_box : {W : Type 0} → List (Box W) → Map ℤ (Box W)
update_box = update_map (λ obj. obj.bid)
