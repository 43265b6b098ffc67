-- ===== src/VectorMap/Surfaces.antt =====
-- Side walks and drive-on portions of vector_map/lib/vector_map/vector_map.cpp: operator<<, operator>>
-- and the updaters.
use autoware_ai_common.Base.{List, Option, [], refl, some, ◌∷◌, ◌≡◌}
use autoware_ai_common.Base.Int.{ℤ}
use autoware_ai_common.Base.Map.{Map}
use autoware_ai_common.VectorMap.Numbers.{Bytes, IsInt, show_ℤ, stoi-show_ℤ}
use autoware_ai_common.VectorMap.Columns.{
  Lacks, columns, int_at, join, Lacks-join, show_ℤ-IsPart, show_ℤ-line, split-join, ◌>>=◌, ◌◂◌,
}
use autoware_ai_common.VectorMap.Handles.{by_id, update_map}

pub record SideWalk : Type 0 where
  pub id : ℤ
  pub aid : ℤ
  pub linkid : ℤ

-- What operator<< puts between commas.
abbrev pub side_walk_columns : SideWalk → List Bytes
side_walk_columns obj = show_ℤ obj.id ∷ show_ℤ obj.aid ∷ show_ℤ obj.linkid ∷ []

unfoldable pub print_side_walk : SideWalk → Bytes
print_side_walk obj = join b',' (side_walk_columns obj)

unfoldable pub read_side_walk : Bytes → Option SideWalk
read_side_walk s =
    let cs = columns s in
    do
      id ← int_at 0 cs
      aid ← int_at 1 cs
      linkid ← int_at 2 cs
      some (record { id = id; aid = aid; linkid = linkid })

abbrev pub IsSideWalk : SideWalk → Type 0
IsSideWalk x = IsInt x.id × IsInt x.aid × IsInt x.linkid

pub read_side_walk-print :
    (x : SideWalk) → IsSideWalk x → read_side_walk (print_side_walk x) ≡ some x
unfolding read_side_walk print_side_walk
read_side_walk-print x h =
    rw
      (
        split-join b',' (side_walk_columns x)
            (show_ℤ-IsPart x.id h.0 ◂ show_ℤ-IsPart x.aid h.1 ◂ show_ℤ-IsPart x.linkid h.2 ◂ tt),
        stoi-show_ℤ x.id h.0,
        stoi-show_ℤ x.aid h.1,
        stoi-show_ℤ x.linkid h.2,
      )
      refl

pub print_side_walk-line : (x : SideWalk) → IsSideWalk x → Lacks b'\n' (print_side_walk x)
unfolding print_side_walk
print_side_walk-line x h =
    Lacks-join b',' b'\n' (side_walk_columns x) refl
      (show_ℤ-line x.id h.0 ◂ show_ℤ-line x.aid h.1 ◂ show_ℤ-line x.linkid h.2 ◂ tt)

-- updateSideWalk
abbrev pub update_side_walk : List SideWalk → Map ℤ SideWalk
update_side_walk = update_map (λ obj. obj.id)

pub record DriveOnPortion : Type 0 where
  pub id : ℤ
  pub aid : ℤ
  pub linkid : ℤ

-- What operator<< puts between commas.
abbrev pub drive_on_portion_columns : DriveOnPortion → List Bytes
drive_on_portion_columns obj = show_ℤ obj.id ∷ show_ℤ obj.aid ∷ show_ℤ obj.linkid ∷ []

unfoldable pub print_drive_on_portion : DriveOnPortion → Bytes
print_drive_on_portion obj = join b',' (drive_on_portion_columns obj)

unfoldable pub read_drive_on_portion : Bytes → Option DriveOnPortion
read_drive_on_portion s =
    let cs = columns s in
    do
      id ← int_at 0 cs
      aid ← int_at 1 cs
      linkid ← int_at 2 cs
      some (record { id = id; aid = aid; linkid = linkid })

abbrev pub IsDriveOnPortion : DriveOnPortion → Type 0
IsDriveOnPortion x = IsInt x.id × IsInt x.aid × IsInt x.linkid

pub read_drive_on_portion-print :
    (x : DriveOnPortion)
    → IsDriveOnPortion x
    → read_drive_on_portion (print_drive_on_portion x) ≡ some x
unfolding read_drive_on_portion print_drive_on_portion
read_drive_on_portion-print x h =
    rw
      (
        split-join b',' (drive_on_portion_columns x)
            (show_ℤ-IsPart x.id h.0 ◂ show_ℤ-IsPart x.aid h.1 ◂ show_ℤ-IsPart x.linkid h.2 ◂ tt),
        stoi-show_ℤ x.id h.0,
        stoi-show_ℤ x.aid h.1,
        stoi-show_ℤ x.linkid h.2,
      )
      refl

pub print_drive_on_portion-line :
    (x : DriveOnPortion) → IsDriveOnPortion x → Lacks b'\n' (print_drive_on_portion x)
unfolding print_drive_on_portion
print_drive_on_portion-line x h =
    Lacks-join b',' b'\n' (drive_on_portion_columns x) refl
      (show_ℤ-line x.id h.0 ◂ show_ℤ-line x.aid h.1 ◂ show_ℤ-line x.linkid h.2 ◂ tt)

-- updateDriveOnPortion
abbrev pub update_drive_on_portion : List DriveOnPortion → Map ℤ DriveOnPortion
update_drive_on_portion = update_map (λ obj. obj.id)
