-- ===== src/VectorMap/Barriers.antt =====
-- Guard rails, walls and fences of vector_map/lib/vector_map/vector_map.cpp: operator<<, operator>>
-- and the updaters.
use autoware_ai_common.Base.{List, Option, [], refl, some, ◌∷◌, ◌≡◌}
use autoware_ai_common.Base.Int.{ℤ}
use autoware_ai_common.Base.Map.{Map}
use autoware_ai_common.VectorMap.Numbers.{Bytes, IsInt, show_ℤ, stoi-show_ℤ}
use autoware_ai_common.VectorMap.Columns.{
  Lacks, columns, int_at, join, Lacks-join, show_ℤ-IsPart, show_ℤ-line, split-join, ◌>>=◌, ◌◂◌,
}
use autoware_ai_common.VectorMap.Handles.{by_id, update_map}

pub record GuardRail : Type 0 where
  pub id : ℤ
  pub aid : ℤ
  pub type : ℤ
  pub linkid : ℤ

-- What operator<< puts between commas.
abbrev pub guard_rail_columns : GuardRail → List Bytes
guard_rail_columns obj = show_ℤ obj.id ∷ show_ℤ obj.aid ∷ show_ℤ obj.type ∷ show_ℤ obj.linkid ∷ []

unfoldable pub print_guard_rail : GuardRail → Bytes
print_guard_rail obj = join b',' (guard_rail_columns obj)

unfoldable pub read_guard_rail : Bytes → Option GuardRail
read_guard_rail s =
    let cs = columns s in
    do
      id ← int_at 0 cs
      aid ← int_at 1 cs
      type ← int_at 2 cs
      linkid ← int_at 3 cs
      some (record { id = id; aid = aid; type = type; linkid = linkid })

abbrev pub IsGuardRail : GuardRail → Type 0
IsGuardRail x = IsInt x.id × IsInt x.aid × IsInt x.type × IsInt x.linkid

pub read_guard_rail-print :
    (x : GuardRail) → IsGuardRail x → read_guard_rail (print_guard_rail x) ≡ some x
unfolding read_guard_rail print_guard_rail
read_guard_rail-print x h =
    rw
      (
        split-join b',' (guard_rail_columns x) (
            show_ℤ-IsPart x.id h.0
            ◂ show_ℤ-IsPart x.aid h.1
            ◂ show_ℤ-IsPart x.type h.2
            ◂ show_ℤ-IsPart x.linkid h.3
            ◂ tt),
        stoi-show_ℤ x.id h.0,
        stoi-show_ℤ x.aid h.1,
        stoi-show_ℤ x.type h.2,
        stoi-show_ℤ x.linkid h.3,
      )
      refl

pub print_guard_rail-line : (x : GuardRail) → IsGuardRail x → Lacks b'\n' (print_guard_rail x)
unfolding print_guard_rail
print_guard_rail-line x h = Lacks-join b',' b'\n' (guard_rail_columns x) refl (
    show_ℤ-line x.id h.0
    ◂ show_ℤ-line x.aid h.1
    ◂ show_ℤ-line x.type h.2
    ◂ show_ℤ-line x.linkid h.3
    ◂ tt)

-- updateGuardRail
abbrev pub update_guard_rail : List GuardRail → Map ℤ GuardRail
update_guard_rail = update_map (λ obj. obj.id)

pub record Wall : Type 0 where
  pub id : ℤ
  pub aid : ℤ
  pub linkid : ℤ

-- What operator<< puts between commas.
abbrev pub wall_columns : Wall → List Bytes
wall_columns obj = show_ℤ obj.id ∷ show_ℤ obj.aid ∷ show_ℤ obj.linkid ∷ []

unfoldable pub print_wall : Wall → Bytes
print_wall obj = join b',' (wall_columns obj)

unfoldable pub read_wall : Bytes → Option Wall
read_wall s =
    let cs = columns s in
    do
      id ← int_at 0 cs
      aid ← int_at 1 cs
      linkid ← int_at 2 cs
      some (record { id = id; aid = aid; linkid = linkid })

abbrev pub IsWall : Wall → Type 0
IsWall x = IsInt x.id × IsInt x.aid × IsInt x.linkid

pub read_wall-print : (x : Wall) → IsWall x → read_wall (print_wall x) ≡ some x
unfolding read_wall print_wall
read_wall-print x h =
    rw
      (
        split-join b',' (wall_columns x)
            (show_ℤ-IsPart x.id h.0 ◂ show_ℤ-IsPart x.aid h.1 ◂ show_ℤ-IsPart x.linkid h.2 ◂ tt),
        stoi-show_ℤ x.id h.0,
        stoi-show_ℤ x.aid h.1,
        stoi-show_ℤ x.linkid h.2,
      )
      refl

pub print_wall-line : (x : Wall) → IsWall x → Lacks b'\n' (print_wall x)
unfolding print_wall
print_wall-line x h =
    Lacks-join b',' b'\n' (wall_columns x) refl
      (show_ℤ-line x.id h.0 ◂ show_ℤ-line x.aid h.1 ◂ show_ℤ-line x.linkid h.2 ◂ tt)

-- updateWall
abbrev pub update_wall : List Wall → Map ℤ Wall
update_wall = update_map (λ obj. obj.id)

pub record Fence : Type 0 where
  pub id : ℤ
  pub aid : ℤ
  pub linkid : ℤ

-- What operator<< puts between commas.
abbrev pub fence_columns : Fence → List Bytes
fence_columns obj = show_ℤ obj.id ∷ show_ℤ obj.aid ∷ show_ℤ obj.linkid ∷ []

unfoldable pub print_fence : Fence → Bytes
print_fence obj = join b',' (fence_columns obj)

unfoldable pub read_fence : Bytes → Option Fence
read_fence s =
    let cs = columns s in
    do
      id ← int_at 0 cs
      aid ← int_at 1 cs
      linkid ← int_at 2 cs
      some (record { id = id; aid = aid; linkid = linkid })

abbrev pub IsFence : Fence → Type 0
IsFence x = IsInt x.id × IsInt x.aid × IsInt x.linkid

pub read_fence-print : (x : Fence) → IsFence x → read_fence (print_fence x) ≡ some x
unfolding read_fence print_fence
read_fence-print x h =
    rw
      (
        split-join b',' (fence_columns x)
            (show_ℤ-IsPart x.id h.0 ◂ show_ℤ-IsPart x.aid h.1 ◂ show_ℤ-IsPart x.linkid h.2 ◂ tt),
        stoi-show_ℤ x.id h.0,
        stoi-show_ℤ x.aid h.1,
        stoi-show_ℤ x.linkid h.2,
      )
      refl

pub print_fence-line : (x : Fence) → IsFence x → Lacks b'\n' (print_fence x)
unfolding print_fence
print_fence-line x h =
    Lacks-join b',' b'\n' (fence_columns x) refl
      (show_ℤ-line x.id h.0 ◂ show_ℤ-line x.aid h.1 ◂ show_ℤ-line x.linkid h.2 ◂ tt)

-- updateFence
abbrev pub update_fence : List Fence → Map ℤ Fence
update_fence = update_map (λ obj. obj.id)
