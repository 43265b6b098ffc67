-- ===== src/Health/Sorting.antt =====
-- The order of autoware_health_checker/src/health_checker/diag_buffer.cpp: stamps do not fall, and the
-- statuses are those that were there.
use autoware_ai_common.Base.{
  All, Bool, Bool-cases, [], arith, count_if, inl, inr, leb, refl, ℕ, ◌∷◌, ◌≡◌, ◌≤◌,
}
use autoware_ai_common.Messages.{DiagnosticStatus, DiagnosticStatusArray}
use autoware_ai_common.Health.DiagBuffer.{insert_by_stamp, sort_by_stamp}

-- No stamp is before a time.
abbrev pub AllFrom : ℕ → DiagnosticStatusArray → Type 0
AllFrom t xs = All (λ s. t ≤ s.stamp) xs

-- No stamp is before the stamp of an earlier place.
abbrev pub IsSorted : DiagnosticStatusArray → Type 0
IsSorted [] = Unit
IsSorted (s ∷ ss) = AllFrom s.stamp ss × IsSorted ss

AllFrom-le : (t u : ℕ) (xs : DiagnosticStatusArray) → u ≤ t → AllFrom t xs → AllFrom u xs
AllFrom-le t u [] o h = tt
AllFrom-le t u (x ∷ xs) o h = (omega (arith, o, h.0), AllFrom-le t u xs o h.1)

insert-AllFrom :
    (t : ℕ) (s : DiagnosticStatus) (xs : DiagnosticStatusArray)
    → t ≤ s.stamp
    → AllFrom t xs
    → AllFrom t (insert_by_stamp s xs)
unfolding insert_by_stamp
insert-AllFrom t s [] o h = (o, tt)
insert-AllFrom t s (x ∷ xs) o h = ground (arith, o, h, insert-AllFrom t s xs o h.1)

insert-IsSorted :
    (s : DiagnosticStatus) (xs : DiagnosticStatusArray)
    → IsSorted xs
    → IsSorted (insert_by_stamp s xs)
unfolding insert_by_stamp
insert-IsSorted s [] h = (tt, tt)
insert-IsSorted s (x ∷ xs) h = elim (Bool-cases (leb s.stamp x.stamp)) [
  | inl e ↦ rw e ((ground (arith, e), AllFrom-le x.stamp s.stamp xs (ground (arith, e)) h.0), h)
  | inr e ↦ rw e (insert-AllFrom x.stamp s xs (ground (arith, e)) h.0, insert-IsSorted s xs h.1)
]

pub sort-IsSorted : (xs : DiagnosticStatusArray) → IsSorted (sort_by_stamp xs)
unfolding sort_by_stamp
sort-IsSorted [] = tt
sort-IsSorted (x ∷ xs) = insert-IsSorted x (sort_by_stamp xs) (sort-IsSorted xs)

count_if-insert :
    (p : DiagnosticStatus → Bool) (s : DiagnosticStatus) (xs : DiagnosticStatusArray)
    → count_if p (insert_by_stamp s xs) ≡ count_if p (s ∷ xs)
unfolding insert_by_stamp
count_if-insert p s [] = refl
count_if-insert p s (x ∷ xs) = ground (arith, count_if-insert p s xs)

pub count_if-sort :
    (p : DiagnosticStatus → Bool) (xs : DiagnosticStatusArray)
    → count_if p (sort_by_stamp xs) ≡ count_if p xs
unfolding sort_by_stamp
count_if-sort p [] = refl
count_if-sort p (x ∷ xs) =
    ground (arith, count_if-insert p x (sort_by_stamp xs), count_if-sort p xs)
