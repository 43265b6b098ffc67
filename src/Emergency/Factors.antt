-- ===== src/Emergency/Factors.antt =====
-- emergency_handler/lib/libsystem_status_filter.cpp: the statuses that caused an emergency, one for
-- each key. A set of strings is a map to nothing.
use autoware_ai_common.Base.{
  Bool, Bool-cases, String, [], any, any-append, arith, false, find_if, if◌then◌else◌, inl, inr,
  is_some, refl, some, suc, sym, true, ℕ, ◌++◌, ◌+◌, ◌||◌, ◌∙◌, ◌∷◌, ◌≡◌, ◌≤◌,
}
use autoware_ai_common.Base.Map.{Map, emplace, lookup, lookup-emplace}
use autoware_ai_common.Base.Text.{eq_iff, str_eq, string_key}
use autoware_ai_common.Messages.{DiagnosticStatus, DiagnosticStatusArray}

pub record FactorStatusArray : Type 0 where
  pub keyset : Map String (Unit {0})
  pub dataset : DiagnosticStatusArray

abbrev pub no_factors : FactorStatusArray
no_factors = record { keyset = []; dataset = [] }

abbrev pub has_key : String → DiagnosticStatus → Bool
has_key k s = str_eq s.key k

-- *found = status, at the first entry with its key
unfoldable pub overwrite : DiagnosticStatus → DiagnosticStatusArray → DiagnosticStatusArray
overwrite s [] = []
overwrite s (x ∷ xs) = if has_key s.key x then s ∷ xs else x ∷ overwrite s xs

unfoldable pub insert_new : DiagnosticStatus → FactorStatusArray → FactorStatusArray
insert_new s f = record { keyset = emplace s.key tt f.keyset; dataset = f.dataset ++ s ∷ [] }

-- FactorStatusArray::add
unfoldable pub add : DiagnosticStatus → FactorStatusArray → FactorStatusArray
unfolding insert_new overwrite
add s f =
    if is_some (lookup s.key f.keyset)
    then (if any (has_key s.key) f.dataset
        then record f { dataset = overwrite s f.dataset }
        else insert_new s f)
    else insert_new s f

-- FactorStatusArray::reset
unfoldable pub reset : FactorStatusArray → FactorStatusArray
reset f = record { keyset = []; dataset = [] }

-- The number of entries with a key.
abbrev pub number_of : String → DiagnosticStatusArray → ℕ
number_of k [] = 0
number_of k (x ∷ xs) = if has_key k x then suc (number_of k xs) else number_of k xs

-- The keys in the set are those of the data, and no two entries of the data have one key.
pub record IsFactors (f : FactorStatusArray) : Type 0 where
  pub indexed : (k : String) → is_some (lookup k f.keyset) ≡ any (has_key k) f.dataset
  pub single : (k : String) → number_of k f.dataset ≤ 1

pub IsFactors-no_factors : IsFactors no_factors
unfolding lookup
IsFactors-no_factors = record { indexed = λ k. refl; single = λ k. omega arith }

any-overwrite :
    (k : String) (s : DiagnosticStatus) (xs : DiagnosticStatusArray)
    → any (has_key s.key) xs ≡ true
    → any (has_key k) (overwrite s xs) ≡ any (has_key k) xs
unfolding overwrite
any-overwrite k s [] h = refl
any-overwrite k s (x ∷ xs) h =
    ground (arith, any-overwrite k s xs, eq_iff x.key s.key, eq_iff s.key k, eq_iff x.key k)

number_of-overwrite :
    (k : String) (s : DiagnosticStatus) (xs : DiagnosticStatusArray)
    → number_of k (overwrite s xs) ≡ number_of k xs
unfolding overwrite
number_of-overwrite k s [] = refl
number_of-overwrite k s (x ∷ xs) =
    ground (arith, number_of-overwrite k s xs, eq_iff x.key s.key, eq_iff s.key k, eq_iff x.key k)

number_of-append :
    (k : String) (xs ys : DiagnosticStatusArray)
    → number_of k (xs ++ ys) ≡ number_of k xs + number_of k ys
number_of-append k [] ys = omega arith
number_of-append k (x ∷ xs) ys = ground (arith, number_of-append k xs ys)

number_of-none :
    (k : String) (xs : DiagnosticStatusArray) → any (has_key k) xs ≡ false → number_of k xs ≡ 0
number_of-none k [] h = refl
number_of-none k (x ∷ xs) h = ground (arith, number_of-none k xs)

find-overwrite :
    (k : String) (s : DiagnosticStatus) (xs : DiagnosticStatusArray)
    → any (has_key s.key) xs ≡ true
    → find_if (has_key k) (overwrite s xs)
      ≡ (if str_eq s.key k then some s else find_if (has_key k) xs)
unfolding overwrite
find-overwrite k s [] h = absurd (cc h)
find-overwrite k s (x ∷ xs) h =
    ground (arith, find-overwrite k s xs, eq_iff x.key s.key, eq_iff s.key k, eq_iff x.key k)

find-append :
    (k : String) (s : DiagnosticStatus) (xs : DiagnosticStatusArray)
    → any (has_key s.key) xs ≡ false
    → find_if (has_key k) (xs ++ s ∷ [])
      ≡ (if str_eq s.key k then some s else find_if (has_key k) xs)
find-append k s [] h = refl
find-append k s (x ∷ xs) h =
    ground (arith, find-append k s xs, eq_iff x.key s.key, eq_iff s.key k, eq_iff x.key k)

-- After `add` the entry of each key is the status added last for it.
pub find-add :
    (k : String) (s : DiagnosticStatus) (f : FactorStatusArray)
    → IsFactors f
    → find_if (has_key k) (add s f).dataset
      ≡ (if str_eq s.key k then some s else find_if (has_key k) f.dataset)
unfolding add
find-add k s f v = elim (Bool-cases (any (has_key s.key) f.dataset)) [
  | inl old ↦ rw (v.indexed s.key, old) (find-overwrite k s f.dataset old)
  | inr new ↦ rw (v.indexed s.key, new) (find-append k s f.dataset new)
]

keyset-insert_new :
    (k : String) (s : DiagnosticStatus) (f : FactorStatusArray)
    → is_some (lookup k (insert_new s f).keyset) ≡ (is_some (lookup k f.keyset) || str_eq s.key k)
unfolding insert_new
keyset-insert_new k s f = rw lookup-emplace (ground (arith, eq_iff s.key k))

-- `add` keeps one entry for each key, and the set of keys in step with the data.
pub add-IsFactors :
    (s : DiagnosticStatus) (f : FactorStatusArray) → IsFactors f → IsFactors (add s f)
unfolding add
add-IsFactors s f v = elim (Bool-cases (any (has_key s.key) f.dataset)) [
  | inl old ↦
      rw (v.indexed s.key, old)
        (record {
          indexed = λ k. v.indexed k ∙ sym (any-overwrite k s f.dataset old);
          single = λ k. rw (number_of-overwrite k s f.dataset) (v.single k);
        })
  | inr new ↦
      rw (v.indexed s.key, new)
        (record {
          indexed = λ k. keyset-insert_new k s f ∙ rw (v.indexed k, any-append) (ground arith);
          single = λ k. ground (
            arith,
            number_of-append k f.dataset (s ∷ []),
            number_of-none k f.dataset,
            eq_iff s.key k,
            v.single k,
            new,
          );
        })
]
