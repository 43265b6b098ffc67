-- ===== src/Emergency/Verdicts.antt =====
-- What the checks of emergency_handler/lib/libsystem_status_filter.cpp find, against a description of
-- the status that does not mention them: the statuses of a high level, in an activated node or in the
-- hardware, in the order of the message.
use autoware_ai_common.Base.{
  Bool, Bool-cases, List, [], ap, arith, false, if◌then◌else◌, inl, inr, keep, leb, not, null, refl,
  subst, sym, true, ℕ, ◌&&◌, ◌++◌, ◌||◌, ◌∙◌, ◌∷◌, ◌≡◌,
}
use autoware_ai_common.Messages.{
  DiagnosticStatus, DiagnosticStatusArray, HardwareStatus, NodeStatus,
}
use autoware_ai_common.Emergency.Factors.{FactorStatusArray, IsFactors, add, add-IsFactors}
use autoware_ai_common.Emergency.Filter.{
  Calc, StatusType, calc_all, calc_array, calc_diag, calc_hardware, calc_node,
  check_all_hardware_simply, check_all_node_simply, check_from, error, is_error, max_type,
  none_found, not_ready, ok,
}

abbrev pub is_bad : ℕ → DiagnosticStatus → Bool
is_bad level_th s = leb level_th s.level

abbrev pub add_all : List DiagnosticStatus → FactorStatusArray → FactorStatusArray
add_all [] f = f
add_all (s ∷ ss) f = add_all ss (add s f)

-- The statuses that each element has, one after the other.
unfoldable pub gather : {A : Type 0} → (A → List DiagnosticStatus) → List A → List DiagnosticStatus
gather g [] = []
gather g (x ∷ xs) = g x ++ gather g xs

abbrev pub bad_in : ℕ → DiagnosticStatusArray → List DiagnosticStatus
bad_in level_th xs = keep (is_bad level_th) xs

abbrev pub bad_in_node : ℕ → NodeStatus → List DiagnosticStatus
bad_in_node level_th n = if n.node_activated then gather (bad_in level_th) n.status else []

-- The bad statuses of all nodes.
abbrev pub bad_in_nodes : ℕ → List NodeStatus → List DiagnosticStatus
bad_in_nodes level_th nodes = gather (bad_in_node level_th) nodes

abbrev pub bad_in_hardware : ℕ → List HardwareStatus → List DiagnosticStatus
bad_in_hardware level_th hw = gather (λ h. gather (bad_in level_th) h.status) hw

pub add_all-append :
    (xs ys : List DiagnosticStatus) (f : FactorStatusArray)
    → add_all (xs ++ ys) f ≡ add_all ys (add_all xs f)
add_all-append [] ys f = refl
add_all-append (x ∷ xs) ys f = add_all-append xs ys (add x f)

pub null-append : (xs ys : List DiagnosticStatus) → null (xs ++ ys) ≡ (null xs && null ys)
null-append [] ys = refl
null-append (x ∷ xs) ys = refl

-- A list of finds is empty when each of them is.
pub null-gather-append :
    {A : Type 0} (g : A → List DiagnosticStatus) (xs ys : List A)
    → null (gather g (xs ++ ys)) ≡ (null (gather g xs) && null (gather g ys))
unfolding gather
null-gather-append g [] ys = refl
null-gather-append g (x ∷ xs) ys = ground (
  arith,
  null-append (g x) (gather g (xs ++ ys)),
  null-append (g x) (gather g xs),
  null-gather-append g xs ys,
)

-- A calculation adds these statuses, and is an error when there are any.
abbrev Finds : Calc → List DiagnosticStatus → Type 0
Finds calc ss =
    (f : FactorStatusArray) → ((calc f).1 ≡ add_all ss f) × (is_error (calc f).0 ≡ not (null ss))

is_error-max : (a b : StatusType) → is_error (max_type a b) ≡ (is_error a || is_error b)
is_error-max none_found none_found = refl
is_error-max none_found not_ready = refl
is_error-max none_found ok = refl
is_error-max none_found error = refl
is_error-max not_ready none_found = refl
is_error-max not_ready not_ready = refl
is_error-max not_ready ok = refl
is_error-max not_ready error = refl
is_error-max ok none_found = refl
is_error-max ok not_ready = refl
is_error-max ok ok = refl
is_error-max ok error = refl
is_error-max error none_found = refl
is_error-max error not_ready = refl
is_error-max error ok = refl
is_error-max error error = refl

module _ {A : Type 0} (calc : A → Calc) (g : A → List DiagnosticStatus)
    (finds : (x : A) → Finds (calc x) (g x)) where
  calc_all-factors :
      (xs : List A) (type : StatusType) (f : FactorStatusArray)
      → (calc_all calc xs type f).1 ≡ add_all (gather g xs) f
  unfolding calc_all gather
  calc_all-factors [] type f = refl
  calc_all-factors (x ∷ xs) type f =
      calc_all-factors xs (max_type (calc x f).0 type) (calc x f).1
      ∙ ap (add_all (gather g xs)) (finds x f).0
      ∙ sym (add_all-append (g x) (gather g xs) f)

  calc_all-error :
      (xs : List A) (type : StatusType) (f : FactorStatusArray)
      → is_error (calc_all calc xs type f).0 ≡ (is_error type || not (null (gather g xs)))
  unfolding calc_all gather
  calc_all-error [] type f = ground arith
  calc_all-error (x ∷ xs) type f = ground (
    arith,
    calc_all-error xs (max_type (calc x f).0 type) (calc x f).1,
    is_error-max (calc x f).0 type,
    (finds x f).1,
    null-append (g x) (gather g xs),
  )

  calc_all-Finds : (xs : List A) → Finds (calc_all calc xs ok) (gather g xs)
  calc_all-Finds xs f = (calc_all-factors xs ok f, calc_all-error xs ok f)

  check_from-factors :
      (xs : List A) (is_ok : Bool) (f : FactorStatusArray)
      → (check_from calc xs is_ok f).1 ≡ add_all (gather g xs) f
  unfolding check_from gather
  check_from-factors [] is_ok f = refl
  check_from-factors (x ∷ xs) is_ok f =
      check_from-factors xs (if is_error (calc x f).0 then false else is_ok) (calc x f).1
      ∙ ap (add_all (gather g xs)) (finds x f).0
      ∙ sym (add_all-append (g x) (gather g xs) f)

  check_from-verdict :
      (xs : List A) (is_ok : Bool) (f : FactorStatusArray)
      → (check_from calc xs is_ok f).0 ≡ (is_ok && null (gather g xs))
  unfolding check_from gather
  check_from-verdict [] is_ok f = ground arith
  check_from-verdict (x ∷ xs) is_ok f = ground (
    arith,
    check_from-verdict xs (if is_error (calc x f).0 then false else is_ok) (calc x f).1,
    (finds x f).1,
    null-append (g x) (gather g xs),
  )

-- A status that is bad, alone.
abbrev bad_status : ℕ → DiagnosticStatus → List DiagnosticStatus
bad_status level_th s = if is_bad level_th s then s ∷ [] else []

calc_diag-Finds :
    (level_th : ℕ) (s : DiagnosticStatus) → Finds (calc_diag level_th s) (bad_status level_th s)
unfolding calc_diag
calc_diag-Finds level_th s f = elim (Bool-cases (leb level_th s.level)) [
  | inl h ↦ rw h (refl, refl)
  | inr h ↦ rw h (refl, refl)
]

gather-bad_status :
    (level_th : ℕ) (xs : DiagnosticStatusArray)
    → gather (bad_status level_th) xs ≡ bad_in level_th xs
unfolding gather
gather-bad_status level_th [] = refl
gather-bad_status level_th (x ∷ xs) = ground (arith, gather-bad_status level_th xs)

calc_array-Finds :
    (level_th : ℕ) (xs : DiagnosticStatusArray)
    → Finds (calc_array level_th xs) (bad_in level_th xs)
unfolding calc_array
calc_array-Finds level_th xs =
    subst (Finds (calc_all (calc_diag level_th) xs ok)) (gather-bad_status level_th xs)
      (calc_all-Finds (calc_diag level_th) (bad_status level_th) (calc_diag-Finds level_th) xs)

calc_hardware-Finds :
    (level_th : ℕ) (h : HardwareStatus)
    → Finds (calc_hardware level_th h) (gather (bad_in level_th) h.status)
unfolding calc_hardware
calc_hardware-Finds level_th h =
    calc_all-Finds (calc_array level_th) (bad_in level_th) (calc_array-Finds level_th) h.status

calc_node-Finds :
    (level_th : ℕ) (n : NodeStatus) → Finds (calc_node level_th n) (bad_in_node level_th n)
unfolding calc_node
calc_node-Finds level_th n f = elim (Bool-cases n.node_activated) [
  | inl h ↦ rw h (
      calc_all-Finds (calc_array level_th) (bad_in level_th) (calc_array-Finds level_th) n.status f)
  | inr h ↦ rw h (refl, refl)
]

-- checkAllNodeSimply passes the nodes exactly when no activated node has a status of the level or
-- worse, and adds to the factors exactly those statuses, in their order.
pub check_all_node_simply-finds :
    (level_th : ℕ) (nodes : List NodeStatus) (f : FactorStatusArray)
    → check_all_node_simply level_th nodes f
      ≡ (null (bad_in_nodes level_th nodes), add_all (bad_in_nodes level_th nodes) f)
unfolding check_all_node_simply
check_all_node_simply-finds level_th nodes f =
    let finds = calc_node-Finds level_th in
    λ i. (
      check_from-verdict (calc_node level_th) (bad_in_node level_th) finds nodes true f i,
      check_from-factors (calc_node level_th) (bad_in_node level_th) finds nodes true f i,
    )

-- checkAllHardwareSimply passes the hardware exactly when no status is of the level or worse, and adds
-- to the factors exactly those statuses, in their order.
pub check_all_hardware_simply-finds :
    (level_th : ℕ) (hw : List HardwareStatus) (f : FactorStatusArray)
    → check_all_hardware_simply level_th hw f
      ≡ (null (bad_in_hardware level_th hw), add_all (bad_in_hardware level_th hw) f)
unfolding check_all_hardware_simply
check_all_hardware_simply-finds level_th hw f =
    let g : HardwareStatus → List DiagnosticStatus = λ h. gather (bad_in level_th) h.status in
    let finds = calc_hardware-Finds level_th in
    λ i. (
      check_from-verdict (calc_hardware level_th) g finds hw true f i,
      check_from-factors (calc_hardware level_th) g finds hw true f i,
    )

-- Adding keeps one entry for each key.
pub add_all-IsFactors :
    (ss : List DiagnosticStatus) (f : FactorStatusArray) → IsFactors f → IsFactors (add_all ss f)
add_all-IsFactors [] f v = v
add_all-IsFactors (s ∷ ss) f v = add_all-IsFactors ss (add s f) (add-IsFactors s f v)
