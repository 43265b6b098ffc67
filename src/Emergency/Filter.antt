-- ===== src/Emergency/Filter.antt =====
-- emergency_handler/lib/libsystem_status_filter.cpp and src/system_status_filter.cpp: how bad the
-- system status is. The static factor array is passed along; the lock around it is not modelled.
use autoware_ai_common.Base.{
  Bool, List, String, [], false, find_if, if◌then◌else◌, leb, ltb, none, not, some, true, ℕ, ◌∷◌,
}
use autoware_ai_common.Base.Text.{str_eq}
use autoware_ai_common.Messages.{
  DiagnosticStatus, DiagnosticStatusArray, HardwareStatus, NodeStatus,
}
use autoware_ai_common.Emergency.Factors.{FactorStatusArray, add}

pub data StatusType : Type 0 where
  none_found not_ready ok error : StatusType

abbrev pub rank : StatusType → ℕ
rank none_found = 0
rank not_ready = 1
rank ok = 2
rank error = 3

-- std::max(a, b)
abbrev pub max_type : StatusType → StatusType → StatusType
max_type a b = if ltb (rank a) (rank b) then b else a

-- A calculation that may add factors.
abbrev pub Calc : Type 0
Calc = FactorStatusArray → StatusType × FactorStatusArray

-- calcStatus of one diagnostic status
unfoldable pub calc_diag : ℕ → DiagnosticStatus → Calc
calc_diag level_th s f = if leb level_th s.level then (error, add s f) else (ok, f)

-- `type = std::max(calcStatus(x), type)`, over a sequence
unfoldable pub calc_all : {A : Type 0} → (A → Calc) → List A → StatusType → Calc
calc_all calc [] type f = (type, f)
calc_all calc (x ∷ xs) type f = let (t, f') = calc x f in calc_all calc xs (max_type t type) f'

-- calcStatus of a DiagnosticStatusArray
unfoldable pub calc_array : ℕ → DiagnosticStatusArray → Calc
unfolding calc_all calc_diag
calc_array level_th xs f = calc_all (calc_diag level_th) xs ok f

-- calcStatus of a HardwareStatus
unfoldable pub calc_hardware : ℕ → HardwareStatus → Calc
unfolding calc_array
calc_hardware level_th h f = calc_all (calc_array level_th) h.status ok f

-- calcStatus of a NodeStatus
unfoldable pub calc_node : ℕ → NodeStatus → Calc
unfolding calc_array
calc_node level_th n f =
    if not n.node_activated then (not_ready, f) else calc_all (calc_array level_th) n.status ok f

-- calcStatus of the node with a name
unfoldable pub calc_named : ℕ → String → List NodeStatus → Calc
unfolding calc_node
calc_named level_th name nodes f = elim (find_if (λ n. str_eq n.node_name name) nodes) [
  | none ↦ (none_found, f)
  | some n ↦ calc_node level_th n f
]

abbrev pub is_error : StatusType → Bool
is_error error = true
is_error _ = false

-- The loop of checkAllSimply.
unfoldable pub check_from :
    {A : Type 0} → (A → Calc) → List A → Bool → FactorStatusArray → Bool × FactorStatusArray
check_from calc [] is_ok f = (is_ok, f)
check_from calc (x ∷ xs) is_ok f =
    let (t, f') = calc x f in check_from calc xs (if is_error t then false else is_ok) f'

unfoldable pub check_all_node_simply :
    ℕ → List NodeStatus → FactorStatusArray → Bool × FactorStatusArray
unfolding check_from calc_node
check_all_node_simply level_th nodes f = check_from (calc_node level_th) nodes true f

unfoldable pub check_all_hardware_simply :
    ℕ → List HardwareStatus → FactorStatusArray → Bool × FactorStatusArray
unfolding check_from calc_hardware
check_all_hardware_simply level_th hw f = check_from (calc_hardware level_th) hw true f
