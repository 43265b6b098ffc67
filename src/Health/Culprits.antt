-- ===== src/Health/Culprits.antt =====
-- Which nodes autoware_health_checker/src/health_analyzer/health_analyzer.cpp finds a warning or an error in.
use autoware_ai_common.Base.{
  Bool, List, String, [], any, ap, arith, count_if, count_if-append, if◌then◌else◌, not, refl, ℕ,
  ◌&&◌, ◌++◌, ◌==◌, ◌∙◌, ◌∷◌, ◌≡◌,
}
use autoware_ai_common.Messages.{
  DiagLevels, DiagnosticStatus, DiagnosticStatusArray, NodeStatus, SystemStatus,
}
use autoware_ai_common.Base.Text.{eq_iff, str_eq}
use autoware_ai_common.Health.Analyzer.{
  find_error_nodes, find_warning_nodes, is_already_exist, is_over_error, is_over_warn, scan_arrays,
  scan_nodes, scan_statuses,
}

pub any-count_if : {A : Type 0} (p : A → Bool) (xs : List A) → any p xs ≡ not (count_if p xs == 0)
any-count_if p [] = refl
any-count_if p (x ∷ xs) = ground (arith, any-count_if p xs)

-- What the number of a name becomes in loops that add it once, where a test says to.
abbrev counted : Bool → ℕ → ℕ
counted b n = if n == 0 then (if b then 1 else 0) else n

module _ (adds : String → DiagnosticStatus → Bool) (target : String) where
  abbrev occurrences : List String → ℕ
  occurrences = count_if (λ x. str_eq x target)

  count_if-scan_statuses :
      (name : String) (xs : DiagnosticStatusArray) (ret : List String)
      → occurrences (scan_statuses adds name xs ret)
        ≡ counted (str_eq name target && any (adds name) xs) (occurrences ret)
  unfolding scan_statuses
  count_if-scan_statuses name [] ret = ground arith
  count_if-scan_statuses name (s ∷ xs) ret = ground (
    arith,
    eq_iff name target,
    any-count_if (λ x. str_eq x name) ret,
    count_if-append (λ x. str_eq x target) ret (name ∷ []),
    count_if-scan_statuses name xs ret,
    count_if-scan_statuses name xs (ret ++ name ∷ []),
  )

  count_if-scan_arrays :
      (name : String) (arrays : List DiagnosticStatusArray) (ret : List String)
      → occurrences (scan_arrays adds name arrays ret)
        ≡ counted (str_eq name target && any (any (adds name)) arrays) (occurrences ret)
  unfolding scan_arrays
  count_if-scan_arrays name [] ret = ground arith
  count_if-scan_arrays name (xs ∷ arrays) ret = ground (
    arith,
    count_if-scan_statuses name xs ret,
    count_if-scan_arrays name arrays (scan_statuses adds name xs ret),
  )

  abbrev is_culprit : NodeStatus → Bool
  is_culprit node = str_eq node.node_name target && any (any (adds node.node_name)) node.status

  count_if-scan_nodes :
      (nodes : List NodeStatus) (ret : List String)
      → occurrences (scan_nodes adds nodes ret) ≡ counted (any is_culprit nodes) (occurrences ret)
  unfolding scan_nodes
  count_if-scan_nodes [] ret = ground arith
  count_if-scan_nodes (node ∷ nodes) ret = ground (
    arith,
    count_if-scan_arrays node.node_name node.status ret,
    count_if-scan_nodes nodes (scan_arrays adds node.node_name node.status ret),
  )

-- A name is once among the warning nodes if a node of that name has a status of level WARN, ERROR or
-- FATAL, and is not there otherwise.
pub count_if-find_warning_nodes :
    (lv : DiagLevels) (s : SystemStatus) (target : String)
    → count_if (λ x. str_eq x target) (find_warning_nodes lv s) ≡ (
        if any
          (λ node.
            str_eq node.node_name target && any (any (λ x. is_over_warn lv x.level)) node.status)
          s.node_status
        then 1
        else 0)
unfolding find_warning_nodes
count_if-find_warning_nodes lv s target =
    count_if-scan_nodes (λ name x. is_over_warn lv x.level) target s.node_status []

any-and :
    {A : Type 0} (p : A → Bool) (b : Bool) (xs : List A) → any (λ x. p x && b) xs ≡ (any p xs && b)
any-and p b [] = refl
any-and p b (x ∷ xs) = ground (arith, any-and p b xs)

nested_any-and :
    (p : DiagnosticStatus → Bool) (b : Bool) (arrays : List DiagnosticStatusArray)
    → any (any (λ x. p x && b)) arrays ≡ (any (any p) arrays && b)
nested_any-and p b [] = refl
nested_any-and p b (xs ∷ arrays) = ground (arith, any-and p b xs, nested_any-and p b arrays)

-- A condition on the name is the same for all nodes of that name.
any-available :
    (p : DiagnosticStatus → Bool) (available : String → Bool) (target : String)
    (nodes : List NodeStatus)
    → any (is_culprit (λ name x. p x && available name) target) nodes ≡ (
        available target
        && any (λ node. str_eq node.node_name target && any (any p) node.status) nodes)
any-available p available target [] = ground arith
any-available p available target (node ∷ nodes) = ground (
  arith,
  nested_any-and p (available node.node_name) node.status,
  eq_iff node.node_name target,
  ap available,
  any-available p available target nodes,
)

-- A name is once among the error nodes if it is among the available nodes and a node of that name has a
-- status of level ERROR or FATAL, and is not there otherwise.
pub count_if-find_error_nodes :
    (lv : DiagLevels) (s : SystemStatus) (target : String)
    → count_if (λ x. str_eq x target) (find_error_nodes lv s) ≡ (
        if is_already_exist s.available_nodes target
          && any
              (λ node.
                str_eq node.node_name target
                && any (any (λ x. is_over_error lv x.level)) node.status)
              s.node_status
        then 1
        else 0)
unfolding find_error_nodes
count_if-find_error_nodes lv s target =
    count_if-scan_nodes
      (λ name x. is_over_error lv x.level && is_already_exist s.available_nodes name) target
      s.node_status []
    ∙ ap (λ b. counted b 0)
        (any-available (λ x. is_over_error lv x.level) (is_already_exist s.available_nodes) target
          s.node_status)
