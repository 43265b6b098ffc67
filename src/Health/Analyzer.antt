-- ===== src/Health/Analyzer.antt =====
-- autoware_health_checker/src/health_analyzer/health_analyzer.cpp: the nodes with a warning or an error.
use autoware_ai_common.Base.{
  Bool, List, String, [], any, if◌then◌else◌, ℕ, ◌&&◌, ◌++◌, ◌==◌, ◌||◌, ◌∷◌,
}
use autoware_ai_common.Messages.{
  DiagLevels, DiagnosticStatus, DiagnosticStatusArray, NodeStatus, SystemStatus,
}
use autoware_ai_common.Base.Text.{str_eq}

-- isAlreadyExist
abbrev pub is_already_exist : List String → String → Bool
is_already_exist xs target = any (λ x. str_eq x target) xs

abbrev pub is_over_warn : DiagLevels → ℕ → Bool
is_over_warn lv level = level == lv.warn || (level == lv.error || level == lv.fatal)

abbrev pub is_over_error : DiagLevels → ℕ → Bool
is_over_error lv level = level == lv.error || level == lv.fatal

-- The loops of findWarningNodes and findErrorNodes, with the test that adds a node that is not there.
module _ (adds : String → DiagnosticStatus → Bool) where
  unfoldable pub scan_statuses : String → DiagnosticStatusArray → List String → List String
  scan_statuses name [] ret = ret
  scan_statuses name (s ∷ xs) ret =
      scan_statuses name xs
        (if is_already_exist ret name then ret else if adds name s then ret ++ name ∷ [] else ret)

  unfoldable pub scan_arrays : String → List DiagnosticStatusArray → List String → List String
  unfolding scan_statuses
  scan_arrays name [] ret = ret
  scan_arrays name (xs ∷ arrays) ret = scan_arrays name arrays (scan_statuses name xs ret)

  unfoldable pub scan_nodes : List NodeStatus → List String → List String
  unfolding scan_arrays
  scan_nodes [] ret = ret
  scan_nodes (node ∷ nodes) ret = scan_nodes nodes (scan_arrays node.node_name node.status ret)

-- findWarningNodes
unfoldable pub find_warning_nodes : DiagLevels → SystemStatus → List String
unfolding scan_nodes
find_warning_nodes lv s = scan_nodes (λ name x. is_over_warn lv x.level) s.node_status []

-- findErrorNodes
unfoldable pub find_error_nodes : DiagLevels → SystemStatus → List String
unfolding scan_nodes
find_error_nodes lv s =
    scan_nodes (λ name x. is_over_error lv x.level && is_already_exist s.available_nodes name)
      s.node_status []
