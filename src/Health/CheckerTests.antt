-- ===== src/Health/CheckerTests.antt =====
-- Runs of the health checker's model on small inputs.
use autoware_ai_common.Base.{
  Bool, List, String, [], ap, arith, count_if, false, if◌then◌else◌, is_some, ltb, none, not, refl,
  some, true, ℕ, ◌&&◌, ◌+◌, ◌||◌, ◌∷◌, ◌≡◌,
}
use autoware_ai_common.Messages.{
  DiagnosticStatus, DiagnosticStatusArray, sample_levels, sample_levels-IsRising, sample_types,
}
use autoware_ai_common.Health.RateChecker.{
  RateEvent, asked, called, get_rate, is_recent, new_checker, nsec_of, rate_history, rate_of,
}
use autoware_ai_common.Health.Rates.{calls_of, get_rate-history}
use autoware_ai_common.Health.Window.{get_and_clear_data-window, statuses_of}
use autoware_ai_common.Health.Sorting.{IsSorted}
use autoware_ai_common.Health.DiagBuffer.{
  DiagBuffer, add_all_diags, buffer_duration_nsec, get_and_clear_data, is_fresh, new_buffer,
}
use autoware_ai_common.Health.Values.{get_value, is_not_found, summary_key}
use autoware_ai_common.Health.Checker.{
  HealthChecker, Thresholds, add_rate_checker, check_min_value, check_range, check_rate, count_rate,
  key_exist, set_thresholds, set_value_common, with_candidate,
}
use autoware_ai_common.Health.Checks.{
  check_min_value-Recorded, check_range-Recorded, checked_status, level_from, range_level,
}
use autoware_ai_common.Health.Thresholds.{IsNumeric, threshold}
use autoware_ai_common.Health.Faults.{IsChecker, check_rate-fault}
use autoware_ai_common.Health.Separate.{IsSeparate}
use autoware_ai_common.Health.Total.{operate_all-Runs}
use autoware_ai_common.Health.Operations.{Operation, min_value, operate_all, rate, round}
use autoware_ai_common.Base.Map.{lookup}
use autoware_ai_common.Base.Double.{int_double}
use autoware_ai_common.Base.Text.{eq_iff, string_key}
use autoware_ai_common.Base.Int.{ltb_ℤ, pos, ℤ}
use autoware_ai_common.Health.Results.{failed, fault_of, null_pointer, out_of_range, returned}
use autoware_ai_common.Health.Missing.{is_rated}
use autoware_ai_common.Health.Recording.{Recorded}

abbrev status : ℕ → ℕ → DiagnosticStatus
status t level = record (set_value_common t "rate" "" "") { type = 1; level = level }

abbrev additions : List (ℕ × DiagnosticStatus)
additions =
    (100, status 100 3) ∷ (600000000, status 600000000 2) ∷ (600000500, status 600000400 4) ∷ []

get_and_clear_data-window_example :
    (r : DiagnosticStatusArray) × (b : DiagBuffer) × (get_and_clear_data sample_levels 600001000
        (add_all_diags sample_levels additions (new_buffer "rate" 1 "" 500000000))
      ≡ some (r, b))
    × IsSorted r
    × ((q : DiagnosticStatus → Bool)
        → count_if q r
          ≡ count_if (λ s. q s && is_fresh 500000000 600001000 s) (statuses_of additions))
    × (b.buffer ≡ [])
get_and_clear_data-window_example =
    get_and_clear_data-window sample_levels 600001000 additions "rate" 1 "" 500000000
      sample_levels-IsRising (ground arith)

abbrev calls : List (ℕ × RateEvent ℤ)
calls = (1000, called) ∷ (2000000, asked) ∷ (1500000000, called) ∷ []

get_rate-history_example :
    (get_rate 1600000000
      (rate_history sample_levels calls (new_checker 0 500 (pos 10000) (pos 5000) (pos 1000) ""))).0
    ≡ (if ltb 1600000000 (0 + nsec_of 500)
        then none
        else some (rate_of (count_if (is_recent 500 1600000000) (calls_of calls)) 500))
get_rate-history_example =
    get_rate-history sample_levels 0 1600000000 500 (pos 10000) (pos 5000) (pos 1000) "" calls
      (ground arith)

-- A node whose parameter has a reference for the key "speed".
abbrev node : HealthChecker ℤ
node = record {
  values = record {
    cached_candidate_key = [];
    previous_keys = [];
    params = some (("speed", ("min", ("warn", some (pos 3)) ∷ []) ∷ []) ∷ ("camera", []) ∷ []);
    error_details = [];
  };
  diag_buffers = [];
  rate_checkers = [];
  node_activated = true;
}

abbrev limits : Thresholds ℤ
limits = record { warn_value = pos 30; error_value = pos 20; fatal_value = pos 10 }

abbrev no_text : ℤ → String
no_text x = ""

listed : is_not_found "speed" node.values ≡ false
unfolding lookup
listed = refl

none-IsChecker : (c : HealthChecker ℤ) → c.rate_checkers ≡ [] → IsChecker sample_levels c
unfolding lookup
none-IsChecker c e = record {
  detailed = λ key h. absurd (cc (ap (λ m. is_some (lookup key m)) e, h));
}

node-IsNumeric : (key : String) → IsNumeric key node.values.params
unfolding lookup
node-IsNumeric key thresh_type name =
    ground (arith, eq_iff key "speed", eq_iff thresh_type "min", eq_iff name "warn")

node-IsSeparate : (rate_key : String → Bool) → IsSeparate rate_key sample_levels node
unfolding lookup
node-IsSeparate rate_key = record {
  checker = none-IsChecker node refl;
  split = λ key p h. absurd (ground (arith, h));
  numeric = node-IsNumeric;
}

check_range-Recorded_example :
    (c' : HealthChecker ℤ) × (check_range sample_levels sample_types no_text 5 "speed"
        (pos 2)
        limits
        limits
        ""
        node
      ≡ returned
          (range_level sample_levels sample_types "speed" limits limits (pos 2) node.values, c'))
    × Recorded sample_levels 5
        (checked_status sample_types 5 "speed" "" ""
          (range_level sample_levels sample_types "speed" limits limits (pos 2) node.values))
        (set_thresholds sample_levels "speed" "max" limits
          (set_thresholds sample_levels "speed" "min" limits (with_candidate "speed" node)))
        c'
check_range-Recorded_example =
    check_range-Recorded sample_levels sample_types no_text 5 "speed" (pos 2) limits limits "" node
      sample_levels-IsRising listed (node-IsNumeric "speed")

check_min_value-Recorded_example :
    (c' : HealthChecker ℤ) × (check_min_value sample_levels sample_types no_text 5 "speed"
        (pos 15)
        limits
        ""
        node
      ≡ returned (
        level_from sample_levels
            (ltb_ℤ (pos 15) (threshold "speed" "min" "fatal" (pos 10) node.values))
            (ltb_ℤ (pos 15) (threshold "speed" "min" "error" (pos 20) node.values))
            (ltb_ℤ (pos 15) (threshold "speed" "min" "warn" (pos 30) node.values)),
        c',
      ))
    × Recorded sample_levels 5
        (checked_status sample_types 5 "speed" "" "" (
          level_from sample_levels
            (ltb_ℤ (pos 15) (threshold "speed" "min" "fatal" (pos 10) node.values))
            (ltb_ℤ (pos 15) (threshold "speed" "min" "error" (pos 20) node.values))
            (ltb_ℤ (pos 15) (threshold "speed" "min" "warn" (pos 30) node.values))))
        (set_thresholds sample_levels "speed" "min" limits (with_candidate "speed" node))
        c'
check_min_value-Recorded_example =
    check_min_value-Recorded sample_levels sample_types no_text 5 "speed" (pos 15) limits "" node
      sample_levels-IsRising listed (node-IsNumeric "speed")

-- A check of "speed" came first, and CHECK_RATE has the same key.
abbrev checked_node : HealthChecker ℤ
checked_node = record node {
  diag_buffers = ("speed", new_buffer "speed" 3 "" buffer_duration_nsec) ∷ [];
}

check_rate-fault_example :
    fault_of (check_rate sample_levels sample_types 5 "speed" limits "" checked_node) ≡ (
      if is_not_found "speed" checked_node.values || not (key_exist "speed" checked_node)
      then none
      else if is_some (lookup "speed" checked_node.rate_checkers)
      then none
      else if is_rated sample_levels "speed" checked_node.values
      then some null_pointer
      else some out_of_range)
check_rate-fault_example =
    check_rate-fault sample_levels sample_types 5 "speed" limits "" checked_node
      sample_levels-IsRising (none-IsChecker checked_node refl) (node-IsNumeric "speed")

no_threshold :
    check_rate sample_levels sample_types 5 "speed" limits "" checked_node ≡ failed out_of_range
unfolding check_rate count_rate add_rate_checker lookup get_value
no_threshold = refl

-- The same where the server has the thresholds of the rate.
abbrev served_node : HealthChecker ℤ
served_node = record checked_node {
  values = record node.values {
    params = some (
        (
          "speed",
          ("rate", ("warn", some (pos 3)) ∷ ("error", some (pos 2)) ∷ ("fatal", some (pos 1)) ∷ [])
              ∷ [],
        )
        ∷ []);
  };
}

no_rate_checker :
    check_rate sample_levels sample_types 5 "speed" limits "" served_node ≡ failed null_pointer
unfolding check_rate count_rate add_rate_checker lookup get_value
no_rate_checker = refl

abbrev is_camera : String → Bool
is_camera key = string_key.beq key "camera"

abbrev operations : List (ℕ × Operation ℤ)
operations =
    (5, rate "camera" limits "")
    ∷ (6, min_value "speed" (pos 15) limits "")
    ∷ (7, rate "camera" limits "")
    ∷ (8, round 7)
    ∷ []

operate_all-Runs_example :
    (c' : HealthChecker ℤ) × (operate_all sample_levels sample_types no_text "/driver" operations
        node
      ≡ returned c')
    × IsSeparate is_camera sample_levels c'
operate_all-Runs_example =
    operate_all-Runs is_camera sample_levels sample_types no_text "/driver" sample_levels-IsRising
      operations node
      (
        (eq_iff "camera" "camera").1 refl,
        (ground (arith, eq_iff "speed" "camera"), ((eq_iff "camera" "camera").1 refl, (tt, tt))),
      )
      (node-IsSeparate is_camera)
