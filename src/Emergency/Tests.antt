-- ===== src/Emergency/Tests.antt =====
-- Runs of the emergency handler's model on small inputs.
use autoware_ai_common.Base.{
  Bool, List, String, [], arith, false, find_if, if◌then◌else◌, is_some, leb, null, refl, some,
  true, ℕ, ◌++◌, ◌+◌, ◌∷◌, ◌≡◌, ◌≤◌,
}
use autoware_ai_common.Base.Text.{str_eq, string_key}
use autoware_ai_common.Base.Map.{assign, emplace, lookup}
use autoware_ai_common.Messages.{
  DiagnosticStatus, DiagnosticStatusArray, HardwareStatus, NodeStatus, SystemStatus, sample_levels,
  sample_types,
}
use autoware_ai_common.Emergency.Factors.{
  FactorStatusArray, IsFactors-no_factors, add, add-IsFactors, find-add, has_key, insert_new,
  no_factors, overwrite, reset,
}
use autoware_ai_common.Emergency.Filter.{
  calc_all, calc_array, calc_diag, calc_node, check_all_hardware_simply, check_all_node_simply,
  check_from,
}
use autoware_ai_common.Emergency.Verdicts.{
  add_all, bad_in_hardware, bad_in_nodes, check_all_hardware_simply-finds,
  check_all_node_simply-finds,
}
use autoware_ai_common.Emergency.Vital.{
  LifeTime, NodeParam, VitalMonitor, age, age_and_bury, bury, init_monitored_node_list, require_all,
  revive, revive_all, update_node_status,
}
use autoware_ai_common.Emergency.DeadNodes.{
  IsVital, Updated, init-IsVital, update_node_status-Updated,
}
use autoware_ai_common.Emergency.Handler.{
  Event, Handler, Output, default_priorities, history, int_max, loop, select_dead, system_status,
  system_status_callback, turn, vehicle, wrap_func,
}
use autoware_ai_common.Base.Int.{pos, ℤ}
use autoware_ai_common.Emergency.Planners.{VehicleCmd, emergency_stop}
use autoware_ai_common.Emergency.Priority.{
  received, select_dead-node_error, system_status_callback-received,
}
use autoware_ai_common.Emergency.Hold.{IsHeld, history-IsHeld}
use autoware_ai_common.Base.Double.{int_double}
use autoware_ai_common.Emergency.Turn.{announcement, errors_of, turn-releases, turn-starts, wanted}
use autoware_ai_common.Emergency.Absence.{end_time, updates, updates-Absent}

abbrev status_of : String → ℕ → DiagnosticStatus
status_of key level = record {
  stamp = 0;
  key = key;
  value = "";
  description = "";
  type = 5;
  level = level;
}

abbrev node_of : String → Bool → DiagnosticStatusArray → NodeStatus
node_of name activated xs = record {
  stamp = 0;
  node_name = name;
  node_activated = activated;
  status = xs ∷ [];
}

abbrev lidar_low : DiagnosticStatus
lidar_low = status_of "lidar_low" 3

abbrev lidar_slow : DiagnosticStatus
lidar_slow = status_of "lidar_slow" 4

-- Two statuses of the level ERROR or worse, one of them twice, and a node that has not begun.
abbrev bad_message : List NodeStatus
bad_message =
    node_of "/lidar" true (lidar_low ∷ status_of "lidar_ok" 1 ∷ lidar_slow ∷ [])
    ∷ node_of "/camera" false (status_of "camera_low" 4 ∷ [])
    ∷ []

abbrev bad_hardware : List HardwareStatus
bad_hardware = record { stamp = 0; hardware_name = "cpu"; status = (lidar_slow ∷ []) ∷ [] } ∷ []

check_all_node_simply-finds_example :
    check_all_node_simply 3 bad_message no_factors
    ≡ (null (bad_in_nodes 3 bad_message), add_all (bad_in_nodes 3 bad_message) no_factors)
check_all_node_simply-finds_example = check_all_node_simply-finds 3 bad_message no_factors

check_all_hardware_simply-finds_example :
    check_all_hardware_simply 3 bad_hardware no_factors
    ≡ (null (bad_in_hardware 3 bad_hardware), add_all (bad_in_hardware 3 bad_hardware) no_factors)
check_all_hardware_simply-finds_example = check_all_hardware_simply-finds 3 bad_hardware no_factors

finds_two : (check_all_node_simply 3 bad_message no_factors).1.dataset ≡ lidar_low ∷ lidar_slow ∷ []
unfolding check_all_node_simply check_from calc_node calc_array calc_all calc_diag add insert_new
    overwrite lookup assign emplace
finds_two = refl

abbrev one_factor : FactorStatusArray
one_factor = add (status_of "lidar_low" 4) no_factors

find-add_example : find_if (has_key "lidar_low") (add lidar_low one_factor).dataset ≡ (
    if str_eq lidar_low.key "lidar_low"
    then some lidar_low
    else find_if (has_key "lidar_low") one_factor.dataset)
find-add_example =
    find-add "lidar_low" lidar_low one_factor
      (add-IsFactors (status_of "lidar_low" 4) no_factors IsFactors-no_factors)

-- One node has to be there, with a timeout of 2 s and the level ERROR.
abbrev monitor_params : List NodeParam
monitor_params = record { name = "lidar"; timeout = some 2000000000; level = some 3 } ∷ []

abbrev fresh_monitor : VitalMonitor
fresh_monitor = init_monitored_node_list monitor_params

init-IsVital_example : IsVital (init_monitored_node_list monitor_params)
init-IsVital_example = init-IsVital monitor_params

update_node_status-Updated_example :
    (r : VitalMonitor) × Updated ("/lidar" ∷ []) 1000 fresh_monitor r
unfolding init_monitored_node_list
update_node_status-Updated_example =
    update_node_status-Updated ("/lidar" ∷ []) 1000 fresh_monitor (init-IsVital monitor_params)
      (omega arith)

abbrev seen_life : LifeTime
seen_life = record {
  activated = true;
  level = 3;
  default_life_time = 2000000000;
  life_time = 2000000000;
}

abbrev seen_monitor : VitalMonitor
seen_monitor = record { required = ("/lidar", seen_life) ∷ []; dead = []; previous = some 1000 }

seen_monitor-IsVital : IsVital seen_monitor
unfolding lookup
seen_monitor-IsVital = record { unique = (refl, tt); exact = λ k. ground arith }

seen : update_node_status ("/lidar" ∷ []) 1000 fresh_monitor ≡ some seen_monitor
unfolding update_node_status revive_all revive age_and_bury age bury init_monitored_node_list
    require_all emplace assign lookup
seen = refl

abbrev two_messages : List (List String × ℕ)
two_messages = ("/camera" ∷ [], 1000000000) ∷ ([], 3000000000) ∷ []

updates-Absent_example :
    (r : VitalMonitor) × (updates two_messages seen_monitor ≡ some r)
    × (is_some (lookup "/lidar" r.dead)
        ≡ leb (1000 + seen_life.life_time) (end_time 1000 two_messages))
unfolding lookup
updates-Absent_example =
    updates-Absent "/lidar" 1000 two_messages seen_life seen_monitor seen_monitor-IsVital refl
      (refl, omega arith, (refl, omega arith, tt)) refl refl

abbrev dead_monitor : VitalMonitor
dead_monitor = record {
  required = ("/lidar", record seen_life { life_time = 0 }) ∷ [];
  dead = ("/lidar", 3) ∷ [];
  previous = some 3000000000;
}

abbrev command : VehicleCmd ℤ
command = record {
  stamp = 0;
  linear_velocity = pos 5000;
  steering_angle = pos 0;
  twist_linear_x = pos 5000;
  twist_angular_z = pos 100;
  emergency = 0;
}

abbrev handler : Handler ℤ
handler = record {
  table = default_priorities;
  is_emergency_planner_enabled = true;
  emergency_planner_map =
      (0, record { kind = emergency_stop; required_priority = 0; max_dec = pos 1000 }) ∷ [];
  monitor = seen_monitor;
  factors = no_factors;
  priority = int_max;
  latest_priority = int_max;
  callback_time = 0;
  is_system_status_received = true;
  vehicle_cmd = command;
  is_urgent = false;
  start_time = 0;
  emergency_vehicle_cmd = command;
}

abbrev message : SystemStatus
message = record {
  stamp = 2000;
  available_nodes = [];
  node_status = bad_message;
  hardware_status = bad_hardware;
  topic_statistics = [];
  detect_too_match_warning = false;
}

system_status_callback-received_example :
    (m : VitalMonitor) × Updated [] 2000 seen_monitor m
    × (system_status_callback sample_levels sample_types 2000 message handler
        ≡ some (received sample_levels sample_types 2000 message m handler))
system_status_callback-received_example =
    system_status_callback-received sample_levels sample_types 2000 message handler
      seen_monitor-IsVital (omega arith)

select_dead-node_error_example :
    ((select_dead sample_levels sample_types message dead_monitor handler).0 ≡ 0)
    × ((wrap_func 2000
          (select_dead sample_levels sample_types message dead_monitor handler)).priority
        ≤ 0)
unfolding lookup
select_dead-node_error_example =
    select_dead-node_error sample_levels sample_types 2000 message dead_monitor handler "/lidar" 3
      refl (omega arith)

-- The last status came 0.2 s ago.
turn-starts_example :
    (rest : List (Output ℤ)) × (g : Handler ℤ) × (turn sample_levels sample_types 200000000 handler
      ≡ some (
        announcement (errors_of sample_levels sample_types 200000000 handler) 200000000 handler
            ++ rest,
        g,
      ))
    × (g.is_urgent ≡ true)
    × (g.priority ≡ wanted 200000000 handler)
    × (g.start_time ≡ 200000000)
turn-starts_example =
    turn-starts sample_levels sample_types 200000000 handler refl refl (λ e. ground (arith, e))

abbrev urgent_handler : Handler ℤ
urgent_handler = record handler { is_urgent = true; priority = 0 }

abbrev some_events : List (ℕ × Event ℤ)
some_events =
    (2000, system_status message) ∷ (3000, loop) ∷ (4000, vehicle command) ∷ (5000, loop) ∷ []

history-IsHeld_example :
    (sent : List (Output ℤ)) × (g : Handler ℤ) × (history sample_levels sample_types some_events
        urgent_handler
      ≡ some (sent, g))
    × IsHeld urgent_handler g
history-IsHeld_example =
    history-IsHeld sample_levels sample_types 1000 some_events urgent_handler
      (record { vital = seen_monitor-IsVital; in_order = omega arith; planners = refl }) refl
      (
        omega arith,
        omega arith,
        (omega arith, omega arith, (omega arith, omega arith, (omega arith, omega arith, tt))),
      )

-- A handler whose hardware was found bad and whose nodes were found good by the last message.
abbrev held_handler : Handler ℤ
held_handler = record handler { is_urgent = true; priority = 0; latest_priority = int_max }

turn-releases_example :
    turn sample_levels sample_types 10000000000 held_handler
    ≡ some (
      [],
      record held_handler {
        priority = int_max;
        factors = reset held_handler.factors;
        is_urgent = false;
      },
    )
turn-releases_example =
    turn-releases sample_levels sample_types 10000000000 held_handler refl (omega arith)
