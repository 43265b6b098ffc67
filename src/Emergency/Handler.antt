-- ===== src/Emergency/Handler.antt =====
-- emergency_handler/src/emergency_handler.cpp, src/system_status_filter.cpp and
-- src/emergency_handler_node.cpp: the node's state and what a message and a turn of the loop do to it.
-- The static data of SystemStatusFilter are fields, and each of the calls is one step. Priorities are the
-- natural numbers up to INT_MAX: no negative parameters. Times are nanoseconds.
use autoware_ai_common.Base.{
  Bool, List, Option, String, [], and_then, false, if◌then◌else◌, leb, ltb, none, not, null, some,
  true, ℕ, ◌&&◌, ◌++◌, ◌+◌, ◌==◌, ◌∷◌,
}
use autoware_ai_common.Base.Text.{str_eq, string_key}
use autoware_ai_common.Base.Map.{Map, ascending, descending, emplace}
use autoware_ai_common.Base.Double.{Double}
use autoware_ai_common.Messages.{DiagLevels, DiagTypes, DiagnosticStatusArray, SystemStatus}
use autoware_ai_common.Emergency.Factors.{FactorStatusArray, reset}
use autoware_ai_common.Emergency.Filter.{check_all_hardware_simply, check_all_node_simply}
use autoware_ai_common.Emergency.Vital.{VitalMonitor, add_dead_nodes, update_node_status}
use autoware_ai_common.Emergency.Planners.{
  Planner, VehicleCmd, emergency_stop, feedback, semi_emergency_stop,
}

pub record EmergencyHandlingPriority : Type 0 where
  pub node_error : ℕ
  pub hardware_error : ℕ
  pub emergency_handler_error : ℕ
  pub no_error : ℕ

abbrev pub int_max : ℕ
int_max = 2147483647

abbrev pub default_priorities : EmergencyHandlingPriority
default_priorities = record {
  node_error = 0;
  hardware_error = 0;
  emergency_handler_error = 0;
  no_error = int_max;
}

-- The constructor's loop over the parameter `emergency_handling_priority`.
unfoldable pub load_priorities :
    Map String ℕ → EmergencyHandlingPriority → EmergencyHandlingPriority
load_priorities [] t = t
load_priorities ((name, p) ∷ m) t = load_priorities m (
    if str_eq name "node_error"
    then record t { node_error = p }
    else if str_eq name "hardware_error"
    then record t { hardware_error = p }
    else if str_eq name "emergency_handler_error"
    then record t { emergency_handler_error = p }
    else t)

-- What the publishers send.
pub data Output (W : Type 0) : Type 0 where
  state_cmd : String → Output W
  record_cmd : ℕ → Output W
  error_status : DiagnosticStatusArray → Output W
  emergency_velocity : VehicleCmd W → Output W

pub record Handler (W : Type 0) : Type 0 where
  pub table : EmergencyHandlingPriority
  pub is_emergency_planner_enabled : Bool
  pub emergency_planner_map : Map ℕ (Planner W)
  pub monitor : VitalMonitor
  pub factors : FactorStatusArray
  pub priority : ℕ
  pub latest_priority : ℕ
  pub callback_time : ℕ
  pub is_system_status_received : Bool
  pub vehicle_cmd : VehicleCmd W
  pub is_urgent : Bool
  pub start_time : ℕ
  pub emergency_vehicle_cmd : VehicleCmd W

module _ {W : Type 0} ⦃d : Double W⦄ where
  unfoldable pub register : W → String → ℕ → Map ℕ (Planner W) → Map ℕ (Planner W)
  register max_dec name p m =
      if str_eq name "semi-emergency_stop_planner"
      then emplace p
          (record { kind = semi_emergency_stop; required_priority = p; max_dec = max_dec }) m
      else if str_eq name "emergency_stop_planner"
      then emplace p (record { kind = emergency_stop; required_priority = p; max_dec = max_dec }) m
      else m

  unfoldable pub register_all : W → Map String ℕ → Map ℕ (Planner W) → Map ℕ (Planner W)
  unfolding register
  register_all max_dec [] m = m
  register_all max_dec ((name, p) ∷ ps) m = register_all max_dec ps (register max_dec name p m)

  -- registerEmergencyPlanners
  unfoldable pub register_emergency_planners : W → Map String ℕ → Handler W → Handler W
  unfolding register_all
  register_emergency_planners max_dec ps h =
      let m = register_all max_dec ps h.emergency_planner_map in
      record h {
        emergency_planner_map =
            if null m
            then (0, record { kind = emergency_stop; required_priority = 0; max_dec = max_dec })
              ∷ []
            else m;
      }

module _ {W : Type 0} where
  abbrev pub first : Map ℕ (Planner W) → Option (Planner W)
  first [] = none
  first ((k, p) ∷ m) = some p

  -- The loop that fills available_planner, whose order is std::greater.
  unfoldable pub available : ℕ → Map ℕ (Planner W) → Map ℕ (Planner W) → Map ℕ (Planner W)
  available req [] acc = acc
  available req ((k, p) ∷ m) acc =
      available req m (if leb k req then emplace ⦃o = descending⦄ k p acc else acc)

  -- find_target_emergency_planner; `none` is the null pointer
  unfoldable pub find_target_emergency_planner : ℕ → Map ℕ (Planner W) → Option (Planner W)
  unfolding available
  find_target_emergency_planner req m =
      let a = available req m [] in if null a then first m else first a

-- genNoStatusMsg
abbrev pub gen_no_status_msg : DiagLevels → DiagTypes → ℕ → DiagnosticStatusArray
gen_no_status_msg lv ty now =
    record {
      stamp = now;
      key = "topic_rate_system_status_slow";
      value = "{\n    \"value\": \"0\"\n}\n";
      description = "topic rate system_status is slow.";
      type = ty.unexpected_rate;
      level = lv.error;
    }
    ∷ []

-- 3 / SYSTEM_UPDATE_RATE and the 10 s of the loop
abbrev pub status_timeout : ℕ
status_timeout = 100000000

abbrev pub hold_time : ℕ
hold_time = 10000000000

module _ {W : Type 0} where
  -- wrapFunc, with what the filter's function returns
  unfoldable pub wrap_func : ℕ → ℕ × Handler W → Handler W
  wrap_func now (p, h) = record h {
    latest_priority = p;
    priority = if ltb h.priority p then h.priority else p;
    callback_time = now;
    is_system_status_received = true;
  }

  abbrev pub status_ok : ℕ → Handler W → Bool
  status_ok now h = not (h.is_system_status_received && ltb (h.callback_time + status_timeout) now)

  -- The test of is_urgent in `run`, with the errors of updatePriority.
  unfoldable pub switch : DiagnosticStatusArray → ℕ → Handler W → List (Output W) × Handler W
  switch errors now h =
      if not h.is_urgent
      then (if not (h.priority == h.table.no_error)
          then (
            (if h.is_emergency_planner_enabled then state_cmd "emergency" ∷ [] else [])
                ++ record_cmd now ∷ error_status errors ∷ [],
            record h { start_time = now; emergency_vehicle_cmd = h.vehicle_cmd; is_urgent = true },
          )
          else ([], h))
      else (
        [],
        if leb (h.start_time + hold_time) now
            then record h { priority = h.latest_priority; is_urgent = false }
            else h,
      )

module _ {W : Type 0} ⦃d : Double W⦄ where
  -- The planning part of `run`; `none` is the call through a null pointer
  unfoldable pub plan : ℕ → Handler W → Option (List (Output W) × Handler W)
  plan now h =
      if h.is_urgent && h.is_emergency_planner_enabled
      then and_then (find_target_emergency_planner h.priority h.emergency_planner_map) (λ p.
        let cmd = feedback p now h.emergency_vehicle_cmd in
        some (emergency_velocity cmd ∷ [], record h { emergency_vehicle_cmd = cmd }))
      else some ([], h)

module _ {W : Type 0} (lv : DiagLevels) where
  -- SimpleHardwareFilter::selectPriority
  unfoldable pub select_hardware : SystemStatus → Handler W → ℕ × Handler W
  select_hardware s h =
      let (is_ok, factors) = check_all_hardware_simply lv.error s.hardware_status h.factors in
      (
        (if not is_ok then h.table.hardware_error else h.table.no_error),
        record h { factors = factors },
      )

module _ {W : Type 0} (lv : DiagLevels) (ty : DiagTypes) where
  -- SimpleNodeFilter::selectPriority, after updateNodeStatus
  unfoldable pub select_dead : SystemStatus → VitalMonitor → Handler W → ℕ × Handler W
  select_dead s m h =
      let t = add_dead_nodes ty m s in
      let (is_ok, factors) = check_all_node_simply lv.error t.node_status h.factors in
      (
        (if not is_ok then h.table.node_error else h.table.no_error),
        record h { monitor = m; factors = factors },
      )

  -- SystemStatusSubscriber::systemStatusCallback with the filters of main, each on its own copy of the
  -- message; `none` when updateNodeStatus throws
  unfoldable pub system_status_callback : ℕ → SystemStatus → Handler W → Option (Handler W)
  unfolding wrap_func select_hardware select_dead
  system_status_callback now s h =
      let h' = wrap_func now (select_hardware lv s h) in
      and_then (update_node_status s.available_nodes now h'.monitor)
        (λ m. some (wrap_func now (select_dead s m h')))

  -- updatePriority, with the errors it leaves in error_status_
  unfoldable pub update_priority : Bool → ℕ → Handler W → DiagnosticStatusArray × Handler W
  unfolding reset
  update_priority status_ok now h =
      if not status_ok && ltb h.table.emergency_handler_error h.priority
      then (
        gen_no_status_msg lv ty now,
        record h { priority = h.table.emergency_handler_error; factors = reset h.factors },
      )
      else (h.factors.dataset, record h { factors = reset h.factors })

module _ {W : Type 0} ⦃d : Double W⦄ (lv : DiagLevels) (ty : DiagTypes) where
  -- One turn of the loop of `run`, after the callbacks.
  unfoldable pub turn : ℕ → Handler W → Option (List (Output W) × Handler W)
  unfolding update_priority switch
  turn now h =
      let (errors, h1) = update_priority lv ty (status_ok now h) now h in
      let (sent, h2) = switch errors now h1 in and_then (plan now h2) (λ r. some (sent ++ r.0, r.1))

-- What the node runs on: a system status, a vehicle command, or a turn of the loop.
pub data Event (W : Type 0) : Type 0 where
  system_status : SystemStatus → Event W
  vehicle : VehicleCmd W → Event W
  loop : Event W

module _ {W : Type 0} ⦃d : Double W⦄ (lv : DiagLevels) (ty : DiagTypes) where
  unfoldable pub step : ℕ → Event W → Handler W → Option (List (Output W) × Handler W)
  step now (system_status s) h =
      and_then (system_status_callback lv ty now s h) (λ h'. some ([], h'))
  step now (vehicle cmd) h = some ([], record h { vehicle_cmd = cmd })
  step now loop h = turn lv ty now h

  unfoldable pub history : List (ℕ × Event W) → Handler W → Option (List (Output W) × Handler W)
  history [] h = some ([], h)
  history ((now, e) ∷ es) h =
      and_then (step now e h) (λ r. and_then (history es r.1) (λ r'. some (r.0 ++ r'.0, r'.1)))
