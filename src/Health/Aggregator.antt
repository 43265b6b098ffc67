-- ===== src/Health/Aggregator.antt =====
-- autoware_health_checker/src/health_aggregator/health_aggregator.cpp: the node's state and what its
-- callbacks and timers do to it, each under the node's lock and so one step.
use autoware_ai_common.Base.{
  Bool, List, Option, String, [], and_then, if◌then◌else◌, keep, not, some, ℕ, ◌++◌, ◌==◌, ◌∷◌,
}
use autoware_ai_common.Base.Text.{str_eq}
use autoware_ai_common.Base.Map.{Map, or_else}
use autoware_ai_common.Messages.{
  DiagLevels, DiagTypes, DiagnosticStatus, DiagnosticStatusArray, NodeStatus, SystemStatus,
}
use autoware_ai_common.Health.StatusMonitor.{TimeoutManager, get_monitor_status, update_stamp}
use autoware_ai_common.Health.Names.{change_to_key_format}
use autoware_ai_common.Health.Values.{Params, reload_params, set_params}
use autoware_ai_common.Health.Hardware.{
  HardwareTexts, ParamManager, RosDiagArray, RosLevels, convert,
}

pub record HealthAggregator : Type 0 where
  pub system_status : SystemStatus
  pub detected_nodes : List String
  pub status_monitor : Map String TimeoutManager
  pub param_manager : ParamManager
  pub hardware_diag_node : String
  -- 2 / hardware_diag_rate_
  pub hardware_timeout : ℕ

abbrev pub has_name : String → NodeStatus → Bool
has_name k n = str_eq n.node_name k

-- HealthAggregator::updateNodeStatus, on the array of node statuses
unfoldable pub put_node : NodeStatus → List NodeStatus → List NodeStatus
put_node n [] = n ∷ []
put_node n (x ∷ xs) = if has_name n.node_name x then n ∷ xs else x ∷ put_node n xs

-- 2 / NODE_STATUS_UPDATE_RATE
abbrev pub node_timeout : ℕ
node_timeout = 200000000

-- The call of updateStamp with a name; `none` is the exception of an empty one.
unfoldable pub stamp_name : ℕ → String → ℕ → HealthAggregator → Option HealthAggregator
stamp_name now name time_out a =
    and_then (change_to_key_format name)
      (λ key. some (record a { status_monitor = update_stamp key time_out now a.status_monitor }))

-- HealthAggregator::nodeStatusCallback
unfoldable pub node_status_callback : ℕ → NodeStatus → HealthAggregator → Option HealthAggregator
unfolding stamp_name
node_status_callback now msg a = stamp_name now msg.node_name node_timeout (record a {
  system_status = record a.system_status { node_status = put_node msg a.system_status.node_status };
})

module _ (x : HardwareTexts) (ros : RosLevels) (lv : DiagLevels) (ty : DiagTypes) where
  -- The part of diagnosticArrayCallback before updateStamp.
  unfoldable pub put_hardware : RosDiagArray → HealthAggregator → HealthAggregator
  unfolding convert
  put_hardware msg a =
      let (status, p) = convert x ty ros lv msg a.param_manager in
      record a {
        system_status = record a.system_status {
          hardware_status = or_else status a.system_status.hardware_status;
        };
        param_manager = p;
      }

  -- HealthAggregator::diagnosticArrayCallback
  unfoldable pub diagnostic_array_callback :
      ℕ → RosDiagArray → HealthAggregator → Option HealthAggregator
  unfolding put_hardware stamp_name
  diagnostic_array_callback now msg a =
      stamp_name now a.hardware_diag_node a.hardware_timeout (put_hardware msg a)

-- HealthAggregator::updateConnectionStatus, with the names that the master gives
unfoldable pub update_connection_status : List String → HealthAggregator → HealthAggregator
update_connection_status nodes a = record a { detected_nodes = nodes }

-- The inner loops of HealthAggregator::filterNodeStatus.
unfoldable pub with_level : ℕ → List DiagnosticStatusArray → List DiagnosticStatus
with_level level [] = []
with_level level (xs ∷ xss) = keep (λ s. s.level == level) xs ++ with_level level xss

-- HealthAggregator::filterNodeStatus
unfoldable pub filter_node_status : ℕ → List NodeStatus → List DiagnosticStatus
unfolding with_level
filter_node_status level [] = []
filter_node_status level (n ∷ ns) =
    (if not n.node_activated then [] else with_level level n.status) ++ filter_node_status level ns

module _ (lv : DiagLevels) (ty : DiagTypes) (print : ℕ → String) (my_name : String) where
  -- HealthAggregator::publishSystemStatus: the state that it leaves, whose system status it publishes
  unfoldable pub publish_system_status : ℕ → HealthAggregator → HealthAggregator
  publish_system_status now a = record a {
    system_status = record a.system_status {
      stamp = now;
      node_status =
          put_node (get_monitor_status lv ty print my_name now a.status_monitor)
            a.system_status.node_status;
      available_nodes = a.detected_nodes;
    };
  }

-- What the aggregator runs on, with the timers of its parameter manager.
pub data Event : Type 0 where
  node_message : NodeStatus → Event
  diagnostics : RosDiagArray → Event
  connections : List String → Event
  params_read : Params (Unit {0}) → Event
  candidates_announced : Event
  publish : Event

module _ (x : HardwareTexts) (ros : RosLevels) (lv : DiagLevels) (ty : DiagTypes)
    (print : ℕ → String) (my_name : String) where
  unfoldable pub step : ℕ → Event → HealthAggregator → Option HealthAggregator
  unfolding set_params
  step now (node_message msg) a = node_status_callback now msg a
  step now (diagnostics msg) a = diagnostic_array_callback x ros lv ty now msg a
  step now (connections nodes) a = some (update_connection_status nodes a)
  step now (params_read params) a =
      some (record a { param_manager = reload_params params a.param_manager })
  step now candidates_announced a =
      some (record a { param_manager = (set_params a.param_manager).1 })
  step now publish a = some (publish_system_status lv ty print my_name now a)

  unfoldable pub history : List (ℕ × Event) → HealthAggregator → Option HealthAggregator
  history [] a = some a
  history ((now, e) ∷ es) a = and_then (step now e a) (history es)
