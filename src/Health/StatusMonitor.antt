-- ===== src/Health/StatusMonitor.antt =====
-- autoware_health_checker/src/health_aggregator/status_monitor.cpp and include/autoware_health_checker/
-- health_aggregator/status_monitor.h: when each node reported last. Times are nanoseconds; `print` is what
-- a stream writes for a duration. The lock is not modelled.
use autoware_ai_common.Base.{Bool, List, String, [], if◌then◌else◌, ltb, true, ℕ, ◌+◌, ◌-◌, ◌∷◌}
use autoware_ai_common.Base.Text.{str_append, str_eq, string_key}
use autoware_ai_common.Base.Map.{Map, assign}
use autoware_ai_common.Messages.{
  DiagLevels, DiagTypes, DiagnosticStatus, DiagnosticStatusArray, NodeStatus,
}

pub record TimeoutManager : Type 0 where
  pub timer_start_time : ℕ
  pub time_out : ℕ

-- TimeoutManager::isOverLimit: current - start > time_out
abbrev pub is_over_limit : ℕ → TimeoutManager → Bool
is_over_limit current t = ltb (t.timer_start_time + t.time_out) current

-- StatusMonitor::updateStamp
unfoldable pub update_stamp : String → ℕ → ℕ → Map String TimeoutManager → Map String TimeoutManager
update_stamp name time_out now m =
    if str_eq name ""
    then m
    else assign name (record { timer_start_time = now; time_out = time_out }) m

module _ (lv : DiagLevels) (ty : DiagTypes) (print : ℕ → String) where
  -- The loop body of StatusMonitor::getMonitorStatus.
  abbrev pub timer_status : ℕ → String → TimeoutManager → DiagnosticStatus
  timer_status current name t = record {
    stamp = t.timer_start_time;
    key = str_append name "_node_status_rate_slow";
    value = print (current - t.timer_start_time);
    description = str_append name " node_status rate slow";
    type = ty.unexpected_rate;
    level = if is_over_limit current t then lv.error else lv.ok;
  }

  unfoldable pub timer_statuses : ℕ → Map String TimeoutManager → List DiagnosticStatusArray
  timer_statuses current [] = []
  timer_statuses current ((name, t) ∷ m) =
      (timer_status current name t ∷ []) ∷ timer_statuses current m

  -- StatusMonitor::getMonitorStatus
  unfoldable pub get_monitor_status : String → ℕ → Map String TimeoutManager → NodeStatus
  unfolding timer_statuses
  get_monitor_status my_name current m = record {
    stamp = current;
    node_name = my_name;
    node_activated = true;
    status = timer_statuses current m;
  }
