-- ===== src/Health/Publish.antt =====
-- HealthChecker::publishStatus of autoware_health_checker/src/health_checker/health_checker.cpp: one
-- round of the loop, which publishes what the rate checkers and the buffers hold.
use autoware_ai_common.Base.{
  List, Option, String, [], if◌then◌else◌, is_some, none, some, ℕ, ◌++◌, ◌==◌, ◌∷◌,
}
use autoware_ai_common.Base.Text.{string_key}
use autoware_ai_common.Base.Map.{Map, lookup}
use autoware_ai_common.Base.Double.{Double}
use autoware_ai_common.Messages.{DiagLevels, DiagTypes, DiagnosticStatusArray, NodeStatus}
use autoware_ai_common.Health.DiagBuffer.{DiagBuffer, get_and_clear_data}
use autoware_ai_common.Health.RateChecker.{RateChecker, get_error_level_and_rate}
use autoware_ai_common.Health.Checker.{HealthChecker, set_value_common}
use autoware_ai_common.Health.Results.{Result, on_return, or_fail, out_of_range, returned}

module _ {W : Type 0} ⦃d : Double W⦄ (lv : DiagLevels) (ty : DiagTypes) (json : W → String) where
  abbrev pub rate_status : ℕ → String → String → ℕ × W → DiagnosticStatusArray
  rate_status now key description (level, rate) =
      record (set_value_common now key (json rate) description) {
        level = level;
        type = ty.unexpected_rate;
      }
      ∷ []

  -- The loop over the rate checkers.
  unfoldable pub rate_statuses :
      ℕ → Map String (RateChecker W) → List DiagnosticStatusArray × Map String (RateChecker W)
  rate_statuses now [] = ([], [])
  rate_statuses now ((key, r) ∷ m) =
      let (result, r') = get_error_level_and_rate lv now r in
      let (rest, m') = rate_statuses now m in
      (
        elim result [ none ↦ rest | some x ↦ rate_status now key r.description x ∷ rest ],
        (key, r') ∷ m',
      )

-- getKeys and the loop over the buffers: those of the keys that have no rate checker.
unfoldable pub buffer_statuses :
    {W : Type 0}
    → DiagLevels
    → ℕ
    → Map String (RateChecker W)
    → Map String DiagBuffer
    → Result (List DiagnosticStatusArray × Map String DiagBuffer)
buffer_statuses lv now checkers [] = returned ([], [])
buffer_statuses lv now checkers ((key, b) ∷ m) =
    on_return (buffer_statuses lv now checkers m) (λ rest.
      if is_some (lookup key checkers)
      then returned (rest.0, (key, b) ∷ rest.1)
      else on_return (or_fail out_of_range (get_and_clear_data lv now b))
          (λ r. returned (r.0 ∷ rest.0, (key, r.1) ∷ rest.1)))

module _ {W : Type 0} ⦃d : Double W⦄ (lv : DiagLevels) (ty : DiagTypes) (json : W → String) where
  -- A round of publishStatus, with prev_ros_time; nothing is sent while the time stands still.
  unfoldable pub publish_status :
      String → ℕ → ℕ → HealthChecker W → Result (Option NodeStatus × HealthChecker W)
  unfolding rate_statuses buffer_statuses
  publish_status node_name prev_ros_time now c =
      if prev_ros_time == now
      then returned (none, c)
      else let (rates, checkers) = rate_statuses lv ty json now c.rate_checkers in
        on_return (buffer_statuses lv now checkers c.diag_buffers) (λ r. returned (
          some (record {
            stamp = now;
            node_name = node_name;
            node_activated = c.node_activated;
            status = rates ++ r.0;
          }),
          record c { rate_checkers = checkers; diag_buffers = r.1 },
        ))
