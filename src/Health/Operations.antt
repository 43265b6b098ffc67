-- ===== src/Health/Operations.antt =====
-- The calls of a node and of the timers and the thread of its health checker, autoware_health_checker/
-- src/health_checker/health_checker.cpp, one after the other.
use autoware_ai_common.Base.{Bool, List, String, [], ℕ, ◌∷◌}
use autoware_ai_common.Base.Double.{Double}
use autoware_ai_common.Messages.{DiagLevels, DiagTypes, DiagnosticStatus}
use autoware_ai_common.Health.Values.{Params, reload_params, set_params}
use autoware_ai_common.Health.Checker.{
  HealthChecker, Outcome, Thresholds, check_max_value, check_min_value, check_range, check_rate,
  check_value, set_activated, set_diag_status,
}
use autoware_ai_common.Health.Publish.{publish_status}
use autoware_ai_common.Health.Results.{Result, on_return, returned}

pub data Operation (W : Type 0) : Type 0 where
  diag_status : DiagnosticStatus → Operation W
  value : String → String → ℕ → String → Operation W
  min_value : String → W → Thresholds W → String → Operation W
  max_value : String → W → Thresholds W → String → Operation W
  range : String → W → Thresholds W → Thresholds W → String → Operation W
  rate : String → Thresholds W → String → Operation W
  activated : Bool → Operation W
  params_reloaded : Params W → Operation W
  candidates_set : Operation W
  round : ℕ → Operation W

abbrev pub after : {W : Type 0} → Outcome W → Result (HealthChecker W)
after o = on_return o (λ r. returned r.1)

module _ {W : Type 0} ⦃d : Double W⦄ (lv : DiagLevels) (ty : DiagTypes) (json : W → String)
    (node_name : String) where
  unfoldable pub operate : ℕ → Operation W → HealthChecker W → Result (HealthChecker W)
  operate now (diag_status s) c = after (set_diag_status lv now s c)
  operate now (value key text level description) c =
      after (check_value lv ty now key text level description c)
  operate now (min_value key x t description) c =
      after (check_min_value lv ty json now key x t description c)
  operate now (max_value key x t description) c =
      after (check_max_value lv ty json now key x t description c)
  operate now (range key x low high description) c =
      after (check_range lv ty json now key x low high description c)
  operate now (rate key t description) c = check_rate lv ty now key t description c
  operate now (activated b) c = returned (set_activated b c)
  operate now (params_reloaded params) c =
      returned (record c { values = reload_params params c.values })
  operate now candidates_set c = returned (record c { values = (set_params c.values).1 })
  operate now (round prev) c =
      on_return (publish_status lv ty json node_name prev now c) (λ r. returned r.1)

  unfoldable pub operate_all : List (ℕ × Operation W) → HealthChecker W → Result (HealthChecker W)
  operate_all [] c = returned c
  operate_all ((now, op) ∷ ops) c = on_return (operate now op c) (operate_all ops)
