-- ===== src/Health/Checker.antt =====
-- autoware_health_checker/src/health_checker/health_checker.cpp: what a node tells of itself. A call that
-- fails leaves no state here. The JSON text of a value is a parameter. Within one call the clock is read
-- once, and the timers of the value manager do not run.
use autoware_ai_common.Base.{Bool, String, if◌then◌else◌, is_some, not, true, ℕ, ◌==◌, ◌||◌}
use autoware_ai_common.Base.Text.{string_key}
use autoware_ai_common.Base.Map.{Map, assign, lookup}
use autoware_ai_common.Base.Double.{Double}
use autoware_ai_common.Messages.{DiagLevels, DiagTypes, DiagnosticStatus}
use autoware_ai_common.Health.Values.{
  ValueManager, add_candidate, get_value, is_not_found, set_default_value,
}
use autoware_ai_common.Health.DiagBuffer.{DiagBuffer, add_diag, buffer_duration_nsec, new_buffer}
use autoware_ai_common.Health.RateChecker.{
  RateChecker, buffer_duration, check, new_checker, set_rate,
}
use autoware_ai_common.Health.Results.{
  Result, null_pointer, on_return, or_fail, out_of_range, returned,
}

pub record HealthChecker (W : Type 0) : Type 0 where
  pub values : ValueManager W
  pub diag_buffers : Map String DiagBuffer
  pub rate_checkers : Map String (RateChecker W)
  pub node_activated : Bool

abbrev pub Outcome : Type 0 → Type 0
Outcome W = Result (ℕ × HealthChecker W)

-- setValueCommon, with the JSON text of the value; the type and level of a new message are 0
abbrev pub set_value_common : ℕ → String → String → String → DiagnosticStatus
set_value_common now key json description = record {
  stamp = now;
  key = key;
  value = json;
  description = description;
  type = 0;
  level = 0;
}

abbrev pub is_known_level : DiagLevels → ℕ → Bool
is_known_level lv level =
    level == lv.ok || (level == lv.warn || (level == lv.error || level == lv.fatal))

module _ {W : Type 0} where
  -- keyExist
  abbrev pub key_exist : String → HealthChecker W → Bool
  key_exist key c = is_some (lookup key c.diag_buffers)

  -- addNewBuffer
  unfoldable pub add_new_buffer : String → ℕ → String → HealthChecker W → HealthChecker W
  add_new_buffer key type description c = if key_exist key c then c else record c {
    diag_buffers = assign key (new_buffer key type description buffer_duration_nsec) c.diag_buffers;
  }

  abbrev pub with_candidate : String → HealthChecker W → HealthChecker W
  with_candidate key c = record c { values = add_candidate key c.values }

  -- SET_DIAG_STATUS
  unfoldable pub set_diag_status : DiagLevels → ℕ → DiagnosticStatus → HealthChecker W → Outcome W
  unfolding add_new_buffer
  set_diag_status lv now s c =
      let c1 = with_candidate s.key c in
      if is_not_found s.key c1.values
      then returned (lv.undefined, c1)
      else if not (is_known_level lv s.level)
      then returned (lv.undefined, c1)
      else let c2 = add_new_buffer s.key s.type s.description c1 in
        on_return (or_fail out_of_range (lookup s.key c2.diag_buffers)) (λ b. returned (
          s.level,
          record c2 { diag_buffers = assign s.key (add_diag lv now s b) c2.diag_buffers },
        ))

  -- CHECK_TRUE and CHECK_VALUE, whose level the caller gives
  unfoldable pub check_value :
      DiagLevels → DiagTypes → ℕ → String → String → ℕ → String → HealthChecker W → Outcome W
  check_value lv ty now key json level description c =
      let c1 = with_candidate key c in
      if is_not_found key c1.values
      then returned (lv.undefined, c1)
      else set_diag_status lv now
          (record (set_value_common now key json description) {
            level = level;
            type = ty.invalid_value;
          })
          c1

  -- NODE_ACTIVATE and NODE_DEACTIVATE
  abbrev pub set_activated : Bool → HealthChecker W → HealthChecker W
  set_activated b c = record c { node_activated = b }

-- The first of the levels FATAL, ERROR and WARN at which a test succeeds.
unfoldable pub classify : DiagLevels → (ℕ → Result Bool) → Result ℕ
classify lv identify = on_return (identify lv.fatal) (λ fatal.
    if fatal
    then returned lv.fatal
    else on_return (identify lv.error) (λ error.
      if error
      then returned lv.error
      else on_return (identify lv.warn) (λ warn. returned (if warn then lv.warn else lv.ok))))

pub record Thresholds (W : Type 0) : Type 0 where
  pub warn_value : W
  pub error_value : W
  pub fatal_value : W

module _ {W : Type 0} (lv : DiagLevels) where
  abbrev pub set_thresholds : String → String → Thresholds W → HealthChecker W → HealthChecker W
  set_thresholds key thresh_type t c = record c {
    values = set_default_value lv key thresh_type t.warn_value t.error_value t.fatal_value c.values;
  }

  -- The first call of CHECK_RATE for a key that has no buffer.
  unfoldable pub add_rate_checker :
      ℕ → String → Thresholds W → String → HealthChecker W → HealthChecker W
  add_rate_checker now key t description c = if key_exist key c then c else record c {
    values = set_default_value lv key "rate" t.warn_value t.error_value t.fatal_value c.values;
    rate_checkers =
        assign key
          (new_checker now buffer_duration t.warn_value t.error_value t.fatal_value description)
          c.rate_checkers;
  }

  -- The rest of CHECK_RATE; a key without a rate checker gives a null pointer.
  unfoldable pub count_rate : ℕ → String → HealthChecker W → Result (HealthChecker W)
  count_rate now key c = on_return (get_value lv key "rate" lv.warn c.values) (λ w.
      on_return (get_value lv key "rate" lv.error c.values) (λ e.
        on_return (get_value lv key "rate" lv.fatal c.values) (λ f.
          on_return (or_fail null_pointer (lookup key c.rate_checkers)) (λ r. returned (record c {
            rate_checkers = assign key (check now (set_rate now w e f r)) c.rate_checkers;
          })))))

module _ {W : Type 0} ⦃d : Double W⦄ (lv : DiagLevels) where
  abbrev pub is_below : String → W → HealthChecker W → ℕ → Result Bool
  is_below key value c level =
      on_return (get_value lv key "min" level c.values) (λ x. returned (d.lt value x))

  abbrev pub is_above : String → W → HealthChecker W → ℕ → Result Bool
  is_above key value c level =
      on_return (get_value lv key "max" level c.values) (λ x. returned (d.lt x value))

  -- `||` of the two tests of CHECK_RANGE
  abbrev pub is_outside : String → W → HealthChecker W → ℕ → Result Bool
  is_outside key value c level =
      on_return (is_below key value c level)
        (λ below. if below then returned true else is_above key value c level)

module _ {W : Type 0} ⦃d : Double W⦄ (lv : DiagLevels) (ty : DiagTypes) where
  -- The end of the three checks: the level, the type and SET_DIAG_STATUS.
  abbrev pub set_classified :
      ℕ → String → String → String → (ℕ → Result Bool) → HealthChecker W → Outcome W
  set_classified now key json description identify c = on_return (classify lv identify) (λ level.
      set_diag_status lv now
        (record (set_value_common now key json description) {
          level = level;
          type = ty.out_of_range;
        })
        c)

  -- CHECK_MIN_VALUE
  unfoldable pub check_min_value :
      (W → String) → ℕ → String → W → Thresholds W → String → HealthChecker W → Outcome W
  check_min_value json now key value t description c =
      let c1 = with_candidate key c in
      if is_not_found key c1.values
      then returned (lv.undefined, c1)
      else let c2 = set_thresholds lv key "min" t c1 in
        set_classified now key (json value) description (is_below lv key value c2) c2

  -- CHECK_MAX_VALUE
  unfoldable pub check_max_value :
      (W → String) → ℕ → String → W → Thresholds W → String → HealthChecker W → Outcome W
  check_max_value json now key value t description c =
      let c1 = with_candidate key c in
      if is_not_found key c1.values
      then returned (lv.undefined, c1)
      else let c2 = set_thresholds lv key "max" t c1 in
        set_classified now key (json value) description (is_above lv key value c2) c2

  -- CHECK_RANGE, with the lower and the upper thresholds
  unfoldable pub check_range :
      (W → String)
      → ℕ
      → String
      → W
      → Thresholds W
      → Thresholds W
      → String
      → HealthChecker W
      → Outcome W
  check_range json now key value low high description c =
      let c1 = with_candidate key c in
      if is_not_found key c1.values
      then returned (lv.undefined, c1)
      else let c2 = set_thresholds lv key "max" high (set_thresholds lv key "min" low c1) in
        set_classified now key (json value) description (is_outside lv key value c2) c2

module _ {W : Type 0} (lv : DiagLevels) (ty : DiagTypes) where
  -- CHECK_RATE
  unfoldable pub check_rate :
      ℕ → String → Thresholds W → String → HealthChecker W → Result (HealthChecker W)
  check_rate now key t description c =
      let c1 = with_candidate key c in
      if is_not_found key c1.values
      then returned c1
      else on_return (count_rate lv now key (add_rate_checker lv now key t description c1))
          (λ c2. returned (add_new_buffer key ty.unexpected_rate description c2))
