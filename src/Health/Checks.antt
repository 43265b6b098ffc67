-- ===== src/Health/Checks.antt =====
-- What the checks of autoware_health_checker/src/health_checker/health_checker.cpp return and record.
use autoware_ai_common.Base.{
  Bool, String, ap, arith, false, if◌then◌else◌, refl, true, ℕ, ◌||◌, ◌∙◌, ◌≡◌,
}
use autoware_ai_common.Base.Text.{string_key}
use autoware_ai_common.Messages.{DiagLevels, DiagTypes, DiagnosticStatus, IsRising}
use autoware_ai_common.Health.Values.{
  ValueManager, get_value, is_not_found, set_default_value, summary_key,
}
use autoware_ai_common.Health.Checker.{
  HealthChecker, Thresholds, check_max_value, check_min_value, check_range, classify, is_above,
  is_below, is_outside, set_classified, set_diag_status, set_thresholds, set_value_common,
  with_candidate,
}
use autoware_ai_common.Base.Double.{Double}
use autoware_ai_common.Health.Thresholds.{
  IsNumeric, set_default_value-Counts, set_default_value-Counts_other, threshold,
}
use autoware_ai_common.Health.Results.{Result, on_return, returned}
use autoware_ai_common.Health.Recording.{Recorded, set_diag_status-Recorded}

-- classify, when all of its tests are there.
classify-some :
    (lv : DiagLevels) (identify : ℕ → Result Bool) (f e w : Bool)
    → identify lv.fatal ≡ returned f
    → identify lv.error ≡ returned e
    → identify lv.warn ≡ returned w
    → classify lv identify
      ≡ returned (if f then lv.fatal else if e then lv.error else if w then lv.warn else lv.ok)
unfolding classify
classify-some lv identify f e w p q r = ground (arith, p, q, r)

abbrev pub level_from : DiagLevels → Bool → Bool → Bool → ℕ
level_from lv f e w = if f then lv.fatal else if e then lv.error else if w then lv.warn else lv.ok

-- The status of one of the three checks.
abbrev pub checked_status : DiagTypes → ℕ → String → String → String → ℕ → DiagnosticStatus
checked_status ty now key json description level =
    record (set_value_common now key json description) { level = level; type = ty.out_of_range }

module _ {W : Type 0} ⦃d : Double W⦄ (lv : DiagLevels) (ty : DiagTypes) where
  set_classified-Recorded :
      (now : ℕ) (key json description : String) (identify : ℕ → Result Bool) (c : HealthChecker W)
      (f e w : Bool)
      → is_not_found key c.values ≡ false
      → identify lv.fatal ≡ returned f
      → identify lv.error ≡ returned e
      → identify lv.warn ≡ returned w
      → (c' : HealthChecker W) × (set_classified lv ty now key json description identify c
          ≡ returned (level_from lv f e w, c'))
        × Recorded lv now (checked_status ty now key json description (level_from lv f e w)) c c'
  set_classified-Recorded now key json description identify c f e w h p q r =
      let s = checked_status ty now key json description (level_from lv f e w) in
      let (c', x, y) = set_diag_status-Recorded lv now s c h (ground arith) in
      (
        c',
        ap
              (λ o. on_return o (λ level.
                set_diag_status lv now (checked_status ty now key json description level) c))
              (classify-some lv identify f e w p q r)
            ∙ x,
        y,
      )

  -- With the levels in their documented order, CHECK_MIN_VALUE of a key that the server has, with no
  -- threshold that is not a double: FATAL, ERROR or WARN by the first of these thresholds that the
  -- value is under, or else OK, where a threshold is the server's or, if it has none, the code's; the
  -- status with that level is returned and recorded.
  pub check_min_value-Recorded :
      (json : W → String) (now : ℕ) (key : String) (value : W) (t : Thresholds W)
      (description : String) (c : HealthChecker W)
      → IsRising lv
      → is_not_found key c.values ≡ false
      → IsNumeric key c.values.params
      → (c' : HealthChecker W) × (check_min_value lv ty json now key value t description c
          ≡ returned (
            level_from lv
                (d.lt value (threshold key "min" "fatal" t.fatal_value c.values))
                (d.lt value (threshold key "min" "error" t.error_value c.values))
                (d.lt value (threshold key "min" "warn" t.warn_value c.values)),
            c',
          ))
        × Recorded lv now
            (checked_status ty now key (json value) description (
              level_from lv
                (d.lt value (threshold key "min" "fatal" t.fatal_value c.values))
                (d.lt value (threshold key "min" "error" t.error_value c.values))
                (d.lt value (threshold key "min" "warn" t.warn_value c.values))))
            (set_thresholds lv key "min" t (with_candidate key c))
            c'
  unfolding check_min_value set_default_value
  check_min_value-Recorded json now key value t description c r h num =
      let c1 = with_candidate key c in
      let c2 = set_thresholds lv key "min" t c1 in
      let n = set_default_value-Counts lv key "min" t c1.values r h num in
      let test = λ (o : Result W). on_return o (λ x. returned (d.lt value x)) in
      let (c', x, y) =
        set_classified-Recorded now key (json value) description (is_below lv key value c2) c2
          (d.lt value (threshold key "min" "fatal" t.fatal_value c.values))
          (d.lt value (threshold key "min" "error" t.error_value c.values))
          (d.lt value (threshold key "min" "warn" t.warn_value c.values)) h (ap test n.fatal_counts)
          (ap test n.error_counts) (ap test n.warn_counts) in
      (c', rw h x, y)

  -- The test of CHECK_MAX_VALUE, which looks for the thresholds that the value is over.
  pub check_max_value-Recorded :
      (json : W → String) (now : ℕ) (key : String) (value : W) (t : Thresholds W)
      (description : String) (c : HealthChecker W)
      → IsRising lv
      → is_not_found key c.values ≡ false
      → IsNumeric key c.values.params
      → (c' : HealthChecker W) × (check_max_value lv ty json now key value t description c
          ≡ returned (
            level_from lv
                (d.lt (threshold key "max" "fatal" t.fatal_value c.values) value)
                (d.lt (threshold key "max" "error" t.error_value c.values) value)
                (d.lt (threshold key "max" "warn" t.warn_value c.values) value),
            c',
          ))
        × Recorded lv now
            (checked_status ty now key (json value) description (
              level_from lv
                (d.lt (threshold key "max" "fatal" t.fatal_value c.values) value)
                (d.lt (threshold key "max" "error" t.error_value c.values) value)
                (d.lt (threshold key "max" "warn" t.warn_value c.values) value)))
            (set_thresholds lv key "max" t (with_candidate key c))
            c'
  unfolding check_max_value set_default_value
  check_max_value-Recorded json now key value t description c r h num =
      let c1 = with_candidate key c in
      let c2 = set_thresholds lv key "max" t c1 in
      let n = set_default_value-Counts lv key "max" t c1.values r h num in
      let test = λ (o : Result W). on_return o (λ x. returned (d.lt x value)) in
      let (c', x, y) =
        set_classified-Recorded now key (json value) description (is_above lv key value c2) c2
          (d.lt (threshold key "max" "fatal" t.fatal_value c.values) value)
          (d.lt (threshold key "max" "error" t.error_value c.values) value)
          (d.lt (threshold key "max" "warn" t.warn_value c.values) value) h (ap test n.fatal_counts)
          (ap test n.error_counts) (ap test n.warn_counts) in
      (c', rw h x, y)

  -- Whether a value is outside of the range of one level.
  abbrev pub outside : String → String → W → W → W → ValueManager W → Bool
  outside key name low high value v =
      d.lt value (threshold key "min" name low v) || d.lt (threshold key "max" name high v) value

  abbrev pub range_level : String → Thresholds W → Thresholds W → W → ValueManager W → ℕ
  range_level key low high value v =
      level_from lv (outside key "fatal" low.fatal_value high.fatal_value value v)
        (outside key "error" low.error_value high.error_value value v)
        (outside key "warn" low.warn_value high.warn_value value v)

  outside-some :
      (key : String) (value low high : W) (c : HealthChecker W) (level : ℕ)
      → get_value lv key "min" level c.values ≡ returned low
      → get_value lv key "max" level c.values ≡ returned high
      → is_outside lv key value c level ≡ returned (d.lt value low || d.lt high value)
  outside-some key value low high c level p q =
      ap
        (λ o.
          on_return (on_return o (λ x. returned (d.lt value x)))
            (λ below. if below then returned true else is_above lv key value c level))
        p
      ∙ ap
          (λ o.
            if d.lt value low then returned true else on_return o (λ x. returned (d.lt x value)))
          q
      ∙ ground arith

  -- With the levels in their documented order, CHECK_RANGE of a key that the server has, with no
  -- threshold that is not a double: FATAL, ERROR or WARN by the first of these ranges that the value is
  -- outside of, or else OK, where a limit is the server's or, if it has none, the code's; the status
  -- with that level is returned and recorded.
  pub check_range-Recorded :
      (json : W → String) (now : ℕ) (key : String) (value : W) (low high : Thresholds W)
      (description : String) (c : HealthChecker W)
      → IsRising lv
      → is_not_found key c.values ≡ false
      → IsNumeric key c.values.params
      → (c' : HealthChecker W) × (check_range lv ty json now key value low high description c
          ≡ returned (range_level key low high value c.values, c'))
        × Recorded lv now
            (checked_status ty now key
              (json value)
              description
              (range_level key low high value c.values))
            (set_thresholds lv key "max" high
              (set_thresholds lv key "min" low (with_candidate key c)))
            c'
  unfolding check_range set_default_value
  check_range-Recorded json now key value low high description c r h num =
      let c1 = with_candidate key c in
      let c2 = set_thresholds lv key "min" low c1 in
      let c3 = set_thresholds lv key "max" high c2 in
      let v = c.values in
      let n = set_default_value-Counts_other lv key "min" "max" low high c1.values r h num refl in
      let m = set_default_value-Counts lv key "max" high c2.values r h num in
      let (c', x, y) =
        set_classified-Recorded now key (json value) description (is_outside lv key value c3) c3
          (outside key "fatal" low.fatal_value high.fatal_value value v)
          (outside key "error" low.error_value high.error_value value v)
          (outside key "warn" low.warn_value high.warn_value value v) h
          (outside-some key value (threshold key "min" "fatal" low.fatal_value v)
            (threshold key "max" "fatal" high.fatal_value v) c3 lv.fatal n.fatal_counts
            m.fatal_counts)
          (outside-some key value (threshold key "min" "error" low.error_value v)
            (threshold key "max" "error" high.error_value v) c3 lv.error n.error_counts
            m.error_counts)
          (outside-some key value (threshold key "min" "warn" low.warn_value v)
            (threshold key "max" "warn" high.warn_value v) c3 lv.warn n.warn_counts
            m.warn_counts) in
      (c', rw h x, y)
