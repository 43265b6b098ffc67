-- ===== src/Health/Kept.antt =====
-- The checks of a value in autoware_health_checker/src/health_checker/health_checker.cpp return and keep apart
-- the keys of CHECK_RATE.
use autoware_ai_common.Base.{Bool, Bool-cases, String, false, inl, inr, refl, ℕ, ◌≡◌}
use autoware_ai_common.Health.Checker.{
  HealthChecker, Thresholds, check_max_value, check_min_value, check_range, set_thresholds,
  with_candidate,
}
use autoware_ai_common.Health.Checks.{
  check_max_value-Recorded, check_min_value-Recorded, check_range-Recorded,
}
use autoware_ai_common.Health.Separate.{
  IsSeparate, Recorded-IsSeparate, Works, candidate-IsSeparate, set_thresholds-IsSeparate,
}
use autoware_ai_common.Messages.{DiagLevels, DiagTypes, IsRising}
use autoware_ai_common.Health.Values.{is_not_found, summary_key}
use autoware_ai_common.Base.Double.{Double}
use autoware_ai_common.Base.Text.{string_key}

module _ {W : Type 0} ⦃d : Double W⦄ (rate_key : String → Bool) (lv : DiagLevels) (ty : DiagTypes)
    (rising : IsRising lv) (json : W → String) where
  pub check_min_value-Works :
      (now : ℕ) (key : String) (x : W) (t : Thresholds W) (description : String)
      (c : HealthChecker W)
      → rate_key key ≡ false
      → IsSeparate rate_key lv c
      → Works rate_key lv (check_min_value lv ty json now key x t description c)
  check_min_value-Works now key x t description c k v =
      let c1 = with_candidate key c in
      let v1 = candidate-IsSeparate rate_key lv key c v in
      elim (Bool-cases (is_not_found key c.values)) [
        | inl h ↦ ((lv.undefined, c1), unfold check_min_value in rw h refl, v1)
        | inr h ↦
            let (c', e, y) =
              check_min_value-Recorded lv ty json now key x t description c rising h
                (v.numeric key) in
            (
              (_, c'),
              e,
              Recorded-IsSeparate rate_key lv now _ (set_thresholds lv key "min" t c1) c' k y
                  (set_thresholds-IsSeparate rate_key lv key "min" t c1 rising v1),
            )
      ]

  pub check_max_value-Works :
      (now : ℕ) (key : String) (x : W) (t : Thresholds W) (description : String)
      (c : HealthChecker W)
      → rate_key key ≡ false
      → IsSeparate rate_key lv c
      → Works rate_key lv (check_max_value lv ty json now key x t description c)
  check_max_value-Works now key x t description c k v =
      let c1 = with_candidate key c in
      let v1 = candidate-IsSeparate rate_key lv key c v in
      elim (Bool-cases (is_not_found key c.values)) [
        | inl h ↦ ((lv.undefined, c1), unfold check_max_value in rw h refl, v1)
        | inr h ↦
            let (c', e, y) =
              check_max_value-Recorded lv ty json now key x t description c rising h
                (v.numeric key) in
            (
              (_, c'),
              e,
              Recorded-IsSeparate rate_key lv now _ (set_thresholds lv key "max" t c1) c' k y
                  (set_thresholds-IsSeparate rate_key lv key "max" t c1 rising v1),
            )
      ]

  pub check_range-Works :
      (now : ℕ) (key : String) (x : W) (low high : Thresholds W) (description : String)
      (c : HealthChecker W)
      → rate_key key ≡ false
      → IsSeparate rate_key lv c
      → Works rate_key lv (check_range lv ty json now key x low high description c)
  check_range-Works now key x low high description c k v =
      let c1 = with_candidate key c in
      let c2 = set_thresholds lv key "min" low c1 in
      let v2 =
        set_thresholds-IsSeparate rate_key lv key "min" low c1 rising
          (candidate-IsSeparate rate_key lv key c v) in
      elim (Bool-cases (is_not_found key c.values)) [
        | inl h ↦ (
          (lv.undefined, c1),
          unfold check_range in rw h refl,
          candidate-IsSeparate rate_key lv key c v,
        )
        | inr h ↦
            let (c', e, y) =
              check_range-Recorded lv ty json now key x low high description c rising h
                (v.numeric key) in
            (
              (_, c'),
              e,
              Recorded-IsSeparate rate_key lv now _ (set_thresholds lv key "max" high c2) c' k y
                  (set_thresholds-IsSeparate rate_key lv key "max" high c2 rising v2),
            )
      ]
