-- ===== src/Health/Faults.antt =====
-- When the checks of autoware_health_checker/src/health_checker/health_checker.cpp fail.
use autoware_ai_common.Base.{
  Bool-cases, Option-cases, String, ap, arith, false, if◌then◌else◌, inl, inr, is_some, none, not,
  refl, some, true, ℕ, ◌||◌, ◌∙◌, ◌≡◌,
}
use autoware_ai_common.Base.Text.{eq_iff, string_key}
use autoware_ai_common.Base.Map.{assign, lookup, lookup-assign}
use autoware_ai_common.Messages.{DiagLevels, DiagTypes, IsRising}
use autoware_ai_common.Health.Values.{
  ValueManager, get_value, is_not_found, level_name, set_default_value, summary_key,
}
use autoware_ai_common.Health.Checker.{
  HealthChecker, Thresholds, add_new_buffer, add_rate_checker, check_rate, count_rate, key_exist,
  with_candidate,
}
use autoware_ai_common.Health.Thresholds.{
  IsNumeric, detail, get_value-eq, level_name-IsRising, threshold,
}
use autoware_ai_common.Health.RateChecker.{
  RateChecker, buffer_duration, check, new_checker, set_rate,
}
use autoware_ai_common.Health.Results.{fault_of, null_pointer, out_of_range, returned}
use autoware_ai_common.Health.Missing.{
  fault_of-on_return, get_value-fault, has_rate, if_and, is_rated, on_return-fault, or_fail-fault,
}

-- The thresholds of a rate are there.
abbrev pub IsDetailed : {W : Type 0} → DiagLevels → String → ValueManager W → Type 0
IsDetailed lv key v =
    (is_some (lookup (key, "rate", lv.warn) v.error_details) ≡ true)
    × (is_some (lookup (key, "rate", lv.error) v.error_details) ≡ true)
    × (is_some (lookup (key, "rate", lv.fatal) v.error_details) ≡ true)

-- Every rate checker has its thresholds.
pub record IsChecker {W : Type 0} (lv : DiagLevels) (c : HealthChecker W) : Type 0 where
  pub detailed :
      (key : String) → is_some (lookup key c.rate_checkers) ≡ true → IsDetailed lv key c.values

get_value-returned :
    {W : Type 0} (lv : DiagLevels) (key thresh_type name : String) (level : ℕ) (v : ValueManager W)
    → is_not_found key v ≡ false
    → IsNumeric key v.params
    → level_name lv level ≡ some name
    → is_some (lookup (key, thresh_type, level) v.error_details) ≡ true
    → (x : W) × (get_value lv key thresh_type level v ≡ returned x)
get_value-returned lv key thresh_type name level v h num l e =
    elim (Option-cases (lookup (key, thresh_type, level) v.error_details)) [
      | inl n ↦ absurd (cc (e, n))
      | inr (x, n) ↦ (
        threshold key thresh_type name x v,
        get_value-eq lv key thresh_type name level x v h num l n,
      )
    ]

-- What the first call of CHECK_RATE makes of a key that has no buffer.
abbrev pub rated :
    {W : Type 0}
    → DiagLevels
    → ℕ
    → String
    → Thresholds W
    → String
    → HealthChecker W
    → HealthChecker W
rated lv now key t description c = record c {
  values = set_default_value lv key "rate" t.warn_value t.error_value t.fatal_value c.values;
  rate_checkers =
      assign key
        (new_checker now buffer_duration t.warn_value t.error_value t.fatal_value description)
        c.rate_checkers;
}

module _ {W : Type 0} (lv : DiagLevels) (rising : IsRising lv) where
  -- The rest of CHECK_RATE: it needs the three thresholds first, and then the rate checker.
  count_rate-fault :
      (now : ℕ) (key : String) (c : HealthChecker W)
      → is_not_found key c.values ≡ false
      → IsNumeric key c.values.params
      → fault_of (count_rate lv now key c) ≡ (
          if is_rated lv key c.values
          then (if is_some (lookup key c.rate_checkers) then none else some null_pointer)
          else some out_of_range)
  unfolding count_rate
  count_rate-fault now key c h num =
      let v = c.values in
      let (f, e, w) = level_name-IsRising lv rising in
      let last = if is_some (lookup key c.rate_checkers) then none else some null_pointer in
      on_return-fault (get_value lv key "rate" lv.warn v) _ (has_rate key "warn" lv.warn v)
        out_of_range _ (get_value-fault lv key "warn" lv.warn v h num w)
        (λ x.
          on_return-fault (get_value lv key "rate" lv.error v) _ (has_rate key "error" lv.error v)
            out_of_range _ (get_value-fault lv key "error" lv.error v h num e)
            (λ y.
              on_return-fault (get_value lv key "rate" lv.fatal v) _
                (has_rate key "fatal" lv.fatal v) out_of_range _
                (get_value-fault lv key "fatal" lv.fatal v h num f)
                (λ z. or_fail-fault (lookup key c.rate_checkers) null_pointer _)))
      ∙ if_and (has_rate key "warn" lv.warn v) (has_rate key "error" lv.error v)
          (has_rate key "fatal" lv.fatal v) last (some out_of_range)

  pub count_rate-some :
      (now : ℕ) (key : String) (r : RateChecker W) (c : HealthChecker W)
      → is_not_found key c.values ≡ false
      → IsNumeric key c.values.params
      → IsDetailed lv key c.values
      → lookup key c.rate_checkers ≡ some r
      → (r' : RateChecker W) × (count_rate lv now key c
          ≡ returned (record c { rate_checkers = assign key r' c.rate_checkers }))
  unfolding count_rate
  count_rate-some now key r c h num n found =
      let (f, e, w) = level_name-IsRising lv rising in
      let (x, p) = get_value-returned lv key "rate" "warn" lv.warn c.values h num w n.0 in
      let (y, q) = get_value-returned lv key "rate" "error" lv.error c.values h num e n.1 in
      let (z, u) = get_value-returned lv key "rate" "fatal" lv.fatal c.values h num f n.2 in
      (check now (set_rate now x y z r), rw (p, q, u, found) refl)

  pub set_default_value-IsDetailed :
      (key thresh_type other : String) (t : Thresholds W) (v : ValueManager W)
      → IsDetailed lv other v
      → IsDetailed lv other
          (set_default_value lv key thresh_type t.warn_value t.error_value t.fatal_value v)
  set_default_value-IsDetailed key thresh_type other t v h = (
    ground (arith, detail lv key thresh_type t v other "rate" lv.warn, h.0),
    ground (arith, detail lv key thresh_type t v other "rate" lv.error, h.1),
    ground (arith, detail lv key thresh_type t v other "rate" lv.fatal, h.2),
  )

  pub set_default_value-IsDetailed_new :
      (key : String) (t : Thresholds W) (v : ValueManager W)
      → IsDetailed lv key
          (set_default_value lv key "rate" t.warn_value t.error_value t.fatal_value v)
  set_default_value-IsDetailed_new key t v =
      let k = eq_iff key key in
      (
        ground (arith, detail lv key "rate" t v key "rate" lv.warn, k),
        ground (arith, detail lv key "rate" t v key "rate" lv.error, k),
        ground (arith, detail lv key "rate" t v key "rate" lv.fatal, k),
      )

  add_rate_checker-eq :
      (now : ℕ) (key : String) (t : Thresholds W) (description : String) (c : HealthChecker W)
      → add_rate_checker lv now key t description c
        ≡ (if key_exist key c then c else rated lv now key t description c)
  unfolding add_rate_checker
  add_rate_checker-eq now key t description c = refl

  pub lookup-rated :
      (now : ℕ) (key : String) (t : Thresholds W) (description : String) (c : HealthChecker W)
      → is_some (lookup key (rated lv now key t description c).rate_checkers) ≡ true
  lookup-rated now key t description c =
      let r =
        new_checker now buffer_duration t.warn_value t.error_value t.fatal_value description in
      ground (arith, lookup-assign key key r c.rate_checkers, eq_iff key key)

  IsDetailed-is_rated :
      (key : String) (v : ValueManager W) → IsDetailed lv key v → is_rated lv key v ≡ true
  IsDetailed-is_rated key v h = ground (arith, h.0, h.1, h.2)

  -- The first call of CHECK_RATE for a key does not fail.
  count_rate-rated :
      (now : ℕ) (key : String) (t : Thresholds W) (description : String) (c : HealthChecker W)
      → is_not_found key c.values ≡ false
      → IsNumeric key c.values.params
      → fault_of (count_rate lv now key (rated lv now key t description c)) ≡ none
  unfolding set_default_value
  count_rate-rated now key t description c h num =
      let c1 = rated lv now key t description c in
      count_rate-fault now key c1 h num
      ∙ rw
          (
            IsDetailed-is_rated key c1.values (set_default_value-IsDetailed_new key t c.values),
            lookup-rated now key t description c,
          )
          refl

  count_rate-old :
      (now : ℕ) (key : String) (c : HealthChecker W)
      → IsChecker lv c
      → is_not_found key c.values ≡ false
      → IsNumeric key c.values.params
      → fault_of (count_rate lv now key c) ≡ (
          if is_some (lookup key c.rate_checkers)
          then none
          else if is_rated lv key c.values
          then some null_pointer
          else some out_of_range)
  count_rate-old now key c v h num =
      count_rate-fault now key c h num ∙ elim (Bool-cases (is_some (lookup key c.rate_checkers))) [
        | inl n ↦ rw (n, IsDetailed-is_rated key c.values (v.detailed key n)) refl
        | inr n ↦ rw n refl
      ]

-- With the levels in their documented order, CHECK_RATE of a node whose rate checkers all have their
-- thresholds, for a key whose thresholds on the server are doubles, fails exactly for a key that the
-- server has, that has a buffer, and that has no rate checker. Then it fails by std::out_of_range if
-- for one of the three thresholds of the rate neither the server nor the code has a value, and
-- otherwise by a null pointer.
pub check_rate-fault :
    {W : Type 0} (lv : DiagLevels) (ty : DiagTypes) (now : ℕ) (key : String) (t : Thresholds W)
    (description : String) (c : HealthChecker W)
    → IsRising lv
    → IsChecker lv c
    → IsNumeric key c.values.params
    → fault_of (check_rate lv ty now key t description c) ≡ (
        if is_not_found key c.values || not (key_exist key c)
        then none
        else if is_some (lookup key c.rate_checkers)
        then none
        else if is_rated lv key c.values
        then some null_pointer
        else some out_of_range)
unfolding check_rate
check_rate-fault lv ty now key t description c rising v num =
    let c1 = with_candidate key c in
    let v1 : IsChecker lv c1 = record { detailed = v.detailed } in
    let new = rated lv now key t description c1 in
    let counted =
      fault_of-on_return (count_rate lv now key (add_rate_checker lv now key t description c1))
        (add_new_buffer key ty.unexpected_rate description)
      ∙ ap (λ x. fault_of (count_rate lv now key x))
          (add_rate_checker-eq lv rising now key t description c1) in
    elim (Bool-cases (is_not_found key c.values)) [
      | inl h ↦ rw h refl
      | inr h ↦ elim (Bool-cases (key_exist key c)) [
        | inl k ↦
            rw (h, k)
              (counted
                ∙ ap (λ b. fault_of (count_rate lv now key (if b then c1 else new))) k
                ∙ count_rate-old lv rising now key c1 v1 h num)
        | inr k ↦
            rw (h, k)
              (counted
                ∙ ap (λ b. fault_of (count_rate lv now key (if b then c1 else new))) k
                ∙ count_rate-rated lv rising now key t description c1 h num)
      ]
    ]
