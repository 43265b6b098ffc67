-- ===== src/Health/Separate.antt =====
-- A node of autoware_health_checker/src/health_checker/health_checker.cpp that has different keys for
-- CHECK_RATE and for its other checks.
use autoware_ai_common.Base.{
  Bool, Bool-cases, Option-cases, String, ap, arith, false, if◌then◌else◌, inl, inr, is_some, not,
  refl, some, subst, sym, true, ℕ, ◌∙◌, ◌≡◌,
}
use autoware_ai_common.Base.Text.{eq_iff, string_key}
use autoware_ai_common.Base.Map.{assign, lookup, lookup-assign}
use autoware_ai_common.Messages.{DiagLevels, DiagTypes, DiagnosticStatus, IsRising}
use autoware_ai_common.Health.Values.{children, is_not_found, set_default_value, summary_key}
use autoware_ai_common.Health.Checker.{
  HealthChecker, Outcome, Thresholds, add_new_buffer, add_rate_checker, check_rate, check_value,
  is_known_level, key_exist, set_diag_status, set_thresholds, set_value_common, with_candidate,
}
use autoware_ai_common.Health.Operations.{
  Operation, activated, candidates_set, diag_status, max_value, min_value, params_reloaded, range,
  rate, round, value,
}
use autoware_ai_common.Health.Faults.{
  IsChecker, IsDetailed, count_rate-some, lookup-rated, rated, set_default_value-IsDetailed,
  set_default_value-IsDetailed_new,
}
use autoware_ai_common.Health.RateChecker.{RateChecker, buffer_duration, new_checker}
use autoware_ai_common.Health.DiagBuffer.{buffer_duration_nsec, new_buffer}
use autoware_ai_common.Health.Thresholds.{IsNumeric}
use autoware_ai_common.Health.Results.{returned}
use autoware_ai_common.Health.Recording.{Recorded, set_diag_status-Recorded}

-- The rate checkers have their thresholds, a key for rates that has a buffer has a rate checker, and the
-- server's thresholds are doubles.
pub record IsSeparate {W : Type 0} (rate_key : String → Bool) (lv : DiagLevels)
    (c : HealthChecker W) : Type 0 where
  pub checker : IsChecker lv c
  pub split :
      (key : String)
      → rate_key key ≡ true
      → key_exist key c ≡ true
      → is_some (lookup key c.rate_checkers) ≡ true
  pub numeric : (key : String) → IsNumeric key c.values.params

-- CHECK_RATE has the keys for rates, and the other checks have not.
abbrev pub Keeps : {W : Type 0} → (String → Bool) → Operation W → Type 0
Keeps rate_key (diag_status s) = rate_key s.key ≡ false
Keeps rate_key (value key text level description) = rate_key key ≡ false
Keeps rate_key (min_value key x t description) = rate_key key ≡ false
Keeps rate_key (max_value key x t description) = rate_key key ≡ false
Keeps rate_key (range key x low high description) = rate_key key ≡ false
Keeps rate_key (rate key t description) = rate_key key ≡ true
Keeps rate_key (activated b) = Unit
Keeps rate_key (params_reloaded params) = (key : String) → IsNumeric key params
Keeps rate_key candidates_set = Unit
Keeps rate_key (round prev) = Unit

module _ {W : Type 0} (rate_key : String → Bool) (lv : DiagLevels) where
  abbrev pub Works : Outcome W → Type 0
  Works o = (r : ℕ × HealthChecker W) × (o ≡ returned r) × IsSeparate rate_key lv r.1

  Works-if :
      (b : Bool) (x y : Outcome W)
      → (b ≡ true → Works x)
      → (b ≡ false → Works y)
      → Works (if b then x else y)
  Works-if true x y p q = p refl
  Works-if false x y p q = q refl

  pub candidate-IsSeparate :
      (key : String) (c : HealthChecker W)
      → IsSeparate rate_key lv c
      → IsSeparate rate_key lv (with_candidate key c)
  candidate-IsSeparate key c v = record {
    checker = record { detailed = v.checker.detailed };
    split = v.split;
    numeric = v.numeric;
  }

  pub Recorded-IsSeparate :
      (now : ℕ) (s : DiagnosticStatus) (c c' : HealthChecker W)
      → rate_key s.key ≡ false
      → Recorded lv now s c c'
      → IsSeparate rate_key lv c
      → IsSeparate rate_key lv c'
  Recorded-IsSeparate now s c c' k r v = record {
    checker = record {
      detailed = λ key h.
          subst (IsDetailed lv key) (sym r.same_values)
            (v.checker.detailed key (ap (λ m. is_some (lookup key m)) (sym r.same_checkers) ∙ h));
    };
    split = λ key p h.
        ap (λ m. is_some (lookup key m)) r.same_checkers
        ∙ v.split key p (ground (arith, h, r.buffers key, k, p, eq_iff s.key key));
    numeric = λ key. subst (λ u. IsNumeric key u.params) (sym r.same_values) (v.numeric key);
  }

  pub set_thresholds-IsSeparate :
      (key thresh_type : String) (t : Thresholds W) (c : HealthChecker W)
      → IsRising lv
      → IsSeparate rate_key lv c
      → IsSeparate rate_key lv (set_thresholds lv key thresh_type t c)
  unfolding set_default_value
  set_thresholds-IsSeparate key thresh_type t c r v = record {
    checker = record {
      detailed = λ other h.
          set_default_value-IsDetailed lv r key thresh_type other t c.values
            (v.checker.detailed other h);
    };
    split = v.split;
    numeric = v.numeric;
  }

  pub set_diag_status-Works :
      (now : ℕ) (s : DiagnosticStatus) (c : HealthChecker W)
      → rate_key s.key ≡ false
      → IsSeparate rate_key lv c
      → Works (set_diag_status lv now s c)
  unfolding set_diag_status
  set_diag_status-Works now s c k v =
      let c1 = with_candidate s.key c in
      let v1 = candidate-IsSeparate s.key c v in
      elim (Bool-cases (is_not_found s.key c.values)) [
        | inl h ↦ ((lv.undefined, c1), rw h refl, v1)
        | inr h ↦ elim (Bool-cases (is_known_level lv s.level)) [
          | inl l ↦
              let (c', x, y) = set_diag_status-Recorded lv now s c h l in
              ((s.level, c'), x, Recorded-IsSeparate now s c c' k y v)
          | inr l ↦ ((lv.undefined, c1), rw (h, l) refl, v1)
        ]
      ]

  pub check_value-Works :
      (ty : DiagTypes) (now : ℕ) (key text : String) (level : ℕ) (description : String)
      (c : HealthChecker W)
      → rate_key key ≡ false
      → IsSeparate rate_key lv c
      → Works (check_value lv ty now key text level description c)
  unfolding check_value
  check_value-Works ty now key text level description c k v =
      let c1 = with_candidate key c in
      let v1 = candidate-IsSeparate key c v in
      let s = record (set_value_common now key text description) {
        level = level;
        type = ty.invalid_value;
      } in
      elim (Bool-cases (is_not_found key c.values)) [
        | inl h ↦ ((lv.undefined, c1), rw h refl, v1)
        | inr h ↦ let (r, x, y) = set_diag_status-Works now s c1 k v1 in (r, rw h x, y)
      ]

  rated-IsSeparate :
      (now : ℕ) (key : String) (t : Thresholds W) (description : String) (c : HealthChecker W)
      → IsRising lv
      → IsSeparate rate_key lv c
      → IsSeparate rate_key lv (rated lv now key t description c)
  unfolding set_default_value
  rated-IsSeparate now key t description c rising v =
      let r =
        new_checker now buffer_duration t.warn_value t.error_value t.fatal_value description in
      record {
        checker = record {
          detailed = λ other h. elim (Bool-cases (string_key.beq key other)) [
            | inl e ↦
                subst (λ k. IsDetailed lv k (rated lv now key t description c).values)
                  ((eq_iff key other).0 e)
                  (set_default_value-IsDetailed_new lv rising key t c.values)
            | inr e ↦ set_default_value-IsDetailed lv rising key "rate" other t c.values (
                v.checker.detailed other
                  (ground (arith, h, e, lookup-assign key other r c.rate_checkers)))
          ];
        };
        split = λ other p h.
            ground (arith, lookup-assign key other r c.rate_checkers, v.split other p h);
        numeric = v.numeric;
      }

  -- The state after the first part of CHECK_RATE has a rate checker for its key.
  add_rate_checker-IsSeparate :
      (now : ℕ) (key : String) (t : Thresholds W) (description : String) (c : HealthChecker W)
      → IsRising lv
      → rate_key key ≡ true
      → IsSeparate rate_key lv c
      → IsSeparate rate_key lv (add_rate_checker lv now key t description c)
        × (is_some (lookup key (add_rate_checker lv now key t description c).rate_checkers) ≡ true)
        × ((add_rate_checker lv now key t description c).values.params ≡ c.values.params)
  unfolding add_rate_checker set_default_value
  add_rate_checker-IsSeparate now key t description c rising k v =
      elim (Bool-cases (key_exist key c)) [
        | inl e ↦ rw e (v, v.split key k e, refl)
        | inr e ↦ rw e (
          rated-IsSeparate now key t description c rising v,
          lookup-rated lv rising now key t description c,
          refl,
        )
      ]

  counted-IsSeparate :
      (key : String) (r : RateChecker W) (type : ℕ) (description : String) (c : HealthChecker W)
      → is_some (lookup key c.rate_checkers) ≡ true
      → IsSeparate rate_key lv c
      → IsSeparate rate_key lv (
          add_new_buffer key type description
            (record c { rate_checkers = assign key r c.rate_checkers }))
  unfolding add_new_buffer
  counted-IsSeparate key r type description c h v =
      let m = assign key r c.rate_checkers in
      let c' : HealthChecker W = record c { rate_checkers = m } in
      let v' : IsSeparate rate_key lv c' = record {
        checker = record {
          detailed = λ other g.
              v.checker.detailed other
                (ground (arith, g, h, lookup-assign key other r c.rate_checkers, eq_iff key other));
        };
        split = λ other p g.
            ground (arith, lookup-assign key other r c.rate_checkers, v.split other p g);
        numeric = v.numeric;
      } in
      elim (Bool-cases (key_exist key c)) [
        | inl e ↦ rw e v'
        | inr e ↦ rw e (record {
          checker = record { detailed = v'.checker.detailed };
          split = λ other p g. elim (Bool-cases (string_key.beq key other)) [
            | inl o ↦
                subst (λ k. is_some (lookup k m) ≡ true) ((eq_iff key other).0 o)
                  (ap is_some (lookup-assign key key r c.rate_checkers)
                    ∙ ap (λ b. is_some (if b then some r else lookup key c.rate_checkers))
                        ((eq_iff key key).1 refl))
            | inr o ↦ v'.split other p (
                ground (
                  arith,
                  g,
                  o,
                  lookup-assign key other (new_buffer key type description buffer_duration_nsec)
                      c.diag_buffers,
                ))
          ];
          numeric = v.numeric;
        })
      ]

  pub check_rate-Works :
      (ty : DiagTypes) (now : ℕ) (key : String) (t : Thresholds W) (description : String)
      (c : HealthChecker W)
      → IsRising lv
      → rate_key key ≡ true
      → IsSeparate rate_key lv c
      → (c' : HealthChecker W) × (check_rate lv ty now key t description c ≡ returned c')
        × IsSeparate rate_key lv c'
  unfolding check_rate
  check_rate-Works ty now key t description c rising k v =
      let c1 = with_candidate key c in
      let v1 = candidate-IsSeparate key c v in
      let c2 = add_rate_checker lv now key t description c1 in
      let (v2, found, same) = add_rate_checker-IsSeparate now key t description c1 rising k v1 in
      elim (Bool-cases (is_not_found key c.values)) [
        | inl h ↦ (c1, rw h refl, v1)
        | inr h ↦ elim (Option-cases (lookup key c2.rate_checkers)) [
          | inl n ↦ absurd (cc (n, found))
          | inr (r, n) ↦
              let (r', e) =
                count_rate-some lv rising now key r c2
                  (ap (λ p. not (is_some (children key p))) same ∙ h) (v2.numeric key)
                  (v2.checker.detailed key found) n in
              (
                _,
                rw (h, e) refl,
                counted-IsSeparate key r' ty.unexpected_rate description c2 found v2,
              )
        ]
      ]
