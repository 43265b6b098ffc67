-- ===== src/Health/Rates.antt =====
-- What autoware_health_checker/src/health_checker/rate_checker.cpp counts.
use autoware_ai_common.Base.{
  All, Bool, List, String, [], ap, arith, count_if, count_if-append, if◌then◌else◌, keep, length,
  ltb, none, refl, some, ℕ, ◌+◌, ◌∙◌, ◌∷◌, ◌≡◌, ◌≤◌,
}
use autoware_ai_common.Base.Double.{Double}
use autoware_ai_common.Messages.{DiagLevels}
use autoware_ai_common.Health.RateChecker.{
  RateChecker, RateEvent, asked, called, check, get_error_level_and_rate, get_rate, is_recent,
  new_checker, nsec_of, rate_history, rate_of, rate_step, rates_set, set_rate,
}

-- The times of the calls of `check`.
abbrev pub calls_of : {W : Type 0} → List (ℕ × RateEvent W) → List ℕ
calls_of [] = []
calls_of ((now, called) ∷ es) = now ∷ calls_of es
calls_of ((now, asked) ∷ es) = calls_of es
calls_of ((now, rates_set w e f) ∷ es) = calls_of es

abbrev pub AllBefore : {W : Type 0} → ℕ → List (ℕ × RateEvent W) → Type 0
AllBefore now es = All (λ e. e.0 ≤ now) es

length-keep : (p : ℕ → Bool) (xs : List ℕ) → length (keep p xs) ≡ count_if p xs
length-keep p [] = refl
length-keep p (x ∷ xs) = ground (arith, length-keep p xs)

-- What is recent now was recent at an earlier time.
count_if-recent :
    (duration t now : ℕ) (xs : List ℕ)
    → t ≤ now
    → count_if (is_recent duration now) (keep (is_recent duration t) xs)
      ≡ count_if (is_recent duration now) xs
count_if-recent duration t now [] o = refl
count_if-recent duration t now (x ∷ xs) o = ground (arith, count_if-recent duration t now xs o)

module _ {W : Type 0} ⦃d : Double W⦄ (lv : DiagLevels) where
  pub record Kept (r u : RateChecker W) : Type 0 where
    pub same_start : u.start_time ≡ r.start_time
    pub same_duration : u.buffer_duration_msec ≡ r.buffer_duration_msec

  step-Kept : (now : ℕ) (e : RateEvent W) (r : RateChecker W) → Kept r (rate_step lv now e r)
  unfolding rate_step check set_rate get_error_level_and_rate
  step-Kept now called r = record { same_start = refl; same_duration = refl }
  step-Kept now asked r = ground arith
  step-Kept now (rates_set w e f) r = record { same_start = refl; same_duration = refl }

  history-Kept : (es : List (ℕ × RateEvent W)) (r : RateChecker W) → Kept r (rate_history lv es r)
  unfolding rate_history
  history-Kept [] r = record { same_start = refl; same_duration = refl }
  history-Kept ((now, e) ∷ es) r =
      let s = step-Kept now e r in
      let h = history-Kept es (rate_step lv now e r) in
      record {
        same_start = h.same_start ∙ s.same_start;
        same_duration = h.same_duration ∙ s.same_duration;
      }

  abbrev recent : ℕ → RateChecker W → ℕ
  recent now r = count_if (is_recent r.buffer_duration_msec now) r.data_times

  recent-step :
      (now t : ℕ) (e : RateEvent W) (r : RateChecker W)
      → t ≤ now
      → recent now (rate_step lv t e r)
        ≡ recent now r + count_if (is_recent r.buffer_duration_msec now) (calls_of ((t, e) ∷ []))
  unfolding rate_step check set_rate get_error_level_and_rate
  recent-step now t called r o =
      let duration = r.buffer_duration_msec in
      omega (
        arith,
        count_if-append (is_recent duration now) (keep (is_recent duration t) r.data_times)
            (t ∷ []),
        count_if-recent duration t now r.data_times o,
      )
  recent-step now t asked r o =
      ground (arith, count_if-recent r.buffer_duration_msec t now r.data_times o)
  recent-step now t (rates_set w e f) r o =
      omega (arith, count_if-recent r.buffer_duration_msec t now r.data_times o)

  calls_of-cons :
      (p : ℕ → Bool) (t : ℕ) (e : RateEvent W) (es : List (ℕ × RateEvent W))
      → count_if p (calls_of ((t, e) ∷ es))
        ≡ count_if p (calls_of ((t, e) ∷ [])) + count_if p (calls_of es)
  calls_of-cons p t called es = ground arith
  calls_of-cons p t asked es = omega arith
  calls_of-cons p t (rates_set w e f) es = omega arith

  recent-history :
      (now : ℕ) (es : List (ℕ × RateEvent W)) (r : RateChecker W)
      → AllBefore now es
      → recent now (rate_history lv es r)
        ≡ recent now r + count_if (is_recent r.buffer_duration_msec now) (calls_of es)
  unfolding rate_history
  recent-history now [] r h = omega arith
  recent-history now ((t, e) ∷ es) r (o, h) =
      let u = rate_step lv t e r in
      let same = (step-Kept t e r).same_duration in
      omega (
        arith,
        recent-history now es u h,
        recent-step now t e r o,
        ap (λ x. count_if (is_recent x now) (calls_of es)) same,
        calls_of-cons (is_recent r.buffer_duration_msec now) t e es,
      )

  -- After any calls, questions and changes of the thresholds at times up to now, a checker has no rate
  -- until its buffer duration has passed since its construction; then the rate is the number of the
  -- calls of `check` that are less than the buffer duration ago, divided by the duration.
  pub get_rate-history :
      (start now duration : ℕ) (w e f : W) (description : String) (es : List (ℕ × RateEvent W))
      → AllBefore now es
      → (get_rate now (rate_history lv es (new_checker start duration w e f description))).0 ≡ (
          if ltb now (start + nsec_of duration)
          then none
          else some (rate_of (count_if (is_recent duration now) (calls_of es)) duration))
  unfolding get_rate
  get_rate-history start now duration w e f description es h =
      let r = new_checker start duration w e f description in
      let u = rate_history lv es r in
      let k = history-Kept es r in
      let calls : length (keep (is_recent u.buffer_duration_msec now) u.data_times)
          ≡ count_if (is_recent duration now) (calls_of es) =
        omega (
          arith,
          length-keep (is_recent u.buffer_duration_msec now) u.data_times,
          recent-history now es r h,
        ) in
      ground (arith, k.same_start, k.same_duration, calls)
