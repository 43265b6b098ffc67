-- ===== src/Health/Total.antt =====
-- No call of autoware_health_checker/src/health_checker/health_checker.cpp fails in a node that has
-- different keys for CHECK_RATE and for its other checks.
use autoware_ai_common.Base.{
  All, Bool, Bool-cases, List, String, [], ap, arith, inl, inr, is_some, refl, sym, ℕ, ◌==◌, ◌∙◌,
  ◌∷◌, ◌≡◌,
}
use autoware_ai_common.Health.RateChecker.{RateChecker}
use autoware_ai_common.Health.Checker.{HealthChecker, Outcome}
use autoware_ai_common.Health.Publish.{buffer_statuses, publish_status, rate_statuses}
use autoware_ai_common.Health.DiagBuffer.{DiagBuffer}
use autoware_ai_common.Health.Window.{get_and_clear_data-some}
use autoware_ai_common.Health.Separate.{
  IsSeparate, Keeps, Works, check_rate-Works, check_value-Works, set_diag_status-Works,
}
use autoware_ai_common.Health.Operations.{
  Operation, activated, after, candidates_set, diag_status, max_value, min_value, operate,
  operate_all, params_reloaded, range, rate, round, value,
}
use autoware_ai_common.Messages.{DiagLevels, DiagTypes, DiagnosticStatusArray, IsRising}
use autoware_ai_common.Health.Values.{set_params, summary_key}
use autoware_ai_common.Base.Map.{Map, lookup}
use autoware_ai_common.Base.Double.{Double}
use autoware_ai_common.Base.Text.{string_key}
use autoware_ai_common.Health.Kept.{check_max_value-Works, check_min_value-Works, check_range-Works}
use autoware_ai_common.Health.Results.{Result, on_return, returned}

module _ {W : Type 0} ⦃d : Double W⦄ (lv : DiagLevels) (ty : DiagTypes) (json : W → String) where
  lookup-rate_statuses :
      (now : ℕ) (key : String) (m : Map String (RateChecker W))
      → is_some (lookup key (rate_statuses lv ty json now m).1) ≡ is_some (lookup key m)
  unfolding rate_statuses lookup
  lookup-rate_statuses now key [] = refl
  lookup-rate_statuses now key ((k, r) ∷ m) = ground (arith, lookup-rate_statuses now key m)

module _ {W : Type 0} (lv : DiagLevels) (now : ℕ) (checkers : Map String (RateChecker W)) where
  -- The loop over the buffers ends, and the keys are still there.
  buffer_statuses-some :
      (m : Map String DiagBuffer)
      → (r : List DiagnosticStatusArray × Map String DiagBuffer) × (buffer_statuses lv now checkers
            m
          ≡ returned r)
        × ((key : String) → is_some (lookup key r.1) ≡ is_some (lookup key m))
  unfolding buffer_statuses lookup
  buffer_statuses-some [] = (([], []), refl, λ key. refl)
  buffer_statuses-some ((k, b) ∷ m) =
      let (rest, e, h) = buffer_statuses-some m in
      let (r, g) = get_and_clear_data-some lv now b in
      elim (Bool-cases (is_some (lookup k checkers))) [
        | inl c ↦ ((rest.0, (k, b) ∷ rest.1), rw (e, c) refl, λ key. ground (arith, h key))
        | inr c ↦
            ((r.0 ∷ rest.0, (k, r.1) ∷ rest.1), rw (e, c, g) refl, λ key. ground (arith, h key))
      ]

module _ {W : Type 0} ⦃d : Double W⦄ (rate_key : String → Bool) (lv : DiagLevels) (ty : DiagTypes)
    (json : W → String) (node_name : String) where
  abbrev Runs : Result (HealthChecker W) → Type 0
  Runs o = (c' : HealthChecker W) × (o ≡ returned c') × IsSeparate rate_key lv c'

  round-Runs :
      (prev now : ℕ) (c : HealthChecker W)
      → IsSeparate rate_key lv c
      → Runs (operate lv ty json node_name now (round prev) c)
  unfolding operate publish_status
  round-Runs prev now c v =
      let (rates, checkers) = rate_statuses lv ty json now c.rate_checkers in
      let (r, e, h) = buffer_statuses-some lv now checkers c.diag_buffers in
      let same = λ (key : String). lookup-rate_statuses lv ty json now key c.rate_checkers in
      elim (Bool-cases (prev == now)) [
        | inl s ↦ (c, rw s refl, v)
        | inr s ↦ (
          record c { rate_checkers = checkers; diag_buffers = r.1 },
          rw (s, e) refl,
          record {
            checker = record { detailed = λ key g. v.checker.detailed key (sym (same key) ∙ g) };
            split = λ key p g. same key ∙ v.split key p (sym (h key) ∙ g);
            numeric = v.numeric;
          },
        )
      ]

  Works-Runs : (o : Outcome W) → Works rate_key lv o → Runs (after o)
  Works-Runs o (r, e, v) = (r.1, ap after e, v)

  module _ (rising : IsRising lv) where
    operate-Runs :
        (now : ℕ) (op : Operation W) (c : HealthChecker W)
        → Keeps rate_key op
        → IsSeparate rate_key lv c
        → Runs (operate lv ty json node_name now op c)
    unfolding operate set_params
    operate-Runs now (diag_status s) c k v =
        Works-Runs _ (set_diag_status-Works rate_key lv now s c k v)
    operate-Runs now (value key text level description) c k v =
        Works-Runs _ (check_value-Works rate_key lv ty now key text level description c k v)
    operate-Runs now (min_value key x t description) c k v =
        Works-Runs _
          (check_min_value-Works rate_key lv ty rising json now key x t description c k v)
    operate-Runs now (max_value key x t description) c k v =
        Works-Runs _
          (check_max_value-Works rate_key lv ty rising json now key x t description c k v)
    operate-Runs now (range key x low high description) c k v =
        Works-Runs _
          (check_range-Works rate_key lv ty rising json now key x low high description c k v)
    operate-Runs now (rate key t description) c k v =
        check_rate-Works rate_key lv ty now key t description c rising k v
    operate-Runs now (activated b) c k v = (
      _,
      refl,
      record {
        checker = record { detailed = v.checker.detailed };
        split = v.split;
        numeric = v.numeric;
      },
    )
    operate-Runs now (params_reloaded params) c k v = (
      _,
      refl,
      record { checker = record { detailed = v.checker.detailed }; split = v.split; numeric = k },
    )
    operate-Runs now candidates_set c k v = (
      _,
      refl,
      record {
        checker = record { detailed = v.checker.detailed };
        split = v.split;
        numeric = v.numeric;
      },
    )
    operate-Runs now (round prev) c k v = round-Runs prev now c v

    -- With the levels in their documented order, when the keys of CHECK_RATE are others than those of
    -- the other checks and the thresholds that the server gives are doubles, no sequence of calls and
    -- rounds fails, from a node where this is so already: each returns, and it stays so.
    pub operate_all-Runs :
        (ops : List (ℕ × Operation W)) (c : HealthChecker W)
        → All (λ e. Keeps rate_key e.1) ops
        → IsSeparate rate_key lv c
        → Runs (operate_all lv ty json node_name ops c)
    unfolding operate_all
    operate_all-Runs [] c k v = (c, refl, v)
    operate_all-Runs ((now, op) ∷ ops) c (k, ks) v =
        let (c1, e, v1) = operate-Runs now op c k v in
        let (c2, f, v2) = operate_all-Runs ops c1 ks v1 in
        (c2, ap (λ o. on_return o (operate_all lv ty json node_name ops)) e ∙ f, v2)
