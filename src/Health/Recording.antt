-- ===== src/Health/Recording.antt =====
-- How a status is recorded by SET_DIAG_STATUS of
-- autoware_health_checker/src/health_checker/health_checker.cpp.
use autoware_ai_common.Base.{String, ap, arith, false, if◌then◌else◌, refl, some, true, ℕ, ◌∙◌, ◌≡◌}
use autoware_ai_common.Base.Text.{eq_iff, str_eq, string_key}
use autoware_ai_common.Base.Map.{assign, lookup, lookup-assign, or_else}
use autoware_ai_common.Messages.{DiagLevels, DiagnosticStatus}
use autoware_ai_common.Health.Values.{add_candidate, is_not_found, summary_key}
use autoware_ai_common.Health.DiagBuffer.{add_diag, buffer_duration_nsec, new_buffer}
use autoware_ai_common.Health.Checker.{
  HealthChecker, add_new_buffer, is_known_level, set_diag_status, with_candidate,
}
use autoware_ai_common.Health.Results.{on_return, or_fail, out_of_range, returned}

-- A status has been recorded: its buffer, which is new where there was none, has it, the other buffers
-- and the rate checkers are as they were, and its key is a candidate.
pub record Recorded {W : Type 0} (lv : DiagLevels) (now : ℕ) (s : DiagnosticStatus)
    (c c' : HealthChecker W) : Type 0 where
  pub buffers :
      (j : String)
      → lookup j c'.diag_buffers ≡ (
          if str_eq s.key j
          then some (
              add_diag lv now s (
                or_else
                  (lookup j c.diag_buffers)
                  (new_buffer s.key s.type s.description buffer_duration_nsec)))
          else lookup j c.diag_buffers)
  pub same_checkers : c'.rate_checkers ≡ c.rate_checkers
  pub same_values : c'.values ≡ add_candidate s.key c.values

module _ {W : Type 0} where
  lookup-add_new_buffer :
      (key j : String) (type : ℕ) (description : String) (c : HealthChecker W)
      → lookup j (add_new_buffer key type description c).diag_buffers ≡ (
          if str_eq key j
          then some (
              or_else
                (lookup j c.diag_buffers)
                (new_buffer key type description buffer_duration_nsec))
          else lookup j c.diag_buffers)
  unfolding add_new_buffer
  lookup-add_new_buffer key j type description c =
      let b = new_buffer key type description buffer_duration_nsec in
      ground (arith, lookup-assign key j b c.diag_buffers, eq_iff key j)

  kept-add_new_buffer :
      (key : String) (type : ℕ) (description : String) (c : HealthChecker W)
      → ((add_new_buffer key type description c).rate_checkers ≡ c.rate_checkers)
        × ((add_new_buffer key type description c).values ≡ c.values)
  unfolding add_new_buffer
  kept-add_new_buffer key type description c = ground arith

  -- A status of a known level, whose key the server has, is recorded.
  pub set_diag_status-Recorded :
      (lv : DiagLevels) (now : ℕ) (s : DiagnosticStatus) (c : HealthChecker W)
      → is_not_found s.key c.values ≡ false
      → is_known_level lv s.level ≡ true
      → (c' : HealthChecker W) × (set_diag_status lv now s c ≡ returned (s.level, c'))
        × Recorded lv now s c c'
  unfolding set_diag_status
  set_diag_status-Recorded lv now s c h k =
      let c1 = with_candidate s.key c in
      let c2 = add_new_buffer s.key s.type s.description c1 in
      let old =
        or_else (lookup s.key c.diag_buffers)
          (new_buffer s.key s.type s.description buffer_duration_nsec) in
      let found : lookup s.key c2.diag_buffers ≡ some old =
        lookup-add_new_buffer s.key s.key s.type s.description c1
        ∙ ap (λ x. if x then some old else lookup s.key c.diag_buffers)
            ((eq_iff s.key s.key).1 refl) in
      let b = add_diag lv now s old in
      (
        record c2 { diag_buffers = assign s.key b c2.diag_buffers },
        rw (h, k)
            (ap
              (λ o. on_return (or_fail out_of_range o) (λ x. returned (
                s.level,
                record c2 { diag_buffers = assign s.key (add_diag lv now s x) c2.diag_buffers },
              )))
              found),
        record {
          buffers = λ j. ground (
            arith,
            lookup-assign s.key j b c2.diag_buffers,
            lookup-add_new_buffer s.key j s.type s.description c1,
            eq_iff s.key j,
          );
          same_checkers = (kept-add_new_buffer s.key s.type s.description c1).0;
          same_values = (kept-add_new_buffer s.key s.type s.description c1).1;
        },
      )
