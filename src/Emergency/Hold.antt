-- ===== src/Emergency/Hold.antt =====
-- The loop of emergency_handler/src/emergency_handler.cpp during the ten seconds of an emergency.
use autoware_ai_common.Base.{
  List, Option, [], and_then, ap, arith, false, none, null, refl, some, subst, sym, true, ℕ, ◌++◌,
  ◌+◌, ◌<◌, ◌∙◌, ◌∷◌, ◌≡◌, ◌≤◌,
}
use autoware_ai_common.Base.Text.{string_key}
use autoware_ai_common.Base.Double.{Double}
use autoware_ai_common.Messages.{DiagLevels, DiagTypes}
use autoware_ai_common.Emergency.Vital.{with_default}
use autoware_ai_common.Emergency.DeadNodes.{IsVital, last_time}
use autoware_ai_common.Emergency.Handler.{
  Event, Handler, Output, history, hold_time, loop, step, system_status, vehicle,
}
use autoware_ai_common.Emergency.Priority.{
  hardware_priority, min_priority, node_priority, received, system_status_callback-received,
}
use autoware_ai_common.Emergency.Turn.{errors_of, switch-holds, turn-from, updated_priority}

-- A handler that can take an event at a time.
pub record IsReady {W : Type 0} (t : ℕ) (h : Handler W) : Type 0 where
  pub vital : IsVital h.monitor
  pub in_order : last_time t h.monitor ≤ t
  pub planners : null h.emergency_planner_map ≡ false

least : (b c a : ℕ) → min_priority (min_priority a b) c ≤ a
least b c a = ground arith

later : (p : Option ℕ) (t now : ℕ) → with_default t p ≤ t → t ≤ now → with_default now p ≤ now
later none t now h o = omega arith
later (some x) t now h o = omega (arith, h, o)

-- The times of the events go on from a time, and stay before the end of the hold.
abbrev pub Within : {W : Type 0} → ℕ → ℕ → List (ℕ × Event W) → Type 0
Within end t [] = Unit
Within end t ((now, e) ∷ es) = (t ≤ now) × (now < end) × Within end now es

-- What an emergency keeps of a handler: it goes on, from the same start, at no lower urgency.
pub record IsHeld {W : Type 0} (h g : Handler W) : Type 0 where
  pub urgent : g.is_urgent ≡ true
  pub same_start : g.start_time ≡ h.start_time
  pub no_higher : g.priority ≤ h.priority

module _ {W : Type 0} ⦃d : Double W⦄ (lv : DiagLevels) (ty : DiagTypes) where
  step-IsHeld :
      (t now : ℕ) (e : Event W) (h : Handler W)
      → IsReady t h
      → h.is_urgent ≡ true
      → t ≤ now
      → now < h.start_time + hold_time
      → (sent : List (Output W)) × (g : Handler W) × (step lv ty now e h ≡ some (sent, g))
        × IsReady now g
        × IsHeld h g
  unfolding step
  step-IsHeld t now (system_status s) h v u o n =
      let (m, w, e) =
        system_status_callback-received lv ty now s h v.vital
          (later h.monitor.previous t now v.in_order o) in
      (
        [],
        received lv ty now s m h,
        ap (λ o. and_then o (λ (h' : Handler W). some ([], h'))) e,
        record {
          vital = w.is_vital;
          in_order = omega (arith, ap (with_default now) w.time);
          planners = v.planners;
        },
        record {
          urgent = u;
          same_start = refl;
          no_higher = least (hardware_priority lv ty s h) (node_priority lv ty s m h) h.priority;
        },
      )
  step-IsHeld t now (vehicle cmd) h v u o n = (
    [],
    record h { vehicle_cmd = cmd },
    refl,
    record {
      vital = v.vital;
      in_order = later h.monitor.previous t now v.in_order o;
      planners = v.planners;
    },
    record { urgent = u; same_start = refl; no_higher = omega arith },
  )
  step-IsHeld t now loop h v u o n =
      let errors = errors_of lv ty now h in
      let (rest, cmd, e) =
        turn-from lv ty now h [] (updated_priority now h)
          (switch-holds errors now (updated_priority now h) u n) v.planners in
      (
        rest,
        record (updated_priority now h) { emergency_vehicle_cmd = cmd },
        e,
        record {
          vital = v.vital;
          in_order = later h.monitor.previous t now v.in_order o;
          planners = v.planners;
        },
        record { urgent = u; same_start = refl; no_higher = ground arith },
      )

  -- For 10 s after an emergency began, whatever statuses and commands arrive, no exception is thrown, the
  -- emergency goes on, and its priority is never raised above that of its beginning.
  pub history-IsHeld :
      (t : ℕ) (es : List (ℕ × Event W)) (h : Handler W)
      → IsReady t h
      → h.is_urgent ≡ true
      → Within (h.start_time + hold_time) t es
      → (sent : List (Output W)) × (g : Handler W) × (history lv ty es h ≡ some (sent, g))
        × IsHeld h g
  unfolding history
  history-IsHeld t [] h v u w =
      ([], h, refl, record { urgent = u; same_start = refl; no_higher = omega arith })
  history-IsHeld t ((now, e) ∷ es) h v u w =
      let (sent, g, p, r, k) = step-IsHeld t now e h v u w.0 w.1 in
      let (rest, f, q, k') =
        history-IsHeld now es g r k.urgent
          (subst (λ a. Within (a + hold_time) now es) (sym k.same_start) w.2) in
      (
        sent ++ rest,
        f,
        ap
              (λ o. and_then o (λ (x : List (Output W) × Handler W).
                and_then (history lv ty es x.1)
                  (λ (y : List (Output W) × Handler W). some (x.0 ++ y.0, y.1))))
              p
            ∙ ap (λ o. and_then o (λ (y : List (Output W) × Handler W). some (sent ++ y.0, y.1))) q,
        record {
          urgent = k'.urgent;
          same_start = k'.same_start ∙ k.same_start;
          no_higher = omega (arith, k'.no_higher, k.no_higher);
        },
      )
