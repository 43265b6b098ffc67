-- ===== src/Behavior/StopSigns.antt =====
-- How long the state machine of op_planner/src/BehaviorStateMachine.cpp stops for a stop sign.
use autoware_ai_common.Base.{
  All, Bool, List, Option, [], ap, arith, false, get_elem?, none, refl, some, subst, suc, sym, true,
  zero, ℕ, ◌-◌, ◌∙◌, ◌∷◌, ◌≡◌, ◌≢◌, ◌≤◌,
}
use autoware_ai_common.Base.Double.{Double}
use autoware_ai_common.Behavior.Types.{
  PlanningParams, PreCalculatedConditions, StateType, forward_ii, stop_sign_stop_ii,
  stop_sign_wait_ii, stop_sign_wait_state,
}
use autoware_ai_common.Behavior.Heap.{BehaviorState, clear_log, reset_timer}
use autoware_ai_common.Behavior.Classes.{
  decide, forward_ii_next, goal_changed, seek, stop_sign_stop_ii_next, stop_sign_wait_ii_next,
  zero_velocity,
}
use autoware_ai_common.Behavior.Shapes.{
  Shape, find_target-shapes, settled, shape_of, shape_of-get_elem?, shapes, shapes-clear_log,
  target,
}
use autoware_ai_common.Behavior.Wiring.{
  DecisionMaker, advance, stop_sign_stop_at, stop_sign_wait_at,
}
use autoware_ai_common.Behavior.Reachable.{
  IsWired, advance-IsWired, arrival, at_go_to_goal, at_stop_sign_stop, at_stop_sign_wait, early_at,
  early_object, shape_eq,
}
use autoware_ai_common.Behavior.Drive.{
  conditions-tick, drive, observe, observe-IsWired, tick, tick-IsWired,
}
use autoware_ai_common.Behavior.{
  Machine, find_behavior_state, follow_verdict, get_next_state, is_early, next_of,
}
use autoware_ai_common.Behavior.Waiting.{
  IsWaiting, Runs, drive-IsWaiting, late-IsWaiting, place-stop_sign_stop, timer_of, wait_shape,
}

timer_of-update :
    (p now : ℕ) (objects : List BehaviorState) (x : Shape)
    → get_elem? (shapes objects) p ≡ some x
    → timer_of (get_elem? (reset_timer p now objects) p) ≡ some now
unfolding reset_timer
timer_of-update p now [] x e = absurd (cc e)
timer_of-update zero now (s ∷ objects) x e = refl
timer_of-update (suc p) now (s ∷ objects) x e = timer_of-update p now objects x e

module _ {W : Type 0} ⦃d : Double W⦄ where
  timer_of-found :
      (this now p : ℕ) (nexts : List ℕ) (b : StateType) (m : Machine W) (x : Shape)
      → target (shapes m.objects) nexts b ≡ some p
      → get_elem? (shapes m.objects) p ≡ some x
      → timer_of (get_elem? (find_behavior_state this nexts b now m).0.objects p) ≡ some now
  unfolding find_behavior_state
  timer_of-found this now p nexts b m x t e =
      rw (find_target-shapes m.objects nexts b, t, find_behavior_state)
        (timer_of-update p now (clear_log this m.objects) x
          (ap (λ sh. get_elem? sh p) (shapes-clear_log this m.objects) ∙ e))

  seek-object :
      (m : Machine W) (this now : ℕ) (o : Option BehaviorState) (x : Shape) (b : StateType)
      (c : PreCalculatedConditions W)
      → shape_of o ≡ some x
      → decide x.0 (early_object o now) m.params m.conditions ≡ seek b c
      → next_of this o now m ≡ find_behavior_state this x.1 b now (record m { conditions = c })
  unfolding next_of follow_verdict
  seek-object m this now none x b c e v = absurd (cc e)
  seek-object m this now (some s) x b c e v =
      subst
        (λ (y : Shape).
          decide y.0 (is_early s now) m.params m.conditions ≡ seek b c
          → next_of this (some s) now m
            ≡ find_behavior_state this y.1 b now (record m { conditions = c }))
        (shape_eq s x e) (λ v'. rw (v', follow_verdict)) v

  decide_slow :
      (early : Bool) (p : PlanningParams W) (c : PreCalculatedConditions W)
      → goal_changed c ≡ false
      → d.lt c.current_velocity zero_velocity ≡ true
      → decide stop_sign_stop_ii early p c ≡ seek stop_sign_wait_state c
  unfolding decide stop_sign_stop_ii_next
  decide_slow early p c same slow = rw (same, slow)

  stop_shape :
      (k : DecisionMaker W)
      → IsWired k at_stop_sign_stop
      → shape_of (get_elem? k.machine.objects stop_sign_stop_at)
        ≡ some (stop_sign_stop_ii, stop_sign_wait_at ∷ stop_sign_stop_at ∷ [], 0)
  stop_shape k w =
      shape_of-get_elem? k.machine.objects stop_sign_stop_at
      ∙ ap (λ sh. get_elem? sh stop_sign_stop_at) w.wired

  advance-stop_sign :
      (k : DecisionMaker W) (now : ℕ)
      → IsWired k at_stop_sign_stop
      → goal_changed k.machine.conditions ≡ false
      → d.lt k.machine.conditions.current_velocity zero_velocity ≡ true
      → timer_of (get_elem? (advance now k).machine.objects stop_sign_wait_at) ≡ some now
  unfolding advance get_next_state
  advance-stop_sign k now w same slow =
      subst
        (λ i.
          timer_of (
            get_elem? (next_of i (get_elem? k.machine.objects i) now k.machine).0.objects
              stop_sign_wait_at)
          ≡ some now)
        (sym w.here)
        (rw
          (seek-object k.machine stop_sign_stop_at now _ _ stop_sign_wait_state k.machine.conditions
            (stop_shape k w) (decide_slow _ _ _ same slow))
          (timer_of-found stop_sign_stop_at now stop_sign_wait_at _ stop_sign_wait_state k.machine _
            (ap (λ sh. target sh (stop_sign_wait_at ∷ stop_sign_stop_at ∷ []) stop_sign_wait_state)
              w.wired)
            (ap (λ sh. get_elem? sh stop_sign_wait_at) w.wired)))

  -- The vehicle that has stopped at a stop sign, with its goal unchanged and its velocity below
  -- 0.1 m/s, begins to wait: the wait's timer starts at the time of that step.
  pub tick-stop_sign :
      (k : DecisionMaker W) (now : ℕ) (c : PreCalculatedConditions W)
      → IsWired k at_stop_sign_stop
      → goal_changed (observe c k).machine.conditions ≡ false
      → d.lt c.current_velocity zero_velocity ≡ true
      → IsWaiting now (tick now c k)
  unfolding tick
  tick-stop_sign k now c w same slow =
      let w' = observe-IsWired c k _ w in
      let slow' : d.lt (observe c k).machine.conditions.current_velocity zero_velocity ≡ true =
        unfold observe in slow in
      record {
        wired =
            subst (λ v. IsWired (advance now (observe c k)) (arrival at_stop_sign_stop v))
              (decide_slow _ _ _ same slow')
              (advance-IsWired (observe c k) at_stop_sign_stop now w');
        waiting = advance-stop_sign (observe c k) now w' same slow';
      }

  -- A vehicle that stops at a stop sign with its goal unchanged waits there: from the step in which its
  -- velocity is below 0.1 m/s it stays in the wait through every later step that comes before the stop
  -- time is over, whatever the conditions of those steps are.
  pub drive-tick-stop_sign :
      (k : DecisionMaker W) (now : ℕ) (c : PreCalculatedConditions W)
      (es : List (ℕ × PreCalculatedConditions W))
      → IsWired k at_stop_sign_stop
      → goal_changed (observe c k).machine.conditions ≡ false
      → d.lt c.current_velocity zero_velocity ≡ true
      → All (λ e. Runs (tick now c k) now e.0) es
      → IsWaiting now (drive (tick now c k) es)
  drive-tick-stop_sign k now c es w same slow h =
      drive-IsWaiting now (tick now c k) es (tick-stop_sign k now c w same slow) h

  -- When the wait is over, the step leads back to driving and takes the sign as passed.
  waited-IsWired :
      (k : DecisionMaker W) (since now : ℕ) (c : PreCalculatedConditions W)
      → IsWaiting since k
      → k.machine.params.stop_sign_stop_time ≤ now - since
      → IsWired (tick now c k) at_go_to_goal
        × ((tick now c k).machine.conditions.prev_stop_sign_id ≡ c.current_stop_sign_id)
  unfolding decide stop_sign_wait_ii_next observe
  waited-IsWired k since now c w h =
      let late : early_at (observe c k).machine at_stop_sign_wait now ≡ false =
        late-IsWaiting since now _ _ (wait_shape k w.wired) w.waiting h in
      let v =
        ap (λ b. decide stop_sign_wait_ii b k.machine.params (observe c k).machine.conditions)
          late in
      (
        subst (λ x. IsWired (tick now c k) (arrival at_stop_sign_wait x)) v
            (tick-IsWired now c k at_stop_sign_wait w.wired),
        ap (λ (x : PreCalculatedConditions W). x.prev_stop_sign_id)
            (conditions-tick now c k at_stop_sign_wait w.wired
              ∙ ap (settled (observe c k).machine.conditions) v),
      )

  passed_stop_sign :
      (early : Bool) (p : PlanningParams W) (c : PreCalculatedConditions W)
      → c.prev_stop_sign_id ≡ c.current_stop_sign_id
      → arrival at_go_to_goal (decide forward_ii early p c) ≢ at_stop_sign_stop
  unfolding decide forward_ii_next
  passed_stop_sign early p c same = ground arith

  -- When the stop time is over the vehicle drives on, and at the next step it does not stop again for
  -- a sign with the identifier that the conditions named when the wait ended.
  pub passed-stop_sign :
      (k : DecisionMaker W) (since t1 t2 : ℕ) (c1 c2 : PreCalculatedConditions W)
      → IsWaiting since k
      → k.machine.params.stop_sign_stop_time ≤ t1 - since
      → c2.current_stop_sign_id ≡ c1.current_stop_sign_id
      → IsWired (tick t1 c1 k) at_go_to_goal
        × ((tick t2 c2 (tick t1 c1 k)).current ≢ stop_sign_stop_at)
  unfolding observe
  passed-stop_sign k since t1 t2 c1 c2 w h same =
      let (go, passed) = waited-IsWired k since t1 c1 w h in
      let w2 = tick-IsWired t2 c2 (tick t1 c1 k) at_go_to_goal go in
      (
        go,
        λ e.
            passed_stop_sign (early_at (observe c2 (tick t1 c1 k)).machine at_go_to_goal t2) _ _
              (passed ∙ sym same) ((place-stop_sign_stop _).0 (sym w2.here ∙ e)),
      )
