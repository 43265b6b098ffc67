-- ===== src/Behavior/Waiting.antt =====
-- Waiting at a stop sign: what op_planner/src/BehaviorStateMachine.cpp does until the stop time is over.
use autoware_ai_common.Base.{
  All, List, Option, [], ap, arith, false, get_elem?, none, refl, some, subst, sym, true, ℕ, ◌-◌,
  ◌<◌, ◌↔◌, ◌∙◌, ◌∷◌, ◌≡◌, ◌≤◌,
}
use autoware_ai_common.Base.Double.{Double}
use autoware_ai_common.Behavior.Types.{PreCalculatedConditions, stop_sign_wait_ii}
use autoware_ai_common.Behavior.Heap.{BehaviorState}
use autoware_ai_common.Behavior.Classes.{decide, stop_sign_wait_ii_next}
use autoware_ai_common.Behavior.Shapes.{Shape, shape_of, shape_of-get_elem?}
use autoware_ai_common.Behavior.Wiring.{
  DecisionMaker, advance, go_to_goal_at, goal_at, init_at, stop_sign_stop_at, stop_sign_wait_at,
}
use autoware_ai_common.Behavior.Reachable.{
  IsWired, Place, at_mission_complete, at_stop_sign_stop, at_stop_sign_wait, early_object, place,
}
use autoware_ai_common.Behavior.Drive.{drive, observe, observe-IsWired, tick}
use autoware_ai_common.Behavior.{Machine, follow_verdict, get_next_state, next_of}

abbrev pub timer_of : Option BehaviorState → Option ℕ
timer_of none = none
timer_of (some s) = some s.state_timer

-- The object of the stop-sign wait, with the time at which its timer was reset.
pub record IsWaiting {W : Type 0} (since : ℕ) (k : DecisionMaker W) : Type 0 where
  pub wired : IsWired k at_stop_sign_wait
  pub waiting : timer_of (get_elem? k.machine.objects stop_sign_wait_at) ≡ some since

-- The wait at a stop sign has still to run.
abbrev pub Runs : {W : Type 0} → DecisionMaker W → ℕ → ℕ → Type 0
Runs k since now = now - since < k.machine.params.stop_sign_stop_time

early-IsWaiting :
    (since now : ℕ) (o : Option BehaviorState) (x : Shape)
    → shape_of o ≡ some x
    → timer_of o ≡ some since
    → now - since < x.2
    → early_object o now ≡ true
early-IsWaiting since now none x e w h = absurd (cc e)
early-IsWaiting since now (some s) x e w h = ground arith

pub late-IsWaiting :
    (since now : ℕ) (o : Option BehaviorState) (x : Shape)
    → shape_of o ≡ some x
    → timer_of o ≡ some since
    → x.2 ≤ now - since
    → early_object o now ≡ false
late-IsWaiting since now none x e w h = refl
late-IsWaiting since now (some s) x e w h = ground arith

pub place-stop_sign_stop : (at : Place) → (place at ≡ stop_sign_stop_at) ↔ (at ≡ at_stop_sign_stop)
place-stop_sign_stop at_mission_complete = (ground arith, ground arith)
place-stop_sign_stop _ = (ground arith, ground arith)

kind_of_shape : (s : BehaviorState) (x : Shape) → shape_of (some s) ≡ some x → s.kind ≡ x.0
kind_of_shape s x e = ground arith

module _ {W : Type 0} ⦃d : Double W⦄ where
  stay-object :
      (m : Machine W) (this now : ℕ) (o : Option BehaviorState) (x : Shape)
      → shape_of o ≡ some x
      → x.0 ≡ stop_sign_wait_ii
      → early_object o now ≡ true
      → next_of this o now m ≡ (m, some this)
  unfolding next_of decide follow_verdict stop_sign_wait_ii_next
  stay-object m this now none x e c h = absurd (cc e)
  stay-object m this now (some s) x e c h = rw (kind_of_shape s x e, c, h)

  pub wait_shape :
      (k : DecisionMaker W)
      → IsWired k at_stop_sign_wait
      → shape_of (get_elem? k.machine.objects stop_sign_wait_at)
        ≡ some (
          stop_sign_wait_ii,
          go_to_goal_at ∷ stop_sign_wait_at ∷ stop_sign_stop_at ∷ goal_at ∷ [],
          k.machine.params.stop_sign_stop_time,
        )
  wait_shape k w =
      shape_of-get_elem? k.machine.objects stop_sign_wait_at
      ∙ ap (λ sh. get_elem? sh stop_sign_wait_at) w.wired

  get_next_state-IsWaiting :
      (k : DecisionMaker W) (since now : ℕ)
      → IsWaiting since k
      → Runs k since now
      → get_next_state stop_sign_wait_at now k.machine ≡ (k.machine, some stop_sign_wait_at)
  unfolding get_next_state
  get_next_state-IsWaiting k since now w h =
      stay-object k.machine stop_sign_wait_at now _ _ (wait_shape k w.wired) refl
        (early-IsWaiting since now _ _ (wait_shape k w.wired) w.waiting h)

  -- A step before the time is over changes nothing.
  advance-IsWaiting :
      (k : DecisionMaker W) (since now : ℕ)
      → IsWaiting since k
      → Runs k since now
      → advance now k ≡ record k { current = stop_sign_wait_at }
  unfolding advance
  advance-IsWaiting k since now w h =
      subst
        (λ i.
          (let (m, next) = get_next_state i now k.machine in
            record { machine = m; current = elim next as (λ o. ℕ) [ none ↦ init_at | some p ↦ p ] })
          ≡ record k { current = stop_sign_wait_at })
        (sym w.wired.here) (rw (get_next_state-IsWaiting k since now w h))

  observe-IsWaiting :
      (since : ℕ) (c : PreCalculatedConditions W) (k : DecisionMaker W)
      → IsWaiting since k
      → IsWaiting since (observe c k)
  observe-IsWaiting since c k w = record {
    wired = observe-IsWired c k _ w.wired;
    waiting = unfold observe in w.waiting;
  }

  tick-IsWaiting :
      (since now : ℕ) (c : PreCalculatedConditions W) (k : DecisionMaker W)
      → IsWaiting since k
      → Runs k since now
      → tick now c k ≡ record (observe c k) { current = stop_sign_wait_at }
  unfolding tick
  tick-IsWaiting since now c k w h =
      advance-IsWaiting (observe c k) since now (observe-IsWaiting since c k w)
        (unfold observe in h)

  -- While the vehicle waits at a stop sign it goes on waiting in every step that comes before the stop
  -- time is over, counted from the reset of the state's timer, whatever the conditions are.
  pub drive-IsWaiting :
      (since : ℕ) (k : DecisionMaker W) (es : List (ℕ × PreCalculatedConditions W))
      → IsWaiting since k
      → All (λ e. Runs k since e.0) es
      → IsWaiting since (drive k es)
  unfolding drive
  drive-IsWaiting since k [] w h = w
  drive-IsWaiting since k ((now, c) ∷ es) w h = rw (tick-IsWaiting since now c k w h.0) (
      drive-IsWaiting since (record (observe c k) { current = stop_sign_wait_at }) es
        (record {
          wired = record { wired = (observe-IsWired c k _ w.wired).wired; here = refl };
          waiting = (observe-IsWaiting since c k w).waiting;
        })
        (unfold observe in h.1))
