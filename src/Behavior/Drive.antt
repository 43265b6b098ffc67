-- ===== src/Behavior/Drive.antt =====
-- Histories of the decision maker of op_planner/src/DecisionMaker.cpp: before each step the vehicle's
-- surroundings give new conditions. The calculation of the conditions writes none of the previous
-- identifiers, which are the state machine's own.
use autoware_ai_common.Base.{All, List, [], keep, refl, ℕ, ◌∷◌, ◌≡◌}
use autoware_ai_common.Base.Double.{Double}
use autoware_ai_common.Behavior.Types.{PlanningParams, PreCalculatedConditions}
use autoware_ai_common.Behavior.Classes.{Verdict}
use autoware_ai_common.Behavior.Shapes.{settled}
use autoware_ai_common.Behavior.Wiring.{DecisionMaker, advance, start}
use autoware_ai_common.Behavior.Reachable.{
  IsWired, Place, advance-IsWired, arrival, at_init, conditions-advance,
  shapes-init_behavior_states, verdict,
}

module _ {W : Type 0} where
  -- CalculateImportantParameterForDecisionMaking, with any result
  unfoldable pub observe : PreCalculatedConditions W → DecisionMaker W → DecisionMaker W
  observe c k =
      let old = k.machine.conditions in
      let seen = record c {
        prev_goal_id = old.prev_goal_id;
        prev_stop_sign_id = old.prev_stop_sign_id;
        prev_traffic_light_id = old.prev_traffic_light_id;
      } in
      record k { machine = record k.machine { conditions = seen } }

  pub observe-IsWired :
      (c : PreCalculatedConditions W) (k : DecisionMaker W) (at : Place)
      → IsWired k at
      → IsWired (observe c k) at
  unfolding observe
  observe-IsWired c k at w = record { wired = w.wired; here = w.here }

module _ {W : Type 0} ⦃d : Double W⦄ where
  -- One step of DoOneStep at a time, with the conditions calculated there.
  unfoldable pub tick : ℕ → PreCalculatedConditions W → DecisionMaker W → DecisionMaker W
  tick now c k = advance now (observe c k)

  unfoldable pub drive : DecisionMaker W → List (ℕ × PreCalculatedConditions W) → DecisionMaker W
  drive k [] = k
  drive k ((now, c) ∷ es) = drive (tick now c k) es

  -- What the state machine decides in a step.
  abbrev pub decided : ℕ → PreCalculatedConditions W → DecisionMaker W → Place → Verdict W
  decided now c k at = verdict (observe c k).machine at now

  pub tick-IsWired :
      (now : ℕ) (c : PreCalculatedConditions W) (k : DecisionMaker W) (at : Place)
      → IsWired k at
      → IsWired (tick now c k) (arrival at (decided now c k at))
  unfolding tick
  tick-IsWired now c k at w = advance-IsWired (observe c k) at now (observe-IsWired c k at w)

  pub conditions-tick :
      (now : ℕ) (c : PreCalculatedConditions W) (k : DecisionMaker W) (at : Place)
      → IsWired k at
      → (tick now c k).machine.conditions
        ≡ settled (observe c k).machine.conditions (decided now c k at)
  unfolding tick
  conditions-tick now c k at w = conditions-advance (observe c k) at now (observe-IsWired c k at w)

  start-IsWired : (p : PlanningParams W) (now : ℕ) → IsWired (start p now) at_init
  unfolding start
  start-IsWired p now = record {
    wired = shapes-init_behavior_states p.stop_sign_stop_time now;
    here = refl;
  }

  -- An invariant of the place that holds in each step of a history holds at its end.
  pub drive_inv :
      (P : Place → Type 0) (Q : PreCalculatedConditions W → Type 0)
      → ((now : ℕ) (c : PreCalculatedConditions W) (k : DecisionMaker W) (at : Place)
          → P at
          → Q c
          → P (arrival at (decided now c k at)))
      → (k : DecisionMaker W) (at : Place) (es : List (ℕ × PreCalculatedConditions W))
      → IsWired k at
      → P at
      → All (λ e. Q e.1) es
      → (at' : Place) × IsWired (drive k es) at' × P at'
  unfolding drive
  drive_inv P Q keep k at [] w p q = (at, w, p)
  drive_inv P Q keep k at ((now, c) ∷ es) w p q =
      drive_inv P Q keep (tick now c k) (arrival at (decided now c k at)) es
        (tick-IsWired now c k at w) (keep now c k at p q.0) q.1

  All-Unit : (es : List (ℕ × PreCalculatedConditions W)) → All (λ e. Unit {0}) es
  All-Unit [] = tt
  All-Unit (e ∷ es) = (tt, All-Unit es)

  -- After any history of times and conditions from InitBehaviorStates, every object has the class, the
  -- next states and the decision time that it was given there, and the current state is one of the
  -- ten objects other than the StopState: no nullptr is ever current.
  pub drive-start-IsWired :
      (p : PlanningParams W) (now : ℕ) (es : List (ℕ × PreCalculatedConditions W))
      → (at : Place) × IsWired (drive (start p now) es) at
  drive-start-IsWired p now es =
      let (at, w, _) =
        drive_inv (λ _. Unit {0}) (λ _. Unit {0}) (λ _ _ _ _ _ _. tt) (start p now) at_init es
          (start-IsWired p now) tt (All-Unit es) in
      (at, w)
