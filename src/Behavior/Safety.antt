-- ===== src/Behavior/Safety.antt =====
-- The state machine of op_planner/src/BehaviorStateMachine.cpp at red lights.
use autoware_ai_common.Base.{All, Bool, List, arith, false, refl, true, ℕ, ◌≡◌}
use autoware_ai_common.Base.Double.{Double}
use autoware_ai_common.Behavior.Types.{PlanningParams, PreCalculatedConditions}
use autoware_ai_common.Behavior.Classes.{
  decide, follow_ii_next, forward_ii_next, goal_changed, red_light_ahead, swerve_ii_next,
  traffic_light_stop_ii_next, traffic_light_wait_ii_next,
}
use autoware_ai_common.Behavior.Reachable.{
  IsWired, Place, arrival, at_avoid_obstacle, at_follow, at_go_to_goal, at_traffic_light_stop,
  at_traffic_light_wait, class_at, early_at,
}
use autoware_ai_common.Behavior.Wiring.{DecisionMaker}
use autoware_ai_common.Behavior.Drive.{decided, drive, drive_inv, observe, tick, tick-IsWired}

-- Stopping or waiting at a traffic light.
abbrev pub at_light : Place → Bool
at_light at_traffic_light_stop = true
at_light at_traffic_light_wait = true
at_light _ = false

-- The states in which the vehicle drives on its path.
abbrev pub is_driving : Place → Bool
is_driving at_go_to_goal = true
is_driving at_follow = true
is_driving at_avoid_obstacle = true
is_driving _ = false

-- The states from which a red light is reached in one step.
abbrev is_near : Place → Bool
is_near at_go_to_goal = true
is_near at_traffic_light_stop = true
is_near _ = false

module _ {W : Type 0} ⦃d : Double W⦄ where
  red-at_light :
      (early : Bool) (p : PlanningParams W) (c : PreCalculatedConditions W) (at : Place)
      → at_light at ≡ true
      → c.traffic_is_red ≡ true
      → at_light (arrival at (decide (class_at at) early p c)) ≡ true
  unfolding decide traffic_light_stop_ii_next traffic_light_wait_ii_next
  red-at_light early p c at_traffic_light_stop h red = ground arith
  red-at_light early p c at_traffic_light_wait h red = ground arith
  red-at_light early p c _ h red = absurd (cc h)

  -- Once the vehicle stops or waits at a light, it goes on doing so for as long as the light is red in
  -- every step, whatever else the conditions and the times of the steps are.
  pub drive-at_light :
      (k : DecisionMaker W) (at : Place) (es : List (ℕ × PreCalculatedConditions W))
      → IsWired k at
      → at_light at ≡ true
      → All (λ e. e.1.traffic_is_red ≡ true) es
      → (at' : Place) × IsWired (drive k es) at' × (at_light at' ≡ true)
  drive-at_light =
      drive_inv (λ at. at_light at ≡ true) (λ c. c.traffic_is_red ≡ true)
        (λ now c k at h red. unfold observe in red-at_light _ _ _ at h red)

  -- The conditions as the machine sees them have the previous goal, and a red light ahead that counts:
  -- the behaviour is enabled, its identifier is positive and is not that of the last light passed.
  abbrev pub MustStop : PreCalculatedConditions W → DecisionMaker W → Type 0
  MustStop c k =
      (goal_changed (observe c k).machine.conditions ≡ false)
      × (red_light_ahead (observe c k).machine.params (observe c k).machine.conditions ≡ true)

  first_tick :
      (early : Bool) (p : PlanningParams W) (c : PreCalculatedConditions W) (at : Place)
      → is_driving at ≡ true
      → goal_changed c ≡ false
      → red_light_ahead p c ≡ true
      → is_near (arrival at (decide (class_at at) early p c)) ≡ true
  unfolding decide forward_ii_next follow_ii_next swerve_ii_next
  first_tick early p c at_go_to_goal h same red = ground arith
  first_tick early p c at_follow h same red = ground arith
  first_tick early p c at_avoid_obstacle h same red = refl
  first_tick early p c _ h same red = absurd (cc h)

  second_tick :
      (early : Bool) (p : PlanningParams W) (c : PreCalculatedConditions W) (at : Place)
      → is_near at ≡ true
      → goal_changed c ≡ false
      → red_light_ahead p c ≡ true
      → at_light (arrival at (decide (class_at at) early p c)) ≡ true
  unfolding decide forward_ii_next traffic_light_stop_ii_next
  second_tick early p c at_go_to_goal h same red = ground arith
  second_tick early p c at_traffic_light_stop h same red = ground arith
  second_tick early p c _ h same red = absurd (cc h)

  -- Two steps with an unchanged goal, in both of which the light behaviour is enabled and a red light
  -- with a positive identifier other than that of the last light passed is ahead, bring a machine that
  -- drives, follows or swerves to the state of stopping or of waiting at a traffic light.
  pub two_ticks-at_light :
      (k : DecisionMaker W) (at : Place) (t1 t2 : ℕ) (c1 c2 : PreCalculatedConditions W)
      → IsWired k at
      → is_driving at ≡ true
      → MustStop c1 k
      → MustStop c2 (tick t1 c1 k)
      → (at' : Place) × IsWired (tick t2 c2 (tick t1 c1 k)) at' × (at_light at' ≡ true)
  two_ticks-at_light k at t1 t2 c1 c2 w driving m1 m2 =
      let near = first_tick (early_at (observe c1 k).machine at t1) _ _ at driving m1.0 m1.1 in
      (
        _,
        tick-IsWired t2 c2 (tick t1 c1 k) _ (tick-IsWired t1 c1 k at w),
        second_tick _ _ _ (arrival at (decided t1 c1 k at)) near m2.0 m2.1,
      )
