-- ===== src/Behavior/Goal.antt =====
-- Goals and the end of a mission in the state machine of op_planner.
use autoware_ai_common.Base.{All, Bool, List, arith, sym, true, ℕ, ◌↔◌, ◌∙◌, ◌≡◌, ◌⊎◌}
use autoware_ai_common.Base.Int.{eqb_ℤ_iff, negsuc}
use autoware_ai_common.Base.Double.{Double}
use autoware_ai_common.Behavior.Types.{PlanningParams, PreCalculatedConditions, stop_sign_stop_ii}
use autoware_ai_common.Behavior.Classes.{
  decide, follow_ii_next, forward_ii_next, goal_changed, goal_ii_next, init_ii_next,
  stop_sign_stop_ii_next, stop_sign_wait_ii_next, swerve_ii_next, traffic_light_stop_ii_next,
  traffic_light_wait_ii_next,
}
use autoware_ai_common.Behavior.Wiring.{DecisionMaker, mission_complete_at}
use autoware_ai_common.Behavior.Reachable.{
  IsWired, Place, arrival, at_goal, at_init, at_mission_complete, at_stop_sign_stop, class_at,
  early_at, place,
}
use autoware_ai_common.Behavior.Drive.{decided, drive, drive_inv, observe, tick, tick-IsWired}

place-mission_complete :
    (at : Place) → (place at ≡ mission_complete_at) ↔ (at ≡ at_mission_complete)
place-mission_complete at_mission_complete = (ground arith, ground arith)
place-mission_complete _ = (ground arith, ground arith)

module _ {W : Type 0} ⦃d : Double W⦄ where
  finish-decide :
      (early : Bool) (p : PlanningParams W) (c : PreCalculatedConditions W) (at : Place)
      → (arrival at (decide (class_at at) early p c) ≡ at_mission_complete)
        ↔ ((at ≡ at_mission_complete) ⊎ ((at ≡ at_goal) × (c.current_goal_id ≡ negsuc 0)))
  unfolding decide forward_ii_next follow_ii_next stop_sign_stop_ii_next stop_sign_wait_ii_next
      goal_ii_next init_ii_next swerve_ii_next traffic_light_stop_ii_next traffic_light_wait_ii_next
  finish-decide early p c at_mission_complete = (ground arith, ground arith)
  finish-decide early p c at_goal = (
    ground (arith, eqb_ℤ_iff c.current_goal_id (negsuc 0)),
    ground (arith, eqb_ℤ_iff c.current_goal_id (negsuc 0)),
  )
  finish-decide early p c _ = (ground arith, ground arith)

  -- A step ends in the mission-accomplished state exactly if the machine was in it already, or was in
  -- the goal state and the end of the path (goal -1) has been reached.
  pub finish-tick :
      (k : DecisionMaker W) (at : Place) (now : ℕ) (c : PreCalculatedConditions W)
      → IsWired k at
      → ((tick now c k).current ≡ mission_complete_at)
        ↔ ((at ≡ at_mission_complete) ⊎ ((at ≡ at_goal) × (c.current_goal_id ≡ negsuc 0)))
  unfolding observe
  finish-tick k at now c w =
      let w' = tick-IsWired now c k at w in
      let iff = finish-decide (early_at (observe c k).machine at now) _ _ at in
      (
        λ e. iff.0 ((place-mission_complete _).0 (sym w'.here ∙ e)),
        λ h. w'.here ∙ (place-mission_complete _).1 (iff.1 h),
      )

  lost-decide :
      (early : Bool) (p : PlanningParams W) (c : PreCalculatedConditions W) (at : Place)
      → at ≡ at_init
      → c.current_goal_id ≡ negsuc 0
      → arrival at (decide (class_at at) early p c) ≡ at_init
  unfolding decide init_ii_next
  lost-decide early p c at e lost = rw e (ground arith)

  lost_step :
      (now : ℕ) (c : PreCalculatedConditions W) (k : DecisionMaker W) (at : Place)
      → at ≡ at_init
      → c.current_goal_id ≡ negsuc 0
      → arrival at (decided now c k at) ≡ at_init
  unfolding observe
  lost_step now c k at e lost = lost-decide _ _ _ at e lost

  lost_first :
      (early : Bool) (p : PlanningParams W) (c : PreCalculatedConditions W)
      → goal_changed c ≡ true
      → arrival at_stop_sign_stop (decide stop_sign_stop_ii early p c) ≡ at_init
  unfolding decide stop_sign_stop_ii_next
  lost_first early p c e = rw e

  -- A vehicle whose path ends while it stops at a stop sign never finishes its mission: from that step
  -- on it is in the initial state in every step of a history with the goal -1.
  pub drive-lost_goal :
      (k : DecisionMaker W) (now : ℕ) (c : PreCalculatedConditions W)
      (es : List (ℕ × PreCalculatedConditions W))
      → IsWired k at_stop_sign_stop
      → goal_changed (observe c k).machine.conditions ≡ true
      → All (λ e. e.1.current_goal_id ≡ negsuc 0) es
      → (at : Place) × IsWired (drive (tick now c k) es) at × (at ≡ at_init)
  drive-lost_goal k now c es w changed h =
      drive_inv (λ at. at ≡ at_init) (λ e. e.current_goal_id ≡ negsuc 0) lost_step (tick now c k) _
        es (tick-IsWired now c k at_stop_sign_stop w) (lost_first _ _ _ changed) h
