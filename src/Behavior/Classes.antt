-- ===== src/Behavior/Classes.antt =====
-- op_planner/src/BehaviorStateMachine.cpp: the GetNextState of each class, up to its call of
-- FindBehaviorState. `stay` is `return this`; `seek b c` is FindBehaviorState(b) after the shared
-- conditions became `c`. `early` is the test of the state's timer against its decision time.
use autoware_ai_common.Base.{Bool, if◌then◌else◌, not, true, ◌&&◌, ◌||◌}
use autoware_ai_common.Base.Int.{eqb_ℤ, ltb_ℤ, negsuc, pos, ℤ}
use autoware_ai_common.Base.Double.{Double}
use autoware_ai_common.Behavior.Types.{
  PlanningParams, PreCalculatedConditions, StateClass, StateType, finish_state, follow, follow_ii,
  follow_state, forward, forward_ii, forward_state, goal, goal_ii, goal_state, init, init_ii,
  initial_state, mission_accomplished, mission_accomplished_ii, obstacle_avoidance_state, stop,
  stop_sign_stop, stop_sign_stop_ii, stop_sign_stop_state, stop_sign_wait, stop_sign_wait_ii,
  stop_sign_wait_state, stopping_state, swerve, swerve_ii, traffic_light_stop,
  traffic_light_stop_ii, traffic_light_stop_state, traffic_light_wait, traffic_light_wait_ii,
  traffic_light_wait_state, wait,
}

pub data Verdict (W : Type 0) : Type 0 where
  stay : Verdict W
  seek : StateType → PreCalculatedConditions W → Verdict W

abbrev pub differ : ℤ → ℤ → Bool
differ a b = not (eqb_ℤ a b)

module _ {W : Type 0} where
  abbrev pub goal_changed : PreCalculatedConditions W → Bool
  goal_changed c = differ c.current_goal_id c.prev_goal_id

  abbrev pub red_light_ahead : PlanningParams W → PreCalculatedConditions W → Bool
  red_light_ahead p c =
      p.enable_traffic_light_behavior
      && ltb_ℤ (pos 0) c.current_traffic_light_id
      && c.traffic_is_red
      && differ c.current_traffic_light_id c.prev_traffic_light_id

  abbrev pub stop_sign_ahead : PlanningParams W → PreCalculatedConditions W → Bool
  stop_sign_ahead p c =
      p.enable_stop_sign_behavior
      && ltb_ℤ (pos 0) c.current_stop_sign_id
      && differ c.current_stop_sign_id c.prev_stop_sign_id

  abbrev pub light_passed : PreCalculatedConditions W → PreCalculatedConditions W
  light_passed c = record c { prev_traffic_light_id = c.current_traffic_light_id }

  abbrev pub goal_taken : PreCalculatedConditions W → PreCalculatedConditions W
  goal_taken c = record c { prev_goal_id = c.current_goal_id }

  unfoldable pub stop_sign_wait_next : Bool → PreCalculatedConditions W → Verdict W
  stop_sign_wait_next early c =
      if early
      then stay
      else seek forward_state (record c { prev_stop_sign_id = c.current_stop_sign_id })

  unfoldable pub wait_next : Bool → PreCalculatedConditions W → Verdict W
  wait_next early c = if early then stay else seek forward_state c

  unfoldable pub init_next : Bool → PreCalculatedConditions W → Verdict W
  init_next early c =
      if early
      then stay
      else if eqb_ℤ c.outside_control (pos 1)
      then seek forward_state (goal_taken c)
      else seek initial_state c

  unfoldable pub follow_next : Bool → PlanningParams W → PreCalculatedConditions W → Verdict W
  follow_next early p c =
      if early
      then stay
      else if red_light_ahead p c
      then seek traffic_light_stop_state c
      else if stop_sign_ahead p c
      then seek stop_sign_stop_state c
      else if goal_changed c || not c.fully_block
      then seek forward_state c
      else seek follow_state c

  unfoldable pub goal_next : Bool → PreCalculatedConditions W → Verdict W
  goal_next early c =
      if early
      then stay
      else if eqb_ℤ c.current_goal_id (negsuc 0)
      then seek finish_state c
      else if goal_changed c
      then seek forward_state (goal_taken c)
      else seek goal_state c

  unfoldable pub swerve_ii_next : PreCalculatedConditions W → Verdict W
  swerve_ii_next c =
      seek forward_state
        (record c { i_prev_safe_trajectory = c.i_curr_safe_trajectory; re_plan = true })

  unfoldable pub init_ii_next : PreCalculatedConditions W → Verdict W
  init_ii_next c =
      if ltb_ℤ (pos 0) c.current_goal_id then seek forward_state c else seek initial_state c

  unfoldable pub goal_ii_next : PreCalculatedConditions W → Verdict W
  goal_ii_next c =
      if eqb_ℤ c.current_goal_id (negsuc 0)
      then seek finish_state c
      else seek forward_state (goal_taken c)

  unfoldable pub stop_sign_wait_ii_next : Bool → PreCalculatedConditions W → Verdict W
  stop_sign_wait_ii_next early c =
      if early
      then stay
      else seek forward_state (record c { prev_stop_sign_id = c.current_stop_sign_id })

  unfoldable pub traffic_light_wait_ii_next : PreCalculatedConditions W → Verdict W
  traffic_light_wait_ii_next c =
      if not c.traffic_is_red
      then seek forward_state (light_passed c)
      else seek traffic_light_wait_state c

module _ {W : Type 0} ⦃d : Double W⦄ where
  -- m_zero_velocity
  abbrev pub zero_velocity : W
  zero_velocity = d.milli (pos 100)

  unfoldable pub forward_next : Bool → PlanningParams W → PreCalculatedConditions W → Verdict W
  forward_next early p c =
      if early
      then stay
      else if goal_changed c
      then seek goal_state c
      else if p.enable_swerving
          && d.le c.distance_to_next p.min_distance_to_avoid
          && not c.fully_block
          && (differ c.i_curr_safe_trajectory c.i_prev_safe_trajectory
              || differ c.i_curr_safe_lane c.i_prev_safe_lane)
      then seek obstacle_avoidance_state c
      else if red_light_ahead p c
      then seek traffic_light_stop_state c
      else if stop_sign_ahead p c
      then seek stop_sign_stop_state c
      else if p.enable_following && c.fully_block
      then seek follow_state c
      else seek forward_state (
          if eqb_ℤ c.i_curr_safe_trajectory c.i_central_trajectory
            && differ c.i_prev_safe_trajectory c.i_curr_safe_trajectory
          then record c { re_plan = true }
          else c)

  unfoldable pub stop_next : Bool → PlanningParams W → PreCalculatedConditions W → Verdict W
  stop_next early p c =
      if early
      then stay
      else if d.lt p.max_distance_to_avoid c.distance_to_next
      then seek forward_state c
      else seek stopping_state c

  unfoldable pub traffic_light_stop_ii_next : PreCalculatedConditions W → Verdict W
  traffic_light_stop_ii_next c =
      if not c.traffic_is_red
      then seek forward_state (light_passed c)
      else if c.traffic_is_red && d.le c.current_velocity zero_velocity
      then seek traffic_light_wait_state c
      else seek traffic_light_stop_state c

  unfoldable pub traffic_light_stop_next : Bool → PreCalculatedConditions W → Verdict W
  traffic_light_stop_next early c =
      if early
      then stay
      else if not c.traffic_is_red
      then seek forward_state (light_passed c)
      else if c.traffic_is_red && d.le c.current_velocity zero_velocity
      then seek traffic_light_wait_state c
      else seek traffic_light_stop_state c

  unfoldable pub traffic_light_wait_next : Bool → PreCalculatedConditions W → Verdict W
  traffic_light_wait_next early c =
      if early
      then stay
      else if not c.traffic_is_red
      then seek forward_state (light_passed c)
      else if d.lt zero_velocity c.current_velocity
      then seek traffic_light_stop_state c
      else seek traffic_light_wait_state c

  unfoldable pub stop_sign_stop_next : Bool → PreCalculatedConditions W → Verdict W
  stop_sign_stop_next early c =
      if early
      then stay
      else if d.lt c.current_velocity zero_velocity
      then seek stop_sign_wait_state c
      else seek stop_sign_stop_state c

  unfoldable pub swerve_next : Bool → PlanningParams W → PreCalculatedConditions W → Verdict W
  swerve_next early p c =
      if early
      then stay
      else if d.lt (d.milli (pos 0)) c.distance_to_next
          && d.lt c.distance_to_next p.min_distance_to_avoid
          && not c.fully_block
          && differ c.i_curr_safe_trajectory c.i_prev_safe_trajectory
      then seek obstacle_avoidance_state c
      else seek forward_state c

  -- The test for a swerve, of ForwardStateII and FollowStateII.
  abbrev pub swerve_wanted : PlanningParams W → PreCalculatedConditions W → Bool
  swerve_wanted p c =
      p.enable_swerving
      && d.le c.distance_to_next p.min_distance_to_avoid
      && not c.fully_block
      && differ c.i_curr_safe_trajectory c.i_prev_safe_trajectory

  unfoldable pub forward_ii_next : PlanningParams W → PreCalculatedConditions W → Verdict W
  forward_ii_next p c =
      if goal_changed c
      then seek goal_state c
      else if red_light_ahead p c
      then seek traffic_light_stop_state c
      else if stop_sign_ahead p c
      then seek stop_sign_stop_state c
      else if p.enable_following && c.fully_block
      then seek follow_state c
      else if swerve_wanted p c
      then seek obstacle_avoidance_state c
      else seek forward_state c

  unfoldable pub follow_ii_next : PlanningParams W → PreCalculatedConditions W → Verdict W
  follow_ii_next p c =
      if goal_changed c
      then seek goal_state c
      else if red_light_ahead p c
      then seek traffic_light_stop_state c
      else if stop_sign_ahead p c
      then seek stop_sign_stop_state c
      else if swerve_wanted p c
      then seek obstacle_avoidance_state c
      else if not c.fully_block
      then seek forward_state c
      else seek follow_state c

  unfoldable pub stop_sign_stop_ii_next : PreCalculatedConditions W → Verdict W
  stop_sign_stop_ii_next c =
      if goal_changed c
      then seek goal_state c
      else if d.lt c.current_velocity zero_velocity
      then seek stop_sign_wait_state c
      else seek stop_sign_stop_state c

  -- The dynamic dispatch of GetNextState.
  unfoldable pub decide :
      StateClass → Bool → PlanningParams W → PreCalculatedConditions W → Verdict W
  decide forward early p c = forward_next early p c
  decide forward_ii early p c = forward_ii_next p c
  decide mission_accomplished early p c = seek finish_state c
  decide mission_accomplished_ii early p c = seek finish_state c
  decide follow early p c = follow_next early p c
  decide follow_ii early p c = follow_ii_next p c
  decide swerve early p c = swerve_next early p c
  decide swerve_ii early p c = swerve_ii_next c
  decide stop early p c = stop_next early p c
  decide traffic_light_stop early p c = traffic_light_stop_next early c
  decide traffic_light_stop_ii early p c = traffic_light_stop_ii_next c
  decide traffic_light_wait early p c = traffic_light_wait_next early c
  decide traffic_light_wait_ii early p c = traffic_light_wait_ii_next c
  decide stop_sign_stop early p c = stop_sign_stop_next early c
  decide stop_sign_stop_ii early p c = stop_sign_stop_ii_next c
  decide stop_sign_wait early p c = stop_sign_wait_next early c
  decide stop_sign_wait_ii early p c = stop_sign_wait_ii_next early c
  decide wait early p c = wait_next early c
  decide init early p c = init_next early c
  decide init_ii early p c = init_ii_next c
  decide goal early p c = goal_next early c
  decide goal_ii early p c = goal_ii_next c
