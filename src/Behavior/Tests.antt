-- ===== src/Behavior/Tests.antt =====
-- Runs of the state machine of op_planner on concrete inputs, and each of its results at one of them.
-- Velocities and distances are in thousandths.
use autoware_ai_common.Base.{List, [], arith, none, refl, true, ℕ, ◌↔◌, ◌∷◌, ◌≡◌, ◌≢◌, ◌⊎◌}
use autoware_ai_common.Base.Int.{negsuc, pos, ℤ}
use autoware_ai_common.Behavior.Types.{
  PlanningParams, PreCalculatedConditions, default_conditions, default_params,
}
use autoware_ai_common.Behavior.Heap.{behavior_at, clear_log, find_target, reset_timer}
use autoware_ai_common.Behavior.Classes.{
  decide, forward_ii_next, goal_changed, goal_ii_next, init_ii_next, stop_sign_stop_ii_next,
  stop_sign_wait_ii_next,
}
use autoware_ai_common.Behavior.Wiring.{
  DecisionMaker, advance, go_to_goal_at, init_behavior_states, mission_complete_at, start,
  stop_sign_stop_at, stop_sign_wait_at,
}
use autoware_ai_common.Behavior.Drive.{drive, drive-start-IsWired, observe, tick}
use autoware_ai_common.Behavior.{find_behavior_state, follow_verdict, get_next_state, next_of}
use autoware_ai_common.Base.Double.{int_double}
use autoware_ai_common.Behavior.Reachable.{
  IsWired, Place, at_go_to_goal, at_goal, at_init, at_mission_complete, at_stop_sign_stop,
  at_traffic_light_stop, get_next_state-none,
}
use autoware_ai_common.Behavior.Safety.{at_light, drive-at_light, two_ticks-at_light}
use autoware_ai_common.Behavior.Waiting.{IsWaiting}
use autoware_ai_common.Behavior.StopSigns.{drive-tick-stop_sign, passed-stop_sign}
use autoware_ai_common.Behavior.Goal.{drive-lost_goal, finish-tick}

abbrev params : PlanningParams ℤ
params = record default_params {
  enable_traffic_light_behavior = true;
  enable_stop_sign_behavior = true;
}

abbrev calm : PreCalculatedConditions ℤ
calm = record default_conditions { current_goal_id = pos 1; current_velocity = pos 3000 }

abbrev red : PreCalculatedConditions ℤ
red = record calm { current_traffic_light_id = pos 4; traffic_is_red = true }

abbrev sign : PreCalculatedConditions ℤ
sign = record calm { current_stop_sign_id = pos 9 }

abbrev halted : PreCalculatedConditions ℤ
halted = record sign { current_velocity = pos 0 }

abbrev ended : PreCalculatedConditions ℤ
ended = record halted { current_goal_id = negsuc 0 }

abbrev Events : Type 0
Events = List (ℕ × PreCalculatedConditions ℤ)

-- From the start by way of the goal state to driving.
abbrev departure : Events
departure = (1, calm) ∷ (2, calm) ∷ (3, calm) ∷ []

abbrev began : DecisionMaker ℤ
began = drive (start params 0) departure

-- At a stop sign, still rolling.
abbrev at_sign : DecisionMaker ℤ
at_sign = drive began ((4, sign) ∷ [])

-- The library functions that a run computes with.
ran : began.current ≡ go_to_goal_at
unfolding start drive tick observe advance get_next_state next_of decide follow_verdict
    find_behavior_state find_target behavior_at reset_timer clear_log init_behavior_states
    forward_ii_next init_ii_next goal_ii_next
ran = refl

-- The second goal in a row ends the drive of the first at once.
waits : (drive at_sign ((5, halted) ∷ (6, halted) ∷ [])).current ≡ stop_sign_wait_at
unfolding start drive tick observe advance get_next_state next_of decide follow_verdict
    find_behavior_state find_target behavior_at reset_timer clear_log init_behavior_states
    forward_ii_next init_ii_next goal_ii_next stop_sign_stop_ii_next stop_sign_wait_ii_next
waits = refl

began-IsWired : IsWired began at_go_to_goal
unfolding start drive tick observe advance get_next_state next_of decide follow_verdict
    find_behavior_state find_target behavior_at reset_timer clear_log init_behavior_states
    forward_ii_next init_ii_next goal_ii_next
began-IsWired = record { wired = refl; here = refl }

at_sign-IsWired : IsWired at_sign at_stop_sign_stop
unfolding start drive tick observe advance get_next_state next_of decide follow_verdict
    find_behavior_state find_target behavior_at reset_timer clear_log init_behavior_states
    forward_ii_next init_ii_next goal_ii_next
at_sign-IsWired = record { wired = refl; here = refl }

abbrev at_red : DecisionMaker ℤ
at_red = drive began ((4, red) ∷ [])

at_red-IsWired : IsWired at_red at_traffic_light_stop
unfolding start drive tick observe advance get_next_state next_of decide follow_verdict
    find_behavior_state find_target behavior_at reset_timer clear_log init_behavior_states
    forward_ii_next init_ii_next goal_ii_next
at_red-IsWired = record { wired = refl; here = refl }

get_next_state-none_example :
    ((get_next_state at_sign.current 5 at_sign.machine).1 ≡ none)
    ↔ ((at_stop_sign_stop ≡ at_stop_sign_stop) × (goal_changed at_sign.machine.conditions ≡ true))
get_next_state-none_example = get_next_state-none at_sign at_stop_sign_stop 5 at_sign-IsWired

drive-start-IsWired_example : (at : Place) × IsWired (drive (start params 0) departure) at
drive-start-IsWired_example = drive-start-IsWired params 0 departure

drive-at_light_example :
    (at : Place) × IsWired (drive at_red ((5, red) ∷ (6, red) ∷ [])) at × (at_light at ≡ true)
drive-at_light_example =
    drive-at_light at_red at_traffic_light_stop ((5, red) ∷ (6, red) ∷ []) at_red-IsWired refl
      (refl, (refl, tt))

two_ticks-at_light_example :
    (at : Place) × IsWired (tick 5 red (tick 4 red began)) at × (at_light at ≡ true)
unfolding start drive tick observe advance get_next_state next_of decide follow_verdict
    find_behavior_state find_target behavior_at reset_timer clear_log init_behavior_states
    forward_ii_next init_ii_next goal_ii_next
two_ticks-at_light_example =
    two_ticks-at_light began at_go_to_goal 4 5 red red began-IsWired refl (refl, refl) (refl, refl)

drive-tick-stop_sign_example :
    IsWaiting 5 (drive (tick 5 halted at_sign) ((6, halted) ∷ (1_000_000_000, sign) ∷ []))
unfolding start drive tick observe advance get_next_state next_of decide follow_verdict
    find_behavior_state find_target behavior_at reset_timer clear_log init_behavior_states
    forward_ii_next init_ii_next goal_ii_next stop_sign_stop_ii_next
drive-tick-stop_sign_example =
    drive-tick-stop_sign at_sign 5 halted ((6, halted) ∷ (1_000_000_000, sign) ∷ []) at_sign-IsWired
      refl refl (omega arith, (omega arith, tt))

abbrev waiting : DecisionMaker ℤ
waiting = tick 5 halted at_sign

waiting-IsWaiting : IsWaiting 5 waiting
unfolding start drive tick observe advance get_next_state next_of decide follow_verdict
    find_behavior_state find_target behavior_at reset_timer clear_log init_behavior_states
    forward_ii_next init_ii_next goal_ii_next stop_sign_stop_ii_next
waiting-IsWaiting = record { wired = record { wired = refl; here = refl }; waiting = refl }

passed-stop_sign_example :
    IsWired (tick 2_000_000_005 sign waiting) at_go_to_goal
    × ((tick 2_000_000_006 sign (tick 2_000_000_005 sign waiting)).current ≢ stop_sign_stop_at)
unfolding start drive tick observe advance get_next_state next_of decide follow_verdict
    find_behavior_state find_target behavior_at reset_timer clear_log init_behavior_states
    forward_ii_next init_ii_next goal_ii_next stop_sign_stop_ii_next
passed-stop_sign_example =
    passed-stop_sign waiting 5 2_000_000_005 2_000_000_006 sign sign waiting-IsWaiting (omega arith)
      refl

finish-tick_example : ((tick 5 ended at_sign).current ≡ mission_complete_at) ↔ (
    (at_stop_sign_stop ≡ at_mission_complete)
    ⊎ ((at_stop_sign_stop ≡ at_goal) × (ended.current_goal_id ≡ negsuc 0)))
finish-tick_example = finish-tick at_sign at_stop_sign_stop 5 ended at_sign-IsWired

drive-lost_goal_example :
    (at : Place) × IsWired (drive (tick 5 ended at_sign) ((6, ended) ∷ [])) at × (at ≡ at_init)
unfolding start drive tick observe advance get_next_state next_of decide follow_verdict
    find_behavior_state find_target behavior_at reset_timer clear_log init_behavior_states
    forward_ii_next init_ii_next goal_ii_next
drive-lost_goal_example =
    drive-lost_goal at_sign 5 ended ((6, ended) ∷ []) at_sign-IsWired refl (refl, tt)
