-- ===== src/Behavior/Types.antt =====
-- The state types, planning parameters and shared conditions of op_planner/include/op_planner/
-- RoadNetwork.h, and the classes of op_planner/include/op_planner/BehaviorStateMachine.h. Of the
-- parameters and conditions, the fields are those that the state machine and the decision maker use.
use autoware_ai_common.Base.{Bool, List, [], false, if◌then◌else◌, ℕ, ◌==◌, ◌∷◌}
use autoware_ai_common.Base.Int.{negsuc, pos, ℤ}
use autoware_ai_common.Base.Double.{Double}

pub data StateType : Type 0 where
  initial_state waiting_state forward_state stopping_state emergency_state traffic_light_stop_state
        traffic_light_wait_state stop_sign_stop_state stop_sign_wait_state follow_state
        lane_change_state obstacle_avoidance_state goal_state finish_state yielding_state
        branch_left_state branch_right_state :
      StateType

pub StateType-discrete : Discrete StateType
StateType-discrete = hlevel

-- The place of a value in the enumeration.
abbrev pub ordinal : StateType → ℕ
ordinal initial_state = 0
ordinal waiting_state = 1
ordinal forward_state = 2
ordinal stopping_state = 3
ordinal emergency_state = 4
ordinal traffic_light_stop_state = 5
ordinal traffic_light_wait_state = 6
ordinal stop_sign_stop_state = 7
ordinal stop_sign_wait_state = 8
ordinal follow_state = 9
ordinal lane_change_state = 10
ordinal obstacle_avoidance_state = 11
ordinal goal_state = 12
ordinal finish_state = 13
ordinal yielding_state = 14
ordinal branch_left_state = 15
ordinal branch_right_state = 16

abbrev pub same_state : StateType → StateType → Bool
same_state a b = ordinal a == ordinal b

pub record PlanningParams (W : Type 0) : Type 0 where
  pub min_distance_to_avoid : W
  pub max_distance_to_avoid : W
  pub stop_sign_stop_time : ℕ
  pub enable_swerving : Bool
  pub enable_following : Bool
  pub enable_traffic_light_behavior : Bool
  pub enable_stop_sign_behavior : Bool

pub record PreCalculatedConditions (W : Type 0) : Type 0 where
  pub current_goal_id : ℤ
  pub prev_goal_id : ℤ
  pub distance_to_next : W
  pub velocity_of_next : W
  pub i_prev_safe_lane : ℤ
  pub i_curr_safe_lane : ℤ
  pub current_stop_sign_id : ℤ
  pub prev_stop_sign_id : ℤ
  pub current_traffic_light_id : ℤ
  pub prev_traffic_light_id : ℤ
  pub traffic_is_red : Bool
  pub i_prev_safe_trajectory : ℤ
  pub i_curr_safe_trajectory : ℤ
  pub i_central_trajectory : ℤ
  pub fully_block : Bool
  pub new_global_path : Bool
  pub re_plan : Bool
  pub current_velocity : W
  pub min_stopping_distance : W
  pub outside_control : ℤ
  pub stopping_distances : List W

module _ {W : Type 0} ⦃d : Double W⦄ where
  -- the default constructor of PlanningParams
  abbrev pub default_params : PlanningParams W
  default_params = record {
    min_distance_to_avoid = d.milli (pos 15000);
    max_distance_to_avoid = d.milli (pos 5000);
    stop_sign_stop_time = 2_000_000_000;
    enable_swerving = false;
    enable_following = false;
    enable_traffic_light_behavior = false;
    enable_stop_sign_behavior = false;
  }

  -- the default constructor of PreCalculatedConditions
  abbrev pub default_conditions : PreCalculatedConditions W
  default_conditions = record {
    current_goal_id = pos 0;
    prev_goal_id = negsuc 0;
    distance_to_next = d.milli (negsuc 999);
    velocity_of_next = d.milli (pos 0);
    i_prev_safe_lane = negsuc 0;
    i_curr_safe_lane = negsuc 0;
    current_stop_sign_id = negsuc 0;
    prev_stop_sign_id = negsuc 0;
    current_traffic_light_id = negsuc 0;
    prev_traffic_light_id = negsuc 0;
    traffic_is_red = false;
    i_prev_safe_trajectory = negsuc 0;
    i_curr_safe_trajectory = negsuc 0;
    i_central_trajectory = negsuc 0;
    fully_block = false;
    new_global_path = false;
    re_plan = false;
    current_velocity = d.milli (pos 0);
    min_stopping_distance = d.milli (pos 1000);
    outside_control = pos 0;
    stopping_distances = [];
  }

  -- the loop of distanceToStop
  unfoldable pub smallest : W → List W → W
  smallest m [] = m
  smallest m (x ∷ xs) = smallest (if d.lt x m then x else m) xs

  unfoldable pub distance_to_stop : PreCalculatedConditions W → W
  unfolding smallest
  distance_to_stop c = elim c.stopping_distances [
    | [] ↦ d.milli (pos 0)
    | x ∷ xs ↦ smallest x (x ∷ xs)
  ]

-- The classes that derive from BehaviorStateMachine.
pub data StateClass : Type 0 where
  forward forward_ii mission_accomplished mission_accomplished_ii follow follow_ii swerve swerve_ii
        stop traffic_light_stop traffic_light_stop_ii traffic_light_wait traffic_light_wait_ii
        stop_sign_stop stop_sign_stop_ii stop_sign_wait stop_sign_wait_ii wait init init_ii goal
        goal_ii :
      StateClass

-- m_Behavior, as the constructor of each class sets it
abbrev pub behavior : StateClass → StateType
behavior forward = forward_state
behavior forward_ii = forward_state
behavior mission_accomplished = finish_state
behavior mission_accomplished_ii = finish_state
behavior follow = follow_state
behavior follow_ii = follow_state
behavior swerve = obstacle_avoidance_state
behavior swerve_ii = obstacle_avoidance_state
behavior stop = stopping_state
behavior traffic_light_stop = traffic_light_stop_state
behavior traffic_light_stop_ii = traffic_light_stop_state
behavior traffic_light_wait = traffic_light_wait_state
behavior traffic_light_wait_ii = traffic_light_wait_state
behavior stop_sign_stop = stop_sign_stop_state
behavior stop_sign_stop_ii = stop_sign_stop_state
behavior stop_sign_wait = stop_sign_wait_state
behavior stop_sign_wait_ii = stop_sign_wait_state
behavior wait = waiting_state
behavior init = initial_state
behavior init_ii = initial_state
behavior goal = goal_state
behavior goal_ii = goal_state
