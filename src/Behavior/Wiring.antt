-- ===== src/Behavior/Wiring.antt =====
-- op_planner/src/DecisionMaker.cpp: the wiring of the states, the step to the next one, and the
-- flags of the local plan. What the decision maker computes from paths and maps is not modelled.
use autoware_ai_common.Base.{List, [], none, some, update, ℕ, ◌∷◌}
use autoware_ai_common.Base.Int.{pos}
use autoware_ai_common.Base.Double.{Double}
use autoware_ai_common.Behavior.Types.{
  PlanningParams, default_conditions, follow_ii, forward_ii, goal_ii, init_ii,
  mission_accomplished_ii, stop, stop_sign_stop_ii, stop_sign_wait_ii, swerve_ii,
  traffic_light_stop_ii, traffic_light_wait_ii,
}
use autoware_ai_common.Behavior.Heap.{BehaviorState, insert_next_state, new_state}
use autoware_ai_common.Behavior.{Machine, get_next_state}

-- The places of the objects that InitBehaviorStates creates, in the order of creation.
abbrev pub stop_at : ℕ
stop_at = 0

abbrev pub mission_complete_at : ℕ
mission_complete_at = 1

abbrev pub goal_at : ℕ
goal_at = 2

abbrev pub go_to_goal_at : ℕ
go_to_goal_at = 3

abbrev pub init_at : ℕ
init_at = 4

abbrev pub follow_at : ℕ
follow_at = 5

abbrev pub avoid_obstacle_at : ℕ
avoid_obstacle_at = 6

abbrev pub stop_sign_wait_at : ℕ
stop_sign_wait_at = 7

abbrev pub stop_sign_stop_at : ℕ
stop_sign_stop_at = 8

abbrev pub traffic_light_wait_at : ℕ
traffic_light_wait_at = 9

abbrev pub traffic_light_stop_at : ℕ
traffic_light_stop_at = 10

-- The objects as their constructors leave them.
unfoldable pub created : ℕ → List BehaviorState
unfolding new_state
created now =
    new_state stop stop_at none now
    ∷ new_state mission_accomplished_ii mission_complete_at none now
    ∷ new_state goal_ii goal_at (some mission_complete_at) now
    ∷ new_state forward_ii go_to_goal_at (some goal_at) now
    ∷ new_state init_ii init_at (some go_to_goal_at) now
    ∷ new_state follow_ii follow_at (some go_to_goal_at) now
    ∷ new_state swerve_ii avoid_obstacle_at (some go_to_goal_at) now
    ∷ new_state stop_sign_wait_ii stop_sign_wait_at (some go_to_goal_at) now
    ∷ new_state stop_sign_stop_ii stop_sign_stop_at (some stop_sign_wait_at) now
    ∷ new_state traffic_light_wait_ii traffic_light_wait_at (some go_to_goal_at) now
    ∷ new_state traffic_light_stop_ii traffic_light_stop_at (some go_to_goal_at) now
    ∷ []

-- p->InsertNextState(q)
abbrev insert : ℕ → ℕ → List BehaviorState → List BehaviorState
insert p q objects = update p (insert_next_state q) objects

abbrev no_count : ℕ → List BehaviorState → List BehaviorState
no_count p objects = update p (λ s. record s { decision_making_count = pos 0 }) objects

abbrev decide_after : ℕ → ℕ → List BehaviorState → List BehaviorState
decide_after p time objects = update p (λ s. record s { decision_making_time = time }) objects

-- InitBehaviorStates, with the value of `stopSignStopTime`
unfoldable pub init_behavior_states : ℕ → ℕ → List BehaviorState
unfolding created
init_behavior_states stop_sign_stop_time now =
    let a = insert go_to_goal_at avoid_obstacle_at (created now) in
    let b = insert go_to_goal_at stop_sign_stop_at a in
    let c = insert go_to_goal_at traffic_light_stop_at b in
    let e = no_count go_to_goal_at (insert go_to_goal_at follow_at c) in
    let f = insert goal_at go_to_goal_at e in
    let g = decide_after stop_sign_wait_at stop_sign_stop_time f in
    let h = insert stop_sign_wait_at goal_at (insert stop_sign_wait_at stop_sign_stop_at g) in
    let i = insert traffic_light_stop_at traffic_light_wait_at h in
    let j =
      insert traffic_light_wait_at goal_at (insert traffic_light_wait_at traffic_light_stop_at i) in
    let k = insert follow_at stop_sign_stop_at (insert follow_at avoid_obstacle_at j) in
    let l =
      no_count follow_at (insert follow_at goal_at (insert follow_at traffic_light_stop_at k)) in
    no_count init_at l

pub record DecisionMaker (W : Type 0) : Type 0 where
  pub machine : Machine W
  -- m_pCurrentBehaviorState
  pub current : ℕ

module _ {W : Type 0} ⦃d : Double W⦄ where
  unfoldable pub start : PlanningParams W → ℕ → DecisionMaker W
  start p now = record {
    machine = record {
      objects = init_behavior_states p.stop_sign_stop_time now;
      params = p;
      conditions = default_conditions;
    };
    current = init_at;
  }

  -- The head of GenerateBehaviorState: a nullptr sends the machine back to its initial state.
  unfoldable pub advance : ℕ → DecisionMaker W → DecisionMaker W
  advance now k =
      let (m, next) = get_next_state k.current now k.machine in
      record { machine = m; current = elim next [ none ↦ init_at | some p ↦ p ] }
