-- ===== src/Behavior/Heap.antt =====
-- The objects of op_planner/src/BehaviorStateMachine.cpp, in a list: a pointer is a place in it.
use autoware_ai_common.Base.{
  Bool, List, Option, [], false, get_elem?, if◌then◌else◌, none, some, update, ℕ, ◌++◌, ◌∷◌,
}
use autoware_ai_common.Base.Int.{leb_ℤ, negsuc, pos, ℤ, ◌-ℤ◌}
use autoware_ai_common.Behavior.Types.{StateClass, StateType, behavior, same_state}

pub record BehaviorState : Type 0 where
  pub kind : StateClass
  pub next_states : List ℕ
  pub decision_making_time : ℕ
  pub decision_making_count : ℤ
  pub state_timer : ℕ
  pub behaviors_log : List (ℕ × ℤ)

-- The constructor of BehaviorStateMachine, for an object that will stand at `this`.
unfoldable pub new_state : StateClass → ℕ → Option ℕ → ℕ → BehaviorState
new_state kind this next now = record {
  kind = kind;
  next_states = elim next [ none ↦ this ∷ [] | some p ↦ p ∷ this ∷ [] ];
  decision_making_time = 0;
  decision_making_count = pos 1;
  state_timer = now;
  behaviors_log = [];
}

abbrev pub insert_next_state : ℕ → BehaviorState → BehaviorState
insert_next_state p s = record s { next_states = s.next_states ++ p ∷ [] }

-- The m_Behavior of the object at a place.
unfoldable pub behavior_at : List BehaviorState → ℕ → Option StateType
behavior_at objects p = elim (get_elem? objects p) [ none ↦ none | some s ↦ some (behavior s.kind) ]

abbrev pub is_state : Option StateType → StateType → Bool
is_state none b = false
is_state (some a) b = same_state b a

-- The loop of FindBehaviorState: the first next state with that behaviour.
unfoldable pub find_target : List BehaviorState → List ℕ → StateType → Option ℕ
find_target objects [] b = none
find_target objects (p ∷ ps) b =
    if is_state (behavior_at objects p) b then some p else find_target objects ps b

unfoldable pub reset_timer : ℕ → ℕ → List BehaviorState → List BehaviorState
reset_timer p now objects = update p (λ s. record s { state_timer = now }) objects

unfoldable pub clear_log : ℕ → List BehaviorState → List BehaviorState
clear_log p objects = update p (λ s. record s { behaviors_log = [] }) objects

abbrev same_behavior : Option StateType → Option StateType → Bool
same_behavior a none = false
same_behavior a (some b) = is_state a b

-- UpdateLogCount, on the log of an object
unfoldable pub update_log_count : List BehaviorState → ℕ → List (ℕ × ℤ) → List (ℕ × ℤ)
update_log_count objects p [] = (p, pos 1) ∷ []
update_log_count objects p ((q, n) ∷ log) =
    if same_behavior (behavior_at objects q) (behavior_at objects p)
    then (q, n -ℤ negsuc 0) ∷ log
    else (q, n) ∷ update_log_count objects p log

-- FindBestState
unfoldable pub find_best_state : ℤ → List (ℕ × ℤ) → Option ℕ
find_best_state min_count [] = none
find_best_state min_count ((p, n) ∷ log) =
    if leb_ℤ min_count n then some p else find_best_state min_count log
