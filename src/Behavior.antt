-- ===== src/Behavior.antt =====
-- op_planner: the behaviour state machine (src/BehaviorStateMachine.cpp) and its wiring by the
-- decision maker (src/DecisionMaker.cpp). The objects are in a list, and a pointer is a place in it.
-- All of them share the planning parameters and the calculated conditions, as InitBehaviorStates
-- makes them do. A time is a number of nanoseconds, an argument of what reads the clock.
pub mod Types
pub mod Classes
pub mod Heap
pub mod Wiring
pub mod Shapes
pub mod Reachable
pub mod Drive
pub mod Safety
pub mod Waiting
pub mod StopSigns
pub mod Goal
mod Tests
use autoware_ai_common.Base.{Bool, List, Option, get_elem?, ltb, none, some, ℕ, ◌-◌}
use autoware_ai_common.Base.Double.{Double}
use Types.{PlanningParams, PreCalculatedConditions, StateType}
use Classes.{Verdict, decide, seek, stay}
use Heap.{BehaviorState, clear_log, find_target, reset_timer}

pub record Machine (W : Type 0) : Type 0 where
  pub objects : List BehaviorState
  pub params : PlanningParams W
  pub conditions : PreCalculatedConditions W

module _ {W : Type 0} where
  -- FindBehaviorState, called on the object at `this`
  unfoldable pub find_behavior_state : ℕ → List ℕ → StateType → ℕ → Machine W → Machine W × Option ℕ
  find_behavior_state this nexts b now m = elim (find_target m.objects nexts b) [
    | none ↦ (m, none)
    | some p ↦ (record m { objects = reset_timer p now (clear_log this m.objects) }, some p)
  ]

  unfoldable pub follow_verdict : ℕ → List ℕ → Verdict W → ℕ → Machine W → Machine W × Option ℕ
  follow_verdict this nexts stay now m = (m, some this)
  follow_verdict this nexts (seek b c) now m =
      find_behavior_state this nexts b now (record m { conditions = c })

-- Whether the decision time of an object has still to run.
abbrev pub is_early : BehaviorState → ℕ → Bool
is_early s now = ltb (now - s.state_timer) s.decision_making_time

module _ {W : Type 0} ⦃d : Double W⦄ where
  unfoldable pub next_of : ℕ → Option BehaviorState → ℕ → Machine W → Machine W × Option ℕ
  next_of this none now m = (m, none)
  next_of this (some s) now m =
      follow_verdict this s.next_states (decide s.kind (is_early s now) m.params m.conditions) now m

  -- GetNextState on the object at `this`: the pointer that it returns, none for nullptr
  unfoldable pub get_next_state : ℕ → ℕ → Machine W → Machine W × Option ℕ
  get_next_state this now m = next_of this (get_elem? m.objects this) now m
