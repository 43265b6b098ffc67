-- ===== src/Behavior/Shapes.antt =====
-- FindBehaviorState of op_planner/src/BehaviorStateMachine.cpp through what it never changes of the
-- objects: their classes, their next states and their decision times.
use autoware_ai_common.Base.{
  List, Option, Option-cases, [], ap, arith, get_elem?, if◌then◌else◌, inl, inr, map, none, refl,
  some, suc, update, zero, ℕ, ◌∙◌, ◌∷◌, ◌≡◌,
}
use autoware_ai_common.Behavior.Types.{PreCalculatedConditions, StateClass, StateType, behavior}
use autoware_ai_common.Behavior.Heap.{
  BehaviorState, behavior_at, clear_log, find_target, is_state, reset_timer,
}
use autoware_ai_common.Behavior.Classes.{Verdict, seek, stay}
use autoware_ai_common.Behavior.{Machine, find_behavior_state, follow_verdict}

-- What a step never changes of an object.
abbrev pub Shape : Type 0
Shape = StateClass × List ℕ × ℕ

abbrev pub shape : BehaviorState → Shape
shape s = (s.kind, s.next_states, s.decision_making_time)

abbrev pub shapes : List BehaviorState → List Shape
shapes = map shape

abbrev pub shape_behavior : List Shape → ℕ → Option StateType
shape_behavior sh p = elim (get_elem? sh p) [ none ↦ none | some s ↦ some (behavior s.0) ]

-- FindBehaviorState, on the shapes alone.
abbrev pub target : List Shape → List ℕ → StateType → Option ℕ
target sh [] b = none
target sh (p ∷ ps) b = if is_state (shape_behavior sh p) b then some p else target sh ps b

behavior_at-shapes :
    (objects : List BehaviorState) (p : ℕ)
    → behavior_at objects p ≡ shape_behavior (shapes objects) p
unfolding behavior_at
behavior_at-shapes [] p = refl
behavior_at-shapes (s ∷ objects) zero = refl
behavior_at-shapes (s ∷ objects) (suc p) = behavior_at-shapes objects p

pub find_target-shapes :
    (objects : List BehaviorState) (ps : List ℕ) (b : StateType)
    → find_target objects ps b ≡ target (shapes objects) ps b
unfolding find_target
find_target-shapes objects [] b = refl
find_target-shapes objects (p ∷ ps) b =
    rw (behavior_at-shapes objects p, find_target-shapes objects ps b)

shapes-update :
    (p : ℕ) (f : BehaviorState → BehaviorState) (objects : List BehaviorState)
    → ((s : BehaviorState) → shape (f s) ≡ shape s)
    → shapes (update p f objects) ≡ shapes objects
shapes-update p f [] h = refl
shapes-update zero f (s ∷ objects) h = ap (λ x. x ∷ shapes objects) (h s)
shapes-update (suc p) f (s ∷ objects) h = ap (◌∷◌ (shape s)) (shapes-update p f objects h)

pub shapes-clear_log :
    (this : ℕ) (objects : List BehaviorState) → shapes (clear_log this objects) ≡ shapes objects
unfolding clear_log
shapes-clear_log this objects = shapes-update this _ objects (λ s. refl)

shapes-found :
    (this p now : ℕ) (objects : List BehaviorState)
    → shapes (reset_timer p now (clear_log this objects)) ≡ shapes objects
unfolding reset_timer
shapes-found this p now objects =
    shapes-update p _ (clear_log this objects) (λ s. refl) ∙ shapes-clear_log this objects

abbrev pub shape_of : Option BehaviorState → Option Shape
shape_of none = none
shape_of (some s) = some (shape s)

-- The object at a place has the shape that is there.
pub shape_of-get_elem? :
    (objects : List BehaviorState) (i : ℕ)
    → shape_of (get_elem? objects i) ≡ get_elem? (shapes objects) i
shape_of-get_elem? [] i = refl
shape_of-get_elem? (s ∷ objects) zero = refl
shape_of-get_elem? (s ∷ objects) (suc i) = shape_of-get_elem? objects i

module _ {W : Type 0} where
  abbrev pub outcome : List Shape → ℕ → List ℕ → Verdict W → Option ℕ
  outcome sh this nexts stay = some this
  outcome sh this nexts (seek b c) = target sh nexts b

  abbrev pub settled : PreCalculatedConditions W → Verdict W → PreCalculatedConditions W
  settled c stay = c
  settled c (seek b c') = c'

  find-next :
      (this : ℕ) (nexts : List ℕ) (b : StateType) (now : ℕ) (m : Machine W)
      → (find_behavior_state this nexts b now m).1 ≡ target (shapes m.objects) nexts b
  unfolding find_behavior_state
  find-next this nexts b now m = ground (arith, find_target-shapes m.objects nexts b)

  find-shapes :
      (this : ℕ) (nexts : List ℕ) (b : StateType) (now : ℕ) (m : Machine W)
      → shapes (find_behavior_state this nexts b now m).0.objects ≡ shapes m.objects
  unfolding find_behavior_state
  find-shapes this nexts b now m = elim (Option-cases (find_target m.objects nexts b)) [
    | inl e ↦ rw (e, find_behavior_state)
    | inr (p, e) ↦ rw (e, find_behavior_state) (shapes-found this p now m.objects)
  ]

  find-conditions :
      (this : ℕ) (nexts : List ℕ) (b : StateType) (now : ℕ) (m : Machine W)
      → (find_behavior_state this nexts b now m).0.conditions ≡ m.conditions
  unfolding find_behavior_state
  find-conditions this nexts b now m = ground arith

  find-params :
      (this : ℕ) (nexts : List ℕ) (b : StateType) (now : ℕ) (m : Machine W)
      → (find_behavior_state this nexts b now m).0.params ≡ m.params
  unfolding find_behavior_state
  find-params this nexts b now m = ground arith

  -- The four facts about a step.
  pub record Follows (this : ℕ) (nexts : List ℕ) (v : Verdict W) (m : Machine W)
      (r : Machine W × Option ℕ) : Type 0 where
    pub next : r.1 ≡ outcome (shapes m.objects) this nexts v
    pub same_shapes : shapes r.0.objects ≡ shapes m.objects
    pub conditions : r.0.conditions ≡ settled m.conditions v
    pub params : r.0.params ≡ m.params

  pub follow_verdict-Follows :
      (this : ℕ) (nexts : List ℕ) (v : Verdict W) (now : ℕ) (m : Machine W)
      → Follows this nexts v m (follow_verdict this nexts v now m)
  unfolding follow_verdict
  follow_verdict-Follows this nexts stay now m = record {
    next = refl;
    same_shapes = refl;
    conditions = refl;
    params = refl;
  }
  follow_verdict-Follows this nexts (seek b c) now m = record {
    next = find-next this nexts b now (record m { conditions = c });
    same_shapes = find-shapes this nexts b now (record m { conditions = c });
    conditions = find-conditions this nexts b now (record m { conditions = c });
    params = find-params this nexts b now (record m { conditions = c });
  }
