-- ===== src/Behavior/Reachable.antt =====
-- The graph of op_planner/src/DecisionMaker.cpp, as InitBehaviorStates makes it, under GetNextState of
-- op_planner/src/BehaviorStateMachine.cpp.
use autoware_ai_common.Base.{
  Bool, List, Option, [], ap, arith, false, get_elem?, if◌then◌else◌, none, refl, some, subst, sym,
  true, ℕ, ◌&&◌, ◌↔◌, ◌∙◌, ◌∷◌, ◌≡◌,
}
use autoware_ai_common.Base.Double.{Double}
use autoware_ai_common.Behavior.Types.{
  PlanningParams, PreCalculatedConditions, StateClass, StateType, finish_state, follow_ii,
  follow_state, forward_ii, forward_state, goal_ii, goal_state, init_ii, mission_accomplished_ii,
  obstacle_avoidance_state, same_state, stop, stop_sign_stop_ii, stop_sign_stop_state,
  stop_sign_wait_ii, stop_sign_wait_state, swerve_ii, traffic_light_stop_ii,
  traffic_light_stop_state, traffic_light_wait_ii, traffic_light_wait_state,
}
use autoware_ai_common.Behavior.Classes.{
  Verdict, decide, follow_ii_next, forward_ii_next, goal_changed, goal_ii_next, init_ii_next, seek,
  stay, stop_sign_stop_ii_next, stop_sign_wait_ii_next, swerve_ii_next, traffic_light_stop_ii_next,
  traffic_light_wait_ii_next,
}
use autoware_ai_common.Behavior.Shapes.{
  Follows, Shape, follow_verdict-Follows, outcome, settled, shape, shape_of, shape_of-get_elem?,
  shapes,
}
use autoware_ai_common.Behavior.Wiring.{
  DecisionMaker, advance, avoid_obstacle_at, follow_at, go_to_goal_at, goal_at, init_at,
  init_behavior_states, mission_complete_at, stop_at, stop_sign_stop_at, stop_sign_wait_at,
  traffic_light_stop_at, traffic_light_wait_at,
}
use autoware_ai_common.Behavior.{Machine, get_next_state, is_early, next_of}
use autoware_ai_common.Behavior.Heap.{BehaviorState}

-- What InitBehaviorStates makes, with the time that a stop at a stop sign takes.
abbrev pub wiring : ℕ → List Shape
wiring t =
    (stop, stop_at ∷ [], 0)
    ∷ (mission_accomplished_ii, mission_complete_at ∷ [], 0)
    ∷ (goal_ii, mission_complete_at ∷ goal_at ∷ go_to_goal_at ∷ [], 0)
    ∷ (
      forward_ii,
      goal_at ∷ go_to_goal_at ∷ avoid_obstacle_at ∷ stop_sign_stop_at ∷ traffic_light_stop_at
          ∷ follow_at ∷ [],
      0,
    )
    ∷ (init_ii, go_to_goal_at ∷ init_at ∷ [], 0)
    ∷ (
      follow_ii,
      go_to_goal_at ∷ follow_at ∷ avoid_obstacle_at ∷ stop_sign_stop_at ∷ traffic_light_stop_at
          ∷ goal_at ∷ [],
      0,
    )
    ∷ (swerve_ii, go_to_goal_at ∷ avoid_obstacle_at ∷ [], 0)
    ∷ (stop_sign_wait_ii, go_to_goal_at ∷ stop_sign_wait_at ∷ stop_sign_stop_at ∷ goal_at ∷ [], t)
    ∷ (stop_sign_stop_ii, stop_sign_wait_at ∷ stop_sign_stop_at ∷ [], 0)
    ∷ (
      traffic_light_wait_ii,
      go_to_goal_at ∷ traffic_light_wait_at ∷ traffic_light_stop_at ∷ goal_at ∷ [],
      0,
    )
    ∷ (traffic_light_stop_ii, go_to_goal_at ∷ traffic_light_stop_at ∷ traffic_light_wait_at ∷ [], 0)
    ∷ []

pub shapes-init_behavior_states : (t now : ℕ) → shapes (init_behavior_states t now) ≡ wiring t
unfolding init_behavior_states
shapes-init_behavior_states t now = refl

-- The places that the current state can be at: all but that of the StopState.
pub data Place : Type 0 where
  at_mission_complete at_goal at_go_to_goal at_init at_follow at_avoid_obstacle at_stop_sign_wait
        at_stop_sign_stop at_traffic_light_wait at_traffic_light_stop :
      Place

abbrev pub place : Place → ℕ
place at_mission_complete = mission_complete_at
place at_goal = goal_at
place at_go_to_goal = go_to_goal_at
place at_init = init_at
place at_follow = follow_at
place at_avoid_obstacle = avoid_obstacle_at
place at_stop_sign_wait = stop_sign_wait_at
place at_stop_sign_stop = stop_sign_stop_at
place at_traffic_light_wait = traffic_light_wait_at
place at_traffic_light_stop = traffic_light_stop_at

abbrev pub class_at : Place → StateClass
class_at at_mission_complete = mission_accomplished_ii
class_at at_goal = goal_ii
class_at at_go_to_goal = forward_ii
class_at at_init = init_ii
class_at at_follow = follow_ii
class_at at_avoid_obstacle = swerve_ii
class_at at_stop_sign_wait = stop_sign_wait_ii
class_at at_stop_sign_stop = stop_sign_stop_ii
class_at at_traffic_light_wait = traffic_light_wait_ii
class_at at_traffic_light_stop = traffic_light_stop_ii

-- The machine is wired as at the start, and its current state is one of those places.
pub record IsWired {W : Type 0} (k : DecisionMaker W) (at : Place) : Type 0 where
  pub wired : shapes k.machine.objects ≡ wiring k.machine.params.stop_sign_stop_time
  pub here : k.current ≡ place at

abbrev pub nexts_at : ℕ → Place → List ℕ
nexts_at t at = elim (get_elem? (wiring t) (place at)) [ none ↦ [] | some x ↦ x.1 ]

abbrev time_at : ℕ → Place → ℕ
time_at t at = elim (get_elem? (wiring t) (place at)) [ none ↦ 0 | some x ↦ x.2 ]

wiring-place :
    (t : ℕ) (at : Place)
    → get_elem? (wiring t) (place at) ≡ some (class_at at, nexts_at t at, time_at t at)
wiring-place t at_mission_complete = refl
wiring-place t _ = refl

abbrev pub early_object : Option BehaviorState → ℕ → Bool
early_object none now = false
early_object (some s) now = is_early s now

pub shape_eq : (s : BehaviorState) (x : Shape) → shape_of (some s) ≡ some x → shape s ≡ x
shape_eq s x e = ground arith

module _ {W : Type 0} where
  -- Where a verdict leads in the wiring.
  abbrev pub leads : ℕ → Place → Verdict W → Option ℕ
  leads t at v = outcome (wiring t) (place at) (nexts_at t at) v

  -- The timer's test at the current state.
  abbrev pub early_at : Machine W → Place → ℕ → Bool
  early_at m at now = early_object (get_elem? m.objects (place at)) now

module _ {W : Type 0} ⦃d : Double W⦄ where
  abbrev pub verdict : Machine W → Place → ℕ → Verdict W
  verdict m at now = decide (class_at at) (early_at m at now) m.params m.conditions

  object-Follows :
      (m : Machine W) (this now : ℕ) (o : Option BehaviorState) (x : Shape)
      → shape_of o ≡ some x
      → Follows this x.1
          (decide x.0 (early_object o now) m.params m.conditions)
          m
          (next_of this o now m)
  unfolding next_of
  object-Follows m this now none x e = absurd (cc e)
  object-Follows m this now (some s) x e =
      subst
        (λ (y : Shape).
          Follows this y.1 (decide y.0 (is_early s now) m.params m.conditions) m
            (next_of this (some s) now m))
        (shape_eq s x e) (follow_verdict-Follows this _ _ now m)

  next_of-Follows :
      (m : Machine W) (at : Place) (now t : ℕ)
      → shapes m.objects ≡ wiring t
      → Follows (place at) (nexts_at t at) (verdict m at now) m (get_next_state (place at) now m)
  unfolding get_next_state
  next_of-Follows m at now t w =
      object-Follows m (place at) now (get_elem? m.objects (place at))
        (class_at at, nexts_at t at, time_at t at)
        (shape_of-get_elem? m.objects (place at)
          ∙ ap (λ sh. get_elem? sh (place at)) w
          ∙ wiring-place t at)

  pub get_next_state-Follows :
      (k : DecisionMaker W) (at : Place) (now : ℕ)
      → IsWired k at
      → Follows
          (place at)
          (nexts_at k.machine.params.stop_sign_stop_time at)
          (verdict k.machine at now)
          k.machine
          (get_next_state k.current now k.machine)
  get_next_state-Follows k at now w =
      subst
        (λ i.
          Follows (place at) (nexts_at k.machine.params.stop_sign_stop_time at)
            (verdict k.machine at now) k.machine (get_next_state i now k.machine))
        (sym w.here) (next_of-Follows k.machine at now _ w.wired)

  pub get_next_state-leads :
      (k : DecisionMaker W) (at : Place) (now : ℕ)
      → IsWired k at
      → (get_next_state k.current now k.machine).1
        ≡ leads k.machine.params.stop_sign_stop_time at (verdict k.machine at now)
  get_next_state-leads k at now w = rw (← w.wired) (get_next_state-Follows k at now w).next

  leads-none :
      (t : ℕ) (at : Place) (early : Bool) (p : PlanningParams W) (c : PreCalculatedConditions W)
      → (leads t at (decide (class_at at) early p c) ≡ none)
        ↔ ((at ≡ at_stop_sign_stop) × (goal_changed c ≡ true))
  unfolding decide forward_ii_next follow_ii_next stop_sign_stop_ii_next stop_sign_wait_ii_next
      goal_ii_next init_ii_next swerve_ii_next traffic_light_stop_ii_next traffic_light_wait_ii_next
  leads-none t at_mission_complete early p c = (ground arith, ground arith)
  leads-none t _ early p c = (ground arith, ground arith)

  -- In the machine that InitBehaviorStates wires, GetNextState returns nullptr exactly in the state
  -- of stopping at a stop sign with a goal other than the previous one.
  pub get_next_state-none :
      (k : DecisionMaker W) (at : Place) (now : ℕ)
      → IsWired k at
      → ((get_next_state k.current now k.machine).1 ≡ none)
        ↔ ((at ≡ at_stop_sign_stop) × (goal_changed k.machine.conditions ≡ true))
  get_next_state-none k at now w =
      let iff =
        leads-none k.machine.params.stop_sign_stop_time at (early_at k.machine at now) _ _ in
      rw (get_next_state-leads k at now w) iff

-- The place of a state, and the place that the decision maker goes to on a verdict.
abbrev pub place_for : StateType → Place
place_for goal_state = at_goal
place_for forward_state = at_go_to_goal
place_for follow_state = at_follow
place_for obstacle_avoidance_state = at_avoid_obstacle
place_for stop_sign_wait_state = at_stop_sign_wait
place_for stop_sign_stop_state = at_stop_sign_stop
place_for traffic_light_wait_state = at_traffic_light_wait
place_for traffic_light_stop_state = at_traffic_light_stop
place_for finish_state = at_mission_complete
place_for _ = at_init

abbrev is_stop_sign_stop : Place → Bool
is_stop_sign_stop at_stop_sign_stop = true
is_stop_sign_stop _ = false

module _ {W : Type 0} where
  abbrev pub arrival : Place → Verdict W → Place
  arrival at stay = at
  arrival at (seek b c) =
      if is_stop_sign_stop at && same_state b goal_state then at_init else place_for b

module _ {W : Type 0} ⦃d : Double W⦄ where
  leads-arrival :
      (t : ℕ) (at : Place) (early : Bool) (p : PlanningParams W) (c : PreCalculatedConditions W)
      → elim (leads t at (decide (class_at at) early p c)) as (λ o. ℕ) [
        | none ↦ init_at
        | some q ↦ q
      ]
        ≡ place (arrival at (decide (class_at at) early p c))
  unfolding decide forward_ii_next follow_ii_next stop_sign_stop_ii_next stop_sign_wait_ii_next
      goal_ii_next init_ii_next swerve_ii_next traffic_light_stop_ii_next traffic_light_wait_ii_next
  leads-arrival t at_mission_complete early p c = ground arith
  leads-arrival t _ early p c = ground arith

  -- A step keeps the wiring; the verdict says where it goes and what becomes of the conditions.
  pub advance-IsWired :
      (k : DecisionMaker W) (at : Place) (now : ℕ)
      → IsWired k at
      → IsWired (advance now k) (arrival at (verdict k.machine at now))
  unfolding advance
  advance-IsWired k at now w =
      let f = get_next_state-Follows k at now w in
      record {
        wired = f.same_shapes ∙ w.wired ∙ ap (λ q. wiring q.stop_sign_stop_time) (sym f.params);
        here =
            ap (λ (o : Option ℕ). elim o as (λ o. ℕ) [ none ↦ init_at | some q ↦ q ])
              (get_next_state-leads k at now w)
            ∙ leads-arrival _ at (early_at k.machine at now) _ _;
      }

  pub conditions-advance :
      (k : DecisionMaker W) (at : Place) (now : ℕ)
      → IsWired k at
      → (advance now k).machine.conditions ≡ settled k.machine.conditions (verdict k.machine at now)
  unfolding advance
  conditions-advance k at now w = (get_next_state-Follows k at now w).conditions
