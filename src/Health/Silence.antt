-- ===== src/Health/Silence.antt =====
-- What autoware_health_checker/src/health_aggregator/health_aggregator.cpp tells the emergency handler of
-- a node that has stopped to report.
use autoware_ai_common.Base.{
  Bool, List, Option, String, [], and_then, ap, arith, false, find_if, if◌then◌else◌, null, refl,
  some, subst, sym, true, ℕ, ◌+◌, ◌<◌, ◌∙◌, ◌∷◌, ◌≡◌, ◌≢◌,
}
use autoware_ai_common.Base.Text.{eq_iff, str_eq, string_key}
use autoware_ai_common.Base.Map.{Map, assign, lookup, lookup-assign}
use autoware_ai_common.Messages.{DiagLevels, DiagTypes, NodeStatus}
use autoware_ai_common.Emergency.Factors.{FactorStatusArray}
use autoware_ai_common.Emergency.Filter.{check_all_node_simply}
use autoware_ai_common.Emergency.Verdicts.{
  bad_in, bad_in_node, bad_in_nodes, check_all_node_simply-finds, gather, null-append,
}
use autoware_ai_common.Emergency.Priority.{null-if, null-node}
use autoware_ai_common.Health.StatusMonitor.{
  TimeoutManager, get_monitor_status, is_over_limit, timer_status, timer_statuses, update_stamp,
}
use autoware_ai_common.Health.Aggregator.{
  Event, HealthAggregator, candidates_announced, connections, diagnostic_array_callback,
  diagnostics, has_name, history, node_message, node_status_callback, node_timeout, params_read,
  publish, publish_system_status, put_hardware, put_node, stamp_name, step,
  update_connection_status,
}
use autoware_ai_common.Health.Names.{change_to_key_format}
use autoware_ai_common.Health.Values.{reload_params, set_params}
use autoware_ai_common.Health.Hardware.{HardwareTexts, RosLevels}

null-put_node :
    (level_th : ℕ) (n : NodeStatus) (ns : List NodeStatus)
    → null (bad_in_node level_th n) ≡ false
    → null (bad_in_nodes level_th (put_node n ns)) ≡ false
unfolding put_node
null-put_node level_th n [] h = null-node level_th n [] ∙ ground (arith, h)
null-put_node level_th n (x ∷ xs) h =
    null-if level_th (has_name n.node_name x) (n ∷ xs) (x ∷ put_node n xs)
    ∙ ground (
      arith,
      h,
      null-node level_th n xs,
      null-node level_th x (put_node n xs),
      null-put_node level_th n xs h,
    )

module _ (lv : DiagLevels) (ty : DiagTypes) (print : ℕ → String) where
  timer-bad :
      (current : ℕ) (k : String) (t : TimeoutManager) (m : Map String TimeoutManager)
      → lookup k m ≡ some t
      → is_over_limit current t ≡ true
      → null (gather (bad_in lv.error) (timer_statuses lv ty print current m)) ≡ false
  unfolding lookup timer_statuses gather
  timer-bad current k t [] e h = absurd (cc e)
  timer-bad current k t ((j, u) ∷ m) e h =
      null-append (bad_in lv.error (timer_status lv ty print current j u ∷ []))
        (gather (bad_in lv.error) (timer_statuses lv ty print current m))
      ∙ ground (arith, e, h, timer-bad current k t m)

lookup-if :
    (b : Bool) (k : String) (x y : Map String TimeoutManager)
    → lookup k (if b then x else y) ≡ (if b then lookup k x else lookup k y)
lookup-if true k x y = refl
lookup-if false k x y = refl

lookup-update_stamp :
    (k name : String) (time_out now : ℕ) (m : Map String TimeoutManager)
    → lookup k (update_stamp name time_out now m) ≡ (
        if str_eq name ""
        then lookup k m
        else if str_eq name k
        then some (record { timer_start_time = now; time_out = time_out })
        else lookup k m)
unfolding update_stamp
lookup-update_stamp k name time_out now m =
    let t : TimeoutManager = record { timer_start_time = now; time_out = time_out } in
    lookup-if (str_eq name "") k m (assign name t m)
    ∙ ap (λ x. if str_eq name "" then lookup k m else x) (lookup-assign name k t m)

-- The node statuses that a publication sends.
abbrev pub published : HealthAggregator → List NodeStatus
published a = a.system_status.node_status

-- A name that gives a key, which is another one.
abbrev pub IsOther : String → String → Type 0
IsOther k name = (j : String) × (change_to_key_format name ≡ some j) × (j ≢ k)

-- No event of a sequence comes from a node with a key, or from one without a name; `hw` is the name for
-- the hardware.
abbrev pub Silent : String → String → List (ℕ × Event) → Type 0
Silent hw k [] = Unit
Silent hw k ((now, node_message msg) ∷ es) = IsOther k msg.node_name × Silent hw k es
Silent hw k ((now, diagnostics msg) ∷ es) = IsOther k hw × Silent hw k es
Silent hw k ((now, connections nodes) ∷ es) = Silent hw k es
Silent hw k ((now, params_read params) ∷ es) = Silent hw k es
Silent hw k ((now, candidates_announced) ∷ es) = Silent hw k es
Silent hw k ((now, publish) ∷ es) = Silent hw k es

-- A stamp for another name leaves the entry of a key alone.
stamp_name-IsOther :
    (now time_out : ℕ) (k name : String) (a : HealthAggregator)
    → IsOther k name
    → (b : HealthAggregator) × (stamp_name now name time_out a ≡ some b)
      × (lookup k b.status_monitor ≡ lookup k a.status_monitor)
      × (b.hardware_diag_node ≡ a.hardware_diag_node)
unfolding stamp_name
stamp_name-IsOther now time_out k name a (j, e, n) = (
  record a { status_monitor = update_stamp j time_out now a.status_monitor },
  rw e refl,
  lookup-update_stamp k j time_out now a.status_monitor ∙ ground (arith, n, eq_iff j k),
  refl,
)

module _ (x : HardwareTexts) (ros : RosLevels) (lv : DiagLevels) (ty : DiagTypes)
    (print : ℕ → String) (my_name : String) where
  -- The entry of a key outlives a sequence of events of others, which throws nothing.
  abbrev Outlives : String → HealthAggregator → Option HealthAggregator → Type 0
  Outlives k a o =
      (c : HealthAggregator) × (o ≡ some c)
      × (lookup k c.status_monitor ≡ lookup k a.status_monitor)

  history-Silent :
      (k hw : String) (es : List (ℕ × Event)) (a : HealthAggregator)
      → a.hardware_diag_node ≡ hw
      → Silent hw k es
      → Outlives k a (history x ros lv ty print my_name es a)
  unfolding history step node_status_callback diagnostic_array_callback put_hardware
      update_connection_status publish_system_status
  history-Silent k hw [] a w s = (a, refl, refl)
  history-Silent k hw ((now, node_message msg) ∷ es) a w (o, s) =
      let a1 : HealthAggregator = record a {
        system_status = record a.system_status {
          node_status = put_node msg a.system_status.node_status;
        };
      } in
      let (b, e, l, v) = stamp_name-IsOther now node_timeout k msg.node_name a1 o in
      let (c, f, m) = history-Silent k hw es b (v ∙ w) s in (c, rw e f, m ∙ l)
  history-Silent k hw ((now, diagnostics msg) ∷ es) a w (o, s) =
      let a1 = put_hardware x ros lv ty msg a in
      let (b, e, l, v) =
        stamp_name-IsOther now a.hardware_timeout k a.hardware_diag_node a1
          (subst (IsOther k) (sym w) o) in
      let (c, f, m) = history-Silent k hw es b (v ∙ w) s in (c, rw e f, m ∙ l)
  history-Silent k hw ((now, connections nodes) ∷ es) a w s =
      history-Silent k hw es (update_connection_status nodes a) w s
  history-Silent k hw ((now, params_read params) ∷ es) a w s =
      history-Silent k hw es (record a { param_manager = reload_params params a.param_manager }) w s
  history-Silent k hw ((now, candidates_announced) ∷ es) a w s =
      history-Silent k hw es (record a { param_manager = (set_params a.param_manager).1 }) w s
  history-Silent k hw ((now, publish) ∷ es) a w s =
      history-Silent k hw es (publish_system_status lv ty print my_name now a) w s

  -- A publication fails the handler's check when the time of a key is over.
  published-late :
      (k : String) (t : TimeoutManager) (later : ℕ) (c : HealthAggregator) (f : FactorStatusArray)
      → lookup k c.status_monitor ≡ some t
      → is_over_limit later t ≡ true
      → (check_all_node_simply lv.error
          (published (publish_system_status lv ty print my_name later c))
          f).0
        ≡ false
  unfolding publish_system_status get_monitor_status
  published-late k t later c f found h =
      let n = get_monitor_status lv ty print my_name later c.status_monitor in
      ap (λ r. r.0)
        (check_all_node_simply-finds lv.error (put_node n c.system_status.node_status) f)
      ∙ null-put_node lv.error n c.system_status.node_status
          (timer-bad lv ty print later k t c.status_monitor found h)

  -- A node that has reported, with a key that is not empty, and that then reports nothing while other
  -- nodes and the hardware do, all with names that are not empty, throws nothing and makes every
  -- system status published more than 0.2 s after its report fail the emergency handler's check of the
  -- nodes.
  pub check_all_node_simply-Silent :
      (now later : ℕ) (msg : NodeStatus) (k : String) (es : List (ℕ × Event)) (a : HealthAggregator)
      (f : FactorStatusArray)
      → change_to_key_format msg.node_name ≡ some k
      → k ≢ ""
      → Silent a.hardware_diag_node k es
      → now + node_timeout < later
      → (c : HealthAggregator) × (and_then
            (node_status_callback now msg a)
            (history x ros lv ty print my_name es)
          ≡ some c)
        × ((check_all_node_simply lv.error
              (published (publish_system_status lv ty print my_name later c))
              f).0
            ≡ false)
  unfolding node_status_callback stamp_name
  check_all_node_simply-Silent now later msg k es a f named n s h =
      let t : TimeoutManager = record { timer_start_time = now; time_out = node_timeout } in
      let b : HealthAggregator = record a {
        system_status = record a.system_status {
          node_status = put_node msg a.system_status.node_status;
        };
        status_monitor = update_stamp k node_timeout now a.status_monitor;
      } in
      let (c, e, kept) = history-Silent k a.hardware_diag_node es b refl s in
      let found : lookup k c.status_monitor ≡ some t =
        kept
        ∙ lookup-update_stamp k k node_timeout now a.status_monitor
        ∙ ground (arith, n, eq_iff k "", eq_iff k k) in
      (c, rw named e, published-late k t later c f found (ground (arith, h)))

-- After a message the first status with its name is that message, and with any other name what it was.
pub find-put_node :
    (k : String) (n : NodeStatus) (ns : List NodeStatus)
    → find_if (has_name k) (put_node n ns)
      ≡ (if has_name k n then some n else find_if (has_name k) ns)
unfolding put_node
find-put_node k n [] = refl
find-put_node k n (x ∷ xs) = ground (
  arith,
  find-put_node k n xs,
  eq_iff x.node_name n.node_name,
  eq_iff n.node_name k,
  eq_iff x.node_name k,
)
