-- ===== src/Emergency/Priority.antt =====
-- The priority that a system status asks for in emergency_handler/src/emergency_handler.cpp, and what a
-- node that is missing does to it.
use autoware_ai_common.Base.{
  Bool, Bool-cases, List, String, [], and_then, ap, arith, false, if◌then◌else◌, inl, inr, ltb, not,
  null, refl, some, true, ℕ, ◌%◌, ◌&&◌, ◌++◌, ◌∙◌, ◌∷◌, ◌≡◌, ◌≤◌,
}
use autoware_ai_common.Messages.{
  DiagLevels, DiagTypes, DiagnosticStatus, DiagnosticStatusArray, NodeStatus, SystemStatus,
}
use autoware_ai_common.Emergency.Verdicts.{
  add_all, bad_in, bad_in_hardware, bad_in_node, bad_in_nodes, check_all_hardware_simply-finds,
  check_all_node_simply-finds, gather, null-append, null-gather-append,
}
use autoware_ai_common.Emergency.Vital.{
  VitalMonitor, add_dead_from, add_dead_node, add_dead_nodes, create_diagnostic_status_array,
}
use autoware_ai_common.Emergency.DeadNodes.{IsVital, Updated, last_time, update_node_status-Updated}
use autoware_ai_common.Emergency.Handler.{
  Handler, select_dead, select_hardware, system_status_callback, wrap_func,
}
use autoware_ai_common.Base.Text.{str_eq, string_key}
use autoware_ai_common.Base.Map.{Map, lookup}
use autoware_ai_common.Emergency.Factors.{FactorStatusArray}

abbrev pub min_priority : ℕ → ℕ → ℕ
min_priority a b = if ltb a b then a else b

-- The bad statuses of the nodes of a message, with the dead ones of a monitor.
abbrev pub bad_nodes : DiagLevels → DiagTypes → SystemStatus → VitalMonitor → List DiagnosticStatus
bad_nodes lv ty s m = bad_in_nodes lv.error (add_dead_nodes ty m s).node_status

module _ {W : Type 0} (lv : DiagLevels) (ty : DiagTypes) where
  -- What the hardware of a message asks for.
  abbrev pub hardware_priority : SystemStatus → Handler W → ℕ
  hardware_priority s h =
      if not (null (bad_in_hardware lv.error s.hardware_status))
      then h.table.hardware_error
      else h.table.no_error

  abbrev pub node_priority : SystemStatus → VitalMonitor → Handler W → ℕ
  node_priority s m h =
      if not (null (bad_nodes lv ty s m)) then h.table.node_error else h.table.no_error

  -- The handler after a message, by the statuses of a high level that the message has.
  abbrev pub received : ℕ → SystemStatus → VitalMonitor → Handler W → Handler W
  received now s m h = record h {
    monitor = m;
    factors =
        add_all (bad_nodes lv ty s m)
          (add_all (bad_in_hardware lv.error s.hardware_status) h.factors);
    latest_priority = node_priority s m h;
    priority = min_priority (min_priority h.priority (hardware_priority s h)) (node_priority s m h);
    callback_time = now;
    is_system_status_received = true;
  }

  received-eq :
      (now : ℕ) (s : SystemStatus) (m : VitalMonitor) (h : Handler W)
      → wrap_func now (select_dead lv ty s m (wrap_func now (select_hardware lv s h)))
        ≡ received now s m h
  unfolding wrap_func select_dead select_hardware
  received-eq now s m h =
      let nodes = (add_dead_nodes ty m s).node_status in
      let hw = bad_in_hardware lv.error s.hardware_status in
      let after : Bool × FactorStatusArray → Handler W = λ r. wrap_func now (
        (if not r.0 then h.table.hardware_error else h.table.no_error),
        record h { factors = r.1 },
      ) in
      let h' = after (null hw, add_all hw h.factors) in
      ap (λ r. wrap_func now (select_dead lv ty s m (after r)))
        (check_all_hardware_simply-finds lv.error s.hardware_status h.factors)
      ∙ ap
          (λ (r : Bool × FactorStatusArray). wrap_func now (
            (if not r.0 then h.table.node_error else h.table.no_error),
            record h' { monitor = m; factors = r.1 },
          ))
          (check_all_node_simply-finds lv.error nodes (add_all hw h.factors))

  -- A system status is handled without an exception, when its time is not before the last one: the
  -- monitor is updated, the statuses of a high level become factors, and the priority becomes the least
  -- of what it was, of what the hardware asks for and of what the nodes ask for, the dead ones included.
  pub system_status_callback-received :
      (now : ℕ) (s : SystemStatus) (h : Handler W)
      → IsVital h.monitor
      → last_time now h.monitor ≤ now
      → (m : VitalMonitor) × Updated s.available_nodes now h.monitor m
        × (system_status_callback lv ty now s h ≡ some (received now s m h))
  unfolding system_status_callback
  system_status_callback-received now s h v t =
      let (m, u) = update_node_status-Updated s.available_nodes now h.monitor v t in
      (
        m,
        u,
        ap
              (λ o. and_then o (λ r.
                some
                  (wrap_func now (select_dead lv ty s r (wrap_func now (select_hardware lv s h))))))
              u.result
            ∙ ap some (received-eq now s m h),
      )

dead_status-bad :
    (ty : DiagTypes) (level_th level stamp : ℕ) (name : String)
    → level_th ≤ level % 256
    → null (bad_in level_th (create_diagnostic_status_array ty name stamp level)) ≡ false
dead_status-bad ty level_th level stamp name h = ground (arith, h)

gather-one :
    (level_th : ℕ) (xs : DiagnosticStatusArray)
    → gather (bad_in level_th) (xs ∷ []) ≡ bad_in level_th xs ++ []
unfolding gather
gather-one level_th xs = refl

-- The statuses of a node, with one more array.
null-bad_in_node :
    (level_th : ℕ) (n : NodeStatus) (xs : DiagnosticStatusArray)
    → null (bad_in_node level_th (record n { node_activated = true; status = n.status ++ xs ∷ [] }))
      ≡ (null (gather (bad_in level_th) n.status) && null (bad_in level_th xs))
null-bad_in_node level_th n xs =
    null-gather-append (bad_in level_th) n.status (xs ∷ [])
    ∙ ap (λ b. null (gather (bad_in level_th) n.status) && b)
        (ap null (gather-one level_th xs) ∙ null-append (bad_in level_th xs) [] ∙ ground arith)

pub null-if :
    (level_th : ℕ) (b : Bool) (x y : List NodeStatus)
    → null (bad_in_nodes level_th (if b then x else y))
      ≡ (if b then null (bad_in_nodes level_th x) else null (bad_in_nodes level_th y))
null-if level_th true x y = refl
null-if level_th false x y = refl

pub null-node :
    (level_th : ℕ) (n : NodeStatus) (ns : List NodeStatus)
    → null (bad_in_nodes level_th (n ∷ ns))
      ≡ (null (bad_in_node level_th n) && null (bad_in_nodes level_th ns))
unfolding gather
null-node level_th n ns = null-append (bad_in_node level_th n) (bad_in_nodes level_th ns)

module _ (ty : DiagTypes) (level_th level stamp : ℕ) (name : String) where
  abbrev dead_array : DiagnosticStatusArray
  dead_array = create_diagnostic_status_array ty name stamp level

  abbrev with_dead : NodeStatus → NodeStatus
  with_dead n = record n { node_activated = true; status = n.status ++ dead_array ∷ [] }

  null-add_dead_node :
      (n : NodeStatus) (ns : List NodeStatus)
      → null (bad_in_nodes level_th (add_dead_node ty name level stamp (n ∷ ns))) ≡ (
          if str_eq name n.node_name
          then null (gather (bad_in level_th) n.status)
            && null (bad_in level_th dead_array)
            && null (bad_in_nodes level_th ns)
          else null (bad_in_node level_th n)
            && null (bad_in_nodes level_th (add_dead_node ty name level stamp ns)))
  unfolding add_dead_node
  null-add_dead_node n ns =
      null-if level_th (str_eq name n.node_name) (with_dead n ∷ ns)
        (n ∷ add_dead_node ty name level stamp ns)
      ∙ ground (
        arith,
        null-node level_th (with_dead n) ns,
        null-node level_th n (add_dead_node ty name level stamp ns),
        null-bad_in_node level_th n dead_array,
      )

  add_dead_node-bad :
      (ns : List NodeStatus)
      → level_th ≤ level % 256
      → null (bad_in_nodes level_th (add_dead_node ty name level stamp ns)) ≡ false
  unfolding add_dead_node gather
  add_dead_node-bad [] h = ground (arith, h)
  add_dead_node-bad (n ∷ ns) h =
      null-add_dead_node n ns
      ∙ ground (arith, dead_status-bad ty level_th level stamp name h, add_dead_node-bad ns h)

  add_dead_node-keeps :
      (ns : List NodeStatus)
      → null (bad_in_nodes level_th ns) ≡ false
      → null (bad_in_nodes level_th (add_dead_node ty name level stamp ns)) ≡ false
  unfolding add_dead_node gather
  add_dead_node-keeps [] h = absurd (cc h)
  add_dead_node-keeps (n ∷ ns) h =
      null-add_dead_node n ns ∙ ground (arith, null-node level_th n ns, h, add_dead_node-keeps ns)

add_dead_from-keeps :
    (ty : DiagTypes) (level_th stamp : ℕ) (dead : Map String ℕ) (ns : List NodeStatus)
    → null (bad_in_nodes level_th ns) ≡ false
    → null (bad_in_nodes level_th (add_dead_from ty dead stamp ns)) ≡ false
unfolding add_dead_from
add_dead_from-keeps ty level_th stamp [] ns h = h
add_dead_from-keeps ty level_th stamp ((k, level) ∷ dead) ns h =
    add_dead_from-keeps ty level_th stamp dead (add_dead_node ty k level stamp ns)
      (add_dead_node-keeps ty level_th level stamp k ns h)

add_dead_from-bad :
    (ty : DiagTypes) (level_th stamp : ℕ) (k : String) (level : ℕ) (dead : Map String ℕ)
    (ns : List NodeStatus)
    → lookup k dead ≡ some level
    → level_th ≤ level % 256
    → null (bad_in_nodes level_th (add_dead_from ty dead stamp ns)) ≡ false
unfolding add_dead_from lookup
add_dead_from-bad ty level_th stamp k level [] ns e h = absurd (cc e)
add_dead_from-bad ty level_th stamp k level ((j, w) ∷ dead) ns e h =
    elim (Bool-cases (str_eq j k)) [
      | inl q ↦
          add_dead_from-keeps ty level_th stamp dead (add_dead_node ty j w stamp ns)
            (add_dead_node-bad ty level_th w stamp j ns (ground (arith, e, q, h)))
      | inr q ↦
          add_dead_from-bad ty level_th stamp k level dead (add_dead_node ty j w stamp ns)
            (ground (arith, e, q)) h
    ]

-- A node that the monitor holds for dead, with a level whose lowest 8 bits are ERROR or worse, makes
-- the node filter ask for the priority of a node error, whatever the nodes report of themselves, and
-- the priority after the filter is no less urgent than that.
pub select_dead-node_error :
    {W : Type 0} (lv : DiagLevels) (ty : DiagTypes) (now : ℕ) (s : SystemStatus) (m : VitalMonitor)
    (h : Handler W) (k : String) (level : ℕ)
    → lookup k m.dead ≡ some level
    → lv.error ≤ level % 256
    → ((select_dead lv ty s m h).0 ≡ h.table.node_error)
      × ((wrap_func now (select_dead lv ty s m h)).priority ≤ h.table.node_error)
unfolding add_dead_nodes select_dead wrap_func
select_dead-node_error lv ty now s m h k level e l =
    let nodes = (add_dead_nodes ty m s).node_status in
    let asked : (select_dead lv ty s m h).0 ≡ h.table.node_error =
      ap (λ r. if not r.0 then h.table.node_error else h.table.no_error)
        (check_all_node_simply-finds lv.error nodes h.factors)
      ∙ ap (λ b. if not b then h.table.node_error else h.table.no_error)
          (add_dead_from-bad ty lv.error s.stamp k level m.dead s.node_status e l) in
    (asked, ground (arith, asked))
