-- ===== src/Emergency/Turn.antt =====
-- The loop of emergency_handler/src/emergency_handler.cpp: what a turn sends and leaves behind.
use autoware_ai_common.Base.{
  Bool, Bool-cases, List, [], and_then, ap, arith, false, if◌then◌else◌, inl, inr, leb, ltb, not,
  null, refl, some, true, ℕ, ◌&&◌, ◌++◌, ◌+◌, ◌<◌, ◌==◌, ◌∙◌, ◌∷◌, ◌≡◌, ◌≢◌, ◌≤◌,
}
use autoware_ai_common.Base.Text.{string_key}
use autoware_ai_common.Base.Map.{Map}
use autoware_ai_common.Messages.{DiagLevels, DiagTypes, DiagnosticStatusArray}
use autoware_ai_common.Emergency.Factors.{reset}
use autoware_ai_common.Emergency.Planners.{Planner, VehicleCmd, feedback}
use autoware_ai_common.Emergency.Handler.{
  Handler, Output, available, emergency_velocity, error_status, find_target_emergency_planner,
  first, gen_no_status_msg, hold_time, plan, record_cmd, state_cmd, status_ok, switch, turn,
  update_priority,
}
use autoware_ai_common.Base.Double.{Double}

module _ {W : Type 0} where
  first-null : (m : Map ℕ (Planner W)) → null m ≡ false → (p : Planner W) × (first m ≡ some p)
  first-null [] h = absurd (cc h)
  first-null ((k, p) ∷ m) h = (p, refl)

  -- With a planner registered there is one for each priority, so that no call goes through a null pointer.
  pub find_target-some :
      (req : ℕ) (m : Map ℕ (Planner W))
      → null m ≡ false
      → (p : Planner W) × (find_target_emergency_planner req m ≡ some p)
  unfolding find_target_emergency_planner
  find_target-some req m h = elim (Bool-cases (null (available req m []))) [
    | inl e ↦
        let (p, q) = first-null m h in
        (p, ap (λ b. if b then first m else first (available req m [])) e ∙ q)
    | inr e ↦
        let (p, q) = first-null (available req m []) e in
        (p, ap (λ b. if b then first m else first (available req m [])) e ∙ q)
  ]

  -- Whether the loop raises the alarm that no status comes.
  abbrev pub is_lost : ℕ → Handler W → Bool
  is_lost now h = not (status_ok now h) && ltb h.table.emergency_handler_error h.priority

  -- The priority and the errors that a turn begins with.
  abbrev pub wanted : ℕ → Handler W → ℕ
  wanted now h = if is_lost now h then h.table.emergency_handler_error else h.priority

  abbrev pub errors_of : DiagLevels → DiagTypes → ℕ → Handler W → DiagnosticStatusArray
  errors_of lv ty now h = if is_lost now h then gen_no_status_msg lv ty now else h.factors.dataset

  -- The handler that updatePriority leaves.
  abbrev pub updated_priority : ℕ → Handler W → Handler W
  updated_priority now h = record h { priority = wanted now h; factors = reset h.factors }

  abbrev outcome : DiagnosticStatusArray → Handler W → DiagnosticStatusArray × Handler W
  outcome errors h = (errors, h)

  updated-if :
      (b : Bool) (p : ℕ) (x y : DiagnosticStatusArray) (h : Handler W)
      → (if b
          then outcome x (record h { priority = p; factors = reset h.factors })
          else outcome y (record h { factors = reset h.factors }))
        ≡ outcome
            (if b then x else y)
            (record h { priority = if b then p else h.priority; factors = reset h.factors })
  updated-if true p x y h = refl
  updated-if false p x y h = refl

  update_priority-eq :
      (lv : DiagLevels) (ty : DiagTypes) (now : ℕ) (h : Handler W)
      → update_priority lv ty (status_ok now h) now h
        ≡ (errors_of lv ty now h, updated_priority now h)
  unfolding update_priority
  update_priority-eq lv ty now h =
      updated-if (is_lost now h) h.table.emergency_handler_error (gen_no_status_msg lv ty now)
        h.factors.dataset h

  -- What the start of an emergency sends: the command to the decision maker, when the planners are
  -- enabled, the request to the drive recorder and the errors.
  abbrev pub announcement : DiagnosticStatusArray → ℕ → Handler W → List (Output W)
  announcement errors now h =
      (if h.is_emergency_planner_enabled then state_cmd "emergency" ∷ [] else [])
      ++ record_cmd now ∷ error_status errors ∷ []

  switch-starts :
      (errors : DiagnosticStatusArray) (now : ℕ) (h : Handler W)
      → h.is_urgent ≡ false
      → h.priority ≢ h.table.no_error
      → switch errors now h ≡ (
        announcement errors now h,
        record h { start_time = now; emergency_vehicle_cmd = h.vehicle_cmd; is_urgent = true },
      )
  unfolding switch
  switch-starts errors now h u n =
      let q : (h.priority == h.table.no_error) ≡ false = ground (arith, n) in rw (u, q) refl

  pub switch-holds :
      (errors : DiagnosticStatusArray) (now : ℕ) (h : Handler W)
      → h.is_urgent ≡ true
      → now < h.start_time + hold_time
      → switch errors now h ≡ ([], h)
  unfolding switch
  switch-holds errors now h u n =
      let q : leb (h.start_time + hold_time) now ≡ false = ground (arith, n) in rw (u, q) refl

  switch-releases :
      (errors : DiagnosticStatusArray) (now : ℕ) (h : Handler W)
      → h.is_urgent ≡ true
      → h.start_time + hold_time ≤ now
      → switch errors now h ≡ ([], record h { priority = h.latest_priority; is_urgent = false })
  unfolding switch
  switch-releases errors now h u n =
      let q : leb (h.start_time + hold_time) now ≡ true = ground (arith, n) in rw (u, q) refl

module _ {W : Type 0} ⦃d : Double W⦄ where
  -- The planning changes the command alone.
  plan-some :
      (now : ℕ) (h : Handler W)
      → null h.emergency_planner_map ≡ false
      → (sent : List (Output W)) × (cmd : VehicleCmd W) × (plan now h
          ≡ some (sent, record h { emergency_vehicle_cmd = cmd }))
  unfolding plan
  plan-some now h n = elim (Bool-cases (h.is_urgent && h.is_emergency_planner_enabled)) [
    | inl e ↦
        let (p, q) = find_target-some h.priority h.emergency_planner_map n in
        let cmd = feedback p now h.emergency_vehicle_cmd in
        (
          emergency_velocity cmd ∷ [],
          cmd,
          rw e (
              ap
                (λ o. and_then o (λ r.
                  let c = feedback r now h.emergency_vehicle_cmd in
                  some (emergency_velocity c ∷ [], record h { emergency_vehicle_cmd = c })))
                q),
        )
    | inr e ↦ ([], h.emergency_vehicle_cmd, rw e refl)
  ]

module _ {W : Type 0} ⦃d : Double W⦄ (lv : DiagLevels) (ty : DiagTypes) where
  pub turn-from :
      (now : ℕ) (h : Handler W) (sent : List (Output W)) (k : Handler W)
      → switch (errors_of lv ty now h) now (updated_priority now h) ≡ (sent, k)
      → null k.emergency_planner_map ≡ false
      → (rest : List (Output W)) × (cmd : VehicleCmd W) × (turn lv ty now h
          ≡ some (sent ++ rest, record k { emergency_vehicle_cmd = cmd }))
  unfolding turn
  turn-from now h sent k e n =
      let (rest, cmd, p) = plan-some now k n in
      (
        rest,
        cmd,
        ap
              (λ (u : DiagnosticStatusArray × Handler W).
                let (s, g) = switch u.0 now u.1 in
                and_then (plan now g) (λ r. some (s ++ r.0, r.1)))
              (update_priority-eq lv ty now h)
            ∙ ap
                (λ (u : List (Output W) × Handler W).
                  and_then (plan now u.1) (λ r. some (u.0 ++ r.0, r.1)))
                e
            ∙ ap (λ o. and_then o (λ (r : List (Output W) × Handler W). some (sent ++ r.0, r.1))) p,
      )

  -- With a planner registered, and no emergency yet, a turn that finds a priority other than that of no
  -- error, or that has waited too long for a system status, begins an emergency: it sends the
  -- announcement with the errors before anything else, takes the priority, and counts from this time.
  pub turn-starts :
      (now : ℕ) (h : Handler W)
      → null h.emergency_planner_map ≡ false
      → h.is_urgent ≡ false
      → wanted now h ≢ h.table.no_error
      → (rest : List (Output W)) × (g : Handler W) × (turn lv ty now h
          ≡ some (announcement (errors_of lv ty now h) now h ++ rest, g))
        × (g.is_urgent ≡ true)
        × (g.priority ≡ wanted now h)
        × (g.start_time ≡ now)
  turn-starts now h n u w =
      let errors = errors_of lv ty now h in
      let k : Handler W = record (updated_priority now h) {
        start_time = now;
        emergency_vehicle_cmd = h.vehicle_cmd;
        is_urgent = true;
      } in
      let (rest, cmd, e) =
        turn-from now h (announcement errors now h) k
          (switch-starts errors now (updated_priority now h) u w) n in
      (rest, record k { emergency_vehicle_cmd = cmd }, e, refl, refl, refl)

  -- In an emergency that began 10 s ago or longer, a turn of the loop sends nothing, ends the emergency,
  -- empties the factors, and takes the priority that the last filter of the last message asked for,
  -- whatever the priority was.
  pub turn-releases :
      (now : ℕ) (h : Handler W)
      → h.is_urgent ≡ true
      → h.start_time + hold_time ≤ now
      → turn lv ty now h
        ≡ some (
          [],
          record h { priority = h.latest_priority; factors = reset h.factors; is_urgent = false },
        )
  unfolding turn plan
  turn-releases now h u o =
      ap
        (λ (x : DiagnosticStatusArray × Handler W).
          let (s, g) = switch x.0 now x.1 in and_then (plan now g) (λ r. some (s ++ r.0, r.1)))
        (update_priority-eq lv ty now h)
      ∙ ap
          (λ (x : List (Output W) × Handler W).
            and_then (plan now x.1) (λ r. some (x.0 ++ r.0, r.1)))
          (switch-releases (errors_of lv ty now h) now (updated_priority now h) u o)
