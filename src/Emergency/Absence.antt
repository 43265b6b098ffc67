-- ===== src/Emergency/Absence.antt =====
-- How long emergency_handler/lib/libvital_monitor.cpp waits for a node that has gone.
use autoware_ai_common.Base.{
  List, Option, String, [], and_then, ap, arith, false, if◌then◌else◌, is_some, leb, refl, some,
  sym, true, ℕ, ◌&&◌, ◌+◌, ◌-◌, ◌∙◌, ◌∷◌, ◌≡◌, ◌≤◌,
}
use autoware_ai_common.Base.Text.{string_key}
use autoware_ai_common.Base.Map.{lookup}
use autoware_ai_common.Emergency.Vital.{
  LifeTime, VitalMonitor, activate, contains, reset_life, spend, update_node_status, with_default,
}
use autoware_ai_common.Emergency.Lifetimes.{entry_dead, on_entry}
use autoware_ai_common.Emergency.DeadNodes.{IsVital, last_time, update_node_status-Updated, updated}

-- A sequence of messages, each with its nodes and its time.
unfoldable pub updates : List (List String × ℕ) → VitalMonitor → Option VitalMonitor
updates [] m = some m
updates ((available, now) ∷ us) m = and_then (update_node_status available now m) (updates us)

-- The times of the updates go on from a time, and the node is in none of them.
abbrev pub Absent : String → ℕ → List (List String × ℕ) → Type 0
Absent k t [] = Unit
Absent k t ((available, now) ∷ us) = (contains k available ≡ false) × (t ≤ now) × Absent k now us

abbrev pub end_time : ℕ → List (List String × ℕ) → ℕ
end_time t [] = t
end_time t ((available, now) ∷ us) = end_time now us

end_time-after :
    (k : String) (t : ℕ) (us : List (List String × ℕ)) → Absent k t us → t ≤ end_time t us
end_time-after k t [] h = omega arith
end_time-after k t ((available, now) ∷ us) h = omega (arith, h.1, end_time-after k now us h.2)

spend-active :
    (p n : ℕ) (l : LifeTime)
    → l.activated ≡ true
    → spend p n l ≡ record l { life_time = l.life_time + p - n }
spend-active p n l a = ap (λ b. if b then record l { life_time = l.life_time + p - n } else l) a

spend-same : (t : ℕ) (l : LifeTime) → l.activated ≡ true → l ≡ spend t t l
spend-same t l a = ap (λ x. record l { life_time = x }) (omega arith) ∙ sym (spend-active t t l a)

spend-spend :
    (t now end : ℕ) (l : LifeTime)
    → l.activated ≡ true
    → t ≤ now
    → now ≤ end
    → spend now end (spend t now l) ≡ spend t end l
spend-spend t now end l a p q =
    ap (spend now end) (spend-active t now l a)
    ∙ spend-active now end (record l { life_time = l.life_time + t - now }) a
    ∙ ap (λ x. record l { life_time = x }) (omega (arith, p, q))
    ∙ sym (spend-active t end l a)

updated-absent :
    (available : List String) (t now : ℕ) (m : VitalMonitor) (k : String) (l : LifeTime)
    → contains k available ≡ false
    → m.previous ≡ some t
    → updated available now m k l ≡ spend t now l
updated-absent available t now m k l h e =
    ap
      (λ b.
        if b
        then activate (if b && is_some (lookup k m.dead) then reset_life l else l)
        else spend (last_time now m) now
            (if b && is_some (lookup k m.dead) then reset_life l else l))
      h
    ∙ ap (λ p. spend (with_default now p) now l) e

updates-life :
    (k : String) (t : ℕ) (us : List (List String × ℕ)) (l : LifeTime) (m : VitalMonitor)
    → IsVital m
    → m.previous ≡ some t
    → Absent k t us
    → lookup k m.required ≡ some l
    → l.activated ≡ true
    → (r : VitalMonitor) × (updates us m ≡ some r)
      × IsVital r
      × (lookup k r.required ≡ some (spend t (end_time t us) l))
unfolding updates
updates-life k t [] l m v e h f a = (m, refl, v, f ∙ ap some (spend-same t l a))
updates-life k t ((available, now) ∷ us) l m v e h f a =
    let (s, u) =
      update_node_status-Updated available now m v (omega (arith, ap (with_default now) e, h.1)) in
    let l' = spend t now l in
    let (r, p, w, q) =
      updates-life k now us l' s u.is_vital u.time h.2
        (u.life k
          ∙ ap (on_entry (updated available now m k)) f
          ∙ ap some (updated-absent available t now m k l h.0 e))
        (ap (λ x. x.activated) (spend-active t now l a) ∙ a) in
    (
      r,
      ap (λ o. and_then o (updates us)) u.result ∙ p,
      w,
      q ∙ ap some (spend-spend t now (end_time now us) l a h.1 (end_time-after k now us h.2)),
    )

-- A required node that has been seen, and that then is in no message for a while, is dead at the end of
-- that while exactly when it is no shorter than the life the node had left at its beginning; the monitor
-- throws nothing, however the other nodes come and go.
pub updates-Absent :
    (k : String) (t : ℕ) (us : List (List String × ℕ)) (l : LifeTime) (m : VitalMonitor)
    → IsVital m
    → m.previous ≡ some t
    → Absent k t us
    → lookup k m.required ≡ some l
    → l.activated ≡ true
    → (r : VitalMonitor) × (updates us m ≡ some r)
      × (is_some (lookup k r.dead) ≡ leb (t + l.life_time) (end_time t us))
updates-Absent k t us l m v e h f a =
    let (r, p, w, q) = updates-life k t us l m v e h f a in
    (
      r,
      p,
      w.exact k
          ∙ ap entry_dead (q ∙ ap some (spend-active t (end_time t us) l a))
          ∙ ground (arith, a),
    )
