-- ===== src/Emergency/DeadNodes.antt =====
-- Which nodes emergency_handler/lib/libvital_monitor.cpp holds for dead, and for how long it waits.
use autoware_ai_common.Base.{
  List, Option, Option-cases, String, [], and_then, ap, arith, false, inl, inr, is_some, none, refl,
  some, subst, sym, true, ℕ, ◌∙◌, ◌∷◌, ◌≡◌, ◌≤◌,
}
use autoware_ai_common.Base.Text.{eq_iff, str_append, string_key}
use autoware_ai_common.Base.Map.{Map, assign, emplace, lookup, lookup-emplace}
use autoware_ai_common.Emergency.Vital.{
  LifeTime, NodeParam, VitalMonitor, age, age_and_bury, age_one, default_timeout,
  init_monitored_node_list, new_life, require, require_all, update_node_status, with_default,
}
use autoware_ai_common.Emergency.Lifetimes.{
  IsMap, IsMap-assign, IsSound, age-IsMap, entry_dead, lookup-age, lookup-bury, on_entry,
  revive_all-Revived, revived,
}

-- The dead nodes are the required ones that have been seen and have no life left.
pub record IsVital (m : VitalMonitor) : Type 0 where
  pub unique : IsMap m.required
  pub exact : (k : String) → is_some (lookup k m.dead) ≡ entry_dead (lookup k m.required)

pub IsVital-IsSound : (m : VitalMonitor) → IsVital m → IsSound m
IsVital-IsSound m v = record { unique = v.unique; sound = λ k p. sym (v.exact k) ∙ p }

-- The time of the last update, or the present time before the first one.
abbrev pub last_time : ℕ → VitalMonitor → ℕ
last_time now m = with_default now m.previous

-- What an update does to the entry of a required node.
abbrev pub updated : List String → ℕ → VitalMonitor → String → LifeTime → LifeTime
updated available now m k l = age_one available (last_time now m) now k (revived available m k l)

pub record Updated (available : List String) (now : ℕ) (m r : VitalMonitor) : Type 0 where
  pub result : update_node_status available now m ≡ some r
  pub is_vital : IsVital r
  pub time : r.previous ≡ some now
  pub life :
      (k : String)
      → lookup k r.required ≡ on_entry (updated available now m k) (lookup k m.required)

aged_dead :
    (available : List String) (previous now : ℕ) (k : String) (x : Option LifeTime)
    → previous ≤ now
    → entry_dead x ≡ true
    → entry_dead (on_entry (age_one available previous now k) x) ≡ true
aged_dead available previous now k none h d = d
aged_dead available previous now k (some l) h d = ground (arith, d, h)

age_and_bury-IsVital :
    (available : List String) (previous now : ℕ) (m : VitalMonitor)
    → previous ≤ now
    → IsSound m
    → IsVital (age_and_bury available previous now m)
unfolding age_and_bury
age_and_bury-IsVital available previous now m h v = record {
  unique = age-IsMap available previous now m.required v.unique;
  exact = λ k.
      lookup-bury k (age available previous now m.required) m.dead
        (age-IsMap available previous now m.required v.unique)
      ∙ ground (
        arith,
        lookup-age available previous now k m.required,
        aged_dead available previous now k (lookup k m.required) h,
        v.sound k,
      );
}

on_entry-twice :
    (f g : LifeTime → LifeTime) (x : Option LifeTime)
    → on_entry f (on_entry g x) ≡ on_entry (λ l. f (g l)) x
on_entry-twice f g none = refl
on_entry-twice f g (some l) = refl

-- After an update at a time that is not before the last one: it throws nothing, the dead nodes are
-- exactly the required nodes with no life left, and each required node has the life that `updated` says.
pub update_node_status-Updated :
    (available : List String) (now : ℕ) (m : VitalMonitor)
    → IsVital m
    → last_time now m ≤ now
    → (r : VitalMonitor) × Updated available now m r
unfolding update_node_status age_and_bury
update_node_status-Updated available now m v h =
    let (r, e, x) = revive_all-Revived available m (IsVital-IsSound m v) in
    let same = ap (with_default now) x.same_time in
    (
      age_and_bury available (last_time now r) now r,
      record {
        result =
            ap (λ o. and_then o (λ s. some (age_and_bury available (last_time now m) now s))) e
            ∙ ap (λ t. some (age_and_bury available t now r)) (sym same);
        is_vital =
            age_and_bury-IsVital available (last_time now r) now r (omega (arith, same, h))
              x.is_sound;
        time = refl;
        life = λ k.
            lookup-age available (last_time now r) now k r.required
            ∙ ap (on_entry (age_one available (last_time now r) now k)) (x.lives k)
            ∙ ap
                (λ p.
                  on_entry (age_one available p now k)
                    (on_entry (revived available m k) (lookup k m.required)))
                same
            ∙ on_entry-twice (age_one available (last_time now m) now k) (revived available m k)
                (lookup k m.required);
      },
    )

IsMap-emplace :
    (k : String) (l : LifeTime) (m : Map String LifeTime) → IsMap m → IsMap (emplace k l m)
unfolding emplace
IsMap-emplace k l m h = elim (Option-cases (lookup k m)) [
  | inl e ↦
      subst IsMap (sym (ap (λ o. elim o [ none ↦ assign k l m | some w ↦ m ]) e))
        (IsMap-assign k l m e h)
  | inr (w, e) ↦ subst IsMap (sym (ap (λ o. elim o [ none ↦ assign k l m | some x ↦ m ]) e)) h
]

require-not_dead :
    (p : NodeParam) (k : String) (m : Map String LifeTime)
    → entry_dead (lookup k m) ≡ false
    → entry_dead (lookup k (require p m)) ≡ false
require-not_dead p k m h =
    ap entry_dead (
      lookup-emplace (str_append "/" p.name) k
        (new_life (with_default default_timeout p.timeout) (with_default 1 p.level)) m)
    ∙ ground (arith, h, eq_iff (str_append "/" p.name) k)

require_all-fresh :
    (ps : List NodeParam) (m : Map String LifeTime)
    → IsMap m
    → ((k : String) → entry_dead (lookup k m) ≡ false)
    → IsMap (require_all ps m) × ((k : String) → entry_dead (lookup k (require_all ps m)) ≡ false)
unfolding require_all
require_all-fresh [] m h f = (h, f)
require_all-fresh (p ∷ ps) m h f =
    require_all-fresh ps (require p m)
      (IsMap-emplace (str_append "/" p.name)
        (new_life (with_default default_timeout p.timeout) (with_default 1 p.level)) m h)
      (λ k. require-not_dead p k m (f k))

pub init-IsVital : (params : List NodeParam) → IsVital (init_monitored_node_list params)
unfolding init_monitored_node_list lookup
init-IsVital params =
    let (u, f) = require_all-fresh params [] tt (λ k. refl) in
    record { unique = u; exact = λ k. sym (f k) }
