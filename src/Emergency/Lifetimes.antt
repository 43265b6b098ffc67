-- ===== src/Emergency/Lifetimes.antt =====
-- The loops of emergency_handler/lib/libvital_monitor.cpp, updateNodeStatus, on one node each.
use autoware_ai_common.Base.{
  Bool, Bool-cases, List, Option, Option-cases, String, [], and_then, ap, arith, false,
  if◌then◌else◌, inl, inr, is_some, none, not, refl, some, sym, true, ℕ, ◌&&◌, ◌||◌, ◌∙◌, ◌∷◌, ◌≡◌,
}
use autoware_ai_common.Base.Text.{eq_iff, str_eq, str_less, string_key}
use autoware_ai_common.Base.Map.{
  Map, assign, emplace, erase, lookup, lookup-assign, lookup-emplace, lookup-erase,
}
use autoware_ai_common.Emergency.Vital.{
  LifeTime, VitalMonitor, age, age_one, bury, contains, is_dead, modify, reset_life, revive,
  revive_all,
}

-- No key twice.
abbrev pub IsMap : {V : Type 0} → Map String V → Type 0
IsMap [] = Unit
IsMap ((k, v) ∷ m) = (lookup k m ≡ none) × IsMap m

IsMap-if :
    {V : Type 0} (b : Bool) (x y : Map String V) → IsMap x → IsMap y → IsMap (if b then x else y)
IsMap-if true x y hx hy = hx
IsMap-if false x y hx hy = hy

pub IsMap-assign :
    {V : Type 0} (k : String) (v : V) (m : Map String V)
    → lookup k m ≡ none
    → IsMap m
    → IsMap (assign k v m)
unfolding lookup assign
IsMap-assign k v [] n h = (refl, h)
IsMap-assign k v ((j, w) ∷ m) n h =
    let nm : lookup k m ≡ none = ground (arith, n) in
    IsMap-if (str_eq j k) ((k, v) ∷ m)
      (if str_less k j then (k, v) ∷ (j, w) ∷ m else (j, w) ∷ assign k v m) (nm, h.1)
      (IsMap-if (str_less k j) ((k, v) ∷ (j, w) ∷ m) ((j, w) ∷ assign k v m) (n, h)
        (
          lookup-assign k j v m ∙ ground (arith, n, h.0, eq_iff j k, eq_iff k j),
          IsMap-assign k v m nm h.1,
        ))

abbrev pub entry_dead : Option LifeTime → Bool
entry_dead none = false
entry_dead (some l) = is_dead l

-- Only required nodes with no life left are dead.
pub record IsSound (m : VitalMonitor) : Type 0 where
  pub unique : IsMap m.required
  pub sound :
      (k : String) → is_some (lookup k m.dead) ≡ true → entry_dead (lookup k m.required) ≡ true

-- The first loop gives a dead node that is available its whole life again.
abbrev pub revived : List String → VitalMonitor → String → LifeTime → LifeTime
revived available m k l =
    if contains k available && is_some (lookup k m.dead) then reset_life l else l

abbrev pub on_entry : (LifeTime → LifeTime) → Option LifeTime → Option LifeTime
on_entry f none = none
on_entry f (some l) = some (f l)

lookup-modify :
    (k j : String) (f : LifeTime → LifeTime) (m : Map String LifeTime)
    → lookup j (modify k f m) ≡ (if str_eq k j then on_entry f (lookup j m) else lookup j m)
unfolding lookup modify
lookup-modify k j f [] = ground arith
lookup-modify k j f ((i, l) ∷ m) =
    ground (arith, lookup-modify k j f m, eq_iff k j, eq_iff i k, eq_iff i j)

modify-IsMap :
    (k : String) (f : LifeTime → LifeTime) (m : Map String LifeTime)
    → IsMap m
    → IsMap (modify k f m)
unfolding modify
modify-IsMap k f [] h = h
modify-IsMap k f ((j, l) ∷ m) h = elim (Bool-cases (str_eq j k)) [
  | inl e ↦ rw e h
  | inr e ↦
      rw e (
        lookup-modify k j f m ∙ ground (arith, h.0, eq_iff j k, eq_iff k j),
        modify-IsMap k f m h.1,
      )
]

pub lookup-age :
    (available : List String) (previous now : ℕ) (k : String) (m : Map String LifeTime)
    → lookup k (age available previous now m)
      ≡ on_entry (age_one available previous now k) (lookup k m)
unfolding lookup age
lookup-age available previous now k [] = refl
lookup-age available previous now k ((j, l) ∷ m) = elim (Bool-cases (str_eq j k)) [
  | inl h ↦ rw (h, (eq_iff j k).0 h) refl
  | inr h ↦ rw h (lookup-age available previous now k m)
]

pub age-IsMap :
    (available : List String) (previous now : ℕ) (m : Map String LifeTime)
    → IsMap m
    → IsMap (age available previous now m)
unfolding age
age-IsMap available previous now [] h = h
age-IsMap available previous now ((k, l) ∷ m) h = (
  lookup-age available previous now k m ∙ ap (on_entry (age_one available previous now k)) h.0,
  age-IsMap available previous now m h.1,
)

pub lookup-bury :
    (k : String) (m : Map String LifeTime) (dead : Map String ℕ)
    → IsMap m
    → is_some (lookup k (bury m dead)) ≡ (is_some (lookup k dead) || entry_dead (lookup k m))
unfolding lookup bury
lookup-bury k [] dead h = ground arith
lookup-bury k ((j, l) ∷ m) dead h = ground (
  arith,
  lookup-bury k m dead h.1,
  lookup-bury k m (emplace j l.level dead) h.1,
  lookup-emplace j k l.level dead,
  ap entry_dead h.0,
  eq_iff j k,
)

-- What the first loop leaves behind.
pub record Revived (available : List String) (m r : VitalMonitor) : Type 0 where
  pub is_sound : IsSound r
  pub dead_left :
      (k : String)
      → is_some (lookup k r.dead) ≡ (is_some (lookup k m.dead) && not (contains k available))
  pub same_time : r.previous ≡ m.previous
  pub lives :
      (k : String) → lookup k r.required ≡ on_entry (revived available m k) (lookup k m.required)

abbrev back : String → VitalMonitor → VitalMonitor
back node m = record m { required = modify node reset_life m.required; dead = erase node m.dead }

revive-eq :
    (node : String) (m : VitalMonitor)
    → IsSound m
    → revive node m ≡ (if is_some (lookup node m.dead) then some (back node m) else some m)
unfolding revive
revive-eq node m v = elim (Bool-cases (is_some (lookup node m.dead))) [
  | inl h ↦ rw h (elim (Option-cases (lookup node m.required)) [
    | inl e ↦ absurd (cc (e, v.sound node h))
    | inr (l, e) ↦ rw e refl
  ])
  | inr h ↦ rw h refl
]

on_entry-same :
    (f : LifeTime → LifeTime) (x : Option LifeTime) → ((l : LifeTime) → f l ≡ l) → on_entry f x ≡ x
on_entry-same f none h = refl
on_entry-same f (some l) h = ap some (h l)

back-Revived :
    (node : String) (m : VitalMonitor)
    → IsSound m
    → is_some (lookup node m.dead) ≡ true
    → Revived (node ∷ []) m (back node m)
back-Revived node m v h = record {
  is_sound = record {
    unique = modify-IsMap node reset_life m.required v.unique;
    sound = λ k p. ground (
      arith,
      lookup-erase node k m.dead,
      lookup-modify node k reset_life m.required,
      v.sound k,
      p,
    );
  };
  dead_left = λ k. ground (arith, lookup-erase node k m.dead);
  same_time = refl;
  lives = λ k. elim (Option-cases (lookup k m.required)) [
    | inl e ↦ rw e (lookup-modify node k reset_life m.required ∙ rw e (ground arith))
    | inr (l, e) ↦
        rw e (lookup-modify node k reset_life m.required ∙ rw e (ground (arith, eq_iff node k, h)))
  ];
}

still-Revived :
    (node : String) (m : VitalMonitor)
    → IsSound m
    → is_some (lookup node m.dead) ≡ false
    → Revived (node ∷ []) m m
still-Revived node m v h = record {
  is_sound = v;
  dead_left = λ k. ground (arith, eq_iff node k, h);
  same_time = refl;
  lives = λ k. sym (
      on_entry-same (revived (node ∷ []) m k) (lookup k m.required)
        (λ l. ground (arith, eq_iff node k, h)));
}

revive-step :
    (node : String) (m : VitalMonitor)
    → IsSound m
    → (r : VitalMonitor) × (revive node m ≡ some r) × Revived (node ∷ []) m r
revive-step node m v = elim (Bool-cases (is_some (lookup node m.dead))) [
  | inl h ↦ (back node m, revive-eq node m v ∙ rw h refl, back-Revived node m v h)
  | inr h ↦ (m, revive-eq node m v ∙ rw h refl, still-Revived node m v h)
]

revived-revived :
    (node k : String) (nodes : List String) (m r : VitalMonitor)
    → is_some (lookup k r.dead) ≡ (is_some (lookup k m.dead) && not (contains k (node ∷ [])))
    → (x : Option LifeTime)
    → on_entry (revived nodes r k) (on_entry (revived (node ∷ []) m k) x)
      ≡ on_entry (revived (node ∷ nodes) m k) x
revived-revived node k nodes m r h none = refl
revived-revived node k nodes m r h (some l) = ground (arith, h)

revive_all-some :
    (node : String) (nodes : List String) (m s : VitalMonitor)
    → revive node m ≡ some s
    → revive_all (node ∷ nodes) m ≡ revive_all nodes s
unfolding revive_all
revive_all-some node nodes m s e = ap (λ o. and_then o (revive_all nodes)) e

-- The first loop throws nothing, and leaves the dead nodes that are not available.
pub revive_all-Revived :
    (available : List String) (m : VitalMonitor)
    → IsSound m
    → (r : VitalMonitor) × (revive_all available m ≡ some r) × Revived available m r
unfolding revive_all
revive_all-Revived [] m v = (
  m,
  refl,
  record {
    is_sound = v;
    dead_left = λ k. ground arith;
    same_time = refl;
    lives = λ k. sym (on_entry-same (revived [] m k) (lookup k m.required) (λ l. refl));
  },
)
revive_all-Revived (node ∷ nodes) m v =
    let (s, e, h) = revive-step node m v in
    let (r, e', h') = revive_all-Revived nodes s h.is_sound in
    (
      r,
      revive_all-some node nodes m s e ∙ e',
      record {
        is_sound = h'.is_sound;
        dead_left = λ k. ground (arith, h'.dead_left k, h.dead_left k);
        same_time = h'.same_time ∙ h.same_time;
        lives = λ k.
            h'.lives k
            ∙ ap (on_entry (revived nodes s k)) (h.lives k)
            ∙ revived-revived node k nodes m s (h.dead_left k) (lookup k m.required);
      },
    )
