-- ===== src/Health/Window.antt =====
-- What autoware_health_checker/src/health_checker/diag_buffer.cpp gives back of the statuses it was given.
use autoware_ai_common.Base.{
  All, Bool, List, String, [], and_then, any, ap, arith, count_if, count_if-append, count_if-keep,
  if◌then◌else◌, keep, refl, some, true, ℕ, ◌&&◌, ◌++◌, ◌+◌, ◌==◌, ◌∙◌, ◌∷◌, ◌≡◌, ◌≤◌,
}
use autoware_ai_common.Base.Map.{Map, ascending, assign, lookup, lookup-assign, or_else}
use autoware_ai_common.Messages.{DiagLevels, DiagnosticStatus, DiagnosticStatusArray, IsRising}
use autoware_ai_common.Health.DiagBuffer.{
  DiagBuffer, add_all_diags, add_diag, all_levels, collect, content, filter_buffer,
  get_and_clear_data, is_fresh, new_buffer, sort_by_stamp, update_buffer, update_levels,
}
use autoware_ai_common.Health.Sorting.{IsSorted, count_if-sort, sort-IsSorted}

keep-keep : {A : Type 0} (p : A → Bool) (xs : List A) → keep p (keep p xs) ≡ keep p xs
keep-keep p [] = refl
keep-keep p (x ∷ xs) = ground (arith, keep-keep p xs)

lookup-update_levels :
    (duration now level : ℕ) (levels : List ℕ) (m : Map ℕ DiagnosticStatusArray)
    → lookup level (update_levels duration now levels m) ≡ (
        if any (λ l. l == level) levels
        then some (keep (is_fresh duration now) (content level m))
        else lookup level m)
unfolding update_levels filter_buffer
lookup-update_levels duration now level [] m = refl
lookup-update_levels duration now level (l ∷ levels) m =
    lookup-update_levels duration now level levels
      (assign l (keep (is_fresh duration now) (content l m)) m)
    ∙ ground (
      arith,
      lookup-assign l level (keep (is_fresh duration now) (content l m)) m,
      keep-keep (is_fresh duration now) (content l m),
    )

-- How many statuses of some levels satisfy a test.
abbrev pub total : (DiagnosticStatus → Bool) → List ℕ → Map ℕ DiagnosticStatusArray → ℕ
total p [] m = 0
total p (level ∷ levels) m = count_if p (content level m) + total p levels m

count_if-content :
    (p : DiagnosticStatus → Bool) (level l : ℕ) (xs : DiagnosticStatusArray)
    (m : Map ℕ DiagnosticStatusArray)
    → count_if p (content level (assign l xs m))
      ≡ (if l == level then count_if p xs else count_if p (content level m))
count_if-content p level l xs m =
    ap (λ o. count_if p (or_else o [])) (lookup-assign l level xs m) ∙ ground arith

-- A status that is added is counted once, whichever of the five levels it has.
total-add :
    (lv : DiagLevels) (p : DiagnosticStatus → Bool) (s : DiagnosticStatus)
    (m : Map ℕ DiagnosticStatusArray)
    → IsRising lv
    → any (λ l. l == s.level) (all_levels lv) ≡ true
    → total p (all_levels lv) (assign s.level (content s.level m ++ s ∷ []) m)
      ≡ total p (all_levels lv) m + count_if p (s ∷ [])
total-add lv p s m r h =
    let xs = content s.level m ++ s ∷ [] in
    ground (
      arith,
      count_if-content p lv.fatal s.level xs m,
      count_if-content p lv.error s.level xs m,
      count_if-content p lv.warn s.level xs m,
      count_if-content p lv.ok s.level xs m,
      count_if-content p lv.undefined s.level xs m,
      count_if-append p (content s.level m) (s ∷ []),
      r.undefined_ok,
      r.ok_warn,
      r.warn_error,
      r.error_fatal,
      h,
    )

count_if-keep_implied :
    (p f : DiagnosticStatus → Bool) (xs : DiagnosticStatusArray)
    → ((s : DiagnosticStatus) → p s ≡ true → f s ≡ true)
    → count_if p (keep f xs) ≡ count_if p xs
count_if-keep_implied p f [] h = refl
count_if-keep_implied p f (x ∷ xs) h = ground (arith, h x, count_if-keep_implied p f xs h)

module _ (p : DiagnosticStatus → Bool) (duration now : ℕ)
    (only_fresh : (s : DiagnosticStatus) → p s ≡ true → is_fresh duration now s ≡ true) where
  count_if-updated :
      (level : ℕ) (levels : List ℕ) (m : Map ℕ DiagnosticStatusArray)
      → count_if p (content level (update_levels duration now levels m))
        ≡ count_if p (content level m)
  count_if-updated level levels m =
      ap (λ o. count_if p (or_else o [])) (lookup-update_levels duration now level levels m)
      ∙ ground (arith, count_if-keep_implied p (is_fresh duration now) (content level m) only_fresh)

  -- A test that only fresh statuses pass is passed by as many after an update.
  total-update_levels :
      (some_levels levels : List ℕ) (m : Map ℕ DiagnosticStatusArray)
      → total p some_levels (update_levels duration now levels m) ≡ total p some_levels m
  total-update_levels [] levels m = refl
  total-update_levels (level ∷ some_levels) levels m =
      omega (arith, count_if-updated level levels m, total-update_levels some_levels levels m)

-- Every one of some levels has an entry.
abbrev Filled : List ℕ → Map ℕ DiagnosticStatusArray → Type 0
Filled levels m = All (λ level. (xs : DiagnosticStatusArray) × (lookup level m ≡ some xs)) levels

collect-Filled :
    (levels : List ℕ) (m : Map ℕ DiagnosticStatusArray) (acc : DiagnosticStatusArray)
    → Filled levels m
    → (r : DiagnosticStatusArray) × (collect levels m acc ≡ some r)
      × ((p : DiagnosticStatus → Bool) → count_if p r ≡ count_if p acc + total p levels m)
unfolding collect
collect-Filled [] m acc h = (acc, refl, λ p. omega arith)
collect-Filled (level ∷ levels) m acc ((xs, e), h) =
    let (r, c, n) = collect-Filled levels m (acc ++ xs) h in
    (
      r,
      ap (λ o. and_then o (λ ys. collect levels m (acc ++ ys))) e ∙ c,
      λ p. n p ∙ omega (arith, count_if-append p acc xs, ap (λ o. count_if p (or_else o [])) e),
    )

Filled-update_levels :
    (duration now : ℕ) (some_levels levels : List ℕ) (m : Map ℕ DiagnosticStatusArray)
    → All (λ level. any (λ l. l == level) levels ≡ true) some_levels
    → Filled some_levels (update_levels duration now levels m)
Filled-update_levels duration now [] levels m h = tt
Filled-update_levels duration now (level ∷ some_levels) levels m (e, h) = (
  (
    keep (is_fresh duration now) (content level m),
    lookup-update_levels duration now level levels m
        ∙ ap
            (λ b.
              if b then some (keep (is_fresh duration now) (content level m)) else lookup level m)
            e,
  ),
  Filled-update_levels duration now some_levels levels m h,
)

all_levels-known :
    (lv : DiagLevels) → All (λ level. any (λ l. l == level) (all_levels lv) ≡ true) (all_levels lv)
all_levels-known lv = ground arith

total-fresh :
    (q : DiagnosticStatus → Bool) (duration now : ℕ) (some_levels levels : List ℕ)
    (m : Map ℕ DiagnosticStatusArray)
    → All (λ level. any (λ l. l == level) levels ≡ true) some_levels
    → total q some_levels (update_levels duration now levels m)
      ≡ total (λ s. q s && is_fresh duration now s) some_levels m
total-fresh q duration now [] levels m h = refl
total-fresh q duration now (level ∷ some_levels) levels m (e, h) =
    let f = keep (is_fresh duration now) (content level m) in
    omega (
      arith,
      ap (λ o. count_if q (or_else o []))
          (lookup-update_levels duration now level levels m
            ∙ ap (λ b. if b then some f else lookup level m) e),
      count_if-keep q (is_fresh duration now) (content level m),
      total-fresh q duration now some_levels levels m h,
    )

-- The times of the additions are not after a time, and the levels are among the five.
abbrev pub AllTimely : DiagLevels → ℕ → List (ℕ × DiagnosticStatus) → Type 0
AllTimely lv now [] = Unit
AllTimely lv now ((t, s) ∷ es) =
    (t ≤ now) × (any (λ l. l == s.level) (all_levels lv) ≡ true) × AllTimely lv now es

abbrev pub statuses_of : List (ℕ × DiagnosticStatus) → DiagnosticStatusArray
statuses_of [] = []
statuses_of ((t, s) ∷ es) = s ∷ statuses_of es

module _ (lv : DiagLevels) (rising : IsRising lv) (now : ℕ) (p : DiagnosticStatus → Bool) where
  total-add_all_diags :
      (es : List (ℕ × DiagnosticStatus)) (b : DiagBuffer)
      → ((s : DiagnosticStatus) → p s ≡ true → is_fresh b.buffer_duration now s ≡ true)
      → AllTimely lv now es
      → total p (all_levels lv) (add_all_diags lv es b).buffer
        ≡ total p (all_levels lv) b.buffer + count_if p (statuses_of es)
  unfolding add_all_diags add_diag update_buffer
  total-add_all_diags [] b f h = omega arith
  total-add_all_diags ((t, s) ∷ es) b f (o, k, h) =
      let m = assign s.level (content s.level b.buffer ++ s ∷ []) b.buffer in
      total-add_all_diags es (add_diag lv t s b) f h
      ∙ ground (
        arith,
        total-update_levels p b.buffer_duration t (λ x e. ground (arith, f x e, o)) (all_levels lv)
            (all_levels lv) m,
        total-add lv p s b.buffer rising k,
      )

duration-add_all_diags :
    (lv : DiagLevels) (es : List (ℕ × DiagnosticStatus)) (b : DiagBuffer)
    → (add_all_diags lv es b).buffer_duration ≡ b.buffer_duration
unfolding add_all_diags add_diag update_buffer
duration-add_all_diags lv [] b = refl
duration-add_all_diags lv ((t, s) ∷ es) b = duration-add_all_diags lv es (add_diag lv t s b)

pub get_and_clear_data-some :
    (lv : DiagLevels) (now : ℕ) (b : DiagBuffer)
    → (r : DiagnosticStatusArray × DiagBuffer) × (get_and_clear_data lv now b ≡ some r)
unfolding get_and_clear_data update_buffer
get_and_clear_data-some lv now b =
    let d = b.buffer_duration in
    let m = update_levels d now (all_levels lv) b.buffer in
    let (xs, e, n) =
      collect-Filled (all_levels lv) m [] (
        Filled-update_levels d now (all_levels lv) (all_levels lv) b.buffer
          (all_levels-known lv)) in
    (
      (sort_by_stamp xs, record b { buffer = [] }),
      ap (λ o. and_then o (λ ys. some (sort_by_stamp ys, record b { buffer = [] }))) e,
    )

-- With the levels in their documented order, a buffer that was new, and to which statuses of the five
-- levels were added at any times up to now, gives back without an exception exactly those that are
-- fresh now, each as often as it was added, in the order of their stamps, and is empty afterwards.
pub get_and_clear_data-window :
    (lv : DiagLevels) (now : ℕ) (es : List (ℕ × DiagnosticStatus)) (key : String) (type : ℕ)
    (description : String) (duration : ℕ)
    → IsRising lv
    → AllTimely lv now es
    → (r : DiagnosticStatusArray) × (b : DiagBuffer) × (get_and_clear_data lv now
          (add_all_diags lv es (new_buffer key type description duration))
        ≡ some (r, b))
      × IsSorted r
      × ((q : DiagnosticStatus → Bool)
          → count_if q r ≡ count_if (λ s. q s && is_fresh duration now s) (statuses_of es))
      × (b.buffer ≡ [])
unfolding get_and_clear_data update_buffer lookup
get_and_clear_data-window lv now es key type description duration rising timely =
    let b = new_buffer key type description duration in
    let c = add_all_diags lv es b in
    let d = c.buffer_duration in
    let same = duration-add_all_diags lv es b in
    let m = update_levels d now (all_levels lv) c.buffer in
    let known = all_levels-known lv in
    let (xs, e, n) =
      collect-Filled (all_levels lv) m []
        (Filled-update_levels d now (all_levels lv) (all_levels lv) c.buffer known) in
    (
      sort_by_stamp xs,
      record c { buffer = [] },
      ap (λ o. and_then o (λ ys. some (sort_by_stamp ys, record c { buffer = [] }))) e,
      sort-IsSorted xs,
      λ q. omega (
        arith,
        count_if-sort q xs,
        n q,
        total-fresh q d now (all_levels lv) (all_levels lv) c.buffer known,
        ap (λ t. total (λ s. q s && is_fresh t now s) (all_levels lv) c.buffer) same,
        total-add_all_diags lv rising now (λ s. q s && is_fresh duration now s) es b
            (λ s h. ground (arith, h)) timely,
      ),
      refl,
    )
