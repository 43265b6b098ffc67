-- ===== src/Health/Thresholds.antt =====
-- The levels that the checks of autoware_health_checker/src/health_checker/health_checker.cpp find.
use autoware_ai_common.Base.{
  Bool, Option, String, and_then, ap, arith, false, if◌then◌else◌, is_some, none, refl, some, true,
  ℕ, ◌∙◌, ◌≡◌,
}
use autoware_ai_common.Base.Text.{eq_iff, str_eq, string_key}
use autoware_ai_common.Base.Map.{assign, lookup, lookup-assign, or_else}
use autoware_ai_common.Messages.{DiagLevels, IsRising}
use autoware_ai_common.Health.Values.{
  Params, Summary, ValueManager, beq_summary, children, first_of, get_value, is_not_found,
  level_name, set_default_value, summary_key,
}
use autoware_ai_common.Health.Checker.{Thresholds}
use autoware_ai_common.Health.Results.{
  Result, empty_optional, on_return, or_fail, out_of_range, returned,
}

-- What the server's parameters have for a threshold.
abbrev pub setting : {W : Type 0} → String → String → String → Params W → Option (Option W)
setting key thresh_type name params =
    and_then (children key params) (λ types. and_then (lookup thresh_type types) (lookup name))

-- No parameter, or a double.
abbrev pub is_double : {W : Type 0} → Option (Option W) → Bool
is_double none = true
is_double (some o) = is_some o

-- The server's thresholds of a key are doubles.
abbrev pub IsNumeric : {W : Type 0} → String → Params W → Type 0
IsNumeric key params =
    (thresh_type name : String) → is_double (setting key thresh_type name params) ≡ true

abbrev pub double_or : {W : Type 0} → W → Option (Option W) → W
double_or x none = x
double_or x (some o) = or_else o x

module _ {W : Type 0} where
  -- The threshold that counts: the server's, or else the code's.
  abbrev pub threshold : String → String → String → W → ValueManager W → W
  threshold key thresh_type name default v =
      double_or default (setting key thresh_type name v.params)

  first_of-returned :
      {T : Type 0} (o : Option T) (f : T → Option (Option W)) (y : Result W) (x : W)
      → is_some o ≡ true
      → is_double (and_then o f) ≡ true
      → y ≡ returned x
      → on_return (or_fail empty_optional o) (λ t. first_of (f t) y)
        ≡ returned (double_or x (and_then o f))
  first_of-returned none f y x h n e = absurd (cc h)
  first_of-returned (some t) f y x h n e = first_of-eq (f t) y x n e
    where
      first_of-eq :
          (o : Option (Option W)) (y : Result W) (x : W)
          → is_double o ≡ true
          → y ≡ returned x
          → first_of o y ≡ returned (double_or x o)
      first_of-eq none y x n e = e
      first_of-eq (some none) y x n e = absurd (cc n)
      first_of-eq (some (some z)) y x n e = refl

  pub get_value-eq :
      (lv : DiagLevels) (key thresh_type name : String) (level : ℕ) (x : W) (v : ValueManager W)
      → is_not_found key v ≡ false
      → IsNumeric key v.params
      → level_name lv level ≡ some name
      → lookup (key, thresh_type, level) v.error_details ≡ some x
      → get_value lv key thresh_type level v ≡ returned (threshold key thresh_type name x v)
  unfolding get_value
  get_value-eq lv key thresh_type name level x v h n l e =
      let y = or_fail out_of_range (lookup (key, thresh_type, level) v.error_details) in
      ap
        (λ o. on_return (or_fail empty_optional o) (λ n.
          on_return (or_fail empty_optional (children key v.params))
            (λ types. first_of (and_then (lookup thresh_type types) (lookup n)) y)))
        l
      ∙ first_of-returned (children key v.params)
          (λ types. and_then (lookup thresh_type types) (lookup name)) y x (ground (arith, h))
          (n thresh_type name) (ap (or_fail out_of_range) e)

-- The thresholds that a check sets count for its levels, where the server has none.
pub record Counts {W : Type 0} (lv : DiagLevels) (key thresh_type : String) (t : Thresholds W)
    (v : ValueManager W) : Type 0 where
  pub fatal_counts :
      get_value lv key thresh_type lv.fatal v
      ≡ returned (threshold key thresh_type "fatal" t.fatal_value v)
  pub error_counts :
      get_value lv key thresh_type lv.error v
      ≡ returned (threshold key thresh_type "error" t.error_value v)
  pub warn_counts :
      get_value lv key thresh_type lv.warn v
      ≡ returned (threshold key thresh_type "warn" t.warn_value v)

pub level_name-IsRising :
    (lv : DiagLevels)
    → IsRising lv
    → (level_name lv lv.fatal ≡ some "fatal")
      × (level_name lv lv.error ≡ some "error")
      × (level_name lv lv.warn ≡ some "warn")
level_name-IsRising lv r = ground (arith, r.warn_error, r.error_fatal)

pub detail :
    {W : Type 0} (lv : DiagLevels) (key thresh_type : String) (t : Thresholds W)
    (v : ValueManager W) (key' thresh_type' : String) (level : ℕ)
    → lookup
        (key', thresh_type', level)
        (set_default_value lv key thresh_type t.warn_value t.error_value t.fatal_value
          v).error_details
      ≡ (if beq_summary (key, thresh_type, lv.fatal) (key', thresh_type', level)
          then some t.fatal_value
          else if beq_summary (key, thresh_type, lv.error) (key', thresh_type', level)
          then some t.error_value
          else if beq_summary (key, thresh_type, lv.warn) (key', thresh_type', level)
          then some t.warn_value
          else lookup (key', thresh_type', level) v.error_details)
unfolding set_default_value
detail lv key thresh_type t v key' thresh_type' level =
    let j : Summary = (key', thresh_type', level) in
    let a : Summary = (key, thresh_type, lv.warn) in
    let b : Summary = (key, thresh_type, lv.error) in
    let c : Summary = (key, thresh_type, lv.fatal) in
    let m1 = assign a t.warn_value v.error_details in
    let m2 = assign b t.error_value m1 in
    lookup-assign c j t.fatal_value m2
    ∙ ap (λ o. if beq_summary c j then some t.fatal_value else o)
        (lookup-assign b j t.error_value m1
          ∙ ap (λ o. if beq_summary b j then some t.error_value else o)
              (lookup-assign a j t.warn_value v.error_details))

pub set_default_value-Counts :
    {W : Type 0} (lv : DiagLevels) (key thresh_type : String) (t : Thresholds W)
    (v : ValueManager W)
    → IsRising lv
    → is_not_found key v ≡ false
    → IsNumeric key v.params
    → Counts lv key thresh_type t
        (set_default_value lv key thresh_type t.warn_value t.error_value t.fatal_value v)
unfolding set_default_value
set_default_value-Counts lv key thresh_type t v r h num =
    let u = set_default_value lv key thresh_type t.warn_value t.error_value t.fatal_value v in
    let (f, e, w) = level_name-IsRising lv r in
    record {
      fatal_counts = get_value-eq lv key thresh_type "fatal" lv.fatal t.fatal_value u h num f (
          detail lv key thresh_type t v key thresh_type lv.fatal
          ∙ ground
              (arith, eq_iff key key, eq_iff thresh_type thresh_type, r.warn_error, r.error_fatal));
      error_counts = get_value-eq lv key thresh_type "error" lv.error t.error_value u h num e (
          detail lv key thresh_type t v key thresh_type lv.error
          ∙ ground
              (arith, eq_iff key key, eq_iff thresh_type thresh_type, r.warn_error, r.error_fatal));
      warn_counts = get_value-eq lv key thresh_type "warn" lv.warn t.warn_value u h num w (
          detail lv key thresh_type t v key thresh_type lv.warn
          ∙ ground
              (arith, eq_iff key key, eq_iff thresh_type thresh_type, r.warn_error, r.error_fatal));
    }

-- Thresholds of another type do not touch those of the first.
pub set_default_value-Counts_other :
    {W : Type 0} (lv : DiagLevels) (key thresh_type other : String) (t u : Thresholds W)
    (v : ValueManager W)
    → IsRising lv
    → is_not_found key v ≡ false
    → IsNumeric key v.params
    → str_eq other thresh_type ≡ false
    → Counts lv key thresh_type t (
        set_default_value lv key other u.warn_value u.error_value u.fatal_value
          (set_default_value lv key thresh_type t.warn_value t.error_value t.fatal_value v))
unfolding set_default_value
set_default_value-Counts_other lv key thresh_type other t u v r h num o =
    let v1 = set_default_value lv key thresh_type t.warn_value t.error_value t.fatal_value v in
    let v2 = set_default_value lv key other u.warn_value u.error_value u.fatal_value v1 in
    let (f, e, w) = level_name-IsRising lv r in
    record {
      fatal_counts = get_value-eq lv key thresh_type "fatal" lv.fatal t.fatal_value v2 h num f (
          detail lv key other u v1 key thresh_type lv.fatal
          ∙ ground (
            arith,
            detail lv key thresh_type t v key thresh_type lv.fatal,
            eq_iff key key,
            eq_iff thresh_type thresh_type,
            r.warn_error,
            r.error_fatal,
            o,
          ));
      error_counts = get_value-eq lv key thresh_type "error" lv.error t.error_value v2 h num e (
          detail lv key other u v1 key thresh_type lv.error
          ∙ ground (
            arith,
            detail lv key thresh_type t v key thresh_type lv.error,
            eq_iff key key,
            eq_iff thresh_type thresh_type,
            r.warn_error,
            r.error_fatal,
            o,
          ));
      warn_counts = get_value-eq lv key thresh_type "warn" lv.warn t.warn_value v2 h num w (
          detail lv key other u v1 key thresh_type lv.warn
          ∙ ground (
            arith,
            detail lv key thresh_type t v key thresh_type lv.warn,
            eq_iff key key,
            eq_iff thresh_type thresh_type,
            r.warn_error,
            r.error_fatal,
            o,
          ));
    }
