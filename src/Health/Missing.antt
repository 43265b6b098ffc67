-- ===== src/Health/Missing.antt =====
-- Which thresholds of a rate are missing, and how a call of autoware_health_checker/src/health_checker then
-- fails.
use autoware_ai_common.Base.{
  Bool, Option, String, and_then, ap, arith, false, if◌then◌else◌, is_some, none, refl, some, true,
  ℕ, ◌&&◌, ◌||◌, ◌∙◌, ◌≡◌,
}
use autoware_ai_common.Base.Map.{lookup}
use autoware_ai_common.Messages.{DiagLevels}
use autoware_ai_common.Health.Values.{
  ValueManager, children, first_of, get_value, is_not_found, level_name, summary_key,
}
use autoware_ai_common.Health.Thresholds.{IsNumeric, is_double, setting}
use autoware_ai_common.Health.Results.{
  Fault, Result, empty_optional, failed, fault_of, on_return, or_fail, out_of_range, returned,
}
use autoware_ai_common.Base.Text.{string_key}

-- The server's parameters or the code's thresholds have one for the rate of a key at a level.
abbrev pub has_rate : {W : Type 0} → String → String → ℕ → ValueManager W → Bool
has_rate key name level v =
    is_some (setting key "rate" name v.params)
    || is_some (lookup (key, "rate", level) v.error_details)

abbrev pub is_rated : {W : Type 0} → DiagLevels → String → ValueManager W → Bool
is_rated lv key v =
    has_rate key "warn" lv.warn v
    && (has_rate key "error" lv.error v && has_rate key "fatal" lv.fatal v)

first_of-fault :
    {T W : Type 0} (o : Option T) (f : T → Option (Option W)) (d : Option W)
    → is_some o ≡ true
    → is_double (and_then o f) ≡ true
    → fault_of (on_return (or_fail empty_optional o) (λ t. first_of (f t) (or_fail out_of_range d)))
      ≡ (if is_some (and_then o f) || is_some d then none else some out_of_range)
first_of-fault none f d h n = absurd (cc h)
first_of-fault (some t) f d h n = of_setting (f t) d n
  where
    of_setting :
        {W : Type 0} (o : Option (Option W)) (d : Option W)
        → is_double o ≡ true
        → fault_of (first_of o (or_fail out_of_range d))
          ≡ (if is_some o || is_some d then none else some out_of_range)
    of_setting none none n = refl
    of_setting none (some x) n = refl
    of_setting (some none) d n = absurd (cc n)
    of_setting (some (some z)) d n = refl

pub get_value-fault :
    {W : Type 0} (lv : DiagLevels) (key name : String) (level : ℕ) (v : ValueManager W)
    → is_not_found key v ≡ false
    → IsNumeric key v.params
    → level_name lv level ≡ some name
    → fault_of (get_value lv key "rate" level v)
      ≡ (if has_rate key name level v then none else some out_of_range)
unfolding get_value
get_value-fault lv key name level v h num l =
    let d = lookup (key, "rate", level) v.error_details in
    ap
      (λ o. fault_of (
        on_return (or_fail empty_optional o) (λ n.
          on_return (or_fail empty_optional (children key v.params)) (λ types.
            first_of (and_then (lookup "rate" types) (lookup n)) (or_fail out_of_range d)))))
      l
    ∙ first_of-fault (children key v.params) (λ types. and_then (lookup "rate" types) (lookup name))
        d (ground (arith, h)) (num "rate" name)

pub on_return-fault :
    {A B : Type 0} (r : Result A) (k : A → Result B) (b : Bool) (e : Fault) (z : Option Fault)
    → fault_of r ≡ (if b then none else some e)
    → ((x : A) → fault_of (k x) ≡ z)
    → fault_of (on_return r k) ≡ (if b then z else some e)
on_return-fault (returned x) k true e z p q = q x
on_return-fault (returned x) k false e z p q = absurd (cc p)
on_return-fault (failed f) k true e z p q = absurd (cc p)
on_return-fault (failed f) k false e z p q = p

pub or_fail-fault :
    {A B : Type 0} (o : Option A) (e : Fault) (k : A → B)
    → fault_of (on_return (or_fail e o) (λ x. returned (k x)))
      ≡ (if is_some o then none else some e)
or_fail-fault none e k = refl
or_fail-fault (some x) e k = refl

pub if_and :
    {A : Type 0} (a b c : Bool) (x y : A)
    → (if a then (if b then (if c then x else y) else y) else y) ≡ (if a && (b && c) then x else y)
if_and true true true x y = refl
if_and true true false x y = refl
if_and true false c x y = refl
if_and false b c x y = refl

pub fault_of-on_return :
    {A B : Type 0} (r : Result A) (f : A → B)
    → fault_of (on_return r (λ x. returned (f x))) ≡ fault_of r
fault_of-on_return (returned x) f = refl
fault_of-on_return (failed e) f = refl
