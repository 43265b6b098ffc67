-- ===== src/Health/Values.antt =====
-- autoware_health_checker/src/health_checker/param_manager.cpp and value_manager.cpp: the thresholds that
-- the parameter server gives and those that the code gives. The parameter `health_checker` is a tree of
-- three levels, key, threshold type and level; `none` is an invalid one, when the server has none. A
-- value of the first two levels that is no struct has no members, and is an empty one here; a threshold
-- of the server that is no double is `none`: its cast throws.
use autoware_ai_common.Base.{
  Bool, List, Option, String, [], and_then, arith, if◌then◌else◌, is_some, ltb, none, not, some,
  true, ℕ, ◌&&◌, ◌==◌, ◌↔◌, ◌∷◌, ◌≡◌,
}
use autoware_ai_common.Base.Text.{eq_iff, str_eq, str_less, string_key}
use autoware_ai_common.Base.Map.{Key, Map, assign, emplace, lookup}
use autoware_ai_common.Messages.{DiagLevels}
use autoware_ai_common.Health.Results.{
  Result, empty_optional, on_return, or_fail, out_of_range, wrong_type,
}

abbrev pub Params : Type 0 → Type 0
Params W = Option (Map String (Map String (Map String (Option W))))

-- A threshold's key, type and level.
abbrev pub Summary : Type 0
Summary = String × String × ℕ

abbrev pub beq_summary : Summary → Summary → Bool
beq_summary (k, t, l) (k', t', l') = str_eq k k' && (str_eq t t' && (l == l'))

pub beq_summary_iff : (a b : Summary) → (beq_summary a b ≡ true) ↔ (a ≡ b)
beq_summary_iff (k, t, l) (k', t', l') = ground (arith, eq_iff k k', eq_iff t t')

abbrev pub less_summary : Summary → Summary → Bool
less_summary (k, t, l) (k', t', l') =
    if str_eq k k' then (if str_eq t t' then ltb l l' else str_less t t') else str_less k k'

instance abbrev pub summary_key : Key Summary
summary_key = record { beq = beq_summary; less = less_summary; beq_iff = beq_summary_iff }

pub record ValueManager (W : Type 0) : Type 0 where
  pub cached_candidate_key : Map String (Unit {0})
  pub previous_keys : Map String (Unit {0})
  pub params : Params W
  pub error_details : Map Summary W

-- The keys of the loop of setParams that are announced.
unfoldable pub announced : Map String (Unit {0}) → Map String (Unit {0}) → List String
announced previous [] = []
announced previous ((key, u) ∷ rest) =
    if is_some (lookup key previous) then announced previous rest else key ∷ announced previous rest

unfoldable pub insert_keys : Map String (Unit {0}) → Map String (Unit {0}) → Map String (Unit {0})
insert_keys [] previous = previous
insert_keys ((key, u) ∷ rest) previous = insert_keys rest (emplace key tt previous)

-- The server's threshold, if there is one, or else the code's.
abbrev pub first_of : {W : Type 0} → Option (Option W) → Result W → Result W
first_of none y = y
first_of (some x) y = or_fail wrong_type x

abbrev pub level_name : DiagLevels → ℕ → Option String
level_name lv level =
    if level == lv.warn
    then some "warn"
    else if level == lv.error
    then some "error"
    else if level == lv.fatal
    then some "fatal"
    else none

module _ {W : Type 0} where
  -- ParamManager::addCandidate
  abbrev pub add_candidate : String → ValueManager W → ValueManager W
  add_candidate key v = record v { cached_candidate_key = emplace key tt v.cached_candidate_key }

  abbrev pub children : String → Params W → Option (Map String (Map String (Option W)))
  children key params = and_then params (lookup key)

  -- ParamManager::isNotFound(key)
  abbrev pub is_not_found : String → ValueManager W → Bool
  is_not_found key v = not (is_some (children key v.params))

  -- ParamManager::isNotFound(ns, key)
  abbrev pub is_not_found_in : String → String → ValueManager W → Bool
  is_not_found_in ns key v = not (is_some (and_then (children ns v.params) (lookup key)))

  -- ParamManager::getParams, the timer's call
  abbrev pub reload_params : Params W → ValueManager W → ValueManager W
  reload_params params v = record v { params = params }

  -- ParamManager::setParams: the parameters "diag_reference/" + key that it sets to "default"
  unfoldable pub set_params : ValueManager W → List String × ValueManager W
  unfolding announced insert_keys
  set_params v = (
    announced v.previous_keys v.cached_candidate_key,
    record v {
      cached_candidate_key = [];
      previous_keys = insert_keys v.cached_candidate_key v.previous_keys;
    },
  )

  -- ValueManager::setDefaultValue
  unfoldable pub set_default_value :
      DiagLevels → String → String → W → W → W → ValueManager W → ValueManager W
  set_default_value lv key thresh_type warn_value error_value fatal_value v = record v {
    error_details =
        assign (key, thresh_type, lv.fatal) fatal_value
          (assign (key, thresh_type, lv.error) error_value
            (assign (key, thresh_type, lv.warn) warn_value v.error_details));
  }

  -- ValueManager::getValue, followed by `get` on the optional
  unfoldable pub get_value : DiagLevels → String → String → ℕ → ValueManager W → Result W
  get_value lv key thresh_type level v =
      on_return (or_fail empty_optional (level_name lv level)) (λ name.
        on_return (or_fail empty_optional (children key v.params)) (λ types.
          first_of (and_then (lookup thresh_type types) (lookup name))
            (or_fail out_of_range (lookup (key, thresh_type, level) v.error_details))))
