-- ===== src/Health/RateChecker.antt =====
-- autoware_health_checker/src/health_checker/rate_checker.cpp: how often a check is called. Times are
-- nanoseconds, the buffer duration is a number of milliseconds, and the clock is read once in a call.
use autoware_ai_common.Base.{
  Bool, List, Option, String, [], and_then, if◌then◌else◌, keep, length, ltb, none, some, ℕ, ◌*◌,
  ◌++◌, ◌+◌, ◌∷◌,
}
use autoware_ai_common.Base.Int.{pos}
use autoware_ai_common.Base.Double.{Double}
use autoware_ai_common.Messages.{DiagLevels}

pub record RateChecker (W : Type 0) : Type 0 where
  pub description : String
  pub start_time : ℕ
  pub data_times : List ℕ
  pub buffer_duration_msec : ℕ
  pub warn_rate : W
  pub error_rate : W
  pub fatal_rate : W

-- BUFFER_DURATION, 0.5 s
abbrev pub buffer_duration : ℕ
buffer_duration = 500

-- RateChecker::RateChecker
abbrev pub new_checker : {W : Type 0} → ℕ → ℕ → W → W → W → String → RateChecker W
new_checker now duration warn_rate error_rate fatal_rate description = record {
  description = description;
  start_time = now;
  data_times = [];
  buffer_duration_msec = duration;
  warn_rate = warn_rate;
  error_rate = error_rate;
  fatal_rate = fatal_rate;
}

-- ros::Duration(buffer_duration_)
abbrev pub nsec_of : ℕ → ℕ
nsec_of msec = msec * 1000000

abbrev pub is_recent : ℕ → ℕ → ℕ → Bool
is_recent duration now t = ltb now (t + nsec_of duration)

module _ {W : Type 0} where
  -- RateChecker::update
  unfoldable pub update_times : ℕ → RateChecker W → RateChecker W
  update_times now r = record r {
    data_times = keep (is_recent r.buffer_duration_msec now) r.data_times;
  }

  -- RateChecker::setRate
  unfoldable pub set_rate : ℕ → W → W → W → RateChecker W → RateChecker W
  unfolding update_times
  set_rate now warn_rate error_rate fatal_rate r = record (update_times now r) {
    warn_rate = warn_rate;
    error_rate = error_rate;
    fatal_rate = fatal_rate;
  }

  -- RateChecker::check
  unfoldable pub check : ℕ → RateChecker W → RateChecker W
  unfolding update_times
  check now r = let u = update_times now r in record u { data_times = u.data_times ++ now ∷ [] }

module _ {W : Type 0} ⦃d : Double W⦄ where
  abbrev pub rate_of : ℕ → ℕ → W
  rate_of calls msec = d.div (d.milli (pos (calls * 1000))) (d.milli (pos msec))

  -- RateChecker::getRate
  unfoldable pub get_rate : ℕ → RateChecker W → Option W × RateChecker W
  unfolding update_times
  get_rate now r =
      if ltb now (r.start_time + nsec_of r.buffer_duration_msec)
      then (none, r)
      else let u = update_times now r in
        (some (rate_of (length u.data_times) u.buffer_duration_msec), u)

  abbrev pub level_of_rate : DiagLevels → RateChecker W → W → ℕ
  level_of_rate lv r rate =
      if d.lt rate r.fatal_rate
      then lv.fatal
      else if d.lt rate r.error_rate
      then lv.error
      else if d.lt rate r.warn_rate
      then lv.warn
      else lv.ok

  -- RateChecker::getErrorLevelAndRate
  unfoldable pub get_error_level_and_rate :
      DiagLevels → ℕ → RateChecker W → Option (ℕ × W) × RateChecker W
  unfolding get_rate
  get_error_level_and_rate lv now r =
      let (rate, u) = get_rate now r in (and_then rate (λ x. some (level_of_rate lv u x, x)), u)

  -- RateChecker::getErrorLevel
  unfoldable pub get_error_level : DiagLevels → ℕ → RateChecker W → Option ℕ × RateChecker W
  unfolding get_error_level_and_rate
  get_error_level lv now r =
      let (result, r') = get_error_level_and_rate lv now r in (and_then result (λ x. some x.0), r')

-- What a node does with a checker, each at its time.
pub data RateEvent (W : Type 0) : Type 0 where
  called : RateEvent W
  asked : RateEvent W
  rates_set : W → W → W → RateEvent W

module _ {W : Type 0} ⦃d : Double W⦄ where
  unfoldable pub rate_step : DiagLevels → ℕ → RateEvent W → RateChecker W → RateChecker W
  rate_step lv now called r = check now r
  rate_step lv now asked r = (get_error_level_and_rate lv now r).1
  rate_step lv now (rates_set w e f) r = set_rate now w e f r

  unfoldable pub rate_history : DiagLevels → List (ℕ × RateEvent W) → RateChecker W → RateChecker W
  rate_history lv [] r = r
  rate_history lv ((now, e) ∷ es) r = rate_history lv es (rate_step lv now e r)
