-- ===== src/RosObserver/Bounds.antt =====
-- How high the counters of ros_observer can be.
use autoware_ai_common.Base.{
  Bool, Bool-cases, List, Option, [], arith, false, inl, inr, none, some, true, ℕ, ◌∷◌, ◌≤◌,
}
use autoware_ai_common.RosObserver.Memory.{
  Module, Shm, ShmVitalCounter, advanced, counter, put_counter, ros_observer, shm_counter_max,
}
use autoware_ai_common.RosObserver.Client.{
  ShmVitalMonitor, VitalMonitorMode, cnt_clear, cnt_mon, init_counter, on_counter, run,
  update_counter,
}
use autoware_ai_common.RosObserver.Events.{
  Event, clear, client, history, poll_round, step, with_shm,
}
use autoware_ai_common.RosObserver.{Observer, poll, poll_counters, report, start}

abbrev pub IsLow : ShmVitalCounter → Type 0
IsLow c = c.value ≤ shm_counter_max

pub record IsBounded (s : Shm) : Type 0 where
  pub ro : IsLow s.cnt_ro
  pub ha : IsLow s.cnt_ha
  pub eh : IsLow s.cnt_eh
  pub tg : IsLow s.cnt_tg
  pub ymc : IsLow s.cnt_ymc
  pub as_driver : IsLow s.cnt_as

pub advanced-IsLow : (interval : ℕ) (c : ShmVitalCounter) → advanced interval c ≤ shm_counter_max
unfolding advanced
advanced-IsLow interval c = ground arith

pub poll_counters-IsBounded : {s : Shm} → IsBounded s → IsBounded (poll_counters s)
unfolding poll_counters
poll_counters-IsBounded {s} b = record {
  ro = omega arith;
  ha = advanced-IsLow _ s.cnt_ha;
  eh = advanced-IsLow _ s.cnt_eh;
  tg = advanced-IsLow _ s.cnt_tg;
  ymc = advanced-IsLow _ s.cnt_ymc;
  as_driver = advanced-IsLow _ s.cnt_as;
}

report-IsBounded : (error prev : Bool) (s : Shm) → IsBounded s → IsBounded (report error prev s)
unfolding report
report-IsBounded true prev s b = omega arith
report-IsBounded false prev s b = omega arith

pub poll-IsBounded : (o : Observer) → IsBounded o.shm → IsBounded (poll o).shm
poll-IsBounded o b =
    unfold poll in report-IsBounded _ o.error_prev _ (poll_counters-IsBounded {s = o.shm} b)

put_counter-IsBounded :
    (m : Module) (c : ShmVitalCounter) (s : Shm)
    → IsLow c
    → IsBounded s
    → IsBounded (put_counter m c s)
unfolding put_counter
put_counter-IsBounded ros_observer c s h b = omega arith
put_counter-IsBounded _ c s h b = omega arith

pub counter-IsLow : (m : Module) (s : Shm) → IsBounded s → IsLow (counter m s)
unfolding counter
counter-IsLow ros_observer s b = omega arith
counter-IsLow _ s b = omega arith

init_counter-IsLow :
    (mode : VitalMonitorMode) (interval : ℕ) (c : ShmVitalCounter)
    → IsLow c
    → IsLow (init_counter mode interval c)
unfolding init_counter
init_counter-IsLow cnt_clear interval c h = omega arith
init_counter-IsLow cnt_mon interval c h = h

update_counter-IsLow :
    (mode : VitalMonitorMode) (interval : ℕ) (c : ShmVitalCounter)
    → IsLow (update_counter mode interval c)
unfolding update_counter
update_counter-IsLow cnt_clear interval c = omega arith
update_counter-IsLow cnt_mon interval c = advanced-IsLow interval c

-- The memory that an operation leaves, where there is one.
abbrev AllLow : Option Shm → Type 0
AllLow none = Unit
AllLow (some s) = IsBounded s

on_counter-AllLow :
    (m : Module) (f : ShmVitalCounter → ShmVitalCounter) (s : Shm)
    → ((c : ShmVitalCounter) → IsLow c → IsLow (f c))
    → IsBounded s
    → AllLow (on_counter m f (some s))
on_counter-AllLow m f s keeps b =
    unfold on_counter in put_counter-IsBounded m _ s (keeps _ (counter-IsLow m s b)) b

run-AllLow : (m : ShmVitalMonitor) (s : Shm) → IsBounded s → AllLow (run m (some s)).1
unfolding run
run-AllLow m s b = elim (Bool-cases m.is_opened) [
  | inl opened ↦ rw opened (
      on_counter-AllLow m.mod_name (update_counter m.mode m.polling_interval_msec) s
        (λ c _. update_counter-IsLow m.mode m.polling_interval_msec c) b)
  | inr not_opened ↦ rw not_opened (
      on_counter-AllLow m.mod_name (init_counter m.mode m.polling_interval_msec) s
        (λ c. init_counter-IsLow m.mode m.polling_interval_msec c) b)
]

with_shm-IsBounded :
    (o : Observer) (shm : Option Shm)
    → AllLow shm
    → IsBounded o.shm
    → IsBounded (with_shm o shm).shm
with_shm-IsBounded o none low b = b
with_shm-IsBounded o (some s) low b = low

pub step-IsBounded : (o : Observer) (e : Event) → IsBounded o.shm → IsBounded (step o e).shm
unfolding step
step-IsBounded o poll_round b = poll-IsBounded o b
step-IsBounded o (client m) b = with_shm-IsBounded o _ (run-AllLow m o.shm b) b
step-IsBounded o (clear d) b = elim (Bool-cases d.is_opened) [
  | inl opened ↦ rw opened (omega arith)
  | inr not_opened ↦ rw not_opened (omega arith)
]

history-IsBounded :
    (o : Observer) (es : List Event) → IsBounded o.shm → IsBounded (history o es).shm
unfolding history
history-IsBounded o [] b = b
history-IsBounded o (e ∷ es) b = history-IsBounded (step o e) es (step-IsBounded o e b)

-- After any sequence of polls, monitor calls of any module, interval and mode, and stop-request
-- clears, in any order from the start of the observer, no counter is above SHM_COUNTER_MAX.
pub history-start-IsBounded : (es : List Event) → IsBounded (history start es).shm
history-start-IsBounded es = history-IsBounded start es (unfold start in omega arith)
