-- ===== src/RosObserver/StopRequest.antt =====
-- The stop request to the drive recorder, over the poll loop of ros_observer/src/ros_observer.cpp and
-- the clients of ros_observer/lib/lib_ros_observer.cpp.
use autoware_ai_common.Base.{
  Bool, Bool-cases, Exists, List, Option, [], arith, false, if◌then◌else◌, inl, inr, none, refl,
  some, suc, sym, true, zero, ℕ, ◌↔◌, ◌∙◌, ◌∷◌, ◌≡◌,
}
use autoware_ai_common.RosObserver.Memory.{
  Module, Shm, ShmVitalCounter, counter, error_detected, put_counter, ros_observer,
}
use autoware_ai_common.RosObserver.Client.{
  ShmVitalMonitor, init_counter, on_counter, run, update_counter,
}
use autoware_ai_common.RosObserver.Events.{
  Event, clear, client, history, poll_round, step, with_shm,
}
use autoware_ai_common.RosObserver.{Observer, error_in, poll, poll_counters, polls, report, start}
use autoware_ai_common.RosObserver.Detection.{IsDead, polls-detects, watched}
use autoware_ai_common.RosObserver.Bounds.{history-start-IsBounded}

-- A poll raises the request when an error appears, drops it when the error goes, and leaves it alone
-- while nothing changes.
pub stop_req-poll :
    (o : Observer)
    → (poll o).shm.stop_req_dr ≡ (
        if (poll o).error_prev
        then (if o.error_prev then o.shm.stop_req_dr else true)
        else if o.error_prev
        then false
        else o.shm.stop_req_dr)
unfolding poll
stop_req-poll o = by_error (error_in (poll_counters o.shm)) o.error_prev
  where
    by_error :
        (error prev : Bool)
        → (report error prev (poll_counters o.shm)).stop_req_dr ≡ (
            if error
            then (if prev then o.shm.stop_req_dr else true)
            else if prev
            then false
            else o.shm.stop_req_dr)
    by_error true prev = ground arith
    by_error false prev = ground arith

-- A stop request stands only while the last poll saw an error.
pub record IsJustified (o : Observer) : Type 0 where
  pub justified : o.shm.stop_req_dr ≡ true → o.error_prev ≡ true

poll-IsJustified : (o : Observer) → IsJustified o → IsJustified (poll o)
poll-IsJustified o j = record { justified = ground (arith, stop_req-poll o, j.justified) }

stop_req-put_counter :
    (m : Module) (c : ShmVitalCounter) (s : Shm) → (put_counter m c s).stop_req_dr ≡ s.stop_req_dr
unfolding put_counter
stop_req-put_counter ros_observer c s = refl
stop_req-put_counter _ c s = refl

stop_req-on_counter :
    (o : Observer) (m : Module) (f : ShmVitalCounter → ShmVitalCounter)
    → (with_shm o (on_counter m f (some o.shm))).shm.stop_req_dr ≡ o.shm.stop_req_dr
stop_req-on_counter o m f = unfold on_counter in stop_req-put_counter m _ o.shm

-- No module's monitor touches the request.
stop_req-run :
    (o : Observer) (m : ShmVitalMonitor)
    → (with_shm o (run m (some o.shm)).1).shm.stop_req_dr ≡ o.shm.stop_req_dr
unfolding run
stop_req-run o m = elim (Bool-cases m.is_opened) [
  | inl opened ↦
      rw opened (stop_req-on_counter o m.mod_name (update_counter m.mode m.polling_interval_msec))
  | inr not_opened ↦
      rw not_opened (stop_req-on_counter o m.mod_name (init_counter m.mode m.polling_interval_msec))
]

error_prev-with_shm : (o : Observer) (shm : Option Shm) → (with_shm o shm).error_prev ≡ o.error_prev
error_prev-with_shm o none = refl
error_prev-with_shm o (some s) = refl

step-IsJustified : (o : Observer) (e : Event) → IsJustified o → IsJustified (step o e)
unfolding step
step-IsJustified o poll_round j = poll-IsJustified o j
step-IsJustified o (client m) j = record {
  justified =
      ground (arith, j.justified, stop_req-run o m, error_prev-with_shm o (run m (some o.shm)).1);
}
step-IsJustified o (clear d) j = elim (Bool-cases d.is_opened) [
  | inl opened ↦ rw opened (record { justified = ground arith })
  | inr not_opened ↦ rw not_opened (record { justified = j.justified })
]

history-IsJustified : (o : Observer) (es : List Event) → IsJustified o → IsJustified (history o es)
unfolding history
history-IsJustified o [] j = j
history-IsJustified o (e ∷ es) j = history-IsJustified (step o e) es (step-IsJustified o e j)

-- After any sequence of polls, monitor calls and clears from the start of the observer, the stop
-- request is set only if the last poll saw an error.
pub history-start-IsJustified :
    (es : List Event)
    → (history start es).shm.stop_req_dr ≡ true
    → (history start es).error_prev ≡ true
history-start-IsJustified es =
    (history-IsJustified start es (record { justified = unfold start in (λ e. e) })).justified

-- No event of a sequence clears the request.
abbrev pub NeverCleared : List Event → Type 0
NeverCleared [] = Unit
NeverCleared (poll_round ∷ es) = NeverCleared es
NeverCleared (client m ∷ es) = NeverCleared es
NeverCleared (clear d ∷ es) = ⊥

-- The request is what the last poll saw.
abbrev Agrees : Observer → Type 0
Agrees o = o.shm.stop_req_dr ≡ o.error_prev

poll-Agrees : (o : Observer) → Agrees o → Agrees (poll o)
poll-Agrees o a = ground (arith, stop_req-poll o, a)

history-Agrees :
    (o : Observer) (es : List Event) → NeverCleared es → Agrees o → Agrees (history o es)
unfolding history step
history-Agrees o [] n a = a
history-Agrees o (poll_round ∷ es) n a = history-Agrees (poll o) es n (poll-Agrees o a)
history-Agrees o (client m ∷ es) n a =
    history-Agrees (with_shm o (run m (some o.shm)).1) es n
      (stop_req-run o m ∙ a ∙ sym (error_prev-with_shm o (run m (some o.shm)).1))
history-Agrees o (clear d ∷ es) n a = absurd n

polls-Agrees : (n : ℕ) (o : Observer) → Agrees o → Agrees (polls n o)
unfolding polls
polls-Agrees zero o a = a
polls-Agrees (suc n) o a = poll-Agrees (polls n o) (polls-Agrees n o a)

-- The status of the health aggregator and the memory of the loop are set together.
poll-modstatus :
    (o : Observer) → ((poll o).error_prev ≡ true) ↔ ((poll o).shm.cnt_ha.modstatus ≡ error_detected)
unfolding poll
poll-modstatus o = by_error (error_in (poll_counters o.shm)) o.error_prev
  where
    by_error :
        (error prev : Bool)
        → (error ≡ true)
          ↔ ((report error prev (poll_counters o.shm)).cnt_ha.modstatus ≡ error_detected)
    by_error true prev = (λ e. refl, λ e. refl)
    by_error false prev = (λ e. absurd (cc e), λ e. absurd (cc e))

-- From the start of the observer, with any calls of the monitors and polls but no clear, the request
-- to stop is set after one or more further polls without a monitor call between them if and only if a
-- watched module is activated and its counter, ten more for each of these polls and held at
-- SHM_COUNTER_MAX, is over its threshold.
pub stop_req-detects :
    (n : ℕ) (es : List Event)
    → NeverCleared es
    → ((polls (suc n) (history start es)).shm.stop_req_dr ≡ true)
      ↔ Exists (λ m. IsDead (suc n) (counter m (history start es).shm)) watched
stop_req-detects n es c =
    let o = history start es in
    let agreed = polls-Agrees (suc n) o (history-Agrees start es c (unfold start in refl)) in
    let detected = polls-detects n o (history-start-IsBounded es) in
    let noticed : ((polls (suc n) o).error_prev ≡ true)
        ↔ ((polls (suc n) o).shm.cnt_ha.modstatus ≡ error_detected) =
      unfold polls in poll-modstatus (polls n o) in
    (λ e. detected.0 (noticed.0 (sym agreed ∙ e)), λ x. agreed ∙ noticed.1 (detected.1 x))
