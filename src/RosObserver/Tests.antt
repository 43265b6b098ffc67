-- ===== src/RosObserver/Tests.antt =====
-- Runs of ros_observer on concrete inputs, and each of its results at one of them.
use autoware_ai_common.Base.{Exists, List, [], arith, false, none, refl, true, ◌↔◌, ◌∷◌, ◌≡◌}
use autoware_ai_common.RosObserver.Memory.{counter, emergency_handler, error_detected}
use autoware_ai_common.RosObserver.Client.{
  ShmVitalMonitor, cnt_clear, is_error_detected, new_monitor,
}
use autoware_ai_common.RosObserver.Events.{Event, clear, client, history, poll_round, step}
use autoware_ai_common.RosObserver.Bounds.{IsBounded, history-start-IsBounded, step-IsBounded}
use autoware_ai_common.RosObserver.StopRequest.{history-start-IsJustified, stop_req-detects}
use autoware_ai_common.RosObserver.Detection.{
  IsDead, deserted-error_detected, polls-detects, watched,
}
use autoware_ai_common.RosObserver.{Observer, poll, polls, start}

-- The emergency handler at 30 Hz.
abbrev handler : ShmVitalMonitor
handler = new_monitor emergency_handler 33 cnt_clear

abbrev opened_handler : ShmVitalMonitor
opened_handler = record handler { is_opened = true }

abbrev running : Observer
running = step start (client handler)

-- Nine silent polls are within the threshold of 99 ms, the tenth is not.
ninth_poll : ((polls 9 running).error_prev ≡ false) × ((polls 10 running).error_prev ≡ true)
unfolding step polls start
ninth_poll = (refl, refl)

-- A sign of life between the polls takes the error back, and the stop request with it.
recovery : (poll (step (polls 10 running) (client opened_handler))).shm.stop_req_dr ≡ false
unfolding step polls start
recovery = refl

-- A memory that has gone is an error to a monitor that had opened it.
gone : (is_error_detected opened_handler none).1 ≡ true
unfolding is_error_detected
gone = refl

abbrev events : List Event
events = client handler ∷ poll_round ∷ clear (record { is_opened = true }) ∷ poll_round ∷ []

abbrev poll_rounds : List Event
poll_rounds =
    poll_round ∷ poll_round ∷ poll_round ∷ poll_round ∷ poll_round ∷ poll_round ∷ poll_round
    ∷ poll_round ∷ poll_round ∷ poll_round ∷ []

start-IsBounded : IsBounded start.shm
unfolding start
start-IsBounded = omega arith

running-IsBounded : IsBounded running.shm
running-IsBounded = step-IsBounded start (client handler) start-IsBounded

history-start-IsBounded_example : IsBounded (history start events).shm
history-start-IsBounded_example = history-start-IsBounded events

history-start-IsJustified_example : (history start (client handler ∷ poll_rounds)).error_prev ≡ true
history-start-IsJustified_example =
    history-start-IsJustified (client handler ∷ poll_rounds) requested
  where
    requested : (history start (client handler ∷ poll_rounds)).shm.stop_req_dr ≡ true
    requested = unfold history step start in refl

stop_req-detects_example :
    ((polls 10 (history start (client handler ∷ poll_round ∷ []))).shm.stop_req_dr ≡ true)
    ↔ Exists
        (λ m. IsDead 10 (counter m (history start (client handler ∷ poll_round ∷ [])).shm))
        watched
stop_req-detects_example = stop_req-detects 9 (client handler ∷ poll_round ∷ []) tt

polls-detects_example :
    ((polls 10 running).shm.cnt_ha.modstatus ≡ error_detected)
    ↔ Exists (λ m. IsDead 10 (counter m running.shm)) watched
polls-detects_example = polls-detects 9 running running-IsBounded

deserted-error_detected_example : (polls 10 running).shm.cnt_ha.modstatus ≡ error_detected
deserted-error_detected_example =
    deserted-error_detected 9 handler start tt refl refl (omega arith) (omega arith) start-IsBounded
