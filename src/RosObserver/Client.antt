-- ===== src/RosObserver/Client.antt =====
-- ros_observer/lib/lib_ros_observer.cpp: what the monitored modules do with the shared memory. `none`
-- is a memory that cannot be opened, where Boost raises an exception. The polling interval, which the
-- constructor computes as 1000.0 / loop_rate, is given as a number of milliseconds.
use autoware_ai_common.Base.{Bool, Option, false, if◌then◌else◌, none, some, true, ℕ, ◌%◌, ◌*◌, ◌^◌}
use autoware_ai_common.RosObserver.Memory.{
  Module, ModuleStatus, Shm, ShmVitalCounter, advanced, counter, error_detected, is_over, normal,
  put_counter, shm_th_counter,
}

pub data VitalMonitorMode : Type 0 where
  cnt_clear cnt_mon : VitalMonitorMode

pub record ShmVitalMonitor : Type 0 where
  pub mod_name : Module
  pub mode : VitalMonitorMode
  pub is_opened : Bool
  pub polling_interval_msec : ℕ

abbrev pub new_monitor : Module → ℕ → VitalMonitorMode → ShmVitalMonitor
new_monitor m interval mode = record {
  mod_name = m;
  mode = mode;
  is_opened = false;
  polling_interval_msec = interval;
}

unfoldable pub attempt_to_open : Option Shm → Bool
attempt_to_open none = false
attempt_to_open (some s) = true

-- init_vital_counter, on the counter of the module
unfoldable pub init_counter : VitalMonitorMode → ℕ → ShmVitalCounter → ShmVitalCounter
init_counter cnt_clear interval c = record c {
  activated = true;
  thresh = interval * shm_th_counter % 2 ^ 32;
  value = 0;
}
init_counter cnt_mon interval c = c

-- update_vital_counter, on the counter of the module
unfoldable pub update_counter : VitalMonitorMode → ℕ → ShmVitalCounter → ShmVitalCounter
unfolding advanced
update_counter cnt_clear interval c = record c { value = 0 }
update_counter cnt_mon interval c =
    let c' = record c { value = advanced interval c } in
    record c' { modstatus = if is_over c' then error_detected else normal }

-- A critical section on the counter of one module; an exception leaves all as it is.
unfoldable pub on_counter : Module → (ShmVitalCounter → ShmVitalCounter) → Option Shm → Option Shm
unfolding counter put_counter
on_counter m f none = none
on_counter m f (some s) = some (put_counter m (f (counter m s)) s)

unfoldable pub init_vital_counter : ShmVitalMonitor → Option Shm → Option Shm
unfolding on_counter init_counter
init_vital_counter m shm = on_counter m.mod_name (init_counter m.mode m.polling_interval_msec) shm

unfoldable pub update_vital_counter : ShmVitalMonitor → Option Shm → Option Shm
unfolding on_counter update_counter
update_vital_counter m shm =
    on_counter m.mod_name (update_counter m.mode m.polling_interval_msec) shm

unfoldable pub run : ShmVitalMonitor → Option Shm → ShmVitalMonitor × Option Shm
unfolding init_vital_counter update_vital_counter attempt_to_open
run m shm =
    if m.is_opened
    then (m, update_vital_counter m shm)
    else let opened = attempt_to_open shm in
      (record m { is_opened = opened }, if opened then init_vital_counter m shm else shm)

abbrev is_error : ModuleStatus → Bool
is_error normal = false
is_error error_detected = true

-- The counter's status; a memory that has gone counts as an error.
unfoldable pub status_error : Module → Option Shm → Bool
unfolding counter
status_error m none = true
status_error m (some s) = is_error (counter m s).modstatus

-- The first call only opens the memory.
unfoldable pub is_error_detected : ShmVitalMonitor → Option Shm → ShmVitalMonitor × Bool
unfolding status_error attempt_to_open
is_error_detected m shm =
    if m.is_opened
    then (m, status_error m.mod_name shm)
    else (record m { is_opened = attempt_to_open shm }, false)

pub record ShmDrStopRequest : Type 0 where
  pub is_opened : Bool

unfoldable pub stop_requested : Option Shm → Bool
stop_requested none = false
stop_requested (some s) = s.stop_req_dr

unfoldable pub is_request_received : ShmDrStopRequest → Option Shm → ShmDrStopRequest × Bool
unfolding stop_requested attempt_to_open
is_request_received d shm =
    if d.is_opened
    then (d, stop_requested shm)
    else (record { is_opened = attempt_to_open shm }, false)

unfoldable pub cleared : Option Shm → Option Shm
cleared none = none
cleared (some s) = some (record s { stop_req_dr = false })

unfoldable pub clear_request : ShmDrStopRequest → Option Shm → ShmDrStopRequest × Option Shm
unfolding cleared attempt_to_open
clear_request d shm =
    if d.is_opened then (d, cleared shm) else (record { is_opened = attempt_to_open shm }, shm)
