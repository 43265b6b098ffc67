-- ===== src/RosObserver.antt =====
-- ros_observer/src/ros_observer.cpp: the process that creates the shared memory and polls it every
-- ten milliseconds. The console output is not modelled, nor are the mutexes: each critical section is
-- one step.
pub mod Memory
pub mod Client
pub mod Events
pub mod Bounds
pub mod Detection
pub mod StopRequest
mod Tests
use autoware_ai_common.Base.{Bool, false, if◌then◌else◌, not, suc, true, zero, ℕ, ◌*◌, ◌||◌}
use Memory.{Shm, advance, error_detected, is_over, new_counter, normal}

abbrev pub polling_interval_msec : ℕ
polling_interval_msec = 10

abbrev pub shm_th_counter_ro : ℕ
shm_th_counter_ro = 10

pub record Observer : Type 0 where
  pub shm : Shm
  pub error_prev : Bool

-- The start of `main`, up to its loop.
unfoldable pub start : Observer
start = record {
  shm = record {
    cnt_ro = record new_counter {
      activated = true;
      thresh = polling_interval_msec * shm_th_counter_ro;
      value = 0;
    };
    cnt_ha = new_counter;
    cnt_eh = new_counter;
    cnt_tg = new_counter;
    cnt_ymc = new_counter;
    cnt_as = new_counter;
    stop_req_dr = false;
  };
  error_prev = false;
}

-- The counters after one poll.
unfoldable pub poll_counters : Shm → Shm
unfolding advance
poll_counters s = record s {
  cnt_ro = record s.cnt_ro { value = 0 };
  cnt_ha = advance polling_interval_msec s.cnt_ha;
  cnt_eh = advance polling_interval_msec s.cnt_eh;
  cnt_tg = advance polling_interval_msec s.cnt_tg;
  cnt_ymc = advance polling_interval_msec s.cnt_ymc;
  cnt_as = advance polling_interval_msec s.cnt_as;
}

-- `ros_error_detected`, after the five tests
unfoldable pub error_in : Shm → Bool
error_in s =
    is_over s.cnt_ha
    || is_over s.cnt_eh
    || is_over s.cnt_tg
    || is_over s.cnt_ymc
    || is_over s.cnt_as

-- What the poll reports: the status of the health aggregator, and an edge of the stop request.
unfoldable pub report : Bool → Bool → Shm → Shm
report true prev s = record s {
  cnt_ha = record s.cnt_ha { modstatus = error_detected };
  stop_req_dr = if not prev then true else s.stop_req_dr;
}
report false prev s = record s {
  cnt_ha = record s.cnt_ha { modstatus = normal };
  stop_req_dr = if prev then false else s.stop_req_dr;
}

-- One round of the loop of `main`.
unfoldable pub poll : Observer → Observer
unfolding poll_counters error_in report
poll o =
    let s = poll_counters o.shm in
    record { shm = report (error_in s) o.error_prev s; error_prev = error_in s }

-- Rounds of the loop with no other process between them.
unfoldable pub polls : ℕ → Observer → Observer
polls zero o = o
polls (suc n) o = poll (polls n o)
