-- ===== src/RosObserver/Memory.antt =====
-- ros_observer/include/ros_observer/ros_observer.h: the shared memory that the observer and the
-- monitored modules share. A counter's `unsigned int` keeps its wrap-around; the memory has one
-- counter for each module that `main` of ros_observer/src/ros_observer.cpp constructs.
use autoware_ai_common.Base.{Bool, false, if◌then◌else◌, ltb, ℕ, ◌%◌, ◌+◌, ◌^◌}

pub data ModuleStatus : Type 0 where
  normal error_detected : ModuleStatus

pub record ShmVitalCounter : Type 0 where
  pub modstatus : ModuleStatus
  pub activated : Bool
  pub thresh : ℕ
  pub value : ℕ

abbrev pub new_counter : ShmVitalCounter
new_counter = record { modstatus = normal; activated = false; thresh = 0; value = 0 }

abbrev pub shm_th_counter : ℕ
shm_th_counter = 3

abbrev pub shm_counter_max : ℕ
shm_counter_max = 10000

-- The modules whose counters and mutexes are in the memory.
pub data Module : Type 0 where
  ros_observer health_aggregator emergency_handler twist_gate ymc_vehicle_driver as_vehicle_driver :
      Module

pub record Shm : Type 0 where
  pub cnt_ro : ShmVitalCounter
  pub cnt_ha : ShmVitalCounter
  pub cnt_eh : ShmVitalCounter
  pub cnt_tg : ShmVitalCounter
  pub cnt_ymc : ShmVitalCounter
  pub cnt_as : ShmVitalCounter
  pub stop_req_dr : Bool

-- shm.find<ShmVitalCounter>(name).first
unfoldable pub counter : Module → Shm → ShmVitalCounter
counter ros_observer s = s.cnt_ro
counter health_aggregator s = s.cnt_ha
counter emergency_handler s = s.cnt_eh
counter twist_gate s = s.cnt_tg
counter ymc_vehicle_driver s = s.cnt_ymc
counter as_vehicle_driver s = s.cnt_as

-- A write through the pointer that `find` gave.
unfoldable pub put_counter : Module → ShmVitalCounter → Shm → Shm
put_counter ros_observer c s = record s { cnt_ro = c }
put_counter health_aggregator c s = record s { cnt_ha = c }
put_counter emergency_handler c s = record s { cnt_eh = c }
put_counter twist_gate c s = record s { cnt_tg = c }
put_counter ymc_vehicle_driver c s = record s { cnt_ymc = c }
put_counter as_vehicle_driver c s = record s { cnt_as = c }

-- std::min on `unsigned int`
abbrev pub min_uint : ℕ → ℕ → ℕ
min_uint a b = if ltb b a then b else a

-- The value of a counter after `interval` more milliseconds without a sign of life.
unfoldable pub advanced : ℕ → ShmVitalCounter → ℕ
advanced interval c =
    if c.activated then min_uint ((c.value + interval) % 2 ^ 32) shm_counter_max else 0

unfoldable pub advance : ℕ → ShmVitalCounter → ShmVitalCounter
unfolding advanced
advance interval c = record c { value = advanced interval c }

abbrev pub is_over : ShmVitalCounter → Bool
is_over c = ltb c.thresh c.value
