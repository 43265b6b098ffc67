-- ===== src/RosObserver/Events.antt =====
-- The observer of ros_observer/src/ros_observer.cpp and the modules that share its memory, as one
-- system: each event is one critical section, in any order.
use autoware_ai_common.Base.{List, Option, [], none, some, ◌∷◌}
use autoware_ai_common.RosObserver.Memory.{Shm}
use autoware_ai_common.RosObserver.Client.{ShmDrStopRequest, ShmVitalMonitor, clear_request, run}
use autoware_ai_common.RosObserver.{Observer, poll}

pub data Event : Type 0 where
  poll_round : Event
  client : ShmVitalMonitor → Event
  clear : ShmDrStopRequest → Event

-- The memory is there as long as the observer runs.
abbrev pub with_shm : Observer → Option Shm → Observer
with_shm o none = o
with_shm o (some s) = record o { shm = s }

unfoldable pub step : Observer → Event → Observer
unfolding poll run clear_request
step o poll_round = poll o
step o (client m) = with_shm o (run m (some o.shm)).1
step o (clear d) = with_shm o (clear_request d (some o.shm)).1

unfoldable pub history : Observer → List Event → Observer
history o [] = o
history o (e ∷ es) = history (step o e) es
