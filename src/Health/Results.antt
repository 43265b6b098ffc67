-- ===== src/Health/Results.antt =====
-- How a call in autoware_health_checker/src/health_checker ends: it returns, or it fails in one of the ways
-- that the code has.
use autoware_ai_common.Base.{Option, none, some}

-- std::map::at of a missing key, boost::optional::get of an empty optional, a pointer that a map does not
-- have, and the cast of a parameter that is no double.
pub data Fault : Type 0 where
  out_of_range empty_optional null_pointer wrong_type : Fault

pub data Result (A : Type 0) : Type 0 where
  returned : A → Result A
  failed : Fault → Result A

abbrev pub on_return : {A B : Type 0} → Result A → (A → Result B) → Result B
on_return (returned x) f = f x
on_return (failed e) f = failed e

abbrev pub or_fail : {A : Type 0} → Fault → Option A → Result A
or_fail e none = failed e
or_fail e (some x) = returned x

-- The failure of a call, if it fails.
abbrev pub fault_of : {A : Type 0} → Result A → Option Fault
fault_of (returned x) = none
fault_of (failed e) = some e
