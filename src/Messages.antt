-- ===== src/Messages.antt =====
-- The messages of autoware_system_msgs that autoware_health_checker and emergency_handler exchange.
-- Their definitions are generated and are not in the repository: a record here has the fields that the
-- sources read or write. A header is its stamp, in nanoseconds, and an array message is its list. The
-- numbers of the levels and types are a parameter; of the levels the sources use that they rise with the
-- severity.
use autoware_ai_common.Base.{Bool, List, String, arith, ℕ, ◌<◌}

pub record DiagLevels : Type 0 where
  pub undefined : ℕ
  pub ok : ℕ
  pub warn : ℕ
  pub error : ℕ
  pub fatal : ℕ

-- The documented order of the levels.
pub record IsRising (lv : DiagLevels) : Type 0 where
  pub undefined_ok : lv.undefined < lv.ok
  pub ok_warn : lv.ok < lv.warn
  pub warn_error : lv.warn < lv.error
  pub error_fatal : lv.error < lv.fatal

pub record DiagTypes : Type 0 where
  pub unexpected_rate : ℕ
  pub invalid_value : ℕ
  pub out_of_range : ℕ
  pub hardware : ℕ
  pub internal : ℕ

pub record DiagnosticStatus : Type 0 where
  pub stamp : ℕ
  pub key : String
  pub value : String
  pub description : String
  pub type : ℕ
  pub level : ℕ

abbrev pub DiagnosticStatusArray : Type 0
DiagnosticStatusArray = List DiagnosticStatus

pub record NodeStatus : Type 0 where
  pub stamp : ℕ
  pub node_name : String
  pub node_activated : Bool
  pub status : List DiagnosticStatusArray

pub record HardwareStatus : Type 0 where
  pub stamp : ℕ
  pub hardware_name : String
  pub status : List DiagnosticStatusArray

pub record TopicStatistics : Type 0 where
  pub node_pub : String
  pub node_sub : String

pub record SystemStatus : Type 0 where
  pub stamp : ℕ
  pub available_nodes : List String
  pub node_status : List NodeStatus
  pub hardware_status : List HardwareStatus
  pub topic_statistics : List TopicStatistics
  pub detect_too_match_warning : Bool

-- Values for runs.
abbrev pub sample_levels : DiagLevels
sample_levels = record { undefined = 0; ok = 1; warn = 2; error = 3; fatal = 4 }

abbrev pub sample_types : DiagTypes
sample_types = record {
  unexpected_rate = 1;
  invalid_value = 2;
  out_of_range = 3;
  hardware = 4;
  internal = 5;
}

pub sample_levels-IsRising : IsRising sample_levels
sample_levels-IsRising = omega arith
