-- ===== src/Health/Hardware.antt =====
-- autoware_health_checker/src/health_aggregator/health_aggregator.cpp: the statuses of the hardware from a
-- diagnostics message. The regular expressions, the test of a name and the JSON text are parameters, as
-- are the numbers of the levels of diagnostic_msgs.
use autoware_ai_common.Base.{
  Bool, List, Option, String, [], if◌then◌else◌, none, null, some, ℕ, ◌==◌, ◌∷◌,
}
use autoware_ai_common.Messages.{
  DiagLevels, DiagTypes, DiagnosticStatus, DiagnosticStatusArray, HardwareStatus,
}
use autoware_ai_common.Health.Values.{ValueManager, add_candidate, is_not_found_in}
use autoware_ai_common.Base.Text.{str_append, string_key}

pub record HardwareTexts : Type 0 where
  -- std::regex_replace(text, std::regex(pattern), "")
  pub erase_matches : String → String → String
  -- ros::names::validate
  pub validate : String → Bool
  pub json : String → String

pub record RosLevels : Type 0 where
  pub ros_ok : ℕ
  pub ros_warn : ℕ
  pub ros_error : ℕ
  pub ros_stale : ℕ

-- What the code takes of diagnostic_msgs::DiagnosticStatus, with its pairs of keys and values.
pub record RosDiagStatus : Type 0 where
  pub ros_level : ℕ
  pub name : String
  pub values : List (String × String)

pub record RosDiagArray : Type 0 where
  pub stamp : ℕ
  pub status : List RosDiagStatus

-- convertHardwareLevel
unfoldable pub convert_hardware_level : RosLevels → DiagLevels → ℕ → ℕ
convert_hardware_level ros lv level =
    if level == ros.ros_ok
    then lv.ok
    else if level == ros.ros_warn
    then lv.warn
    else if level == ros.ros_error
    then lv.error
    else if level == ros.ros_stale
    then lv.fatal
    else lv.undefined

-- delete_strings
abbrev pub delete_strings : List String
delete_strings = ".*:" ∷ ".*/" ∷ "\\(.*\\)" ∷ "[\\[\\]\"\\\\(){}?.*+^$|!#%&'-=~`@;:,<> ]" ∷ []

abbrev pub erase_all : HardwareTexts → List String → String → String
erase_all x [] changed = changed
erase_all x (p ∷ ps) changed = erase_all x ps (x.erase_matches p changed)

-- getValidName
unfoldable pub get_valid_name : HardwareTexts → String → Option String
get_valid_name x orig =
    let changed = erase_all x delete_strings orig in
    if x.validate changed then some changed else none

-- A parameter manager; the aggregator does not read the thresholds themselves.
abbrev pub ParamManager : Type 0
ParamManager = ValueManager (Unit {0})

module _ (x : HardwareTexts) (ty : DiagTypes) where
  abbrev pub hardware_status_of : String → ℕ → ℕ → String → DiagnosticStatus
  hardware_status_of global_key stamp level value = record {
    stamp = stamp;
    key = global_key;
    value = x.json value;
    description = global_key;
    type = ty.hardware;
    level = level;
  }

  -- The inner loop of convert.
  unfoldable pub convert_values :
      String → ℕ → ℕ → List (String × String) → ParamManager → DiagnosticStatusArray × ParamManager
  unfolding get_valid_name
  convert_values ns stamp level [] p = ([], p)
  convert_values ns stamp level ((key, value) ∷ rest) p = elim (get_valid_name x key) [
    | none ↦ convert_values ns stamp level rest p
    | some local_key ↦
        let global_key = str_append ns (str_append "/" local_key) in
        let (xs, q) = convert_values ns stamp level rest (add_candidate global_key p) in
        (
          if is_not_found_in ns local_key p
              then xs
              else hardware_status_of global_key stamp level value ∷ xs,
          q,
        )
  ]

  -- The outer loop of convert.
  unfoldable pub convert_statuses :
      RosLevels
      → DiagLevels
      → ℕ
      → List RosDiagStatus
      → ParamManager
      → List HardwareStatus × ParamManager
  unfolding convert_values convert_hardware_level
  convert_statuses ros lv stamp [] p = ([], p)
  convert_statuses ros lv stamp (hw ∷ rest) p = elim (get_valid_name x hw.name) [
    | none ↦ convert_statuses ros lv stamp rest p
    | some ns ↦
        let (xs, q) =
          convert_values ns stamp (convert_hardware_level ros lv hw.ros_level) hw.values p in
        let (statuses, r) = convert_statuses ros lv stamp rest q in
        (
          if null xs
              then statuses
              else record { stamp = stamp; hardware_name = ns; status = xs ∷ [] } ∷ statuses,
          r,
        )
  ]

  -- convert: nothing for an empty message
  unfoldable pub convert :
      RosLevels
      → DiagLevels
      → RosDiagArray
      → ParamManager
      → Option (List HardwareStatus) × ParamManager
  unfolding convert_statuses
  convert ros lv msg p =
      let (statuses, q) = convert_statuses ros lv msg.stamp msg.status p in
      if null msg.status then (none, p) else (some statuses, q)
