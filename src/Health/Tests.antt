-- ===== src/Health/Tests.antt =====
-- Runs of the models of the health aggregator and the health analyzer on small inputs.
use autoware_ai_common.Base.{
  List, String, [], and_then, any, arith, count_if, false, find_if, if◌then◌else◌, length, map,
  refl, some, true, ℕ, ◌&&◌, ◌∷◌, ◌≡◌,
}
use autoware_ai_common.Base.Text.{eq_iff, str_eq, string_key}
use autoware_ai_common.Base.Map.{assign, emplace, lookup}
use autoware_ai_common.Messages.{NodeStatus, SystemStatus, sample_levels, sample_types}
use autoware_ai_common.Emergency.Factors.{no_factors}
use autoware_ai_common.Emergency.Filter.{
  calc_all, calc_array, calc_diag, calc_node, check_all_node_simply, check_from,
}
use autoware_ai_common.Health.StatusMonitor.{get_monitor_status, timer_statuses, update_stamp}
use autoware_ai_common.Health.Aggregator.{
  Event, HealthAggregator, connections, diagnostics, filter_node_status, has_name, history,
  node_message, node_status_callback, publish, publish_system_status, put_hardware, put_node,
  stamp_name,
}
use autoware_ai_common.Health.Silence.{
  Silent, check_all_node_simply-Silent, find-put_node, published,
}
use autoware_ai_common.Health.Names.{change_to_key_format, slashes_to_underscores}
use autoware_ai_common.Health.Analyzer.{
  find_error_nodes, find_warning_nodes, is_already_exist, is_over_error, is_over_warn,
}
use autoware_ai_common.Health.Culprits.{count_if-find_error_nodes, count_if-find_warning_nodes}
use autoware_ai_common.Health.Hardware.{
  HardwareTexts, RosDiagArray, RosLevels, convert, convert_hardware_level, convert_statuses,
  convert_values, get_valid_name,
}

abbrev report : String → NodeStatus
report name = record {
  stamp = 0;
  node_name = name;
  node_activated = true;
  status =
      (record { stamp = 0; key = "rate"; value = ""; description = ""; type = 1; level = 1 } ∷ [])
      ∷ [];
}

abbrev new_aggregator : HealthAggregator
new_aggregator = record {
  system_status = record {
    stamp = 0;
    available_nodes = [];
    node_status = [];
    hardware_status = [];
    topic_statistics = [];
    detect_too_match_warning = false;
  };
  detected_nodes = [];
  status_monitor = [];
  param_manager = record {
    cached_candidate_key = [];
    previous_keys = [];
    params = some (("cpu", ("load", []) ∷ []) ∷ []);
    error_details = [];
  };
  hardware_diag_node = "diagnostic_aggregator";
  hardware_timeout = 2000000000;
}

-- Names are left as they are, and all are good.
abbrev plain_texts : HardwareTexts
plain_texts = record { erase_matches = λ p s. s; validate = λ s. true; json = λ s. s }

abbrev ros_levels : RosLevels
ros_levels = record { ros_ok = 0; ros_warn = 1; ros_error = 2; ros_stale = 3 }

abbrev hot_cpu : RosDiagArray
hot_cpu = record {
  stamp = 1500;
  status = record { ros_level = 2; name = "cpu"; values = ("load", "97") ∷ ("fan", "1") ∷ [] } ∷ [];
}

abbrev no_print : ℕ → String
no_print n = ""

abbrev others : List (ℕ × Event)
others =
    (1000, node_message (report "camera"))
    ∷ (1500, diagnostics hot_cpu)
    ∷ (2000, publish)
    ∷ (3000, connections [])
    ∷ []

other_names : Silent "diagnostic_aggregator" "lidar" others
unfolding change_to_key_format slashes_to_underscores
other_names = (
  ("camera", refl, λ e. ground (arith, (eq_iff "camera" "lidar").1 e)),
  (
    (
      "diagnostic_aggregator",
      refl,
      λ e. ground (arith, (eq_iff "diagnostic_aggregator" "lidar").1 e),
    ),
    tt,
  ),
)

check_all_node_simply-Silent_example :
    (c : HealthAggregator) × (and_then
        (node_status_callback 0 (report "lidar") new_aggregator)
        (history plain_texts ros_levels sample_levels sample_types no_print "/aggregator" others)
      ≡ some c)
    × ((check_all_node_simply sample_levels.error
          (published
            (publish_system_status sample_levels sample_types no_print "/aggregator" 300000000 c))
          no_factors).0
        ≡ false)
unfolding change_to_key_format slashes_to_underscores
check_all_node_simply-Silent_example =
    check_all_node_simply-Silent plain_texts ros_levels sample_levels sample_types no_print
      "/aggregator" 0 300000000 (report "lidar") "lidar" others new_aggregator no_factors refl
      (λ e. ground (arith, (eq_iff "lidar" "").1 e)) other_names (omega arith)

-- The hardware's value with a parameter is taken, the other one is not.
hardware_taken :
    map
      (λ h. h.status)
      (put_hardware plain_texts ros_levels sample_levels sample_types hot_cpu
        new_aggregator).system_status.hardware_status
    ≡ ((record {
      stamp = 1500;
      key = "cpu/load";
      value = "97";
      description = "cpu/load";
      type = 4;
      level = 3;
    }
          ∷ [])
        ∷ [])
      ∷ []
unfolding put_hardware convert convert_statuses convert_values get_valid_name convert_hardware_level
    lookup emplace assign
hardware_taken = refl

find-put_node_example :
    find_if (has_name "lidar") (put_node (report "lidar") (report "camera" ∷ [])) ≡ (
      if has_name "lidar" (report "lidar")
      then some (report "lidar")
      else find_if (has_name "lidar") (report "camera" ∷ []))
find-put_node_example = find-put_node "lidar" (report "lidar") (report "camera" ∷ [])

-- A node that reported in time is no error.
in_time :
    and_then (node_status_callback 0 (report "lidar") new_aggregator) (λ a.
      some
        (check_all_node_simply 3
          (published
            (publish_system_status sample_levels sample_types no_print "/aggregator" 150000000 a))
          no_factors).0)
    ≡ some true
unfolding change_to_key_format slashes_to_underscores check_all_node_simply check_from calc_node
    calc_array calc_all calc_diag publish_system_status node_status_callback stamp_name put_node
    get_monitor_status timer_statuses update_stamp assign
in_time = refl

abbrev mixed : List NodeStatus
mixed = report "lidar" ∷ record (report "camera") { node_activated = false } ∷ []

only_activated : length (filter_node_status 1 mixed) ≡ 1
unfolding filter_node_status
only_activated = refl

a_name : change_to_key_format "/lidar/front" ≡ some "lidar_front"
unfolding change_to_key_format slashes_to_underscores
a_name = refl

abbrev observed : SystemStatus
observed = record {
  stamp = 0;
  available_nodes = "camera" ∷ [];
  node_status = report "lidar" ∷ report "camera" ∷ report "lidar" ∷ [];
  hardware_status = [];
  topic_statistics = [];
  detect_too_match_warning = false;
}

count_if-find_warning_nodes_example :
    count_if (λ x. str_eq x "lidar") (find_warning_nodes sample_levels observed) ≡ (
      if any
        (λ node.
          str_eq node.node_name "lidar"
          && any (any (λ x. is_over_warn sample_levels x.level)) node.status)
        observed.node_status
      then 1
      else 0)
count_if-find_warning_nodes_example = count_if-find_warning_nodes sample_levels observed "lidar"

count_if-find_error_nodes_example :
    count_if (λ x. str_eq x "lidar") (find_error_nodes sample_levels observed) ≡ (
      if is_already_exist observed.available_nodes "lidar"
        && any
            (λ node.
              str_eq node.node_name "lidar"
              && any (any (λ x. is_over_error sample_levels x.level)) node.status)
            observed.node_status
      then 1
      else 0)
count_if-find_error_nodes_example = count_if-find_error_nodes sample_levels observed "lidar"
