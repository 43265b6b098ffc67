-- ===== src/Emergency/Planners.antt =====
-- emergency_handler/include/emergency_handler/emergency_planner.h and src/emergency_stop_planner.cpp:
-- what an emergency planner makes of the vehicle's last command.
use autoware_ai_common.Base.{if◌then◌else◌, ℕ, ◌&&◌}
use autoware_ai_common.Base.Int.{pos}
use autoware_ai_common.Base.Double.{Double}

-- The fields of autoware_msgs::VehicleCmd that the sources read or write.
pub record VehicleCmd (W : Type 0) : Type 0 where
  pub stamp : ℕ
  pub linear_velocity : W
  pub steering_angle : W
  pub twist_linear_x : W
  pub twist_angular_z : W
  pub emergency : ℕ

pub data PlannerKind : Type 0 where
  semi_emergency_stop emergency_stop : PlannerKind

-- EmergencyPlanner; `max_dec` is what the constructor is given.
pub record Planner (W : Type 0) : Type 0 where
  pub kind : PlannerKind
  pub required_priority : ℕ
  pub max_dec : W

module _ {W : Type 0} ⦃d : Double W⦄ where
  abbrev double_zero : W
  double_zero = d.milli (pos 0)

  -- EMERGENCY_PLANNER_RATE and EMERGENCY_PLANNER_STOP_THRESH
  abbrev emergency_planner_rate : W
  emergency_planner_rate = d.milli (pos 50000)

  abbrev pub emergency_planner_stop_thresh : W
  emergency_planner_stop_thresh = d.milli (pos 500)

  abbrev pub max_dec_for_spdctl : Planner W → W
  max_dec_for_spdctl p = d.div p.max_dec emergency_planner_rate

  -- std::max(a, b) of doubles
  abbrev max_double : W → W → W
  max_double a b = if d.lt a b then b else a

  abbrev pub slower : Planner W → VehicleCmd W → W
  slower p cmd = max_double (d.sub cmd.linear_velocity (max_dec_for_spdctl p)) double_zero

  -- SemiEmergencyStopPlanner::get_feedback_from_emergency_planner
  unfoldable pub semi_emergency_stop_feedback : Planner W → ℕ → VehicleCmd W → VehicleCmd W
  semi_emergency_stop_feedback p now cmd =
      let new_vel = slower p cmd in
      record {
        stamp = now;
        linear_velocity = new_vel;
        steering_angle = cmd.steering_angle;
        twist_linear_x = new_vel;
        twist_angular_z =
            if d.lt emergency_planner_stop_thresh cmd.linear_velocity
            then d.mul cmd.twist_angular_z (d.div new_vel cmd.linear_velocity)
            else double_zero;
        emergency = if d.le new_vel double_zero && d.le double_zero new_vel then 1 else 0;
      }

  -- EmergencyStopPlanner::get_feedback_from_emergency_planner
  unfoldable pub emergency_stop_feedback : ℕ → VehicleCmd W → VehicleCmd W
  emergency_stop_feedback now cmd = record {
    stamp = now;
    linear_velocity = double_zero;
    steering_angle = cmd.steering_angle;
    twist_linear_x = double_zero;
    twist_angular_z = double_zero;
    emergency = 1;
  }

  -- The virtual call. Both planners set is_vehicle_cmd_updated, and none sets is_lane_updated.
  unfoldable pub feedback : Planner W → ℕ → VehicleCmd W → VehicleCmd W
  unfolding semi_emergency_stop_feedback emergency_stop_feedback
  feedback p now cmd = elim p.kind [
    | semi_emergency_stop ↦ semi_emergency_stop_feedback p now cmd
    | emergency_stop ↦ emergency_stop_feedback now cmd
  ]
