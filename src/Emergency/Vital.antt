-- ===== src/Emergency/Vital.antt =====
-- emergency_handler/include/emergency_handler/libvital_monitor.h and lib/libvital_monitor.cpp: the nodes
-- that have to be there. Times are nanoseconds; the static `previous` time of updateNodeStatus is a field,
-- empty before the first call, and `.at` on a missing key, which throws, is `none`.
use text.Mathlib.Text.{starts_with}
use Prim.Native.String.{len, slice}
use autoware_ai_common.Base.{
  Bool, List, Option, String, [], and_then, any, false, if◌then◌else◌, is_some, none, not, some,
  true, ℕ, ◌%◌, ◌&&◌, ◌++◌, ◌+◌, ◌-◌, ◌==◌, ◌∷◌,
}
use autoware_ai_common.Base.Text.{str_append, str_eq, string_key}
use autoware_ai_common.Base.Map.{Map, emplace, erase, lookup}
use autoware_ai_common.Messages.{DiagTypes, DiagnosticStatusArray, NodeStatus, SystemStatus}

pub record LifeTime : Type 0 where
  pub activated : Bool
  pub level : ℕ
  pub default_life_time : ℕ
  pub life_time : ℕ

-- LifeTime::LifeTime
abbrev pub new_life : ℕ → ℕ → LifeTime
new_life secs level = record {
  activated = false;
  level = level;
  default_life_time = secs;
  life_time = secs;
}

-- LifeTime::isDead
abbrev pub is_dead : LifeTime → Bool
is_dead l = l.activated && (l.life_time == 0)

-- LifeTime::spend, with the end and the start of the interval: max(life - (now - previous), 0)
abbrev pub spend : ℕ → ℕ → LifeTime → LifeTime
spend previous now l =
    if l.activated then record l { life_time = l.life_time + previous - now } else l

-- LifeTime::activate
abbrev pub activate : LifeTime → LifeTime
activate l = record l { activated = true }

-- LifeTime::reset
abbrev pub reset_life : LifeTime → LifeTime
reset_life l = record l { life_time = l.default_life_time }

pub record VitalMonitor : Type 0 where
  pub required : Map String LifeTime
  pub dead : Map String ℕ
  pub previous : Option ℕ

-- An entry of the parameter `vital_monitor`: the node, its timeout and its level.
pub record NodeParam : Type 0 where
  pub name : String
  pub timeout : Option ℕ
  pub level : Option ℕ

abbrev pub with_default : ℕ → Option ℕ → ℕ
with_default d none = d
with_default d (some x) = x

-- The default timeout, 0.1 s.
abbrev pub default_timeout : ℕ
default_timeout = 100000000

abbrev pub require : NodeParam → Map String LifeTime → Map String LifeTime
require p m =
    emplace (str_append "/" p.name)
      (new_life (with_default default_timeout p.timeout) (with_default 1 p.level)) m

unfoldable pub require_all : List NodeParam → Map String LifeTime → Map String LifeTime
require_all [] m = m
require_all (p ∷ ps) m = require_all ps (require p m)

-- initMonitoredNodeList, of an object that has been constructed
unfoldable pub init_monitored_node_list : List NodeParam → VitalMonitor
unfolding require_all
init_monitored_node_list params = record {
  required = require_all params [];
  dead = [];
  previous = none;
}

abbrev pub contains : String → List String → Bool
contains k names = any (λ n. str_eq n k) names

-- A change of the entry with a key, in place.
unfoldable pub modify : String → (LifeTime → LifeTime) → Map String LifeTime → Map String LifeTime
modify k f [] = []
modify k f ((j, l) ∷ m) = if str_eq j k then (j, f l) ∷ m else (j, l) ∷ modify k f m

-- The first loop of updateNodeStatus, for one available node.
unfoldable pub revive : String → VitalMonitor → Option VitalMonitor
unfolding modify
revive node m =
    if is_some (lookup node m.dead)
    then (elim (lookup node m.required) [
      | none ↦ none
      | some l ↦
          some (record m { required = modify node reset_life m.required; dead = erase node m.dead })
    ])
    else some m

unfoldable pub revive_all : List String → VitalMonitor → Option VitalMonitor
revive_all [] m = some m
revive_all (node ∷ nodes) m = and_then (revive node m) (revive_all nodes)

-- What the second loop does to one required node.
abbrev pub age_one : List String → ℕ → ℕ → String → LifeTime → LifeTime
age_one available previous now k l =
    if contains k available then activate l else spend previous now l

unfoldable pub age : List String → ℕ → ℕ → Map String LifeTime → Map String LifeTime
age available previous now [] = []
age available previous now ((k, l) ∷ m) =
    (k, age_one available previous now k l) ∷ age available previous now m

-- The third loop.
unfoldable pub bury : Map String LifeTime → Map String ℕ → Map String ℕ
bury [] dead = dead
bury ((k, l) ∷ m) dead =
    bury m (if not (is_some (lookup k dead)) && is_dead l then emplace k l.level dead else dead)

-- The second and the third loop.
unfoldable pub age_and_bury : List String → ℕ → ℕ → VitalMonitor → VitalMonitor
unfolding age bury
age_and_bury available previous now m =
    let required = age available previous now m.required in
    record { required = required; dead = bury required m.dead; previous = some now }

-- updateNodeStatus
unfoldable pub update_node_status : List String → ℕ → VitalMonitor → Option VitalMonitor
unfolding age_and_bury
update_node_status available now m =
    and_then (revive_all available m)
      (λ r. some (age_and_bury available (with_default now m.previous) now r))

module _ (ty : DiagTypes) where
  -- createDiagnosticStatusArray, where the level of a message has 8 bits
  abbrev pub create_diagnostic_status_array : String → ℕ → ℕ → DiagnosticStatusArray
  create_diagnostic_status_array dead_node_name stamp level =
      let name =
        if starts_with dead_node_name "/"
        then slice dead_node_name 1 (len dead_node_name)
        else dead_node_name in
      record {
        stamp = stamp;
        key = str_append "node_" (str_append name "_dead");
        value = "";
        description = str_append "node " (str_append name " is dead");
        type = ty.internal;
        level = level % 256;
      }
      ∷ []

  -- createNodeStatus
  abbrev pub create_node_status : String → ℕ → ℕ → NodeStatus
  create_node_status dead_node_name stamp level = record {
    stamp = stamp;
    node_name = dead_node_name;
    node_activated = true;
    status = create_diagnostic_status_array dead_node_name stamp level ∷ [];
  }

  -- addDeadNodes, for one dead node
  unfoldable pub add_dead_node : String → ℕ → ℕ → List NodeStatus → List NodeStatus
  add_dead_node name level stamp [] = create_node_status name stamp level ∷ []
  add_dead_node name level stamp (n ∷ ns) =
      if str_eq name n.node_name
      then record n {
        node_activated = true;
        status = n.status ++ create_diagnostic_status_array name stamp level ∷ [];
      }
        ∷ ns
      else n ∷ add_dead_node name level stamp ns

  unfoldable pub add_dead_from : Map String ℕ → ℕ → List NodeStatus → List NodeStatus
  unfolding add_dead_node
  add_dead_from [] stamp ns = ns
  add_dead_from ((name, level) ∷ dead) stamp ns =
      add_dead_from dead stamp (add_dead_node name level stamp ns)

  -- addDeadNodes
  unfoldable pub add_dead_nodes : VitalMonitor → SystemStatus → SystemStatus
  unfolding add_dead_from
  add_dead_nodes m s = record s { node_status = add_dead_from m.dead s.stamp s.node_status }
