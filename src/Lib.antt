-- ===== src/Lib.antt =====
-- The decision logic of Autoware's common packages: the behaviour state machine of the OpenPlanner
-- library, the health checker and aggregator, the emergency handler, the observer of the vital nodes, and
-- the items of a vector map.
--
-- The parts and the files. Paths are from the root of the repository.
-- RosObserver: ros_observer. src/ros_observer.cpp is a process that owns a shared memory with one
--   counter for each vital module and polls it every 10 ms; lib/lib_ros_observer.cpp is what the modules
--   call. RosObserver/Memory has the memory, RosObserver the process (`start` and `poll` are the parts of
--   `main` before and in its loop), RosObserver/Client the library (`run`, `is_error_detected`,
--   `is_request_received`, `clear_request`), RosObserver/Events both in any order. Each critical section
--   is one step, since the mutexes guard each of them. A memory that cannot be opened is `none`.
-- Behavior: op_planner. src/BehaviorStateMachine.cpp is a graph of state objects, each with a
--   GetNextState (Behavior/Classes, and `get_next_state` for the dispatch), that share the planning
--   parameters and the conditions of include/op_planner/RoadNetwork.h (Behavior/Types). Objects are in a
--   list and pointers are places in it (Behavior/Heap). src/DecisionMaker.cpp creates and wires them
--   (Behavior/Wiring: `init_behavior_states`, and `advance` for the part of GenerateBehaviorState that
--   moves on). Behavior/Drive runs it on given conditions. The other files of Behavior are proofs.
-- Emergency: emergency_handler. lib/libsystem_status_filter.cpp is in Emergency/Factors and
--   Emergency/Filter, lib/libvital_monitor.cpp in Emergency/Vital, src/emergency_stop_planner.cpp in
--   Emergency/Planners, src/emergency_handler.cpp and src/system_status_filter.cpp in Emergency/Handler
--   (`turn` is one round of the loop of `run`). The other files of Emergency are proofs.
-- Health: autoware_health_checker. src/health_aggregator/status_monitor.cpp is in Health/StatusMonitor,
--   the callbacks and the timer of src/health_aggregator/health_aggregator.cpp in Health/Aggregator;
--   Health/Hardware has its reading of the diagnostics of the hardware, with regular expressions, the test
--   of a name and JSON as parameters, Health/Names how a node's name becomes a key, Health/Silence
--   proofs. What a stream prints of a duration is a parameter. What a node links to report of itself, src/health_checker, is in
--   Health/DiagBuffer (diag_buffer.cpp), Health/RateChecker (rate_checker.cpp), Health/Values
--   (value_manager.cpp and param_manager.cpp), Health/Checker (the checks of health_checker.cpp) and
--   Health/Publish (a round of its publishing thread); Health/Operations is any sequence of these calls.
--   The JSON text of a value is a parameter. A call there returns or fails with what stops it, one of the
--   faults of Health/Results; a threshold of the server that is no double is `none`.
--   src/health_analyzer/health_analyzer.cpp is in Health/Analyzer (the nodes with a warning or an error)
--   and Health/Graph (the graph of who subscribes to whom, the root nodes and the callback); the graph
--   library is a parameter there, an interface with laws. Sorting, Window, Rates, Thresholds, Recording,
--   Checks, Missing, Faults, Separate, Kept, Total, Culprits, Edges and Roots have proofs.
-- VectorMap: vector_map. The rows of the files of a map in lib/vector_map/vector_map.cpp: `print_x` is
--   operator<<, `read_x` operator>> and `update_x` the updater of the type x, for points, vectors and nodes
--   in VectorMap/Points, and for the other types in Shapes, Ways, Lanes, Edges, Markings, Crossings,
--   Surfaces, Signs, Posts and Barriers. VectorMap/Numbers has the decimal text of an `int`, Columns what
--   std::getline splits, Handles and Files the templates of include/vector_map/vector_map.h, Markers
--   the markers of lines and areas, Items the overloads as functions on one type; RoundTrip, ShortLanes and
--   Outlines have proofs. How a `double` is printed
--   and read is a parameter. The messages of vector_map_msgs have the fields that the code reads or writes.
-- Messages: what the model takes of the generated messages of autoware_system_msgs.
-- Base: lists, maps, texts, integers and doubles.
-- How they interact: the health checker of a node keeps the statuses of the last half second and publishes
-- them; the health aggregator gathers the statuses of the nodes and publishes them as
-- the system status, with an error for a node that is late; the emergency handler receives it, looks in
-- it for statuses of a high level and for nodes that are missing, and chooses an emergency planner;
-- its loop, like the health aggregator's, calls the monitor of ros_observer, which does not change what
-- the loop decides, so `turn` leaves that call out.
--
-- What is chosen. A time is a number of nanoseconds, an argument of what reads the clock. A `double` is
-- a value of a type with the operations of Base/Double and, where a proof needs them, its laws; times
-- that the sources hold in doubles are exact here. `unsigned int` wraps around at 2^32. A std::map is an
-- association list in the order of its keys. Calls that throw or go through a null pointer give `none`,
-- or a `failed` where Health/Results tells them apart.
-- Every loop is over a list or a number of rounds, but for the one of createAreaMarker, which has fuel:
-- as many rounds as the area has lines are enough. The digits of an `int` are ten at most.
--
-- What is not modelled: publishing and subscribing, the parameter server and the log; what the decision
-- maker computes from maps and paths, whose results are arguments of Behavior/Drive; the overlay
-- texts of the health aggregator; negative emergency priorities; of vector_map
-- the subscriptions and the markers with an orientation; the other packages for maps, and those for
-- geometry, simulation, GNSS and neural networks.
pub mod Base
pub mod RosObserver
pub mod Behavior
pub mod Messages
pub mod Emergency
pub mod Health
pub mod VectorMap
