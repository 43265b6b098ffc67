-- ===== src/Emergency.antt =====
-- emergency_handler: what the node does with the system status that the health aggregator publishes.
pub mod Factors
pub mod Filter
pub mod Verdicts
pub mod Vital
pub mod Lifetimes
pub mod DeadNodes
pub mod Absence
pub mod Planners
pub mod Handler
pub mod Priority
pub mod Turn
pub mod Hold
pub mod Tests
