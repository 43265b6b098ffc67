-- ===== src/Health.antt =====
-- autoware_health_checker: what a node reports of itself, the node that gathers the reports, and its view
-- of who reports.
pub mod Names
pub mod StatusMonitor
pub mod Hardware
pub mod Aggregator
pub mod Silence
pub mod DiagBuffer
pub mod Sorting
pub mod Window
pub mod RateChecker
pub mod Rates
pub mod Results
pub mod Values
pub mod Checker
pub mod Publish
pub mod Thresholds
pub mod Recording
pub mod Checks
pub mod Operations
pub mod Missing
pub mod Faults
pub mod Separate
pub mod Kept
pub mod Total
pub mod Analyzer
pub mod Culprits
pub mod Graph
pub mod Edges
pub mod Roots
pub mod AnalyzerTests
pub mod Tests
pub mod CheckerTests
