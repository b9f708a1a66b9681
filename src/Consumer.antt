-- ===== src/Consumer.antt =====
-- shared/consumer: the reliable event-processing loop and its commit tracker.
pub mod Tracker
pub mod Config
pub mod Backoff
pub mod Process
pub mod Run
