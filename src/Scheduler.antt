-- ===== src/Scheduler.antt =====
-- services/scheduler-service: the workflows that run on a schedule.
pub mod Dispatch
pub mod Jobs
pub mod Worker
pub mod Tests
