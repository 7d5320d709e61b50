-- ===== src/Scheduler.antt =====
-- app/backend/src/services/scheduler.js and schedulePolicy.js: cron jobs that skip a tick while
-- their last run is active, and retry transient failures.
pub mod Retry
pub mod Jobs
mod Examples
