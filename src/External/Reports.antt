-- ===== src/External/Reports.antt =====
-- What app/backend/src/services/externalJobs.js tells of a job: its health, and the pages of its runs.
use red_man.Common.{
  ℕ, ◌+◌, ◌*◌, String, Bool, true, false, ◌&&◌, ◌||◌, not, Option, none, some, ltb, if◌then◌else◌,
  ℕ-Comparable,
}
use red_man.External.{Job, Run, Db, is_completed, is_failed, is_running, is_newer, latest_run}

pub data State : Type 0 where
  paused running attention healthy : State

pub record Health : Type 0 where
  pub state : State
  pub stale : Bool
  pub never_reported : Bool
  pub next_run : Option ℕ
  pub expected_after_last_success : Option ℕ
  pub overdue_since : Option ℕ
  pub last_success : Option Run
  pub last_issue : Option Run

-- `isNewer`, where either may be absent.
abbrev pub newer : Option Run → Option Run → Bool
newer none b = false
newer (some a) none = true
newer (some a) (some b) = is_newer a b

abbrev pub is_none {ℓ} : {A : Type ℓ} → Option A → Bool
is_none none = true
is_none (some a) = false

-- A library finds the next time of a schedule, or fails.
abbrev pub next_of : (String → ℕ → Option ℕ) → Option String → ℕ → Option ℕ
next_of next none from = none
next_of next (some cron) from = next cron from

abbrev pub anchor : Job → Option Run → ℕ
anchor job none = job.created_at * 1000
anchor job (some r) = r.reported_at * 1000

-- Where the first look at a schedule fails the second is not taken; it is taken from the same text.
abbrev pub expected_after : (String → ℕ → Option ℕ) → ℕ → Job → Option Run → Option ℕ
expected_after next now job success =
    if job.enabled && is_none (next_of next job.cron_expression now)
    then none
    else next_of next job.cron_expression (anchor job success)

abbrev pub overdue : ℕ → ℕ → Option ℕ → Option ℕ
overdue now grace none = none
overdue now grace (some t) = if ltb (t + grace * 1000) now then some (t + grace * 1000) else none

unfoldable pub get_external_job_health : (String → ℕ → Option ℕ) → ℕ → Job → Db → Health
get_external_job_health next now job db =
    let success = latest_run db job.id is_completed in
    let issue = latest_run db job.id is_failed in
    let run = latest_run db job.id is_running in
    let is_running_now = newer run success && newer run issue in
    let expected = expected_after next now job success in
    let overdue_since = overdue now job.grace_seconds expected in
    let missed = (job.enabled && not is_running_now) && not (is_none overdue_since) in
    record {
      state =
          if not job.enabled
          then paused
          else if is_running_now
          then running
          else if missed || newer issue success
          then attention
          else healthy;
      stale = missed;
      never_reported = is_none success && is_none issue;
      next_run = if job.enabled then next_of next job.cron_expression now else none;
      expected_after_last_success = expected;
      overdue_since = overdue_since;
      last_success = success;
      last_issue = issue;
    }
