-- ===== src/Scheduler/Examples.antt =====
-- The scheduler at concrete inputs.
use red_man.Common.{
  ℕ, zero, suc, ◌+◌, ◌/◌, ◌≡◌, refl, String, Bool, true, false, none, some, [], ◌∷◌, length,
  ℕ-Comparable, String-Comparable, pair-Comparable,
}
use red_man.Common.Dict
use red_man.Common.Text.{codes}
use red_man.Scheduler.Retry.{is_transient_error, Outcome, resolved, rejected, execute_with_retry}
use red_man.Scheduler.Retry.Laws.{Stops, execute_with_retry-Stops}
use red_man.Scheduler.Jobs.{
  Key, Run, Scheduler, initial, field_count, validate_cron_expression, register_executor,
  schedule_job, get_job_skip_count, tick, settle, wake,
}
use red_man.Scheduler.Jobs.Reach.{
  Reach, here, next, registers, ticks as ticks_step, schedules, NoOverlap, HasSecondRun,
  Reach-NoOverlap, schedule_job_overlaps,
}
use red_man.Scheduler.Jobs.Skips.{IsBusy, ticks, ticks_skip}

-- Refused twice, with a mixed-case message, and then accepted.
abbrev flaky : ℕ → Outcome
flaky zero = rejected (codes "connect ECONNREFUSED 10.0.0.2:22")
flaky (suc zero) = rejected (codes "Operation timed out")
flaky _ = resolved

flaky_report :
    execute_with_retry flaky ≡ record { calls = 3; delays = 30000 ∷ 60000 ∷ []; error = none }
unfolding execute_with_retry is_transient_error
flaky_report = refl

abbrev always_down : ℕ → Outcome
always_down n = rejected (codes "ssh: No route to host")

always_down_report : execute_with_retry always_down ≡ record {
  calls = 4;
  delays = 30000 ∷ 60000 ∷ 120000 ∷ [];
  error = some (codes "ssh: No route to host");
}
unfolding execute_with_retry is_transient_error
always_down_report = refl

execute_with_retry-Stops_example : (k : ℕ) × (Stops flaky (execute_with_retry flaky) k)
execute_with_retry-Stops_example = execute_with_retry-Stops flaky

cron_fields : (field_count (codes " 0 3  * * 1 ") ≡ 5) × (field_count (codes "  ") ≡ 1)
unfolding field_count
cron_fields = (refl, refl)

abbrev accept_all : String → Bool
accept_all expression = true

abbrev photos : Key
photos = ("ssd-backup", 3)

abbrev nightly : String
nightly = "0 3 * * *"

abbrev loaded : Scheduler
loaded = (schedule_job accept_all photos nightly (register_executor "ssd-backup" 1 initial)).0

abbrev started : Scheduler
started = tick photos loaded

abbrev first_run : Run
first_run = record { key = photos; attempt = 0; waiting = false }

started_run : Dict.get started.in_flight 0 ≡ some first_run
unfolding tick schedule_job register_executor
started_run = refl

started-Reach : Reach accept_all started
unfolding register_executor
started-Reach =
    next
      (next (next here (registers "ssd-backup" 1 initial))
        (schedules photos nightly (register_executor "ssd-backup" 1 initial) refl))
      (ticks_step photos loaded)

Reach-NoOverlap_example : NoOverlap started
Reach-NoOverlap_example = Reach-NoOverlap accept_all started-Reach

schedule_job_overlaps_example :
    HasSecondRun photos 0 first_run (tick photos (schedule_job accept_all photos nightly started).0)
unfolding validate_cron_expression tick schedule_job register_executor
schedule_job_overlaps_example =
    schedule_job_overlaps accept_all photos nightly 0 first_run 1 started-Reach started_run refl
      refl refl

started-IsBusy : IsBusy photos started
unfolding tick schedule_job register_executor
started-IsBusy = record {
  task = nightly;
  scheduled = refl;
  fn = 1;
  registered = refl;
  running = refl;
}

ticks_skip_example :
    ((ticks 12 photos started).in_flight ≡ started.in_flight)
    × (get_job_skip_count photos (ticks 12 photos started) ≡ get_job_skip_count photos started + 12)
    × (length (ticks 12 photos started).notified + get_job_skip_count photos started / 5
        ≡ length started.notified + (get_job_skip_count photos started + 12) / 5)
ticks_skip_example = ticks_skip 12 started-IsBusy

-- A transient failure, the timer, and a success: the mark and the count are gone.
recovered :
    (settle 0 resolved (wake 0 (settle 0 (rejected (codes "ETIMEDOUT")) started))).in_flight ≡ []
unfolding settle wake tick schedule_job register_executor is_transient_error
recovered = refl
