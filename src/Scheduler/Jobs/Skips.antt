-- ===== src/Scheduler/Jobs/Skips.antt =====
-- Ticks of a job whose last run is still active.
use red_man.Common.{
  ℕ, zero, suc, ◌+◌, ◌/◌, ◌≡◌, refl, ap, ◌∙◌, String, true, some, [], ◌∷◌, arith, length,
  length-append, ℕ-Comparable, String-Comparable, pair-Comparable,
}
use native.Mathlib.Nat.{add-zero}
use red_man.Common.Dict
use red_man.Scheduler.Jobs.{Key, Scheduler, get_job_skip_count, skip_tick, tick_callback, tick}

-- The cron task of the job exists, its executor is registered, and a run of it is marked.
pub record IsBusy (k : Key) (s : Scheduler) : Type 0 where
  pub task : String
  pub scheduled : Dict.get s.active_jobs k ≡ some task
  pub fn : ℕ
  pub registered : Dict.get s.executors k.0 ≡ some fn
  pub running : Dict.has s.running_jobs k ≡ true

unfoldable pub ticks : ℕ → Key → Scheduler → Scheduler
ticks zero k s = s
ticks (suc n) k s = ticks n k (tick k s)

tick-skip : {k : Key} {s : Scheduler} → IsBusy k s → tick k s ≡ skip_tick k s
unfolding tick tick_callback
tick-skip {k} {s} b = ground (arith, b.scheduled, b.registered, b.running)

ticks-skip :
    (n : ℕ) {k : Key} {s : Scheduler} → IsBusy k s → ticks (suc n) k s ≡ ticks n k (skip_tick k s)
unfolding ticks
ticks-skip n {k} b = ap (ticks n k) (tick-skip b)

skip_tick-IsBusy : {k : Key} {s : Scheduler} → IsBusy k s → IsBusy k (skip_tick k s)
unfolding skip_tick
skip_tick-IsBusy b = ground (arith, b)

skip_tick-counts :
    (k : Key) (s : Scheduler)
    → (skip_tick k s).skip_counts ≡ Dict.put s.skip_counts k (get_job_skip_count k s + 1)
unfolding skip_tick
skip_tick-counts k s = ground arith

skip_tick-count :
    (k : Key) (s : Scheduler) → get_job_skip_count k (skip_tick k s) ≡ get_job_skip_count k s + 1
unfolding get_job_skip_count
skip_tick-count k s =
    rw skip_tick-counts (rw (Dict.get-put_self s.skip_counts k k (get_job_skip_count k s + 1) refl))

-- A note goes out when the count is 5, 10, 15, …
skip_tick-notified :
    (k : Key) (s : Scheduler)
    → length (skip_tick k s).notified + get_job_skip_count k s / 5
      ≡ length s.notified + (get_job_skip_count k s + 1) / 5
unfolding skip_tick
skip_tick-notified k s =
    ground (arith, length-append s.notified ((k, get_job_skip_count k s + 1) ∷ []))

skip_tick-in_flight : (k : Key) (s : Scheduler) → (skip_tick k s).in_flight ≡ s.in_flight
unfolding skip_tick
skip_tick-in_flight k s = ground arith

-- While a run of the job is marked, `n` ticks start nothing, raise the count of consecutive skips
-- by `n`, and send one note for each multiple of 5 that the count passes.
pub ticks_skip :
    (n : ℕ) {k : Key} {s : Scheduler}
    → IsBusy k s
    → ((ticks n k s).in_flight ≡ s.in_flight)
      × (get_job_skip_count k (ticks n k s) ≡ get_job_skip_count k s + n)
      × (length (ticks n k s).notified + get_job_skip_count k s / 5
          ≡ length s.notified + (get_job_skip_count k s + n) / 5)
unfolding ticks
ticks_skip zero b = (refl, omega arith, rw add-zero)
ticks_skip (suc n) {k} {s} b =
    let (runs, count, notes) = ticks_skip n (skip_tick-IsBusy b) in
    rw (ticks-skip n b) (
      runs ∙ skip_tick-in_flight k s,
      omega (arith, count, skip_tick-count k s),
      omega (arith, notes, skip_tick-notified k s, skip_tick-count k s),
    )
