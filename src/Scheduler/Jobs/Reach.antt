-- ===== src/Scheduler/Jobs/Reach.antt =====
-- The states that the scheduler reaches, and what changes of a job that is running do to it.
use red_man.Common.{
  ℕ, ◌≡◌, refl, ◌≢◌, ◌↔◌, inl, inr, String, Bool, true, false, some, arith, Bool-cases, eq_refl, ap,
  ◌∙◌, ℕ-Comparable, String-Comparable, pair-Comparable,
}
use red_man.Common.Dict
use red_man.Scheduler.Retry.{Outcome}
use red_man.Scheduler.Jobs.{
  Key, Run, Scheduler, initial, validate_cron_expression, register_executor, remove_job,
  schedule_job, is_job_running, start_run, tick_callback, tick, settle, wake,
}
use red_man.Scheduler.Jobs.Invariant.{
  Exclusive, initial-Exclusive, register_executor-Exclusive, remove_job-Exclusive, tick-Exclusive,
  settle-Exclusive, wake-Exclusive, active_jobs-Exclusive, busy,
}

-- Two runs in flight of one job are the same run, and the marks tell which jobs have one.
abbrev pub NoOverlap : Scheduler → Type 0
NoOverlap s =
    ((i j : ℕ) (r q : Run)
      → Dict.get s.in_flight i ≡ some r
      → Dict.get s.in_flight j ≡ some q
      → r.key ≡ q.key
      → i ≡ j)
    × ((k : Key)
        → (is_job_running k s ≡ true)
          ↔ ((i : ℕ) × (r : Run) × (Dict.get s.in_flight i ≡ some r) × (r.key ≡ k)))

module _ (parser_accepts : String → Bool) where
  schedule_job-Exclusive :
      {s : Scheduler} (k : Key) (expression : String)
      → Exclusive s
      → Dict.has s.running_jobs k ≡ false
      → Exclusive (schedule_job parser_accepts k expression s).0
  unfolding schedule_job
  schedule_job-Exclusive {s} k expression inv idle =
      let kept = remove_job-Exclusive k inv idle in
      elim (Bool-cases (validate_cron_expression parser_accepts expression)) [
        | inl e ↦ rw (e, schedule_job) (active_jobs-Exclusive kept _)
        | inr e ↦ rw (e, schedule_job) kept
      ]

  -- What happens to the scheduler, in any order: a cron tick, an executor that settles, a retry
  -- timer, and changes to jobs that are not running at that moment.
  pub data Step : Scheduler → Scheduler → Type 0 where
    registers : (f : String) (fn : ℕ) (s : Scheduler) → Step s (register_executor f fn s)
    ticks : (k : Key) (s : Scheduler) → Step s (tick k s)
    settles : (i : ℕ) (o : Outcome) (s : Scheduler) → Step s (settle i o s)
    wakes : (i : ℕ) (s : Scheduler) → Step s (wake i s)
    removes :
        (k : Key) (s : Scheduler) → Dict.has s.running_jobs k ≡ false → Step s (remove_job k s)
    schedules :
        (k : Key) (expression : String) (s : Scheduler)
        → Dict.has s.running_jobs k ≡ false
        → Step s (schedule_job parser_accepts k expression s).0

  pub data Reach : Scheduler → Type 0 where
    here : Reach initial
    next : {s t : Scheduler} → Reach s → Step s t → Reach t

  Step-Exclusive : {s t : Scheduler} → Step s t → Exclusive s → Exclusive t
  Step-Exclusive (registers f fn s) inv = register_executor-Exclusive f fn inv
  Step-Exclusive (ticks k s) inv = tick-Exclusive k inv
  Step-Exclusive (settles i o s) inv = settle-Exclusive i o inv
  Step-Exclusive (wakes i s) inv = wake-Exclusive i inv
  Step-Exclusive (removes k s idle) inv = remove_job-Exclusive k inv idle
  Step-Exclusive (schedules k expression s idle) inv = schedule_job-Exclusive k expression inv idle

  Reach-Exclusive : {s : Scheduler} → Reach s → Exclusive s
  Reach-Exclusive here = initial-Exclusive
  Reach-Exclusive (next r st) = Step-Exclusive st (Reach-Exclusive r)

  -- In every state that the scheduler reaches by ticks, settling executors, retry timers, and
  -- changes of jobs that are not running: two runs in flight of one job are the same run, and a
  -- job is marked as running exactly when a run of it is in flight.
  pub Reach-NoOverlap : {s : Scheduler} → Reach s → NoOverlap s
  unfolding is_job_running
  Reach-NoOverlap reach =
      let inv = Reach-Exclusive reach in
      (inv.alone, λ k. (inv.backed k, λ (i, r, g, e). busy inv i r k g e))

  -- The job's table entry is made anew, so the tick behind it finds the job idle.
  schedule_job-idle :
      (k : Key) (expression : String) (s : Scheduler)
      → validate_cron_expression parser_accepts expression ≡ true
      → (Dict.get (schedule_job parser_accepts k expression s).0.active_jobs k ≡ some expression)
        × (Dict.has (schedule_job parser_accepts k expression s).0.running_jobs k ≡ false)
        × ((schedule_job parser_accepts k expression s).0.in_flight ≡ s.in_flight)
        × ((schedule_job parser_accepts k expression s).0.next_run ≡ s.next_run)
        × ((schedule_job parser_accepts k expression s).0.executors ≡ s.executors)
  unfolding schedule_job
  schedule_job-idle k expression s ok =
      rw (ok, schedule_job)
        (
          Dict.get-put_self (Dict.remove s.active_jobs k) k k expression refl,
          ground (arith, Dict.has-discard s.running_jobs k k, eq_refl k),
          refl,
          refl,
          refl,
        )

tick-starts :
    (k : Key) (s : Scheduler) {task : String} {fn : ℕ}
    → Dict.get s.active_jobs k ≡ some task
    → Dict.get s.executors k.0 ≡ some fn
    → Dict.has s.running_jobs k ≡ false
    → tick k s ≡ start_run k s
unfolding tick tick_callback
tick-starts k s a f idle = ground (arith, a, f, idle)

-- Beside the run `i`, the job `k` has another one in flight.
abbrev pub HasSecondRun : Key → ℕ → Run → Scheduler → Type 0
HasSecondRun k i r t =
    (j : ℕ) × (q : Run) × (j ≢ i)
    × (q.key ≡ k)
    × (Dict.get t.in_flight j ≡ some q)
    × (Dict.get t.in_flight i ≡ some r)

module _ (parser_accepts : String → Bool) where
  -- Saving a job while a run of it is in flight forgets that run: in every reachable state, the
  -- next tick of the job starts a second run beside the first.
  pub schedule_job_overlaps :
      {s : Scheduler} (k : Key) (expression : String) (i : ℕ) (r : Run) (fn : ℕ)
      → Reach parser_accepts s
      → Dict.get s.in_flight i ≡ some r
      → r.key ≡ k
      → Dict.get s.executors k.0 ≡ some fn
      → validate_cron_expression parser_accepts expression ≡ true
      → HasSecondRun k i r (tick k (schedule_job parser_accepts k expression s).0)
  unfolding start_run
  schedule_job_overlaps {s} k expression i r fn reach g e f ok =
      let (a, idle, same, number, execs) = schedule_job-idle parser_accepts k expression s ok in
      let t = (schedule_job parser_accepts k expression s).0 in
      let below = (Reach-Exclusive parser_accepts reach).fresh i r g in
      let later : s.next_run ≢ i = omega arith in
      (
        s.next_run,
        record { key = k; attempt = 0; waiting = false },
        later,
        refl,
        rw (tick-starts k t a (ap (λ x. Dict.get x k.0) execs ∙ f) idle, same, number)
            (Dict.get-put_self s.in_flight s.next_run s.next_run _ refl),
        rw (tick-starts k t a (ap (λ x. Dict.get x k.0) execs ∙ f) idle, same, number)
            (Dict.get-put_ne s.in_flight s.next_run i _ later ∙ g),
      )
