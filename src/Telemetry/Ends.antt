-- ===== src/Telemetry/Ends.antt =====
-- That the loop over batches in app/backend/src/services/databaseRetention.js comes to an end.
use mathlib.Core.Path.{sym, subst, ◌∙◌}
use red_man.Common.{
  ℕ, ◌-◌, nat_beq, Bool-cases, inl, inr, zero, suc, ◌+◌, ◌*◌, ◌≤◌, ◌<◌, ◌≡◌, refl, true, false,
  List, [], ◌∷◌, arith, tally, All,
}
use red_man.Pairing.Requests.{runs_out, is_old}
use red_man.Telemetry.{
  Tables, Policy, is_before, days, is_old_run_file, is_old_run, is_old_routine, is_old_security,
  is_orphaned, is_old_session, is_old_recovery, is_old_job_run,
}
use red_man.Telemetry.Firsts.{}
use red_man.Telemetry.Prune.{
  Statement, delete_run_files, delete_runs, delete_routine_audit, delete_security_audit,
  delete_metrics, delete_summaries, delete_auth_audit, delete_sessions, delete_recoveries,
  expire_pairings, delete_pairing_history, delete_external_runs, delete_events, statements,
  run_statements, prune_database_telemetry,
}
use red_man.Telemetry.Loop.{zeros, sum, added, Outcome, Watch, retention_loop}
use red_man.Telemetry.Batches.{weight, Spends, statements-Spends}

-- All rows that may go at a time, without a limit.
abbrev pub leftover : Policy → ℕ → Tables → ℕ
leftover policy now t =
    tally (is_old_run_file policy now t) t.run_files
    + tally (is_old_run policy now t) t.runs
    + tally (is_old_routine policy now) t.peer_audit
    + tally (is_old_security policy now) t.peer_audit
    + tally (is_before now (policy.metrics_hours * 3600)) t.metrics
    + tally (is_orphaned t) t.cache
    + tally (is_before now (days policy.auth_audit_days)) t.auth_audit
    + tally (is_old_session now) t.sessions
    + tally (is_old_recovery now) t.recoveries
    + tally (runs_out now) t.pairings
    + tally (is_old now) t.pairings
    + tally (is_old_job_run policy now t) t.external_runs
    + tally (is_before now (days policy.event_days)) t.events

run_statements-weight :
    (ss : List Statement) (t : Tables)
    → All Spends ss
    → weight (run_statements ss t).1 + sum (run_statements ss t).0 ≡ weight t
unfolding run_statements
run_statements-weight [] t spends = omega arith
run_statements-weight (s ∷ ss) t (first, rest) =
    let e = first.spends t in let f = run_statements-weight ss (s t).1 rest in omega arith

-- Where nothing has been changed, each statement has found nothing.
run_statements-idle :
    (ss : List Statement) (t : Tables)
    → All Spends ss
    → sum (run_statements ss t).0 ≡ 0
    → ((run_statements ss t).1 ≡ t) × All (λ s. (s t).0 ≡ 0) ss
unfolding run_statements
run_statements-idle [] t spends h = (refl, tt)
run_statements-idle (s ∷ ss) t (first, rest) h =
    let none_ : (s t).0 ≡ 0 = omega arith in
    let same = first.idle t none_ in
    let (last, others) = run_statements-idle ss (s t).1 rest (omega arith) in
    (last ∙ same, (none_, subst (λ u. All (λ r. (r u).0 ≡ 0) ss) same others))

statements-leftover :
    (policy : Policy) (now file_limit limit : ℕ) (t : Tables)
    → 1 ≤ file_limit
    → 1 ≤ limit
    → All (λ s. (s t).0 ≡ 0) (statements policy now file_limit limit)
    → leftover policy now t ≡ 0
unfolding delete_run_files delete_runs delete_routine_audit delete_security_audit delete_metrics
    delete_summaries delete_auth_audit delete_sessions delete_recoveries expire_pairings
    delete_pairing_history delete_external_runs delete_events
statements-leftover policy now file_limit limit t file_positive positive all = omega arith

sum-added : (ms ns : List ℕ) → sum (added ms ns) ≡ sum ms + sum ns
sum-added [] ns = omega arith
sum-added (m ∷ ms) [] = omega arith
sum-added (m ∷ ms) (n ∷ ns) = let e = sum-added ms ns in omega arith

-- What a loop that is complete has done: nothing is left at the time of its last batch, and what it has
-- counted is what is gone.
Completes : Policy → ℕ → Watch → List ℕ → Tables → Outcome × Tables → Type 0
Completes policy batches w totals t (outcome, after) =
    (outcome.complete ≡ true)
    × ((last : ℕ) × (outcome.batches ≡ suc last)
        × (batches ≤ last)
        × (leftover policy (w.clock last) after ≡ 0))
    × (weight after + sum outcome.totals ≡ weight t + sum totals)

retention_loop-Completes :
    (policy : Policy) (file_limit limit : ℕ) (w : Watch)
    → 1 ≤ file_limit
    → 1 ≤ limit
    → ((n : ℕ) → w.should_stop n ≡ false)
    → ((n : ℕ) → w.clock n - w.started_at < w.max_duration)
    → (left batches : ℕ) (totals : List ℕ) (t : Tables) → weight t < left
    → Completes policy batches w totals t
        (retention_loop policy file_limit limit w left batches totals t)
unfolding retention_loop prune_database_telemetry Completes
retention_loop-Completes policy file_limit limit w file_positive positive goes_on in_time zero
      batches totals t enough =
    absurd (omega arith)
retention_loop-Completes policy file_limit limit w file_positive positive goes_on in_time (suc left)
      batches totals t enough =
    let now = w.clock batches in
    let spends = statements-Spends policy now file_limit limit file_positive positive in
    let ss = statements policy now file_limit limit in
    let removed = (run_statements ss t).0 in
    let after = (run_statements ss t).1 in
    let e = run_statements-weight ss t spends in
    let counted = sum-added totals removed in
    let stop = goes_on batches in
    let time = in_time batches in
    let loop = retention_loop policy file_limit limit w (suc left) batches totals t in
    elim (Bool-cases (nat_beq (sum removed) 0)) [
      | inl nothing ↦
          let (same, idle) = run_statements-idle ss t spends (ground arith) in
          let gone =
            statements-leftover policy now file_limit limit t file_positive positive idle in
          let outcome : Outcome = record {
            totals = added totals removed;
            batches = suc batches;
            complete = true;
            cancelled = false;
            timed_out = false;
          } in
          let step : loop ≡ (outcome, after) = ground arith in
          subst (Completes policy batches w totals t) (sym step) (
            refl,
            (batches, refl, omega arith, subst (λ u. leftover policy now u ≡ 0) (sym same) gone),
            omega arith,
          )
      | inr something ↦
          let (complete, (last, count, le, gone), used) =
            retention_loop-Completes policy file_limit limit w file_positive positive goes_on
              in_time left (suc batches) (added totals removed) after (ground arith) in
          let step : loop
              ≡ retention_loop policy file_limit limit w left (suc batches) (added totals removed)
                  after =
            ground arith in
          subst (Completes policy batches w totals t) (sym step)
            (complete, (last, count, omega arith, gone), omega arith)
    ]

-- Let each limit be at least 1, and let nothing stop the loop nor its time run out. If it may do more
-- batches than there are rows, the pairings that are pending or being accepted counted twice, then it ends
-- complete: at the time of its last batch no row is left that may be deleted or expire, and the sum of its
-- totals is what this count of rows has become less by.
pub retention_loop_completes :
    (policy : Policy) (file_limit limit : ℕ) (w : Watch)
    → 1 ≤ file_limit
    → 1 ≤ limit
    → ((n : ℕ) → w.should_stop n ≡ false)
    → ((n : ℕ) → w.clock n - w.started_at < w.max_duration)
    → (max_batches : ℕ) (t : Tables) → weight t < max_batches
    → ((retention_loop policy file_limit limit w max_batches 0 zeros t).0.complete ≡ true)
      × ((last : ℕ) × ((retention_loop policy file_limit limit w max_batches 0 zeros t).0.batches
            ≡ suc last)
          × (leftover policy
                (w.clock last)
                (retention_loop policy file_limit limit w max_batches 0 zeros t).1
              ≡ 0))
      × (weight (retention_loop policy file_limit limit w max_batches 0 zeros t).1
            + sum (retention_loop policy file_limit limit w max_batches 0 zeros t).0.totals
          ≡ weight t)
unfolding Completes
retention_loop_completes policy file_limit limit w file_positive positive goes_on in_time
      max_batches t enough =
    let (complete, (last, count, le, gone), used) =
      retention_loop-Completes policy file_limit limit w file_positive positive goes_on in_time
        max_batches 0 zeros t enough in
    (complete, (last, count, gone), omega arith)
