-- ===== src/Telemetry/Batches.antt =====
-- What one batch of app/backend/src/services/databaseRetention.js takes away.
use mathlib.Core.Path.{ap, ◌∙◌}
use red_man.Common.{
  ℕ, ◌+◌, ◌*◌, ◌≤◌, ◌≡◌, refl, min, Bool, true, false, List, arith, tally, length, All,
}
use red_man.Pairing.Store.{Request, Status, is_open, is_history, with_status}
use red_man.Pairing.Store.Status.{expired}
use red_man.Pairing.Requests.{runs_out, is_old}
use red_man.Telemetry.{
  Tables, Policy, is_before, days, is_old_run_file, is_old_run, is_old_routine, is_old_security,
  is_orphaned, is_old_session, is_old_recovery, is_old_job_run, remove_first,
}
use red_man.Telemetry.Firsts.{
  length-remove_first, remove_first-none, tally-remove_first, length-update_first,
  tally-update_first, update_first-none,
}
use red_man.Telemetry.Prune.{
  Statement, changes, delete_run_files, delete_runs, delete_routine_audit, delete_security_audit,
  delete_metrics, delete_summaries, delete_auth_audit, delete_sessions, delete_recoveries,
  expire_pairings, delete_pairing_history, delete_external_runs, delete_events, statements,
}

-- The rows that there are, and once more the pairings that may run out: what deletions use up.
abbrev pub weight : Tables → ℕ
weight t =
    length t.run_files
    + length t.runs
    + length t.peer_audit
    + length t.metrics
    + length t.cache
    + length t.auth_audit
    + length t.sessions
    + length t.recoveries
    + length t.pairings
    + length t.external_runs
    + length t.events
    + tally (λ (r : Request). is_open r.status) t.pairings

-- A statement uses up what it changes, and changes nothing else.
pub record Spends (s : Statement) : Type 0 where
  pub spends : (t : Tables) → weight (s t).1 + (s t).0 ≡ weight t
  pub idle : (t : Tables) → (s t).0 ≡ 0 → (s t).1 ≡ t

pub min-zero : (limit n : ℕ) → 1 ≤ limit → min limit n ≡ 0 → n ≡ 0
min-zero limit n positive h = omega arith

deletes-Spends :
    {A : Type 0} (get : Tables → List A) (set : List A → Tables → Tables) (p : Tables → A → Bool)
    (limit : ℕ)
    → 1 ≤ limit
    → ((t : Tables) → set (get t) t ≡ t)
    → ((t : Tables) (xs : List A) → weight (set xs t) + length (get t) ≡ weight t + length xs)
    → Spends (λ t. (changes limit (p t) (get t), set (remove_first limit (p t) (get t)) t))
deletes-Spends get set p limit positive same weighed = record {
  spends = λ t.
      let e = length-remove_first limit (p t) (get t) in
      let w = weighed t (remove_first limit (p t) (get t)) in omega arith;
  idle = λ t h.
      ap (λ xs. set xs t) (remove_first-none limit (p t) (get t) (min-zero limit _ positive h))
      ∙ same t;
}

expire_pairings-Spends : (now limit : ℕ) → 1 ≤ limit → Spends (expire_pairings now limit)
unfolding expire_pairings
expire_pairings-Spends now limit positive = record {
  spends = λ t.
      let e = length-update_first limit (runs_out now) (with_status now expired) t.pairings in
      let w =
        tally-update_first limit (runs_out now) (λ (r : Request). is_open r.status)
          (with_status now expired) t.pairings (λ r h. ground arith) (λ r. refl) in
      omega arith;
  idle = λ t h.
      ap (λ xs. record t { pairings = xs })
        (update_first-none limit (runs_out now) (with_status now expired) t.pairings
          (min-zero limit _ positive h));
}

is_history-closed : (status : Status) → is_history status ≡ true → is_open status ≡ false
is_history-closed Status.pending h = cc
is_history-closed Status.accepting h = cc
is_history-closed Status.accepted h = refl
is_history-closed Status.failed h = refl
is_history-closed Status.declined h = refl
is_history-closed Status.expired h = refl

delete_pairing_history-Spends :
    (now limit : ℕ) → 1 ≤ limit → Spends (delete_pairing_history now limit)
unfolding delete_pairing_history
delete_pairing_history-Spends now limit positive = record {
  spends = λ t.
      let e = length-remove_first limit (is_old now) t.pairings in
      let w =
        tally-remove_first limit (is_old now) (λ (r : Request). is_open r.status) t.pairings
          (λ r h. is_history-closed r.status (ground arith)) in
      omega arith;
  idle = λ t h.
      ap (λ xs. record t { pairings = xs })
        (remove_first-none limit (is_old now) t.pairings (min-zero limit _ positive h));
}

pub statements-Spends :
    (policy : Policy) (now file_limit limit : ℕ)
    → 1 ≤ file_limit
    → 1 ≤ limit
    → All Spends (statements policy now file_limit limit)
unfolding delete_run_files delete_runs delete_routine_audit delete_security_audit delete_metrics
    delete_summaries delete_auth_audit delete_sessions delete_recoveries delete_external_runs
    delete_events
statements-Spends policy now file_limit limit file_positive positive = (
  deletes-Spends Tables.run_files (λ xs t. record t { run_files = xs })
      (λ t. is_old_run_file policy now t) file_limit file_positive (λ t. refl)
      (λ t xs. omega arith),
  (
    deletes-Spends Tables.runs (λ xs t. record t { runs = xs }) (λ t. is_old_run policy now t) limit
        positive (λ t. refl) (λ t xs. omega arith),
    (
      deletes-Spends Tables.peer_audit (λ xs t. record t { peer_audit = xs })
          (λ t. is_old_routine policy now) limit positive (λ t. refl) (λ t xs. omega arith),
      (
        deletes-Spends Tables.peer_audit (λ xs t. record t { peer_audit = xs })
            (λ t. is_old_security policy now) limit positive (λ t. refl) (λ t xs. omega arith),
        (
          deletes-Spends Tables.metrics (λ xs t. record t { metrics = xs })
              (λ t. is_before now (policy.metrics_hours * 3600)) limit positive (λ t. refl)
              (λ t xs. omega arith),
          (
            deletes-Spends Tables.cache (λ xs t. record t { cache = xs }) (λ t. is_orphaned t) limit
                positive (λ t. refl) (λ t xs. omega arith),
            (
              deletes-Spends Tables.auth_audit (λ xs t. record t { auth_audit = xs })
                  (λ t. is_before now (days policy.auth_audit_days)) limit positive (λ t. refl)
                  (λ t xs. omega arith),
              (
                deletes-Spends Tables.sessions (λ xs t. record t { sessions = xs })
                    (λ t. is_old_session now) limit positive (λ t. refl) (λ t xs. omega arith),
                (
                  deletes-Spends Tables.recoveries (λ xs t. record t { recoveries = xs })
                      (λ t. is_old_recovery now) limit positive (λ t. refl) (λ t xs. omega arith),
                  (
                    expire_pairings-Spends now limit positive,
                    (
                      delete_pairing_history-Spends now limit positive,
                      (
                        deletes-Spends Tables.external_runs
                            (λ xs t. record t { external_runs = xs })
                            (λ t. is_old_job_run policy now t) limit positive (λ t. refl)
                            (λ t xs. omega arith),
                        (
                          deletes-Spends Tables.events (λ xs t. record t { events = xs })
                              (λ t. is_before now (days policy.event_days)) limit positive
                              (λ t. refl) (λ t xs. omega arith),
                          tt,
                        ),
                      ),
                    ),
                  ),
                ),
              ),
            ),
          ),
        ),
      ),
    ),
  ),
)
