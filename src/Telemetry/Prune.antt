-- ===== src/Telemetry/Prune.antt =====
-- One batch of app/backend/src/services/databaseRetention.js.
use red_man.Common.{ℕ, ◌*◌, min, Bool, List, [], ◌∷◌, tally, String-Comparable}
use red_man.Pairing.Store.{with_status}
use red_man.Pairing.Store.Status.{expired}
use red_man.Pairing.Requests.{runs_out, is_old}
use red_man.Telemetry.{
  Tables, Policy, is_before, days, is_old_run_file, is_old_run, is_old_routine, is_old_security,
  is_orphaned, is_old_session, is_old_recovery, is_old_job_run, remove_first, update_first,
}

-- How many rows a statement changes: those that pass, as many as its `LIMIT` allows.
abbrev pub changes {ℓ} : {A : Type ℓ} → ℕ → (A → Bool) → List A → ℕ
changes limit p xs = min limit (tally p xs)

-- A statement: what it changes, and the tables.
abbrev pub Statement : Type 0
Statement = Tables → ℕ × Tables

unfoldable pub delete_run_files : Policy → ℕ → ℕ → Statement
unfolding remove_first
delete_run_files policy now limit t = (
  changes limit (is_old_run_file policy now t) t.run_files,
  record t { run_files = remove_first limit (is_old_run_file policy now t) t.run_files },
)

unfoldable pub delete_runs : Policy → ℕ → ℕ → Statement
unfolding remove_first
delete_runs policy now limit t = (
  changes limit (is_old_run policy now t) t.runs,
  record t { runs = remove_first limit (is_old_run policy now t) t.runs },
)

unfoldable pub delete_routine_audit : Policy → ℕ → ℕ → Statement
unfolding remove_first
delete_routine_audit policy now limit t = (
  changes limit (is_old_routine policy now) t.peer_audit,
  record t { peer_audit = remove_first limit (is_old_routine policy now) t.peer_audit },
)

unfoldable pub delete_security_audit : Policy → ℕ → ℕ → Statement
unfolding remove_first
delete_security_audit policy now limit t = (
  changes limit (is_old_security policy now) t.peer_audit,
  record t { peer_audit = remove_first limit (is_old_security policy now) t.peer_audit },
)

unfoldable pub delete_metrics : Policy → ℕ → ℕ → Statement
unfolding remove_first
delete_metrics policy now limit t = (
  changes limit (is_before now (policy.metrics_hours * 3600)) t.metrics,
  record t { metrics = remove_first limit (is_before now (policy.metrics_hours * 3600)) t.metrics },
)

unfoldable pub delete_summaries : ℕ → ℕ → Statement
unfolding remove_first
delete_summaries now limit t = (
  changes limit (is_orphaned t) t.cache,
  record t { cache = remove_first limit (is_orphaned t) t.cache },
)

unfoldable pub delete_auth_audit : Policy → ℕ → ℕ → Statement
unfolding remove_first
delete_auth_audit policy now limit t = (
  changes limit (is_before now (days policy.auth_audit_days)) t.auth_audit,
  record t {
    auth_audit = remove_first limit (is_before now (days policy.auth_audit_days)) t.auth_audit;
  },
)

unfoldable pub delete_sessions : ℕ → ℕ → Statement
unfolding remove_first
delete_sessions now limit t = (
  changes limit (is_old_session now) t.sessions,
  record t { sessions = remove_first limit (is_old_session now) t.sessions },
)

unfoldable pub delete_recoveries : ℕ → ℕ → Statement
unfolding remove_first
delete_recoveries now limit t = (
  changes limit (is_old_recovery now) t.recoveries,
  record t { recoveries = remove_first limit (is_old_recovery now) t.recoveries },
)

unfoldable pub expire_pairings : ℕ → ℕ → Statement
unfolding update_first
expire_pairings now limit t = (
  changes limit (runs_out now) t.pairings,
  record t { pairings = update_first limit (runs_out now) (with_status now expired) t.pairings },
)

unfoldable pub delete_pairing_history : ℕ → ℕ → Statement
unfolding remove_first
delete_pairing_history now limit t = (
  changes limit (is_old now) t.pairings,
  record t { pairings = remove_first limit (is_old now) t.pairings },
)

unfoldable pub delete_external_runs : Policy → ℕ → ℕ → Statement
unfolding remove_first
delete_external_runs policy now limit t = (
  changes limit (is_old_job_run policy now t) t.external_runs,
  record t { external_runs = remove_first limit (is_old_job_run policy now t) t.external_runs },
)

unfoldable pub delete_events : Policy → ℕ → ℕ → Statement
unfolding remove_first
delete_events policy now limit t = (
  changes limit (is_before now (days policy.event_days)) t.events,
  record t { events = remove_first limit (is_before now (days policy.event_days)) t.events },
)

-- The statements of a batch in order.
abbrev pub statements : Policy → ℕ → ℕ → ℕ → List Statement
statements policy now file_limit limit =
    delete_run_files policy now file_limit
    ∷ delete_runs policy now limit
    ∷ delete_routine_audit policy now limit
    ∷ delete_security_audit policy now limit
    ∷ delete_metrics policy now limit
    ∷ delete_summaries now limit
    ∷ delete_auth_audit policy now limit
    ∷ delete_sessions now limit
    ∷ delete_recoveries now limit
    ∷ expire_pairings now limit
    ∷ delete_pairing_history now limit
    ∷ delete_external_runs policy now limit
    ∷ delete_events policy now limit
    ∷ []

-- One statement after another, with what each has changed.
unfoldable pub run_statements : List Statement → Tables → List ℕ × Tables
run_statements [] t = ([], t)
run_statements (s ∷ rest) t =
    let (changed, next) = s t in
    let (counts, last) = run_statements rest next in (changed ∷ counts, last)

unfoldable pub prune_database_telemetry : Policy → ℕ → ℕ → ℕ → Tables → List ℕ × Tables
unfolding run_statements
prune_database_telemetry policy now file_limit limit t =
    run_statements (statements policy now file_limit limit) t
