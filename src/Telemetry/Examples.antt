-- ===== src/Telemetry/Examples.antt =====
-- The deletion of old rows on a small example.
use red_man.Common.{
  ℕ, ◌+◌, ◌*◌, ◌-◌, ◌<◌, ◌≡◌, refl, true, false, none, some, [], ◌∷◌, arith, suc, if◌then◌else◌,
  ltb,
}
use red_man.Telemetry.{AuthSession, iso, sql, Tables, Policy, get_database_retention_policy}
use red_man.Telemetry.Prune.{
  delete_run_files, delete_runs, delete_routine_audit, delete_security_audit, delete_metrics,
  delete_summaries, delete_auth_audit, delete_sessions, delete_recoveries, delete_pairing_history,
  delete_external_runs, delete_events, expire_pairings,
}
use red_man.Telemetry.Loop.{Watch, Outcome, retention_loop, zeros, sum}
use red_man.Telemetry.Batches.{weight}
use red_man.Telemetry.Ends.{leftover, retention_loop_completes}

abbrev policy : Policy
policy = get_database_retention_policy (λ key. none)

-- A session that has run out on the day of the limit, before its time.
abbrev same_day : AuthSession
same_day = record { revoked_at = none; absolute_expires_at = iso 33990000 }

-- A run of the first second, with two files; events of the first and of a later day.
abbrev old_tables : Tables
old_tables = record {
  run_files = record { id = 1; run_id = 7 } ∷ record { id = 2; run_id = 7 } ∷ [];
  runs = record { id = 7; is_running = false; started_at = some 0; completed_at = some 1 } ∷ [];
  peer_audit = [];
  metrics = [];
  cache = [];
  ssd_configs = [];
  auth_audit = [];
  sessions =
      same_day
      ∷ record { revoked_at = some (sql 33990000); absolute_expires_at = iso 34000000 }
      ∷ [];
  recoveries = [];
  pairings = [];
  external_runs = [];
  events = 0 ∷ 34000000 ∷ [];
}

-- Noon, 400 days after the first day, with a second between two batches.
abbrev watch : Watch
watch = record {
  should_stop = λ n. false;
  started_at = 34603200000;
  clock = λ n. 34603200000 + (if ltb n 9 then n else 9) * 1000;
  max_duration = 30000;
}

abbrev ended : Outcome × Tables
ended = retention_loop policy 1 2 watch 8 0 zeros old_tables

in_time : (n : ℕ) → watch.clock n - watch.started_at < watch.max_duration
in_time n = ground arith

-- The run's files go one by one, the run after them, the young event stays, and of the two sessions the
-- one that was written by `toISOString`.
old_tables_end :
    (ended.0.batches ≡ 3)
    × (ended.1.runs ≡ [])
    × (ended.1.events ≡ 34000000 ∷ [])
    × (ended.1.sessions ≡ same_day ∷ [])
unfolding retention_loop delete_run_files delete_runs delete_routine_audit delete_security_audit
    delete_metrics delete_summaries delete_auth_audit delete_sessions delete_recoveries
    delete_pairing_history delete_external_runs delete_events expire_pairings
old_tables_end = (refl, refl, refl, refl)

retention_loop_completes_example :
    (ended.0.complete ≡ true)
    × ((last : ℕ) × (ended.0.batches ≡ suc last) × (leftover policy (watch.clock last) ended.1 ≡ 0))
    × (weight ended.1 + sum ended.0.totals ≡ weight old_tables)
retention_loop_completes_example =
    retention_loop_completes policy 1 2 watch (omega arith) (omega arith) (λ n. refl) in_time 8
      old_tables (omega arith)
