-- ===== src/Runs/Examples.antt =====
-- The table of runs at concrete inputs.
use red_man.Common.{
  ℕ, Bool, ◌≤◌, ◌≡◌, refl, ap, true, false, ◌===◌, String-Comparable, none, some, [], arith, length,
  tally, select,
}
use red_man.Runs.{
  Row, running, is_running, is_running_run, get_feature_run, cancelled_by_user, cancel_feature_run,
  completed, Table, is_active_of, newest_where, claim_backup_run, Execution, launched, threw,
  start_claimed_run, finish_run, insert_run,
}
use red_man.Runs.Interleaving.{Steps, here, next, starts, imports, runs-OneActive}
use red_man.Runs.Cancel.{cancel_feature_run_done}
use red_man.Runs.Restart.{start_claimed_run_throws}
use red_man.Runs.Pages.{
  newest_runs_first, is_listed, list_feature_runs, normalize_pagination, page_count, first_pages,
  pages_complete,
}

abbrev empty : Table
empty = record { rows = []; next_id = 1 }

abbrev runs_at : ℕ → Execution
runs_at id = launched

abbrev fails_at : ℕ → Execution
fails_at id = threw "spawn rsync ENOENT"

-- A run, a second start of the same job beside it, and a run of another job.
abbrev two_jobs : Table
two_jobs =
    (start_claimed_run
      (start_claimed_run (start_claimed_run empty "ssd-backup" 3 none 100 runs_at).0 "ssd-backup" 3
        none 160 runs_at).0
      "rclone" 3 none 200 runs_at).0

second_start_refused : length two_jobs.rows ≡ 2
unfolding start_claimed_run
second_start_refused = refl

two_jobs-Steps : Steps empty two_jobs
two_jobs-Steps =
    next
      (next (next here (starts _ "ssd-backup" 3 none 100 runs_at refl))
        (starts _ "ssd-backup" 3 none 160 runs_at refl))
      (starts _ "rclone" 3 none 200 runs_at refl)

-- Two imports of the same drive, beside them.
abbrev with_imports : Table
with_imports = insert_run (insert_run two_jobs "media-import" 9 none 210) "media-import" 9 none 220

with_imports-Steps : Steps empty with_imports
with_imports-Steps = next (next two_jobs-Steps (imports _ 9 210)) (imports _ 9 220)

runs-OneActive_example : tally (is_active_of "ssd-backup" 3) with_imports.rows ≤ 1
runs-OneActive_example =
    runs-OneActive with_imports-Steps "ssd-backup" 3
      (λ same. let e : true ≡ false = ap (λ s. s === "ssd-backup") same in cc)

abbrev finished : Table
finished = finish_run two_jobs 1 completed none

claim_again :
    (claim_backup_run finished "ssd-backup" 3 none 300).1 ≡ record { claimed = true; run_id = 3 }
unfolding start_claimed_run finish_run
claim_again = refl

start_claimed_run_throws_example :
    ((start_claimed_run empty "ssd-backup" 3 none 100 fails_at).2 ≡ some "spawn rsync ENOENT")
    × ((claim_backup_run
          (start_claimed_run empty "ssd-backup" 3 none 100 fails_at).0
          "ssd-backup"
          3
          none
          101).1.claimed
        ≡ true)
unfolding newest_where
start_claimed_run_throws_example =
    start_claimed_run_throws empty "ssd-backup" 3 none 100 "spawn rsync ENOENT" fails_at refl refl
      none 101

two_pages :
    (page_count two_jobs "rclone" none 20 1 none ≡ 1)
    × (page_count two_jobs "ssd-backup" (some 3) 20 1 (some 5) ≡ 1)
unfolding start_claimed_run list_feature_runs normalize_pagination
two_pages = (refl, refl)

pages_complete_example :
    first_pages two_jobs "ssd-backup" none 20 100
      (some 1)
      (page_count two_jobs "ssd-backup" none 20 100 (some 1))
    ≡ newest_runs_first (select (is_listed "ssd-backup" none) two_jobs.rows)
pages_complete_example =
    pages_complete two_jobs "ssd-backup" none 20 100 (some 1) (omega arith) (omega arith)

abbrev stops : ℕ → Table → Table × Bool
stops id t = (t, true)

abbrev first_row : Row
first_row = record {
  id = 1;
  feature = "ssd-backup";
  config_id = 3;
  status = running;
  peer_static_pubkey = none;
  started_at = 100;
  error_message = none;
}

cancel_feature_run_done_example :
    (run : Row) × (get_feature_run two_jobs "ssd-backup" 1 ≡ some run)
    × (is_running run.status ≡ true)
    × (cancelled_by_user first_row ≡ cancelled_by_user run)
    × (tally (is_running_run run.id "ssd-backup") (stops run.id two_jobs).0.rows ≡ 1)
    × (tally
          (is_running_run run.id "ssd-backup")
          (cancel_feature_run two_jobs "ssd-backup" 1 stops).0.rows
        ≡ 0)
unfolding start_claimed_run cancel_feature_run
cancel_feature_run_done_example =
    cancel_feature_run_done two_jobs "ssd-backup" stops 1 (cancelled_by_user first_row) refl
