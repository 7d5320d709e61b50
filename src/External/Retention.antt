-- ===== src/External/Retention.antt =====
-- What the deletion of old runs in app/backend/src/services/externalJobs.js keeps.
use red_man.Common.{
  ℕ, ◌+◌, ◌*◌, ◌/◌, ◌-◌, ◌≤◌, ◌≡◌, String, Bool, true, false, ◌&&◌, ◌||◌, not, Option, none, some,
  Option-cases, inl, inr, List, [], ◌∷◌, refl, tally, tally-le, min, max, leb, length, find_where,
  ◌===◌, ℕ-Comparable, arith,
}
use red_man.External.{
  Job, Run, Db, Status, completed, failed, running, latest, is_completed, is_failed, is_running,
}
use red_man.External.Heartbeats.{
  delete_first, is_newest, is_old, or_default, prune_external_job_runs,
}
use red_man.External.Reports.{get_external_job_health}

delete_first-find_where :
    (n : ℕ) (p : Run → Bool) (id : ℕ) (rows : List Run) (r : Run)
    → find_where (λ q. q.id === id) rows ≡ some r
    → p r ≡ false
    → find_where (λ q. q.id === id) (delete_first n p rows) ≡ some r
delete_first-find_where n p id [] r found stays = cc
delete_first-find_where n p id (q ∷ rows) r found stays =
    ground
      (arith, delete_first-find_where n p id rows r, delete_first-find_where (n - 1) p id rows r)

length-delete_first :
    (n : ℕ) (p : Run → Bool) (rows : List Run) → length rows ≤ length (delete_first n p rows) + n
length-delete_first n p [] = omega arith
length-delete_first n p (r ∷ rows) =
    ground (arith, length-delete_first n p rows, length-delete_first (n - 1) p rows)

-- A deletion of old runs keeps the newest run of each job, and every run that is at most as old as
-- the days that are asked for, of which there is one at least. It deletes no more than 10000 runs.
pub prune_external_job_runs_keeps :
    (now days batch_size id : ℕ) (db : Db) (r : Run)
    → find_where (λ q. q.id === id) db.runs ≡ some r
    → (is_newest db.runs r || leb (now / 1000) (r.reported_at + max 1 days * 86400)) ≡ true
    → (find_where (λ q. q.id === id) (prune_external_job_runs now days batch_size db).runs ≡ some r)
      × (length db.runs ≤ length (prune_external_job_runs now days batch_size db).runs + 10000)
unfolding prune_external_job_runs
prune_external_job_runs_keeps now days batch_size id db r found reason =
    let p : Run → Bool =
      λ (q : Run). is_old now (max 1 (or_default 90 days)) q && not (is_newest db.runs q) in
    let n : ℕ = min (max (or_default 1000 batch_size) 1) 10000 in
    (
      delete_first-find_where n p id db.runs r found (ground arith),
      omega (arith, length-delete_first n p db.runs),
    )

-- Which rows the deletion takes.
abbrev pub is_deletable : ℕ → ℕ → Db → Run → Bool
is_deletable now days db r = is_old now (max 1 (or_default 90 days)) r && not (is_newest db.runs r)

-- Where all rows that pass fit, a deletion leaves none of them.
tally-delete_first :
    (n : ℕ) (p q : Run → Bool) (rows : List Run)
    → tally p rows ≤ n
    → tally (λ r. q r && not (p r)) rows ≡ 0
    → tally q (delete_first n p rows) ≡ 0
tally-delete_first n p q [] fits only = refl
tally-delete_first n p q (r ∷ rows) fits only =
    ground (arith, tally-delete_first n p q rows, tally-delete_first (n - 1) p q rows)

latest-none : (p : Run → Bool) (rows : List Run) → tally p rows ≡ 0 → latest p rows ≡ none
latest-none p [] h = refl
latest-none p (r ∷ rows) h = ground (arith, latest-none p rows)

none-latest : (p : Run → Bool) (rows : List Run) → latest p rows ≡ none → tally p rows ≡ 0
none-latest p [] h = refl
none-latest p (r ∷ rows) h = elim (Option-cases (latest p rows)) [
  | inl below ↦ ground (arith, none-latest p rows)
  | inr (best, found) ↦ absurd (ground arith)
]

-- A run of the job that has ended.
abbrev pub is_ended_of : ℕ → Run → Bool
is_ended_of job r = r.job_id === job && not (is_running r.status)

ended_cases :
    (status : Status) → not (is_running status) ≡ (is_completed status || is_failed status)
ended_cases completed = refl
ended_cases failed = refl
ended_cases running = refl

-- An end is a success or a failure.
ended-none :
    (job : ℕ) (rows : List Run)
    → tally (λ r. r.job_id === job && is_completed r.status) rows ≡ 0
    → tally (λ r. r.job_id === job && is_failed r.status) rows ≡ 0
    → tally (is_ended_of job) rows ≡ 0
ended-none job [] a b = refl
ended-none job (r ∷ rows) a b = ground (arith, ended-none job rows, ended_cases r.status)

-- Where no run of a job is kept that has ended, the job counts as one that never reported, and else not.
never_reported-ended :
    (next : String → ℕ → Option ℕ) (now : ℕ) (job : Job) (db : Db)
    → ((tally (is_ended_of job.id) db.runs ≡ 0)
        → (get_external_job_health next now job db).never_reported ≡ true)
      × ((1 ≤ tally (is_ended_of job.id) db.runs)
          → (get_external_job_health next now job db).never_reported ≡ false)
unfolding get_external_job_health
never_reported-ended next now job db =
    let succeeded : Run → Bool = λ (r : Run). r.job_id === job.id && is_completed r.status in
    let broken : Run → Bool = λ (r : Run). r.job_id === job.id && is_failed r.status in
    let among = λ (q : Run → Bool). tally-le q (is_ended_of job.id) db.runs in
    (
      λ gone.
          let a = among succeeded (λ r h. ground (arith, ended_cases r.status)) in
          let b = among broken (λ r h. ground (arith, ended_cases r.status)) in
          let c = latest-none succeeded db.runs (omega arith) in
          let d = latest-none broken db.runs (omega arith) in ground arith,
      λ some_. elim (Option-cases (latest succeeded db.runs)) [
        | inr (r, found) ↦ ground arith
        | inl never ↦ elim (Option-cases (latest broken db.runs)) [
          | inr (r, found) ↦ ground arith
          | inl neither ↦
              let e =
                ended-none job.id db.runs (none-latest succeeded db.runs never)
                  (none-latest broken db.runs neither) in
              absurd (omega arith)
        ]
      ],
    )

-- Where every run of a job that has ended is older than the days asked for, and none of them is the
-- job's newest run, as when a beginning has been reported since, and where one batch takes all rows that
-- may be deleted: the job counts as one that never reported once the old runs are deleted, though it did
-- not before.
pub prune_external_job_runs_forgets :
    (next : String → ℕ → Option ℕ) (now days batch_size : ℕ) (job : Job) (db : Db)
    → 1 ≤ tally (is_ended_of job.id) db.runs
    → tally (λ r. is_ended_of job.id r && not (is_deletable now days db r)) db.runs ≡ 0
    → tally (is_deletable now days db) db.runs ≤ min (max (or_default 1000 batch_size) 1) 10000
    → ((get_external_job_health next now job db).never_reported ≡ false)
      × ((get_external_job_health next now job
            (prune_external_job_runs now days batch_size db)).never_reported
          ≡ true)
unfolding prune_external_job_runs
prune_external_job_runs_forgets next now days batch_size job db ended old fits = (
  (never_reported-ended next now job db).1 ended,
  (never_reported-ended next now job (prune_external_job_runs now days batch_size db)).0 (
      tally-delete_first (min (max (or_default 1000 batch_size) 1) 10000) (is_deletable now days db)
        (is_ended_of job.id) db.runs fits old),
)
