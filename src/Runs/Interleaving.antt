-- ===== src/Runs/Interleaving.antt =====
-- The features' steps on the table of runs, in any order.
use red_man.Common.{
  ℕ, ◌≤◌, ◌≡◌, ◌≢◌, none, true, ne→beq, String, Bool, Option, [], arith, tally, String-Comparable,
  ℕ-Comparable,
}
use red_man.Runs.{
  Status, Table, insert_run, is_active_of, Execution, start_claimed_run, cancel_feature_run,
  finish_run, request_cancel,
}
use red_man.Runs.OneActive.{
  OneActive, is_claimed, import-OneActive, IsFinal, start_claimed_run-OneActive,
  finish_run-OneActive, request_cancel-OneActive, cancel_feature_run-OneActive,
}

-- One step of the features. What follows a claim is left to the executor, which may finish its
-- run with any final status. The end of a process that is stopped is a step of its own. Imports of
-- media (app/backend/src/services/immichImport.js and onlineMediaImport.js) insert their runs
-- without a claim; all other features start theirs through one.
pub data Step : Table → Table → Type 0 where
  starts :
      (t : Table) (feature : String) (config : ℕ) (key : Option String) (now : ℕ)
      (execute : ℕ → Execution)
      → is_claimed feature ≡ true
      → Step t (start_claimed_run t feature config key now execute).0
  imports : (t : Table) (config now : ℕ) → Step t (insert_run t "media-import" config none now)
  finishes :
      (t : Table) (id : ℕ) (status : Status) (message : Option String)
      → IsFinal status
      → Step t (finish_run t id status message)
  requests : (t : Table) (id : ℕ) → Step t (request_cancel t id)
  cancels :
      (t : Table) (feature : String) (id : ℕ) (answer : ℕ → Bool)
      → Step t (cancel_feature_run t feature id (λ run u. (u, answer run))).0

pub data Steps (t : Table) : Table → Type 0 where
  here : Steps t t
  next : {u v : Table} → Steps t u → Step u v → Steps t v

Step-OneActive : {t u : Table} → Step t u → OneActive t → OneActive u
Step-OneActive (starts t feature config key now execute claimed_) one =
    start_claimed_run-OneActive t feature config key now execute one
Step-OneActive (imports t config now) one = import-OneActive t config now one
Step-OneActive (finishes t id status message final) one =
    finish_run-OneActive t id status message final one
Step-OneActive (requests t id) one = request_cancel-OneActive t id one
Step-OneActive (cancels t feature id answer) one =
    cancel_feature_run-OneActive t feature id (λ run u. (u, answer run)) (λ run u h. h) one

Steps-OneActive : {t u : Table} → Steps t u → OneActive t → OneActive u
Steps-OneActive here one = one
Steps-OneActive (next steps step) one = Step-OneActive step (Steps-OneActive steps one)

-- From the empty table, by starts through a claim, by imports of media, which are inserted without
-- one, and by ends, cancellations and requests for one, in any order, there is never more than one
-- active run of a configuration of any feature other than media-import.
pub runs-OneActive :
    {t : Table}
    → Steps (record { rows = []; next_id = 1 }) t
    → (feature : String) (config : ℕ) → feature ≢ "media-import"
    → tally (is_active_of feature config) t.rows ≤ 1
runs-OneActive steps feature config other =
    Steps-OneActive steps (λ f c claimed_. omega arith) feature config
      (ground (arith, ne→beq feature "media-import" other))
