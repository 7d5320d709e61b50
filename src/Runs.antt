-- ===== src/Runs.antt =====
-- app/backend/src/services/runClaim.js and runLifecycle.js: the table backup_runs, on
-- which all features start, list, finish and cancel their runs. Each function is one transaction
-- or one SQL statement, so a run of the program is a sequence of them. The rows are in the order
-- of their ids, which the table hands out. Of the columns, those are modelled that decide
-- something; a time is a number.
pub mod OneActive
pub mod Interleaving
pub mod Restart
pub mod Pages
pub mod Cancel
mod Examples
use red_man.Common.{
  update_where, ℕ, zero, suc, ◌+◌, ◌*◌, ◌-◌, ◌/◌, String, Bool, true, false, ◌&&◌, ◌||◌, not,
  Option, none, some, List, [], ◌∷◌, ◌++◌, min, max, ltb, leb, length, take, drop, select, tally,
  nat_beq, ◌===◌, if◌then◌else◌, String-Comparable, ℕ-Comparable,
}

pub data Status : Type 0 where
  running cancelling cancelled completed partial failed : Status

pub record Row : Type 0 where
  pub id : ℕ
  pub feature : String
  pub config_id : ℕ
  pub status : Status
  pub peer_static_pubkey : Option String
  pub started_at : ℕ
  pub error_message : Option String

pub record Table : Type 0 where
  pub rows : List Row
  pub next_id : ℕ

-- `status = 'running'`
abbrev pub is_running : Status → Bool
is_running running = true
is_running other = false

-- `status IN ('running', 'cancelling')`
abbrev pub is_active : Status → Bool
is_active running = true
is_active cancelling = true
is_active other = false

-- The `WHERE` of the claim.
abbrev pub is_active_of : String → ℕ → Row → Bool
is_active_of feature config r =
    (r.feature === feature && r.config_id === config) && is_active r.status

-- `ORDER BY id DESC LIMIT 1`
unfoldable pub newest_where : (Row → Bool) → List Row → Option ℕ
newest_where p [] = none
newest_where p (r ∷ rows) = elim (newest_where p rows) [
  | some id ↦ some id
  | none ↦ if p r then some r.id else none
]

pub record Claim : Type 0 where
  pub claimed : Bool
  pub run_id : ℕ

unfoldable pub insert_run : Table → String → ℕ → Option String → ℕ → Table
insert_run t feature config key now = record {
  rows =
      t.rows
      ++ record {
        id = t.next_id;
        feature = feature;
        config_id = config;
        status = running;
        peer_static_pubkey = key;
        started_at = now;
        error_message = none;
      }
        ∷ [];
  next_id = suc t.next_id;
}

unfoldable pub claim_backup_run : Table → String → ℕ → Option String → ℕ → Table × Claim
unfolding insert_run newest_where
claim_backup_run t feature config key now =
    elim (newest_where (is_active_of feature config) t.rows) [
      | some id ↦ (t, record { claimed = false; run_id = id })
      | none ↦ (insert_run t feature config key now, record { claimed = true; run_id = t.next_id })
    ]

-- `WHERE id = ? AND feature = ? AND status = 'running'`
abbrev pub is_running_run : ℕ → String → Row → Bool
is_running_run id feature r = (r.id === id && r.feature === feature) && is_running r.status

abbrev pub with_status : Status → Option String → Row → Row
with_status status message r = record r { status = status; error_message = message }

-- `execute` returns a promise, or throws before it does.
pub data Execution : Type 0 where
  launched : Execution
  threw : String → Execution

-- What becomes of a claimed run, by what `execute` did; a message is thrown on.
unfoldable pub launch : Table → String → Claim → Execution → Table × Claim × Option String
launch t feature claim launched = (t, claim, none)
launch t feature claim (threw message) = (
  record t {
    rows =
        update_where (is_running_run claim.run_id feature) (with_status failed (some message))
          t.rows;
  },
  claim,
  some message,
)

unfoldable pub start_claimed_run :
    Table → String → ℕ → Option String → ℕ → (ℕ → Execution) → Table × Claim × Option String
unfolding claim_backup_run launch
start_claimed_run t feature config key now execute =
    let (claimed_table, claim) = claim_backup_run t feature config key now in
    if claim.claimed
    then launch claimed_table feature claim (execute claim.run_id)
    else (claimed_table, claim, none)

unfoldable pub get_feature_run : Table → String → ℕ → Option Row
get_feature_run t feature id = find t.rows
  where
    find : List Row → Option Row
    find [] = none
    find (r ∷ rows) = if r.id === id && r.feature === feature then some r else find rows

pub data Refusal : Type 0 where
  not_found not_active no_process : Refusal

pub data Cancellation : Type 0 where
  refused : Refusal → Cancellation
  done : Row → Cancellation

abbrev pub cancelled_by_user : Row → Row
cancelled_by_user = with_status cancelled (some "Cancelled by user")

-- The rest of a cancellation, for a run that was found running. `cancelProcess` may change the
-- table while it stops the process: it returns the table with its answer.
unfoldable pub cancel_running :
    Table → String → Row → (ℕ → Table → Table × Bool) → Table × Cancellation
cancel_running t feature run cancel_process =
    let (t', stopped) = cancel_process run.id t in
    let matches = is_running_run run.id feature in
    if stopped
    then (
      record t' { rows = update_where matches cancelled_by_user t'.rows },
      if nat_beq (tally matches t'.rows) 1
          then done (cancelled_by_user run)
          else refused not_active,
    )
    else (t', refused no_process)

unfoldable pub cancel_feature_run :
    Table → String → ℕ → (ℕ → Table → Table × Bool) → Table × Cancellation
unfolding get_feature_run cancel_running
cancel_feature_run t feature id cancel_process = elim (get_feature_run t feature id) [
  | none ↦ (t, refused not_found)
  | some run ↦
      if is_running run.status
      then cancel_running t feature run cancel_process
      else (t, refused not_active)
]

-- What a run's executor writes in the end, and the route that asks a run to stop.
unfoldable pub finish_run : Table → ℕ → Status → Option String → Table
finish_run t id status message = record t {
  rows = update_where (λ r. r.id === id) (with_status status message) t.rows;
}

unfoldable pub request_cancel : Table → ℕ → Table
request_cancel t id = record t {
  rows =
      update_where (is_running_run id "media-import") (λ r. record r { status = cancelling })
        t.rows;
}
