-- ===== src/Telemetry.antt =====
-- app/backend/src/services/databaseRetention.js: the rows that are deleted once they are old, in
-- batches. A time of a row is a number of seconds, and `now` is one of milliseconds. Of the columns,
-- those are modelled that decide on a deletion.
pub mod Prune
pub mod Loop
pub mod Firsts
pub mod Batches
pub mod Ends
mod Examples
use red_man.Common.{
  ℕ, zero, suc, ◌+◌, ◌*◌, ◌/◌, ◌≤◌, min, String, Bool, true, false, ◌&&◌, ◌||◌, not, Option, none,
  some, List, [], ◌∷◌, any, tally, length, ltb, nat_beq, ◌===◌, if◌then◌else◌, String-Comparable,
}
use red_man.Pairing.Store.{Request, sql_now, is_open, with_status}
use red_man.Pairing.Store.Status.{expired}
use red_man.Pairing.Requests.{runs_out, is_old}

pub record RunFile : Type 0 where
  pub id : ℕ
  pub run_id : ℕ

pub record BackupRun : Type 0 where
  pub id : ℕ
  pub is_running : Bool
  pub started_at : Option ℕ
  pub completed_at : Option ℕ

pub record PeerAudit : Type 0 where
  pub action : String
  pub created_at : ℕ

-- An entry of the cache: the configuration whose version statistics it holds, if it does.
pub record CacheEntry : Type 0 where
  pub version_stats : Option ℕ

-- A time of authService.js, in seconds: written by `toISOString`, as 2024-05-01T03:00:00.000Z, or by
-- `datetime`, as 2024-05-01 03:00:00.
pub data Stamp : Type 0 where
  iso sql : ℕ → Stamp

pub record AuthSession : Type 0 where
  pub revoked_at : Option Stamp
  pub absolute_expires_at : Stamp

pub record RecoveryEvent : Type 0 where
  pub is_issued : Bool
  pub expires_at : Stamp
  pub created_at : Stamp

pub record JobRun : Type 0 where
  pub id : ℕ
  pub job_id : ℕ
  pub reported_at : ℕ

-- Container metrics, the entries of the authentication log and events are the times of their rows.
pub record Tables : Type 0 where
  pub run_files : List RunFile
  pub runs : List BackupRun
  pub peer_audit : List PeerAudit
  pub metrics : List ℕ
  pub cache : List CacheEntry
  pub ssd_configs : List ℕ
  pub auth_audit : List ℕ
  pub sessions : List AuthSession
  pub recoveries : List RecoveryEvent
  pub pairings : List Request
  pub external_runs : List JobRun
  pub events : List ℕ

pub record Policy : Type 0 where
  pub run_file_days : ℕ
  pub run_history_days : ℕ
  pub routine_audit_days : ℕ
  pub security_audit_days : ℕ
  pub auth_audit_days : ℕ
  pub metrics_hours : ℕ
  pub external_run_days : ℕ
  pub event_days : ℕ

-- `parseInt` of a setting, where it is a number.
abbrev pub read_positive_setting : (String → Option ℕ) → String → ℕ → ℕ
read_positive_setting setting key fallback = elim (setting key) [
  | none ↦ fallback
  | some value ↦ if ltb 0 value then value else fallback
]

abbrev pub get_database_retention_policy : (String → Option ℕ) → Policy
get_database_retention_policy setting = record {
  run_file_days = read_positive_setting setting "run_files_retention_days" 30;
  run_history_days = read_positive_setting setting "run_history_retention_days" 365;
  routine_audit_days = read_positive_setting setting "peer_audit_retention_days" 30;
  security_audit_days = read_positive_setting setting "peer_security_audit_retention_days" 365;
  auth_audit_days = read_positive_setting setting "auth_audit_retention_days" 365;
  metrics_hours = read_positive_setting setting "metrics_retention_hours" 24;
  external_run_days = read_positive_setting setting "external_run_retention_days" 90;
  event_days = read_positive_setting setting "event_retention_days" 90;
}

-- `< datetime('now', '-n seconds')`
abbrev pub is_before : ℕ → ℕ → ℕ → Bool
is_before now seconds at = ltb (at + seconds) (sql_now now)

abbrev pub is_some_before : ℕ → ℕ → Option ℕ → Bool
is_some_before now seconds none = false
is_some_before now seconds (some at) = is_before now seconds at

abbrev pub days : ℕ → ℕ
days n = n * 86400

-- `< datetime('now', '-n days')` as texts: a text of `toISOString` is less exactly if its day is earlier,
-- since on the same day its `T` comes after the blank.
abbrev pub is_stamp_before : ℕ → ℕ → Stamp → Bool
is_stamp_before now n (iso at) = ltb (at / 86400 + n) (sql_now now / 86400)
is_stamp_before now n (sql at) = is_before now (days n) at

-- The file of a run that has started long ago.
abbrev pub is_old_run_file : Policy → ℕ → Tables → RunFile → Bool
is_old_run_file policy now t file =
    any
      (λ (run : BackupRun).
        nat_beq run.id file.run_id && is_some_before now (days policy.run_file_days) run.started_at)
      t.runs

abbrev pub ended_before : ℕ → ℕ → BackupRun → Bool
ended_before now seconds run = elim run.completed_at [
  | some at ↦ is_before now seconds at
  | none ↦ is_some_before now seconds run.started_at
]

abbrev pub is_old_run : Policy → ℕ → Tables → BackupRun → Bool
is_old_run policy now t run =
    (not run.is_running && ended_before now (days policy.run_history_days) run)
    && not (any (λ (file : RunFile). nat_beq file.run_id run.id) t.run_files)

abbrev pub routine_audit_actions : List String
routine_audit_actions =
    "auth_success" ∷ "health_check" ∷ "status_check" ∷ "storage_check" ∷ "browse" ∷ "roots"
    ∷ "shares" ∷ []

abbrev pub is_routine : PeerAudit → Bool
is_routine entry = any (λ action. action === entry.action) routine_audit_actions

abbrev pub is_old_routine : Policy → ℕ → PeerAudit → Bool
is_old_routine policy now entry =
    is_routine entry && is_before now (days policy.routine_audit_days) entry.created_at

abbrev pub is_old_security : Policy → ℕ → PeerAudit → Bool
is_old_security policy now entry =
    not (is_routine entry) && is_before now (days policy.security_audit_days) entry.created_at

abbrev pub is_orphaned : Tables → CacheEntry → Bool
is_orphaned t entry = elim entry.version_stats [
  | none ↦ false
  | some config ↦ not (any (λ id. nat_beq id config) t.ssd_configs)
]

-- A week after the session was revoked, or else has run out, by the comparison of texts.
abbrev pub is_old_session : ℕ → AuthSession → Bool
is_old_session now session = elim session.revoked_at [
  | some at ↦ is_stamp_before now 7 at
  | none ↦ is_stamp_before now 7 session.absolute_expires_at
]

abbrev pub is_old_recovery : ℕ → RecoveryEvent → Bool
is_old_recovery now event =
    (not event.is_issued || is_stamp_before now 0 event.expires_at)
    && is_stamp_before now 30 event.created_at

-- `id IN (SELECT MAX(id) FROM external_job_runs GROUP BY job_id)`
abbrev pub is_newest_of_job : Tables → JobRun → Bool
is_newest_of_job t run = not (
    any (λ (other : JobRun). nat_beq other.job_id run.job_id && ltb run.id other.id)
      t.external_runs)

abbrev pub is_old_job_run : Policy → ℕ → Tables → JobRun → Bool
is_old_job_run policy now t run =
    is_before now (days policy.external_run_days) run.reported_at && not (is_newest_of_job t run)

-- A deletion with a `LIMIT`: of the rows that pass, as many as it allows, from the first on.
unfoldable pub remove_first {ℓ} : {A : Type ℓ} → ℕ → (A → Bool) → List A → List A
remove_first zero p xs = xs
remove_first (suc n) p [] = []
remove_first (suc n) p (x ∷ xs) = if p x then remove_first n p xs else x ∷ remove_first (suc n) p xs

unfoldable pub update_first {ℓ} : {A : Type ℓ} → ℕ → (A → Bool) → (A → A) → List A → List A
update_first zero p f xs = xs
update_first (suc n) p f [] = []
update_first (suc n) p f (x ∷ xs) =
    if p x then f x ∷ update_first n p f xs else x ∷ update_first (suc n) p f xs
