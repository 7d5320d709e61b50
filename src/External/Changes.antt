-- ===== src/External/Changes.antt =====
-- What may happen to the tables of app/backend/src/services/externalJobs.js, and the runs of a
-- reference meanwhile.
use red_man.Common.{
  ℕ, ◌+◌, ◌/◌, ◌-◌, ◌≤◌, ◌≡◌, String, Bool, ◌&&◌, not, Option, some, List, [], ◌∷◌, min, max, leb,
  tally, tally-append, tally-le, String-Comparable, ℕ-Comparable, arith,
}
use red_man.External.{
  Job, Run, Db, Host, JobInput, JobChange, create_external_job, update_external_job,
  regenerate_ingest_token,
}
use red_man.External.Heartbeats.{
  Payload, has_ref, write_heartbeat, insert_heartbeat, record_heartbeat, Fields, new_run,
  record_relayed_heartbeat, delete_first, is_newest, is_old, or_default, prune_external_job_runs,
}

-- What may happen at a time.
pub data Change (h : Host) (now : ℕ) (db : Db) : Db → Type 0 where
  reported :
      (slug token : String) (p : Payload)
      → Change h now db (record_heartbeat h now slug token p db).0
  relayed : (f : Fields) → Change h now db (record_relayed_heartbeat h now f db).0
  pruned : (days batch_size : ℕ) → Change h now db (prune_external_job_runs now days batch_size db)
  job_created :
      (input : JobInput) (token : String) (db' : Db)
      → create_external_job h now input token db ≡ some db'
      → Change h now db db'
  job_updated : (id : ℕ) (c : JobChange) → Change h now db (update_external_job h id c db)
  token_made : (id : ℕ) (token : String) → Change h now db (regenerate_ingest_token h id token db)

-- Changes at times that do not go back.
pub data Changes (h : Host) (start : ℕ) (first : Db) : ℕ → Db → Type 0 where
  unchanged : Changes h start first start first
  changed :
      (last now : ℕ) (db db' : Db)
      → Changes h start first last db
      → last ≤ now
      → Change h now db db'
      → Changes h start first now db'

-- A run of the reference that was reported at a time or later.
abbrev pub is_kept : String → ℕ → Run → Bool
is_kept ref s r = has_ref ref r && leb s r.reported_at

abbrev pub kept : String → ℕ → Db → ℕ
kept ref s db = tally (is_kept ref s) db.runs

delete_first-kept :
    (n : ℕ) (p q : Run → Bool) (rows : List Run)
    → tally (λ r. q r && not (p r)) rows ≤ tally q (delete_first n p rows)
delete_first-kept n p q [] = omega arith
delete_first-kept n p q (r ∷ rows) =
    ground (arith, delete_first-kept n p q rows, delete_first-kept (n - 1) p q rows)

module _ (h : Host) (ref : String) (s now : ℕ) (db : Db) where
  write_heartbeat-kept :
      (job : Job) (p : Payload) (r : Option String)
      → kept ref s db ≤ kept ref s (write_heartbeat h now job p r db)
  unfolding write_heartbeat
  write_heartbeat-kept job p r =
      ground (arith, tally-append (is_kept ref s) db.runs (new_run h now job p r db.next_run ∷ []))

  insert_heartbeat-kept :
      (job : Job) (p : Payload) → kept ref s db ≤ kept ref s (insert_heartbeat h now job p db).0
  unfolding insert_heartbeat
  insert_heartbeat-kept job p = grind (arith, write_heartbeat-kept)

  prune-kept :
      (days batch_size : ℕ)
      → now / 1000 ≤ s + 86400
      → kept ref s db ≤ kept ref s (prune_external_job_runs now days batch_size db)
  unfolding prune_external_job_runs
  prune-kept days batch_size near =
      let p : Run → Bool =
        λ (r : Run). is_old now (max 1 (or_default 90 days)) r && not (is_newest db.runs r) in
      omega (
        arith,
        delete_first-kept (min (max (or_default 1000 batch_size) 1) 10000) p (is_kept ref s)
            db.runs,
        tally-le (is_kept ref s) (λ (r : Run). is_kept ref s r && not (p r)) db.runs
            (λ r e. ground arith),
      )

  Change-kept :
      (db' : Db) → now / 1000 ≤ s + 86400 → Change h now db db' → kept ref s db ≤ kept ref s db'
  unfolding record_heartbeat record_relayed_heartbeat create_external_job update_external_job
      regenerate_ingest_token
  Change-kept _ near (reported slug token p) = grind (arith, insert_heartbeat-kept)
  Change-kept _ near (relayed f) = grind (arith, insert_heartbeat-kept)
  Change-kept _ near (pruned days batch_size) = prune-kept days batch_size near
  Change-kept _ near (job_created input token db' e) = ground arith
  Change-kept _ near (job_updated id c) = omega arith
  Change-kept _ near (token_made id token) = omega arith

pub Changes-kept :
    (h : Host) (ref : String) (s start : ℕ) (first : Db) (now : ℕ) (db : Db)
    → now / 1000 ≤ s + 86400
    → Changes h start first now db
    → kept ref s first ≤ kept ref s db
Changes-kept h ref s start first _ _ near unchanged = omega arith
Changes-kept h ref s start first _ _ near (changed last now db db' before later change) = omega (
  arith,
  Changes-kept h ref s start first last db (omega arith) before,
  Change-kept h ref s now db db' near change,
)
