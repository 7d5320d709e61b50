-- ===== src/External/Heartbeats.antt =====
-- Heartbeats in app/backend/src/services/externalJobs.js: reports with a token, reports that a broker
-- relays with a signature, and the deletion of old ones. SQLite runs in one thread with the code, so
-- that nothing comes between the look for a reference and the insertion.
use red_man.Common.{
  ℕ, suc, ◌+◌, ◌*◌, ◌/◌, ◌-◌, String, Bool, false, ◌&&◌, ◌||◌, not, Option, none, some, List, [],
  ◌∷◌, ◌++◌, any, min, max, ltb, leb, nat_beq, length, update_where, ◌===◌, if◌then◌else◌,
  String-Comparable, ℕ-Comparable,
}
use Prim.Native.String.{◌++◌ as text_append}
use red_man.Common.Text.{codes, is_digit}
use red_man.External.{
  Status, completed, failed, Job, Run, Event, external_job_failed, external_job_recovered, Db, Host,
  is_completed, is_failed, latest_run, job_of, given,
}

-- What a report says of a run. `status` is one of the three words, or nothing.
pub record Payload : Type 0 where
  pub status : Option Status
  pub exit_code : Option ℕ
  pub duration_seconds : Option ℕ
  pub message : Option String
  pub source_ref : Option String

pub data Recorded : Type 0 where
  duplicate : Recorded
  recorded : Status → Recorded

abbrev pub status_of : Payload → Status
status_of p = elim p.status [
  | some s ↦ s
  | none ↦ elim p.exit_code [
    | none ↦ completed
    | some n ↦ if nat_beq n 0 then completed else failed
  ]
]

abbrev pub has_ref : String → Run → Bool
has_ref ref r = elim r.source_ref [ none ↦ false | some s ↦ s === ref ]

-- Nothing for an absent or empty text.
abbrev pub cut_ref : Host → ℕ → Option String → Option String
cut_ref h n s = elim (given s) [ none ↦ none | some t ↦ some (h.cut n t) ]

-- A change from failure to success, or back, is an event.
abbrev pub was_failed : Option Run → Bool
was_failed none = false
was_failed (some r) = is_failed r.status

abbrev pub transition : Status → Option Run → String → List Event
transition s previous name =
    if is_failed s && not (was_failed previous)
    then external_job_failed name ∷ []
    else if is_completed s && was_failed previous
    then external_job_recovered name ∷ []
    else []

abbrev pub new_run : Host → ℕ → Job → Payload → Option String → ℕ → Run
new_run h now job p ref id = record {
  id = id;
  job_id = job.id;
  status = status_of p;
  exit_code = p.exit_code;
  duration_seconds = p.duration_seconds;
  message = cut_ref h 500 p.message;
  source_ref = ref;
  reported_at = now / 1000;
}

unfoldable pub write_heartbeat : Host → ℕ → Job → Payload → Option String → Db → Db
write_heartbeat h now job p ref db = record db {
  jobs =
      update_where (λ j. j.id === job.id) (λ j. record j { last_reported_at = some (now / 1000) })
        db.jobs;
  runs = db.runs ++ new_run h now job p ref db.next_run ∷ [];
  events =
      db.events
      ++ transition (status_of p) (latest_run db job.id (λ s. is_completed s || is_failed s))
          job.name;
  next_run = suc db.next_run;
}

unfoldable pub insert_heartbeat : Host → ℕ → Job → Payload → Db → Db × Recorded
unfolding write_heartbeat
insert_heartbeat h now job p db = elim (cut_ref h 128 p.source_ref) [
  | none ↦ (write_heartbeat h now job p none db, recorded (status_of p))
  | some ref ↦
      if any (has_ref ref) db.runs
      then (db, duplicate)
      else (write_heartbeat h now job p (some ref) db, recorded (status_of p))
]

-- One answer stands for an unknown slug and for a wrong token.
unfoldable pub record_heartbeat : Host → ℕ → String → String → Payload → Db → Db × Option Recorded
unfolding insert_heartbeat
record_heartbeat h now slug token p db = elim (job_of db slug) [
  | none ↦ (db, none)
  | some job ↦
      if h.hash token === job.ingest_token_hash
      then (let (db', r) = insert_heartbeat h now job p db in (db', some r))
      else (db, none)
]

-- A message that a broker relays, as it is parsed.
pub record Fields : Type 0 where
  pub slug : String
  pub ts : String
  pub exit_code : Option String
  pub duration : Option String
  pub message : Option String
  pub signature : String

abbrev pub or_dash : Option String → String
or_dash none = "-"
or_dash (some s) = s

abbrev pub or_empty : Option String → String
or_empty none = ""
or_empty (some s) = s

-- `fields.join(separator)`
abbrev pub join : String → List String → String
join separator [] = ""
join separator (s ∷ []) = s
join separator (s ∷ t ∷ rest) = text_append s (text_append separator (join separator (t ∷ rest)))

unfoldable pub relay_signing_payload : Fields → String
relay_signing_payload f =
    join "\n" (f.slug ∷ f.ts ∷ or_dash f.exit_code ∷ or_dash f.duration ∷ or_empty f.message ∷ [])

abbrev is_hex : ℕ → Bool
is_hex c = is_digit c || (leb b'a' c && leb c b'f') || (leb b'A' c && leb c b'F')

-- `/^[0-9a-f]{64}$/i`
abbrev pub is_digest : String → Bool
is_digest s = nat_beq (length (codes s)) 64 && not (any (λ c. not (is_hex c)) (codes s))

unfoldable pub signature_matches : Host → String → String → Bool
signature_matches h expected candidate = is_digest candidate && expected === h.lower candidate

pub data Relayed : Type 0 where
  unknown_job bad_timestamp stale bad_signature : Relayed
  accepted : Recorded → Relayed

abbrev pub relay_max_age_seconds : ℕ
relay_max_age_seconds = 900

-- `Math.abs(a - b)`
abbrev pub distance : ℕ → ℕ → ℕ
distance a b = (a - b) + (b - a)

abbrev pub relayed_payload : Host → Fields → String → Payload
relayed_payload h f expected = record {
  status = none;
  exit_code = elim f.exit_code [ none ↦ none | some s ↦ h.number s ];
  duration_seconds = elim f.duration [ none ↦ none | some s ↦ h.number s ];
  message = f.message;
  source_ref = some (text_append "relay:" expected);
}

abbrev pub expected_signature : Host → Job → Fields → String
expected_signature h job f = h.hmac job.ingest_token_hash (relay_signing_payload f)

unfoldable pub record_relayed_heartbeat : Host → ℕ → Fields → Db → Db × Relayed
unfolding insert_heartbeat signature_matches
record_relayed_heartbeat h now f db = elim (job_of db f.slug) [
  | none ↦ (db, unknown_job)
  | some job ↦ elim (h.number f.ts) [
    | none ↦ (db, bad_timestamp)
    | some ts ↦
        if ltb relay_max_age_seconds (distance (now / 1000) ts)
        then (db, stale)
        else if not (signature_matches h (expected_signature h job f) f.signature)
        then (db, bad_signature)
        else let (db', r) =
            insert_heartbeat h now job (relayed_payload h f (expected_signature h job f)) db in
          (db', accepted r)
  ]
]

-- `Number(value) || fallback`
abbrev pub or_default : ℕ → ℕ → ℕ
or_default fallback n = if nat_beq n 0 then fallback else n

-- The newest run of each job is kept, whatever its age.
abbrev pub is_newest : List Run → Run → Bool
is_newest runs r = not (any (λ q. q.job_id === r.job_id && ltb r.id q.id) runs)

abbrev pub is_old : ℕ → ℕ → Run → Bool
is_old now days r = ltb (r.reported_at + days * 86400) (now / 1000)

-- The first rows that pass a test are deleted, so many at most.
abbrev pub delete_first : ℕ → (Run → Bool) → List Run → List Run
delete_first n p [] = []
delete_first n p (r ∷ rows) =
    if p r && not (nat_beq n 0) then delete_first (n - 1) p rows else r ∷ delete_first n p rows

unfoldable pub prune_external_job_runs : ℕ → ℕ → ℕ → Db → Db
prune_external_job_runs now days batch_size db =
    let safe_days = max 1 (or_default 90 days) in
    let safe_batch = min (max (or_default 1000 batch_size) 1) 10000 in
    record db {
      runs =
          delete_first safe_batch (λ r. is_old now safe_days r && not (is_newest db.runs r))
            db.runs;
    }
