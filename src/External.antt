-- ===== src/External.antt =====
-- app/backend/src/services/externalJobs.js: jobs that run elsewhere and report here. This is the
-- table of jobs, that of their runs, and the changes of jobs. Times are milliseconds; a reported time
-- is kept in seconds. A slug is one that `normaliseSlug` has made. Numbers that a report gives are
-- natural ones.
pub mod Heartbeats
pub mod Changes
pub mod Replay
pub mod Relay
pub mod Reports
pub mod Retention
mod Examples
use red_man.Common.{
  ℕ, suc, ◌+◌, ◌*◌, ◌/◌, String, Bool, true, false, ◌&&◌, ◌||◌, not, Option, none, some, List, [],
  ◌∷◌, ◌++◌, any, select, ltb, leb, nat_beq, tally, find_where, update_where, ◌===◌, if◌then◌else◌,
  String-Comparable, ℕ-Comparable,
}

pub data Status : Type 0 where
  completed failed running : Status

pub record Job : Type 0 where
  pub id : ℕ
  pub slug : String
  pub name : String
  pub host : Option String
  pub cron_expression : Option String
  pub grace_seconds : ℕ
  pub enabled : Bool
  pub ingest_token_hash : String
  pub last_reported_at : Option ℕ
  pub created_at : ℕ

pub record Run : Type 0 where
  pub id : ℕ
  pub job_id : ℕ
  pub status : Status
  pub exit_code : Option ℕ
  pub duration_seconds : Option ℕ
  pub message : Option String
  pub source_ref : Option String
  pub reported_at : ℕ

pub data Event : Type 0 where
  external_job_failed external_job_recovered : String → Event

pub record Db : Type 0 where
  pub jobs : List Job
  pub runs : List Run
  pub events : List Event
  pub next_job : ℕ
  pub next_run : ℕ

-- `cut n s` is `s.slice(0, n)`, `lower` is `toLowerCase`, `hash` is SHA-256 in hexadecimal, `number`
-- is `Number` where that is finite, `print`
-- is `String` of a number.
pub record Host : Type 0 where
  pub cut : ℕ → String → String
  pub lower : String → String
  pub hash : String → String
  pub hmac : String → String → String
  pub number : String → Option ℕ
  pub print : ℕ → String
  pub trim : String → String

abbrev pub is_completed : Status → Bool
is_completed completed = true
is_completed other = false

abbrev pub is_failed : Status → Bool
is_failed failed = true
is_failed other = false

abbrev pub is_running : Status → Bool
is_running running = true
is_running other = false

-- `ORDER BY datetime(reported_at) DESC, id DESC`
abbrev pub is_newer : Run → Run → Bool
is_newer a b =
    ltb b.reported_at a.reported_at || (nat_beq a.reported_at b.reported_at && ltb b.id a.id)

abbrev pub latest : (Run → Bool) → List Run → Option Run
latest p [] = none
latest p (r ∷ rows) = elim (latest p rows) [
  | none ↦ if p r then some r else none
  | some best ↦ if p r && is_newer r best then some r else some best
]

abbrev pub latest_run : Db → ℕ → (Status → Bool) → Option Run
latest_run db job ok = latest (λ r. r.job_id === job && ok r.status) db.runs

abbrev pub job_at : Db → ℕ → Option Job
job_at db id = find_where (λ j. j.id === id) db.jobs

abbrev pub job_of : Db → String → Option Job
job_of db slug = find_where (λ j. j.slug === slug) db.jobs

-- A new job, with the slug that comes from its own or its name. The table has each slug once.
pub record JobInput : Type 0 where
  pub slug : String
  pub name : Option String
  pub host : Option String
  pub cron_expression : Option String
  pub grace_seconds : Option ℕ
  pub enabled : Bool

abbrev pub given : Option String → Option String
given none = none
given (some s) = if s === "" then none else some s

abbrev pub cut_to : Host → ℕ → Option String → Option String
cut_to h n s = elim (given s) [ none ↦ none | some t ↦ some (h.cut n t) ]

unfoldable pub create_external_job : Host → ℕ → JobInput → String → Db → Option Db
create_external_job h now input token db =
    if input.slug === "" || any (λ j. j.slug === input.slug) db.jobs
    then none
    else some (record db {
      jobs =
          db.jobs
          ++ record {
            id = db.next_job;
            slug = input.slug;
            name = h.cut 120 (elim input.name [ none ↦ input.slug | some s ↦ s ]);
            host = cut_to h 120 input.host;
            cron_expression = given input.cron_expression;
            grace_seconds = elim input.grace_seconds [ none ↦ 900 | some n ↦ n ];
            enabled = input.enabled;
            ingest_token_hash = h.hash token;
            last_reported_at = none;
            created_at = now / 1000;
          }
            ∷ [];
      next_job = suc db.next_job;
    })

-- The fields of a change that are given.
pub record JobChange : Type 0 where
  pub name : Option String
  pub host : Option (Option String)
  pub cron_expression : Option (Option String)
  pub grace_seconds : Option ℕ
  pub enabled : Option Bool

unfoldable pub change_job : Host → JobChange → Job → Job
change_job h c j = record j {
  name = elim c.name [ none ↦ j.name | some s ↦ h.cut 120 s ];
  host = elim c.host [ none ↦ j.host | some s ↦ cut_to h 120 s ];
  cron_expression = elim c.cron_expression [ none ↦ j.cron_expression | some s ↦ given s ];
  grace_seconds = elim c.grace_seconds [ none ↦ j.grace_seconds | some n ↦ n ];
  enabled = elim c.enabled [ none ↦ j.enabled | some b ↦ b ];
}

unfoldable pub update_external_job : Host → ℕ → JobChange → Db → Db
unfolding change_job
update_external_job h id c db = record db {
  jobs = update_where (λ j. j.id === id) (change_job h c) db.jobs;
}

-- The runs go with their job.
unfoldable pub delete_external_job : ℕ → Db → Db × Bool
delete_external_job id db = (
  record db {
    jobs = select (λ j. not (j.id === id)) db.jobs;
    runs = elim (job_at db id) [
      | none ↦ db.runs
      | some j ↦ select (λ r. not (r.job_id === id)) db.runs
    ];
  },
  not (nat_beq (tally (λ j. j.id === id) db.jobs) 0),
)

unfoldable pub regenerate_ingest_token : Host → ℕ → String → Db → Db
regenerate_ingest_token h id token db = record db {
  jobs =
      update_where (λ j. j.id === id) (λ j. record j { ingest_token_hash = h.hash token }) db.jobs;
}
