-- ===== src/External/Examples.antt =====
-- Reports of an external job to try the models on.
use red_man.Common.{
  ℕ, ◌+◌, ◌≤◌, ◌≡◌, refl, String, true, false, none, some, List, [], ◌∷◌, arith, length, find_where,
  ◌===◌, String-Comparable, ℕ-Comparable, zero, suc, ◌≢◌, ap, Option,
}
use Prim.Native.Char.{Char, code}
use red_man.Common.Text.{codes}
use red_man.External.Relay.{parse_relay_message}
use red_man.External.Relay.RoundTrip.{
  has_space, PrintsNumbers, Report, line_of, fields_of, parse_relay_message-line_of,
}
use red_man.External.{Job, Run, Db, Host, completed, running}
use red_man.External.Heartbeats.{
  Fields, record_relayed_heartbeat, insert_heartbeat, write_heartbeat, relay_signing_payload,
  signature_matches, prune_external_job_runs,
}
use red_man.External.Replay.{record_relayed_heartbeat_once}
use red_man.External.Changes.{Change, Changes}
use red_man.External.Reports.{get_external_job_health}
use red_man.External.Retention.{prune_external_job_runs_keeps, prune_external_job_runs_forgets}

abbrev digest : String
digest = "00112233445566778899aabbccddeeff00112233445566778899aabbccddeeff"

-- The digit 1.
abbrev one : Char
one = "1"

abbrev plain : Host
plain = record {
  cut = λ n s. s;
  lower = λ s. s;
  hash = λ s. s;
  hmac = λ key s. digest;
  number = λ s. some 1000;
  print = λ n. "1000";
  trim = λ s. s;
}

abbrev nightly : Job
nightly = record {
  id = 1;
  slug = "nightly";
  name = "Nightly";
  host = none;
  cron_expression = none;
  grace_seconds = 900;
  enabled = true;
  ingest_token_hash = "key";
  last_reported_at = none;
  created_at = 0;
}

abbrev tables : List Run → Db
tables runs = record { jobs = nightly ∷ []; runs = runs; events = []; next_job = 2; next_run = 3 }

abbrev message : Fields
message = record {
  slug = "nightly";
  ts = "1000";
  exit_code = none;
  duration = none;
  message = none;
  signature = digest;
}

abbrev sent : Db
sent = (record_relayed_heartbeat plain 1100000 message (tables [])).0

abbrev pruned : Db
pruned = prune_external_job_runs 1200000 90 1000 sent

record_relayed_heartbeat_once_example :
    (record_relayed_heartbeat plain 1300000 message pruned).0 ≡ pruned
unfolding record_relayed_heartbeat insert_heartbeat write_heartbeat relay_signing_payload
    signature_matches
record_relayed_heartbeat_once_example =
    record_relayed_heartbeat_once plain 1100000 1200000 1300000 message (tables []) pruned completed
      refl
      (Changes.changed 1100000 1200000 sent pruned Changes.unchanged (omega arith)
        (Change.pruned 90 1000))
      (omega arith)

abbrev run : ℕ → ℕ → Run
run id at = record {
  id = id;
  job_id = 1;
  status = completed;
  exit_code = none;
  duration_seconds = none;
  message = none;
  source_ref = none;
  reported_at = at;
}

abbrev long_after : ℕ
long_after = 20000000000

prune_external_job_runs_keeps_example :
    (find_where
        (λ q. q.id === 2)
        (prune_external_job_runs long_after 90 1000 (tables (run 1 0 ∷ run 2 60 ∷ []))).runs
      ≡ some (run 2 60))
    × (2
        ≤ length
            (prune_external_job_runs long_after 90 1000 (tables (run 1 0 ∷ run 2 60 ∷ []))).runs
          + 10000)
prune_external_job_runs_keeps_example =
    prune_external_job_runs_keeps long_after 90 1000 2 (tables (run 1 0 ∷ run 2 60 ∷ [])) (run 2 60)
      refl refl

abbrev begun : Run
begun = record (run 2 60) { status = running }

prune_external_job_runs_forgets_example :
    ((get_external_job_health
        (λ cron from. none)
        long_after
        nightly
        (tables (run 1 0 ∷ begun ∷ []))).never_reported
      ≡ false)
    × ((get_external_job_health
          (λ cron from. none)
          long_after
          nightly
          (prune_external_job_runs long_after 90 1000
            (tables (run 1 0 ∷ begun ∷ [])))).never_reported
        ≡ true)
prune_external_job_runs_forgets_example =
    prune_external_job_runs_forgets (λ cron from. none) long_after 90 1000 nightly
      (tables (run 1 0 ∷ begun ∷ [])) (omega arith) refl (omega arith)

-- Numbers in unary, for lines to parse.
abbrev ones : ℕ → String
ones zero = "1"
ones (suc n) = String.◌∷◌ one (ones n)

abbrev read_ones : String → Option ℕ
read_ones s = elim (codes s) [ [] ↦ none | c ∷ rest ↦ some (length rest) ]

abbrev printer : Host
printer = record plain { number = read_ones; print = ones }

length-codes : (n : ℕ) → length (codes (ones n)) ≡ suc n
length-codes zero = refl
length-codes (suc n) = omega (arith, length-codes n)

read_ones-ones : (n : ℕ) → read_ones (ones n) ≡ some n
read_ones-ones zero = refl
read_ones-ones (suc n) = ap some (length-codes n)

ones-has_space : (n : ℕ) → has_space (ones n) ≡ false
ones-has_space zero = refl
ones-has_space (suc n) = ones-has_space n

ones-not_empty : (n : ℕ) → ones n ≢ ""
ones-not_empty zero = cc
ones-not_empty (suc n) = cc

abbrev first_code : String → ℕ
first_code String.[] = 0
first_code (String.◌∷◌ c s) = code c

ones-not_dash : (n : ℕ) → ones n ≢ "-"
ones-not_dash zero e = omega (arith, ap first_code e)
ones-not_dash (suc n) e = omega (arith, ap first_code e)

printer-PrintsNumbers : PrintsNumbers printer
printer-PrintsNumbers = record {
  reads = read_ones-ones;
  is_word = ones-has_space;
  not_empty = ones-not_empty;
  not_dash = ones-not_dash;
}

abbrev report : Report
report = record {
  slug = "nightly";
  ts = 3;
  exit_code = some 0;
  duration = none;
  signature = digest;
  message = "all is well";
}

parse_relay_message-line_of_example :
    parse_relay_message printer (line_of printer report) ≡ some (fields_of printer report)
parse_relay_message-line_of_example =
    parse_relay_message-line_of printer printer-PrintsNumbers report refl refl refl
