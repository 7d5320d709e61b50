-- ===== src/Telemetry/Loop.antt =====
-- The loop over batches of app/backend/src/services/databaseRetention.js.
use red_man.Common.{
  ℕ, zero, suc, ◌+◌, ◌-◌, min, String, Bool, true, false, ◌&&◌, ◌||◌, Option, none, some, List, [],
  ◌∷◌, ltb, leb, nat_beq, if◌then◌else◌, String-Comparable,
}
use red_man.Common.Results.{Result, ok, err, ◌>>=◌}
use red_man.Telemetry.{Tables, Policy}
use red_man.Telemetry.Prune.{prune_database_telemetry}

abbrev pub sum : List ℕ → ℕ
sum [] = 0
sum (n ∷ ns) = n + sum ns

-- `totals[key] += removed[key]`
abbrev pub added : List ℕ → List ℕ → List ℕ
added [] ns = ns
added (m ∷ ms) [] = m ∷ ms
added (m ∷ ms) (n ∷ ns) = (m + n) ∷ added ms ns

-- `positiveInteger` of an option, which is a number where it is given. The error names the option.
abbrev pub positive_integer : Option ℕ → ℕ → String → ℕ → Result String ℕ
positive_integer option fallback name maximum =
    let value : ℕ = elim option [ none ↦ fallback | some given ↦ given ] in
    if ltb value 1 || ltb maximum value then err name else ok value

pub record Outcome : Type 0 where
  pub totals : List ℕ
  pub batches : ℕ
  pub complete : Bool
  pub cancelled : Bool
  pub timed_out : Bool

-- What the loop sees: `shouldStop` and the clock before each batch.
pub record Watch : Type 0 where
  pub should_stop : ℕ → Bool
  pub started_at : ℕ
  pub clock : ℕ → ℕ
  pub max_duration : ℕ

-- The loop, with the batches that are left. `batches` have been done, and the rows of a batch are compared with its time.
unfoldable pub retention_loop : Policy → ℕ → ℕ → Watch → ℕ → ℕ → List ℕ → Tables → Outcome × Tables
unfolding prune_database_telemetry
retention_loop policy file_limit limit w zero batches totals t = (
  record {
    totals = totals;
    batches = batches;
    complete = false;
    cancelled = false;
    timed_out = false;
  },
  t,
)
retention_loop policy file_limit limit w (suc left) batches totals t =
    let (removed, after) = prune_database_telemetry policy (w.clock batches) file_limit limit t in
    let rest =
      retention_loop policy file_limit limit w left (suc batches) (added totals removed) after in
    if w.should_stop batches
    then (
      record {
        totals = totals;
        batches = batches;
        complete = false;
        cancelled = true;
        timed_out = false;
      },
      t,
    )
    else if ltb 0 batches && leb w.max_duration (w.clock batches - w.started_at)
    then (
      record {
        totals = totals;
        batches = batches;
        complete = false;
        cancelled = false;
        timed_out = true;
      },
      t,
    )
    else if nat_beq (sum removed) 0
    then (
      record {
        totals = added totals removed;
        batches = suc batches;
        complete = true;
        cancelled = false;
        timed_out = false;
      },
      after,
    )
    else rest

pub record Options : Type 0 where
  pub batch_size : Option ℕ
  pub max_batches : Option ℕ
  pub run_file_batch_size : Option ℕ
  pub max_duration_ms : Option ℕ

abbrev pub zeros : List ℕ
zeros = 0 ∷ 0 ∷ 0 ∷ 0 ∷ 0 ∷ 0 ∷ 0 ∷ 0 ∷ 0 ∷ 0 ∷ 0 ∷ 0 ∷ 0 ∷ []

-- The tables stand still while the loop yields between two batches.
unfoldable pub run_database_retention_batches :
    Policy → Options → (ℕ → Bool) → ℕ → (ℕ → ℕ) → Tables → Result String (Outcome × Tables)
unfolding retention_loop
run_database_retention_batches policy options should_stop started_at clock t = do
  limit ← positive_integer options.batch_size 1000 "Retention batch size" 10000
  max_batches ← positive_integer options.max_batches 100 "Retention max batches" 10000
  file_limit ←
      positive_integer options.run_file_batch_size (min limit 100) "Run-file retention batch size"
        10000
  max_duration ← positive_integer options.max_duration_ms 30000 "Retention time budget" 3600000
  ok (
      retention_loop policy file_limit limit
        (record {
          should_stop = should_stop;
          started_at = started_at;
          clock = clock;
          max_duration = max_duration;
        })
        max_batches 0 zeros t)
