-- ===== src/Scheduler/Jobs.antt =====
-- The job table of services/scheduler.js with `scheduleJob`, `removeJob`, `stopAllJobs` and the
-- callback that cron calls. The event loop runs the code between two `await`s as one step; a
-- callback that waits for its executor or for its retry timer is an entry of `in_flight`, under a
-- number that tells the callbacks apart. A key `${feature}:${configId}` is the pair of its parts:
-- a configuration's number has no colon. What node-cron and cron-parser accept is a parameter.
pub mod Invariant
pub mod Reach
pub mod Skips
use red_man.Common.{
  ℕ, suc, ◌+◌, ◌%◌, String, Bool, true, false, ◌&&◌, ◌||◌, Option, none, some, List, [], ◌∷◌, ◌++◌,
  leb, nat_beq, if◌then◌else◌, String-Comparable, ℕ-Comparable, pair-Comparable,
}
use red_man.Common.Dict
use red_man.Scheduler.Retry.{Outcome, resolved, rejected, after_failure}
use red_man.Common.Text.{codes}

abbrev pub Key : Type 0
Key = String × ℕ

-- A callback that has passed the skip test: it waits for attempt `attempt` of the executor, or
-- for the timer behind that attempt.
pub record Run : Type 0 where
  pub key : Key
  pub attempt : ℕ
  pub waiting : Bool

pub record Scheduler : Type 0 where
  pub executors : List (String × ℕ)  -- a number stands for a function
  pub active_jobs : List (Key × String)  -- the cron task, by its expression
  pub running_jobs : List Key
  pub skip_counts : List (Key × ℕ)
  pub in_flight : List (ℕ × Run)
  pub next_run : ℕ
  pub notified : List (Key × ℕ)  -- the calls of `notifyJobSkipped`

abbrev pub initial : Scheduler
initial = record {
  executors = [];
  active_jobs = [];
  running_jobs = [];
  skip_counts = [];
  in_flight = [];
  next_run = 0;
  notified = [];
}

abbrev pub skip_notify_threshold : ℕ
skip_notify_threshold = 5

-- `\s` of a regular expression, and what `trim` takes off
is_space : ℕ → Bool
is_space c =
    (leb 9 c && leb c 13)
    || nat_beq c 32
    || nat_beq c 160
    || nat_beq c 5760
    || (leb 8192 c && leb c 8202)
    || nat_beq c 8232
    || nat_beq c 8233
    || nat_beq c 8239
    || nat_beq c 8287
    || nat_beq c 12288
    || nat_beq c 65279

-- How many words begin in the text; the flag says whether one is open.
words_from : Bool → List ℕ → ℕ
words_from inside [] = 0
words_from inside (c ∷ s) =
    let rest = words_from (if is_space c then false else true) s in
    if is_space c then rest else if inside then rest else suc rest

-- `expression.trim().split(/\s+/).length`: a text without words splits into one empty field.
unfoldable pub field_count : List ℕ → ℕ
unfolding words_from is_space
field_count s = let n = words_from false s in if nat_beq n 0 then 1 else n

-- `CronExpressionParser.parse` returns a value.
module _ (parser_accepts : String → Bool) where
  unfoldable pub validate_cron_expression : String → Bool
  unfolding field_count
  validate_cron_expression expression =
      nat_beq (field_count (codes expression)) 5 && parser_accepts expression

unfoldable pub register_executor : String → ℕ → Scheduler → Scheduler
register_executor feature fn s = record s { executors = Dict.put s.executors feature fn }

-- Taking the task out of `active_jobs` is its `stop`: the tick below asks for it.
unfoldable pub remove_job : Key → Scheduler → Scheduler
remove_job key s = record s {
  active_jobs = Dict.remove s.active_jobs key;
  running_jobs = Dict.discard s.running_jobs key;
  skip_counts = Dict.remove s.skip_counts key;
}

module _ (parser_accepts : String → Bool) where
  unfoldable pub schedule_job : Key → String → Scheduler → Scheduler × Bool
  unfolding remove_job validate_cron_expression
  schedule_job key expression s =
      let removed = remove_job key s in
      if validate_cron_expression parser_accepts expression
      then (record removed { active_jobs = Dict.put removed.active_jobs key expression }, true)
      else (removed, false)

unfoldable pub is_job_running : Key → Scheduler → Bool
is_job_running key s = Dict.has s.running_jobs key

unfoldable pub stop_all_jobs : Scheduler → Scheduler
stop_all_jobs s = record s { active_jobs = []; running_jobs = []; skip_counts = [] }

abbrev pub or_zero : Option ℕ → ℕ
or_zero none = 0
or_zero (some n) = n

unfoldable pub get_job_skip_count : Key → Scheduler → ℕ
get_job_skip_count key s = or_zero (Dict.get s.skip_counts key)

-- The branch of the callback that skips; the count is the consecutive one.
unfoldable pub skip_tick : Key → Scheduler → Scheduler
unfolding get_job_skip_count
skip_tick key s =
    let count = get_job_skip_count key s + 1 in
    let counted = record s { skip_counts = Dict.put s.skip_counts key count } in
    if leb skip_notify_threshold count && nat_beq (count % skip_notify_threshold) 0
    then record counted { notified = s.notified ++ (key, count) ∷ [] }
    else counted

-- The branch that starts the executor.
unfoldable pub start_run : Key → Scheduler → Scheduler
start_run key s = record s {
  running_jobs = Dict.add s.running_jobs key;
  in_flight = Dict.put s.in_flight s.next_run (record { key = key; attempt = 0; waiting = false });
  next_run = suc s.next_run;
}

-- The callback up to its first `await`.
unfoldable pub tick_callback : Key → Scheduler → Scheduler
unfolding skip_tick start_run
tick_callback key s = elim (Dict.get s.executors key.0) [
  | none ↦ s
  | some fn ↦ if Dict.has s.running_jobs key then skip_tick key s else start_run key s
]

-- A cron task calls its callback only while it is not stopped.
unfoldable pub tick : Key → Scheduler → Scheduler
unfolding tick_callback
tick key s = elim (Dict.get s.active_jobs key) [ none ↦ s | some task ↦ tick_callback key s ]

-- The `finally` of the callback.
unfoldable pub end_run : ℕ → Key → Scheduler → Scheduler
end_run id key s = record s {
  running_jobs = Dict.discard s.running_jobs key;
  in_flight = Dict.remove s.in_flight id;
}

-- The executor's promise settles: the rest of the `try`, or the catch branch of the retry loop.
unfoldable pub settle_run : ℕ → Run → Outcome → Scheduler → Scheduler
unfolding end_run after_failure
settle_run id run resolved s =
    end_run id run.key (record s { skip_counts = Dict.remove s.skip_counts run.key })
settle_run id run (rejected message) s = elim (after_failure run.attempt message) [
  | some delay ↦ record s { in_flight = Dict.put s.in_flight id (record run { waiting = true }) }
  | none ↦ end_run id run.key s
]

unfoldable pub settle : ℕ → Outcome → Scheduler → Scheduler
unfolding settle_run
settle id outcome s = elim (Dict.get s.in_flight id) [
  | none ↦ s
  | some run ↦ if run.waiting then s else settle_run id run outcome s
]

-- The retry timer elapses, and the executor is called again.
unfoldable pub wake : ℕ → Scheduler → Scheduler
wake id s = elim (Dict.get s.in_flight id) [
  | none ↦ s
  | some run ↦
      if run.waiting
      then record s {
        in_flight =
            Dict.put s.in_flight id (record run { attempt = run.attempt + 1; waiting = false });
      }
      else s
]
