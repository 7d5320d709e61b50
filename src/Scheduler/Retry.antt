-- ===== src/Scheduler/Retry.antt =====
-- `isTransientError` and `executeWithRetry` of services/scheduler.js. An error is its message, a
-- list of ASCII codes; the executor is a function from the number of the attempt to its outcome.
pub mod Laws
use red_man.Common.Text.{codes, to_lower, includes}
use red_man.Common.{
  ℕ, zero, suc, ◌+◌, ◌*◌, ◌^◌, String, Bool, true, false, ◌&&◌, ◌||◌, Option, none, some, List, [],
  ◌∷◌, ◌++◌, ltb, leb, nat_beq, if◌then◌else◌, any,
}

abbrev pub transient_markers : List String
transient_markers =
    "econnrefused" ∷ "econnreset" ∷ "etimedout" ∷ "ssh connection failed" ∷ "unreachable"
    ∷ "connection closed" ∷ "connection reset" ∷ "timed out" ∷ "no route to host" ∷ []

unfoldable pub is_transient_error : List ℕ → Bool
is_transient_error message = any (λ m. includes (to_lower message) (codes m)) transient_markers

abbrev pub max_retries : ℕ
max_retries = 3

abbrev pub retry_base_delay_ms : ℕ
retry_base_delay_ms = 30000

-- how a call of the executor settles
pub data Outcome : Type 0 where
  resolved : Outcome
  rejected : List ℕ → Outcome

-- The catch branch: `some delay` waits and tries again, `none` throws.
unfoldable pub after_failure : ℕ → List ℕ → Option ℕ
after_failure attempt message =
    if ltb attempt max_retries && is_transient_error message
    then some (retry_base_delay_ms * 2 ^ attempt)
    else none

-- What a run of the loop has done: the executor's calls, the waits between them in order, and the
-- error that was thrown in the end.
pub record Report : Type 0 where
  pub calls : ℕ
  pub delays : List ℕ
  pub error : Option (List ℕ)

-- The `for` loop; the first argument counts the rounds left, and the last error is what is thrown
-- behind the loop.
retry_loop : ℕ → ℕ → List ℕ → Option (List ℕ) → (ℕ → Outcome) → Report
unfolding after_failure
retry_loop zero attempt delays last outcome = record {
  calls = attempt;
  delays = delays;
  error = last;
}
retry_loop (suc rounds) attempt delays last outcome = elim (outcome attempt) [
  | resolved ↦ record { calls = attempt + 1; delays = delays; error = none }
  | rejected message ↦ elim (after_failure attempt message) [
    | some delay ↦ retry_loop rounds (attempt + 1) (delays ++ delay ∷ []) (some message) outcome
    | none ↦ record { calls = attempt + 1; delays = delays; error = some message }
  ]
]

unfoldable pub execute_with_retry : (ℕ → Outcome) → Report
unfolding retry_loop
execute_with_retry = retry_loop (suc max_retries) 0 [] none
