-- ===== src/Scheduler/Retry/Laws.antt =====
-- How often, how long and with what result `executeWithRetry` runs.
use red_man.Common.{
  ℕ, zero, suc, ◌+◌, ◌*◌, ◌^◌, ◌≤◌, ◌<◌, ◌≡◌, refl, ◌⊎◌, inl, inr, true, false, Option, none, some,
  List, [], ◌∷◌, ◌++◌, arith, Bool-cases, ℕ_discrete,
}
use native.Mathlib.Numerals.{add-one}
use red_man.Scheduler.Retry.{
  is_transient_error, max_retries, retry_base_delay_ms, Outcome, resolved, rejected, after_failure,
  Report, retry_loop, execute_with_retry,
}

-- A failure that is worth another attempt.
abbrev pub IsTransient : Outcome → Type 0
IsTransient resolved = ⊥
IsTransient (rejected message) = is_transient_error message ≡ true

abbrev pub error_of : Outcome → Option (List ℕ)
error_of resolved = none
error_of (rejected message) = some message

-- 30 s, 60 s, 120 s: the first `k` waits.
abbrev pub backoff : ℕ → List ℕ
backoff zero = []
backoff (suc k) = backoff k ++ (retry_base_delay_ms * 2 ^ k) ∷ []

abbrev pub Stops : (ℕ → Outcome) → Report → ℕ → Type 0
Stops outcome report k =
    (k ≤ max_retries)
    × ((i : ℕ) → i < k → IsTransient (outcome i))
    × ((k ≡ max_retries) ⊎ (¬ (IsTransient (outcome k))))
    × (report ≡ record { calls = k + 1; delays = backoff k; error = error_of (outcome k) })

Outcome-cases : (o : Outcome) → (o ≡ resolved) ⊎ ((m : List ℕ) × (o ≡ rejected m))
Outcome-cases resolved = inl refl
Outcome-cases (rejected m) = inr (m, refl)

after_failure_retries :
    (a : ℕ) (m : List ℕ)
    → a < max_retries
    → is_transient_error m ≡ true
    → after_failure a m ≡ some (retry_base_delay_ms * 2 ^ a)
unfolding after_failure
after_failure_retries a m h t = ground arith

after_failure_gives_up :
    (a : ℕ) (m : List ℕ)
    → (a ≡ max_retries) ⊎ (is_transient_error m ≡ false)
    → after_failure a m ≡ none
unfolding after_failure
after_failure_gives_up a m h = ground arith

-- The transient failures so far, with one more.
IsTransient-snoc :
    (outcome : ℕ → Outcome) (a : ℕ)
    → ((i : ℕ) → i < a → IsTransient (outcome i))
    → IsTransient (outcome a)
    → (i : ℕ) → i < suc a
    → IsTransient (outcome i)
IsTransient-snoc outcome a h t i l = elim (ℕ_discrete i a) [
  | yes e ↦ rw e t
  | no n ↦ h i (omega arith)
]

not-IsTransient : (m : List ℕ) → is_transient_error m ≡ false → ¬ (IsTransient (rejected m))
not-IsTransient m f t = cc

module _ (outcome : ℕ → Outcome) where
  -- The three ways through a round.
  retry_loop-resolved :
      (r a : ℕ) (ds : List ℕ) (last : Option (List ℕ))
      → outcome a ≡ resolved
      → retry_loop (suc r) a ds last outcome ≡ record { calls = a + 1; delays = ds; error = none }
  unfolding retry_loop
  retry_loop-resolved r a ds last e = ground arith

  retry_loop-throws :
      (r a : ℕ) (ds : List ℕ) (last : Option (List ℕ)) (m : List ℕ)
      → outcome a ≡ rejected m
      → after_failure a m ≡ none
      → retry_loop (suc r) a ds last outcome ≡ record { calls = a + 1; delays = ds; error = some m }
  unfolding retry_loop
  retry_loop-throws r a ds last m e f = ground arith

  retry_loop-waits :
      (r a d : ℕ) (ds : List ℕ) (last : Option (List ℕ)) (m : List ℕ)
      → outcome a ≡ rejected m
      → after_failure a m ≡ some d
      → retry_loop (suc r) a ds last outcome ≡ retry_loop r (a + 1) (ds ++ d ∷ []) (some m) outcome
  unfolding retry_loop
  retry_loop-waits r a d ds last m e f = ground arith

  retry_loop_gives_up :
      (rounds a : ℕ) (last : Option (List ℕ)) (m : List ℕ)
      → a ≤ max_retries
      → ((i : ℕ) → i < a → IsTransient (outcome i))
      → outcome a ≡ rejected m
      → (a ≡ max_retries) ⊎ (is_transient_error m ≡ false)
      → (k : ℕ) × (Stops outcome (retry_loop (suc rounds) a (backoff a) last outcome) k)
  retry_loop_gives_up rounds a last m l h failed why =
      let stop =
        retry_loop-throws rounds a (backoff a) last m failed (after_failure_gives_up a m why) in
      (
        a,
        (
          l,
          h,
          elim why [ inl full ↦ inl full | inr f ↦ inr (rw failed (not-IsTransient m f)) ],
          rw failed stop,
        ),
      )

  retry_loop-Stops :
      (rounds a : ℕ) (last : Option (List ℕ))
      → a + suc rounds ≡ suc max_retries
      → ((i : ℕ) → i < a → IsTransient (outcome i))
      → (k : ℕ) × (Stops outcome (retry_loop (suc rounds) a (backoff a) last outcome) k)
  retry_loop-Stops zero a last e h = elim (Outcome-cases (outcome a)) [
    | inl done ↦
        (a, (omega arith, h, inl (omega arith), rw done (retry_loop-resolved zero a _ last done)))
    | inr (m, failed) ↦ retry_loop_gives_up zero a last m (omega arith) h failed (inl (omega arith))
  ]
  retry_loop-Stops (suc rounds) a last e h = elim (Outcome-cases (outcome a)) [
    | inl done ↦
        (a, (omega arith, h, inr (rw done λ x. x), rw done (retry_loop-resolved _ a _ last done)))
    | inr (m, failed) ↦ elim (Bool-cases (is_transient_error m)) [
      | inr fatal ↦ retry_loop_gives_up (suc rounds) a last m (omega arith) h failed (inr fatal)
      | inl again ↦
          let (k, s) =
            retry_loop-Stops rounds (suc a) (some m) (omega arith)
              (IsTransient-snoc outcome a h (rw failed again)) in
          (
            k,
            rw
                (
                  retry_loop-waits (suc rounds) a _ (backoff a) last m failed
                      (after_failure_retries a m (omega arith) again),
                  add-one,
                )
                s,
          )
    ]
  ]

-- The executor is called once more for each transient failure, with waits of 30, 60 and 120
-- seconds in between, until it succeeds, fails otherwise, or has failed four times; the last
-- outcome decides what is thrown.
pub execute_with_retry-Stops :
    (outcome : ℕ → Outcome) → (k : ℕ) × Stops outcome (execute_with_retry outcome) k
unfolding execute_with_retry
execute_with_retry-Stops outcome =
    retry_loop-Stops outcome max_retries 0 none refl (λ i l. absurd (omega arith))

abbrev pub sum : List ℕ → ℕ
sum [] = 0
sum (x ∷ xs) = x + sum xs

-- The waits add up to 0, 30, 90 or 210 seconds.
sum-backoff : (k : ℕ) → k ≤ max_retries → sum (backoff k) ≤ 210000
sum-backoff zero h = omega arith
sum-backoff (suc zero) h = omega arith
sum-backoff (suc (suc zero)) h = omega arith
sum-backoff (suc (suc (suc zero))) h = omega arith
sum-backoff (suc (suc (suc (suc k)))) h = omega arith

-- At most four calls are made, and at most 210 seconds are spent waiting between them, whatever
-- the executor does.
pub execute_with_retry_bounds :
    (outcome : ℕ → Outcome)
    → ((execute_with_retry outcome).calls ≤ 4) × (sum (execute_with_retry outcome).delays ≤ 210000)
execute_with_retry_bounds outcome =
    let (k, (l, _, _, e)) = execute_with_retry-Stops outcome in rw e (omega arith, sum-backoff k l)
