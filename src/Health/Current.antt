-- ===== src/Health/Current.antt =====
-- The generations of destinationHealth.js, over calls, ends of refreshes and clearings.
use red_man.Common.{
  ℕ, ◌-◌, ◌≤◌, ◌≡◌, sym, ap, inl, inr, false, Option, none, some, List, [], ◌∷◌, arith, ltb, ◌===◌,
  ℕ-Comparable, Bool-cases, Option-cases,
}
use red_man.Common.Dict
use red_man.Health.{
  Known, Health, answered, initial, expire_after_ms, begin_refresh, report_on,
  get_destination_health, remember, store_answers, end_refresh, land, finish_refresh,
  clear_destination_health_cache,
}

module _ {A : Type 0} where
  -- Calls of the reader, ends of refreshes and clearings, in any order.
  pub data Reach : Health A → Type 0 where
    here : Reach initial
    reads :
        {s : Health A} (interval now : ℕ) (destinations : List ℕ)
        → Reach s
        → Reach (get_destination_health interval now destinations s).0
    finishes :
        {s : Health A} (id now : ℕ) (result : Option (List (ℕ × A)))
        → Reach s
        → Reach (finish_refresh id now result s)
    clears : {s : Health A} → Reach s → Reach (clear_destination_health_cache s)

  -- Each answer was asked for in the generation.
  abbrev pub AllOf : ℕ → List (ℕ × Known A) → Type 0
  AllOf gen known = (id : ℕ) (k : Known A) → Dict.get known id ≡ some k → k.asked_in ≡ gen

  remember-AllOf :
      (gen now : ℕ) (answers : List (ℕ × A)) (known : List (ℕ × Known A))
      → AllOf gen known
      → AllOf gen (remember gen now answers known)
  unfolding remember
  remember-AllOf gen now [] known all = all
  remember-AllOf gen now ((i, a) ∷ answers) known all = remember-AllOf gen now answers _ (λ id k g.
      elim (Dict.get-put_inv known i id (record { answer = a; at = now; asked_in = gen }) g) [
        | inl (same, e) ↦ ap (λ (x : Known A). x.asked_in) (sym e)
        | inr (other, old) ↦ all id k old
      ])

  abbrev IsCurrent : Health A → Type 0
  IsCurrent s = AllOf s.generation s.last_known

  store_answers-IsCurrent :
      (started_at now : ℕ) (answers : List (ℕ × A)) (s : Health A)
      → IsCurrent s
      → IsCurrent (store_answers started_at now answers s)
  unfolding store_answers
  store_answers-IsCurrent started_at now answers s all =
      elim (Bool-cases (started_at === s.generation)) [
        | inr old ↦ rw (old, store_answers) all
        | inl same ↦
            rw (same, store_answers)
              (rw ((ℕ-Comparable.eqv_iff started_at s.generation).0 same)
                (remember-AllOf s.generation now answers s.last_known all))
      ]

  land-IsCurrent :
      (id started_at now : ℕ) (result : Option (List (ℕ × A))) (s : Health A)
      → IsCurrent s
      → IsCurrent (land id started_at now result s)
  unfolding land end_refresh
  land-IsCurrent id started_at now none s all = all
  land-IsCurrent id started_at now (some answers) s all =
      store_answers-IsCurrent started_at now answers s all

  finish_refresh-IsCurrent :
      (id now : ℕ) (result : Option (List (ℕ × A))) (s : Health A)
      → IsCurrent s
      → IsCurrent (finish_refresh id now result s)
  unfolding finish_refresh
  finish_refresh-IsCurrent id now result s all = elim (Option-cases (Dict.get s.refreshing id)) [
    | inl gone ↦ rw (gone, finish_refresh) all
    | inr (started_at, found) ↦
        rw (found, finish_refresh) (land-IsCurrent id started_at now result s all)
  ]

  begin_refresh-IsCurrent :
      (interval now : ℕ) (s : Health A) → IsCurrent s → IsCurrent (begin_refresh interval now s)
  unfolding begin_refresh
  begin_refresh-IsCurrent interval now s all = elim (Option-cases s.in_flight) [
    | inr (id, busy) ↦ rw (busy, begin_refresh) all
    | inl idle ↦
        rw (idle, begin_refresh)
          (elim (Bool-cases (ltb interval (now - s.last_refresh_at))) [
            | inl due ↦ rw due all
            | inr fresh ↦ rw fresh all
          ])
  ]

  Reach-IsCurrent : {s : Health A} → Reach s → IsCurrent s
  unfolding get_destination_health clear_destination_health_cache
  Reach-IsCurrent here = λ id k g. cc
  Reach-IsCurrent (reads {s} interval now destinations h) =
      begin_refresh-IsCurrent interval now s (Reach-IsCurrent h)
  Reach-IsCurrent (finishes {s} id now result h) =
      finish_refresh-IsCurrent id now result s (Reach-IsCurrent h)
  Reach-IsCurrent (clears h) = λ id k g. cc

  -- In every state that is reached by calls of the reader, ends of refreshes and clearings in any
  -- order, an answer that a reader is shown with an age is the one remembered for the destination,
  -- is at most six hours old, and was asked for by a refresh that began after the last clearing.
  pub answered-Current :
      {s : Health A}
      → Reach s
      → (now id : ℕ) (a : A) (age : ℕ) → report_on s now id ≡ answered a age
      → (k : Known A) × (Dict.get s.last_known id ≡ some k)
        × (k.answer ≡ a)
        × (age ≡ now - k.at)
        × (age ≤ expire_after_ms)
        × (k.asked_in ≡ s.generation)
  unfolding report_on
  answered-Current {s} h now id a age shown = elim (Option-cases (Dict.get s.last_known id)) [
    | inl unknown ↦ ground arith
    | inr (k, found) ↦
        let young : ltb expire_after_ms (now - k.at) ≡ false = ground arith in
        let e : answered k.answer (now - k.at) ≡ answered a age = ground arith in
        let same_age : now - k.at ≡ age = cc (e) in
        (
          k,
          found,
          cc (e),
          sym same_age,
          ground (arith, same_age, young),
          Reach-IsCurrent h id k found,
        )
  ]
