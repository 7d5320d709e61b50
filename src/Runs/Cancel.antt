-- ===== src/Runs/Cancel.antt =====
-- What the answer to a cancellation says of the table.
use red_man.Common.{
  update_where, ℕ, ◌≡◌, refl, sym, ap, ◌∙◌, inl, inr, String, Bool, true, some, List, [], ◌∷◌,
  arith, tally, nat_beq, String-Comparable, ℕ-Comparable, Bool-cases, Option-cases,
}
use red_man.Runs.{
  Row, Table, is_running, is_running_run, get_feature_run, Cancellation, done, cancelled_by_user,
  cancel_running, cancel_feature_run,
}

none_running :
    (id : ℕ) (feature : String) (rows : List Row)
    → tally
        (is_running_run id feature)
        (update_where (is_running_run id feature) cancelled_by_user rows)
      ≡ 0
none_running id feature [] = refl
none_running id feature (r ∷ rows) = ground (arith, none_running id feature rows)

module _ (t : Table) (feature : String) (cancel_process : ℕ → Table → Table × Bool) where
  cancel_running_done :
      (run row : Row)
      → (cancel_running t feature run cancel_process).1 ≡ done row
      → (row ≡ cancelled_by_user run)
        × (tally (is_running_run run.id feature) (cancel_process run.id t).0.rows ≡ 1)
        × (tally
              (is_running_run run.id feature)
              (cancel_running t feature run cancel_process).0.rows
            ≡ 0)
  unfolding cancel_running
  cancel_running_done run row h = elim (Bool-cases (cancel_process run.id t).1) [
    | inr kept ↦ cc (rw (kept, cancel_running) at h)
    | inl stopped ↦
        elim (Bool-cases
          (nat_beq (tally (is_running_run run.id feature) (cancel_process run.id t).0.rows) 1)) [
            | inr other ↦ ground arith
            | inl one ↦ (
              ground arith,
              ground arith,
              rw (stopped, cancel_running) (none_running run.id feature _),
            )
          ]
  ]

  -- Where a cancellation answers with success, the row was found running, it was still running when
  -- the process had been stopped, and it is not running afterwards.
  pub cancel_feature_run_done :
      (id : ℕ) (row : Row)
      → (cancel_feature_run t feature id cancel_process).1 ≡ done row
      → (run : Row) × (get_feature_run t feature id ≡ some run)
        × (is_running run.status ≡ true)
        × (row ≡ cancelled_by_user run)
        × (tally (is_running_run run.id feature) (cancel_process run.id t).0.rows ≡ 1)
        × (tally
              (is_running_run run.id feature)
              (cancel_feature_run t feature id cancel_process).0.rows
            ≡ 0)
  unfolding cancel_feature_run
  cancel_feature_run_done id row h = elim (Option-cases (get_feature_run t feature id)) [
    | inl missing ↦ cc (rw (missing, cancel_feature_run) at h)
    | inr (run, found) ↦ elim (Bool-cases (is_running run.status)) [
      | inr idle ↦ ground arith
      | inl busy ↦
          let e : cancel_feature_run t feature id cancel_process
              ≡ cancel_running t feature run cancel_process =
            rw (found, cancel_feature_run) (rw busy refl) in
          let (a, b, c) =
            cancel_running_done run row (sym (ap (λ (x : Table × Cancellation). x.1) e) ∙ h) in
          (run, found, busy, a, b, rw e c)
    ]
  ]
