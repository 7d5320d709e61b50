-- ===== src/Runs/Restart.antt =====
-- A start of runLifecycle.js that fails at once.
use red_man.Common.{
  tally-update_where, update_where, ℕ, suc, ◌≡◌, refl, ap, String, Bool, true, false, Option, none,
  some, List, [], ◌∷◌, ◌++◌, arith, tally, tally-append, if◌then◌else◌, String-Comparable,
  ℕ-Comparable, eq_refl,
}
use red_man.Runs.{
  running, failed, Row, Table, is_active_of, newest_where, insert_run, claim_backup_run,
  is_running_run, with_status, Execution, threw, launch, start_claimed_run,
}
use red_man.Runs.OneActive.{newest_where-none, claim_free, with_status-quiet}

update_where-append :
    (p : Row → Bool) (f : Row → Row) (xs ys : List Row)
    → update_where p f (xs ++ ys) ≡ update_where p f xs ++ update_where p f ys
update_where-append p f [] ys = refl
update_where-append p f (r ∷ xs) ys =
    ap (λ rows. (if p r then f r else r) ∷ rows) (update_where-append p f xs ys)

newest_where_free :
    (p : Row → Bool) (rows : List Row) → tally p rows ≡ 0 → newest_where p rows ≡ none
unfolding newest_where
newest_where_free p [] h = refl
newest_where_free p (r ∷ rows) h =
    let below : newest_where p rows ≡ none = newest_where_free p rows (ground arith) in
    let miss : p r ≡ false = ground arith in rw below (rw miss refl)

module _ (t : Table) (feature : String) (config : ℕ) (key : Option String) (now : ℕ)
    (message : String) where
  abbrev new_row : Row
  new_row = record {
    id = t.next_id;
    feature = feature;
    config_id = config;
    status = running;
    peer_static_pubkey = key;
    started_at = now;
    error_message = none;
  }

  -- The table behind a start that fails at once.
  abbrev failed_table : Table
  failed_table = record {
    rows =
        update_where (is_running_run t.next_id feature) (with_status failed (some message))
          (t.rows ++ new_row ∷ []);
    next_id = suc t.next_id;
  }

  failed_start :
      (execute : ℕ → Execution)
      → newest_where (is_active_of feature config) t.rows ≡ none
      → execute t.next_id ≡ threw message
      → start_claimed_run t feature config key now execute
        ≡ (failed_table, record { claimed = true; run_id = t.next_id }, some message)
  unfolding start_claimed_run launch insert_run
  failed_start execute free threw_ =
      rw (claim_free t feature config key now free, start_claimed_run) (rw threw_ refl)

  new_row_failed :
      tally (is_active_of feature config) (
        update_where
          (is_running_run t.next_id feature)
          (with_status failed (some message))
          (new_row ∷ []))
      ≡ 0
  new_row_failed = rw (eq_refl t.next_id, eq_refl feature) (ground arith)

  failed_table_free :
      newest_where (is_active_of feature config) t.rows ≡ none
      → newest_where (is_active_of feature config) failed_table.rows ≡ none
  failed_table_free free = newest_where_free (is_active_of feature config) failed_table.rows (
      rw
        (update_where-append (is_running_run t.next_id feature) (with_status failed (some message))
          t.rows (new_row ∷ []))
        (omega (
          arith,
          tally-append (is_active_of feature config)
              (update_where (is_running_run t.next_id feature) (with_status failed (some message))
                t.rows)
              (update_where (is_running_run t.next_id feature) (with_status failed (some message))
                (new_row ∷ [])),
          new_row_failed,
          newest_where-none (is_active_of feature config) t.rows free,
          tally-update_where (is_running_run t.next_id feature) (is_active_of feature config)
              (with_status failed (some message)) t.rows
              (λ r _ active. cc (with_status-quiet failed (some message) feature config r refl)),
        )))

  -- If no run of the job is active and `execute` throws, the error is thrown on, and the job can be
  -- claimed again at once.
  pub start_claimed_run_throws :
      (execute : ℕ → Execution)
      → newest_where (is_active_of feature config) t.rows ≡ none
      → execute t.next_id ≡ threw message
      → (again : Option String) (later : ℕ)
      → ((start_claimed_run t feature config key now execute).2 ≡ some message)
        × ((claim_backup_run
              (start_claimed_run t feature config key now execute).0
              feature
              config
              again
              later).1.claimed
            ≡ true)
  start_claimed_run_throws execute free threw_ again later =
      rw (failed_start execute free threw_) (
        refl,
        rw (claim_free failed_table feature config again later (failed_table_free free)) refl,
      )
