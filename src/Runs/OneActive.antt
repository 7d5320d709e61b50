-- ===== src/Runs/OneActive.antt =====
-- The active runs of a job in the table of runClaim.js and runLifecycle.js.
use red_man.Common.{
  ap, ne→beq, eq_refl, tally-update_where, update_where, ℕ, ◌≤◌, ◌≡◌, refl, inl, inr, String, Bool,
  true, false, not, ◌&&◌, Option, none, some, List, [], ◌∷◌, arith, tally, tally-append, ◌===◌,
  String-Comparable, ℕ-Comparable, Bool-cases, Option-cases,
}
use red_man.Runs.{
  Status, running, cancelling, cancelled, completed, partial, failed, Row, Table, is_running,
  is_active, is_active_of, newest_where, insert_run, claim_backup_run, Claim, is_running_run,
  with_status, Execution, launched, threw, launch, start_claimed_run, get_feature_run,
  cancel_feature_run, cancel_running, cancelled_by_user, finish_run, request_cancel,
}

and_inv : (a b : Bool) → (a && b) ≡ true → (a ≡ true) × (b ≡ true)
and_inv a b h = ground arith

-- The last match has an id exactly if there is a match.
pub newest_where-none :
    (p : Row → Bool) (rows : List Row) → newest_where p rows ≡ none → tally p rows ≡ 0
unfolding newest_where
newest_where-none p [] h = refl
newest_where-none p (r ∷ rows) h = elim (Option-cases (newest_where p rows)) [
  | inl below ↦ ground (arith, newest_where-none p rows below)
  | inr (id, found) ↦ cc (rw found at h)
]

-- Imports of media insert their rows without a claim.
abbrev pub is_claimed : String → Bool
is_claimed feature = not (feature === "media-import")

-- For each feature that claims its runs, and each configuration, at most one row is active.
abbrev pub OneActive : Table → Type 0
OneActive t =
    (feature : String) (config : ℕ)
    → is_claimed feature ≡ true
    → tally (is_active_of feature config) t.rows ≤ 1

module _ (t : Table) (feature : String) (config : ℕ) (key : Option String) (now : ℕ) where
  pub claim_taken :
      {id : ℕ}
      → newest_where (is_active_of feature config) t.rows ≡ some id
      → claim_backup_run t feature config key now ≡ (t, record { claimed = false; run_id = id })
  unfolding claim_backup_run
  claim_taken h = rw (h, claim_backup_run) refl

  pub claim_free :
      newest_where (is_active_of feature config) t.rows ≡ none
      → claim_backup_run t feature config key now
        ≡ (insert_run t feature config key now, record { claimed = true; run_id = t.next_id })
  unfolding claim_backup_run
  claim_free h = rw (h, claim_backup_run) refl

  insert_run-OneActive :
      newest_where (is_active_of feature config) t.rows ≡ none
      → OneActive t
      → OneActive (insert_run t feature config key now)
  unfolding insert_run
  insert_run-OneActive free one f c claimed_ = elim (Bool-cases (feature === f && config === c)) [
    | inr other ↦
        ground
          (arith, tally-append (is_active_of f c) t.rows (new_row ∷ []), one f c claimed_, other)
    | inl same ↦ ground (arith, tally-append (is_active_of f c) t.rows (new_row ∷ []), none_of same)
  ]
    where
      new_row : Row
      new_row = record {
        id = t.next_id;
        feature = feature;
        config_id = config;
        status = running;
        peer_static_pubkey = key;
        started_at = now;
        error_message = none;
      }

      none_of : (feature === f && config === c) ≡ true → tally (is_active_of f c) t.rows ≡ 0
      none_of same =
          let (a, b) = and_inv _ _ same in
          rw (← (String-Comparable.eqv_iff feature f).0 a, ← (ℕ-Comparable.eqv_iff config c).0 b)
            (newest_where-none (is_active_of feature config) t.rows free)

  claim_backup_run-OneActive : OneActive t → OneActive (claim_backup_run t feature config key now).0
  claim_backup_run-OneActive one =
      elim (Option-cases (newest_where (is_active_of feature config) t.rows)) [
        | inr (id, found) ↦ rw (claim_taken found) one
        | inl free ↦ rw (claim_free free) (insert_run-OneActive free one)
      ]

-- A run that is inserted without a claim, of the one feature that does so.
pub import-OneActive :
    (t : Table) (config now : ℕ)
    → OneActive t
    → OneActive (insert_run t "media-import" config none now)
unfolding insert_run
import-OneActive t config now one f c claimed_ =
    let row : Row = record {
      id = t.next_id;
      feature = "media-import";
      config_id = config;
      status = running;
      peer_static_pubkey = none;
      started_at = now;
      error_message = none;
    } in
    let other : ("media-import" === f) ≡ false =
      ne→beq "media-import" f (λ same. let e = ap (λ s. f === s) same in let r = eq_refl f in cc) in
    ground (arith, tally-append (is_active_of f c) t.rows (row ∷ []), one f c claimed_, other)

is_running-active : (s : Status) → is_running s ≡ true → is_active s ≡ true
is_running-active running h = refl
is_running-active cancelling h = cc
is_running-active cancelled h = cc
is_running-active completed h = cc
is_running-active partial h = cc
is_running-active failed h = cc

-- Rows that are no longer active: no update of them raises a count.
update_where-OneActive :
    (t : Table) (p : Row → Bool) (f : Row → Row) (next : ℕ)
    → ((feature : String) (config : ℕ) (r : Row)
        → p r ≡ true
        → is_active_of feature config (f r) ≡ true
        → is_active_of feature config r ≡ true)
    → OneActive t
    → OneActive (record t { rows = update_where p f t.rows; next_id = next })
update_where-OneActive t p f next quiet one feature config claimed_ = omega (
  arith,
  one feature config claimed_,
  tally-update_where p (is_active_of feature config) f t.rows (quiet feature config),
)

-- A status that a run ends with.
abbrev pub IsFinal : Status → Type 0
IsFinal status = is_active status ≡ false

pub with_status-quiet :
    (status : Status) (message : Option String) (feature : String) (config : ℕ) (r : Row)
    → IsFinal status
    → is_active_of feature config (with_status status message r) ≡ false
with_status-quiet status message feature config r final = ground arith

launch-OneActive :
    (t : Table) (feature : String) (claim : Claim) (execution : Execution)
    → OneActive t
    → OneActive (launch t feature claim execution).0
unfolding launch
launch-OneActive t feature claim launched one = one
launch-OneActive t feature claim (threw message) one =
    update_where-OneActive t (is_running_run claim.run_id feature)
      (with_status failed (some message)) t.next_id
      (λ f config r _ active. cc (with_status-quiet failed (some message) f config r refl)) one

pub start_claimed_run-OneActive :
    (t : Table) (feature : String) (config : ℕ) (key : Option String) (now : ℕ)
    (execute : ℕ → Execution)
    → OneActive t
    → OneActive (start_claimed_run t feature config key now execute).0
unfolding start_claimed_run
start_claimed_run-OneActive t feature config key now execute one =
    let one' = claim_backup_run-OneActive t feature config key now one in
    elim (Bool-cases (claim_backup_run t feature config key now).1.claimed) [
      | inr taken ↦ rw (taken, start_claimed_run) one'
      | inl claimed_ ↦ rw (claimed_, start_claimed_run) (launch-OneActive _ feature _ _ one')
    ]

pub finish_run-OneActive :
    (t : Table) (id : ℕ) (status : Status) (message : Option String)
    → IsFinal status
    → OneActive t
    → OneActive (finish_run t id status message)
unfolding finish_run
finish_run-OneActive t id status message final one =
    update_where-OneActive t (λ r. r.id === id) (with_status status message) t.next_id
      (λ feature config r _ active. cc (with_status-quiet status message feature config r final))
      one

pub request_cancel-OneActive : (t : Table) (id : ℕ) → OneActive t → OneActive (request_cancel t id)
unfolding request_cancel
request_cancel-OneActive t id one =
    update_where-OneActive t (is_running_run id "media-import")
      (λ r. record r { status = cancelling }) t.next_id
      (λ feature config r h active. still feature config r h active) one
  where
    still :
        (feature : String) (config : ℕ) (r : Row)
        → is_running_run id "media-import" r ≡ true
        → is_active_of feature config (record r { status = cancelling }) ≡ true
        → is_active_of feature config r ≡ true
    still feature config r h active = ground (arith, is_running-active r.status)

cancel_running-OneActive :
    (t : Table) (feature : String) (run : Row) (cancel_process : ℕ → Table → Table × Bool)
    → OneActive (cancel_process run.id t).0
    → OneActive (cancel_running t feature run cancel_process).0
unfolding cancel_running
cancel_running-OneActive t feature run cancel_process one =
    elim (Bool-cases (cancel_process run.id t).1) [
      | inr kept ↦ rw (kept, cancel_running) one
      | inl stopped ↦
          rw (stopped, cancel_running)
            (update_where-OneActive (cancel_process run.id t).0 (is_running_run run.id feature)
              cancelled_by_user (cancel_process run.id t).0.next_id
              (λ f config r _ active.
                cc (with_status-quiet cancelled (some "Cancelled by user") f config r refl))
              one)
    ]

pub cancel_feature_run-OneActive :
    (t : Table) (feature : String) (id : ℕ) (cancel_process : ℕ → Table → Table × Bool)
    → ((run : ℕ) (u : Table) → OneActive u → OneActive (cancel_process run u).0)
    → OneActive t
    → OneActive (cancel_feature_run t feature id cancel_process).0
unfolding cancel_feature_run
cancel_feature_run-OneActive t feature id cancel_process safe one =
    elim (Option-cases (get_feature_run t feature id)) [
      | inl missing ↦ rw (missing, cancel_feature_run) one
      | inr (run, found) ↦
          rw (found, cancel_feature_run)
            (elim (Bool-cases (is_running run.status)) [
              | inr idle ↦ rw idle one
              | inl busy ↦
                  rw busy
                    (cancel_running-OneActive t feature run cancel_process (safe run.id t one))
            ])
    ]
