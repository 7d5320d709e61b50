-- ===== src/Pairing/Once.antt =====
-- What an acceptance in app/backend/src/services/pairing.js leaves for a second one of the same request.
use red_man.Common.{
  ℕ, ◌≤◌, ◌<◌, ◌≡◌, refl, String, Bool, true, false, ◌&&◌, some, List, [], ◌∷◌, arith, tally,
  tally-append, tally-select, tally-update_lost, tally-update_gone, find_where, find_where-tally,
  find_where_inv, update_where, Option-cases, inl, inr,
}
use red_man.Common.Results.{ok, err}
use red_man.Pairing.Store.{Request, Db, Host, is_pending, has_id, with_status}
use red_man.Pairing.Store.Status.{accepting}
use red_man.Pairing.Requests.{is_incoming_of}
use red_man.Pairing.Accept.{Acceptance, Refusal, begin_acceptance}
use red_man.Pairing.Changes.{Change}
use red_man.Pairing.Steps.{Steps}
use red_man.Pairing.Evolution.{Step-Change}
use red_man.Pairing.Limits.{later-Limited, Limited, Steps-Limited, empty-Limited}

abbrev is_pending_of : ℕ → Request → Bool
is_pending_of id r = has_id id r && is_pending r.status

-- The id is taken, and its request waits no more.
record Settled (id : ℕ) (rows : List Request) (n : ℕ) : Type 0 where
  pub is_taken : id < n
  pub not_pending : tally (is_pending_of id) rows ≡ 0

updated-Settled :
    (id : ℕ) (rows : List Request) (n : ℕ) (p : Request → Bool) (f : Request → Request)
    → ((r : Request) → (f r).id ≡ r.id)
    → ((r : Request) → is_pending (f r).status ≡ true → is_pending r.status ≡ true)
    → Settled id rows n
    → Settled id (update_where p f rows) n
updated-Settled id rows n p f same was h =
    let e =
      tally-update_lost p (is_pending_of id) f rows
        (λ r pass. let i = same r in let w = was r in ground arith) in
    record { is_taken = h.is_taken; not_pending = ground (arith, h.not_pending) }

changed-Settled :
    {now : ℕ} {rows rows' : List Request} {n n' : ℕ} (id : ℕ)
    → Change now rows n rows' n'
    → Settled id rows n
    → Settled id rows' n'
changed-Settled id (Change.stays rows n) h = h
changed-Settled id (Change.updates rows n p f safe) h =
    updated-Settled id rows n p f safe.same_id safe.was_pending h
changed-Settled id (Change.removes rows n p) h =
    let e = tally-select p (is_pending_of id) rows in
    record { is_taken = h.is_taken; not_pending = ground (arith, h.not_pending) }
changed-Settled id (Change.accepts rows n other r found active) h =
    updated-Settled id rows n (has_id other) (with_status _ accepting) (λ r. refl) (λ r w. cc) h
changed-Settled id (Change.adds rows n r e room) h =
    let counted = tally-append (is_pending_of id) rows (r ∷ []) in
    record {
      is_taken = ground (arith, h.is_taken);
      not_pending = ground (arith, h.not_pending, h.is_taken);
    }
changed-Settled id (Change.both _ _ _ _ _ _ first second) h =
    changed-Settled id second (changed-Settled id first h)

Steps-Settled :
    {host : Host} {start : ℕ} {db : Db} {now : ℕ} {db' : Db} (id : ℕ)
    → Steps host start db now db'
    → Settled id db.requests db.next_request
    → Settled id db'.requests db'.next_request
Steps-Settled id Steps.here h = h
Steps-Settled id (Steps.next steps le step) h =
    changed-Settled id (Step-Change step) (Steps-Settled id steps h)

begin_acceptance-Settled :
    (host : Host) (now id : ℕ) (confirmed : String) (reciprocal : Bool) (db db' : Db)
    (a : Acceptance)
    → Limited now db.requests db.next_request
    → begin_acceptance host now id confirmed reciprocal db ≡ ok (db', a)
    → Settled id db'.requests db'.next_request
unfolding begin_acceptance
begin_acceptance-Settled host now id confirmed reciprocal db db' a h e =
    let found : find_where (is_incoming_of id) db.requests ≡ some a.request = ground arith in
    let side = find_where_inv (is_incoming_of id) db.requests a.request found in
    let some_ =
      find_where-tally (is_incoming_of id) (has_id id) db.requests a.request found (ground arith) in
    let gone =
      tally-update_gone (has_id id) (is_pending_of id) (with_status now accepting) db.requests
        (λ r. ground arith) (λ r pass. ground arith) in
    record { is_taken = ground (arith, h.below id); not_pending = ground arith }

Settled-refused :
    (host : Host) (now id : ℕ) (confirmed : String) (reciprocal : Bool) (db : Db)
    → Settled id db.requests db.next_request
    → (refusal : Refusal) × (begin_acceptance host now id confirmed reciprocal db ≡ err refusal)
unfolding begin_acceptance
Settled-refused host now id confirmed reciprocal db h =
    elim (Option-cases (find_where (is_incoming_of id) db.requests)) [
      | inl missing ↦ (Refusal.not_found, ground arith)
      | inr (r, found) ↦
          let side = find_where_inv (is_incoming_of id) db.requests r found in
          let closed : is_pending r.status ≡ false = ground (
            arith,
            h.not_pending,
            find_where-tally (is_incoming_of id) (is_pending_of id) db.requests r found,
          ) in
          (Refusal.already r.status, ground arith)
    ]

-- Where a request has passed the checks of acceptPairing, in a state that steps have reached from a table with
-- no requests, it never passes them again: whatever steps follow, every later call for it is refused.
pub begin_acceptance_once :
    {host : Host} {start : ℕ} {db : Db} {t : ℕ} {db₁ : Db}
    → db.requests ≡ []
    → Steps host start db t db₁
    → (now id : ℕ) (confirmed : String) (reciprocal : Bool) (db₂ : Db) (a : Acceptance) → t ≤ now
    → begin_acceptance host now id confirmed reciprocal db₁ ≡ ok (db₂, a)
    → {later : ℕ} {db₃ : Db} → Steps host now db₂ later db₃
    → (again : ℕ) (confirmed_again : String) (reciprocal_again : Bool)
    → (refusal : Refusal) × (begin_acceptance host again id confirmed_again reciprocal_again db₃
        ≡ err refusal)
begin_acceptance_once {host} empty before now id confirmed reciprocal db₂ a le e {later} {db₃} after
      again confirmed_again reciprocal_again =
    Settled-refused host again id confirmed_again reciprocal_again db₃ (
      Steps-Settled id after (
        begin_acceptance-Settled host now id confirmed reciprocal _ db₂ a
          (later-Limited _ now _ _ le (Steps-Limited before (empty-Limited _ _ _ empty))) e))
