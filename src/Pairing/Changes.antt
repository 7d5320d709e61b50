-- ===== src/Pairing/Changes.antt =====
-- What the steps of pairing.js can do to the rows of pairing_requests.
use red_man.Common.{
  inl, inr, ◌⊎◌, ℕ, suc, ◌<◌, ◌≡◌, refl, Bool, true, false, some, List, [], ◌∷◌, ◌++◌, arith, tally,
  select, find_where, update_where,
}
use mathlib.Core.Path.{subst, sym}
use red_man.Pairing.Store.{
  Status, Request, Db, Host, is_incoming, is_active, is_pending, is_open, has_id, with_status,
}
use red_man.Pairing.Store.Status.{accepting, failed}
use red_man.Pairing.Keys.{revoke_key, authorize_key, revoke_previous, replace_key_authorization}
use red_man.Pairing.Peers.{Grant, find_existing_peer, write_peer, authorize_ssh, authorize_peer}
use red_man.Pairing.Requests.{
  is_incoming_of, max_active_incoming_pairings, max_incoming_pairing_rows,
}
use red_man.Pairing.Accept.{fail_request}

-- An update of a row that does not make it active or pending.
pub record Harmless (now : ℕ) (f : Request → Request) : Type 0 where
  pub same_id : (r : Request) → (f r).id ≡ r.id
  pub same_side : (r : Request) → is_incoming (f r) ≡ is_incoming r
  pub was_pending : (r : Request) → is_pending (f r).status ≡ true → is_pending r.status ≡ true
  pub was_active : (r : Request) → is_active now (f r) ≡ true → is_active now r ≡ true

-- From some rows and the next id to others.
pub data Change (now : ℕ) : List Request → ℕ → List Request → ℕ → Type 0 where
  stays : (rows : List Request) (n : ℕ) → Change now rows n rows n
  updates :
      (rows : List Request) (n : ℕ) (p : Request → Bool) (f : Request → Request)
      → Harmless now f
      → Change now rows n (update_where p f rows) n
  removes : (rows : List Request) (n : ℕ) (p : Request → Bool) → Change now rows n (select p rows) n
  accepts :
      (rows : List Request) (n : ℕ) (id : ℕ) (r : Request)
      → find_where (is_incoming_of id) rows ≡ some r
      → is_active now r ≡ true
      → Change now rows n (update_where (has_id id) (with_status now accepting) rows) n
  adds :
      (rows : List Request) (n : ℕ) (r : Request)
      → r.id ≡ n
      → (is_incoming r ≡ true
          → (tally (is_active now) rows < max_active_incoming_pairings)
            × (tally is_incoming rows < max_incoming_pairing_rows))
      → Change now rows n (rows ++ r ∷ []) (suc n)
  both :
      (rows rows' rows'' : List Request) (n n' n'' : ℕ)
      → Change now rows n rows' n'
      → Change now rows' n' rows'' n''
      → Change now rows n rows'' n''

abbrev pub Changes : ℕ → Db → Db → Type 0
Changes now db db' = Change now db.requests db.next_request db'.requests db'.next_request

-- The writing of a peer and its keys leaves the requests alone.
pub authorize_peer-requests :
    (host : Host) (g : Grant) (db : Db)
    → ((authorize_peer host g db).1.requests ≡ db.requests)
      × ((authorize_peer host g db).1.next_request ≡ db.next_request)
unfolding authorize_peer find_existing_peer authorize_ssh write_peer replace_key_authorization
    revoke_previous revoke_key authorize_key
authorize_peer-requests host g db = ground arith

pub is_pending-is_open : (status : Status) → is_pending status ≡ true → is_open status ≡ true
is_pending-is_open Status.pending h = refl
is_pending-is_open Status.accepting h = cc
is_pending-is_open Status.accepted h = cc
is_pending-is_open Status.failed h = cc
is_pending-is_open Status.declined h = cc
is_pending-is_open Status.expired h = cc

pub with_status-Harmless :
    (now : ℕ) (status : Status) → is_open status ≡ false → Harmless now (with_status now status)
with_status-Harmless now status closed = record {
  same_id = λ r. refl;
  same_side = λ r. refl;
  was_pending = λ r h. let open_ : is_open status ≡ true = is_pending-is_open status h in cc;
  was_active = λ r h. ground arith;
}

-- The same change, where what it ends in is known by equations.
pub ends :
    (now : ℕ) (db db' : Db) (rows : List Request) (n : ℕ)
    → Change now db.requests db.next_request rows n
    → db'.requests ≡ rows
    → db'.next_request ≡ n
    → Changes now db db'
ends now db db' rows n change e f =
    subst (λ m. Change now db.requests db.next_request db'.requests m) (sym f)
      (subst (λ q. Change now db.requests db.next_request q n) (sym e) change)

pub fail_request-Change : (now id : ℕ) (db : Db) → Changes now db (fail_request now id db)
fail_request-Change now id db =
    Change.updates db.requests db.next_request (has_id id) (with_status now failed)
      (with_status-Harmless now failed refl)

-- The requests as they were, or one of them failed.
abbrev pub IsFailing : ℕ → ℕ → Db → Db → Type 0
IsFailing now id db db' =
    ((db'.requests ≡ db.requests) ⊎ (db'.requests ≡ (fail_request now id db).requests))
    × (db'.next_request ≡ db.next_request)

pub failing-Change : (now id : ℕ) (db db' : Db) → IsFailing now id db db' → Changes now db db'
failing-Change now id db db' (inl same, f) =
    ends now db db' _ _ (Change.stays db.requests db.next_request) same f
failing-Change now id db db' (inr failing, f) =
    ends now db db' _ _ (fail_request-Change now id db) failing f
