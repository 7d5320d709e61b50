-- ===== src/Pairing/Limits.antt =====
-- How many requests may wait at once in app/backend/src/services/pairingIngress.js.
use mathlib.Core.Path.{ap}
use red_man.Common.{
  ℕ, suc, ◌≤◌, ◌<◌, ◌≡◌, refl, Bool, true, some, List, [], ◌∷◌, ◌++◌, arith, tally, tally-append,
  tally-le, tally-select, tally-update_lost, tally-update_passed, tally-update_same, select,
  find_where, nat_beq, find_where_inv, find_where-single, update_where,
}
use red_man.Pairing.Store.{Request, Db, Host, is_incoming, is_active, has_id, with_status}
use red_man.Pairing.Store.Status.{accepting}
use red_man.Pairing.Requests.{
  is_incoming_of, max_active_incoming_pairings, max_incoming_pairing_rows,
}
use red_man.Pairing.Changes.{Harmless, Change}
use red_man.Pairing.Steps.{Steps}
use red_man.Pairing.Evolution.{Step-Change}

-- The limits are kept, and ids are handed out once.
pub record Limited (now : ℕ) (rows : List Request) (n : ℕ) : Type 0 where
  pub few_incoming : tally is_incoming rows ≤ max_incoming_pairing_rows
  pub few_active : tally (is_active now) rows ≤ max_active_incoming_pairings
  pub single : (id : ℕ) → tally (has_id id) rows ≤ 1
  pub below : (id : ℕ) → n ≤ id → tally (has_id id) rows ≡ 0

updated-Limited :
    (now : ℕ) (rows : List Request) (n : ℕ) (p : Request → Bool) (f : Request → Request)
    → Harmless now f
    → Limited now rows n
    → Limited now (update_where p f rows) n
updated-Limited now rows n p f safe h =
    let same = λ (id : ℕ).
      tally-update_same p (has_id id) f rows (λ r. ap (λ i. nat_beq i id) (safe.same_id r)) in
    record {
      few_incoming =
          let e = tally-update_same p is_incoming f rows safe.same_side in
          ground (arith, h.few_incoming);
      few_active =
          let e = tally-update_lost p (is_active now) f rows safe.was_active in
          ground (arith, h.few_active);
      single = λ id. ground (arith, h.single id, same id);
      below = λ id le. ground (arith, h.below id le, same id);
    }

accepted-Limited :
    (now : ℕ) (rows : List Request) (n id : ℕ) (r : Request)
    → find_where (is_incoming_of id) rows ≡ some r
    → is_active now r ≡ true
    → Limited now rows n
    → Limited now (update_where (has_id id) (with_status now accepting) rows) n
accepted-Limited now rows n id r found active h =
    let same = λ (other : ℕ).
      tally-update_same (has_id id) (has_id other) (with_status now accepting) rows (λ r. refl) in
    let pass = find_where_inv (is_incoming_of id) rows r found in
    let first =
      find_where-single (has_id id) (is_incoming_of id) rows r (h.single id) found (ground arith) in
    record {
      few_incoming =
          let e =
            tally-update_same (has_id id) is_incoming (with_status now accepting) rows
              (λ r. refl) in
          ground (arith, h.few_incoming);
      few_active =
          let e =
            tally-update_passed (has_id id) (is_active now) (with_status now accepting) rows r
              (h.single id) first active in
          ground (arith, h.few_active);
      single = λ other. ground (arith, h.single other, same other);
      below = λ other le. ground (arith, h.below other le, same other);
    }

added-Limited :
    (now : ℕ) (rows : List Request) (n : ℕ) (r : Request)
    → r.id ≡ n
    → (is_incoming r ≡ true
        → (tally (is_active now) rows < max_active_incoming_pairings)
          × (tally is_incoming rows < max_incoming_pairing_rows))
    → Limited now rows n
    → Limited now (rows ++ r ∷ []) (suc n)
added-Limited now rows n r e room h =
    let counted = λ (q : Request → Bool). tally-append q rows (r ∷ []) in
    record {
      few_incoming = ground (arith, h.few_incoming, room, counted is_incoming);
      few_active = ground (arith, h.few_active, room, counted (is_active now));
      single = λ id. ground (arith, h.single id, h.below id, counted (has_id id));
      below = λ id le. ground (arith, h.below id, counted (has_id id));
    }

removed-Limited :
    (now : ℕ) (rows : List Request) (n : ℕ) (p : Request → Bool)
    → Limited now rows n
    → Limited now (select p rows) n
removed-Limited now rows n p h =
    let fewer = λ (q : Request → Bool). tally-select p q rows in
    record {
      few_incoming = ground (arith, h.few_incoming, fewer is_incoming);
      few_active = ground (arith, h.few_active, fewer (is_active now));
      single = λ id. ground (arith, h.single id, fewer (has_id id));
      below = λ id le. ground (arith, h.below id le, fewer (has_id id));
    }

changed-Limited :
    {now : ℕ} {rows rows' : List Request} {n n' : ℕ}
    → Change now rows n rows' n'
    → Limited now rows n
    → Limited now rows' n'
changed-Limited (Change.stays rows n) h = h
changed-Limited (Change.updates rows n p f safe) h = updated-Limited _ rows n p f safe h
changed-Limited (Change.removes rows n p) h = removed-Limited _ rows n p h
changed-Limited (Change.accepts rows n id r found active) h =
    accepted-Limited _ rows n id r found active h
changed-Limited (Change.adds rows n r e room) h = added-Limited _ rows n r e room h
changed-Limited (Change.both _ _ _ _ _ _ first second) h =
    changed-Limited second (changed-Limited first h)

-- As time goes on, requests run out.
pub later-Limited :
    (now later : ℕ) (rows : List Request) (n : ℕ)
    → now ≤ later
    → Limited now rows n
    → Limited later rows n
later-Limited now later rows n le h = record {
  few_incoming = h.few_incoming;
  single = h.single;
  below = h.below;
  few_active =
      let e = tally-le (is_active later) (is_active now) rows (λ r active. ground arith) in
      ground (arith, h.few_active);
}

pub Steps-Limited :
    {host : Host} {start : ℕ} {db : Db} {now : ℕ} {db' : Db}
    → Steps host start db now db'
    → Limited start db.requests db.next_request
    → Limited now db'.requests db'.next_request
Steps-Limited Steps.here h = h
Steps-Limited (Steps.next steps le step) h =
    changed-Limited (Step-Change step) (later-Limited _ _ _ _ le (Steps-Limited steps h))

pub empty-Limited : (now : ℕ) (rows : List Request) (n : ℕ) → rows ≡ [] → Limited now rows n
empty-Limited now rows n e = record {
  few_incoming = ground arith;
  few_active = ground arith;
  single = λ id. ground arith;
  below = λ id le. ground arith;
}

-- From a table with no requests, whatever steps follow in whatever order, as long as the clock does not
-- go back, there are never more than 500 incoming requests, and never more than 20 of them that are
-- pending or being accepted and have not expired.
pub pairing_limits :
    {host : Host} {start : ℕ} {db : Db} {now : ℕ} {db' : Db}
    → db.requests ≡ []
    → Steps host start db now db'
    → (tally is_incoming db'.requests ≤ 500) × (tally (is_active now) db'.requests ≤ 20)
pairing_limits empty steps =
    let h = Steps-Limited steps (empty-Limited _ _ _ empty) in (h.few_incoming, h.few_active)
