-- ===== src/Pairing/Evolution.antt =====
-- Each step of pairing.js as changes of the rows of pairing_requests.
use red_man.Common.{
  ℕ, suc, ◌≡◌, refl, String, Bool, true, false, Option, none, some, List, [], ◌∷◌, ◌++◌, arith,
  String-Comparable, find_where, find_where_inv, Option-cases, inl, inr, ◌⊎◌,
}
use red_man.Common.Results.{ok}
use red_man.Pairing.Store.{
  Status, Request, Db, Host, Access, sql_now, is_pending, is_open, has_id, with_status,
  is_pairing_expired,
}
use red_man.Pairing.Store.Status.{accepted, failed, declined, expired}
use red_man.Pairing.Requests.{
  Incoming, Outgoing, new_incoming, new_outgoing, store_incoming_pairing_request, begin_pairing,
  end_pairing, decline_pairing, unpair, expire_requests, forget_requests, is_incoming_of,
}
use red_man.Pairing.Accept.{
  grant_of, with_outcome, reciprocal_destination, Acceptance, begin_acceptance,
  authorize_acceptance, end_acceptance,
}
use red_man.Pairing.Callback.{}
use red_man.Pairing.Steps.{Step}
use red_man.Pairing.Answers.{handle_pairing_callback-Change}
use red_man.Pairing.Changes.{
  Harmless, Change, Changes, authorize_peer-requests, is_pending-is_open, with_status-Harmless,
  ends, fail_request-Change, failing-Change,
}

store-Change :
    (now : ℕ) (r : Incoming) (db db' : Db) (id : ℕ)
    → store_incoming_pairing_request now r db ≡ ok (db', id)
    → Changes now db db'
unfolding store_incoming_pairing_request
store-Change now r db db' id e =
    ends now db db' _ _
      (Change.adds db.requests db.next_request (new_incoming now db.next_request r) refl
        (λ h. (ground arith, ground arith)))
      (ground arith) (ground arith)

begin_pairing-Change :
    (now : ℕ) (r : Outgoing) (db db' : Db) (id : ℕ)
    → begin_pairing now r db ≡ some (db', id)
    → Changes now db db'
unfolding begin_pairing
begin_pairing-Change now r db db' id e =
    ends now db db' _ _
      (Change.adds db.requests db.next_request (new_outgoing now db.next_request r) refl (λ h. cc))
      (ground arith) (ground arith)

renamed-Harmless :
    (now : ℕ) (name : String)
    → Harmless now (λ r. record r { remote_instance = name; updated_at = sql_now now })
renamed-Harmless now name = record {
  same_id = λ r. refl;
  same_side = λ r. refl;
  was_pending = λ r h. h;
  was_active = λ r h. h;
}

end_pairing-Change :
    (now id : ℕ) (name : Option String) (db : Db) → Changes now db (end_pairing now id name db)
unfolding end_pairing
end_pairing-Change now id none db = fail_request-Change now id db
end_pairing-Change now id (some name) db =
    Change.updates db.requests db.next_request (has_id id) _ (renamed-Harmless now name)

decline_pairing-Change :
    (now id : ℕ) (db db' : Db) → decline_pairing now id db ≡ ok db' → Changes now db db'
unfolding decline_pairing
decline_pairing-Change now id db db' e =
    ends now db db' _ _
      (Change.updates db.requests db.next_request (has_id id) (with_status now declined)
        (with_status-Harmless now declined refl))
      (ground arith) (ground arith)

begin_acceptance-Change :
    (host : Host) (now id : ℕ) (confirmed : String) (reciprocal : Bool) (db db' : Db)
    (a : Acceptance)
    → begin_acceptance host now id confirmed reciprocal db ≡ ok (db', a)
    → Changes now db db'
unfolding begin_acceptance
begin_acceptance-Change host now id confirmed reciprocal db db' a e =
    let found : find_where (is_incoming_of id) db.requests ≡ some a.request = ground arith in
    let pending_ : is_pending a.request.status ≡ true = ground arith in
    let unexpired : is_pairing_expired now a.request ≡ false = ground arith in
    let side = find_where_inv (is_incoming_of id) db.requests a.request found in
    let open_ = is_pending-is_open a.request.status pending_ in
    ends now db db' _ _
      (Change.accepts db.requests db.next_request id a.request found (ground arith)) (ground arith)
      (ground arith)

authorize_acceptance-Change :
    (host : Host) (now : ℕ) (key_ready : Bool) (a : Acceptance) (access : Access) (db : Db)
    → Changes now db (authorize_acceptance host now key_ready a access db).1
unfolding authorize_acceptance
authorize_acceptance-Change host now key_ready a access db =
    failing-Change now a.request.id db (authorize_acceptance host now key_ready a access db).1
      (elim (Option-cases (host.prepare_callback a.request access a.reciprocal)) [
        | inl missing ↦ ground arith
        | inr (keys, prepared) ↦
            let (e, f) = authorize_peer-requests host (grant_of host a access keys.0) db in
            ground arith
      ])

with_outcome-Harmless :
    (now : ℕ) (status : Status) (peer_id : ℕ) (reciprocal : Request → Bool)
    → is_open status ≡ false
    → Harmless now (λ r. with_outcome now status peer_id (reciprocal r) r)
with_outcome-Harmless now status peer_id reciprocal closed = record {
  same_id = λ r. refl;
  same_side = λ r. refl;
  was_pending = λ r h. let open_ : is_open status ≡ true = is_pending-is_open status h in cc;
  was_active = λ r h. ground arith;
}

-- The row of a destination behind the outcome.
IsAdding : Host → ℕ → String → Acceptance → String → List Request → Db → Db → Type 0
IsAdding host now token a key rows db db' =
    ((db'.requests ≡ rows) × (db'.next_request ≡ db.next_request))
    ⊎ ((db'.requests
          ≡ rows ++ reciprocal_destination host now token a.request key db.next_request ∷ [])
        × (db'.next_request ≡ suc db.next_request))

adding-Change :
    (host : Host) (now : ℕ) (token : String) (a : Acceptance) (key : String) (rows : List Request)
    (db db' : Db)
    → Change now db.requests db.next_request rows db.next_request
    → IsAdding host now token a key rows db db'
    → Changes now db db'
unfolding IsAdding
adding-Change host now token a key rows db db' change (inl (e, f)) = ends now db db' _ _ change e f
adding-Change host now token a key rows db db' change (inr (e, f)) =
    ends now db db' _ _
      (Change.both db.requests rows _ db.next_request db.next_request _ change (
        Change.adds rows db.next_request
          (reciprocal_destination host now token a.request key db.next_request) refl (λ h. cc)))
      e f

end_acceptance-Change :
    (host : Host) (now : ℕ) (delivered : Bool) (token : String) (a : Acceptance) (peer_id : ℕ)
    (key : String) (db : Db)
    → Changes now db (end_acceptance host now delivered token a peer_id key db).1
unfolding end_acceptance IsAdding
end_acceptance-Change host now false token a peer_id key db =
    Change.updates db.requests db.next_request (has_id a.request.id) _
      (with_outcome-Harmless now failed peer_id Request.reciprocal_accepted refl)
end_acceptance-Change host now true token a peer_id key db =
    adding-Change host now token a key _ db (end_acceptance host now true token a peer_id key db).1
      (Change.updates db.requests db.next_request (has_id a.request.id)
        (with_outcome now accepted peer_id a.reciprocal)
        (with_outcome-Harmless now accepted peer_id (λ r. a.reciprocal) refl))
      (ground arith)

-- A step changes the rows by updates that make none active or pending, by removals, by an
-- acceptance of an active request, and by additions, of incoming ones below the limits.
pub Step-Change : {host : Host} {now : ℕ} {db db' : Db} → Step host now db db' → Changes now db db'
unfolding unpair expire_requests forget_requests
Step-Change {host} {now} {db} (Step.received r db' id e) = store-Change now r db db' id e
Step-Change {host} {now} {db} (Step.sent r db' id e) = begin_pairing-Change now r db db' id e
Step-Change {host} {now} {db} (Step.answered id name) = end_pairing-Change now id name db
Step-Change {host} {now} {db} (Step.called_back token body) =
    handle_pairing_callback-Change host now token body db
Step-Change {host} {now} {db} (Step.acceptance_begun id confirmed reciprocal db' a e) =
    begin_acceptance-Change host now id confirmed reciprocal db db' a e
Step-Change {host} {now} {db} (Step.acceptance_authorized key_ready a access) =
    authorize_acceptance-Change host now key_ready a access db
Step-Change {host} {now} {db} (Step.acceptance_ended delivered token a peer_id key) =
    end_acceptance-Change host now delivered token a peer_id key db
Step-Change {host} {now} {db} (Step.declined id db' e) = decline_pairing-Change now id db db' e
Step-Change {host} {now} {db} (Step.unpaired id) = Change.removes db.requests db.next_request _
Step-Change {host} {now} {db} (Step.expired_some taken) =
    Change.updates db.requests db.next_request _ (with_status now expired)
      (with_status-Harmless now expired refl)
Step-Change {host} {now} {db} (Step.forgot_some taken) =
    Change.removes db.requests db.next_request _
