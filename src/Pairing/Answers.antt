-- ===== src/Pairing/Answers.antt =====
-- What the answer of the other instance does to the requests, in app/backend/src/services/pairing.js.
use red_man.Common.{
  ℕ, ◌≡◌, refl, String, Bool, true, false, arith, not, ◌&&◌, ◌||◌, String-Comparable, find_where,
  Bool-cases, Option-cases, inl, inr,
}
use mathlib.Core.Path.{subst, sym}
use red_man.Pairing.Store.{Payload, Request, Db, Host, is_pending, has_id, is_pairing_expired}
use red_man.Pairing.Peers.{validate_pairing_access}
use red_man.Pairing.Requests.{}
use red_man.Pairing.Accept.{is_offered, is_missing, text_or_empty}
use red_man.Pairing.Callback.{
  is_outgoing_of, reverse_grant, completed, complete_request, grant_reciprocal_access,
  complete_pairing, handle_pairing_callback,
}
use red_man.Pairing.Changes.{
  Harmless, Change, Changes, authorize_peer-requests, ends, failing-Change,
}

completed-Harmless :
    (host : Host) (now : ℕ) (payload : Payload) (reciprocal : Bool)
    → Harmless now (completed host now payload reciprocal)
completed-Harmless host now payload reciprocal = record {
  same_id = λ r. refl;
  same_side = λ r. refl;
  was_pending = λ r h. cc;
  was_active = λ r h. ground arith;
}

grant_reciprocal_access-requests :
    (host : Host) (r : Request) (payload : Payload) (db : Db)
    → ((grant_reciprocal_access host r payload db).1.requests ≡ db.requests)
      × ((grant_reciprocal_access host r payload db).1.next_request ≡ db.next_request)
unfolding grant_reciprocal_access
grant_reciprocal_access-requests host r payload db =
    elim (Option-cases
      (validate_pairing_access host (text_or_empty r.reciprocal_path) r.reciprocal_limit_bytes)) [
        | inl refused ↦ ground arith
        | inr (access, given) ↦
            let (e, f) = authorize_peer-requests host (reverse_grant host r payload access) db in
            ground arith
      ]

completing-Change :
    (host : Host) (now id : ℕ) (payload : Payload) (reciprocal : Bool) (db db' : Db)
    → db'.requests ≡ (complete_request host now id payload reciprocal db).requests
    → db'.next_request ≡ db.next_request
    → Changes now db db'
completing-Change host now id payload reciprocal db db' e f =
    ends now db db' _ _
      (Change.updates db.requests db.next_request (has_id id)
        (completed host now payload reciprocal) (completed-Harmless host now payload reciprocal))
      e f

complete_pairing-Change :
    (host : Host) (now : ℕ) (r : Request) (payload : Payload) (db : Db)
    → Changes now db (complete_pairing host now r payload db).1
unfolding complete_pairing
complete_pairing-Change host now r payload db =
    let (e, f) = grant_reciprocal_access-requests host r payload db in
    let after = (complete_pairing host now r payload db).1 in
    elim (Bool-cases (payload.reciprocal_accepted && is_offered r)) [
      | inr refused ↦
          completing-Change host now r.id payload false db after (ground arith) (ground arith)
      | inl offered ↦ elim (Option-cases (grant_reciprocal_access host r payload db).0) [
        | inl failing ↦ failing-Change now r.id db after (ground arith)
        | inr (id, given) ↦
            completing-Change host now r.id payload true db after (ground arith) (ground arith)
      ]
    ]

stays-Change : (now : ℕ) (db db' : Db) → db' ≡ db → Changes now db db'
stays-Change now db db' e =
    subst (λ other. Changes now db other) (sym e) (Change.stays db.requests db.next_request)

pub handle_pairing_callback-Change :
    (host : Host) (now : ℕ) (token body : String) (db : Db)
    → Changes now db (handle_pairing_callback host now token body db).1
unfolding handle_pairing_callback
handle_pairing_callback-Change host now token body db =
    let after = (handle_pairing_callback host now token body db).1 in
    elim (Option-cases (find_where (is_outgoing_of token) db.requests)) [
      | inl missing ↦ stays-Change now db after (ground arith)
      | inr (r, found) ↦
          elim (Bool-cases (
            not (is_pending r.status)
            || (is_pairing_expired now r || is_missing r.ephemeral_secret))) [
              | inl refused ↦ stays-Change now db after (ground arith)
              | inr open_ ↦
                  elim (Option-cases
                    (host.process_callback body (text_or_empty r.ephemeral_secret) token)) [
                      | inl invalid ↦ failing-Change now r.id db after (ground arith)
                      | inr (payload, valid) ↦
                          let e : after ≡ (complete_pairing host now r payload db).1 =
                            ground arith in
                          subst (λ other. Changes now db other) (sym e)
                            (complete_pairing-Change host now r payload db)
                    ]
            ]
    ]
