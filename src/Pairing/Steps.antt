-- ===== src/Pairing/Steps.antt =====
-- What happens to the tables of pairing.js, in any order: each step is one call between two awaits.
use red_man.Common.{ℕ, ◌≤◌, ◌≡◌, String, Bool, Option, some}
use red_man.Common.Results.{ok}
use red_man.Pairing.Store.{Request, Db, Host, Access}
use red_man.Pairing.Requests.{
  Incoming, Outgoing, store_incoming_pairing_request, begin_pairing, end_pairing, decline_pairing,
  unpair, expire_requests, forget_requests,
}
use red_man.Pairing.Accept.{Acceptance, begin_acceptance, authorize_acceptance, end_acceptance}
use red_man.Pairing.Callback.{handle_pairing_callback}

-- A step at a time. What an await brings is an argument: the acceptance of a request may go on with any
-- row that was read, and the rows that a batch takes are open.
pub data Step (host : Host) (now : ℕ) (db : Db) : Db → Type 0 where
  received :
      (r : Incoming) (db' : Db) (id : ℕ)
      → store_incoming_pairing_request now r db ≡ ok (db', id)
      → Step host now db db'
  sent :
      (r : Outgoing) (db' : Db) (id : ℕ)
      → begin_pairing now r db ≡ some (db', id)
      → Step host now db db'
  answered : (id : ℕ) (name : Option String) → Step host now db (end_pairing now id name db)
  called_back :
      (token body : String) → Step host now db (handle_pairing_callback host now token body db).1
  acceptance_begun :
      (id : ℕ) (confirmed : String) (reciprocal : Bool) (db' : Db) (a : Acceptance)
      → begin_acceptance host now id confirmed reciprocal db ≡ ok (db', a)
      → Step host now db db'
  acceptance_authorized :
      (key_ready : Bool) (a : Acceptance) (access : Access)
      → Step host now db (authorize_acceptance host now key_ready a access db).1
  acceptance_ended :
      (delivered : Bool) (token : String) (a : Acceptance) (peer_id : ℕ) (key : String)
      → Step host now db (end_acceptance host now delivered token a peer_id key db).1
  declined : (id : ℕ) (db' : Db) → decline_pairing now id db ≡ ok db' → Step host now db db'
  unpaired : (id : ℕ) → Step host now db (unpair id db)
  expired_some : (taken : Request → Bool) → Step host now db (expire_requests now taken db)
  forgot_some : (taken : Request → Bool) → Step host now db (forget_requests now taken db)

-- Steps whose clock does not go back.
pub data Steps (host : Host) (start : ℕ) (db : Db) : ℕ → Db → Type 0 where
  here : Steps host start db start db
  next :
      {t now : ℕ} {u v : Db}
      → Steps host start db t u
      → t ≤ now
      → Step host now u v
      → Steps host start db now v
