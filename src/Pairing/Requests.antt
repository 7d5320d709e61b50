-- ===== src/Pairing/Requests.antt =====
-- The requests for a pairing that arrive, are sent, are declined and run out: pairing.js,
-- pairingIngress.js and the part of databaseRetention.js about them, in app/backend/src/services.
use red_man.Common.{
  ℕ, suc, ◌+◌, String, Bool, false, ◌&&◌, not, Option, none, some, [], ◌∷◌, ◌++◌, any, find_where,
  update_where, select, tally, ltb, leb, ◌===◌, if◌then◌else◌, String-Comparable,
}
use red_man.Common.Results.{Result, ok, err}
use red_man.Pairing.Store.{
  Status, Request, Db, sql_now, is_incoming, is_active, is_open, is_pending, is_history, has_id,
  with_status,
}
use red_man.Pairing.Store.Direction.{incoming, outgoing}
use red_man.Pairing.Store.Status.{pending, failed, declined, expired}

abbrev pub max_active_incoming_pairings : ℕ
max_active_incoming_pairings = 20

abbrev pub max_incoming_pairing_rows : ℕ
max_incoming_pairing_rows = 500

-- Ten minutes, the default of the column expires_at.
abbrev pub pairing_seconds : ℕ
pairing_seconds = 600

-- What a request brings; the row's other columns have their defaults.
pub record Incoming : Type 0 where
  pub token : String
  pub instance_name : String
  pub callback_url : String
  pub ssh_public_key : Option String
  pub ephemeral_public_key : Option String
  pub static_public_key : Option String
  pub fingerprint : Option String
  pub reciprocal_path : Option String
  pub reciprocal_limit_bytes : ℕ

abbrev pub new_incoming : ℕ → ℕ → Incoming → Request
new_incoming now id r = record {
  id = id;
  direction = incoming;
  token = r.token;
  remote_instance = r.instance_name;
  remote_url = r.callback_url;
  remote_ssh_pubkey = r.ssh_public_key;
  status = pending;
  peer_id = none;
  api_key_encrypted = none;
  remote_storage_limit = 0;
  remote_allowed_path = none;
  remote_ephemeral_pubkey = r.ephemeral_public_key;
  remote_static_pubkey = r.static_public_key;
  ephemeral_secret = none;
  remote_fingerprint = r.fingerprint;
  reciprocal_path = r.reciprocal_path;
  reciprocal_limit_bytes = r.reciprocal_limit_bytes;
  reciprocal_accepted = false;
  updated_at = sql_now now;
  expires_at = sql_now now + pairing_seconds;
}

pub data Ingress : Type 0 where
  duplicate_token capacity_reached history_reached : Ingress

abbrev pub add_request : (ℕ → Request) → Db → Db
add_request row db = record db {
  requests = db.requests ++ row db.next_request ∷ [];
  next_request = suc db.next_request;
}

-- `storeIncomingPairingRequest`: the id of the row that is stored.
unfoldable pub store_incoming_pairing_request : ℕ → Incoming → Db → Result Ingress (Db × ℕ)
store_incoming_pairing_request now r db =
    if any (λ q. q.token === r.token) db.requests
    then err duplicate_token
    else if leb max_active_incoming_pairings (tally (is_active now) db.requests)
    then err capacity_reached
    else if leb max_incoming_pairing_rows (tally is_incoming db.requests)
    then err history_reached
    else ok (add_request (λ id. new_incoming now id r) db, db.next_request)

-- What `initiatePairing` stores before it sends; the offer is the access that it grants in return.
pub record Outgoing : Type 0 where
  pub token : String
  pub remote_url : String
  pub ephemeral_secret : String
  pub reciprocal_path : Option String
  pub reciprocal_limit_bytes : ℕ

abbrev pub new_outgoing : ℕ → ℕ → Outgoing → Request
new_outgoing now id r = record {
  id = id;
  direction = outgoing;
  token = r.token;
  remote_instance = "(discovering)";
  remote_url = r.remote_url;
  remote_ssh_pubkey = none;
  status = pending;
  peer_id = none;
  api_key_encrypted = none;
  remote_storage_limit = 0;
  remote_allowed_path = none;
  remote_ephemeral_pubkey = none;
  remote_static_pubkey = none;
  ephemeral_secret = some r.ephemeral_secret;
  remote_fingerprint = none;
  reciprocal_path = r.reciprocal_path;
  reciprocal_limit_bytes = r.reciprocal_limit_bytes;
  reciprocal_accepted = false;
  updated_at = sql_now now;
  expires_at = sql_now now + pairing_seconds;
}

-- The insertion throws where the token is there.
unfoldable pub begin_pairing : ℕ → Outgoing → Db → Option (Db × ℕ)
begin_pairing now r db =
    if any (λ q. q.token === r.token) db.requests
    then none
    else some (add_request (λ id. new_outgoing now id r) db, db.next_request)

-- What the peer answers, with its name; none where it refuses or cannot be reached.
unfoldable pub end_pairing : ℕ → ℕ → Option String → Db → Db
end_pairing now id none db = record db {
  requests = update_where (has_id id) (with_status now failed) db.requests;
}
end_pairing now id (some instance_name) db = record db {
  requests =
      update_where (has_id id)
        (λ r. record r { remote_instance = instance_name; updated_at = sql_now now }) db.requests;
}

pub data Declined : Type 0 where
  not_found : Declined
  already : Status → Declined

abbrev pub is_incoming_of : ℕ → Request → Bool
is_incoming_of id r = has_id id r && is_incoming r

unfoldable pub decline_pairing : ℕ → ℕ → Db → Result Declined Db
decline_pairing now id db = elim (find_where (is_incoming_of id) db.requests) [
  | none ↦ err not_found
  | some r ↦
      if not (is_pending r.status)
      then err (already r.status)
      else ok
          (record db { requests = update_where (has_id id) (with_status now declined) db.requests })
]

-- The deletion of an outgoing pairing; the route does not look at the direction.
unfoldable pub unpair : ℕ → Db → Db
unpair id db = record db { requests = select (λ r. not (has_id id r)) db.requests }

-- `status IN ('pending', 'accepting') AND expires_at < datetime('now')`
abbrev pub runs_out : ℕ → Request → Bool
runs_out now r = is_open r.status && ltb r.expires_at (sql_now now)

-- The requests that a batch of the retention sets to expired. Which ones its `LIMIT` takes is open:
-- they are given.
unfoldable pub expire_requests : ℕ → (Request → Bool) → Db → Db
expire_requests now taken db = record db {
  requests = update_where (λ r. taken r && runs_out now r) (with_status now expired) db.requests;
}

-- `status IN ('expired', 'failed', 'declined') AND updated_at < datetime('now', '-1 hour')`
abbrev pub is_old : ℕ → Request → Bool
is_old now r = is_history r.status && ltb (r.updated_at + 3600) (sql_now now)

unfoldable pub forget_requests : ℕ → (Request → Bool) → Db → Db
forget_requests now taken db = record db {
  requests = select (λ r. not (taken r && is_old now r)) db.requests;
}
