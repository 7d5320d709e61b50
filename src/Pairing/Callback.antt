-- ===== src/Pairing/Callback.antt =====
-- handlePairingCallback in app/backend/src/services/pairing.js, on the side that asked for the pairing,
-- and peerBinding.js, which finds the destination of a job among the requests that were accepted.
use red_man.Common.{
  ℕ, String, Bool, true, false, ◌&&◌, not, Option, none, some, List, [], ◌∷◌, find_where,
  update_where, ◌===◌, if◌then◌else◌, String-Comparable,
}
use red_man.Pairing.Store.{
  Status, Request, Db, Host, Access, Payload, sql_now, is_pairing_expired, is_pending, is_outgoing,
  has_id,
}
use red_man.Pairing.Store.Status.{accepted}
use red_man.Pairing.Peers.{Grant, authorize_peer, validate_pairing_access, coalesce, is_some_text}
use red_man.Pairing.Accept.{text_or_empty, is_missing, given_key, is_offered, fail_request}

pub data Rejection : Type 0 where
  unknown_token : Rejection
  already : Status → Rejection
  request_expired missing_secret invalid grant_failed : Rejection

abbrev pub reverse_grant : Host → Request → Payload → Access → Grant
reverse_grant host r payload access = record {
  display_name = r.remote_instance;
  new_name =
      if is_missing payload.instance_name
      then r.remote_instance
      else text_or_empty payload.instance_name;
  static_pubkey = some payload.remote_static_pubkey;
  ssh_public_key = given_key payload.ssh_public_key;
  api_key = payload.reverse_api_key;
  access = access;
  ip = host.extract_ip r.remote_url;
}

-- `grantReciprocalAccess`: none for an error.
unfoldable pub grant_reciprocal_access : Host → Request → Payload → Db → Option ℕ × Db
unfolding validate_pairing_access authorize_peer
grant_reciprocal_access host r payload db =
    elim (validate_pairing_access host (text_or_empty r.reciprocal_path) r.reciprocal_limit_bytes) [
      | none ↦ (none, db)
      | some access ↦ authorize_peer host (reverse_grant host r payload access) db
    ]

abbrev pub or_root : Option String → String
or_root path = if is_missing path then "/" else text_or_empty path

-- The last `UPDATE`.
abbrev pub completed : Host → ℕ → Payload → Bool → Request → Request
completed host now payload reciprocal r = record r {
  status = accepted;
  api_key_encrypted = some (host.encrypt_peer_api_key payload.api_key);
  remote_ssh_pubkey = payload.ssh_public_key;
  remote_instance = text_or_empty (coalesce payload.instance_name (some r.remote_instance));
  remote_storage_limit = payload.storage_limit_bytes;
  remote_allowed_path = some (or_root payload.allowed_path_prefix);
  remote_static_pubkey = some payload.remote_static_pubkey;
  remote_fingerprint = some payload.fingerprint;
  ephemeral_secret = none;
  reciprocal_accepted = reciprocal;
  updated_at = sql_now now;
}

abbrev pub complete_request : Host → ℕ → ℕ → Payload → Bool → Db → Db
complete_request host now id payload reciprocal db = record db {
  requests = update_where (has_id id) (completed host now payload reciprocal) db.requests;
}

-- What follows a valid answer: the grant in return, where it was offered and taken, and the last
-- `UPDATE`.
unfoldable pub complete_pairing : Host → ℕ → Request → Payload → Db → Option Rejection × Db
unfolding grant_reciprocal_access
complete_pairing host now r payload db =
    if payload.reciprocal_accepted && is_offered r
    then (let (peer, granted_db) = grant_reciprocal_access host r payload db in
        elim peer [
          | none ↦ (some grant_failed, fail_request now r.id granted_db)
          | some id ↦ (none, complete_request host now r.id payload true granted_db)
        ])
    else (none, complete_request host now r.id payload false db)

abbrev pub is_outgoing_of : String → Request → Bool
is_outgoing_of token r = r.token === token && is_outgoing r

unfoldable pub handle_pairing_callback : Host → ℕ → String → String → Db → Option Rejection × Db
unfolding complete_pairing
handle_pairing_callback host now token body db =
    elim (find_where (is_outgoing_of token) db.requests) [
      | none ↦ (some unknown_token, db)
      | some r ↦
          if not (is_pending r.status)
          then (some (already r.status), db)
          else if is_pairing_expired now r
          then (some request_expired, db)
          else if is_missing r.ephemeral_secret
          then (some missing_secret, db)
          else (elim (host.process_callback body (text_or_empty r.ephemeral_secret) token) [
            | none ↦ (some invalid, fail_request now r.id db)
            | some payload ↦ complete_pairing host now r payload db
          ])
    ]

-- What a job of hyper backup knows of its destination.
pub record Job : Type 0 where
  pub remote_url : String
  pub peer_static_pubkey : Option String
  pub remote_api_key_encrypted : Option String

pub data Source : Type 0 where
  identity url job : Source

pub record Binding : Type 0 where
  pub source : Source
  pub remote_url : String
  pub api_key_encrypted : String
  pub static_public_key : Option String
  pub pairing_id : Option ℕ

-- `ORDER BY id DESC LIMIT 1`, over rows in the order of their ids.
abbrev pub newest_request : (Request → Bool) → List Request → Option Request
newest_request p [] = none
newest_request p (r ∷ rows) = elim (newest_request p rows) [
  | some found ↦ some found
  | none ↦ if p r then some r else none
]

abbrev is_accepted : Status → Bool
is_accepted accepted = true
is_accepted other = false

-- `ACCEPTED_OUTGOING`
abbrev pub is_accepted_outgoing : Request → Bool
is_accepted_outgoing r =
    is_outgoing r
    && is_accepted r.status
    && (elim r.api_key_encrypted [ none ↦ false | some key ↦ true ])

unfoldable pub find_pairing_by_static_key : String → List Request → Option Request
find_pairing_by_static_key key rows =
    newest_request (λ r. is_accepted_outgoing r && is_some_text key r.remote_static_pubkey) rows

unfoldable pub find_pairing_by_url : String → List Request → Option Request
find_pairing_by_url remote_url rows =
    if remote_url === ""
    then none
    else newest_request (λ r. is_accepted_outgoing r && r.remote_url === remote_url) rows

unfoldable pub find_pairing : Job → List Request → Option Request
unfolding find_pairing_by_static_key find_pairing_by_url
find_pairing j rows =
    if is_missing j.peer_static_pubkey
    then find_pairing_by_url j.remote_url rows
    else find_pairing_by_static_key (text_or_empty j.peer_static_pubkey) rows

-- None where the code throws.
unfoldable pub resolve_peer_binding : Job → List Request → Option Binding
unfolding find_pairing
resolve_peer_binding j rows = elim (find_pairing j rows) [
  | some r ↦ some (record {
    source = if is_missing j.peer_static_pubkey then url else identity;
    remote_url = r.remote_url;
    api_key_encrypted = text_or_empty r.api_key_encrypted;
    static_public_key = r.remote_static_pubkey;
    pairing_id = some r.id;
  })
  | none ↦
      if is_missing j.remote_api_key_encrypted
      then none
      else some (record {
        source = job;
        remote_url = j.remote_url;
        api_key_encrypted = text_or_empty j.remote_api_key_encrypted;
        static_public_key = j.peer_static_pubkey;
        pairing_id = none;
      })
]
