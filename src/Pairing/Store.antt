-- ===== src/Pairing/Store.antt =====
-- The tables pairing_requests and authorized_peers of app/backend/src/migrations.js and the two files of
-- authorized SSH keys. Of the columns, those are modelled that decide something; an absent text or
-- number of a column is `none` or 0. `now` is a number of milliseconds and what SQLite stores a
-- number of seconds. Keys, hashes and signatures come from libraries: they are the fields of `Host`.
use red_man.Common.{ℕ, ◌*◌, ◌/◌, String, Bool, true, false, ◌&&◌, Option, List, ltb, leb, nat_beq}

pub data Direction : Type 0 where
  incoming outgoing : Direction

pub data Status : Type 0 where
  pending accepting accepted failed declined expired : Status

pub record Request : Type 0 where
  pub id : ℕ
  pub direction : Direction
  pub token : String
  pub remote_instance : String
  pub remote_url : String
  pub remote_ssh_pubkey : Option String
  pub status : Status
  pub peer_id : Option ℕ
  pub api_key_encrypted : Option String
  pub remote_storage_limit : ℕ
  pub remote_allowed_path : Option String
  pub remote_ephemeral_pubkey : Option String
  pub remote_static_pubkey : Option String
  pub ephemeral_secret : Option String
  pub remote_fingerprint : Option String
  pub reciprocal_path : Option String
  pub reciprocal_limit_bytes : ℕ
  pub reciprocal_accepted : Bool
  pub updated_at : ℕ
  pub expires_at : ℕ

-- The column api_key is the marker of `api_key_hash`, and unique with it.
pub record Peer : Type 0 where
  pub id : ℕ
  pub name : String
  pub api_key_hash : String
  pub allowed_path_prefix : String
  pub storage_limit_bytes : ℕ
  pub enabled : Bool
  pub last_seen_ip : Option String
  pub static_pubkey : Option String
  pub ssh_public_key : Option String

-- A line of authorized_keys, with the key that it is about: type and code, without the comment.
pub record Line : Type 0 where
  pub text : String
  pub identity : Option String

-- The host's file is there where it is mounted.
pub record Db : Type 0 where
  pub requests : List Request
  pub next_request : ℕ
  pub peers : List Peer
  pub next_peer : ℕ
  pub container_keys : List Line
  pub host_keys : Option (List Line)

-- What the owner of a host allows a peer.
pub record Access : Type 0 where
  pub allowed_path_prefix : String
  pub storage_limit_bytes : ℕ

-- What the answer of a peer holds, once it is verified and decrypted.
pub record Payload : Type 0 where
  pub api_key : String
  pub reverse_api_key : String
  pub ssh_public_key : Option String
  pub instance_name : Option String
  pub storage_limit_bytes : ℕ
  pub allowed_path_prefix : Option String
  pub reciprocal_accepted : Bool
  pub remote_static_pubkey : String
  pub fingerprint : String

-- `normalize_key`, `identity` and `restricted_entry` are those of sshKeyValidation.js, `prepare_callback`
-- and `process_callback` those of handshake.js; the answer of a peer is a text. None stands for an
-- error that is thrown or returned.
pub record Host : Type 0 where
  pub normalize_key : String → Option String
  pub identity : String → String
  pub restricted_entry : String → String → Option String → Option String
  pub normalize_path : String → Option String
  pub normalize_fingerprint : String → String
  pub extract_ip : String → Option String
  pub hash_peer_api_key : String → String
  pub encrypt_peer_api_key : String → String
  pub prepare_callback : Request → Access → Bool → Option (String × String)
  pub process_callback : String → String → String → Option Payload

-- `datetime('now')`
abbrev pub sql_now : ℕ → ℕ
sql_now now = now / 1000

-- `isPairingExpired`: a date is compared by the millisecond.
abbrev pub is_pairing_expired : ℕ → Request → Bool
is_pairing_expired now r = ltb (r.expires_at * 1000) now

abbrev pub is_incoming : Request → Bool
is_incoming r = elim r.direction [ incoming ↦ true | outgoing ↦ false ]

abbrev pub is_outgoing : Request → Bool
is_outgoing r = elim r.direction [ incoming ↦ false | outgoing ↦ true ]

abbrev pub is_pending : Status → Bool
is_pending pending = true
is_pending other = false

-- `status IN ('pending', 'accepting')`
abbrev pub is_open : Status → Bool
is_open pending = true
is_open accepting = true
is_open other = false

-- `status IN ('expired', 'failed', 'declined')`
abbrev pub is_history : Status → Bool
is_history expired = true
is_history failed = true
is_history declined = true
is_history other = false

-- What counts as active on one side of the ingress: incoming, open and not expired.
abbrev pub is_active : ℕ → Request → Bool
is_active now r = (is_incoming r && is_open r.status) && leb (sql_now now) r.expires_at

abbrev pub has_id : ℕ → Request → Bool
has_id id r = nat_beq r.id id

-- `SET status = ?, updated_at = datetime('now')`
abbrev pub with_status : ℕ → Status → Request → Request
with_status now status r = record r { status = status; updated_at = sql_now now }
