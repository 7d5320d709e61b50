-- ===== src/Pairing/Accept.antt =====
-- acceptPairing in app/backend/src/services/pairing.js, cut where it awaits: the checks, the peer and its
-- keys, and the end once the other instance has answered.
use red_man.Common.{
  ℕ, ◌+◌, String, Bool, true, false, ◌&&◌, ◌||◌, not, Option, none, some, any, find_where,
  update_where, ltb, ◌===◌, if◌then◌else◌, String-Comparable,
}
use red_man.Common.Results.{Result, ok, err}
use red_man.Pairing.Store.{
  Status, Request, Db, Host, Access, sql_now, is_pairing_expired, is_pending, has_id, with_status,
}
use red_man.Pairing.Store.Direction.{outgoing}
use red_man.Pairing.Store.Status.{accepting, accepted, failed}
use red_man.Pairing.Peers.{Grant, authorize_peer}
use red_man.Pairing.Requests.{add_request, is_incoming_of, pairing_seconds}

pub data Refusal : Type 0 where
  not_found : Refusal
  already : Status → Refusal
  fingerprint_mismatch nothing_offered request_expired : Refusal

abbrev pub text_or_empty : Option String → String
text_or_empty none = ""
text_or_empty (some s) = s

-- `assertFingerprintConfirmed`
abbrev pub is_fingerprint_confirmed : Host → Option String → String → Bool
is_fingerprint_confirmed host remote confirmed =
    let expected = host.normalize_fingerprint (text_or_empty remote) in
    let given = host.normalize_fingerprint confirmed in
    (not (expected === "") && not (given === "")) && expected === given

abbrev pub has_path : Request → Bool
has_path r = elim r.reciprocal_path [ none ↦ false | some path ↦ not (path === "") ]

abbrev pub is_offered : Request → Bool
is_offered r = has_path r && ltb 0 r.reciprocal_limit_bytes

-- The row as it was read, and whether the space it offers in return is taken.
pub record Acceptance : Type 0 where
  pub request : Request
  pub reciprocal : Bool

unfoldable pub begin_acceptance :
    Host → ℕ → ℕ → String → Bool → Db → Result Refusal (Db × Acceptance)
begin_acceptance host now id confirmed accept_reciprocal db =
    elim (find_where (is_incoming_of id) db.requests) [
      | none ↦ err not_found
      | some r ↦
          if not (is_pending r.status)
          then err (already r.status)
          else if not (is_fingerprint_confirmed host r.remote_fingerprint confirmed)
          then err fingerprint_mismatch
          else if accept_reciprocal && not (is_offered r)
          then err nothing_offered
          else if is_pairing_expired now r
          then err request_expired
          else ok (
            record db {
              requests = update_where (has_id id) (with_status now accepting) db.requests;
            },
            record { request = r; reciprocal = accept_reciprocal && is_offered r },
          )
    ]

abbrev pub fail_request : ℕ → ℕ → Db → Db
fail_request now id db = record db {
  requests = update_where (has_id id) (with_status now failed) db.requests;
}

-- A text that is missing, or empty.
abbrev pub is_missing : Option String → Bool
is_missing s = text_or_empty s === ""

-- The key that the peer brings; an empty one counts as none.
abbrev pub given_key : Option String → Option String
given_key s = if is_missing s then none else s

abbrev pub grant_of : Host → Acceptance → Access → String → Grant
grant_of host a access api_key = record {
  display_name = a.request.remote_instance;
  new_name = a.request.remote_instance;
  static_pubkey = a.request.remote_static_pubkey;
  ssh_public_key = given_key a.request.remote_ssh_pubkey;
  api_key = api_key;
  access = access;
  ip = host.extract_ip a.request.remote_url;
}

-- The peer, behind the wait for an SSH key of its own, `key_ready` once there is one: its id and the
-- reverse key, or none for an error, with the tables.
unfoldable pub authorize_acceptance :
    Host → ℕ → Bool → Acceptance → Access → Db → Option (ℕ × String) × Db
unfolding authorize_peer
authorize_acceptance host now key_ready a access db =
    let id = a.request.id in
    if not key_ready || (is_missing a.request.remote_ephemeral_pubkey || a.request.token === "")
    then (none, fail_request now id db)
    else (elim (host.prepare_callback a.request access a.reciprocal) [
      | none ↦ (none, fail_request now id db)
      | some (api_key, reverse_api_key) ↦
          let (peer, written) = authorize_peer host (grant_of host a access api_key) db in
          elim peer [
            | none ↦ (none, fail_request now id written)
            | some peer_id ↦ (some (peer_id, reverse_api_key), written)
          ]
    ])

-- `recordReciprocalDestination`: the peer becomes a destination of this instance.
abbrev pub reciprocal_destination : Host → ℕ → String → Request → String → ℕ → Request
reciprocal_destination host now token r reverse_api_key id = record {
  id = id;
  direction = outgoing;
  token = token;
  remote_instance = r.remote_instance;
  remote_url = r.remote_url;
  remote_ssh_pubkey = r.remote_ssh_pubkey;
  status = accepted;
  peer_id = none;
  api_key_encrypted = some (host.encrypt_peer_api_key reverse_api_key);
  remote_storage_limit = r.reciprocal_limit_bytes;
  remote_allowed_path = r.reciprocal_path;
  remote_ephemeral_pubkey = none;
  remote_static_pubkey = r.remote_static_pubkey;
  ephemeral_secret = none;
  remote_fingerprint = r.remote_fingerprint;
  reciprocal_path = none;
  reciprocal_limit_bytes = 0;
  reciprocal_accepted = true;
  updated_at = sql_now now;
  expires_at = sql_now now + pairing_seconds;
}

abbrev pub with_outcome : ℕ → Status → ℕ → Bool → Request → Request
with_outcome now status peer_id reciprocal r = record r {
  status = status;
  peer_id = some peer_id;
  reciprocal_accepted = reciprocal;
  updated_at = sql_now now;
}

-- The end, with whether the other instance has taken the answer, and a fresh token. An insertion that
-- throws is only logged. A request that fails keeps its column reciprocal_accepted. The peer is still
-- there when the answer comes.
unfoldable pub end_acceptance : Host → ℕ → Bool → String → Acceptance → ℕ → String → Db → Bool × Db
end_acceptance host now delivered token a peer_id reverse_api_key db =
    if not delivered
    then (
      false,
      record db {
        requests =
            update_where (has_id a.request.id)
              (λ r. with_outcome now failed peer_id r.reciprocal_accepted r) db.requests;
      },
    )
    else let done = record db {
      requests =
          update_where (has_id a.request.id) (with_outcome now accepted peer_id a.reciprocal)
            db.requests;
    } in
      (
        true,
        if a.reciprocal && not (any (λ q. q.token === token) done.requests)
            then add_request (reciprocal_destination host now token a.request reverse_api_key) done
            else done,
      )
