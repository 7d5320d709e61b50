-- ===== src/Pairing/Examples.antt =====
-- Pairings to try the models of app/backend/src/services/pairing.js on.
use mathlib.Core.Path.{ap}
use red_man.Common.{
  ◌≤◌, ◌≡◌, refl, String, Bool, true, false, Option, none, some, [], ◌∷◌, arith, tally, ◌===◌,
  String-Comparable,
}
use red_man.Common.Results.{ok, err}
use red_man.Pairing.Store.{Host, Db, Peer, is_incoming, is_active, with_status}
use red_man.Pairing.Store.Status.{accepting}
use red_man.Pairing.Requests.{Incoming, new_incoming, store_incoming_pairing_request}
use red_man.Pairing.Peers.{
  Grant, authorize_peer, Bearer, peer_auth, find_existing_peer, write_peer, authorize_ssh,
}
use red_man.Pairing.Keys.{replace_key_authorization, authorize_key, revoke_previous}
use red_man.Pairing.Accept.{Acceptance, grant_of, Refusal, begin_acceptance}
use red_man.Pairing.Steps.{Step, Steps}
use red_man.Pairing.Limits.{pairing_limits}
use red_man.Pairing.Once.{begin_acceptance_once}
use red_man.Pairing.Admitted.{authorize_peer-peer_auth}
use red_man.Pairing.Replaced.{lines_of, authorize_peer_keeps_keys}

-- Keys that are their own normal form, and a key that is derived from none.
abbrev host : Host
host = record {
  normalize_key = λ key. some key;
  identity = λ key. key;
  restricted_entry = λ key path ip. some key;
  normalize_path = λ path. some path;
  normalize_fingerprint = λ s. s;
  extract_ip = λ url. some "10.0.0.9";
  hash_peer_api_key = λ key. key;
  encrypt_peer_api_key = λ key. key;
  prepare_callback = λ request access reciprocal. some ("key", "reverse");
  process_callback = λ body secret token. none;
}

abbrev request : Incoming
request = record {
  token = "token";
  instance_name = "attic";
  callback_url = "http://10.0.0.9:8091";
  ssh_public_key = some "ssh-new";
  ephemeral_public_key = some "ephemeral";
  static_public_key = some "static";
  fingerprint = some "AB12";
  reciprocal_path = none;
  reciprocal_limit_bytes = 0;
}

-- The peer that has asked before, with another key.
abbrev attic : Peer
attic = record {
  id = 4;
  name = "attic";
  api_key_hash = "old";
  allowed_path_prefix = "/mnt/old";
  storage_limit_bytes = 10;
  enabled = true;
  last_seen_ip = none;
  static_pubkey = some "static";
  ssh_public_key = some "ssh-old";
}

abbrev before : Db
before = record {
  requests = [];
  next_request = 1;
  peers = attic ∷ [];
  next_peer = 5;
  container_keys = [];
  host_keys = some (record { text = "ssh-old"; identity = some "ssh-old" } ∷ []);
}

abbrev asked : Db
unfolding store_incoming_pairing_request
asked = elim (store_incoming_pairing_request 1000 request before) [
  | ok (db, id) ↦ db
  | err e ↦ before
]

received : Steps host 0 before 1000 asked
unfolding store_incoming_pairing_request
received = Steps.next Steps.here (omega arith) (Step.received request asked 1 refl)

pairing_limits_example :
    (tally is_incoming asked.requests ≤ 500) × (tally (is_active 1000) asked.requests ≤ 20)
pairing_limits_example = pairing_limits refl received

abbrev acceptance : Acceptance
acceptance = record { request = new_incoming 1000 1 request; reciprocal = false }

abbrev begun : Db
begun = record asked { requests = with_status 2000 accepting (new_incoming 1000 1 request) ∷ [] }

begin_acceptance_once_example :
    (refusal : Refusal) × (begin_acceptance host 5000 1 "AB12" false begun ≡ err refusal)
unfolding begin_acceptance store_incoming_pairing_request
begin_acceptance_once_example =
    begin_acceptance_once refl received 2000 1 "AB12" false begun acceptance (omega arith) refl
      Steps.here 5000 "AB12" false

abbrev is_old_key : Option String → Bool
is_old_key none = false
is_old_key (some s) = s === "ssh-old"

abbrev grant : Grant
grant =
    grant_of host acceptance
      (record { allowed_path_prefix = "/mnt/attic"; storage_limit_bytes = 100 }) "key"

authorize_peer-peer_auth_example :
    (p : Peer) × (peer_auth host (some "key") (authorize_peer host grant begun).1.peers
      ≡ Bearer.admitted p)
    × (p.id ≡ 4)
    × (p.static_pubkey ≡ some "static")
    × (p.allowed_path_prefix ≡ "/mnt/attic")
    × (p.storage_limit_bytes ≡ 100)
unfolding authorize_peer find_existing_peer write_peer authorize_ssh replace_key_authorization
    authorize_key revoke_previous store_incoming_pairing_request
authorize_peer-peer_auth_example = authorize_peer-peer_auth host grant begun 4 refl

-- The former key of the peer keeps its line.
authorize_peer_keeps_keys_example :
    lines_of "ssh-old" (authorize_peer host grant begun).1 ≡ lines_of "ssh-old" begun
unfolding store_incoming_pairing_request
authorize_peer_keeps_keys_example =
    authorize_peer_keeps_keys host grant begun "ssh-new" "ssh-old" refl (λ normalized e same.
      let old : (normalized === "ssh-old") ≡ true = ap (λ s. s === "ssh-old") same in
      let new : false ≡ (normalized === "ssh-old") = ap is_old_key e in cc)
