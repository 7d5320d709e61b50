-- ===== src/Pairing/Peers.antt =====
-- The peers that may back up here: app/backend/src/services/pairingState.js, the writing of a peer in
-- pairing.js, peerAccessPolicy.js, and the bearer tokens of app/backend/src/middleware/auth.js.
use red_man.Common.{
  ℕ, suc, String, Bool, true, false, ◌&&◌, ◌||◌, not, Option, none, some, List, [], ◌∷◌, ◌++◌, any,
  find_where, update_where, ltb, nat_beq, ◌===◌, if◌then◌else◌, String-Comparable,
}
use red_man.Pairing.Store.{Peer, Db, Host, Access}
use red_man.Pairing.Keys.{replace_key_authorization}
use mathlib.Core.Option

abbrev pub is_some_text : String → Option String → Bool
is_some_text s none = false
is_some_text s (some t) = t === s

-- `WHERE name = ? AND static_pubkey IS NULL ORDER BY id DESC LIMIT 1`, over rows in the order of
-- their ids.
abbrev pub newest_named : String → List Peer → Option Peer
newest_named name [] = none
newest_named name (p ∷ peers) = elim (newest_named name peers) [
  | some found ↦ some found
  | none ↦ elim p.static_pubkey [
    | some key ↦ none
    | none ↦ if p.name === name then some p else none
  ]
]

-- The row has the id alone: it is what both queries select.
unfoldable pub find_existing_peer : Option String → String → List Peer → Option ℕ
find_existing_peer none name peers = Option.map Peer.id (newest_named name peers)
find_existing_peer (some key) name peers =
    elim (find_where (λ p. is_some_text key p.static_pubkey) peers) [
      | some p ↦ some p.id
      | none ↦ Option.map Peer.id (newest_named name peers)
    ]

-- What the peer has sent, and what it is allowed.
pub record Grant : Type 0 where
  pub display_name : String
  pub new_name : String
  pub static_pubkey : Option String
  pub ssh_public_key : Option String
  pub api_key : String
  pub access : Access
  pub ip : Option String

abbrev pub coalesce : Option String → Option String → Option String
coalesce none old = old
coalesce (some key) old = some key

-- The `UPDATE` of a peer that is known.
abbrev pub granted : String → Grant → Peer → Peer
granted hash g p = record p {
  api_key_hash = hash;
  last_seen_ip = g.ip;
  enabled = true;
  static_pubkey = g.static_pubkey;
  allowed_path_prefix = g.access.allowed_path_prefix;
  storage_limit_bytes = g.access.storage_limit_bytes;
  ssh_public_key = coalesce g.ssh_public_key p.ssh_public_key;
}

abbrev pub new_peer : ℕ → String → Grant → Peer
new_peer id hash g = record {
  id = id;
  name = g.new_name;
  api_key_hash = hash;
  allowed_path_prefix = g.access.allowed_path_prefix;
  storage_limit_bytes = g.access.storage_limit_bytes;
  enabled = true;
  last_seen_ip = g.ip;
  static_pubkey = g.static_pubkey;
  ssh_public_key = g.ssh_public_key;
}

-- The row of the peer, and its id; nothing where `UNIQUE` fails.
unfoldable pub write_peer : String → Grant → Option ℕ → Db → Option (Db × ℕ)
write_peer hash g (some id) db =
    if any (λ p. p.api_key_hash === hash && not (nat_beq p.id id)) db.peers
    then none
    else some
        (record db { peers = update_where (λ p. nat_beq p.id id) (granted hash g) db.peers }, id)
write_peer hash g none db =
    if any (λ p. p.api_key_hash === hash) db.peers
    then none
    else some (
      record db {
        peers = db.peers ++ new_peer db.next_peer hash g ∷ [];
        next_peer = suc db.next_peer;
      },
      db.next_peer,
    )

-- The key is authorized first. The row that was found has no ssh_public_key, so there is no
-- previous key to replace.
unfoldable pub authorize_ssh : Host → Grant → Db → Bool × Db
unfolding replace_key_authorization
authorize_ssh host g db = elim g.ssh_public_key [
  | none ↦ (true, db)
  | some key ↦ replace_key_authorization host none key g.access.allowed_path_prefix g.ip db
]

-- What `acceptPairing` and `grantReciprocalAccess` both do, and the id of the peer; none for an error.
unfoldable pub authorize_peer : Host → Grant → Db → Option ℕ × Db
unfolding find_existing_peer authorize_ssh write_peer
authorize_peer host g db =
    let existing = find_existing_peer g.static_pubkey g.display_name db.peers in
    let (done, keyed) = authorize_ssh host g db in
    if not done
    then (none, keyed)
    else (elim (write_peer (host.hash_peer_api_key g.api_key) g existing keyed) [
      | none ↦ (none, keyed)
      | some (written, id) ↦ (some id, written)
    ])

-- `validatePairingAccess`
abbrev pub max_safe_integer : ℕ
max_safe_integer = 9007199254740991

unfoldable pub validate_pairing_access : Host → String → ℕ → Option Access
validate_pairing_access host path limit = elim (host.normalize_path path) [
  | none ↦ none
  | some prefix ↦
      if (prefix === "" || prefix === "/") || (not (ltb 0 limit) || ltb max_safe_integer limit)
      then none
      else some (record { allowed_path_prefix = prefix; storage_limit_bytes = limit })
]

-- The answer to a bearer token.
pub data Bearer : Type 0 where
  missing_token unknown_key peer_disabled : Bearer
  admitted : Peer → Bearer

unfoldable pub peer_auth : Host → Option String → List Peer → Bearer
peer_auth host none peers = missing_token
peer_auth host (some token) peers =
    elim (find_where (λ p. p.api_key_hash === host.hash_peer_api_key token) peers) [
      | none ↦ unknown_key
      | some p ↦ if not p.enabled then peer_disabled else admitted p
    ]
