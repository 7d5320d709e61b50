-- ===== src/Pairing/Admitted.antt =====
-- Which peer a key lets in, once pairing.js has written the peer: app/backend/src/services/pairing.js and
-- the bearer tokens of app/backend/src/middleware/auth.js.
use mathlib.Core.Path.{subst, sym}
use red_man.Common.{
  ℕ, ◌≡◌, refl, String, Bool, false, ◌&&◌, not, Option, none, some, List, [], ◌∷◌, ◌++◌, arith, any,
  find_where, find_where_inv, update_where, nat_beq, ◌===◌, eq_refl, Option-cases, Bool-cases, inl,
  inr, String-Comparable,
}
use red_man.Pairing.Store.{Peer, Db, Host}
use red_man.Pairing.Keys.{revoke_key, authorize_key, revoke_previous, replace_key_authorization}
use red_man.Pairing.Peers.{
  Grant, newest_named, find_existing_peer, granted, new_peer, write_peer, authorize_ssh,
  authorize_peer, Bearer, peer_auth, is_some_text,
}

-- A row that is found is found by its id, if not an earlier one is.
find_where-id :
    (q : Peer → Bool) (peers : List Peer) (p : Peer)
    → find_where q peers ≡ some p
    → (z : Peer) × (find_where (λ y. nat_beq y.id p.id) peers ≡ some z)
find_where-id q [] p h = absurd (ground arith)
find_where-id q (y ∷ peers) p h = elim (Bool-cases (nat_beq y.id p.id)) [
  | inl same ↦ (y, ground arith)
  | inr other ↦ let (z, e) = find_where-id q peers p (ground arith) in (z, ground arith)
]

newest_named-id :
    (name : String) (peers : List Peer) (p : Peer)
    → newest_named name peers ≡ some p
    → (z : Peer) × (find_where (λ y. nat_beq y.id p.id) peers ≡ some z)
newest_named-id name [] p h = absurd (ground arith)
newest_named-id name (y ∷ peers) p h = elim (Bool-cases (nat_beq y.id p.id)) [
  | inl same ↦ (y, ground arith)
  | inr other ↦ let (z, e) = newest_named-id name peers p (ground arith) in (z, ground arith)
]

-- The peer that is written is the one that is found by its key.
granted-found :
    (hash : String) (g : Grant) (id : ℕ) (peers : List Peer) (z : Peer)
    → any (λ p. p.api_key_hash === hash && not (nat_beq p.id id)) peers ≡ false
    → find_where (λ p. nat_beq p.id id) peers ≡ some z
    → find_where
        (λ p. p.api_key_hash === hash)
        (update_where (λ p. nat_beq p.id id) (granted hash g) peers)
      ≡ some (granted hash g z)
granted-found hash g id [] z free found = cc
granted-found hash g id (y ∷ peers) z free found =
    ground (arith, granted-found hash g id peers z, eq_refl hash)

added-found :
    (hash : String) (p : Peer) (peers : List Peer)
    → p.api_key_hash ≡ hash
    → any (λ p. p.api_key_hash === hash) peers ≡ false
    → find_where (λ p. p.api_key_hash === hash) (peers ++ p ∷ []) ≡ some p
added-found hash p [] e free = let s = eq_refl hash in ground arith
added-found hash p (y ∷ peers) e free = ground (arith, added-found hash p peers e)

find_existing_peer-id :
    (key : Option String) (name : String) (peers : List Peer) (id : ℕ)
    → find_existing_peer key name peers ≡ some id
    → (z : Peer) × (find_where (λ y. nat_beq y.id id) peers ≡ some z)
unfolding find_existing_peer
find_existing_peer-id none name peers id h = elim (Option-cases (newest_named name peers)) [
  | inl missing ↦ absurd (ground arith)
  | inr (p, found) ↦
      let e : p.id ≡ id = ground arith in
      subst (λ i. (z : Peer) × (find_where (λ y. nat_beq y.id i) peers ≡ some z)) e
        (newest_named-id name peers p found)
]
find_existing_peer-id (some key) name peers id h =
    elim (Option-cases (find_where (λ p. is_some_text key p.static_pubkey) peers)) [
      | inr (p, found) ↦
          let e : p.id ≡ id = ground arith in
          subst (λ i. (z : Peer) × (find_where (λ y. nat_beq y.id i) peers ≡ some z)) e
            (find_where-id (λ q. is_some_text key q.static_pubkey) peers p found)
      | inl unknown ↦ elim (Option-cases (newest_named name peers)) [
        | inl missing ↦ absurd (ground arith)
        | inr (p, found) ↦
            let e : p.id ≡ id = ground arith in
            subst (λ i. (z : Peer) × (find_where (λ y. nat_beq y.id i) peers ≡ some z)) e
              (newest_named-id name peers p found)
      ]
    ]

authorize_ssh-peers :
    (host : Host) (g : Grant) (db : Db)
    → ((authorize_ssh host g db).1.peers ≡ db.peers)
      × ((authorize_ssh host g db).1.next_peer ≡ db.next_peer)
unfolding authorize_ssh replace_key_authorization revoke_previous revoke_key authorize_key
authorize_ssh-peers host g db = ground arith

-- The peer that a key lets in, with what it was granted.
Lets : Host → Grant → ℕ → List Peer → Type 0
Lets host g id peers =
    (p : Peer) × (peer_auth host (some g.api_key) peers ≡ Bearer.admitted p)
    × (p.id ≡ id)
    × (p.static_pubkey ≡ g.static_pubkey)
    × (p.allowed_path_prefix ≡ g.access.allowed_path_prefix)
    × (p.storage_limit_bytes ≡ g.access.storage_limit_bytes)

write_peer-Lets :
    (host : Host) (g : Grant) (existing : Option ℕ) (db db' : Db) (id : ℕ)
    → ((i : ℕ)
        → existing ≡ some i
        → (z : Peer) × (find_where (λ y. nat_beq y.id i) db.peers ≡ some z))
    → write_peer (host.hash_peer_api_key g.api_key) g existing db ≡ some (db', id)
    → Lets host g id db'.peers
unfolding write_peer Lets peer_auth
write_peer-Lets host g none db db' id known h =
    let hash = host.hash_peer_api_key g.api_key in
    let free : any (λ p. p.api_key_hash === hash) db.peers ≡ false = ground arith in
    let found = added-found hash (new_peer db.next_peer hash g) db.peers refl free in
    let e : db'.peers ≡ db.peers ++ new_peer db.next_peer hash g ∷ [] = ground arith in
    (new_peer db.next_peer hash g, ground arith, ground arith, refl, refl, refl)
write_peer-Lets host g (some i) db db' id known h =
    let hash = host.hash_peer_api_key g.api_key in
    let free : any (λ p. p.api_key_hash === hash && not (nat_beq p.id i)) db.peers ≡ false =
      ground arith in
    let (z, same) = known i refl in
    let found = granted-found hash g i db.peers z free same in
    let e : db'.peers ≡ update_where (λ p. nat_beq p.id i) (granted hash g) db.peers =
      ground arith in
    let named = find_where_inv (λ p. nat_beq p.id i) db.peers z same in
    (granted hash g z, ground arith, ground arith, refl, refl, refl)

-- Where a peer is authorised, the key that was derived for it lets in this peer, with the path, the limit and
-- the identity that it was granted, whether the peer was known before or is new.
pub authorize_peer-peer_auth :
    (host : Host) (g : Grant) (db : Db) (id : ℕ)
    → (authorize_peer host g db).0 ≡ some id
    → (p : Peer) × (peer_auth host (some g.api_key) (authorize_peer host g db).1.peers
        ≡ Bearer.admitted p)
      × (p.id ≡ id)
      × (p.static_pubkey ≡ g.static_pubkey)
      × (p.allowed_path_prefix ≡ g.access.allowed_path_prefix)
      × (p.storage_limit_bytes ≡ g.access.storage_limit_bytes)
unfolding authorize_peer Lets
authorize_peer-peer_auth host g db id h =
    let keyed = (authorize_ssh host g db).1 in
    let (same, next) = authorize_ssh-peers host g db in
    let existing = find_existing_peer g.static_pubkey g.display_name db.peers in
    elim (Option-cases (write_peer (host.hash_peer_api_key g.api_key) g existing keyed)) [
      | inl taken ↦ absurd (ground arith)
      | inr (written, e) ↦
          let lets =
            write_peer-Lets host g existing keyed written.0 written.1
              (λ i known.
                subst (λ peers. (z : Peer) × (find_where (λ y. nat_beq y.id i) peers ≡ some z))
                  (sym same)
                  (find_existing_peer-id g.static_pubkey g.display_name db.peers i known))
              e in
          let i : written.1 ≡ id = ground arith in
          let peers : written.0.peers ≡ (authorize_peer host g db).1.peers = ground arith in
          subst (Lets host g id) peers (subst (λ n. Lets host g n written.0.peers) i lets)
    ]
