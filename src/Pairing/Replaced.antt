-- ===== src/Pairing/Replaced.antt =====
-- What becomes of the SSH keys of a peer that pairs again: app/backend/src/services/sshManager.js, as
-- pairing.js calls it.
use red_man.Common.{
  ℕ, ◌≡◌, ◌≢◌, refl, String, true, false, Option, none, some, List, [], ◌∷◌, arith, tally,
  tally-append, eq_cases, ◌∙◌, sym, ne→beq, Option-cases, inl, inr, String-Comparable,
}
use red_man.Pairing.Store.{Line, Db, Host}
use red_man.Pairing.Keys.{
  is_line_of, remove_authorized_key_content, upsert_authorized_key_content, authorize_key,
  revoke_previous, replace_key_authorization,
}
use red_man.Pairing.Peers.{Grant, write_peer, authorize_ssh, authorize_peer}

-- A line is about one key.
line_of_one :
    (key other : String) (line : Line)
    → key ≢ other
    → is_line_of other line ≡ true
    → is_line_of key line ≡ false
line_of_one key other line ne h = elim (Option-cases line.identity) [
  | inl none_ ↦ ground arith
  | inr (k, e) ↦ elim (eq_cases k other) [
    | inr apart ↦ absurd (let b = ne→beq k other apart in ground arith)
    | inl same ↦ let b = ne→beq k key (λ back. ne (sym back ∙ same)) in ground arith
  ]
]

-- A removal takes the lines of its key, and no others.
removed-tally :
    (key other : String) (lines : List Line)
    → key ≢ other
    → tally (is_line_of other) (remove_authorized_key_content key lines)
      ≡ tally (is_line_of other) lines
removed-tally key other [] ne = refl
removed-tally key other (line ∷ lines) ne =
    let one = line_of_one key other line ne in ground (arith, removed-tally key other lines ne, one)

upserted-tally :
    (key other entry : String) (lines : List Line)
    → key ≢ other
    → tally (is_line_of other) (upsert_authorized_key_content key entry lines)
      ≡ tally (is_line_of other) lines
upserted-tally key other entry lines ne =
    let kept = removed-tally key other lines ne in
    let b = ne→beq key other ne in
    let added =
      tally-append (is_line_of other) (remove_authorized_key_content key lines)
        (record { text = entry; identity = some key } ∷ []) in
    ground arith

removed-none :
    (key : String) (lines : List Line)
    → tally (is_line_of key) (remove_authorized_key_content key lines) ≡ 0
removed-none key [] = refl
removed-none key (line ∷ lines) = ground (arith, removed-none key lines)

-- How many lines of the host's file are about a key.
abbrev pub lines_of : String → Db → ℕ
lines_of key db = elim db.host_keys [ none ↦ 0 | some lines ↦ tally (is_line_of key) lines ]

authorize_key-lines_of :
    (host : Host) (normalized path : String) (ip : Option String) (db : Db) (other : String)
    → host.identity normalized ≢ other
    → lines_of other (authorize_key host normalized path ip db).1 ≡ lines_of other db
unfolding authorize_key
authorize_key-lines_of host normalized path ip db other ne =
    elim (Option-cases (host.restricted_entry normalized path ip)) [
      | inl refused ↦ ground arith
      | inr (entry, e) ↦ elim (Option-cases db.host_keys) [
        | inl missing ↦ ground arith
        | inr (lines, there) ↦
            let kept = upserted-tally (host.identity normalized) other entry lines ne in
            ground arith
      ]
    ]

replace_key_authorization-lines_of :
    (host : Host) (next path : String) (ip : Option String) (db : Db) (other : String)
    → ((normalized : String)
        → host.normalize_key next ≡ some normalized
        → host.identity normalized ≢ other)
    → lines_of other (replace_key_authorization host none next path ip db).1 ≡ lines_of other db
unfolding replace_key_authorization revoke_previous
replace_key_authorization-lines_of host next path ip db other ne =
    elim (Option-cases (host.normalize_key next)) [
      | inl invalid ↦ ground arith
      | inr (normalized, e) ↦
          let kept = authorize_key-lines_of host normalized path ip db other (ne normalized e) in
          ground arith
    ]

-- Authorising a peer leaves as many lines of the host's file about any other key than the one that the
-- peer now brings, also where the peer is known and these lines are about its former key.
pub authorize_peer_keeps_keys :
    (host : Host) (g : Grant) (db : Db) (key other : String)
    → g.ssh_public_key ≡ some key
    → ((normalized : String)
        → host.normalize_key key ≡ some normalized
        → host.identity normalized ≢ other)
    → lines_of other (authorize_peer host g db).1 ≡ lines_of other db
unfolding authorize_peer authorize_ssh write_peer
authorize_peer_keeps_keys host g db key other e ne =
    let kept =
      replace_key_authorization-lines_of host key g.access.allowed_path_prefix g.ip db other ne in
    let ssh : authorize_ssh host g db
        ≡ replace_key_authorization host none key g.access.allowed_path_prefix g.ip db =
      ground arith in
    let same : (authorize_peer host g db).1.host_keys ≡ (authorize_ssh host g db).1.host_keys =
      ground arith in
    ground arith
