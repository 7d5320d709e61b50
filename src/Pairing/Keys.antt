-- ===== src/Pairing/Keys.antt =====
-- The files of authorized keys in app/backend/src/services/sshManager.js, with the contents of
-- sshKeyValidation.js. A step that throws leaves the files as it has changed them by then.
use red_man.Common.{
  String, Bool, true, false, not, Option, none, some, List, [], ◌∷◌, ◌++◌, select, ◌===◌,
  if◌then◌else◌, String-Comparable,
}
use red_man.Pairing.Store.{Line, Db, Host}

-- Whether a line is about a key.
abbrev pub is_line_of : String → Line → Bool
is_line_of key line = elim line.identity [ none ↦ false | some other ↦ other === key ]

-- `removeAuthorizedKeyContent`
abbrev pub remove_authorized_key_content : String → List Line → List Line
remove_authorized_key_content key lines = select (λ line. not (is_line_of key line)) lines

-- `upsertAuthorizedKeyContent`
abbrev pub upsert_authorized_key_content : String → String → List Line → List Line
upsert_authorized_key_content key entry lines =
    remove_authorized_key_content key lines ++ record { text = entry; identity = some key } ∷ []

-- `revokeKey`: whether it ended without an error, and the files.
unfoldable pub revoke_key : Host → String → Db → Bool × Db
revoke_key host key db = elim db.host_keys [
  | none ↦ (false, db)
  | some lines ↦ elim (host.normalize_key key) [
    | none ↦ (false, db)
    | some normalized ↦ (
      true,
      record db {
        container_keys = remove_authorized_key_content (host.identity normalized) db.container_keys;
        host_keys = some (remove_authorized_key_content (host.identity normalized) lines);
      },
    )
  ]
]

-- `authorizeKey` with a restriction. The container's file is written before the host's is looked for.
unfoldable pub authorize_key : Host → String → String → Option String → Db → Bool × Db
authorize_key host normalized path ip db = elim (host.restricted_entry normalized path ip) [
  | none ↦ (false, db)
  | some entry ↦
      let key = host.identity normalized in
      let changed = record db {
        container_keys = upsert_authorized_key_content key entry db.container_keys;
      } in
      elim db.host_keys [
        | none ↦ (false, changed)
        | some lines ↦ (
          true,
          record changed { host_keys = some (upsert_authorized_key_content key entry lines) },
        )
      ]
]

-- The part of `replaceKeyAuthorization` about the previous key.
unfoldable pub revoke_previous : Host → Option String → String → Db → Bool × Db
unfolding revoke_key
revoke_previous host none normalized db = (true, db)
revoke_previous host (some previous) normalized db = elim (host.normalize_key previous) [
  | none ↦ (false, db)
  | some old ↦ if not (old === normalized) then revoke_key host old db else (true, db)
]

-- `replaceKeyAuthorization`, whose restriction is given.
unfoldable pub replace_key_authorization :
    Host → Option String → String → String → Option String → Db → Bool × Db
unfolding revoke_previous authorize_key
replace_key_authorization host previous next path ip db = elim (host.normalize_key next) [
  | none ↦ (false, db)
  | some normalized ↦
      let (done, revoked) = revoke_previous host previous normalized db in
      if done then authorize_key host normalized path ip revoked else (false, revoked)
]
