-- ===== src/Auth/Store.antt =====
-- The tables of app/backend/src/services/authService.js: auth_users, auth_credentials,
-- auth_sessions, auth_recovery_events and auth_audit_log. A time is a number of milliseconds, in
-- place of the ISO text that sorts alike. Hashing, passwords and the normal form of a text come
-- from libraries and the host: they are the fields of `Host`. Of an audit entry the event and its
-- user are kept.
use red_man.Common.{
  ℕ, String, Bool, true, false, ◌&&◌, ◌||◌, not, Option, none, some, List, [], ◌∷◌, ◌++◌, length,
  any, leb, ltb, nat_beq, update_where, find_where, ◌===◌, if◌then◌else◌, String-Comparable,
  ℕ-Comparable,
}
use red_man.Common.Text.{codes, is_digit}

pub data Provider : Type 0 where
  local_ proxy : Provider

pub data Role : Type 0 where
  admin viewer : Role

pub record User : Type 0 where
  pub id : ℕ
  pub provider : Provider
  pub provider_subject : String
  pub username : String
  pub display_name : Option String
  pub email : Option String
  pub role : Role
  pub enabled : Bool
  pub failed_attempts : ℕ
  pub locked_until : Option ℕ
  pub last_login_at : Option ℕ

pub record Session : Type 0 where
  pub id : ℕ
  pub user_id : ℕ
  pub token_hash : String
  pub csrf_token_hash : String
  pub last_seen_at : ℕ
  pub idle_expires_at : ℕ
  pub absolute_expires_at : ℕ
  pub revoked_at : Option ℕ

pub data RecoveryStatus : Type 0 where
  issued used expired revoked : RecoveryStatus

pub record Recovery : Type 0 where
  pub id : ℕ
  pub user_id : ℕ
  pub token_hash : String
  pub status : RecoveryStatus
  pub expires_at : ℕ

pub record Credential : Type 0 where
  pub user_id : ℕ
  pub secret_hash : String

pub record AuthDb : Type 0 where
  pub users : List User
  pub credentials : List Credential
  pub sessions : List Session
  pub recoveries : List Recovery
  pub audit : List (String × Option ℕ)
  pub next_user : ℕ
  pub next_session : ℕ
  pub next_recovery : ℕ

-- `clean` is `String(value).normalize('NFKC').trim().toLowerCase()`, `fold` the same without the
-- normal form, `clean_text` the same without the lower case; `verify` is argon2's.
pub record Host : Type 0 where
  pub clean : String → String
  pub fold : String → String
  pub clean_text : String → String
  pub token_hash : String → String
  pub hash_password : String → String
  pub verify : String → String → Bool
  pub dummy_hash : String

pub data AuthError : Type 0 where
  invalid_bootstrap bootstrap_closed invalid_username invalid_password invalid_text : AuthError
  account_exists user_not_found last_admin bad_credentials wrong_password : AuthError
  not_provisioned account_disabled invalid_recovery : AuthError

abbrev pub is_local : Provider → Bool
is_local local_ = true
is_local proxy = false

abbrev pub same_provider : Provider → Provider → Bool
same_provider local_ q = is_local q
same_provider proxy q = not (is_local q)

abbrev pub is_admin : Role → Bool
is_admin admin = true
is_admin viewer = false

abbrev pub same_role : Role → Role → Bool
same_role admin r = is_admin r
same_role viewer r = not (is_admin r)

abbrev pub is_issued : RecoveryStatus → Bool
is_issued issued = true
is_issued other = false

-- `… IS NULL`
abbrev pub is_none {ℓ} : {A : Type ℓ} → Option A → Bool
is_none none = true
is_none (some a) = false

abbrev pub or_else {ℓ} : {A : Type ℓ} → A → Option A → A
or_else a none = a
or_else a (some b) = b

-- `WHERE id = ?`
abbrev pub user_at : AuthDb → ℕ → Option User
user_at db id = find_where (λ u. u.id === id) db.users

abbrev pub audited : String → Option ℕ → AuthDb → AuthDb
audited event user db = record db { audit = db.audit ++ (event, user) ∷ [] }

-- `UPDATE auth_users … WHERE id = ?`
abbrev pub update_user : ℕ → (User → User) → AuthDb → AuthDb
update_user id f db = record db { users = update_where (λ u. u.id === id) f db.users }

abbrev pub revoke_at : ℕ → Session → Session
revoke_at now s = record s { revoked_at = some now }

-- `revokeUserSessions`, without and with the session that is left alone.
unfoldable pub revoke_of_user : ℕ → ℕ → Option ℕ → List Session → List Session
revoke_of_user now user none sessions =
    update_where (λ s. s.user_id === user && is_none s.revoked_at) (revoke_at now) sessions
revoke_of_user now user (some except) sessions =
    update_where (λ s. (s.user_id === user && not (s.id === except)) && is_none s.revoked_at)
      (revoke_at now) sessions

abbrev pub revoke_user_sessions : ℕ → ℕ → Option ℕ → AuthDb → AuthDb
revoke_user_sessions now user except db = record db {
  sessions = revoke_of_user now user except db.sessions;
}

-- `[a-z0-9]`, and the characters that may follow it.
abbrev is_plain : ℕ → Bool
is_plain c = (leb b'a' c && leb c b'z') || is_digit c

abbrev is_username_char : ℕ → Bool
is_username_char c =
    is_plain c || nat_beq c b'.' || nat_beq c b'_' || nat_beq c b'@' || nat_beq c b'-'

abbrev is_username : List ℕ → Bool
is_username [] = false
is_username (c ∷ s) =
    leb 2 (length s)
    && leb (length s) 63
    && is_plain c
    && not (any (λ d. not (is_username_char d)) s)

unfoldable pub normalize_username : Host → String → Option String
normalize_username host value =
    if is_username (codes (host.clean value)) then some (host.clean value) else none

unfoldable pub is_password : String → Bool
is_password password = leb 12 (length (codes password)) && leb (length (codes password)) 128

-- Nothing for an empty text, and an error for a text that is too long or holds control characters.
unfoldable pub normalize_optional_text : Host → Option String → ℕ → Option (Option String)
normalize_optional_text host none maximum = some none
normalize_optional_text host (some value) maximum =
    if value === ""
    then some none
    else let s = codes (host.clean_text value) in
      if nat_beq (length s) 0 || ltb maximum (length s) || any (λ c. ltb c 32 || nat_beq c 127) s
      then none
      else some (some (host.clean_text value))
