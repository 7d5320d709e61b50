-- ===== src/Auth/Accounts.antt =====
-- The accounts of app/backend/src/services/authService.js: bootstrap, creation, changes by an
-- administrator, accounts of a proxy, and what a host operator can do. Each is one transaction; the
-- hashing of a password comes before it and reads no table. A role is one of the two that the code
-- accepts. Users whose names clash are refused by the table's unique columns.
pub mod Admins
use red_man.Common.{
  ℕ, suc, ◌+◌, String, Bool, true, false, ◌&&◌, ◌||◌, not, Option, none, some, List, [], ◌∷◌, ◌++◌,
  any, ltb, nat_beq, tally, update_where, find_where, ◌===◌, if◌then◌else◌, String-Comparable,
  ℕ-Comparable,
}
use red_man.Common.Results.{Result, ok, err, ◌>>=◌, or_err, unless_err}
use red_man.Auth.Store.{
  Provider, local_, proxy, Role, admin, viewer, User, Credential, AuthDb, Host, AuthError,
  invalid_bootstrap, bootstrap_closed, invalid_username, invalid_password, invalid_text,
  account_exists, user_not_found, last_admin, not_provisioned, account_disabled, is_local,
  same_provider, is_admin, same_role, or_else, user_at, audited, update_user, revoke_user_sessions,
  normalize_username, is_password, normalize_optional_text,
}

pub record NewUser : Type 0 where
  pub provider : Provider
  pub provider_subject : String
  pub username : String
  pub display_name : Option String
  pub email : Option String
  pub role : Role
  pub last_login_at : Option ℕ

abbrev pub has_subject : Provider → String → User → Bool
has_subject p subject u = same_provider p u.provider && u.provider_subject === subject

abbrev pub new_user : NewUser → ℕ → User
new_user n id = record {
  id = id;
  provider = n.provider;
  provider_subject = n.provider_subject;
  username = n.username;
  display_name = n.display_name;
  email = n.email;
  role = n.role;
  enabled = true;
  failed_attempts = 0;
  locked_until = none;
  last_login_at = n.last_login_at;
}

-- `INSERT INTO auth_users`, with the new id.
unfoldable pub insert_user : NewUser → AuthDb → Result AuthError (AuthDb × ℕ)
insert_user n db =
    if any (λ u. has_subject n.provider n.provider_subject u || u.username === n.username) db.users
    then err account_exists
    else ok (
      record db { users = db.users ++ new_user n db.next_user ∷ []; next_user = suc db.next_user },
      db.next_user,
    )

abbrev pub local_row : String → Role → Option String → Option String → NewUser
local_row username role display_name email = record {
  provider = local_;
  provider_subject = username;
  username = username;
  display_name = display_name;
  email = email;
  role = role;
  last_login_at = none;
}

-- A local account with its password.
unfoldable pub insert_local :
    Host
    → String
    → String
    → Role
    → Option String
    → Option String
    → String
    → AuthDb
    → Result AuthError (AuthDb × ℕ)
unfolding insert_user
insert_local host username password role display_name email event db = do
  display ← or_err invalid_text (normalize_optional_text host display_name 128)
  address ← or_err invalid_text (normalize_optional_text host email 254)
  (db', id) ← insert_user (local_row username role display address) db
  ok (
    audited event (some id) (record db' {
      credentials =
          db'.credentials
          ++ record { user_id = id; secret_hash = host.hash_password password } ∷ [];
    }),
    id,
  )

abbrev pub local_user_count : AuthDb → ℕ
local_user_count db = tally (λ u. is_local u.provider) db.users

unfoldable pub bootstrap_admin :
    Host
    → String
    → Option String
    → String
    → String
    → Option String
    → Option String
    → AuthDb
    → Result AuthError (AuthDb × ℕ)
unfolding insert_local
bootstrap_admin host bootstrap_token configured_token username password display_name email db = do
  configured ← or_err invalid_bootstrap configured_token
  _ ←
      unless_err invalid_bootstrap
        (not (configured === "") && host.token_hash bootstrap_token === host.token_hash configured)
  name ← or_err invalid_username (normalize_username host username)
  _ ← unless_err invalid_password (is_password password)
  _ ← unless_err bootstrap_closed (nat_beq (local_user_count db) 0)
  insert_local host name password admin display_name email "bootstrap_admin_created" db

unfoldable pub create_local_user :
    Host
    → String
    → String
    → Role
    → Option String
    → Option String
    → AuthDb
    → Result AuthError (AuthDb × ℕ)
unfolding insert_local
create_local_user host username password role display_name email db = do
  name ← or_err invalid_username (normalize_username host username)
  _ ← unless_err invalid_password (is_password password)
  insert_local host name password role display_name email "user_created" db

-- The fields of a change that are given; a text may be given as nothing.
pub record Updates : Type 0 where
  pub role : Option Role
  pub enabled : Option Bool
  pub display_name : Option (Option String)
  pub email : Option (Option String)

abbrev pub is_other_admin : Provider → ℕ → User → Bool
is_other_admin p id u =
    ((same_provider p u.provider && is_admin u.role) && u.enabled) && not (u.id === id)

-- The field as it is stored: as it was, where it is not given.
abbrev pub updated_text :
    Host → ℕ → Option (Option String) → Option String → Result AuthError (Option String)
updated_text host maximum none old = ok old
updated_text host maximum (some new) old =
    or_err invalid_text (normalize_optional_text host new maximum)

-- `enabled !== existing.enabled`
abbrev pub same_flag : Bool → Bool → Bool
same_flag true b = b
same_flag false b = not b

abbrev pub with_fields : Role → Bool → Option String → Option String → User → User
with_fields role enabled display_name email u = record u {
  role = role;
  enabled = enabled;
  display_name = display_name;
  email = email;
}

-- What is written; the sessions end where the role or the use of the account changes.
abbrev pub write_update :
    ℕ → ℕ → User → Role → Bool → Option String → Option String → AuthDb → AuthDb
write_update now id existing role enabled display_name email db =
    let changed = update_user id (with_fields role enabled display_name email) db in
    audited "user_updated" (some id) (
      if same_role role existing.role && same_flag enabled existing.enabled
      then changed
      else revoke_user_sessions now id none changed)

-- The last administrator who can log in with a provider stays one.
abbrev pub may_change : ℕ → User → Role → Bool → AuthDb → Bool
may_change id existing role enabled db =
    not (is_admin existing.role && (not (is_admin role) || not enabled))
    || not (nat_beq (tally (is_other_admin existing.provider id) db.users) 0)

unfoldable pub update_auth_user : Host → ℕ → ℕ → Updates → AuthDb → Result AuthError AuthDb
update_auth_user host now id updates db = do
  existing ← or_err user_not_found (user_at db id)
  let role = or_else existing.role updates.role
  let enabled = or_else existing.enabled updates.enabled
  _ ← unless_err last_admin (may_change id existing role enabled db)
  display ← updated_text host 128 updates.display_name existing.display_name
  address ← updated_text host 254 updates.email existing.email
  ok (write_update now id existing role enabled display address db)

-- What `normalizeProxyIdentity` makes of the proxy's headers, with the name to take when the first
-- one is in use.
pub record ProxyIdentity : Type 0 where
  pub subject : String
  pub username : String
  pub fallback_username : String
  pub display_name : Option String
  pub email : Option String

abbrev pub proxy_user : AuthDb → String → Option User
proxy_user db subject = find_where (has_subject proxy subject) db.users

abbrev pub proxy_row : ℕ → ProxyIdentity → Role → AuthDb → NewUser
proxy_row now identity role db = record {
  provider = proxy;
  provider_subject = identity.subject;
  username =
      if any (λ u. u.username === identity.username) db.users
      then identity.fallback_username
      else identity.username;
  display_name = identity.display_name;
  email = identity.email;
  role = role;
  last_login_at = some now;
}

-- The account is made where it is missing and a role is set for that.
unfoldable pub provision_missing :
    ℕ → ProxyIdentity → Role → AuthDb → Result AuthError (AuthDb × User)
unfolding insert_user
provision_missing now identity role db = do
  (db', id) ← insert_user (proxy_row now identity role db) db
  row ← or_err user_not_found (user_at db' id)
  ok (audited "proxy_user_provisioned" (some id) db', row)

-- `COALESCE(?, column)`
abbrev pub coalesce {ℓ} : {A : Type ℓ} → Option A → Option A → Option A
coalesce none old = old
coalesce (some new) old = some new

abbrev pub five_minutes : ℕ
five_minutes = 300000

abbrev pub seen_by_proxy : ℕ → ProxyIdentity → User → User
seen_by_proxy now identity u = record u {
  display_name = coalesce identity.display_name u.display_name;
  email = coalesce identity.email u.email;
  last_login_at = elim u.last_login_at [
    | none ↦ some now
    | some t ↦ if ltb (t + five_minutes) now then some now else some t
  ];
}

unfoldable pub resolve_proxy_account :
    ℕ → ProxyIdentity → Option Role → AuthDb → Result AuthError (AuthDb × User)
unfolding provision_missing
resolve_proxy_account now identity auto_provision_role db = do
  (db', row) ← elim (proxy_user db identity.subject) [
    | some row ↦ ok (db, row)
    | none ↦ (do
      role ← or_err not_provisioned auto_provision_role
      provision_missing now identity role db)
  ]
  _ ← unless_err account_disabled row.enabled
  ok (
    update_user row.id (seen_by_proxy now identity) db',
    record row {
      display_name = coalesce identity.display_name row.display_name;
      email = coalesce identity.email row.email;
    },
  )

abbrev pub restored_admin : User → User
restored_admin u = record u {
  role = admin;
  enabled = true;
  failed_attempts = 0;
  locked_until = none;
}

-- The two commands of a host operator.
unfoldable pub promote_local_admin_for_recovery :
    Host → ℕ → String → AuthDb → Result AuthError AuthDb
promote_local_admin_for_recovery host now username db = do
  name ← or_err invalid_username (normalize_username host username)
  user ←
      or_err user_not_found (find_where (λ u. is_local u.provider && u.username === name) db.users)
  ok (
      audited "local_admin_recovered" (some user.id)
        (revoke_user_sessions now user.id none (update_user user.id restored_admin db)))

abbrev pub set_by_host : Role → ProxyIdentity → User → User
set_by_host role identity u = record u {
  role = role;
  enabled = true;
  display_name = coalesce identity.display_name u.display_name;
}

unfoldable pub provision_proxy_account : ℕ → ProxyIdentity → Role → AuthDb → Result AuthError AuthDb
unfolding resolve_proxy_account
provision_proxy_account now identity role db = elim (proxy_user db identity.subject) [
  | none ↦ (do (db', row) ← resolve_proxy_account now identity (some role) db; ok db')
  | some existing ↦ ok (
      audited "proxy_account_provisioned_by_host" (some existing.id) (
        revoke_user_sessions now existing.id none
          (update_user existing.id (set_by_host role identity) db)))
]
