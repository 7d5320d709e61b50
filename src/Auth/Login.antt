-- ===== src/Auth/Login.antt =====
-- authenticateLocalUser of app/backend/src/services/authService.js. It reads the account, awaits
-- the check of the password, and writes: `begin_login` and `finish_login` are the two parts.
pub mod Throttle
use red_man.Common.{
  ℕ, ◌+◌, ◌*◌, ◌-◌, ◌^◌, String, Bool, true, false, ◌&&◌, not, Option, none, some, min, ltb, leb,
  nat_beq, find_where, ◌===◌, if◌then◌else◌, String-Comparable, ℕ-Comparable,
}
use red_man.Auth.Store.{
  User, Credential, AuthDb, Host, is_local, or_else, user_at, audited, update_user,
  normalize_username,
}

-- The account as it was read, and the hash to check against: a dummy where there is none.
pub record Pending : Type 0 where
  pub row : Option User
  pub hash : String

abbrev pub secret_of : AuthDb → ℕ → Option Credential
secret_of db id = find_where (λ c. c.user_id === id) db.credentials

abbrev pub local_user : AuthDb → String → Option User
local_user db name = find_where (λ u. is_local u.provider && u.username === name) db.users

abbrev pub hash_or : String → Option Credential → String
hash_or dummy none = dummy
hash_or dummy (some c) = c.secret_hash

unfoldable pub begin_login : Host → String → AuthDb → Pending
begin_login host username db =
    let row = local_user db (or_else (host.fold username) (normalize_username host username)) in
    record {
      row = row;
      hash = elim row [
        | none ↦ host.dummy_hash
        | some u ↦ hash_or host.dummy_hash (secret_of db u.id)
      ];
    }

-- `locked_until && Date.parse(locked_until) > now`
abbrev pub is_locked : ℕ → User → Bool
is_locked now u = elim u.locked_until [ none ↦ false | some t ↦ ltb now t ]

unfoldable pub lock_seconds : ℕ → ℕ
lock_seconds attempts = if leb 5 attempts then min 900 (30 * 2 ^ (attempts - 5)) else 0

unfoldable pub count_failure : ℕ → ℕ → User → User
unfolding lock_seconds
count_failure now attempts u = record u {
  failed_attempts = attempts;
  locked_until =
      if nat_beq (lock_seconds attempts) 0 then none else some (now + lock_seconds attempts * 1000);
}

-- The transaction `recordFailure`, on the account as it is by then; while it is locked no failure
-- is counted.
unfoldable pub record_failure : ℕ → ℕ → AuthDb → AuthDb
unfolding count_failure
record_failure now id db = elim (user_at db id) [
  | none ↦ db
  | some current ↦
      if is_locked now current
      then db
      else update_user id (count_failure now (current.failed_attempts + 1)) db
]

abbrev pub logged_in : ℕ → User → User
logged_in now u = record u { failed_attempts = 0; locked_until = none; last_login_at = some now }

unfoldable pub is_accepted : Host → ℕ → Pending → String → Bool
is_accepted host now pending password = elim pending.row [
  | none ↦ false
  | some u ↦ (u.enabled && not (is_locked now u)) && host.verify pending.hash password
]

-- The account, or nothing for the error 401.
unfoldable pub finish_login : Host → ℕ → Pending → String → AuthDb → AuthDb × Option User
unfolding is_accepted record_failure
finish_login host now pending password db = elim pending.row [
  | none ↦ (audited "login_failed" none db, none)
  | some u ↦
      if is_accepted host now pending password
      then (
        audited "login_succeeded" (some u.id) (update_user u.id (logged_in now) db),
        some (record u { last_login_at = some now }),
      )
      else (audited "login_failed" (some u.id) (record_failure now u.id db), none)
]

-- A login that nothing else comes between.
unfoldable pub authenticate_local_user : Host → ℕ → String → String → AuthDb → AuthDb × Option User
unfolding begin_login finish_login
authenticate_local_user host now username password db =
    finish_login host now (begin_login host username db) password db
