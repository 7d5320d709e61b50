-- ===== src/Auth/Recovery.antt =====
-- New passwords in app/backend/src/services/authService.js: recovery tokens and the change of a
-- password. Both await the hashing between what they read and what they write, and are cut there.
pub mod Once
use red_man.Common.{
  ℕ, suc, ◌+◌, ◌*◌, String, Bool, true, false, ◌&&◌, not, Option, none, some, List, [], ◌∷◌, ◌++◌,
  leb, ltb, nat_beq, tally, find_where, update_where, ◌===◌, if◌then◌else◌, String-Comparable,
  ℕ-Comparable,
}
use red_man.Common.Results.{Result, ok, err, ◌>>=◌, or_err, unless_err}
use red_man.Auth.Store.{
  User, Recovery, issued, used, expired, revoked, Credential, AuthDb, Host, AuthError,
  invalid_username, invalid_password, user_not_found, wrong_password, invalid_recovery, is_local,
  is_issued, audited, update_user, revoke_user_sessions, user_at, normalize_username, is_password,
}
use red_man.Auth.Login.{local_user, secret_of}

unfoldable pub issue_recovery_token :
    Host → ℕ → ℕ → String → String → AuthDb → Result AuthError AuthDb
issue_recovery_token host recovery_minutes now username token db = do
  name ← or_err invalid_username (normalize_username host username)
  user ← or_err user_not_found (local_user db name)
  ok (
      audited "recovery_token_issued" (some user.id) (record db {
        recoveries =
            update_where (λ r. r.user_id === user.id && is_issued r.status)
              (λ r. record r { status = revoked }) db.recoveries
            ++ record {
              id = db.next_recovery;
              user_id = user.id;
              token_hash = host.token_hash token;
              status = issued;
              expires_at = now + recovery_minutes * 60 * 1000;
            }
              ∷ [];
        next_recovery = suc db.next_recovery;
      }))

-- The recovery of a token, with its local account of that name.
unfoldable pub find_recovery : Host → String → String → AuthDb → Option Recovery
find_recovery host name token db =
    elim (find_where (λ r. r.token_hash === host.token_hash token) db.recoveries) [
      | none ↦ none
      | some r ↦ elim (user_at db r.user_id) [
        | none ↦ none
        | some u ↦ if is_local u.provider && u.username === name then some r else none
      ]
    ]

-- Up to the hashing: the recovery, or an error, with the table as it is then.
unfoldable pub begin_recovery :
    Host → ℕ → String → String → String → AuthDb → AuthDb × Result AuthError Recovery
unfolding find_recovery
begin_recovery host now username token new_password db = elim (normalize_username host username) [
  | none ↦ (db, err invalid_username)
  | some name ↦ elim (find_recovery host name token db) [
    | none ↦ (db, err invalid_recovery)
    | some r ↦
        if is_issued r.status && ltb now r.expires_at
        then (db, if is_password new_password then ok r else err invalid_password)
        else if is_issued r.status
        then (
          record db {
            recoveries =
                update_where (λ q. q.id === r.id) (λ q. record q { status = expired })
                  db.recoveries;
          },
          err invalid_recovery,
        )
        else (db, err invalid_recovery)
  ]
]

-- `WHERE id = ? AND status = 'issued' AND expires_at > ?`
abbrev pub is_claimable : ℕ → ℕ → Recovery → Bool
is_claimable now id r = (r.id === id && is_issued r.status) && ltb now r.expires_at

abbrev pub new_secret : ℕ → String → AuthDb → AuthDb
new_secret user hash db = record db {
  credentials =
      update_where (λ c. c.user_id === user) (λ c. record c { secret_hash = hash }) db.credentials;
}

-- The transaction behind the hashing.
unfoldable pub finish_recovery : Host → ℕ → Recovery → String → AuthDb → Result AuthError AuthDb
finish_recovery host now r new_password db = do
  _ ← unless_err invalid_recovery (nat_beq (tally (is_claimable now r.id) db.recoveries) 1)
  let claimed = record db {
    recoveries =
        update_where (is_claimable now r.id) (λ q. record q { status = used }) db.recoveries;
  }
  let unlocked =
      update_user r.user_id (λ u. record u { failed_attempts = 0; locked_until = none })
        (new_secret r.user_id (host.hash_password new_password) claimed)
  ok (
      audited "password_recovered" (some r.user_id)
        (revoke_user_sessions now r.user_id none unlocked))

-- The check of the old password, and what is written behind the hashing of the new one.
unfoldable pub begin_password_change :
    Host → ℕ → String → String → AuthDb → Result AuthError (Unit {0})
begin_password_change host user current_password new_password db = do
  c ← or_err wrong_password (secret_of db user)
  _ ← unless_err wrong_password (host.verify c.secret_hash current_password)
  unless_err invalid_password (is_password new_password)

unfoldable pub finish_password_change : Host → ℕ → ℕ → String → AuthDb → AuthDb
finish_password_change host now user new_password db =
    audited "password_changed" (some user)
      (revoke_user_sessions now user none (new_secret user (host.hash_password new_password) db))
