-- ===== src/Auth/Sessions/Open.antt =====
-- How many sessions of a token are open, before and after each step of
-- app/backend/src/services/authService.js.
use red_man.Common.{
  ℕ, ◌+◌, ◌≤◌, ◌≢◌, String, ◌&&◌, Option, none, some, List, [], ◌∷◌, min, tally, update_where,
  tally-update_where, tally-append, ◌===◌, String-Comparable, ℕ-Comparable, arith,
}
use text.Mathlib.TextEquality.{eq_iff}
use red_man.Auth.Store.{User, Session, AuthDb, Host, is_none, revoke_at, revoke_of_user}
use red_man.Auth.Accounts.{
  insert_user, insert_local, bootstrap_admin, create_local_user, update_auth_user,
  provision_missing, resolve_proxy_account, promote_local_admin_for_recovery,
  provision_proxy_account,
}
use red_man.Auth.Login.{finish_login, record_failure}
use red_man.Auth.Recovery.{
  issue_recovery_token, begin_recovery, finish_recovery, finish_password_change,
}
use red_man.Auth.Steps.{Step}
use red_man.Auth.Sessions.{
  SessionConfig, idle_ms, new_session, create_session, is_open, check_session, find_active_session,
  revoke_session, revoke_sessions_after_database_restore,
}

module _ (h : String) (now : ℕ) where
  revoke_of_user-open :
      (user : ℕ) (except : Option ℕ) (sessions : List Session)
      → tally (is_open h) (revoke_of_user now user except sessions) ≤ tally (is_open h) sessions
  unfolding revoke_of_user
  revoke_of_user-open user none sessions =
      tally-update_where _ (is_open h) (revoke_at now) sessions (λ s p. ground arith)
  revoke_of_user-open user (some except) sessions =
      tally-update_where _ (is_open h) (revoke_at now) sessions (λ s p. ground arith)

-- No session of the token is opened.
abbrev pub NoneOpened : String → AuthDb → AuthDb → Type 0
NoneOpened h db db' = tally (is_open h) db'.sessions ≤ tally (is_open h) db.sessions

module _ (h : String) (now id : ℕ) (sessions : List Session) where
  expire-open :
      tally
        (is_open h)
        (update_where (λ s. s.id === id && is_none s.revoked_at) (revoke_at now) sessions)
      ≤ tally (is_open h) sessions
  expire-open = tally-update_where _ (is_open h) (revoke_at now) sessions (λ s p. ground arith)

  restore-open :
      tally (is_open h) (update_where (λ s. is_none s.revoked_at) (revoke_at now) sessions)
      ≤ tally (is_open h) sessions
  restore-open = tally-update_where _ (is_open h) (revoke_at now) sessions (λ s p. ground arith)

  seen-open :
      (idle : ℕ)
      → tally (is_open h) (
          update_where
            (λ s. s.id === id)
            (λ s. record s { last_seen_at = now; idle_expires_at = idle })
            sessions)
        ≤ tally (is_open h) sessions
  seen-open idle =
      tally-update_where _ (is_open h)
        (λ s. record s { last_seen_at = now; idle_expires_at = idle }) sessions
        (λ s p. ground arith)

check_session-open :
    (h : String) (config : SessionConfig) (now : ℕ) (s : Session) (u : User) (db : AuthDb)
    → NoneOpened h db (check_session config now s u db).0
unfolding check_session
check_session-open h config now s u db = ground (
  arith,
  expire-open h now s.id db.sessions,
  seen-open h now s.id db.sessions (min s.absolute_expires_at (now + idle_ms config)),
)

find_active_session-open :
    (host : Host) (h : String) (config : SessionConfig) (now : ℕ) (token : String) (db : AuthDb)
    → NoneOpened h db (find_active_session host config now token db).0
unfolding find_active_session
find_active_session-open host h config now token db = grind (arith, check_session-open)

revoke_session-open :
    (h : String) (now id : ℕ) (db : AuthDb) → NoneOpened h db (revoke_session now id db)
unfolding revoke_session
revoke_session-open h now id db = ground (arith, expire-open h now id db.sessions)

create_session-open :
    (host : Host) (h : String) (config : SessionConfig) (now : ℕ) (token csrf_token : String)
    (user : ℕ) (db : AuthDb)
    → host.token_hash token ≢ h
    → NoneOpened h db (create_session host config now token csrf_token user db)
unfolding create_session
create_session-open host h config now token csrf_token user db other = ground (
  arith,
  tally-append (is_open h) db.sessions
      (new_session host config now token csrf_token user db.next_session ∷ []),
  eq_iff (host.token_hash token) h,
)

-- No step but a new session of that token opens one.
pub Step-open :
    (host : Host) (h : String) (db db' : AuthDb)
    → Step host (λ t. t ≢ h) db db'
    → NoneOpened h db db'
unfolding bootstrap_admin create_local_user insert_local insert_user resolve_proxy_account
    provision_missing update_auth_user promote_local_admin_for_recovery provision_proxy_account
    finish_login record_failure issue_recovery_token begin_recovery finish_recovery
    finish_password_change revoke_sessions_after_database_restore
Step-open host h _ _
      (Step.bootstrapped db db' id token configured username password display_name email e) =
    ground arith
Step-open host h _ _ (Step.created db db' id username password role display_name email e) =
    ground arith
Step-open host h _ _ (Step.updated db db' now id updates e) = grind (arith, revoke_of_user-open)
Step-open host h _ _ (Step.proxied db db' now identity role u e) = ground arith
Step-open host h _ _ (Step.promoted db db' now username e) = grind (arith, revoke_of_user-open)
Step-open host h _ _ (Step.provisioned db db' now identity role e) =
    grind (arith, revoke_of_user-open)
Step-open host h _ _ (Step.login_finished db now pending password) = ground arith
Step-open host h _ _ (Step.session_created db config now token csrf_token user other) =
    create_session-open host h config now token csrf_token user db other
Step-open host h _ _ (Step.session_used db config now token) =
    find_active_session-open host h config now token db
Step-open host h _ _ (Step.session_revoked db now id) = revoke_session-open h now id db
Step-open host h _ _ (Step.restored db now done) = ground (arith, restore-open h now 0 db.sessions)
Step-open host h _ _ (Step.recovery_issued db db' minutes now username token e) = ground arith
Step-open host h _ _ (Step.recovery_begun db now username token new_password) = ground arith
Step-open host h _ _ (Step.recovery_finished db db' now r new_password e) =
    grind (arith, revoke_of_user-open)
Step-open host h _ _ (Step.password_changed db now user new_password) =
    grind (arith, revoke_of_user-open)
