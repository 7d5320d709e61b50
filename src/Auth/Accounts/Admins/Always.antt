-- ===== src/Auth/Accounts/Admins/Always.antt =====
-- What follows the bootstrap of app/backend/src/services/authService.js.
use red_man.Common.{ℕ, ◌≤◌, ◌≡◌, ◌≢◌, refl, String, Option, none, tally, tally-le, arith}
use red_man.Common.Results.{ok}
use red_man.Auth.Store.{User, AuthDb, Host, is_local}
use red_man.Auth.Accounts.{bootstrap_admin}
use red_man.Auth.Accounts.Admins.{
  is_local_admin, Numbered, Administered, same-Administered, kept-Administered,
}
use red_man.Auth.Accounts.Admins.Kept.{
  bootstrap_admin-Administered, create_local_user-Administered, update_auth_user-Administered,
  promote-Administered, finish_login-Administered,
}
use red_man.Auth.Accounts.Admins.Proxies.{
  resolve_proxy_account-Administered, provision_proxy_account-Administered,
}
use red_man.Auth.Sessions.{
  create_session, check_session, find_active_session, revoke_session,
  revoke_sessions_after_database_restore,
}
use red_man.Auth.Sessions.Ended.{find_active_session-users}
use red_man.Auth.Recovery.{
  issue_recovery_token, begin_recovery, finish_recovery, finish_password_change,
}
use red_man.Auth.Steps.{Step, Steps, Steps-preserve}

unlock : User → User
unlock u = record u { failed_attempts = 0; locked_until = none }

Step-Administered :
    (host : Host) (Fresh : String → Type 0) (db db' : AuthDb)
    → Step host Fresh db db'
    → Administered db
    → Administered db'
unfolding create_session find_active_session check_session revoke_session issue_recovery_token
    begin_recovery finish_recovery finish_password_change revoke_sessions_after_database_restore
    unlock
Step-Administered host Fresh _ _
      (Step.bootstrapped db db' id token configured username password display_name email e) h =
    bootstrap_admin-Administered host db token configured username password display_name email db'
      id h.numbered e
Step-Administered host Fresh _ _
      (Step.created db db' id username password role display_name email e) h =
    create_local_user-Administered host db username password role display_name email db' id h e
Step-Administered host Fresh _ _ (Step.updated db db' now id updates e) h =
    update_auth_user-Administered host db h now id updates db' e
Step-Administered host Fresh _ _ (Step.proxied db db' now identity role u e) h =
    resolve_proxy_account-Administered db h now identity role db' u e
Step-Administered host Fresh _ _ (Step.promoted db db' now username e) h =
    promote-Administered host db h now username db' e
Step-Administered host Fresh _ _ (Step.provisioned db db' now identity role e) h =
    provision_proxy_account-Administered db h now identity role db' e
Step-Administered host Fresh _ _ (Step.login_finished db now pending password) h =
    finish_login-Administered host db h now pending.row pending.hash password
Step-Administered host Fresh _ _ (Step.session_created db config now token csrf_token user other)
      h =
    same-Administered db h _ refl refl
Step-Administered host Fresh _ _ (Step.session_used db config now token) h =
    same-Administered db h _ (find_active_session-users host config now token db) (ground arith)
Step-Administered host Fresh _ _ (Step.session_revoked db now id) h =
    same-Administered db h _ (ground arith) (ground arith)
Step-Administered host Fresh _ _ (Step.restored db now done) h =
    same-Administered db h _ (ground arith) (ground arith)
Step-Administered host Fresh _ _ (Step.recovery_issued db db' minutes now username token e) h =
    same-Administered db h _ (ground arith) (ground arith)
Step-Administered host Fresh _ _ (Step.recovery_begun db now username token new_password) h =
    same-Administered db h _ (ground arith) (ground arith)
Step-Administered host Fresh _ _ (Step.recovery_finished db db' now r new_password e) h =
    kept-Administered db h r.user_id unlock db' (λ u. refl) (λ u p. p) (ground arith) (ground arith)
Step-Administered host Fresh _ _ (Step.password_changed db now user new_password) h =
    same-Administered db h _ refl refl

bootstrap_admin-closed :
    (host : Host) (token : String) (configured : Option String) (username password : String)
    (display_name email : Option String) (db : AuthDb) (r : AuthDb × ℕ)
    → Administered db
    → bootstrap_admin host token configured username password display_name email db ≢ ok r
unfolding bootstrap_admin
bootstrap_admin-closed host token configured username password display_name email db r h e =
    ground (
      arith,
      h.administrator,
      tally-le is_local_admin (λ (u : User). is_local u.provider) db.users (λ u p. ground arith),
    )

-- Once the first administrator has been made, whatever steps follow, a local account that is
-- enabled and an administrator is always there, and no other bootstrap is accepted, not even with
-- the right token. Before the first step the users have ids of their own, below the next one.
pub bootstrap_admin_once :
    (host : Host) (Fresh : String → Type 0) (token : String) (configured : Option String)
    (username password : String) (display_name email : Option String) (token' : String)
    (configured' : Option String) (username' password' : String)
    (display_name' email' : Option String) (db db' later : AuthDb) (id : ℕ) (r : AuthDb × ℕ)
    → Numbered db
    → bootstrap_admin host token configured username password display_name email db ≡ ok (db', id)
    → Steps host Fresh db' later
    → (1 ≤ tally is_local_admin later.users)
      × (bootstrap_admin host token' configured' username' password' display_name' email' later
          ≢ ok r)
bootstrap_admin_once host Fresh token configured username password display_name email token'
      configured' username' password' display_name' email' db db' later id r numbered e steps =
    let h : Administered later =
      Steps-preserve host Fresh Administered (Step-Administered host Fresh) db' later steps (
        bootstrap_admin-Administered host db token configured username password display_name email
          db' id numbered e) in
    (
      h.administrator,
      bootstrap_admin-closed host token' configured' username' password' display_name' email' later
          r h,
    )
