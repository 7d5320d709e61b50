-- ===== src/Auth/Steps.antt =====
-- Everything that app/backend/src/services/authService.js does to its tables, as steps that may come
-- in any order. What was read before an await is an argument of the step behind it: such a step may
-- find another table than the one that was read.
use red_man.Common.{ℕ, ◌≡◌, String, Bool, Option}
use red_man.Common.Results.{ok}
use red_man.Auth.Store.{AuthDb, Host, Role, Recovery, User}
use red_man.Auth.Accounts.{
  bootstrap_admin, create_local_user, Updates, update_auth_user, ProxyIdentity,
  resolve_proxy_account, promote_local_admin_for_recovery, provision_proxy_account,
}
use red_man.Auth.Login.{Pending, finish_login}
use red_man.Auth.Sessions.{
  SessionConfig, create_session, find_active_session, revoke_session,
  revoke_sessions_after_database_restore,
}
use red_man.Auth.Recovery.{
  issue_recovery_token, begin_recovery, finish_recovery, finish_password_change,
}

-- `Fresh` is what is known of the hashes of the tokens that new sessions get.
pub data Step (host : Host) (Fresh : String → Type 0) : AuthDb → AuthDb → Type 0 where
  bootstrapped :
      (db db' : AuthDb) (id : ℕ) (token : String) (configured : Option String)
      (username password : String) (display_name email : Option String)
      → bootstrap_admin host token configured username password display_name email db ≡ ok (db', id)
      → Step host Fresh db db'
  created :
      (db db' : AuthDb) (id : ℕ) (username password : String) (role : Role)
      (display_name email : Option String)
      → create_local_user host username password role display_name email db ≡ ok (db', id)
      → Step host Fresh db db'
  updated :
      (db db' : AuthDb) (now id : ℕ) (updates : Updates)
      → update_auth_user host now id updates db ≡ ok db'
      → Step host Fresh db db'
  proxied :
      (db db' : AuthDb) (now : ℕ) (identity : ProxyIdentity) (role : Option Role) (u : User)
      → resolve_proxy_account now identity role db ≡ ok (db', u)
      → Step host Fresh db db'
  promoted :
      (db db' : AuthDb) (now : ℕ) (username : String)
      → promote_local_admin_for_recovery host now username db ≡ ok db'
      → Step host Fresh db db'
  provisioned :
      (db db' : AuthDb) (now : ℕ) (identity : ProxyIdentity) (role : Role)
      → provision_proxy_account now identity role db ≡ ok db'
      → Step host Fresh db db'
  login_finished :
      (db : AuthDb) (now : ℕ) (pending : Pending) (password : String)
      → Step host Fresh db (finish_login host now pending password db).0
  session_created :
      (db : AuthDb) (config : SessionConfig) (now : ℕ) (token csrf_token : String) (user : ℕ)
      → Fresh (host.token_hash token)
      → Step host Fresh db (create_session host config now token csrf_token user db)
  session_used :
      (db : AuthDb) (config : SessionConfig) (now : ℕ) (token : String)
      → Step host Fresh db (find_active_session host config now token db).0
  session_revoked : (db : AuthDb) (now id : ℕ) → Step host Fresh db (revoke_session now id db)
  restored :
      (db : AuthDb) (now : ℕ) (done : Bool)
      → Step host Fresh db (revoke_sessions_after_database_restore now done db)
  recovery_issued :
      (db db' : AuthDb) (minutes now : ℕ) (username token : String)
      → issue_recovery_token host minutes now username token db ≡ ok db'
      → Step host Fresh db db'
  recovery_begun :
      (db : AuthDb) (now : ℕ) (username token new_password : String)
      → Step host Fresh db (begin_recovery host now username token new_password db).0
  recovery_finished :
      (db db' : AuthDb) (now : ℕ) (r : Recovery) (new_password : String)
      → finish_recovery host now r new_password db ≡ ok db'
      → Step host Fresh db db'
  password_changed :
      (db : AuthDb) (now user : ℕ) (new_password : String)
      → Step host Fresh db (finish_password_change host now user new_password db)

pub data Steps (host : Host) (Fresh : String → Type 0) : AuthDb → AuthDb → Type 0 where
  stay : (db : AuthDb) → Steps host Fresh db db
  then_ :
      (first db db' : AuthDb)
      → Steps host Fresh first db
      → Step host Fresh db db'
      → Steps host Fresh first db'

pub Steps-preserve :
    (host : Host) (Fresh : String → Type 0) (P : AuthDb → Type 0)
    → ((db db' : AuthDb) → Step host Fresh db db' → P db → P db')
    → (db db' : AuthDb) → Steps host Fresh db db'
    → P db
    → P db'
Steps-preserve host Fresh P keep _ _ (stay db) p = p
Steps-preserve host Fresh P keep _ _ (then_ first db db' before step) p =
    keep db db' step (Steps-preserve host Fresh P keep first db before p)
