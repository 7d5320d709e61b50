-- ===== src/Auth/Examples.antt =====
-- Requests and accounts to try the models of app/backend/src/services/authService.js and
-- routePermissions.js on. The texts are taken as they are and hashed to themselves.
use red_man.Common.{
  ◌*◌, ◌-◌, ◌≤◌, ◌≡◌, ◌≢◌, refl, ◌⊎◌, String, true, none, some, [], ◌∷◌, arith, tally, ◌===◌,
  String-Comparable, ℕ-Comparable,
}
use red_man.Common.Results.{ok, err}
use red_man.Auth.Permissions.{
  get, post, permission_of, permits, Policy, passed, normalized_path, fits_path, fits,
  find_permission,
}
use red_man.Auth.Permissions as P
use red_man.Auth.Permissions.Table.{get_route_permission, authorize_api_route, role_allows}
use red_man.Auth.Permissions.Table.Unambiguous.{get_route_permission_lem}
use red_man.Auth.Permissions.Table.Viewer.{authorize_api_route_viewer, IsAccountCall}
use red_man.Auth.Store.{
  local_, admin, User, Session, Recovery, issued, used, AuthDb, Host, normalize_username,
  invalid_recovery, user_at, revoke_of_user, is_password, revoke_at, normalize_optional_text,
}
use red_man.Auth.Login.{
  authenticate_local_user, begin_login, finish_login, is_accepted, record_failure, count_failure,
  lock_seconds,
}
use red_man.Auth.Login.Throttle.{Guesses, authenticate_local_user-Guesses}
use red_man.Auth.Sessions.{SessionConfig, new_session, find_active_session, check_session, seen}
use red_man.Auth.Sessions.Ended.{LetsIn, find_active_session_lem, find_active_session-ended, Ends}
use red_man.Auth.Recovery.{finish_recovery, finish_password_change}
use red_man.Auth.Recovery.Once.{finish_recovery_once}
use red_man.Auth.Accounts.{bootstrap_admin, insert_local, insert_user}
use red_man.Auth.Accounts.Admins.{is_local_admin, Numbered}
use red_man.Auth.Accounts.Admins.Always.{bootstrap_admin_once}
use red_man.Auth.Steps.{Steps, Step}

abbrev plain : Host
plain = record {
  clean = λ s. s;
  fold = λ s. s;
  clean_text = λ s. s;
  token_hash = λ s. s;
  hash_password = λ s. s;
  verify = λ hash password. hash === password;
  dummy_hash = "";
}

abbrev ann : User
ann = record {
  id = 1;
  provider = local_;
  provider_subject = "ann";
  username = "ann";
  display_name = none;
  email = none;
  role = admin;
  enabled = true;
  failed_attempts = 0;
  locked_until = none;
  last_login_at = none;
}

abbrev hours : SessionConfig
hours = record { session_absolute_hours = 2; session_idle_minutes = 30 }

abbrev recovery : Recovery
recovery = record { id = 1; user_id = 1; token_hash = "key"; status = issued; expires_at = 900 }

abbrev tables : User → AuthDb
tables u = record {
  users = u ∷ [];
  credentials = record { user_id = 1; secret_hash = "right" } ∷ [];
  sessions = new_session plain hours 0 "token" "csrf" 1 1 ∷ [];
  recoveries = recovery ∷ [];
  audit = [];
  next_user = 2;
  next_session = 2;
  next_recovery = 2;
}

abbrev empty_tables : AuthDb
empty_tables = record {
  users = [];
  credentials = [];
  sessions = [];
  recoveries = [];
  audit = [];
  next_user = 1;
  next_session = 1;
  next_recovery = 1;
}

get_route_permission_lem_example :
    get_route_permission get ("auth" ∷ "session" ∷ []) ≡ some P.account_self
unfolding permits fits_path fits
get_route_permission_lem_example =
    get_route_permission_lem 2 _ get ("auth" ∷ "session" ∷ []) refl refl

authorize_api_route_viewer_example :
    ◌≡◌ {A = String} post get ⊎ IsAccountCall post (normalized_path ("auth" ∷ "logout" ∷ []))
unfolding authorize_api_route get_route_permission find_permission permits fits_path fits
    role_allows
authorize_api_route_viewer_example =
    authorize_api_route_viewer (some P.viewer) post ("auth" ∷ "logout" ∷ []) (cc) refl

-- A guess at a user whose account is open.
abbrev one_wrong : AuthDb
one_wrong = (authenticate_local_user plain 1000 "ann" "wrong" (tables ann)).0

one_wrong-Guesses : Guesses plain "ann" (tables ann) 0 one_wrong 1000 1
unfolding authenticate_local_user begin_login finish_login is_accepted record_failure count_failure
    lock_seconds normalize_username
one_wrong-Guesses =
    Guesses.guess 0 1000 0 1 (tables ann) one_wrong ann "wrong" Guesses.none_yet (omega arith) refl
      refl refl

authenticate_local_user-Guesses_example :
    (30000 * (1 - 5) ≤ 1000 - 0) × (900000 * (1 - 10) ≤ 1000 - 0)
unfolding normalize_username
authenticate_local_user-Guesses_example =
    authenticate_local_user-Guesses plain "ann" (tables ann) 0 ann (refl, refl) refl one_wrong 1000
      1 one_wrong-Guesses

find_active_session_lem_example :
    ((s : Session) × LetsIn plain 90000 "token" (tables ann) s
      × (seen hours 90000 (new_session plain hours 0 "token" "csrf" 1 1) ≡ seen hours 90000 s)
      × (user_at (tables ann) s.user_id ≡ some ann)
      × (ann.enabled ≡ true))
    × ((find_active_session plain hours 90000 "token" (tables ann)).0.users ≡ ann ∷ [])
unfolding find_active_session check_session
find_active_session_lem_example =
    find_active_session_lem plain hours 90000 "token" (tables ann)
      (record {
        session = seen hours 90000 (new_session plain hours 0 "token" "csrf" 1 1);
        user = ann;
      })
      refl

find_active_session-ended_example :
    (find_active_session plain hours 90000 "token"
      (finish_password_change plain 500 1 "new password" (tables ann))).1
    ≡ none
find_active_session-ended_example =
    find_active_session-ended plain hours 1 90000 "token" (tables ann) _ _ refl
      (Ends.by_password_change 500 "new password") (Steps.stay _)

abbrev recovered : AuthDb
recovered = record (tables ann) {
  credentials = record { user_id = 1; secret_hash = "a new password" } ∷ [];
  sessions = revoke_at 500 (new_session plain hours 0 "token" "csrf" 1 1) ∷ [];
  recoveries = record recovery { status = used } ∷ [];
  audit = ("password_recovered", some 1) ∷ [];
}

finish_recovery_once_example :
    finish_recovery plain 600 recovery "another one"
      (finish_password_change plain 550 1 "new password" (recovered))
    ≡ err invalid_recovery
unfolding finish_recovery revoke_of_user
finish_recovery_once_example =
    finish_recovery_once plain (λ t. Unit {0}) 500 600 recovery "a new password" "another one"
      (tables ann) recovered (finish_password_change plain 550 1 "new password" recovered)
      (omega arith) (omega arith) refl
      (Steps.then_ recovered recovered _ (Steps.stay recovered)
        (Step.password_changed recovered 550 1 "new password"))

empty_tables-Numbered : Numbered empty_tables
empty_tables-Numbered = record { single = λ id. omega arith; unused = λ id above. refl }

abbrev bootstrapped : AuthDb
bootstrapped = record empty_tables {
  users = ann ∷ [];
  credentials = record { user_id = 1; secret_hash = "a long password" } ∷ [];
  audit = ("bootstrap_admin_created", some 1) ∷ [];
  next_user = 2;
}

bootstrap_admin_once_example :
    (1 ≤ tally is_local_admin bootstrapped.users)
    × (bootstrap_admin plain "secret" (some "secret") "bob" "a long password" none none bootstrapped
        ≢ ok (tables ann, 1))
unfolding bootstrap_admin insert_local insert_user normalize_username is_password
    normalize_optional_text
bootstrap_admin_once_example =
    bootstrap_admin_once plain (λ t. Unit {0}) "secret" (some "secret") "ann" "a long password" none
      none "secret" (some "secret") "bob" "a long password" none none empty_tables bootstrapped
      bootstrapped 1 (tables ann, 1) empty_tables-Numbered refl (Steps.stay bootstrapped)
