-- ===== src/Auth/Recovery/Once.antt =====
-- A recovery token of app/backend/src/services/authService.js after its use.
use red_man.Common.{
  ℕ, ◌≤◌, ◌<◌, ◌≡◌, refl, String, Bool, ◌&&◌, List, [], ◌∷◌, tally, update_where,
  tally-update_where, tally-le, tally-append, ◌===◌, String-Comparable, ℕ-Comparable, arith,
}
use red_man.Common.Results.{ok, err}
use red_man.Auth.Store.{Recovery, used, expired, revoked, AuthDb, Host, invalid_recovery, is_issued}
use red_man.Auth.Accounts.{
  insert_user, insert_local, bootstrap_admin, create_local_user, update_auth_user,
  provision_missing, resolve_proxy_account, promote_local_admin_for_recovery,
  provision_proxy_account,
}
use red_man.Auth.Login.{finish_login, record_failure}
use red_man.Auth.Recovery.{
  is_claimable, issue_recovery_token, begin_recovery, finish_recovery, finish_password_change,
}
use red_man.Auth.Sessions.{
  create_session, check_session, find_active_session, revoke_session,
  revoke_sessions_after_database_restore,
}
use red_man.Auth.Steps.{Step, Steps, Steps-preserve}

abbrev is_issued_at : ℕ → Recovery → Bool
is_issued_at id r = r.id === id && is_issued r.status

-- No recovery of the id is issued, and none will be given that id.
record Spent (id : ℕ) (db : AuthDb) : Type 0 where
  closed : tally (is_issued_at id) db.recoveries ≡ 0
  given : id < db.next_recovery

module _ (id : ℕ) (p : Recovery → Bool) (rows : List Recovery) where
  revoke-closed :
      tally (is_issued_at id) (update_where p (λ r. record r { status = revoked }) rows)
      ≤ tally (is_issued_at id) rows
  revoke-closed =
      tally-update_where p _ (λ r. record r { status = revoked }) rows (λ r h. ground arith)

  expire-closed :
      tally (is_issued_at id) (update_where p (λ r. record r { status = expired }) rows)
      ≤ tally (is_issued_at id) rows
  expire-closed =
      tally-update_where p _ (λ r. record r { status = expired }) rows (λ r h. ground arith)

  use-closed :
      tally (is_issued_at id) (update_where p (λ r. record r { status = used }) rows)
      ≤ tally (is_issued_at id) rows
  use-closed = tally-update_where p _ (λ r. record r { status = used }) rows (λ r h. ground arith)

-- Where one row could be claimed and is, no issued row of its id is left if there is one row of it.
claim-closed :
    (now id : ℕ) (rows : List Recovery)
    → tally (λ r. r.id === id) rows ≤ 1
    → tally (is_claimable now id) rows ≡ 1
    → tally
        (is_issued_at id)
        (update_where (is_claimable now id) (λ r. record r { status = used }) rows)
      ≡ 0
claim-closed now id [] one claim = refl
claim-closed now id (r ∷ rows) one claim =
    ground
      (arith, claim-closed now id rows, fewer, closed, use-closed id (is_claimable now id) rows)
  where
    fewer : tally (is_claimable now id) rows ≤ tally (λ r. r.id === id) rows
    fewer = tally-le (is_claimable now id) (λ r. r.id === id) rows (λ r h. ground arith)

    closed : tally (is_issued_at id) rows ≤ tally (λ r. r.id === id) rows
    closed = tally-le (is_issued_at id) (λ r. r.id === id) rows (λ r h. ground arith)

finish_recovery-Spent :
    (host : Host) (now : ℕ) (r : Recovery) (new_password : String) (db db' : AuthDb)
    → tally (λ q. q.id === r.id) db.recoveries ≤ 1
    → r.id < db.next_recovery
    → finish_recovery host now r new_password db ≡ ok db'
    → Spent r.id db'
unfolding finish_recovery
finish_recovery-Spent host now r new_password db db' one given e = record {
  closed = ground (arith, claim-closed now r.id db.recoveries one);
  given = ground arith;
}

issue-Spent :
    (host : Host) (id minutes now : ℕ) (username token : String) (db db' : AuthDb)
    → issue_recovery_token host minutes now username token db ≡ ok db'
    → Spent id db
    → Spent id db'
unfolding issue_recovery_token
issue-Spent host id minutes now username token db db' e spent = record {
  closed = grind (arith, tally-append, revoke-closed);
  given = ground arith;
}

Step-Spent :
    (host : Host) (Fresh : String → Type 0) (id : ℕ) (db db' : AuthDb)
    → Step host Fresh db db'
    → Spent id db
    → Spent id db'
unfolding bootstrap_admin create_local_user insert_local insert_user resolve_proxy_account
    provision_missing update_auth_user promote_local_admin_for_recovery provision_proxy_account
    finish_login record_failure create_session find_active_session check_session revoke_session
    begin_recovery finish_recovery finish_password_change revoke_sessions_after_database_restore
Step-Spent host Fresh i _ _
      (Step.bootstrapped db db' id token configured username password display_name email e) spent =
    ground arith
Step-Spent host Fresh i _ _ (Step.created db db' id username password role display_name email e)
      spent =
    ground arith
Step-Spent host Fresh i _ _ (Step.updated db db' now id updates e) spent = ground arith
Step-Spent host Fresh i _ _ (Step.proxied db db' now identity role u e) spent = ground arith
Step-Spent host Fresh i _ _ (Step.promoted db db' now username e) spent = ground arith
Step-Spent host Fresh i _ _ (Step.provisioned db db' now identity role e) spent = ground arith
Step-Spent host Fresh i _ _ (Step.login_finished db now pending password) spent = ground arith
Step-Spent host Fresh i _ _ (Step.session_created db config now token csrf_token user other) spent =
    ground arith
Step-Spent host Fresh i _ _ (Step.session_used db config now token) spent = ground arith
Step-Spent host Fresh i _ _ (Step.session_revoked db now id) spent = ground arith
Step-Spent host Fresh i _ _ (Step.restored db now done) spent = ground arith
Step-Spent host Fresh i _ _ (Step.recovery_issued db db' minutes now username token e) spent =
    issue-Spent host i minutes now username token db db' e spent
Step-Spent host Fresh i _ _ (Step.recovery_begun db now username token new_password) spent =
    grind (arith, expire-closed)
Step-Spent host Fresh i _ _ (Step.recovery_finished db db' now r new_password e) spent =
    grind (arith, use-closed)
Step-Spent host Fresh i _ _ (Step.password_changed db now user new_password) spent = ground arith

finish_recovery-refused :
    (host : Host) (now : ℕ) (r : Recovery) (new_password : String) (db : AuthDb)
    → Spent r.id db
    → finish_recovery host now r new_password db ≡ err invalid_recovery
unfolding finish_recovery
finish_recovery-refused host now r new_password db spent = ground (
  arith,
  tally-le (is_claimable now r.id) (is_issued_at r.id) db.recoveries (λ q h. ground arith),
)

-- A recovery that has set a password sets no other one, whatever steps follow, at whatever time,
-- and also where a second request had found its row before the first one ended. The recoveries have
-- ids of their own.
pub finish_recovery_once :
    (host : Host) (Fresh : String → Type 0) (now now' : ℕ) (r : Recovery)
    (new_password other_password : String) (db db' later : AuthDb)
    → tally (λ q. q.id === r.id) db.recoveries ≤ 1
    → r.id < db.next_recovery
    → finish_recovery host now r new_password db ≡ ok db'
    → Steps host Fresh db' later
    → finish_recovery host now' r other_password later ≡ err invalid_recovery
finish_recovery_once host Fresh now now' r new_password other_password db db' later one given e
      steps =
    finish_recovery-refused host now' r other_password later (
      Steps-preserve host Fresh (Spent r.id) (Step-Spent host Fresh r.id) db' later steps
        (finish_recovery-Spent host now r new_password db db' one given e))
