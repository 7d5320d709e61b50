-- ===== src/Auth/Sessions/Ended.antt =====
-- Which sessions app/backend/src/services/authService.js lets in, and which it never lets in again.
use red_man.Common.{
  ℕ, ◌<◌, ◌≡◌, ◌≢◌, refl, inl, inr, String, true, false, ◌&&◌, not, none, some, List, [], ◌∷◌,
  tally, find_where, find_where_inv, find_where-none, update_where, ◌===◌, String-Comparable,
  ℕ-Comparable, arith, Option-cases,
}
use text.Mathlib.TextEquality.{eq_iff}
use red_man.Common.Results.{ok}
use red_man.Auth.Store.{
  User, Session, Recovery, AuthDb, Host, is_none, user_at, revoke_at, revoke_of_user, same_role,
  or_else,
}
use red_man.Auth.Accounts.{Updates, update_auth_user, same_flag}
use red_man.Auth.Recovery.{finish_recovery, finish_password_change}
use red_man.Auth.Sessions.{
  SessionConfig, seen, is_open, check_session, find_active_session, SessionView,
  revoke_sessions_after_database_restore,
}
use red_man.Auth.Sessions.Open.{Step-open}
use red_man.Auth.Steps.{Steps, Steps-preserve}

-- The row of a token, as it lets a request in.
pub record LetsIn (host : Host) (now : ℕ) (token : String) (db : AuthDb) (s : Session)
    : Type 0 where
  pub given : token ≢ ""
  pub hashed : s.token_hash ≡ host.token_hash token
  pub not_revoked : s.revoked_at ≡ none
  pub not_idle : now < s.idle_expires_at
  pub not_over : now < s.absolute_expires_at
  pub first : find_where (is_open (host.token_hash token)) db.sessions ≡ some s

check_session_lem :
    (config : SessionConfig) (now : ℕ) (s : Session) (u : User) (db : AuthDb) (view : SessionView)
    → (check_session config now s u db).1 ≡ some view
    → (view.session ≡ seen config now s)
      × (view.user ≡ u)
      × (u.enabled ≡ true)
      × (now < s.idle_expires_at)
      × (now < s.absolute_expires_at)
unfolding check_session
check_session_lem config now s u db view h = ground arith

pub find_active_session-users :
    (host : Host) (config : SessionConfig) (now : ℕ) (token : String) (db : AuthDb)
    → (find_active_session host config now token db).0.users ≡ db.users
unfolding find_active_session check_session
find_active_session-users host config now token db = ground arith

-- A request is let in only by a session of its token that is not revoked and at a time before both
-- of its ends, and for an account that is enabled. What it is given is that session, with its idle
-- time moved on, and that account. The accounts stay as they are.
pub find_active_session_lem :
    (host : Host) (config : SessionConfig) (now : ℕ) (token : String) (db : AuthDb)
    (view : SessionView)
    → (find_active_session host config now token db).1 ≡ some view
    → ((s : Session) × LetsIn host now token db s
        × (view.session ≡ seen config now s)
        × (user_at db s.user_id ≡ some view.user)
        × (view.user.enabled ≡ true))
      × ((find_active_session host config now token db).0.users ≡ db.users)
unfolding find_active_session
find_active_session_lem host config now token db view h =
    elim (Option-cases (find_where (is_open (host.token_hash token)) db.sessions)) [
      | inl missing ↦ ground arith
      | inr (s, found) ↦ elim (Option-cases (user_at db s.user_id)) [
        | inl missing ↦ ground arith
        | inr (u, row) ↦
            let open_ = find_where_inv (is_open (host.token_hash token)) db.sessions s found in
            let given : token ≢ "" = ground (arith, eq_iff token "") in
            let hashed : s.token_hash ≡ host.token_hash token =
              ground (arith, eq_iff s.token_hash (host.token_hash token)) in
            let run : (check_session config now s u db).1 ≡ some view = ground arith in
            let (session, user, enabled, idle, over) =
              check_session_lem config now s u db view run in
            (
              (
                s,
                record {
                  given = given;
                  hashed = hashed;
                  not_revoked = ground arith;
                  not_idle = idle;
                  not_over = over;
                  first = found;
                },
                session,
                cc,
                cc,
              ),
              find_active_session-users host config now token db,
            )
      ]
    ]

-- Every open session of the token is one of the account.
abbrev pub OnlyOf : ℕ → String → AuthDb → Type 0
OnlyOf user h db = tally (λ s. is_open h s && not (s.user_id === user)) db.sessions ≡ 0

-- What ends the sessions of an account.
pub data Ends (host : Host) (user : ℕ) (db : AuthDb) : AuthDb → Type 0 where
  by_password_change :
      (now : ℕ) (new_password : String)
      → Ends host user db (finish_password_change host now user new_password db)
  by_recovery :
      (now : ℕ) (r : Recovery) (new_password : String) (db' : AuthDb)
      → r.user_id ≡ user
      → finish_recovery host now r new_password db ≡ ok db'
      → Ends host user db db'
  by_update :
      (now : ℕ) (updates : Updates) (u : User) (db' : AuthDb)
      → user_at db user ≡ some u
      → (same_role (or_else u.role updates.role) u.role
          && same_flag (or_else u.enabled updates.enabled) u.enabled)
        ≡ false
      → update_auth_user host now user updates db ≡ ok db'
      → Ends host user db db'
  by_restore : (now : ℕ) → Ends host user db (revoke_sessions_after_database_restore now true db)

revoke_of_user-ended :
    (h : String) (now user : ℕ) (sessions : List Session)
    → tally (λ s. is_open h s && not (s.user_id === user)) sessions ≡ 0
    → tally (is_open h) (revoke_of_user now user none sessions) ≡ 0
unfolding revoke_of_user
revoke_of_user-ended h now user [] only = refl
revoke_of_user-ended h now user (s ∷ sessions) only =
    ground (arith, revoke_of_user-ended h now user sessions)

restore-ended :
    (h : String) (now : ℕ) (sessions : List Session)
    → tally (is_open h) (update_where (λ s. is_none s.revoked_at) (revoke_at now) sessions) ≡ 0
restore-ended h now [] = refl
restore-ended h now (s ∷ sessions) = ground (arith, restore-ended h now sessions)

Ends-closed :
    (host : Host) (user : ℕ) (h : String) (db db' : AuthDb)
    → OnlyOf user h db
    → Ends host user db db'
    → tally (is_open h) db'.sessions ≡ 0
unfolding finish_password_change finish_recovery update_auth_user
    revoke_sessions_after_database_restore
Ends-closed host user h db _ only (by_password_change now new_password) =
    ground (arith, revoke_of_user-ended h now user db.sessions)
Ends-closed host user h db _ only (by_recovery now r new_password db' same e) =
    ground (arith, revoke_of_user-ended h now user db.sessions)
Ends-closed host user h db _ only (by_update now updates u db' found changed e) =
    ground (arith, revoke_of_user-ended h now user db.sessions)
Ends-closed host user h db _ only (by_restore now) = restore-ended h now db.sessions

find_active_session-closed :
    (host : Host) (config : SessionConfig) (now : ℕ) (token : String) (db : AuthDb)
    → tally (is_open (host.token_hash token)) db.sessions ≡ 0
    → (find_active_session host config now token db).1 ≡ none
unfolding find_active_session
find_active_session-closed host config now token db closed =
    ground (arith, find_where-none (is_open (host.token_hash token)) db.sessions closed)

-- A token whose open sessions are all of one account is never let in again, at any time, once the
-- password of the account has been changed or recovered, its role or its use has been changed by
-- an administrator, or the database has been restored, whatever steps follow, so long as no new
-- session is given that token.
pub find_active_session-ended :
    (host : Host) (config : SessionConfig) (user now : ℕ) (token : String) (db ended later : AuthDb)
    → OnlyOf user (host.token_hash token) db
    → Ends host user db ended
    → Steps host (λ t. t ≢ host.token_hash token) ended later
    → (find_active_session host config now token later).1 ≡ none
find_active_session-ended host config user now token db ended later only end steps =
    find_active_session-closed host config now token later (
      Steps-preserve host _ (λ d. tally (is_open (host.token_hash token)) d.sessions ≡ 0)
        (λ d d' step closed.
          omega (arith, Step-open host (host.token_hash token) d d' step, closed))
        ended later steps (Ends-closed host user (host.token_hash token) db ended only end))
