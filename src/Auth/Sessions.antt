-- ===== src/Auth/Sessions.antt =====
-- The sessions of app/backend/src/services/authService.js. The two random tokens of a session come
-- with the call.
pub mod Open
pub mod Ended
use red_man.Common.{
  ℕ, suc, ◌+◌, ◌*◌, ◌-◌, String, Bool, true, false, ◌&&◌, ◌||◌, not, Option, none, some, List, [],
  ◌∷◌, ◌++◌, min, leb, nat_beq, tally, find_where, update_where, ◌===◌, if◌then◌else◌,
  String-Comparable, ℕ-Comparable,
}
use red_man.Auth.Store.{
  User, Session, AuthDb, Host, is_none, user_at, audited, revoke_at, revoke_user_sessions,
}

pub record SessionConfig : Type 0 where
  pub session_absolute_hours : ℕ
  pub session_idle_minutes : ℕ

abbrev pub absolute_ms : SessionConfig → ℕ
absolute_ms config = config.session_absolute_hours * 60 * 60 * 1000

abbrev pub idle_ms : SessionConfig → ℕ
idle_ms config = config.session_idle_minutes * 60 * 1000

abbrev pub new_session : Host → SessionConfig → ℕ → String → String → ℕ → ℕ → Session
new_session host config now token csrf_token user id = record {
  id = id;
  user_id = user;
  token_hash = host.token_hash token;
  csrf_token_hash = host.token_hash csrf_token;
  last_seen_at = now;
  idle_expires_at = now + idle_ms config;
  absolute_expires_at = now + absolute_ms config;
  revoked_at = none;
}

unfoldable pub create_session : Host → SessionConfig → ℕ → String → String → ℕ → AuthDb → AuthDb
create_session host config now token csrf_token user db =
    audited "session_created" (some user) (record db {
      sessions =
          db.sessions ++ new_session host config now token csrf_token user db.next_session ∷ [];
      next_session = suc db.next_session;
    })

-- `WHERE token_hash = ? AND revoked_at IS NULL`
abbrev pub is_open : String → Session → Bool
is_open hash s = s.token_hash === hash && is_none s.revoked_at

abbrev pub is_expired : ℕ → Session → Bool
is_expired now s = leb s.idle_expires_at now || leb s.absolute_expires_at now

-- The row with its idle time moved on, if a minute has passed.
unfoldable pub seen : SessionConfig → ℕ → Session → Session
seen config now s =
    if leb 60000 (now - s.last_seen_at)
    then record s {
      last_seen_at = now;
      idle_expires_at = min s.absolute_expires_at (now + idle_ms config);
    }
    else s

-- What is known of a request: its session and its account.
pub record SessionView : Type 0 where
  pub session : Session
  pub user : User

-- A session that was found, with its account.
unfoldable pub check_session :
    SessionConfig → ℕ → Session → User → AuthDb → AuthDb × Option SessionView
unfolding seen
check_session config now s u db =
    if not u.enabled
    then (db, none)
    else if is_expired now s
    then (
      audited "session_expired" (some s.user_id) (record db {
        sessions =
            update_where (λ r. r.id === s.id && is_none r.revoked_at) (revoke_at now) db.sessions;
      }),
      none,
    )
    else (
      record db {
        sessions =
            if leb 60000 (now - s.last_seen_at)
            then update_where (λ r. r.id === s.id)
                (λ r. record r {
                  last_seen_at = now;
                  idle_expires_at = min s.absolute_expires_at (now + idle_ms config);
                })
                db.sessions
            else db.sessions;
      },
      some (record { session = seen config now s; user = u }),
    )

unfoldable pub find_active_session :
    Host → SessionConfig → ℕ → String → AuthDb → AuthDb × Option SessionView
unfolding check_session
find_active_session host config now token db =
    if token === ""
    then (db, none)
    else (elim (find_where (is_open (host.token_hash token)) db.sessions) [
      | none ↦ (db, none)
      | some s ↦ elim (user_at db s.user_id) [
        | none ↦ (db, none)
        | some u ↦ check_session config now s u db
      ]
    ])

-- An absent or empty token is the empty text.
unfoldable pub verify_session_csrf : Host → SessionView → String → String → Bool
verify_session_csrf host view cookie_token header_token =
    ((not (cookie_token === "") && not (header_token === ""))
      && host.token_hash cookie_token === host.token_hash header_token)
    && host.token_hash cookie_token === view.session.csrf_token_hash

unfoldable pub revoke_session : ℕ → ℕ → AuthDb → AuthDb
revoke_session now id db = elim (find_where (λ s. s.id === id) db.sessions) [
  | none ↦ db
  | some s ↦
      let p = λ (r : Session). r.id === id && is_none r.revoked_at in
      let revoked = record db { sessions = update_where p (revoke_at now) db.sessions } in
      if nat_beq (tally p db.sessions) 0
      then revoked
      else audited "session_revoked" (some s.user_id) revoked
]

unfoldable pub revoke_sessions_after_database_restore : ℕ → Bool → AuthDb → AuthDb
revoke_sessions_after_database_restore now restored db =
    if restored
    then audited "database_restore_sessions_revoked" none (record db {
      sessions = update_where (λ s. is_none s.revoked_at) (revoke_at now) db.sessions;
    })
    else db
