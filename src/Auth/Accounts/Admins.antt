-- ===== src/Auth/Accounts/Admins.antt =====
-- The administrators that the tables of app/backend/src/services/authService.js hold.
pub mod Kept
pub mod Proxies
pub mod Always
use red_man.Common.{
  ℕ, suc, ◌+◌, ◌≤◌, ◌<◌, ◌≡◌, refl, ◌⊎◌, inl, inr, String, Bool, true, false, ◌&&◌, ◌||◌, not,
  Option, none, some, List, [], ◌∷◌, ◌++◌, any, ltb, nat_beq, tally, tally-append, tally-le,
  update_where-none, tally-update_one, tally-update_others, tally-update_same, tally-update_kept,
  find_where-single, update_where, find_where, find_where-none, find_where_inv, ◌===◌,
  if◌then◌else◌, String-Comparable, ℕ-Comparable, arith, Option-cases, Bool-cases,
}
use red_man.Common.Results.{Result, ok, err, ◌>>=◌, or_err, unless_err, bind_inv, or_err_inv}
use red_man.Auth.Store.{
  Provider, Role, admin, User, AuthDb, Host, AuthError, is_local, is_admin, same_provider, user_at,
  audited, update_user, or_else,
}
use red_man.Auth.Store.{
  not_provisioned, invalid_text, invalid_username, user_not_found, last_admin,
  normalize_optional_text, normalize_username, proxy, revoke_user_sessions,
}
use red_man.Auth.Accounts.{
  NewUser, new_user, local_row, proxy_row, insert_user, insert_local, bootstrap_admin,
  create_local_user, Updates, with_fields, write_update, may_change, update_auth_user,
  is_other_admin, updated_text, same_flag, ProxyIdentity, provision_missing, proxy_user,
  seen_by_proxy, set_by_host, has_subject, coalesce, resolve_proxy_account, restored_admin,
  promote_local_admin_for_recovery, provision_proxy_account,
}
use red_man.Auth.Login.{
  Pending, finish_login, record_failure, logged_in, count_failure, is_locked, is_accepted,
}

abbrev pub is_local_admin : User → Bool
is_local_admin u = (is_local u.provider && is_admin u.role) && u.enabled

abbrev pub has_id : ℕ → User → Bool
has_id id u = u.id === id

-- The users have ids of their own, below the next one.
pub record Numbered (db : AuthDb) : Type 0 where
  pub single : (id : ℕ) → tally (λ u. u.id === id) db.users ≤ 1
  pub unused : (id : ℕ) → db.next_user ≤ id → tally (λ u. u.id === id) db.users ≡ 0

-- A local administrator can log in.
pub record Administered (db : AuthDb) : Type 0 where
  pub administrator : 1 ≤ tally is_local_admin db.users
  pub numbered : Numbered db

module _ (db : AuthDb) (h : Numbered db) where
  pub insert_user-Administered :
      (n : NewUser) (db' : AuthDb) (id : ℕ)
      → 1 ≤ tally is_local_admin (db.users ++ new_user n db.next_user ∷ [])
      → insert_user n db ≡ ok (db', id)
      → Administered db'
  unfolding insert_user
  insert_user-Administered n db' id left e =
      let row : List User = new_user n db.next_user ∷ [] in
      let users : db'.users ≡ db.users ++ row = ground arith in
      let next : db'.next_user ≡ suc db.next_user = ground arith in
      record {
        administrator = rw users left;
        numbered = record {
          single = λ i.
              rw users
                (ground (arith, h.single i, h.unused i, tally-append (has_id i) db.users row));
          unused = λ i above.
              rw users (ground (arith, h.unused i, tally-append (has_id i) db.users row));
        };
      }

  pub update-Administered :
      (id : ℕ) (f : User → User) (db' : AuthDb)
      → ((u : User) → (f u).id ≡ u.id)
      → db'.users ≡ update_where (λ u. u.id === id) f db.users
      → db'.next_user ≡ db.next_user
      → 1 ≤ tally is_local_admin (update_where (λ u. u.id === id) f db.users)
      → Administered db'
  update-Administered id f db' same users next left = record {
    administrator = rw users left;
    numbered = record {
      single = λ i. rw users (ground (arith, h.single i, ids i));
      unused = λ i above. rw users (ground (arith, h.unused i, ids i));
    };
  }
    where
      ids :
          (i : ℕ)
          → tally (has_id i) (update_where (has_id id) f db.users) ≡ tally (has_id i) db.users
      ids i = tally-update_same (has_id id) (has_id i) f db.users (λ u. rw (same u) refl)

module _ (db : AuthDb) (h : Administered db) where
  pub same-Administered :
      (db' : AuthDb) → db'.users ≡ db.users → db'.next_user ≡ db.next_user → Administered db'
  same-Administered db' e e' = record {
    administrator = rw e h.administrator;
    numbered = record {
      single = λ id. rw e (h.numbered.single id);
      unused = λ id above. rw e (h.numbered.unused id (rw e' at above));
    };
  }

  -- A change of one row that leaves an administrator one.
  pub keep-Administered :
      (id : ℕ) (f : User → User) (db' : AuthDb) (u : User)
      → ((u : User) → (f u).id ≡ u.id)
      → user_at db id ≡ some u
      → (is_local_admin u ≡ true → is_local_admin (f u) ≡ true)
      → db'.users ≡ update_where (λ u. u.id === id) f db.users
      → db'.next_user ≡ db.next_user
      → Administered db'
  keep-Administered id f db' u same found keep users next =
      update-Administered db h.numbered id f db' same users next (
        omega (
          arith,
          h.administrator,
          tally-update_one (has_id id) is_local_admin f db.users u (h.numbered.single id) found
              keep,
        ))

  -- A change of rows that leaves every administrator one.
  pub kept-Administered :
      (id : ℕ) (f : User → User) (db' : AuthDb)
      → ((u : User) → (f u).id ≡ u.id)
      → ((u : User) → is_local_admin u ≡ true → is_local_admin (f u) ≡ true)
      → db'.users ≡ update_where (λ u. u.id === id) f db.users
      → db'.next_user ≡ db.next_user
      → Administered db'
  kept-Administered id f db' same keep users next =
      update-Administered db h.numbered id f db' same users next (
        omega
          (arith, h.administrator, tally-update_kept (has_id id) is_local_admin f db.users keep))
