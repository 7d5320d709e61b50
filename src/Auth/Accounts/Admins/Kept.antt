-- ===== src/Auth/Accounts/Admins/Kept.antt =====
-- The administrators in the tables of app/backend/src/services/authService.js, operation by operation.
use red_man.Common.{
  ℕ, ◌+◌, ◌≤◌, ◌≡◌, refl, ◌⊎◌, inl, inr, String, Bool, true, false, ◌&&◌, not, Option, none, some,
  [], ◌∷◌, ◌++◌, tally, tally-append, tally-le, tally-update_others, update_where, find_where,
  ◌===◌, String-Comparable, ℕ-Comparable, arith, Option-cases, Bool-cases,
}
use red_man.Common.Results.{Result, ok, err, ◌>>=◌, or_err, unless_err, bind_inv}
use red_man.Auth.Store.{
  Provider, Role, admin, User, AuthDb, Host, AuthError, is_local, user_at, update_user, or_else,
}
use red_man.Auth.Store.{
  invalid_text, invalid_username, user_not_found, last_admin, normalize_optional_text,
  normalize_username,
}
use red_man.Auth.Accounts.Admins.{
  is_local_admin, has_id, Numbered, Administered, insert_user-Administered, update-Administered,
  same-Administered, keep-Administered, kept-Administered,
}
use red_man.Auth.Accounts.{
  new_user, local_row, insert_user, insert_local, bootstrap_admin, create_local_user, Updates,
  with_fields, write_update, may_change, update_auth_user, is_other_admin, ProxyIdentity,
  seen_by_proxy, restored_admin, promote_local_admin_for_recovery,
}
use red_man.Auth.Login.{
  finish_login, record_failure, logged_in, count_failure, is_locked, is_accepted,
}

module _ (host : Host) (db : AuthDb) where
  -- A local account is made: an administrator was there, or it is one.
  insert_local-Administered :
      (username password : String) (role : Role) (display_name email : Option String)
      (event : String) (db' : AuthDb) (id : ℕ)
      → Numbered db
      → (1 ≤ tally is_local_admin db.users) ⊎ (role ≡ admin)
      → insert_local host username password role display_name email event db ≡ ok (db', id)
      → Administered db'
  unfolding insert_local
  insert_local-Administered username password role display_name email event db' id h some_admin e =
      let (display, e₁, r₁) =
        bind_inv (or_err invalid_text (normalize_optional_text host display_name 128)) _ e in
      let (address, e₂, r₂) =
        bind_inv (or_err invalid_text (normalize_optional_text host email 254)) _ r₁ in
      let row = local_row username role display address in
      let ((d, i), e₃, r₃) = bind_inv (insert_user row db) _ r₂ in
      let left : 1 ≤ tally is_local_admin (db.users ++ new_user row db.next_user ∷ []) =
        ground (arith, tally-append is_local_admin db.users (new_user row db.next_user ∷ [])) in
      same-Administered d (insert_user-Administered db h row d i left e₃) db' (ground arith)
        (ground arith)

  pub bootstrap_admin-Administered :
      (token : String) (configured : Option String) (username password : String)
      (display_name email : Option String) (db' : AuthDb) (id : ℕ)
      → Numbered db
      → bootstrap_admin host token configured username password display_name email db ≡ ok (db', id)
      → Administered db'
  unfolding bootstrap_admin
  bootstrap_admin-Administered token configured username password display_name email db' id h e =
      grind (arith, insert_local-Administered)

  pub create_local_user-Administered :
      (username password : String) (role : Role) (display_name email : Option String) (db' : AuthDb)
      (id : ℕ)
      → Administered db
      → create_local_user host username password role display_name email db ≡ ok (db', id)
      → Administered db'
  unfolding create_local_user
  create_local_user-Administered username password role display_name email db' id h e =
      grind (arith, insert_local-Administered)

module _ (host : Host) (db : AuthDb) (h : Administered db) where
  others-Administered :
      (id : ℕ) (f : User → User) (db' : AuthDb)
      → ((u : User) → (f u).id ≡ u.id)
      → 1 ≤ tally (λ u. is_local_admin u && not (u.id === id)) db.users
      → db'.users ≡ update_where (λ u. u.id === id) f db.users
      → db'.next_user ≡ db.next_user
      → Administered db'
  others-Administered id f db' same others users next =
      update-Administered db h.numbered id f db' same users next
        (omega (arith, others, tally-update_others (has_id id) is_local_admin f db.users))

  is_other_admin-local :
      (p : Provider) (id : ℕ)
      → is_local p ≡ true
      → tally (is_other_admin p id) db.users
        ≤ tally (λ u. is_local_admin u && not (u.id === id)) db.users
  is_other_admin-local p id here =
      tally-le (is_other_admin p id) (λ u. is_local_admin u && not (u.id === id)) db.users
        (λ u e. ground arith)

  write_update-Administered :
      (now id : ℕ) (existing : User) (role : Role) (enabled : Bool)
      (display_name email : Option String)
      → user_at db id ≡ some existing
      → may_change id existing role enabled db ≡ true
      → Administered (write_update now id existing role enabled display_name email db)
  write_update-Administered now id existing role enabled display_name email found allowed =
      let f = with_fields role enabled display_name email in
      elim (Bool-cases (is_local_admin existing && not (is_local_admin (f existing)))) [
        | inl lost ↦
            others-Administered id f _ (λ u. refl)
              (ground (arith, is_other_admin-local existing.provider id)) (ground arith)
              (ground arith)
        | inr kept ↦
            keep-Administered db h id f _ existing (λ u. refl) found (λ p. ground arith)
              (ground arith) (ground arith)
      ]

  update_tail :
      (now id : ℕ) (existing : User) (role : Role) (enabled guard : Bool)
      (display address : Result AuthError (Option String)) (db' : AuthDb)
      → (guard ≡ true
          → (d a : Option String) → Administered (write_update now id existing role enabled d a db))
      → (do
        _ ← unless_err last_admin guard
        d ← display
        a ← address
        ok (write_update now id existing role enabled d a db))
        ≡ ok db'
      → Administered db'
  update_tail now id existing role enabled true (ok d) (ok a) db' may e =
      let same : write_update now id existing role enabled d a db ≡ db' = cc in
      rw same at (may refl d a)
  update_tail now id existing role enabled true (ok d) (err f) db' may e = cc
  update_tail now id existing role enabled true (err f) address db' may e = cc
  update_tail now id existing role enabled false display address db' may e = cc

  pub update_auth_user-Administered :
      (now id : ℕ) (updates : Updates) (db' : AuthDb)
      → update_auth_user host now id updates db ≡ ok db'
      → Administered db'
  unfolding update_auth_user
  update_auth_user-Administered now id updates db' e = elim (Option-cases (user_at db id)) [
    | inl missing ↦ cc (rw missing at e)
    | inr (existing, found) ↦
        let role = or_else existing.role updates.role in
        let enabled = or_else existing.enabled updates.enabled in
        update_tail now id existing role enabled _ _ _ db'
          (λ p d a. write_update-Administered now id existing role enabled d a found p)
          (rw found at e)
  ]

  pub promote-Administered :
      (now : ℕ) (username : String) (db' : AuthDb)
      → promote_local_admin_for_recovery host now username db ≡ ok db'
      → Administered db'
  unfolding promote_local_admin_for_recovery
  promote-Administered now username db' e =
      let (name, e₁, r₁) =
        bind_inv (or_err invalid_username (normalize_username host username)) _ e in
      let (u, e₂, r₂) =
        bind_inv
          (or_err user_not_found
            (find_where (λ (u : User). is_local u.provider && u.username === name) db.users))
          _ r₁ in
      kept-Administered db h u.id restored_admin db' (λ v. refl) (λ v p. ground arith)
        (ground arith) (ground arith)

  pub seen-Administered :
      (now : ℕ) (identity : ProxyIdentity) (id : ℕ)
      → Administered (update_user id (seen_by_proxy now identity) db)
  seen-Administered now identity id =
      kept-Administered db h id (seen_by_proxy now identity) _ (λ u. refl) (λ u p. p) refl refl

  record_failure-Administered : (now id : ℕ) → Administered (record_failure now id db)
  unfolding record_failure count_failure
  record_failure-Administered now id = elim (Option-cases (user_at db id)) [
    | inl missing ↦ rw (missing, record_failure) h
    | inr (u, found) ↦ elim (Bool-cases (is_locked now u)) [
      | inl lock ↦ rw (found, record_failure) (rw lock h)
      | inr free ↦
          rw (found, record_failure)
            (rw free (
              kept-Administered db h id (count_failure now (u.failed_attempts + 1)) _ (λ v. refl)
                (λ v p. p) refl refl))
    ]
  ]

  pub finish_login-Administered :
      (now : ℕ) (row : Option User) (hash password : String)
      → Administered (finish_login host now (record { row = row; hash = hash }) password db).0
  unfolding finish_login
  finish_login-Administered now none hash password = same-Administered db h _ refl refl
  finish_login-Administered now (some u) hash password =
      elim (Bool-cases (is_accepted host now (record { row = some u; hash = hash }) password)) [
        | inl accepted ↦
            rw accepted
              (kept-Administered db h u.id (logged_in now) _ (λ v. refl) (λ v p. p) refl refl)
        | inr refused ↦ rw refused (
            same-Administered (record_failure now u.id db) (record_failure-Administered now u.id) _
              refl refl)
      ]
