-- ===== src/Auth/Accounts/Admins/Proxies.antt =====
-- The administrators where a proxy brings its accounts to app/backend/src/services/authService.js.
use red_man.Common.{
  ℕ, ◌≡◌, refl, inl, inr, Option, none, some, [], ◌∷◌, tally-append, find_where-single,
  update_where, find_where_inv, ◌===◌, String-Comparable, ℕ-Comparable, arith, Option-cases,
}
use red_man.Common.Results.{ok, ◌>>=◌, or_err, bind_inv}
use red_man.Auth.Store.{Role, User, AuthDb}
use red_man.Auth.Store.{not_provisioned, proxy}
use red_man.Auth.Accounts.Admins.{
  is_local_admin, has_id, Administered, insert_user-Administered, same-Administered,
  keep-Administered, kept-Administered,
}
use red_man.Auth.Accounts.{
  new_user, proxy_row, insert_user, ProxyIdentity, provision_missing, proxy_user, seen_by_proxy,
  set_by_host, has_subject, resolve_proxy_account, provision_proxy_account,
}
use red_man.Auth.Login.{}

module _ (db : AuthDb) (h : Administered db) (now : ℕ) (identity : ProxyIdentity) where
  provision_missing-Administered :
      (role : Role) (db' : AuthDb) (u : User)
      → provision_missing now identity role db ≡ ok (db', u)
      → Administered db'
  unfolding provision_missing
  provision_missing-Administered role db' u e =
      let ((d, i), e₁, r₁) = bind_inv (insert_user (proxy_row now identity role db) db) _ e in
      same-Administered d
        (insert_user-Administered db h.numbered (proxy_row now identity role db) d i
          (omega (
            arith,
            h.administrator,
            tally-append is_local_admin db.users
                (new_user (proxy_row now identity role db) db.next_user ∷ []),
          ))
          e₁)
        db' (ground arith) (ground arith)

  found_or_made-Administered :
      (role : Option Role) (row : Option User) (d : AuthDb) (u : User)
      → (elim row [
        | some u ↦ ok (db, u)
        | none ↦ (do r ← or_err not_provisioned role; provision_missing now identity r db)
      ])
        ≡ ok (d, u)
      → Administered d
  found_or_made-Administered none none d u e = cc
  found_or_made-Administered (some r) none d u e = provision_missing-Administered r d u e
  found_or_made-Administered role (some v) d u e = let same : db ≡ d = cc in rw same at h

  pub resolve_proxy_account-Administered :
      (role : Option Role) (db' : AuthDb) (u : User)
      → resolve_proxy_account now identity role db ≡ ok (db', u)
      → Administered db'
  unfolding resolve_proxy_account
  resolve_proxy_account-Administered role db' u e =
      let ((d, row), e₁, r₁) =
        bind_inv
          (elim (proxy_user db identity.subject) [
            | some u ↦ ok (db, u)
            | none ↦ (do r ← or_err not_provisioned role; provision_missing now identity r db)
          ])
          _ e in
      let d-Administered : Administered d =
        found_or_made-Administered role (proxy_user db identity.subject) d row e₁ in
      kept-Administered d d-Administered row.id (seen_by_proxy now identity) db' (λ v. refl)
        (λ v p. p) (ground arith) (ground arith)

  host_set-Administered :
      (role : Role) (u : User) (db' : AuthDb)
      → proxy_user db identity.subject ≡ some u
      → db'.users ≡ update_where (λ v. v.id === u.id) (set_by_host role identity) db.users
      → db'.next_user ≡ db.next_user
      → Administered db'
  host_set-Administered role u db' found users next =
      let remote = find_where_inv (has_subject proxy identity.subject) db.users u found in
      keep-Administered db h u.id (set_by_host role identity) db' u (λ v. refl)
        (find_where-single (has_id u.id) (has_subject proxy identity.subject) db.users u
          (h.numbered.single u.id) found (ground arith))
        (λ p. ground arith) users next

  pub provision_proxy_account-Administered :
      (role : Role) (db' : AuthDb)
      → provision_proxy_account now identity role db ≡ ok db'
      → Administered db'
  unfolding provision_proxy_account
  provision_proxy_account-Administered role db' e =
      elim (Option-cases (proxy_user db identity.subject)) [
        | inl missing ↦
            let ((d, u), e₁, r₁) =
              bind_inv (resolve_proxy_account now identity (some role) db) _
                (rw (missing, provision_proxy_account) at e) in
            let same : d ≡ db' = cc in
            rw same at (resolve_proxy_account-Administered (some role) d u e₁)
        | inr (u, found) ↦ host_set-Administered role u db' found (ground arith) (ground arith)
      ]
