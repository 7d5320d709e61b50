-- ===== src/Auth/Login/Throttle.antt =====
-- What a lock does to the logins of app/backend/src/services/authService.js.
mod Bounds
use red_man.Common.{
  ℕ, zero, suc, ◌+◌, ◌*◌, ◌-◌, ◌^◌, ◌≤◌, ◌≡◌, refl, sym, ap, ◌∙◌, inl, inr, String, true, false,
  ◌&&◌, none, some, find_where-update_where, ◌===◌, if◌then◌else◌, String-Comparable, ℕ-Comparable,
  arith, Bool-cases,
}
use red_man.Auth.Store.{User, AuthDb, Host, is_local, or_else, user_at, normalize_username}
use red_man.Auth.Login.{
  local_user, begin_login, is_locked, lock_seconds, count_failure, record_failure, is_accepted,
  finish_login, authenticate_local_user,
}
use red_man.Auth.Login.Throttle.Bounds.{Bounded, count_failure-Bounded}

abbrev pub name_of : Host → String → String
name_of host username = or_else (host.fold username) (normalize_username host username)

-- An account that is found by its name and by its id.
abbrev pub IsAccount : AuthDb → String → User → Type 0
IsAccount db name u = (local_user db name ≡ some u) × (user_at db u.id ≡ some u)

-- How many guesses have been tried, with one more where the account is open.
abbrev pub guessed : ℕ → User → ℕ → ℕ
guessed now u tried = if is_locked now u then tried else tried + 1

-- Logins by one name that are all refused, at times that do not go back, with nothing between them
-- that changes the accounts. The last number counts those that found the account open.
pub data Guesses (host : Host) (username : String) (first : AuthDb) (start : ℕ)
    : AuthDb → ℕ → ℕ → Type 0 where
  none_yet : Guesses host username first start first start 0
  guess :
      (last now tried tried' : ℕ) (db db' : AuthDb) (u : User) (password : String)
      → Guesses host username first start db last tried
      → last ≤ now
      → local_user db (name_of host username) ≡ some u
      → tried' ≡ guessed now u tried
      → authenticate_local_user host now username password db ≡ (db', none)
      → Guesses host username first start db' now tried'
  elsewhere :
      (last tried : ℕ) (db db' : AuthDb)
      → Guesses host username first start db last tried
      → db'.users ≡ db.users
      → Guesses host username first start db' last tried

finish_refused :
    (host : Host) (now : ℕ) (password hash : String) (db db' : AuthDb) (u : User)
    → finish_login host now (record { row = some u; hash = hash }) password db ≡ (db', none)
    → db'.users ≡ (record_failure now u.id db).users
unfolding finish_login
finish_refused host now password hash db db' u h = ground arith

refused :
    (host : Host) (now : ℕ) (username password : String) (db db' : AuthDb) (u : User)
    → local_user db (name_of host username) ≡ some u
    → authenticate_local_user host now username password db ≡ (db', none)
    → db'.users ≡ (record_failure now u.id db).users
unfolding authenticate_local_user begin_login
refused host now username password db db' u found h =
    finish_refused host now password _ db db' u (rw (found, begin_login) at h)

module _ (now : ℕ) (name : String) (db : AuthDb) (u : User) (account : IsAccount db name u) where
  record_failure-locked : is_locked now u ≡ true → record_failure now u.id db ≡ db
  unfolding record_failure
  record_failure-locked lock = rw (account.1, record_failure) (rw lock refl)

  record_failure-IsAccount :
      is_locked now u ≡ false
      → IsAccount (record_failure now u.id db) name (count_failure now (u.failed_attempts + 1) u)
  unfolding record_failure count_failure
  record_failure-IsAccount free = (
    ground (
      arith,
      account,
      find_where-update_where (λ (v : User). v.id === u.id)
          (λ (v : User). is_local v.provider && v.username === name)
          (count_failure now (u.failed_attempts + 1)) db.users (λ v. refl),
    ),
    ground (
      arith,
      account,
      find_where-update_where (λ (v : User). v.id === u.id) (λ (v : User). v.id === u.id)
          (count_failure now (u.failed_attempts + 1)) db.users (λ v. refl),
    ),
  )

-- An account as it stands after a number of guesses.
abbrev Stands : ℕ → ℕ → ℕ → String → AuthDb → Type 0
Stands start now tried name db =
    (u : User) × IsAccount db name u × (u.failed_attempts ≡ tried) × Bounded start now u

record_failure-Stands :
    (start last now tried : ℕ) (name : String) (db : AuthDb) (u : User)
    → IsAccount db name u
    → u.failed_attempts ≡ tried
    → Bounded start last u
    → last ≤ now
    → Stands start now (guessed now u tried) name (record_failure now u.id db)
record_failure-Stands start last now tried name db u account count bounds later =
    elim (Bool-cases (is_locked now u)) [
      | inl lock ↦ (
        u,
        rw (record_failure-locked now name db u account lock) account,
        rw lock count,
        record {
          begun = omega (arith, bounds.begun);
          five = bounds.five;
          ten = bounds.ten;
          half_minutes = omega (arith, bounds.half_minutes);
          quarters = omega (arith, bounds.quarters);
        },
      )
      | inr free ↦ (
        count_failure now (u.failed_attempts + 1) u,
        record_failure-IsAccount now name db u account free,
        unfold count_failure in rw free (omega (arith, count)),
        count_failure-Bounded start last now u bounds later free,
      )
    ]

same_users :
    (db db' : AuthDb) (name : String) (u : User)
    → db'.users ≡ db.users
    → IsAccount db name u
    → IsAccount db' name u
same_users db db' name u e (a, b) = (rw e a, rw e b)

module _ (host : Host) (username : String) (first : AuthDb) (start : ℕ) (u : User)
    (account : IsAccount first (name_of host username) u) (fresh : u.failed_attempts ≡ 0) where
  Guesses-Stands :
      (db : AuthDb) (now tried : ℕ)
      → Guesses host username first start db now tried
      → Stands start now tried (name_of host username) db
  Guesses-Stands _ _ _ none_yet = (
    u,
    account,
    fresh,
    record {
      begun = omega arith;
      five = ground arith;
      ten = ground arith;
      half_minutes = omega (arith, fresh);
      quarters = omega (arith, fresh);
    },
  )
  Guesses-Stands _ _ _
        (guess last now tried tried' db db' v password before later found more result) =
      let name : String = name_of host username in
      let (v', at, count, bounds) = Guesses-Stands db last tried before in
      let (w, at', count', bounds') =
        record_failure-Stands start last now tried name db v' at count bounds later in
      let same : v' ≡ v = cc in
      (
        w,
        same_users (record_failure now v'.id db) db' name w
            (refused host now username password db db' v' (at.0) result) at',
        rw same at count' ∙ sym more,
        bounds',
      )
  Guesses-Stands _ _ _ (elsewhere last tried db db' before same) =
      let (v, at, count, bounds) = Guesses-Stands db last tried before in
      (v, same_users db db' (name_of host username) v same at, count, bounds)

  -- An account with no failed login is guessed at, one login after the other, at times that do not
  -- go back. However many the logins are, those that found the account open, and so had their
  -- password checked, are at most 5 and one for each half minute since the start, and at most 10
  -- and one for each quarter of an hour.
  pub authenticate_local_user-Guesses :
      (db : AuthDb) (now tried : ℕ)
      → Guesses host username first start db now tried
      → (30000 * (tried - 5) ≤ now - start) × (900000 * (tried - 10) ≤ now - start)
  authenticate_local_user-Guesses db now tried guesses =
      let (v, at, count, bounds) = Guesses-Stands db now tried guesses in
      (omega (arith, bounds.half_minutes, count), omega (arith, bounds.quarters, count))
