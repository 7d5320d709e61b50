-- ===== src/Auth/Permissions/Table/Viewer.antt =====
-- What app/backend/src/services/routePermissions.js lets a viewer do.
use red_man.Common.{
  ◌≡◌, refl, sym, ◌⊎◌, inl, inr, String, Bool, true, false, ◌&&◌, ◌||◌, not, Option, none, some,
  List, [], ◌∷◌, ◌++◌, any, arith, ◌===◌, if◌then◌else◌, String-Comparable, ◌≢◌, Bool-cases,
  Option-cases, eq_cases, All,
}
use text.Mathlib.TextEquality.{eq_iff}
use red_man.Common.Dict
use red_man.Auth.Permissions.{
  word, words, Policy, policy, get, post, anyone, read, account_self, fits_path, permits,
  Permission, permission_of, find_permission, normalized_path, Role, admin, viewer, passed,
  insufficient,
}
use red_man.Auth.Permissions.Backups.{auth_policies, backup_policies}
use red_man.Auth.Permissions.Services.{service_policies}
use red_man.Auth.Permissions.Table.{
  role_allows, api_route_policies, get_route_permission, authorize_api_route,
}
use red_man.Auth.Permissions.Table.Overlap.{and_inv}

-- An entry that a viewer passes only with GET, or not at all.
is_harmless : Policy → Bool
is_harmless (policy methods slash patterns permission) =
    not (Dict.has (anyone ∷ read ∷ account_self ∷ []) permission)
    || not (any (λ m. not (m === get)) methods)

all_harmless : List Policy → Bool
all_harmless [] = true
all_harmless (e ∷ table) = is_harmless e && all_harmless table

-- What a viewer may do beside reading: get in, get out, and change the own password.
abbrev pub account_calls : List String
account_calls = "bootstrap" ∷ "login" ∷ "recover" ∷ "logout" ∷ "password" ∷ []

abbrev pub IsAccountCall : String → List String → Type 0
IsAccountCall method path =
    (call : String) × (method ≡ post)
    × (path ≡ "auth" ∷ call ∷ [])
    × (Dict.has account_calls call ≡ true)

only_get :
    (methods : List String) (m : String)
    → any (λ m. not (m === get)) methods ≡ false
    → Dict.has methods m ≡ true
    → m ≡ get
only_get [] m h g = cc
only_get (n ∷ methods) m h g = elim (eq_cases n m) [
  | inl same ↦ rw same at ((eq_iff n get).0 (ground arith))
  | inr other ↦ only_get methods m (ground arith) (ground (arith, eq_iff n m))
]

module _ (method : String) (path : List String) where
  -- The answer of an entry: a viewer has no use of it, or reads by it, or calls its account.
  abbrev Answer : Permission → Type 0
  Answer permission =
      Dict.has (anyone ∷ read ∷ account_self ∷ []) permission ≡ true
      → (method ≡ get) ⊎ IsAccountCall method path

  harmless-Answer :
      (e : Policy) → is_harmless e ≡ true → permits e method path ≡ true → Answer (permission_of e)
  unfolding is_harmless permits
  harmless-Answer (policy methods slash patterns permission) ok h open_ =
      let (a, b) =
        and_inv (Dict.has methods method) (any (λ p. fits_path slash p path) patterns) h in
      inl (only_get methods method (ground arith) a)

  abbrev Answers : Policy → Type 0
  Answers e = permits e method path ≡ true → Answer (permission_of e)

  find_permission-Answer :
      (table : List Policy) (permission : Permission)
      → All Answers table
      → find_permission table method path ≡ some permission
      → Answer permission
  unfolding find_permission
  find_permission-Answer [] permission all found = cc
  find_permission-Answer (e ∷ table) permission (this, all) found =
      elim (Bool-cases (permits e method path)) [
        | inl first ↦
            let same : permission_of e ≡ permission = ground arith in rw same at (this first)
        | inr other ↦ find_permission-Answer table permission all (ground arith)
      ]

  harmless-Answers : (table : List Policy) → all_harmless table ≡ true → All Answers table
  unfolding all_harmless
  harmless-Answers [] ok = tt
  harmless-Answers (e ∷ table) ok =
      let (a, b) = and_inv (is_harmless e) (all_harmless table) ok in
      (harmless-Answer e a, harmless-Answers table b)

  append-Answers : (xs ys : List Policy) → All Answers xs → All Answers ys → All Answers (xs ++ ys)
  append-Answers [] ys h g = g
  append-Answers (x ∷ xs) ys (this, h) g = (this, append-Answers xs ys h g)

  -- The path of a pattern of two words.
  two_words :
      (v : String) (ws : List String)
      → any (λ p. fits_path false p path) ((word v ∷ words ws ∷ []) ∷ []) ≡ true
      → (s : String) × (path ≡ v ∷ s ∷ []) × (Dict.has ws s ≡ true)
  unfolding fits_path
  two_words v ws h = two_segments path h
    where
      two_segments :
          (p : List String)
          → (fits_path false (word v ∷ words ws ∷ []) p || false) ≡ true
          → (s : String) × (p ≡ v ∷ s ∷ []) × (Dict.has ws s ≡ true)
      two_segments [] h = cc
      two_segments (s ∷ []) h = ground arith
      two_segments (s ∷ t ∷ []) h =
          let a : (v === s) ≡ true = ground arith in
          let b : Dict.has ws t ≡ true = ground arith in (t, rw ((eq_iff v s).0 a) refl, b)
      two_segments (s ∷ t ∷ u ∷ p) h = ground arith

  account-Answer :
      (permission : Permission) (ws : List String)
      → ((s : String) → Dict.has ws s ≡ true → Dict.has account_calls s ≡ true)
      → Answers (policy (post ∷ []) false ((word "auth" ∷ words ws ∷ []) ∷ []) permission)
  unfolding permits
  account-Answer permission ws all h allowed =
      let (a, b) =
        and_inv (Dict.has (post ∷ []) method)
          (any (λ p. fits_path false p path) ((word "auth" ∷ words ws ∷ []) ∷ [])) h in
      let (s, e, g) = two_words "auth" ws b in
      inr (s, sym ((eq_iff post method).0 (ground arith)), e, all s g)

rest_harmless : all_harmless (backup_policies ++ service_policies) ≡ true
unfolding all_harmless is_harmless
rest_harmless = refl

module _ (method : String) (path : List String) where
  table-Answers : All (Answers method path) api_route_policies
  unfolding is_harmless
  table-Answers =
      append-Answers method path auth_policies (backup_policies ++ service_policies)
        (
          harmless-Answer method path _ refl,
          (
            account-Answer method path anyone ("bootstrap" ∷ "login" ∷ "recover" ∷ [])
                (λ s h. ground arith),
            (
              harmless-Answer method path _ refl,
              (
                account-Answer method path account_self ("logout" ∷ "password" ∷ [])
                    (λ s h. ground arith),
                tt,
              ),
            ),
          ),
        )
        (harmless-Answers method path (backup_policies ++ service_policies) rest_harmless)

-- A request that is let through for a viewer, or for nobody, reads, or else posts to the account
-- calls: bootstrap, login, recover, logout and password.
pub authorize_api_route_viewer :
    (role : Option Role) (method : String) (path : List String)
    → role ≢ some admin
    → authorize_api_route role method path ≡ passed
    → (method ≡ get) ⊎ IsAccountCall method (normalized_path path)
unfolding authorize_api_route get_route_permission
authorize_api_route_viewer role method path other h =
    elim (Option-cases (get_route_permission method path)) [
      | inl missing ↦ cc (rw (missing, authorize_api_route) at h)
      | inr (permission, found) ↦
          find_permission-Answer method (normalized_path path) api_route_policies permission
            (table-Answers method (normalized_path path)) found
            (allowed role other permission (rw (found, authorize_api_route) at h))
    ]
  where
    allowed :
        (role : Option Role)
        → role ≢ some admin
        → (permission : Permission)
        → (if permission === anyone || role_allows role permission then passed else insufficient)
          ≡ passed
        → Dict.has (anyone ∷ read ∷ account_self ∷ []) permission ≡ true
    allowed none other permission h =
        ground (arith, eq_iff permission anyone, eq_iff anyone permission)
    allowed (some admin) other permission h = absurd (other refl)
    allowed (some viewer) other permission h =
        ground (arith, eq_iff permission anyone, eq_iff anyone permission)
