-- ===== src/Auth/Permissions/Table/Unambiguous.antt =====
-- The order of the table of app/backend/src/services/routePermissions.js.
use red_man.Common.{
  ℕ, zero, suc, ◌≡◌, refl, ap, inl, inr, String, Bool, true, false, ◌&&◌, ◌||◌, not, some, List, [],
  ◌∷◌, any, arith, ◌===◌, String-Comparable, Bool-cases, get_elem?,
}
use text.Mathlib.TextEquality.{eq_iff}
use red_man.Common.Dict
use red_man.Auth.Permissions.{
  Piece, Policy, policy, fits, fits_path, permits, permission_of, find_permission, normalized_path,
}
use red_man.Auth.Permissions.Table.{api_route_policies, get_route_permission}
use red_man.Auth.Permissions.Table.Overlap.{overlap, overlap_lem, any-has, and_inv}

overlap_any : Bool → List (List Piece) → Bool → List (List Piece) → Bool
overlap_any slash ps slash' qs = any (λ p. any (λ q. overlap slash p slash' q) qs) ps

-- Two entries that may match one request and ask for different permissions.
clash : Policy → Policy → Bool
clash (policy ms slash ps perm) (policy ms' slash' qs perm') =
    any (λ m. Dict.has ms' m) ms && overlap_any slash ps slash' qs && not (perm === perm')

clashes : Policy → List Policy → Bool
clashes e [] = false
clashes e (f ∷ table) = clash e f || clashes e table

consistent : List Policy → Bool
consistent [] = true
consistent (e ∷ table) = not (clashes e table) && consistent table

api_route_policies-consistent : consistent api_route_policies ≡ true
unfolding consistent clashes clash overlap_any fits
api_route_policies-consistent = refl

any_of_member :
    (path : List String) (slash slash' : Bool) (p : List Piece) (qs : List (List Piece))
    → fits_path slash p path ≡ true
    → any (λ q. fits_path slash' q path) qs ≡ true
    → any (λ q. overlap slash p slash' q) qs ≡ true
any_of_member path slash slash' p [] h g = g
any_of_member path slash slash' p (q ∷ qs) h g = elim (Bool-cases (fits_path slash' q path)) [
  | inl fit ↦ rw (overlap_lem slash p slash' q path h fit) refl
  | inr other ↦ ground (arith, any_of_member path slash slash' p qs h)
]

overlap_any_lem :
    (path : List String) (slash slash' : Bool) (ps qs : List (List Piece))
    → any (λ p. fits_path slash p path) ps ≡ true
    → any (λ q. fits_path slash' q path) qs ≡ true
    → overlap_any slash ps slash' qs ≡ true
unfolding overlap_any
overlap_any_lem path slash slash' [] qs h g = h
overlap_any_lem path slash slash' (p ∷ ps) qs h g = elim (Bool-cases (fits_path slash p path)) [
  | inl fit ↦ rw (any_of_member path slash slash' p qs fit g) refl
  | inr other ↦ ground (arith, overlap_any_lem path slash slash' ps qs)
]

-- Two entries that permit one request and do not clash ask for one permission.
not_clash :
    (e f : Policy) (method : String) (path : List String)
    → clash e f ≡ false
    → permits e method path ≡ true
    → permits f method path ≡ true
    → permission_of e ≡ permission_of f
unfolding clash permits
not_clash (policy ms slash ps perm) (policy ms' slash' qs perm') method path apart h g =
    let (a, b) = and_inv (Dict.has ms method) (any (λ p. fits_path slash p path) ps) h in
    let (c, d) = and_inv (Dict.has ms' method) (any (λ p. fits_path slash' p path) qs) g in
    let shared : any (λ m. Dict.has ms' m) ms ≡ true =
      any-has (λ m. Dict.has ms' m) ms method a c in
    let over : overlap_any slash ps slash' qs ≡ true =
      overlap_any_lem path slash slash' ps qs b d in
    (eq_iff perm perm').0 (ground arith)

clashes_lem :
    (e : Policy) (table : List Policy) (i : ℕ) (f : Policy)
    → clashes e table ≡ false
    → get_elem? table i ≡ some f
    → clash e f ≡ false
unfolding clashes
clashes_lem e [] i f h at = cc
clashes_lem e (g ∷ table) zero f h at =
    let same : g ≡ f = cc in let apart : clash e g ≡ false = ground arith in rw same at apart
clashes_lem e (g ∷ table) (suc i) f h at = clashes_lem e table i f (ground arith) at

find_permission_lem :
    (table : List Policy) (i : ℕ) (e : Policy) (method : String) (path : List String)
    → consistent table ≡ true
    → get_elem? table i ≡ some e
    → permits e method path ≡ true
    → find_permission table method path ≡ some (permission_of e)
unfolding consistent find_permission
find_permission_lem [] i e method path ok at h = cc
find_permission_lem (f ∷ table) zero e method path ok at h =
    let same : f ≡ e = cc in rw (same, h) refl
find_permission_lem (f ∷ table) (suc i) e method path ok at h =
    let (a, b) = and_inv (not (clashes f table)) (consistent table) ok in
    elim (Bool-cases (permits f method path)) [
      | inl first ↦
          rw first (
            ap some (not_clash f e method path (clashes_lem f table i e (ground arith) at) first h))
      | inr other ↦ rw other (find_permission_lem table i e method path b at h)
    ]

-- Every entry of the table that matches a request asks for the permission that the first match
-- asks for: the order of the table decides nothing.
pub get_route_permission_lem :
    (i : ℕ) (e : Policy) (method : String) (path : List String)
    → get_elem? api_route_policies i ≡ some e
    → permits e method (normalized_path path) ≡ true
    → get_route_permission method path ≡ some (permission_of e)
unfolding get_route_permission
get_route_permission_lem i e method path at h =
    find_permission_lem api_route_policies i e method (normalized_path path)
      api_route_policies-consistent at h
