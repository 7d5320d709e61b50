-- ===== src/Addresses/Forwarded.antt =====
-- What a client can do to the address that app/backend/src/middleware/auth.js takes for its own.
use red_man.Common.{
  ℕ, ◌≡◌, refl, sym, ap, ◌∙◌, ◌⊎◌, inl, inr, Bool, false, some, List, [], ◌∷◌, ◌++◌, select,
  nat_beq, arith, Bool-cases,
}
use red_man.Addresses.{
  split_at, with_code, trimmed, last_untrusted, is_given, forwarded, get_auth_client_ip,
}

-- A text is split to one part at least.
split_parts : (c : ℕ) (s : List ℕ) → (w : List ℕ) × (ws : List (List ℕ)) × (split_at c s ≡ w ∷ ws)
unfolding split_at
split_parts c [] = ([], [], refl)
split_parts c (d ∷ s) = elim (Bool-cases (nat_beq d c)) [
  | inl here ↦ ([], split_at c s, rw here refl)
  | inr other ↦ let (w, ws, e) = split_parts c s in (d ∷ w, ws, rw other (rw e refl))
]

split_at-append : (c : ℕ) (s t : List ℕ) → split_at c (s ++ c ∷ t) ≡ split_at c s ++ split_at c t
unfolding split_at
split_at-append c [] t = ground arith
split_at-append c (d ∷ s) t = elim (Bool-cases (nat_beq d c)) [
  | inl here ↦ rw here (ap (λ (ws : List (List ℕ)). [] ∷ ws) (split_at-append c s t))
  | inr other ↦
      let (w, ws, e) = split_parts c s in
      rw other (ap (with_code d) (split_at-append c s t) ∙ rw e refl)
]

module _ (trim : List ℕ → List ℕ) (trusted : List ℕ → Bool) where
  trimmed-append :
      (xs ys : List (List ℕ)) → trimmed trim (xs ++ ys) ≡ trimmed trim xs ++ trimmed trim ys
  trimmed-append [] ys = refl
  trimmed-append (x ∷ xs) ys = ap (λ (ws : List (List ℕ)). trim x ∷ ws) (trimmed-append xs ys)

  select-append :
      (xs ys : List (List ℕ))
      → select is_given (xs ++ ys) ≡ select is_given xs ++ select is_given ys
  select-append [] ys = refl
  select-append (x ∷ xs) ys = ground (arith, select-append xs ys)

  last_untrusted-append :
      (xs ys : List (List ℕ)) (ip : List ℕ)
      → last_untrusted trusted ys ≡ some ip
      → last_untrusted trusted (xs ++ ys) ≡ some ip
  last_untrusted-append [] ys ip e = e
  last_untrusted-append (x ∷ xs) ys ip e = rw (last_untrusted-append xs ys ip e) refl

  forwarded-append :
      (forged header : List ℕ)
      → forwarded trim (forged ++ b',' ∷ header) ≡ forwarded trim forged ++ forwarded trim header
  unfolding forwarded
  forwarded-append forged header = rw (split_at-append b',' forged header) (
      rw (trimmed-append (split_at b',' forged) (split_at b',' header))
        (select-append (trimmed trim (split_at b',' forged)) (trimmed trim (split_at b',' header))))

  -- Whatever a client sends as the front of the header of addresses, the address that is taken for
  -- its own is the one that the rest of the header alone gives: where the connection is not from a
  -- trusted proxy, and where the rest, which the proxies have written, has an address that is not
  -- trusted.
  pub get_auth_client_ip_unforged :
      (socket_ip forged header : List ℕ)
      → (trusted socket_ip ≡ false)
        ⊎ ((ip : List ℕ) × (last_untrusted trusted (forwarded trim header) ≡ some ip))
      → get_auth_client_ip trim trusted socket_ip (forged ++ b',' ∷ header)
        ≡ get_auth_client_ip trim trusted socket_ip header
  unfolding get_auth_client_ip
  get_auth_client_ip_unforged socket_ip forged header (inl direct) = rw direct refl
  get_auth_client_ip_unforged socket_ip forged header (inr (ip, found)) =
      let all =
        rw (sym (forwarded-append forged header)) at
          (last_untrusted-append (forwarded trim forged) (forwarded trim header) ip found) in
      rw (all, get_auth_client_ip) (rw (found, get_auth_client_ip) refl)
