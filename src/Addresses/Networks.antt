-- ===== src/Addresses/Networks.antt =====
-- What app/backend/src/middleware/auth.js takes for an address of a network.
use red_man.Common.{
  ℕ, zero, suc, ◌+◌, ◌-◌, ◌/◌, ◌%◌, ◌≤◌, ◌<◌, ◌≡◌, ◌↔◌, refl, inl, inr, Bool, true, false, ltb,
  if◌then◌else◌, Option, none, some, List, [], ◌∷◌, ◌++◌, take, arith, length, length-append,
  Option-cases, Bool-cases,
}
use mathlib.Core.Path.{subst}
use red_man.Common.Text.{to_lower}
use red_man.Addresses.{
  split_at, split_double, decimal, mapped, four_parts, bytes_of_parts, without_mapped, zero_groups,
  groups_of, filled, groups, group_value, bytes_of_groups, ip_to_bytes, cidr_parts, bits_of_cidr,
  mapped_bits, in_cidr, has_colon,
}
use red_man.Addresses.Prefix.{bits_of, AreBytes, same_prefix_iff}

-- The bytes of an address.
abbrev IsAddress : List ℕ → Type 0
IsAddress bytes = AreBytes bytes × (length bytes ≡ 16)

bytes_of_parts-IsAddress :
    (parts : List (List ℕ)) (bytes : List ℕ) → bytes_of_parts parts ≡ some bytes → IsAddress bytes
bytes_of_parts-IsAddress [] bytes e = cc
bytes_of_parts-IsAddress (a ∷ []) bytes e = cc
bytes_of_parts-IsAddress (a ∷ b ∷ []) bytes e = cc
bytes_of_parts-IsAddress (a ∷ b ∷ c ∷ []) bytes e = cc
bytes_of_parts-IsAddress (a ∷ b ∷ c ∷ d ∷ []) bytes e =
    let same : mapped (decimal 0 a) (decimal 0 b) (decimal 0 c) (decimal 0 d) ≡ bytes =
      ground arith in
    let bound : IsAddress (mapped (decimal 0 a) (decimal 0 b) (decimal 0 c) (decimal 0 d)) =
      ground arith in
    subst IsAddress same bound
bytes_of_parts-IsAddress (a ∷ b ∷ c ∷ d ∷ f ∷ r) bytes e = cc

module _ (hex : List ℕ → Option ℕ) where
  group_value-lt : (g : List ℕ) (n : ℕ) → group_value hex g ≡ some n → n < 65536
  group_value-lt [] n e = ground arith
  group_value-lt (c ∷ g) n e = ground arith

  bytes_of_groups_lem :
      (gs : List (List ℕ)) (bytes : List ℕ)
      → bytes_of_groups hex gs ≡ some bytes
      → AreBytes bytes × (length bytes ≡ length gs + length gs)
  bytes_of_groups_lem [] bytes e =
      let same : [] ≡ bytes = ground arith in
      subst (λ bs. AreBytes bs × (length bs ≡ 0)) same empty_bytes
    where
      empty_bytes : AreBytes [] × (length {A = ℕ} [] ≡ 0)
      empty_bytes = omega arith
  bytes_of_groups_lem (g ∷ gs) bytes e = elim (Option-cases (group_value hex g)) [
    | inl bad ↦ ground arith
    | inr (n, value) ↦ elim (Option-cases (bytes_of_groups hex gs)) [
      | inl bad ↦ ground arith
      | inr (rest, found) ↦
          let (small, long) = bytes_of_groups_lem gs rest found in
          let same : n / 256 ∷ n % 256 ∷ rest ≡ bytes = ground arith in
          let low : n < 65536 = group_value-lt g n value in
          let bound : AreBytes (n / 256 ∷ n % 256 ∷ rest)
              × (length (n / 256 ∷ n % 256 ∷ rest) ≡ length (g ∷ gs) + length (g ∷ gs)) =
            ((omega arith, (omega arith, small)), omega (arith, long)) in
          subst (λ bs. AreBytes bs × (length bs ≡ length (g ∷ gs) + length (g ∷ gs))) same bound
    ]
  ]

  length-zero_groups : (n : ℕ) → length (zero_groups n) ≡ n
  length-zero_groups zero = refl
  length-zero_groups (suc n) = omega (arith, length-zero_groups n)

  length-filled : (left right gs : List (List ℕ)) → filled left right ≡ some gs → length gs ≡ 8
  length-filled left right gs e =
      let n : ℕ = 8 - (length left + length right) in
      let same : left ++ (zero_groups n ++ right) ≡ gs = ground arith in
      let fits : length left + length right ≤ 8 = ground arith in rw same at (length_all n fits)
    where
      length_all :
          (n : ℕ)
          → length left + length right ≤ 8
          → length (left ++ (zero_groups (8 - (length left + length right)) ++ right)) ≡ 8
      length_all n fits = omega (
        arith,
        length-append left (zero_groups (8 - (length left + length right)) ++ right),
        length-append (zero_groups (8 - (length left + length right))) right,
        length-zero_groups (8 - (length left + length right)),
      )

  length-groups : (sides gs : List (List ℕ)) → groups sides ≡ some gs → length gs ≡ 8
  length-groups [] gs e = cc
  length-groups (a ∷ []) gs e = length-filled (groups_of a) [] gs e
  length-groups (a ∷ b ∷ []) gs e = length-filled (groups_of a) (groups_of b) gs e
  length-groups (a ∷ b ∷ c ∷ r) gs e = cc

  by_groups :
      (bytes : List ℕ) (found : Option (List (List ℕ)))
      → ((gs : List (List ℕ)) → found ≡ some gs → length gs ≡ 8)
      → (elim found [ none ↦ none | some gs ↦ bytes_of_groups hex gs ]) ≡ some bytes
      → IsAddress bytes
  by_groups bytes none eight e = cc
  by_groups bytes (some gs) eight e =
      let (small, long) = bytes_of_groups_lem gs bytes e in
      (small, omega (arith, long, eight gs refl))

  ip_to_bytes-IsAddress : (ip bytes : List ℕ) → ip_to_bytes hex ip ≡ some bytes → IsAddress bytes
  unfolding ip_to_bytes
  ip_to_bytes-IsAddress ip bytes e = elim (Option-cases (four_parts (split_at b'.' ip))) [
    | inr (parts, v4) ↦ bytes_of_parts-IsAddress parts bytes (rw (v4, ip_to_bytes) at e)
    | inl other ↦ elim (Bool-cases (has_colon ip)) [
      | inr none_ ↦ cc (rw (none_, ip_to_bytes) at (rw (other, ip_to_bytes) at e))
      | inl colon ↦
          elim (Option-cases (four_parts (split_at b'.' (to_lower (without_mapped ip))))) [
            | inr (parts, v4) ↦ bytes_of_parts-IsAddress parts bytes (
                rw (v4, ip_to_bytes) at (rw (colon, ip_to_bytes) at (rw (other, ip_to_bytes) at e)))
            | inl v6 ↦
                by_groups bytes (groups (split_double ip)) (length-groups (split_double ip)) (
                  rw (v6, ip_to_bytes) at
                    (rw (colon, ip_to_bytes) at (rw (other, ip_to_bytes) at e)))
          ]
    ]
  ]

-- How many bits a network asks for, of those of an IPv6 address: in an IPv4 network of at most 32 bits,
-- 96 more, for where IPv4 addresses are mapped to.
abbrev pub network_bits : Bool → ℕ → ℕ
network_bits true bits = bits
network_bits false bits = if ltb 32 bits then bits else 96 + bits

mapped_bits-network_bits :
    (addr : List ℕ) (bits : ℕ) → mapped_bits addr bits ≡ network_bits (has_colon addr) bits
mapped_bits-network_bits addr bits = elim (Bool-cases (has_colon addr)) [
  | inl ipv6 ↦ rw ipv6 (ground arith)
  | inr ipv4 ↦ rw ipv4 (ground arith)
]

-- Where the address and the network can be read, the address is taken for one of the network exactly if
-- the two agree in the first bits, as many as the network asks for, with 96 more for an IPv4 network of
-- at most 32 bits.
pub in_cidr_iff :
    (number hex : List ℕ → Option ℕ) (ip cidr addr : List ℕ) (text : Option (List ℕ)) (bits : ℕ)
    (xs ys : List ℕ)
    → cidr_parts (split_at b'/' cidr) ≡ some (addr, text)
    → bits_of_cidr number cidr text ≡ some bits
    → ip_to_bytes hex ip ≡ some xs
    → ip_to_bytes hex addr ≡ some ys
    → (in_cidr number hex ip cidr ≡ true) ↔ (
        take (network_bits (has_colon addr) bits) (bits_of xs)
        ≡ take (network_bits (has_colon addr) bits) (bits_of ys))
unfolding in_cidr
in_cidr_iff number hex ip cidr addr text bits xs ys parts asked a b =
    let (small, long) = ip_to_bytes-IsAddress hex ip xs a in
    let (small', long') = ip_to_bytes-IsAddress hex addr ys b in
    let same =
      same_prefix_iff (network_bits (has_colon addr) bits) xs ys small small'
        (omega (arith, long, long')) in
    rw (parts, in_cidr)
      (rw (a, in_cidr)
        (rw (b, in_cidr) (rw (asked, in_cidr) (rw (mapped_bits-network_bits addr bits) same))))
