-- ===== src/Addresses.antt =====
-- Client addresses in app/backend/src/middleware/auth.js. An address is a list of character codes,
-- read to the 16 bytes of an IPv6 address, to which an IPv4 address is mapped.
pub mod Prefix
pub mod Networks
pub mod Forwarded
mod Examples
use red_man.Common.{
  ℕ, zero, suc, ◌+◌, ◌-◌, ◌*◌, ◌/◌, ◌%◌, ◌^◌, Bool, true, false, ◌&&◌, ◌||◌, not, Option, none,
  some, List, [], ◌∷◌, ◌++◌, any, select, length, drop, leb, ltb, nat_beq, if◌then◌else◌,
}
use Prim.Native.Nat.{bit_and}
use red_man.Common.Text.{to_lower, starts_with, includes, is_digit, all_digits}

abbrev pub with_code : ℕ → List (List ℕ) → List (List ℕ)
with_code c [] = (c ∷ []) ∷ []
with_code c (w ∷ ws) = (c ∷ w) ∷ ws

-- `s.split(c)` of one character, which is given.
unfoldable pub split_at : ℕ → List ℕ → List (List ℕ)
split_at c [] = [] ∷ []
split_at c (d ∷ s) = if nat_beq d c then [] ∷ split_at c s else with_code d (split_at c s)

-- `s.split('::')`: of three colons the first two are the separator.
unfoldable pub split_double : List ℕ → List (List ℕ)
split_double [] = [] ∷ []
split_double (c ∷ []) = (c ∷ []) ∷ []
split_double (c ∷ d ∷ s) =
    if nat_beq c b':' && nat_beq d b':'
    then [] ∷ split_double s
    else with_code c (split_double (d ∷ s))

abbrev pub decimal : ℕ → List ℕ → ℕ
decimal n [] = n
decimal n (c ∷ s) = decimal (n * 10 + (c - b'0')) s

-- `\d{1,3}`
abbrev pub is_part : List ℕ → Bool
is_part s = all_digits s && leb 1 (length s) && leb (length s) 3

abbrev pub is_byte_part : List ℕ → Bool
is_byte_part s = leb (decimal 0 s) 255

abbrev pub mapped : ℕ → ℕ → ℕ → ℕ → List ℕ
mapped a b c d = 0 ∷ 0 ∷ 0 ∷ 0 ∷ 0 ∷ 0 ∷ 0 ∷ 0 ∷ 0 ∷ 0 ∷ 255 ∷ 255 ∷ a ∷ b ∷ c ∷ d ∷ []

-- The four parts of an IPv4 address, or nothing for another text.
abbrev pub four_parts : List (List ℕ) → Option (List (List ℕ))
four_parts (a ∷ b ∷ c ∷ d ∷ []) =
    if is_part a && is_part b && is_part c && is_part d then some (a ∷ b ∷ c ∷ d ∷ []) else none
four_parts other = none

abbrev pub bytes_of_parts : List (List ℕ) → Option (List ℕ)
bytes_of_parts (a ∷ b ∷ c ∷ d ∷ []) =
    if is_byte_part a && is_byte_part b && is_byte_part c && is_byte_part d
    then some (mapped (decimal 0 a) (decimal 0 b) (decimal 0 c) (decimal 0 d))
    else none
bytes_of_parts other = none

-- `ip.replace(/^::ffff:/i, '')`
abbrev pub mapped_prefix : List ℕ
mapped_prefix = b':' ∷ b':' ∷ b'f' ∷ b'f' ∷ b'f' ∷ b'f' ∷ b':' ∷ []

abbrev pub without_mapped : List ℕ → List ℕ
without_mapped s = if starts_with (to_lower s) mapped_prefix then drop 7 s else s

abbrev pub zero_groups : ℕ → List (List ℕ)
zero_groups zero = []
zero_groups (suc n) = (b'0' ∷ []) ∷ zero_groups n

abbrev pub groups_of : List ℕ → List (List ℕ)
groups_of [] = []
groups_of (c ∷ s) = split_at b':' (c ∷ s)

-- The eight groups, with zeros where `::` stands; nothing for too many.
abbrev pub filled : List (List ℕ) → List (List ℕ) → Option (List (List ℕ))
filled left right =
    if ltb 8 (length left + length right)
    then none
    else some (left ++ (zero_groups (8 - (length left + length right)) ++ right))

abbrev pub groups : List (List ℕ) → Option (List (List ℕ))
groups (left ∷ []) = filled (groups_of left) []
groups (left ∷ right ∷ []) = filled (groups_of left) (groups_of right)
groups other = none

-- `hex` is `parseInt` with the base 16, where it gives a natural number; an empty group counts as 0.
abbrev pub group_value : (List ℕ → Option ℕ) → List ℕ → Option ℕ
group_value hex [] = some 0
group_value hex (c ∷ s) = elim (hex (c ∷ s)) [
  | none ↦ none
  | some n ↦ if ltb 65535 n then none else some n
]

abbrev pub bytes_of_groups : (List ℕ → Option ℕ) → List (List ℕ) → Option (List ℕ)
bytes_of_groups hex [] = some []
bytes_of_groups hex (g ∷ gs) = elim (group_value hex g) [
  | none ↦ none
  | some n ↦ elim (bytes_of_groups hex gs) [
    | none ↦ none
    | some bytes ↦ some (n / 256 ∷ n % 256 ∷ bytes)
  ]
]

unfoldable pub ip_to_bytes : (List ℕ → Option ℕ) → List ℕ → Option (List ℕ)
unfolding split_at split_double
ip_to_bytes hex ip = elim (four_parts (split_at b'.' ip)) [
  | some parts ↦ bytes_of_parts parts
  | none ↦
      if not (any (λ c. nat_beq c b':') ip)
      then none
      else elim (four_parts (split_at b'.' (to_lower (without_mapped ip)))) [
        | some parts ↦ bytes_of_parts parts
        | none ↦ elim (groups (split_double ip)) [ none ↦ none | some gs ↦ bytes_of_groups hex gs ]
      ]
]

-- `(0xff << (8 - bits)) & 0xff`, for 1 to 7 bits.
abbrev pub mask : ℕ → ℕ
mask bits = 255 * 2 ^ (8 - bits) % 256

-- The loop over the bytes of two addresses, with the bits that are left to compare.
unfoldable pub same_prefix : ℕ → List ℕ → List ℕ → Bool
same_prefix bits (a ∷ as_) (b ∷ bs) =
    if leb 8 bits
    then nat_beq a b && same_prefix (bits - 8) as_ bs
    else if ltb 0 bits
    then nat_beq (bit_and a (mask bits)) (bit_and b (mask bits))
    else true
same_prefix bits as_ bs = true

-- The address and the bits of `address/bits`. A missing number is the whole address; `number` is
-- `parseInt` where it gives a natural number.
abbrev pub cidr_parts : List (List ℕ) → Option (List ℕ × Option (List ℕ))
cidr_parts [] = none
cidr_parts (addr ∷ []) = some (addr, none)
cidr_parts (addr ∷ bits ∷ rest) = some (addr, some bits)

abbrev pub has_colon : List ℕ → Bool
has_colon s = any (λ c. nat_beq c b':') s

abbrev pub bits_of_cidr : (List ℕ → Option ℕ) → List ℕ → Option (List ℕ) → Option ℕ
bits_of_cidr number cidr none = some (if has_colon cidr then 128 else 32)
bits_of_cidr number cidr (some text) = number text

-- The bits of an IPv4 network count from where IPv4 addresses are mapped to.
abbrev pub mapped_bits : List ℕ → ℕ → ℕ
mapped_bits addr bits = if not (has_colon addr) && leb bits 32 then bits + 96 else bits

unfoldable pub in_cidr : (List ℕ → Option ℕ) → (List ℕ → Option ℕ) → List ℕ → List ℕ → Bool
unfolding ip_to_bytes same_prefix split_at
in_cidr number hex ip cidr = elim (cidr_parts (split_at b'/' cidr)) [
  | none ↦ false
  | some (addr, text) ↦ elim (ip_to_bytes hex ip) [
    | none ↦ false
    | some ip_bytes ↦ elim (ip_to_bytes hex addr) [
      | none ↦ false
      | some net_bytes ↦ elim (bits_of_cidr number cidr text) [
        | none ↦ false
        | some bits ↦ same_prefix (mapped_bits addr bits) ip_bytes net_bytes
      ]
    ]
  ]
]

-- `TRUSTED_PROXIES`: everything, or a list of networks.
pub data Trusted : Type 0 where
  everyone : Trusted
  networks : List (List ℕ) → Trusted

-- An absent address is the empty text.
unfoldable pub is_trusted_proxy :
    (List ℕ → Option ℕ) → (List ℕ → Option ℕ) → Trusted → List ℕ → Bool
unfolding in_cidr
is_trusted_proxy number hex everyone ip = true
is_trusted_proxy number hex (networks cidrs) [] = false
is_trusted_proxy number hex (networks cidrs) (c ∷ ip) =
    any (λ cidr. in_cidr number hex (without_mapped (c ∷ ip)) cidr) cidrs

-- The last address of a list that is not trusted.
abbrev pub last_untrusted : (List ℕ → Bool) → List (List ℕ) → Option (List ℕ)
last_untrusted trusted [] = none
last_untrusted trusted (ip ∷ ips) = elim (last_untrusted trusted ips) [
  | some found ↦ some found
  | none ↦ if trusted ip then none else some ip
]

abbrev pub trimmed : (List ℕ → List ℕ) → List (List ℕ) → List (List ℕ)
trimmed trim [] = []
trimmed trim (s ∷ rest) = trim s ∷ trimmed trim rest

-- `/^[0-9a-f.:%]+$/i`
abbrev is_address_code : ℕ → Bool
is_address_code c =
    is_digit c
    || (leb b'a' c && leb c b'f')
    || (leb b'A' c && leb c b'F')
    || nat_beq c b'.'
    || nat_beq c b':'
    || nat_beq c b'%'

abbrev pub first_of : List (List ℕ) → List ℕ
first_of [] = []
first_of (s ∷ rest) = s

-- What may stand in a log: the address, `unknown` or `invalid`.
pub data SafeIp : Type 0 where
  unknown invalid : SafeIp
  address : List ℕ → SafeIp

unfoldable pub safe_ip : (List ℕ → List ℕ) → List ℕ → SafeIp
unfolding split_at
safe_ip trim [] = unknown
safe_ip trim (c ∷ ip) =
    let cleaned = without_mapped (trim (first_of (split_at b',' (c ∷ ip)))) in
    if ltb 45 (length cleaned)
    then invalid
    else if nat_beq (length cleaned) 0 || any (λ d. not (is_address_code d)) cleaned
    then invalid
    else address cleaned

-- The addresses of a header, without the empty ones.
abbrev pub is_given : List ℕ → Bool
is_given ip = not (nat_beq (length ip) 0)

unfoldable pub forwarded : (List ℕ → List ℕ) → List ℕ → List (List ℕ)
unfolding split_at
forwarded trim header = select is_given (trimmed trim (split_at b',' header))

-- `trim` is the string method. An absent header is the empty text.
unfoldable pub get_auth_client_ip : (List ℕ → List ℕ) → (List ℕ → Bool) → List ℕ → List ℕ → SafeIp
unfolding forwarded safe_ip
get_auth_client_ip trim trusted socket_ip header =
    if not (trusted socket_ip)
    then safe_ip trim socket_ip
    else (elim (last_untrusted trusted (forwarded trim header)) [
      | none ↦ safe_ip trim socket_ip
      | some ip ↦ safe_ip trim ip
    ])
