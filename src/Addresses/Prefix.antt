-- ===== src/Addresses/Prefix.antt =====
-- What the comparison of two addresses in app/backend/src/middleware/auth.js says of their bits.
use red_man.Common.{
  ℕ, zero, suc, ◌-◌, ◌*◌, ◌/◌, ◌%◌, ◌^◌, ◌≤◌, ◌<◌, ◌≡◌, ◌↔◌, refl, sym, inl, inr, Bool, true, ◌&&◌,
  ◌||◌, List, [], ◌∷◌, take, leb, ltb, nat_beq, arith, All, length, Bool-cases,
}
use Prim.Native.Nat.{bit_and}
use mathlib.Core.Path.{subst}
use red_man.Addresses.{mask, same_prefix}

-- The eight bits of a byte, the highest first, and those of a list of bytes.
abbrev pub byte_bits : ℕ → List ℕ → List ℕ
byte_bits a rest =
    (a / 128 % 2)
    ∷ (a / 64 % 2)
    ∷ (a / 32 % 2)
    ∷ (a / 16 % 2)
    ∷ (a / 8 % 2)
    ∷ (a / 4 % 2)
    ∷ (a / 2 % 2)
    ∷ (a % 2)
    ∷ rest

abbrev pub bits_of : List ℕ → List ℕ
bits_of [] = []
bits_of (a ∷ as_) = byte_bits a (bits_of as_)

abbrev pub AreBytes : List ℕ → Type 0
AreBytes = All (λ a. a < 256)

all_below : ℕ → (ℕ → Bool) → Bool
all_below zero p = true
all_below (suc n) p = p n && all_below n p

all_below_lem : (n : ℕ) (p : ℕ → Bool) (x : ℕ) → all_below n p ≡ true → x < n → p x ≡ true
unfolding all_below
all_below_lem zero p x h lt = absurd (omega (arith, lt))
all_below_lem (suc n) p x h lt = ground (arith, all_below_lem n p x)

-- A mask of some high bits takes the number down to a multiple.
masks : ℕ → Bool
masks bits =
    all_below 256 (λ a. nat_beq (bit_and a (mask bits)) (a / 2 ^ (8 - bits) * 2 ^ (8 - bits)))

all_masks : all_below 8 (λ k. nat_beq k 0 || masks k) ≡ true
unfolding all_below masks
all_masks = refl

bit_and-mask :
    (bits a : ℕ)
    → 0 < bits
    → bits < 8
    → a < 256
    → bit_and a (mask bits) ≡ a / 2 ^ (8 - bits) * 2 ^ (8 - bits)
unfolding masks
bit_and-mask bits a some_ few byte =
    let here : (nat_beq bits 0 || masks bits) ≡ true =
      all_below_lem 8 (λ k. nat_beq k 0 || masks k) bits all_masks few in
    let table : masks bits ≡ true = ground arith in
    let e =
      all_below_lem 256 (λ a. nat_beq (bit_and a (mask bits)) (a / 2 ^ (8 - bits) * 2 ^ (8 - bits)))
        a table byte in
    ground (arith, e)

-- Two bytes agree behind a mask exactly if they agree in their first bits.
masked_bits :
    (bits a b : ℕ) (r q : List ℕ)
    → 0 < bits
    → bits < 8
    → a < 256
    → b < 256
    → (bit_and a (mask bits) ≡ bit_and b (mask bits))
      ↔ (take bits (byte_bits a r) ≡ take bits (byte_bits b q))
masked_bits zero a b r q some_ few h g = absurd (omega arith)
masked_bits (suc zero) a b r q some_ few h g = ground (arith, bit_and-mask 1 a, bit_and-mask 1 b)
masked_bits (suc (suc zero)) a b r q some_ few h g =
    ground (arith, bit_and-mask 2 a, bit_and-mask 2 b)
masked_bits (suc (suc (suc zero))) a b r q some_ few h g =
    ground (arith, bit_and-mask 3 a, bit_and-mask 3 b)
masked_bits (suc (suc (suc (suc zero)))) a b r q some_ few h g =
    ground (arith, bit_and-mask 4 a, bit_and-mask 4 b)
masked_bits (suc (suc (suc (suc (suc zero))))) a b r q some_ few h g =
    ground (arith, bit_and-mask 5 a, bit_and-mask 5 b)
masked_bits (suc (suc (suc (suc (suc (suc zero)))))) a b r q some_ few h g =
    ground (arith, bit_and-mask 6 a, bit_and-mask 6 b)
masked_bits (suc (suc (suc (suc (suc (suc (suc zero))))))) a b r q some_ few h g =
    ground (arith, bit_and-mask 7 a, bit_and-mask 7 b)
masked_bits (suc (suc (suc (suc (suc (suc (suc (suc k)))))))) a b r q some_ few h g =
    absurd (omega (arith, few))

full_byte :
    (k a b : ℕ) (r q : List ℕ)
    → a < 256
    → b < 256
    → ((a ≡ b) × (take k r ≡ take k q)) ↔ (
        take (suc (suc (suc (suc (suc (suc (suc (suc k)))))))) (byte_bits a r)
        ≡ take (suc (suc (suc (suc (suc (suc (suc (suc k)))))))) (byte_bits b q))
full_byte k a b r q h g = ground arith

full_byte_at :
    (bits a b : ℕ) (r q : List ℕ)
    → 8 ≤ bits
    → a < 256
    → b < 256
    → ((a ≡ b) × (take (bits - 8) r ≡ take (bits - 8) q))
      ↔ (take bits (byte_bits a r) ≡ take bits (byte_bits b q))
full_byte_at bits a b r q big h g =
    let e : bits ≡ suc (suc (suc (suc (suc (suc (suc (suc (bits - 8)))))))) = omega arith in
    subst
      (λ n.
        ((a ≡ b) × (take (bits - 8) r ≡ take (bits - 8) q))
        ↔ (take n (byte_bits a r) ≡ take n (byte_bits b q)))
      (sym e) (full_byte (bits - 8) a b r q h g)

-- The loop over two addresses says that they are the same exactly if they agree in their first
-- bits, as many as are given. The addresses have the same number of bytes.
pub same_prefix_iff :
    (bits : ℕ) (as_ bs : List ℕ)
    → AreBytes as_
    → AreBytes bs
    → length as_ ≡ length bs
    → (same_prefix bits as_ bs ≡ true) ↔ (take bits (bits_of as_) ≡ take bits (bits_of bs))
unfolding same_prefix
same_prefix_iff bits [] [] ha hb e = ground arith
same_prefix_iff bits [] (b ∷ bs) ha hb e = absurd (omega (arith, e))
same_prefix_iff bits (a ∷ as_) [] ha hb e = absurd (omega (arith, e))
same_prefix_iff bits (a ∷ as_) (b ∷ bs) (ha, has) (hb, hbs) e =
    let rest = same_prefix_iff (bits - 8) as_ bs has hbs (omega (arith, e)) in
    elim (Bool-cases (leb 8 bits)) [
      | inl big ↦ ground (arith, full_byte_at bits a b (bits_of as_) (bits_of bs), rest)
      | inr small ↦ elim (Bool-cases (ltb 0 bits)) [
        | inl some_ ↦ ground (arith, masked_bits bits a b (bits_of as_) (bits_of bs))
        | inr none_ ↦ let z : bits ≡ 0 = ground arith in ((λ h. rw z refl), (λ h. ground arith))
      ]
    ]
