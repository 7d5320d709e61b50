-- ===== src/Common/Tests.antt =====
-- Boolean tests, the conditional, and equality as an interface (`===` at numbers and texts).
use Prim.Native.Nat.{ℕ, ◌≤◌, ◌<◌, compare, Ordering}
use Prim.Native.String.{String}
use mathlib.Core.Path.{◌≡◌, refl, sym, ◌∙◌}
use mathlib.Core.Logic.{◌≢◌, ◌↔◌, ◌⊎◌, inl, inr}
use mathlib.Core.Bool.{false≢true, Bool, true, false, ◌&&◌}
use mathlib.Core.Option.{Option, none, some}
use native.Mathlib.Omega.{arith}
use text.Mathlib.Text.{◌==◌ as text_eq}
use text.Mathlib.TextEquality.{eq_iff}

abbrev pub ltb : ℕ → ℕ → Bool
ltb a b = elim (compare a b) [ Ordering.lt ↦ true | _ ↦ false ]

abbrev pub leb : ℕ → ℕ → Bool
leb a b = elim (compare a b) [ Ordering.gt ↦ false | _ ↦ true ]

abbrev pub nat_beq : ℕ → ℕ → Bool
nat_beq a b = elim (compare a b) [ Ordering.eq ↦ true | _ ↦ false ]

infix 1 if◌then◌else◌
abbrev pub if◌then◌else◌ {ℓ} : {A : Type ℓ} → Bool → A → A → A
if true then x else y = x
if false then x else y = y

pub ltb→lt : (a b : ℕ) → ltb a b ≡ true → a < b
ltb→lt a b h = ground arith

pub leb→le : (a b : ℕ) → leb a b ≡ true → a ≤ b
leb→le a b h = ground arith

pub Bool-cases : (b : Bool) → (b ≡ true) ⊎ (b ≡ false)
Bool-cases true = inl refl
Bool-cases false = inr refl

pub Option-cases {ℓ} : {A : Type ℓ} (o : Option A) → (o ≡ none) ⊎ ((a : A) × (o ≡ some a))
Option-cases none = inl refl
Option-cases (some a) = inr (a, refl)

pub record Comparable {ℓ} (A : Type ℓ) : Type ℓ where
  pub eqv : A → A → Bool
  pub eqv_iff : (a b : A) → (eqv a b ≡ true) ↔ (a ≡ b)

infix 50 ◌===◌
abbrev pub ◌===◌ {ℓ} : {A : Type ℓ} ⦃e : Comparable A⦄ → A → A → Bool
◌===◌ ⦃e⦄ = e.eqv

pub nat_beq_iff : (a b : ℕ) → (nat_beq a b ≡ true) ↔ (a ≡ b)
nat_beq_iff a b = ground arith

instance abbrev pub ℕ-Comparable : Comparable ℕ
ℕ-Comparable = record { eqv = nat_beq; eqv_iff = nat_beq_iff }

instance abbrev pub String-Comparable : Comparable String
String-Comparable = record { eqv = text_eq; eqv_iff = eq_iff }

abbrev pub pair_beq {ℓ κ} :
    {A : Type ℓ} {B : Type κ} → Comparable A → Comparable B → A × B → A × B → Bool
pair_beq e f (a, b) (c, d) = e.eqv a c && f.eqv b d

pub pair_beq_iff {ℓ κ} :
    {A : Type ℓ} {B : Type κ} (e : Comparable A) (f : Comparable B) (p q : A × B)
    → (pair_beq e f p q ≡ true) ↔ (p ≡ q)
pair_beq_iff e f (a, b) (c, d) = ground (arith, e.eqv_iff a c, f.eqv_iff b d)

instance abbrev pub pair-Comparable {ℓ κ} :
    {A : Type ℓ} {B : Type κ} ⦃e : Comparable A⦄ ⦃f : Comparable B⦄ → Comparable (A × B)
pair-Comparable ⦃e⦄ ⦃f⦄ = record { eqv = pair_beq e f; eqv_iff = pair_beq_iff e f }

module _ {ℓ} {A : Type ℓ} ⦃e : Comparable A⦄ where
  pub eq_refl : (a : A) → (a === a) ≡ true
  eq_refl a = (e.eqv_iff a a).1 refl

  pub eq_cases : (a b : A) → (a ≡ b) ⊎ (a ≢ b)
  eq_cases a b = elim (Bool-cases (a === b)) [
    | inl h ↦ inl ((e.eqv_iff a b).0 h)
    | inr h ↦ inr (λ same. false≢true (sym h ∙ (e.eqv_iff a b).1 same))
  ]

  pub ne→beq : (a b : A) → a ≢ b → (a === b) ≡ false
  ne→beq a b h = elim (Bool-cases (a === b)) [
    | inl same ↦ absurd (h ((e.eqv_iff a b).0 same))
    | inr other ↦ other
  ]
