-- ===== src/Telemetry/Firsts.antt =====
-- Deletions and updates with a limit on their rows.
use red_man.Common.{
  ℕ, zero, suc, ◌+◌, ◌≡◌, refl, min, Bool, true, false, List, [], ◌∷◌, arith, tally, length,
}
use red_man.Telemetry.{remove_first, update_first}

-- What a limited deletion or update leaves.
pub length-remove_first :
    {A : Type 0} (n : ℕ) (p : A → Bool) (xs : List A)
    → length (remove_first n p xs) + min n (tally p xs) ≡ length xs
unfolding remove_first
length-remove_first zero p xs = omega arith
length-remove_first (suc n) p [] = omega arith
length-remove_first (suc n) p (x ∷ xs) =
    ground (arith, length-remove_first n p xs, length-remove_first (suc n) p xs)

pub remove_first-none :
    {A : Type 0} (n : ℕ) (p : A → Bool) (xs : List A) → tally p xs ≡ 0 → remove_first n p xs ≡ xs
unfolding remove_first
remove_first-none zero p xs h = refl
remove_first-none (suc n) p [] h = refl
remove_first-none (suc n) p (x ∷ xs) h = ground (arith, remove_first-none (suc n) p xs)

pub tally-remove_first :
    {A : Type 0} (n : ℕ) (p q : A → Bool) (xs : List A)
    → ((x : A) → p x ≡ true → q x ≡ false)
    → tally q (remove_first n p xs) ≡ tally q xs
unfolding remove_first
tally-remove_first zero p q xs apart = refl
tally-remove_first (suc n) p q [] apart = refl
tally-remove_first (suc n) p q (x ∷ xs) apart =
    ground
      (arith, tally-remove_first n p q xs apart, tally-remove_first (suc n) p q xs apart, apart x)

pub length-update_first :
    {A : Type 0} (n : ℕ) (p : A → Bool) (f : A → A) (xs : List A)
    → length (update_first n p f xs) ≡ length xs
unfolding update_first
length-update_first zero p f xs = refl
length-update_first (suc n) p f [] = refl
length-update_first (suc n) p f (x ∷ xs) =
    ground (arith, length-update_first n p f xs, length-update_first (suc n) p f xs)

pub tally-update_first :
    {A : Type 0} (n : ℕ) (p q : A → Bool) (f : A → A) (xs : List A)
    → ((x : A) → p x ≡ true → q x ≡ true)
    → ((x : A) → q (f x) ≡ false)
    → tally q (update_first n p f xs) + min n (tally p xs) ≡ tally q xs
unfolding update_first
tally-update_first zero p q f xs was gone = omega arith
tally-update_first (suc n) p q f [] was gone = omega arith
tally-update_first (suc n) p q f (x ∷ xs) was gone = ground (
  arith,
  tally-update_first n p q f xs was gone,
  tally-update_first (suc n) p q f xs was gone,
  was x,
  gone x,
)

pub update_first-none :
    {A : Type 0} (n : ℕ) (p : A → Bool) (f : A → A) (xs : List A)
    → tally p xs ≡ 0
    → update_first n p f xs ≡ xs
unfolding update_first
update_first-none zero p f xs h = refl
update_first-none (suc n) p f [] h = refl
update_first-none (suc n) p f (x ∷ xs) h = ground (arith, update_first-none (suc n) p f xs)
