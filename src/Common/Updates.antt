-- ===== src/Common/Updates.antt =====
-- What an update of rows does to counts and to the row that is found.
use Prim.Native.Nat.{◌≤◌}
use mathlib.Core.Path.{◌≡◌, refl}
use mathlib.Core.Bool.{Bool, true, false, ◌&&◌, not}
use mathlib.Core.Option.{some}
use mathlib.Core.List.{List, [], ◌∷◌}
use native.Mathlib.Omega.{arith}
use red_man.Common.Lists.{select, tally, find_where, find_where-none, update_where}

module _ {ℓ} {A : Type ℓ} where
  pub update_where-none :
      (p : A → Bool) (f : A → A) (xs : List A) → tally p xs ≡ 0 → update_where p f xs ≡ xs
  update_where-none p f [] h = refl
  update_where-none p f (x ∷ xs) h = ground (arith, update_where-none p f xs)

  -- An update of one row, which goes on to pass if it passed.
  pub tally-update_one :
      (p q : A → Bool) (f : A → A) (xs : List A) (x : A)
      → tally p xs ≤ 1
      → find_where p xs ≡ some x
      → (q x ≡ true → q (f x) ≡ true)
      → tally q xs ≤ tally q (update_where p f xs)
  tally-update_one p q f [] x one found keep = omega arith
  tally-update_one p q f (y ∷ xs) x one found keep =
      ground (arith, tally-update_one p q f xs x, update_where-none p f xs)

  -- The rows that an update leaves alone.
  pub tally-update_others :
      (p q : A → Bool) (f : A → A) (xs : List A)
      → tally (λ x. q x && not (p x)) xs ≤ tally q (update_where p f xs)
  tally-update_others p q f [] = omega arith
  tally-update_others p q f (x ∷ xs) = ground (arith, tally-update_others p q f xs)

  pub tally-update_same :
      (p q : A → Bool) (f : A → A) (xs : List A)
      → ((x : A) → q (f x) ≡ q x)
      → tally q (update_where p f xs) ≡ tally q xs
  tally-update_same p q f [] same = refl
  tally-update_same p q f (x ∷ xs) same = ground (arith, tally-update_same p q f xs same, same x)

  -- An update that makes no row fail that passed.
  pub tally-update_kept :
      (p q : A → Bool) (f : A → A) (xs : List A)
      → ((x : A) → q x ≡ true → q (f x) ≡ true)
      → tally q xs ≤ tally q (update_where p f xs)
  tally-update_kept p q f [] keep = omega arith
  tally-update_kept p q f (x ∷ xs) keep = ground (arith, tally-update_kept p q f xs keep, keep x)

  -- The one row that passes a test is the row that another test finds, if that row passes.
  pub find_where-single :
      (p q : A → Bool) (xs : List A) (x : A)
      → tally p xs ≤ 1
      → find_where q xs ≡ some x
      → p x ≡ true
      → find_where p xs ≡ some x
  find_where-single p q [] x one found pass = cc
  find_where-single p q (y ∷ xs) x one found pass =
      ground (arith, find_where-single p q xs x, find_where-none p xs)

  -- An update that makes no row pass that failed.
  pub tally-update_lost :
      (p q : A → Bool) (f : A → A) (xs : List A)
      → ((x : A) → q (f x) ≡ true → q x ≡ true)
      → tally q (update_where p f xs) ≤ tally q xs
  tally-update_lost p q f [] lost = omega arith
  tally-update_lost p q f (x ∷ xs) lost = ground (arith, tally-update_lost p q f xs lost, lost x)

  -- An update of one row that passes.
  pub tally-update_passed :
      (p q : A → Bool) (f : A → A) (xs : List A) (x : A)
      → tally p xs ≤ 1
      → find_where p xs ≡ some x
      → q x ≡ true
      → tally q (update_where p f xs) ≤ tally q xs
  tally-update_passed p q f [] x one found pass = omega arith
  tally-update_passed p q f (y ∷ xs) x one found pass =
      ground (arith, tally-update_passed p q f xs x, update_where-none p f xs)

  pub tally-select : (p q : A → Bool) (xs : List A) → tally q (select p xs) ≤ tally q xs
  tally-select p q [] = omega arith
  tally-select p q (x ∷ xs) = ground (arith, tally-select p q xs)

  -- An update of all rows that pass, to rows that do not.
  pub tally-update_gone :
      (p q : A → Bool) (f : A → A) (xs : List A)
      → ((x : A) → q (f x) ≡ false)
      → ((x : A) → q x ≡ true → p x ≡ true)
      → tally q (update_where p f xs) ≡ 0
  tally-update_gone p q f [] fails all = refl
  tally-update_gone p q f (x ∷ xs) fails all =
      ground (arith, tally-update_gone p q f xs fails all, fails x, all x)

  -- A row that is found counts for what it passes.
  pub find_where-tally :
      (p q : A → Bool) (xs : List A) (x : A)
      → find_where p xs ≡ some x
      → q x ≡ true
      → 1 ≤ tally q xs
  find_where-tally p q [] x found pass = cc
  find_where-tally p q (y ∷ xs) x found pass = ground (arith, find_where-tally p q xs x)
