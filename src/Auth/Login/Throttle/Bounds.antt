-- ===== src/Auth/Login/Throttle/Bounds.antt =====
-- How far the failures of a locked account of app/backend/src/services/authService.js are apart.
use red_man.Common.{
  ℕ, zero, suc, ◌+◌, ◌*◌, ◌-◌, ◌^◌, ◌≤◌, ◌≡◌, false, none, some, String-Comparable, ℕ-Comparable,
  arith,
}
use red_man.Auth.Store.{User}
use red_man.Auth.Login.{is_locked, lock_seconds, count_failure}

pow_pos : (k : ℕ) → 1 ≤ 2 ^ k
pow_pos zero = omega arith
pow_pos (suc k) = omega (arith, pow_pos k)

lock_least : (n : ℕ) → 5 ≤ n → 30 ≤ lock_seconds n
unfolding lock_seconds
lock_least n h = ground (arith, pow_pos (n - 5))

pow_large : (k : ℕ) → 30 ≤ 2 ^ (suc (suc (suc (suc (suc k)))))
pow_large k = omega (arith, pow_pos k)

pow_at : (n : ℕ) → 10 ≤ n → 30 ≤ 2 ^ (n - 5)
pow_at n h =
    let e : n - 5 ≡ suc (suc (suc (suc (suc (n - 10))))) = omega arith in rw e (pow_large (n - 10))

lock_most : (n : ℕ) → 10 ≤ n → lock_seconds n ≡ 900
unfolding lock_seconds
lock_most n h = ground (arith, pow_at n h)

pub until : User → ℕ
until u = elim u.locked_until [ none ↦ 0 | some t ↦ t ]

-- How many failures there may be by a time, where there was none at the start.
pub record Bounded (start now : ℕ) (u : User) : Type 0 where
  pub begun : start ≤ now
  pub five : 5 ≤ u.failed_attempts → start + 30000 * (u.failed_attempts - 4) ≤ until u
  pub ten : 10 ≤ u.failed_attempts → start + 900000 * (u.failed_attempts - 9) ≤ until u
  pub half_minutes : start + 30000 * (u.failed_attempts - 5) ≤ now
  pub quarters : start + 900000 * (u.failed_attempts - 10) ≤ now

module _ (start last now : ℕ) (u : User) (h : Bounded start last u) (later : last ≤ now) where
  unlocked-until : is_locked now u ≡ false → until u ≤ now
  unfolding until
  unlocked-until free = ground arith

  until-count_failure :
      (n : ℕ) → 5 ≤ n → until (count_failure now n u) ≡ now + lock_seconds n * 1000
  unfolding until count_failure
  until-count_failure n big = ground (arith, lock_least n big)

  pub count_failure-Bounded :
      is_locked now u ≡ false → Bounded start now (count_failure now (u.failed_attempts + 1) u)
  unfolding count_failure
  count_failure-Bounded free =
      let passed = unlocked-until free in
      record {
        begun = omega (arith, h.begun);
        five = λ big. ground (
          arith,
          h,
          lock_least (u.failed_attempts + 1),
          until-count_failure (u.failed_attempts + 1),
        );
        ten = λ big. ground (
          arith,
          h,
          lock_most (u.failed_attempts + 1),
          until-count_failure (u.failed_attempts + 1),
        );
        half_minutes = ground (arith, h);
        quarters = ground (arith, h);
      }
