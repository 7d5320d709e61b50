-- ===== src/Versions/Retention/Laws.antt =====
-- What the retention loop keeps.
use red_man.Common.{
  ℕ, ◌≡◌, refl, ◌≢◌, ap, ◌∙◌, Bool, true, false, ◌||◌, not, Option, none, some, List, [], ◌∷◌, ◌++◌,
  arith, if◌then◌else◌, ◌===◌, any, ℕ-Comparable, pair-Comparable, eq_refl, ne→beq,
}
use red_man.Common.Dict
use red_man.Versions.Store.{Time}
use red_man.Versions.Retention.{
  Policy, Tier, Bucket, hourly, tier_name, tier_of, bucket_in, bucket_of, place, select_step,
  select_loop, kept_snapshots,
}

-- The snapshot's optional bucket is the given one.
abbrev pub claims : Bucket → Option Bucket → Bool
claims b none = false
claims b (some c) = c === b

or_false : (a : Bool) → (a || false) ≡ a
or_false a = ground arith

or_turn : (a b c d : Bool) → d ≡ (b || c) → (a || d) ≡ ((b || a) || c)
or_turn a b c d h = ground arith

module _ (policy : Policy) (now : ℕ) (period : Tier → Time → ℕ) where
  -- Some snapshot of the list asks for the bucket.
  abbrev pub claimed_by : List Time → Bucket → Bool
  claimed_by times b = any (λ u. claims b (bucket_of policy now period u)) times

  -- In the hourly tier, or with a free bucket.
  abbrev pub is_due : (Bucket → Bool) → Option Tier → Time → Bool
  is_due taken none time = false
  is_due taken (some hourly) time = true
  is_due taken (some tier) time = not (taken (tier_name tier, period tier time))

  place-buckets :
      (keep : List Time) (buckets : List Bucket) (time : Time) (tier : Option Tier) (b : Bucket)
      → Dict.has (place policy now period (keep, buckets) time tier).1 b
        ≡ (claims b (bucket_in policy now period tier time) || Dict.has buckets b)
  unfolding place
  place-buckets keep buckets time none b = refl
  place-buckets keep buckets time (some hourly) b = refl
  place-buckets keep buckets time (some tier) b = ground (
    arith,
    Dict.has-add buckets (tier_name tier, period tier time) b,
    pair-Comparable.eqv_iff (tier_name tier, period tier time) b,
  )

  place-keep :
      (keep : List Time) (buckets : List Bucket) (time : Time) (tier : Option Tier) (x : Time)
      → Dict.has (place policy now period (keep, buckets) time tier).0 x
        ≡ ((if time === x then is_due (Dict.has buckets) tier time else false) || Dict.has keep x)
  unfolding place
  place-keep keep buckets time none x = ground arith
  place-keep keep buckets time (some hourly) x = ground (arith, Dict.has-add keep time x)
  place-keep keep buckets time (some tier) x = ground (arith, Dict.has-add keep time x)

  is_due_of_eq :
      (p q : Bucket → Bool) (tier : Option Tier) (x : Time)
      → ((b : Bucket) → p b ≡ q b)
      → is_due p tier x ≡ is_due q tier x
  is_due_of_eq p q none x h = refl
  is_due_of_eq p q (some hourly) x h = refl
  is_due_of_eq p q (some tier) x h = ap not (h (tier_name tier, period tier x))

  select_step_self :
      (keep : List Time) (buckets : List Bucket) (x : Time)
      → Dict.has keep x ≡ false
      → Dict.has (select_step policy now period (keep, buckets) x).0 x
        ≡ is_due (Dict.has buckets) (tier_of policy now x) x
  unfolding select_step
  select_step_self keep buckets x absent =
      place-keep keep buckets x (tier_of policy now x) x ∙ rw (eq_refl x, absent) (or_false _)

  select_step-buckets :
      (keep : List Time) (buckets : List Bucket) (u : Time) (b : Bucket)
      → Dict.has (select_step policy now period (keep, buckets) u).1 b
        ≡ (claims b (bucket_of policy now period u) || Dict.has buckets b)
  unfolding select_step
  select_step-buckets keep buckets u b = place-buckets keep buckets u (tier_of policy now u) b

  select_step-other :
      (state : List Time × List Bucket) (u x : Time)
      → u ≢ x
      → Dict.has (select_step policy now period state u).0 x ≡ Dict.has state.0 x
  unfolding select_step
  select_step-other (keep, buckets) u x d =
      place-keep keep buckets u (tier_of policy now u) x ∙ rw (ne→beq u x d)

  select_loop-absent :
      (state : List Time × List Bucket) (times : List Time) (x : Time)
      → Dict.has times x ≡ false
      → Dict.has (select_loop policy now period state times) x ≡ Dict.has state.0 x
  unfolding select_loop
  select_loop-absent state [] x h = refl
  select_loop-absent state (u ∷ times) x h =
      select_loop-absent (select_step policy now period state u) times x (ground arith)
      ∙ select_step-other state u x (ground arith)

  select_loop-due :
      (state : List Time × List Bucket) (newer older : List Time) (x : Time)
      → Dict.has state.0 x ≡ false
      → Dict.has newer x ≡ false
      → Dict.has older x ≡ false
      → Dict.has (select_loop policy now period state (newer ++ x ∷ older)) x
        ≡ is_due (λ b. claimed_by newer b || Dict.has state.1 b) (tier_of policy now x) x
  unfolding select_loop
  select_loop-due (keep, buckets) [] older x absent h g =
      select_loop-absent (select_step policy now period (keep, buckets) x) older x g
      ∙ select_step_self keep buckets x absent
  select_loop-due (keep, buckets) (u ∷ newer) older x absent h g =
      select_loop-due (select_step policy now period (keep, buckets) u) newer older x
        (select_step-other (keep, buckets) u x (ground arith) ∙ absent) (ground arith) g
      ∙ is_due_of_eq
          (λ b.
            claimed_by newer b || Dict.has (select_step policy now period (keep, buckets) u).1 b)
          (λ b. claimed_by (u ∷ newer) b || Dict.has buckets b) (tier_of policy now x) x
          (λ b. or_turn _ _ _ _ (select_step-buckets keep buckets u b))

  -- Of snapshots that are listed newest first, without repetition, one is kept exactly if it is in
  -- the hourly tier, or is in another tier and no newer one of that tier shares its period.
  pub kept_snapshots_lem :
      (newer older : List Time) (x : Time)
      → Dict.has newer x ≡ false
      → Dict.has older x ≡ false
      → Dict.has (kept_snapshots policy now period (newer ++ x ∷ older)) x
        ≡ is_due (claimed_by newer) (tier_of policy now x) x
  unfolding kept_snapshots
  kept_snapshots_lem newer older x h g =
      select_loop-due ([], []) newer older x refl h g
      ∙ is_due_of_eq (λ b. claimed_by newer b || false) (claimed_by newer) (tier_of policy now x) x
          (λ b. or_false (claimed_by newer b))
