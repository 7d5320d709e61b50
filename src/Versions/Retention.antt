-- ===== src/Versions/Retention.antt =====
-- The tiers of `pruneVersions` and `getSnapshotTier` in versionBrowser.js: which snapshots a
-- retention policy keeps. The limits of a policy are whole numbers. `period` gives the calendar
-- day, ISO week, month or quarter of a snapshot as a number: it comes from the name's text and
-- from the date functions of the host.
pub mod Laws
use red_man.Common.{
  ℕ, ◌+◌, ◌*◌, ◌-◌, Bool, true, false, ◌&&◌, Option, none, some, List, [], ◌∷◌, ltb, leb,
  if◌then◌else◌, ◌===◌, Comparable, ℕ-Comparable, pair-Comparable,
}
use red_man.Common.Dict
use red_man.Versions.Store.{Time}

pub record Policy : Type 0 where
  pub hourly : ℕ
  pub daily : ℕ
  pub weekly : ℕ
  pub monthly : ℕ
  pub quarterly : ℕ

pub data Tier : Type 0 where
  hourly daily weekly monthly quarterly : Tier

-- The name of a tier, as the keys of `periodBuckets` spell it.
abbrev pub tier_name : Tier → ℕ
tier_name hourly = 0
tier_name daily = 1
tier_name weekly = 2
tier_name monthly = 3
tier_name quarterly = 4

-- A period bucket: its tier and its period.
abbrev pub Bucket : Type 0
Bucket = ℕ × ℕ

-- The age in milliseconds; a snapshot from the future has age 0, which passes the same tests.
abbrev pub age_ms : ℕ → Time → ℕ
age_ms now time = now - time * 1000

abbrev pub ms_per_hour : ℕ
ms_per_hour = 3600000

-- `getSnapshotTier`, with `none` for 'expired'; `pruneVersions` makes the same tests in a row.
unfoldable pub tier_of : Policy → ℕ → Time → Option Tier
tier_of policy now time =
    if ltb 0 policy.hourly && leb (age_ms now time) (policy.hourly * ms_per_hour)
    then some hourly
    else if ltb 0 policy.daily && leb (age_ms now time) (policy.daily * (24 * ms_per_hour))
    then some daily
    else if ltb 0 policy.weekly && leb (age_ms now time) (policy.weekly * (24 * ms_per_hour))
    then some weekly
    else if ltb 0 policy.monthly && leb (age_ms now time) (policy.monthly * (24 * ms_per_hour))
    then some monthly
    else if ltb 0 policy.quarterly && leb (age_ms now time) (policy.quarterly * (24 * ms_per_hour))
    then some quarterly
    else none

module _ (policy : Policy) (now : ℕ) (period : Tier → Time → ℕ) where
  -- The bucket that a snapshot asks for. Within the hourly tier there is none.
  abbrev pub bucket_in : Option Tier → Time → Option Bucket
  bucket_in none time = none
  bucket_in (some hourly) time = none
  bucket_in (some tier) time = some (tier_name tier, period tier time)

  abbrev pub bucket_of : Time → Option Bucket
  bucket_of time = bucket_in (tier_of policy now time) time

  -- One round of the loop for a snapshot of that tier, with the sets `keep` and `periodBuckets`.
  unfoldable pub place : List Time × List Bucket → Time → Option Tier → List Time × List Bucket
  place (keep, buckets) time none = (keep, buckets)
  place (keep, buckets) time (some hourly) = (Dict.add keep time, buckets)
  place (keep, buckets) time (some tier) =
      let bucket : Bucket = (tier_name tier, period tier time) in
      if Dict.has buckets bucket
      then (keep, buckets)
      else (Dict.add keep time, Dict.add buckets bucket)

  unfoldable pub select_step : List Time × List Bucket → Time → List Time × List Bucket
  unfolding place
  select_step state time = place state time (tier_of policy now time)

  unfoldable pub select_loop : List Time × List Bucket → List Time → List Time
  unfolding select_step
  select_loop state [] = state.0
  select_loop state (time ∷ times) = select_loop (select_step state time) times

  -- The set `keep` for the snapshots, newest first.
  unfoldable pub kept_snapshots : List Time → List Time
  unfolding select_loop
  kept_snapshots times = select_loop ([], []) times
