-- ===== src/Quota.antt =====
-- app/backend/src/services/quotaUsage.js: the sizes of directories that are known, and the scans under way.
-- A scan is cut at its end; a time is a number of milliseconds, and the clock does not go back.
pub mod Remembered
mod Examples
use red_man.Common.{
  ℕ, ◌+◌, ◌*◌, ◌-◌, min, max, String, Bool, true, false, Option, none, some, List, [], ◌∷◌, ltb,
  if◌then◌else◌, String-Comparable,
}
use red_man.Common.Dict.{get, put, remove, map_values, has, add, discard}

-- `boundedNumber` of an option, which is a number where it is given.
abbrev pub bounded_number : Option ℕ → ℕ → ℕ → ℕ → ℕ
bounded_number none fallback minimum maximum = fallback
bounded_number (some value) fallback minimum maximum = min maximum (max minimum value)

abbrev pub max_age_ms : Option ℕ → ℕ
max_age_ms option = bounded_number option 3600000 1000 86400000

pub record Measured : Type 0 where
  pub used_bytes : ℕ
  pub measured_at : ℕ

-- `usageCache` and `pendingUsage`.
pub record Usage : Type 0 where
  pub cache : List (String × Measured)
  pub pending : List String

-- `startScan` until `du` answers: a scan that is under way is joined.
abbrev pub start_scan : String → Usage → Usage
start_scan path u = if has u.pending path then u else record u { pending = add u.pending path }

-- What a call answers at once: a figure that is known, or it waits for the scan.
pub data Answer : Type 0 where
  known : ℕ → Bool → ℕ → Answer
  waiting : Answer

unfoldable pub get_quota_usage : Option ℕ → ℕ → String → Usage → Usage × Answer
get_quota_usage option now path u = elim (get u.cache path) [
  | none ↦ (start_scan path u, waiting)
  | some m ↦
      if ltb (now - m.measured_at) (max_age_ms option)
      then (u, known m.used_bytes false (now - m.measured_at))
      else (start_scan path u, known m.used_bytes true (now - m.measured_at))
]

-- The end of a scan: the kilobytes that `du` has counted, or none for a failure.
unfoldable pub end_scan : ℕ → String → Option ℕ → Usage → Usage
end_scan now path none u = record u { pending = discard u.pending path }
end_scan now path (some kilobytes) u = record {
  cache = put u.cache path (record { used_bytes = kilobytes * 1024; measured_at = now });
  pending = discard u.pending path;
}

unfoldable pub invalidate_quota_usage : Option String → Usage → Usage
invalidate_quota_usage none u = record u { cache = [] }
invalidate_quota_usage (some path) u = record u { cache = remove u.cache path }

abbrev pub as_stale : Measured → Measured
as_stale m = record m { measured_at = 0 }

unfoldable pub mark_quota_usage_stale : Option String → Usage → Usage
mark_quota_usage_stale none u = record u { cache = map_values (λ key m. as_stale m) u.cache }
mark_quota_usage_stale (some path) u = elim (get u.cache path) [
  | none ↦ u
  | some m ↦ record u { cache = put u.cache path (as_stale m) }
]
