-- ===== src/Quota/Examples.antt =====
-- A path that is scanned, marked, and scanned again without success.
use red_man.Common.{◌≡◌, refl, true, none, some, List, [], ◌∷◌, ◌++◌}
use red_man.Quota.{get_quota_usage, known}
use red_man.Quota.Remembered.{
  Event, run, scanned, scan_failed, marked, asked, invalidated, get_quota_usage_remembers,
}

abbrev since_then : List Event
since_then =
    scan_failed 9000 "/data"
    ∷ asked none 4000 "/data"
    ∷ marked (some "/data")
    ∷ invalidated (some "/other")
    ∷ []

get_quota_usage_remembers_example :
    (get_quota_usage none 3600000 "/data" (run (since_then ++ scanned 1000 "/data" 5 ∷ []))).1
    ≡ known 5120 true 3600000
get_quota_usage_remembers_example =
    get_quota_usage_remembers "/data" 5 1000 [] since_then refl none 3600000
