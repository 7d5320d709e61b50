-- ===== src/Health/Examples.antt =====
-- The health of destinations at concrete inputs.
use red_man.Common.{◌-◌, ◌≤◌, ◌≡◌, refl, some, [], ◌∷◌, String, ℕ-Comparable}
use red_man.Common.Dict
use red_man.Health.{
  Known, Health, answered, expired, not_asked, initial, refresh_interval_ms, expire_after_ms,
  report_on, get_destination_health, finish_refresh, clear_destination_health_cache,
}
use red_man.Health.Current.{Reach, here, reads, finishes, answered-Current}

abbrev asked : Health String
asked = (get_destination_health refresh_interval_ms 5000000 (1 ∷ 2 ∷ []) initial).0

abbrev told : Health String
told = finish_refresh 0 5000100 (some ((1, "healthy") ∷ [])) asked

told_reports :
    (report_on told 5000200 1 ≡ answered "healthy" 100)
    × (report_on told 5000200 2 ≡ not_asked)
    × (report_on told 30000000 1 ≡ expired 24999900)
unfolding get_destination_health finish_refresh
told_reports = (refl, refl, refl)

-- The cache is cleared while the refresh is on its way: its answer is dropped.
late_answer :
    report_on
      (finish_refresh 0 5000100 (some ((1, "healthy") ∷ [])) (clear_destination_health_cache asked))
      5000200
      1
    ≡ not_asked
unfolding get_destination_health finish_refresh clear_destination_health_cache report_on
late_answer = refl

told-Reach : Reach told
told-Reach =
    finishes 0 5000100 (some ((1, "healthy") ∷ []))
      (reads refresh_interval_ms 5000000 (1 ∷ 2 ∷ []) here)

answered-Current_example :
    (k : Known String) × (Dict.get told.last_known 1 ≡ some k)
    × (k.answer ≡ "healthy")
    × (100 ≡ 5000200 - k.at)
    × (100 ≤ expire_after_ms)
    × (k.asked_in ≡ told.generation)
unfolding get_destination_health finish_refresh
answered-Current_example = answered-Current told-Reach 5000200 1 "healthy" 100 refl
