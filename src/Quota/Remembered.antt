-- ===== src/Quota/Remembered.antt =====
-- What app/backend/src/services/quotaUsage.js remembers of what has happened.
use mathlib.Core.Path.{ap, subst, ◌∙◌}
use red_man.Common.{
  ℕ, ◌*◌, ◌-◌, ◌≡◌, String, Bool, true, false, not, Option, none, some, List, [], ◌∷◌, ◌++◌, arith,
  any, ltb, ◌===◌, if◌then◌else◌, eq_refl, eq_cases, ne→beq, Bool-cases, Option-cases, inl, inr,
  String-Comparable,
}
use red_man.Common.Dict.{get, get-put, get-remove, get-map_values}
use red_man.Quota.{
  Usage, known, as_stale, max_age_ms, get_quota_usage, end_scan, invalidate_quota_usage,
  mark_quota_usage_stale,
}

-- What happens to the service.
pub data Event : Type 0 where
  asked : Option ℕ → ℕ → String → Event
  scanned : ℕ → String → ℕ → Event
  scan_failed : ℕ → String → Event
  invalidated marked : Option String → Event

-- One event after another, the newest first.
unfoldable pub run : List Event → Usage
run [] = record { cache = []; pending = [] }
run (asked option now path ∷ events) = (get_quota_usage option now path (run events)).0
run (scanned now path kilobytes ∷ events) = end_scan now path (some kilobytes) (run events)
run (scan_failed now path ∷ events) = end_scan now path none (run events)
run (invalidated path ∷ events) = invalidate_quota_usage path (run events)
run (marked path ∷ events) = mark_quota_usage_stale path (run events)

abbrev pub concerns : String → Option String → Bool
concerns path none = true
concerns path (some other) = other === path

-- Whether an event replaces the figure of a path or forgets it.
abbrev pub replaces : String → Event → Bool
replaces path (scanned now other kilobytes) = other === path
replaces path (invalidated other) = concerns path other
replaces path event = false

abbrev pub marks : String → Event → Bool
marks path (marked other) = concerns path other
marks path event = false

-- When a figure counts as measured, by what has happened since.
abbrev pub since : String → List Event → ℕ → ℕ
since path newer at = if any (marks path) newer then 0 else at

remembered :
    (path : String) (kilobytes at : ℕ) (older newer : List Event)
    → any (replaces path) newer ≡ false
    → get (run (newer ++ scanned at path kilobytes ∷ older)).cache path
      ≡ some (record { used_bytes = kilobytes * 1024; measured_at = since path newer at })
unfolding run get_quota_usage end_scan invalidate_quota_usage mark_quota_usage_stale
remembered path kilobytes at older [] kept =
    let e =
      get-put (run older).cache path path
        (record { used_bytes = kilobytes * 1024; measured_at = at }) in
    let s = eq_refl path in ground arith
remembered path kilobytes at older (asked option now other ∷ newer) kept =
    let e = remembered path kilobytes at older newer (ground arith) in ground arith
remembered path kilobytes at older (scanned now other kb ∷ newer) kept =
    let e = remembered path kilobytes at older newer (ground arith) in
    let u = run (newer ++ scanned at path kilobytes ∷ older) in
    let p = get-put u.cache other path (record { used_bytes = kb * 1024; measured_at = now }) in
    ground arith
remembered path kilobytes at older (scan_failed now other ∷ newer) kept =
    let e = remembered path kilobytes at older newer (ground arith) in ground arith
remembered path kilobytes at older (invalidated none ∷ newer) kept = absurd (ground arith)
remembered path kilobytes at older (invalidated (some other) ∷ newer) kept =
    let e = remembered path kilobytes at older newer (ground arith) in
    let u = run (newer ++ scanned at path kilobytes ∷ older) in
    let p = get-remove u.cache other path in ground arith
remembered path kilobytes at older (marked none ∷ newer) kept =
    let e = remembered path kilobytes at older newer (ground arith) in
    let u = run (newer ++ scanned at path kilobytes ∷ older) in
    let p = get-map_values (λ (key : String) m. as_stale m) u.cache path in ground arith
remembered path kilobytes at older (marked (some other) ∷ newer) kept =
    let e = remembered path kilobytes at older newer (ground arith) in
    let u = run (newer ++ scanned at path kilobytes ∷ older) in
    elim (eq_cases other path) [
      | inl same ↦
          let b : (other === path) ≡ true =
            subst (λ p. (other === p) ≡ true) same (eq_refl other) in
          let found = ap (λ p. get u.cache p) same ∙ e in
          let p = get-put u.cache other path (
            as_stale
              (record { used_bytes = kilobytes * 1024; measured_at = since path newer at })) in
          ground arith
      | inr apart ↦
          let b = ne→beq other path apart in
          elim (Option-cases (get u.cache other)) [
            | inl missing ↦ ground arith
            | inr (m, found) ↦ let p = get-put u.cache other path (as_stale m) in ground arith
          ]
    ]

-- Let a scan of a path have succeeded, and let no scan of the path have succeeded since, nor the path been
-- forgotten. Then, whatever else has happened before and since, a call is answered from that scan: at once, as
-- old as it is, or as old as the clock if the path has been marked since, and as stale if that is at least the age
-- that the call allows.
pub get_quota_usage_remembers :
    (path : String) (kilobytes at : ℕ) (older newer : List Event)
    → any (replaces path) newer ≡ false
    → (option : Option ℕ) (now : ℕ)
    → (get_quota_usage option now path (run (newer ++ scanned at path kilobytes ∷ older))).1
      ≡ known
          (kilobytes * 1024)
          (not (ltb (now - since path newer at) (max_age_ms option)))
          (now - since path newer at)
unfolding get_quota_usage
get_quota_usage_remembers path kilobytes at older newer kept option now =
    let e = remembered path kilobytes at older newer kept in
    elim (Bool-cases (ltb (now - since path newer at) (max_age_ms option))) [
      | inl fresh ↦ ground arith
      | inr stale ↦ ground arith
    ]
