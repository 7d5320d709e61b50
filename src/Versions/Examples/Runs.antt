-- ===== src/Versions/Examples/Runs.antt =====
-- The versions of the same destination around a backup run, and what a policy keeps.
use mathlib.Core.Path.{subst}
use red_man.Common.{
  List, inl, inr, ℕ, ◌≡◌, refl, ap, ◌∙◌, true, Option, none, some, [], ◌∷◌, ◌++◌, ◌/◌, arith,
  String-Comparable, ℕ-Comparable, pair-Comparable,
}
use red_man.Common.Dict
use red_man.Versions.Store.{Time, current, full, delta, Version, Store, version_at}
use red_man.Versions.Reconstruct.Denotes.{Denotes, stored}
use red_man.Versions.Rebase.{Config, put_version, rebase_deltas, newest_first}
use red_man.Versions.Rebase.Effect.{target}
use red_man.Versions.Rebase.Laws.{RunOf, OnlyTarget, rebase_deltas-Denotes, rebase_deltas_misses}
use red_man.Versions.Deltaify.{deltaify_snapshot, with_deltas, with_manifest, rdelta_of}
use red_man.Versions.Deltaify.Moments.{
  IsDirectory, NoClash, deltaify_moments, deltaify_snapshot-Denotes,
}
use red_man.Versions.BackupRun.{
  RunFile, directory, deleted, transferred, process_versions, process_versions-Denotes,
}
use red_man.Versions.Retention.{
  Policy, Tier, hourly, daily, weekly, monthly, quarterly, kept_snapshots, tier_of,
}
use red_man.Versions.Retention.Laws.{claimed_by, is_due, kept_snapshots_lem}
use red_man.Versions.Examples.{patch, notes, newest, middle, oldest, disk, middle_notes}

abbrev run_version : Version ℕ (ℕ × ℕ)
run_version = record { manifest = none; files = (notes, 9) ∷ []; deltas = [] }

-- 9 was replaced by 11, and the run's snapshot holds the 9.
abbrev after_run : Store ℕ (ℕ × ℕ)
after_run = record {
  current_files = (notes, 11) ∷ [];
  versions = (10, oldest) ∷ (20, middle) ∷ (30, newest) ∷ (40, run_version) ∷ [];
}

disk-RunOf : RunOf disk after_run (notes ∷ []) 40
disk-RunOf = record {
  others = λ t h. ground arith;
  absent = refl;
  own = run_version;
  own_at = refl;
  own_manifest = refl;
  saved = λ path b h g. ground arith;
}

abbrev config : Config
config = record {
  delta_versioning = true;
  delta_threshold = 50;
  delta_max_chain = 0;
  delta_keyframe_days = 0;
}

run_target : target (notes ∷ []) 40 after_run ≡ some 30
unfolding newest_first
run_target = refl

only_newest : OnlyTarget patch config (notes ∷ []) 40 after_run
only_newest time v path at rests =
    let at_30 : 30 ≡ time = ground arith in run_target ∙ ap (λ (t : Time). some t) at_30

rebase_deltas-Denotes_example :
    Denotes patch (rebase_deltas (notes ∷ []) 40 config after_run) notes 20 4
rebase_deltas-Denotes_example =
    rebase_deltas-Denotes patch config (notes ∷ []) 40 disk-RunOf refl only_newest (λ h. cc)
      middle_notes

-- The file was not changed by the run of 30, so its delta in 20 rests on the current file.
abbrev other_run : Version ℕ (ℕ × ℕ)
other_run = record {
  manifest = some (("b.txt", full 1 none) ∷ []);
  files = ("b.txt", 5) ∷ [];
  deltas = [];
}

abbrev skipped : Version ℕ (ℕ × ℕ)
skipped = record {
  manifest = some ((notes, delta 10 2 current) ∷ []);
  files = [];
  deltas = (notes, (9, 4)) ∷ [];
}

abbrev gap_before : Store ℕ (ℕ × ℕ)
gap_before = record {
  current_files = (notes, 9) ∷ [];
  versions = (20, skipped) ∷ (30, other_run) ∷ [];
}

abbrev gap_after : Store ℕ (ℕ × ℕ)
gap_after = record {
  current_files = (notes, 11) ∷ [];
  versions = (20, skipped) ∷ (30, other_run) ∷ (40, run_version) ∷ [];
}

gap-RunOf : RunOf gap_before gap_after (notes ∷ []) 40
gap-RunOf = record {
  others = λ t h. ground arith;
  absent = refl;
  own = run_version;
  own_at = refl;
  own_manifest = refl;
  saved = λ path b h g. ground arith;
}

gap_target : target (notes ∷ []) 40 gap_after ≡ some 30
unfolding newest_first
gap_target = refl

rebase_deltas_misses_example :
    Denotes patch gap_before notes 20 4
    × (¬ (Denotes patch (rebase_deltas (notes ∷ []) 40 config gap_after) notes 20 4))
rebase_deltas_misses_example =
    rebase_deltas_misses patch config (notes ∷ []) 40 gap-RunOf refl notes 20 skipped (9, 4) 9 11 4
      refl refl refl refl refl (λ h. cc (gap_target)) refl (λ h. cc)

abbrev rdiff : ℕ → ℕ → Option (ℕ × ℕ)
rdiff b c = some (b, c)

patch-rdiff : (b n : ℕ) (d : ℕ × ℕ) → rdiff b n ≡ some d → patch b d ≡ some n
patch-rdiff b n (x, c) h = ground (arith, ℕ-Comparable.eqv_iff b x)

abbrev size : ℕ → ℕ
size c = 100

abbrev delta_size : ℕ × ℕ → ℕ
delta_size d = 10

run_notes : Denotes patch after_run notes 40 9
run_notes = stored 40 run_version 9 refl refl refl

deltaified :
    Dict.get (deltaify_snapshot size delta_size rdiff config 40000 after_run 40).versions 40
    ≡ some (record {
      manifest = some ((notes, delta 100 10 current) ∷ []);
      files = [];
      deltas = (notes, (11, 9)) ∷ [];
    })
unfolding deltaify_snapshot newest_first
deltaified = refl

-- `notes.txt` is the one file, and `notes.txt.rdelta` is not there.
run_version-NoClash : NoClash run_version.files
run_version-NoClash path c file = elim (Dict.get-cons_inv [] notes path 9 file) [
  | inl (same, this) ↦ subst (λ p. Dict.get run_version.files (rdelta_of p) ≡ none) same refl
  | inr (other, below) ↦ absurd (ground arith)
]

fresh :
    (v : Version ℕ (ℕ × ℕ))
    → version_at after_run 40 ≡ some v
    → (v.manifest ≡ none) × IsDirectory v.files × NoClash v.files
fresh v at =
    let this : run_version ≡ v = cc (at) in
    subst (λ (w : Version ℕ (ℕ × ℕ)). (w.manifest ≡ none) × IsDirectory w.files × NoClash w.files)
      this (refl, (refl, tt), run_version-NoClash)

deltaify_snapshot-Denotes_example :
    Denotes patch (deltaify_snapshot size delta_size rdiff config 40000 after_run 40) notes 40 9
deltaify_snapshot-Denotes_example =
    deltaify_snapshot-Denotes size delta_size rdiff patch patch-rdiff config 40000 after_run 40
      fresh notes 40 9 run_notes

deltaify_moments_example :
    Denotes patch
      (put_version after_run 40
        (with_deltas size delta_size rdiff config 40000 after_run 40 run_version))
      notes
      40
      9
    × Denotes patch
        (put_version after_run 40
          (with_manifest size delta_size rdiff config 40000 after_run 40 run_version []))
        notes
        40
        9
deltaify_moments_example =
    deltaify_moments size delta_size rdiff patch patch-rdiff config 40000 after_run 40 run_version
      refl refl (refl, tt) run_version-NoClash [] (λ path h. cc) notes 40 9 run_notes

abbrev policy : Policy
policy = record { hourly = 24; daily = 7; weekly = 30; monthly = 90; quarterly = 365 }

abbrev period : Tier → Time → ℕ
period hourly time = 0
period daily time = time / 86400
period weekly time = time / 604800
period monthly time = time / 2592000
period quarterly time = time / 7776000

-- Ten days after the start: two snapshots of the last hours, and two of one day before.
kept_tail :
    kept_snapshots policy 864000000 period (860000 ∷ 840000 ∷ 734400 ∷ 691200 ∷ [])
    ≡ 860000 ∷ 840000 ∷ 734400 ∷ []
unfolding kept_snapshots tier_of
kept_tail = refl

kept_snapshots_lem_example :
    Dict.has
      (kept_snapshots policy 864000000 period ((860000 ∷ 840000 ∷ 734400 ∷ []) ++ 691200 ∷ []))
      691200
    ≡ is_due policy 864000000 period
        (claimed_by policy 864000000 period (860000 ∷ 840000 ∷ 734400 ∷ []))
        (tier_of policy 864000000 691200)
        691200
kept_snapshots_lem_example =
    kept_snapshots_lem policy 864000000 period (860000 ∷ 840000 ∷ 734400 ∷ []) [] 691200 refl refl

-- What the run reports: a directory, a file that it has deleted, and the notes.
abbrev run_files : List RunFile
run_files =
    record { file_path = "."; action = directory }
    ∷ record { file_path = "old.txt"; action = deleted }
    ∷ record { file_path = notes; action = transferred }
    ∷ []

process_versions-Denotes_example :
    Denotes patch
      (process_versions size delta_size rdiff config 40000 run_files 40 after_run)
      notes
      20
      4
unfolding disk-RunOf
process_versions-Denotes_example =
    process_versions-Denotes size delta_size rdiff patch patch-rdiff config 40000 run_files 40
      disk-RunOf refl only_newest (refl, tt) run_version-NoClash notes 20 4 (λ h. cc) middle_notes
