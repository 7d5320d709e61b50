-- ===== src/Versions/BackupRun.antt =====
-- What app/backend/src/services/rsync.js does with the versions behind a backup run, under the lock of
-- the configuration: the rebase, and then the new snapshot turned into deltas.
use red_man.Common.{
  ℕ, ◌≡◌, ◌≢◌, ◌∙◌, inl, inr, String, Bool, true, false, if◌then◌else◌, Option, none, some, List,
  [], ◌∷◌, arith, String-Comparable, ℕ-Comparable, ◌===◌, Bool-cases, Option-cases, eq_refl,
}
use red_man.Versions.Store.{Time, Version, Store, version_at}
use red_man.Versions.Reconstruct.Denotes.{Denotes}
use red_man.Versions.Rebase.{Config, manifest_at, rebase_deltas, newest_first, times_of}
use red_man.Versions.Rebase.Effect.{target_in, rebase_deltas-version}
use red_man.Versions.Rebase.Laws.{RunOf, IsKept, OnlyTarget, rebase_deltas-Denotes}
use red_man.Versions.Deltaify.{deltaify_snapshot}
use red_man.Versions.Deltaify.Moments.{IsDirectory, NoClash, deltaify_snapshot-Denotes}

-- `action` of a row of backup_run_files.
pub data Action : Type 0 where
  transferred created updated deleted unchanged directory unknown : Action

-- What rsync reported of a path.
pub record RunFile : Type 0 where
  pub file_path : String
  pub action : Action

-- `action IN ('transferred', 'created', 'updated')`
abbrev pub is_change : Action → Bool
is_change transferred = true
is_change created = true
is_change updated = true
is_change other = false

abbrev pub changed_files : List RunFile → List String
changed_files [] = []
changed_files (f ∷ files) =
    if is_change f.action then f.file_path ∷ changed_files files else changed_files files

module _ {C D : Type 0} (size : C → ℕ) (delta_size : D → ℕ) (rdiff : C → C → Option D) where
  -- The stage 'delta versioning'.
  unfoldable pub process_versions : Config → ℕ → List RunFile → Time → Store C D → Store C D
  process_versions config now run_files new_time s =
      deltaify_snapshot size delta_size rdiff config now
        (rebase_deltas (changed_files run_files) new_time config s) new_time

-- The rebase never changes the run's own snapshot.
target_in_other :
    {C D : Type 0} (changed : List String) (new_time : Time) (s : Store C D) (times : List Time)
    → target_in changed new_time s times ≢ some new_time
target_in_other changed new_time s [] h = cc
target_in_other changed new_time s (t ∷ times) h = elim (Bool-cases (t === new_time)) [
  | inl own ↦ target_in_other changed new_time s times (ground arith)
  | inr other ↦ elim (Option-cases (manifest_at s t)) [
    | inl unread ↦ target_in_other changed new_time s times (ground arith)
    | inr (files, read) ↦
        let e : t ≡ new_time = ground arith in cc (rw (e, eq_refl new_time) at other)
  ]
]

module _ {C D : Type 0} (size : C → ℕ) (delta_size : D → ℕ) (rdiff : C → C → Option D)
    (patch : C → D → Option C)
    (patch-rdiff : (b n : C) (d : D) → rdiff b n ≡ some d → patch b d ≡ some n) (config : Config)
    (now : ℕ) (run_files : List RunFile) (new_time : Time) {before after : Store C D} where
  -- Let `rdiff patch` undo `rdiff delta`. If a run has saved the files that it reports as transferred,
  -- created or updated in its own snapshot, where no file has the name that the delta of another gets,
  -- and only the newest manifest has deltas on current files, then a file of an older snapshot stands
  -- for the same content before the run and once its versions are processed, where the run has
  -- reported the path in one of these ways or has left the current file as it was: not where it has
  -- deleted that file.
  pub process_versions-Denotes :
      (run : RunOf before after (changed_files run_files) new_time)
      → config.delta_versioning ≡ true
      → OnlyTarget patch config (changed_files run_files) new_time after
      → IsDirectory run.own.files
      → NoClash run.own.files
      → (path : String) (time : Time) (c : C) → IsKept before after (changed_files run_files) path
      → Denotes patch before path time c
      → Denotes patch
          (process_versions size delta_size rdiff config now run_files new_time after)
          path
          time
          c
  unfolding process_versions
  process_versions-Denotes run on only dir apart path time c left h =
      deltaify_snapshot-Denotes size delta_size rdiff patch patch-rdiff config now
        (rebase_deltas (changed_files run_files) new_time config after) new_time fresh path time c
        (rebase_deltas-Denotes patch config (changed_files run_files) new_time run on only left h)
    where
      own_there :
          version_at (rebase_deltas (changed_files run_files) new_time config after) new_time
          ≡ some run.own
      own_there =
          elim (rebase_deltas-version (changed_files run_files) new_time config after new_time on) [
            | inl (_, same) ↦ same ∙ run.own_at
            | inr (v, hit, _, _) ↦ absurd (
                target_in_other (changed_files run_files) new_time after
                  (newest_first (times_of after.versions)) hit)
          ]

      fresh :
          (v : Version C D)
          → version_at (rebase_deltas (changed_files run_files) new_time config after) new_time
            ≡ some v
          → (v.manifest ≡ none) × IsDirectory v.files × NoClash v.files
      fresh v at =
          let this : run.own ≡ v = cc (own_there) in rw (← this) (run.own_manifest, dir, apart)
