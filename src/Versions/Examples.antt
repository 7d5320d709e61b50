-- ===== src/Versions/Examples.antt =====
-- The versions of a small destination: contents are numbers, and a delta is a pair of the content
-- it rests on and the one it gives.
mod Runs
use red_man.Common.{
  ℕ, ◌+◌, ◌≤◌, ◌<◌, ◌≡◌, refl, ◌≢◌, ◌↔◌, ap, sym, ◌∙◌, ◌⊎◌, inl, inr, String, Bool, true, false,
  Option, none, some, List, [], ◌∷◌, ◌++◌, arith, ◌===◌, if◌then◌else◌, String-Comparable,
  ℕ-Comparable, pair-Comparable, Option-cases, Bool-cases,
}
use text.Mathlib.TextEquality.{eq_iff}
use red_man.Common.Dict
use red_man.Versions.Store.{
  Time, Base, current, snapshot, keyframe_chain, promoted, Entry, full, delta, Version, Store,
  delta_base, version_at,
}
use red_man.Versions.Reconstruct.{Result, ok, err, no_end, reconstruct_file}
use red_man.Versions.Reconstruct.Denotes.{Denotes, stored, on_current, on_snapshot, RestsLater}
use red_man.Versions.Reconstruct.Laws.{reconstruct_file_iff}
use red_man.Versions.Reconstruct.Ends.{reconstruct_file_ends}
use red_man.Versions.Prune.{delete_loop, promote_delta_to_full}
use red_man.Versions.Prune.Guards.{promote_delta_to_full-Denotes}
use red_man.Versions.Prune.Kept.{Covers, delete_loop-Denotes, delete_loop-gone}
use red_man.Versions.Prune.Returns.{IsIntact, delete_loop_returns}
use red_man.Versions.Rebase.{Config, rebase_deltas, newest_first}
use red_man.Versions.Rebase.Effect.{target}
use red_man.Versions.Rebase.Laws.{RunOf, OnlyTarget, rebase_deltas-Denotes, rebase_deltas_misses}

abbrev patch : ℕ → ℕ × ℕ → Option ℕ
patch b (x, c) = if b === x then some c else none

abbrev notes : String
notes = "docs/notes.txt"

abbrev newest : Version ℕ (ℕ × ℕ)
newest = record {
  manifest = some ((notes, delta 10 2 current) ∷ []);
  files = ("b.txt", 5) ∷ [];
  deltas = (notes, (9, 7)) ∷ [];
}

abbrev middle : Version ℕ (ℕ × ℕ)
middle = record {
  manifest = some ((notes, delta 10 2 (snapshot 30)) ∷ []);
  files = [];
  deltas = (notes, (7, 4)) ∷ [];
}

abbrev oldest : Version ℕ (ℕ × ℕ)
oldest = record { manifest = none; files = (notes, 1) ∷ []; deltas = [] }

abbrev disk : Store ℕ (ℕ × ℕ)
disk = record {
  current_files = (notes, 9) ∷ [];
  versions = (10, oldest) ∷ (20, middle) ∷ (30, newest) ∷ [];
}

disk-RestsLater : RestsLater disk
disk-RestsLater time base v path at rests = ground arith

reconstructed :
    (reconstruct_file patch disk 20 notes ≡ ok (some 4))
    × (reconstruct_file patch disk 10 notes ≡ ok (some 1))
unfolding reconstruct_file
reconstructed = (refl, refl)

reconstruct_file_iff_example :
    (reconstruct_file patch disk 20 notes ≡ ok (some 4)) ↔ Denotes patch disk notes 20 4
reconstruct_file_iff_example = reconstruct_file_iff patch disk notes 20 4 disk-RestsLater

reconstruct_file_ends_example : reconstruct_file patch disk 20 notes ≢ err no_end
reconstruct_file_ends_example = reconstruct_file_ends patch disk notes 20 disk-RestsLater

middle_notes : Denotes patch disk notes 20 4
unfolding reconstruct_file
middle_notes = reconstruct_file_iff_example.0 refl

disk-Covers : Covers patch (30 ∷ 20 ∷ 10 ∷ []) disk
disk-Covers path time v base at rests = ground arith

abbrev promoted_middle : Version ℕ (ℕ × ℕ)
promoted_middle = record {
  manifest = some ((notes, full 10 (some promoted)) ∷ []);
  files = (notes, 4) ∷ [];
  deltas = [];
}

abbrev disk_pruned : Store ℕ (ℕ × ℕ)
disk_pruned = record { current_files = (notes, 9) ∷ []; versions = (20, promoted_middle) ∷ [] }

disk_pruned_run :
    delete_loop patch (20 ∷ []) (30 ∷ 20 ∷ 10 ∷ []) disk (30 ∷ 20 ∷ 10 ∷ []) ≡ ok disk_pruned
unfolding delete_loop reconstruct_file promote_delta_to_full
disk_pruned_run = refl

delete_loop-Denotes_example : Denotes patch disk_pruned notes 20 4
delete_loop-Denotes_example =
    delete_loop-Denotes patch (20 ∷ []) (30 ∷ 20 ∷ 10 ∷ []) disk disk_pruned disk-RestsLater
      disk-Covers disk_pruned_run notes 20 4 refl middle_notes

delete_loop-gone_example : version_at disk_pruned 30 ≡ none
delete_loop-gone_example =
    delete_loop-gone patch (20 ∷ []) (30 ∷ 20 ∷ 10 ∷ []) disk disk_pruned disk-RestsLater
      disk-Covers disk_pruned_run 30 refl refl

disk_deltas :
    (path : String) (time : Time) (v : Version ℕ (ℕ × ℕ)) (base : Base)
    → version_at disk time ≡ some v
    → delta_base v path ≡ some base
    → (path ≡ notes) × ((time ≡ 20) ⊎ (time ≡ 30))
disk_deltas path time v base at rests = ground (arith, eq_iff notes path)

disk-IsIntact : IsIntact patch disk
disk-IsIntact path time v base at rests =
    let (p, when) = disk_deltas path time v base at rests in
    elim when [
      | inl t ↦ (4, rw (p, t) middle_notes)
      | inr t ↦ (7, rw (p, t) (on_current 30 newest (9, 7) 9 7 refl refl refl refl refl))
    ]

delete_loop_returns_example :
    (t : Store ℕ (ℕ × ℕ)) × (delete_loop patch
        (20 ∷ [])
        (30 ∷ 20 ∷ 10 ∷ [])
        disk
        (30 ∷ 20 ∷ 10 ∷ [])
      ≡ ok t)
    × IsIntact patch t
delete_loop_returns_example =
    delete_loop_returns patch (20 ∷ []) (30 ∷ 20 ∷ 10 ∷ []) disk disk-RestsLater disk-Covers
      disk-IsIntact

abbrev disk_promoted : Store ℕ (ℕ × ℕ)
disk_promoted = record {
  current_files = (notes, 9) ∷ [];
  versions = (10, oldest) ∷ (20, promoted_middle) ∷ (30, newest) ∷ [];
}

disk_promoted_run : promote_delta_to_full patch disk 20 notes ≡ ok disk_promoted
unfolding promote_delta_to_full reconstruct_file
disk_promoted_run = refl

promote_delta_to_full-Denotes_example :
    Denotes patch disk_promoted notes 20 4 × (delta_base promoted_middle notes ≡ none)
promote_delta_to_full-Denotes_example =
    promote_delta_to_full-Denotes patch disk disk_promoted 20 notes disk-RestsLater
      disk_promoted_run notes 20 4 promoted_middle middle_notes refl
