-- ===== src/Versions/Prune.antt =====
-- `promoteDeltaToFull` of deltaVersion.js, and `promoteDependent` and the deleting loop of
-- `pruneVersions` in versionBrowser.js. An error stops the loop where it stands.
pub mod Promote
pub mod Guards
pub mod Deletion
pub mod Kept
pub mod Returns
use red_man.Common.{
  ℕ, String, Bool, true, false, Option, none, some, List, [], ◌∷◌, leb, ◌===◌, if◌then◌else◌,
  String-Comparable, ℕ-Comparable,
}
use red_man.Common.Dict
use red_man.Versions.Store.{
  Time, Base, current, snapshot, Entry, full, delta, promoted, Version, Store, manifest_entry,
  version_at,
}
use red_man.Versions.Reconstruct.{
  Result, ok, err, cannot_reconstruct, ◌>>=◌, or_throw, reconstruct_file,
}
use red_man.Versions.Rebase.{put_version, manifest_at}

-- `entry.type === 'delta' && entry.base === deletingTimestamp`
abbrev pub rests_on : Time → Entry → Bool
rests_on time (full size reason) = false
rests_on time (delta size delta_size current) = false
rests_on time (delta size delta_size (snapshot b)) = b === time

module _ {C D : Type 0} where
  abbrev pub promoted_version : Version C D → List (String × Entry) → String → C → ℕ → Version C D
  promoted_version v files path c size = record {
    manifest = some (Dict.put files path (full size (some promoted)));
    files = Dict.put v.files path c;
    deltas = Dict.remove v.deltas path;
  }

  unfoldable pub delete_version : Store C D → Time → Store C D
  delete_version s time = record s { versions = Dict.remove s.versions time }

module _ {C D : Type 0} (patch : C → D → Option C) where
  -- The part behind the guards: reconstruct, write the full file and the manifest, drop the delta.
  unfoldable pub promote_entry :
      Store C D → Time → String → Version C D → List (String × Entry) → Entry → Result (Store C D)
  promote_entry s time path v files (full size reason) = ok s
  promote_entry s time path v files (delta size delta_size base) = do
    found ← reconstruct_file patch s time path
    c ← or_throw cannot_reconstruct found
    ok (put_version s time (promoted_version v files path c size))

  unfoldable pub promote_delta_to_full : Store C D → Time → String → Result (Store C D)
  unfolding promote_entry
  promote_delta_to_full s time path = elim (version_at s time) [
    | none ↦ ok s
    | some v ↦ elim v.manifest [
      | none ↦ ok s
      | some files ↦ elim (Dict.get files path) [
        | none ↦ ok s
        | some entry ↦ promote_entry s time path v files entry
      ]
    ]
  ]

  module _ (deleting : Time) where
    -- The inner loop, over the entries of a dependent's manifest as they were read.
    unfoldable pub promote_entries : Store C D → Time → List (String × Entry) → Result (Store C D)
    promote_entries s time [] = ok s
    promote_entries s time ((path, entry) ∷ entries) = do
      s' ← if rests_on deleting entry then promote_delta_to_full s time path else ok s
      promote_entries s' time entries

    -- One round of the outer loop.
    unfoldable pub promote_version : Store C D → Time → Result (Store C D)
    unfolding promote_entries
    promote_version s time =
        if leb deleting time
        then ok s
        else (elim (manifest_at s time) [ none ↦ ok s | some files ↦ promote_entries s time files ])

    unfoldable pub promote_dependent : Store C D → List Time → Result (Store C D)
    unfolding promote_version
    promote_dependent s [] = ok s
    promote_dependent s (time ∷ times) = do s' ← promote_version s time; promote_dependent s' times

  module _ (keep : List Time) (all_times : List Time) where
    -- The loop that deletes what is not kept; its list is the fixed one of all snapshots.
    unfoldable pub delete_loop : Store C D → List Time → Result (Store C D)
    unfolding promote_dependent delete_version
    delete_loop s [] = ok s
    delete_loop s (time ∷ times) = do
      s' ←
          if Dict.has keep time
          then ok s
          else (do safe ← promote_dependent time s all_times; ok (delete_version safe time))
      delete_loop s' times
