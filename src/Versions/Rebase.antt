-- ===== src/Versions/Rebase.antt =====
-- `rebaseDeltasWithTimestamp` of deltaVersion.js: after a backup run, the deltas that rest on a
-- current file which the run has replaced are to rest on the copy in the run's own snapshot.
pub mod Effect
pub mod Laws
use red_man.Common.{
  ℕ, String, Bool, true, false, Option, none, some, List, [], ◌∷◌, leb, ◌===◌, if◌then◌else◌,
  String-Comparable, ℕ-Comparable,
}
use red_man.Common.Dict
use red_man.Versions.Store.{
  Time, Base, current, snapshot, Entry, full, delta, Version, Store, version_at,
}

-- The columns of `ssd_backup_configs` that these functions read.
pub record Config : Type 0 where
  pub delta_versioning : Bool
  pub delta_threshold : ℕ
  pub delta_max_chain : ℕ
  pub delta_keyframe_days : ℕ

insert_newest : Time → List Time → List Time
insert_newest t [] = t ∷ []
insert_newest t (u ∷ times) = if leb u t then t ∷ u ∷ times else u ∷ insert_newest t times

-- `.sort().reverse()`
unfoldable pub newest_first : List Time → List Time
unfolding insert_newest
newest_first [] = []
newest_first (t ∷ times) = insert_newest t (newest_first times)

abbrev pub times_of {ℓ} : {A : Type ℓ} → List (Time × A) → List Time
times_of [] = []
times_of ((t, v) ∷ versions) = t ∷ times_of versions

-- The loop's body on one entry of a manifest.
unfoldable pub rebase_entry : List String → Time → String → Entry → Entry
rebase_entry changed new_time path (delta size delta_size current) =
    if Dict.has changed path
    then delta size delta_size (snapshot new_time)
    else delta size delta_size current
rebase_entry changed new_time path entry = entry

module _ {C D : Type 0} where
  abbrev pub put_version : Store C D → Time → Version C D → Store C D
  put_version s time v = record s { versions = Dict.put s.versions time v }

  -- The manifest of a snapshot, if it can be read.
  abbrev pub manifest_at : Store C D → Time → Option (List (String × Entry))
  manifest_at s time = elim (version_at s time) [ none ↦ none | some v ↦ v.manifest ]

  -- `writeManifest`. A manifest in which nothing was dirty is written back as it was, where the
  -- code leaves it alone.
  unfoldable pub write_manifest : Store C D → Time → List (String × Entry) → Store C D
  write_manifest s time files = elim (version_at s time) [
    | none ↦ s
    | some v ↦ put_version s time (record v { manifest = some files })
  ]

  module _ (changed : List String) (new_time : Time) where
    -- The loop over the snapshots, the newest first. It stops behind the first manifest.
    unfoldable pub rebase_loop : Store C D → List Time → Store C D
    unfolding write_manifest rebase_entry
    rebase_loop s [] = s
    rebase_loop s (t ∷ times) =
        let rest = rebase_loop s times in
        if t === new_time then rest else (elim (manifest_at s t) [
          | none ↦ rest
          | some files ↦ write_manifest s t (Dict.map_values (rebase_entry changed new_time) files)
        ])

    unfoldable pub rebase_deltas : Config → Store C D → Store C D
    unfolding rebase_loop newest_first
    rebase_deltas config s =
        if config.delta_versioning then rebase_loop s (newest_first (times_of s.versions)) else s
