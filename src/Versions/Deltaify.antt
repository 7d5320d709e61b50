-- ===== src/Versions/Deltaify.antt =====
-- `deltaifySnapshot` of deltaVersion.js: after a backup run, the full files of the new snapshot
-- are turned into deltas on the current files where that pays. `rdiff signature` with
-- `rdiff delta` is a parameter that may fail, and so are the sizes of contents and deltas. The
-- files are treated one by one, in place of several at a time. The delta of `x` is written to
-- `x.rdelta` beside it, or removed from there: a file of the snapshot that has this name is gone then.
-- What its own treatment makes of it is not followed further. The percentages are compared as exact fractions, where the code divides floats.
pub mod Laws
pub mod Moments
use red_man.Common.{
  ℕ, zero, suc, ◌+◌, ◌*◌, ◌-◌, String, Bool, true, false, ◌&&◌, Option, none, some, List, [], ◌∷◌,
  ltb, leb, ◌===◌, if◌then◌else◌, String-Comparable, ℕ-Comparable,
}
use red_man.Common.Dict
use Prim.Native.String
use red_man.Versions.Store.{
  Time, Base, current, Reason, keyframe_chain, keyframe_age, below_threshold, error, Entry, full,
  delta, Version, Store, delta_base, version_at,
}
use red_man.Versions.Rebase.{Config, newest_first, times_of, put_version}

-- `config.x || d`
abbrev pub or_default : ℕ → ℕ → ℕ
or_default zero d = d
or_default (suc n) d = suc n

abbrev pub ms_per_day : ℕ
ms_per_day = 86400000

-- What becomes of a file: it stays and its delta file is not looked at, it stays and its delta
-- file is removed, or the delta stands for it.
pub data Decision (D : Type 0) : Type 0 where
  stays unlinked : Entry → Decision D
  converted : Entry → D → Decision D

abbrev pub entry_of : {D : Type 0} → Decision D → Entry
entry_of (stays e) = e
entry_of (unlinked e) = e
entry_of (converted e d) = e

abbrev pub is_converted : {D : Type 0} → Decision D → Bool
is_converted (converted e d) = true
is_converted other = false

-- The delta files once a decision is carried out.
abbrev pub place_delta : {D : Type 0} → List (String × D) → String → Decision D → List (String × D)
place_delta deltas path (stays e) = deltas
place_delta deltas path (unlinked e) = Dict.remove deltas path
place_delta deltas path (converted e d) = Dict.put deltas path d

abbrev pub is_placed : {D : Type 0} → Decision D → Bool
is_placed (stays e) = false
is_placed other = true

-- `file.fullPath + '.rdelta'`
abbrev pub rdelta_of : String → String
rdelta_of path = String.◌++◌ path ".rdelta"

module _ {C D : Type 0} where
  -- How many snapshots later than `time` have a delta of the file.
  unfoldable pub chain_length : List (Time × Version C D) → Time → String → ℕ
  chain_length [] time path = 0
  chain_length ((t, v) ∷ versions) time path =
      let rest = chain_length versions time path in
      if ltb time t then (elim (delta_base v path) [ none ↦ rest | some base ↦ suc rest ]) else rest

  -- The first snapshot up to `time`, the oldest first, without a delta of the file.
  unfoldable pub oldest_keyframe : Store C D → List Time → Time → String → Option Time
  oldest_keyframe s [] time path = none
  oldest_keyframe s (t ∷ times) time path =
      let rest = oldest_keyframe s times time path in
      if leb t time
      then (elim (version_at s t) [
        | none ↦ some t
        | some v ↦ elim (delta_base v path) [ none ↦ some t | some base ↦ rest ]
      ])
      else rest

abbrev pub reversed : List Time → List Time → List Time
reversed acc [] = acc
reversed acc (t ∷ times) = reversed (t ∷ acc) times

-- `savingsPercent >= threshold`; nothing is saved on an empty file.
unfoldable pub saves_enough : ℕ → ℕ → ℕ → Bool
saves_enough threshold size delta_size =
    ltb 0 size && leb (threshold * size + 100 * delta_size) (100 * size)

abbrev pub is_empty {ℓ} : {A : Type ℓ} → List A → Bool
is_empty [] = true
is_empty (x ∷ xs) = false

module _ {C D : Type 0} (size : C → ℕ) (delta_size : D → ℕ) (rdiff : C → C → Option D) where
  -- The part behind the keyframe rules.
  unfoldable pub compute_delta : ℕ → C → C → Decision D
  unfolding saves_enough
  compute_delta threshold base c = elim (rdiff base c) [
    | none ↦ unlinked (full (size c) (some error))
    | some d ↦
        if saves_enough threshold (size c) (delta_size d)
        then converted (delta (size c) (delta_size d) current) d
        else unlinked (full (size c) (some below_threshold))
  ]

  module _ (config : Config) (now : ℕ) (s : Store C D) (time : Time) where
    abbrev pub is_aged : Option Time → Bool
    is_aged none = false
    is_aged (some t) = leb (or_default config.delta_keyframe_days 7 * ms_per_day) (now - t * 1000)

    -- The function that is run on each file.
    unfoldable pub decide : String → C → Decision D
    unfolding compute_delta chain_length oldest_keyframe newest_first
    decide path c = elim (Dict.get s.current_files path) [
      | none ↦ stays (full (size c) none)
      | some base ↦
          if leb (or_default config.delta_max_chain 10) (chain_length s.versions time path)
          then stays (full (size c) (some keyframe_chain))
          else if is_aged
              (oldest_keyframe s (reversed [] (newest_first (times_of s.versions))) time path)
          then stays (full (size c) (some keyframe_age))
          else compute_delta (or_default config.delta_threshold 50) base c
    ]

    -- The delta files, once all files are treated.
    unfoldable pub write_deltas : List (String × D) → List (String × C) → List (String × D)
    unfolding decide
    write_deltas deltas [] = deltas
    write_deltas deltas ((path, c) ∷ files) =
        place_delta (write_deltas deltas files) path (decide path c)

    unfoldable pub converted_files : List (String × C) → List String
    unfolding decide
    converted_files [] = []
    converted_files ((path, c) ∷ files) =
        if is_converted (decide path c) then path ∷ converted_files files else converted_files files

    -- The names at which a delta is written or removed.
    unfoldable pub overwritten : List (String × C) → List String
    unfolding decide
    overwritten [] = []
    overwritten ((path, c) ∷ files) =
        if is_placed (decide path c) then rdelta_of path ∷ overwritten files else overwritten files

    -- The snapshot with the deltas, before the manifest is written.
    unfoldable pub with_deltas : Version C D → Version C D
    unfolding write_deltas overwritten
    with_deltas v = record v {
      deltas = write_deltas v.deltas v.files;
      files = Dict.remove_all v.files (overwritten v.files);
    }

    -- The snapshot with its manifest, when some of the converted full files are removed.
    unfoldable pub with_manifest : Version C D → List String → Version C D
    unfolding with_deltas
    with_manifest v gone = record (with_deltas v) {
      manifest = some (Dict.map_entries (λ path c. entry_of (decide path c)) v.files);
      files = Dict.remove_all (with_deltas v).files gone;
    }

    unfoldable pub deltaify_snapshot : Store C D
    unfolding with_manifest converted_files
    deltaify_snapshot =
        if config.delta_versioning
        then (elim (version_at s time) [
          | none ↦ s
          | some v ↦
              if is_empty v.files
              then s
              else put_version s time (with_manifest v (converted_files v.files))
        ])
        else s
