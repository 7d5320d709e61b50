-- ===== src/Versions/Store.antt =====
-- The backup destination of one configuration, as deltaVersion.js sees it: the current files, and
-- for each snapshot its manifest, its full files and its `.rdelta` files. Contents and deltas are
-- types `C` and `D`, and what `rdiff` computes is a parameter of the functions that use it.
-- A snapshot's name is its time, `2024-05-01T03-00-00`; the order of such texts is the order of
-- time, so a name is the number of seconds since 1970. Paths are those that
-- `normalizeSnapshotRelativePath` has let through. The delta of `x` is the file `x.rdelta` beside it: a
-- file of the snapshot that has this name itself is not told apart from it by the code, and lost.
-- The model keeps the two apart, so it stands for snapshots without such a pair; `deltaifySnapshot`,
-- which makes the deltas, is modelled with the loss.
use red_man.Common.{ℕ, String, Option, none, some, List, String-Comparable, ℕ-Comparable}
use red_man.Common.Dict

abbrev pub Time : Type 0
Time = ℕ

-- `entry.base`: the file in the destination, or the snapshot of that name.
pub data Base : Type 0 where
  current : Base
  snapshot : Time → Base

pub data Reason : Type 0 where
  keyframe_chain keyframe_age below_threshold error promoted : Reason

pub data Entry : Type 0 where
  full : (original_size : ℕ) → Option Reason → Entry
  delta : (original_size delta_size : ℕ) → Base → Entry

-- `manifest` is what `readManifest` returns: none where there is no readable one.
pub record Version (C D : Type 0) : Type 0 where
  pub manifest : Option (List (String × Entry))
  pub files : List (String × C)
  pub deltas : List (String × D)

pub record Store (C D : Type 0) : Type 0 where
  pub current_files : List (String × C)
  pub versions : List (Time × Version C D)

-- `entry && entry.type === 'delta'`, with its base.
abbrev pub base_of : Option Entry → Option Base
base_of none = none
base_of (some (full size reason)) = none
base_of (some (delta size delta_size base)) = some base

module _ {C D : Type 0} where
  abbrev pub manifest_entry : Version C D → String → Option Entry
  manifest_entry v path = elim v.manifest [ none ↦ none | some files ↦ Dict.get files path ]

  abbrev pub delta_base : Version C D → String → Option Base
  delta_base v path = base_of (manifest_entry v path)

  -- `resolveSnapshotRoot`
  abbrev pub version_at : Store C D → Time → Option (Version C D)
  version_at s time = Dict.get s.versions time
