-- ===== src/Versions/Reconstruct/Denotes.antt =====
-- What a file of a snapshot stands for, said without a walk.
use red_man.Common.{
  ℕ, ◌+◌, ◌≤◌, ◌<◌, ◌≡◌, String, Option, none, some, List, [], ◌∷◌, arith, String-Comparable,
  ℕ-Comparable, ltb, length, if◌then◌else◌,
}
use red_man.Common.Dict
use red_man.Versions.Store.{Time, current, snapshot, Version, Store, delta_base, version_at}

module _ {C D : Type 0} (patch : C → D → Option C) where
  -- A file without a delta entry is stored in full. A delta stands for what patching its base
  -- gives, and the base is the current file or a file of another snapshot.
  pub data Denotes (s : Store C D) (path : String) : Time → C → Type 0 where
    stored :
        (time : Time) (v : Version C D) (c : C)
        → version_at s time ≡ some v
        → delta_base v path ≡ none
        → Dict.get v.files path ≡ some c
        → Denotes s path time c
    on_current :
        (time : Time) (v : Version C D) (d : D) (b c : C)
        → version_at s time ≡ some v
        → delta_base v path ≡ some current
        → Dict.get v.deltas path ≡ some d
        → Dict.get s.current_files path ≡ some b
        → patch b d ≡ some c
        → Denotes s path time c
    on_snapshot :
        (time base : Time) (v : Version C D) (d : D) (b c : C)
        → version_at s time ≡ some v
        → delta_base v path ≡ some (snapshot base)
        → Dict.get v.deltas path ≡ some d
        → Denotes s path base b
        → patch b d ≡ some c
        → Denotes s path time c

module _ {C D : Type 0} {patch : C → D → Option C} {s : Store C D} {path : String} where
  pub Denotes-version :
      {time : Time} {c : C}
      → Denotes patch s path time c
      → (v : Version C D) × (version_at s time ≡ some v)
  Denotes-version (stored _ v _ at n h) = (v, at)
  Denotes-version (on_current _ v d b _ at n h k p) = (v, at)
  Denotes-version (on_snapshot _ t v d b _ at n h k p) = (v, at)

  pub Denotes-files :
      {time : Time} {c : C} (v : Version C D)
      → Denotes patch s path time c
      → version_at s time ≡ some v
      → delta_base v path ≡ none
      → Dict.get v.files path ≡ some c
  Denotes-files v (stored _ w _ at n h) g plain = let same : v ≡ w = cc in rw same h
  Denotes-files v (on_current _ w d b _ at n h k p) g plain = cc
  Denotes-files v (on_snapshot _ t w d b _ at n h k p) g plain = cc

module _ {C D : Type 0} where
  -- Every delta rests on the current file or on a later snapshot.
  abbrev pub RestsLater : Store C D → Type 0
  RestsLater s =
      (time base : Time) (v : Version C D) (path : String)
      → version_at s time ≡ some v
      → delta_base v path ≡ some (snapshot base)
      → time < base

-- How many snapshots are later than a time.
abbrev pub later_than {ℓ} : {A : Type ℓ} → List (Time × A) → Time → ℕ
later_than [] time = 0
later_than ((t, v) ∷ versions) time = (if ltb time t then 1 else 0) + later_than versions time

module _ {ℓ} {A : Type ℓ} where
  pub later_than-le :
      (versions : List (Time × A)) (time : Time) → later_than versions time ≤ length versions
  later_than-le [] time = omega arith
  later_than-le ((t, v) ∷ versions) time = ground (arith, later_than-le versions time)

  later_than_mono :
      (versions : List (Time × A)) (a b : Time)
      → a ≤ b
      → later_than versions b ≤ later_than versions a
  later_than_mono [] a b h = omega arith
  later_than_mono ((t, v) ∷ versions) a b h = ground (arith, later_than_mono versions a b h)

  -- A step to a later snapshot leaves fewer behind.
  pub later_than-step :
      (versions : List (Time × A)) (a b : Time) {v : A}
      → Dict.get versions b ≡ some v
      → a < b
      → later_than versions b < later_than versions a
  later_than-step [] a b g h = cc
  later_than-step ((t, w) ∷ versions) a b {v} g h =
      ground (arith, later_than-step versions a b {v = v}, later_than_mono versions a b)
