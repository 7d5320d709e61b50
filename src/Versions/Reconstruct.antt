-- ===== src/Versions/Reconstruct.antt =====
-- `reconstructFile` of deltaVersion.js. Temporary files are not modelled: the result is the
-- content that the returned file has.
pub mod Denotes
pub mod Steps
pub mod Laws
pub mod Ends
use red_man.Common.{
  ℕ, zero, suc, String, Option, none, some, List, [], ◌∷◌, length, String-Comparable, ℕ-Comparable,
}
use red_man.Common.Dict
use red_man.Versions.Store.{Time, Base, current, snapshot, Version, Store, delta_base, version_at}

-- What is thrown; `no_end` stands for a walk that does not stop, which a circular chain causes.
pub data Error : Type 0 where
  delta_missing base_snapshot_missing base_file_missing : Time → Error
  current_file_missing patch_failed no_end cannot_reconstruct : Error

pub data Result {ℓ} (A : Type ℓ) : Type ℓ where
  ok : A → Result A
  err : Error → Result A

infixl 5 ◌>>=◌
abbrev pub ◌>>=◌ {ℓ κ} : {A : Type ℓ} {B : Type κ} → Result A → (A → Result B) → Result B
ok a >>= next = next a
err e >>= next = err e

abbrev pub or_throw {ℓ} : {A : Type ℓ} → Error → Option A → Result A
or_throw e none = err e
or_throw e (some a) = ok a

module _ {C D : Type 0} where
  -- The file of the snapshot on which the last delta of the chain rests.
  unfoldable pub base_file : Store C D → String → Time → Result C
  base_file s path time = do
    v ← or_throw (base_file_missing time) (version_at s time)
    or_throw (base_file_missing time) (Dict.get v.files path)

  -- The loop that walks the chain, from the delta of `time` with base `base`; the deltas that it
  -- has met are on a stack, the last one on top. It returns the base file and the stack.
  unfoldable pub walk : ℕ → Store C D → String → Time → Base → List D → Result (C × List D)
  walk zero s path time base stack = err no_end
  walk (suc fuel) s path time base stack = elim (version_at s time) [
    | none ↦ err (delta_missing time)
    | some v ↦ elim (Dict.get v.deltas path) [
      | none ↦ err (delta_missing time)
      | some d ↦ elim base [
        | current ↦ do
          c ← or_throw current_file_missing (Dict.get s.current_files path)
          ok (c, d ∷ stack)
        | snapshot b ↦ elim (version_at s b) [
          | none ↦ err (base_snapshot_missing b)
          | some w ↦ elim (delta_base w path) [
            | none ↦ do c ← base_file s path b; ok (c, d ∷ stack)
            | some next ↦ walk fuel s path b next (d ∷ stack)
          ]
        ]
      ]
    ]
  ]

module _ {C D : Type 0} (patch : C → D → Option C) where
  -- The loop that applies the patches, from the base outward.
  unfoldable pub apply_patches : C → List D → Result C
  apply_patches c [] = ok c
  apply_patches c (d ∷ stack) = do c' ← or_throw patch_failed (patch c d); apply_patches c' stack

  -- A chain without a circle visits each snapshot once, so the fuel does not run out.
  unfoldable pub reconstruct_file : Store C D → Time → String → Result (Option C)
  unfolding walk apply_patches base_file
  reconstruct_file s time path = elim (version_at s time) [
    | none ↦ ok none
    | some v ↦ elim (delta_base v path) [
      | none ↦ ok (Dict.get v.files path)
      | some base ↦ do
        (c, stack) ← walk (suc (length s.versions)) s path time base []
        done ← apply_patches c stack
        ok (some done)
    ]
  ]
