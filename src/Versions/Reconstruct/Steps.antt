-- ===== src/Versions/Reconstruct/Steps.antt =====
-- One round of the walk, and one patch.
use red_man.Common.{
  ℕ, zero, suc, ◌≡◌, refl, ◌≢◌, inl, inr, String, Option, none, some, List, [], ◌∷◌, arith,
  String-Comparable, ℕ-Comparable, Option-cases,
}
use red_man.Common.Dict
use red_man.Versions.Store.{Time, Base, current, snapshot, Version, Store, delta_base, version_at}
use red_man.Versions.Reconstruct.{
  Error, no_end, ok, err, ◌>>=◌, or_throw, base_file, walk, apply_patches,
}
use red_man.Versions.Reconstruct.Denotes.{}

pub walk-zero :
    {C D : Type 0} (s : Store C D) (path : String) (time : Time) (base : Base) (stack : List D)
    → walk zero s path time base stack ≡ err no_end
unfolding walk
walk-zero s path time base stack = refl

-- The ways through one round of the walk, at a version that has the delta `d`.
module _ {C D : Type 0} (s : Store C D) (path : String) (fuel : ℕ) (stack : List D) where
  pub walk-no_delta :
      (time : Time) (base : Base) (v : Version C D)
      → version_at s time ≡ some v
      → Dict.get v.deltas path ≡ none
      → (e : Error) × (walk (suc fuel) s path time base stack ≡ err e)
  unfolding walk
  walk-no_delta time base v at none_ = (Error.delta_missing time, ground arith)

  pub walk-current :
      (time : Time) (v : Version C D) (d : D)
      → version_at s time ≡ some v
      → Dict.get v.deltas path ≡ some d
      → walk (suc fuel) s path time current stack ≡ (
          or_throw Error.current_file_missing (Dict.get s.current_files path) >>= λ c.
          ok (c, d ∷ stack))
  unfolding walk
  walk-current time v d at delta = ground arith

  pub walk-lost :
      (time base : Time) (v : Version C D) (d : D)
      → version_at s time ≡ some v
      → Dict.get v.deltas path ≡ some d
      → version_at s base ≡ none
      → walk (suc fuel) s path time (snapshot base) stack ≡ err (Error.base_snapshot_missing base)
  unfolding walk
  walk-lost time base v d at delta lost = ground arith

  pub walk-file :
      (time base : Time) (v w : Version C D) (d : D)
      → version_at s time ≡ some v
      → Dict.get v.deltas path ≡ some d
      → version_at s base ≡ some w
      → delta_base w path ≡ none
      → walk (suc fuel) s path time (snapshot base) stack ≡ (
          or_throw (Error.base_file_missing base) (Dict.get w.files path) >>= λ c.
          ok (c, d ∷ stack))
  unfolding walk base_file
  walk-file time base v w d at delta below plain =
      rw (at, walk) (rw delta (rw below (rw plain (rw (below, base_file)))))

  pub walk-on :
      (time base : Time) (next : Base) (v w : Version C D) (d : D)
      → version_at s time ≡ some v
      → Dict.get v.deltas path ≡ some d
      → version_at s base ≡ some w
      → delta_base w path ≡ some next
      → walk (suc fuel) s path time (snapshot base) stack ≡ walk fuel s path base next (d ∷ stack)
  unfolding walk
  walk-on time base next v w d at delta below chained = ground arith

module _ {C D : Type 0} (patch : C → D → Option C) where
  pub apply_patches-nil : (c : C) → apply_patches patch c [] ≡ ok c
  unfolding apply_patches
  apply_patches-nil c = refl

  pub apply_patches_ends : (c : C) (stack : List D) → apply_patches patch c stack ≢ err no_end
  unfolding apply_patches
  apply_patches_ends c [] h = cc
  apply_patches_ends c (d ∷ stack) h = elim (Option-cases (patch c d)) [
    | inl e ↦ ground arith
    | inr (c', e) ↦ apply_patches_ends c' stack (ground arith)
  ]

  pub apply_patches_inv :
      (c : C) (d : D) (stack : List D) (done : C)
      → apply_patches patch c (d ∷ stack) ≡ ok done
      → (c' : C) × (patch c d ≡ some c') × (apply_patches patch c' stack ≡ ok done)
  unfolding apply_patches
  apply_patches_inv c d stack done h = elim (Option-cases (patch c d)) [
    | inl e ↦ absurd (ground arith)
    | inr (c', e) ↦ (c', e, ground arith)
  ]

  pub apply_patches-step :
      (c c' : C) (d : D) (stack : List D)
      → patch c d ≡ some c'
      → apply_patches patch c (d ∷ stack) ≡ apply_patches patch c' stack
  unfolding apply_patches
  apply_patches-step c c' d stack e = rw e
