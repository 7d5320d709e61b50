-- ===== src/Versions/Reconstruct/Ends.antt =====
-- When `reconstructFile` of deltaVersion.js stops.
use red_man.Common.{
  ℕ, zero, suc, ◌<◌, ◌≡◌, ◌≢◌, sym, ◌∙◌, inl, inr, String, Option, none, some, List, [], ◌∷◌,
  length, arith, String-Comparable, ℕ-Comparable, Option-cases,
}
use red_man.Common.Dict
use red_man.Versions.Store.{Time, Base, current, snapshot, Version, Store, delta_base, version_at}
use red_man.Versions.Reconstruct.{
  Error, no_end, Result, ok, err, ◌>>=◌, or_throw, walk, apply_patches, reconstruct_file,
}
use red_man.Versions.Reconstruct.Denotes.{RestsLater, later_than, later_than-le, later_than-step}
use red_man.Versions.Reconstruct.Steps.{
  walk-current, walk-lost, walk-file, walk-on, apply_patches_ends,
}
use red_man.Versions.Reconstruct.Laws.{
  finish, reconstruct_file-missing, reconstruct_file-plain, reconstruct_file-delta,
}

module _ {C D : Type 0} (patch : C → D → Option C) (s : Store C D) (path : String) where
  no_delta_ends :
      (fuel : ℕ) (time : Time) (base : Base) (v : Version C D) (stack : List D)
      → version_at s time ≡ some v
      → Dict.get v.deltas path ≡ none
      → walk (suc fuel) s path time base stack ≢ err no_end
  unfolding walk
  no_delta_ends fuel time base v stack at missing h = ground arith

  base_ends :
      (found : Option C) (e : Error) (d : D) (stack : List D)
      → e ≢ no_end
      → ◌>>=◌ {B = C × List D} (or_throw e found) (λ c. ok (c, d ∷ stack)) ≢ err no_end
  base_ends none e d stack other h = other (cc)
  base_ends (some x) e d stack other h = cc

  walk_ends :
      (fuel : ℕ) (time : Time) (base : Base) (v : Version C D) (stack : List D)
      → RestsLater s
      → later_than s.versions time < fuel
      → version_at s time ≡ some v
      → delta_base v path ≡ some base
      → walk fuel s path time base stack ≢ err no_end
  walk_ends zero time base v stack order enough at delta h = elim enough [ ]
  walk_ends (suc fuel) time current v stack order enough at delta h =
      elim (Option-cases (Dict.get v.deltas path)) [
        | inl missing ↦ no_delta_ends fuel time current v stack at missing h
        | inr (d, found) ↦
            base_ends (Dict.get s.current_files path) Error.current_file_missing d stack (λ e. cc)
              (sym (walk-current s path fuel stack time v d at found) ∙ h)
      ]
  walk_ends (suc fuel) time (snapshot t) v stack order enough at delta h =
      elim (Option-cases (Dict.get v.deltas path)) [
        | inl missing ↦ no_delta_ends fuel time (snapshot t) v stack at missing h
        | inr (d, found) ↦ elim (Option-cases (version_at s t)) [
          | inl lost ↦ cc (walk-lost s path fuel stack time t v d at found lost)
          | inr (w, below) ↦ elim (Option-cases (delta_base w path)) [
            | inl plain ↦
                base_ends (Dict.get w.files path) (Error.base_file_missing t) d stack (λ e. cc)
                  (sym (walk-file s path fuel stack time t v w d at found below plain) ∙ h)
            | inr (next, chained) ↦
                walk_ends fuel t next w (d ∷ stack) order
                  (omega
                    (arith, later_than-step s.versions time t below (order time t v path at delta)))
                  below chained
                  (sym (walk-on s path fuel stack time t next v w d at found below chained) ∙ h)
          ]
        ]
      ]

  finish_ends : (r : Result (C × List D)) → r ≢ err no_end → finish patch s path r ≢ err no_end
  unfolding finish
  finish_ends (err e) other h = other (cc)
  finish_ends (ok (b, rest)) other h =
      patched (apply_patches patch b rest) (apply_patches_ends patch b rest) h
    where
      patched :
          (r : Result C)
          → r ≢ err no_end
          → (◌>>=◌ {B = Option C} r (λ done. ok (some done))) ≢ err no_end
      patched (err e) ends h = ends (cc)
      patched (ok x) ends h = cc

  -- Where deltas rest on later snapshots, the walk over the chain always stops.
  pub reconstruct_file_ends :
      (time : Time) → RestsLater s → reconstruct_file patch s time path ≢ err no_end
  reconstruct_file_ends time order h = elim (Option-cases (version_at s time)) [
    | inl missing ↦ cc (reconstruct_file-missing patch s path time missing)
    | inr (v, at) ↦ elim (Option-cases (delta_base v path)) [
      | inl plain ↦ cc (reconstruct_file-plain patch s path time v at plain)
      | inr (base, delta) ↦
          finish_ends _
            (walk_ends (suc (length s.versions)) time base v [] order
              (omega (arith, later_than-le s.versions time)) at delta)
            (sym (reconstruct_file-delta patch s path time v base at delta) ∙ h)
    ]
  ]
