-- ===== src/Versions/Rebase/Laws.antt =====
-- Which files of older snapshots survive a backup run that replaces current files.
use red_man.Common.{
  ◌≡◌, refl, ◌≢◌, sym, ap, ◌∙◌, inl, inr, String, true, false, Option, none, some, List,
  String-Comparable, ℕ-Comparable, Bool-cases,
}
use red_man.Common.Dict
use red_man.Versions.Store.{Time, Base, current, snapshot, Version, Store, delta_base, version_at}
use red_man.Versions.Reconstruct.Denotes.{Denotes, stored, on_current, on_snapshot}
use red_man.Versions.Rebase.{Config, rebase_deltas}
use red_man.Versions.Rebase.Effect.{
  target, rebase_base, rebased, delta_base-rebased, rebase_deltas-current_files,
  rebase_deltas-version,
}

-- What rsync leaves, when it is run with a backup directory: the files that it recorded as changed
-- lie in the new snapshot as they were, and it touches no other snapshot.
pub record RunOf {C D : Type 0} (before after : Store C D) (changed : List String) (time : Time)
    : Type 0 where
  pub others : (t : Time) → t ≢ time → version_at after t ≡ version_at before t
  pub absent : version_at before time ≡ none
  pub own : Version C D
  pub own_at : version_at after time ≡ some own
  pub own_manifest : own.manifest ≡ none
  pub saved :
      (path : String) (b : C)
      → Dict.has changed path ≡ true
      → Dict.get before.current_files path ≡ some b
      → Dict.get own.files path ≡ some b

-- A file that the run has recorded as changed, or has left as it was. A file that it has deleted is
-- neither: it is gone, and not among the changed ones.
abbrev pub IsKept :
    {C D : Type 0} (before after : Store C D) (changed : List String) (path : String) → Type 0
IsKept before after changed path =
    Dict.has changed path ≡ false
    → Dict.get after.current_files path ≡ Dict.get before.current_files path

module _ {C D : Type 0} (patch : C → D → Option C) (config : Config) (changed : List String)
    (new_time : Time) where
  -- Only the snapshot that the loop changes has deltas on current files.
  abbrev pub OnlyTarget : Store C D → Type 0
  OnlyTarget s =
      (time : Time) (v : Version C D) (path : String)
      → version_at s time ≡ some v
      → delta_base v path ≡ some current
      → target changed new_time s ≡ some time

  module _ {before after : Store C D} (run : RunOf before after changed new_time)
      (on : config.delta_versioning ≡ true) (only : OnlyTarget after) where
    older : {time : Time} {v : Version C D} → version_at before time ≡ some v → time ≢ new_time
    older at e = cc (run.absent)

    -- The run's own snapshot is not changed.
    own_kept :
        (w : Version C D) × (version_at (rebase_deltas changed new_time config after) new_time
          ≡ some w)
        × (w.files ≡ run.own.files)
        × ((path : String) → delta_base w path ≡ none)
    own_kept = elim (rebase_deltas-version changed new_time config after new_time on) [
      | inl (_, same) ↦ (run.own, same ∙ run.own_at, refl, λ path. rw run.own_manifest)
      | inr (v, _, at, e) ↦
          let own : v ≡ run.own = cc (run.own_at) in
          (
            rebased changed new_time v,
            e,
            ap (λ (x : Version C D). x.files) own,
            λ path. delta_base-rebased changed new_time v path ∙ rw (own, run.own_manifest),
          )
    ]

    -- An older snapshot keeps its files, and each delta keeps its base or has it rebased.
    older_kept :
        (time : Time) (v : Version C D) (path : String)
        → version_at before time ≡ some v
        → (w : Version C D) × (version_at (rebase_deltas changed new_time config after) time
            ≡ some w)
          × (w.files ≡ v.files)
          × (w.deltas ≡ v.deltas)
          × (delta_base w path ≡ rebase_base changed new_time path (delta_base v path))
    older_kept time v path at =
        let kept : version_at after time ≡ some v = run.others time (older at) ∙ at in
        elim (rebase_deltas-version changed new_time config after time on) [
          | inl (elsewhere, same) ↦
              (v, same ∙ kept, refl, refl, unchanged (delta_base v path) refl elsewhere kept)
          | inr (u, _, there, e) ↦
              let this : u ≡ v = cc in
              (
                rebased changed new_time u,
                e,
                ap (λ (x : Version C D). x.files) this,
                ap (λ (x : Version C D). x.deltas) this,
                delta_base-rebased changed new_time u path ∙ rw this,
              )
        ]
      where
        unchanged :
            (base : Option Base)
            → delta_base v path ≡ base
            → target changed new_time after ≢ some time
            → version_at after time ≡ some v
            → base ≡ rebase_base changed new_time path base
        unchanged none e elsewhere kept = refl
        unchanged (some current) e elsewhere kept = absurd (elsewhere (only time v path kept e))
        unchanged (some (snapshot t)) e elsewhere kept = refl

    -- If only the newest manifest has deltas on current files, then a file of an older snapshot stands for
    -- the same content after a run and the rebase as before, where the run has recorded the current file
    -- of its path as changed, and saved it, or has left it as it was: not where it has deleted that file.
    pub rebase_deltas-Denotes :
        {path : String} {time : Time} {c : C}
        → IsKept before after changed path
        → Denotes patch before path time c
        → Denotes patch (rebase_deltas changed new_time config after) path time c
    rebase_deltas-Denotes {path} left (stored time v c at plain file) =
        let (w, there, files, _, base) = older_kept time v path at in
        stored time w c there (base ∙ rw plain) (rw files file)
    rebase_deltas-Denotes {path} left (on_snapshot time t v d b c at delta found below patched) =
        let (w, there, _, deltas, base) = older_kept time v path at in
        on_snapshot time t w d b c there (base ∙ rw delta) (rw deltas found)
          (rebase_deltas-Denotes left below) patched
    rebase_deltas-Denotes {path} left (on_current time v d b c at delta found file patched) =
        let (w, there, _, deltas, base) = older_kept time v path at in
        elim (Bool-cases (Dict.has changed path)) [
          | inl replaced ↦
              let (own, own_there, own_files, plain) = own_kept in
              on_snapshot time new_time w d b c there (base ∙ rw (delta, replaced))
                (rw deltas found)
                (stored new_time own b own_there (plain path)
                  (rw own_files (run.saved path b replaced file)))
                patched
          | inr kept ↦
              on_current time w d b c there (base ∙ rw (delta, kept)) (rw deltas found)
                (rw rebase_deltas-current_files (left kept ∙ file)) patched
        ]

  module _ {before after : Store C D} (run : RunOf before after changed new_time)
      (on : config.delta_versioning ≡ true) where
    -- The loop stops behind the first manifest: an older snapshot whose delta rests on a current
    -- file that the run replaced keeps that base, and its file stands for what it stood for no
    -- longer, unless patching the new file happens to give the same.
    pub rebase_deltas_misses :
        (path : String) (time : Time) (v : Version C D) (d : D) (b b' c : C)
        → version_at before time ≡ some v
        → delta_base v path ≡ some current
        → Dict.get v.deltas path ≡ some d
        → Dict.get before.current_files path ≡ some b
        → patch b d ≡ some c
        → target changed new_time after ≢ some time
        → Dict.get after.current_files path ≡ some b'
        → patch b' d ≢ some c
        → Denotes patch before path time c
          × (¬ (Denotes patch (rebase_deltas changed new_time config after) path time c))
    rebase_deltas_misses path time v d b b' c at delta found file patched elsewhere replaced other =
        (on_current time v d b c at delta found file patched, λ h. lost h)
      where
        older : time ≢ new_time
        older e = cc (run.absent)

        kept : version_at (rebase_deltas changed new_time config after) time ≡ some v
        kept = elim (rebase_deltas-version changed new_time config after time on) [
          | inl (_, same) ↦ same ∙ run.others time older ∙ at
          | inr (u, e, _, _) ↦ absurd (elsewhere e)
        ]

        base_kept :
            {w : Version C D}
            → version_at (rebase_deltas changed new_time config after) time ≡ some w
            → (delta_base w path ≡ some current) × (Dict.get w.deltas path ≡ some d)
        base_kept {w} there = let same : v ≡ w = cc (kept) in (rw same at delta, rw same at found)

        file_kept :
            {x : C}
            → Dict.get (rebase_deltas changed new_time config after).current_files path ≡ some x
            → x ≡ b'
        file_kept h = cc (
            sym h
            ∙ ap (λ (y : List (String × C)). Dict.get y path)
                (rebase_deltas-current_files changed new_time config after)
            ∙ replaced)

        lost : ¬ (Denotes patch (rebase_deltas changed new_time config after) path time c)
        lost (stored _ w _ there plain stored_file) = cc ((base_kept there).0)
        lost (on_snapshot _ t w e x _ there base there_found below p) = cc ((base_kept there).0)
        lost (on_current _ w e x _ there base there_found there_file p) =
            let same_delta : e ≡ d = cc ((base_kept there).1) in
            other (rw (← same_delta, ← file_kept there_file) p)
