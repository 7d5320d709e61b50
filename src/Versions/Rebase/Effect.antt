-- ===== src/Versions/Rebase/Effect.antt =====
-- What `rebaseDeltasWithTimestamp` changes: the entries of one snapshot, the target.
use red_man.Common.{
  ◌≡◌, refl, ◌≢◌, ap, ◌∙◌, ◌⊎◌, inl, inr, String, true, Option, none, some, List, [], ◌∷◌, arith,
  ◌===◌, if◌then◌else◌, String-Comparable, ℕ-Comparable, ℕ_discrete, Bool-cases, Option-cases,
}
use red_man.Common.Dict
use red_man.Versions.Store.{
  Time, Base, current, snapshot, Entry, full, delta, Version, Store, base_of, delta_base,
  version_at,
}
use red_man.Versions.Rebase.{
  Config, newest_first, times_of, rebase_entry, put_version, manifest_at, write_manifest,
  rebase_loop, rebase_deltas,
}

module _ (changed : List String) (new_time : Time) where
  -- A base, once its entry is rebased.
  abbrev pub rebase_base : String → Option Base → Option Base
  rebase_base path none = none
  rebase_base path (some current) =
      if Dict.has changed path then some (snapshot new_time) else some current
  rebase_base path (some (snapshot b)) = some (snapshot b)

  abbrev pub rebased_manifest : Option (List (String × Entry)) → Option (List (String × Entry))
  rebased_manifest none = none
  rebased_manifest (some files) = some (Dict.map_values (rebase_entry changed new_time) files)

  base_of-rebase_entry :
      (path : String) (e : Option Entry)
      → base_of (Dict.applied (rebase_entry changed new_time) path e) ≡ rebase_base path (base_of e)
  unfolding rebase_entry
  base_of-rebase_entry path none = refl
  base_of-rebase_entry path (some (full size reason)) = refl
  base_of-rebase_entry path (some (delta size delta_size current)) = ground arith
  base_of-rebase_entry path (some (delta size delta_size (snapshot b))) = refl

module _ {C D : Type 0} (changed : List String) (new_time : Time) where
  -- The first snapshot of the list that is not the run's own and has a manifest.
  abbrev pub target_in : Store C D → List Time → Option Time
  target_in s [] = none
  target_in s (t ∷ times) =
      if t === new_time
      then target_in s times
      else (elim (manifest_at s t) [ none ↦ target_in s times | some files ↦ some t ])

  abbrev pub target : Store C D → Option Time
  target s = target_in s (newest_first (times_of s.versions))

  abbrev pub rebased : Version C D → Version C D
  rebased v = record v { manifest = rebased_manifest changed new_time v.manifest }

  pub delta_base-rebased :
      (v : Version C D) (path : String)
      → delta_base (rebased v) path ≡ rebase_base changed new_time path (delta_base v path)
  delta_base-rebased v path = at v.manifest
    where
      at :
          (m : Option (List (String × Entry)))
          → delta_base (record v { manifest = rebased_manifest changed new_time m }) path
            ≡ rebase_base changed new_time path (delta_base (record v { manifest = m }) path)
      at none = refl
      at (some files) =
          ap base_of (Dict.get-map_values (rebase_entry changed new_time) files path)
          ∙ base_of-rebase_entry changed new_time path (Dict.get files path)

  -- One round passes the snapshot over, or rebases it and stops.
  Round : Store C D → Time → List Time → Type 0
  Round s u times =
      ((rebase_loop changed new_time s (u ∷ times) ≡ rebase_loop changed new_time s times)
        × (target_in s (u ∷ times) ≡ target_in s times))
      ⊎ ((v : Version C D) × (version_at s u ≡ some v)
          × (rebase_loop changed new_time s (u ∷ times) ≡ put_version s u (rebased v))
          × (target_in s (u ∷ times) ≡ some u))

  rebase_loop_step : (s : Store C D) (u : Time) (times : List Time) → Round s u times
  unfolding rebase_loop write_manifest Round
  rebase_loop_step s u times = elim (Bool-cases (u === new_time)) [
    | inl own ↦ inl (ground arith, ground arith)
    | inr older ↦ elim (Option-cases (version_at s u)) [
      | inl lost ↦ inl (ground arith, ground arith)
      | inr (v, at) ↦ elim (Option-cases v.manifest) [
        | inl unread ↦ inl (ground arith, ground arith)
        | inr (files, read) ↦ inr (v, at, ground arith, ground arith)
      ]
    ]
  ]

  -- The loop changes its target, if there is one, and nothing else.
  rebase_loop_lem :
      (s : Store C D) (times : List Time)
      → ((target_in s times ≡ none) × (rebase_loop changed new_time s times ≡ s))
        ⊎ ((t : Time) × (v : Version C D) × (target_in s times ≡ some t)
            × (version_at s t ≡ some v)
            × (rebase_loop changed new_time s times ≡ put_version s t (rebased v)))
  unfolding rebase_loop Round
  rebase_loop_lem s [] = inl (refl, refl)
  rebase_loop_lem s (u ∷ times) = elim (rebase_loop_step s u times) [
    | inr (v, at, e, g) ↦ inr (u, v, g, at, e)
    | inl (e, g) ↦ elim (rebase_loop_lem s times) [
      | inl (none_, same) ↦ inl (g ∙ none_, e ∙ same)
      | inr (t, v, found, at, same) ↦ inr (t, v, g ∙ found, at, e ∙ same)
    ]
  ]

  pub rebase_deltas-current_files :
      (config : Config) (s : Store C D)
      → (rebase_deltas changed new_time config s).current_files ≡ s.current_files
  unfolding rebase_deltas
  rebase_deltas-current_files config s = elim (Bool-cases config.delta_versioning) [
    | inr off ↦ rw (off, rebase_deltas)
    | inl on ↦ elim (rebase_loop_lem s (newest_first (times_of s.versions))) [
      | inl (_, same) ↦ rw (on, rebase_deltas) (rw same)
      | inr (t, v, _, _, same) ↦ rw (on, rebase_deltas) (rw same)
    ]
  ]

  -- A snapshot afterwards: the target has its entries rebased, any other is as before.
  pub rebase_deltas-version :
      (config : Config) (s : Store C D) (time : Time)
      → config.delta_versioning ≡ true
      → ((target s ≢ some time)
          × (version_at (rebase_deltas changed new_time config s) time ≡ version_at s time))
        ⊎ ((v : Version C D) × (target s ≡ some time)
            × (version_at s time ≡ some v)
            × (version_at (rebase_deltas changed new_time config s) time ≡ some (rebased v)))
  unfolding rebase_deltas
  rebase_deltas-version config s time on =
      elim (rebase_loop_lem s (newest_first (times_of s.versions))) [
        | inl (nowhere, same) ↦ inl (λ h. cc, rw (on, rebase_deltas) (rw same))
        | inr (t, v, found, at, same) ↦ elim (ℕ_discrete t time) [
          | yes e ↦ inr (
            v,
            found ∙ ap some e,
            rw e at at,
            rw (on, rebase_deltas) (rw same (Dict.get-put_self s.versions t time (rebased v) e)),
          )
          | no d ↦ inl (
            λ h. d (cc),
            rw (on, rebase_deltas) (rw same (Dict.get-put_ne s.versions t time (rebased v) d)),
          )
        ]
      ]
