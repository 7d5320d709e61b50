-- ===== src/Versions/Deltaify/Moments.antt =====
-- The moments of `deltaifySnapshot`: before the manifest is written, and while the full files
-- that became deltas are removed.
use red_man.Common.{
  ℕ, ◌≡◌, refl, ◌≢◌, sym, ap, ◌∙◌, ◌⊎◌, inl, inr, String, Bool, true, false, Option, none, some,
  List, [], ◌∷◌, arith, String-Comparable, ℕ-Comparable, Bool-cases, eq_cases, eq_refl,
  Option-cases,
}
use red_man.Common.Dict
use text.Mathlib.TextEquality.{eq_iff}
use red_man.Versions.Store.{Time, current, Version, Store, base_of, delta_base, version_at}
use red_man.Versions.Reconstruct.Denotes.{Denotes}
use red_man.Versions.Rebase.{Config, put_version}
use red_man.Versions.Deltaify.{
  rdelta_of, is_placed, overwritten, Decision, stays, unlinked, converted, entry_of, is_converted,
  decide, write_deltas, converted_files, with_deltas, with_manifest, is_empty, deltaify_snapshot,
}
use red_man.Versions.Deltaify.Laws.{
  Stands, Decided, decide-Decided, put_version-Denotes, write_deltas-get,
}

-- The files of a directory: each path is there once.
abbrev pub IsDirectory : {C : Type 0} → List (String × C) → Type 0
IsDirectory [] = Unit
IsDirectory ((path, c) ∷ files) = (Dict.get files path ≡ none) × IsDirectory files

-- No file of a directory has the name that the delta of another gets.
abbrev pub NoClash : {C : Type 0} → List (String × C) → Type 0
NoClash {C} files =
    (path : String) (c : C) → Dict.get files path ≡ some c → Dict.get files (rdelta_of path) ≡ none

module _ {C D : Type 0} (size : C → ℕ) (delta_size : D → ℕ) (rdiff : C → C → Option D)
    (config : Config) (now : ℕ) (s : Store C D) (time : Time) where
  abbrev names : List (String × C) → List String
  names files = overwritten size delta_size rdiff config now s time files

  -- A name that is overwritten is that of a file's delta.
  overwritten_inv :
      (files : List (String × C)) (path : String)
      → Dict.has (names files) path ≡ true
      → (q : String) × (c : C) × (Dict.get files q ≡ some c) × (rdelta_of q ≡ path)
  unfolding overwritten
  overwritten_inv [] path h = cc
  overwritten_inv ((q, c) ∷ files) path h =
      elim (Bool-cases (is_placed (decide size delta_size rdiff config now s time q c))) [
        | inr stays_ ↦ shadowed (overwritten_inv files path (ground arith))
        | inl placed ↦ elim (eq_cases (rdelta_of q) path) [
          | inl same ↦ (q, c, ground (arith, eq_refl q), same)
          | inr other ↦
              shadowed (overwritten_inv files path (ground (arith, eq_iff (rdelta_of q) path)))
        ]
      ]
    where
      shadowed :
          (r : String) × (x : C) × (Dict.get files r ≡ some x) × (rdelta_of r ≡ path)
          → (r : String) × (x : C) × (Dict.get ((q, c) ∷ files) r ≡ some x) × (rdelta_of r ≡ path)
      shadowed (r, x, there, name) = elim (eq_cases q r) [
        | inl same ↦ (r, c, ground (arith, eq_iff q r), name)
        | inr other ↦ (r, x, ground (arith, eq_iff q r), name)
      ]

  -- Without a clash, each file is there until it is removed as converted.
  pub NoClash-kept :
      (files : List (String × C))
      → NoClash files
      → (path : String) (c : C) → Dict.get files path ≡ some c
      → Dict.get (Dict.remove_all files (names files)) path ≡ some c
  NoClash-kept files apart path c file = elim (Bool-cases (Dict.has (names files) path)) [
    | inr free ↦ Dict.get-remove_all files (names files) path free ∙ file
    | inl hit ↦
        let (q, x, there, name) = overwritten_inv files path hit in
        absurd (let gone = apart q x there in let e = ap (Dict.get files) name in cc)
  ]

  abbrev converts : String → C → Bool
  converts path c = is_converted (decide size delta_size rdiff config now s time path c)

  abbrev conversions : List (String × C) → List String
  conversions files = converted_files size delta_size rdiff config now s time files

  converted_files_inv :
      (p : String) (c : C) (files : List (String × C)) (path : String)
      → Dict.has (conversions ((p, c) ∷ files)) path ≡ true
      → ((p ≡ path) × (converts p c ≡ true)) ⊎ (Dict.has (conversions files) path ≡ true)
  unfolding converted_files
  converted_files_inv p c files path h = elim (Bool-cases (converts p c)) [
    | inl yes_ ↦ elim (eq_cases p path) [
      | inl same ↦ inl (same, yes_)
      | inr other ↦ inr (ground (arith, eq_iff p path))
    ]
    | inr no_ ↦ inr (ground arith)
  ]

  converted_files-get :
      (files : List (String × C)) (path : String)
      → Dict.has (conversions files) path ≡ true
      → Dict.get files path ≢ none
  unfolding converted_files
  converted_files-get [] path h = cc
  converted_files-get ((p, c) ∷ files) path h = elim (converted_files_inv p c files path h) [
    | inl (same, yes_) ↦ ground (arith, eq_iff p path)
    | inr below ↦ ground (arith, eq_iff p path, converted_files-get files path below)
  ]

  pub converted_files_sound :
      (files : List (String × C))
      → IsDirectory files
      → (path : String) (c : C) → Dict.has (conversions files) path ≡ true
      → Dict.get files path ≡ some c
      → converts path c ≡ true
  unfolding converted_files
  converted_files_sound [] dir path c h file = cc
  converted_files_sound ((p, c₀) ∷ files) (once, dir) path c h file =
      elim (converted_files_inv p c₀ files path h) [
        | inl (same, yes_) ↦ elim (Dict.get-cons_inv files p path c₀ file) [
          | inl (again, this) ↦ cc
          | inr (other, below) ↦ absurd (other same)
        ]
        | inr later ↦ elim (Dict.get-cons_inv files p path c₀ file) [
          | inl (same, this) ↦
              absurd (converted_files-get files path later (ap (Dict.get files) (sym same) ∙ once))
          | inr (other, below) ↦ converted_files_sound files dir path c later below
        ]
      ]

module _ {C D : Type 0} (size : C → ℕ) (delta_size : D → ℕ) (rdiff : C → C → Option D)
    (patch : C → D → Option C)
    (patch-rdiff : (b n : C) (d : D) → rdiff b n ≡ some d → patch b d ≡ some n) (config : Config)
    (now : ℕ) (s : Store C D) (time : Time) (v : Version C D) where
  with_deltas-Stands :
      v.manifest ≡ none
      → NoClash v.files
      → Stands patch s time v (with_deltas size delta_size rdiff config now s time v)
  unfolding with_deltas
  with_deltas-Stands fresh apart path c file = inl (
    rw fresh refl,
    NoClash-kept size delta_size rdiff config now s time v.files apart path c file,
  )

  with_manifest-Stands :
      NoClash v.files
      → (gone : List String)
      → ((path : String) (c : C)
          → Dict.has gone path ≡ true
          → Dict.get v.files path ≡ some c
          → is_converted (decide size delta_size rdiff config now s time path c) ≡ true)
      → Stands patch s time v (with_manifest size delta_size rdiff config now s time v gone)
  unfolding with_manifest with_deltas
  with_manifest-Stands apart gone sound path c file =
      cases (decide size delta_size rdiff config now s time path c) refl
        (decide-Decided size delta_size rdiff patch patch-rdiff config now s time path c)
    where
      there : List (String × C)
      there = (with_deltas size delta_size rdiff config now s time v).files

      entry :
          delta_base (with_manifest size delta_size rdiff config now s time v gone) path
          ≡ base_of (some (entry_of (decide size delta_size rdiff config now s time path c)))
      entry = ap base_of (
          Dict.get-map_entries
            (λ p x. entry_of (decide size delta_size rdiff config now s time p x)) v.files path c
            file)

      kept :
          is_converted (decide size delta_size rdiff config now s time path c) ≡ false
          → Dict.get (Dict.remove_all there gone) path ≡ some c
      kept no_ = elim (Bool-cases (Dict.has gone path)) [
        | inl h ↦ cc (sound path c h file)
        | inr h ↦
            Dict.get-remove_all there gone path h
            ∙ NoClash-kept size delta_size rdiff config now s time v.files apart path c file
      ]

      cases :
          (x : Decision D)
          → decide size delta_size rdiff config now s time path c ≡ x
          → Decided size delta_size rdiff patch patch-rdiff config now s time path c x
          → ((delta_base (with_manifest size delta_size rdiff config now s time v gone) path ≡ none)
              × (Dict.get (Dict.remove_all there gone) path ≡ some c))
            ⊎ ((d : D) × (b : C) × (delta_base
                    (with_manifest size delta_size rdiff config now s time v gone)
                    path
                  ≡ some current)
                × (Dict.get
                      (write_deltas size delta_size rdiff config now s time v.deltas v.files)
                      path
                    ≡ some d)
                × (Dict.get s.current_files path ≡ some b)
                × (patch b d ≡ some c))
      cases (stays e) is plain = inl (entry ∙ rw is plain, kept (rw is refl))
      cases (unlinked e) is plain = inl (entry ∙ rw is plain, kept (rw is refl))
      cases (converted e d) is (b, rests, found, patched) = inr (
        d,
        b,
        entry ∙ rw is rests,
        write_deltas-get size delta_size rdiff patch patch-rdiff config now s time v.deltas v.files
            path file is,
        found,
        patched,
      )

module _ {C D : Type 0} (size : C → ℕ) (delta_size : D → ℕ) (rdiff : C → C → Option D)
    (patch : C → D → Option C)
    (patch-rdiff : (b n : C) (d : D) → rdiff b n ≡ some d → patch b d ≡ some n) (config : Config)
    (now : ℕ) (s : Store C D) (time : Time) where
  -- Let `rdiff patch` undo `rdiff delta`, and let the new snapshot have no manifest yet, each path
  -- once, and no file with the name that the delta of another file gets. What a file of any snapshot
  -- stands for stays so when the deltas are written, and stays so with the manifest, whichever of the
  -- converted full files are removed by then.
  pub deltaify_moments :
      (v : Version C D)
      → version_at s time ≡ some v
      → v.manifest ≡ none
      → IsDirectory v.files
      → NoClash v.files
      → (gone : List String)
      → ((path : String)
          → Dict.has gone path ≡ true
          → Dict.has (converted_files size delta_size rdiff config now s time v.files) path ≡ true)
      → (path : String) (t : Time) (c : C) → Denotes patch s path t c
      → Denotes patch
          (put_version s time (with_deltas size delta_size rdiff config now s time v))
          path
          t
          c
        × Denotes patch
            (put_version s time (with_manifest size delta_size rdiff config now s time v gone))
            path
            t
            c
  deltaify_moments v at fresh dir apart gone among path t c h = (
    put_version-Denotes patch s time v (with_deltas size delta_size rdiff config now s time v) at
        fresh
        (with_deltas-Stands size delta_size rdiff patch patch-rdiff config now s time v fresh apart)
        h,
    put_version-Denotes patch s time v
        (with_manifest size delta_size rdiff config now s time v gone) at fresh
        (with_manifest-Stands size delta_size rdiff patch patch-rdiff config now s time v apart gone
          (λ p x g file.
            converted_files_sound size delta_size rdiff config now s time v.files dir p x
              (among p g) file))
        h,
  )

  -- Let `rdiff patch` undo `rdiff delta`, and let the snapshot, if it is there, have no manifest,
  -- each path once, and no file with the name that the delta of another file gets. Then what each
  -- file of each snapshot stands for is the same once the snapshot has been turned into deltas.
  pub deltaify_snapshot-Denotes :
      ((v : Version C D)
        → version_at s time ≡ some v
        → (v.manifest ≡ none) × IsDirectory v.files × NoClash v.files)
      → (path : String) (t : Time) (c : C) → Denotes patch s path t c
      → Denotes patch (deltaify_snapshot size delta_size rdiff config now s time) path t c
  unfolding deltaify_snapshot
  deltaify_snapshot-Denotes fresh path t c h = elim (Bool-cases config.delta_versioning) [
    | inr off ↦ rw off h
    | inl on ↦ elim (Option-cases (version_at s time)) [
      | inl missing ↦ rw (on, missing) h
      | inr (v, at) ↦
          rw (on, at)
            (elim (Bool-cases (is_empty v.files)) [
              | inl empty ↦ rw empty h
              | inr filled ↦ rw filled (
                  (deltaify_moments v at (fresh v at).0 (fresh v at).1 (fresh v at).2
                    (converted_files size delta_size rdiff config now s time v.files) (λ p g. g)
                    path t c h).1)
            ])
    ]
  ]
