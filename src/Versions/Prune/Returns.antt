-- ===== src/Versions/Prune/Returns.antt =====
-- When the deleting loop of `pruneVersions` in versionBrowser.js runs to its end.
use red_man.Common.{
  ◌≡◌, refl, sym, ap, ◌∙◌, inl, inr, String, Option, some, List, [], ◌∷◌, String-Comparable,
  ℕ-Comparable, leb, Bool-cases, Option-cases,
}
use red_man.Common.Dict
use red_man.Versions.Store.{
  Time, Base, snapshot, Entry, full, delta, Version, Store, delta_base, version_at,
}
use red_man.Versions.Reconstruct.{ok, ◌>>=◌}
use red_man.Versions.Reconstruct.Denotes.{Denotes, RestsLater}
use red_man.Versions.Reconstruct.Laws.{reconstruct_file_iff}
use red_man.Versions.Rebase.{put_version, manifest_at}
use red_man.Versions.Prune.{
  rests_on, promoted_version, delete_version, promote_entry, promote_delta_to_full, promote_entries,
  promote_version, promote_dependent, delete_loop,
}
use red_man.Versions.Prune.Promote.{Promoted, Promoted-RestsLater}
use red_man.Versions.Prune.Guards.{promote_delta_to_full-Promoted}
use red_man.Versions.Prune.Deletion.{
  NotOn, promote_version-same, promote_version-entries, promote_version-NotOn,
  promote_dependent-NotOn,
}
use red_man.Versions.Prune.Kept.{
  Covers, Pruned-RestsLater, Pruned-Covers, round, round-Pruned, delete_version-Denotes,
}

module _ {C D : Type 0} (patch : C → D → Option C) where
  -- Every delta of the store stands for some content.
  abbrev pub IsIntact : Store C D → Type 0
  IsIntact s =
      (path : String) (time : Time) (v : Version C D) (base : Base)
      → version_at s time ≡ some v
      → delta_base v path ≡ some base
      → (c : C) × Denotes patch s path time c

  Promoted-IsIntact : {s t : Store C D} → Promoted patch s t → IsIntact s → IsIntact t
  Promoted-IsIntact p intact path time v base at rests =
      let (w, at', rests') = p.bases path time v base at rests in
      let (c, stands) = intact path time w base at' rests' in (c, p.keeps path time c stands)

  promote_entry_returns :
      (s : Store C D) (time : Time) (path : String) (v : Version C D)
      (files : List (String × Entry)) (entry : Entry)
      → RestsLater s
      → IsIntact s
      → version_at s time ≡ some v
      → v.manifest ≡ some files
      → Dict.get files path ≡ some entry
      → (t : Store C D) × (promote_entry patch s time path v files entry ≡ ok t)
  unfolding promote_entry
  promote_entry_returns s time path v files (full size reason) order intact at read found =
      (s, refl)
  promote_entry_returns s time path v files (delta size delta_size base) order intact at read
        found =
      let (c, stands) = intact path time v base at (rw (read, found)) in
      (
        put_version s time (promoted_version v files path c size),
        rw ((reconstruct_file_iff patch s path time c order).1 stands) refl,
      )

  promote_returns :
      (s : Store C D) (time : Time) (path : String)
      → RestsLater s
      → IsIntact s
      → (t : Store C D) × (promote_delta_to_full patch s time path ≡ ok t)
  unfolding promote_delta_to_full
  promote_returns s time path order intact = elim (Option-cases (version_at s time)) [
    | inl missing ↦ (s, rw (missing, promote_delta_to_full) refl)
    | inr (v, at) ↦ elim (Option-cases v.manifest) [
      | inl unread ↦ (s, rw (at, promote_delta_to_full) (rw unread refl))
      | inr (files, read) ↦ elim (Option-cases (Dict.get files path)) [
        | inl absent ↦ (s, rw (at, promote_delta_to_full) (rw (read, absent) refl))
        | inr (entry, found) ↦
            let (t, h) =
              promote_entry_returns s time path v files entry order intact at read found in
            (t, rw (at, promote_delta_to_full) (rw (read, found) h))
      ]
    ]
  ]

  module _ (deleting : Time) where
    promote_entries_returns :
        (s : Store C D) (time : Time) (entries : List (String × Entry))
        → RestsLater s
        → IsIntact s
        → (t : Store C D) × (promote_entries patch deleting s time entries ≡ ok t)
    unfolding promote_entries
    promote_entries_returns s time [] order intact = (s, refl)
    promote_entries_returns s time ((path, entry) ∷ entries) order intact =
        elim (Bool-cases (rests_on deleting entry)) [
          | inr other ↦
              let (t, h) = promote_entries_returns s time entries order intact in (t, rw other h)
          | inl rests ↦
              let (m, first) = promote_returns s time path order intact in
              let p = (promote_delta_to_full-Promoted patch time path order first).0 in
              let (t, h) =
                promote_entries_returns m time entries (Promoted-RestsLater patch p order)
                  (Promoted-IsIntact p intact) in
              (t, rw (rests, first) h)
        ]

    promote_version_returns :
        (s : Store C D) (time : Time)
        → RestsLater s
        → IsIntact s
        → (t : Store C D) × (promote_version patch deleting s time ≡ ok t)
    unfolding promote_version
    promote_version_returns s time order intact = elim (Bool-cases (leb deleting time)) [
      | inl later ↦ (s, rw later refl)
      | inr earlier ↦ elim (Option-cases (manifest_at s time)) [
        | inl unread ↦ (s, promote_version-same patch deleting s time (inr unread))
        | inr (files, read) ↦
            let (t, h) = promote_entries_returns s time files order intact in
            (t, promote_version-entries patch deleting s time files earlier read ∙ h)
      ]
    ]

    promote_dependent_returns :
        (s : Store C D) (times : List Time)
        → RestsLater s
        → IsIntact s
        → (t : Store C D) × (promote_dependent patch deleting s times ≡ ok t)
    unfolding promote_dependent
    promote_dependent_returns s [] order intact = (s, refl)
    promote_dependent_returns s (time ∷ times) order intact =
        let (m, first) = promote_version_returns s time order intact in
        let p = (promote_version-NotOn patch deleting s m time order first).0 in
        let (t, h) =
          promote_dependent_returns m times (Promoted-RestsLater patch p order)
            (Promoted-IsIntact p intact) in
        (t, rw first h)

  -- Deleting a snapshot on which nothing rests leaves the other deltas as they were.
  delete_version-IsIntact :
      (s : Store C D) (deleting : Time)
      → ((time : Time) → NotOn patch deleting s time)
      → IsIntact s
      → IsIntact (delete_version s deleting)
  unfolding delete_version
  delete_version-IsIntact s x free intact path time v base at rests =
      let (other, at') = Dict.get-remove_inv s.versions x time at in
      let (c, stands) = intact path time v base at' rests in
      (c, delete_version-Denotes patch s x free stands (λ e. other (sym e)))

  module _ (keep all_times : List Time) where
    round_returns :
        (s : Store C D) (u : Time)
        → RestsLater s
        → Covers patch all_times s
        → IsIntact s
        → (t : Store C D) × (round patch keep all_times s u ≡ ok t) × IsIntact t
    round_returns s u order cover intact = elim (Bool-cases (Dict.has keep u)) [
      | inl kept ↦ (s, rw kept refl, intact)
      | inr drop ↦
          let (safe, done) = promote_dependent_returns u s all_times order intact in
          let (p, free) = promote_dependent-NotOn patch u s safe all_times order done in
          let nowhere : (time : Time) → NotOn patch u safe time = λ time v path at rests.
            let (w, at', rests') = p.bases path time v (snapshot u) at rests in
            free time (cover path time w (snapshot u) at' rests') v path at rests in
          (
            delete_version safe u,
            rw (drop, done) refl,
            delete_version-IsIntact safe u nowhere (Promoted-IsIntact p intact),
          )
    ]

    loop_returns :
        (s : Store C D) (times : List Time)
        → RestsLater s
        → Covers patch all_times s
        → IsIntact s
        → (t : Store C D) × (delete_loop patch keep all_times s times ≡ ok t) × IsIntact t
    unfolding delete_loop
    loop_returns s [] order cover intact = (s, refl, intact)
    loop_returns s (u ∷ times) order cover intact =
        let (m, first, whole) = round_returns s u order cover intact in
        let p = (round-Pruned patch keep all_times s m u order cover first).0 in
        let (t, h, rest) =
          loop_returns m times (Pruned-RestsLater patch p order)
            (Pruned-Covers patch all_times p cover) whole in
        (t, ap (λ r. r >>= (λ s'. delete_loop patch keep all_times s' times)) first ∙ h, rest)

    -- If every delta rests on a later snapshot and stands for some content, and the loop goes over
    -- all snapshots with deltas, then the loop ends without an error, and every delta that is left
    -- stands for some content again.
    pub delete_loop_returns :
        (s : Store C D)
        → RestsLater s
        → Covers patch all_times s
        → IsIntact s
        → (t : Store C D) × (delete_loop patch keep all_times s all_times ≡ ok t) × IsIntact t
    delete_loop_returns s order cover intact = loop_returns s all_times order cover intact
