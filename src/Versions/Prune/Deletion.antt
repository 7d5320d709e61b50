-- ===== src/Versions/Prune/Deletion.antt =====
-- `promoteDependent` in versionBrowser.js, and what rests on the snapshot to delete.
use red_man.Common.{
  ◌≡◌, refl, ◌≢◌, sym, ◌∙◌, ◌⊎◌, inl, inr, String, true, false, Option, none, some, List, [], ◌∷◌,
  arith, String-Comparable, ℕ-Comparable, ◌===◌, leb, if◌then◌else◌, ℕ_discrete, Bool-cases,
  Option-cases, eq_refl, leb→le,
}
use red_man.Common.Dict
use red_man.Versions.Store.{
  Time, current, snapshot, Entry, full, delta, Version, Store, base_of, delta_base, version_at,
}
use red_man.Versions.Reconstruct.{Result, ok, err, ◌>>=◌}
use red_man.Versions.Reconstruct.Denotes.{RestsLater}
use red_man.Versions.Rebase.{manifest_at}
use red_man.Versions.Prune.{
  rests_on, promote_delta_to_full, promote_entries, promote_version, promote_dependent,
}
use red_man.Versions.Prune.Promote.{Promoted, Promoted-refl, Promoted-trans, Promoted-RestsLater}
use red_man.Versions.Prune.Guards.{IsPlain, Promoted-IsPlain, promote_delta_to_full-Promoted}

pub >>=-ok_inv {ℓ κ} :
    {A : Type ℓ} {B : Type κ} (m : Result A) (f : A → Result B) (b : B)
    → (m >>= f) ≡ ok b
    → (a : A) × (m ≡ ok a) × (f a ≡ ok b)
>>=-ok_inv (ok a) f b h = (a, refl, h)
>>=-ok_inv (err e) f b h = cc

delta_base-of :
    {C D : Type 0} (v : Version C D) (path : String) (m : Option (List (String × Entry)))
    → v.manifest ≡ m
    → delta_base v path ≡ base_of (elim m [ none ↦ none | some files ↦ Dict.get files path ])
delta_base-of v path m e = rw e

module _ {C D : Type 0} (patch : C → D → Option C) (deleting : Time) where
  -- One entry of a manifest: promoted if it rests on the snapshot to delete.
  abbrev promote_if : Store C D → Time → String → Entry → Result (Store C D)
  promote_if s time path entry =
      if rests_on deleting entry then promote_delta_to_full patch s time path else ok s

  promote_if-Promoted :
      (s t : Store C D) (time : Time) (path : String) (entry : Entry)
      → RestsLater s
      → promote_if s time path entry ≡ ok t
      → Promoted patch s t × (rests_on deleting entry ≡ true → IsPlain patch t time path)
  promote_if-Promoted s t time path entry order h = elim (Bool-cases (rests_on deleting entry)) [
    | inl rests ↦
        let (p, plain) = promote_delta_to_full-Promoted patch time path order (rw rests at h) in
        (p, λ g. plain)
    | inr other ↦
        let e : s ≡ t = ok_inv s t (rw other at h) in (rw (← e) (Promoted-refl patch s), λ g. cc)
  ]
    where
      ok_inv : (x y : Store C D) → ◌≡◌ {A = Result (Store C D)} (ok x) (ok y) → x ≡ y
      ok_inv x y h = cc

  -- The entries of one manifest: each that rests on the snapshot to delete is plain afterwards.
  promote_entries-Promoted :
      (s t : Store C D) (time : Time) (entries : List (String × Entry))
      → RestsLater s
      → promote_entries patch deleting s time entries ≡ ok t
      → Promoted patch s t
        × ((path : String) (entry : Entry)
            → Dict.get entries path ≡ some entry
            → rests_on deleting entry ≡ true
            → IsPlain patch t time path)
  unfolding promote_entries
  promote_entries-Promoted s t time [] order h =
      let e : s ≡ t = cc in (rw (← e) (Promoted-refl patch s), λ path entry g r. cc)
  promote_entries-Promoted s t time ((p, e) ∷ entries) order h =
      let (m, first, rest) =
        >>=-ok_inv (promote_if s time p e) (λ s'. promote_entries patch deleting s' time entries) t
          h in
      let (step, plain) = promote_if-Promoted s m time p e order first in
      let (steps, others) =
        promote_entries-Promoted m t time entries (Promoted-RestsLater patch step order) rest in
      (
        Promoted-trans patch step steps,
        λ path entry g r. elim (Bool-cases (p === path)) [
          | inr d ↦ others path entry (rw d at g) r
          | inl same ↦
              let e' : e ≡ entry = cc (rw same at g) in
              let f : p ≡ path = (String-Comparable.eqv_iff p path).0 same in
              rw (← f) (Promoted-IsPlain patch time p steps (plain (rw e' r)))
        ],
      )

  -- No delta of a snapshot rests on the one to delete.
  abbrev pub NotOn : Store C D → Time → Type 0
  NotOn s time =
      (v : Version C D) (path : String)
      → version_at s time ≡ some v
      → delta_base v path ≢ some (snapshot deleting)

  Promoted-NotOn :
      (s t : Store C D) (time : Time) → Promoted patch s t → NotOn s time → NotOn t time
  Promoted-NotOn s t time p free v path at rests =
      let (w, at', rests') = p.bases path time v (snapshot deleting) at rests in
      free w path at' rests'

  -- What an entry with that base says to the loop's test.
  rests_on-base :
      (e : Option Entry)
      → base_of e ≡ some (snapshot deleting)
      → (entry : Entry) × (e ≡ some entry) × (rests_on deleting entry ≡ true)
  rests_on-base none h = cc
  rests_on-base (some (full size reason)) h = cc
  rests_on-base (some (delta size delta_size current)) h = cc
  rests_on-base (some (delta size delta_size (snapshot b))) h =
      let e : b ≡ deleting = cc in
      (delta size delta_size (snapshot b), refl, rw e (eq_refl deleting))

  manifest_of :
      (s : Store C D) (time : Time) (v : Version C D) (m : Option (List (String × Entry)))
      → manifest_at s time ≡ m
      → version_at s time ≡ some v
      → v.manifest ≡ m
  manifest_of s time v m h at = ground arith

  pub promote_version-same :
      (s : Store C D) (time : Time)
      → (leb deleting time ≡ true) ⊎ (manifest_at s time ≡ none)
      → promote_version patch deleting s time ≡ ok s
  unfolding promote_version
  promote_version-same s time (inl later) = rw later
  promote_version-same s time (inr unread) = elim (Bool-cases (leb deleting time)) [
    | inl later ↦ rw later
    | inr earlier ↦ ground arith
  ]

  pub promote_version-entries :
      (s : Store C D) (time : Time) (files : List (String × Entry))
      → leb deleting time ≡ false
      → manifest_at s time ≡ some files
      → promote_version patch deleting s time ≡ promote_entries patch deleting s time files
  unfolding promote_version
  promote_version-entries s time files earlier read = ground arith

  unchanged :
      (s t : Store C D) (time : Time)
      → ok s ≡ ok t
      → NotOn s time
      → Promoted patch s t × NotOn t time
  unchanged s t time h free =
      let e : s ≡ t = cc in (rw (← e) (Promoted-refl patch s), rw (← e) free)

  pub promote_version-NotOn :
      (s t : Store C D) (time : Time)
      → RestsLater s
      → promote_version patch deleting s time ≡ ok t
      → Promoted patch s t × NotOn t time
  promote_version-NotOn s t time order h = elim (Bool-cases (leb deleting time)) [
    | inl later ↦
        unchanged s t time (sym (promote_version-same s time (inl later)) ∙ h) (λ v path at rests.
          absurd (omega (arith, order time deleting v path at rests, leb→le deleting time later)))
    | inr earlier ↦ elim (Option-cases (manifest_at s time)) [
      | inl unread ↦
          unchanged s t time (sym (promote_version-same s time (inr unread)) ∙ h)
            (λ v path at rests. no_entry v path (manifest_of s time v none unread at) rests)
      | inr (files, read) ↦
          let (p, plain) =
            promote_entries-Promoted s t time files order
              (sym (promote_version-entries s time files earlier read) ∙ h) in
          (
            p,
            λ v path at rests.
                let (w, at', rests') = p.bases path time v (snapshot deleting) at rests in
                let (entry, found, on) =
                  rests_on-base (Dict.get files path)
                    (entry_of w path files (manifest_of s time w (some files) read at') rests') in
                cc (plain path entry found on v at),
          )
    ]
  ]
    where
      no_entry :
          (v : Version C D) (path : String)
          → v.manifest ≡ none
          → delta_base v path ≢ some (snapshot deleting)
      no_entry v path e h = cc (delta_base-of v path none e)

      entry_of :
          (w : Version C D) (path : String) (files : List (String × Entry))
          → w.manifest ≡ some files
          → delta_base w path ≡ some (snapshot deleting)
          → base_of (Dict.get files path) ≡ some (snapshot deleting)
      entry_of w path files e h = sym (delta_base-of w path (some files) e) ∙ h

  -- After `promoteDependent`, no snapshot of the list rests on the one to delete.
  pub promote_dependent-NotOn :
      (s t : Store C D) (times : List Time)
      → RestsLater s
      → promote_dependent patch deleting s times ≡ ok t
      → Promoted patch s t × ((time : Time) → Dict.has times time ≡ true → NotOn t time)
  unfolding promote_dependent
  promote_dependent-NotOn s t [] order h =
      let e : s ≡ t = cc in (rw (← e) (Promoted-refl patch s), λ time g. cc)
  promote_dependent-NotOn s t (u ∷ times) order h =
      let (m, first, rest) =
        >>=-ok_inv (promote_version patch deleting s u)
          (λ s'. promote_dependent patch deleting s' times) t h in
      let (p, free) = promote_version-NotOn s m u order first in
      let (q, others) =
        promote_dependent-NotOn m t times (Promoted-RestsLater patch p order) rest in
      (
        Promoted-trans patch p q,
        λ time g. elim (ℕ_discrete u time) [
          | yes e ↦ rw (← e) (Promoted-NotOn m t u q free)
          | no d ↦ others time (ground arith)
        ],
      )
