-- ===== src/Versions/Prune/Guards.antt =====
-- The branches of `promoteDeltaToFull` in deltaVersion.js.
use red_man.Common.{
  ◌≡◌, refl, ap, inl, inr, String, Option, none, some, List, arith, String-Comparable, ℕ-Comparable,
  Option-cases,
}
use red_man.Common.Dict
use red_man.Versions.Store.{
  Time, Entry, full, delta, promoted, Version, Store, base_of, delta_base, version_at,
}
use red_man.Versions.Reconstruct.{
  Result, ok, err, cannot_reconstruct, ◌>>=◌, or_throw, reconstruct_file,
}
use red_man.Versions.Reconstruct.Denotes.{Denotes, RestsLater}
use red_man.Versions.Reconstruct.Laws.{reconstruct_file_iff}
use red_man.Versions.Rebase.{put_version}
use red_man.Versions.Prune.{promoted_version, promote_entry, promote_delta_to_full}
use red_man.Versions.Prune.Promote.{Promoted, Promoted-refl, put_full-Promoted}

module _ {C D : Type 0} (patch : C → D → Option C) where
  -- A file without a delta entry.
  abbrev pub IsPlain : Store C D → Time → String → Type 0
  IsPlain s time path = (v : Version C D) → version_at s time ≡ some v → delta_base v path ≡ none

  pub Promoted-IsPlain :
      {s t : Store C D} (time : Time) (path : String)
      → Promoted patch s t
      → IsPlain s time path
      → IsPlain t time path
  Promoted-IsPlain time path p plain v at = elim (Option-cases (delta_base v path)) [
    | inl none_ ↦ none_
    | inr (base, rests) ↦
        let (w, at', rests') = p.bases path time v base at rests in cc (plain w at')
  ]

  Promoted-unchanged :
      {s t : Store C D} (time : Time) (path : String)
      → s ≡ t
      → IsPlain s time path
      → Promoted patch s t × IsPlain t time path
  Promoted-unchanged {s} time path e p = rw (← e) (Promoted-refl patch s, p)

  IsPlain-version :
      (s : Store C D) (time : Time) (path : String) (v : Version C D)
      → version_at s time ≡ some v
      → delta_base v path ≡ none
      → IsPlain s time path
  IsPlain-version s time path v at h w there = let this : v ≡ w = cc in rw this at h

  -- A promotion that ends well has reconstructed the file.
  promote_inv :
      (r : Result (Option C)) (f : C → Store C D) (t : Store C D)
      → (◌>>=◌ {B = Store C D} r
          (λ found. ◌>>=◌ {B = Store C D} (or_throw cannot_reconstruct found) (λ c. ok (f c))))
        ≡ ok t
      → (c : C) × (r ≡ ok (some c)) × (f c ≡ t)
  promote_inv (err e) f t h = cc
  promote_inv (ok none) f t h = cc
  promote_inv (ok (some c)) f t h = (c, refl, cc)

  promote_entry-Promoted :
      {s t : Store C D} (time : Time) (path : String) (v : Version C D)
      (files : List (String × Entry)) (entry : Entry)
      → RestsLater s
      → version_at s time ≡ some v
      → v.manifest ≡ some files
      → Dict.get files path ≡ some entry
      → promote_entry patch s time path v files entry ≡ ok t
      → Promoted patch s t × IsPlain t time path
  unfolding promote_entry
  promote_entry-Promoted {s} time path v files (full size reason) order at read found h =
      Promoted-unchanged time path (cc) (IsPlain-version s time path v at (rw (read, found)))
  promote_entry-Promoted {s} {t} time path v files (delta size delta_size base) order at read found
        h =
      let (c, r, e) =
        promote_inv (reconstruct_file patch s time path)
          (λ c. put_version s time (promoted_version v files path c size)) t h in
      let stands = (reconstruct_file_iff patch s path time c order).0 r in
      (
        rw e at (put_full-Promoted patch order time path v files size c at read stands),
        rw (← e) (
            IsPlain-version (put_version s time (promoted_version v files path c size)) time path
              (promoted_version v files path c size) (Dict.get-put_self s.versions time time _ refl)
              (ap base_of (Dict.get-put_self files path path (full size (some promoted)) refl))),
      )

  pub promote_delta_to_full-Promoted :
      {s t : Store C D} (time : Time) (path : String)
      → RestsLater s
      → promote_delta_to_full patch s time path ≡ ok t
      → Promoted patch s t × IsPlain t time path
  unfolding promote_delta_to_full
  promote_delta_to_full-Promoted {s} {t} time path order h =
      elim (Option-cases (version_at s time)) [
        | inl missing ↦ Promoted-unchanged time path (ground arith) (λ v at. cc)
        | inr (v, at) ↦ elim (Option-cases v.manifest) [
          | inl unread ↦
              Promoted-unchanged time path (ground arith)
                (IsPlain-version s time path v at (rw unread))
          | inr (files, read) ↦ elim (Option-cases (Dict.get files path)) [
            | inl absent ↦
                Promoted-unchanged time path (ground arith)
                  (IsPlain-version s time path v at (rw (read, absent)))
            | inr (entry, found) ↦
                promote_entry-Promoted time path v files entry order at read found (ground arith)
          ]
        ]
      ]

  -- Where every delta rests on a later snapshot, a promotion that ends without an error leaves
  -- every file of every snapshot standing for the same content, and the promoted file without a
  -- delta entry.
  pub promote_delta_to_full-Denotes :
      (s t : Store C D) (time : Time) (path : String)
      → RestsLater s
      → promote_delta_to_full patch s time path ≡ ok t
      → (p : String) (u : Time) (c : C) (v : Version C D) → Denotes patch s p u c
      → version_at t time ≡ some v
      → Denotes patch t p u c × (delta_base v path ≡ none)
  promote_delta_to_full-Denotes s t time path order h p u c v stands at =
      let (promoted_, plain) = promote_delta_to_full-Promoted time path order h in
      (promoted_.keeps p u c stands, plain v at)
