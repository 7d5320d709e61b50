-- ===== src/Versions/Prune/Promote.antt =====
-- One promotion of `promoteDeltaToFull` in deltaVersion.js, and what files stand for.
use red_man.Common.{
  ℕ, ◌≡◌, refl, ◌≢◌, sym, ap, ◌∙◌, ◌⊎◌, inl, inr, String, Option, none, some, List,
  String-Comparable, ℕ-Comparable, ℕ_discrete, eq_cases,
}
use red_man.Common.Dict
use red_man.Versions.Store.{
  Time, Base, snapshot, Entry, full, promoted, Version, Store, base_of, manifest_entry, delta_base,
  version_at,
}
use red_man.Versions.Reconstruct.Denotes.{Denotes, stored, on_current, on_snapshot, RestsLater}
use red_man.Versions.Reconstruct.Laws.{reconstruct_file_iff}
use red_man.Versions.Rebase.{put_version}
use red_man.Versions.Prune.{promoted_version}

module _ {C D : Type 0} (patch : C → D → Option C) where
  -- No file stands for something else, and no delta has got another base.
  pub record Promoted (s t : Store C D) : Type 0 where
    pub keeps :
        (path : String) (time : Time) (c : C)
        → Denotes patch s path time c
        → Denotes patch t path time c
    pub bases :
        (path : String) (time : Time) (v : Version C D) (base : Base)
        → version_at t time ≡ some v
        → delta_base v path ≡ some base
        → (w : Version C D) × (version_at s time ≡ some w) × (delta_base w path ≡ some base)
    pub gone : (time : Time) → version_at s time ≡ none → version_at t time ≡ none

  pub Promoted-refl : (s : Store C D) → Promoted s s
  Promoted-refl s = record {
    keeps = λ path time c h. h;
    bases = λ path time v base at rests. (v, at, rests);
    gone = λ time h. h;
  }

  pub Promoted-trans : {s t u : Store C D} → Promoted s t → Promoted t u → Promoted s u
  Promoted-trans p q = record {
    keeps = λ path time c h. q.keeps path time c (p.keeps path time c h);
    bases = λ path time v base at rests.
        let (w, at', delta') = q.bases path time v base at rests in
        p.bases path time w base at' delta';
    gone = λ time h. q.gone time (p.gone time h);
  }

  pub Promoted-RestsLater : {s t : Store C D} → Promoted s t → RestsLater s → RestsLater t
  Promoted-RestsLater p order time base v path at rests =
      let (w, at', delta') = p.bases path time v (snapshot base) at rests in
      order time base w path at' delta'

  pub Denotes-unique :
      {s : Store C D} {path : String} {time : Time} {b c : C}
      → RestsLater s
      → Denotes patch s path time b
      → Denotes patch s path time c
      → b ≡ c
  Denotes-unique {s} {path} {time} {b} {c} order h k = cc (
      sym ((reconstruct_file_iff patch s path time b order).1 h)
      ∙ (reconstruct_file_iff patch s path time c order).1 k)

  module _ {s : Store C D} (order : RestsLater s) (time : Time) (path : String) (v : Version C D)
      (files : List (String × Entry)) (size : ℕ) (c : C) (at : version_at s time ≡ some v)
      (read : v.manifest ≡ some files) (stands : Denotes patch s path time c) where
    target : Store C D
    target = put_version s time (promoted_version v files path c size)

    -- The promoted file rests on nothing, and the others of its snapshot are as before.
    promoted-same :
        (p : String)
        → path ≢ p
        → (delta_base (promoted_version v files path c size) p ≡ delta_base v p)
          × (Dict.get (promoted_version v files path c size).files p ≡ Dict.get v.files p)
          × (Dict.get (promoted_version v files path c size).deltas p ≡ Dict.get v.deltas p)
    promoted-same p d = (
      ap base_of (Dict.get-put_ne files path p (full size (some promoted)) d ∙ entry),
      Dict.get-put_ne v.files path p c d,
      Dict.get-remove_ne v.deltas path p d,
    )
      where
        entry : Dict.get files p ≡ manifest_entry v p
        entry = rw read

    promoted_self :
        (p : String)
        → path ≡ p
        → (delta_base (promoted_version v files path c size) p ≡ none)
          × (Dict.get (promoted_version v files path c size).files p ≡ some c)
    promoted_self p e = (
      ap base_of (Dict.get-put_self files path p (full size (some promoted)) e),
      Dict.get-put_self v.files path p c e,
    )

    -- A file of a snapshot is the promoted one, or is as before.
    Kept : String → Time → Version C D → Type 0
    Kept p t w =
        (w' : Version C D) × (version_at target t ≡ some w')
        × (delta_base w' p ≡ delta_base w p)
        × (Dict.get w'.files p ≡ Dict.get w.files p)
        × (Dict.get w'.deltas p ≡ Dict.get w.deltas p)

    old_or_put :
        (p : String) (t : Time) (w : Version C D)
        → version_at s t ≡ some w
        → ((time ≡ t) × (path ≡ p)) ⊎ Kept p t w
    unfolding Kept target
    old_or_put p t w there = elim (ℕ_discrete time t) [
      | no other ↦ inr (w, Dict.get-put_ne s.versions time t _ other ∙ there, refl, refl, refl)
      | yes e ↦ elim (eq_cases path p) [
        | inl f ↦ inl (e, f)
        | inr d ↦
            let this : v ≡ w = cc in
            let (base, file, patches) = promoted-same p d in
            inr (
              promoted_version v files path c size,
              Dict.get-put_self s.versions time t _ e,
              base ∙ rw this,
              file ∙ rw this,
              patches ∙ rw this,
            )
      ]
    ]

    -- The promoted file itself.
    promoted_hit :
        (p : String) (t : Time) (x : C)
        → Denotes patch s p t x
        → time ≡ t
        → path ≡ p
        → Denotes patch target p t x
    unfolding target
    promoted_hit p t x h e f =
        let here : Denotes patch s path time x = rw (e, f) h in
        stored t _ x (Dict.get-put_self s.versions time t _ e) (promoted_self p f).0
          ((promoted_self p f).1 ∙ ap some (Denotes-unique order stands here))

    promoted_keeps :
        (p : String) (t : Time) (x : C) → Denotes patch s p t x → Denotes patch target p t x
    unfolding Kept target
    promoted_keeps p t x (stored _ w _ there plain file) = elim (old_or_put p t w there) [
      | inl (e, f) ↦ promoted_hit p t x (stored t w x there plain file) e f
      | inr (w', there', base, same, _) ↦ stored t w' x there' (base ∙ plain) (same ∙ file)
    ]
    promoted_keeps p t x (on_current _ w d b _ there rests found file patched) =
        elim (old_or_put p t w there) [
          | inl (e, f) ↦
              promoted_hit p t x (on_current t w d b x there rests found file patched) e f
          | inr (w', there', base, _, same) ↦
              on_current t w' d b x there' (base ∙ rests) (same ∙ found) file patched
        ]
    promoted_keeps p t x (on_snapshot _ u w d b _ there rests found below patched) =
        elim (old_or_put p t w there) [
          | inl (e, f) ↦
              promoted_hit p t x (on_snapshot t u w d b x there rests found below patched) e f
          | inr (w', there', base, _, same) ↦
              on_snapshot t u w' d b x there' (base ∙ rests) (same ∙ found)
                (promoted_keeps p u b below) patched
        ]

    promoted_bases :
        (p : String) (t : Time) (w : Version C D) (base : Base)
        → version_at target t ≡ some w
        → delta_base w p ≡ some base
        → (u : Version C D) × (version_at s t ≡ some u) × (delta_base u p ≡ some base)
    unfolding target
    promoted_bases p t w base there rests = elim (ℕ_discrete time t) [
      | no other ↦ (w, sym (Dict.get-put_ne s.versions time t _ other) ∙ there, rests)
      | yes e ↦
          let this : promoted_version v files path c size ≡ w =
            cc (Dict.get-put_self s.versions time t (promoted_version v files path c size) e) in
          elim (eq_cases path p) [
            | inl f ↦
                cc (sym (ap (λ (y : Version C D). delta_base y p) this) ∙ (promoted_self p f).0)
            | inr d ↦ (
              v,
              rw e at at,
              sym (promoted-same p d).0 ∙ ap (λ (y : Version C D). delta_base y p) this ∙ rests,
            )
          ]
    ]

    promoted_gone : (t : Time) → version_at s t ≡ none → version_at target t ≡ none
    unfolding target
    promoted_gone t h = Dict.get-put_ne s.versions time t _ (λ e. cc) ∙ h

    pub put_full-Promoted : Promoted s (put_version s time (promoted_version v files path c size))
    unfolding target
    put_full-Promoted = record {
      keeps = promoted_keeps;
      bases = promoted_bases;
      gone = promoted_gone;
    }
