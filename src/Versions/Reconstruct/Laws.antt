-- ===== src/Versions/Reconstruct/Laws.antt =====
-- What `reconstructFile` of deltaVersion.js returns.
use red_man.Common.{
  ℕ, zero, suc, ◌<◌, ◌≡◌, refl, ◌↔◌, ap, sym, ◌∙◌, inl, inr, String, Option, none, some, List, [],
  ◌∷◌, length, arith, String-Comparable, ℕ-Comparable, Option-cases,
}
use red_man.Common.Dict
use red_man.Versions.Store.{Time, Base, current, snapshot, Version, Store, delta_base, version_at}
use red_man.Versions.Reconstruct.{
  Error, Result, ok, err, ◌>>=◌, or_throw, walk, apply_patches, reconstruct_file,
}
use red_man.Versions.Reconstruct.Denotes.{
  Denotes-version, Denotes-files, Denotes, stored, on_current, on_snapshot, RestsLater, later_than,
  later_than-le, later_than-step,
}
use red_man.Versions.Reconstruct.Steps.{
  walk-zero, walk-no_delta, walk-current, walk-lost, walk-file, walk-on, apply_patches_inv,
  apply_patches-nil, apply_patches-step,
}

module _ {C D : Type 0} (patch : C → D → Option C) (s : Store C D) (path : String) where
  -- What the walk leaves to be patched comes to the same as patching what the file stands for.
  walk_complete :
      (fuel : ℕ) (time : Time) (base : Base) (v : Version C D) (stack : List D) (c : C)
      → RestsLater s
      → later_than s.versions time < fuel
      → Denotes patch s path time c
      → version_at s time ≡ some v
      → delta_base v path ≡ some base
      → (b : C) × (rest : List D) × (walk fuel s path time base stack ≡ ok (b, rest))
        × (apply_patches patch b rest ≡ apply_patches patch c stack)
  walk_complete zero time base v stack c order enough _ at delta = elim enough [ ]
  walk_complete (suc fuel) time base v stack c order enough (stored _ w _ g n h) at delta = cc
  walk_complete (suc fuel) time base v stack c order enough (on_current _ w d b _ g n h k p) at
        delta =
      let same : base ≡ current = cc in
      (
        b,
        d ∷ stack,
        rw same (walk-current s path fuel stack time w d g h ∙ rw k),
        apply_patches-step patch b c d stack p,
      )
  walk_complete (suc fuel) time base v stack c order enough (on_snapshot _ t w d b _ g n h k p) at
        delta =
      let same : base ≡ snapshot t = cc in
      let later : time < t = order time t w path g n in
      let (x, below) = Denotes-version k in
      rw same (elim (Option-cases (delta_base x path)) [
        | inl plain ↦ (
          b,
          d ∷ stack,
          walk-file s path fuel stack time t w x d g h below plain
              ∙ rw (Denotes-files x k below plain),
          apply_patches-step patch b c d stack p,
        )
        | inr (next, chained) ↦
            let (r, rest, q, e) =
              walk_complete fuel t next x (d ∷ stack) b order
                (omega (arith, later_than-step s.versions time t below later)) k below chained in
            (
              r,
              rest,
              walk-on s path fuel stack time t next w x d g h below chained ∙ q,
              e ∙ apply_patches-step patch b c d stack p,
            )
      ])

  -- A base that was found, and the patch on it.
  base_sound :
      (found : Option C) (e : Error) (d : D) (stack : List D) (b : C) (rest : List D) (done : C)
      → ◌>>=◌ {B = C × List D} (or_throw e found) (λ c. ok (c, d ∷ stack)) ≡ ok (b, rest)
      → apply_patches patch b rest ≡ ok done
      → (x : C) × (c : C) × (found ≡ some x)
        × (patch x d ≡ some c)
        × (apply_patches patch c stack ≡ ok done)
  base_sound none e d stack b rest done h p = cc
  base_sound (some x) e d stack b rest done h p =
      let same : (x, d ∷ stack) ≡ (b, rest) = cc in
      let (c, q, r) =
        apply_patches_inv patch x d stack done
          (ap (λ (y : C × List D). apply_patches patch y.0 y.1) same ∙ p) in
      (x, c, refl, q, r)

  -- A walk that ends well has met what the file stands for.
  walk_sound :
      (fuel : ℕ) (time : Time) (base : Base) (v : Version C D) (stack : List D) (b : C)
      (rest : List D) (done : C)
      → version_at s time ≡ some v
      → delta_base v path ≡ some base
      → walk fuel s path time base stack ≡ ok (b, rest)
      → apply_patches patch b rest ≡ ok done
      → (c : C) × (Denotes patch s path time c) × (apply_patches patch c stack ≡ ok done)
  walk_sound zero time base v stack b rest done at delta h p = cc (walk-zero s path time base stack)
  walk_sound (suc fuel) time current v stack b rest done at delta h p =
      elim (Option-cases (Dict.get v.deltas path)) [
        | inl missing ↦
            let (e, stop) = walk-no_delta s path fuel stack time current v at missing in cc
        | inr (d, found) ↦
            let (x, c, file, patched, r) =
              base_sound (Dict.get s.current_files path) _ d stack b rest done
                (sym (walk-current s path fuel stack time v d at found) ∙ h) p in
            (c, on_current time v d x c at delta found file patched, r)
      ]
  walk_sound (suc fuel) time (snapshot t) v stack b rest done at delta h p =
      elim (Option-cases (Dict.get v.deltas path)) [
        | inl missing ↦
            let (e, stop) = walk-no_delta s path fuel stack time (snapshot t) v at missing in cc
        | inr (d, found) ↦ elim (Option-cases (version_at s t)) [
          | inl lost ↦ cc (walk-lost s path fuel stack time t v d at found lost)
          | inr (w, below) ↦ elim (Option-cases (delta_base w path)) [
            | inl plain ↦
                let (x, c, file, patched, r) =
                  base_sound (Dict.get w.files path) _ d stack b rest done
                    (sym (walk-file s path fuel stack time t v w d at found below plain) ∙ h) p in
                (
                  c,
                  on_snapshot time t v d x c at delta found (stored t w x below plain file) patched,
                  r,
                )
            | inr (next, chained) ↦
                let (x, stands, q) =
                  walk_sound fuel t next w (d ∷ stack) b rest done below chained
                    (sym (walk-on s path fuel stack time t next v w d at found below chained) ∙ h)
                    p in
                let (c, patched, r) = apply_patches_inv patch x d stack done q in
                (c, on_snapshot time t v d x c at delta found stands patched, r)
          ]
        ]
      ]

  pub reconstruct_file-missing :
      (time : Time) → version_at s time ≡ none → reconstruct_file patch s time path ≡ ok none
  unfolding reconstruct_file
  reconstruct_file-missing time missing = ground arith

  ok_inv : {A : Type 0} {x y : A} → ok x ≡ ok y → x ≡ y
  ok_inv h = cc

  nothing_left : (x c : C) → apply_patches patch x [] ≡ ok c → x ≡ c
  nothing_left x c h = cc (apply_patches-nil patch x)

  pub reconstruct_file-plain :
      (time : Time) (v : Version C D)
      → version_at s time ≡ some v
      → delta_base v path ≡ none
      → reconstruct_file patch s time path ≡ ok (Dict.get v.files path)
  unfolding reconstruct_file
  reconstruct_file-plain time v at plain = ground arith

  -- The last lines of `reconstructFile`.
  unfoldable pub finish : Result (C × List D) → Result (Option C)
  finish r = do (c, stack) ← r; done ← apply_patches patch c stack; ok (some done)

  pub reconstruct_file-delta :
      (time : Time) (v : Version C D) (base : Base)
      → version_at s time ≡ some v
      → delta_base v path ≡ some base
      → reconstruct_file patch s time path
        ≡ finish (walk (suc (length s.versions)) s path time base [])
  unfolding reconstruct_file finish
  reconstruct_file-delta time v base at delta = rw (at, reconstruct_file) (rw delta refl)

  finish_inv :
      (r : Result (C × List D)) (c : C)
      → finish r ≡ ok (some c)
      → (b : C) × (rest : List D) × (r ≡ ok (b, rest)) × (apply_patches patch b rest ≡ ok c)
  unfolding finish
  finish_inv (err e) c h = cc
  finish_inv (ok (b, rest)) c h = (b, rest, refl, patched (apply_patches patch b rest) h)
    where
      patched :
          (r : Result C)
          → (◌>>=◌ {B = Option C} r (λ done. ok (some done))) ≡ ok (some c)
          → r ≡ ok c
      patched (err e) h = cc
      patched (ok x) h = cc

  finish-ok :
      (b c : C) (rest : List D)
      → apply_patches patch b rest ≡ ok c
      → finish (ok (b, rest)) ≡ ok (some c)
  unfolding finish
  finish-ok b c rest h = rw h

  -- Where deltas rest on later snapshots, `reconstructFile` returns a content exactly when the file
  -- of the snapshot stands for that content.
  pub reconstruct_file_iff :
      (time : Time) (c : C)
      → RestsLater s
      → (reconstruct_file patch s time path ≡ ok (some c)) ↔ Denotes patch s path time c
  reconstruct_file_iff time c order = (sound, complete)
    where
      sound : reconstruct_file patch s time path ≡ ok (some c) → Denotes patch s path time c
      sound h = elim (Option-cases (version_at s time)) [
        | inl missing ↦ cc (reconstruct_file-missing time missing)
        | inr (v, at) ↦ elim (Option-cases (delta_base v path)) [
          | inl plain ↦
              stored time v c at plain (ok_inv (sym (reconstruct_file-plain time v at plain) ∙ h))
          | inr (base, delta) ↦
              let (b, rest, walked, patched) =
                finish_inv _ c (sym (reconstruct_file-delta time v base at delta) ∙ h) in
              let (x, stands, same) =
                walk_sound (suc (length s.versions)) time base v [] b rest c at delta walked
                  patched in
              rw (← nothing_left x c same) stands
        ]
      ]

      complete : Denotes patch s path time c → reconstruct_file patch s time path ≡ ok (some c)
      complete stands =
          let (v, at) = Denotes-version stands in
          elim (Option-cases (delta_base v path)) [
            | inl plain ↦
                reconstruct_file-plain time v at plain ∙ ap ok (Denotes-files v stands at plain)
            | inr (base, delta) ↦
                let (b, rest, walked, same) =
                  walk_complete (suc (length s.versions)) time base v [] c order
                    (omega (arith, later_than-le s.versions time)) stands at delta in
                reconstruct_file-delta time v base at delta
                ∙ rw walked (finish-ok b c rest (same ∙ apply_patches-nil patch c))
          ]
