-- ===== src/Versions/Prune/Kept.antt =====
-- The deleting loop of `pruneVersions` in versionBrowser.js, and what it leaves.
use red_man.Common.{
  ◌≡◌, ◌≢◌, sym, ap, ◌∙◌, inl, inr, String, true, false, Option, none, some, List, [], ◌∷◌, arith,
  String-Comparable, ℕ-Comparable, if◌then◌else◌, ℕ_discrete, Bool-cases,
}
use red_man.Common.Dict
use red_man.Versions.Store.{Time, Base, snapshot, Version, Store, delta_base, version_at}
use red_man.Versions.Reconstruct.{Result, ok, ◌>>=◌}
use red_man.Versions.Reconstruct.Denotes.{Denotes, stored, on_current, on_snapshot, RestsLater}
use red_man.Versions.Prune.{delete_version, promote_dependent, delete_loop}
use red_man.Versions.Prune.Deletion.{>>=-ok_inv, NotOn, promote_dependent-NotOn}

module _ {A : Type 0} (versions : List (Time × A)) where
  removed_gone :
      (u time : Time)
      → Dict.get versions time ≡ none
      → Dict.get (Dict.remove versions u) time ≡ none
  removed_gone u time h = ground (arith, Dict.get-remove versions u time)

  removed_self : (u : Time) → Dict.get (Dict.remove versions u) u ≡ none
  removed_self u = ground (arith, Dict.get-remove versions u u)

module _ {C D : Type 0} (patch : C → D → Option C) where
  pub delete_version-Denotes :
      (s : Store C D) (deleting : Time)
      → ((time : Time) → NotOn patch deleting s time)
      → {path : String} {time : Time} {c : C} → Denotes patch s path time c
      → time ≢ deleting
      → Denotes patch (delete_version s deleting) path time c
  unfolding delete_version
  delete_version-Denotes s x free (stored t v c at plain file) d =
      stored t v c (Dict.get-remove_ne s.versions x t (λ e. d (sym e)) ∙ at) plain file
  delete_version-Denotes s x free (on_current t v d' b c at rests found file patched) d =
      on_current t v d' b c (Dict.get-remove_ne s.versions x t (λ e. d (sym e)) ∙ at) rests found
        file patched
  delete_version-Denotes s x free {path} (on_snapshot t u v d' b c at rests found below patched) d =
      on_snapshot t u v d' b c (Dict.get-remove_ne s.versions x t (λ e. d (sym e)) ∙ at) rests found
        (delete_version-Denotes s x free below
          (λ e. free t v path at (rests ∙ ap (λ (y : Time). some (snapshot y)) e)))
        patched

  -- The list of all snapshots holds each one that has a delta.
  abbrev pub Covers : List Time → Store C D → Type 0
  Covers times s =
      (path : String) (time : Time) (v : Version C D) (base : Base)
      → version_at s time ≡ some v
      → delta_base v path ≡ some base
      → Dict.has times time ≡ true

  -- What pruning may do to a store.
  pub record Pruned (keep : List Time) (s t : Store C D) : Type 0 where
    pub keeps :
        (path : String) (time : Time) (c : C)
        → Dict.has keep time ≡ true
        → Denotes patch s path time c
        → Denotes patch t path time c
    pub bases :
        (path : String) (time : Time) (v : Version C D) (base : Base)
        → version_at t time ≡ some v
        → delta_base v path ≡ some base
        → (w : Version C D) × (version_at s time ≡ some w) × (delta_base w path ≡ some base)
    pub gone : (time : Time) → version_at s time ≡ none → version_at t time ≡ none

  Pruned-refl : (keep : List Time) (s : Store C D) → Pruned keep s s
  Pruned-refl keep s = record {
    keeps = λ path time c kept h. h;
    bases = λ path time v base at rests. (v, at, rests);
    gone = λ time h. h;
  }

  Pruned-trans :
      {keep : List Time} {s t u : Store C D} → Pruned keep s t → Pruned keep t u → Pruned keep s u
  Pruned-trans p q = record {
    keeps = λ path time c kept h. q.keeps path time c kept (p.keeps path time c kept h);
    bases = λ path time v base at rests.
        let (w, at', rests') = q.bases path time v base at rests in
        p.bases path time w base at' rests';
    gone = λ time h. q.gone time (p.gone time h);
  }

  pub Pruned-RestsLater :
      {keep : List Time} {s t : Store C D} → Pruned keep s t → RestsLater s → RestsLater t
  Pruned-RestsLater p order time base v path at rests =
      let (w, at', rests') = p.bases path time v (snapshot base) at rests in
      order time base w path at' rests'

  pub Pruned-Covers :
      {keep : List Time} (times : List Time) {s t : Store C D}
      → Pruned keep s t
      → Covers times s
      → Covers times t
  Pruned-Covers times p cover path time v base at rests =
      let (w, at', rests') = p.bases path time v base at rests in cover path time w base at' rests'

  module _ (keep all_times : List Time) where
    -- One snapshot that is not kept: its dependents are promoted, and it is deleted.
    delete_one :
        (s safe : Store C D) (u : Time)
        → RestsLater s
        → Covers all_times s
        → Dict.has keep u ≡ false
        → promote_dependent patch u s all_times ≡ ok safe
        → Pruned keep s (delete_version safe u) × (version_at (delete_version safe u) u ≡ none)
    unfolding delete_version
    delete_one s safe u order cover drop h =
        let (p, free) = promote_dependent-NotOn patch u s safe all_times order h in
        let nowhere : (time : Time) → NotOn patch u safe time = λ time v path at rests.
          let (w, at', rests') = p.bases path time v (snapshot u) at rests in
          free time (cover path time w (snapshot u) at' rests') v path at rests in
        (
          record {
            keeps = λ path time c kept stands.
                delete_version-Denotes safe u nowhere (p.keeps path time c stands)
                  (λ e. cc (rw e at kept));
            bases = λ path time v base at rests.
                p.bases path time v base (Dict.get-remove_inv safe.versions u time at).1 rests;
            gone = λ time h. removed_gone safe.versions u time (p.gone time h);
          },
          removed_self safe.versions u,
        )

    -- One round of the loop.
    abbrev pub round : Store C D → Time → Result (Store C D)
    round s u =
        if Dict.has keep u
        then ok s
        else (do safe ← promote_dependent patch u s all_times; ok (delete_version safe u))

    pub round-Pruned :
        (s m : Store C D) (u : Time)
        → RestsLater s
        → Covers all_times s
        → round s u ≡ ok m
        → Pruned keep s m × (Dict.has keep u ≡ false → version_at m u ≡ none)
    round-Pruned s m u order cover h = elim (Bool-cases (Dict.has keep u)) [
      | inl kept ↦ let e : s ≡ m = cc (rw kept at h) in (rw (← e) (Pruned-refl keep s), λ drop. cc)
      | inr drop ↦
          let (safe, done, k) =
            >>=-ok_inv (promote_dependent patch u s all_times) (λ safe. ok (delete_version safe u))
              m (rw drop at h) in
          let e : delete_version safe u ≡ m = cc in
          let (p, away) = delete_one s safe u order cover drop done in
          (rw (← e) p, λ _. rw (← e) away)
    ]

    delete_loop-Pruned :
        (s t : Store C D) (times : List Time)
        → RestsLater s
        → Covers all_times s
        → delete_loop patch keep all_times s times ≡ ok t
        → Pruned keep s t
          × ((u : Time) → Dict.has times u ≡ true → Dict.has keep u ≡ false → version_at t u ≡ none)
    unfolding delete_loop
    delete_loop-Pruned s t [] order cover h =
        let e : s ≡ t = cc in (rw (← e) (Pruned-refl keep s), λ u g drop. cc)
    delete_loop-Pruned s t (u ∷ times) order cover h =
        let (m, first, rest) =
          >>=-ok_inv (round s u) (λ s'. delete_loop patch keep all_times s' times) t h in
        let (p, away) = round-Pruned s m u order cover first in
        let (q, others) =
          delete_loop-Pruned m t times (Pruned-RestsLater p order) (Pruned-Covers all_times p cover)
            rest in
        (
          Pruned-trans p q,
          λ x g drop. elim (ℕ_discrete u x) [
            | yes e ↦ q.gone x (rw e at (away (rw (← e) at drop)))
            | no d ↦ others x (ground arith) drop
          ],
        )

    -- If every delta rests on a later snapshot and the loop goes over all snapshots with deltas,
    -- then a file of a kept snapshot stands for the same content after pruning that ends without an error.
    pub delete_loop-Denotes :
        (s t : Store C D)
        → RestsLater s
        → Covers all_times s
        → delete_loop patch keep all_times s all_times ≡ ok t
        → (path : String) (time : Time) (c : C) → Dict.has keep time ≡ true
        → Denotes patch s path time c
        → Denotes patch t path time c
    delete_loop-Denotes s t order cover h = (delete_loop-Pruned s t all_times order cover h).0.keeps

    -- If every delta rests on a later snapshot and the loop goes over all snapshots with deltas, then
    -- pruning that ends without an error leaves nothing of a snapshot that it goes over and does not
    -- keep.
    pub delete_loop-gone :
        (s t : Store C D)
        → RestsLater s
        → Covers all_times s
        → delete_loop patch keep all_times s all_times ≡ ok t
        → (time : Time) → Dict.has all_times time ≡ true
        → Dict.has keep time ≡ false
        → version_at t time ≡ none
    delete_loop-gone s t order cover h = (delete_loop-Pruned s t all_times order cover h).1
