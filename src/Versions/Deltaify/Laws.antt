-- ===== src/Versions/Deltaify/Laws.antt =====
-- What files stand for when `deltaifySnapshot` of deltaVersion.js has replaced a snapshot.
use red_man.Common.{
  ℕ, ◌≡◌, refl, ◌≢◌, ◌∙◌, ◌⊎◌, inl, inr, String, Option, none, some, List, [], ◌∷◌,
  String-Comparable, ℕ-Comparable, leb, if◌then◌else◌, ℕ_discrete, Bool-cases, Option-cases,
}
use red_man.Common.Dict
use red_man.Versions.Store.{
  Time, current, keyframe_chain, keyframe_age, Entry, full, Version, Store, base_of, delta_base,
  version_at,
}
use red_man.Versions.Reconstruct.Denotes.{Denotes, stored, on_current, on_snapshot}
use red_man.Versions.Rebase.{Config, newest_first, times_of, put_version}
use red_man.Versions.Deltaify.{
  or_default, Decision, stays, unlinked, converted, chain_length, oldest_keyframe, reversed,
  place_delta, saves_enough, compute_delta, is_aged, decide, write_deltas,
}

module _ {C D : Type 0} (patch : C → D → Option C) (s : Store C D) (time : Time)
    (v v' : Version C D) where
  -- Each full file of `v` is full in `v'`, or a delta on the current file that gives it back.
  abbrev pub Stands : Type 0
  Stands =
      (path : String) (c : C)
      → Dict.get v.files path ≡ some c
      → ((delta_base v' path ≡ none) × (Dict.get v'.files path ≡ some c))
        ⊎ ((d : D) × (b : C) × (delta_base v' path ≡ some current)
            × (Dict.get v'.deltas path ≡ some d)
            × (Dict.get s.current_files path ≡ some b)
            × (patch b d ≡ some c))

  no_delta :
      (path : String) (t : Time) (w : Version C D)
      → version_at s time ≡ some v
      → v.manifest ≡ none
      → version_at s t ≡ some w
      → time ≡ t
      → delta_base w path ≡ none
  no_delta path t w at fresh there e = let this : v ≡ w = cc in rw this at (fresh_plain fresh)
    where
      fresh_plain : v.manifest ≡ none → delta_base v path ≡ none
      fresh_plain h = rw h

  pub put_version-Denotes :
      version_at s time ≡ some v
      → v.manifest ≡ none
      → Stands
      → {path : String} {t : Time} {c : C} → Denotes patch s path t c
      → Denotes patch (put_version s time v') path t c
  put_version-Denotes at fresh ok {path} (stored t w c there plain file) =
      elim (ℕ_discrete time t) [
        | no d ↦ stored t w c (Dict.get-put_ne s.versions time t v' d ∙ there) plain file
        | yes e ↦
            let this : v ≡ w = cc in
            elim (ok path c (rw this file)) [
              | inl (plain', file') ↦
                  stored t v' c (Dict.get-put_self s.versions time t v' e) plain' file'
              | inr (d, b, rests, found, base, patched) ↦
                  on_current t v' d b c (Dict.get-put_self s.versions time t v' e) rests found base
                    patched
            ]
      ]
  put_version-Denotes at fresh ok {path} (on_current t w d b c there rests found file patched) =
      elim (ℕ_discrete time t) [
        | no n ↦
            on_current t w d b c (Dict.get-put_ne s.versions time t v' n ∙ there) rests found file
              patched
        | yes e ↦ cc (no_delta path t w at fresh there e)
      ]
  put_version-Denotes at fresh ok {path} (on_snapshot t u w d b c there rests found below patched) =
      elim (ℕ_discrete time t) [
        | no n ↦
            on_snapshot t u w d b c (Dict.get-put_ne s.versions time t v' n ∙ there) rests found
              (put_version-Denotes at fresh ok below) patched
        | yes e ↦ cc (no_delta path t w at fresh there e)
      ]

module _ {C D : Type 0} (size : C → ℕ) (delta_size : D → ℕ) (rdiff : C → C → Option D)
    (patch : C → D → Option C)
    (patch-rdiff : (b n : C) (d : D) → rdiff b n ≡ some d → patch b d ≡ some n) (config : Config)
    (now : ℕ) (s : Store C D) (time : Time) where
  -- What a decision says of the file and its entry.
  abbrev pub Decided : String → C → Decision D → Type 0
  Decided path c (stays e) = base_of (some e) ≡ none
  Decided path c (unlinked e) = base_of (some e) ≡ none
  Decided path c (converted e d) =
      (b : C) × (base_of (some e) ≡ some current)
      × (Dict.get s.current_files path ≡ some b)
      × (patch b d ≡ some c)

  compute_delta-Decided :
      (threshold : ℕ) (path : String) (b c : C)
      → Dict.get s.current_files path ≡ some b
      → Decided path c (compute_delta size delta_size rdiff threshold b c)
  unfolding compute_delta
  compute_delta-Decided threshold path b c file = elim (Option-cases (rdiff b c)) [
    | inl failed ↦ rw (failed, compute_delta) refl
    | inr (d, made) ↦ elim (Bool-cases (saves_enough threshold (size c) (delta_size d))) [
      | inl yes_ ↦ rw (made, compute_delta) (rw yes_ (b, refl, file, patch-rdiff b c d made))
      | inr no_ ↦ rw (made, compute_delta) (rw no_ refl)
    ]
  ]

  pub decide-Decided :
      (path : String) (c : C)
      → Decided path c (decide size delta_size rdiff config now s time path c)
  unfolding decide
  decide-Decided path c = elim (Option-cases (Dict.get s.current_files path)) [
    | inl missing ↦ rw (missing, decide) refl
    | inr (b, file) ↦ rw (file, decide) (rules b file)
  ]
    where
      rules :
          (b : C)
          → Dict.get s.current_files path ≡ some b
          → Decided path c (
              if leb (or_default config.delta_max_chain 10) (chain_length s.versions time path)
              then stays (full (size c) (some keyframe_chain))
              else if is_aged size delta_size rdiff config now s time
                  (oldest_keyframe s (reversed [] (newest_first (times_of s.versions))) time path)
              then stays (full (size c) (some keyframe_age))
              else compute_delta size delta_size rdiff (or_default config.delta_threshold 50) b c)
      rules b file =
          elim (Bool-cases
            (leb (or_default config.delta_max_chain 10) (chain_length s.versions time path))) [
              | inl long ↦ rw long refl
              | inr short ↦
                  rw short
                    (elim (Bool-cases (
                      is_aged size delta_size rdiff config now s time (
                        oldest_keyframe s (reversed [] (newest_first (times_of s.versions))) time
                          path))) [
                            | inl aged ↦ rw aged refl
                            | inr young ↦ rw young (
                                compute_delta-Decided (or_default config.delta_threshold 50) path b
                                  c file)
                          ])
            ]

  place_delta-get_ne :
      (deltas : List (String × D)) {p path : String}
      → p ≢ path
      → (x : Decision D) → Dict.get (place_delta deltas p x) path ≡ Dict.get deltas path
  place_delta-get_ne deltas {p} {path} other (stays e) = refl
  place_delta-get_ne deltas {p} {path} other (unlinked e) = Dict.get-remove_ne deltas p path other
  place_delta-get_ne deltas {p} {path} other (converted e d) = Dict.get-put_ne deltas p path d other

  pub write_deltas-get :
      (deltas : List (String × D)) (files : List (String × C)) (path : String) {c : C} {e : Entry}
      {d : D}
      → Dict.get files path ≡ some c
      → decide size delta_size rdiff config now s time path c ≡ converted e d
      → Dict.get (write_deltas size delta_size rdiff config now s time deltas files) path ≡ some d
  unfolding write_deltas
  write_deltas-get deltas [] path file made = cc
  write_deltas-get deltas ((p, c₀) ∷ files) path {c} {e} {d} file made =
      elim (Dict.get-cons_inv files p path c₀ file) [
        | inl (same, this) ↦ rw (same, this, made) (Dict.get-put_self rest path path d refl)
        | inr (other, below) ↦
            place_delta-get_ne rest other (decide size delta_size rdiff config now s time p c₀)
            ∙ write_deltas-get deltas files path below made
      ]
    where
      rest : List (String × D)
      rest = write_deltas size delta_size rdiff config now s time deltas files
