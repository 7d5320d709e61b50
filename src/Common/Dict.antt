-- ===== src/Common/Dict.antt =====
-- JavaScript's `Map` and `Set`, as lists of entries in order of insertion. `set` on a key that is
-- there keeps its place.
use mathlib.Core.Path.{◌≡◌, refl, ◌∙◌}
use mathlib.Core.Logic.{◌≢◌, ◌⊎◌}
use mathlib.Core.Bool.{Bool, true, false, ◌||◌}
use mathlib.Core.Option.{Option, none, some}
use mathlib.Core.List.{List, [], ◌∷◌}
use native.Mathlib.Omega.{arith}
use red_man.Common.Tests.{Comparable, ◌===◌, if◌then◌else◌}

module _ {ℓ κ} {K : Type ℓ} {V : Type κ} ⦃e : Comparable K⦄ where
  -- `map.get(key)`; `none` is `undefined`
  abbrev pub get : List (K × V) → K → Option V
  get [] k = none
  get ((j, v) ∷ m) k = if j === k then some v else get m k

  -- `map.set(key, value)`
  abbrev pub put : List (K × V) → K → V → List (K × V)
  put [] k v = (k, v) ∷ []
  put ((j, w) ∷ m) k v = if j === k then (j, v) ∷ m else (j, w) ∷ put m k v

  -- `map.delete(key)`
  abbrev pub remove : List (K × V) → K → List (K × V)
  remove [] k = []
  remove ((j, v) ∷ m) k = if j === k then remove m k else (j, v) ∷ remove m k

  pub get-put :
      (m : List (K × V)) (k i : K) (v : V)
      → get (put m k v) i ≡ (if k === i then some v else get m i)
  get-put [] k i v = refl
  get-put ((j, w) ∷ m) k i v =
      ground (arith, e.eqv_iff j k, e.eqv_iff k i, e.eqv_iff j i, get-put m k i v)

  pub get-remove :
      (m : List (K × V)) (k i : K) → get (remove m k) i ≡ (if k === i then none else get m i)
  get-remove [] k i = ground arith
  get-remove ((j, w) ∷ m) k i =
      ground (arith, e.eqv_iff j k, e.eqv_iff k i, e.eqv_iff j i, get-remove m k i)

module _ {ℓ} {K : Type ℓ} ⦃e : Comparable K⦄ where
  -- `set.has(key)`
  abbrev pub has : List K → K → Bool
  has [] k = false
  has (j ∷ s) k = j === k || has s k

  -- `set.add(key)`
  abbrev pub add : List K → K → List K
  add [] k = k ∷ []
  add (j ∷ s) k = if j === k then j ∷ s else j ∷ add s k

  -- `set.delete(key)`
  abbrev pub discard : List K → K → List K
  discard [] k = []
  discard (j ∷ s) k = if j === k then discard s k else j ∷ discard s k

  pub has-add : (s : List K) (k i : K) → has (add s k) i ≡ (k === i || has s i)
  has-add [] k i = refl
  has-add (j ∷ s) k i = ground (arith, e.eqv_iff j k, e.eqv_iff k i, e.eqv_iff j i, has-add s k i)

  pub has-discard :
      (s : List K) (k i : K) → has (discard s k) i ≡ (if k === i then false else has s i)
  has-discard [] k i = ground arith
  has-discard (j ∷ s) k i =
      ground (arith, e.eqv_iff j k, e.eqv_iff k i, e.eqv_iff j i, has-discard s k i)

-- What an answer of a changed map or set says of the one before.
module _ {ℓ κ} {K : Type ℓ} {V : Type κ} ⦃e : Comparable K⦄ (m : List (K × V)) (k i : K) where
  pub get-put_inv :
      (v : V) {w : V}
      → get (put m k v) i ≡ some w
      → ((k ≡ i) × (v ≡ w)) ⊎ ((k ≢ i) × (get m i ≡ some w))
  get-put_inv v h = ground (arith, e.eqv_iff k i, get-put m k i v)

  pub get-remove_inv : {w : V} → get (remove m k) i ≡ some w → (k ≢ i) × (get m i ≡ some w)
  get-remove_inv h = ground (arith, e.eqv_iff k i, get-remove m k i)

  pub get-cons_inv :
      (v : V) {w : V}
      → get ((k, v) ∷ m) i ≡ some w
      → ((k ≡ i) × (v ≡ w)) ⊎ ((k ≢ i) × (get m i ≡ some w))
  get-cons_inv v h = ground (arith, e.eqv_iff k i)

  pub get-put_self : (v : V) → k ≡ i → get (put m k v) i ≡ some v
  get-put_self v h = ground (arith, e.eqv_iff k i, get-put m k i v)

  pub get-put_ne : (v : V) → k ≢ i → get (put m k v) i ≡ get m i
  get-put_ne v h = ground (arith, e.eqv_iff k i, get-put m k i v)

  pub get-remove_ne : k ≢ i → get (remove m k) i ≡ get m i
  get-remove_ne h = ground (arith, e.eqv_iff k i, get-remove m k i)

module _ {ℓ} {K : Type ℓ} ⦃e : Comparable K⦄ (s : List K) (k i : K) where
  pub has-add_inv : has (add s k) i ≡ true → (k ≡ i) ⊎ (has s i ≡ true)
  has-add_inv h = ground (arith, e.eqv_iff k i, has-add s k i)

  pub has-add_self : k ≡ i → has (add s k) i ≡ true
  has-add_self h = ground (arith, e.eqv_iff k i, has-add s k i)

  pub has-add_old : has s i ≡ true → has (add s k) i ≡ true
  has-add_old h = ground (arith, e.eqv_iff k i, has-add s k i)

  pub has-discard_inv : has (discard s k) i ≡ true → (k ≢ i) × (has s i ≡ true)
  has-discard_inv h = ground (arith, e.eqv_iff k i, has-discard s k i)

  pub has-discard_ne : k ≢ i → has (discard s k) i ≡ has s i
  has-discard_ne h = ground (arith, e.eqv_iff k i, has-discard s k i)

module _ {ℓ κ} {K : Type ℓ} {V : Type κ} ⦃e : Comparable K⦄ (f : K → V → V) where
  -- a loop over `Object.entries` that changes values in place
  abbrev pub map_values : List (K × V) → List (K × V)
  map_values [] = []
  map_values ((j, v) ∷ m) = (j, f j v) ∷ map_values m

  abbrev pub applied : K → Option V → Option V
  applied k none = none
  applied k (some v) = some (f k v)

  pub get-map_values : (m : List (K × V)) (k : K) → get (map_values m) k ≡ applied k (get m k)
  get-map_values [] k = refl
  get-map_values ((j, v) ∷ m) k = ground (arith, e.eqv_iff j k, get-map_values m k)

module _ {ℓ κ μ} {K : Type ℓ} {V : Type κ} {W : Type μ} ⦃e : Comparable K⦄ (f : K → V → W) where
  -- a new object, made from the entries of another
  abbrev pub map_entries : List (K × V) → List (K × W)
  map_entries [] = []
  map_entries ((j, v) ∷ m) = (j, f j v) ∷ map_entries m

  pub get-map_entries :
      (m : List (K × V)) (k : K) (v : V) → get m k ≡ some v → get (map_entries m) k ≡ some (f k v)
  get-map_entries [] k v h = cc
  get-map_entries ((j, w) ∷ m) k v h = ground (arith, e.eqv_iff j k, get-map_entries m k v)

module _ {ℓ κ} {K : Type ℓ} {V : Type κ} ⦃e : Comparable K⦄ where
  -- `delete` on each key of a list
  abbrev pub remove_all : List (K × V) → List K → List (K × V)
  remove_all m [] = m
  remove_all m (k ∷ ks) = remove_all (remove m k) ks

  pub get-remove_all :
      (m : List (K × V)) (ks : List K) (i : K)
      → has ks i ≡ false
      → get (remove_all m ks) i ≡ get m i
  get-remove_all m [] i h = refl
  get-remove_all m (k ∷ ks) i h =
      get-remove_all (remove m k) ks i (ground arith)
      ∙ ground (arith, e.eqv_iff k i, get-remove m k i)
