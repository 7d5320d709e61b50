-- ===== src/Runs/Pages.antt =====
-- The list of runs and its pages: normalizePagination and listFeatureRuns of
-- app/backend/src/services/runLifecycle.js.
use red_man.Common.{
  ℕ, zero, suc, ◌+◌, ◌*◌, ◌-◌, ◌/◌, ◌%◌, ◌≤◌, ◌<◌, ◌≡◌, refl, ◌∙◌, ap, String, Bool, ◌&&◌, ◌||◌,
  Option, none, some, List, [], ◌∷◌, ◌++◌, min, max, arith, ltb, length, take, drop, select, tally,
  ◌===◌, if◌then◌else◌, String-Comparable, ℕ-Comparable,
}
use native.Mathlib.Nat.{mod-lt, div-add-mod}
use red_man.Runs.{Row, Table}

-- What `Number.parseInt` finds, none where it finds no number; a negative number is taken as the
-- code takes 0.
abbrev pub positive_or : ℕ → Option ℕ → ℕ
positive_or other none = other
positive_or other (some zero) = other
positive_or other (some (suc n)) = suc n

pub record Pagination : Type 0 where
  pub page : ℕ
  pub limit : ℕ
  pub offset : ℕ

unfoldable pub normalize_pagination : ℕ → ℕ → Option ℕ → Option ℕ → Pagination
normalize_pagination default_limit max_limit parsed_page parsed_limit =
    let page = positive_or 1 parsed_page in
    let limit = min max_limit (positive_or default_limit parsed_limit) in
    record { page = page; limit = limit; offset = (page - 1) * limit }

-- `ORDER BY started_at DESC, id DESC`
abbrev pub is_newer : Row → Row → Bool
is_newer r q = ltb q.started_at r.started_at || (r.started_at === q.started_at && ltb q.id r.id)

unfoldable pub insert_by_age : Row → List Row → List Row
insert_by_age r [] = r ∷ []
insert_by_age r (q ∷ rows) = if is_newer r q then r ∷ q ∷ rows else q ∷ insert_by_age r rows

unfoldable pub newest_runs_first : List Row → List Row
unfolding insert_by_age
newest_runs_first [] = []
newest_runs_first (r ∷ rows) = insert_by_age r (newest_runs_first rows)

-- `feature = ?`, and `config_id = ?` if there is a filter.
abbrev pub is_listed : String → Option ℕ → Row → Bool
is_listed feature none r = r.feature === feature
is_listed feature (some config) r = r.feature === feature && r.config_id === config

pub record Listing : Type 0 where
  pub runs : List Row
  pub page : ℕ
  pub limit : ℕ
  pub total : ℕ
  pub total_pages : ℕ

unfoldable pub list_feature_runs : Table → String → Option ℕ → Pagination → Listing
unfolding newest_runs_first
list_feature_runs t feature config p =
    let total = tally (is_listed feature config) t.rows in
    record {
      runs =
          take p.limit
            (drop p.offset (newest_runs_first (select (is_listed feature config) t.rows)));
      page = p.page;
      limit = p.limit;
      total = total;
      total_pages = max 1 ((total + (p.limit - 1)) / p.limit);
    }

module _ {A : Type 0} where
  take_nil : (n : ℕ) → ◌≡◌ {A = List A} [] (take n [])
  take_nil zero = refl
  take_nil (suc n) = refl

  take-append-take : (n k : ℕ) (xs : List A) → take n xs ++ take k (drop n xs) ≡ take (n + k) xs
  take-append-take zero k xs = let e : k ≡ 0 + k = omega arith in ap (λ m. take m xs) e
  take-append-take (suc n) zero [] = take_nil (suc n + 0)
  take-append-take (suc n) (suc k) [] = take_nil (suc n + suc k)
  take-append-take (suc n) k (x ∷ xs) =
      let e : suc (n + k) ≡ suc n + k = omega arith in
      ap (λ ys. x ∷ ys) (take-append-take n k xs) ∙ ap (λ m. take m (x ∷ xs)) e

  take_all : (n : ℕ) (xs : List A) → length xs ≤ n → take n xs ≡ xs
  take_all zero [] h = refl
  take_all zero (x ∷ xs) h = absurd (omega (arith, h))
  take_all (suc n) [] h = refl
  take_all (suc n) (x ∷ xs) h = ap (λ ys. x ∷ ys) (take_all n xs (omega (arith, h)))

length-select : {A : Type 0} (p : A → Bool) (xs : List A) → length (select p xs) ≡ tally p xs
length-select p [] = refl
length-select p (x ∷ xs) = ground (arith, length-select p xs)

length-insert_by_age :
    (r : Row) (rows : List Row) → length (insert_by_age r rows) ≡ suc (length rows)
unfolding insert_by_age
length-insert_by_age r [] = refl
length-insert_by_age r (q ∷ rows) = ground (arith, length-insert_by_age r rows)

length-newest_runs_first : (rows : List Row) → length (newest_runs_first rows) ≡ length rows
unfolding newest_runs_first
length-newest_runs_first [] = refl
length-newest_runs_first (r ∷ rows) =
    length-insert_by_age r (newest_runs_first rows) ∙ ap suc (length-newest_runs_first rows)

-- The quotient that is rounded up covers the whole.
ceil_covers : (total k : ℕ) → total ≤ max 1 ((total + k) / suc k) * suc k
ceil_covers total k =
    by_quotient ((total + k) / suc k) ((total + k) % suc k) (div-add-mod (total + k) (suc k))
      (mod-lt (total + k) (omega arith))
  where
    by_quotient : (q r : ℕ) → suc k * q + r ≡ total + k → r < suc k → total ≤ max 1 q * suc k
    by_quotient zero r e h = omega (arith, e, h)
    by_quotient (suc q) r e h =
        let m : max 1 (suc q) ≡ suc q = omega arith in rw m (omega (arith, e, h))

ceil_covers_limit :
    (total limit : ℕ) → 0 < limit → total ≤ max 1 ((total + (limit - 1)) / limit) * limit
ceil_covers_limit total zero h = absurd (omega (arith, h))
ceil_covers_limit total (suc k) h =
    let e : suc k - 1 ≡ k = omega arith in rw e (ceil_covers total k)

positive_or_positive : (other : ℕ) (parsed : Option ℕ) → 0 < other → 0 < positive_or other parsed
positive_or_positive other none h = h
positive_or_positive other (some zero) h = h
positive_or_positive other (some (suc n)) h = omega arith

module _ (t : Table) (feature : String) (config : Option ℕ) (default_limit max_limit : ℕ)
    (parsed_limit : Option ℕ) where
  -- The runs on a page, as a request asks for it.
  abbrev pub page_runs : ℕ → List Row
  page_runs page =
      (list_feature_runs t feature config
        (normalize_pagination default_limit max_limit (some page) parsed_limit)).runs

  abbrev pub page_count : ℕ
  page_count =
      (list_feature_runs t feature config
        (normalize_pagination default_limit max_limit none parsed_limit)).total_pages

  -- The first pages, one behind the other.
  abbrev pub first_pages : ℕ → List Row
  first_pages zero = []
  first_pages (suc n) = first_pages n ++ page_runs (suc n)

  abbrev page_limit : ℕ
  page_limit = min max_limit (positive_or default_limit parsed_limit)

  abbrev listed : List Row
  listed = newest_runs_first (select (is_listed feature config) t.rows)

  first_pages-take : (n : ℕ) → first_pages n ≡ take (n * page_limit) listed
  unfolding list_feature_runs normalize_pagination
  first_pages-take zero = let e : 0 ≡ 0 * page_limit = omega arith in ap (λ k. take k listed) e
  first_pages-take (suc n) =
      let before : suc n - 1 ≡ n = omega arith in
      let after : n * page_limit + page_limit ≡ suc n * page_limit = omega arith in
      ap (λ k. first_pages n ++ take page_limit (drop (k * page_limit) listed)) before
      ∙ ap (λ rows. rows ++ take page_limit (drop (n * page_limit) listed)) (first_pages-take n)
      ∙ take-append-take (n * page_limit) page_limit listed
      ∙ ap (λ k. take k listed) after

  length-listed : length listed ≡ tally (is_listed feature config) t.rows
  length-listed =
      length-newest_runs_first (select (is_listed feature config) t.rows)
      ∙ length-select (is_listed feature config) t.rows

  -- If both limits are positive, then the pages from 1 to the number of pages that is returned,
  -- one behind the other, are the runs of the feature, and of the configuration if one is asked
  -- for, in the order of the query.
  pub pages_complete :
      0 < default_limit
      → 0 < max_limit
      → first_pages page_count ≡ newest_runs_first (select (is_listed feature config) t.rows)
  unfolding list_feature_runs normalize_pagination
  pages_complete d m =
      first_pages-take page_count
      ∙ take_all (page_count * page_limit) listed (
          rw length-listed (
            ceil_covers_limit (tally (is_listed feature config) t.rows) page_limit
              (omega (arith, m, positive_or_positive default_limit parsed_limit d))))
