-- ===== src/Health.antt =====
-- app/backend/src/services/destinationHealth.js: what each destination last said about itself, asked
-- for behind the reader. A refresh is cut at its await: it begins in a call of the reader and ends
-- later, with the answers or an error. The answer of a peer is a type `A`; the destinations are the
-- rows of a query and the answers those of peers, so both come with the step that uses them. A call
-- in flight carries the number of the refresh, where the code holds its promise.
pub mod Current
mod Examples
use red_man.Common.{
  ℕ, suc, ◌+◌, ◌*◌, ◌-◌, Bool, true, false, ◌&&◌, Option, none, some, List, [], ◌∷◌, ltb, ◌===◌,
  if◌then◌else◌, ℕ-Comparable,
}
use red_man.Common.Dict

abbrev pub refresh_interval_ms : ℕ
refresh_interval_ms = 30 * 60 * 1000

abbrev pub expire_after_ms : ℕ
expire_after_ms = 6 * 60 * 60 * 1000

-- An answer with its time. `asked_in` is the generation in which the refresh began; the code does
-- not keep it.
pub record Known (A : Type 0) : Type 0 where
  pub answer : A
  pub at : ℕ
  pub asked_in : ℕ

-- `refreshing` are the refreshes that have begun and not ended, each with the generation that it
-- has read as `startedAt`.
pub record Health (A : Type 0) : Type 0 where
  pub last_known : List (ℕ × Known A)
  pub in_flight : Option ℕ
  pub last_refresh_at : ℕ
  pub generation : ℕ
  pub refreshing : List (ℕ × ℕ)
  pub next_refresh : ℕ

-- What a reader is told of a destination, with the age.
pub data Report (A : Type 0) : Type 0 where
  answered : A → ℕ → Report A
  expired : ℕ → Report A
  not_asked : Report A

module _ {A : Type 0} where
  abbrev pub initial : Health A
  initial = record {
    last_known = [];
    in_flight = none;
    last_refresh_at = 0;
    generation = 0;
    refreshing = [];
    next_refresh = 0;
  }

  -- The part of the reader that begins a refresh.
  unfoldable pub begin_refresh : ℕ → ℕ → Health A → Health A
  begin_refresh interval now s = elim s.in_flight [
    | some id ↦ s
    | none ↦
        if ltb interval (now - s.last_refresh_at)
        then record s {
          in_flight = some s.next_refresh;
          refreshing = (s.next_refresh, s.generation) ∷ s.refreshing;
          next_refresh = suc s.next_refresh;
        }
        else s
  ]

  unfoldable pub report_on : Health A → ℕ → ℕ → Report A
  report_on s now id = elim (Dict.get s.last_known id) [
    | none ↦ not_asked
    | some known ↦
        if ltb expire_after_ms (now - known.at)
        then expired (now - known.at)
        else answered known.answer (now - known.at)
  ]

  abbrev reports : Health A → ℕ → List ℕ → List (Report A)
  reports s now [] = []
  reports s now (id ∷ destinations) = report_on s now id ∷ reports s now destinations

  unfoldable pub get_destination_health : ℕ → ℕ → List ℕ → Health A → Health A × List (Report A)
  unfolding begin_refresh report_on
  get_destination_health interval now destinations s =
      let begun = begin_refresh interval now s in (begun, reports begun now destinations)

  -- The loop over the answers.
  unfoldable pub remember : ℕ → ℕ → List (ℕ × A) → List (ℕ × Known A) → List (ℕ × Known A)
  remember gen now [] known = known
  remember gen now ((id, a) ∷ answers) known =
      remember gen now answers (Dict.put known id (record { answer = a; at = now; asked_in = gen }))

  -- `refresh` behind its await, for a refresh that read that generation.
  unfoldable pub store_answers : ℕ → ℕ → List (ℕ × A) → Health A → Health A
  unfolding remember
  store_answers started_at now answers s =
      if started_at === s.generation
      then record s {
        last_known = remember started_at now answers s.last_known;
        last_refresh_at = now;
      }
      else s

  -- The `finally` of a refresh, whichever promise is in flight by then.
  unfoldable pub end_refresh : ℕ → Health A → Health A
  end_refresh id s = record s { in_flight = none; refreshing = Dict.remove s.refreshing id }

  -- The end of a refresh that read that generation, with the answers or with an error.
  unfoldable pub land : ℕ → ℕ → ℕ → Option (List (ℕ × A)) → Health A → Health A
  unfolding store_answers end_refresh
  land id started_at now none s = end_refresh id s
  land id started_at now (some answers) s = end_refresh id (store_answers started_at now answers s)

  unfoldable pub finish_refresh : ℕ → ℕ → Option (List (ℕ × A)) → Health A → Health A
  unfolding land
  finish_refresh id now result s = elim (Dict.get s.refreshing id) [
    | none ↦ s
    | some started_at ↦ land id started_at now result s
  ]

  unfoldable pub clear_destination_health_cache : Health A → Health A
  clear_destination_health_cache s = record s {
    generation = s.generation + 1;
    last_known = [];
    last_refresh_at = 0;
    in_flight = none;
  }
