-- ===== src/Cache/Tables.antt =====
-- `update_latest`, `update_latest_gauge` and the readers of src/kayak/db/cache.py. Moments are
-- microseconds; `per_hour value earlier elapsed` is Python's `(value - earlier) / hours`.
use kayak_python.Base.{
  ℕ, ◌+◌, ◌*◌, ◌-◌, Bool, not, ◌&&◌, ◌||◌, Option, none, some, List, [], ◌∷◌, any, keep_if,
  is_empty, ltb, leb, ◌==◌, if◌then◌else◌, map,
}
use mathlib.Core.Option
use kayak_python.Observations.Store.{DataType, same_type, Observation, hour}

-- `DELTA_LOOKBACK_WINDOW`
abbrev pub delta_lookback_window : ℕ
delta_lookback_window = 6 * hour

-- `GAUGE_CACHE_REBUILD_WINDOW`
abbrev pub gauge_cache_rebuild_window : ℕ
gauge_cache_rebuild_window = 30 * (24 * hour)

pub record LatestObservation (V : Type 0) : Type 0 where
  pub source_id : ℕ
  pub data_type : DataType
  pub observed_at : ℕ
  pub value : V
  pub prev_observed_at : Option ℕ
  pub prev_value : Option V
  pub delta_per_hour : Option V

pub record LatestGaugeObservation (V : Type 0) : Type 0 where
  pub gauge_id : ℕ
  pub data_type : DataType
  pub observed_at : ℕ
  pub value : V
  pub prev_observed_at : Option ℕ
  pub prev_value : Option V
  pub delta_per_hour : Option V
  pub source_id : ℕ

pub record GaugeSource : Type 0 where
  pub gauge_id : ℕ
  pub source_id : ℕ

-- `ORDER BY ... DESC LIMIT 1`, for the order in which `ge a b` puts `a` before `b`.
unfoldable pub first_row {ℓ} : {A : Type ℓ} → (A → A → Bool) → List A → Option A
first_row ge [] = none
first_row ge (a ∷ rest) = elim (first_row ge rest) [
  | none ↦ some a
  | some b ↦ some (if ge a b then a else b)
]

-- A SELECT of one row.
abbrev pub find {ℓ} : {A : Type ℓ} → (A → Bool) → List A → Option A
find p [] = none
find p (a ∷ rest) = if p a then some a else find p rest

-- The existing row is written over, or the new one is added.
unfoldable pub save {ℓ} : {A : Type ℓ} → (A → Bool) → A → List A → List A
save p r [] = r ∷ []
save p r (a ∷ rest) = if p a then r ∷ rest else a ∷ save p r rest

-- A DELETE.
abbrev pub delete {ℓ} : {A : Type ℓ} → (A → Bool) → List A → List A
delete p = keep_if (λ a. not (p a))

-- `SELECT source_id FROM gauge_source WHERE gauge_id = ...`
abbrev pub source_ids : ℕ → List GaugeSource → List ℕ
source_ids gauge_id links = map (λ g. g.source_id) (keep_if (λ g. g.gauge_id == gauge_id) links)

module _ {V : Type 0} where
  abbrev pub newer : Observation ℕ V → Observation ℕ V → Bool
  newer a b = leb b.observed_at a.observed_at

  -- `observed_at DESC, source_id DESC`
  abbrev pub newer_or_higher : Observation ℕ V → Observation ℕ V → Bool
  newer_or_higher a b =
      ltb b.observed_at a.observed_at
      || (a.observed_at == b.observed_at && leb b.source_id a.source_id)

  abbrev pub is_of : ℕ → DataType → Observation ℕ V → Bool
  is_of source_id t o = o.source_id == source_id && same_type o.data_type t

  -- `observed_at <= cutoff`
  abbrev pub is_before : Observation ℕ V → Observation ℕ V → Bool
  is_before latest o = leb (o.observed_at + delta_lookback_window) latest.observed_at

  abbrev pub has_key : ℕ → DataType → LatestObservation V → Bool
  has_key source_id t r = r.source_id == source_id && same_type r.data_type t

  abbrev pub has_gauge : ℕ → DataType → LatestGaugeObservation V → Bool
  has_gauge gauge_id t r = r.gauge_id == gauge_id && same_type r.data_type t

  -- `get_latest`
  unfoldable pub get_latest :
      ℕ → DataType → List (LatestObservation V) → Option (LatestObservation V)
  get_latest source_id t table = find (has_key source_id t) table

  -- `get_latest_gauge`
  unfoldable pub get_latest_gauge :
      ℕ → DataType → List (LatestGaugeObservation V) → Option (LatestGaugeObservation V)
  get_latest_gauge gauge_id t table = find (has_gauge gauge_id t) table

  -- The previous row of a source.
  abbrev pub previous :
      ℕ → DataType → List (Observation ℕ V) → Observation ℕ V → Option (Observation ℕ V)
  previous source_id t obs latest =
      first_row newer (keep_if (λ o. is_of source_id t o && is_before latest o) obs)

  -- The rows that count for a gauge: of its sources, of the type, and not before `since`.
  abbrev pub counts : List ℕ → DataType → ℕ → Observation ℕ V → Bool
  counts ids t since o =
      any (λ i. o.source_id == i) ids && same_type o.data_type t && leb since o.observed_at

  abbrev pub previous_of_gauge :
      List ℕ → DataType → ℕ → List (Observation ℕ V) → Observation ℕ V → Option (Observation ℕ V)
  previous_of_gauge ids t since obs latest =
      first_row newer_or_higher (keep_if (λ o. counts ids t since o && is_before latest o) obs)

  module _ (per_hour : V → V → ℕ → V) where
    -- `delta_per_hour`: none without a previous row, or when no time lies between.
    abbrev pub delta : Observation ℕ V → Option (Observation ℕ V) → Option V
    delta latest none = none
    delta latest (some p) =
        if ltb p.observed_at latest.observed_at
        then some (per_hour latest.value p.value (latest.observed_at - p.observed_at))
        else none

    abbrev pub latest_row :
        ℕ → DataType → Observation ℕ V → Option (Observation ℕ V) → LatestObservation V
    latest_row source_id t latest prev = record {
      source_id = source_id;
      data_type = t;
      observed_at = latest.observed_at;
      value = latest.value;
      prev_observed_at = Option.map (λ p. p.observed_at) prev;
      prev_value = Option.map (λ p. p.value) prev;
      delta_per_hour = delta latest prev;
    }

    abbrev pub gauge_row :
        ℕ → DataType → Observation ℕ V → Option (Observation ℕ V) → LatestGaugeObservation V
    gauge_row gauge_id t latest prev = record {
      gauge_id = gauge_id;
      data_type = t;
      observed_at = latest.observed_at;
      value = latest.value;
      prev_observed_at = Option.map (λ p. p.observed_at) prev;
      prev_value = Option.map (λ p. p.value) prev;
      delta_per_hour = delta latest prev;
      source_id = latest.source_id;
    }

    abbrev pub save_latest :
        ℕ
        → DataType
        → List (Observation ℕ V)
        → Option (Observation ℕ V)
        → List (LatestObservation V)
        → List (LatestObservation V)
    save_latest source_id t obs none table = delete (has_key source_id t) table
    save_latest source_id t obs (some latest) table =
        save (has_key source_id t) (latest_row source_id t latest (previous source_id t obs latest))
          table

    -- `update_latest`
    unfoldable pub update_latest :
        ℕ
        → DataType
        → List (Observation ℕ V)
        → List (LatestObservation V)
        → List (LatestObservation V)
    unfolding first_row save
    update_latest source_id t obs table =
        save_latest source_id t obs (first_row newer (keep_if (is_of source_id t) obs)) table

    abbrev pub save_gauge :
        ℕ
        → List ℕ
        → DataType
        → ℕ
        → List (Observation ℕ V)
        → Option (Observation ℕ V)
        → List (LatestGaugeObservation V)
        → List (LatestGaugeObservation V)
    save_gauge gauge_id ids t since obs none table = delete (has_gauge gauge_id t) table
    save_gauge gauge_id ids t since obs (some latest) table =
        save (has_gauge gauge_id t)
          (gauge_row gauge_id t latest (previous_of_gauge ids t since obs latest)) table

    -- `update_latest_gauge`, with `since` given.
    unfoldable pub update_latest_gauge :
        List GaugeSource
        → ℕ
        → ℕ
        → DataType
        → List (Observation ℕ V)
        → List (LatestGaugeObservation V)
        → List (LatestGaugeObservation V)
    unfolding first_row save
    update_latest_gauge links since gauge_id t obs table =
        let ids = source_ids gauge_id links in
        if is_empty ids
        then delete (has_gauge gauge_id t) table
        else save_gauge gauge_id ids t since obs
            (first_row newer_or_higher (keep_if (counts ids t since) obs)) table
