-- ===== src/Cache/Bulk.antt =====
-- `update_all_latest_gauges` of src/kayak/db/cache.py: the SQL that rebuilds the gauge cache.
use kayak_python.Base.{
  ℕ, ◌+◌, ◌/◌, Bool, false, ◌&&◌, Option, none, some, List, [], ◌∷◌, map, keep_if, ltb, leb, ◌==◌,
  if◌then◌else◌,
}
use mathlib.Core.Option
use kayak_python.Observations.Store.{DataType, same_type, Observation}
use kayak_python.Cache.Tables.{LatestGaugeObservation, GaugeSource, find, newer_or_higher}

abbrev pub second : ℕ
second = 1000000

abbrev pub six_hours_of_seconds : ℕ
six_hours_of_seconds = 21600

-- `(julianday(a) - julianday(b)) * 24` of two moments, which is a floating-point number, `h = 0`, and
-- `(x - y) / h`.
pub record Julian (V : Type 0) : Type 0 where
  pub hours_between : ℕ → ℕ → V
  pub is_zero : V → Bool
  pub rate : V → V → V → V

-- A row of `observation` joined to `gauge_source`.
pub record Joined (V : Type 0) : Type 0 where
  pub gauge_id : ℕ
  pub row : Observation ℕ V

-- `ROW_NUMBER() OVER (PARTITION BY ... ORDER BY ...)` and `rn = 1`: one row for each partition.
module _ {ℓ} {A : Type ℓ} (same before : A → A → Bool) where
  unfoldable pub rank : A → List A → List A
  rank r [] = r ∷ []
  rank r (q ∷ qs) = if same r q then (if before r q then r else q) ∷ qs else q ∷ rank r qs

  unfoldable pub pick : List A → List A
  unfolding rank
  pick [] = []
  pick (r ∷ rs) = rank r (pick rs)

module _ {V : Type 0} where
  -- `PARTITION BY gauge_id, data_type`
  abbrev pub same_partition : Joined V → Joined V → Bool
  same_partition r q = q.gauge_id == r.gauge_id && same_type q.row.data_type r.row.data_type

  abbrev pub join_links : Observation ℕ V → List GaugeSource → List (Joined V) → List (Joined V)
  join_links o [] rest = rest
  join_links o (g ∷ gs) rest =
      let more = join_links o gs rest in
      if g.source_id == o.source_id then record { gauge_id = g.gauge_id; row = o } ∷ more else more

  -- `FROM observation o JOIN gauge_source gs ... WHERE o.observed_at >= :since`
  unfoldable pub joined : List GaugeSource → ℕ → List (Observation ℕ V) → List (Joined V)
  joined links since [] = []
  joined links since (o ∷ os) =
      let rest = joined links since os in
      if leb since o.observed_at then join_links o links rest else rest

  -- `observed_at DESC, source_id DESC`
  abbrev pub ranked_before : Joined V → Joined V → Bool
  ranked_before r q = newer_or_higher r.row q.row

  -- `o.observed_at <= datetime(lp.observed_at, '-6 hours')`, which compares texts: a stored moment
  -- has six digits of fraction and `datetime` gives none, so of two texts with the same second the
  -- stored one is the greater.
  abbrev pub text_before : Observation ℕ V → Observation ℕ V → Bool
  text_before latest o =
      ltb (o.observed_at / second + six_hours_of_seconds) (latest.observed_at / second)

  abbrev pub joins_latest : Option (Joined V) → Joined V → Bool
  joins_latest none r = false
  joins_latest (some lp) r = text_before lp.row r.row

  -- `prev_ranked`
  abbrev pub prev_rows : List (Joined V) → List (Joined V) → List (Joined V)
  prev_rows latest_pick rows =
      keep_if (λ r. joins_latest (find (same_partition r) latest_pick) r) rows

  abbrev pub row_of : Option (Joined V) → Option (Observation ℕ V)
  row_of none = none
  row_of (some r) = some r.row

  module _ (j : Julian V) where
    -- The `CASE` of the INSERT.
    abbrev pub bulk_delta : Observation ℕ V → Option (Observation ℕ V) → Option V
    bulk_delta latest none = none
    bulk_delta latest (some p) =
        let hours = j.hours_between latest.observed_at p.observed_at in
        if j.is_zero hours then none else some (j.rate latest.value p.value hours)

    abbrev pub bulk_row :
        ℕ → DataType → Observation ℕ V → Option (Observation ℕ V) → LatestGaugeObservation V
    bulk_row gauge_id t latest prev = record {
      gauge_id = gauge_id;
      data_type = t;
      observed_at = latest.observed_at;
      value = latest.value;
      prev_observed_at = Option.map (λ p. p.observed_at) prev;
      prev_value = Option.map (λ p. p.value) prev;
      delta_per_hour = bulk_delta latest prev;
      source_id = latest.source_id;
    }

    -- `LEFT JOIN prev_pick`
    abbrev pub insert_row : List (Joined V) → Joined V → LatestGaugeObservation V
    insert_row prev_pick lp =
        bulk_row lp.gauge_id lp.row.data_type lp.row (row_of (find (same_partition lp) prev_pick))

    -- The table after the DELETE and the INSERT.
    unfoldable pub update_all_latest_gauges :
        List GaugeSource → ℕ → List (Observation ℕ V) → List (LatestGaugeObservation V)
    unfolding joined pick
    update_all_latest_gauges links since obs =
        let rows = joined links since obs in
        let latest_pick = pick same_partition ranked_before rows in
        let prev_pick = pick same_partition ranked_before (prev_rows latest_pick rows) in
        map (insert_row prev_pick) latest_pick
