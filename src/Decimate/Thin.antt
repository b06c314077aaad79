-- ===== src/Decimate/Thin.antt =====
-- The statements of src/kayak/cli/decimate.py. A moment is in microseconds and a cutoff in seconds:
-- the text of a cutoff has no fraction and that of a moment has six digits, so of two with the same
-- second the moment is the greater text.
use kayak_python.Base.{
  ℕ, suc, ◌+◌, ◌-◌, ◌*◌, ◌/◌, ◌%◌, Bool, not, ◌&&◌, ◌||◌, List, any, keep_if, length, ltb, ◌==◌,
}
use kayak_python.Observations.Store.{same_type, Observation, hour}
use kayak_python.Cache.Bulk.{second}

abbrev pub minute : ℕ
minute = 60000000

abbrev pub day : ℕ
day = 86400000000

-- `CAST(strftime('%M', observed_at) AS INTEGER)`
abbrev pub minute_of : ℕ → ℕ
minute_of at = at / minute % 60

-- `CAST(strftime('%H', observed_at) AS INTEGER)`
abbrev pub hour_of : ℕ → ℕ
hour_of at = at / hour % 24

-- `ABS(a - b)`
abbrev pub distance : ℕ → ℕ → ℕ
distance a b = (a - b) + (b - a)

-- `strftime('%Y-%m-%d %H', observed_at)`
abbrev pub same_hour : ℕ → ℕ → Bool
same_hour a b = a / hour == b / hour

-- `strftime('%Y-%m-%d', observed_at), CAST(strftime('%H', observed_at) AS INTEGER) / 6`
abbrev pub same_six_hours : ℕ → ℕ → Bool
same_six_hours a b = a / day == b / day && hour_of a / 6 == hour_of b / 6

abbrev pub from_half_hour : ℕ → ℕ
from_half_hour at = distance (minute_of at) 30

abbrev pub from_third_hour : ℕ → ℕ
from_third_hour at = distance (hour_of at % 6 * 60 + minute_of at) 180

-- `observed_at < :cutoff`
abbrev pub is_older : ℕ → ℕ → Bool
is_older cutoff at = ltb (at / second) cutoff

-- A thinning: the moments it is about, its buckets, and what it orders by.
pub record Thinning : Type 0 where
  pub within : ℕ → Bool
  pub same_bucket : ℕ → ℕ → Bool
  pub off_middle : ℕ → ℕ

-- `_HOURLY_SQL`
abbrev pub hourly : ℕ → ℕ → Thinning
hourly medium_cutoff archive_cutoff = record {
  within = λ at. is_older medium_cutoff at && not (is_older archive_cutoff at);
  same_bucket = same_hour;
  off_middle = from_half_hour;
}

-- `_6HOURLY_SQL`
abbrev pub six_hourly : ℕ → Thinning
six_hourly archive_cutoff = record {
  within = is_older archive_cutoff;
  same_bucket = same_six_hours;
  off_middle = from_third_hour;
}

-- `tie a b` says that SQLite lists `a` before `b` where ORDER BY leaves the order open.
abbrev pub comes_before : (ℕ → ℕ → Bool) → Thinning → ℕ → ℕ → Bool
comes_before tie w a b =
    ltb (w.off_middle a) (w.off_middle b) || (w.off_middle a == w.off_middle b && tie a b)

module _ {V : Type 0} (tie : ℕ → ℕ → Bool) (w : Thinning) where
  abbrev pub same_partition : Observation ℕ V → Observation ℕ V → Bool
  same_partition q r =
      q.source_id == r.source_id
      && (same_type q.data_type r.data_type && w.same_bucket q.observed_at r.observed_at)

  -- A row that stands before another one of the same partition.
  abbrev pub beats : Observation ℕ V → Observation ℕ V → Bool
  beats q r = same_partition q r && comes_before tie w q.observed_at r.observed_at

  -- `ROW_NUMBER() OVER (PARTITION BY ... ORDER BY ABS(...))`
  unfoldable pub row_number : List (Observation ℕ V) → Observation ℕ V → ℕ
  row_number rows r = suc (length (keep_if (λ q. beats q r) rows))

  -- `SELECT ... FROM ranked WHERE rn > 1`
  unfoldable pub surplus : List (Observation ℕ V) → List (Observation ℕ V)
  unfolding row_number
  surplus obs =
      let ranked = keep_if (λ o. w.within o.observed_at) obs in
      keep_if (λ r. ltb 1 (row_number ranked r)) ranked

  -- `SELECT COUNT(*) FROM ranked WHERE rn > 1`
  unfoldable pub count_surplus : List (Observation ℕ V) → ℕ
  count_surplus obs = length (surplus obs)

-- `(source_id, observed_at, data_type) = ...`
abbrev pub same_row : {V : Type 0} → Observation ℕ V → Observation ℕ V → Bool
same_row a b =
    a.source_id == b.source_id
    && (a.observed_at == b.observed_at && same_type a.data_type b.data_type)

module _ {V : Type 0} (tie : ℕ → ℕ → Bool) (w : Thinning) (source_id : ℕ) where
  -- The rows that the statement for one source deletes. The rows of other sources have other keys.
  unfoldable pub surplus_of : List (Observation ℕ V) → List (Observation ℕ V)
  unfolding surplus
  surplus_of obs = surplus tie w (keep_if (λ o. o.source_id == source_id) obs)

  -- `DELETE FROM observation WHERE (...) IN (...)`, and `SELECT changes()`.
  unfoldable pub thin : List (Observation ℕ V) → List (Observation ℕ V)
  unfolding surplus_of
  thin obs = keep_if (λ o. not (any (same_row o) (surplus_of obs))) obs

  unfoldable pub changes : List (Observation ℕ V) → ℕ
  unfolding surplus_of
  changes obs = length (keep_if (λ o. any (same_row o) (surplus_of obs)) obs)
