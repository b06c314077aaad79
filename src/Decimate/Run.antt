-- ===== src/Decimate/Run.antt =====
-- `decimate` of src/kayak/cli/decimate.py. Printing, PRAGMA optimize and VACUUM are left out.
use kayak_python.Base.{
  ℕ, ◌+◌, ◌-◌, ◌*◌, ◌/◌, Bool, ◌||◌, List, [], ◌∷◌, ◌++◌, any, is_empty, ltb, ◌==◌, if◌then◌else◌,
}
use kayak_python.Observations.Store.{DataType, gauge, flow, inflow, temperature, Observation}
use kayak_python.Cache.Tables.{GaugeSource, gauge_cache_rebuild_window, update_latest}
use kayak_python.Cache.Bulk.{Julian, second, update_all_latest_gauges}
use kayak_python.Calculator.Run.{Tables}
use kayak_python.Decimate.Thin.{day, is_older, hourly, six_hourly, count_surplus, thin, changes}

pub record Args : Type 0 where
  pub recent_days : ℕ
  pub archive_days : ℕ
  pub dry_run : Bool

-- `(now - timedelta(days=days)).strftime("%Y-%m-%d %H:%M:%S")`
abbrev pub cutoff : ℕ → ℕ → ℕ
cutoff now days = (now - days * day) / second

-- What does not change in a run: the order of ties, the rate of change, and the links of the gauges.
pub record Database (V : Type 0) : Type 0 where
  pub tie : ℕ → ℕ → Bool
  pub per_hour : V → V → ℕ → V
  pub julian : Julian V
  pub links : List GaugeSource

abbrev pub add_id : ℕ → List ℕ → List ℕ
add_id i ids = if any (λ j. j == i) ids then ids else i ∷ ids

abbrev pub data_types : List DataType
data_types = gauge ∷ flow ∷ inflow ∷ temperature ∷ []

-- What the loop over the sources keeps.
pub record Progress (V : Type 0) : Type 0 where
  pub db : Tables V
  pub total_hourly : ℕ
  pub total_6hourly : ℕ
  pub affected_sources : List ℕ

abbrev pub started : {V : Type 0} → Tables V → Progress V
started db = record { db = db; total_hourly = 0; total_6hourly = 0; affected_sources = [] }

module _ {V : Type 0} (c : Database V) where
  -- `SELECT DISTINCT source_id FROM observation WHERE observed_at < :medium_cutoff`
  unfoldable pub source_ids_before : ℕ → List (Observation ℕ V) → List ℕ
  source_ids_before medium_cutoff [] = []
  source_ids_before medium_cutoff (o ∷ obs) =
      let rest = source_ids_before medium_cutoff obs in
      if is_older medium_cutoff o.observed_at then add_id o.source_id rest else rest

  -- `for dtype in DataType: update_latest(session, source_id, dtype)`
  unfoldable pub refresh_types : ℕ → List DataType → Tables V → Tables V
  unfolding update_latest
  refresh_types i [] db = db
  refresh_types i (t ∷ ts) db =
      refresh_types i ts
        record db { latest = update_latest c.per_hour i t db.observations db.latest }

  -- The bulk rebuild, once after all sources.
  unfoldable pub finish : ℕ → Progress V → Tables V
  unfolding update_all_latest_gauges
  finish now p = if is_empty p.affected_sources then p.db else record p.db {
    latest_gauges =
        update_all_latest_gauges c.julian c.links (now - gauge_cache_rebuild_window)
          p.db.observations;
  }

  module _ (medium_cutoff archive_cutoff : ℕ) where
    -- One source, with its commit if a row was deleted.
    unfoldable pub decimate_source : ℕ → Progress V → Progress V
    decimate_source i p =
        let fine = hourly medium_cutoff archive_cutoff in
        let coarse = six_hourly archive_cutoff in
        let thinned = thin c.tie fine i p.db.observations in
        let n = changes c.tie fine i p.db.observations in
        let m = changes c.tie coarse i thinned in
        let db = record p.db { observations = thin c.tie coarse i thinned } in
        if ltb 0 n || ltb 0 m
        then record {
          db = refresh_types i data_types db;
          total_hourly = p.total_hourly + n;
          total_6hourly = p.total_6hourly + m;
          affected_sources = p.affected_sources ++ i ∷ [];
        }
        else record p { db = db }

    unfoldable pub decimate_sources : List ℕ → Progress V → Progress V
    unfolding decimate_source
    decimate_sources [] p = p
    decimate_sources (i ∷ is) p = decimate_sources is (decimate_source i p)

  unfoldable pub decimate_from : ℕ → ℕ → ℕ → Tables V → Tables V
  unfolding decimate_sources finish source_ids_before
  decimate_from medium_cutoff archive_cutoff now db = finish now (
      decimate_sources medium_cutoff archive_cutoff
        (source_ids_before medium_cutoff db.observations) (started db))

  -- `decimate`
  unfoldable pub decimate : Args → ℕ → Tables V → Tables V
  decimate args now db =
      let medium_cutoff = cutoff now args.recent_days in
      let archive_cutoff = cutoff now args.archive_days in
      let hourly_deletes =
        count_surplus c.tie (hourly medium_cutoff archive_cutoff) db.observations in
      let sixhour_deletes = count_surplus c.tie (six_hourly archive_cutoff) db.observations in
      if args.dry_run || hourly_deletes + sixhour_deletes == 0
      then db
      else decimate_from medium_cutoff archive_cutoff now db
