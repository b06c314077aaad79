-- ===== src/Calculator/Run.antt =====
-- `calculator`, `_process_calc_source` and `_store_calc_result` of src/kayak/cli/calculator.py on the
-- tables that they read and write. `parse` is `ast.parse`, on the text with its placeholders.
use kayak_python.Base.{
  keep_if, ℕ, zero, suc, ◌-◌, String, Bool, true, false, Option, none, some, List, [], ◌∷◌, any,
  ◌==◌, if◌then◌else◌,
}
use kayak_python.Base.Chars.{Chars}
use kayak_python.Base.Assoc.{get_by}
use kayak_python.Base.Attempt.{Attempt, ok, raised, ◌>>=◌}
use kayak_python.Observations.Store.{
  DataType, gauge, flow, inflow, temperature, Kinds, Reading, Observation, store_observation,
}
use kayak_python.Cache.Tables.{
  LatestObservation, LatestGaugeObservation, GaugeSource, gauge_cache_rebuild_window, update_latest,
  update_latest_gauge,
}
use kayak_python.Calculator.Evaluate.{
  Node, Exception, problem, number_error, syntax_error, bad_number, Result, Numbers, of_numbers,
  safe_eval,
}
use kayak_python.Calculator.Refs.{resolve_refs, substitute_placeholders}
use kayak_python.Calculator.Sources.{
  CalcExpression, Source, Gauge, Maps, same_id, maps_of, get_negative_flow_source_ids,
  is_calculated, time_of, topo_sort_calc_sources,
}

-- The tables of the database that the run reads and writes.
pub record Tables (V : Type 0) : Type 0 where
  pub observations : List (Observation ℕ V)
  pub latest : List (LatestObservation V)
  pub latest_gauges : List (LatestGaugeObservation V)

abbrev pub text_of : DataType → String
text_of gauge = "gauge"
text_of flow = "flow"
text_of inflow = "inflow"
text_of temperature = "temperature"

-- `except (ValueError, SyntaxError)`
abbrev pub is_caught : Exception → Bool
is_caught (problem p) = true
is_caught syntax_error = true
is_caught (number_error bad_number) = true
is_caught (number_error _) = false

-- What does not change in a run: the numbers, the time, the rate of change, the parser, the links of
-- sources to gauges, the sources that may have a negative flow, and the dictionaries.
pub record Setting (V : Type 0) : Type 0 where
  pub kinds : Kinds ℕ V
  pub numbers : Numbers V
  pub zero_value : V
  pub per_hour : V → V → ℕ → V
  pub parse : Chars → Result (Node V)
  pub now : ℕ
  pub links : List GaugeSource
  pub neg_flow_sources : List ℕ
  pub maps : Maps

module _ {V : Type 0} (c : Setting V) where
  abbrev pub reading : Source → DataType → ℕ → V → Reading ℕ V
  reading s t at v = record { source_id = s.id; data_type = text_of t; observed_at = at; value = v }

  abbrev pub refresh_gauge : DataType → Option ℕ → Tables V → Tables V
  refresh_gauge t none db = db
  refresh_gauge t (some zero) db = db
  refresh_gauge t (some (suc i)) db = record db {
    latest_gauges =
        update_latest_gauge c.per_hour c.links (c.now - gauge_cache_rebuild_window) (suc i) t
          db.observations db.latest_gauges;
  }

  abbrev pub refresh : Source → DataType → Bool × List (Observation ℕ V) → Tables V → Tables V
  refresh s t (false, obs) db = record db { observations = obs }
  refresh s t (true, obs) db =
      refresh_gauge t (get_by same_id s.id c.maps.source_to_gauge)
        record db { observations = obs; latest = update_latest c.per_hour s.id t obs db.latest }

  -- `_store_calc_result`
  unfoldable pub store_calc_result : Source → DataType → ℕ → V → Tables V → Tables V
  unfolding store_observation update_latest update_latest_gauge get_by
  store_calc_result s t at v db =
      refresh s t
        (store_observation c.kinds c.now c.neg_flow_sources (reading s t at v) db.observations) db

  -- `max(0, result)`, but for the sources that may have a negative flow.
  abbrev pub clamp : Source → V → Result V
  clamp s v =
      if any (λ i. s.id == i) c.neg_flow_sources
      then ok v
      else of_numbers (c.numbers.greater v c.zero_value) >>= λ positive.
          ok (if positive then v else c.zero_value)

  -- What follows the evaluation: an error that is caught ends the source, any other is raised.
  abbrev pub after_eval : Source → DataType → ℕ → Result V → Tables V → Result (Tables V)
  after_eval s t at (raised e) db = if is_caught e then ok db else raised e
  after_eval s t at (ok v) db = of_numbers (c.numbers.to_float v) >>= clamp s >>= λ result.
      ok (store_calc_result s t at result db)

  abbrev pub with_refs :
      Source → CalcExpression → Option (List (Chars × V) × ℕ) → Tables V → Result (Tables V)
  with_refs s e none db = ok db
  with_refs s e (some (values, at)) db =
      let (expr, placeholders) = substitute_placeholders e.expression values in
      after_eval s e.data_type at (safe_eval c.numbers placeholders (c.parse expr)) db

  abbrev pub with_time : Source → CalcExpression → Option Chars → Tables V → Result (Tables V)
  with_time s e none db = ok db
  with_time s e (some time) db =
      with_refs s e (resolve_refs c.kinds.is_finite c.maps.name_to_gauge_id db.latest_gauges time)
        db

  abbrev pub with_expression : Source → Option CalcExpression → Tables V → Result (Tables V)
  with_expression s none db = ok db
  with_expression s (some e) db = with_time s e (time_of (some e)) db

  -- `_process_calc_source`
  unfoldable pub process_calc_source : Source → Tables V → Result (Tables V)
  unfolding store_calc_result substitute_placeholders safe_eval resolve_refs
  process_calc_source s db = with_expression s s.calc_expression db

  -- The commit, or the rollback to the tables of the last commit.
  abbrev pub committed : Result (Tables V) → Tables V → Tables V
  committed (raised e) before = before
  committed (ok db) before = db

  unfoldable pub process_all : List Source → Tables V → Tables V
  unfolding process_calc_source
  process_all [] db = db
  process_all (s ∷ ss) db = process_all ss (committed (process_calc_source s db) db)

  -- The sort, and the sources in its order.
  unfoldable pub run_sources : List Source → Tables V → Attempt (List Chars) (Tables V)
  unfolding topo_sort_calc_sources process_all
  run_sources sources db =
      topo_sort_calc_sources c.maps sources >>= λ order. ok (process_all order db)

module _ {V : Type 0} where
  -- The dictionaries and the set of sources that the run starts with.
  abbrev pub with_gauges : Setting V → List Gauge → Setting V
  with_gauges c gauges = record c {
    maps = maps_of gauges c.links;
    neg_flow_sources = get_negative_flow_source_ids gauges c.links;
  }

  -- `calculator`, on the tables `gauge` and `source`; the error is that of the sort.
  unfoldable pub calculator :
      Setting V → List Gauge → List Source → Tables V → Attempt (List Chars) (Tables V)
  unfolding run_sources get_negative_flow_source_ids
  calculator c gauges sources db =
      run_sources (with_gauges c gauges) (keep_if (λ s. is_calculated s.calc_expression) sources) db
