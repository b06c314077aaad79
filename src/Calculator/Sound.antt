-- ===== src/Calculator/Sound.antt =====
-- What a run of `calculator` of src/kayak/cli/calculator.py keeps of the tables.
use kayak_python.Base.{
  ℕ, zero, suc, ◌≡◌, refl, subst, Option, none, some, List, [], ◌∷◌, if◌then◌else◌, All, arith,
  Bool-cases, inl, inr,
}
use kayak_python.Base.Chars.{Chars}
use kayak_python.Base.Assoc.{get_by}
use kayak_python.Base.Attempt.{ok, raised, ◌>>=◌, bind-ok}
use kayak_python.Observations.Store.{
  DataType, gauge, flow, inflow, temperature, data_type_of, Reading, Observation, upsert, check_one,
  store_checked, store_observation,
}
use kayak_python.Observations.Accepted.{IsAcceptable, upsert-Acceptable, check_one-Acceptable}
use kayak_python.Cache.Tables.{update_latest}
use kayak_python.Calculator.Evaluate.{Result, of_numbers, safe_eval}
use kayak_python.Calculator.Refs.{resolve_refs, substitute_placeholders}
use kayak_python.Calculator.Sources.{
  Gauge, CalcExpression, Source, same_id, time_of, topo_sort_calc_sources,
}
use kayak_python.Calculator.Run.{
  Tables, text_of, is_caught, Setting, reading, refresh_gauge, refresh, store_calc_result, clamp,
  after_eval, with_refs, with_time, with_expression, process_calc_source, committed, process_all,
  run_sources, with_gauges, calculator,
}
use kayak_python.Calculator.InSync.{IsInSync, update_latest-InSync}

module _ {V : Type 0} (c : Setting V) where
  pub record IsSound (db : Tables V) : Type 0 where
    pub acceptable : All (IsAcceptable c.kinds c.now c.neg_flow_sources) db.observations
    pub in_sync : IsInSync c db

  refresh_gauge-Sound :
      (t : DataType) (i : Option ℕ) (db : Tables V) → IsSound db → IsSound (refresh_gauge c t i db)
  refresh_gauge-Sound t none db h = h
  refresh_gauge-Sound t (some zero) db h = h
  refresh_gauge-Sound t (some (suc i)) db h = record {
    acceptable = h.acceptable;
    in_sync = h.in_sync;
  }

  type-text : (t : DataType) → data_type_of (text_of t) ≡ some t
  unfolding data_type_of
  type-text gauge = refl
  type-text flow = refl
  type-text inflow = refl
  type-text temperature = refl

  check_one-key :
      (r : Reading ℕ V) (t : DataType) (o : Observation ℕ V)
      → check_one c.kinds c.now c.neg_flow_sources r (some t) ≡ some o
      → (o.source_id ≡ r.source_id) × (o.data_type ≡ t)
  check_one-key r t o h = ground arith

  refresh-Sound :
      (s : Source) (t : DataType) (o : Option (Observation ℕ V)) (db : Tables V)
      → ((p : Observation ℕ V)
          → o ≡ some p
          → IsAcceptable c.kinds c.now c.neg_flow_sources p
            × (p.source_id ≡ s.id)
            × (p.data_type ≡ t))
      → IsSound db
      → IsSound
          (refresh c s t (store_checked c.kinds c.now c.neg_flow_sources o db.observations) db)
  refresh-Sound s t none db ok_key h = h
  refresh-Sound s t (some o) db ok_key h =
      let k = ok_key o refl in
      refresh_gauge-Sound t (get_by same_id s.id c.maps.source_to_gauge) _ record {
        acceptable =
            upsert-Acceptable c.kinds c.now c.neg_flow_sources o db.observations k.0 h.acceptable;
        in_sync =
            subst
              (λ i. IsInSync c record db {
                observations = upsert c.kinds o db.observations;
                latest = update_latest c.per_hour i t (upsert c.kinds o db.observations) db.latest;
              })
              k.1
              (subst
                (λ u. IsInSync c record db {
                  observations = upsert c.kinds o db.observations;
                  latest =
                      update_latest c.per_hour o.source_id u (upsert c.kinds o db.observations)
                        db.latest;
                })
                k.2 (update_latest-InSync c db o h.in_sync));
      }

  store_calc_result-Sound :
      (s : Source) (t : DataType) (at : ℕ) (v : V) (db : Tables V)
      → IsSound db
      → IsSound (store_calc_result c s t at v db)
  unfolding store_calc_result store_observation
  store_calc_result-Sound s t at v db h =
      let r = reading c s t at v in
      refresh-Sound s t (check_one c.kinds c.now c.neg_flow_sources r (data_type_of (text_of t))) db
        (λ p e.
          let e' =
            subst (λ u. check_one c.kinds c.now c.neg_flow_sources r u ≡ some p) (type-text t) e in
          let k = check_one-key r t p e' in
          (check_one-Acceptable c.kinds c.now c.neg_flow_sources r (some t) p e', k.0, k.1))
        h

  committed-bind :
      {A : Type 0} (m : Result A) (f : A → Tables V) (db : Tables V)
      → IsSound db
      → ((a : A) → IsSound (f a))
      → IsSound (committed c (m >>= λ a. ok (f a)) db)
  committed-bind (raised e) f db h k = h
  committed-bind (ok a) f db h k = k a

  after_eval-Sound :
      (s : Source) (t : DataType) (at : ℕ) (r : Result V) (db : Tables V)
      → IsSound db
      → IsSound (committed c (after_eval c s t at r db) db)
  after_eval-Sound s t at (raised e) db h = elim (Bool-cases (is_caught e)) [
    | inl k ↦ rw (k, if◌then◌else◌) h
    | inr k ↦ rw (k, if◌then◌else◌) h
  ]
  after_eval-Sound s t at (ok v) db h =
      committed-bind (of_numbers (c.numbers.to_float v) >>= clamp c s)
        (λ result. store_calc_result c s t at result db) db h
        (λ result. store_calc_result-Sound s t at result db h)

  with_refs-Sound :
      (s : Source) (e : CalcExpression) (refs : Option (List (Chars × V) × ℕ)) (db : Tables V)
      → IsSound db
      → IsSound (committed c (with_refs c s e refs db) db)
  with_refs-Sound s e none db h = h
  with_refs-Sound s e (some (values, at)) db h =
      let p = substitute_placeholders e.expression values in
      after_eval-Sound s e.data_type at (safe_eval c.numbers p.1 (c.parse p.0)) db h

  with_time-Sound :
      (s : Source) (e : CalcExpression) (time : Option Chars) (db : Tables V)
      → IsSound db
      → IsSound (committed c (with_time c s e time db) db)
  with_time-Sound s e none db h = h
  with_time-Sound s e (some time) db h =
      with_refs-Sound s e
        (resolve_refs c.kinds.is_finite c.maps.name_to_gauge_id db.latest_gauges time) db h

  with_expression-Sound :
      (s : Source) (e : Option CalcExpression) (db : Tables V)
      → IsSound db
      → IsSound (committed c (with_expression c s e db) db)
  with_expression-Sound s none db h = h
  with_expression-Sound s (some e) db h = with_time-Sound s e (time_of (some e)) db h

  process_all-Sound :
      (ss : List Source) (db : Tables V) → IsSound db → IsSound (process_all c ss db)
  unfolding process_all process_calc_source
  process_all-Sound [] db h = h
  process_all-Sound (s ∷ ss) db h =
      process_all-Sound ss _ (with_expression-Sound s s.calc_expression db h)

  run_sources-Sound :
      (sources : List Source) (db db' : Tables V)
      → run_sources c sources db ≡ ok db'
      → IsSound db
      → IsSound db'
  unfolding run_sources
  run_sources-Sound sources db db' e h =
      let b =
        bind-ok (topo_sort_calc_sources c.maps sources) (λ order. ok (process_all c order db)) e in
      let same = b.2 in
      let k : process_all c b.0 db ≡ db' = cc in subst IsSound k (process_all-Sound b.0 db h)

-- A run that does not raise keeps the tables sound: each stored value is finite, and no flow is
-- negative but for the sources of gauges that may have one; and each row of the cache of the
-- sources' latest readings is what the observations call for.
pub calculator-Sound :
    {V : Type 0} (c : Setting V) (gauges : List Gauge) (sources : List Source) (db db' : Tables V)
    → calculator c gauges sources db ≡ ok db'
    → IsSound (with_gauges c gauges) db
    → IsSound (with_gauges c gauges) db'
unfolding calculator
calculator-Sound c gauges sources db db' e h = run_sources-Sound (with_gauges c gauges) _ db db' e h
