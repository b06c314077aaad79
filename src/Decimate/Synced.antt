-- ===== src/Decimate/Synced.antt =====
-- The cache of the latest readings after a run of src/kayak/cli/decimate.py.
use kayak_python.Base.{
  ◌≡◌, refl, sym, ap, ◌∙◌, true, false, ◌&&◌, ◌||◌, ℕ, ◌+◌, List, [], ◌∷◌, any, is_empty, keep_if,
  ltb, ◌==◌, if◌then◌else◌, Bool-cases, inl, inr, arith,
}
use kayak_python.Base.Search.{keep_if-none_deleted, keep_if-keep_if, keep_if_pointwise}
use kayak_python.Observations.Store.{
  DataType, gauge, flow, inflow, temperature, same_type, Observation,
}
use kayak_python.Cache.Tables.{LatestObservation, get_latest, update_latest}
use kayak_python.Cache.Newest.{same_type→≡, update_latest-Shows}
use kayak_python.Calculator.Run.{Tables}
use kayak_python.Calculator.InSync.{summary, summary-ext, get-update_latest}
use kayak_python.Decimate.Thin.{Thinning, hourly, six_hourly, count_surplus, thin, changes}
use kayak_python.Decimate.Survivors.{stays_or_other, thin-stays}
use kayak_python.Decimate.Whole.{observations-refresh}
use kayak_python.Decimate.Run.{
  Args, cutoff, Database, Progress, source_ids_before, data_types, refresh_types, decimate_source,
  decimate_sources, finish, started, decimate_from, decimate,
}

module _ {V : Type 0} (c : Database V) where
  -- To compute a row of the cache again from the observations would change nothing.
  abbrev pub IsInSync : Tables V → Type 0
  IsInSync db =
      (i : ℕ) (t : DataType)
      → get_latest i t (update_latest c.per_hour i t db.observations db.latest)
        ≡ get_latest i t db.latest

  get-update :
      (i : ℕ) (t : DataType) (obs : List (Observation ℕ V)) (table : List (LatestObservation V))
      (j : ℕ) (u : DataType)
      → get_latest j u (update_latest c.per_hour i t obs table)
        ≡ (if j == i && same_type u t then summary c.per_hour j u obs else get_latest j u table)
  get-update i t obs table j u = elim (Bool-cases (j == i && same_type u t)) [
    | inl e ↦
        (let a : j ≡ i = ground arith in
          let b : u ≡ t = same_type→≡ u t (ground arith) in
          rw (e, if◌then◌else◌, a, b) (get-update_latest c.per_hour i t obs table))
    | inr e ↦ (update_latest-Shows c.per_hour i t obs j u table).1 ∙ rw (e, if◌then◌else◌) refl
  ]

  get-refresh :
      (i : ℕ) (ts : List DataType) (db : Tables V) (j : ℕ) (u : DataType)
      → get_latest j u (refresh_types c i ts db).latest ≡ (
          if j == i && any (same_type u) ts
          then summary c.per_hour j u db.observations
          else get_latest j u db.latest)
  unfolding refresh_types
  get-refresh i [] db j u = ground arith
  get-refresh i (t ∷ ts) db j u =
      get-refresh i ts _ j u
      ∙ ap
          (λ r.
            if j == i && any (same_type u) ts then summary c.per_hour j u db.observations else r)
          (get-update i t db.observations db.latest j u)
      ∙ ground arith

  any_type : (u : DataType) → any (same_type u) data_types ≡ true
  any_type gauge = refl
  any_type flow = refl
  any_type inflow = refl
  any_type temperature = refl

  summary_other :
      (i j : ℕ) (u : DataType) (w : Thinning) (obs : List (Observation ℕ V))
      → (j == i) ≡ false
      → summary c.per_hour j u (thin c.tie w i obs) ≡ summary c.per_hour j u obs
  summary_other i j u w obs e = summary-ext c.per_hour j u obs (thin c.tie w i obs) λ p h.
      ap (keep_if p) (thin-stays c.tie w i obs)
      ∙ keep_if-keep_if p (stays_or_other c.tie w i obs) obs
      ∙ keep_if_pointwise _ p (λ o. ground (arith, h o, e)) obs

  unchanged :
      (i : ℕ) (w : Thinning) (obs : List (Observation ℕ V))
      → ltb 0 (changes c.tie w i obs) ≡ false
      → thin c.tie w i obs ≡ obs
  unfolding thin changes
  unchanged i w obs h = keep_if-none_deleted _ obs h

  -- What the cache says is what the observations call for.
  abbrev IsSummed : Tables V → Type 0
  IsSummed db =
      (i : ℕ) (t : DataType) → get_latest i t db.latest ≡ summary c.per_hour i t db.observations

  module _ (medium archive : ℕ) where
    summed :
        (p : Tables V) (i j : ℕ) (u : DataType)
        → IsSummed p
        → (if j == i && any (same_type u) data_types
            then summary c.per_hour j u (
                thin c.tie
                  (six_hourly archive)
                  i
                  (thin c.tie (hourly medium archive) i p.observations))
            else get_latest j u p.latest)
          ≡ summary c.per_hour j u (
              thin c.tie
                (six_hourly archive)
                i
                (thin c.tie (hourly medium archive) i p.observations))
    summed p i j u h = elim (Bool-cases (j == i)) [
      | inl e ↦ rw (e, any_type u, if◌then◌else◌) refl
      | inr e ↦
          rw (e, if◌then◌else◌)
            (h j u
              ∙ sym (
                  summary_other i j u (six_hourly archive)
                    (thin c.tie (hourly medium archive) i p.observations) e
                  ∙ summary_other i j u (hourly medium archive) p.observations e))
    ]

    decimate_source-IsSummed :
        (i : ℕ) (p : Progress V)
        → IsSummed p.db
        → IsSummed (decimate_source c medium archive i p).db
    unfolding decimate_source
    decimate_source-IsSummed i p h j u =
        let obs = p.db.observations in
        let thinned = thin c.tie (hourly medium archive) i obs in
        let left = thin c.tie (six_hourly archive) i thinned in
        elim (Bool-cases (
          ltb 0 (changes c.tie (hourly medium archive) i obs)
          || ltb 0 (changes c.tie (six_hourly archive) i thinned))) [
            | inl e ↦
                rw (e, if◌then◌else◌)
                  (get-refresh i data_types (record p.db { observations = left }) j u
                    ∙ summed p.db i j u h
                    ∙ sym (
                        ap (summary c.per_hour j u) (
                          observations-refresh c medium archive i data_types
                            (record p.db { observations = left }))))
            | inr e ↦
                (let a : thinned ≡ obs =
                    unchanged i (hourly medium archive) obs (ground (arith, e)) in
                  let b : left ≡ thinned =
                    unchanged i (six_hourly archive) thinned (ground (arith, e)) in
                  rw (e, if◌then◌else◌) (h j u ∙ sym (ap (summary c.per_hour j u) (b ∙ a))))
          ]

    decimate_sources-IsSummed :
        (is : List ℕ) (p : Progress V)
        → IsSummed p.db
        → IsSummed (decimate_sources c medium archive is p).db
    unfolding decimate_sources
    decimate_sources-IsSummed [] p h = h
    decimate_sources-IsSummed (i ∷ is) p h =
        decimate_sources-IsSummed is _ (decimate_source-IsSummed i p h)

  finish-IsSummed : (now : ℕ) (p : Progress V) → IsSummed p.db → IsSummed (finish c now p)
  unfolding finish
  finish-IsSummed now p h i t = elim (Bool-cases (is_empty p.affected_sources)) [
    | inl e ↦ rw (e, if◌then◌else◌) (h i t)
    | inr e ↦ rw (e, if◌then◌else◌) (h i t)
  ]

  decimate_from-IsSummed :
      (medium archive now : ℕ) (db : Tables V)
      → IsSummed db
      → IsSummed (decimate_from c medium archive now db)
  unfolding decimate_from
  decimate_from-IsSummed medium archive now db h =
      let is = source_ids_before c medium db.observations in
      finish-IsSummed now (decimate_sources c medium archive is (started db))
        (decimate_sources-IsSummed medium archive is (started db) h)

  decimate-IsSummed :
      (args : Args) (now : ℕ) (db : Tables V) → IsSummed db → IsSummed (decimate c args now db)
  unfolding decimate
  decimate-IsSummed args now db h i t =
      let medium = cutoff now args.recent_days in
      let archive = cutoff now args.archive_days in
      let n = count_surplus c.tie (hourly medium archive) db.observations in
      let m = count_surplus c.tie (six_hourly archive) db.observations in
      elim (Bool-cases (args.dry_run || n + m == 0)) [
        | inl e ↦ rw (e, if◌then◌else◌) (h i t)
        | inr e ↦ rw (e, if◌then◌else◌) (decimate_from-IsSummed medium archive now db h i t)
      ]

  -- Whatever the arguments, a run keeps the cache of the latest readings in step with the
  -- observations: where to compute its rows again changed nothing before the run, it changes nothing
  -- after it, although the run may have deleted the newest row of a source.
  pub decimate-IsInSync :
      (args : Args) (now : ℕ) (db : Tables V) → IsInSync db → IsInSync (decimate c args now db)
  decimate-IsInSync args now db h i t =
      get-update_latest c.per_hour i t (decimate c args now db).observations
        (decimate c args now db).latest
      ∙ sym (decimate-IsSummed args now db summed_before i t)
    where
      summed_before : IsSummed db
      summed_before j u = sym (h j u) ∙ get-update_latest c.per_hour j u db.observations db.latest
