-- ===== src/Decimate/Whole.antt =====
-- What a run of src/kayak/cli/decimate.py leaves of the observations, said of the table as it was.
use kayak_python.Base.{
  ℕ, ◌+◌, ◌≤◌, ◌≡◌, refl, sym, ap, subst, ◌∙◌, Bool, true, false, not, ◌&&◌, ◌||◌, List, [], ◌∷◌,
  All, any, keep_if, ltb, ◌==◌, if◌then◌else◌, Bool-cases, inl, inr, arith,
}
use kayak_python.Base.Search.{
  any-keep_if, any-ext, keep_if-keep_if, keep_if_pointwise, keep_if-All, All-mono, All-and,
}
use kayak_python.Observations.Store.{DataType, Observation}
use kayak_python.Calculator.Run.{Tables}
use kayak_python.Decimate.Thin.{
  is_older, Thinning, hourly, six_hourly, beats, count_surplus, thin, changes,
}
use kayak_python.Decimate.Run.{
  Args, cutoff, Database, add_id, source_ids_before, data_types, refresh_types, Progress,
  decimate_source, decimate_sources, finish, started, decimate_from, decimate,
}
use kayak_python.Decimate.Survivors.{is_beaten, stays, stays_or_other, stays-no_surplus, thin-stays}

abbrev has : ℕ → List ℕ → Bool
has i is = any (λ j. j == i) is

abbrev IsDistinct : List ℕ → Type 0
IsDistinct [] = Unit {0}
IsDistinct (i ∷ is) = (has i is ≡ false) × IsDistinct is

module _ {V : Type 0} (c : Database V) (medium archive : ℕ) where
  -- The row is recent, or the first one of its hour or of its six hours.
  abbrev pub survives : List (Observation ℕ V) → Observation ℕ V → Bool
  survives obs o =
      stays c.tie (hourly medium archive) obs o && stays c.tie (six_hourly archive) obs o

  -- The sources of `rest` are not thinned yet.
  abbrev is_left : List ℕ → List (Observation ℕ V) → Observation ℕ V → Bool
  is_left rest obs o = has o.source_id rest || survives obs o

  -- Rows of other sources, and of other moments, do not matter to the thinning of a source.
  is_beaten-keep_if :
      (w : Thinning) (f : Observation ℕ V → Bool) (obs : List (Observation ℕ V))
      (o : Observation ℕ V)
      → ((q : Observation ℕ V)
          → (w.within q.observed_at && q.source_id == o.source_id) ≡ true
          → f q ≡ true)
      → is_beaten c.tie w (keep_if f obs) o ≡ is_beaten c.tie w obs o
  is_beaten-keep_if w f obs o h =
      any-keep_if (λ q. w.within q.observed_at && beats c.tie w q o) f obs
      ∙ any-ext _ _ (λ q. ground (arith, h q)) obs

  thin-keep_if :
      (w : Thinning) (i : ℕ) (f : Observation ℕ V → Bool) (obs : List (Observation ℕ V))
      → ((q : Observation ℕ V) → (w.within q.observed_at && q.source_id == i) ≡ true → f q ≡ true)
      → thin c.tie w i (keep_if f obs) ≡ keep_if (λ o. f o && stays_or_other c.tie w i obs o) obs
  thin-keep_if w i f obs h =
      thin-stays c.tie w i (keep_if f obs)
      ∙ keep_if-keep_if (stays_or_other c.tie w i (keep_if f obs)) f obs
      ∙ keep_if_pointwise _ _ same obs
    where
      same :
          (o : Observation ℕ V)
          → (f o && stays_or_other c.tie w i (keep_if f obs) o)
            ≡ (f o && stays_or_other c.tie w i obs o)
      same o = elim (Bool-cases (o.source_id == i)) [
        | inl e ↦ ground (arith, e, is_beaten-keep_if w f obs o (λ q k. h q (ground (arith, k, e))))
        | inr e ↦ ground (arith, e)
      ]

  -- Both statements for one source, on a table where it is the first one left.
  thin_source :
      (i : ℕ) (rest : List ℕ) (obs : List (Observation ℕ V))
      → has i rest ≡ false
      → thin c.tie
          (six_hourly archive)
          i
          (thin c.tie (hourly medium archive) i (keep_if (is_left (i ∷ rest) obs) obs))
        ≡ keep_if (is_left rest obs) obs
  thin_source i rest obs h =
      ap (thin c.tie (six_hourly archive) i) (
        thin-keep_if (hourly medium archive) i (is_left (i ∷ rest) obs) obs
          (λ q k. ground (arith, k)))
      ∙ thin-keep_if (six_hourly archive) i _ obs (λ q k. ground (arith, k))
      ∙ keep_if_pointwise _ _ same obs
    where
      same :
          (o : Observation ℕ V)
          → (is_left (i ∷ rest) obs o
              && stays_or_other c.tie (hourly medium archive) i obs o
              && stays_or_other c.tie (six_hourly archive) i obs o)
            ≡ is_left rest obs o
      same o = elim (Bool-cases (o.source_id == i)) [
        | inl e ↦
            (let a : o.source_id ≡ i = ground arith in ground (arith, e, ap (λ j. has j rest) a, h))
        | inr e ↦ ground (arith, e)
      ]

  pub observations-refresh :
      (i : ℕ) (ts : List DataType) (db : Tables V)
      → (refresh_types c i ts db).observations ≡ db.observations
  unfolding refresh_types
  observations-refresh i [] db = refl
  observations-refresh i (t ∷ ts) db = observations-refresh i ts _

  pub observations-decimate_source :
      (i : ℕ) (p : Progress V)
      → (decimate_source c medium archive i p).db.observations
        ≡ thin c.tie (six_hourly archive) i (thin c.tie (hourly medium archive) i p.db.observations)
  unfolding decimate_source
  observations-decimate_source i p =
      let thinned = thin c.tie (hourly medium archive) i p.db.observations in
      elim (Bool-cases (
        ltb 0 (changes c.tie (hourly medium archive) i p.db.observations)
        || ltb 0 (changes c.tie (six_hourly archive) i thinned))) [
          | inl e ↦ rw (e, if◌then◌else◌) (observations-refresh i data_types _)
          | inr e ↦ rw (e, if◌then◌else◌) refl
        ]

  observations-decimate_sources :
      (is : List ℕ) (obs : List (Observation ℕ V)) (p : Progress V)
      → IsDistinct is
      → p.db.observations ≡ keep_if (is_left is obs) obs
      → (decimate_sources c medium archive is p).db.observations ≡ keep_if (survives obs) obs
  unfolding decimate_sources
  observations-decimate_sources [] obs p h e = e
  observations-decimate_sources (i ∷ is) obs p h e =
      observations-decimate_sources is obs (decimate_source c medium archive i p) h.1 (
        observations-decimate_source i p
        ∙ ap (λ os. thin c.tie (six_hourly archive) i (thin c.tie (hourly medium archive) i os)) e
        ∙ thin_source i is obs h.0)

  observations-finish :
      (now : ℕ) (p : Progress V) → (finish c now p).observations ≡ p.db.observations
  unfolding finish
  observations-finish now p = ground arith

  has-add_id : (i j : ℕ) (is : List ℕ) → has i (add_id j is) ≡ (j == i || has i is)
  has-add_id i j is = elim (Bool-cases (j == i)) [
    | inl e ↦ (let a : j ≡ i = ground arith in rw a (ground arith))
    | inr e ↦ ground arith
  ]

  add_id-IsDistinct : (i : ℕ) (is : List ℕ) → IsDistinct is → IsDistinct (add_id i is)
  add_id-IsDistinct i is h = elim (Bool-cases (has i is)) [
    | inl e ↦ rw (e, if◌then◌else◌) h
    | inr e ↦ rw (e, if◌then◌else◌) (e, h)
  ]

  source_ids_before-IsDistinct :
      (obs : List (Observation ℕ V)) → IsDistinct (source_ids_before c medium obs)
  unfolding source_ids_before
  source_ids_before-IsDistinct [] = tt
  source_ids_before-IsDistinct (o ∷ obs) = elim (Bool-cases (is_older medium o.observed_at)) [
    | inl e ↦
        rw (e, if◌then◌else◌) (add_id-IsDistinct o.source_id _ (source_ids_before-IsDistinct obs))
    | inr e ↦ rw (e, if◌then◌else◌) (source_ids_before-IsDistinct obs)
  ]

  abbrev is_missed : List ℕ → Observation ℕ V → Bool
  is_missed is o = is_older medium o.observed_at && not (has o.source_id is)

  has-add_id_old : (i j : ℕ) (is : List ℕ) → has i is ≡ true → has i (add_id j is) ≡ true
  has-add_id_old i j is h = rw (has-add_id i j is) (ground arith)

  All-add_id :
      (i : ℕ) (is : List ℕ) (obs : List (Observation ℕ V))
      → All (λ o. is_missed is o ≡ false) obs
      → All (λ o. is_missed (add_id i is) o ≡ false) obs
  All-add_id i is obs h = All-mono (λ o k. ground (arith, k, has-add_id o.source_id i is)) obs h

  older :
      (o : Observation ℕ V) (obs : List (Observation ℕ V))
      → is_older medium o.observed_at ≡ true
      → source_ids_before c medium (o ∷ obs) ≡ add_id o.source_id (source_ids_before c medium obs)
  unfolding source_ids_before
  older o obs e = rw (e, if◌then◌else◌) refl

  newer :
      (o : Observation ℕ V) (obs : List (Observation ℕ V))
      → is_older medium o.observed_at ≡ false
      → source_ids_before c medium (o ∷ obs) ≡ source_ids_before c medium obs
  unfolding source_ids_before
  newer o obs e = rw (e, if◌then◌else◌) refl

  none_missed :
      (obs : List (Observation ℕ V))
      → All (λ o. is_missed (source_ids_before c medium obs) o ≡ false) obs
  none_missed [] = tt
  none_missed (o ∷ obs) =
      let ids = source_ids_before c medium obs in
      elim (Bool-cases (is_older medium o.observed_at)) [
        | inl e ↦
            subst (λ is. All (λ q. is_missed is q ≡ false) (o ∷ obs)) (sym (older o obs e))
              (
                ground (arith, has-add_id o.source_id o.source_id ids),
                All-add_id o.source_id ids obs (none_missed obs),
              )
        | inr e ↦
            subst (λ is. All (λ q. is_missed is q ≡ false) (o ∷ obs)) (sym (newer o obs e))
              (ground (arith, e), none_missed obs)
      ]

  -- With the cutoffs in order, a row of a source that is not visited survives.
  all_left :
      (obs : List (Observation ℕ V))
      → archive ≤ medium
      → keep_if (is_left (source_ids_before c medium obs) obs) obs ≡ obs
  all_left obs h = keep_if-All _ obs (All-mono (λ o k. left o k) obs (none_missed obs))
    where
      left :
          (o : Observation ℕ V)
          → is_missed (source_ids_before c medium obs) o ≡ false
          → is_left (source_ids_before c medium obs) obs o ≡ true
      left o k = ground (arith, k, h)

  pub decimate_from-survives :
      (now : ℕ) (db : Tables V)
      → archive ≤ medium
      → (decimate_from c medium archive now db).observations
        ≡ keep_if (survives db.observations) db.observations
  unfolding decimate_from
  decimate_from-survives now db h =
      observations-finish now (
        decimate_sources c medium archive (source_ids_before c medium db.observations) (started db))
      ∙ observations-decimate_sources (source_ids_before c medium db.observations) db.observations _
          (source_ids_before-IsDistinct db.observations) (sym (all_left db.observations h))

module _ {V : Type 0} (c : Database V) (args : Args) (now : ℕ) where
  -- The rows that a run leaves, said of the table before it.
  abbrev pub is_kept : List (Observation ℕ V) → Observation ℕ V → Bool
  is_kept = survives c (cutoff now args.recent_days) (cutoff now args.archive_days)

  all_survive :
      (obs : List (Observation ℕ V))
      → count_surplus c.tie
          (hourly (cutoff now args.recent_days) (cutoff now args.archive_days))
          obs
        ≡ 0
      → count_surplus c.tie (six_hourly (cutoff now args.archive_days)) obs ≡ 0
      → keep_if (is_kept obs) obs ≡ obs
  all_survive obs h k =
      keep_if-All _ obs
        (All-and _ _ obs (stays-no_surplus c.tie _ obs h) (stays-no_surplus c.tie _ obs k))

  archive_first :
      args.recent_days ≤ args.archive_days
      → cutoff now args.archive_days ≤ cutoff now args.recent_days
  archive_first h = omega arith

  -- A run that is not a dry run leaves the recent rows, and of each source and type the first row of
  -- each hour, and beyond the second cutoff of each six hours, in the order of the distance to the
  -- middle, all said of the table before the run, when the second cutoff is not after the first one.
  pub decimate-keep_if :
      (db : Tables V)
      → args.dry_run ≡ false
      → args.recent_days ≤ args.archive_days
      → (decimate c args now db).observations ≡ keep_if (is_kept db.observations) db.observations
  unfolding decimate
  decimate-keep_if db h k =
      let n =
        count_surplus c.tie (hourly (cutoff now args.recent_days) (cutoff now args.archive_days))
          db.observations in
      let m = count_surplus c.tie (six_hourly (cutoff now args.archive_days)) db.observations in
      elim (Bool-cases (n + m == 0)) [
        | inl e ↦
            rw (h, e, if◌then◌else◌)
              (sym (all_survive db.observations (ground arith) (ground arith)))
        | inr e ↦
            rw (h, e, if◌then◌else◌)
              (decimate_from-survives c (cutoff now args.recent_days) (cutoff now args.archive_days)
                now db (archive_first k))
      ]
