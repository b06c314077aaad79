-- ===== src/Decimate/Nearest.antt =====
-- What a run of src/kayak/cli/decimate.py leaves in each hour and in each six hours.
use kayak_python.Base.{
  ℕ, ◌+◌, ◌*◌, ◌/◌, ltb, ◌≤◌, ◌≡◌, refl, sym, ap, subst, ◌∙◌, Bool, false, not, ◌&&◌, List, keep_if,
  ◌==◌, arith,
}
use kayak_python.Base.Search.{keep_if-keep_if, keep_if_pointwise}
use kayak_python.Observations.Store.{Observation}
use kayak_python.Calculator.Run.{Tables}
use kayak_python.Decimate.Thin.{
  distance, from_half_hour, from_third_hour, same_six_hours, is_older, Thinning, hourly, six_hourly,
}
use kayak_python.Decimate.Run.{Args, cutoff, Database, decimate}
use kayak_python.Decimate.Whole.{is_kept, decimate-keep_if}
use kayak_python.Decimate.Thinned.{
  IsOrder, IsBucketing, IsThinned, keep_if-IsThinned, IsThinned-same,
}

hourly-IsBucketing : (medium archive : ℕ) → IsBucketing (hourly medium archive)
hourly-IsBucketing medium archive = record {
  self = λ a. ground arith;
  sym = λ a b. ground arith;
  trans = λ a b c h k. ground arith;
}

six_hourly-IsBucketing : (archive : ℕ) → IsBucketing (six_hourly archive)
six_hourly-IsBucketing archive = record {
  self = λ a. ground arith;
  sym = λ a b. ground arith;
  trans = λ a b c h k. ground arith;
}

-- What the run promises, in microseconds: of the rows of an hour the one whose minute starts nearest
-- to the middle of the hour, and of the rows of six hours the one whose minute starts nearest to the
-- middle of the six hours.
abbrev pub hours : ℕ → ℕ → Thinning
hours medium archive = record {
  within = λ at. ltb (at / 1000000) medium && not (ltb (at / 1000000) archive);
  same_bucket = λ a b. a / 3600000000 == b / 3600000000;
  off_middle =
      λ at. distance (at / 60000000 * 60000000) (at / 3600000000 * 3600000000 + 1800000000);
}

abbrev pub quarter_days : ℕ → Thinning
quarter_days archive = record {
  within = λ at. ltb (at / 1000000) archive;
  same_bucket = λ a b. a / 21600000000 == b / 21600000000;
  off_middle =
      λ at. distance (at / 60000000 * 60000000) (at / 21600000000 * 21600000000 + 10800000000);
}

off_hour :
    (at : ℕ) (medium archive : ℕ)
    → (hours medium archive).off_middle at ≡ 60000000 * from_half_hour at
off_hour at medium archive = omega arith

off_quarter :
    (at archive : ℕ) → (quarter_days archive).off_middle at ≡ 60000000 * from_third_hour at
off_quarter at archive = omega arith

same_quarter : (a b : ℕ) → same_six_hours a b ≡ (a / 21600000000 == b / 21600000000)
same_quarter a b = ground arith

module _ {V : Type 0} (c : Database V) (o : IsOrder c.tie) (args : Args) (now : ℕ) (db : Tables V)
    (runs : args.dry_run ≡ false) (ordered : args.recent_days ≤ args.archive_days) where
  abbrev after : List (Observation ℕ V)
  after = (decimate c args now db).observations

  abbrev medium : ℕ
  medium = cutoff now args.recent_days

  abbrev archive : ℕ
  archive = cutoff now args.archive_days

  left : after ≡ keep_if (is_kept c args now db.observations) db.observations
  left = decimate-keep_if c args now db runs ordered

  cutoffs : archive ≤ medium
  cutoffs = omega (arith, ordered)

  recent : Observation ℕ V → Bool
  recent q = not (is_older medium q.observed_at)

  recent_kept :
      (q : Observation ℕ V) → (is_kept c args now db.observations q && recent q) ≡ recent q
  unfolding recent
  recent_kept q = ground (arith, cutoffs)

  -- A run that is not a dry run, whose second cutoff is not after the first one, leaves the recent
  -- rows as they are and adds none; of the rows between the cutoffs it leaves for each source, type
  -- and hour exactly one, and of the older ones for each source, type and six hours exactly one: each
  -- time one whose minute, without its seconds, starts nearest to the middle.
  pub decimate-IsThinned :
      (keep_if (λ q. not (is_older medium q.observed_at)) after
        ≡ keep_if (λ q. not (is_older medium q.observed_at)) db.observations)
      × IsThinned c.tie (hours medium archive) db.observations after
      × IsThinned c.tie (quarter_days archive) db.observations after
  unfolding recent
  decimate-IsThinned = (
    ap (keep_if recent) left
        ∙ keep_if-keep_if recent (is_kept c args now db.observations) db.observations
        ∙ keep_if_pointwise _ recent recent_kept db.observations,
    IsThinned-same c.tie (hourly medium archive) (hours medium archive) (λ a. refl) (λ a b. refl)
        (λ a b. ground (arith, off_hour a medium archive, off_hour b medium archive)) _ _
        (subst (IsThinned c.tie (hourly medium archive) db.observations) (sym left) (
          keep_if-IsThinned c.tie o (hourly medium archive) (hourly-IsBucketing medium archive)
            db.observations (is_kept c args now db.observations) (λ a h. ground (arith, h)))),
    IsThinned-same c.tie (six_hourly archive) (quarter_days archive) (λ a. refl)
        (λ a b. sym (same_quarter a b))
        (λ a b. ground (arith, off_quarter a archive, off_quarter b archive)) _ _
        (subst (IsThinned c.tie (six_hourly archive) db.observations) (sym left) (
          keep_if-IsThinned c.tie o (six_hourly archive) (six_hourly-IsBucketing archive)
            db.observations (is_kept c args now db.observations) (λ a h. ground (arith, h)))),
  )
