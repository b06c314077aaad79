-- ===== src/Decimate/Tests.antt =====
-- src/kayak/cli/decimate.py on a small table, with the theorems applied.
use kayak_python.Base.{
  ℕ, ◌+◌, ◌-◌, ◌*◌, ◌≡◌, ◌==◌, refl, not, false, List, [], ◌∷◌, keep_if, ltb, arith,
}
use kayak_python.Observations.Store.{gauge, flow, inflow, temperature, Observation, hour}
use kayak_python.Cache.Tables.{first_row, save, get_latest, update_latest}
use kayak_python.Calculator.Run.{Tables}
use kayak_python.Decimate.Thin.{
  minute, day, is_older, row_number, surplus, count_surplus, surplus_of, thin, changes,
}
use kayak_python.Decimate.Run.{
  Args, cutoff, Database, source_ids_before, refresh_types, decimate_source, decimate_sources,
  finish, decimate_from, decimate,
}
use kayak_python.Decimate.Thinned.{IsOrder, IsThinned}
use kayak_python.Decimate.Nearest.{hours, quarter_days, decimate-IsThinned}
use kayak_python.Decimate.Whole.{is_kept, decimate-keep_if}
use kayak_python.Decimate.Again.{decimate-decimate}
use kayak_python.Decimate.Synced.{IsInSync, decimate-IsInSync}

abbrev at : ℕ → ℕ → ℕ → Observation ℕ ℕ
at d h m = record {
  source_id = 1;
  observed_at = d * day + h * hour + m * minute;
  data_type = flow;
  value = h * 60 + m;
}

-- Two old readings of six hours, two of an hour of last year, and a recent one.
abbrev readings : List (Observation ℕ ℕ)
readings = at 10 0 5 ∷ at 10 3 10 ∷ at 300 7 31 ∷ at 300 7 55 ∷ at 399 1 1 ∷ at 399 1 2 ∷ []

abbrev engine : Database ℕ
engine = record {
  tie = λ a b. ltb a b;
  per_hour = λ a b d. a - b;
  julian = record { hours_between = λ a b. a - b; is_zero = λ h. h == 0; rate = λ x y h. x - y };
  links = [];
}

abbrev defaults : Args
defaults = record { recent_days = 30; archive_days = 365; dry_run = false }

abbrev tables : Tables ℕ
tables = record { observations = readings; latest = []; latest_gauges = [] }

abbrev now : ℕ
now = 400 * day

thinned :
    (decimate engine defaults now tables).observations
    ≡ at 10 3 10 ∷ at 300 7 31 ∷ at 399 1 1 ∷ at 399 1 2 ∷ []
unfolding decimate decimate_from decimate_sources decimate_source source_ids_before refresh_types
    finish thin changes surplus_of surplus count_surplus row_number
thinned = refl

listed_first : IsOrder (λ a b. ltb a b)
listed_first = record {
  asym = λ a b. ground arith;
  trans = λ a b c h k. ground arith;
  connected = λ a b. ground arith;
}

decimate-IsThinned_example :
    (keep_if
        (λ q. not (is_older (cutoff now 30) q.observed_at))
        (decimate engine defaults now tables).observations
      ≡ keep_if (λ q. not (is_older (cutoff now 30) q.observed_at)) readings)
    × IsThinned engine.tie
        (hours (cutoff now 30) (cutoff now 365))
        readings
        (decimate engine defaults now tables).observations
    × IsThinned engine.tie
        (quarter_days (cutoff now 365))
        readings
        (decimate engine defaults now tables).observations
decimate-IsThinned_example =
    decimate-IsThinned engine listed_first defaults now tables refl (omega arith)

decimate-keep_if_example :
    (decimate engine defaults now tables).observations
    ≡ keep_if (is_kept engine defaults now readings) readings
decimate-keep_if_example = decimate-keep_if engine defaults now tables refl (omega arith)

decimate-decimate_example :
    (decimate engine defaults now (decimate engine defaults now tables)).observations
    ≡ (decimate engine defaults now tables).observations
decimate-decimate_example = decimate-decimate engine defaults now tables refl (omega arith)

-- The cache as a refresh of the one source leaves it.
abbrev summed : Tables ℕ
summed = record tables { latest = update_latest engine.per_hour 1 flow readings [] }

summed-IsInSync : IsInSync engine summed
unfolding get_latest update_latest first_row save
summed-IsInSync i gauge = ground arith
summed-IsInSync i flow = ground arith
summed-IsInSync i inflow = ground arith
summed-IsInSync i temperature = ground arith

decimate-IsInSync_example : IsInSync engine (decimate engine defaults now summed)
decimate-IsInSync_example = decimate-IsInSync engine defaults now summed summed-IsInSync
