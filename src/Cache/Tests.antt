-- ===== src/Cache/Tests.antt =====
-- src/kayak/db/cache.py on a few observations, with the theorems applied.
use kayak_python.Base.{
  ℕ, ◌-◌, ◌*◌, ◌/◌, ◌≡◌, refl, ◌&&◌, Option, some, List, [], ◌∷◌, ◌==◌, if◌then◌else◌,
}
use mathlib.Core.Option
use kayak_python.Observations.Store.{flow, same_type, Observation, hour}
use kayak_python.Cache.Tables.{
  LatestGaugeObservation, GaugeSource, first_row, get_latest, get_latest_gauge, save, update_latest,
  update_latest_gauge,
}
use kayak_python.Cache.Bulk.{Julian, joined, rank, pick, update_all_latest_gauges}
use kayak_python.Cache.Newest.{Shows, update_latest-Shows}
use kayak_python.Cache.Agreement.{without_delta, bulk_is_loop}

abbrev observation : ℕ → ℕ → ℕ → Observation ℕ ℕ
observation i at v = record { source_id = i; observed_at = at * hour; data_type = flow; value = v }

-- Two sources of the gauge 1; the higher source wins when both report at the hour 12.
abbrev observations : List (Observation ℕ ℕ)
observations =
    observation 7 5 10 ∷ observation 7 12 40 ∷ observation 8 12 60 ∷ observation 8 11 55 ∷ []

-- An observation exactly six hours before the newest one.
abbrev at_six_hours : List (Observation ℕ ℕ)
at_six_hours = observation 7 5 10 ∷ observation 7 6 20 ∷ observation 7 12 40 ∷ []

abbrev links : List GaugeSource
links = record { gauge_id = 1; source_id = 7 } ∷ record { gauge_id = 1; source_id = 8 } ∷ []

abbrev per_hour : ℕ → ℕ → ℕ → ℕ
per_hour v w elapsed = (v - w) / (elapsed / hour)

abbrev julian : Julian ℕ
julian = record {
  hours_between = λ a b. (a - b) / hour;
  is_zero = λ h. h == 0;
  rate = λ x y h. (x - y) / h;
}

abbrev prev_of_gauge : Option (LatestGaugeObservation ℕ) → Option (Option ℕ)
prev_of_gauge row = Option.map (λ r. r.prev_value) row

abbrev value_of_gauge : Option (LatestGaugeObservation ℕ) → Option ℕ
value_of_gauge row = Option.map (λ r. r.value) row

source_latest :
    get_latest 7 flow (update_latest per_hour 7 flow observations [])
    ≡ some record {
      source_id = 7;
      data_type = flow;
      observed_at = 12 * hour;
      value = 40;
      prev_observed_at = some (5 * hour);
      prev_value = some 10;
      delta_per_hour = some 4;
    }
unfolding get_latest update_latest first_row save
source_latest = refl

gauge_tie :
    value_of_gauge
      (get_latest_gauge 1 flow (update_latest_gauge per_hour links 0 1 flow observations []))
    ≡ some 60
unfolding get_latest_gauge update_latest_gauge first_row save
gauge_tie = refl

-- The loop takes the row at six hours as the previous one, the bulk rebuild the one before it.
loop_at_six_hours :
    prev_of_gauge
      (get_latest_gauge 1 flow (update_latest_gauge per_hour links 0 1 flow at_six_hours []))
    ≡ some (some 20)
unfolding get_latest_gauge update_latest_gauge first_row save
loop_at_six_hours = refl

bulk_at_six_hours :
    prev_of_gauge (get_latest_gauge 1 flow (update_all_latest_gauges julian links 0 at_six_hours))
    ≡ some (some 10)
unfolding get_latest_gauge update_all_latest_gauges joined rank pick
bulk_at_six_hours = refl

update_latest-Shows_example :
    Shows per_hour 7 flow observations
      (get_latest 7 flow (update_latest per_hour 7 flow observations []))
    × (get_latest 8 flow (update_latest per_hour 7 flow observations []) ≡ (
        if 8 == 7 && same_type flow flow
        then get_latest 7 flow (update_latest per_hour 7 flow observations [])
        else get_latest 8 flow []))
update_latest-Shows_example = update_latest-Shows per_hour 7 flow observations 8 flow []

bulk_is_loop_example :
    Option.map
      (without_delta 1 flow links 0 julian per_hour)
      (get_latest_gauge 1 flow (update_all_latest_gauges julian links 0 observations))
    ≡ Option.map
        (without_delta 1 flow links 0 julian per_hour)
        (get_latest_gauge 1 flow (update_latest_gauge per_hour links 0 1 flow observations []))
unfolding first_row
bulk_is_loop_example =
    bulk_is_loop 1 flow links 0 julian per_hour observations [] (refl, (refl, (refl, (refl, tt))))
