-- ===== src/Observations/Tests.antt =====
-- src/kayak/db/observations.py on four readings, with the theorems applied.
use kayak_python.Base.{ℕ, String, ◌≡◌, refl, Bool, true, false, List, [], ◌∷◌, All, ◌==◌}
use kayak_python.Base.Int.{ℤ, pos, negsuc}
use kayak_python.Observations.Store.{
  flow, data_type_of, Kinds, Reading, Observation, upsert, valid_rows, batched, insert_batch,
  insert_batches, store_observations,
}
use kayak_python.Observations.Batches.{store_each, store_observations-each}
use kayak_python.Observations.Accepted.{IsAcceptable, store_observations-Acceptable}

abbrev is_below_zero : ℤ → Bool
is_below_zero (pos n) = false
is_below_zero (negsuc n) = true

-- Moments are microseconds, values are whole numbers, all of them finite.
abbrev kinds : Kinds ℕ ℤ
kinds = record {
  truncate = λ t. t;
  utc = λ t. t;
  same_moment = λ s t. s == t;
  is_finite = λ v. true;
  is_negative = is_below_zero;
}

abbrev reading : ℕ → String → ℕ → ℤ → Reading ℕ ℤ
reading i t at v = record { source_id = i; data_type = t; observed_at = at; value = v }

-- A flow, its correction, a negative flow, and a type that there is not.
abbrev readings : List (Reading ℕ ℤ)
readings =
    reading 1 "flow" 10 (pos 5)
    ∷ reading 1 "flow" 10 (pos 6)
    ∷ reading 2 "flow" 10 (negsuc 0)
    ∷ reading 1 "snow" 10 (pos 1)
    ∷ []

abbrev corrected : List (Observation ℕ ℤ)
corrected = record { source_id = 1; observed_at = 10; data_type = flow; value = pos 6 } ∷ []

-- Two readings are stored, as one row.
correction_wins : store_observations kinds 0 [] readings [] ≡ (2, corrected)
unfolding store_observations valid_rows data_type_of batched insert_batches insert_batch upsert
correction_wins = refl

store_observations-each_example :
    store_observations kinds 0 [] readings [] ≡ store_each kinds 0 [] readings []
store_observations-each_example = store_observations-each kinds 0 [] readings []

store_observations-Acceptable_example :
    All (IsAcceptable kinds 0 []) (store_observations kinds 0 [] readings []).1
store_observations-Acceptable_example = store_observations-Acceptable kinds 0 [] readings [] tt
