-- ===== src/Observations/Store.antt =====
-- The checks of the two functions, the upsert, and the batches of 200 rows.
use kayak_python.Base.{
  ℕ, zero, suc, ◌+◌, ◌-◌, String, Bool, true, false, not, ◌&&◌, Option, none, some, List, [], ◌∷◌,
  any, length, ltb, ◌==◌, if◌then◌else◌, str_eq, is_empty,
}

pub data DataType : Type 0 where
  gauge flow inflow temperature : DataType

-- `DataType(text)`; a member is itself a text, its value.
unfoldable pub data_type_of : String → Option DataType
data_type_of t =
    if str_eq t "gauge"
    then some gauge
    else if str_eq t "flow"
    then some flow
    else if str_eq t "inflow"
    then some inflow
    else if str_eq t "temperature"
    then some temperature
    else none

abbrev pub is_flow : DataType → Bool
is_flow flow = true
is_flow _ = false

abbrev pub same_type : DataType → DataType → Bool
same_type gauge gauge = true
same_type flow flow = true
same_type inflow inflow = true
same_type temperature temperature = true
same_type _ _ = false

-- What the code asks of a moment `T` and of a value `V`: `replace(microsecond=0)`, the moment in
-- UTC, the equality of the primary key, `math.isfinite` and `< 0`.
pub record Kinds (T V : Type 0) : Type 0 where
  pub truncate : T → T
  pub utc : T → ℕ
  pub same_moment : T → T → Bool
  pub is_finite : V → Bool
  pub is_negative : V → Bool

-- A row as it is handed in.
pub record Reading (T V : Type 0) : Type 0 where
  pub source_id : ℕ
  pub data_type : String
  pub observed_at : T
  pub value : V

pub record Observation (T V : Type 0) : Type 0 where
  pub source_id : ℕ
  pub observed_at : T
  pub data_type : DataType
  pub value : V

abbrev pub hour : ℕ
hour = 3600000000

abbrev pub batch_size : ℕ
batch_size = 200

module _ {T V : Type 0} (k : Kinds T V) where
  abbrev pub same_key : Observation T V → Observation T V → Bool
  same_key a b =
      a.source_id == b.source_id
      && k.same_moment a.observed_at b.observed_at
      && same_type a.data_type b.data_type

  -- INSERT ... ON CONFLICT DO UPDATE SET value
  unfoldable pub upsert : Observation T V → List (Observation T V) → List (Observation T V)
  upsert o [] = o ∷ []
  upsert o (p ∷ ps) =
      let rest = upsert o ps in if same_key p o then record p { value = o.value } ∷ ps else p ∷ rest

  abbrev pub observation : Reading T V → DataType → Observation T V
  observation r t = record {
    source_id = r.source_id;
    observed_at = k.truncate r.observed_at;
    data_type = t;
    value = r.value;
  }

  -- An absent set of sources is the empty list.
  module _ (now : ℕ) (allowed : List ℕ) where
    abbrev pub is_future : T → Bool
    is_future t = ltb (now + hour) (k.utc (k.truncate t))

    abbrev pub is_bad_flow : ℕ → DataType → V → Bool
    is_bad_flow source_id t v =
        is_flow t && k.is_negative v && not (any (λ s. source_id == s) allowed)

    -- The checks of `store_observation`, in its order.
    abbrev pub check_one : Reading T V → Option DataType → Option (Observation T V)
    check_one r none = none
    check_one r (some t) =
        if not (k.is_finite r.value)
        then none
        else if is_future r.observed_at
        then none
        else if is_bad_flow r.source_id t r.value
        then none
        else some (observation r t)

    abbrev pub store_checked :
        Option (Observation T V) → List (Observation T V) → Bool × List (Observation T V)
    store_checked none table = (false, table)
    store_checked (some o) table = (true, upsert o table)

    -- `store_observation`
    unfoldable pub store_observation :
        Reading T V → List (Observation T V) → Bool × List (Observation T V)
    unfolding data_type_of
    store_observation r table = store_checked (check_one r (data_type_of r.data_type)) table

    -- The checks in the loop of `store_observations`, in its order.
    abbrev pub check_row : Reading T V → Option DataType → Option (Observation T V)
    check_row r none = none
    check_row r (some t) =
        if is_future r.observed_at
        then none
        else if not (k.is_finite r.value)
        then none
        else if is_bad_flow r.source_id t r.value
        then none
        else some (observation r t)

    abbrev pub and_valid :
        Option (Observation T V) → List (Observation T V) → List (Observation T V)
    and_valid none os = os
    and_valid (some o) os = o ∷ os

    unfoldable pub valid_rows : List (Reading T V) → List (Observation T V)
    unfolding data_type_of
    valid_rows [] = []
    valid_rows (r ∷ rs) = and_valid (check_row r (data_type_of r.data_type)) (valid_rows rs)

  abbrev pub put_first {ℓ} : {A : Type ℓ} → A → List (List A) → List (List A)
  put_first x [] = (x ∷ []) ∷ []
  put_first x (b ∷ bs) = (x ∷ b) ∷ bs

  -- `itertools.batched(xs, 200)`; `room` is what the batch at hand still takes.
  unfoldable pub batched {ℓ} : {A : Type ℓ} → ℕ → List A → List (List A)
  batched room [] = []
  batched zero (x ∷ xs) = [] ∷ put_first x (batched (batch_size - 1) xs)
  batched (suc room) (x ∷ xs) = put_first x (batched room xs)

  -- One INSERT of several rows: the conflicts are resolved row by row.
  unfoldable pub insert_batch :
      List (Observation T V) → List (Observation T V) → List (Observation T V)
  unfolding upsert
  insert_batch [] table = table
  insert_batch (o ∷ os) table = insert_batch os (upsert o table)

  unfoldable pub insert_batches :
      List (List (Observation T V)) → List (Observation T V) → List (Observation T V)
  unfolding insert_batch
  insert_batches [] table = table
  insert_batches (b ∷ bs) table = insert_batches bs (insert_batch b table)

  -- `store_observations`
  unfoldable pub store_observations :
      ℕ → List ℕ → List (Reading T V) → List (Observation T V) → ℕ × List (Observation T V)
  unfolding valid_rows batched insert_batches
  store_observations now allowed rs table =
      let rows = valid_rows now allowed rs in
      if is_empty rows
      then (0, table)
      else (length rows, insert_batches (batched batch_size rows) table)
