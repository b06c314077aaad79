-- ===== src/Calculator/Refs.antt =====
-- `_resolve_refs` and `_substitute_placeholders` of src/kayak/cli/calculator.py.
use kayak_python.Base.{
  ℕ, zero, suc, String, Bool, Option, none, some, List, [], ◌∷◌, codes, ◌&◌, decimal, length, leb,
  if◌then◌else◌,
}
use kayak_python.Base.Chars.{Chars, eq_chars, split_words, split_by, replace}
use kayak_python.Base.Assoc.{get_by, put_by}
use kayak_python.Base.Dict.{Dict, put}
use kayak_python.Base.Sort.{sort}
use kayak_python.Observations.Store.{DataType, gauge, flow, inflow, temperature}
use kayak_python.Cache.Tables.{LatestGaugeObservation, get_latest_gauge}

-- `DataType(text)`
unfoldable pub type_named : Chars → Option DataType
type_named t =
    if eq_chars t (codes "gauge")
    then some gauge
    else if eq_chars t (codes "flow")
    then some flow
    else if eq_chars t (codes "inflow")
    then some inflow
    else if eq_chars t (codes "temperature")
    then some temperature
    else none

-- The gauge and the type that the parts of a ref name; more than three parts are read as three.
abbrev pub ref_parts : List Chars → Option (Chars × Chars)
ref_parts (key ∷ name ∷ t ∷ more) = some (name, t)
ref_parts (name ∷ t ∷ []) = some (name, t)
ref_parts _ = none

-- What the refs come to: their values, by ref, and their times.
pub record Resolved (V : Type 0) : Type 0 where
  pub values : List (Chars × V)
  pub times : List ℕ

module _ {V : Type 0} (is_finite : V → Bool) where
  abbrev pub finite_value : Option (LatestGaugeObservation V) → Option (LatestGaugeObservation V)
  finite_value none = none
  finite_value (some r) = if is_finite r.value then some r else none

  abbrev pub latest_of :
      List (LatestGaugeObservation V)
      → Option ℕ
      → Option DataType
      → Option (LatestGaugeObservation V)
  latest_of table none t = none
  latest_of table (some zero) t = none
  latest_of table (some (suc i)) none = none
  latest_of table (some (suc i)) (some t) = finite_value (get_latest_gauge (suc i) t table)

  abbrev pub latest_of_parts :
      List (Chars × ℕ)
      → List (LatestGaugeObservation V)
      → Option (Chars × Chars)
      → Option (LatestGaugeObservation V)
  latest_of_parts ids table none = none
  latest_of_parts ids table (some p) = latest_of table (get_by eq_chars p.0 ids) (type_named p.1)

  -- The value that one ref stands for, `none` where the code gives up.
  unfoldable pub ref_value :
      List (Chars × ℕ) → List (LatestGaugeObservation V) → Chars → Option (LatestGaugeObservation V)
  unfolding split_by get_by type_named get_latest_gauge
  ref_value ids table r = latest_of_parts ids table (ref_parts (split_by (codes "::") r))

  -- `values[ref] = ...` and `times.append(...)`
  abbrev pub add_ref : Chars → LatestGaugeObservation V → Resolved V → Resolved V
  add_ref r row acc = record {
    values = put_by eq_chars r row.value acc.values;
    times = row.observed_at ∷ acc.times;
  }

  abbrev pub and_then :
      Chars
      → Option (LatestGaugeObservation V)
      → Resolved V
      → (Resolved V → Option (Resolved V))
      → Option (Resolved V)
  and_then r none acc next = none
  and_then r (some row) acc next = next (add_ref r row acc)

  unfoldable pub resolve_list :
      List (Chars × ℕ)
      → List (LatestGaugeObservation V)
      → List Chars
      → Resolved V
      → Option (Resolved V)
  unfolding ref_value put_by
  resolve_list ids table [] acc = some acc
  resolve_list ids table (r ∷ rs) acc =
      and_then r (ref_value ids table r) acc (resolve_list ids table rs)

  -- `min(times)`
  abbrev pub earliest : ℕ → List ℕ → ℕ
  earliest t [] = t
  earliest t (u ∷ us) = earliest (if leb t u then t else u) us

  abbrev pub with_earliest : Option (Resolved V) → Option (List (Chars × V) × ℕ)
  with_earliest none = none
  with_earliest (some acc) = elim acc.times [
    | [] ↦ none
    | t ∷ ts ↦ some (acc.values, earliest t ts)
  ]

  -- `_resolve_refs`
  unfoldable pub resolve_refs :
      List (Chars × ℕ) → List (LatestGaugeObservation V) → Chars → Option (List (Chars × V) × ℕ)
  unfolding resolve_list split_words
  resolve_refs ids table time_expression =
      with_earliest
        (resolve_list ids table (split_words time_expression) record { values = []; times = [] })

abbrev pub placeholder : ℕ → String
placeholder i = "_v" & decimal i

module _ {V : Type 0} where
  -- The loop over the refs, the i-th one to "_v<i>".
  unfoldable pub put_placeholders : ℕ → List (Chars × V) → Chars → Dict V → Chars × Dict V
  unfolding replace decimal put
  put_placeholders i [] expr values = (expr, values)
  put_placeholders i ((r, v) ∷ rest) expr values =
      put_placeholders (suc i) rest (replace r (codes (placeholder i)) expr)
        (put (placeholder i) v values)

  -- `sorted(values, key=len, reverse=True)`, which keeps the order of refs of the same length.
  unfoldable pub longest_first : List (Chars × V) → List (Chars × V)
  unfolding sort
  longest_first values = sort (λ a b. leb (length b.0) (length a.0)) values

  abbrev pub sql_names : Chars × Dict V → Chars × Dict V
  sql_names (expr, values) = (
    replace (codes "least(") (codes "min(") (replace (codes "greatest(") (codes "max(") expr),
    values,
  )

  -- `_substitute_placeholders`
  unfoldable pub substitute_placeholders : Chars → List (Chars × V) → Chars × Dict V
  unfolding put_placeholders longest_first replace
  substitute_placeholders expression values =
      sql_names (put_placeholders 0 (longest_first values) expression [])
