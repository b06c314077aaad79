-- ===== src/Calculator/Sources.antt =====
-- The calculated sources of src/kayak/cli/calculator.py, the gauges that they read, and the order.
use kayak_python.Base.{
  any, keep_if, ℕ, Bool, true, false, not, ◌&&◌, Option, none, some, List, [], ◌∷◌, codes, map,
  ◌==◌, if◌then◌else◌,
}
use kayak_python.Base.Chars.{Chars, eq_chars, mem_chars, split_words, split_by}
use kayak_python.Base.Assoc.{get_by, put_by}
use kayak_python.Base.Attempt.{Attempt}
use kayak_python.Observations.Store.{DataType}
use kayak_python.Calculator.Order.{topo_sort}
use kayak_python.Cache.Tables.{GaugeSource}

pub record CalcExpression : Type 0 where
  pub data_type : DataType
  pub expression : Chars
  pub time_expression : Option Chars

pub record Source : Type 0 where
  pub id : ℕ
  pub name : Chars
  pub calc_expression : Option CalcExpression

pub record Gauge : Type 0 where
  pub id : ℕ
  pub name : Chars
  pub allow_negative_flow : Bool

-- The three dictionaries that `calculator` builds.
pub record Maps : Type 0 where
  pub name_to_gauge_id : List (Chars × ℕ)
  pub source_to_gauge : List (ℕ × ℕ)
  pub gauge_id_to_name : List (ℕ × Chars)

abbrev pub same_id : ℕ → ℕ → Bool
same_id i j = i == j

unfoldable pub ids_of_names : List (Chars × ℕ) → List Gauge → List (Chars × ℕ)
unfolding put_by
ids_of_names d [] = d
ids_of_names d (g ∷ gs) = ids_of_names (put_by eq_chars g.name g.id d) gs

unfoldable pub gauges_of_sources : List (ℕ × ℕ) → List GaugeSource → List (ℕ × ℕ)
unfolding put_by
gauges_of_sources d [] = d
gauges_of_sources d (l ∷ ls) = gauges_of_sources (put_by same_id l.source_id l.gauge_id d) ls

unfoldable pub names_of_ids : List (ℕ × Chars) → List (Chars × ℕ) → List (ℕ × Chars)
unfolding put_by
names_of_ids d [] = d
names_of_ids d ((name, i) ∷ rest) = names_of_ids (put_by same_id i name d) rest

abbrev pub maps_of : List Gauge → List GaugeSource → Maps
maps_of gauges links = record {
  name_to_gauge_id = ids_of_names [] gauges;
  source_to_gauge = gauges_of_sources [] links;
  gauge_id_to_name = names_of_ids [] (ids_of_names [] gauges);
}

-- `get_negative_flow_source_ids` of src/kayak/db/sources.py: the sources that are linked to a gauge
-- that may have a negative flow.
unfoldable pub get_negative_flow_source_ids : List Gauge → List GaugeSource → List ℕ
get_negative_flow_source_ids gauges links =
    map (λ l. l.source_id)
      (keep_if (λ l. any (λ g. l.gauge_id == g.id && g.allow_negative_flow) gauges) links)

-- `select(Source).where(Source.calc_expression_id.isnot(None))`
abbrev pub is_calculated : Option CalcExpression → Bool
is_calculated none = false
is_calculated (some e) = true

-- `name`, or the text that stands in for it.
abbrev pub or_else : Chars → Option Chars → Chars
or_else default none = default
or_else default (some name) = name

abbrev pub name_at : List (ℕ × Chars) → Option ℕ → Option Chars
name_at d none = none
name_at d (some i) = get_by same_id i d

-- `gauge_id_to_name.get(source_to_gauge.get(source.id, -1), default)`: no gauge has the id -1.
unfoldable pub gauge_name : Maps → Chars → Source → Chars
unfolding get_by
gauge_name m default s =
    or_else default (name_at m.gauge_id_to_name (get_by same_id s.id m.source_to_gauge))

-- The gauge that one part of a time expression names: "key::gauge::type" or "gauge::type".
abbrev pub ref_gauge : List Chars → Option Chars
ref_gauge (key ∷ gauge ∷ t ∷ []) = some gauge
ref_gauge (gauge ∷ t ∷ []) = some gauge
ref_gauge _ = none

abbrev pub and_dep : List Chars → Chars → Option Chars → List Chars → List Chars
and_dep calc_gauges own none deps = deps
and_dep calc_gauges own (some name) deps =
    if mem_chars name calc_gauges && not (eq_chars name own) then name ∷ deps else deps

unfoldable pub deps_of_refs : List Chars → Chars → List Chars → List Chars
unfolding split_by
deps_of_refs calc_gauges own [] = []
deps_of_refs calc_gauges own (r ∷ rs) =
    and_dep calc_gauges own (ref_gauge (split_by (codes "::") r)) (deps_of_refs calc_gauges own rs)

-- The time expression, when it is there and is not empty.
abbrev pub time_of : Option CalcExpression → Option Chars
time_of none = none
time_of (some c) = elim c.time_expression [
  | none ↦ none
  | some [] ↦ none
  | some (x ∷ xs) ↦ some (x ∷ xs)
]

abbrev pub deps_of_time : List Chars → Chars → Option Chars → List Chars
deps_of_time calc_gauges own none = []
deps_of_time calc_gauges own (some time) = deps_of_refs calc_gauges own (split_words time)

-- `_get_calc_deps`
unfoldable pub get_calc_deps : Maps → List Chars → Source → List Chars
unfolding gauge_name deps_of_refs split_words
get_calc_deps m calc_gauges s =
    deps_of_time calc_gauges (gauge_name m [] s) (time_of s.calc_expression)

-- `_topo_sort_calc_sources`; the error has the names of the sources that are left.
unfoldable pub topo_sort_calc_sources : Maps → List Source → Attempt (List Chars) (List Source)
unfolding get_calc_deps gauge_name topo_sort
topo_sort_calc_sources m sources =
    topo_sort (get_calc_deps m (map (gauge_name m []) sources)) (gauge_name m [])
      (λ s. gauge_name m s.name s) sources
