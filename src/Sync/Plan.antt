-- ===== src/Sync/Plan.antt =====
-- `compute_plan` of src/kayak/db/metadata_csv.py: what a sync would insert, update and delete. Sets of
-- keys are lists.
use kayak_python.Base.{
  ℕ, Bool, true, false, not, ◌&&◌, ◌||◌, Option, none, some, List, [], ◌∷◌, codes, any, keep_if,
  is_empty, map, if◌then◌else◌,
}
use kayak_python.Base.Chars.{Chars, eq_chars, mem_chars}
use kayak_python.Base.Assoc.{get_by}
use kayak_python.Base.Attempt.{Attempt, ok, ◌>>=◌}
use kayak_python.Sync.Rows.{
  Cell, null, int, real, text, Numbers, ColumnInfo, ValueError, CsvFile, pk_names, is_column,
  eq_cell, eq_key, has_key, csv_rows_by_pk,
}

-- `LOAD_ORDER`
abbrev pub load_order : List Chars
load_order = map codes (
    "state" ∷ "class_description" ∷ "guidebook" ∷ "fetch_url" ∷ "calc_expression" ∷ "rating"
    ∷ "rating_data" ∷ "source" ∷ "gauge" ∷ "gauge_source" ∷ "reach" ∷ "reach_state" ∷ "reach_class"
    ∷ "reach_guidebook" ∷ "huc_name" ∷ [])

-- `layout.optional_columns`
abbrev pub optional_columns : Chars → List Chars
optional_columns table =
    if eq_chars table (codes "fetch_url")
    then codes "unknown_station_policy" ∷ []
    else if eq_chars table (codes "guidebook")
    then codes "short_label" ∷ []
    else []

-- A row of the database, and what SQLite answers about a database `D`; `decimal_scale` is the scale of
-- a column of fixed precision in `layout.column_specs`.
pub record Schema (D F : Type 0) : Type 0 where
  pub numbers : Numbers F
  pub table_info : Chars → List ColumnInfo
  pub select : D → Chars → List (Chars → Cell F)
  pub decimal_scale : Chars → Chars → Option ℕ

-- The part of the plan about one table.
pub record TablePlan (F : Type 0) : Type 0 where
  pub table : Chars
  pub insert_pks : List (List (Cell F))
  pub update_pks : List (List (Cell F))
  pub delete_pks : List (List (Cell F))

abbrev pub later_row :
    {F : Type 0} → Bool → (Chars → Cell F) → Option (Chars → Cell F) → Option (Chars → Cell F)
later_row same row none = if same then some row else none
later_row same row (some later) = some later

-- `csv_row[c]`, where `c` is in the header.
abbrev pub or_null : {F : Type 0} → Option (Cell F) → Cell F
or_null none = null
or_null (some v) = v

abbrev pub is_null : {F : Type 0} → Cell F → Bool
is_null null = true
is_null (int i) = false
is_null (real f) = false
is_null (text t) = false

module _ {D F : Type 0} (s : Schema D F) where
  abbrev pub Key : Type 0
  Key = List (Cell F)

  abbrev pub key_of : Chars → (Chars → Cell F) → List (Cell F)
  key_of table row = map row (pk_names (s.table_info table))

  -- `db_pks`
  unfoldable pub db_pks : D → Chars → List (List (Cell F))
  db_pks db table =
      if is_empty (pk_names (s.table_info table))
      then []
      else map (key_of table) (s.select db table)

  -- `_db_rows_by_pk(...).get(key)`; a later row of one key replaces an earlier one.
  unfoldable pub db_row : Chars → List (Cell F) → List (Chars → Cell F) → Option (Chars → Cell F)
  unfolding eq_key
  db_row table key [] = none
  db_row table key (row ∷ rows) =
      later_row (eq_key s.numbers (key_of table row) key) row (db_row table key rows)

  -- `_sync_values_equal`
  abbrev pub or_equal : Cell F → Cell F → Option Bool → Bool
  or_equal a b none = eq_cell s.numbers a b
  or_equal a b (some e) = e

  abbrev pub scaled_equal : Cell F → Cell F → Option ℕ → Bool
  scaled_equal a b none = eq_cell s.numbers a b
  scaled_equal a b (some scale) = or_equal a b (s.numbers.quantized_equal scale a b)

  unfoldable pub sync_values_equal : Cell F → Cell F → Option ℕ → Bool
  unfolding eq_cell
  sync_values_equal null null scale = true
  sync_values_equal null b scale = false
  sync_values_equal a null scale = false
  sync_values_equal a b scale = scaled_equal a b scale

  abbrev pub differs : Chars → List (Chars × Cell F) → (Chars → Cell F) → Chars → Bool
  differs table csv_row row c =
      not
        (sync_values_equal (or_null (get_by eq_chars c csv_row)) (row c) (s.decimal_scale table c))

  -- A key of both whose row in the database is not what the file says, in the columns of the file.
  abbrev pub is_changed :
      Chars → List Chars → Option (List (Chars × Cell F)) → Option (Chars → Cell F) → Bool
  is_changed table upsert_cols (some csv_row) (some row) =
      any (differs table csv_row row) upsert_cols
  is_changed table upsert_cols _ _ = false

  -- A row that has a value in an optional column that the file leaves out.
  abbrev pub is_reset : List Chars → Option (Chars → Cell F) → Bool
  is_reset reset_cols none = false
  is_reset reset_cols (some row) = any (λ c. not (is_null (row c))) reset_cols

  abbrev pub upsert_cols : Chars → List Chars → List Chars
  upsert_cols table header = keep_if (λ c. not (mem_chars c (pk_names (s.table_info table)))) header

  abbrev pub reset_cols : Chars → List Chars → List Chars
  reset_cols table header =
      keep_if
        (λ c.
          not (mem_chars c header)
          && (is_column (s.table_info table) c
              && not (mem_chars c (pk_names (s.table_info table)))))
        (optional_columns table)

  -- `_update_pks`
  unfoldable pub update_pks :
      D
      → Chars
      → List Chars
      → List (List (Cell F) × List (Chars × Cell F))
      → List (List (Cell F))
      → List (List (Cell F))
  unfolding db_row sync_values_equal get_by
  update_pks db table header csv_rows shared_pks =
      let rows = s.select db table in
      keep_if
        (λ k.
          is_changed table (upsert_cols table header) (get_by (eq_key s.numbers) k csv_rows)
            (db_row table k rows)
          || is_reset (reset_cols table header) (db_row table k rows))
        shared_pks

  abbrev pub keys_of : List (List (Cell F) × List (Chars × Cell F)) → List (List (Cell F))
  keys_of csv_rows = map (λ e. e.0) csv_rows

  abbrev pub plan_rows :
      D → Chars → List Chars × List (List (Cell F) × List (Chars × Cell F)) → TablePlan F
  plan_rows db table (header, csv_rows) =
      let cpks = keys_of csv_rows in
      let dpks = db_pks db table in
      record {
        table = table;
        insert_pks = keep_if (λ k. not (has_key s.numbers dpks k)) cpks;
        update_pks = update_pks db table header csv_rows (keep_if (has_key s.numbers dpks) cpks);
        delete_pks = keep_if (λ k. not (has_key s.numbers cpks k)) dpks;
      }

  abbrev pub plan_table : D → Chars → CsvFile → Attempt ValueError (TablePlan F)
  plan_table db table file =
      csv_rows_by_pk s.numbers table (s.table_info table) file >>= λ r. ok (plan_rows db table r)

  abbrev pub plan_next :
      D
      → Chars
      → Option CsvFile
      → Attempt ValueError (List (TablePlan F))
      → Attempt ValueError (List (TablePlan F))
  plan_next db table none rest = rest
  plan_next db table (some file) rest = plan_table db table file >>= λ p. rest >>= λ ps. ok (p ∷ ps)

  unfoldable pub plan_tables :
      D → (Chars → Option CsvFile) → List Chars → Attempt ValueError (List (TablePlan F))
  unfolding csv_rows_by_pk db_pks update_pks eq_key
  plan_tables db in_dir [] = ok []
  plan_tables db in_dir (t ∷ ts) = plan_next db t (in_dir t) (plan_tables db in_dir ts)

  -- `compute_plan`, without the count of the observations that a deletion drops.
  unfoldable pub compute_plan :
      D → (Chars → Option CsvFile) → Attempt ValueError (List (TablePlan F))
  unfolding plan_tables
  compute_plan db in_dir = plan_tables db in_dir load_order

-- `plan.delete_pks.get(table)`, which is empty where there is nothing to delete.
unfoldable pub delete_pks_of : {F : Type 0} → Chars → List (TablePlan F) → List (List (Cell F))
delete_pks_of table [] = []
delete_pks_of table (p ∷ ps) =
    if eq_chars p.table table then p.delete_pks else delete_pks_of table ps

-- `has_deletes`
abbrev pub has_deletes : {F : Type 0} → List (TablePlan F) → Bool
has_deletes plan = any (λ p. not (is_empty p.delete_pks)) plan
