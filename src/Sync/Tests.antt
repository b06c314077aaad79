-- ===== src/Sync/Tests.antt =====
-- `levels sync-metadata` on a database of one table, with the theorems applied.
use kayak_python.Base.{
  ◌≡◌, refl, sym, ap, subst, true, false, Option, none, some, List, [], ◌∷◌, String, codes, map,
  all, keep_if, is_empty, All, if◌then◌else◌, arith,
}
use kayak_python.Base.Int.{ℤ, pos, negsuc}
use kayak_python.Base.Chars.{
  Chars, eq_chars, eq_chars_sym, eq_chars→≡, contains, strip, lstrip, rstrip, is_space,
}
use kayak_python.Base.Sort.{sort, insert_sorted}
use kayak_python.Base.Assoc.{get_by, put_by}
use kayak_python.Base.Attempt.{ok}
use kayak_python.Validate.Counters.{eq_int}
use kayak_python.Validate.Ints.{digits_value}
use kayak_python.Sync.Contract.{
  text, int, Key, Manifest, mapping, get, validate_dataset_meta, contract_problems, gate_for_use,
}
use kayak_python.Sync.Usable.{is_usable, gate_for_use-is_usable}
use kayak_python.Sync.Rows.{
  Cell, Numbers, ColumnInfo, CsvFile, pk_cols, type_of, row_get, eq_cell, eq_key, cast_sqlite_cell,
  cast_cells, read_rows, csv_rows_by_pk,
}
use kayak_python.Sync.Plan.{
  load_order, TablePlan, db_pks, db_row, sync_values_equal, update_pks, plan_tables, compute_plan,
}
use kayak_python.Sync.Exact.{IsEquality, IsExact, is_present, compute_plan-Exact}
use kayak_python.Sync.Apply.{
  Statement, insert_many, Engine, Args, Dataset, batches, build_upsert_sql,
  reset_absent_optional_columns, import_table, upsert_csvs, execute_all, audit_or_raise, statements,
  sync_metadata,
}
use kayak_python.Sync.Outcome.{Ran, Ends, is_upsert, sync_metadata-Ends}
use kayak_python.Sync.Kept.{HasKey, IsCovered, sync_metadata-keeps_rows}

abbrev key : String → Key
key s = record { is_text = true; shown = codes s }

abbrev commit_text : Chars
commit_text = codes "0123456789abcdef0123456789abcdef01234567"

abbrev manifest : String → Manifest
manifest status = mapping (
    (key "contract_version", int (pos 1))
    ∷ (key "dataset_id", text (codes "oregon"))
    ∷ (key "name", text (codes "Oregon"))
    ∷ (key "license", text (codes "CC0"))
    ∷ (key "status", text (codes status))
    ∷ (key "engine_test_ref", text commit_text)
    ∷ [])

scaffold_gate : is_empty (gate_for_use false (manifest "scaffold")) ≡ false
unfolding gate_for_use contract_problems validate_dataset_meta get strip lstrip rstrip is_space sort
scaffold_gate = refl

gate_for_use-is_usable_example :
    is_empty (gate_for_use true (manifest "scaffold")) ≡ is_usable true (manifest "scaffold")
gate_for_use-is_usable_example = gate_for_use-is_usable true (manifest "scaffold")

-- Digits only, and no numbers with a fraction.
abbrev numbers : Numbers (Unit {0})
numbers = record {
  to_int = λ s. some (pos (digits_value 0 s));
  to_real = λ s. none;
  eq_real = λ f g. true;
  eq_int_real = λ i f. false;
  quantized_equal = λ n a b. none;
}

eq_int_sym : (i j : ℤ) → eq_int i j ≡ eq_int j i
eq_int_sym (pos m) (pos n) = ground arith
eq_int_sym (pos m) (negsuc n) = refl
eq_int_sym (negsuc m) (pos n) = refl
eq_int_sym (negsuc m) (negsuc n) = ground arith

eq_int_trans : (i j k : ℤ) → eq_int i j ≡ true → eq_int j k ≡ true → eq_int i k ≡ true
eq_int_trans i j k h g = ground arith

cell_sym : (a b : Cell (Unit {0})) → eq_cell numbers a b ≡ eq_cell numbers b a
unfolding eq_cell
cell_sym (Cell.int i) (Cell.int j) = eq_int_sym i j
cell_sym (Cell.text s) (Cell.text t) = eq_chars_sym s t
cell_sym Cell.null Cell.null = refl
cell_sym Cell.null (Cell.int j) = refl
cell_sym _ _ = ground arith

cell_trans :
    (a b c : Cell (Unit {0}))
    → eq_cell numbers a b ≡ true
    → eq_cell numbers b c ≡ true
    → eq_cell numbers a c ≡ true
unfolding eq_cell
cell_trans (Cell.int i) (Cell.int j) (Cell.int k) h g = eq_int_trans i j k h g
cell_trans (Cell.text s) (Cell.text t) (Cell.text u) h g =
    subst (λ x. eq_chars x u ≡ true) (sym (eq_chars→≡ s t h)) g
cell_trans _ _ _ h g = ground arith

equality : IsEquality numbers
equality = record { eq_sym = cell_sym; eq_trans = cell_trans }

-- The rows of the table `state`: the id as its digits, and the name.
abbrev States : Type 0
States = List (Chars × Chars)

abbrev store_rows : List (List (Option Chars)) → States → States
store_rows [] db = db
store_rows ((some i ∷ (some s ∷ [])) ∷ rows) db = store_rows rows (put_by eq_chars i s db)
store_rows (_ ∷ rows) db = store_rows rows db

abbrev run_statement : Statement (Unit {0}) → States → Option States
run_statement (insert_many t h c rows) db = some (store_rows rows db)
run_statement _ db = some db

abbrev columns : Chars → List ColumnInfo
columns t =
    if eq_chars t (codes "state")
    then record { name = codes "id"; decl_type = codes "INTEGER"; pk = 1 }
      ∷ record { name = codes "name"; decl_type = codes "VARCHAR(64)"; pk = 0 }
      ∷ []
    else record { name = codes "id"; decl_type = codes "INTEGER"; pk = 1 } ∷ []

abbrev cells_of : Chars × Chars → Chars → Cell (Unit {0})
cells_of (i, s) c =
    if eq_chars c (codes "id")
    then Cell.int (pos (digits_value 0 i))
    else if eq_chars c (codes "name")
    then Cell.text s
    else Cell.null

abbrev engine : Engine States (Unit {0})
engine = record {
  schema = record {
    numbers = numbers;
    table_info = columns;
    select = λ db t. if eq_chars t (codes "state") then map cells_of db else [];
    decimal_scale = λ t c. none;
  };
  execute = run_statement;
  foreign_keys_on = λ db. true;
  integrity_ok = λ db. true;
  is_violated = λ db. false;
}

abbrev states : States
states = (codes "1", codes "Oregn") ∷ []

abbrev state_csv : CsvFile
state_csv =
    (codes "id" ∷ codes "name" ∷ [])
    ∷ (codes "1" ∷ codes "Oregon" ∷ [])
    ∷ (codes "2" ∷ codes "Idaho" ∷ [])
    ∷ []

abbrev dataset : Dataset
dataset = record {
  db_exists = true;
  dir_exists = true;
  manifest = manifest "publishable";
  file = λ t. if eq_chars t (codes "state") then some state_csv else none;
}

abbrev state_plan : List (TablePlan (Unit {0}))
state_plan =
    record {
      table = codes "state";
      insert_pks = (Cell.int (pos 2) ∷ []) ∷ [];
      update_pks = (Cell.int (pos 1) ∷ []) ∷ [];
      delete_pks = [];
    }
    ∷ []

planned : compute_plan engine.schema states dataset.file ≡ ok state_plan
unfolding compute_plan plan_tables csv_rows_by_pk read_rows cast_cells cast_sqlite_cell row_get
    type_of pk_cols put_by eq_key eq_cell db_pks db_row sync_values_equal update_pks get_by sort
    insert_sorted contains strip lstrip rstrip is_space
planned = refl

compute_plan-Exact_example :
    All (IsExact engine.schema equality states dataset.file) state_plan
    × (map (λ p. p.table) state_plan
        ≡ keep_if
            (λ t. is_present engine.schema equality states dataset.file (dataset.file t))
            load_order)
compute_plan-Exact_example =
    compute_plan-Exact engine.schema equality states dataset.file state_plan planned

abbrev careful : Args
careful = record { allow_deletes = false; allow_scaffold = false; dry_run = false }

synced :
    sync_metadata engine careful dataset states
    ≡ (0, (codes "1", codes "Oregon") ∷ (codes "2", codes "Idaho") ∷ [])
unfolding sync_metadata gate_for_use contract_problems validate_dataset_meta get compute_plan
    plan_tables csv_rows_by_pk read_rows cast_cells cast_sqlite_cell row_get type_of pk_cols put_by
    eq_key eq_cell db_pks db_row sync_values_equal update_pks get_by sort insert_sorted contains
    strip lstrip rstrip is_space execute_all audit_or_raise upsert_csvs import_table batches
    build_upsert_sql reset_absent_optional_columns
synced = refl

sync_metadata-Ends_example :
    Ends engine careful dataset states (sync_metadata engine careful dataset states)
sync_metadata-Ends_example = sync_metadata-Ends engine careful dataset states

has_keys : All (HasKey engine) load_order
unfolding pk_cols sort insert_sorted
has_keys = (
  refl,
  (
    refl,
    (
      refl,
      (
        refl,
        (refl, (refl, (refl, (refl, (refl, (refl, (refl, (refl, (refl, (refl, (refl, tt))))))))))),
      ),
    ),
  ),
)

sync_metadata-keeps_rows_example :
    (plan : List (TablePlan (Unit {0}))) × (compute_plan engine.schema states dataset.file
      ≡ ok plan)
    × All (IsCovered engine equality states dataset) plan
    × (map (λ p. p.table) plan
        ≡ keep_if
            (λ t. is_present engine.schema equality states dataset.file (dataset.file t))
            load_order)
    × (all (is_upsert engine) (statements engine dataset.file plan) ≡ true)
    × Ran engine
        (statements engine dataset.file plan)
        states
        (sync_metadata engine careful dataset states).1
sync_metadata-keeps_rows_example =
    sync_metadata-keeps_rows engine equality states dataset careful has_keys refl refl
      (ap (λ r. r.0) synced)
