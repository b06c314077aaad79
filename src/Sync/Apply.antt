-- ===== src/Sync/Apply.antt =====
-- What `sync_metadata` of src/kayak/cli/sync_metadata.py runs on the database. SQLite is a parameter:
-- a statement gives a new database or an error, and a transaction that fails leaves the database as it
-- was. Printing, the busy timeout and the backup file are left out.
use kayak_python.Base.{
  ℕ, Bool, true, false, not, ◌&&◌, Option, none, some, List, [], ◌∷◌, ◌++◌, codes, keep_if,
  is_empty, map, length, leb, if◌then◌else◌,
}
use mathlib.Core.List.{reverse}
use kayak_python.Base.Chars.{Chars, mem_chars, leb_chars}
use kayak_python.Base.Sort.{sort}
use kayak_python.Base.Attempt.{Attempt, ok, raised, ◌>>=◌}
use kayak_python.Sync.Contract.{Manifest, gate_for_use}
use kayak_python.Sync.Rows.{Cell, ColumnInfo, ValueError, CsvFile, pk_names, is_column}
use kayak_python.Sync.Plan.{
  load_order, optional_columns, Schema, TablePlan, upsert_cols, compute_plan, delete_pks_of,
  has_deletes,
}

-- What follows the VALUES of an INSERT.
pub data OnConflict : Type 0 where
  replace : OnConflict
  do_nothing : List Chars → OnConflict
  do_update : List Chars → List Chars → OnConflict

pub data Statement (F : Type 0) : Type 0 where
  insert_many : Chars → List Chars → OnConflict → List (List (Option Chars)) → Statement F
  clear_column : Chars → Chars → Statement F
  delete_observations : List (Cell F) → Statement F
  delete_row : Chars → List Chars → List (Cell F) → Statement F

-- `sqlite3.Error` and `SyncError`.
pub data SyncFault : Type 0 where
  sql_error : SyncFault
  integrity_failed : SyncFault
  foreign_keys_violated : SyncFault

-- SQLite on databases `D`, with `foreign_keys=ON`.
pub record Engine (D F : Type 0) : Type 0 where
  pub schema : Schema D F
  pub execute : Statement F → D → Option D
  pub foreign_keys_on : D → Bool
  pub integrity_ok : D → Bool
  pub is_violated : D → Bool

pub record Args : Type 0 where
  pub allow_deletes : Bool
  pub allow_scaffold : Bool
  pub dry_run : Bool

-- The paths and the files of the dataset.
pub record Dataset : Type 0 where
  pub db_exists : Bool
  pub dir_exists : Bool
  pub manifest : Manifest
  pub file : Chars → Option CsvFile

-- `v if v != "" else None`
abbrev pub or_none : Chars → Option Chars
or_none [] = none
or_none (c ∷ cs) = some (c ∷ cs)

abbrev pub batch_size : ℕ
batch_size = 1000

-- The loop over the rows: a full batch is executed at once, the last one at the end.
unfoldable pub batches : List (List (Option Chars)) → CsvFile → List (List (List (Option Chars)))
batches batch [] = if is_empty batch then [] else batch ∷ []
batches batch (row ∷ rows) =
    let batch' = batch ++ map or_none row ∷ [] in
    elim (leb batch_size (length batch')) [
      | true ↦ batch' ∷ batches [] rows
      | false ↦ batches batch' rows
    ]

abbrev pub or_sql_error : {D : Type 0} → Option D → Attempt SyncFault D
or_sql_error none = raised sql_error
or_sql_error (some db) = ok db

module _ {D F : Type 0} (q : Engine D F) where
  abbrev pub info : Chars → List ColumnInfo
  info table = q.schema.table_info table

  -- `build_upsert_sql`
  unfoldable pub build_upsert_sql : Chars → List Chars → OnConflict
  build_upsert_sql table header =
      let update_cols = upsert_cols q.schema table header in
      if is_empty (pk_names (info table))
      then replace
      else if is_empty update_cols
      then do_nothing (pk_names (info table))
      else do_update (pk_names (info table)) update_cols

  -- `_reset_absent_optional_columns`
  unfoldable pub reset_absent_optional_columns : Chars → List Chars → List (Statement F)
  unfolding sort
  reset_absent_optional_columns table header =
      let absent = keep_if (λ c. not (mem_chars c header)) (optional_columns table) in
      map (clear_column table) (sort leb_chars (keep_if (is_column (info table)) absent))

  -- `import_table`
  unfoldable pub import_table : Chars → CsvFile → List (Statement F)
  unfolding build_upsert_sql batches reset_absent_optional_columns
  import_table table [] = []
  import_table table ([] ∷ rows) = []
  import_table table ((c ∷ cs) ∷ rows) =
      let header = c ∷ cs in
      map (insert_many table header (build_upsert_sql table header)) (batches [] rows)
      ++ reset_absent_optional_columns table header

  abbrev pub import_present : Chars → Option CsvFile → List (Statement F)
  import_present table none = []
  import_present table (some file) = import_table table file

  -- `upsert_csvs`
  unfoldable pub upsert_csvs : (Chars → Option CsvFile) → List Chars → List (Statement F)
  unfolding import_table
  upsert_csvs file [] = []
  upsert_csvs file (t ∷ ts) = import_present t (file t) ++ upsert_csvs file ts

  abbrev pub delete_rows : Chars → List (List (Cell F)) → List (Statement F)
  delete_rows table pks = map (delete_row table (pk_names (info table))) pks

  unfoldable pub delete_tables : List (TablePlan F) → List Chars → List (Statement F)
  unfolding delete_pks_of
  delete_tables plan [] = []
  delete_tables plan (t ∷ ts) = delete_rows t (delete_pks_of t plan) ++ delete_tables plan ts

  -- `pk[0]`
  abbrev pub first_cells : List (List (Cell F)) → List (Cell F)
  first_cells [] = []
  first_cells ([] ∷ pks) = first_cells pks
  first_cells ((c ∷ cs) ∷ pks) = c ∷ first_cells pks

  abbrev pub drop_observations : List (Cell F) → List (Statement F)
  drop_observations [] = []
  drop_observations (i ∷ ids) = delete_observations (i ∷ ids) ∷ []

  -- `apply_deletions`
  unfoldable pub apply_deletions : List (TablePlan F) → List (Statement F)
  unfolding delete_tables delete_pks_of
  apply_deletions plan =
      drop_observations (first_cells (delete_pks_of (codes "source") plan))
      ++ delete_tables plan (reverse load_order)

  -- The statements in order, up to the first error.
  unfoldable pub execute_all : List (Statement F) → D → Attempt SyncFault D
  execute_all [] db = ok db
  execute_all (s ∷ ss) db = or_sql_error (q.execute s db) >>= λ db'. execute_all ss db'

  -- `_audit_or_raise`
  unfoldable pub audit_or_raise : D → Attempt SyncFault D
  audit_or_raise db =
      if not (q.integrity_ok db)
      then raised integrity_failed
      else if q.is_violated db
      then raised foreign_keys_violated
      else ok db

  abbrev pub statements : (Chars → Option CsvFile) → List (TablePlan F) → List (Statement F)
  statements file plan =
      upsert_csvs file load_order ++ (if has_deletes plan then apply_deletions plan else [])

  -- `with conn`: the exit code, and the database that the transaction leaves.
  abbrev pub commit : D → Attempt SyncFault D → ℕ × D
  commit db (raised e) = (1, db)
  commit db (ok db') = (0, db')

  abbrev pub after_plan :
      Args → (Chars → Option CsvFile) → D → Attempt ValueError (List (TablePlan F)) → ℕ × D
  after_plan args file db (raised e) = (1, db)
  after_plan args file db (ok plan) =
      if args.dry_run
      then (0, db)
      else if has_deletes plan && not args.allow_deletes
      then (2, db)
      else commit db (execute_all (statements file plan) db >>= audit_or_raise)

  -- `sync_metadata`, with `_preflight`.
  unfoldable pub sync_metadata : Args → Dataset → D → ℕ × D
  sync_metadata args d db =
      if not (d.db_exists && d.dir_exists)
      then (1, db)
      else if not (is_empty (gate_for_use args.allow_scaffold d.manifest))
      then (1, db)
      else if not (q.foreign_keys_on db)
      then (1, db)
      else after_plan args d.file db (compute_plan q.schema db d.file)
