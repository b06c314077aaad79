-- ===== src/Migrate/Apply.antt =====
-- `pending_migrations` and `apply_pending` of src/kayak/cli/migrate.py on a database whose engine
-- is a parameter. `S` is what is committed and what is pending on the connection.
use kayak_python.Base.{
  Bool, true, false, not, Option, none, some, List, [], ◌∷◌, ◌++◌, if◌then◌else◌, map, keep_if,
}
use kayak_python.Base.Chars.{mem_chars, Chars}
use kayak_python.Migrate.Manifest.{Migration}
use kayak_python.Migrate.Statements.{wants_no_transaction, split_statements}

-- A row of `schema_migrations`; the time of the run is left out.
pub record Stamp : Type 0 where
  pub version : Chars
  pub digest : Option Chars

pub record Database {ℓ} (S : Type ℓ) : Type ℓ where
  pub store : S
  pub stamps : List Stamp

abbrev pub versions {ℓ} : {S : Type ℓ} → Database S → List Chars
versions db = map (λ s. s.version) db.stamps

abbrev pub is_pending : List Chars → Migration → Bool
is_pending applied m = not (mem_chars m.version applied)

-- `pending_migrations`
unfoldable pub pending_migrations : List Chars → List Migration → List Migration
pending_migrations applied discovered = keep_if (is_pending applied) discovered

-- `stamp`: INSERT OR IGNORE
unfoldable pub stamp {ℓ} : {S : Type ℓ} → Chars → Option Chars → Database S → Database S
stamp version digest db =
    if mem_chars version (versions db)
    then db
    else record db { stamps = db.stamps ++ record { version = version; digest = digest } ∷ [] }

-- `stamp_all_known`: the versions that were there at the start are passed over.
unfoldable pub stamp_all {ℓ} : {S : Type ℓ} → List Chars → List Migration → Database S → Database S
unfolding stamp
stamp_all already [] db = db
stamp_all already (m ∷ ms) db =
    stamp_all already ms
      (if mem_chars m.version already then db else stamp m.version (some m.digest) db)

-- How a run of statements went, with the store that it leaves.
pub data Ran {ℓ} (S : Type ℓ) : Type ℓ where
  all_ran : S → Ran S
  error_after : S → Ran S

-- How `apply_pending` ends: with the versions that ran, or by an exception at a migration.
pub data Ending : Type 0 where
  finished : List Chars → Ending
  stopped_at : Migration → Ending

abbrev pub and_ran : Chars → Ending → Ending
and_ran v (finished vs) = finished (v ∷ vs)
and_ran v (stopped_at m) = stopped_at m

-- The connection of `engine.begin()`, where pysqlite opens a transaction by itself before some
-- statements and not before others, and the one with `isolation_level = None`.
pub data Mode : Type 0 where
  implicit_begin autocommit : Mode

-- One statement, where `none` is an SQL error; `commit`, and `rollback`, which undoes what is pending
-- and not what is committed.
pub record Engine {ℓ} (S : Type ℓ) : Type ℓ where
  pub execute : Mode → Chars → S → Option S
  pub commit : S → S
  pub rollback : S → S

unfoldable pub execute_all {ℓ} : {S : Type ℓ} → (Chars → S → Option S) → List Chars → S → Ran S
execute_all execute [] s = all_ran s
execute_all execute (stmt ∷ stmts) s = elim (execute stmt s) [
  | none ↦ error_after s
  | some s' ↦ execute_all execute stmts s'
]

abbrev pub mode_of : Chars → Mode
mode_of sql = if wants_no_transaction sql then autocommit else implicit_begin

module _ {ℓ} {S : Type ℓ} (q : Engine S) where
  -- INSERT INTO schema_migrations; the version is the primary key.
  unfoldable pub record_version : Migration → Database S → Option (Database S)
  record_version m db =
      if mem_chars m.version (versions db)
      then none
      else some (record db {
        stamps = db.stamps ++ record { version = m.version; digest = some m.digest } ∷ [];
      })

  -- One migration: whether it was recorded, and the database after it. Where `engine.begin()` holds the
  -- statements, the version is recorded before the commit, and an error rolls back.
  abbrev pub after_transaction : Migration → Database S → Ran S → Bool × Database S
  after_transaction m db (error_after s) = (false, record db { store = q.rollback s })
  after_transaction m db (all_ran s) = elim (record_version m (record db { store = q.commit s })) [
    | none ↦ (false, record db { store = q.rollback s })
    | some db' ↦ (true, db')
  ]

  -- The raw connection is rolled back when it is closed, and the version is recorded after the commit.
  abbrev pub after_autocommit : Migration → Database S → Ran S → Bool × Database S
  after_autocommit m db (error_after s) = (false, record db { store = q.rollback s })
  after_autocommit m db (all_ran s) = elim (record_version m (record db { store = q.commit s })) [
    | none ↦ (false, record db { store = q.commit s })
    | some db' ↦ (true, db')
  ]

  -- The body of the loop of `apply_pending`, on the text of the migration.
  unfoldable pub apply_one : (Migration → Chars) → Migration → Database S → Bool × Database S
  unfolding execute_all record_version
  apply_one sql m db = elim (split_statements (sql m)) [
    | none ↦ (false, db)
    | some statements ↦
        let ran = execute_all (q.execute (mode_of (sql m))) statements db.store in
        if wants_no_transaction (sql m)
        then after_autocommit m db ran
        else after_transaction m db ran
  ]

  -- The loop over the pending migrations.
  unfoldable pub apply_list :
      (Migration → Chars) → List Migration → Database S → Ending × Database S
  apply_list sql [] db = (finished [], db)
  apply_list sql (m ∷ ms) db =
      let (recorded, db') = apply_one sql m db in
      elim recorded [
        | false ↦ (stopped_at m, db')
        | true ↦ let (ending, db'') = apply_list sql ms db' in (and_ran m.version ending, db'')
      ]

  -- `apply_pending`, over the discovered migrations
  unfoldable pub apply_pending :
      (Migration → Chars) → List Migration → Database S → Ending × Database S
  unfolding apply_list pending_migrations
  apply_pending sql discovered db = apply_list sql (pending_migrations (versions db) discovered) db
