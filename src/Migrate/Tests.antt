-- ===== src/Migrate/Tests.antt =====
-- src/kayak/cli/migrate.py on a directory of two migrations, with the theorems applied.
use kayak_python.Base.{
  ℕ, suc, ◌≡◌, refl, Bool, true, ◌&&◌, some, List, [], ◌∷◌, codes, leb, if◌then◌else◌,
}
use kayak_python.Base.Attempt.{ok}
use kayak_python.Base.Sort.{sort}
use kayak_python.Base.Chars.{Chars, eq_chars, strip}
use kayak_python.Migrate.Manifest.{
  Row, Migration, Directory, version_prefix, manifest_migration, read_rows, discover_migrations,
}
use kayak_python.Migrate.Apply.{Engine, Database, versions, pending_migrations, apply_pending}
use kayak_python.Migrate.Discovered.{Discovered, discover_migrations-Discovered}
use kayak_python.Migrate.Resume.{Progress, apply_pending-Progress, Left, pending-apply_pending}

abbrev is_digit : ℕ → Bool
is_digit c = leb 48 c && leb c 57

-- Files are their own digests.
abbrev digest_of : Chars → Chars
digest_of t = t

abbrev first_sql : Chars
first_sql = codes "-- tables\nCREATE a;\nCREATE b;\n"

abbrev second_sql : Chars
second_sql = codes "DROP a;"

abbrev first : Migration
first = record { version = codes "0075"; filename = codes "0075_a.sql"; digest = first_sql }

abbrev second : Migration
second = record { version = codes "0076"; filename = codes "0076_b.sql"; digest = second_sql }

-- The same two with one letter for a text.
abbrev short_first : Migration
short_first = record { version = codes "0075"; filename = codes "0075_a.sql"; digest = codes "A" }

abbrev short_second : Migration
short_second = record { version = codes "0076"; filename = codes "0076_b.sql"; digest = codes "B" }

abbrev row_of : Migration → Row
row_of m = record { version = some m.version; filename = some m.filename; sha256 = some m.digest }

-- The manifest lists the later migration first.
abbrev directory : Directory
directory = record {
  is_dir = true;
  manifest = some (row_of short_second ∷ row_of short_first ∷ []);
  content = λ n. if eq_chars n (codes "0075_a.sql") then some (codes "A") else some (codes "B");
  sql_names = codes "0075_a.sql" ∷ codes "0076_b.sql" ∷ [];
}

two_found : discover_migrations is_digit digest_of directory ≡ ok (short_first ∷ short_second ∷ [])
unfolding discover_migrations read_rows manifest_migration version_prefix strip sort
two_found = refl

discover_migrations-Discovered_example :
    Discovered is_digit digest_of directory (short_first ∷ short_second ∷ [])
discover_migrations-Discovered_example =
    discover_migrations-Discovered is_digit digest_of directory (short_first ∷ short_second ∷ [])
      two_found

-- The engine counts the statements; the first number is what is committed.
abbrev engine : Engine (ℕ × ℕ)
engine = record {
  execute = λ mode stmt n. some (n.0, suc n.1);
  commit = λ n. (n.1, n.1);
  rollback = λ n. (n.0, n.0);
}

abbrev sql : Migration → Chars
sql m = if eq_chars m.version (codes "0075") then first_sql else second_sql

abbrev empty : Database (ℕ × ℕ)
empty = record { store = (0, 0); stamps = [] }

abbrev both : List Migration
both = first ∷ second ∷ []

apply_pending-Progress_example :
    Progress engine
      (pending_migrations (versions empty) both)
      empty
      (apply_pending engine sql both empty)
apply_pending-Progress_example = apply_pending-Progress engine sql both empty

pending-apply_pending_example :
    Left
      (apply_pending engine sql both empty).0
      (pending_migrations (versions (apply_pending engine sql both empty).1) both)
pending-apply_pending_example = pending-apply_pending engine sql both empty (refl, (refl, tt))
