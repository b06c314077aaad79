-- ===== src/Lib.antt =====
-- Kayak: river levels from public gauges. This library models parts of the Python package under
-- src/kayak, which an hourly run and an editor bridge drive.
--
-- Parts, and the files that model them:
--   * src/kayak/cli/pipeline.py (Pipeline.antt): the hourly run. `_build_steps` gives a list of
--     steps; `pipeline` runs them in order, skips a step when a requirement failed or was skipped,
--     and turns each return value or exception into a result. A step is a function on a type of
--     worlds, so the commands that it calls are parameters (`Commands`).
--   * src/kayak/editor_bridge/dataset_patch.py (EditorBridge/Patch): `apply_change` writes one
--     endorsed diff into reach.csv or gauge.csv. A file is the list of its code points, the dataset
--     a dictionary of files, an exception a value of `Raised`. `csv.reader` (records with
--     `line_num`) and `csv.writer` are parameters.
--   * src/kayak/editor_bridge/worker.py (EditorBridge/Worker): `run_once`, `reconcile`,
--     `mark_deployed` and `requeue` on the tables `change_request_bridge` and `change_request` of
--     src/kayak/db/models.py. The tables are lists, passed on explicitly; git, GitHub, the clock,
--     JSON decoding and SHA-256 are the fields of `Services`. The worker calls `apply_change` of
--     EditorBridge/Patch on what `clone` gave.
--   * src/kayak/cli/migrate.py (Migrate): the manifest of the migrations, the splitting of their
--     text into statements, and `apply_pending` on a database whose engine is a parameter, with what its
--     transactions commit and roll back.
--   * src/kayak/db/observations.py (Observations): `store_observation` and `store_observations` on
--     the table `observation`; a value (`float`) and a moment (`datetime`) are of abstract types
--     with the tests that the code makes (`Kinds`).
--   * src/kayak/utils/pubhash.py (Pubhash.antt): `encode` and `decode` of the handles in URLs.
--   * src/kayak/db/cache.py (Cache): the cache tables of the latest readings, refreshed from the
--     table `observation` for one source or gauge, and the SQL that rebuilds the gauge cache at once,
--     whose `julianday` is a parameter.
--   * src/kayak/cli/calculator.py (Calculator): the readings that are computed from the cache of
--     other gauges: the sort of the calculated sources, the refs and their placeholders, the
--     evaluator on the tree that `ast.parse` gives, and the run, which stores into Observations and
--     refreshes Cache. Python's numbers and `ast.parse` are parameters.
--   * src/kayak/cli/validate_dataset.py (Validate): the checks of a dataset before its import: the
--     regression reports (slugs, links between reports, orphans), the integer cells, the retired ids
--     and the id counters. A directory is a list of files with their texts; the gate on the texts of
--     reports, the list of the tables with ids, the CSV rows and the decoded YAML are parameters. Ids
--     are the integers of Base.Int, and the range of 64 bits is written out.
--   * src/kayak/cli/decimate.py (Decimate): old observations are thinned to one for each hour or six
--     hours, on the tables of Observations and Cache, whose refresh it calls. The DELETE statements
--     are row numbers over lists; the order in which SQLite lists ties is a parameter.
--   * src/kayak/cli/sync_metadata.py, src/kayak/db/metadata_csv.py and src/kayak/dataset/contract.py
--     (Sync): the gate on the manifest, the plan that compares the CSV files with the tables, and the
--     transaction that applies it. A file is its records, a row a function from columns to cells, and
--     SQLite (`Engine`) a function from a statement and a database to a database or an error.
--   * src/kayak/utils/simplify.py (Geometry): `simplify`, the points of a line that Douglas and Peucker
--     keep. The arithmetic of floats (`Floats`) is a parameter.
-- Base holds what they share: tests, lists, texts, dictionaries, sorting and Python's `str` methods.
--
-- Numbers are natural numbers without a bound, as Python's integers that are not negative. Times
-- are in seconds, and in Observations, Cache, Calculator and Decimate in microseconds. `decimal` and `encode`
-- run on fuel, which is no less than the number itself and so enough for its digits; the rounds of
-- the calculator's sort are bounded as in the source, by one more than the number of sources, and
-- the bound is proved never to be met; the walk over the links of the regression reports runs on as
-- many rounds as there are slugs and links, which is proved enough; `simplify` runs on twice
-- as many rounds as there are points, proved enough for an epsilon that is not negative; all other loops are structural, over the list that the source
-- walks. SQL texts compare as moments, but where the bulk rebuild compares a stored moment with the
-- result of `datetime`, which has no fraction.
--
-- Not modelled: printing and logging, the command lines, the mail of `_notify_proposer_deployed`
-- (a parameter), the minting of tokens, `regenerate_manifest`, the queries and rating tables of
-- src/kayak/db/observations.py; the other checks of validate_dataset (gradient profiles, names,
-- decimals, dates, references); fetching, parsers, the rating tables, the site builder, the PHP front
-- end and the deployment, which do not bear on these parts.
pub mod Base
pub mod Cache
pub mod Calculator
pub mod Decimate
pub mod Pipeline
pub mod Pubhash
pub mod Sync
pub mod Validate
pub mod EditorBridge
pub mod Geometry
pub mod Migrate
pub mod Observations
