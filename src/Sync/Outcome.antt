-- ===== src/Sync/Outcome.antt =====
-- How `sync_metadata` of src/kayak/cli/sync_metadata.py may end.
use kayak_python.Base.{
  ℕ, ◌≡◌, refl, sym, ◌∙◌, subst, Bool, true, false, not, ◌&&◌, Option, none, some, List, [], ◌∷◌,
  is_empty, if◌then◌else◌, Bool-cases, inl, inr, arith,
}
use kayak_python.Base.Attempt.{Attempt, ok, raised, ◌>>=◌, bind-ok}
use kayak_python.Sync.Contract.{gate_for_use}
use kayak_python.Sync.Usable.{is_usable, gate_for_use-is_usable}
use kayak_python.Sync.Rows.{ValueError}
use kayak_python.Sync.Plan.{TablePlan, compute_plan, has_deletes}
use kayak_python.Sync.Apply.{
  Statement, replace, do_nothing, do_update, insert_many, clear_column, delete_observations,
  delete_row, SyncFault, Engine, Args, Dataset, or_sql_error, execute_all, audit_or_raise,
  statements, commit, after_plan, sync_metadata,
}

if_true : {A : Type 0} (b : Bool) (x y : A) → b ≡ true → (if b then x else y) ≡ x
if_true b x y h = rw h refl

if_false : {A : Type 0} (b : Bool) (x y : A) → b ≡ false → (if b then x else y) ≡ y
if_false b x y h = rw h refl

module _ {D F : Type 0} (q : Engine D F) where
  -- The statements ran one after the other.
  pub data Ran : List (Statement F) → D → D → Type 0 where
    ran_all : (db : D) → Ran [] db db
    ran :
        (s : Statement F) (ss : List (Statement F)) (db mid last : D)
        → q.execute s db ≡ some mid
        → Ran ss mid last
        → Ran (s ∷ ss) db last

  -- Why a run ends with exit code 1.
  pub data Aborted (args : Args) (d : Dataset) (db : D) : Type 0 where
    no_path : (d.db_exists && d.dir_exists) ≡ false → Aborted args d db
    not_usable : is_usable args.allow_scaffold d.manifest ≡ false → Aborted args d db
    no_foreign_keys : q.foreign_keys_on db ≡ false → Aborted args d db
    no_plan : (e : ValueError) → compute_plan q.schema db d.file ≡ raised e → Aborted args d db
    rolled_back :
        (e : SyncFault) (plan : List (TablePlan F))
        → compute_plan q.schema db d.file ≡ ok plan
        → (execute_all q (statements q d.file plan) db >>= audit_or_raise q) ≡ raised e
        → Aborted args d db

  -- The exit code of a run, with the database that it leaves.
  pub data Ends (args : Args) (d : Dataset) (db : D) : ℕ × D → Type 0 where
    aborted : Aborted args d db → Ends args d db (1, db)
    dry :
        (plan : List (TablePlan F))
        → compute_plan q.schema db d.file ≡ ok plan
        → args.dry_run ≡ true
        → Ends args d db (0, db)
    refused :
        (plan : List (TablePlan F))
        → compute_plan q.schema db d.file ≡ ok plan
        → has_deletes plan ≡ true
        → args.allow_deletes ≡ false
        → Ends args d db (2, db)
    applied :
        (plan : List (TablePlan F)) (db' : D)
        → compute_plan q.schema db d.file ≡ ok plan
        → is_usable args.allow_scaffold d.manifest ≡ true
        → args.dry_run ≡ false
        → (has_deletes plan && not args.allow_deletes) ≡ false
        → Ran (statements q d.file plan) db db'
        → q.integrity_ok db' ≡ true
        → q.is_violated db' ≡ false
        → Ends args d db (0, db')

  execute_all-Ran :
      (ss : List (Statement F)) (db db' : D) → execute_all q ss db ≡ ok db' → Ran ss db db'
  unfolding execute_all
  execute_all-Ran [] db db' h = let e : db ≡ db' = cc in subst (Ran [] db) e (ran_all db)
  execute_all-Ran (s ∷ ss) db db' h =
      let (mid, e, rest) = bind-ok (or_sql_error (q.execute s db)) _ h in
      ran s ss db mid db' (executed (q.execute s db) mid e) (execute_all-Ran ss mid db' rest)
    where
      executed : (r : Option D) (mid : D) → or_sql_error r ≡ ok mid → r ≡ some mid
      executed none mid e = cc
      executed (some x) mid e = cc

  audit-clean :
      (db db' : D)
      → audit_or_raise q db ≡ ok db'
      → (db ≡ db') × (q.integrity_ok db ≡ true) × (q.is_violated db ≡ false)
  unfolding audit_or_raise
  audit-clean db db' h = ground (arith, h)

  committed-Ends :
      (args : Args) (d : Dataset) (db : D) (plan : List (TablePlan F))
      → compute_plan q.schema db d.file ≡ ok plan
      → is_usable args.allow_scaffold d.manifest ≡ true
      → args.dry_run ≡ false
      → (has_deletes plan && not args.allow_deletes) ≡ false
      → (m : Attempt SyncFault D)
      → (execute_all q (statements q d.file plan) db >>= audit_or_raise q) ≡ m
      → Ends args d db (commit q db m)
  committed-Ends args d db plan p u y a (raised e) h = aborted (rolled_back e plan p h)
  committed-Ends args d db plan p u y a (ok db') h =
      let (mid, run, audit) = bind-ok (execute_all q (statements q d.file plan) db) _ h in
      let (same, whole, clean) = audit-clean mid db' audit in
      applied plan db' p u y a
        (execute_all-Ran (statements q d.file plan) db db'
          (subst (λ x. execute_all q (statements q d.file plan) db ≡ ok x) same run))
        (subst (λ x. q.integrity_ok x ≡ true) same whole)
        (subst (λ x. q.is_violated x ≡ false) same clean)

  after_plan-Ends :
      (args : Args) (d : Dataset) (db : D)
      → is_usable args.allow_scaffold d.manifest ≡ true
      → (m : Attempt ValueError (List (TablePlan F))) → compute_plan q.schema db d.file ≡ m
      → Ends args d db (after_plan q args d.file db m)
  after_plan-Ends args d db u (raised e) p = aborted (no_plan e p)
  after_plan-Ends args d db u (ok plan) p = elim (Bool-cases args.dry_run) [
    | inl y ↦ subst (Ends args d db) (sym (if_true _ _ _ y)) (dry plan p y)
    | inr y ↦ elim (Bool-cases (has_deletes plan && not args.allow_deletes)) [
      | inl r ↦
          subst (Ends args d db) (sym (if_false _ _ _ y ∙ if_true _ _ _ r))
            (refused plan p (ground (arith, r)) (ground (arith, r)))
      | inr r ↦ subst (Ends args d db) (sym (if_false _ _ _ y ∙ if_false _ _ _ r)) (
          committed-Ends args d db plan p u y r
            (execute_all q (statements q d.file plan) db >>= audit_or_raise q) refl)
    ]
  ]

  -- A run ends in one of these ways. With exit code 1 the database is as it was, because a path is
  -- not there, the manifest is not usable, foreign keys cannot be enforced, the files cannot be
  -- compared, or the transaction failed. After a dry run it is as it was too, and with exit code 2,
  -- where the plan deletes rows and that is not allowed. Else the manifest is usable, the statements
  -- of the plan ran in order, and the database that they left passed both checks.
  pub sync_metadata-Ends :
      (args : Args) (d : Dataset) (db : D) → Ends args d db (sync_metadata q args d db)
  unfolding sync_metadata
  sync_metadata-Ends args d db = elim (Bool-cases (d.db_exists && d.dir_exists)) [
    | inr e ↦ rw (e, if◌then◌else◌) (aborted (no_path e))
    | inl e ↦ elim (Bool-cases (is_empty (gate_for_use args.allow_scaffold d.manifest))) [
      | inr g ↦
          rw (e, g, if◌then◌else◌)
            (aborted (not_usable (sym (gate_for_use-is_usable args.allow_scaffold d.manifest) ∙ g)))
      | inl g ↦ elim (Bool-cases (q.foreign_keys_on db)) [
        | inr k ↦ rw (e, g, k, if◌then◌else◌) (aborted (no_foreign_keys k))
        | inl k ↦
            rw (e, g, k, if◌then◌else◌)
              (after_plan-Ends args d db
                (sym (gate_for_use-is_usable args.allow_scaffold d.manifest) ∙ g)
                (compute_plan q.schema db d.file) refl)
      ]
    ]
  ]

  -- A statement that deletes no row, not even to replace it.
  abbrev pub is_upsert : Statement F → Bool
  is_upsert (insert_many t h replace rows) = false
  is_upsert (insert_many t h (do_nothing key) rows) = true
  is_upsert (insert_many t h (do_update key cols) rows) = true
  is_upsert (clear_column t c) = true
  is_upsert (delete_observations ids) = false
  is_upsert (delete_row t names key) = false
