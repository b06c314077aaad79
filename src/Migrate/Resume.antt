-- ===== src/Migrate/Resume.antt =====
-- What a run of `apply_pending` of src/kayak/cli/migrate.py leaves, and how a later run resumes.
use kayak_python.Base.{
  ◌≡◌, refl, ap, subst, sym, ◌∙◌, Bool, true, false, ◌||◌, some, List, [], ◌∷◌, ◌++◌, if◌then◌else◌,
  map, keep_if, arith, Bool-cases, Option-cases, inl, inr,
}
use mathlib.Core.List.{map-append, append_assoc, append-nil}
use kayak_python.Base.Chars.{mem_chars, Chars, eq_chars_self, eq_chars_sym}
use kayak_python.Migrate.Manifest.{Migration}
use kayak_python.Migrate.Statements.{split_statements, wants_no_transaction}
use kayak_python.Migrate.Apply.{
  Engine, Database, versions, is_pending, pending_migrations, Ran, all_ran, error_after,
  record_version, after_transaction, after_autocommit, apply_one, Ending, finished, stopped_at,
  and_ran, apply_list, apply_pending,
}

pub mem-append :
    (v : Chars) (xs ys : List Chars) → mem_chars v (xs ++ ys) ≡ (mem_chars v xs || mem_chars v ys)
mem-append v [] ys = refl
mem-append v (x ∷ xs) ys = ground (arith, mem-append v xs ys)

abbrev pub versions_of : List Migration → List Chars
versions_of = map (λ m. m.version)

-- How a run over the list ended: all of it is done, or it stopped at the first of the rest.
abbrev pub Ended : List Migration → List Migration → Ending → Type 0
Ended done [] (finished vs) = vs ≡ versions_of done
Ended done (m ∷ rest) (stopped_at m') = m ≡ m'
Ended done rest _ = ⊥

Ended-cons :
    (m : Migration) (done rest : List Migration) (e : Ending)
    → Ended done rest e
    → Ended (m ∷ done) rest (and_ran m.version e)
Ended-cons m done [] (finished vs) h = ap (λ vs. m.version ∷ vs) h
Ended-cons m done [] (stopped_at m') h = absurd h
Ended-cons m done (n ∷ rest) (finished vs) h = absurd h
Ended-cons m done (n ∷ rest) (stopped_at m') h = h

module _ {ℓ} {S : Type ℓ} (q : Engine S) where
  -- How one migration ends: it is recorded, and its version comes last, or nothing is recorded.
  data One (m : Migration) (db : Database S) : Bool × Database S → Type ℓ where
    recorded :
        (db' : Database S) → versions db' ≡ versions db ++ m.version ∷ [] → One m db (true, db')
    left_pending : (db' : Database S) → db'.stamps ≡ db.stamps → One m db (false, db')

  record-One :
      (m : Migration) (db db' : Database S)
      → record_version q m db ≡ some db'
      → versions db' ≡ versions db ++ m.version ∷ []
  unfolding record_version
  record-One m db db' h = elim (Bool-cases (mem_chars m.version (versions db))) [
    | inl e ↦ absurd (ground arith)
    | inr e ↦
        (let same : db'.stamps
              ≡ db.stamps ++ record { version = m.version; digest = some m.digest } ∷ [] =
            ground arith in
          rw same (map-append _ db.stamps _))
  ]

  transaction-One :
      (m : Migration) (db : Database S) (r : Ran S) → One m db (after_transaction q m db r)
  transaction-One m db (error_after s) = left_pending _ refl
  transaction-One m db (all_ran s) =
      elim (Option-cases (record_version q m (record db { store = q.commit s }))) [
        | inl e ↦ rw (e, after_transaction) (left_pending _ refl)
        | inr (db', e) ↦
            rw (e, after_transaction)
              (recorded db' (record-One m (record db { store = q.commit s }) db' e))
      ]

  autocommit-One :
      (m : Migration) (db : Database S) (r : Ran S) → One m db (after_autocommit q m db r)
  autocommit-One m db (error_after s) = left_pending _ refl
  autocommit-One m db (all_ran s) =
      elim (Option-cases (record_version q m (record db { store = q.commit s }))) [
        | inl e ↦ rw (e, after_autocommit) (left_pending _ refl)
        | inr (db', e) ↦
            rw (e, after_autocommit)
              (recorded db' (record-One m (record db { store = q.commit s }) db' e))
      ]

  apply_one-One :
      (sql : Migration → Chars) (m : Migration) (db : Database S) → One m db (apply_one q sql m db)
  unfolding apply_one
  apply_one-One sql m db = elim (Option-cases (split_statements (sql m))) [
    | inl e ↦ rw (e, apply_one) (left_pending db refl)
    | inr (stmts, e) ↦ elim (Bool-cases (wants_no_transaction (sql m))) [
      | inl n ↦ rw (e, apply_one, n, if◌then◌else◌) (autocommit-One m db _)
      | inr n ↦ rw (e, apply_one, n, if◌then◌else◌) (transaction-One m db _)
    ]
  ]

  -- The part of the list that a run has done, and the part that is left.
  pub record Progress (ms : List Migration) (db : Database S) (r : Ending × Database S)
      : Type ℓ where
    pub done : List Migration
    pub rest : List Migration
    pub parts : ms ≡ done ++ rest
    pub stamped : versions r.1 ≡ versions db ++ versions_of done
    pub ended : Ended done rest r.0

  One-Progress :
      (sql : Migration → Chars) (m : Migration) (ms : List Migration) (db : Database S)
      (r : Bool × Database S)
      → One m db r
      → Progress ms r.1 (apply_list q sql ms r.1)
      → Progress (m ∷ ms) db (elim r.0 [
        | false ↦ (stopped_at m, r.1)
        | true ↦ let (ending, db'') = apply_list q sql ms r.1 in (and_ran m.version ending, db'')
      ])
  One-Progress sql m ms db (false, db') (left_pending _ e) p = record {
    done = [];
    rest = m ∷ ms;
    parts = refl;
    stamped = ap (map (λ s. s.version)) e ∙ sym (append-nil _);
    ended = refl;
  }
  One-Progress sql m ms db (true, db') (recorded _ e) p = record {
    done = m ∷ p.done;
    rest = p.rest;
    parts = ap (λ ms. m ∷ ms) p.parts;
    stamped =
        p.stamped
        ∙ ap (λ vs. vs ++ versions_of p.done) e
        ∙ append_assoc (versions db) (m.version ∷ []) (versions_of p.done);
    ended = Ended-cons m p.done p.rest (apply_list q sql ms db').0 p.ended;
  }

  apply_list-Progress :
      (sql : Migration → Chars) (ms : List Migration) (db : Database S)
      → Progress ms db (apply_list q sql ms db)
  unfolding apply_list
  apply_list-Progress sql [] db = record {
    done = [];
    rest = [];
    parts = refl;
    stamped = sym (append-nil _);
    ended = refl;
  }
  apply_list-Progress sql (m ∷ ms) db =
      let r = apply_one q sql m db in
      One-Progress sql m ms db r (apply_one-One sql m db) (apply_list-Progress sql ms r.1)

  -- The pending migrations are a part that is done and a rest. Exactly the versions of the first
  -- part are added to `schema_migrations`, in order; the run returns those versions when nothing is
  -- left, and stops by an exception at the first of the rest otherwise.
  pub apply_pending-Progress :
      (sql : Migration → Chars) (discovered : List Migration) (db : Database S)
      → Progress
          (pending_migrations (versions db) discovered)
          db
          (apply_pending q sql discovered db)
  unfolding apply_pending
  apply_pending-Progress sql discovered db =
      apply_list-Progress sql (pending_migrations (versions db) discovered) db

-- No two migrations of the list have the same version.
abbrev pub HasDistinctVersions : List Migration → Type 0
HasDistinctVersions [] = Unit
HasDistinctVersions (m ∷ ms) =
    (mem_chars m.version (versions_of ms) ≡ false) × HasDistinctVersions ms

-- Of a list the migrations that are neither in `xs` nor in `ys` are pending after both.
pending-append :
    (xs ys : List Chars) (ms : List Migration)
    → keep_if (is_pending (xs ++ ys)) ms ≡ keep_if (is_pending ys) (keep_if (is_pending xs) ms)
pending-append xs ys [] = refl
pending-append xs ys (m ∷ ms) = ground (arith, mem-append m.version xs ys, pending-append xs ys ms)

mem-keep :
    (v : Chars) (xs : List Chars) (ms : List Migration)
    → mem_chars v (versions_of ms) ≡ false
    → mem_chars v (versions_of (keep_if (is_pending xs) ms)) ≡ false
mem-keep v xs [] h = refl
mem-keep v xs (m ∷ ms) h = ground (arith, mem-keep v xs ms)

keep-Distinct :
    (xs : List Chars) (ms : List Migration)
    → HasDistinctVersions ms
    → HasDistinctVersions (keep_if (is_pending xs) ms)
keep-Distinct xs [] h = tt
keep-Distinct xs (m ∷ ms) h = elim (Bool-cases (mem_chars m.version xs)) [
  | inl e ↦ rw (e, HasDistinctVersions) (keep-Distinct xs ms h.1)
  | inr e ↦ rw (e, HasDistinctVersions) (mem-keep m.version xs ms h.0, keep-Distinct xs ms h.1)
]

keep-nil : (ms : List Migration) → keep_if (is_pending []) ms ≡ ms
keep-nil [] = refl
keep-nil (m ∷ ms) = ap (λ ms. m ∷ ms) (keep-nil ms)

keep-other :
    (v : Chars) (vs : List Chars) (ms : List Migration)
    → mem_chars v (versions_of ms) ≡ false
    → keep_if (is_pending (v ∷ vs)) ms ≡ keep_if (is_pending vs) ms
keep-other v vs [] h = refl
keep-other v vs (m ∷ ms) h =
    ground (arith, keep-other v vs ms (ground arith), eq_chars_sym v m.version)

pending_parts :
    (done rest : List Migration)
    → HasDistinctVersions (done ++ rest)
    → keep_if (is_pending (versions_of done)) (done ++ rest) ≡ rest
pending_parts [] rest h = keep-nil rest
pending_parts (m ∷ done) rest h =
    rw (eq_chars_self m.version, keep_if)
      (keep-other m.version (versions_of done) (done ++ rest) h.0 ∙ pending_parts done rest h.1)

-- What is pending after a run: nothing, or a list that starts where the run stopped.
abbrev pub Left : Ending → List Migration → Type 0
Left (finished vs) rest = rest ≡ []
Left (stopped_at m) rest = (ms : List Migration) × (rest ≡ m ∷ ms)

Ended-Left : (done rest : List Migration) (e : Ending) → Ended done rest e → Left e rest
Ended-Left done [] (finished vs) h = refl
Ended-Left done [] (stopped_at m) h = absurd h
Ended-Left done (m ∷ rest) (finished vs) h = absurd h
Ended-Left done (m ∷ rest) (stopped_at m') h = (rest, ap (λ m. m ∷ rest) h)

module _ {ℓ} {S : Type ℓ} (q : Engine S) where
  -- When the discovered versions are distinct, nothing is pending after a run that finished, and
  -- after one that stopped by an exception the pending list starts with the migration at which it
  -- stopped.
  pub pending-apply_pending :
      (sql : Migration → Chars) (discovered : List Migration) (db : Database S)
      → HasDistinctVersions discovered
      → Left
          (apply_pending q sql discovered db).0
          (pending_migrations (versions (apply_pending q sql discovered db).1) discovered)
  unfolding pending_migrations
  pending-apply_pending sql discovered db h =
      let p = apply_pending-Progress q sql discovered db in
      let left : keep_if (is_pending (versions (apply_pending q sql discovered db).1)) discovered
          ≡ p.rest =
        ap (λ vs. keep_if (is_pending vs) discovered) p.stamped
        ∙ pending-append (versions db) (versions_of p.done) discovered
        ∙ ap (keep_if (is_pending (versions_of p.done))) p.parts
        ∙ pending_parts p.done p.rest
            (subst HasDistinctVersions p.parts (keep-Distinct (versions db) discovered h)) in
      rw left (Ended-Left p.done p.rest (apply_pending q sql discovered db).0 p.ended)
