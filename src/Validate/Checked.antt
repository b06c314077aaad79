-- ===== src/Validate/Checked.antt =====
-- When `_check_id_counters` of src/kayak/cli/validate_dataset.py has nothing to report.
use kayak_python.Base.{
  ◌≡◌, refl, sym, ap, ◌∙◌, Bool, true, false, not, ◌&&◌, Option, none, some, List, [], ◌∷◌, ◌++◌,
  any, all, keep_if, is_empty, if◌then◌else◌, map, arith, Bool-cases, inl, inr, All,
}
use kayak_python.Base.Int.{ℤ}
use kayak_python.Base.Chars.{Chars, eq_chars, mem_chars, leb_chars, lstrip, strip}
use kayak_python.Base.Assoc.{get_by, put_by}
use kayak_python.Base.Sort.{sort}
use kayak_python.Base.Attempt.{Attempt, ok, ◌>>=◌}
use kayak_python.Validate.Ints.{ValueError, drop_newline}
use kayak_python.Validate.Counters.{
  Fault, cell_text, Counters, add_row, missing_counter, not_an_id_table, read_counters, next_of,
  check_each, check_id_counters,
}
use kayak_python.Validate.Empty.{
  is_empty-three, is_empty-append, is_empty-sort, is_empty-keep_if, is_empty-map, all-sort,
}
use kayak_python.Validate.Sound.{
  value_of, next_is_sound, Reports, check_one_counter-Reports, rstrip-drop_newline,
}
use kayak_python.Validate.Allocated.{
  tables, tables_of, are_different, any-read_counters, faults-read_counters, all-ext,
}

cell_text-drop_newline : (cell : Option Chars) → drop_newline (cell_text cell) ≡ cell_text cell
unfolding strip
cell_text-drop_newline none = refl
cell_text-drop_newline (some s) = rstrip-drop_newline (lstrip s)

abbrev IsStripped : List (Chars × Chars) → Type 0
IsStripped = All (λ e. drop_newline e.1 ≡ e.1)

put_by-Stripped :
    (t n : Chars) (d : List (Chars × Chars))
    → drop_newline n ≡ n
    → IsStripped d
    → IsStripped (put_by eq_chars t n d)
unfolding put_by
put_by-Stripped t n [] h k = (h, tt)
put_by-Stripped t n ((j, w) ∷ d) h k = elim (Bool-cases (eq_chars j t)) [
  | inl e ↦ rw (e, All) (h, k.1)
  | inr e ↦ rw (e, All) (k.0, put_by-Stripped t n d h k.1)
]

add_row-Stripped :
    (t n : Chars) (acc : Counters)
    → drop_newline n ≡ n
    → IsStripped acc.next_ids
    → IsStripped (add_row t n acc).next_ids
add_row-Stripped [] n acc h k = k
add_row-Stripped (c ∷ cs) n acc h k = put_by-Stripped (c ∷ cs) n acc.next_ids h k

read_counters-Stripped :
    (rows : List (Option Chars × Option Chars)) (acc : Counters)
    → IsStripped acc.next_ids
    → IsStripped (read_counters rows acc).next_ids
unfolding read_counters
read_counters-Stripped [] acc k = k
read_counters-Stripped ((t, n) ∷ rows) acc k =
    read_counters-Stripped rows (add_row (cell_text t) (cell_text n) acc)
      (add_row-Stripped (cell_text t) (cell_text n) acc (cell_text-drop_newline n) k)

next_of-drop_newline :
    (t : Chars) (d : List (Chars × Chars))
    → IsStripped d
    → drop_newline (next_of (get_by eq_chars t d)) ≡ next_of (get_by eq_chars t d)
unfolding get_by
next_of-drop_newline t [] k = refl
next_of-drop_newline t ((j, w) ∷ d) k = elim (Bool-cases (eq_chars j t)) [
  | inl e ↦ rw (e, if◌then◌else◌) k.0
  | inr e ↦ rw (e, if◌then◌else◌) (next_of-drop_newline t d k.1)
]

all-any : {A : Type 0} (p : A → Bool) (xs : List A) → all p xs ≡ not (any (λ x. not (p x)) xs)
all-any p [] = refl
all-any p (x ∷ xs) = ground (arith, all-any p xs)

all-keep_if :
    {A : Type 0} (p q : A → Bool) (xs : List A) → all q xs ≡ true → all p (keep_if q xs) ≡ all p xs
all-keep_if p q [] h = refl
all-keep_if p q (x ∷ xs) h = ground (arith, all-keep_if p q xs)

all-true : {A : Type 0} (xs : List A) → all (λ x. true) xs ≡ true
all-true [] = refl
all-true (x ∷ xs) = all-true xs

not-not : (b : Bool) → not (not b) ≡ b
not-not true = refl
not-not false = refl

abbrev start : Counters
start = record { next_ids = []; faults = [] }

module _ (rows : List (Option Chars × Option Chars)) where
  abbrev next_ids : List (Chars × Chars)
  next_ids = (read_counters rows start).next_ids

  any-tables : (q : Chars → Bool) → any q (tables next_ids) ≡ any q (tables_of rows)
  any-tables q = any-read_counters q rows start ∙ ground arith

  all-tables : (p : Chars → Bool) → all p (tables next_ids) ≡ all p (tables_of rows)
  all-tables p =
      all-any p (tables next_ids)
      ∙ ap not (any-tables (λ x. not (p x)))
      ∙ sym (all-any p (tables_of rows))

  different : is_empty (read_counters rows start).faults ≡ are_different (tables_of rows)
  different =
      faults-read_counters rows start
      ∙ ap (λ b. b && are_different (tables_of rows)) (all-true (tables_of rows))

  module _ (cells_of : Chars → List (Option Chars)) (retired_of : Chars → List ℤ) where
    -- The counter of a table is an integer of 64 bits from 1 on and above all ids of the table and
    -- all retired ones, and the ids are such integers, distinct, and not retired.
    abbrev pub is_sound : Chars → Bool
    is_sound t =
        next_is_sound (cells_of t) (retired_of t) (value_of (next_of (get_by eq_chars t next_ids)))

    and-Reports :
        (m n : Attempt ValueError (List Fault)) (a b : Bool)
        → Reports m a
        → Reports n b
        → Reports (m >>= λ fs. n >>= λ gs. ok (fs ++ gs)) (a && b)
    and-Reports m n a b r s =
        (r.0 ++ s.0, rw (r.1, s.1) refl, is_empty-append r.0 s.0 ∙ rw (r.2, s.2) refl)

    check_each-Reports :
        (ts : List Chars) → Reports (check_each cells_of retired_of next_ids ts) (all is_sound ts)
    unfolding check_each
    check_each-Reports [] = ([], refl, refl)
    check_each-Reports (t ∷ ts) =
        and-Reports _ _ (is_sound t) (all is_sound ts)
          (check_one_counter-Reports t (next_of (get_by eq_chars t next_ids)) (cells_of t)
            (retired_of t) (next_of-drop_newline t next_ids (read_counters-Stripped rows start tt)))
          (check_each-Reports ts)

    unfoldable missing : List Chars → List Chars
    missing id_tables =
        sort leb_chars (keep_if (λ t. not (mem_chars t (tables next_ids))) id_tables)

    unfoldable foreign : List Chars → List Chars
    foreign id_tables =
        sort leb_chars (keep_if (λ t. not (mem_chars t id_tables)) (tables next_ids))

    mem_tables : (t : Chars) → mem_chars t (tables next_ids) ≡ mem_chars t (tables_of rows)
    mem_tables t = any-tables (eq_chars t)

    is_empty-missing :
        (id_tables : List Chars)
        → is_empty (map missing_counter (missing id_tables))
          ≡ all (λ t. mem_chars t (tables_of rows)) id_tables
    unfolding missing
    is_empty-missing id_tables =
        is_empty-map missing_counter (missing id_tables)
        ∙ is_empty-sort leb_chars (keep_if (λ t. not (mem_chars t (tables next_ids))) id_tables)
        ∙ is_empty-keep_if (λ t. not (mem_chars t (tables next_ids))) id_tables
        ∙ all-ext _ _ (λ t. not-not (mem_chars t (tables next_ids)) ∙ mem_tables t) id_tables

    is_empty-foreign :
        (id_tables : List Chars)
        → is_empty (map not_an_id_table (foreign id_tables))
          ≡ all (λ t. mem_chars t id_tables) (tables_of rows)
    unfolding foreign
    is_empty-foreign id_tables =
        is_empty-map not_an_id_table (foreign id_tables)
        ∙ is_empty-sort leb_chars (keep_if (λ t. not (mem_chars t id_tables)) (tables next_ids))
        ∙ is_empty-keep_if (λ t. not (mem_chars t id_tables)) (tables next_ids)
        ∙ all-ext _ _ (λ t. not-not (mem_chars t id_tables)) (tables next_ids)
        ∙ all-tables (λ t. mem_chars t id_tables)

    all-both :
        (id_tables : List Chars)
        → (all (λ t. mem_chars t (tables_of rows)) id_tables
            && (all (λ t. mem_chars t id_tables) (tables_of rows)
                && all is_sound
                    (sort leb_chars (keep_if (λ t. mem_chars t (tables next_ids)) id_tables))))
          ≡ (all (λ t. mem_chars t (tables_of rows)) id_tables
              && (all (λ t. mem_chars t id_tables) (tables_of rows) && all is_sound id_tables))
    all-both id_tables = elim (Bool-cases (all (λ t. mem_chars t (tables_of rows)) id_tables)) [
      | inl e ↦
          ap
            (λ b.
              all (λ t. mem_chars t (tables_of rows)) id_tables
              && (all (λ t. mem_chars t id_tables) (tables_of rows) && b))
            (all-sort leb_chars is_sound (keep_if (λ t. mem_chars t (tables next_ids)) id_tables)
              ∙ all-keep_if is_sound (λ t. mem_chars t (tables next_ids)) id_tables
                  (all-ext _ _ mem_tables id_tables ∙ e))
      | inr e ↦ rw e refl
    ]

    -- Each table with ids has one counter, no other table has one, and each counter is sound.
    abbrev pub is_allocated : List Chars → Bool
    is_allocated id_tables =
        are_different (tables_of rows)
        && (all (λ t. mem_chars t (tables_of rows)) id_tables
            && (all (λ t. mem_chars t id_tables) (tables_of rows) && all is_sound id_tables))

    -- The check never raises, and it has nothing to report exactly when each table with ids has one
    -- counter, no other table has one, and each counter is an integer of 64 bits from 1 on and above
    -- every id of the table and every retired one, the ids being such integers, distinct, and none
    -- of them retired.
    pub check_id_counters-Reports :
        (id_tables : List Chars)
        → Reports (check_id_counters cells_of retired_of id_tables rows) (is_allocated id_tables)
    unfolding check_id_counters missing foreign
    check_id_counters-Reports id_tables =
        let both = sort leb_chars (keep_if (λ t. mem_chars t (tables next_ids)) id_tables) in
        let r = check_each-Reports both in
        (
          (read_counters rows start).faults
              ++ (map missing_counter (missing id_tables)
                  ++ (map not_an_id_table (foreign id_tables) ++ r.0)),
          rw (r.1) refl,
          is_empty-append (read_counters rows start).faults _
              ∙ ap (λ b. is_empty (read_counters rows start).faults && b)
                  (is_empty-three (map missing_counter (missing id_tables))
                    (map not_an_id_table (foreign id_tables)) r.0 _ _ (all is_sound both)
                    (is_empty-missing id_tables) (is_empty-foreign id_tables) r.2)
              ∙ ap
                  (λ b.
                    b
                    && (all (λ t. mem_chars t (tables_of rows)) id_tables
                        && (all (λ t. mem_chars t id_tables) (tables_of rows)
                            && all is_sound both)))
                  different
              ∙ ap (λ b. are_different (tables_of rows) && b) (all-both id_tables),
        )
