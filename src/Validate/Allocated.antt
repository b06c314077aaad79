-- ===== src/Validate/Allocated.antt =====
-- When `_check_id_counters` of src/kayak/cli/validate_dataset.py has nothing to report.
use kayak_python.Base.{
  ◌≡◌, refl, ap, ◌∙◌, Bool, true, not, ◌&&◌, ◌||◌, Option, List, [], ◌∷◌, any, all, is_empty,
  if◌then◌else◌, map, arith, Bool-cases, inl, inr,
}
use kayak_python.Base.Chars.{Chars, eq_chars, mem_chars, eq_chars→≡, eq_chars_sym}
use kayak_python.Base.Assoc.{put_by}
use kayak_python.Validate.Counters.{
  cell_text, fault_if, Counters, add_row, has_counter, duplicate_counter, read_counters,
}
use kayak_python.Validate.Empty.{is_empty-append, is_empty-fault_if}

abbrev pub tables : List (Chars × Chars) → List Chars
tables d = map (λ e. e.0) d

abbrev pub and_table : Chars → List Chars → List Chars
and_table [] ts = ts
and_table (c ∷ cs) ts = (c ∷ cs) ∷ ts

-- The tables that the rows name.
abbrev pub tables_of : List (Option Chars × Option Chars) → List Chars
tables_of [] = []
tables_of ((t, n) ∷ rows) = and_table (cell_text t) (tables_of rows)

abbrev pub are_different : List Chars → Bool
are_different [] = true
are_different (t ∷ ts) = not (mem_chars t ts) && are_different ts

any-put_by :
    (q : Chars → Bool) (t n : Chars) (d : List (Chars × Chars))
    → any q (tables (put_by eq_chars t n d)) ≡ (q t || any q (tables d))
unfolding put_by
any-put_by q t n [] = refl
any-put_by q t n ((j, w) ∷ d) = elim (Bool-cases (eq_chars j t)) [
  | inl e ↦ rw (e, if◌then◌else◌, eq_chars→≡ j t e) (ground arith)
  | inr e ↦ rw (e, if◌then◌else◌) (ground (arith, any-put_by q t n d))
]

has_counter-tables :
    (d : List (Chars × Chars)) (t : Chars) → has_counter d t ≡ mem_chars t (tables d)
has_counter-tables [] t = refl
has_counter-tables (e ∷ d) t = ground (arith, has_counter-tables d t)

any-add_row :
    (q : Chars → Bool) (t n : Chars) (acc : Counters) (ts : List Chars)
    → (any q ts || any q (tables (add_row t n acc).next_ids))
      ≡ (any q (and_table t ts) || any q (tables acc.next_ids))
any-add_row q [] n acc ts = refl
any-add_row q (c ∷ cs) n acc ts = ground (arith, any-put_by q (c ∷ cs) n acc.next_ids)

-- The table that the loop builds has the tables of the rows.
pub any-read_counters :
    (q : Chars → Bool) (rows : List (Option Chars × Option Chars)) (acc : Counters)
    → any q (tables (read_counters rows acc).next_ids)
      ≡ (any q (tables_of rows) || any q (tables acc.next_ids))
unfolding read_counters
any-read_counters q [] acc = refl
any-read_counters q ((t, n) ∷ rows) acc =
    any-read_counters q rows (add_row (cell_text t) (cell_text n) acc)
    ∙ any-add_row q (cell_text t) (cell_text n) acc (tables_of rows)

apart-extend :
    (t : Chars) (seen : List Chars) (ts : List Chars)
    → all (λ x. not (eq_chars x t || mem_chars x seen)) ts
      ≡ (not (mem_chars t ts) && all (λ x. not (mem_chars x seen)) ts)
apart-extend t seen [] = refl
apart-extend t seen (x ∷ ts) = ground (arith, apart-extend t seen ts, eq_chars_sym x t)

pub all-ext :
    {A : Type 0} (p q : A → Bool) → ((a : A) → p a ≡ q a) → (xs : List A) → all p xs ≡ all q xs
all-ext p q h [] = refl
all-ext p q h (x ∷ xs) = ground (arith, h x, all-ext p q h xs)

abbrev clean : Counters → List Chars → Bool
clean acc ts =
    is_empty acc.faults
    && (all (λ x. not (mem_chars x (tables acc.next_ids))) ts && are_different ts)

clean-add_row :
    (t n : Chars) (acc : Counters) (ts : List Chars)
    → clean (add_row t n acc) ts ≡ clean acc (and_table t ts)
clean-add_row [] n acc ts = refl
clean-add_row (c ∷ cs) n acc ts =
    let s = c ∷ cs in
    ground (
      arith,
      is_empty-append acc.faults (fault_if (has_counter acc.next_ids s) (duplicate_counter s)),
      is_empty-fault_if (has_counter acc.next_ids s) (duplicate_counter s),
      has_counter-tables acc.next_ids s,
      all-ext (λ x. not (mem_chars x (tables (put_by eq_chars s n acc.next_ids))))
          (λ x. not (eq_chars x s || mem_chars x (tables acc.next_ids)))
          (λ x. ap not (any-put_by (eq_chars x) s n acc.next_ids)) ts,
      apart-extend s (tables acc.next_ids) ts,
    )

pub faults-read_counters :
    (rows : List (Option Chars × Option Chars)) (acc : Counters)
    → is_empty (read_counters rows acc).faults ≡ clean acc (tables_of rows)
unfolding read_counters
faults-read_counters [] acc = ground arith
faults-read_counters ((t, n) ∷ rows) acc =
    faults-read_counters rows (add_row (cell_text t) (cell_text n) acc)
    ∙ clean-add_row (cell_text t) (cell_text n) acc (tables_of rows)
