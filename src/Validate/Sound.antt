-- ===== src/Validate/Sound.antt =====
-- When `_check_id_counters` of src/kayak/cli/validate_dataset.py has nothing to report.
use kayak_python.Base.{
  ℕ, ◌≡◌, refl, ap, ◌∙◌, Bool, true, false, not, ◌&&◌, Option, none, some, List, [], ◌∷◌, ◌++◌, any,
  all, keep_if, is_empty, ◌==◌, if◌then◌else◌, arith, Bool-cases, inl, inr,
}
use kayak_python.Base.Int.{ℤ, pos, negsuc}
use kayak_python.Base.Chars.{Chars, is_space, lstrip, rstrip, strip}
use kayak_python.Base.Sort.{sort}
use kayak_python.Base.Attempt.{Attempt, ok}
use kayak_python.Validate.Ints.{
  ValueError, drop_newline, drop_sign, is_number, in_range, bounded_int,
}
use kayak_python.Validate.Bounded.{integer_of, bounded_int-lem}
use kayak_python.Validate.Counters.{
  leb_int, mem_int, Fault, duplicate_ids, reused_ids, stale_counter, next_id_below_one, cell_text,
  Ids, parsed, refused, and_id, or_refused, int_ids, repeated, unique, peak, fault_if, fault_of,
  id_faults, with_ids, with_next, check_one_counter,
}
use kayak_python.Validate.Empty.{
  is_empty-three, is_empty-sort, is_empty-keep_if, is_empty-fault_if, are_distinct,
  is_empty-repeated, is_empty-unique, leb-greatest,
}

-- No text that was stripped ends in a line feed.
one_char-drop_newline :
    (c : ℕ) → drop_newline (if is_space c then [] else c ∷ []) ≡ (if is_space c then [] else c ∷ [])
unfolding is_space
one_char-drop_newline c = elim (Bool-cases (c == 10)) [
  | inl e ↦ (let k : c ≡ 10 = ground arith in rw (k) refl)
  | inr e ↦ elim (Bool-cases (is_space c)) [
    | inl k ↦ rw (k, if◌then◌else◌) refl
    | inr k ↦ rw (k, if◌then◌else◌, e) refl
  ]
]

cons-drop_newline :
    (c : ℕ) (r : Chars)
    → drop_newline r ≡ r
    → ◌≡◌ {A = Chars}
        (drop_newline (elim r [ [] ↦ if is_space c then [] else c ∷ [] | d ∷ ds ↦ c ∷ d ∷ ds ]))
        (elim r [ [] ↦ if is_space c then [] else c ∷ [] | d ∷ ds ↦ c ∷ d ∷ ds ])
cons-drop_newline c [] h = one_char-drop_newline c
cons-drop_newline c (d ∷ ds) h = ap (λ s. c ∷ s) h

pub rstrip-drop_newline : (s : Chars) → drop_newline (rstrip s) ≡ rstrip s
unfolding rstrip
rstrip-drop_newline [] = refl
rstrip-drop_newline (c ∷ cs) = cons-drop_newline c (rstrip cs) (rstrip-drop_newline cs)

-- The integer that a stripped cell stands for, when it is one of 64 bits.
abbrev pub value_of : Chars → Option ℤ
value_of raw = if is_number (drop_sign raw) then in_range (integer_of raw) else none

bounded_int-strip :
    (cell : Option Chars) → bounded_int (cell_text cell) ≡ ok (value_of (cell_text cell))
unfolding strip
bounded_int-strip none = bounded_int-lem [] refl
bounded_int-strip (some s) = bounded_int-lem (strip s) (rstrip-drop_newline (lstrip s))

-- The ids of a column, by the integers that the cells stand for.
abbrev pub and_value : Chars → Option ℤ → Ids → Ids
and_value raw none rest = refused raw
and_value raw (some i) rest = and_id i rest

abbrev pub read_ids : List (Option Chars) → Ids
read_ids [] = parsed []
read_ids (cell ∷ cells) =
    let rest = read_ids cells in
    let raw = cell_text cell in if is_empty raw then rest else and_value raw (value_of raw) rest

or_refused-ok :
    (raw : Chars) (v : Option ℤ) (rest : Attempt ValueError Ids) (is : Ids)
    → rest ≡ ok is
    → or_refused raw v rest ≡ ok (and_value raw v is)
or_refused-ok raw none rest is h = refl
or_refused-ok raw (some i) rest is h = rw (h) refl

int_ids-lem : (cells : List (Option Chars)) → int_ids cells ≡ ok (read_ids cells)
unfolding int_ids
int_ids-lem [] = refl
int_ids-lem (cell ∷ cells) = elim (Bool-cases (is_empty (cell_text cell))) [
  | inl e ↦ rw (e, if◌then◌else◌) (int_ids-lem cells)
  | inr e ↦
      rw (e, if◌then◌else◌, bounded_int-strip cell)
        (or_refused-ok (cell_text cell) (value_of (cell_text cell)) (int_ids cells) (read_ids cells)
          (int_ids-lem cells))
]

-- The counter lies above the ids, which are distinct and not retired, and above the retired ones.
abbrev pub is_above : ℤ → List ℤ → Bool
is_above next = all (λ i. not (leb_int next i))

abbrev pub are_sound : ℤ → List ℤ → Ids → Bool
are_sound next retired (refused raw) = false
are_sound next retired (parsed ids) =
    are_distinct ids
    && (all (λ i. not (mem_int i retired)) ids && (is_above next ids && is_above next retired))

abbrev pub next_is_sound : List (Option Chars) → List ℤ → Option ℤ → Bool
next_is_sound cells retired none = false
next_is_sound cells retired (some next) =
    leb_int (pos 1) next && are_sound next retired (read_ids cells)

positive-leb_int : (next : ℤ) → leb_int (pos 1) next ≡ true → leb_int next (pos 0) ≡ false
positive-leb_int (pos n) h = ground arith
positive-leb_int (negsuc n) h = absurd (ground arith)

not-any : (next : ℤ) (is : List ℤ) → not (any (leb_int next) is) ≡ is_above next is
not-any next [] = refl
not-any next (i ∷ is) = ground (arith, not-any next is)

is_above-append :
    (next : ℤ) (is js : List ℤ) → is_above next (is ++ js) ≡ (is_above next is && is_above next js)
is_above-append next [] js = refl
is_above-append next (i ∷ is) js = ground (arith, is_above-append next is js)

peak-above :
    (next : ℤ) (is : List ℤ)
    → leb_int (pos 1) next ≡ true
    → not (leb_int next (peak is)) ≡ is_above next is
peak-above next [] h = ap not (positive-leb_int next h)
peak-above next (i ∷ is) h = ap not (leb-greatest next i is) ∙ not-any next (i ∷ is)

is_empty-fault_of : (f : List ℤ → Fault) (is : List ℤ) → is_empty (fault_of f is) ≡ is_empty is
is_empty-fault_of f [] = refl
is_empty-fault_of f (i ∷ is) = refl

is_empty-id_faults :
    (table : Chars) (next : ℤ) (ids retired : List ℤ)
    → leb_int (pos 1) next ≡ true
    → is_empty (id_faults table next ids retired) ≡ are_sound next retired (parsed ids)
is_empty-id_faults table next ids retired h =
    let dups = sort leb_int (repeated ids) in
    let reused = sort leb_int (unique (keep_if (λ i. mem_int i retired) ids)) in
    let a : is_empty (fault_of (duplicate_ids table) dups) ≡ are_distinct ids =
      is_empty-fault_of (duplicate_ids table) dups
      ∙ is_empty-sort leb_int (repeated ids)
      ∙ is_empty-repeated ids in
    let b : is_empty (fault_of (reused_ids table) reused) ≡ all (λ i. not (mem_int i retired)) ids =
      is_empty-fault_of (reused_ids table) reused
      ∙ is_empty-sort leb_int (unique (keep_if (λ i. mem_int i retired) ids))
      ∙ is_empty-unique (keep_if (λ i. mem_int i retired) ids)
      ∙ is_empty-keep_if (λ i. mem_int i retired) ids in
    let c : is_empty (
          fault_if (leb_int next (peak (ids ++ retired)))
            (stale_counter table next (peak (ids ++ retired))))
        ≡ (is_above next ids && is_above next retired) =
      is_empty-fault_if (leb_int next (peak (ids ++ retired))) _
      ∙ peak-above next (ids ++ retired) h
      ∙ is_above-append next ids retired in
    is_empty-three (fault_of (duplicate_ids table) dups) (fault_of (reused_ids table) reused) _
      (are_distinct ids) (all (λ i. not (mem_int i retired)) ids)
      (is_above next ids && is_above next retired) a b c

is_empty-with_ids :
    (table : Chars) (next : ℤ) (retired : List ℤ) (ids : Ids)
    → leb_int (pos 1) next ≡ true
    → is_empty (with_ids table next retired ids) ≡ are_sound next retired ids
is_empty-with_ids table next retired (refused raw) h = refl
is_empty-with_ids table next retired (parsed ids) h = is_empty-id_faults table next ids retired h

-- What a check gives: faults, none of them exactly when the condition holds.
abbrev pub Reports : Attempt ValueError (List Fault) → Bool → Type 0
Reports m sound = (fs : List Fault) × (m ≡ ok fs) × (is_empty fs ≡ sound)

with_next-Reports :
    (table raw : Chars) (cells : List (Option Chars)) (retired : List ℤ) (v : Option ℤ)
    → Reports (with_next table raw cells retired v) (next_is_sound cells retired v)
with_next-Reports table raw cells retired none = (_, refl, refl)
with_next-Reports table raw cells retired (some next) = elim (Bool-cases (leb_int (pos 1) next)) [
  | inl e ↦ (
    with_ids table next retired (read_ids cells),
    rw (e, if◌then◌else◌, int_ids-lem cells) refl,
    is_empty-with_ids table next retired (read_ids cells) e ∙ ground (arith, e),
  )
  | inr e ↦ (next_id_below_one table next ∷ [], rw (e, if◌then◌else◌) refl, ground (arith, e))
]

pub check_one_counter-Reports :
    (table raw : Chars) (cells : List (Option Chars)) (retired : List ℤ)
    → drop_newline raw ≡ raw
    → Reports
        (check_one_counter table raw cells retired)
        (next_is_sound cells retired (value_of raw))
unfolding check_one_counter
check_one_counter-Reports table raw cells retired h =
    rw (bounded_int-lem raw h) (with_next-Reports table raw cells retired (value_of raw))
