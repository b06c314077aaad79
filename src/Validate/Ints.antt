-- ===== src/Validate/Ints.antt =====
-- The integers of src/kayak/cli/validate_dataset.py: `_CANONICAL_ID`, `_INT_RE`, `_int64_overflow`,
-- `_int_problem` and `_bounded_int`. `$` of a pattern also matches before a line feed at the end.
use kayak_python.Base.{
  ℕ, zero, suc, ◌+◌, ◌-◌, ◌*◌, Bool, true, false, not, ◌&&◌, Option, none, some, [], ◌∷◌, all,
  length, leb, ltb, ◌==◌, if◌then◌else◌,
}
use kayak_python.Base.Int.{ℤ, pos, negsuc}
use kayak_python.Base.Chars.{Chars}
use kayak_python.Base.Attempt.{Attempt, ok, raised, ◌>>=◌}

-- `ValueError` of `int`.
pub data ValueError : Type 0 where
  invalid_literal : ValueError

abbrev pub is_digit : ℕ → Bool
is_digit c = leb 48 c && leb c 57

-- The text without a line feed at its end.
abbrev pub drop_newline : Chars → Chars
drop_newline [] = []
drop_newline (c ∷ []) = if c == 10 then [] else c ∷ []
drop_newline (c ∷ d ∷ cs) = c ∷ drop_newline (d ∷ cs)

abbrev pub has_sign : Chars → Bool
has_sign [] = false
has_sign (c ∷ cs) = c == 45

abbrev pub drop_sign : Chars → Chars
drop_sign [] = []
drop_sign (c ∷ cs) = if c == 45 then cs else c ∷ cs

abbrev pub is_number : Chars → Bool
is_number [] = false
is_number (c ∷ cs) = is_digit c && all is_digit cs

-- `_INT_RE.match`
unfoldable pub int_re : Chars → Bool
int_re raw = is_number (drop_sign (drop_newline raw))

abbrev pub is_canonical : Chars → Bool
is_canonical [] = false
is_canonical (c ∷ cs) = leb 49 c && leb c 57 && all is_digit cs

-- `_CANONICAL_ID.match`
unfoldable pub canonical_id : Chars → Bool
canonical_id raw = is_canonical (drop_newline raw)

abbrev pub digits_value : ℕ → Chars → ℕ
digits_value n [] = n
digits_value n (c ∷ cs) = digits_value (n * 10 + (c - 48)) cs

-- `int(s)` of digits, with a line feed after them or not.
abbrev pub int_of_digits : Chars → Attempt ValueError ℕ
int_of_digits [] = raised invalid_literal
int_of_digits (c ∷ cs) = ok (digits_value 0 (c ∷ cs))

-- `s.lstrip("0") or "0"`
abbrev pub lstrip_zeros : Chars → Chars
lstrip_zeros [] = []
lstrip_zeros (c ∷ cs) = if c == 48 then lstrip_zeros cs else c ∷ cs

abbrev pub or_zero : Chars → Chars
or_zero [] = 48 ∷ []
or_zero (c ∷ cs) = c ∷ cs

abbrev pub significant : Chars → Chars
significant raw = or_zero (lstrip_zeros (drop_sign raw))

abbrev pub int64_max_digits : ℕ
int64_max_digits = 19

abbrev pub int64_max : ℕ
int64_max = 9223372036854775807

-- `-n` or `n`
abbrev pub signed : Bool → ℕ → ℤ
signed false n = pos n
signed true zero = pos 0
signed true (suc n) = negsuc n

-- `_INT64_MIN <= value <= _INT64_MAX`
abbrev pub is_int64 : ℤ → Bool
is_int64 (pos n) = leb n int64_max
is_int64 (negsuc n) = leb n int64_max

-- `_int64_overflow`
unfoldable pub int64_overflow : Chars → Attempt ValueError Bool
int64_overflow raw =
    if ltb int64_max_digits (length (significant raw))
    then ok true
    else int_of_digits (drop_newline (significant raw)) >>= λ n.
        ok (not (is_int64 (signed (has_sign raw) n)))

abbrev pub in_range : ℤ → Option ℤ
in_range v = if is_int64 v then some v else none

-- `_bounded_int`
unfoldable pub bounded_int : Chars → Attempt ValueError (Option ℤ)
unfolding int_re
bounded_int raw =
    if not (int_re raw)
    then ok none
    else if ltb int64_max_digits (length (significant raw))
    then ok none
    else int_of_digits (drop_newline (significant raw)) >>= λ n.
        ok (in_range (signed (has_sign raw) n))

pub data IntProblem : Type 0 where
  not_an_id not_an_integer out_of_range : IntProblem

-- `_int_problem`; `is_id` is that of the column.
unfoldable pub int_problem : Bool → Chars → Attempt ValueError (Option IntProblem)
unfolding canonical_id int_re int64_overflow
int_problem is_id raw =
    let checked = int64_overflow raw >>= λ over. ok (if over then some out_of_range else none) in
    if is_id
    then (if canonical_id raw then checked else ok (some not_an_id))
    else if int_re raw
    then checked
    else ok (some not_an_integer)
