-- ===== src/Migrate/Statements.antt =====
-- `_wants_no_transaction`, `_reject_literal_with_delimiter` and `_split_statements` of
-- src/kayak/cli/migrate.py.
use kayak_python.Base.{
  ℕ, Bool, true, false, not, ◌&&◌, ◌||◌, Option, none, some, List, [], ◌∷◌, is_empty, if◌then◌else◌,
  ◌==◌, codes, map, keep_if,
}
use kayak_python.Base.Chars.{Chars, splitlines, strip, starts_with, contains, split_on, join_lines}

-- The loop of `_wants_no_transaction` over the lines.
unfoldable pub marked : List Chars → Bool
marked [] = false
marked (line ∷ lines) =
    let rest = marked lines in
    let stripped = strip line in
    if is_empty stripped
    then rest
    else if starts_with (codes "--") stripped
    then contains (codes "@no_transaction") stripped || rest
    else false

unfoldable pub wants_no_transaction : Chars → Bool
unfolding marked splitlines strip contains
wants_no_transaction sql = marked (splitlines sql)

-- Where the scanner of `_reject_literal_with_delimiter` stands. The skip of a line comment to the
-- line feed after it is a mode of its own.
pub data Mode : Type 0 where
  outside inside comment : Mode

abbrev pub starts_dash : Chars → Bool
starts_dash [] = false
starts_dash (c ∷ cs) = c == b'-'

abbrev pub starts_quote : Chars → Bool
starts_quote [] = false
starts_quote (c ∷ cs) = c == b'\''

-- What the scanner does at one character: the next mode and whether the character after it, the
-- second half of an escaped quote, is passed over; `none` is the `ValueError`.
unfoldable pub scan_step : Mode → ℕ → Chars → Option (Mode × Bool)
scan_step inside c next =
    if c == b'\''
    then if starts_quote next then some (inside, true) else some (outside, false)
    else if c == b';' || (c == b'-' && starts_dash next)
    then none
    else some (inside, false)
scan_step outside c next =
    if c == b'\''
    then some (inside, false)
    else if c == b'-' && starts_dash next
    then some (comment, false)
    else some (outside, false)
scan_step comment c next = if c == 10 then some (outside, false) else some (comment, false)

-- `_reject_literal_with_delimiter` raises exactly when this is true.
unfoldable pub rejects : Mode → Bool → Chars → Bool
unfolding scan_step
rejects mode pass [] = false
rejects mode true (c ∷ cs) = rejects mode false cs
rejects mode false (c ∷ cs) = elim (scan_step mode c cs) [
  | none ↦ true
  | some (mode', pass) ↦ rejects mode' pass cs
]

-- `re.sub(r"--.*$", "", line)`
unfoldable pub cut_comment : Chars → Chars
cut_comment [] = []
cut_comment (c ∷ cs) = if c == b'-' && starts_dash cs then [] else c ∷ cut_comment cs

-- `_split_statements`; `none` is the `ValueError`.
unfoldable pub split_statements : Chars → Option (List Chars)
unfolding rejects splitlines cut_comment split_on strip join_lines
split_statements sql =
    if rejects outside false sql
    then none
    else some (
        keep_if (λ stmt. not (is_empty stmt))
          (map strip (split_on b';' (join_lines (map cut_comment (splitlines sql))))))
