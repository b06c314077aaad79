-- ===== src/Base/Chars.antt =====
-- Python's `str` operations on texts as lists of code points: equality, order, lines, strip, split.
use kayak_python.Base.{
  ℕ, ◌≡◌, refl, Bool, true, false, ◌&&◌, ◌||◌, List, [], ◌∷◌, ◌++◌, arith, ltb, leb, ◌==◌,
  if◌then◌else◌, any, zero, suc, length, is_empty, ◌-◌,
}

abbrev pub Chars : Type 0
Chars = List ℕ

-- `s == t`
abbrev pub eq_chars : Chars → Chars → Bool
eq_chars [] [] = true
eq_chars (c ∷ cs) (d ∷ ds) = c == d && eq_chars cs ds
eq_chars _ _ = false

pub eq_chars→≡ : (s t : Chars) → eq_chars s t ≡ true → s ≡ t
eq_chars→≡ [] [] h = refl
eq_chars→≡ [] (d ∷ ds) h = ground arith
eq_chars→≡ (c ∷ cs) [] h = ground arith
eq_chars→≡ (c ∷ cs) (d ∷ ds) h = ground (arith, eq_chars→≡ cs ds)

pub eq_chars_self : (s : Chars) → eq_chars s s ≡ true
eq_chars_self [] = refl
eq_chars_self (c ∷ cs) = ground (arith, eq_chars_self cs)

pub eq_chars_sym : (s t : Chars) → eq_chars s t ≡ eq_chars t s
eq_chars_sym [] [] = refl
eq_chars_sym [] (d ∷ ds) = refl
eq_chars_sym (c ∷ cs) [] = refl
eq_chars_sym (c ∷ cs) (d ∷ ds) = ground (arith, eq_chars_sym cs ds)

-- `s in ss`
abbrev pub mem_chars : Chars → List Chars → Bool
mem_chars s ss = any (eq_chars s) ss

-- `s <= t`, by code points
abbrev pub leb_chars : Chars → Chars → Bool
leb_chars [] t = true
leb_chars (c ∷ cs) [] = false
leb_chars (c ∷ cs) (d ∷ ds) = ltb c d || (c == d && leb_chars cs ds)

pub leb_chars_total : (s t : Chars) → (leb_chars s t || leb_chars t s) ≡ true
leb_chars_total [] t = refl
leb_chars_total (c ∷ cs) [] = refl
leb_chars_total (c ∷ cs) (d ∷ ds) = ground (arith, leb_chars_total cs ds)

-- The line boundaries of `str.splitlines`, but for CR LF, which is one boundary.
unfoldable pub is_line_break : ℕ → Bool
is_line_break c =
    (leb 10 c && leb c 13) || (leb 28 c && leb c 30) || c == 133 || c == 8232 || c == 8233

abbrev pub onto_first : ℕ → List Chars → List Chars
onto_first c [] = (c ∷ []) ∷ []
onto_first c (l ∷ ls) = (c ∷ l) ∷ ls

-- `s.splitlines()`
unfoldable pub splitlines : Chars → List Chars
unfolding is_line_break
splitlines [] = []
splitlines (c ∷ []) = if is_line_break c then [] ∷ [] else (c ∷ []) ∷ []
splitlines (c ∷ d ∷ cs) =
    let rest = splitlines (d ∷ cs) in
    if c == 13 && d == 10
    then elim rest [ [] ↦ [] | l ∷ ls ↦ [] ∷ ls ]
    else if is_line_break c
    then [] ∷ rest
    else onto_first c rest

-- The whitespace of `str.strip`.
unfoldable pub is_space : ℕ → Bool
is_space c =
    (leb 9 c && leb c 13)
    || (leb 28 c && leb c 32)
    || c == 133
    || c == 160
    || c == 5760
    || (leb 8192 c && leb c 8202)
    || c == 8232
    || c == 8233
    || c == 8239
    || c == 8287
    || c == 12288

unfoldable pub lstrip : Chars → Chars
unfolding is_space
lstrip [] = []
lstrip (c ∷ cs) = if is_space c then lstrip cs else c ∷ cs

unfoldable pub rstrip : Chars → Chars
unfolding is_space
rstrip [] = []
rstrip (c ∷ cs) = elim (rstrip cs) [ [] ↦ if is_space c then [] else c ∷ [] | d ∷ ds ↦ c ∷ d ∷ ds ]

-- `s.strip()`
unfoldable pub strip : Chars → Chars
unfolding lstrip rstrip
strip s = rstrip (lstrip s)

abbrev pub starts_with : Chars → Chars → Bool
starts_with [] s = true
starts_with (p ∷ ps) [] = false
starts_with (p ∷ ps) (c ∷ cs) = p == c && starts_with ps cs

-- `p in s`
unfoldable pub contains : Chars → Chars → Bool
contains p [] = starts_with p []
contains p (c ∷ cs) = starts_with p (c ∷ cs) || contains p cs

-- `s.split(sep)`, for one character
unfoldable pub split_on : ℕ → Chars → List Chars
split_on sep [] = [] ∷ []
split_on sep (c ∷ cs) =
    let rest = split_on sep cs in if c == sep then [] ∷ rest else onto_first c rest

-- `"\n".join(lines)`
unfoldable pub join_lines : List Chars → Chars
join_lines [] = []
join_lines (l ∷ []) = l
join_lines (l ∷ m ∷ ms) = l ++ (10 ∷ join_lines (m ∷ ms))

-- `s.split()`: the words between runs of whitespace.
unfoldable pub words_from : Chars → Chars → List Chars
unfolding is_space
words_from word [] = if is_empty word then [] else word ∷ []
words_from word (c ∷ cs) =
    let next = words_from [] cs in
    let more = words_from (word ++ c ∷ []) cs in
    if is_space c then (if is_empty word then next else word ∷ next) else more

unfoldable pub split_words : Chars → List Chars
unfolding words_from
split_words = words_from []

-- `s.split(sep)` for a text `sep` that is not empty: `skip` counts the characters of the separator
-- at hand that are still to be passed over.
unfoldable pub split_from : Chars → ℕ → Chars → List Chars
split_from sep skip [] = [] ∷ []
split_from sep zero (c ∷ cs) =
    let apart = split_from sep (length sep - 1) cs in
    let on = split_from sep zero cs in
    if starts_with sep (c ∷ cs) then [] ∷ apart else onto_first c on
split_from sep (suc skip) (c ∷ cs) = split_from sep skip cs

unfoldable pub split_by : Chars → Chars → List Chars
unfolding split_from
split_by sep s = split_from sep zero s

-- `s.replace(old, new)` for a text `old` that is not empty.
unfoldable pub replace_from : Chars → Chars → ℕ → Chars → Chars
replace_from old new skip [] = []
replace_from old new zero (c ∷ cs) =
    let after = replace_from old new (length old - 1) cs in
    let on = replace_from old new zero cs in
    if starts_with old (c ∷ cs) then new ++ after else c ∷ on
replace_from old new (suc skip) (c ∷ cs) = replace_from old new skip cs

unfoldable pub replace : Chars → Chars → Chars → Chars
unfolding replace_from
replace old new s = replace_from old new zero s
