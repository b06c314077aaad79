-- ===== src/Validate/Regression.antt =====
-- `_regression_slugs` to `_check_regression` of src/kayak/cli/validate_dataset.py: the regression
-- reports that the calculated sources of a dataset name, and the reports that these link to.
use kayak_python.Base.{
  ℕ, ◌+◌, Bool, true, false, ◌&&◌, ◌||◌, Option, none, some, List, [], ◌∷◌, codes, any, length,
  drop, leb, ltb, ◌==◌, if◌then◌else◌,
}
use kayak_python.Base.Chars.{Chars, eq_chars, starts_with, split_on, join_lines}

-- The extension of a link; a file has one of `md`, `svg` and `json`.
pub data Extension : Type 0 where
  md html svg json : Extension

abbrev pub same_extension : Extension → Extension → Bool
same_extension md md = true
same_extension html html = true
same_extension svg svg = true
same_extension json json = true
same_extension _ _ = false

pub record FileName : Type 0 where
  pub stem : Chars
  pub extension : Extension

-- A file of the directory `regression`; a text that cannot be read (`OSError`) is
-- `none`. A file that is read is UTF-8.
pub record File : Type 0 where
  pub name : FileName
  pub text : Option Chars

abbrev pub same_file : FileName → FileName → Bool
same_file f g = eq_chars f.stem g.stem && same_extension f.extension g.extension

abbrev pub mem_file : FileName → List FileName → Bool
mem_file f fs = any (same_file f) fs

-- `reachable.add(f)`
abbrev pub add_file : FileName → List FileName → List FileName
add_file f fs = if mem_file f fs then fs else f ∷ fs

abbrev pub report : Chars → FileName
report s = record { stem = s; extension = md }

-- `(regdir / f).is_file()`
unfoldable pub is_file : List File → FileName → Bool
is_file [] f = false
is_file (g ∷ gs) f = same_file g.name f || is_file gs f

-- `md.read_text()`, `none` for an `OSError`.
unfoldable pub read_text : List File → FileName → Option Chars
read_text [] f = none
read_text (g ∷ gs) f = if same_file g.name f then g.text else read_text gs f

-- The errors and warnings, by what they name.
pub data Issue : Type 0 where
  bad_slug : Chars → Issue
  missing_for_slug : FileName → Issue
  unreadable : Chars → Issue
  link_to_nothing : Chars → Chars → Issue
  sidecar_missing : Chars → FileName → Issue
  unsafe : FileName → Chars → Issue
  no_directory : ℕ → Issue
  orphan : FileName → Issue

-- [A-Za-z0-9_-]
abbrev pub is_slug_char : ℕ → Bool
is_slug_char c =
    (leb 65 c && leb c 90)
    || (leb 97 c && leb c 122)
    || (leb 48 c && leb c 57)
    || c == 95
    || c == 45

abbrev pub slug_chars : Chars → Chars
slug_chars [] = []
slug_chars (c ∷ cs) = if is_slug_char c then c ∷ slug_chars cs else []

abbrev pub ext_at : Chars → Option Extension
ext_at s =
    if starts_with (codes ".md)") s
    then some md
    else if starts_with (codes ".html)") s
    then some html
    else if starts_with (codes ".svg)") s
    then some svg
    else if starts_with (codes ".json)") s
    then some json
    else none

abbrev pub ref_named : Chars → Chars → Option FileName
ref_named [] s = none
ref_named (c ∷ cs) s = elim (ext_at (drop (length (c ∷ cs)) s)) [
  | none ↦ none
  | some e ↦ some record { stem = c ∷ cs; extension = e }
]

-- `_REGRESSION_REF_RE` at the start of a text.
abbrev pub ref_at : Chars → Option FileName
ref_at s =
    if starts_with (codes "](./") s then ref_named (slug_chars (drop 4 s)) (drop 4 s) else none

abbrev pub and_ref : Option FileName → List FileName → List FileName
and_ref none rs = rs
and_ref (some r) rs = r ∷ rs

-- `_REGRESSION_REF_RE.findall(text)`: no match starts inside another one.
unfoldable pub find_refs : Chars → List FileName
find_refs [] = []
find_refs (c ∷ cs) = and_ref (ref_at (c ∷ cs)) (find_refs cs)

abbrev pub lstrip_spaces : Chars → Chars
lstrip_spaces [] = []
lstrip_spaces (c ∷ cs) = if c == 32 then lstrip_spaces cs else c ∷ cs

-- The marker of a line that is a fence.
abbrev pub fence_of : Chars → Option ℕ
fence_of line =
    let s = lstrip_spaces line in
    if ltb (length line) (length s + 4)
    then (if starts_with (codes "```") s
        then some 96
        else if starts_with (codes "~~~") s
        then some 126
        else none)
    else none

abbrev pub next_fence : Option ℕ → ℕ → Option ℕ
next_fence none m = some m
next_fence (some f) m = if m == f then none else some f

-- The lines that are neither fences nor inside one.
unfoldable pub outside_fences : Option ℕ → List Chars → List Chars
outside_fences fence [] = []
outside_fences fence (l ∷ ls) = elim (fence_of l) [
  | some m ↦ outside_fences (next_fence fence m) ls
  | none ↦ elim fence [ none ↦ l ∷ outside_fences none ls | some f ↦ outside_fences (some f) ls ]
]

-- `_strip_code_fences`
unfoldable pub strip_code_fences : Chars → Chars
unfolding outside_fences split_on join_lines
strip_code_fences text = join_lines (outside_fences none (split_on 10 text))

-- The references of a report.
unfoldable pub refs_of : Option Chars → List FileName
unfolding find_refs strip_code_fences
refs_of none = []
refs_of (some text) = find_refs (strip_code_fences text)
