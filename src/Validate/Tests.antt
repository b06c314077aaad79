-- ===== src/Validate/Tests.antt =====
-- src/kayak/cli/validate_dataset.py on small datasets, with the theorems applied.
use kayak_python.Base.{◌≡◌, refl, if◌then◌else◌, String, Option, none, some, List, [], ◌∷◌, codes}
use kayak_python.Base.Chars.{Chars, split_on, join_lines, is_space, lstrip, rstrip, strip}
use kayak_python.Base.Sort.{insert_sorted, sort}
use kayak_python.Validate.Regression.{
  Extension, md, svg, json, FileName, File, link_to_nothing, orphan, is_file, read_text, find_refs,
  outside_fences, strip_code_fences, refs_of,
}
use kayak_python.Validate.Closure.{
  Walk, count_refs, regression_slugs, follow_all, follow_refs, walk, triples, regression_closure,
  regression_sanitize, check_regression,
}
use kayak_python.Base.Int.{pos}
use kayak_python.Base.Attempt.{ok, raised}
use kayak_python.Validate.Ints.{
  invalid_literal, int64_overflow, in_range, bounded_int, drop_sign, is_number,
}
use kayak_python.Validate.Bounded.{integer_of, bounded_int-lem}
use kayak_python.Validate.Counters.{check_id_counters}
use kayak_python.Validate.Sound.{Reports}
use kayak_python.Validate.Checked.{is_allocated, check_id_counters-Reports}
use kayak_python.Validate.Found.{IsExact, regression_closure-IsExact}

abbrev named : String → Extension → FileName
named s e = record { stem = codes s; extension = e }

abbrev file : String → Extension → String → File
file s e text = record { name = named s e; text = some (codes text) }

-- The report a links to b, b links back to a and to a file that is not there; c is an orphan.
abbrev directory : List File
directory =
    file "a" md "see ](./b.html)"
    ∷ file "a" svg ""
    ∷ file "a" json "{}"
    ∷ file "b" md "](./a.md) ](./x.md)"
    ∷ file "c" md ""
    ∷ []

fenced_refs :
    refs_of (some (codes "](./a.md)\n```\n](./b.md)\n```\n](./c.svg)"))
    ≡ named "a" md ∷ named "c" svg ∷ []
unfolding refs_of find_refs strip_code_fences outside_fences split_on join_lines
fenced_refs = refl

-- The gate passes all texts.
abbrev gate : FileName → Option Chars → Option Chars
gate f text = none

checked :
    check_regression gate (some directory) (codes "a" ∷ codes " a " ∷ [] ∷ [])
    ≡ some (link_to_nothing (codes "b") (codes "x") ∷ [], orphan (named "c" md) ∷ [])
unfolding check_regression regression_slugs strip lstrip rstrip is_space regression_closure walk
    follow_refs follow_all triples count_refs refs_of find_refs strip_code_fences outside_fences
    split_on join_lines is_file read_text sort insert_sorted regression_sanitize
checked = refl

regression_closure-IsExact_example :
    (w : Walk) × (regression_closure directory (codes "a" ∷ []) ≡ some w)
    × IsExact directory (codes "a" ∷ []) w
regression_closure-IsExact_example = regression_closure-IsExact directory (codes "a" ∷ [])

-- A final newline is let through by the pattern and then refused by int.
newline_raises : int64_overflow (48 ∷ 10 ∷ []) ≡ raised invalid_literal
unfolding int64_overflow
newline_raises = refl

bounded_int-lem_example :
    bounded_int (codes "-0042")
    ≡ ok (
        if is_number (drop_sign (codes "-0042"))
        then in_range (integer_of (codes "-0042"))
        else none)
bounded_int-lem_example = bounded_int-lem (codes "-0042") refl

-- The table a holds the ids 1 and 3, and 4 is retired.
abbrev cells : Chars → List (Option Chars)
cells t = some (codes "1") ∷ some (codes "3") ∷ []

abbrev counter_rows : List (Option Chars × Option Chars)
counter_rows = (some (codes "a"), some (codes "5")) ∷ []

check_id_counters-Reports_example :
    Reports
      (check_id_counters cells (λ t. pos 4 ∷ []) (codes "a" ∷ []) counter_rows)
      (is_allocated counter_rows cells (λ t. pos 4 ∷ []) (codes "a" ∷ []))
check_id_counters-Reports_example =
    check_id_counters-Reports counter_rows cells (λ t. pos 4 ∷ []) (codes "a" ∷ [])
