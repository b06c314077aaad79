-- ===== src/Validate/Closure.antt =====
-- `_regression_follow_refs`, `_regression_closure` and `_check_regression` of
-- src/kayak/cli/validate_dataset.py. Sets are lists without repetition, the queue is a list whose
-- first item is the last one that was appended.
use kayak_python.Base.{
  ℕ, zero, suc, ◌+◌, Bool, true, false, not, ◌&&◌, Option, none, some, List, [], ◌∷◌, ◌++◌, codes,
  all, keep_if, map, is_empty, length, leb, if◌then◌else◌,
}
use kayak_python.Base.Chars.{Chars, eq_chars, mem_chars, leb_chars, strip}
use kayak_python.Base.Sort.{sort}
use kayak_python.Validate.Regression.{
  Extension, same_extension, md, html, svg, json, FileName, File, mem_file, add_file, report,
  is_file, read_text, Issue, bad_slug, missing_for_slug, unreadable, link_to_nothing,
  sidecar_missing, unsafe, no_directory, orphan, is_slug_char, refs_of,
}

-- `_regression_slugs`, on the cells of the column `provenance_slug`.
abbrev pub add_slug : Chars → List Chars → List Chars
add_slug s slugs = if mem_chars s slugs then slugs else s ∷ slugs

unfoldable pub regression_slugs : List Chars → List Chars × List Issue
unfolding strip
regression_slugs [] = ([], [])
regression_slugs (cell ∷ cells) =
    let (slugs, errors) = regression_slugs cells in
    let s = strip cell in
    if is_empty s
    then (slugs, errors)
    else if all is_slug_char s
    then (add_slug s slugs, errors)
    else (slugs, bad_slug s ∷ errors)

-- What the second pass changes.
pub record Walk : Type 0 where
  pub reachable : List FileName
  pub queue : List Chars
  pub errors : List Issue

abbrev pub is_link : Extension → Bool
is_link md = true
is_link html = true
is_link _ = false

-- The references of the reports of the directory, which bound the rounds.
unfoldable pub count_refs : List File → ℕ
unfolding refs_of
count_refs [] = 0
count_refs (f ∷ fs) = length (refs_of f.text) + count_refs fs

module _ (files : List File) (slugs : List Chars) where
  abbrev pub add_present : FileName → List FileName → List FileName
  add_present f fs = if is_file files f then add_file f fs else fs

  abbrev pub add_companion : Chars → List FileName → List FileName
  add_companion s fs =
      add_present record { stem = s; extension = json }
        (add_present record { stem = s; extension = svg } (add_file (report s) fs))

  abbrev pub follow_link : Chars → Chars → Walk → Walk
  follow_link stem s w =
      if is_file files (report s)
      then record w { reachable = add_companion s w.reachable; queue = s ∷ w.queue }
      else if mem_chars s slugs
      then w
      else record w { errors = w.errors ++ link_to_nothing stem s ∷ [] }

  abbrev pub follow_sidecar : Chars → FileName → Walk → Walk
  follow_sidecar stem f w =
      if is_file files f
      then record w { reachable = add_file f w.reachable }
      else record w { errors = w.errors ++ sidecar_missing stem f ∷ [] }

  abbrev pub follow_ref : Chars → FileName → Walk → Walk
  follow_ref stem r w =
      if is_link r.extension then follow_link stem r.stem w else follow_sidecar stem r w

  unfoldable pub follow_all : Chars → List FileName → Walk → Walk
  unfolding is_file
  follow_all stem [] w = w
  follow_all stem (r ∷ rs) w = follow_all stem rs (follow_ref stem r w)

  -- `_regression_follow_refs`
  abbrev pub follow_text : Chars → Option Chars → Walk → Walk
  follow_text stem none w = record w { errors = w.errors ++ unreadable stem ∷ [] }
  follow_text stem (some text) w = follow_all stem (refs_of (some text)) w

  unfoldable pub follow_refs : Chars → Walk → Walk
  unfolding follow_all read_text refs_of
  follow_refs stem w = follow_text stem (read_text files (report stem)) w

  -- One round of the `while` loop, for the report that was popped.
  abbrev pub visit : List Chars → Chars → Walk → List Chars × Walk
  visit seen s w =
      if mem_chars s seen
      then (seen, w)
      else (s ∷ seen, if is_file files (report s) then follow_refs s w else w)

  -- The `while` loop on fuel, with the queue of the walk written out; `none` when it is spent.
  unfoldable pub walk : ℕ → List Chars → List Chars → Walk → Option Walk
  unfolding follow_refs is_file
  walk fuel seen [] w = some w
  walk zero seen (s ∷ ss) w = none
  walk (suc fuel) seen (s ∷ ss) w =
      let (seen', w') = visit seen s (record w { queue = ss }) in walk fuel seen' w'.queue w'

  abbrev pub require : FileName → List FileName × List Issue → List FileName × List Issue
  require f (fs, es) =
      if is_file files f then (add_file f fs, es) else (fs, es ++ missing_for_slug f ∷ [])

  -- The first pass: the three files of each slug.
  unfoldable pub triples : List Chars → List FileName × List Issue → List FileName × List Issue
  unfolding is_file
  triples [] acc = acc
  triples (s ∷ ss) acc = triples ss (
      require record { stem = s; extension = json }
        (require record { stem = s; extension = svg } (require (report s) acc)))

  -- `_regression_closure`. The queue starts with the last slug, as `pop` takes it first.
  unfoldable pub regression_closure : Option Walk
  unfolding walk triples count_refs sort
  regression_closure =
      let (fs, es) = triples (sort leb_chars slugs) ([], []) in
      let queue = sort (λ a b. leb_chars b a) slugs in
      walk (length slugs + count_refs files) [] queue
        record { reachable = fs; queue = queue; errors = es }

abbrev pub suffix : Extension → Chars
suffix md = codes ".md"
suffix html = codes ".html"
suffix svg = codes ".svg"
suffix json = codes ".json"

-- `sorted` on names of files.
abbrev pub leb_file : FileName → FileName → Bool
leb_file f g = leb_chars (f.stem ++ suffix f.extension) (g.stem ++ suffix g.extension)

-- `_regression_sanitize`; `gate` is the check of the web package, with its message.
abbrev pub unsafe_text : FileName → Option Chars → List Issue → List Issue
unsafe_text f none es = es
unsafe_text f (some message) es = unsafe f message ∷ es

unfoldable pub regression_sanitize :
    (FileName → Option Chars → Option Chars) → List File → List FileName → List Issue
unfolding is_file read_text
regression_sanitize gate files [] = []
regression_sanitize gate files (f ∷ fs) =
    let rest = regression_sanitize gate files fs in
    if is_file files f then unsafe_text f (gate f (read_text files f)) rest else rest

abbrev pub lower : Chars → Chars
lower = map (λ c. if leb 65 c && leb c 90 then c + 32 else c)

-- The reports that no slug leads to.
abbrev pub is_orphan : List FileName → FileName → Bool
is_orphan reachable f =
    not (mem_file f reachable)
    && not (eq_chars (lower f.stem) (codes "readme") && same_extension f.extension md)

abbrev pub after_closure :
    (FileName → Option Chars → Option Chars)
    → List File
    → List Issue
    → Option Walk
    → Option (List Issue × List Issue)
after_closure gate files errors none = none
after_closure gate files errors (some w) = some (
  errors ++ w.errors ++ regression_sanitize gate files (sort leb_file w.reachable),
  map orphan (sort leb_file (keep_if (is_orphan w.reachable) (map (λ f. f.name) files))),
)

-- `_check_regression`, on the directory if there is one: the errors and the warnings. The files of
-- the directory with other extensions are left out.
unfoldable pub check_regression :
    (FileName → Option Chars → Option Chars)
    → Option (List File)
    → List Chars
    → Option (List Issue × List Issue)
unfolding regression_slugs regression_closure regression_sanitize sort
check_regression gate none cells =
    let (slugs, errors) = regression_slugs cells in
    some (errors, if is_empty slugs then [] else no_directory (length slugs) ∷ [])
check_regression gate (some files) cells =
    let (slugs, errors) = regression_slugs cells in
    after_closure gate files errors (regression_closure files slugs)
