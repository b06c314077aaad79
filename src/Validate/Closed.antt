-- ===== src/Validate/Closed.antt =====
-- What a round of the second pass of `_regression_closure` of src/kayak/cli/validate_dataset.py adds,
-- and the reports that it is to find.
use kayak_python.Base.{
  ◌+◌, ◌≤◌, ◌≡◌, refl, sym, subst, true, false, ◌||◌, Option, none, some, List, [], ◌∷◌, length,
  if◌then◌else◌, arith, Bool-cases, inl, inr,
}
use kayak_python.Base.Chars.{Chars, mem_chars, eq_chars→≡}
use kayak_python.Validate.Regression.{
  FileName, File, same_file, mem_file, report, is_file, read_text, refs_of,
}
use kayak_python.Validate.Closure.{Walk, follow_text, follow_refs}
use kayak_python.Validate.Steps.{
  leads_to, linked, follow_all-queue, follow_all-reachable, follow_all-length,
}

module _ (files : List File) (slugs : List Chars) where
  abbrev pub refs : Chars → List FileName
  refs s = refs_of (read_text files (report s))

  -- The reports that a reader can come to: the report of a slug, and what a report links to.
  pub data IsPublished : Chars → Type 0 where
    by_slug :
        (s : Chars) → mem_chars s slugs ≡ true → is_file files (report s) ≡ true → IsPublished s
    by_link : (p s : Chars) → IsPublished p → linked files slugs s (refs p) ≡ true → IsPublished s

  no_file-refs :
      (gs : List File) (f : FileName) → is_file gs f ≡ false → refs_of (read_text gs f) ≡ []
  unfolding is_file read_text refs_of
  no_file-refs [] f h = refl
  no_file-refs (g ∷ gs) f h =
      let e : same_file g.name f ≡ false = ground arith in
      rw (e, if◌then◌else◌) (no_file-refs gs f (ground arith))

  text-queue :
      (stem s : Chars) (text : Option Chars) (w : Walk)
      → mem_chars s (follow_text files slugs stem text w).queue
        ≡ (linked files slugs s (refs_of text) || mem_chars s w.queue)
  unfolding refs_of
  text-queue stem s none w = refl
  text-queue stem s (some text) w = follow_all-queue files slugs stem s (refs_of (some text)) w

  text-reachable :
      (stem s : Chars) (text : Option Chars) (w : Walk)
      → mem_file (report s) (follow_text files slugs stem text w).reachable
        ≡ (linked files slugs s (refs_of text) || mem_file (report s) w.reachable)
  unfolding refs_of
  text-reachable stem s none w = refl
  text-reachable stem s (some text) w =
      follow_all-reachable files slugs stem s (refs_of (some text)) w

  text-length :
      (stem : Chars) (text : Option Chars) (w : Walk)
      → length (follow_text files slugs stem text w).queue ≤ length (refs_of text) + length w.queue
  unfolding refs_of
  text-length stem none w = omega arith
  text-length stem (some text) w = follow_all-length files slugs stem (refs_of (some text)) w

  -- The walk after a report that was not seen before.
  abbrev pub next : Chars → Walk → Walk
  next s w = if is_file files (report s) then follow_refs files slugs s w else w

  pub next-queue :
      (s x : Chars) (w : Walk)
      → mem_chars x (next s w).queue ≡ (linked files slugs x (refs s) || mem_chars x w.queue)
  unfolding follow_refs
  next-queue s x w = elim (Bool-cases (is_file files (report s))) [
    | inl e ↦ rw (e, if◌then◌else◌) (text-queue s x (read_text files (report s)) w)
    | inr e ↦ rw (e, if◌then◌else◌, no_file-refs files (report s) e) refl
  ]

  pub next-reachable :
      (s x : Chars) (w : Walk)
      → mem_file (report x) (next s w).reachable
        ≡ (linked files slugs x (refs s) || mem_file (report x) w.reachable)
  unfolding follow_refs
  next-reachable s x w = elim (Bool-cases (is_file files (report s))) [
    | inl e ↦ rw (e, if◌then◌else◌) (text-reachable s x (read_text files (report s)) w)
    | inr e ↦ rw (e, if◌then◌else◌, no_file-refs files (report s) e) refl
  ]

  pub next-length :
      (s : Chars) (w : Walk) → length (next s w).queue ≤ length (refs s) + length w.queue
  unfolding follow_refs
  next-length s w = elim (Bool-cases (is_file files (report s))) [
    | inl e ↦ rw (e, if◌then◌else◌) (text-length s (read_text files (report s)) w)
    | inr e ↦ rw (e, if◌then◌else◌) (omega arith)
  ]

  pub linked-file :
      (s : Chars) (rs : List FileName)
      → linked files slugs s rs ≡ true
      → is_file files (report s) ≡ true
  linked-file s [] h = absurd (ground arith)
  linked-file s (r ∷ rs) h = elim (Bool-cases (leads_to files slugs s r)) [
    | inl e ↦
        subst (λ x. is_file files (report x) ≡ true) (sym (eq_chars→≡ s r.stem (ground arith)))
          (ground arith)
    | inr e ↦ linked-file s rs (ground (arith, e, h))
  ]

  pub refs-file :
      (x s : Chars) → linked files slugs x (refs s) ≡ true → is_file files (report s) ≡ true
  refs-file x s h = elim (Bool-cases (is_file files (report s))) [
    | inl e ↦ e
    | inr e ↦
        (let k = subst (λ rs. linked files slugs x rs ≡ true) (no_file-refs files (report s) e) h in
          absurd (ground (arith, k)))
  ]
