-- ===== src/Validate/Found.antt =====
-- The result of `_regression_closure` of src/kayak/cli/validate_dataset.py.
use kayak_python.Base.{
  ◌+◌, ◌≡◌, refl, ap, subst, ◌∙◌, ◌↔◌, true, false, ◌&&◌, ◌||◌, some, List, [], ◌∷◌, length,
  if◌then◌else◌, arith, Bool-cases, inl, inr,
}
use kayak_python.Base.Chars.{Chars, eq_chars, mem_chars, leb_chars, eq_chars→≡}
use kayak_python.Base.Sort.{sort, length-sort, any-sort}
use kayak_python.Validate.Regression.{
  svg, json, FileName, File, Issue, same_file, mem_file, report, is_file,
}
use kayak_python.Validate.Closure.{Walk, require, triples, count_refs, regression_closure}
use kayak_python.Validate.Steps.{mem_file-add_file}
use kayak_python.Validate.Closed.{refs, IsPublished, by_slug, by_link, linked-file}
use kayak_python.Validate.Measure.{weight-count_refs}
use kayak_python.Validate.Reached.{IsWalk, walk-ends}

module _ (files : List File) (slugs : List Chars) where
  require-mem :
      (s : Chars) (f : FileName) (acc : List FileName × List Issue)
      → mem_file (report s) (require files slugs f acc).0
        ≡ ((same_file (report s) f && is_file files f) || mem_file (report s) acc.0)
  require-mem s f acc = elim (Bool-cases (is_file files f)) [
    | inl e ↦ rw (e, if◌then◌else◌, mem_file-add_file s f acc.0) (ground arith)
    | inr e ↦ rw (e, if◌then◌else◌) (ground arith)
  ]

  one-file :
      (s t : Chars)
      → (eq_chars s t && is_file files (report t)) ≡ (eq_chars s t && is_file files (report s))
  one-file s t = elim (Bool-cases (eq_chars s t)) [
    | inl e ↦ rw (e, eq_chars→≡ s t e) refl
    | inr e ↦ rw (e) refl
  ]

  triples-mem :
      (s : Chars) (ss : List Chars) (acc : List FileName × List Issue)
      → mem_file (report s) (triples files slugs ss acc).0
        ≡ ((mem_chars s ss && is_file files (report s)) || mem_file (report s) acc.0)
  unfolding triples
  triples-mem s [] acc = refl
  triples-mem s (t ∷ ts) acc =
      let a = require files slugs (report t) acc in
      let b = require files slugs record { stem = t; extension = svg } a in
      triples-mem s ts (require files slugs record { stem = t; extension = json } b)
      ∙ ground (
        arith,
        require-mem s (report t) acc,
        require-mem s record { stem = t; extension = svg } a,
        require-mem s record { stem = t; extension = json } b,
        one-file s t,
      )

  start : Walk
  start = record {
    reachable = (triples files slugs (sort leb_chars slugs) ([], [])).0;
    queue = sort (λ a b. leb_chars b a) slugs;
    errors = (triples files slugs (sort leb_chars slugs) ([], [])).1;
  }

  start-reachable :
      (s : Chars)
      → mem_file (report s) (triples files slugs (sort leb_chars slugs) ([], [])).0
        ≡ (mem_chars s slugs && is_file files (report s))
  start-reachable s =
      triples-mem s (sort leb_chars slugs) ([], [])
      ∙ ap (λ b. (b && is_file files (report s)) || false) (any-sort leb_chars (eq_chars s) slugs)
      ∙ ground arith

  start-IsWalk : IsWalk files slugs [] start
  unfolding start
  start-IsWalk =
      let queued : (s : Chars)
          → mem_chars s (sort (λ a b. leb_chars b a) slugs) ≡ mem_chars s slugs =
        λ s. any-sort (λ a b. leb_chars b a) (eq_chars s) slugs in
      record {
        slugs_known = λ s k. queued s ∙ k;
        known_reachable = λ s k f. ground (arith, start-reachable s, queued s, k, f);
        reachable_published = λ s k.
            by_slug s (ground (arith, start-reachable s, k)) (ground (arith, start-reachable s, k));
        reachable_known = λ s k. ground (arith, start-reachable s, queued s, k);
        followed = λ p s k l. absurd (ground (arith, k));
      }

  -- The walk found exactly the published reports.
  abbrev pub IsExact : Walk → Type 0
  IsExact w = (s : Chars) → (mem_file (report s) w.reachable ≡ true) ↔ IsPublished files slugs s

  ended-IsExact :
      (seen : List Chars) (w : Walk) → w.queue ≡ [] → IsWalk files slugs seen w → IsExact w
  ended-IsExact seen w q h s = (h.reachable_published s, found s)
    where
      known :
          (x : Chars) → (mem_chars x seen || mem_chars x w.queue) ≡ true → mem_chars x seen ≡ true
      known x k =
          let k' = subst (λ qs. (mem_chars x seen || mem_chars x qs) ≡ true) q k in
          ground (arith, k')

      found : (x : Chars) → IsPublished files slugs x → mem_file (report x) w.reachable ≡ true
      found x (by_slug _ k f) = h.known_reachable x (h.slugs_known x k) f
      found x (by_link p _ k l) =
          h.known_reachable x (h.followed p x (known p (h.reachable_known p (found p k))) l)
            (linked-file files slugs x (refs files slugs p) l)

  -- The walk over the links ends, within as many rounds as there are slugs and links in the reports
  -- of the directory, and the reports among the reachable files are exactly the published ones:
  -- those of the slugs that are there, and those that are there and that a published report links to.
  pub regression_closure-IsExact :
      (w : Walk) × (regression_closure files slugs ≡ some w) × IsExact w
  unfolding regression_closure start
  regression_closure-IsExact =
      let r =
        walk-ends files slugs (length slugs + count_refs files) []
          (sort (λ a b. leb_chars b a) slugs) start
          (omega (arith, length-sort (λ a b. leb_chars b a) slugs, weight-count_refs [] files)) refl
          start-IsWalk in
      (r.0, r.2, ended-IsExact r.1 r.0 r.3 r.4)
