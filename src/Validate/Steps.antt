-- ===== src/Validate/Steps.antt =====
-- What one report adds to the queue and to the reachable files in `_regression_follow_refs` of
-- src/kayak/cli/validate_dataset.py.
use kayak_python.Base.{
  suc, ◌+◌, ◌≤◌, ◌≡◌, refl, sym, ap, subst, ◌∙◌, Bool, true, false, ◌&&◌, ◌||◌, List, [], ◌∷◌, any,
  length, if◌then◌else◌, arith, Bool-cases, inl, inr,
}
use kayak_python.Base.Chars.{Chars, eq_chars, mem_chars, eq_chars→≡}
use kayak_python.Validate.Regression.{
  Extension, md, html, svg, json, same_extension, FileName, File, same_file, mem_file, add_file,
  report, is_file,
}
use kayak_python.Validate.Closure.{
  Walk, is_link, add_present, add_companion, follow_ref, follow_all,
}

same_extension→≡ : (d e : Extension) → same_extension d e ≡ true → d ≡ e
same_extension→≡ md md h = refl
same_extension→≡ html html h = refl
same_extension→≡ svg svg h = refl
same_extension→≡ json json h = refl
same_extension→≡ _ _ h = absurd (ground arith)

pub same_file→≡ : (f g : FileName) → same_file f g ≡ true → f ≡ g
same_file→≡ f g h =
    ap (λ s. record { stem = s; extension = f.extension }) (eq_chars→≡ f.stem g.stem (ground arith))
    ∙ ap (λ e. record { stem = g.stem; extension = e })
        (same_extension→≡ f.extension g.extension (ground arith))

-- Whether a set holds a report, after a file was added.
pub mem_file-add_file :
    (s : Chars) (f : FileName) (fs : List FileName)
    → mem_file (report s) (add_file f fs) ≡ (same_file (report s) f || mem_file (report s) fs)
mem_file-add_file s f fs = elim (Bool-cases (mem_file f fs)) [
  | inl e ↦ elim (Bool-cases (same_file (report s) f)) [
    | inl k ↦
        (let there = subst (λ g. mem_file g fs ≡ true) (sym (same_file→≡ (report s) f k)) e in
          rw (e, if◌then◌else◌, k, there) refl)
    | inr k ↦ rw (e, if◌then◌else◌, k) refl
  ]
  | inr e ↦ rw (e, if◌then◌else◌) refl
]

no_link : (e : Extension) → is_link e ≡ false → same_extension md e ≡ false
no_link md h = absurd (ground arith)
no_link html h = refl
no_link svg h = refl
no_link json h = refl

swap_or : (a b c : Bool) → (a || (b || c)) ≡ ((b || a) || c)
swap_or true true c = refl
swap_or true false c = refl
swap_or false true c = refl
swap_or false false c = refl

module _ (files : List File) (slugs : List Chars) where
  mem_file-add_present :
      (s : Chars) (f : FileName) (fs : List FileName)
      → same_file (report s) f ≡ false
      → mem_file (report s) (add_present files slugs f fs) ≡ mem_file (report s) fs
  mem_file-add_present s f fs h = elim (Bool-cases (is_file files f)) [
    | inl e ↦ rw (e, if◌then◌else◌, mem_file-add_file s f fs, h) refl
    | inr e ↦ rw (e, if◌then◌else◌) refl
  ]

  mem_file-add_companion :
      (s t : Chars) (fs : List FileName)
      → mem_file (report s) (add_companion files slugs t fs)
        ≡ (eq_chars s t || mem_file (report s) fs)
  mem_file-add_companion s t fs =
      mem_file-add_present s _ _ (ground arith)
      ∙ mem_file-add_present s _ _ (ground arith)
      ∙ mem_file-add_file s (report t) fs
      ∙ ground arith

  -- The reports of the directory that a reference leads to.
  abbrev pub leads_to : Chars → FileName → Bool
  leads_to s r = is_link r.extension && is_file files (report r.stem) && eq_chars s r.stem

  follow_ref-queue :
      (stem s : Chars) (r : FileName) (w : Walk)
      → mem_chars s (follow_ref files slugs stem r w).queue ≡ (leads_to s r || mem_chars s w.queue)
  follow_ref-queue stem s r w = ground arith

  follow_ref-reachable :
      (stem s : Chars) (r : FileName) (w : Walk)
      → mem_file (report s) (follow_ref files slugs stem r w).reachable
        ≡ (leads_to s r || mem_file (report s) w.reachable)
  follow_ref-reachable stem s r w = elim (Bool-cases (is_link r.extension)) [
    | inl e ↦ elim (Bool-cases (is_file files (report r.stem))) [
      | inl k ↦ rw (e, k, if◌then◌else◌) (mem_file-add_companion s r.stem w.reachable)
      | inr k ↦ elim (Bool-cases (mem_chars r.stem slugs)) [
        | inl m ↦ rw (e, k, m, if◌then◌else◌) refl
        | inr m ↦ rw (e, k, m, if◌then◌else◌) refl
      ]
    ]
    | inr e ↦ elim (Bool-cases (is_file files r)) [
      | inl k ↦
          rw (e, k, if◌then◌else◌, mem_file-add_file s r w.reachable, no_link r.extension e)
            (ground arith)
      | inr k ↦ rw (e, k, if◌then◌else◌) refl
    ]
  ]

  -- What a whole report adds.
  abbrev pub linked : Chars → List FileName → Bool
  linked s rs = any (leads_to s) rs

  pub follow_all-queue :
      (stem s : Chars) (rs : List FileName) (w : Walk)
      → mem_chars s (follow_all files slugs stem rs w).queue ≡ (linked s rs || mem_chars s w.queue)
  unfolding follow_all
  follow_all-queue stem s [] w = refl
  follow_all-queue stem s (r ∷ rs) w =
      follow_all-queue stem s rs (follow_ref files slugs stem r w)
      ∙ ap (λ b. linked s rs || b) (follow_ref-queue stem s r w)
      ∙ swap_or (linked s rs) (leads_to s r) (mem_chars s w.queue)

  pub follow_all-reachable :
      (stem s : Chars) (rs : List FileName) (w : Walk)
      → mem_file (report s) (follow_all files slugs stem rs w).reachable
        ≡ (linked s rs || mem_file (report s) w.reachable)
  unfolding follow_all
  follow_all-reachable stem s [] w = refl
  follow_all-reachable stem s (r ∷ rs) w =
      follow_all-reachable stem s rs (follow_ref files slugs stem r w)
      ∙ ap (λ b. linked s rs || b) (follow_ref-reachable stem s r w)
      ∙ swap_or (linked s rs) (leads_to s r) (mem_file (report s) w.reachable)

  follow_ref-length :
      (stem : Chars) (r : FileName) (w : Walk)
      → length (follow_ref files slugs stem r w).queue ≤ suc (length w.queue)
  follow_ref-length stem r w = ground arith

  pub follow_all-length :
      (stem : Chars) (rs : List FileName) (w : Walk)
      → length (follow_all files slugs stem rs w).queue ≤ length rs + length w.queue
  unfolding follow_all
  follow_all-length stem [] w = omega arith
  follow_all-length stem (r ∷ rs) w = omega (
    arith,
    follow_all-length stem rs (follow_ref files slugs stem r w),
    follow_ref-length stem r w,
  )
