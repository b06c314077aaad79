-- ===== src/Validate/Reached.antt =====
-- That `_regression_closure` of src/kayak/cli/validate_dataset.py ends, and with which reports.
use kayak_python.Base.{
  ℕ, zero, suc, ◌+◌, ◌≤◌, ◌≡◌, refl, sym, ap, subst, ◌∙◌, ◌⊎◌, Bool, true, false, ◌||◌, some, List,
  [], ◌∷◌, length, if◌then◌else◌, arith, Bool-cases, inl, inr,
}
use kayak_python.Base.Chars.{Chars, eq_chars, mem_chars, eq_chars→≡, eq_chars_self}
use kayak_python.Validate.Regression.{File, mem_file, report, is_file}
use kayak_python.Validate.Closure.{Walk, visit, walk}
use kayak_python.Validate.Steps.{linked}
use kayak_python.Validate.Closed.{
  refs, IsPublished, by_link, next, next-queue, next-reachable, next-length, refs-file,
}
use kayak_python.Validate.Measure.{weight, weight-seen}

module _ (files : List File) (slugs : List Chars) where
  -- A report that was popped, or waits in the queue.
  abbrev pub is_known : List Chars → Walk → Chars → Bool
  is_known seen w s = mem_chars s seen || mem_chars s w.queue

  -- What holds at each round of the walk.
  pub record IsWalk (seen : List Chars) (w : Walk) : Type 0 where
    pub slugs_known : (s : Chars) → mem_chars s slugs ≡ true → is_known seen w s ≡ true
    pub known_reachable :
        (s : Chars)
        → is_known seen w s ≡ true
        → is_file files (report s) ≡ true
        → mem_file (report s) w.reachable ≡ true
    pub reachable_published :
        (s : Chars) → mem_file (report s) w.reachable ≡ true → IsPublished files slugs s
    pub reachable_known :
        (s : Chars) → mem_file (report s) w.reachable ≡ true → is_known seen w s ≡ true
    pub followed :
        (p s : Chars)
        → mem_chars p seen ≡ true
        → linked files slugs s (refs files slugs p) ≡ true
        → is_known seen w s ≡ true

  -- A report that was seen before is passed over.
  known-drop :
      (seen ss : List Chars) (s x : Chars)
      → mem_chars s seen ≡ true
      → (mem_chars x seen || mem_chars x (s ∷ ss)) ≡ true
      → (mem_chars x seen || mem_chars x ss) ≡ true
  known-drop seen ss s x m h = elim (Bool-cases (eq_chars x s)) [
    | inl e ↦
        (let k = subst (λ y. mem_chars y seen ≡ true) (sym (eq_chars→≡ x s e)) m in
          ground (arith, k))
    | inr e ↦ ground (arith, e, h)
  ]

  seen-IsWalk :
      (seen ss : List Chars) (s : Chars) (w : Walk)
      → mem_chars s seen ≡ true
      → w.queue ≡ s ∷ ss
      → IsWalk seen w
      → IsWalk seen record w { queue = ss }
  seen-IsWalk seen ss s w m q h =
      let drop : (x : Chars)
          → is_known seen w x ≡ true
          → (mem_chars x seen || mem_chars x ss) ≡ true =
        λ x k.
          known-drop seen ss s x m
            (subst (λ qs. (mem_chars x seen || mem_chars x qs) ≡ true) q k) in
      let back : (x : Chars)
          → (mem_chars x seen || mem_chars x ss) ≡ true
          → is_known seen w x ≡ true =
        λ x k.
          subst (λ qs. (mem_chars x seen || mem_chars x qs) ≡ true) (sym q) (ground (arith, k)) in
      record {
        slugs_known = λ x k. drop x (h.slugs_known x k);
        known_reachable = λ x k f. h.known_reachable x (back x k) f;
        reachable_published = h.reachable_published;
        reachable_known = λ x k. drop x (h.reachable_known x k);
        followed = λ p x k l. drop x (h.followed p x k l);
      }

  -- A round adds the links `l` of a report that is published when it is there.
  extend-IsWalk :
      (seen seen' : List Chars) (w w' : Walk) (l : Chars → Bool)
      → ((x : Chars) → is_known seen' w' x ≡ (l x || is_known seen w x))
      → ((x : Chars) → mem_file (report x) w'.reachable ≡ (l x || mem_file (report x) w.reachable))
      → ((x : Chars) → l x ≡ true → IsPublished files slugs x)
      → ((p x : Chars)
          → mem_chars p seen' ≡ true
          → linked files slugs x (refs files slugs p) ≡ true
          → (mem_chars p seen ≡ true) ⊎ (l x ≡ true))
      → IsWalk seen w
      → IsWalk seen' w'
  extend-IsWalk seen seen' w w' l known reach published follow h = record {
    slugs_known = λ x k. ground (arith, known x, h.slugs_known x k);
    known_reachable = λ x k f. elim (Bool-cases (l x)) [
      | inl e ↦ ground (arith, reach x, e)
      | inr e ↦
          (let old : is_known seen w x ≡ true = ground (arith, known x, k, e) in
            ground (arith, reach x, h.known_reachable x old f))
    ];
    reachable_published = λ x k. elim (Bool-cases (l x)) [
      | inl e ↦ published x e
      | inr e ↦ h.reachable_published x (ground (arith, reach x, k, e))
    ];
    reachable_known = λ x k. elim (Bool-cases (l x)) [
      | inl e ↦ ground (arith, known x, e)
      | inr e ↦
          (let old : mem_file (report x) w.reachable ≡ true = ground (arith, reach x, k, e) in
            ground (arith, known x, h.reachable_known x old))
    ];
    followed = λ p x k m. elim (follow p x k m) [
      | inl o ↦ ground (arith, known x, h.followed p x o m)
      | inr e ↦ ground (arith, known x, e)
    ];
  }

  regroup : (a b c l : Bool) → ((a || b) || (l || c)) ≡ (l || (b || (a || c)))
  regroup true true true true = refl
  regroup true true true false = refl
  regroup true true false true = refl
  regroup true true false false = refl
  regroup true false true true = refl
  regroup true false true false = refl
  regroup true false false true = refl
  regroup true false false false = refl
  regroup false true true true = refl
  regroup false true true false = refl
  regroup false true false true = refl
  regroup false true false false = refl
  regroup false false true true = refl
  regroup false false true false = refl
  regroup false false false true = refl
  regroup false false false false = refl

  next-IsWalk :
      (seen ss : List Chars) (s : Chars) (w : Walk)
      → w.queue ≡ s ∷ ss
      → IsWalk seen w
      → IsWalk (s ∷ seen) (next files slugs s record w { queue = ss })
  next-IsWalk seen ss s w q h =
      extend-IsWalk seen (s ∷ seen) w (next files slugs s record w { queue = ss })
        (λ x. linked files slugs x (refs files slugs s))
        (λ x.
          ap (λ b. mem_chars x (s ∷ seen) || b) (next-queue files slugs s x record w { queue = ss })
          ∙ regroup (eq_chars x s) (mem_chars x seen) (mem_chars x ss)
              (linked files slugs x (refs files slugs s))
          ∙ ap
              (λ qs.
                linked files slugs x (refs files slugs s) || (mem_chars x seen || mem_chars x qs))
              (sym q))
        (λ x. next-reachable files slugs s x record w { queue = ss })
        (λ x e. by_link s x (popped x e) e)
        (λ p x k m. elim (Bool-cases (eq_chars p s)) [
          | inl e ↦
              inr
                (subst (λ y. linked files slugs x (refs files slugs y) ≡ true) (eq_chars→≡ p s e) m)
          | inr e ↦ inl (ground (arith, k, e))
        ])
        h
    where
      -- A report with links is there, and so it was found before.
      popped :
          (x : Chars) → linked files slugs x (refs files slugs s) ≡ true → IsPublished files slugs s
      popped x e = h.reachable_published s (
          h.known_reachable s
            (subst (λ qs. (mem_chars s seen || mem_chars s qs) ≡ true) (sym q)
              (ground (arith, eq_chars_self s)))
            (refs-file files slugs x s e))

  visit-seen :
      (seen : List Chars) (s : Chars) (w : Walk)
      → mem_chars s seen ≡ true
      → ◌≡◌ {A = List Chars × Walk} (visit files slugs seen s w) (seen, w)
  visit-seen seen s w e = rw (e, if◌then◌else◌) refl

  visit-next :
      (seen : List Chars) (s : Chars) (w : Walk)
      → mem_chars s seen ≡ false
      → ◌≡◌ {A = List Chars × Walk} (visit files slugs seen s w) (s ∷ seen, next files slugs s w)
  visit-next seen s w e = rw (e, if◌then◌else◌) refl

  walk-seen :
      (fuel : ℕ) (seen ss : List Chars) (s : Chars) (w : Walk)
      → mem_chars s seen ≡ true
      → walk files slugs (suc fuel) seen (s ∷ ss) w
        ≡ walk files slugs fuel seen ss record w { queue = ss }
  unfolding walk
  walk-seen fuel seen ss s w e =
      ap (λ (v : List Chars × Walk). walk files slugs fuel v.0 v.1.queue v.1)
        (visit-seen seen s record w { queue = ss } e)

  walk-next :
      (fuel : ℕ) (seen ss : List Chars) (s : Chars) (w : Walk)
      → mem_chars s seen ≡ false
      → walk files slugs (suc fuel) seen (s ∷ ss) w
        ≡ walk files slugs fuel
            (s ∷ seen)
            (next files slugs s record w { queue = ss }).queue
            (next files slugs s record w { queue = ss })
  unfolding walk
  walk-next fuel seen ss s w e =
      ap (λ (v : List Chars × Walk). walk files slugs fuel v.0 v.1.queue v.1)
        (visit-next seen s record w { queue = ss } e)

  -- With fuel for the queue and for the links of the reports that were not seen, the walk ends.
  pub walk-ends :
      (fuel : ℕ) (seen queue : List Chars) (w : Walk)
      → length queue + weight seen files ≤ fuel
      → w.queue ≡ queue
      → IsWalk seen w
      → (w' : Walk) × (seen' : List Chars) × (walk files slugs fuel seen queue w ≡ some w')
        × (w'.queue ≡ [])
        × IsWalk seen' w'
  unfolding walk
  walk-ends fuel seen [] w f q h = (w, seen, refl, q, h)
  walk-ends zero seen (s ∷ ss) w f q h = absurd (omega arith)
  walk-ends (suc fuel) seen (s ∷ ss) w f q h = elim (Bool-cases (mem_chars s seen)) [
    | inl e ↦
        (let r =
            walk-ends fuel seen ss record w { queue = ss } (omega arith) refl
              (seen-IsWalk seen ss s w e q h) in
          (r.0, r.1, walk-seen fuel seen ss s w e ∙ r.2, r.3, r.4))
    | inr e ↦
        (let w' = next files slugs s record w { queue = ss } in
          let r =
            walk-ends fuel (s ∷ seen) w'.queue w'
              (omega (
                arith,
                next-length files slugs s record w { queue = ss },
                weight-seen s seen files e,
              ))
              refl (next-IsWalk seen ss s w q h) in
          (r.0, r.1, walk-next fuel seen ss s w e ∙ r.2, r.3, r.4))
  ]
