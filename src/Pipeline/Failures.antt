-- ===== src/Pipeline/Failures.antt =====
-- What src/kayak/cli/pipeline.py reports of a run: the failure list and the skipped list.
use kayak_python.Base.{
  String, ◌≡◌, refl, sym, Bool, true, false, Option, none, some, List, [], ◌∷◌, ◌++◌, map,
  str_eq_self, ◌∙◌, ap, if◌then◌else◌, Bool-cases, inl, inr, ◌⊎◌,
}
use mathlib.Core.List.{map-append, append_assoc, append-nil}
use kayak_python.Base.Int.{is_nonzero}
use kayak_python.Base.Dict.{Dict, get, get-put}
use kayak_python.Pipeline.{
  Step, Run, StepResult, Outcome, returned_none, returned_bool, returned_int, system_exit,
  exception, Failures, Message, counts_as_failure, last_message, should_skip, classify, skip_step,
  execute_step, visit, run_steps, soft_message, exit_message, error_message, is_clean_exit,
}
use kayak_python.Pipeline.Keep.{get-run_steps_ne}
use kayak_python.Pipeline.Cascade.{is_skipped, IsOrdered, classify_not_skipped}

abbrev pub is_counted : Option StepResult → Bool
is_counted (some r) = counts_as_failure r
is_counted none = false

-- The names of the steps whose entry has the given property, in list order.
abbrev pub with_result {ℓ} :
    {W : Type ℓ} → (Option StepResult → Bool) → Dict StepResult → List (Step W) → List String
with_result p results [] = []
with_result p results (s ∷ rest) =
    if p (get s.name results)
    then s.name ∷ with_result p results rest
    else with_result p results rest

abbrev pub failed_names : Failures → List String
failed_names = map (λ f. f.0)

-- What one call adds to the failures.
Recorded : String → Failures → StepResult × Failures → Type 0
Recorded n fs (r, fs') =
    ((counts_as_failure r ≡ false) × (fs' ≡ fs))
    ⊎ ((counts_as_failure r ≡ true) × ((m : Message) × (fs' ≡ fs ++ (n, m) ∷ [])))

classify-Recorded :
    (n : String) (soft : Bool) (o : Outcome) (fs : Failures) → Recorded n fs (classify n soft o fs)
unfolding classify Recorded
classify-Recorded n soft returned_none fs = inl (refl, refl)
classify-Recorded n soft (returned_bool b) fs = inl (refl, refl)
classify-Recorded n false (returned_int rc) fs = inl (refl, refl)
classify-Recorded n true (returned_int rc) fs = elim (Bool-cases (is_nonzero rc)) [
  | inl e ↦ rw e (inr (refl, (soft_message rc, refl)))
  | inr e ↦ rw e (inl (refl, refl))
]
classify-Recorded n soft (system_exit e) fs = elim (Bool-cases (is_clean_exit e)) [
  | inl c ↦ rw c (inl (refl, refl))
  | inr c ↦ rw c (inr (refl, (exit_message e, refl)))
]
classify-Recorded n soft (exception e) fs = inr (refl, (error_message e, refl))

last_message-append :
    (fs : Failures) (n : String) (m : Message) → last_message (fs ++ (n, m) ∷ []) ≡ some m
last_message-append [] n m = refl
last_message-append (f ∷ []) n m = refl
last_message-append (f ∷ g ∷ fs) n m = last_message-append (g ∷ fs) n m

-- Whenever a result counts as a failure, `failures[-1]` is there to be reported.
pub classify_last :
    (n : String) (soft : Bool) (o : Outcome) (fs : Failures)
    → counts_as_failure (classify n soft o fs).0 ≡ true
    → (m : Message) × (last_message (classify n soft o fs).1 ≡ some m)
unfolding Recorded
classify_last n soft o fs h = elim (classify-Recorded n soft o fs) [
  | inl (no_count, same) ↦ absurd (cc)
  | inr (count, (m, e)) ↦ (m, ap last_message e ∙ last_message-append fs n m)
]

module _ {ℓ} {W : Type ℓ} (run_id : String) (c : Bool) where
  visit_names :
      (s : Step W) (r : Run W)
      → failed_names (visit run_id c s r).failures
        ≡ failed_names r.failures
          ++ (if is_counted (get s.name (visit run_id c s r).results) then s.name ∷ [] else [])
  unfolding visit skip_step execute_step Recorded
  visit_names s r =
      let (outcome, w) = s.fn r.world in
      elim (Bool-cases (should_skip s r.results c)) [
        | inl e ↦ rw e (simp (get-put, str_eq_self, append-nil))
        | inr e ↦ rw e (elim (classify-Recorded s.name s.soft outcome r.failures) [
          | inl (no_count, same) ↦ simp (get-put, str_eq_self, no_count, same, append-nil)
          | inr (count, (m, same)) ↦ simp (get-put, str_eq_self, count, same, map-append)
        ])
      ]

  visit_skipped_names :
      (s : Step W) (r : Run W)
      → (visit run_id c s r).skipped_names
        ≡ r.skipped_names
          ++ (if is_skipped (get s.name (visit run_id c s r).results) then s.name ∷ [] else [])
  unfolding visit skip_step execute_step
  visit_skipped_names s r =
      let (outcome, w) = s.fn r.world in
      elim (Bool-cases (should_skip s r.results c)) [
        | inl e ↦ rw e (simp (get-put, str_eq_self))
        | inr e ↦ rw e (simp (get-put, str_eq_self, append-nil, classify_not_skipped))
      ]

  with_result-cons :
      (p : Option StepResult → Bool) (xs : List String) (d : Dict StepResult) (s : Step W)
      (rest : List (Step W))
      → (xs ++ (if p (get s.name d) then s.name ∷ [] else [])) ++ with_result p d rest
        ≡ xs ++ with_result p d (s ∷ rest)
  with_result-cons p xs d s rest = elim (Bool-cases (p (get s.name d))) [
    | inl e ↦ rw e (append_assoc xs (s.name ∷ []) (with_result p d rest))
    | inr e ↦ rw e (ap (λ ys. ys ++ with_result p d rest) (append-nil xs))
  ]

  -- The failures of a run name the steps whose entry counts as a failure, and the skipped list
  -- those whose entry is `skipped`, each in list order.
  pub run_steps_names :
      (steps : List (Step W)) (r : Run W)
      → IsOrdered steps
      → (failed_names (run_steps run_id c steps r).failures
          ≡ failed_names r.failures
            ++ with_result is_counted (run_steps run_id c steps r).results steps)
        × ((run_steps run_id c steps r).skipped_names
            ≡ r.skipped_names ++ with_result is_skipped (run_steps run_id c steps r).results steps)
  unfolding run_steps
  run_steps_names [] r h = (sym (append-nil _), sym (append-nil _))
  run_steps_names (s ∷ rest) r h =
      let r' = visit run_id c s r in
      let d = (run_steps run_id c rest r').results in
      let later = get-run_steps_ne run_id c rest r' s.name h.0 in
      let ih = run_steps_names rest r' h.2 in
      (
        ih.0
            ∙ ap (λ xs. xs ++ with_result is_counted d rest) (rw later (visit_names s r))
            ∙ with_result-cons is_counted (failed_names r.failures) d s rest,
        ih.1
            ∙ ap (λ xs. xs ++ with_result is_skipped d rest) (rw later (visit_skipped_names s r))
            ∙ with_result-cons is_skipped r.skipped_names d s rest,
      )
