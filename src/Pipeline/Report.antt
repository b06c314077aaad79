-- ===== src/Pipeline/Report.antt =====
-- A whole run of src/kayak/cli/pipeline.py over an ordered step list: its report and its exit code.
use kayak_python.Base.{
  String, ◌≡◌, refl, sym, Bool, true, false, ◌||◌, Option, List, [], ◌∷◌, any, arith, str_eq_self,
  All, ◌∙◌, ap, is_empty, if◌then◌else◌,
}
use kayak_python.Base.Dict.{Dict, get, get-put}
use kayak_python.Pipeline.{
  Step, Run, StepResult, skipped, Failures, blocks, should_skip, classify, skip_step, execute_step,
  visit, run_steps, complete, exit_suppressed, exit_one, ending, pipeline,
}
use kayak_python.Pipeline.Keep.{get-run_steps_ne}
use kayak_python.Pipeline.Cascade.{
  is_skipped, is_failed, IsOrdered, Settled, classify_not_skipped, run_steps-Settled,
}
use kayak_python.Pipeline.Failures.{is_counted, with_result, failed_names, run_steps_names}

ending-names :
    (c : Bool) (fs : Failures)
    → ending c fs
      ≡ (if is_empty (failed_names fs) then complete else if c then exit_suppressed else exit_one)
unfolding ending
ending-names c [] = refl
ending-names true (f ∷ fs) = refl
ending-names false (f ∷ fs) = refl

blocks-or : (o : Option StepResult) → blocks o ≡ (is_failed o || is_skipped o)
blocks-or o = ground arith

module _ {ℓ} {W : Type ℓ} (run_id : String) (c : Bool) where
  -- No entry blocks another step.
  abbrev Clear : Run W → Type 0
  Clear r = (j : String) → blocks (get j r.results) ≡ false

  any-Clear :
      (r : Run W) (reqs : List String) → Clear r → any (λ q. blocks (get q r.results)) reqs ≡ false
  any-Clear r [] h = refl
  any-Clear r (q ∷ reqs) h = ground (arith, h q, any-Clear r reqs h)

  visit-Clear :
      (s : Step W) (r : Run W)
      → Clear r
      → is_failed (get s.name (visit run_id c s r).results) ≡ false
      → Clear (visit run_id c s r)
  unfolding visit skip_step execute_step should_skip
  visit-Clear s r h ran j =
      let (outcome, w) = s.fn r.world in
      ground (
        arith,
        h j,
        any-Clear r s.requires h,
        str_eq_self s.name,
        get-put s.name s.name skipped r.results,
        get-put s.name j skipped r.results,
        get-put s.name s.name (classify s.name s.soft outcome r.failures).0 r.results,
        get-put s.name j (classify s.name s.soft outcome r.failures).0 r.results,
        classify_not_skipped s.name s.soft outcome r.failures,
      )

  run_steps-Clear :
      (steps : List (Step W)) (r : Run W)
      → IsOrdered steps
      → Clear r
      → All (λ s. is_failed (get s.name (run_steps run_id c steps r).results) ≡ false) steps
      → Clear (run_steps run_id c steps r)
  unfolding run_steps
  run_steps-Clear [] r o h ran = h
  run_steps-Clear (s ∷ rest) r o h ran =
      run_steps-Clear rest (visit run_id c s r) o.2
        (visit-Clear s r h (
          ap is_failed (sym (get-run_steps_ne run_id c rest (visit run_id c s r) s.name o.0))
          ∙ ran.0))
        ran.1

  with_result-none :
      (p : Option StepResult → Bool) (d : Dict StepResult) (steps : List (Step W))
      → ((s : Step W) → p (get s.name d) ≡ false)
      → with_result p d steps ≡ []
  with_result-none p d [] h = refl
  with_result-none p d (s ∷ rest) h = ground (arith, h s, with_result-none p d rest h)

module _ {ℓ} {W : Type ℓ} (optimize : W → W) (run_id : String) where
  module _ (steps : List (Step W)) (skip_fetch c : Bool) (w : W) (o : IsOrdered steps) where
    -- For a step list with distinct names and requirements that stand earlier, the failure list
    -- names exactly the steps whose entry is `failed` or `soft_failed`, the skipped list exactly
    -- those whose entry is `skipped`, each in list order; and the command exits with 1 exactly
    -- when the failure list is not empty and `--continue-on-error` is not given.
    pub pipeline_report :
        let (e, r) = pipeline optimize run_id steps skip_fetch c w in
        (failed_names r.failures ≡ with_result is_counted r.results steps)
        × (r.skipped_names ≡ with_result is_skipped r.results steps)
        × (e ≡ (
            if is_empty (with_result is_counted r.results steps)
            then complete
            else if c
            then exit_suppressed
            else exit_one))
    unfolding pipeline
    pipeline_report =
        let both = run_steps_names run_id c steps _ o in
        (both.0, both.1, rw (← both.0) (ending-names c _))

    -- After a run over such a list, a step's entry is `skipped` exactly when the rule of
    -- `_should_skip` holds of the final results.
    pub pipeline-Settled :
        All (Settled c (pipeline optimize run_id steps skip_fetch c w).1.results) steps
    unfolding pipeline
    pipeline-Settled = run_steps-Settled run_id c steps _ o

    -- When no step of such a list ends as `failed`, however many end as `soft_failed`, no step is
    -- skipped.
    pub soft_never_cascades :
        All
          (λ s.
            is_failed (get s.name (pipeline optimize run_id steps skip_fetch c w).1.results)
            ≡ false)
          steps
        → (pipeline optimize run_id steps skip_fetch c w).1.skipped_names ≡ []
    unfolding pipeline get
    soft_never_cascades h =
        let clear = run_steps-Clear run_id c steps _ o (λ j. refl) h in
        (run_steps_names run_id c steps _ o).1
        ∙ with_result-none run_id c is_skipped _ steps (λ s. ground (
          arith,
          clear s.name,
          blocks-or (get s.name (pipeline optimize run_id steps skip_fetch c w).1.results),
        ))
