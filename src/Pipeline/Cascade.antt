-- ===== src/Pipeline/Cascade.antt =====
-- The skip cascade of src/kayak/cli/pipeline.py: which steps of a run are skipped, and which not.
use kayak_python.Base.{
  String, ◌≡◌, refl, sym, Bool, true, false, Option, some, List, [], ◌∷◌, any, arith, str_eq,
  str_eq_self, All, ◌∙◌, ap,
}
use kayak_python.Base.Dict.{Dict, get, get-put}
use kayak_python.Pipeline.{
  Step, Run, StepResult, failed, skipped, Outcome, returned_none, returned_bool, returned_int,
  system_exit, exception, Failures, blocks, should_skip, classify, skip_step, execute_step, visit,
  run_steps,
}
use kayak_python.Pipeline.Keep.{get-run_steps_ne}

abbrev pub is_skipped : Option StepResult → Bool
is_skipped (some skipped) = true
is_skipped _ = false

abbrev pub is_failed : Option StepResult → Bool
is_failed (some failed) = true
is_failed _ = false

abbrev pub named {ℓ} : {W : Type ℓ} → String → List (Step W) → Bool
named j steps = any (λ s. str_eq s.name j) steps

-- Names are distinct, and a step requires only names that stand before it, or no step at all.
abbrev pub IsOrdered {ℓ} : {W : Type ℓ} → List (Step W) → Type 0
IsOrdered [] = Unit {0}
IsOrdered (s ∷ rest) =
    (named s.name rest ≡ false)
    × (any (λ q. named q (s ∷ rest)) s.requires ≡ false)
    × IsOrdered rest

-- The entry of a step says that it was skipped exactly when the rule of `_should_skip` holds.
abbrev pub Settled {ℓ} : {W : Type ℓ} → Bool → Dict StepResult → Step W → Type 0
Settled c results s = is_skipped (get s.name results) ≡ should_skip s results c

pub classify_not_skipped :
    (n : String) (soft : Bool) (o : Outcome) (fs : Failures)
    → is_skipped (some (classify n soft o fs).0) ≡ false
unfolding classify
classify_not_skipped n soft returned_none fs = refl
classify_not_skipped n soft (returned_bool b) fs = refl
classify_not_skipped n false (returned_int rc) fs = refl
classify_not_skipped n true (returned_int rc) fs = ground arith
classify_not_skipped n soft (system_exit e) fs = ground arith
classify_not_skipped n soft (exception e) fs = refl

any-blocks {ℓ} :
    {W : Type ℓ} (steps : List (Step W)) (a b : Dict StepResult) (reqs : List String)
    → ((j : String) → named j steps ≡ false → get j a ≡ get j b)
    → any (λ q. named q steps) reqs ≡ false
    → any (λ q. blocks (get q a)) reqs ≡ any (λ q. blocks (get q b)) reqs
any-blocks steps a b [] same h = refl
any-blocks steps a b (q ∷ reqs) same h =
    ground (arith, same q (ground arith), any-blocks steps a b reqs same (ground arith))

module _ {ℓ} {W : Type ℓ} (run_id : String) (c : Bool) where
  skipped-visit :
      (s : Step W) (r : Run W)
      → is_skipped (get s.name (visit run_id c s r).results) ≡ should_skip s r.results c
  unfolding visit skip_step execute_step
  skipped-visit s r =
      let (outcome, w) = s.fn r.world in
      ground (
        arith,
        str_eq_self s.name,
        get-put s.name s.name skipped r.results,
        get-put s.name s.name (classify s.name s.soft outcome r.failures).0 r.results,
        classify_not_skipped s.name s.soft outcome r.failures,
      )

  should_skip-run_steps :
      (s : Step W) (rest : List (Step W)) (r : Run W)
      → any (λ q. named q (s ∷ rest)) s.requires ≡ false
      → should_skip s (run_steps run_id c (s ∷ rest) r).results c ≡ should_skip s r.results c
  unfolding should_skip
  should_skip-run_steps s rest r h = ground (
    arith,
    any-blocks (s ∷ rest) (run_steps run_id c (s ∷ rest) r).results r.results s.requires
        (get-run_steps_ne run_id c (s ∷ rest) r) h,
  )

  -- In the results of a whole run over distinct names whose requirements stand earlier in the
  -- list, every step is marked skipped exactly when `_should_skip` holds of those final results.
  pub run_steps-Settled :
      (steps : List (Step W)) (r : Run W)
      → IsOrdered steps
      → All (Settled c (run_steps run_id c steps r).results) steps
  unfolding run_steps
  run_steps-Settled [] r h = tt
  run_steps-Settled (s ∷ rest) r h = (
    ap is_skipped (get-run_steps_ne run_id c rest (visit run_id c s r) s.name h.0)
        ∙ skipped-visit s r
        ∙ sym (should_skip-run_steps s rest r h.1),
    run_steps-Settled rest (visit run_id c s r) h.2,
  )
