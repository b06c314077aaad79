-- ===== src/Pipeline/Keep.antt =====
-- What one step of the run of src/kayak/cli/pipeline.py changes in the results.
use kayak_python.Base.{String, ◌≡◌, refl, Bool, false, List, [], ◌∷◌, any, arith, str_eq, ◌∙◌}
use kayak_python.Base.Dict.{get, get-put}
use kayak_python.Pipeline.{Step, Run, skipped, classify, skip_step, execute_step, visit, run_steps}

module _ {ℓ} {W : Type ℓ} (run_id : String) (c : Bool) where
  -- A visit writes the result of its own step only.
  pub get-visit_ne :
      (s : Step W) (r : Run W) (j : String)
      → str_eq s.name j ≡ false
      → get j (visit run_id c s r).results ≡ get j r.results
  unfolding visit skip_step execute_step
  get-visit_ne s r j ne =
      let (outcome, w) = s.fn r.world in
      ground (
        arith,
        get-put s.name j skipped r.results,
        get-put s.name j (classify s.name s.soft outcome r.failures).0 r.results,
      )

  -- The results of steps that are not among those still to run stay.
  pub get-run_steps_ne :
      (steps : List (Step W)) (r : Run W) (j : String)
      → any (λ s. str_eq s.name j) steps ≡ false
      → get j (run_steps run_id c steps r).results ≡ get j r.results
  unfolding run_steps
  get-run_steps_ne [] r j h = refl
  get-run_steps_ne (s ∷ steps) r j h =
      get-run_steps_ne steps (visit run_id c s r) j (ground arith)
      ∙ get-visit_ne s r j (ground arith)
