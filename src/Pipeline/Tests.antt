-- ===== src/Pipeline/Tests.antt =====
-- Runs of src/kayak/cli/pipeline.py on small step lists, with the theorems applied to them.
use kayak_python.Base.{
  ℕ, suc, ◌≡◌, refl, true, false, none, [], ◌∷◌, List, All, is_empty, if◌then◌else◌, inr,
}
use kayak_python.Base.Int.{pos}
use kayak_python.Base.Dict.{get, put}
use kayak_python.Pipeline.{
  Step, Commands, Outcome, returned_none, returned_int, exception, other_error, blocks, pipeline,
  build_steps, complete, exit_suppressed, exit_one, classify, counts_as_failure, visit,
  execute_step, skip_step,
}
use kayak_python.Pipeline.Cascade.{is_skipped, is_failed, IsOrdered, Settled}
use kayak_python.Pipeline.Failures.{with_result, is_counted, failed_names}
use kayak_python.Pipeline.Report.{pipeline_report, pipeline-Settled}
use kayak_python.Pipeline.Default.{build_skipped, upstream_failed}

-- The world counts the calls.
abbrev fine : ℕ → Outcome × ℕ
fine n = (returned_none, suc n)

abbrev partly : ℕ → Outcome × ℕ
partly n = (returned_int (pos 1), suc n)

abbrev down : ℕ → Outcome × ℕ
down n = (exception (other_error "timeout"), suc n)

abbrev same_world : ℕ → ℕ
same_world n = n

-- Every command works, except that LI-COR's server does not answer.
abbrev licor_down : Commands ℕ
licor_down = record {
  fetch = fine;
  fetch_usgs_ogc = fine;
  fetch_licor = down;
  calc_rating = fine;
  update_all_latest_gauges = λ n. (none, suc n);
  calculator = fine;
  build = fine;
  find_orphan_sources = λ n. (inr [], suc n);
  scan_for_issues = λ n. (inr [], suc n);
}

abbrev fetch_step : Step ℕ
fetch_step = record { name = "fetch"; fn = partly; requires = []; soft = true }

abbrev rating_step : Step ℕ
rating_step = record { name = "calc-rating"; fn = fine; requires = "fetch" ∷ []; soft = false }

abbrev two_steps : List (Step ℕ)
two_steps = fetch_step ∷ rating_step ∷ []

two_steps-IsOrdered : IsOrdered two_steps
two_steps-IsOrdered = (refl, refl, (refl, refl, tt))

-- The exception of `fetch-licor` keeps the pages from being built.
licor_down_run :
    is_skipped (
      get "build" (pipeline same_world "r1" (build_steps licor_down false) false false 0).1.results)
    ≡ true
unfolding pipeline build_steps visit execute_step skip_step get put
licor_down_run = refl

build_skipped_example :
    let d = (pipeline same_world "r1" (build_steps licor_down false) false false 0).1.results in
    (is_skipped (get "build" d) ≡ upstream_failed d)
    × (is_skipped (get "orphan-check" d) ≡ blocks (get "build" d))
    × (is_skipped (get "check-reaches" d) ≡ blocks (get "build" d))
build_skipped_example = build_skipped same_world "r1" licor_down false 0

pipeline_report_example :
    let (e, r) = pipeline same_world "r1" two_steps false false 0 in
    (failed_names r.failures ≡ with_result is_counted r.results two_steps)
    × (r.skipped_names ≡ with_result is_skipped r.results two_steps)
    × (e ≡ (
        if is_empty (with_result is_counted r.results two_steps)
        then complete
        else if false
        then exit_suppressed
        else exit_one))
pipeline_report_example =
    pipeline_report same_world "r1" two_steps false false 0 two_steps-IsOrdered

pipeline-Settled_example :
    All (Settled false (pipeline same_world "r1" two_steps false false 0).1.results) two_steps
pipeline-Settled_example =
    pipeline-Settled same_world "r1" two_steps false false 0 two_steps-IsOrdered

two_steps_not_failed :
    All
      (λ s.
        is_failed (get s.name (pipeline same_world "r1" two_steps false false 0).1.results) ≡ false)
      two_steps
unfolding pipeline visit execute_step skip_step get put
two_steps_not_failed = (refl, (refl, tt))

partial_fetch_counts : counts_as_failure (classify "fetch" true (returned_int (pos 1)) []).0 ≡ true
unfolding classify
partial_fetch_counts = refl
