-- ===== src/Pipeline/Default.antt =====
-- The step list that `_build_steps` of src/kayak/cli/pipeline.py gives.
use kayak_python.Base.{String, ◌≡◌, refl, ap, Bool, true, false, ◌||◌, none, arith, All}
use kayak_python.Base.Dict.{Dict, get}
use kayak_python.Pipeline.{
  StepResult, blocks, should_skip, Commands, build_steps, pipeline, later_steps,
}
use kayak_python.Pipeline.Keep.{get-run_steps_ne}
use kayak_python.Pipeline.Cascade.{is_skipped, is_failed, IsOrdered, Settled}
use kayak_python.Pipeline.Report.{pipeline-Settled}

module _ {ℓ} {W : Type ℓ} (cmds : Commands W) where
  pub later_steps-IsOrdered : IsOrdered (later_steps cmds)
  later_steps-IsOrdered = (
    refl,
    refl,
    (
      refl,
      refl,
      (refl, refl, (refl, refl, (refl, refl, (refl, refl, (refl, refl, (refl, refl, tt)))))),
    ),
  )

  -- The step names are distinct, and a step requires only names of earlier steps, or the name of
  -- `fetch` when `--skip-fetch` leaves that step out.
  pub build_steps-IsOrdered : (skip_fetch : Bool) → IsOrdered (build_steps cmds skip_fetch)
  unfolding build_steps
  build_steps-IsOrdered true = later_steps-IsOrdered
  build_steps-IsOrdered false = (refl, refl, later_steps-IsOrdered)

-- Some step that feeds the cache or the build failed outright.
pub upstream_failed : Dict StepResult → Bool
upstream_failed d =
    is_failed (get "fetch" d)
    || is_failed (get "fetch-usgs-ogc" d)
    || is_failed (get "calc-rating" d)
    || is_failed (get "fetch-licor" d)
    || is_failed (get "update-gauge-cache" d)
    || is_failed (get "calculator" d)

module _ {ℓ} {W : Type ℓ} (cmds : Commands W) where
  later_skipped :
      (d : Dict StepResult)
      → is_skipped (get "fetch" d) ≡ false
      → All (Settled false d) (later_steps cmds)
      → (is_skipped (get "build" d) ≡ upstream_failed d)
        × (is_skipped (get "orphan-check" d) ≡ blocks (get "build" d))
        × (is_skipped (get "check-reaches" d) ≡ blocks (get "build" d))
  unfolding upstream_failed should_skip
  later_skipped d f h = ground arith

module _ {ℓ} {W : Type ℓ} (optimize : W → W) (run_id : String) (cmds : Commands W) where
  no_fetch :
      (w : W)
      → get "fetch" (pipeline optimize run_id (later_steps cmds) true false w).1.results ≡ none
  unfolding pipeline get
  no_fetch w = get-run_steps_ne run_id false (later_steps cmds) _ "fetch" refl

  -- Without `--continue-on-error`, and with or without `--skip-fetch`: `build` is skipped exactly
  -- when one of `fetch`, `fetch-usgs-ogc`, `calc-rating`, `fetch-licor`, `update-gauge-cache` and
  -- `calculator` ended as `failed`; soft failures never skip it. The two checks after it are
  -- skipped exactly when `build` failed or was skipped.
  pub build_skipped :
      (skip_fetch : Bool) (w : W)
      → let d =
          (pipeline optimize run_id (build_steps cmds skip_fetch) skip_fetch false w).1.results in
        (is_skipped (get "build" d) ≡ upstream_failed d)
        × (is_skipped (get "orphan-check" d) ≡ blocks (get "build" d))
        × (is_skipped (get "check-reaches" d) ≡ blocks (get "build" d))
  unfolding build_steps should_skip
  build_skipped true w = later_skipped cmds _ (ap is_skipped (no_fetch w)) (
      pipeline-Settled optimize run_id (later_steps cmds) true false w (later_steps-IsOrdered cmds))
  build_skipped false w =
      let s =
        pipeline-Settled optimize run_id (build_steps cmds false) false false w
          (build_steps-IsOrdered cmds false) in
      later_skipped cmds _ s.0 s.1
