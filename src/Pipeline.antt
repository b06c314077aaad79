-- ===== src/Pipeline.antt =====
-- src/kayak/cli/pipeline.py: the steps of the hourly run, in list order, with the skip cascade.
-- What a step does to the rest of the machine is a function on a type `W` of worlds. Times, the
-- lines printed and the log lines are left out; the structured events are kept in order.
mod Keep
pub mod Cascade
pub mod Failures
pub mod Report
pub mod Default
mod Tests
use kayak_python.Base.{
  ℕ, zero, suc, String, Bool, true, false, not, Option, none, some, List, [], ◌∷◌, ◌++◌, map,
  length, get_last?, any, is_empty, if◌then◌else◌, str_eq, ◌⊎◌, inl, inr,
}
use kayak_python.Base.Dict.{Dict, get, put, values}
use kayak_python.Base.Int.{ℤ, is_nonzero}

pub data StepResult : Type 0 where
  ok failed soft_failed skipped : StepResult

-- The `code` of a `SystemExit`.
pub data ExitCode : Type 0 where
  no_code : ExitCode
  int_code : ℤ → ExitCode
  text_code : String → ExitCode

-- The text of an exception: one of the two that this file raises, or another.
pub data ErrorText : Type 0 where
  orphan_sources_found : ℕ → ErrorText
  reaches_with_issues : ℕ → ErrorText
  other_error : String → ErrorText

-- What a call of a step's function gives: a value, or one of the two kinds of exception.
pub data Outcome : Type 0 where
  returned_none : Outcome
  returned_bool : Bool → Outcome
  returned_int : ℤ → Outcome
  system_exit : ExitCode → Outcome
  exception : ErrorText → Outcome

pub data Message : Type 0 where
  exit_message : ExitCode → Message
  soft_message : ℤ → Message
  error_message : ErrorText → Message

pub record Step {ℓ} (W : Type ℓ) : Type ℓ where
  pub name : String
  pub fn : W → Outcome × W
  pub requires : List String
  pub soft : Bool

pub data Event : Type 0 where
  pipeline_start : String → List String → Bool → Bool → Event
  step_skipped : String → String → Event
  step_start : String → String → Event
  step_done : String → String → StepResult → Event
  step_failed : String → String → StepResult → Option Message → Event
  pipeline_done : String → ℕ → ℕ → ℕ → Event

abbrev pub Failures : Type 0
Failures = List (String × Message)

-- The local variables of `pipeline`.
pub record Run {ℓ} (W : Type ℓ) : Type ℓ where
  pub results : Dict StepResult
  pub failures : Failures
  pub skipped_names : List String
  pub events : List Event
  pub world : W

-- `outcome in (_Result.failed, _Result.skipped)`
abbrev pub blocks : Option StepResult → Bool
blocks (some failed) = true
blocks (some skipped) = true
blocks _ = false

unfoldable pub should_skip {ℓ} : {W : Type ℓ} → Step W → Dict StepResult → Bool → Bool
should_skip step results continue_on_error =
    if continue_on_error then false else any (λ req. blocks (get req results)) step.requires

-- `not e.code`
abbrev pub is_clean_exit : ExitCode → Bool
is_clean_exit no_code = true
is_clean_exit (int_code n) = not (is_nonzero n)
is_clean_exit (text_code t) = str_eq t ""

unfoldable pub system_exit_result : String → ExitCode → Failures → StepResult × Failures
system_exit_result step_name code failures =
    if is_clean_exit code
    then (ok, failures)
    else (failed, failures ++ (step_name, exit_message code) ∷ [])

-- The classification in `_execute_step`, once the function has returned or raised.
unfoldable pub classify : String → Bool → Outcome → Failures → StepResult × Failures
unfolding system_exit_result
classify name soft returned_none failures = (ok, failures)
classify name soft (returned_bool b) failures = (ok, failures)
classify name false (returned_int rc) failures = (ok, failures)
classify name true (returned_int rc) failures =
    if is_nonzero rc
    then (soft_failed, failures ++ (name, soft_message rc) ∷ [])
    else (ok, failures)
classify name soft (system_exit code) failures = system_exit_result name code failures
classify name soft (exception e) failures = (failed, failures ++ (name, error_message e) ∷ [])

abbrev pub counts_as_failure : StepResult → Bool
counts_as_failure failed = true
counts_as_failure soft_failed = true
counts_as_failure _ = false

-- `failures[-1][1]`; `none` would be an `IndexError`.
abbrev pub last_message : Failures → Option Message
last_message failures = elim (get_last? failures) [ none ↦ none | some (n, m) ↦ some m ]

abbrev pub finish_event : String → String → StepResult → Failures → Event
finish_event run_id name ok failures = step_done run_id name ok
finish_event run_id name skipped failures = step_failed run_id name skipped none
finish_event run_id name failed failures = step_failed run_id name failed (last_message failures)
finish_event run_id name soft_failed failures =
    step_failed run_id name soft_failed (last_message failures)

module _ {ℓ} {W : Type ℓ} (run_id : String) where
  unfoldable pub skip_step : Step W → Run W → Run W
  skip_step step r = record r {
    results = put step.name skipped r.results;
    skipped_names = r.skipped_names ++ step.name ∷ [];
    events = r.events ++ step_skipped run_id step.name ∷ [];
  }

  unfoldable pub execute_step : Step W → Run W → Run W
  unfolding classify
  execute_step step r =
      let (outcome, world') = step.fn r.world in
      let (result, failures') = classify step.name step.soft outcome r.failures in
      record {
        results = put step.name result r.results;
        failures = failures';
        skipped_names = r.skipped_names;
        events =
            r.events
            ++ step_start run_id step.name ∷ finish_event run_id step.name result failures' ∷ [];
        world = world';
      }

  -- The body of the `for` loop.
  unfoldable pub visit : Bool → Step W → Run W → Run W
  unfolding should_skip
  visit continue_on_error step r =
      if should_skip step r.results continue_on_error then skip_step step r else execute_step step r

  unfoldable pub run_steps : Bool → List (Step W) → Run W → Run W
  run_steps continue_on_error [] r = r
  run_steps continue_on_error (step ∷ steps) r =
      run_steps continue_on_error steps (visit continue_on_error step r)

abbrev pub is_ok : StepResult → Bool
is_ok ok = true
is_ok _ = false

pub count_ok : List StepResult → ℕ
count_ok [] = 0
count_ok (r ∷ rs) = if is_ok r then suc (count_ok rs) else count_ok rs

-- How the command ends: normally, or by `SystemExit(1)`.
pub data Ending : Type 0 where
  complete exit_suppressed exit_one : Ending

unfoldable pub ending : Bool → Failures → Ending
ending continue_on_error [] = complete
ending true (f ∷ fs) = exit_suppressed
ending false (f ∷ fs) = exit_one

abbrev pub names {ℓ} : {W : Type ℓ} → List (Step W) → List String
names = map (λ s. s.name)

module _ {ℓ} {W : Type ℓ} (optimize : W → W) (run_id : String) where
  -- `pipeline`, over the step list; `PRAGMA optimize` is guarded and cannot end the run.
  unfoldable pub pipeline : List (Step W) → Bool → Bool → W → Ending × Run W
  unfolding run_steps ending
  pipeline steps skip_fetch continue_on_error w =
      let start : Run W = record {
        results = [];
        failures = [];
        skipped_names = [];
        events = pipeline_start run_id (names steps) skip_fetch continue_on_error ∷ [];
        world = w;
      } in
      let r = run_steps run_id continue_on_error steps start in
      (
        ending continue_on_error r.failures,
        record r {
          world = optimize r.world;
          events =
              r.events
              ++ pipeline_done run_id (count_ok (values r.results)) (length r.failures)
                  (length r.skipped_names)
                ∷ [];
        },
      )

-- The functions of the other modules that the steps call. A scan gives its findings, or the text
-- of the exception that it raised.
pub record Commands {ℓ} (W : Type ℓ) : Type ℓ where
  pub fetch : W → Outcome × W
  pub fetch_usgs_ogc : W → Outcome × W
  pub fetch_licor : W → Outcome × W
  pub calc_rating : W → Outcome × W
  pub update_all_latest_gauges : W → Option String × W
  pub calculator : W → Outcome × W
  pub build : W → Outcome × W
  pub find_orphan_sources : W → (String ⊎ List String) × W
  pub scan_for_issues : W → (String ⊎ List (String × List String)) × W

module _ {ℓ} {W : Type ℓ} (c : Commands W) where
  unfoldable pub update_gauge_cache : W → Outcome × W
  update_gauge_cache w =
      let (raised, w') = c.update_all_latest_gauges w in
      (elim raised [ none ↦ returned_none | some e ↦ exception (other_error e) ], w')

  unfoldable pub check_reaches : W → Outcome × W
  check_reaches w =
      let (scan, w') = c.scan_for_issues w in
      (
        elim scan [
          | inl e ↦ exception (other_error e)
          | inr flagged ↦
              if is_empty flagged
              then returned_none
              else exception (reaches_with_issues (length flagged))
        ],
        w',
      )

  unfoldable pub orphan_check : W → Outcome × W
  orphan_check w =
      let (scan, w') = c.find_orphan_sources w in
      (
        elim scan [
          | inl e ↦ exception (other_error e)
          | inr rows ↦
              if is_empty rows
              then returned_none
              else exception (orphan_sources_found (length rows))
        ],
        w',
      )

  abbrev pub step : String → (W → Outcome × W) → List String → Bool → Step W
  step name fn requires soft = record { name = name; fn = fn; requires = requires; soft = soft }

  abbrev pub later_steps : List (Step W)
  later_steps =
      step "fetch-usgs-ogc" c.fetch_usgs_ogc [] false
      ∷ step "fetch-licor" c.fetch_licor [] true
      ∷ step "calc-rating" c.calc_rating ("fetch" ∷ "fetch-usgs-ogc" ∷ []) false
      ∷ step "update-gauge-cache" update_gauge_cache ("calc-rating" ∷ "fetch-licor" ∷ []) false
      ∷ step "calculator" c.calculator ("update-gauge-cache" ∷ []) false
      ∷ step "build" c.build ("update-gauge-cache" ∷ "calculator" ∷ []) false
      ∷ step "orphan-check" orphan_check ("build" ∷ []) false
      ∷ step "check-reaches" check_reaches ("build" ∷ []) false
      ∷ []

  unfoldable pub build_steps : Bool → List (Step W)
  unfolding update_gauge_cache check_reaches orphan_check
  build_steps skip_fetch =
      if skip_fetch then later_steps else step "fetch" c.fetch [] true ∷ later_steps
