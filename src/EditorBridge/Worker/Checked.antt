-- ===== src/EditorBridge/Worker/Checked.antt =====
-- What `_prepare` of worker.py has checked when it lets a row through.
use kayak_python.Base.{
  ℕ, ◌≡◌, refl, Bool, true, false, Option, none, some, List, arith, if◌then◌else◌, inl, inr,
  Option-cases, Bool-cases,
}
use kayak_python.Base.Dict.{Dict}
use kayak_python.EditorBridge.Json.{Json}
use kayak_python.EditorBridge.Worker.Model.{
  Bridge, worker_error, ChangeRequest, Detail, Services, is_approved, no_base, base_not_json,
  sha_mismatch, applied_not_json, no_target_id, parent_not_approved, request_gone, gave_up,
  unexpected_error,
}
use kayak_python.EditorBridge.Worker.Rows.{terminal_row, outcome_of, find_request}
use kayak_python.EditorBridge.Worker.Prepare.{
  Prepared, Preparation, ready, recorded, prepare, prepare_found, prepare_diff, prepare_base,
  sha_differs, or_text, expected_base_of,
}

-- Whether an outcome with this detail is one that the operator is to be alerted to.
abbrev pub alerts : Detail → Bool
alerts sha_mismatch = true
alerts (gave_up n t) = true
alerts (unexpected_error t) = true
alerts _ = false

-- What stands behind a prepared row.
pub record Checks {W : Type 0} (sv : Services W) (requests : List ChangeRequest) (b : Bridge)
    (p : Prepared) : Type 0 where
  pub request : find_request b.change_request_id requests ≡ some p.cr
  pub approved : is_approved p.cr.status ≡ true
  pub target : p.cr.target_id ≡ some p.target_id
  pub target_type : p.target_type ≡ p.cr.target_type
  pub untampered :
      sha_differs b.applied_json_sha256 (sv.sha256 (or_text p.cr.applied_json "")) ≡ false
  pub diff : sv.loads (or_text p.cr.applied_json "{}") ≡ some p.applied
  pub base :
      expected_base_of sv.loads b.reviewed_base_json p.cr.target_type ≡ some (some p.expected_base)
  pub stamp : (t : ℕ) → p.cr.reviewed_at ≡ some t → p.updated_at ≡ sv.strftime t

pub data Checked {W : Type 0} (sv : Services W) (requests : List ChangeRequest) (b : Bridge)
    : Preparation → Type 0 where
  row_refused :
      (e : Detail) (escalate : Bool)
      → escalate ≡ alerts e
      → Checked sv requests b
          (recorded (terminal_row b worker_error e none) (outcome_of b worker_error e escalate))
  passed : (p : Prepared) → Checks sv requests b p → Checked sv requests b (ready p)

module _ {W : Type 0} (sv : Services W) (requests : List ChangeRequest) (b : Bridge) where
  base-Checked :
      (cr : ChangeRequest) (target_id : ℕ) (applied : Json) (base : Option (Option (Dict Json)))
      (w : W)
      → find_request b.change_request_id requests ≡ some cr
      → is_approved cr.status ≡ true
      → cr.target_id ≡ some target_id
      → sha_differs b.applied_json_sha256 (sv.sha256 (or_text cr.applied_json "")) ≡ false
      → sv.loads (or_text cr.applied_json "{}") ≡ some applied
      → expected_base_of sv.loads b.reviewed_base_json cr.target_type ≡ base
      → Checked sv requests b (prepare_base sv cr b target_id applied base w).0
  base-Checked cr target_id applied none w e1 e2 e3 e4 e5 e6 = row_refused base_not_json false refl
  base-Checked cr target_id applied (some none) w e1 e2 e3 e4 e5 e6 =
      row_refused (no_base cr.target_type) false refl
  base-Checked cr target_id applied (some (some base)) w e1 e2 e3 e4 e5 e6 = passed _ (record {
    request = e1;
    approved = e2;
    target = e3;
    target_type = refl;
    untampered = e4;
    diff = e5;
    base = e6;
    stamp = λ t h. ground arith;
  })

  diff-Checked :
      (cr : ChangeRequest) (target_id : ℕ) (w : W)
      → find_request b.change_request_id requests ≡ some cr
      → is_approved cr.status ≡ true
      → cr.target_id ≡ some target_id
      → Checked sv requests b (prepare_diff sv cr b target_id w).0
  diff-Checked cr i w e1 e2 e3 =
      elim (Bool-cases
        (sha_differs b.applied_json_sha256 (sv.sha256 (or_text cr.applied_json "")))) [
          | inl e ↦ rw (e, if◌then◌else◌) (row_refused sha_mismatch true refl)
          | inr e4 ↦ elim (Option-cases (sv.loads (or_text cr.applied_json "{}"))) [
            | inl e ↦ rw (e4, e, if◌then◌else◌) (row_refused applied_not_json false refl)
            | inr (a, e5) ↦ rw (e4, e5, if◌then◌else◌) (base-Checked cr i a _ w e1 e2 e3 e4 e5 refl)
          ]
        ]

  found-Checked :
      (cr : ChangeRequest) (w : W)
      → find_request b.change_request_id requests ≡ some cr
      → Checked sv requests b (prepare_found sv cr b w).0
  found-Checked cr w e1 = elim (Bool-cases (is_approved cr.status)) [
    | inr e ↦ rw (e, if◌then◌else◌) (row_refused (parent_not_approved cr.status) false refl)
    | inl e2 ↦ elim (Option-cases cr.target_id) [
      | inl e ↦ rw (e2, e) (row_refused no_target_id false refl)
      | inr (i, e3) ↦ rw (e2, e3) (diff-Checked cr i w e1 e2 e3)
    ]
  ]

  -- A row that `_prepare` does not let through is recorded as `worker_error`; one that it lets
  -- through has an approved request with a target, an unchanged diff that is JSON, and a reviewed
  -- base, and is stamped with the time of its review.
  pub prepare-Checked : (w : W) → Checked sv requests b (prepare sv requests b w).0
  unfolding prepare
  prepare-Checked w = elim (Option-cases (find_request b.change_request_id requests)) [
    | inl e ↦ rw (e, prepare) (row_refused request_gone false refl)
    | inr (cr, e) ↦ rw (e, prepare) (found-Checked cr w e)
  ]
