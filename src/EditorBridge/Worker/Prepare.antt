-- ===== src/EditorBridge/Worker/Prepare.antt =====
-- `_expected_base` and `_prepare`: what a queued row must carry before anything is cloned.
use kayak_python.Base.{
  ℕ, String, ◌&◌, Bool, true, false, not, ◌||◌, Option, none, some, List, if◌then◌else◌, str_eq,
}
use kayak_python.Base.Dict.{Dict, get}
use kayak_python.EditorBridge.Json.{Json, object, to_dict}
use kayak_python.EditorBridge.Worker.Model.{
  ChangeRequest, Bridge, worker_error, is_approved, Detail, request_gone, parent_not_approved,
  no_target_id, sha_mismatch, applied_not_json, base_not_json, no_base, RowOutcome, Services,
}
use kayak_python.EditorBridge.Worker.Rows.{find_request, terminal}

-- `_Prepared`
pub record Prepared : Type 0 where
  pub cr : ChangeRequest
  pub target_id : ℕ
  pub target_type : String
  pub applied : Json
  pub expected_base : Dict Json
  pub updated_at : String
  pub commit_date : String

-- `_expected_base`: the outer `none` is its `ValueError`.
module _ (loads : String → Option Json) where
  abbrev pub object_entry : String → Option Json → Option (Option (Dict Json))
  object_entry target_type (some (object base)) = elim (get target_type (to_dict base)) [
    | some (object sub) ↦ some (some (to_dict sub))
    | _ ↦ some none
  ]
  object_entry target_type _ = none

  unfoldable pub expected_base_of : Option String → String → Option (Option (Dict Json))
  expected_base_of none target_type = some none
  expected_base_of (some t) target_type =
      if str_eq t "" then some none else object_entry target_type (loads t)

-- `x or default`, where the empty text is false
abbrev pub or_text : Option String → String → String
or_text none default = default
or_text (some t) default = if str_eq t "" then default else t

abbrev pub sha_differs : Option String → String → Bool
sha_differs none actual = true
sha_differs (some expected) actual = str_eq expected "" || not (str_eq actual expected)

-- What `_prepare` returns: the inputs, or the outcome with the row as it was recorded.
pub data Preparation : Type 0 where
  ready : Prepared → Preparation
  recorded : Bridge → RowOutcome → Preparation

abbrev pub refuse : Bridge → Detail → Bool → Preparation
refuse b detail escalate =
    let (b', o) = terminal b worker_error detail none escalate in recorded b' o

module _ {W : Type 0} (sv : Services W) where
  -- `cr.reviewed_at or cr.submitted_at or clock()`
  abbrev pub stamp_time : ChangeRequest → W → ℕ × W
  stamp_time cr w = elim cr.reviewed_at [
    | some t ↦ (t, w)
    | none ↦ elim cr.submitted_at [ some t ↦ (t, w) | none ↦ sv.clock w ]
  ]

  abbrev pub prepare_base :
      ChangeRequest → Bridge → ℕ → Json → Option (Option (Dict Json)) → W → Preparation × W
  prepare_base cr b target_id applied none w = (refuse b base_not_json false, w)
  prepare_base cr b target_id applied (some none) w = (refuse b (no_base cr.target_type) false, w)
  prepare_base cr b target_id applied (some (some base)) w =
      let (t, w') = stamp_time cr w in
      let updated_at = sv.strftime t in
      (
        ready (record {
          cr = cr;
          target_id = target_id;
          target_type = cr.target_type;
          applied = applied;
          expected_base = base;
          updated_at = updated_at;
          commit_date = updated_at & " +0000";
        }),
        w',
      )

  abbrev pub prepare_diff : ChangeRequest → Bridge → ℕ → W → Preparation × W
  prepare_diff cr b target_id w =
      if sha_differs b.applied_json_sha256 (sv.sha256 (or_text cr.applied_json ""))
      then (refuse b sha_mismatch true, w)
      else elim (sv.loads (or_text cr.applied_json "{}")) [
        | none ↦ (refuse b applied_not_json false, w)
        | some applied ↦
            prepare_base cr b target_id applied
              (expected_base_of sv.loads b.reviewed_base_json cr.target_type) w
      ]

  abbrev pub prepare_found : ChangeRequest → Bridge → W → Preparation × W
  prepare_found cr b w =
      if is_approved cr.status
      then elim cr.target_id [
        | none ↦ (refuse b no_target_id false, w)
        | some target_id ↦ prepare_diff cr b target_id w
      ]
      else (refuse b (parent_not_approved cr.status) false, w)

  -- `_prepare`
  unfoldable pub prepare : List ChangeRequest → Bridge → W → Preparation × W
  unfolding expected_base_of
  prepare requests b w = elim (find_request b.change_request_id requests) [
    | none ↦ (refuse b request_gone false, w)
    | some cr ↦ prepare_found cr b w
  ]
