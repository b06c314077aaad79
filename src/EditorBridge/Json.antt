-- ===== src/EditorBridge/Json.antt =====
-- JSON values as `json.loads` gives them. A number is held as the text that Python's `str` prints
-- for it, and the items of an array are left out: the editor bridge reads neither further.
use kayak_python.Base.{String, Bool, [], ◌∷◌}
use kayak_python.Base.Dict.{Dict}

mutual
  pub data Json : Type 0 where
    null : Json
    boolean : Bool → Json
    number : String → Json
    text : String → Json
    array : Json
    object : Fields → Json

  pub data Fields : Type 0 where
    end : Fields
    field : String → Json → Fields → Fields

-- The `dict` that an object is.
unfoldable pub to_dict : Fields → Dict Json
to_dict end = []
to_dict (field k v fs) = (k, v) ∷ to_dict fs
