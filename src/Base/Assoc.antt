-- ===== src/Base/Assoc.antt =====
-- A Python `dict` with keys of any kind, by a test for equal keys: pairs in insertion order.
use kayak_python.Base.{Bool, Option, none, some, List, [], ◌∷◌, if◌then◌else◌}

module _ {ℓ κ} {K : Type ℓ} {V : Type κ} (same : K → K → Bool) where
  -- `d.get(k)`
  unfoldable pub get_by : K → List (K × V) → Option V
  get_by k [] = none
  get_by k ((j, v) ∷ d) = if same j k then some v else get_by k d

  -- `d[k] = v`: a present key keeps its place, a new one goes to the end.
  unfoldable pub put_by : K → V → List (K × V) → List (K × V)
  put_by k v [] = (k, v) ∷ []
  put_by k v ((j, w) ∷ d) = if same j k then (j, v) ∷ d else (j, w) ∷ put_by k v d
