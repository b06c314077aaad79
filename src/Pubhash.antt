-- ===== src/Pubhash.antt =====
-- src/kayak/utils/pubhash.py: the base-62 handle of a row's id. Texts are lists of code points.
pub mod RoundTrip
mod Tests
use kayak_python.Base.{
  ℕ, zero, suc, ◌+◌, ◌*◌, ◌/◌, ◌%◌, Option, none, some, List, [], ◌∷◌, get_elem?, codes, ◌==◌,
  if◌then◌else◌,
}

abbrev pub alphabet : List ℕ
alphabet = codes "0123456789abcdefghijklmnopqrstuvwxyzABCDEFGHIJKLMNOPQRSTUVWXYZ"

-- `_INDEX.get(c)`, from position `i` on
unfoldable pub index_from : ℕ → List ℕ → ℕ → Option ℕ
index_from i [] c = none
index_from i (d ∷ ds) c = if d == c then some i else index_from (suc i) ds c

-- The character of a digit; out of range would be an `IndexError`.
abbrev pub digit_char : Option ℕ → ℕ
digit_char none = 0
digit_char (some c) = c

-- The loop of `encode`, on fuel: the digits go in front of those that are there.
unfoldable pub encode_from : ℕ → ℕ → List ℕ → List ℕ
encode_from zero n out = out
encode_from (suc fuel) zero out = out
encode_from (suc fuel) (suc m) out =
    encode_from fuel (suc m / 62) (digit_char (get_elem? alphabet (suc m % 62)) ∷ out)

-- `encode`; `none` is its `ValueError`.
unfoldable pub encode : ℕ → Option (List ℕ)
unfolding encode_from
encode zero = none
encode (suc m) = some (encode_from (suc m) (suc m) [])

-- The loop of `decode`; `none` is its `ValueError`.
unfoldable pub decode_from : ℕ → List ℕ → Option ℕ
unfolding index_from
decode_from n [] = some n
decode_from n (c ∷ cs) = elim (index_from 0 alphabet c) [
  | none ↦ none
  | some i ↦ decode_from (n * 62 + i) cs
]

-- `decode`
unfoldable pub decode : List ℕ → Option ℕ
unfolding decode_from
decode [] = none
decode (c ∷ cs) = decode_from 0 (c ∷ cs)
