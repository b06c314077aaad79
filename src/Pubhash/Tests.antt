-- ===== src/Pubhash/Tests.antt =====
-- src/kayak/utils/pubhash.py on one id, with the theorem applied.
use kayak_python.Base.{ℕ, ◌≡◌, refl, List, some, codes, arith}
use kayak_python.Pubhash.{encode, decode}
use kayak_python.Pubhash.RoundTrip.{decode-encode}

handle_of_1000 : encode 1000 ≡ some (codes "g8")
unfolding encode
handle_of_1000 = refl

decode-encode_example : (s : List ℕ) × (encode 1000 ≡ some s) × (decode s ≡ some 1000)
decode-encode_example = decode-encode 1000 (omega arith)
