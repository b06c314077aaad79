-- ===== src/Pubhash/RoundTrip.antt =====
-- Handles of pubhash.py that are read back.
use kayak_python.Base.{
  ℕ, zero, suc, ◌+◌, ◌*◌, ◌/◌, ◌%◌, ◌≤◌, ◌<◌, ◌≡◌, refl, ap, ◌∙◌, Bool, true, false, not, ◌&&◌,
  some, List, [], ◌∷◌, get_elem?, length, any, ◌==◌, arith,
}
use kayak_python.Pubhash.{
  alphabet, index_from, digit_char, encode_from, encode, decode_from, decode,
}

is_distinct : List ℕ → Bool
is_distinct [] = true
is_distinct (x ∷ xs) = not (any (λ y. x == y) xs) && is_distinct xs

alphabet_distinct : is_distinct alphabet ≡ true
unfolding is_distinct
alphabet_distinct = refl

any-get_elem? :
    (x c : ℕ) (xs : List ℕ) (r : ℕ)
    → any (λ y. x == y) xs ≡ false
    → get_elem? xs r ≡ some c
    → (x == c) ≡ false
any-get_elem? x c [] r h e = absurd (ground arith)
any-get_elem? x c (y ∷ ys) zero h e = ground arith
any-get_elem? x c (y ∷ ys) (suc r) h e = any-get_elem? x c ys r (ground arith) e

index_from-get_elem? :
    (xs : List ℕ) (i r c : ℕ)
    → is_distinct xs ≡ true
    → get_elem? xs r ≡ some c
    → index_from i xs c ≡ some (i + r)
unfolding is_distinct index_from
index_from-get_elem? [] i r c d e = absurd (ground arith)
index_from-get_elem? (x ∷ xs) i zero c d e = ground arith
index_from-get_elem? (x ∷ xs) i (suc r) c d e = ground (
  arith,
  any-get_elem? x c xs r (ground arith) e,
  index_from-get_elem? xs (suc i) r c (ground arith) e,
)

get_elem?-some :
    (xs : List ℕ) (r : ℕ) → r < length xs → get_elem? xs r ≡ some (digit_char (get_elem? xs r))
get_elem?-some [] r h = absurd (omega (arith, h))
get_elem?-some (x ∷ xs) zero h = refl
get_elem?-some (x ∷ xs) (suc r) h = get_elem?-some xs r (omega (arith, h))

index_from-digit_char :
    (r : ℕ) → r < 62 → index_from 0 alphabet (digit_char (get_elem? alphabet r)) ≡ some r
index_from-digit_char r h =
    index_from-get_elem? alphabet 0 r (digit_char (get_elem? alphabet r)) alphabet_distinct
      (get_elem?-some alphabet r h)
    ∙ ap some (omega arith)

decode_from-digit_char :
    (q r : ℕ) (out : List ℕ)
    → r < 62
    → decode_from q (digit_char (get_elem? alphabet r) ∷ out) ≡ decode_from (q * 62 + r) out
unfolding decode_from
decode_from-digit_char q r out h = rw (index_from-digit_char r h, decode_from) refl

decode_from-encode_from :
    (fuel n : ℕ) (out : List ℕ)
    → n ≤ fuel
    → decode_from 0 (encode_from fuel n out) ≡ decode_from n out
unfolding encode_from
decode_from-encode_from zero zero out h = refl
decode_from-encode_from zero (suc m) out h = absurd (omega (arith, h))
decode_from-encode_from (suc fuel) zero out h = refl
decode_from-encode_from (suc fuel) (suc m) out h =
    decode_from-encode_from fuel (suc m / 62) _ (omega (arith, h))
    ∙ decode_from-digit_char (suc m / 62) (suc m % 62) out (omega arith)
    ∙ ap (λ n. decode_from n out) (omega arith)

decode-decode_from : (m : ℕ) (s : List ℕ) → decode_from 0 s ≡ some (suc m) → decode s ≡ some (suc m)
unfolding decode
decode-decode_from m [] h = absurd (ground arith)
decode-decode_from m (c ∷ cs) h = h

-- Every id from 1 on has a handle, and the handle is read back as the id.
pub decode-encode : (n : ℕ) → 1 ≤ n → (s : List ℕ) × (encode n ≡ some s) × (decode s ≡ some n)
unfolding encode decode_from
decode-encode zero h = absurd (omega (arith, h))
decode-encode (suc m) h =
    let s = encode_from (suc m) (suc m) [] in
    (s, refl, decode-decode_from m s (decode_from-encode_from (suc m) (suc m) [] (omega arith)))
