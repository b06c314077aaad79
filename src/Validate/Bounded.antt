-- ===== src/Validate/Bounded.antt =====
-- What `_bounded_int` of src/kayak/cli/validate_dataset.py accepts.
use kayak_python.Base.{
  ℕ, zero, suc, ◌+◌, ◌-◌, ◌*◌, ◌≤◌, ◌<◌, ◌≡◌, refl, sym, ap, subst, Bool, true, false, none, [],
  ◌∷◌, all, length, ltb, ◌==◌, if◌then◌else◌, arith, Bool-cases, inl, inr,
}
use kayak_python.Base.Int.{ℤ}
use kayak_python.Base.Chars.{Chars}
use kayak_python.Base.Attempt.{ok}
use kayak_python.Validate.Ints.{
  is_digit, drop_newline, has_sign, drop_sign, is_number, int_re, digits_value, int_of_digits,
  lstrip_zeros, or_zero, significant, signed, in_range, bounded_int,
}

-- The integer that a text of digits with an optional sign stands for, all zeros included.
abbrev pub integer_of : Chars → ℤ
integer_of raw = signed (has_sign raw) (digits_value 0 (drop_sign raw))

-- Ten times the number, so many times.
abbrev tens : ℕ → ℕ → ℕ
tens zero n = n
tens (suc k) n = tens k (n * 10)

tens_mono : (k m n : ℕ) → m ≤ n → tens k m ≤ tens k n
tens_mono zero m n h = h
tens_mono (suc k) m n h = tens_mono k (m * 10) (n * 10) (omega arith)

tens-digits_value : (k n : ℕ) (cs : Chars) → k ≤ length cs → tens k n ≤ digits_value n cs
tens-digits_value zero n [] h = omega arith
tens-digits_value zero n (c ∷ cs) h =
    omega (arith, tens-digits_value zero (n * 10 + (c - 48)) cs (omega arith))
tens-digits_value (suc k) n [] h = absurd (omega arith)
tens-digits_value (suc k) n (c ∷ cs) h = omega (
  arith,
  tens_mono k (n * 10) (n * 10 + (c - 48)) (omega arith),
  tens-digits_value k (n * 10 + (c - 48)) cs (omega arith),
)

value-lstrip_zeros : (cs : Chars) → digits_value 0 (lstrip_zeros cs) ≡ digits_value 0 cs
value-lstrip_zeros [] = refl
value-lstrip_zeros (c ∷ cs) = elim (Bool-cases (c == 48)) [
  | inl e ↦ (let k : c ≡ 48 = ground arith in rw (e, if◌then◌else◌, k) (value-lstrip_zeros cs))
  | inr e ↦ rw (e, if◌then◌else◌) refl
]

value-or_zero : (cs : Chars) → digits_value 0 (or_zero cs) ≡ digits_value 0 cs
value-or_zero [] = refl
value-or_zero (c ∷ cs) = refl

tens-19 : tens 19 1 ≡ 10000000000000000000
tens-19 = refl

first-digits_value :
    (c : ℕ) (cs : Chars)
    → is_digit c ≡ true
    → (c == 48) ≡ false
    → 19 ≤ length cs
    → 10000000000000000000 ≤ digits_value 0 (c ∷ cs)
first-digits_value c cs d e h =
    let one : 1 ≤ 0 * 10 + (c - 48) = ground arith in
    omega (
      arith,
      tens-19,
      tens_mono 19 1 (0 * 10 + (c - 48)) one,
      tens-digits_value 19 (0 * 10 + (c - 48)) cs h,
    )

-- More than nineteen digits, the first of them not zero, are too large a number.
long-digits_value :
    (cs : Chars)
    → all is_digit cs ≡ true
    → 19 < length (or_zero (lstrip_zeros cs))
    → 10000000000000000000 ≤ digits_value 0 cs
long-digits_value [] d h = absurd (omega arith)
long-digits_value (c ∷ cs) d h = elim (Bool-cases (c == 48)) [
  | inl e ↦
      (let k : c ≡ 48 = ground arith in
        let h' = subst (λ b. 19 < length (or_zero (if b then lstrip_zeros cs else c ∷ cs))) e h in
        rw (k) (long-digits_value cs (ground (arith, d)) h'))
  | inr e ↦
      (let h' = subst (λ b. 19 < length (or_zero (if b then lstrip_zeros cs else c ∷ cs))) e h in
        first-digits_value c cs (ground (arith, d)) e (omega arith))
]

digits-drop_newline : (cs : Chars) → all is_digit cs ≡ true → drop_newline cs ≡ cs
digits-drop_newline [] h = refl
digits-drop_newline (c ∷ []) h = ground arith
digits-drop_newline (c ∷ d ∷ cs) h = ap (λ ds. c ∷ ds) (digits-drop_newline (d ∷ cs) (ground arith))

digits-lstrip_zeros :
    (cs : Chars) → all is_digit cs ≡ true → all is_digit (or_zero (lstrip_zeros cs)) ≡ true
digits-lstrip_zeros [] h = refl
digits-lstrip_zeros (c ∷ cs) h = elim (Bool-cases (c == 48)) [
  | inl e ↦ rw (e, if◌then◌else◌) (digits-lstrip_zeros cs (ground arith))
  | inr e ↦ rw (e, if◌then◌else◌) h
]

int_of-or_zero : (cs : Chars) → int_of_digits (or_zero cs) ≡ ok (digits_value 0 (or_zero cs))
int_of-or_zero [] = refl
int_of-or_zero (c ∷ cs) = refl

number-digits : (cs : Chars) → is_number cs ≡ true → all is_digit cs ≡ true
number-digits [] h = refl
number-digits (c ∷ cs) h = ground arith

large-in_range : (b : Bool) (n : ℕ) → 10000000000000000000 ≤ n → in_range (signed b n) ≡ none
large-in_range false n h = ground arith
large-in_range true zero h = absurd (omega arith)
large-in_range true (suc n) h = ground arith

-- On a text without a line feed at its end, `_bounded_int` does not raise, and gives the integer
-- that the digits stand for, leading zeros included, exactly when the text is a sign or none and
-- digits, and the integer fits into 64 bits. The guard on the number of digits refuses nothing else.
pub bounded_int-lem :
    (raw : Chars)
    → drop_newline raw ≡ raw
    → bounded_int raw ≡ ok (if is_number (drop_sign raw) then in_range (integer_of raw) else none)
unfolding bounded_int int_re
bounded_int-lem raw e = elim (Bool-cases (is_number (drop_sign raw))) [
  | inr n ↦ rw (e, n, if◌then◌else◌) refl
  | inl n ↦
      (let d = number-digits (drop_sign raw) n in
        elim (Bool-cases (ltb 19 (length (significant raw)))) [
          | inl l ↦
              rw (e, n, l, if◌then◌else◌)
                (ap ok (
                  sym (
                    large-in_range (has_sign raw) _
                      (long-digits_value (drop_sign raw) d (ground (arith, l))))))
          | inr l ↦
              rw
                (
                  e,
                  n,
                  l,
                  if◌then◌else◌,
                  digits-drop_newline (significant raw) (digits-lstrip_zeros (drop_sign raw) d),
                  int_of-or_zero (lstrip_zeros (drop_sign raw)),
                  value-or_zero (lstrip_zeros (drop_sign raw)),
                  value-lstrip_zeros (drop_sign raw),
                )
                refl
        ])
]
