-- ===== src/Ints/Parse/Digits.antt =====
-- Numbers from strings, on numbers without bound.
use mirage_kfreebsd.Base.{
  ℕ, ◌+◌, ◌-◌, ◌*◌, ◌/◌, ◌^◌, ◌≡◌, ◌≤◌, ◌<◌, refl, sym, ◌∙◌, List, [], ◌∷◌, Result, ok, true, false,
  Bool-cases, Option-cases, inl, inr, Option, none, some, ltb, ◌==◌, if◌then◌else◌, u64, arith,
}
use mirage_kfreebsd.Ints.Parse.{int_of_string_fails, parse_digits, parse_number}
use mirage_kfreebsd.Ints.Parse.Numerals.{
  digit_in, digit_letters, find_key, below, digit_below-digit_in,
}

-- The number that the digits stand for, behind one that has been read; `_` counts for nothing.
unfoldable pub digits_value : ℕ → ℕ → List ℕ → Option ℕ
digits_value base acc [] = some acc
digits_value base acc (c ∷ p) =
    let skip = digits_value base acc p in
    if c == b'_'
    then skip
    else elim (digit_in base c) [ none ↦ none | some d ↦ digits_value base (base * acc + d) p ]

unfoldable pub numeral_value : ℕ → List ℕ → Option ℕ
numeral_value base [] = none
numeral_value base (c ∷ p) = elim (digit_in base c) [ none ↦ none | some d ↦ digits_value base d p ]

-- A number, if it has 64 bits.
abbrev pub fits_word : Option ℕ → Result ℕ
fits_word none = int_of_string_fails
fits_word (some n) = if ltb n (2 ^ 64) then ok n else int_of_string_fails

grows : (base acc d : ℕ) → 0 < base → acc ≤ base * acc + d
grows base acc d h = grind arith

-- A number that is too large stays so.
too_large :
    (base acc : ℕ) (p : List ℕ)
    → 0 < base
    → 2 ^ 64 ≤ acc
    → fits_word (digits_value base acc p) ≡ int_of_string_fails
unfolding digits_value
too_large base acc [] some_base large = ground arith
too_large base acc (c ∷ p) some_base large = elim (Bool-cases (c == b'_')) [
  | inl bar ↦ rw bar (too_large base acc p some_base large)
  | inr other ↦ elim (Option-cases (digit_in base c)) [
    | inl bad ↦ rw (other, bad) refl
    | inr (d, good) ↦
        let more = grows base acc d some_base in
        rw (other, good) (too_large base (base * acc + d) p some_base (omega arith))
  ]
]

over_threshold : (base res : ℕ) → 0 < base → (2 ^ 64 - 1) / base < res → 2 ^ 64 ≤ base * res
over_threshold base res h over = grind arith

under_threshold : (base res : ℕ) → 0 < base → res ≤ (2 ^ 64 - 1) / base → base * res < 2 ^ 64
under_threshold base res h under = grind arith

below_base : (base c d : ℕ) → digit_in base c ≡ some d → d < base
unfolding digit_in
below_base base c d e = in_base (find_key c digit_letters) e
  where
    in_base : (o : Option ℕ) → below base o ≡ some d → d < base
    in_base none e = cc
    in_base (some v) e = ground arith

-- The tests for overflow find just the numbers that do not fit.
parse_digits-value :
    (base res : ℕ) (p : List ℕ)
    → 0 < base
    → base ≤ 16
    → res < 2 ^ 64
    → parse_digits base res p ≡ fits_word (digits_value base res p)
unfolding parse_digits digits_value
parse_digits-value base res [] some_base small_base fits = ground arith
parse_digits-value base res (c ∷ p) some_base small_base fits = elim (Bool-cases (c == b'_')) [
  | inl bar ↦ rw bar (parse_digits-value base res p some_base small_base fits)
  | inr other ↦ elim (Option-cases (digit_in base c)) [
    | inl bad ↦ rw (other, digit_below-digit_in base c ∙ bad, bad) refl
    | inr (d, good) ↦
        let small_digit = below_base base c d good in
        elim (Bool-cases (ltb ((2 ^ 64 - 1) / base) res)) [
          | inl over ↦
              rw (other, digit_below-digit_in base c ∙ good, good, over)
                (sym (
                  too_large base (base * res + d) p some_base
                    (omega (arith, over_threshold base res some_base (ground arith)))))
          | inr under ↦
              let product = under_threshold base res some_base (ground arith) in
              elim (Bool-cases (ltb (base * res + d) (2 ^ 64))) [
                | inl exact ↦
                    let same : u64 (base * res + d) ≡ base * res + d = ground arith in
                    let no_wrap : ltb (base * res + d) d ≡ false = ground arith in
                    rw (other, digit_below-digit_in base c ∙ good, good, under, same, no_wrap)
                      (parse_digits-value base (base * res + d) p some_base small_base
                        (ground arith))
                | inr wraps ↦
                    let wrapped : ltb (u64 (base * res + d)) d ≡ true = ground arith in
                    rw (other, digit_below-digit_in base c ∙ good, good, under, wrapped)
                      (sym (too_large base (base * res + d) p some_base (ground arith)))
              ]
        ]
  ]
]

pub parse_number-value :
    (base : ℕ) (p : List ℕ)
    → 0 < base
    → base ≤ 16
    → parse_number base p ≡ fits_word (numeral_value base p)
unfolding parse_number numeral_value
parse_number-value base [] some_base small_base = refl
parse_number-value base (c ∷ p) some_base small_base = elim (Option-cases (digit_in base c)) [
  | inl bad ↦ rw (parse_number, numeral_value, digit_below-digit_in base c ∙ bad, bad) refl
  | inr (d, good) ↦
      rw (parse_number, numeral_value, digit_below-digit_in base c ∙ good, good)
        (parse_digits-value base d p some_base small_base (omega (arith, below_base base c d good)))
]
