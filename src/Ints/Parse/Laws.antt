-- ===== src/Ints/Parse/Laws.antt =====
-- The integers that strings stand for.
use native.Mathlib.Nat.{pow-le-pow_right}
use mirage_kfreebsd.Base.{
  ℕ, zero, suc, ◌-◌, ◌^◌, ◌≡◌, ◌≤◌, ◌<◌, refl, ap, ◌∙◌, List, [], ◌∷◌, Result, ok, raise, fault,
  out_of_fuel, ◌>>=◌, Bool, true, false, not, ◌&&◌, Bool-cases, Option-cases, inl, inr, none, some,
  ltb, leb, ◌==◌, if◌then◌else◌, arith,
}
use mirage_kfreebsd.Base.Int.{ℤ, pos, neg_ℕ}
use mirage_kfreebsd.Values.{intnat, int63, int_of}
use mirage_kfreebsd.Ints.Parse.{
  Start, base_prefix, parse_sign_and_base, int_of_string_fails, parse_number, parse_intnat,
  in_range, signed_result, int_of_string, int32_of_string, int64_of_string, nativeint_of_string,
}
use mirage_kfreebsd.Ints.Parse.Numerals.{
  read_start, parse_sign_and_base-read_start, pattern_result, signed_result-pattern_result,
}
use mirage_kfreebsd.Ints.Parse.Digits.{numeral_value, fits_word, parse_number-value}

-- The result for the number n that the digits stand for: in base 10 the signed number, if it has `nbits`
-- bits; in another base n as a bit pattern of `nbits` bits, negated as such.
unfoldable pub bounded : ℕ → Start → ℕ → Result ℤ
bounded nbits start n =
    if start.base == 10
    then (if start.negative
        then (if leb n (2 ^ (nbits - 1)) then ok (neg_ℕ n) else int_of_string_fails)
        else (if ltb n (2 ^ (nbits - 1)) then ok (pos n) else int_of_string_fails))
    else (if ltb n (2 ^ nbits) then ok (pattern_result start.negative n) else int_of_string_fails)

unfoldable pub number_from : ℕ → Start → Result ℤ
number_from nbits start = elim (numeral_value start.base start.p) [
  | none ↦ int_of_string_fails
  | some n ↦ bounded nbits start n
]

unfoldable pub number_in : ℕ → List ℕ → Result ℤ
number_in nbits s = number_from nbits (read_start s)

prefix_base :
    (negative : Bool) (p : List ℕ)
    → (0 < (base_prefix negative p).base) × ((base_prefix negative p).base ≤ 16)
unfolding base_prefix
prefix_base negative [] = omega arith
prefix_base negative (c0 ∷ []) = omega arith
prefix_base negative (c0 ∷ c1 ∷ p) = ground arith

small_base : (s : List ℕ) → (0 < (parse_sign_and_base s).base) × ((parse_sign_and_base s).base ≤ 16)
unfolding parse_sign_and_base
small_base [] = prefix_base false []
small_base (c ∷ p) = ground (arith, prefix_base true p, prefix_base false (c ∷ p))

signed_pos : (n : ℕ) → n < 2 ^ 63 → signed_result false n ≡ pos n
unfolding signed_result intnat
signed_pos n h = ground arith

signed_neg : (n : ℕ) → n ≤ 2 ^ 63 → signed_result true n ≡ neg_ℕ n
unfolding signed_result intnat
signed_neg zero h = ground arith
signed_neg (suc n) h = ground arith

-- The tests of the range, on what fits a word.
range_ten :
    (half n : ℕ) (negative : Bool)
    → half ≤ 2 ^ 63
    → (fits_word (some n) >>= λ res.
        if (if negative then leb res half else ltb res half)
        then ok (signed_result negative res)
        else int_of_string_fails)
      ≡ (if negative
          then (if leb n half then ok (neg_ℕ n) else int_of_string_fails)
          else (if ltb n half then ok (pos n) else int_of_string_fails))
range_ten half n true small = ground (arith, signed_neg n)
range_ten half n false small = ground (arith, signed_pos n)

word_range :
    (nbits n : ℕ) (negative : Bool)
    → nbits ≤ 64
    → (fits_word (some n) >>= λ res.
        if not (ltb nbits 64 && leb (2 ^ nbits) res)
        then ok (signed_result negative res)
        else int_of_string_fails)
      ≡ (if ltb n (2 ^ nbits) then ok (signed_result negative n) else int_of_string_fails)
word_range nbits n negative few =
    let whole : 2 ^ nbits ≤ 2 ^ 64 = pow-le-pow_right (omega arith) few in
    elim (Bool-cases (ltb nbits 64)) [
      | inl less ↦ rw less (ground arith)
      | inr all_bits ↦ let word : nbits ≡ 64 = ground arith in rw word (ground arith)
    ]

range_other :
    (nbits n : ℕ) (negative : Bool)
    → nbits ≤ 64
    → (fits_word (some n) >>= λ res.
        if not (ltb nbits 64 && leb (2 ^ nbits) res)
        then ok (signed_result negative res)
        else int_of_string_fails)
      ≡ (if ltb n (2 ^ nbits) then ok (pattern_result negative n) else int_of_string_fails)
range_other nbits n negative few =
    let whole : 2 ^ nbits ≤ 2 ^ 64 = pow-le-pow_right (omega arith) few in
    word_range nbits n negative few ∙ elim (Bool-cases (ltb n (2 ^ nbits))) [
      | inl fits ↦ rw fits (ap ok (signed_result-pattern_result negative n (ground arith)))
      | inr large ↦ rw large refl
    ]

range_lem :
    (nbits n : ℕ) (start : Start)
    → nbits ≤ 64
    → (fits_word (some n) >>= λ res.
        if in_range nbits start.base start.negative res
        then ok (signed_result start.negative res)
        else int_of_string_fails)
      ≡ bounded nbits start n
unfolding in_range bounded
range_lem nbits n start few = elim (Bool-cases (start.base == 10)) [
  | inl ten ↦
      let few_less : nbits - 1 ≤ 63 = omega arith in
      let half : 2 ^ (nbits - 1) ≤ 2 ^ 63 = pow-le-pow_right (omega arith) few_less in
      rw ten (range_ten (2 ^ (nbits - 1)) n start.negative half)
  | inr other ↦ rw other (range_other nbits n start.negative few)
]

-- `parse_intnat` reads every string as the integer that its sign, base and digits stand for, on numbers
-- without bound, if this has `nbits` bits, and fails on every other string: no overflow goes unseen.
pub parse_intnat-number_in :
    (s : List ℕ) (nbits : ℕ) → nbits ≤ 64 → parse_intnat s nbits ≡ number_in nbits s
unfolding parse_intnat number_in number_from
parse_intnat-number_in s nbits few =
    let start = parse_sign_and_base s in
    let (some_base, few_bits) = small_base s in
    whole start some_base few_bits ∙ ap (number_from nbits) (parse_sign_and_base-read_start s)
  where
    whole :
        (start : Start)
        → 0 < start.base
        → start.base ≤ 16
        → (parse_number start.base start.p >>= λ res.
            if in_range nbits start.base start.negative res
            then ok (signed_result start.negative res)
            else int_of_string_fails)
          ≡ number_from nbits start
    whole start some_base few_bits = elim (Option-cases (numeral_value start.base start.p)) [
      | inl bad ↦
          rw (parse_number-value start.base start.p some_base few_bits, number_from, bad) refl
      | inr (n, good) ↦
          rw (parse_number-value start.base start.p some_base few_bits, number_from, good)
            (range_lem nbits n start few)
    ]

>>=-ext : (m : Result ℕ) {f g : ℕ → Result ℤ} → ((n : ℕ) → f n ≡ g n) → (m >>= f) ≡ (m >>= g)
>>=-ext fault e = refl
>>=-ext out_of_fuel e = refl
>>=-ext (raise exn) e = refl
>>=-ext (ok n) e = e n

same_range :
    (start : Start) (res : ℕ)
    → (if start.base == 10
          && ltb (if start.negative then 0x8000000000000000 else 0x7FFFFFFFFFFFFFFF) res
        then int_of_string_fails
        else ok (signed_result start.negative res))
      ≡ (if in_range 64 start.base start.negative res
          then ok (signed_result start.negative res)
          else int_of_string_fails)
unfolding in_range
same_range start res = ground arith

-- `Int64.of_string` and `Nativeint.of_string` do the same, though the one is written with the macros of
-- 64-bit arithmetic and tests its range in another way.
pub int64_of_string-nativeint_of_string : (s : List ℕ) → int64_of_string s ≡ nativeint_of_string s
unfolding int64_of_string nativeint_of_string parse_intnat in_range
int64_of_string-nativeint_of_string s =
    let start = parse_sign_and_base s in
    >>=-ext (parse_number start.base start.p) (same_range start)

nativeint-number_in : (s : List ℕ) → nativeint_of_string s ≡ number_in 64 s
unfolding nativeint_of_string
nativeint-number_in s = parse_intnat-number_in s 64 (omega arith)

-- The four readers of integers take every string as `number_in` does, on numbers without bound and with
-- the sign, the letters for bases and the digits read from tables of their own: if the number fits 63
-- bits, 32 or 64; every other string makes them fail with "int_of_string", so no overflow goes unseen. In
-- base 10 the range is that of signed numbers; in the others the digits are a bit pattern, of which
-- `Val_long` and the cast to `int32` take the low bits.
pub of_string-number_in :
    (s : List ℕ)
    → (int_of_string s ≡ (number_in 63 s >>= λ n. ok (int63 n)))
      × (int32_of_string s ≡ (number_in 32 s >>= λ n. ok (int_of n)))
      × (nativeint_of_string s ≡ number_in 64 s)
      × (int64_of_string s ≡ number_in 64 s)
unfolding int_of_string int32_of_string nativeint_of_string
of_string-number_in s = (
  ap (λ m. m >>= λ n. ok (int63 n)) (parse_intnat-number_in s 63 (omega arith)),
  ap (λ m. m >>= λ n. ok (int_of n)) (parse_intnat-number_in s 32 (omega arith)),
  parse_intnat-number_in s 64 (omega arith),
  int64_of_string-nativeint_of_string s ∙ nativeint-number_in s,
)
