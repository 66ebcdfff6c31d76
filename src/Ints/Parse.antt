-- ===== src/Ints/Parse.antt =====
-- Integers from strings: `parse_intnat`, `caml_int64_of_string` and what they call.
pub mod Numerals
pub mod Digits
pub mod Laws
use mirage_kfreebsd.Base.{
  ℕ, zero, suc, ◌+◌, ◌-◌, ◌*◌, ◌/◌, ◌^◌, List, [], ◌∷◌, Result, ok, raise, failure, ◌>>=◌, ◌>>◌,
  guard, Bool, true, false, not, ◌&&◌, ◌||◌, Option, none, some, ltb, leb, ◌==◌, if◌then◌else◌, u64,
}
use mirage_kfreebsd.Base.Int.{ℤ, pos, negsuc, pos_part, neg_ℕ, ltb_ℤ, leb_ℤ}
use mirage_kfreebsd.Values.{intnat, int_of, int63}

-- What `parse_sign_and_base` returns and stores: the rest of the string, the base, and the sign.
pub record Start : Type 0 where
  pub p : List ℕ
  pub base : ℕ
  pub negative : Bool

-- The `switch` on `p[1]`, after a `0`.
unfoldable pub base_prefix : Bool → List ℕ → Start
base_prefix negative (c0 ∷ c1 ∷ p) =
    let plain : Start = record { p = c0 ∷ c1 ∷ p; base = 10; negative = negative } in
    if c0 == b'0'
    then (if c1 == b'x' || c1 == b'X'
        then record { p = p; base = 16; negative = negative }
        else if c1 == b'o' || c1 == b'O'
        then record { p = p; base = 8; negative = negative }
        else if c1 == b'b' || c1 == b'B'
        then record { p = p; base = 2; negative = negative }
        else plain)
    else plain
base_prefix negative p = record { p = p; base = 10; negative = negative }

unfoldable pub parse_sign_and_base : List ℕ → Start
parse_sign_and_base [] = base_prefix false []
parse_sign_and_base (c ∷ p) = if c == b'-' then base_prefix true p else base_prefix false (c ∷ p)

unfoldable pub parse_digit : ℕ → ℤ
parse_digit c =
    if leb b'0' c && leb c b'9'
    then pos (c - b'0')
    else if leb b'A' c && leb c b'F'
    then pos (c - b'A' + 10)
    else if leb b'a' c && leb c b'f'
    then pos (c - b'a' + 10)
    else negsuc 0

-- `d = parse_digit(c)`, unless `d < 0 || d >= base`.
unfoldable pub digit_below : ℕ → ℕ → Option ℕ
digit_below base c =
    let d = parse_digit c in
    if ltb_ℤ d (pos 0) || leb_ℤ (pos base) d then none else some (pos_part d)

-- `caml_failwith("int_of_string")`.
abbrev pub int_of_string_fails {ℓ} : {A : Type ℓ} → Result A
int_of_string_fails = raise (failure "int_of_string")

-- The loop over the digits behind the first one, with the test behind it that all has been read.
unfoldable pub parse_digits : ℕ → ℕ → List ℕ → Result ℕ
parse_digits base res [] = ok res
parse_digits base res (c ∷ p) =
    let threshold = (2 ^ 64 - 1) / base in
    let skip = parse_digits base res p in
    if c == b'_' then skip else elim (digit_below base c) [
      | none ↦ int_of_string_fails
      | some d ↦
          let res' = u64 (base * res + d) in
          if ltb threshold res
          then int_of_string_fails
          else if ltb res' d
          then int_of_string_fails
          else parse_digits base res' p
    ]

unfoldable pub parse_number : ℕ → List ℕ → Result ℕ
parse_number base [] = int_of_string_fails
parse_number base (c ∷ p) = elim (digit_below base c) [
  | none ↦ int_of_string_fails
  | some d ↦ parse_digits base d p
]

-- `sign < 0 ? -((intnat) res) : (intnat) res`.
unfoldable pub signed_result : Bool → ℕ → ℤ
signed_result false res = intnat (pos res)
signed_result true res = intnat (neg_ℕ res)

-- The tests of the range: in base 10 a signed number of `nbits` bits, else an unsigned one.
unfoldable pub in_range : ℕ → ℕ → Bool → ℕ → Bool
in_range nbits base negative res =
    if base == 10
    then (if negative then leb res (2 ^ (nbits - 1)) else ltb res (2 ^ (nbits - 1)))
    else not (ltb nbits 64 && leb (2 ^ nbits) res)

unfoldable pub parse_intnat : List ℕ → ℕ → Result ℤ
parse_intnat s nbits =
    let start = parse_sign_and_base s in
    parse_number start.base start.p >>= λ res.
    if in_range nbits start.base start.negative res
    then ok (signed_result start.negative res)
    else int_of_string_fails

-- `Val_long` keeps 63 bits.
unfoldable pub int_of_string : List ℕ → Result ℤ
int_of_string s = parse_intnat s 63 >>= λ n. ok (int63 n)

unfoldable pub int32_of_string : List ℕ → Result ℤ
int32_of_string s = parse_intnat s 32 >>= λ n. ok (int_of n)

unfoldable pub nativeint_of_string : List ℕ → Result ℤ
nativeint_of_string s = parse_intnat s 64

unfoldable pub int64_of_string : List ℕ → Result ℤ
int64_of_string s =
    let start = parse_sign_and_base s in
    parse_number start.base start.p >>= λ res.
    let max_int64 = if start.negative then 0x8000000000000000 else 0x7FFFFFFFFFFFFFFF in
    if start.base == 10 && ltb max_int64 res
    then int_of_string_fails
    else ok (signed_result start.negative res)
