-- ===== src/Ints/Ops.antt =====
-- Arithmetic on boxed integers: 32-bit, 64-bit (int64_native.h) and native ones, which have 64 bits too.
pub mod Division
use mirage_kfreebsd.Base.{
  ℕ, zero, suc, ◌+◌, ◌-◌, ◌*◌, ◌/◌, ◌%◌, ◌^◌, Result, ok, raise, fault, zero_divide, Bool, true,
  false, not, ◌&&◌, ◌||◌, ltb, leb, ◌==◌, if◌then◌else◌,
}
use mirage_kfreebsd.Base.Int.{
  ℤ, pos, negsuc, pos_part, neg_part, neg_ℕ, ◌+ℤ◌, ◌-ℤ◌, ◌*ℤ◌, ltb_ℤ, leb_ℤ, eqb_ℤ, quot, rem,
}
use mirage_kfreebsd.Values.{intnat, int_of, int63, uintnat}

-- The numbers that `/` and `%` of C give, which round towards zero.
unfoldable pub quot_ℤ : ℤ → ℤ → ℤ
quot_ℤ a (pos b) = quot a b
quot_ℤ a (negsuc b) = pos 0 -ℤ quot a (suc b)

unfoldable pub rem_ℤ : ℤ → ℤ → ℤ
rem_ℤ a b = rem a (pos_part b + neg_part b)

-- `/` and `%` on a type whose least number is `least`: division by 0, and of the least number by -1, is
-- undefined, for both.
unfoldable pub div_ℤ : ℤ → ℤ → ℤ → Result ℤ
div_ℤ least a b =
    if eqb_ℤ b (pos 0) || (eqb_ℤ a least && eqb_ℤ b (negsuc 0)) then fault else ok (quot_ℤ a b)

unfoldable pub mod_ℤ : ℤ → ℤ → ℤ → Result ℤ
mod_ℤ least a b =
    if eqb_ℤ b (pos 0) || (eqb_ℤ a least && eqb_ℤ b (negsuc 0)) then fault else ok (rem_ℤ a b)

-- `(i1 > i2) - (i1 < i2)`.
unfoldable pub three_way : ℤ → ℤ → ℤ
three_way i1 i2 = if ltb_ℤ i2 i1 then pos 1 else if ltb_ℤ i1 i2 then negsuc 0 else pos 0

-- The bit of weight 1 of `and`, `or` and `xor`.
abbrev pub and_bit : ℕ → ℕ → ℕ
and_bit a b = a % 2 * (b % 2)

abbrev pub or_bit : ℕ → ℕ → ℕ
or_bit a b = a % 2 + b % 2 - a % 2 * (b % 2)

abbrev pub xor_bit : ℕ → ℕ → ℕ
xor_bit a b = (a + b) % 2

-- On the bit patterns of `w` bits.
unfoldable pub bitwise : (ℕ → ℕ → ℕ) → ℕ → ℕ → ℕ → ℕ
bitwise op zero a b = 0
bitwise op (suc w) a b = op a b + 2 * bitwise op w (a / 2) (b / 2)

-- The pattern of 32 bits.
unfoldable pub uint32 : ℤ → ℕ
uint32 a = uintnat a % 2 ^ 32

unfoldable pub int32_neg : ℤ → ℤ
int32_neg a = int_of (pos 0 -ℤ a)

unfoldable pub int32_add : ℤ → ℤ → ℤ
int32_add a b = int_of (a +ℤ b)

unfoldable pub int32_sub : ℤ → ℤ → ℤ
int32_sub a b = int_of (a -ℤ b)

unfoldable pub int32_mul : ℤ → ℤ → ℤ
int32_mul a b = int_of (a *ℤ b)

unfoldable pub int32_div : ℤ → ℤ → Result ℤ
int32_div dividend divisor =
    if eqb_ℤ divisor (pos 0)
    then raise zero_divide
    else if eqb_ℤ dividend (negsuc 0x7FFFFFFF) && eqb_ℤ divisor (negsuc 0)
    then ok dividend
    else div_ℤ (negsuc 0x7FFFFFFF) dividend divisor

unfoldable pub int32_mod : ℤ → ℤ → Result ℤ
int32_mod dividend divisor =
    if eqb_ℤ divisor (pos 0)
    then raise zero_divide
    else if eqb_ℤ dividend (negsuc 0x7FFFFFFF) && eqb_ℤ divisor (negsuc 0)
    then ok (pos 0)
    else mod_ℤ (negsuc 0x7FFFFFFF) dividend divisor

unfoldable pub int32_and : ℤ → ℤ → ℤ
int32_and a b = int_of (pos (bitwise and_bit 32 (uint32 a) (uint32 b)))

unfoldable pub int32_or : ℤ → ℤ → ℤ
int32_or a b = int_of (pos (bitwise or_bit 32 (uint32 a) (uint32 b)))

unfoldable pub int32_xor : ℤ → ℤ → ℤ
int32_xor a b = int_of (pos (bitwise xor_bit 32 (uint32 a) (uint32 b)))

-- A shift by a count outside of the width is undefined.
abbrev pub shift_count : ℕ → ℤ → (ℕ → ℤ) → Result ℤ
shift_count width count shifted =
    if ltb_ℤ (int_of count) (pos 0) || leb_ℤ (pos width) (int_of count)
    then fault
    else ok (shifted (pos_part (int_of count)))

-- `a >> n`: the sign comes in from the left.
unfoldable pub shift_right_ℤ : ℤ → ℕ → ℤ
shift_right_ℤ (pos a) n = pos (a / 2 ^ n)
shift_right_ℤ (negsuc a) n = negsuc (a / 2 ^ n)

unfoldable pub int32_shift_left : ℤ → ℤ → Result ℤ
int32_shift_left a count = shift_count 32 count (λ n. int_of (pos (uint32 a * 2 ^ n)))

unfoldable pub int32_shift_right : ℤ → ℤ → Result ℤ
int32_shift_right a count = shift_count 32 count (shift_right_ℤ a)

unfoldable pub int32_shift_right_unsigned : ℤ → ℤ → Result ℤ
int32_shift_right_unsigned a count = shift_count 32 count (λ n. int_of (pos (uint32 a / 2 ^ n)))

unfoldable pub int32_of_int : ℤ → ℤ
int32_of_int n = int_of n

unfoldable pub int32_to_int : ℤ → ℤ
int32_to_int a = int63 a

unfoldable pub int32_compare : ℤ → ℤ → ℤ
int32_compare i1 i2 = three_way i1 i2

-- On tagged words, which are in the order of their numbers.
unfoldable pub int_compare : ℤ → ℤ → ℤ
int_compare v1 v2 = three_way v1 v2
