-- ===== src/Ints/Int64.antt =====
-- Arithmetic on boxed integers of 64 bits, by the macros of int64_native.h.
use mirage_kfreebsd.Base.{◌*◌, ◌/◌, ◌^◌, Result, ok, raise, zero_divide, ◌&&◌, if◌then◌else◌}
use mirage_kfreebsd.Base.Int.{ℤ, pos, negsuc, ◌+ℤ◌, ◌-ℤ◌, ◌*ℤ◌, eqb_ℤ}
use mirage_kfreebsd.Values.{intnat, int_of, int63, uintnat}
use mirage_kfreebsd.Ints.Ops.{
  div_ℤ, mod_ℤ, three_way, and_bit, or_bit, xor_bit, bitwise, shift_count, shift_right_ℤ,
}

unfoldable pub int64_neg : ℤ → ℤ
int64_neg a = intnat (pos 0 -ℤ a)

unfoldable pub int64_add : ℤ → ℤ → ℤ
int64_add a b = intnat (a +ℤ b)

unfoldable pub int64_sub : ℤ → ℤ → ℤ
int64_sub a b = intnat (a -ℤ b)

unfoldable pub int64_mul : ℤ → ℤ → ℤ
int64_mul a b = intnat (a *ℤ b)

unfoldable pub int64_div : ℤ → ℤ → Result ℤ
int64_div dividend divisor =
    if eqb_ℤ divisor (pos 0)
    then raise zero_divide
    else if eqb_ℤ dividend (negsuc 0x7FFFFFFFFFFFFFFF) && eqb_ℤ divisor (negsuc 0)
    then ok dividend
    else div_ℤ (negsuc 0x7FFFFFFFFFFFFFFF) dividend divisor

unfoldable pub int64_mod : ℤ → ℤ → Result ℤ
int64_mod dividend divisor =
    if eqb_ℤ divisor (pos 0)
    then raise zero_divide
    else if eqb_ℤ dividend (negsuc 0x7FFFFFFFFFFFFFFF) && eqb_ℤ divisor (negsuc 0)
    then ok (pos 0)
    else mod_ℤ (negsuc 0x7FFFFFFFFFFFFFFF) dividend divisor

unfoldable pub int64_and : ℤ → ℤ → ℤ
int64_and a b = intnat (pos (bitwise and_bit 64 (uintnat a) (uintnat b)))

unfoldable pub int64_or : ℤ → ℤ → ℤ
int64_or a b = intnat (pos (bitwise or_bit 64 (uintnat a) (uintnat b)))

unfoldable pub int64_xor : ℤ → ℤ → ℤ
int64_xor a b = intnat (pos (bitwise xor_bit 64 (uintnat a) (uintnat b)))

unfoldable pub int64_shift_left : ℤ → ℤ → Result ℤ
int64_shift_left a count = shift_count 64 count (λ n. intnat (pos (uintnat a * 2 ^ n)))

unfoldable pub int64_shift_right : ℤ → ℤ → Result ℤ
int64_shift_right a count = shift_count 64 count (shift_right_ℤ a)

unfoldable pub int64_shift_right_unsigned : ℤ → ℤ → Result ℤ
int64_shift_right_unsigned a count = shift_count 64 count (λ n. intnat (pos (uintnat a / 2 ^ n)))

unfoldable pub int64_of_int : ℤ → ℤ
int64_of_int n = intnat n

unfoldable pub int64_to_int : ℤ → ℤ
int64_to_int a = int63 a

unfoldable pub int64_of_int32 : ℤ → ℤ
int64_of_int32 a = intnat a

unfoldable pub int64_to_int32 : ℤ → ℤ
int64_to_int32 a = int_of a

unfoldable pub int64_compare : ℤ → ℤ → ℤ
int64_compare i1 i2 = three_way i1 i2

unfoldable pub int64_of_nativeint : ℤ → ℤ
int64_of_nativeint a = intnat a

unfoldable pub int64_to_nativeint : ℤ → ℤ
int64_to_nativeint a = intnat a
