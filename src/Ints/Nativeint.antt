-- ===== src/Ints/Nativeint.antt =====
-- Arithmetic on boxed integers of 64 bits, written with the operators of C.
use mirage_kfreebsd.Base.{◌*◌, ◌/◌, ◌^◌, Result, ok, raise, zero_divide, ◌&&◌, if◌then◌else◌}
use mirage_kfreebsd.Base.Int.{ℤ, pos, negsuc, ◌+ℤ◌, ◌-ℤ◌, ◌*ℤ◌, eqb_ℤ}
use mirage_kfreebsd.Values.{intnat, int_of, int63, uintnat}
use mirage_kfreebsd.Ints.Ops.{
  div_ℤ, mod_ℤ, three_way, and_bit, or_bit, xor_bit, bitwise, shift_count, shift_right_ℤ,
}

unfoldable pub nativeint_neg : ℤ → ℤ
nativeint_neg a = intnat (pos 0 -ℤ a)

unfoldable pub nativeint_add : ℤ → ℤ → ℤ
nativeint_add a b = intnat (a +ℤ b)

unfoldable pub nativeint_sub : ℤ → ℤ → ℤ
nativeint_sub a b = intnat (a -ℤ b)

unfoldable pub nativeint_mul : ℤ → ℤ → ℤ
nativeint_mul a b = intnat (a *ℤ b)

unfoldable pub nativeint_div : ℤ → ℤ → Result ℤ
nativeint_div dividend divisor =
    if eqb_ℤ divisor (pos 0)
    then raise zero_divide
    else if eqb_ℤ dividend (negsuc 0x7FFFFFFFFFFFFFFF) && eqb_ℤ divisor (negsuc 0)
    then ok dividend
    else div_ℤ (negsuc 0x7FFFFFFFFFFFFFFF) dividend divisor

unfoldable pub nativeint_mod : ℤ → ℤ → Result ℤ
nativeint_mod dividend divisor =
    if eqb_ℤ divisor (pos 0)
    then raise zero_divide
    else if eqb_ℤ dividend (negsuc 0x7FFFFFFFFFFFFFFF) && eqb_ℤ divisor (negsuc 0)
    then ok (pos 0)
    else mod_ℤ (negsuc 0x7FFFFFFFFFFFFFFF) dividend divisor

unfoldable pub nativeint_and : ℤ → ℤ → ℤ
nativeint_and a b = intnat (pos (bitwise and_bit 64 (uintnat a) (uintnat b)))

unfoldable pub nativeint_or : ℤ → ℤ → ℤ
nativeint_or a b = intnat (pos (bitwise or_bit 64 (uintnat a) (uintnat b)))

unfoldable pub nativeint_xor : ℤ → ℤ → ℤ
nativeint_xor a b = intnat (pos (bitwise xor_bit 64 (uintnat a) (uintnat b)))

unfoldable pub nativeint_shift_left : ℤ → ℤ → Result ℤ
nativeint_shift_left a count = shift_count 64 count (λ n. intnat (pos (uintnat a * 2 ^ n)))

unfoldable pub nativeint_shift_right : ℤ → ℤ → Result ℤ
nativeint_shift_right a count = shift_count 64 count (shift_right_ℤ a)

unfoldable pub nativeint_shift_right_unsigned : ℤ → ℤ → Result ℤ
nativeint_shift_right_unsigned a count =
    shift_count 64 count (λ n. intnat (pos (uintnat a / 2 ^ n)))

unfoldable pub nativeint_of_int : ℤ → ℤ
nativeint_of_int n = intnat n

unfoldable pub nativeint_to_int : ℤ → ℤ
nativeint_to_int a = int63 a

unfoldable pub nativeint_of_int32 : ℤ → ℤ
nativeint_of_int32 a = intnat a

unfoldable pub nativeint_to_int32 : ℤ → ℤ
nativeint_to_int32 a = int_of a

unfoldable pub nativeint_compare : ℤ → ℤ → ℤ
nativeint_compare i1 i2 = three_way i1 i2
