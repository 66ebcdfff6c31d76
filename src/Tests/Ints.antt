-- ===== src/Tests/Ints.antt =====
-- Integers: readers at their bounds, divisions, formats.
use mirage_kfreebsd.Base.{ℕ, ◌^◌, ◌≡◌, ◌≤◌, ◌<◌, refl, List, [], ◌∷◌, ◌++◌, ok, ◌>>=◌, arith}
use mirage_kfreebsd.Base.Int.{ℤ, negsuc, pos_part, neg_part}
use mirage_kfreebsd.Values.{intnat, int_of, int63, uintnat}
use mirage_kfreebsd.Ints.Parse.{
  int_of_string, int32_of_string, int64_of_string, nativeint_of_string, parse_intnat, parse_number,
  parse_sign_and_base, base_prefix, digit_below, parse_digit, parse_digits, in_range, signed_result,
}
use mirage_kfreebsd.Ints.Parse.Laws.{number_in, of_string-number_in}
use mirage_kfreebsd.Ints.Ops.{int32_div, int32_mod}
use mirage_kfreebsd.Ints.Ops.Division.{IsDivision, int32_div-int32_mod}
use mirage_kfreebsd.Ints.Custom.{nativeint_serialize, nativeint_deserialize}
use mirage_kfreebsd.Ints.Custom.RoundTrip.{nativeint_deserialize-nativeint_serialize}
use mirage_kfreebsd.Ints.Format.{
  Format, parse_format, prec_of, add_int, kept, buffer_for, atoi, strtol,
}

-- "-0x7_F".
abbrev numeral : List ℕ
numeral = b'-' ∷ b'0' ∷ b'x' ∷ b'7' ∷ b'_' ∷ b'F' ∷ []

of_string-number_in_example :
    (int_of_string numeral ≡ (number_in 63 numeral >>= λ n. ok (int63 n)))
    × (int32_of_string numeral ≡ (number_in 32 numeral >>= λ n. ok (int_of n)))
    × (nativeint_of_string numeral ≡ number_in 64 numeral)
    × (int64_of_string numeral ≡ number_in 64 numeral)
of_string-number_in_example = of_string-number_in numeral

reads_hex : int_of_string numeral ≡ ok (negsuc 126)
unfolding int_of_string parse_intnat parse_number parse_sign_and_base base_prefix digit_below
    parse_digit parse_digits in_range int63 signed_result intnat
reads_hex = refl

abbrev least_32 : ℤ
least_32 = negsuc 0x7FFFFFFF

int32_div-int32_mod_example :
    (q : ℤ) × (r : ℤ) × (int32_div least_32 (negsuc 0) ≡ ok q)
    × (int32_mod least_32 (negsuc 0) ≡ ok r)
    × (pos_part q < 2 ^ 31)
    × (neg_part q ≤ 2 ^ 31)
    × IsDivision int_of least_32 (negsuc 0) q r
int32_div-int32_mod_example =
    int32_div-int32_mod least_32 (negsuc 0) (omega arith) (omega arith) (λ e. cc)

nativeint_deserialize-nativeint_serialize_example :
    nativeint_deserialize ((nativeint_serialize (negsuc 0x80000000)).out ++ 7 ∷ [])
    ≡ ok (record {
      value = negsuc 0x80000000;
      size = (nativeint_serialize (negsuc 0x80000000)).wsize_64;
      rest = 7 ∷ [];
    })
nativeint_deserialize-nativeint_serialize_example =
    nativeint_deserialize-nativeint_serialize (negsuc 0x80000000) (7 ∷ []) (omega arith)
      (omega arith)

-- "%40ld" with the suffix "l".
abbrev wide : List ℕ
wide = b'%' ∷ b'4' ∷ b'0' ∷ b'l' ∷ b'd' ∷ []

abbrev wide_format : Format
wide_format = record {
  format_string = b'%' ∷ b'4' ∷ b'0' ∷ b'l' ∷ b'd' ∷ [];
  conv = b'd';
  buffer = 46;
}

-- "%5.100d": the precision is not looked at, and the buffer has 32 bytes for 100 digits.
precision_ignored :
    parse_format (b'%' ∷ b'5' ∷ b'.' ∷ b'1' ∷ b'0' ∷ b'0' ∷ b'd' ∷ []) (b'l' ∷ [])
    ≡ ok (record {
      format_string = b'%' ∷ b'5' ∷ b'.' ∷ b'1' ∷ b'0' ∷ b'0' ∷ b'l' ∷ b'd' ∷ [];
      conv = b'd';
      buffer = 32;
    })
unfolding parse_format kept buffer_for prec_of add_int int_of atoi strtol uintnat
precision_ignored = refl
