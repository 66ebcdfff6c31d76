-- ===== src/Ints/Format.antt =====
-- `parse_format`: the format for `sprintf` and the room for its result.
pub mod Room
use Prim.Native.Nat.{min}
use mirage_kfreebsd.Base.{
  ℕ, zero, suc, ◌+◌, ◌-◌, ◌*◌, ◌^◌, ◌≡◌, ◌≤◌, ◌<◌, List, [], ◌∷◌, ◌++◌, Result, ok, raise, fault,
  invalid_argument, ◌>>=◌, deref, Bool, true, false, ◌&&◌, ◌||◌, Option, none, some, ltb, leb, ◌==◌,
  if◌then◌else◌, length, get_elem?, take, drop, arith,
}
use mirage_kfreebsd.Base.Int.{ℤ, pos, negsuc, ◌+ℤ◌, ltb_ℤ, eqb_ℤ}
use mirage_kfreebsd.Values.{int_of, uintnat}

abbrev pub format_buffer_size : ℕ
format_buffer_size = 32

-- The format with its suffix, the conversion, and the size of the buffer for the result: the one on the
-- stack, or one that is allocated.
pub record Format : Type 0 where
  pub format_string : List ℕ
  pub conv : ℕ
  pub buffer : ℕ

abbrev pub is_digit : ℕ → Bool
is_digit c = leb b'0' c && leb c b'9'

-- `strtol` on a string that begins with a digit.
unfoldable pub strtol : ℕ → List ℕ → ℕ
strtol acc [] = acc
strtol acc (c ∷ p) = let rest = strtol (acc * 10 + (c - b'0')) p in if is_digit c then rest else acc

-- `atoi`: the number, at most LONG_MAX, as an `int`.
unfoldable pub atoi : List ℕ → ℤ
atoi p = int_of (pos (min (strtol 0 p) (2 ^ 63 - 1)))

-- `+` of `int`: a sum that does not fit is undefined.
unfoldable pub add_int : ℤ → ℤ → Result ℤ
add_int a b = if eqb_ℤ (int_of (a +ℤ b)) (a +ℤ b) then ok (a +ℤ b) else fault

-- The loop for `prec`: from the first digit on, or 22 + 5.
unfoldable pub prec_of : List ℕ → Result ℤ
prec_of [] = ok (pos 27)
prec_of (c ∷ p) =
    let rest = prec_of p in
    if c == 0 then ok (pos 27) else if is_digit c then add_int (atoi (c ∷ p)) (pos 5) else rest

-- `prec < FORMAT_BUFFER_SIZE`, or the size that `caml_stat_alloc` is asked for.
unfoldable pub buffer_for : ℤ → Result ℕ
buffer_for prec =
    if ltb_ℤ prec (pos format_buffer_size)
    then ok format_buffer_size
    else add_int prec (pos 1) >>= λ size. ok (uintnat size)

-- The annotations l, n and L.
abbrev pub is_annotation : ℕ → Bool
is_annotation c = c == b'l' || c == b'n' || c == b'L'

-- How far the format is kept: `p - format_string`. A format of one byte is read in front of the buffer.
unfoldable pub kept : List ℕ → Result ℕ
kept fmt =
    let len = length fmt in
    if ltb len 2
    then fault
    else deref (get_elem? fmt (len - 2)) >>= λ c. ok (if is_annotation c then len - 2 else len - 1)

unfoldable pub parse_format : List ℕ → List ℕ → Result Format
parse_format fmt suffix =
    let len = length fmt in
    if leb format_buffer_size (len + length suffix + 1)
    then raise (invalid_argument "format_int: format too long")
    else kept fmt >>= λ p. deref (get_elem? fmt (len - 1)) >>= λ lastletter. prec_of fmt >>= λ prec.
        buffer_for prec >>= λ buffer. ok (record {
          format_string = take p fmt ++ suffix ++ lastletter ∷ [];
          conv = lastletter;
          buffer = buffer;
        })
