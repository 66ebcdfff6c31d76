-- ===== src/Bigarray/Compare.antt =====
-- `caml_ba_compare` and `caml_ba_hash`.
pub mod Order
use mirage_kfreebsd.Base.{
  ℕ, zero, suc, ◌+◌, ◌-◌, ◌*◌, ◌/◌, ◌%◌, List, [], ◌∷◌, Bool, true, false, Option, none, some, ltb,
  leb, ◌==◌, if◌then◌else◌, u64, length,
}
use mirage_kfreebsd.Base.Int.{ℤ, pos, negsuc, ltb_ℤ, sub_ℕ}
use mirage_kfreebsd.Bigarray.{
  Kind, sint8, uint8, sint16, uint16, int32, int64, caml_int, native_int, kind_of, element_size,
  BaArray, num_dims, num_elts,
}
use mirage_kfreebsd.Bigarray.Access.{elt_address}
use mirage_kfreebsd.Bigarray.Access.Bytes.{read_le, signed}

-- The element as the C type of the comparison reads it; `caml_int` is compared as an `intnat`.
unfoldable pub value_of : Kind → ℕ → ℤ
value_of sint8 w = signed 256 w
value_of uint8 w = pos w
value_of sint16 w = signed 65536 w
value_of uint16 w = pos w
value_of int32 w = signed 4294967296 w
value_of int64 w = signed 18446744073709551616 w
value_of caml_int w = signed 18446744073709551616 w
value_of native_int w = signed 18446744073709551616 w

unfoldable pub element : Kind → BaArray → ℕ → (ℕ → ℕ) → ℤ
element k b i bytes = value_of k (read_le (element_size k) (elt_address k b i) bytes)

-- `if (e1 < e2) return -1; if (e1 > e2) return 1;` over the elements from `i` on.
unfoldable pub compare_elements : Kind → BaArray → BaArray → ℕ → ℕ → (ℕ → ℕ) → ℤ
compare_elements k b1 b2 i zero bytes = pos 0
compare_elements k b1 b2 i (suc left) bytes =
    let e1 = element k b1 i bytes in
    let e2 = element k b2 i bytes in
    let rest = compare_elements k b1 b2 (i + 1) left bytes in
    if ltb_ℤ e1 e2 then negsuc 0 else if ltb_ℤ e2 e1 then pos 1 else rest

-- `d1 < d2 ? -1 : 1`, on `intnat`.
unfoldable pub compare_dims : List ℕ → List ℕ → ℤ
compare_dims (d1 ∷ dim1) (d2 ∷ dim2) =
    if d1 == d2
    then compare_dims dim1 dim2
    else if ltb_ℤ (signed 18446744073709551616 d1) (signed 18446744073709551616 d2)
    then negsuc 0
    else pos 1
compare_dims _ _ = pos 0

abbrev pub is_zero : ℤ → Bool
is_zero (pos zero) = true
is_zero _ = false

unfoldable pub compare_contents : BaArray → BaArray → (ℕ → ℕ) → ℤ
compare_contents b1 b2 bytes = elim (kind_of b1.flags) [
  | none ↦ pos 0
  | some k ↦ compare_elements k b1 b2 0 (num_elts b1) bytes
]

unfoldable pub compare : BaArray → BaArray → (ℕ → ℕ) → ℤ
compare b1 b2 bytes =
    if num_dims b1 == num_dims b2
    then (if is_zero (compare_dims b1.dim b2.dim)
        then compare_contents b1 b2 bytes
        else compare_dims b1.dim b2.dim)
    else sub_ℕ (num_dims b2) (num_dims b1)

-- `h = (h << 4) + h + v`, in `intnat`, over at most 50 elements, all read as unsigned.
unfoldable pub hash_loop : Kind → BaArray → ℕ → ℕ → ℕ → (ℕ → ℕ) → ℕ
hash_loop k b i zero h bytes = h
hash_loop k b i (suc left) h bytes =
    hash_loop k b (i + 1) left
      (u64 (h * 16 + h + read_le (element_size k) (elt_address k b i) bytes)) bytes

-- `num_elts` is an `intnat` here: a negative one runs no round.
unfoldable pub hash : BaArray → (ℕ → ℕ) → ℕ
hash b bytes =
    let n = num_elts b in
    let rounds = if leb 9223372036854775808 n then 0 else if leb 50 n then 50 else n in
    elim (kind_of b.flags) [ none ↦ 0 | some k ↦ hash_loop k b 0 rounds 0 bytes ]
