-- ===== src/Bigarray/Access.antt =====
-- Reading, writing, filling and copying elements.
pub mod Bytes
pub mod Values
pub mod Laws
pub mod Bulk
use mirage_kfreebsd.Base.{
  ℕ, zero, suc, ◌+◌, ◌-◌, ◌*◌, ◌/◌, ◌%◌, ◌^◌, List, [], ◌∷◌, Result, ok, raise, fault,
  invalid_argument, ◌>>=◌, ◌>>◌, guard, deref, Bool, true, false, not, ◌&&◌, ltb, leb, ◌==◌,
  if◌then◌else◌, u64, length, get_elem?, Option, none, some,
}
use mirage_kfreebsd.Base.Int.{ℤ, pos, negsuc}
use mirage_kfreebsd.Bigarray.{
  Kind, sint8, uint8, sint16, uint16, int32, int64, caml_int, native_int, kind_of, is_c_layout,
  element_size, BaArray, num_dims, Store, num_elts, rounds,
}
use mirage_kfreebsd.Bigarray.Index.{offset}
use Bytes.{read_le, store_le, signed, pattern}

-- The integer that an element's bits stand for: an OCaml `int` for the small kinds, the contents of
-- a boxed integer for the wide ones. `Val_long` drops the top bit of a `caml_int`.
unfoldable pub decode : Kind → ℕ → ℤ
decode sint8 w = signed (2 ^ 8) w
decode uint8 w = pos w
decode sint16 w = signed (2 ^ 16) w
decode uint16 w = pos w
decode int32 w = signed (2 ^ 32) w
decode int64 w = signed (2 ^ 64) w
decode caml_int w = signed (2 ^ 63) (w % 2 ^ 63)
decode native_int w = signed (2 ^ 64) w

-- The casts of a write.
unfoldable pub encode : Kind → ℤ → ℕ
encode sint8 v = pattern (2 ^ 8) v
encode uint8 v = pattern (2 ^ 8) v
encode sint16 v = pattern (2 ^ 16) v
encode uint16 v = pattern (2 ^ 16) v
encode int32 v = pattern (2 ^ 32) v
encode int64 v = pattern (2 ^ 64) v
encode caml_int v = pattern (2 ^ 64) v
encode native_int v = pattern (2 ^ 64) v

-- `(type *) b->data + offset`, an address of 64 bits.
abbrev pub elt_address : Kind → BaArray → ℕ → ℕ
elt_address k b i = u64 (b.base + i * element_size k)

-- `((type *) b->data)[offset]`.
unfoldable pub read_elt : Kind → BaArray → ℕ → (ℕ → ℕ) → ℤ
read_elt k b i bytes = decode k (read_le (element_size k) (elt_address k b i) bytes)

unfoldable pub write_elt : Kind → BaArray → ℕ → ℤ → (ℕ → ℕ) → ℕ → ℕ
write_elt k b i v bytes = store_le (element_size k) (elt_address k b i) (encode k v) bytes

-- `caml_ba_get_N`, which `get_1`, `get_2`, `get_3` and `get_generic` call.
unfoldable pub get_n : BaArray → List ℕ → Store → Result ℤ
get_n b vind s = do
  guard (length vind == num_dims b) (invalid_argument "Bigarray.get: wrong number of indices")
  i ← offset b vind
  k ← deref (kind_of b.flags)
  ok (read_elt k b i s.bytes)

unfoldable pub get_1 : BaArray → ℕ → Store → Result ℤ
get_1 b i = get_n b (i ∷ [])

unfoldable pub get_2 : BaArray → ℕ → ℕ → Store → Result ℤ
get_2 b i j = get_n b (i ∷ j ∷ [])

unfoldable pub get_3 : BaArray → ℕ → ℕ → ℕ → Store → Result ℤ
get_3 b i j k = get_n b (i ∷ j ∷ k ∷ [])

unfoldable pub get_generic : BaArray → List ℕ → Store → Result ℤ
get_generic b vind = get_n b vind

-- `caml_ba_set_aux`.
unfoldable pub set_aux : BaArray → List ℕ → ℤ → Store → Result Store
set_aux b vind newval s = do
  guard (length vind == num_dims b) (invalid_argument "Bigarray.set: wrong number of indices")
  i ← offset b vind
  k ← deref (kind_of b.flags)
  ok (record s { bytes = write_elt k b i newval s.bytes })

unfoldable pub set_1 : BaArray → ℕ → ℤ → Store → Result Store
set_1 b i = set_aux b (i ∷ [])

unfoldable pub set_2 : BaArray → ℕ → ℕ → ℤ → Store → Result Store
set_2 b i j = set_aux b (i ∷ j ∷ [])

unfoldable pub set_3 : BaArray → ℕ → ℕ → ℕ → ℤ → Store → Result Store
set_3 b i j k = set_aux b (i ∷ j ∷ k ∷ [])

unfoldable pub set_generic : BaArray → List ℕ → ℤ → Store → Result Store
set_generic b vind = set_aux b vind

-- `caml_ba_dim`: a negative `n` passes the test and is read in front of the array.
unfoldable pub dim_of : BaArray → ℤ → Result ℕ
dim_of b (pos n) = do
  guard (ltb n (num_dims b)) (invalid_argument "Bigarray.dim")
  deref (get_elem? b.dim n)
dim_of b (negsuc n) = fault

unfoldable pub kind_value : BaArray → ℕ
kind_value b = b.flags % 256

unfoldable pub layout_value : BaArray → ℕ
layout_value b = b.flags / 256 % 2 * 256

-- `for (p = b->data; num_elts > 0; p++, num_elts--) *p = init`, from element `i` on.
unfoldable pub fill_loop : Kind → BaArray → ℤ → ℕ → ℕ → (ℕ → ℕ) → ℕ → ℕ
fill_loop k b v i zero bytes = bytes
fill_loop k b v i (suc left) bytes = fill_loop k b v (i + 1) left (write_elt k b i v bytes)

unfoldable pub fill : BaArray → ℤ → Store → Result Store
fill b vinit s = do
  k ← deref (kind_of b.flags)
  ok (record s { bytes = fill_loop k b vinit 0 (rounds (num_elts b)) s.bytes })

-- `memmove`: the source is read before anything is written.
unfoldable pub memmove : ℕ → ℕ → ℕ → (ℕ → ℕ) → ℕ → ℕ
memmove dst src n bytes a =
    if leb dst a && ltb a (dst + n) then bytes (src + (a - dst)) else bytes a

unfoldable pub same_dims : List ℕ → List ℕ → Bool
same_dims [] [] = true
same_dims (d ∷ dim) (e ∷ dim') = d == e && same_dims dim dim'
same_dims _ _ = false

unfoldable pub blit : BaArray → BaArray → Store → Result Store
blit src dst s = do
  guard (same_dims src.dim dst.dim) (invalid_argument "Bigarray.blit: dimension mismatch")
  k ← deref (kind_of src.flags)
  ok (record s { bytes = memmove dst.base src.base (u64 (num_elts src * element_size k)) s.bytes })
