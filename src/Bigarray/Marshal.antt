-- ===== src/Bigarray/Marshal.antt =====
-- `caml_ba_serialize` and `caml_ba_deserialize`, with the functions of extern.c and intern.c that they
-- call. Marshalled data are big-endian, memory is little-endian.
pub mod Stream
pub mod Blocks
pub mod Longs
pub mod RoundTrip
use mirage_kfreebsd.Base.{
  ℕ, zero, suc, ◌+◌, ◌-◌, ◌*◌, ◌/◌, ◌%◌, ◌^◌, List, [], ◌∷◌, ◌++◌, Result, ok, raise, fault,
  failure, ◌>>=◌, ◌>>◌, guard, deref, Bool, true, false, not, ◌&&◌, ◌||◌, Option, none, some, ltb,
  leb, ◌==◌, if◌then◌else◌, u64, length,
}
use mirage_kfreebsd.Base.Int.{ℤ, pos, negsuc, leb_ℤ}
use mirage_kfreebsd.Bigarray.{
  Kind, sint8, uint8, sint16, uint16, int32, int64, caml_int, native_int, kind_of, element_size,
  managed, BaArray, num_dims, mul_dims, num_elts, rounds,
}
use mirage_kfreebsd.Bigarray.Alloc.{set_managed}
use mirage_kfreebsd.Bigarray.Access.Bytes.{read_le, store_le, signed}
use Stream.{
  serialize_int_1, serialize_int_4, serialize_block, deserialize_uint_1, deserialize_uint_4,
  deserialize_block,
}

-- Is each element from address `a` on between the bounds?
unfoldable pub all_within : ℤ → ℤ → ℕ → ℕ → (ℕ → ℕ) → Bool
all_within lo hi a zero bytes = true
all_within lo hi a (suc left) bytes =
    let v = signed (2 ^ 64) (read_le 8 a bytes) in
    leb_ℤ lo v && leb_ℤ v hi && all_within lo hi (a + 8) left bytes

unfoldable pub serialize_longs : ℕ → ℕ → (ℕ → ℕ) → List ℕ
serialize_longs a zero bytes = []
serialize_longs a (suc left) bytes =
    serialize_int_4 (read_le 8 a bytes) ++ serialize_longs (a + 8) left bytes

unfoldable pub serialize_longarray : ℕ → ℕ → ℤ → ℤ → (ℕ → ℕ) → List ℕ
serialize_longarray a n lo hi bytes =
    if all_within lo hi a n bytes
    then serialize_int_1 0 ++ serialize_longs a n bytes
    else serialize_int_1 1 ++ serialize_block 8 a n bytes

-- The elements. There is no case for `int64`: its line stands among those of the floats, which the
-- kernel does not compile. `-0x80000000` is an unsigned 32-bit literal, that is 2147483648.
unfoldable pub serialize_elements : Kind → ℕ → ℕ → (ℕ → ℕ) → List ℕ
serialize_elements sint8 a n bytes = serialize_block 1 a n bytes
serialize_elements uint8 a n bytes = serialize_block 1 a n bytes
serialize_elements sint16 a n bytes = serialize_block 2 a n bytes
serialize_elements uint16 a n bytes = serialize_block 2 a n bytes
serialize_elements int32 a n bytes = serialize_block 4 a n bytes
serialize_elements int64 a n bytes = []
serialize_elements caml_int a n bytes =
    serialize_longarray a n (negsuc 0x3FFFFFFF) (pos 0x3FFFFFFF) bytes
serialize_elements native_int a n bytes =
    serialize_longarray a n (pos 0x80000000) (pos 0x7FFFFFFF) bytes

unfoldable pub serialize_dims : List ℕ → List ℕ
serialize_dims [] = []
serialize_dims (d ∷ dim) = serialize_int_4 d ++ serialize_dims dim

-- A number that is no kind has no case either.
unfoldable pub elements_of : Option Kind → BaArray → (ℕ → ℕ) → List ℕ
elements_of none b bytes = []
elements_of (some k) b bytes = serialize_elements k b.base (rounds (num_elts b)) bytes

-- The bytes, and the sizes of the block on 32-bit and 64-bit machines.
unfoldable pub serialize : BaArray → (ℕ → ℕ) → List ℕ × ℕ × ℕ
serialize b bytes = (
  serialize_int_4 (num_dims b)
      ++ (serialize_int_4 (b.flags % 512)
          ++ (serialize_dims b.dim ++ elements_of (kind_of b.flags) b bytes)),
  (4 + num_dims b) * 4,
  (4 + num_dims b) * 8,
)

-- A reader of the stream: what it reads, and what is left.
unfoldable pub deserialize_dims : ℕ → List ℕ → Result (List ℕ × List ℕ)
deserialize_dims zero src = ok ([], src)
deserialize_dims (suc n) src = do
  (d, src') ← deserialize_uint_4 src
  (dim, src'') ← deserialize_dims n src'
  ok (d ∷ dim, src'')

-- `(intnat) (int32) w`.
abbrev pub extend32 : ℕ → ℕ
extend32 w = if ltb w (2 ^ 31) then w else w + (2 ^ 64 - 2 ^ 32)

unfoldable pub deserialize_longs : ℕ → ℕ → List ℕ → (ℕ → ℕ) → Result ((ℕ → ℕ) × List ℕ)
deserialize_longs a zero src bytes = ok (bytes, src)
deserialize_longs a (suc left) src bytes = do
  (w, src') ← deserialize_uint_4 src
  deserialize_longs (a + 8) left src' (store_le 8 a (extend32 w) bytes)

unfoldable pub deserialize_longarray : ℕ → ℕ → List ℕ → (ℕ → ℕ) → Result ((ℕ → ℕ) × List ℕ)
deserialize_longarray a n src bytes = do
  (sixty, src') ← deserialize_uint_1 src
  if sixty == 0 then deserialize_longs a n src' bytes else deserialize_block 8 a n src' bytes

unfoldable pub deserialize_elements : Kind → ℕ → ℕ → List ℕ → (ℕ → ℕ) → Result ((ℕ → ℕ) × List ℕ)
deserialize_elements sint8 a n src bytes = deserialize_block 1 a n src bytes
deserialize_elements uint8 a n src bytes = deserialize_block 1 a n src bytes
deserialize_elements sint16 a n src bytes = deserialize_block 2 a n src bytes
deserialize_elements uint16 a n src bytes = deserialize_block 2 a n src bytes
deserialize_elements int32 a n src bytes = deserialize_block 4 a n src bytes
deserialize_elements int64 a n src bytes = deserialize_block 8 a n src bytes
deserialize_elements caml_int a n src bytes = deserialize_longarray a n src bytes
deserialize_elements native_int a n src bytes = deserialize_longarray a n src bytes

-- What is read, the memory after it, and what is left of the stream.
pub record Read : Type 0 where
  pub array : BaArray
  pub bytes : ℕ → ℕ
  pub rest : List ℕ

abbrev pub kind_or_fail : Option Kind → Result Kind
kind_or_fail none = raise (failure "input_value: bad bigarray kind")
kind_or_fail (some k) = ok k

abbrev pub room_for : Bool → Result (Unit {0})
room_for true = ok tt
room_for false = fault

-- `dst` is the block that the array is read into: it has room for `room` dimensions, and its
-- `data2` keeps the value that the memory had. `contents` is what `malloc` returns.
unfoldable pub deserialize : ℕ → ℕ → ℕ → List ℕ → (ℕ → ℕ) → Result Read
deserialize contents room data2 src bytes = do
  (n, src1) ← deserialize_uint_4 src
  (fl, src2) ← deserialize_uint_4 src1
  room_for (leb n room)
  (dim, src3) ← deserialize_dims n src2
  k ← kind_or_fail (kind_of (set_managed fl))
  guard (not (contents == 0)) (failure "input_value: out of memory for bigarray")
  (bytes', rest) ← deserialize_elements k contents (rounds (mul_dims 1 dim)) src3 bytes
  ok (record {
    array = record { base = contents; data2 = data2; flags = set_managed fl; proxy = 0; dim = dim };
    bytes = bytes';
    rest = rest;
  })
