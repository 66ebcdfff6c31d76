-- ===== src/Bigarray/Access/Values.antt =====
-- The integers that each kind of element holds, and their bit patterns.
use mirage_kfreebsd.Base.{ℕ, ◌^◌, ◌≤◌, ◌<◌, ◌≡◌, arith}
use mirage_kfreebsd.Base.Int.{ℤ, pos_part, neg_part}
use mirage_kfreebsd.Bigarray.{
  Kind, sint8, uint8, sint16, uint16, int32, int64, caml_int, native_int, element_size,
}
use mirage_kfreebsd.Bigarray.Access.{decode, encode}

abbrev IsSigned : ℕ → ℤ → Type 0
IsSigned half v = (pos_part v < half) × (neg_part v ≤ half)

abbrev IsUnsigned : ℕ → ℤ → Type 0
IsUnsigned all v = (pos_part v < all) × (neg_part v ≡ 0)

-- The values that an element of the kind can hold.
abbrev pub InRange : Kind → ℤ → Type 0
InRange sint8 v = IsSigned 128 v
InRange uint8 v = IsUnsigned 256 v
InRange sint16 v = IsSigned 32768 v
InRange uint16 v = IsUnsigned 65536 v
InRange int32 v = IsSigned 2147483648 v
InRange int64 v = IsSigned 9223372036854775808 v
InRange caml_int v = IsSigned 4611686018427387904 v
InRange native_int v = IsSigned 9223372036854775808 v

pub decode-encode : (k : Kind) (v : ℤ) → InRange k v → decode k (encode k v) ≡ v
unfolding decode encode
decode-encode sint8 v h = ground arith
decode-encode uint8 v h = ground arith
decode-encode sint16 v h = ground arith
decode-encode uint16 v h = ground arith
decode-encode int32 v h = ground arith
decode-encode int64 v h = ground arith
decode-encode caml_int v h = ground arith
decode-encode native_int v h = ground arith

pub encode-lt : (k : Kind) (v : ℤ) → encode k v < 256 ^ element_size k
unfolding encode element_size
encode-lt sint8 v = ground arith
encode-lt uint8 v = ground arith
encode-lt sint16 v = ground arith
encode-lt uint16 v = ground arith
encode-lt int32 v = ground arith
encode-lt int64 v = ground arith
encode-lt caml_int v = ground arith
encode-lt native_int v = ground arith
