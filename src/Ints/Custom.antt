-- ===== src/Ints/Custom.antt =====
-- Boxed integers in marshalled data: the serialization functions of their custom operations.
pub mod RoundTrip
use mirage_kfreebsd.Base.{
  ℕ, ◌/◌, ◌%◌, ◌^◌, List, ◌++◌, Result, ok, raise, failure, ◌>>=◌, ◌&&◌, ◌==◌, if◌then◌else◌,
}
use mirage_kfreebsd.Base.Int.{ℤ, pos, negsuc, leb_ℤ}
use mirage_kfreebsd.Values.{intnat, int_of, uintnat}
use mirage_kfreebsd.Bigarray.Access.Bytes.{read_le}
use mirage_kfreebsd.Bigarray.Marshal.Stream.{
  serialize_int_1, serialize_int_4, reverse_out, deserialize_uint_1, deserialize_uint_4, reverse_in,
}
use mirage_kfreebsd.Ints.Ops.{uint32, three_way}

-- `caml_serialize_int_8`: the bytes of the number, as memory holds them, in reverse.
unfoldable pub serialize_int_8 : ℕ → List ℕ
serialize_int_8 i = reverse_out 8 0 (λ k. i / 256 ^ k % 256)

unfoldable pub deserialize_sint_4 : List ℕ → Result (ℤ × List ℕ)
deserialize_sint_4 src = deserialize_uint_4 src >>= λ r. ok (int_of (pos r.0), r.1)

unfoldable pub deserialize_sint_8 : List ℕ → Result (ℤ × List ℕ)
deserialize_sint_8 src =
    reverse_in 8 0 src (λ k. 0) >>= λ r. ok (intnat (pos (read_le 8 0 r.0)), r.1)

-- What is written, with `*wsize_32` and `*wsize_64`.
pub record Serialized : Type 0 where
  pub out : List ℕ
  pub wsize_32 : ℕ
  pub wsize_64 : ℕ

-- What is read: the number, the size that is returned, and the rest of the stream.
pub record Deserialized : Type 0 where
  pub value : ℤ
  pub size : ℕ
  pub rest : List ℕ

unfoldable pub int32_serialize : ℤ → Serialized
int32_serialize v = record { out = serialize_int_4 (uint32 v); wsize_32 = 4; wsize_64 = 4 }

unfoldable pub int32_deserialize : List ℕ → Result Deserialized
int32_deserialize src =
    deserialize_sint_4 src >>= λ r. ok (record { value = r.0; size = 4; rest = r.1 })

unfoldable pub int64_serialize : ℤ → Serialized
int64_serialize v = record { out = serialize_int_8 (uintnat v); wsize_32 = 8; wsize_64 = 8 }

unfoldable pub int64_deserialize : List ℕ → Result Deserialized
int64_deserialize src =
    deserialize_sint_8 src >>= λ r. ok (record { value = r.0; size = 8; rest = r.1 })

unfoldable pub nativeint_serialize : ℤ → Serialized
nativeint_serialize l =
    if leb_ℤ l (pos 0x7FFFFFFF) && leb_ℤ (negsuc 0x7FFFFFFF) l
    then record {
      out = serialize_int_1 1 ++ serialize_int_4 (uint32 l);
      wsize_32 = 4;
      wsize_64 = 8;
    }
    else record {
      out = serialize_int_1 2 ++ serialize_int_8 (uintnat l);
      wsize_32 = 4;
      wsize_64 = 8;
    }

-- By the code that `caml_deserialize_uint_1` read.
unfoldable pub nativeint_by_code : ℕ → List ℕ → Result Deserialized
nativeint_by_code code src =
    if code == 1
    then (deserialize_sint_4 src >>= λ r. ok (record { value = r.0; size = 8; rest = r.1 }))
    else if code == 2
    then (deserialize_sint_8 src >>= λ r. ok (record { value = r.0; size = 8; rest = r.1 }))
    else raise (failure "input_value: ill-formed native integer")

unfoldable pub nativeint_deserialize : List ℕ → Result Deserialized
nativeint_deserialize src = deserialize_uint_1 src >>= λ r. nativeint_by_code r.0 r.1

-- The comparison and hash functions.
unfoldable pub int32_cmp : ℤ → ℤ → ℤ
int32_cmp i1 i2 = three_way i1 i2

unfoldable pub int32_hash : ℤ → ℤ
int32_hash v = v

unfoldable pub int64_cmp : ℤ → ℤ → ℤ
int64_cmp i1 i2 = three_way i1 i2

unfoldable pub int64_hash : ℤ → ℤ
int64_hash v = v

unfoldable pub nativeint_cmp : ℤ → ℤ → ℤ
nativeint_cmp i1 i2 = three_way i1 i2

unfoldable pub nativeint_hash : ℤ → ℤ
nativeint_hash v = v
