-- ===== src/Ints/Custom/RoundTrip.antt =====
-- Boxed integers, written and read back.
use mirage_kfreebsd.Base.{
  ℕ, ◌^◌, ◌≡◌, ◌<◌, ◌≤◌, refl, ap, ◌∙◌, List, ◌++◌, ok, ◌&&◌, Bool-cases, inl, inr, arith,
}
use mirage_kfreebsd.Base.Int.{ℤ, pos, negsuc, pos_part, neg_part, leb_ℤ}
use mirage_kfreebsd.Values.{intnat, int_of, uintnat}
use mirage_kfreebsd.Bigarray.Access.Bytes.{read_le}
use mirage_kfreebsd.Bigarray.Marshal.Stream.{
  serialize_int_1, serialize_int_4, reverse_out, deserialize_uint_1, deserialize_uint_4, reverse_in,
}
use mirage_kfreebsd.Ints.Ops.{uint32}
use mirage_kfreebsd.Ints.Custom.{
  serialize_int_8, deserialize_sint_4, deserialize_sint_8, int32_serialize, int32_deserialize,
  int64_serialize, int64_deserialize, nativeint_serialize, nativeint_deserialize, nativeint_by_code,
}

int_of-uint32 : (v : ℤ) → pos_part v < 2 ^ 31 → neg_part v ≤ 2 ^ 31 → int_of (pos (uint32 v)) ≡ v
unfolding int_of uint32 uintnat
int_of-uint32 (pos n) up down = ground arith
int_of-uint32 (negsuc n) up down = ground arith

intnat-uintnat : (v : ℤ) → pos_part v < 2 ^ 63 → neg_part v ≤ 2 ^ 63 → intnat (pos (uintnat v)) ≡ v
unfolding intnat uintnat
intnat-uintnat (pos n) up down = ground arith
intnat-uintnat (negsuc n) up down = ground arith

uint32-lt : (v : ℤ) → uint32 v < 2 ^ 32
unfolding uint32
uint32-lt v = omega arith

uintnat-lt : (v : ℤ) → uintnat v < 2 ^ 64
unfolding uintnat
uintnat-lt (pos n) = omega arith
uintnat-lt (negsuc n) = omega arith

sint_4 :
    (v : ℤ) (rest : List ℕ)
    → pos_part v < 2 ^ 31
    → neg_part v ≤ 2 ^ 31
    → deserialize_sint_4 (serialize_int_4 (uint32 v) ++ rest) ≡ ok (v, rest)
unfolding deserialize_sint_4 serialize_int_4 deserialize_uint_4
sint_4 v rest up down =
    ap (λ w. ok (int_of (pos w), rest)) (omega (arith, uint32-lt v))
    ∙ ap (λ n. ok (n, rest)) (int_of-uint32 v up down)

sint_8 :
    (v : ℤ) (rest : List ℕ)
    → pos_part v < 2 ^ 63
    → neg_part v ≤ 2 ^ 63
    → deserialize_sint_8 (serialize_int_8 (uintnat v) ++ rest) ≡ ok (v, rest)
unfolding deserialize_sint_8 serialize_int_8 reverse_out reverse_in read_le
sint_8 v rest up down =
    ap (λ w. ok (intnat (pos w), rest)) (omega (arith, uintnat-lt v))
    ∙ ap (λ n. ok (n, rest)) (intnat-uintnat v up down)

int32_lem :
    (v : ℤ) (rest : List ℕ)
    → pos_part v < 2 ^ 31
    → neg_part v ≤ 2 ^ 31
    → int32_deserialize ((int32_serialize v).out ++ rest)
      ≡ ok (record { value = v; size = (int32_serialize v).wsize_64; rest = rest })
unfolding int32_deserialize int32_serialize
int32_lem v rest up down = rw (sint_4 v rest up down) refl

int64_lem :
    (v : ℤ) (rest : List ℕ)
    → pos_part v < 2 ^ 63
    → neg_part v ≤ 2 ^ 63
    → int64_deserialize ((int64_serialize v).out ++ rest)
      ≡ ok (record { value = v; size = (int64_serialize v).wsize_64; rest = rest })
unfolding int64_deserialize int64_serialize
int64_lem v rest up down = rw (sint_8 v rest up down) refl

-- A native integer that is written, in 32 bits where it fits these and else in 64, is read back as it was,
-- up to the rest of the stream, and the reader returns the size that the writer has stored for 64-bit
-- machines.
pub nativeint_deserialize-nativeint_serialize :
    (v : ℤ) (rest : List ℕ)
    → pos_part v < 2 ^ 63
    → neg_part v ≤ 2 ^ 63
    → nativeint_deserialize ((nativeint_serialize v).out ++ rest)
      ≡ ok (record { value = v; size = (nativeint_serialize v).wsize_64; rest = rest })
unfolding nativeint_deserialize nativeint_serialize nativeint_by_code serialize_int_1
    deserialize_uint_1
nativeint_deserialize-nativeint_serialize v rest up down =
    elim (Bool-cases (leb_ℤ v (pos 0x7FFFFFFF) && leb_ℤ (negsuc 0x7FFFFFFF) v)) [
      | inl short ↦ rw (short, sint_4 v rest (ground arith) (ground arith)) refl
      | inr long_one ↦ rw (long_one, sint_8 v rest up down) refl
    ]

-- 32-bit and 64-bit integers are read back as they were written, with the sizes that the writers store.
pub boxed_round_trip :
    (v w : ℤ) (rest : List ℕ)
    → pos_part v < 2 ^ 31
    → neg_part v ≤ 2 ^ 31
    → pos_part w < 2 ^ 63
    → neg_part w ≤ 2 ^ 63
    → (int32_deserialize ((int32_serialize v).out ++ rest)
        ≡ ok (record { value = v; size = (int32_serialize v).wsize_64; rest = rest }))
      × (int64_deserialize ((int64_serialize w).out ++ rest)
          ≡ ok (record { value = w; size = (int64_serialize w).wsize_64; rest = rest }))
boxed_round_trip v w rest up down up' down' = (int32_lem v rest up down, int64_lem w rest up' down')
