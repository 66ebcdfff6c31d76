-- ===== src/Bigarray/Marshal/Stream.antt =====
-- extern.c and intern.c: fixed-width integers and blocks in the marshalled stream.
use mirage_kfreebsd.Base.{
  ℕ, zero, suc, ◌+◌, ◌*◌, ◌/◌, ◌%◌, List, [], ◌∷◌, ◌++◌, Result, ok, fault, ◌>>=◌,
}
use mirage_kfreebsd.Bigarray.{update}

unfoldable pub serialize_int_1 : ℕ → List ℕ
serialize_int_1 i = i % 256 ∷ []

unfoldable pub serialize_int_4 : ℕ → List ℕ
serialize_int_4 i = i / 16777216 % 256 ∷ i / 65536 % 256 ∷ i / 256 % 256 ∷ i % 256 ∷ []

-- `Reverse_16`, `Reverse_32` and `Reverse_64`: the `n` bytes from `a` on, the last one first.
unfoldable pub reverse_out : ℕ → ℕ → (ℕ → ℕ) → List ℕ
reverse_out zero a bytes = []
reverse_out (suc n) a bytes = bytes (a + n) ∷ reverse_out n a bytes

-- `caml_serialize_block_1`, `_2`, `_4` and `_8`: `len` elements of `n` bytes.
unfoldable pub serialize_block : ℕ → ℕ → ℕ → (ℕ → ℕ) → List ℕ
serialize_block n a zero bytes = []
serialize_block n a (suc len) bytes = reverse_out n a bytes ++ serialize_block n (a + n) len bytes

unfoldable pub deserialize_uint_1 : List ℕ → Result (ℕ × List ℕ)
deserialize_uint_1 [] = fault
deserialize_uint_1 (b ∷ src) = ok (b, src)

unfoldable pub deserialize_uint_4 : List ℕ → Result (ℕ × List ℕ)
deserialize_uint_4 (b3 ∷ b2 ∷ b1 ∷ b0 ∷ src) = ok (b3 * 16777216 + b2 * 65536 + b1 * 256 + b0, src)
deserialize_uint_4 _ = fault

unfoldable pub reverse_in : ℕ → ℕ → List ℕ → (ℕ → ℕ) → Result ((ℕ → ℕ) × List ℕ)
reverse_in zero a src bytes = ok (bytes, src)
reverse_in (suc n) a [] bytes = fault
reverse_in (suc n) a (b ∷ src) bytes = reverse_in n a src (update bytes (a + n) b)

unfoldable pub deserialize_block : ℕ → ℕ → ℕ → List ℕ → (ℕ → ℕ) → Result ((ℕ → ℕ) × List ℕ)
deserialize_block n a zero src bytes = ok (bytes, src)
deserialize_block n a (suc len) src bytes = do
  (bytes', src') ← reverse_in n a src bytes
  deserialize_block n (a + n) len src' bytes'
