-- ===== src/Bigarray/Marshal/RoundTrip.antt =====
-- From `caml_ba_serialize` to `caml_ba_deserialize`.
use mirage_kfreebsd.Base.{
  ℕ, zero, suc, ◌+◌, ◌*◌, ◌%◌, ◌^◌, ◌≤◌, ◌<◌, ◌≡◌, ◌≢◌, refl, sym, ap, ◌∙◌, List, [], ◌∷◌, ◌++◌, ok,
  fault, ◌>>=◌, true, false, some, arith, leb, ◌==◌, All, length, get_elem?,
}
use mathlib.Core.List.{append_assoc}
use mirage_kfreebsd.Bigarray.{
  Kind, sint8, uint8, sint16, uint16, int32, int64, caml_int, native_int, kind_of, is_c_layout,
  element_size, BaArray, num_dims, num_elts, rounds, rounds_small, kinds,
}
use mirage_kfreebsd.Bigarray.Alloc.{set_managed}
use mirage_kfreebsd.Bigarray.Access.Bytes.{read_le}
use mirage_kfreebsd.Bigarray.Access.{decode, read_elt}
use mirage_kfreebsd.Bigarray.Access.Laws.{Lies-below, elt_address_lem, element_size_pos}
use mirage_kfreebsd.Base.Int.{pos, negsuc}
use mirage_kfreebsd.Bigarray.Marshal.Blocks.{Same, block-Same}
use mirage_kfreebsd.Bigarray.Marshal.Longs.{IsMemory, longarray-longarray, low_bits, no_value}
use mirage_kfreebsd.Bigarray.Marshal.{
  serialize, serialize_dims, serialize_elements, elements_of, deserialize, deserialize_dims,
  deserialize_elements, Read,
}
use mirage_kfreebsd.Bigarray.Marshal.Stream.{
  serialize_int_4, deserialize_uint_4, deserialize_block, reverse_in,
}

uint_4-int_4 :
    (i : ℕ) (src : List ℕ)
    → i < 2 ^ 32
    → deserialize_uint_4 (serialize_int_4 i ++ src) ≡ ok (i, src)
unfolding deserialize_uint_4 serialize_int_4
uint_4-int_4 i src h = ap (λ n. ok (n, src)) (omega arith)

dims-dims :
    (dim : List ℕ) (src : List ℕ)
    → All (λ d. d < 2 ^ 32) dim
    → deserialize_dims (length dim) (serialize_dims dim ++ src) ≡ ok (dim, src)
unfolding deserialize_dims serialize_dims
dims-dims [] src h = refl
dims-dims (d ∷ dim) src h =
    rw
      (
        append_assoc (serialize_int_4 d) (serialize_dims dim) src,
        uint_4-int_4 d (serialize_dims dim ++ src) h.0,
        dims-dims dim src h.1,
      )
      refl

-- Flags without the bits on the management.
flags_kept : (flags : ℕ) → kind_of (set_managed (flags % 512)) ≡ kind_of flags
unfolding kind_of set_managed
flags_kept flags = ap (get_elem? kinds) (ground arith)

layout_kept : (flags : ℕ) → is_c_layout (set_managed (flags % 512)) ≡ is_c_layout flags
unfolding is_c_layout set_managed
layout_kept flags = ground arith

elements-elements :
    (k : Kind) (a b n : ℕ) (f g : ℕ → ℕ) (src : List ℕ)
    → IsMemory f
    → k ≢ int64
    → (g' : ℕ → ℕ) × (deserialize_elements k a n (serialize_elements k b n f ++ src) g
        ≡ ok (g', src))
      × Same (element_size k) n a b f g'
unfolding deserialize_elements serialize_elements element_size
elements-elements sint8 a b n f g src mem h = block-Same 1 a b n f g src
elements-elements uint8 a b n f g src mem h = block-Same 1 a b n f g src
elements-elements sint16 a b n f g src mem h = block-Same 2 a b n f g src
elements-elements uint16 a b n f g src mem h = block-Same 2 a b n f g src
elements-elements int32 a b n f g src mem h = block-Same 4 a b n f g src
elements-elements int64 a b n f g src mem h = absurd (h refl)
elements-elements caml_int a b n f g src mem h =
    longarray-longarray a b n (negsuc 0x3FFFFFFF) (pos 0x3FFFFFFF) f g src mem
      (λ w small lo hi. low_bits w 0x3FFFFFFF small (omega arith) lo hi)
elements-elements native_int a b n f g src mem h =
    longarray-longarray a b n (pos 0x80000000) (pos 0x7FFFFFFF) f g src mem
      (λ w small lo hi. no_value w lo hi)

serialize-append :
    (b : BaArray) (k : Kind) (bytes : ℕ → ℕ) (src : List ℕ)
    → kind_of b.flags ≡ some k
    → (serialize b bytes).0 ++ src
      ≡ serialize_int_4 (num_dims b)
        ++ (serialize_int_4 (b.flags % 512)
            ++ (serialize_dims b.dim
                ++ (serialize_elements k b.base (rounds (num_elts b)) bytes ++ src)))
unfolding serialize elements_of
serialize-append b k bytes src kind =
    append_assoc (serialize_int_4 (num_dims b)) _ src
    ∙ ap (λ l. serialize_int_4 (num_dims b) ++ l)
        (append_assoc (serialize_int_4 (b.flags % 512)) _ src
          ∙ ap (λ l. serialize_int_4 (b.flags % 512) ++ l)
              (append_assoc (serialize_dims b.dim) _ src
                ∙ ap (λ o. serialize_dims b.dim ++ (elements_of o b bytes ++ src)) kind))

-- The array that the reader makes of the header.
abbrev read_array : ℕ → ℕ → BaArray → BaArray
read_array contents data2 b = record {
  base = contents;
  data2 = data2;
  flags = set_managed (b.flags % 512);
  proxy = 0;
  dim = b.dim;
}

-- What the reader has seen when it comes to the elements.
deserialize_header :
    (b : BaArray) (k : Kind) (bytes g : ℕ → ℕ) (contents room data2 : ℕ) (src : List ℕ)
    → kind_of b.flags ≡ some k
    → All (λ d. d < 2 ^ 32) b.dim
    → num_dims b < 2 ^ 32
    → num_dims b ≤ room
    → contents ≢ 0
    → deserialize contents room data2 ((serialize b bytes).0 ++ src) g ≡ (
        deserialize_elements k contents
          (rounds (num_elts b))
          (serialize_elements k b.base (rounds (num_elts b)) bytes ++ src)
          g
        >>= λ r. ok (record { array = read_array contents data2 b; bytes = r.0; rest = r.1 }))
unfolding deserialize num_elts
deserialize_header b k bytes g contents room data2 src kind small few fit memory =
    rw
      (
        serialize-append b k bytes src kind,
        deserialize,
        uint_4-int_4 (num_dims b)
            (serialize_int_4 (b.flags % 512)
              ++ (serialize_dims b.dim
                  ++ (serialize_elements k b.base (rounds (num_elts b)) bytes ++ src)))
            few,
        uint_4-int_4 (b.flags % 512)
            (serialize_dims b.dim
              ++ (serialize_elements k b.base (rounds (num_elts b)) bytes ++ src))
            (omega arith),
        fits,
        dims-dims b.dim (serialize_elements k b.base (rounds (num_elts b)) bytes ++ src) small,
        flags_kept b.flags ∙ kind,
        given,
      )
      refl
  where
    fits : leb (num_dims b) room ≡ true
    fits = ground (arith, fit)

    given : (contents == 0) ≡ false
    given = ground (arith, memory)

-- An array of any kind but `int64`, of less than 2^63 elements, whose dimensions are below 2^32, is written by
-- `caml_ba_serialize` and read by `caml_ba_deserialize` into a block with room for its dimensions,
-- while there is memory, and the elements of both lie in the 64-bit address space: the reader succeeds, leaves what followed in the stream, and gives an array
-- of the same kind, layout and dimensions that holds the same elements.
pub deserialize-serialize :
    (b : BaArray) (k : Kind) (bytes g : ℕ → ℕ) (contents room data2 i : ℕ) (src : List ℕ)
    → kind_of b.flags ≡ some k
    → k ≢ int64
    → IsMemory bytes
    → All (λ d. d < 2 ^ 32) b.dim
    → num_dims b < 2 ^ 32
    → num_dims b ≤ room
    → contents ≢ 0
    → num_elts b < 2 ^ 63
    → i < num_elts b
    → b.base + num_elts b * element_size k ≤ 2 ^ 64
    → contents + num_elts b * element_size k ≤ 2 ^ 64
    → (r : Read) × (deserialize contents room data2 ((serialize b bytes).0 ++ src) g ≡ ok r)
      × (r.rest ≡ src)
      × (kind_of r.array.flags ≡ some k)
      × (is_c_layout r.array.flags ≡ is_c_layout b.flags)
      × (r.array.dim ≡ b.dim)
      × (read_elt k r.array i r.bytes ≡ read_elt k b i bytes)
unfolding read_elt
deserialize-serialize b k bytes g contents room data2 i src kind whole mem small few fit memory
      count inside lies lies' =
    let (g', run, same) =
      elements-elements k contents b.base (rounds (num_elts b)) bytes g src mem whole in
    (
      record { array = read_array contents data2 b; bytes = g'; rest = src },
      deserialize_header b k bytes g contents room data2 src kind small few fit memory
          ∙ ap
              (λ m. m >>= λ r.
                ok (record { array = read_array contents data2 b; bytes = r.0; rest = r.1 }))
              run,
      refl,
      flags_kept b.flags ∙ kind,
      layout_kept b.flags,
      refl,
      ap (decode k) (
          ap (λ p. read_le (element_size k) p g')
            (elt_address_lem k (read_array contents data2 b) i (element_size_pos k)
              (Lies-below k (read_array contents data2 b) i (num_elts b) inside lies'))
          ∙ same i (omega (arith, inside, rounds_small (num_elts b) count))
          ∙ ap (λ p. read_le (element_size k) p bytes)
              (sym (
                elt_address_lem k b i (element_size_pos k)
                  (Lies-below k b i (num_elts b) inside lies)))),
    )

int64_nothing :
    (b : BaArray) (bytes : ℕ → ℕ)
    → kind_of b.flags ≡ some int64
    → elements_of (kind_of b.flags) b bytes ≡ []
unfolding elements_of serialize_elements
int64_nothing b bytes kind = ap (λ o. elements_of o b bytes) kind

int64_past_end :
    (a b n : ℕ) (f g : ℕ → ℕ)
    → 1 ≤ n
    → deserialize_elements int64 a n (serialize_elements int64 b n f ++ []) g ≡ fault
unfolding deserialize_elements serialize_elements deserialize_block reverse_in
int64_past_end a b zero f g h = absurd (omega arith)
int64_past_end a b (suc n) f g h = refl

-- Of an array of the kind `int64`, with less than 2^63 elements, none is
-- written: `caml_ba_serialize` gives the same stream whatever the elements are, and if there is an
-- element, reading that stream, with nothing behind it, reads past its end.
pub serialize_int64 :
    (b : BaArray) (bytes other g : ℕ → ℕ) (contents room data2 : ℕ)
    → kind_of b.flags ≡ some int64
    → All (λ d. d < 2 ^ 32) b.dim
    → num_dims b < 2 ^ 32
    → num_dims b ≤ room
    → contents ≢ 0
    → num_elts b < 2 ^ 63
    → 1 ≤ num_elts b
    → ((serialize b bytes).0 ≡ (serialize b other).0)
      × (deserialize contents room data2 ((serialize b bytes).0 ++ []) g ≡ fault)
unfolding serialize
serialize_int64 b bytes other g contents room data2 kind small few fit memory count some_elt = (
  ap
      (λ l.
        serialize_int_4 (num_dims b)
        ++ (serialize_int_4 (b.flags % 512) ++ (serialize_dims b.dim ++ l)))
      (int64_nothing b bytes kind ∙ sym (int64_nothing b other kind)),
  deserialize_header b int64 bytes g contents room data2 [] kind small few fit memory
      ∙ ap
          (λ m.
            m >>= λ r. ok (record { array = read_array contents data2 b; bytes = r.0; rest = r.1 }))
          (int64_past_end contents b.base (rounds (num_elts b)) bytes g
            (omega (arith, some_elt, rounds_small (num_elts b) count))),
)
