-- ===== src/Bigarray.antt =====
-- packages/mirage-platform/runtime/ocaml/bigarray_stubs.c and bigarray.h, as the kernel compiles
-- them (`_KERNEL`, 64 bits): the blocks of raw memory that OCaml shares with the network stack.
pub mod Alloc
pub mod Index
pub mod Access
pub mod View
pub mod Finalize
pub mod Compare
pub mod Marshal
use mirage_kfreebsd.Base.{
  ◌<◌, ◌≡◌, arith, ℕ, zero, suc, ◌+◌, ◌-◌, ◌*◌, ◌/◌, ◌%◌, ◌^◌, List, [], ◌∷◌, Result, ok, fault,
  ◌>>=◌, deref, Bool, true, false, Option, none, some, ltb, leb, ◌==◌, if◌then◌else◌, u64, length,
  get_elem?,
}

-- `enum caml_ba_kind`.
pub data Kind : Type 0 where
  sint8 uint8 sint16 uint16 int32 int64 caml_int native_int : Kind

abbrev pub kinds : List Kind
kinds = sint8 ∷ uint8 ∷ sint16 ∷ uint16 ∷ int32 ∷ int64 ∷ caml_int ∷ native_int ∷ []

-- `flags & CAML_BA_KIND_MASK`; a number behind the last kind trips an assertion.
unfoldable pub kind_of : ℕ → Option Kind
kind_of flags = get_elem? kinds (flags % 256)

-- `(flags & CAML_BA_LAYOUT_MASK) == CAML_BA_C_LAYOUT`.
unfoldable pub is_c_layout : ℕ → Bool
is_c_layout flags = flags / 256 % 2 == 0

-- `enum caml_ba_managed`, and `flags & CAML_BA_MANAGED_MASK`.
abbrev pub external : ℕ
external = 0

abbrev pub managed : ℕ
managed = 0x200

abbrev pub mapped_file : ℕ
mapped_file = 0x400

abbrev pub mbuf : ℕ
mbuf = 0x800

unfoldable pub managed_of : ℕ → ℕ
managed_of flags = flags / 512 % 8 * 512

abbrev pub max_num_dims : ℕ
max_num_dims = 16

-- `caml_ba_element_size`.
unfoldable pub element_size : Kind → ℕ
element_size sint8 = 1
element_size uint8 = 1
element_size sint16 = 2
element_size uint16 = 2
element_size int32 = 4
element_size int64 = 8
element_size caml_int = 8
element_size native_int = 8

-- `struct caml_ba_proxy`.
pub record Proxy : Type 0 where
  pub refcount : ℕ
  pub base : ℕ
  pub size : ℕ

-- The two words behind `data2` of an array that is no mbuf.
pub record Counter : Type 0 where
  pub refcount : ℕ
  pub size : ℕ

-- `struct caml_ba_array`. Addresses are numbers, NULL is 0; a dimension is the bit pattern of an
-- `intnat`; `num_dims` is the length of `dim`.
pub record BaArray : Type 0 where
  pub base : ℕ
  pub data2 : ℕ
  pub flags : ℕ
  pub proxy : ℕ
  pub dim : List ℕ

abbrev pub num_dims : BaArray → ℕ
num_dims b = length b.dim

-- What has been given back: pages by `contigfree` with a size, a block by `free`, an mbuf.
pub data Freed : Type 0 where
  pages : ℕ → ℕ → Freed
  block : ℕ → Freed
  chain : ℕ → Freed

-- The memory that arrays share. `mtod` is the `m_data` field of the mbuf at an address.
pub record Store : Type 0 where
  pub bytes : ℕ → ℕ
  pub counters : ℕ → Option Counter
  pub proxies : ℕ → Option Proxy
  pub mtod : ℕ → ℕ
  pub freed : List Freed

abbrev pub update {ℓ} : {A : Type ℓ} → (ℕ → A) → ℕ → A → ℕ → A
update f p a q = if q == p then a else f q

-- The number of elements, in `uintnat`: a product that may wrap.
unfoldable pub mul_dims : ℕ → List ℕ → ℕ
mul_dims n [] = n
mul_dims n (d ∷ ds) = mul_dims (u64 (n * d)) ds

unfoldable pub num_elts : BaArray → ℕ
num_elts b = mul_dims 1 b.dim

-- The rounds of a loop over an `intnat` count: none if the bit pattern is that of a negative number.
unfoldable pub rounds : ℕ → ℕ
rounds n = if leb 9223372036854775808 n then 0 else n

pub rounds_small : (n : ℕ) → n < 2 ^ 63 → rounds n ≡ n
unfolding rounds
rounds_small n h = ground arith

unfoldable pub byte_size : BaArray → Result ℕ
byte_size b = do k ← deref (kind_of b.flags); ok (u64 (num_elts b * element_size k))
