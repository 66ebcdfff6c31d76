-- ===== src/Bigarray/Access/Laws.antt =====
-- Reading after writing one element.
use mirage_kfreebsd.Base.{
  ℕ, zero, suc, ◌+◌, ◌*◌, ◌≤◌, ◌^◌, ◌≡◌, ◌≢◌, refl, ◌⊎◌, inl, inr, List, ok, some, arith, length,
  ap, ◌∙◌, sym, ==_iff, ◌<◌, mul_mono,
}
use mirage_kfreebsd.Base.Int.{ℤ}
use mirage_kfreebsd.Bigarray.{
  Kind, sint8, uint8, sint16, uint16, int32, int64, caml_int, native_int, kind_of, element_size,
  BaArray, num_dims, Store,
}
use mirage_kfreebsd.Bigarray.Alloc.Multov.{product}
use mirage_kfreebsd.Bigarray.Index.Linear.{linear, InBounds, linear-injective}
use mirage_kfreebsd.Bigarray.Index.Bounds.{ordered_dims, ordered_index, offset-linear}
use mirage_kfreebsd.Bigarray.Access.{
  decode, encode, elt_address, read_elt, write_elt, get_n, set_aux,
}
use mirage_kfreebsd.Bigarray.Access.Bytes.{read_le-store_le, read_le-store_le_disjoint}
use mirage_kfreebsd.Bigarray.Access.Values.{InRange, decode-encode, encode-lt}

apart : (i j n : ℕ) → i ≢ j → (i * n + n ≤ j * n) ⊎ (j * n + n ≤ i * n)
apart zero zero n ne = absurd (ne refl)
apart zero (suc j) n ne = inl (omega arith)
apart (suc i) zero n ne = inr (omega arith)
apart (suc i) (suc j) n ne = omega (arith, apart i j n (λ e. ne (ap suc e)))

pub read_elt-write_elt :
    (k : Kind) (b : BaArray) (i : ℕ) (v : ℤ) (bytes : ℕ → ℕ)
    → read_elt k b i (write_elt k b i v bytes) ≡ decode k (encode k v)
unfolding read_elt write_elt
read_elt-write_elt k b i v bytes =
    ap (decode k) (read_le-store_le (element_size k) _ (encode k v) bytes (encode-lt k v))

pub element_size_pos : (k : Kind) → 1 ≤ element_size k
unfolding element_size
element_size_pos sint8 = omega arith
element_size_pos uint8 = omega arith
element_size_pos sint16 = omega arith
element_size_pos uint16 = omega arith
element_size_pos int32 = omega arith
element_size_pos int64 = omega arith
element_size_pos caml_int = omega arith
element_size_pos native_int = omega arith

-- An element that lies in the address space, with no wrap in its address.
abbrev pub Lies : Kind → BaArray → ℕ → Type 0
Lies k b i = b.base + i * element_size k + element_size k ≤ 2 ^ 64

pub Lies-below :
    (k : Kind) (b : BaArray) (i n : ℕ) → i < n → b.base + n * element_size k ≤ 2 ^ 64 → Lies k b i
Lies-below k b i n h room = omega (arith, mul_mono (suc i) n (element_size k) h, room)

pub elt_address_lem :
    (k : Kind) (b : BaArray) (i : ℕ)
    → 1 ≤ element_size k
    → Lies k b i
    → elt_address k b i ≡ b.base + i * element_size k
elt_address_lem k b i some_byte lies = omega (arith, some_byte, lies)

pub read_elt-write_elt_ne :
    (k : Kind) (b : BaArray) (i j : ℕ) (v : ℤ) (bytes : ℕ → ℕ)
    → i ≢ j
    → Lies k b i
    → Lies k b j
    → read_elt k b j (write_elt k b i v bytes) ≡ read_elt k b j bytes
unfolding read_elt write_elt
read_elt-write_elt_ne k b i j v bytes ne lies_i lies_j = ap (decode k) (
    read_le-store_le_disjoint (element_size k) (elt_address k b j) (element_size k)
      (elt_address k b i) (encode k v) bytes places)
  where
    places :
        (elt_address k b j + element_size k ≤ elt_address k b i)
        ⊎ (elt_address k b i + element_size k ≤ elt_address k b j)
    places =
        rw
          (
            elt_address_lem k b i (element_size_pos k) lies_i,
            elt_address_lem k b j (element_size_pos k) lies_j,
          )
          (ground (arith, apart i j (element_size k) ne))

-- An array of a known kind, without overflow in its size.
module _ (b : BaArray) (k : Kind) (kind : kind_of b.flags ≡ some k)
    (small : product b.dim ≤ 2 ^ 64) where
  abbrev position : List ℕ → ℕ
  position vind = linear (ordered_dims b) (ordered_index b vind)

  abbrev pub IsIndex : List ℕ → Type 0
  IsIndex vind = (length vind ≡ num_dims b) × InBounds (ordered_dims b) (ordered_index b vind)

  pub get_n-read_elt :
      (vind : List ℕ) (s : Store)
      → IsIndex vind
      → get_n b vind s ≡ ok (read_elt k b (position vind) s.bytes)
  unfolding get_n
  get_n-read_elt vind s h =
      rw ((==_iff (length vind) (num_dims b)).1 h.0, (offset-linear b vind h.1 small).0, kind)

  pub set_aux-write_elt :
      (vind : List ℕ) (v : ℤ) (s : Store)
      → IsIndex vind
      → set_aux b vind v s ≡ ok (record s { bytes = write_elt k b (position vind) v s.bytes })
  unfolding set_aux
  set_aux-write_elt vind v s h =
      rw ((==_iff (length vind) (num_dims b)).1 h.0, (offset-linear b vind h.1 small).0, kind)

  -- Of an array of a known kind and at most 2^64 elements: a write within the bounds succeeds, and reading the element gives back every value that its kind
  -- can hold.
  pub get-set_self :
      (vind : List ℕ) (v : ℤ) (s : Store)
      → IsIndex vind
      → InRange k v
      → (s' : Store) × (set_aux b vind v s ≡ ok s') × (get_n b vind s' ≡ ok v)
  get-set_self vind v s h range = (
    record s { bytes = write_elt k b (position vind) v s.bytes },
    set_aux-write_elt vind v s h,
    get_n-read_elt vind _ h
        ∙ ap ok (read_elt-write_elt k b (position vind) v s.bytes ∙ decode-encode k v range),
  )

  -- Of an array of a known kind that lies in the 64-bit address space: a write that succeeds, within the
  -- bounds, changes no other element, in either layout.
  pub get-set_ne :
      (vind other : List ℕ) (v : ℤ) (s s' : Store)
      → IsIndex vind
      → IsIndex other
      → ordered_index b vind ≢ ordered_index b other
      → b.base + product b.dim * element_size k ≤ 2 ^ 64
      → set_aux b vind v s ≡ ok s'
      → get_n b other s' ≡ get_n b other s
  get-set_ne vind other v s s' h h' ne room run =
      ap (get_n b other) (ok-injective (sym run ∙ set_aux-write_elt vind v s h))
      ∙ get_n-read_elt other _ h'
      ∙ ap ok (
          read_elt-write_elt_ne k b (position vind) (position other) v s.bytes differs (lies vind h)
            (lies other h'))
      ∙ sym (get_n-read_elt other s h')
    where
      lies : (index : List ℕ) → IsIndex index → Lies k b (position index)
      lies index inside =
          Lies-below k b (position index) (product b.dim) (offset-linear b index inside.1 small).1
            room

      differs : position vind ≢ position other
      differs e = ne (linear-injective (ordered_dims b) _ _ h.1 h'.1 e)

      ok-injective : {t u : Store} → ok t ≡ ok u → t ≡ u
      ok-injective e = cc
