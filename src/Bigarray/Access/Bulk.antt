-- ===== src/Bigarray/Access/Bulk.antt =====
-- `caml_ba_fill` and `caml_ba_blit`, element by element.
use mirage_kfreebsd.Base.{
  ℕ, zero, suc, ◌+◌, ◌-◌, ◌*◌, ◌/◌, ◌%◌, ◌≤◌, ◌<◌, ◌^◌, ◌≡◌, refl, ◌⊎◌, inl, inr, List, [], ◌∷◌, ok,
  some, true, arith, ap, ◌∙◌, sym, ◌==◌, ==_iff, leb, ltb, u64, Bool-cases,
}
use mathlib.Core.Path.{subst}
use native.Mathlib.Nat.{mul_assoc, add-mul-mod_self_left}
use mirage_kfreebsd.Base.Int.{ℤ}
use mirage_kfreebsd.Bigarray.{
  Kind, kind_of, element_size, BaArray, Store, mul_dims, num_elts, rounds, rounds_small,
}
use mirage_kfreebsd.Bigarray.Alloc.Multov.{product}
use mirage_kfreebsd.Bigarray.Access.{
  decode, encode, elt_address, read_elt, write_elt, fill_loop, fill, memmove, same_dims, blit,
}
use mirage_kfreebsd.Bigarray.Access.Bytes.{read_le}
use mirage_kfreebsd.Bigarray.Access.Values.{InRange, decode-encode}
use mirage_kfreebsd.Bigarray.Access.Laws.{
  Lies-below, elt_address_lem, element_size_pos, read_elt-write_elt, read_elt-write_elt_ne,
}

mul_mod : (n d p : ℕ) → u64 (u64 (n * d) * p) ≡ u64 (n * (d * p))
mul_mod n d p =
    let m : ℕ = 18446744073709551616 in
    let split : n * d ≡ n * d / m * m + n * d % m = omega arith in
    let e : n * (d * p) ≡ n * d % m * p + m * (n * d / m * p) =
      sym (mul_assoc n d p) ∙ ap (λ t. t * p) split ∙ omega arith in
    sym (ap (λ t. t % m) e ∙ add-mul-mod_self_left (n * d % m * p) m (n * d / m * p))

-- The count in `uintnat` is the exact product modulo 2^64.
pub mul_dims-product : (n : ℕ) (dim : List ℕ) → n < 2 ^ 64 → mul_dims n dim ≡ u64 (n * product dim)
unfolding mul_dims
mul_dims-product n [] h = omega arith
mul_dims-product n (d ∷ dim) h =
    mul_dims-product (u64 (n * d)) dim (omega arith) ∙ mul_mod n d (product dim)

pub num_elts-product : (b : BaArray) → product b.dim < 2 ^ 64 → num_elts b ≡ product b.dim
unfolding num_elts
num_elts-product b h = omega (arith, mul_dims-product 1 b.dim)

next_room :
    (k : Kind) (b : BaArray) (i left : ℕ)
    → b.base + (i + suc left) * element_size k ≤ 2 ^ 64
    → b.base + (i + 1 + left) * element_size k ≤ 2 ^ 64
next_room k b i left room =
    let same : i + suc left ≡ i + 1 + left = omega arith in
    subst (λ n. b.base + n * element_size k ≤ 2 ^ 64) same room

fill_loop_before :
    (k : Kind) (b : BaArray) (v : ℤ) (i left j : ℕ) (bytes : ℕ → ℕ)
    → j < i
    → b.base + (i + left) * element_size k ≤ 2 ^ 64
    → read_elt k b j (fill_loop k b v i left bytes) ≡ read_elt k b j bytes
unfolding fill_loop
fill_loop_before k b v i zero j bytes h room = refl
fill_loop_before k b v i (suc left) j bytes h room =
    fill_loop_before k b v (i + 1) left j (write_elt k b i v bytes) (omega arith)
      (next_room k b i left room)
    ∙ read_elt-write_elt_ne k b i j v bytes (omega arith)
        (Lies-below k b i (i + suc left) (omega arith) room)
        (Lies-below k b j (i + suc left) (omega arith) room)

fill_loop_inside :
    (k : Kind) (b : BaArray) (v : ℤ) (i left j : ℕ) (bytes : ℕ → ℕ)
    → i ≤ j
    → j < i + left
    → b.base + (i + left) * element_size k ≤ 2 ^ 64
    → read_elt k b j (fill_loop k b v i left bytes) ≡ decode k (encode k v)
unfolding fill_loop
fill_loop_inside k b v i zero j bytes h h' room = absurd (omega arith)
fill_loop_inside k b v i (suc left) j bytes h h' room = elim (Bool-cases (i == j)) [
  | inl here ↦
      fill_loop_before k b v (i + 1) left j (write_elt k b i v bytes) (ground arith)
        (next_room k b i left room)
      ∙ ap (λ n. read_elt k b n (write_elt k b i v bytes)) (sym ((==_iff i j).0 here))
      ∙ read_elt-write_elt k b i v bytes
  | inr later ↦
      fill_loop_inside k b v (i + 1) left j (write_elt k b i v bytes) (ground arith) (omega arith)
        (next_room k b i left room)
]

module _ (b : BaArray) (k : Kind) (kind : kind_of b.flags ≡ some k) (small : product b.dim < 2 ^ 63)
    (room : b.base + product b.dim * element_size k ≤ 2 ^ 64) where
  -- After `caml_ba_fill` of an array of less than 2^63 elements, which lies in the 64-bit address space,
  -- every element of the array is the value, if its kind can hold it.
  pub fill_all :
      (v : ℤ) (s : Store) (i : ℕ)
      → InRange k v
      → i < product b.dim
      → (s' : Store) × (fill b v s ≡ ok s') × (read_elt k b i s'.bytes ≡ v)
  unfolding fill
  fill_all v s i range h = (
    record s { bytes = fill_loop k b v 0 (rounds (num_elts b)) s.bytes },
    rw kind,
    fill_loop_inside k b v 0 (rounds (num_elts b)) i s.bytes (omega arith) inside lies
        ∙ decode-encode k v range,
  )
    where
      all : num_elts b ≡ product b.dim
      all = num_elts-product b (omega (arith, small))

      count : 0 + rounds (num_elts b) ≡ product b.dim
      count = omega (arith, all, small, rounds_small (num_elts b) (omega (arith, all, small)))

      lies : b.base + (0 + rounds (num_elts b)) * element_size k ≤ 2 ^ 64
      lies = subst (λ n. b.base + n * element_size k ≤ 2 ^ 64) (sym count) room

      inside : i < 0 + rounds (num_elts b)
      inside = omega (arith, all, small, h, rounds_small (num_elts b) (omega (arith, all, small)))

memmove_inside :
    (dst src n i : ℕ) (bytes : ℕ → ℕ) → i < n → memmove dst src n bytes (dst + i) ≡ bytes (src + i)
unfolding memmove
memmove_inside dst src n i bytes h =
    let back : dst + i - dst ≡ i = omega arith in
    let low : leb dst (dst + i) ≡ true = ground arith in
    let high : ltb (dst + i) (dst + n) ≡ true = ground arith in rw (back, low, high)

memmove_outside :
    (dst src n a : ℕ) (bytes : ℕ → ℕ)
    → (a < dst) ⊎ (dst + n ≤ a)
    → memmove dst src n bytes a ≡ bytes a
unfolding memmove
memmove_outside dst src n a bytes h = ground arith

read_le-memmove :
    (w dst src n i : ℕ) (bytes : ℕ → ℕ)
    → i + w ≤ n
    → read_le w (dst + i) (memmove dst src n bytes) ≡ read_le w (src + i) bytes
unfolding read_le
read_le-memmove zero dst src n i bytes h = refl
read_le-memmove (suc w) dst src n i bytes h =
    let first = memmove_inside dst src n i bytes (omega arith) in
    let rest = read_le-memmove w dst src n (i + 1) bytes (omega arith) in
    let l : dst + i + 1 ≡ dst + (i + 1) = omega arith in
    let r : src + i + 1 ≡ src + (i + 1) = omega arith in rw (l, r, first, rest)

same_dims_self : (dim : List ℕ) → same_dims dim dim ≡ true
unfolding same_dims
same_dims_self [] = refl
same_dims_self (d ∷ dim) = let same : (d == d) ≡ true = ground arith in rw same (same_dims_self dim)

same_dims-eq : (dim dim' : List ℕ) → dim ≡ dim' → same_dims dim dim' ≡ true
same_dims-eq dim dim' e = ap (same_dims dim) (sym e) ∙ same_dims_self dim

element_fits : (i n w : ℕ) → i < n → i * w + w ≤ n * w
element_fits i n w h = grind arith

module _ (src dst : BaArray) (k : Kind) (kind : kind_of src.flags ≡ some k)
    (small : product src.dim * element_size k < 2 ^ 64) (dims : src.dim ≡ dst.dim)
    (count : product src.dim < 2 ^ 64)
    (src_room : src.base + product src.dim * element_size k ≤ 2 ^ 64)
    (dst_room : dst.base + product src.dim * element_size k ≤ 2 ^ 64) where
  -- Between arrays of the same dimensions, of a known kind and a size below 2^64, which lie in the 64-bit
  -- address space, `caml_ba_blit` succeeds, every element of the destination becomes what
  -- the element of the source was, even if the two overlap, and no byte outside the destination is
  -- written.
  pub blit_all :
      (s : Store) (i a : ℕ)
      → i < product src.dim
      → (a < dst.base) ⊎ (dst.base + product src.dim * element_size k ≤ a)
      → (s' : Store) × (blit src dst s ≡ ok s')
        × (read_elt k dst i s'.bytes ≡ read_elt k src i s.bytes)
        × (s'.bytes a ≡ s.bytes a)
  unfolding blit read_elt
  blit_all s i a inside outside =
      let n = product src.dim * element_size k in
      let bytes_moved : u64 (num_elts src * element_size k) ≡ n = moved in
      (
        record s { bytes = memmove dst.base src.base n s.bytes },
        rw (same_dims-eq src.dim dst.dim dims, kind, bytes_moved),
        ap (decode k) (
            ap (λ p. read_le (element_size k) p (memmove dst.base src.base n s.bytes))
              (at dst dst_room)
            ∙ read_le-memmove (element_size k) dst.base src.base n (i * element_size k) s.bytes
                (element_fits i (product src.dim) (element_size k) inside)
            ∙ ap (λ p. read_le (element_size k) p s.bytes) (sym (at src src_room))),
        memmove_outside dst.base src.base n a s.bytes outside,
      )
    where
      at :
          (b : BaArray)
          → b.base + product src.dim * element_size k ≤ 2 ^ 64
          → elt_address k b i ≡ b.base + i * element_size k
      at b room =
          elt_address_lem k b i (element_size_pos k)
            (Lies-below k b i (product src.dim) inside room)

      moved : u64 (num_elts src * element_size k) ≡ product src.dim * element_size k
      moved = omega (arith, ap (λ m. m * element_size k) (num_elts-product src count))
