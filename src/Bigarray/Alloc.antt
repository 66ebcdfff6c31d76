-- ===== src/Bigarray/Alloc.antt =====
-- `caml_ba_multov`, `caml_ba_alloc`, `caml_ba_alloc_dims` and `caml_ba_create`.
pub mod Multov
use Prim.Native.Nat.{bit_or}
use mirage_kfreebsd.Base.{
  ℕ, zero, suc, ◌+◌, ◌-◌, ◌*◌, ◌/◌, ◌%◌, ◌^◌, List, [], ◌∷◌, Result, ok, raise, fault,
  invalid_argument, out_of_memory, ◌>>=◌, ◌>>◌, guard, deref, Bool, true, false, not, ◌&&◌, ◌||◌,
  Option, none, some, ltb, leb, ◌==◌, if◌then◌else◌, u64, u32, length,
}
use mirage_kfreebsd.Bigarray.{
  Kind, kind_of, element_size, managed_of, managed, mbuf, max_num_dims, Counter, BaArray, Store,
  update,
}

abbrev half : ℕ
half = 4294967296

-- The tests on the partial products `p1` and `p2` and on their sum, shifted, against the product.
unfoldable pub partial_overflow : ℕ → ℕ → ℕ → Bool
partial_overflow p1 p2 p =
    let p1' = u64 (p1 * half) in
    let p2' = u64 (p2 * half) in
    let p1'' = u64 (p1' + p2') in
    not (p1 / half == 0) || not (p2 / half == 0) || (ltb p p1'' || ltb p1'' p2')

-- Multiplication with overflow detection; the flag is only ever set.
unfoldable pub multov : ℕ → ℕ → Bool → ℕ × Bool
multov a b overflow =
    let al = a % half in
    let ah = a / half in
    let bl = b % half in
    let bh = b / half in
    let p1 = u64 (al * bh) in
    let p2 = u64 (ah * bl) in
    let p = u64 (a * b) in
    let both = not (ah == 0) && not (bh == 0) in (p, overflow || (both || partial_overflow p1 p2 p))

unfoldable pub count_elts : List ℕ → ℕ → Bool → ℕ × Bool
count_elts [] n overflow = (n, overflow)
count_elts (d ∷ dim) n overflow =
    let (p, overflow') = multov n d overflow in count_elts dim p overflow'

-- `u[1] += dim[i]` in `u_int`.
unfoldable pub sum_dims : List ℕ → ℕ → ℕ
sum_dims [] n = n
sum_dims (d ∷ dim) n = sum_dims dim (u32 (n + d))

-- `flags |= CAML_BA_MANAGED`.
unfoldable pub set_managed : ℕ → ℕ
set_managed flags = if flags / 512 % 2 == 0 then flags + managed else flags

-- What `malloc` returns for the contents and for the two words of the counter; 0 is NULL.
pub record Malloc : Type 0 where
  pub contents : ℕ
  pub counter : ℕ

-- The size of the contents, or an exception if it does not fit a word.
unfoldable pub total_size : ℕ → List ℕ → Result ℕ
total_size flags dim = do
  k ← deref (kind_of flags)
  let (n, ov) = count_elts dim 1 false
  let (size, overflow) = multov n (element_size k) ov
  guard (not overflow) out_of_memory
  ok size

-- The data of the new array and its flags: the caller's, or fresh memory.
unfoldable pub contents_of : Malloc → ℕ → List ℕ → ℕ → Result (ℕ × ℕ)
contents_of m flags dim addr =
    if addr == 0
    then (do
      size ← total_size flags dim
      guard (not (m.contents == 0) || size == 0) out_of_memory
      ok (m.contents, set_managed flags))
    else ok (addr, flags)

unfoldable pub alloc : Malloc → ℕ → List ℕ → ℕ → Store → Result (BaArray × Store)
alloc m flags dim addr s = do
  (at, fl) ← contents_of m flags dim addr
  if managed_of fl == mbuf
      then ok (record { base = s.mtod at; data2 = at; flags = fl; proxy = 0; dim = dim }, s)
      else (do
        guard (not (m.counter == 0)) out_of_memory
        ok (
          record { base = at; data2 = m.counter; flags = fl; proxy = 0; dim = dim },
          record s {
            counters =
                update s.counters m.counter (some (record { refcount = 1; size = sum_dims dim 0 }));
          },
        ))

-- `(intnat) w < 0`.
abbrev pub is_negative : ℕ → Bool
is_negative w = leb 9223372036854775808 w

unfoldable pub any_negative : List ℕ → Bool
any_negative [] = false
any_negative (d ∷ dim) = is_negative d || any_negative dim

unfoldable pub create : Malloc → ℕ → ℕ → List ℕ → Store → Result (BaArray × Store)
create m vkind vlayout vdim s = do
  guard (not (ltb (length vdim) 1 || ltb max_num_dims (length vdim)))
      (invalid_argument "Bigarray.create: bad number of dimensions")
  guard (not (any_negative vdim)) (invalid_argument "Bigarray.create: negative dimension")
  alloc m (bit_or vkind vlayout) vdim 0 s
