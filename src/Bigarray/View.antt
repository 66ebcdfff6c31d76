-- ===== src/Bigarray/View.antt =====
-- Arrays over the memory of another one: `caml_ba_update_proxy`, `caml_ba_slice`, `caml_ba_sub` and
-- `caml_ba_reshape`. Each gives the parent array, whose proxy may be new, and the result.
pub mod Sharing
pub mod Sub
use mirage_kfreebsd.Base.{
  ℕ, zero, suc, ◌+◌, ◌-◌, ◌*◌, ◌/◌, ◌%◌, List, [], ◌∷◌, ◌++◌, Result, ok, raise, fault,
  invalid_argument, ◌>>=◌, ◌>>◌, guard, deref, Bool, true, false, not, ◌&&◌, ◌||◌, Option, none,
  some, ltb, leb, ◌==◌, if◌then◌else◌, u64, length, get_elem?, set, take, drop, replicate,
  out_of_memory,
}
use mirage_kfreebsd.Bigarray.{
  Kind, kind_of, is_c_layout, element_size, managed_of, external, mapped_file, mbuf, max_num_dims,
  Proxy, Counter, BaArray, num_dims, Store, update, mul_dims, num_elts, byte_size,
}
use mirage_kfreebsd.Bigarray.Alloc.{Malloc, alloc, sum_dims, is_negative}
use mirage_kfreebsd.Base.Int.{pos, ltb_ℤ}
use mirage_kfreebsd.Bigarray.Index.{offset}
use mirage_kfreebsd.Bigarray.Access.Bytes.{signed}

-- `u[1] = 0; u[1] += dim[i]` for the new array, unless it is an mbuf.
unfoldable pub update_size : BaArray → Store → Result Store
update_size b2 s = if managed_of b2.flags == mbuf then ok s else (do
  u ← deref (s.counters b2.data2)
  ok (record s {
    counters = update s.counters b2.data2 (some (record u { size = sum_dims b2.dim 0 }));
  }))

-- `b1->flags & CAML_BA_MAPPED_FILE ? caml_ba_byte_size(b1) : 0`.
unfoldable pub proxy_size : BaArray → Result ℕ
proxy_size b1 = if b1.flags / mapped_file % 2 == 0 then ok 0 else byte_size b1

-- A parent, an array over its memory, and the store.
abbrev pub Views : Type 0
Views = BaArray × BaArray × Store

-- `fresh` is the address that `caml_stat_alloc` gives a new proxy, or 0: then it raises.
unfoldable pub attach : ℕ → BaArray → BaArray → Store → Result Views
attach fresh b1 b2 s =
    if b1.proxy == 0
    then (do
      guard (not (fresh == 0)) out_of_memory
      n ← proxy_size b1
      ok (
        record b1 { proxy = fresh },
        record b2 { proxy = fresh },
        record s {
          proxies =
              update s.proxies fresh (some (record { refcount = 2; base = b1.base; size = n }));
        },
      ))
    else (do
      p ← deref (s.proxies b1.proxy)
      ok (
        b1,
        record b2 { proxy = b1.proxy },
        record s {
          proxies = update s.proxies b1.proxy (some (record p { refcount = p.refcount + 1 }));
        },
      ))

unfoldable pub update_proxy : ℕ → BaArray → BaArray → Store → Result Views
update_proxy fresh b1 b2 s =
    if managed_of b1.flags == external
    then ok (b1, b2, s)
    else (do s' ← update_size b2 s; attach fresh b1 b2 s')

-- The indices that `caml_ba_slice` checks: those given, and the lowest of each other dimension.
unfoldable pub slice_index : BaArray → List ℕ → List ℕ
slice_index b vind =
    if is_c_layout b.flags
    then vind ++ replicate (num_dims b - length vind) 0
    else replicate (num_dims b - length vind) 1 ++ vind

unfoldable pub slice_dims : BaArray → List ℕ → List ℕ
slice_dims b vind =
    if is_c_layout b.flags then drop (length vind) b.dim else take (num_dims b - length vind) b.dim

unfoldable pub slice : Malloc → ℕ → BaArray → List ℕ → Store → Result Views
slice m fresh b vind s = do
  guard (ltb (length vind) (num_dims b)) (invalid_argument "Bigarray.slice: too many indices")
  i ← offset b (slice_index b vind)
  k ← deref (kind_of b.flags)
  (res, s') ← alloc m b.flags (slice_dims b vind) (b.base + u64 (i * element_size k)) s
  update_proxy fresh b res s'

-- The dimension that `caml_ba_sub` changes, the size of one step in it, and the offset from 0.
unfoldable pub changed_dim : BaArray → ℕ
changed_dim b = if is_c_layout b.flags then 0 else num_dims b - 1

unfoldable pub step_size : BaArray → ℕ
step_size b =
    if is_c_layout b.flags
    then mul_dims 1 (drop 1 b.dim)
    else mul_dims 1 (take (num_dims b - 1) b.dim)

unfoldable pub from_zero : BaArray → ℕ → ℕ
from_zero b ofs = if is_c_layout b.flags then ofs else u64 (ofs + 18446744073709551615)

-- `ofs < 0 || len < 0 || ofs + len > dim`, on `intnat`. The two come from OCaml integers of 63 bits, so
-- that their sum is exact.
unfoldable pub bad_range : ℕ → ℕ → ℕ → Bool
bad_range ofs len d =
    is_negative ofs || is_negative len || ltb_ℤ (signed 18446744073709551616 d) (pos (ofs + len))

unfoldable pub sub : Malloc → ℕ → BaArray → ℕ → ℕ → Store → Result Views
sub m fresh b vofs len s = do
  let ofs = from_zero b vofs
  d ← deref (get_elem? b.dim (changed_dim b))
  guard (not (bad_range ofs len d)) (invalid_argument "Bigarray.sub: bad sub-array")
  k ← deref (kind_of b.flags)
  (res, s') ← alloc m b.flags b.dim (b.base + u64 (ofs * step_size b * element_size k)) s
  update_proxy fresh b (record res { dim = set res.dim (changed_dim b) len }) s'

-- `dim[i] < 0 || dim[i] > 0x7FFFFFFF`.
unfoldable pub any_too_big : List ℕ → Bool
any_too_big [] = false
any_too_big (d ∷ dim) = is_negative d || ltb 0x7FFFFFFF d || any_too_big dim

unfoldable pub reshape : Malloc → ℕ → BaArray → List ℕ → Store → Result Views
reshape m fresh b vdim s = do
  guard (not (ltb (length vdim) 1 || ltb max_num_dims (length vdim)))
      (invalid_argument "Bigarray.reshape: bad number of dimensions")
  guard (not (any_too_big vdim)) (invalid_argument "Bigarray.reshape: negative dimension")
  guard (mul_dims 1 vdim == num_elts b) (invalid_argument "Bigarray.reshape: size mismatch")
  (res, s') ← alloc m b.flags vdim b.base s
  update_proxy fresh b res s'
