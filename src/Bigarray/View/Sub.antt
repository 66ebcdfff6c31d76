-- ===== src/Bigarray/View/Sub.antt =====
-- `caml_ba_sub` in the C layout.
use mirage_kfreebsd.Base.{
  ℕ, ◌+◌, ◌*◌, ◌%◌, ◌≤◌, ◌<◌, ◌^◌, ◌≡◌, ◌≢◌, List, ◌∷◌, Result, ok, true, not, some, arith, u64,
  get_elem?, set, ap, ◌∙◌, sym, deref, >>=-eq-ok, guard-eq-ok, deref-eq-ok, mul_mono, some_inj,
  ok_inj,
}
use mathlib.Core.Path.{ap₂}
use mirage_kfreebsd.Bigarray.Access.Bytes.{read_le}
use mirage_kfreebsd.Bigarray.{
  Kind, kind_of, element_size, BaArray, Store, managed_of, mbuf, is_c_layout,
}
use mirage_kfreebsd.Bigarray.Alloc.{Malloc, alloc}
use mirage_kfreebsd.Bigarray.Alloc.Multov.{product}
use mirage_kfreebsd.Bigarray.Access.{decode, read_elt}
use mirage_kfreebsd.Bigarray.Access.Bulk.{mul_dims-product}
use mirage_kfreebsd.Bigarray.Access.Laws.{element_size_pos}
use mirage_kfreebsd.Bigarray.View.{sub, from_zero, step_size, changed_dim, bad_range}
use mirage_kfreebsd.Bigarray.View.Sharing.{IsView, update_proxy-IsView, alloc_given, alloc-mbuf}

bad_range_lem :
    (ofs len d : ℕ) → ofs < 2 ^ 64 → len < 2 ^ 64 → not (bad_range ofs len d) ≡ true → ofs + len ≤ d
unfolding bad_range
bad_range_lem ofs len d ho hl h = ground arith

-- What a successful run gives away, in any layout.
record Ran (m : Malloc) (fresh : ℕ) (b : BaArray) (vofs len : ℕ) (s : Store) (b' res : BaArray)
    (s' : Store) : Type 0 where
  d : ℕ
  k : Kind
  fresh_array : BaArray
  between : Store
  changed : get_elem? b.dim (changed_dim b) ≡ some d
  range : not (bad_range (from_zero b vofs) len d) ≡ true
  kind : kind_of b.flags ≡ some k
  made :
      alloc m b.flags b.dim (b.base + u64 (from_zero b vofs * step_size b * element_size k)) s
      ≡ ok (fresh_array, between)
  view :
      IsView (record fresh_array { dim = set fresh_array.dim (changed_dim b) len }) res between s'

sub-Ran :
    (m : Malloc) (fresh : ℕ) (b : BaArray) (vofs len : ℕ) (s : Store) (b' res : BaArray)
    (s' : Store)
    → sub m fresh b vofs len s ≡ ok (b', res, s')
    → Ran m fresh b vofs len s b' res s'
unfolding sub
sub-Ran m fresh b vofs len s b' res s' run =
    let (d, changed, run1) = >>=-eq-ok (deref (get_elem? b.dim (changed_dim b))) _ run in
    let (range, run2) = guard-eq-ok (not (bad_range (from_zero b vofs) len d)) _ _ run1 in
    let (k, kind, run3) = >>=-eq-ok (deref (kind_of b.flags)) _ run2 in
    let (made, done, run4) = >>=-eq-ok (alloc m b.flags b.dim _ s) _ run3 in
    record {
      d = d;
      k = k;
      fresh_array = made.0;
      between = made.1;
      changed = deref-eq-ok _ changed;
      range = range;
      kind = deref-eq-ok _ kind;
      made = done;
      view = update_proxy-IsView fresh b _ b' res made.1 s' run4;
    }

factor_small : (d p n : ℕ) → 1 ≤ d → 1 ≤ n → d * p * n < 2 ^ 64 → p < 2 ^ 64
factor_small d p n hd hn h = omega (arith, mul_mono 1 d p hd, mul_mono 1 n (d * p) hn)

offset_small : (o d p n : ℕ) → o ≤ d → d * p * n < 2 ^ 64 → o * p * n < 2 ^ 64
offset_small o d p n h k = omega (arith, mul_mono (o * p) (d * p) n (mul_mono o d p h))

end_inside : (o len d p n : ℕ) → o + len ≤ d → o * p * n + len * p * n ≤ d * p * n
end_inside o len d p n h =
    omega (arith, mul_mono ((o + len) * p) (d * p) n (mul_mono (o + len) d p h))

module _ (m : Malloc) (fresh : ℕ) (b : BaArray) (vofs len : ℕ) (s : Store) (b' res : BaArray)
    (s' : Store) (d : ℕ) (rest : List ℕ) (k : Kind) where
  -- A successful `caml_ba_sub`, by offset and length that are words, of an array in the C layout, of a
  -- known kind, with a size that fits a word, a first dimension above 0 and its memory not at NULL, which
  -- is not an mbuf, while there is memory for the counter: the requested range lies in the first dimension, the result has that range for its first
  -- dimension and the other dimensions unchanged, its memory lies inside the parent's, and its element
  -- `i` is the parent's element at that distance behind the start of the range.
  pub sub_inside :
      (i : ℕ)
      → sub m fresh b vofs len s ≡ ok (b', res, s')
      → b.dim ≡ d ∷ rest
      → is_c_layout b.flags ≡ true
      → kind_of b.flags ≡ some k
      → managed_of b.flags ≢ mbuf
      → b.base ≢ 0
      → m.counter ≢ 0
      → 1 ≤ d
      → product (d ∷ rest) * element_size k < 2 ^ 64
      → vofs < 2 ^ 64
      → len < 2 ^ 64
      → (vofs + len ≤ d)
        × (res.dim ≡ len ∷ rest)
        × (b.base ≤ res.base)
        × (res.base + product (len ∷ rest) * element_size k
            ≤ b.base + product (d ∷ rest) * element_size k)
        × (read_elt k res i s'.bytes ≡ read_elt k b (vofs * product rest + i) s.bytes)
  sub_inside i run dims c kind plain mapped counted filled small ho hl = (
    range,
    shape,
    rw at (omega arith),
    rw at (omega (arith, end_inside vofs len d (product rest) (element_size k) range)),
    elements,
  )
    where
      r : Ran m fresh b vofs len s b' res s'
      r = sub-Ran m fresh b vofs len s b' res s' run

      first : changed_dim b ≡ 0
      first = unfold changed_dim in rw c

      start : from_zero b vofs ≡ vofs
      start = unfold from_zero in rw c

      whole : 1 * product rest % 2 ^ 64 ≡ product rest
      whole =
          omega (
            arith,
            factor_small d (product rest) (element_size k) filled (element_size_pos k) small,
          )

      step : step_size b ≡ product rest
      step = unfold step_size in rw (c, dims) (mul_dims-product 1 rest (omega arith) ∙ whole)

      same_d : r.d ≡ d
      same_d = some_inj (sym r.changed ∙ ap (get_elem? b.dim) first ∙ ap (λ l. get_elem? l 0) dims)

      same_k : r.k ≡ k
      same_k = some_inj (sym r.kind ∙ kind)

      range : vofs + len ≤ d
      range = bad_range_lem vofs len d ho hl (
          ap (λ n. not (bad_range n len d)) (sym start)
          ∙ ap (λ n. not (bad_range (from_zero b vofs) len n)) (sym same_d)
          ∙ r.range)

      distance :
          u64 (from_zero b vofs * step_size b * element_size r.k)
          ≡ vofs * product rest * element_size k
      distance =
          rw (start, step, same_k)
            (omega (
              arith,
              offset_small vofs d (product rest) (element_size k) (omega (arith, range)) small,
            ))

      made :
          (r.fresh_array.base ≡ b.base + vofs * product rest * element_size k)
          × (r.fresh_array.dim ≡ b.dim)
          × (r.between.bytes ≡ s.bytes)
      made =
          let e = sym r.made ∙ alloc_given m b.flags b.dim _ s (ground arith) plain counted in
          ground (arith, e, distance)

      at : res.base ≡ b.base + vofs * product rest * element_size k
      at = r.view.base ∙ made.0

      shape : res.dim ≡ len ∷ rest
      shape =
          r.view.dim
          ∙ ap (λ l. set l (changed_dim b) len) (made.1 ∙ dims)
          ∙ ap (λ n. set (d ∷ rest) n len) first

      place :
          b.base + vofs * product rest * element_size k + i * element_size k
          ≡ b.base + (vofs * product rest + i) * element_size k
      place = omega arith

      elements : read_elt k res i s'.bytes ≡ read_elt k b (vofs * product rest + i) s.bytes
      elements =
          unfold read_elt in
          ap₂ (λ n f. decode k (read_le (element_size k) n f))
            (ap u64 (ap (λ n. n + i * element_size k) at ∙ place)) (r.view.bytes ∙ made.2)

-- A successful `caml_ba_sub` of an array of a known kind, over a received mbuf, with its data not at
-- NULL: the kernel marks such an array by its flags, and `caml_ba_sub` passes the flags on
-- with an address inside the packet: the result takes that address for a `struct mbuf`, and its data
-- pointer is whatever the packet holds at the place of `m_data`.
pub sub_of_mbuf :
    (m : Malloc) (fresh : ℕ) (b : BaArray) (vofs len : ℕ) (s : Store) (b' res : BaArray)
    (s' : Store) (k : Kind)
    → sub m fresh b vofs len s ≡ ok (b', res, s')
    → kind_of b.flags ≡ some k
    → managed_of b.flags ≡ mbuf
    → b.base ≢ 0
    → res.base ≡ s.mtod (b.base + u64 (from_zero b vofs * step_size b * element_size k))
sub_of_mbuf m fresh b vofs len s b' res s' k run kind marked mapped =
    r.view.base ∙ ap (λ (p : BaArray × Store). p.0.base) (sym (ok_inj made)) ∙ ap place same_k
  where
    r : Ran m fresh b vofs len s b' res s'
    r = sub-Ran m fresh b vofs len s b' res s' run

    place : Kind → ℕ
    place n = s.mtod (b.base + u64 (from_zero b vofs * step_size b * element_size n))

    same_k : r.k ≡ k
    same_k = some_inj (sym r.kind ∙ kind)

    fresh_array : BaArray
    fresh_array = record {
      base = place r.k;
      data2 = b.base + u64 (from_zero b vofs * step_size b * element_size r.k);
      flags = b.flags;
      proxy = 0;
      dim = b.dim;
    }

    made : ◌≡◌ {A = Result (BaArray × Store)} (ok (fresh_array, s)) (ok (r.fresh_array, r.between))
    made = sym (alloc-mbuf m b.flags b.dim _ s (ground arith) marked) ∙ r.made
