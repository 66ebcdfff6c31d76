-- ===== src/Bigarray/Finalize/Laws.antt =====
-- `caml_ba_finalize` on an array that `caml_ba_alloc` made, and on views.
use mirage_kfreebsd.Base.{
  ℕ, suc, ◌+◌, ◌%◌, ◌^◌, ◌<◌, [], u32, ◌≡◌, ◌≢◌, refl, sym, ap, ◌∙◌, List, ◌∷◌, Result, ok, ◌>>=◌,
  false, none, some, arith, ◌==◌, u64,
}
use mirage_kfreebsd.Bigarray.{
  BaArray, Store, Proxy, Counter, pages, block, update, managed_of, managed,
}
use mirage_kfreebsd.Bigarray.Alloc.{Malloc, alloc, sum_dims}
use mirage_kfreebsd.Bigarray.View.Sharing.{alloc_given}
use mirage_kfreebsd.Bigarray.Finalize.{release, drop_counter, drop_proxy, finalize}

stored : {A : Type 0} (f : ℕ → A) (u : ℕ) (c : A) → update f u c u ≡ c
stored f u c = ground arith

elsewhere : {A : Type 0} (f : ℕ → A) (u v : ℕ) (c : A) → v ≢ u → update f u c v ≡ f v
elsewhere f u v c h = ground arith

drop_counter_last :
    (addr : ℕ) (size : Counter → ℕ) (b : BaArray) (s : Store) (u : Counter)
    → s.counters b.data2 ≡ some u
    → u.refcount ≡ 1
    → drop_counter addr size b s
      ≡ ok (
          release (block b.data2) (
            release (pages addr (size u)) (record s { counters = update s.counters b.data2 none })))
unfolding drop_counter
drop_counter_last addr size b s u counted one = rw (counted, drop_counter, one) refl

finalize_single :
    (b : BaArray) (s : Store)
    → managed_of b.flags ≡ managed
    → b.proxy ≡ 0
    → finalize b s ≡ drop_counter b.base (λ u. u.size) b s
unfolding finalize
finalize_single b s kept single = rw (finalize, kept, single) refl

finalize_view :
    (b : BaArray) (s : Store)
    → managed_of b.flags ≡ managed
    → b.proxy ≢ 0
    → finalize b s ≡ drop_proxy b s
unfolding finalize
finalize_view b s kept shared = rw (finalize, kept, other) refl
  where
    other : (b.proxy == 0) ≡ false
    other = ground (arith, shared)

drop_proxy_more :
    (b : BaArray) (s : Store) (p : Proxy) (n : ℕ)
    → s.proxies b.proxy ≡ some p
    → p.refcount ≡ suc (suc n)
    → n < 2 ^ 63
    → drop_proxy b s
      ≡ ok (record s { proxies = update s.proxies b.proxy (some (record p { refcount = suc n })) })
unfolding drop_proxy
drop_proxy_more b s p n found count small = rw (drop_proxy, found, count, less, some_left) refl
  where
    less : u64 (suc (suc n) + 18446744073709551615) ≡ suc n
    less = omega (arith, small)

    some_left : (suc n == 0) ≡ false
    some_left = ground arith

drop_proxy_last :
    (b : BaArray) (s : Store) (p : Proxy) (u : Counter)
    → s.proxies b.proxy ≡ some p
    → p.refcount ≡ 1
    → s.counters b.data2 ≡ some u
    → u.refcount ≡ 1
    → drop_proxy b s
      ≡ ok (record s {
        counters = update s.counters b.data2 none;
        proxies = update s.proxies b.proxy none;
        freed = block b.proxy ∷ block b.data2 ∷ pages p.base p.size ∷ s.freed;
      })
unfolding drop_proxy
drop_proxy_last b s p u found one counted last =
    rw (drop_proxy, found, one, drop_counter_last p.base (λ _. p.size) b s u counted last) refl

abbrev pub total : List ℕ → ℕ
total [] = 0
total (d ∷ dim) = d + total dim

sum_dims-total : (dim : List ℕ) (n : ℕ) → n < 2 ^ 32 → sum_dims dim n ≡ (n + total dim) % 2 ^ 32
unfolding sum_dims
sum_dims-total [] n h = omega arith
sum_dims-total (d ∷ dim) n h = sum_dims-total dim (u32 (n + d)) (omega arith) ∙ omega arith

-- A managed array over memory that the caller has (as `caml_alloc_pages` makes it), finalized before
-- any view or mbuf refers to it: its memory is given back once, with the block of its two words. The
-- size that `contigfree` is told is the exact sum of the dimensions modulo 2^32, whatever the kind.
pub finalize-alloc :
    (m : Malloc) (flags : ℕ) (dim : List ℕ) (addr : ℕ) (s : Store)
    → managed_of flags ≡ managed
    → addr ≢ 0
    → m.counter ≢ 0
    → (s' : Store) × ((alloc m flags dim addr s >>= λ r. finalize r.0 r.1) ≡ ok s')
      × (s'.freed ≡ block m.counter ∷ pages addr (total dim % 2 ^ 32) ∷ s.freed)
      × (s'.counters m.counter ≡ none)
      × (s'.bytes ≡ s.bytes)
finalize-alloc m flags dim addr s kept mapped counter = (
  record s {
    counters =
        update (update s.counters m.counter (some (record { refcount = 1; size = sum_dims dim 0 })))
          m.counter none;
    freed = block m.counter ∷ pages addr (sum_dims dim 0) ∷ s.freed;
  },
  ap (λ (r : Result (BaArray × Store)). r >>= λ r. finalize r.0 r.1)
        (alloc_given m flags dim addr s mapped (ground arith) counter)
      ∙ finalize_single _ _ kept refl
      ∙ drop_counter_last addr (λ u. u.size) _ _ _ (stored s.counters m.counter _) refl,
  ap (λ n. block m.counter ∷ pages addr n ∷ s.freed)
      (sum_dims-total dim 0 (omega arith) ∙ omega arith),
  stored (update s.counters m.counter (some (record { refcount = 1; size = sum_dims dim 0 })))
      m.counter none,
  refl,
)

-- Two managed arrays over one memory behind a proxy, a parent and its view, each with its own counter.
-- When the parent and then the view is finalized, the memory is given back, as soon as the view's own
-- counter falls to 0: whatever the parent's counter says. Mbufs that still refer to the parent's memory
-- by that counter do not keep it, and the parent's counter is never given back.
pub finalize_ignores_counter :
    (a v : BaArray) (s : Store) (p : Proxy) (ca cv : Counter)
    → managed_of a.flags ≡ managed
    → managed_of v.flags ≡ managed
    → a.proxy ≢ 0
    → v.proxy ≡ a.proxy
    → s.proxies a.proxy ≡ some p
    → p.refcount ≡ 2
    → s.counters a.data2 ≡ some ca
    → s.counters v.data2 ≡ some cv
    → cv.refcount ≡ 1
    → a.data2 ≢ v.data2
    → (s' : Store) × ((finalize a s >>= finalize v) ≡ ok s')
      × (s'.freed ≡ block v.proxy ∷ block v.data2 ∷ pages p.base p.size ∷ s.freed)
      × (s'.counters a.data2 ≡ some ca)
finalize_ignores_counter a v s p ca cv kept_a kept_v shared same found two counted_a counted_v last
      apart =
    let s1 : Store = record s {
      proxies = update s.proxies a.proxy (some (record p { refcount = 1 }));
    } in
    (
      record s1 {
        counters = update s1.counters v.data2 none;
        proxies = update s1.proxies v.proxy none;
        freed = block v.proxy ∷ block v.data2 ∷ pages p.base p.size ∷ s1.freed;
      },
      ap (λ m. m >>= finalize v)
            (finalize_view a s kept_a shared ∙ drop_proxy_more a s p 0 found two (omega arith))
          ∙ finalize_view v s1 kept_v (λ e. shared (sym same ∙ e))
          ∙ drop_proxy_last v s1 (record p { refcount = 1 }) cv
              (ap s1.proxies same ∙ stored s.proxies a.proxy _) refl counted_v last,
      refl,
      elsewhere s.counters v.data2 a.data2 none apart ∙ counted_a,
    )
