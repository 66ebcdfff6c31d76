-- ===== src/Bigarray/Finalize.antt =====
-- `caml_ba_finalize`: what the collector runs when an array is unreachable.
pub mod Laws
use mirage_kfreebsd.Base.{
  ℕ, ◌+◌, ◌-◌, List, [], ◌∷◌, Result, ok, raise, fault, failure, ◌>>=◌, deref, Bool, Option, none,
  some, ◌==◌, if◌then◌else◌, u32, u64,
}
use mirage_kfreebsd.Bigarray.{
  BaArray, Store, Proxy, Counter, Freed, pages, block, chain, update, managed_of, managed,
  mapped_file, mbuf,
}

abbrev pub release : Freed → Store → Store
release f s = record s { freed = f ∷ s.freed }

-- `--u[0] == 0`, in `u_int`; at 0 the pages at `addr` and the two words are given back.
unfoldable pub drop_counter : ℕ → (Counter → ℕ) → BaArray → Store → Result Store
drop_counter addr size b s = do
  u ← deref (s.counters b.data2)
  let n = u32 (u.refcount + 4294967295)
  let s' = record s {
    counters =
        update s.counters b.data2 (if n == 0 then none else some (record u { refcount = n }));
  }
  ok (if n == 0 then release (block b.data2) (release (pages addr (size u)) s') else s')

-- `-- b->proxy->refcount == 0`: the last array gives back the counter, the pages and the proxy.
unfoldable pub drop_proxy : BaArray → Store → Result Store
drop_proxy b s = do
  p ← deref (s.proxies b.proxy)
  let n = u64 (p.refcount + 18446744073709551615)
  if n == 0
      then (do
        s' ← drop_counter p.base (λ _. p.size) b s
        ok (release (block b.proxy) (record s' { proxies = update s'.proxies b.proxy none })))
      else ok (record s { proxies = update s.proxies b.proxy (some (record p { refcount = n })) })

unfoldable pub finalize : BaArray → Store → Result Store
finalize b s =
    if managed_of b.flags == managed
    then (if b.proxy == 0 then drop_counter b.base (λ u. u.size) b s else drop_proxy b s)
    else if managed_of b.flags == mapped_file
    then raise (failure "CAML_BA_MAPPED_FILE: unsupported")
    else if managed_of b.flags == mbuf
    then ok (release (chain b.data2) s)
    else ok s
