-- ===== src/Bigarray/View/Sharing.antt =====
-- What making a view leaves alone: the memory, and the shape of the new array.
use mirage_kfreebsd.Base.{
  ℕ, ◌≡◌, ◌≢◌, List, ok, Bool, true, false, some, arith, ◌==◌, ◌∙◌, ◌>>=◌, >>=-eq-ok, if◌then◌else◌,
}
use mirage_kfreebsd.Bigarray.{BaArray, Store, managed_of, external, mbuf, update}
use mirage_kfreebsd.Bigarray.Alloc.{Malloc, alloc, contents_of, sum_dims}
use mirage_kfreebsd.Bigarray.View.{update_size, attach, update_proxy}

-- The view `b2'` is `b2` but for its proxy, and no byte of memory differs.
pub record IsView (b2 b2' : BaArray) (s s' : Store) : Type 0 where
  pub base : b2'.base ≡ b2.base
  pub dim : b2'.dim ≡ b2.dim
  pub flags : b2'.flags ≡ b2.flags
  pub bytes : s'.bytes ≡ s.bytes

update_size-bytes : (b2 : BaArray) (s s' : Store) → update_size b2 s ≡ ok s' → s'.bytes ≡ s.bytes
unfolding update_size
update_size-bytes b2 s s' run = ground arith

attach-IsView :
    (fresh : ℕ) (b1 b2 b1' b2' : BaArray) (s s' : Store)
    → attach fresh b1 b2 s ≡ ok (b1', b2', s')
    → IsView b2 b2' s s'
unfolding attach
attach-IsView fresh b1 b2 b1' b2' s s' run = record {
  base = ground arith;
  dim = ground arith;
  flags = ground arith;
  bytes = ground arith;
}

pub update_proxy-IsView :
    (fresh : ℕ) (b1 b2 b1' b2' : BaArray) (s s' : Store)
    → update_proxy fresh b1 b2 s ≡ ok (b1', b2', s')
    → IsView b2 b2' s s'
unfolding update_proxy
update_proxy-IsView fresh b1 b2 b1' b2' s s' run = by_kind (managed_of b1.flags == external) run
  where
    by_kind :
        (alone : Bool)
        → (if alone then ok (b1, b2, s) else (update_size b2 s >>= λ t. attach fresh b1 b2 t))
          ≡ ok (b1', b2', s')
        → IsView b2 b2' s s'
    by_kind true same = record {
      base = ground arith;
      dim = ground arith;
      flags = ground arith;
      bytes = ground arith;
    }
    by_kind false made =
        let (t, sized, attached) = >>=-eq-ok (update_size b2 s) _ made in
        let v = attach-IsView fresh b1 b2 b1' b2' t s' attached in
        record {
          base = v.base;
          dim = v.dim;
          flags = v.flags;
          bytes = v.bytes ∙ update_size-bytes b2 s t sized;
        }

-- An array over given memory, unless it is marked as an mbuf.
pub alloc_given :
    (m : Malloc) (flags : ℕ) (dim : List ℕ) (addr : ℕ) (s : Store)
    → addr ≢ 0
    → managed_of flags ≢ mbuf
    → m.counter ≢ 0
    → alloc m flags dim addr s
      ≡ ok (
        record { base = addr; data2 = m.counter; flags = flags; proxy = 0; dim = dim },
        record s {
          counters =
              update s.counters m.counter (some (record { refcount = 1; size = sum_dims dim 0 }));
        },
      )
unfolding alloc contents_of
alloc_given m flags dim addr s given plain counted = ground arith

-- An array that is marked as an mbuf: the address is the mbuf's, and the data are where it says.
pub alloc-mbuf :
    (m : Malloc) (flags : ℕ) (dim : List ℕ) (addr : ℕ) (s : Store)
    → addr ≢ 0
    → managed_of flags ≡ mbuf
    → alloc m flags dim addr s
      ≡ ok (record { base = s.mtod addr; data2 = addr; flags = flags; proxy = 0; dim = dim }, s)
unfolding alloc contents_of
alloc-mbuf m flags dim addr s given marked = ground arith
