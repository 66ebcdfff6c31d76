-- ===== src/Netif/Transmit/Frames.antt =====
-- `caml_put_mbufs`: the frame that goes out.
use mirage_kfreebsd.Base.{
  ℕ, ◌+◌, ◌^◌, ◌<◌, ◌≤◌, ◌≡◌, ◌≢◌, refl, sym, ap, ◌∙◌, List, [], ◌∷◌, ◌++◌, ok, Bool, true, false,
  Option, some, arith, ◌==◌, u32, u64, length, drop, All, some_inj, Bool-cases, inl, inr,
}
use mathlib.Core.Path.{ap₂}
use mathlib.Core.List.{append_assoc, append-nil}
use mirage_kfreebsd.Base.Int.{pos}
use mirage_kfreebsd.Values.{int_of}
use mirage_kfreebsd.Ints.Ops.Division.{int_of-fits}
use mirage_kfreebsd.Bigarray.{BaArray, Counter, update}
use mirage_kfreebsd.Netif.{PluggedIf, Net, find_by_index, u_short}
use mirage_kfreebsd.Netif.Transmit.{
  Piece, Tx, mclbytes, map_loop, map_to_mbuf, Packing, link_frag, put_loop, put_mbufs,
}
use mirage_kfreebsd.Netif.Transmit.Laws.{referred, map_to_mbuf_chain}

-- The counter of a buffer says that it has a size.
abbrev pub Sized : (ℕ → Option Counter) → (BaArray → ℕ) → BaArray → Type 0
Sized f size b = (c : Counter) × (f b.data2 ≡ some c) × (c.size ≡ size b)

abbrev pub FitsCluster : (BaArray → ℕ) → BaArray → Type 0
FitsCluster size b = (1 ≤ size b) × (size b ≤ mclbytes)

abbrev pub sum_sizes : (BaArray → ℕ) → List BaArray → ℕ
sum_sizes size [] = 0
sum_sizes size (b ∷ bufs) = size b + sum_sizes size bufs

-- One mbuf for each buffer.
abbrev pub one_each : (BaArray → ℕ) → List BaArray → List ℕ → List Piece
one_each size [] free = []
one_each size (b ∷ bufs) [] = []
one_each size (b ∷ bufs) (a ∷ free) =
    record { addr = a; ext_buf = b.base; m_len = size b } ∷ one_each size bufs free

pub referred-Sized :
    (size : BaArray → ℕ) (u n : ℕ) (c : Counter) (t : Tx) (b : BaArray)
    → t.counters u ≡ some c
    → Sized t.counters size b
    → Sized (referred u n c t).counters size b
referred-Sized size u n c t b counted (d, found, big) = elim (Bool-cases (b.data2 == u)) [
  | inl same ↦ (
    record c { refcount = u32 (c.refcount + n) },
    rw (same) refl,
    ap (λ (e : Counter). e.size)
          (some_inj (sym counted ∙ ap t.counters (sym (==_true same)) ∙ found))
        ∙ big,
  )
  | inr other ↦ (d, rw (other) found, big)
]
  where
    ==_true : (b.data2 == u) ≡ true → b.data2 ≡ u
    ==_true h = ground arith

referred-All-Sized :
    (size : BaArray → ℕ) (u n : ℕ) (c : Counter) (t : Tx) (bufs : List BaArray)
    → t.counters u ≡ some c
    → All (Sized t.counters size) bufs
    → All (Sized (referred u n c t).counters size) bufs
referred-All-Sized size u n c t [] counted h = tt
referred-All-Sized size u n c t (b ∷ bufs) counted h =
    (referred-Sized size u n c t b counted h.0, referred-All-Sized size u n c t bufs counted h.1)

pub put_loop-cons :
    (b : BaArray) (bufs : List BaArray) (k : Packing) (t t' : Tx) (chain : List Piece) (c : Counter)
    → map_to_mbuf b.base b.data2 t ≡ ok (some chain, t')
    → t'.counters b.data2 ≡ some c
    → put_loop (b ∷ bufs) k t ≡ put_loop bufs (link_frag chain c.size k) t'
unfolding put_loop
put_loop-cons b bufs k t t' chain c run counted = rw (run, put_loop, counted) refl

pub update_at : (f : ℕ → Option Counter) (u : ℕ) (c : Option Counter) → update f u c u ≡ c
update_at f u c = ground arith

pub put_mbufs-loop :
    (id : ℕ) (b : BaArray) (bufs : List BaArray) (net : Net) (t t' : Tx) (pip : PluggedIf)
    (k : Packing)
    → net.plugged ≢ 0
    → find_by_index (u_short id) net.pihead ≡ some pip
    → put_loop (b ∷ bufs) (record { before = []; hanging = []; pkt_len = 0 }) t ≡ ok (k, t')
    → put_mbufs id (b ∷ bufs) net t
      ≡ ok (record t' {
        sent = record { chain = k.before ++ k.hanging; len = int_of (pos k.pkt_len) } ∷ t'.sent;
      })
unfolding put_mbufs
put_mbufs-loop id b bufs net t t' pip k busy found run = rw (put_mbufs, idle, found, run) refl
  where
    idle : (net.plugged == 0) ≡ false
    idle = ground (arith, busy)

pub map_loop_nil : (p n : ℕ) → (map_loop [] p n).0 ≡ []
unfolding map_loop
map_loop_nil p n = refl

map_loop_one :
    (a : ℕ) (free : List ℕ) (p n : ℕ)
    → 1 ≤ n
    → n ≤ mclbytes
    → map_loop (a ∷ free) p n ≡ (record { addr = a; ext_buf = p; m_len = n } ∷ [], true)
unfolding map_loop
map_loop_one a [] p n h small = ground arith
map_loop_one a (b ∷ free) p n h small = ground arith

-- A buffer that fits a cluster is one mbuf.
map_to_mbuf_one :
    (size : BaArray → ℕ) (b : BaArray) (t : Tx) (a : ℕ) (free : List ℕ) (c : Counter)
    → t.free ≡ a ∷ free
    → t.counters b.data2 ≡ some c
    → c.size ≡ size b
    → FitsCluster size b
    → map_to_mbuf b.base b.data2 t
      ≡ ok (
        some (record { addr = a; ext_buf = b.base; m_len = size b } ∷ []),
        referred b.data2 1 c t,
      )
map_to_mbuf_one size b t a free c left counted big fits =
    map_to_mbuf_chain b.base b.data2 t c counted (ap (λ r. length r.0 == 0) one) (ap (λ r. r.1) one)
    ∙ ap (λ (r : List Piece × Bool). ok (some r.0, referred b.data2 (length r.0) c t)) one
  where
    one :
        map_loop t.free b.base c.size
        ≡ (record { addr = a; ext_buf = b.base; m_len = size b } ∷ [], true)
    one =
        ap (λ l. map_loop l b.base c.size) left
        ∙ ap (λ n. map_loop (a ∷ free) b.base n) big
        ∙ map_loop_one a free b.base (size b) fits.0 fits.1

put_loop-one_each :
    (size : BaArray → ℕ) (bufs : List BaArray) (before : List Piece) (len : ℕ) (t : Tx)
    (free : List ℕ)
    → t.free ≡ free
    → All (Sized t.counters size) bufs
    → All (FitsCluster size) bufs
    → length bufs ≤ length free
    → len + sum_sizes size bufs < 2 ^ 64
    → (t' : Tx) × (put_loop bufs (record { before = before; hanging = []; pkt_len = len }) t
        ≡ ok (
          record {
            before = before ++ one_each size bufs free;
            hanging = [];
            pkt_len = len + sum_sizes size bufs;
          },
          t',
        ))
      × (t'.sent ≡ t.sent)
      × (t'.free ≡ drop (length bufs) free)
unfolding put_loop link_frag
put_loop-one_each size [] before len t free left sized fits enough word = (
  t,
  ap₂ (λ l n. ok (record { before = l; hanging = []; pkt_len = n }, t)) (sym (append-nil before))
      (omega arith),
  refl,
  left,
)
put_loop-one_each size (b ∷ bufs) before len t [] left sized fits enough word = absurd (omega arith)
put_loop-one_each size (b ∷ bufs) before len t (a ∷ free) left ((c, counted, big), sized)
      (fit, fits) enough word =
    let t1 = referred b.data2 1 c t in
    let m : Piece = record { addr = a; ext_buf = b.base; m_len = size b } in
    let same_len : u64 (len + c.size) ≡ len + size b = omega (arith, big, word) in
    let (t', run, sent, rest) =
      put_loop-one_each size bufs (before ++ m ∷ []) (len + size b) t1 free (ap (drop 1) left)
        (referred-All-Sized size b.data2 1 c t bufs counted sized) fits (omega arith)
        (omega arith) in
    (
      t',
      put_loop-cons b bufs _ t t1 (m ∷ []) (record c { refcount = u32 (c.refcount + 1) })
            (map_to_mbuf_one size b t a free c left counted big fit)
            (update_at t.counters b.data2 _)
          ∙ ap
              (λ n.
                put_loop bufs (record { before = before ++ m ∷ []; hanging = []; pkt_len = n }) t1)
              same_len
          ∙ run
          ∙ ap₂ (λ l n. ok (record { before = l; hanging = []; pkt_len = n }, t'))
              (append_assoc before (m ∷ []) (one_each size bufs free)) (omega arith),
      sent,
      rest,
    )

-- `caml_put_mbufs` to a plugged interface of buffers that hold between 1 and 2048 bytes each, while
-- there is an mbuf for each, and of less than 2^31 bytes together: it returns, and sends one frame, which has one mbuf for each buffer, in
-- the order of the list and of the buffer's size, and whose header length is the sum of the sizes; it
-- takes as many mbufs.
pub put_mbufs-one_each :
    (size : BaArray → ℕ) (id : ℕ) (b : BaArray) (bufs : List BaArray) (net : Net) (t : Tx)
    (pip : PluggedIf)
    → net.plugged ≢ 0
    → find_by_index (u_short id) net.pihead ≡ some pip
    → All (Sized t.counters size) (b ∷ bufs)
    → All (FitsCluster size) (b ∷ bufs)
    → length (b ∷ bufs) ≤ length t.free
    → sum_sizes size (b ∷ bufs) < 2 ^ 31
    → (t' : Tx) × (put_mbufs id (b ∷ bufs) net t ≡ ok t')
      × (t'.sent
          ≡ record {
            chain = one_each size (b ∷ bufs) t.free;
            len = pos (sum_sizes size (b ∷ bufs));
          }
            ∷ t.sent)
      × (t'.free ≡ drop (length (b ∷ bufs)) t.free)
put_mbufs-one_each size id b bufs net t pip busy found sized fits enough small =
    let (t', run, sent, free) =
      put_loop-one_each size (b ∷ bufs) [] 0 t t.free refl sized fits enough
        (omega (arith, small)) in
    (
      record t' {
        sent =
            record {
              chain = one_each size (b ∷ bufs) t.free ++ [];
              len = int_of (pos (0 + sum_sizes size (b ∷ bufs)));
            }
            ∷ t'.sent;
      },
      put_mbufs-loop id b bufs net t t' pip _ busy found run,
      ap₂ (λ l n. record { chain = l; len = n } ∷ t'.sent)
            (append-nil (one_each size (b ∷ bufs) t.free))
            (int_of-fits (pos (0 + sum_sizes size (b ∷ bufs))) (omega (arith, small)) (omega arith)
              ∙ ap pos (omega arith))
          ∙ ap
              (λ l.
                record {
                  chain = one_each size (b ∷ bufs) t.free;
                  len = pos (sum_sizes size (b ∷ bufs));
                }
                ∷ l)
              sent,
      free,
    )
