-- ===== src/Netif/Transmit/Laws.antt =====
-- The chain that `netif_map_to_mbuf` makes of a buffer, and what it leaves when there are no mbufs.
use mirage_kfreebsd.Base.{
  ℕ, zero, suc, ◌+◌, ◌-◌, ◌*◌, ◌^◌, ◌≤◌, ◌<◌, ◌≡◌, refl, ap, ◌∙◌, List, [], ◌∷◌, ok, ◌>>=◌, true,
  false, Option, none, some, arith, ◌==◌, u32, length, drop,
}
use mirage_kfreebsd.Bigarray.{Counter, update}
use mirage_kfreebsd.Netif.Transmit.{
  Piece, Tx, mbuf_free, min_len, mclbytes, map_loop, free_chain, add_refs, map_to_mbuf,
}

-- The bytes that a chain holds.
abbrev pub total : List Piece → ℕ
total [] = 0
total (m ∷ chain) = m.m_len + total chain

-- The pieces stand one behind the other from an address on; none is empty or larger than a cluster.
abbrev pub Covers : ℕ → List Piece → Type 0
Covers p [] = Unit
Covers p (m ∷ chain) =
    (m.ext_buf ≡ p) × (1 ≤ m.m_len) × (m.m_len ≤ mclbytes) × Covers (p + m.m_len) chain

-- One more mbuf.
pub map_loop-cons :
    (a : ℕ) (free : List ℕ) (p n : ℕ)
    → 1 ≤ n
    → map_loop (a ∷ free) p n ≡ (
      record { addr = a; ext_buf = p; m_len = min_len n }
          ∷ (map_loop free (p + min_len n) (n - min_len n)).0,
      (map_loop free (p + min_len n) (n - min_len n)).1,
    )
unfolding map_loop
map_loop-cons a free p n h = ground arith

pub map_loop-zero : (free : List ℕ) (p : ℕ) → map_loop free p 0 ≡ ([], true)
unfolding map_loop
map_loop-zero [] p = refl
map_loop-zero (a ∷ free) p = refl

pub map_loop-Covers :
    (free : List ℕ) (p n : ℕ)
    → n ≤ 2048 * length free
    → ((map_loop free p n).1 ≡ true)
      × (total (map_loop free p n).0 ≡ n)
      × Covers p (map_loop free p n).0
map_loop-Covers free p zero h = rw (map_loop-zero free p) (refl, refl, tt)
map_loop-Covers [] p (suc n) h = absurd (omega arith)
map_loop-Covers (a ∷ free) p (suc n) h =
    let (done, sum, covers) =
      map_loop-Covers free (p + min_len (suc n)) (suc n - min_len (suc n)) (ground arith) in
    rw (map_loop-cons a free p (suc n) (omega arith))
      (done, ground arith, (refl, ground arith, ground arith, covers))

pub map_loop-some :
    (free : List ℕ) (p n : ℕ) → 1 ≤ n → 1 ≤ length free → 1 ≤ length (map_loop free p n).0
map_loop-some [] p n hn h = absurd (omega arith)
map_loop-some (a ∷ free) p n hn h = rw (map_loop-cons a free p n hn) (omega arith)

map_loop_short :
    (free : List ℕ) (p n : ℕ)
    → 2048 * length free < n
    → ((map_loop free p n).1 ≡ false) × (length (map_loop free p n).0 ≡ length free)
unfolding map_loop
map_loop_short [] p n h = ground arith
map_loop_short (a ∷ free) p n h =
    let (failed, all) = map_loop_short free (p + min_len n) (n - min_len n) (ground arith) in
    rw (map_loop-cons a free p n (omega arith)) (failed, ap suc all)

update_self : (f : ℕ → Option Counter) (u : ℕ) (c : Option Counter) → update f u c u ≡ c
update_self f u c = ground arith

-- What `n` more references make of the memory.
abbrev pub referred : ℕ → ℕ → Counter → Tx → Tx
referred u n c t = record t {
  free = drop n t.free;
  counters = update t.counters u (some (record c { refcount = u32 (c.refcount + n) }));
}

pub map_to_mbuf_chain :
    (addr u : ℕ) (t : Tx) (c : Counter)
    → t.counters u ≡ some c
    → (length (map_loop t.free addr c.size).0 == 0) ≡ false
    → (map_loop t.free addr c.size).1 ≡ true
    → map_to_mbuf addr u t
      ≡ ok (
        some (map_loop t.free addr c.size).0,
        referred u (length (map_loop t.free addr c.size).0) c t,
      )
unfolding map_to_mbuf add_refs
map_to_mbuf_chain addr u t c counted filled complete =
    rw (counted, map_to_mbuf, add_refs, filled, complete) refl

-- `netif_map_to_mbuf` of a buffer of at least one byte, while there are mbufs enough for 2048 bytes
-- each: it returns a chain of non-empty pieces of at most 2048 bytes, which stand one behind the other
-- from the start of the buffer on and together have its size; each piece adds one to the count of
-- references (modulo 2^32) and takes one mbuf, and nothing else changes.
pub map_to_mbuf-Covers :
    (addr u : ℕ) (t : Tx) (c : Counter)
    → t.counters u ≡ some c
    → 1 ≤ c.size
    → c.size ≤ 2048 * length t.free
    → (chain : List Piece) × (map_to_mbuf addr u t ≡ ok (some chain, referred u (length chain) c t))
      × (total chain ≡ c.size)
      × Covers addr chain
map_to_mbuf-Covers addr u t c counted filled enough =
    let (complete, sum, covers) = map_loop-Covers t.free addr c.size enough in
    (
      (map_loop t.free addr c.size).0,
      map_to_mbuf_chain addr u t c counted
          (ground (arith, map_loop-some t.free addr c.size filled (omega arith))) complete,
      sum,
      covers,
    )

mbuf_free_one :
    (u addr : ℕ) (t : Tx) (c : Counter)
    → t.counters u ≡ some c
    → 2 ≤ c.refcount
    → c.refcount < 2 ^ 32
    → mbuf_free u addr t
      ≡ ok (record t {
        counters = update t.counters u (some (record c { refcount = c.refcount - 1 }));
      })
unfolding mbuf_free
mbuf_free_one u addr t c counted more small = rw (counted, mbuf_free, one_less, still) refl
  where
    one_less : u32 (c.refcount + 4294967295) ≡ c.refcount - 1
    one_less = omega (arith, more, small)

    still : (c.refcount - 1 == 0) ≡ false
    still = ground (arith, more)

free_chain_lem :
    (chain : List Piece) (u addr : ℕ) (t : Tx) (c : Counter)
    → t.counters u ≡ some c
    → length chain < c.refcount
    → c.refcount < 2 ^ 32
    → (t' : Tx) × (free_chain chain u addr t ≡ ok t')
      × (t'.counters u ≡ some (record c { refcount = c.refcount - length chain }))
      × (t'.released ≡ t.released)
      × (t'.sent ≡ t.sent)
unfolding free_chain
free_chain_lem [] u addr t c counted more small =
    (t, refl, counted ∙ ap (λ n. some (record c { refcount = n })) (omega arith), refl, refl)
free_chain_lem (p ∷ chain) u addr t c counted more small =
    let c1 : Counter = record c { refcount = c.refcount - 1 } in
    let t1 : Tx = record t { counters = update t.counters u (some c1) } in
    let (t', run, left, released, sent) =
      free_chain_lem chain u addr t1 c1 (update_self t.counters u (some c1)) (omega arith)
        (omega arith) in
    (
      t',
      ap (λ m. m >>= λ t'. free_chain chain u addr t')
            (mbuf_free_one u addr t c counted (omega arith) small)
          ∙ run,
      left ∙ ap (λ n. some (record c { refcount = n })) (omega arith),
      released,
      sent,
    )

map_to_mbuf_freed :
    (addr u : ℕ) (t t' : Tx) (c : Counter)
    → t.counters u ≡ some c
    → (length (map_loop t.free addr c.size).0 == 0) ≡ false
    → (map_loop t.free addr c.size).1 ≡ false
    → free_chain
        (map_loop t.free addr c.size).0
        u
        addr
        (referred u (length (map_loop t.free addr c.size).0) c t)
      ≡ ok t'
    → map_to_mbuf addr u t ≡ ok (none, record t' { free = t.free })
unfolding map_to_mbuf add_refs
map_to_mbuf_freed addr u t t' c counted filled failed run =
    rw (counted, map_to_mbuf, add_refs, filled, failed, run) refl

-- `netif_map_to_mbuf` when the first `MGET` succeeds and a later one fails, while the count of
-- references is not 0 and does not overflow: it returns NULL, and the count of the buffer, the mbufs
-- that are left, what was released and what was sent are as before the call.
pub map_to_mbuf_no_memory :
    (addr u : ℕ) (t : Tx) (c : Counter)
    → t.counters u ≡ some c
    → 1 ≤ c.refcount
    → c.refcount + length t.free < 2 ^ 32
    → 1 ≤ length t.free
    → 2048 * length t.free < c.size
    → (t' : Tx) × (map_to_mbuf addr u t ≡ ok (none, t'))
      × (t'.counters u ≡ some c)
      × (t'.free ≡ t.free)
      × (t'.released ≡ t.released)
      × (t'.sent ≡ t.sent)
map_to_mbuf_no_memory addr u t c counted held small one short =
    let (failed, all) = map_loop_short t.free addr c.size short in
    let chain = (map_loop t.free addr c.size).0 in
    let c1 : Counter = record c { refcount = u32 (c.refcount + length chain) } in
    let (t', run, left, released, sent) =
      free_chain_lem chain u addr (referred u (length chain) c t) c1
        (update_self t.counters u (some c1)) (omega (arith, all)) (omega (arith, all)) in
    (
      record t' { free = t.free },
      map_to_mbuf_freed addr u t t' c counted (ground (arith, all)) failed run,
      left ∙ ap (λ n. some (record c { refcount = n })) (omega (arith, all)),
      refl,
      released,
      sent,
    )
