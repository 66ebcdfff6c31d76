-- ===== src/Netif/Transmit.antt =====
-- `netif_mbuf_free`, `netif_map_to_mbuf` and `caml_put_mbufs`.
pub mod Laws
pub mod Frames
pub mod Truncation
use mirage_kfreebsd.Base.{
  ℕ, zero, suc, ◌+◌, ◌-◌, ◌%◌, List, [], ◌∷◌, ◌++◌, Result, ok, raise, fault, failure, ◌>>=◌, deref,
  Bool, true, false, Option, none, some, ltb, ◌==◌, if◌then◌else◌, u32, length, drop, u64,
}
use mirage_kfreebsd.Base.Int.{pos}
use mirage_kfreebsd.Values.{int_of}
use mirage_kfreebsd.Bigarray.{Counter, BaArray, update, Freed, pages, block}
use mirage_kfreebsd.Netif.{PluggedIf, Net, Frame, find_by_index, u_short}

abbrev pub mclbytes : ℕ
mclbytes = 2048

-- An mbuf with external storage: where it stands, and the piece of the buffer that it refers to.
pub record Piece : Type 0 where
  pub addr : ℕ
  pub ext_buf : ℕ
  pub m_len : ℕ

-- The memory of the transmit path: the mbufs that `MGET` can still give, the counters of the buffers,
-- what `netif_mbuf_free` gave back, and the frames that went out.
pub record Tx : Type 0 where
  pub free : List ℕ
  pub counters : ℕ → Option Counter
  pub released : List Freed
  pub sent : List (Frame Piece)

-- `netif_mbuf_free(u, data)`.
unfoldable pub mbuf_free : ℕ → ℕ → Tx → Result Tx
mbuf_free u addr t = do
  c ← deref (t.counters u)
  let n = u32 (c.refcount + 4294967295)
  let left = update t.counters u (if n == 0 then none else some (record c { refcount = n }))
  ok (record t {
    counters = left;
    released = (if n == 0 then pages addr c.size ∷ block u ∷ t.released else t.released);
  })

abbrev pub min_len : ℕ → ℕ
min_len frag_len = if ltb mclbytes frag_len then mclbytes else frag_len

-- The loop of `netif_map_to_mbuf`: the chain, and whether every `MGET` gave an mbuf.
unfoldable pub map_loop : List ℕ → ℕ → ℕ → List Piece × Bool
map_loop [] p frag_len = ([], frag_len == 0)
map_loop (a ∷ free) p frag_len =
    let rest = map_loop free (p + min_len frag_len) (frag_len - min_len frag_len) in
    if frag_len == 0
    then ([], true)
    else (record { addr = a; ext_buf = p; m_len = min_len frag_len } ∷ rest.0, rest.1)

-- `m_freem` of the chain that was made before an `MGET` failed: for each mbuf one reference is dropped,
-- with the effect of `netif_mbuf_free`.
unfoldable pub free_chain : List Piece → ℕ → ℕ → Tx → Result Tx
free_chain [] u addr t = ok t
free_chain (p ∷ chain) u addr t = do t' ← mbuf_free u addr t; free_chain chain u addr t'

-- `*(m->m_ext.ref_cnt) += 1` for each mbuf of the chain.
unfoldable pub add_refs : ℕ → ℕ → Tx → Result Tx
add_refs u n t = do
  c ← deref (t.counters u)
  ok (record t {
    counters = update t.counters u (some (record c { refcount = u32 (c.refcount + n) }));
  })

-- The result is `none` for NULL. `frag` is not initialised: it is read with no mbuf in it if the
-- length is 0 or if the first `MGET` fails.
unfoldable pub map_to_mbuf : ℕ → ℕ → Tx → Result (Option (List Piece) × Tx)
map_to_mbuf addr u t = do
  c ← deref (t.counters u)
  let (chain, complete) = map_loop t.free addr c.size
  if length chain == 0 then fault else (do
    t' ← add_refs u (length chain) (record t { free = drop (length chain) t.free })
    if complete
        then ok (some chain, t')
        else (do t'' ← free_chain chain u addr t'; ok (none, record t'' { free = t.free })))

-- The packet while it is put together. `*mp` is the place behind `before`, and `hanging` is what
-- hangs there: the rest of the last fragment, of which `mp` points into the first mbuf.
pub record Packing : Type 0 where
  pub before : List Piece
  pub hanging : List Piece
  pub pkt_len : ℕ

-- `*mp = frag; mp = &(frag->m_next)`.
unfoldable pub link_frag : List Piece → ℕ → Packing → Packing
link_frag [] size k = k
link_frag (m ∷ frag) size k = record {
  before = k.before ++ m ∷ [];
  hanging = frag;
  pkt_len = u64 (k.pkt_len + size);
}

abbrev pub chain_or_raise : Option (List Piece) → Result (List Piece)
chain_or_raise none = raise (failure "No memory for mapping to mbuf")
chain_or_raise (some chain) = ok chain

-- The loop over the buffers: the packet, or the exception if there is no memory.
unfoldable pub put_loop : List BaArray → Packing → Tx → Result (Packing × Tx)
put_loop [] k t = ok (k, t)
put_loop (b ∷ bufs) k t = do
  (frag, t') ← map_to_mbuf b.base b.data2 t
  c ← deref (t'.counters b.data2)
  chain ← chain_or_raise frag
  put_loop bufs (link_frag chain c.size k) t'

-- `ether_output_frame` takes the chain with its header length: `m_pkthdr.len` is an `int`.
unfoldable pub put_mbufs : ℕ → List BaArray → Net → Tx → Result Tx
put_mbufs id [] net t = ok t
put_mbufs id (b ∷ bufs) net t =
    if net.plugged == 0 then ok t else elim (find_by_index (u_short id) net.pihead) [
      | none ↦ ok t
      | some pip ↦ (do
        (k, t') ← put_loop (b ∷ bufs) (record { before = []; hanging = []; pkt_len = 0 }) t
        ok (record t' {
          sent = record { chain = k.before ++ k.hanging; len = int_of (pos k.pkt_len) } ∷ t'.sent;
        }))
    ]
