-- ===== src/Netif/Transmit/Truncation.antt =====
-- `caml_put_mbufs` of a buffer of several mbufs with another behind it.
use mirage_kfreebsd.Base.{
  ℕ, zero, suc, ◌+◌, ◌-◌, ◌*◌, ◌^◌, ◌≤◌, ◌<◌, ◌≡◌, ◌≢◌, refl, sym, ap, ◌∙◌, List, [], ◌∷◌, ok, some,
  arith, u32, u64, length, length-drop,
}
use mathlib.Core.Path.{subst}
use mirage_kfreebsd.Base.Int.{pos}
use mirage_kfreebsd.Values.{int_of}
use mirage_kfreebsd.Ints.Ops.Division.{int_of-fits}
use mirage_kfreebsd.Bigarray.{BaArray, Counter}
use mirage_kfreebsd.Netif.{PluggedIf, Net, Frame, find_by_index, u_short}
use mirage_kfreebsd.Netif.Transmit.{
  Piece, Tx, mclbytes, min_len, map_loop, map_to_mbuf, link_frag, put_loop, put_mbufs,
}
use mirage_kfreebsd.Netif.Transmit.Laws.{
  total, Covers, referred, map_loop-Covers, map_loop-cons, map_loop-zero, map_loop-some,
  map_to_mbuf_chain,
}
use mirage_kfreebsd.Netif.Transmit.Frames.{
  Sized, referred-Sized, put_loop-cons, put_mbufs-loop, update_at, map_loop_nil,
}

map_loop-length : (free : List ℕ) (p n : ℕ) → 2048 * length (map_loop free p n).0 ≤ n + 2047
map_loop-length free p zero = rw (map_loop-zero free p) (omega arith)
map_loop-length [] p (suc n) = rw (map_loop_nil p (suc n)) (omega arith)
map_loop-length (a ∷ free) p (suc n) =
    rw (map_loop-cons a free p (suc n) (omega arith))
      (ground (arith, map_loop-length free (p + min_len (suc n)) (suc n - min_len (suc n))))

-- A buffer mapped while there are mbufs enough: its first mbuf, the others, and what is left.
record Fragment (size : BaArray → ℕ) (b : BaArray) (t : Tx) : Type 0 where
  m : Piece
  rest : List Piece
  t' : Tx
  c : Counter
  run : map_to_mbuf b.base b.data2 t ≡ ok (some (m ∷ rest), t')
  counted : t'.counters b.data2 ≡ some c
  big : c.size ≡ size b
  sum : total (m ∷ rest) ≡ size b
  first : m.m_len ≤ mclbytes
  left : 2048 * length t.free ≤ 2048 * length t'.free + size b + 2047
  keeps : (d : BaArray) → Sized t.counters size d → Sized t'.counters size d
  sent : t'.sent ≡ t.sent

some_mbuf :
    (chain : List Piece) → 1 ≤ length chain → (m : Piece) × (rest : List Piece) × (chain ≡ m ∷ rest)
some_mbuf [] h = absurd (omega arith)
some_mbuf (m ∷ rest) h = (m, rest, refl)

Fragment-of :
    (size : BaArray → ℕ) (b : BaArray) (t : Tx)
    → Sized t.counters size b
    → 1 ≤ size b
    → size b ≤ 2048 * length t.free
    → Fragment size b t
Fragment-of size b t (c, counted, big) filled enough =
    let (complete, sum, covers) = map_loop-Covers t.free b.base c.size (omega (arith, big)) in
    let (m, rest, shape) =
      some_mbuf (map_loop t.free b.base c.size).0
        (map_loop-some t.free b.base c.size (omega (arith, big)) (omega arith)) in
    let n = length (map_loop t.free b.base c.size).0 in
    record {
      m = m;
      rest = rest;
      t' = referred b.data2 n c t;
      c = record c { refcount = u32 (c.refcount + n) };
      run =
          map_to_mbuf_chain b.base b.data2 t c counted
            (ground (arith, map_loop-some t.free b.base c.size (omega (arith, big)) (omega arith)))
            complete
          ∙ ap (λ l. ok (some l, referred b.data2 n c t)) shape;
      counted = update_at t.counters b.data2 _;
      big = big;
      sum = ap total (sym shape) ∙ sum ∙ big;
      first = (subst (Covers b.base) shape covers).2;
      left = omega (arith, big, length-drop n t.free, map_loop-length t.free b.base c.size);
      keeps = λ d sized. referred-Sized size b.data2 n c t d counted sized;
      sent = refl;
    }

-- `caml_put_mbufs` of two buffers, of less than 2^31 bytes together, to a plugged interface, the first
-- larger than 2048 bytes, while there are mbufs enough: it returns and sends one frame, whose header promises the bytes of both
-- buffers, and whose chain holds less. (The second fragment is linked behind the first mbuf of the
-- first fragment, and the rest of that is lost.)
pub put_mbufs_truncates :
    (size : BaArray → ℕ) (id : ℕ) (b1 b2 : BaArray) (net : Net) (t : Tx) (pip : PluggedIf)
    → net.plugged ≢ 0
    → find_by_index (u_short id) net.pihead ≡ some pip
    → Sized t.counters size b1
    → Sized t.counters size b2
    → mclbytes < size b1
    → 1 ≤ size b2
    → size b1 + size b2 < 2 ^ 31
    → size b1 + size b2 + 2047 ≤ 2048 * length t.free
    → (t' : Tx) × (frame : Frame Piece) × (put_mbufs id (b1 ∷ b2 ∷ []) net t ≡ ok t')
      × (t'.sent ≡ frame ∷ t.sent)
      × (frame.len ≡ pos (size b1 + size b2))
      × (total frame.chain < size b1 + size b2)
unfolding put_loop link_frag
put_mbufs_truncates size id b1 b2 net t pip busy found sized1 sized2 large filled small enough =
    let f1 = Fragment-of size b1 t sized1 (omega arith) (omega arith) in
    let f2 = Fragment-of size b2 f1.t' (f1.keeps b2 sized2) filled (omega (arith, f1.left)) in
    let exact_len : u64 (u64 (0 + f1.c.size) + f2.c.size) ≡ size b1 + size b2 =
      omega (arith, f1.big, f2.big, small) in
    let frame : Frame Piece = record {
      chain = f1.m ∷ f2.m ∷ f2.rest;
      len = pos (size b1 + size b2);
    } in
    (
      record f2.t' { sent = frame ∷ f2.t'.sent },
      frame,
      put_mbufs-loop id b1 (b2 ∷ []) net t f2.t' pip _ busy found (
            put_loop-cons b1 (b2 ∷ []) _ t f1.t' (f1.m ∷ f1.rest) f1.c f1.run f1.counted
            ∙ put_loop-cons b2 [] _ f1.t' f2.t' (f2.m ∷ f2.rest) f2.c f2.run f2.counted)
          ∙ ap
              (λ n. ok (record f2.t' {
                sent = record { chain = f1.m ∷ f2.m ∷ f2.rest; len = n } ∷ f2.t'.sent;
              }))
              (ap (λ n. int_of (pos n)) exact_len
                ∙ int_of-fits (pos (size b1 + size b2)) small (omega arith)),
      ap (λ l. frame ∷ l) (f2.sent ∙ f1.sent),
      refl,
      omega (arith, f1.big, f2.big, f1.first, f2.sum),
    )
