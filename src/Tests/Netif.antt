-- ===== src/Tests/Netif.antt =====
-- packages/mirage-platform/runtime/kernel/netif_stubs.c with one interface.
use mirage_kfreebsd.Base.{
  ℕ, ◌+◌, ◌<◌, ◌≡◌, refl, arith, List, [], ◌∷◌, ◌++◌, ok, true, false, none, some, drop, length,
}
use mirage_kfreebsd.Bigarray.{BaArray, Counter, update}
use mirage_kfreebsd.Base.Int.{pos}
use mirage_kfreebsd.Netif.{Ifnet, Packets, PluggedIf, Net, Frame, find_by_index}
use mirage_kfreebsd.Netif.Plug.{plug_vif}
use mirage_kfreebsd.Netif.Receive.{get_mbufs}
use mirage_kfreebsd.Netif.Receive.Laws.{receive_all, deliver, arrivals}
use mirage_kfreebsd.Netif.Invariant.{Calls-Counted, Counted, here, after, plug, take_all}
use mirage_kfreebsd.Netif.Transmit.{Piece, Tx, map_to_mbuf, put_mbufs}
use mirage_kfreebsd.Netif.Transmit.Laws.{
  map_to_mbuf-Covers, map_to_mbuf_no_memory, referred, total, Covers,
}
use mirage_kfreebsd.Netif.Transmit.Truncation.{put_mbufs_truncates}
use mirage_kfreebsd.Netif.Transmit.Frames.{put_mbufs-one_each, one_each, sum_sizes}

abbrev em0 : Ifnet
em0 = record {
  if_index = 3;
  if_xname = b'e' ∷ b'm' ∷ b'0' ∷ [];
  if_flags = 1;
  if_mtu = 1500;
  if_addrs =
      some
        (record { family = 18; sort = 6; index = 3; lladdr = 2 ∷ 0 ∷ 0 ∷ 0 ∷ 0 ∷ 1 ∷ 0 ∷ 0 ∷ [] })
      ∷ [];
  ac_netgraph = false;
}

abbrev unplugged_net : Net
unplugged_net = record { ifnets = em0 ∷ []; pihead = []; plugged = 0; freed = [] }

Calls-Counted_example : Counted (get_mbufs 3 (plug_vif true em0.if_xname unplugged_net).1).1
Calls-Counted_example =
    Calls-Counted (after (after here (plug true em0.if_xname unplugged_net)) (take_all 3 _)) refl

abbrev pip : PluggedIf
pip = record {
  pi_ifp = em0;
  pi_index = 3;
  pi_llindex = 3;
  pi_flags = 1;
  pi_lladdr = [];
  pi_xname = em0.if_xname;
  rx = [];
}

abbrev net : Net
net = record { ifnets = em0 ∷ []; pihead = pip ∷ []; plugged = 1; freed = [] }

-- A frame of two mbufs, and one of one.
abbrev frames : List Packets
frames =
    ((record { addr = 1; m_len = 100 } ∷ record { addr = 2; m_len = 50 } ∷ []) ∷ [])
    ∷ ((record { addr = 3; m_len = 60 } ∷ []) ∷ [])
    ∷ []

receive_all_example :
    (net' : Net) × (deliver em0 frames net ≡ ok net')
    × ((get_mbufs 3 net').0 ≡ (get_mbufs 3 net).0 ++ arrivals frames)
    × ((get_mbufs 3 (get_mbufs 3 net').1).0 ≡ [])
unfolding find_by_index
receive_all_example = receive_all em0 frames net 3 pip (λ e. omega arith) refl refl

abbrev small_buffer : BaArray
small_buffer = record { base = 4096; data2 = 64; flags = 0x201; proxy = 0; dim = 60 ∷ [] }

abbrev large_buffer : BaArray
large_buffer = record { base = 8192; data2 = 72; flags = 0x201; proxy = 0; dim = 3000 ∷ [] }

abbrev size : BaArray → ℕ
size b = elim b.dim [ [] ↦ 0 | d ∷ _ ↦ d ]

abbrev small_counter : Counter
small_counter = record { refcount = 1; size = 60 }

abbrev large_counter : Counter
large_counter = record { refcount = 1; size = 3000 }

abbrev tx : List ℕ → Tx
tx free = record {
  free = free;
  counters = update (update (λ u. none) 64 (some small_counter)) 72 (some large_counter);
  released = [];
  sent = [];
}

map_to_mbuf-Covers_example :
    (chain : List Piece) × (map_to_mbuf 8192 72 (tx (1 ∷ 2 ∷ 3 ∷ []))
      ≡ ok (some chain, referred 72 (length chain) large_counter (tx (1 ∷ 2 ∷ 3 ∷ []))))
    × (total chain ≡ 3000)
    × Covers 8192 chain
map_to_mbuf-Covers_example =
    map_to_mbuf-Covers 8192 72 (tx (1 ∷ 2 ∷ 3 ∷ [])) large_counter refl (omega arith) (omega arith)

map_to_mbuf_no_memory_example :
    (t' : Tx) × (map_to_mbuf 8192 72 (tx (1 ∷ [])) ≡ ok (none, t'))
    × (t'.counters 72 ≡ some large_counter)
    × (t'.free ≡ 1 ∷ [])
    × (t'.released ≡ [])
    × (t'.sent ≡ [])
map_to_mbuf_no_memory_example =
    map_to_mbuf_no_memory 8192 72 (tx (1 ∷ [])) large_counter refl (omega arith) (omega arith)
      (omega arith) (omega arith)

put_mbufs-one_each_example :
    (t' : Tx) × (put_mbufs 3 (small_buffer ∷ small_buffer ∷ []) net (tx (1 ∷ 2 ∷ 3 ∷ [])) ≡ ok t')
    × (t'.sent
        ≡ record {
          chain = one_each size (small_buffer ∷ small_buffer ∷ []) (1 ∷ 2 ∷ 3 ∷ []);
          len = pos (sum_sizes size (small_buffer ∷ small_buffer ∷ []));
        }
          ∷ [])
    × (t'.free ≡ drop (length (small_buffer ∷ small_buffer ∷ [])) (1 ∷ 2 ∷ 3 ∷ []))
unfolding find_by_index
put_mbufs-one_each_example =
    put_mbufs-one_each size 3 small_buffer (small_buffer ∷ []) net (tx (1 ∷ 2 ∷ 3 ∷ [])) pip
      (λ e. omega arith) refl ((small_counter, refl, refl), ((small_counter, refl, refl), tt))
      ((omega arith, omega arith), ((omega arith, omega arith), tt)) (omega arith) (omega arith)

put_mbufs_truncates_example :
    (t' : Tx) × (frame : Frame Piece) × (put_mbufs 3
        (large_buffer ∷ small_buffer ∷ [])
        net
        (tx (1 ∷ 2 ∷ 3 ∷ []))
      ≡ ok t')
    × (t'.sent ≡ frame ∷ [])
    × (frame.len ≡ pos (3000 + 60))
    × (total frame.chain < 3000 + 60)
unfolding find_by_index
put_mbufs_truncates_example =
    put_mbufs_truncates size 3 large_buffer small_buffer net (tx (1 ∷ 2 ∷ 3 ∷ [])) pip
      (λ e. omega arith) refl (large_counter, refl, refl) (small_counter, refl, refl) (omega arith)
      (omega arith) (omega arith) (omega arith)
