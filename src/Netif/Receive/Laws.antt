-- ===== src/Netif/Receive/Laws.antt =====
-- From `netif_ether_input` to `caml_get_mbufs`.
use mirage_kfreebsd.Base.{
  ℕ, ◌≡◌, ◌≢◌, refl, sym, ap, ◌∙◌, List, [], ◌∷◌, ◌++◌, reverse, Result, ok, ◌>>=◌, true, false,
  none, some, arith, ◌==◌,
}
use mathlib.Core.Path.{subst}
use mathlib.Core.List.{reverse_aux, reverse_aux-eq, append_assoc, append-nil}
use mirage_kfreebsd.Netif.{Ifnet, Mbuf, Packet, Packets, PluggedIf, Net, find_by_index, u_short}
use mirage_kfreebsd.Netif.Receive.{
  ether_input, get_mbufs, update_by_index, update_rx, take_packet, take_packets, take_entries,
}

-- The mbufs of a frame from the last to the first.
abbrev pub backwards : Packets → List Mbuf
backwards [] = []
backwards (m ∷ more) = backwards more ++ reverse m

-- The mbufs of frames that arrived one after the other.
abbrev pub arrivals : List Packets → List Mbuf
arrivals [] = []
arrivals (mp ∷ mps) = backwards mp ++ arrivals mps

-- The Ethernet layer hands over frames, while `malloc` succeeds.
abbrev pub deliver : Ifnet → List Packets → Net → Result Net
deliver ifp [] net = ok net
deliver ifp (mp ∷ mps) net = ether_input true ifp mp net >>= λ r. deliver ifp mps r.1

take_packet-append : (m : Packet) (result : List Mbuf) → take_packet m result ≡ reverse m ++ result
unfolding take_packet
take_packet-append m result = go m result ∙ reverse_aux-eq m result
  where
    go : (m : Packet) (result : List Mbuf) → take_packet m result ≡ reverse_aux m result
    go [] result = refl
    go (n ∷ m) result = go m (n ∷ result)

take_packets-append :
    (mp : Packets) (result : List Mbuf) → take_packets mp result ≡ backwards mp ++ result
unfolding take_packets
take_packets-append [] result = refl
take_packets-append (m ∷ more) result =
    take_packets-append more (take_packet m result)
    ∙ ap (λ l. backwards more ++ l) (take_packet-append m result)
    ∙ sym (append_assoc (backwards more) (reverse m) result)

take_packets_nil : (mp : Packets) → take_packets mp [] ≡ backwards mp
take_packets_nil mp = take_packets-append mp [] ∙ append-nil (backwards mp)

take_entries-append :
    (rx : List Packets) (result : List Mbuf) → take_entries rx result ≡ take_entries rx [] ++ result
unfolding take_entries
take_entries-append [] result = refl
take_entries-append (e ∷ rx) result =
    take_entries-append rx (take_packets e result)
    ∙ ap (λ l. take_entries rx [] ++ l)
        (take_packets-append e result ∙ ap (λ l. l ++ result) (sym (take_packets_nil e)))
    ∙ sym (append_assoc (take_entries rx []) (take_packets e []) result)
    ∙ ap (λ l. l ++ result) (sym (take_entries-append rx (take_packets e [])))

find_by_index-update :
    (val : ℕ) (f : List Packets → List Packets) (head : List PluggedIf) (pip : PluggedIf)
    → find_by_index val head ≡ some pip
    → find_by_index val (update_by_index val f head) ≡ some (record pip { rx = f pip.rx })
unfolding find_by_index update_by_index
find_by_index-update val f [] pip h = cc
find_by_index-update val f (p ∷ head) pip h = ground (arith, find_by_index-update val f head pip)

-- The queue after more frames: the newest in front.
unfoldable arrived : List Packets → List Packets → List Packets
arrived [] rx = rx
arrived (mp ∷ mps) rx = arrived mps (mp ∷ rx)

take_entries-arrived :
    (mps rx : List Packets) → take_entries (arrived mps rx) [] ≡ take_entries rx [] ++ arrivals mps
unfolding take_entries arrived
take_entries-arrived [] rx = sym (append-nil (take_entries rx []))
take_entries-arrived (mp ∷ mps) rx =
    take_entries-arrived mps (mp ∷ rx)
    ∙ ap (λ l. l ++ arrivals mps)
        (take_entries-append rx (take_packets mp [])
          ∙ ap (λ l. take_entries rx [] ++ l) (take_packets_nil mp))
    ∙ append_assoc (take_entries rx []) (backwards mp) (arrivals mps)

-- A plugged interface, and what is in its queue.
record Queue (val : ℕ) (net : Net) (rx : List Packets) : Type 0 where
  pip : PluggedIf
  busy : (net.plugged == 0) ≡ false
  found : find_by_index val net.pihead ≡ some pip
  rest : pip.rx ≡ rx

push-Queue :
    (val : ℕ) (net : Net) (rx : List Packets) (f : List Packets → List Packets)
    → Queue val net rx
    → Queue val (update_rx val f net) (f rx)
push-Queue val net rx f q = record {
  pip = record q.pip { rx = f q.pip.rx };
  busy = q.busy;
  found = find_by_index-update val f net.pihead q.pip q.found;
  rest = ap f q.rest;
}

ether_input-taken :
    (ifp : Ifnet) (mp : Packets) (net : Net) (rx : List Packets)
    → Queue (u_short ifp.if_index) net rx
    → ether_input true ifp mp net ≡ ok (none, update_rx (u_short ifp.if_index) (λ rx. mp ∷ rx) net)
unfolding ether_input
ether_input-taken ifp mp net rx q = rw (q.busy, q.found, ether_input) refl

get_mbufs-Queue :
    (id : ℕ) (net : Net) (rx : List Packets)
    → Queue (u_short id) net rx
    → get_mbufs id net ≡ (take_entries rx [], update_rx (u_short id) (λ rx. []) net)
unfolding get_mbufs
get_mbufs-Queue id net rx q = rw (q.busy, q.found, get_mbufs, q.rest) refl

deliver-Queue :
    (ifp : Ifnet) (mps : List Packets) (net : Net) (rx : List Packets)
    → Queue (u_short ifp.if_index) net rx
    → (net' : Net) × (deliver ifp mps net ≡ ok net')
      × Queue (u_short ifp.if_index) net' (arrived mps rx)
unfolding arrived
deliver-Queue ifp [] net rx q = (net, refl, q)
deliver-Queue ifp (mp ∷ mps) net rx q =
    let (net', run, q') =
      deliver-Queue ifp mps (update_rx (u_short ifp.if_index) (λ rx. mp ∷ rx) net) (mp ∷ rx)
        (push-Queue (u_short ifp.if_index) net rx (λ rx. mp ∷ rx) q) in
    (net', ap (λ m. m >>= λ r. deliver ifp mps r.1) (ether_input-taken ifp mp net rx q) ∙ run, q')

-- Frames for a plugged interface, delivered while `malloc` succeeds: the hook takes each of them
-- without a fault, and `caml_get_mbufs` of that interface then gives what it would have given before,
-- followed by every mbuf of every frame once: frame after frame as they arrived, but within a frame
-- from the last mbuf to the first. What it leaves gives nothing when it is called again.
pub receive_all :
    (ifp : Ifnet) (mps : List Packets) (net : Net) (id : ℕ) (pip : PluggedIf)
    → net.plugged ≢ 0
    → find_by_index (u_short ifp.if_index) net.pihead ≡ some pip
    → u_short id ≡ u_short ifp.if_index
    → (net' : Net) × (deliver ifp mps net ≡ ok net')
      × ((get_mbufs id net').0 ≡ (get_mbufs id net).0 ++ arrivals mps)
      × ((get_mbufs id (get_mbufs id net').1).0 ≡ [])
unfolding take_entries
receive_all ifp mps net id pip busy found same =
    let (net', run, q') = deliver-Queue ifp mps net pip.rx q in
    let gives =
      get_mbufs-Queue id net' (arrived mps pip.rx)
        (subst (λ v. Queue v net' (arrived mps pip.rx)) (sym same) q') in
    let after =
      push-Queue (u_short id) net' (arrived mps pip.rx) (λ rx. [])
        (subst (λ v. Queue v net' (arrived mps pip.rx)) (sym same) q') in
    (
      net',
      run,
      ap (λ r. r.0) gives
          ∙ take_entries-arrived mps pip.rx
          ∙ ap (λ r. r.0 ++ arrivals mps)
              (sym (get_mbufs-Queue id net pip.rx (subst (λ v. Queue v net pip.rx) (sym same) q))),
      ap (λ r. (get_mbufs id r.1).0) gives ∙ ap (λ r. r.0) (get_mbufs-Queue id _ [] after),
    )
  where
    q : Queue (u_short ifp.if_index) net pip.rx
    q = record { pip = pip; busy = ground arith; found = found; rest = refl }
