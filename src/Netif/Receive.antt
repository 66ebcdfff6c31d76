-- ===== src/Netif/Receive.antt =====
-- `netif_ether_input` and `caml_get_mbufs`.
pub mod Laws
use mirage_kfreebsd.Base.{
  ℕ, zero, suc, ◌+◌, List, [], ◌∷◌, ◌++◌, Result, ok, fault, Bool, true, false, Option, none, some,
  ◌==◌, if◌then◌else◌,
}
use mirage_kfreebsd.Netif.{Ifnet, Mbuf, Packet, Packets, PluggedIf, Net, find_by_index, u_short}

-- A change of the interface that `find_pi_by_index` finds.
unfoldable pub update_by_index : ℕ → (List Packets → List Packets) → List PluggedIf → List PluggedIf
update_by_index val f [] = []
update_by_index val f (pip ∷ head) =
    if pip.pi_index == val
    then record pip { rx = f pip.rx } ∷ head
    else pip ∷ update_by_index val f head

abbrev pub update_rx : ℕ → (List Packets → List Packets) → Net → Net
update_rx val f net = record net { pihead = update_by_index val f net.pihead }

-- The result is what `*mp` is afterwards: `none` if the frame was taken. The result of `malloc` is
-- used without a test.
unfoldable pub ether_input : Bool → Ifnet → Packets → Net → Result (Option Packets × Net)
ether_input memory ifp mp net =
    if net.plugged == 0
    then ok (some mp, net)
    else elim (find_by_index (u_short ifp.if_index) net.pihead) [
      | none ↦ ok (some mp, net)
      | some pip ↦
          if memory then ok (none, update_rx (u_short ifp.if_index) (λ rx. mp ∷ rx) net) else fault
    ]

-- `for (n = m; n != NULL; n = n->m_next)`: each mbuf goes in front of the result.
unfoldable pub take_packet : Packet → List Mbuf → List Mbuf
take_packet [] result = result
take_packet (n ∷ m) result = take_packet m (n ∷ result)

unfoldable pub take_packets : Packets → List Mbuf → List Mbuf
take_packets [] result = result
take_packets (m ∷ more) result = take_packets more (take_packet m result)

unfoldable pub take_entries : List Packets → List Mbuf → List Mbuf
take_entries [] result = result
take_entries (e ∷ rx) result = take_entries rx (take_packets e result)

-- The mbufs of which `caml_get_mbufs` makes arrays, in the order of its list, and the emptied queue.
unfoldable pub get_mbufs : ℕ → Net → List Mbuf × Net
get_mbufs id net =
    if net.plugged == 0 then ([], net) else elim (find_by_index (u_short id) net.pihead) [
      | none ↦ ([], net)
      | some pip ↦ (take_entries pip.rx [], update_rx (u_short id) (λ rx. []) net)
    ]

-- "This function is intentionally left blank."
unfoldable pub ether_output : Ifnet → Packets → ℕ
ether_output ifp mp = 0
