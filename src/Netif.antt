-- ===== src/Netif.antt =====
-- packages/mirage-platform/runtime/kernel/netif_stubs.c: plugging Ethernet interfaces, receiving and
-- sending frames.
pub mod Plug
pub mod Receive
pub mod Transmit
pub mod Invariant
use mirage_kfreebsd.Base.{
  ℕ, zero, suc, ◌+◌, ◌%◌, List, [], ◌∷◌, Bool, true, false, Option, none, some, ◌&&◌, ◌==◌,
  if◌then◌else◌,
}
use mirage_kfreebsd.Base.Int.{ℤ}
use mirage_kfreebsd.Bigarray.{Counter}

-- A link-level address (`struct sockaddr_dl`); `lladdr` is the 8 bytes that are copied.
pub record Sockaddr : Type 0 where
  pub family : ℕ
  pub sort : ℕ
  pub index : ℕ
  pub lladdr : List ℕ

-- `struct ifnet`: the fields that the module reads, the addresses (`none` is a NULL `ifa_addr`) and
-- the netgraph pointer of the Ethernet layer, which is set or NULL.
pub record Ifnet : Type 0 where
  pub if_index : ℕ
  pub if_xname : List ℕ
  pub if_flags : ℕ
  pub if_mtu : ℕ
  pub if_addrs : List (Option Sockaddr)
  pub ac_netgraph : Bool

-- One mbuf: its address and length.
pub record Mbuf : Type 0 where
  pub addr : ℕ
  pub m_len : ℕ

-- A packet is a chain by `m_next`; what the Ethernet layer hands over is a list by `m_nextpkt`.
abbrev pub Packet : Type 0
Packet = List Mbuf

abbrev pub Packets : Type 0
Packets = List Packet

-- `struct plugged_if`; the newest entry of `rx` comes first.
pub record PluggedIf : Type 0 where
  pub pi_ifp : Ifnet
  pub pi_index : ℕ
  pub pi_llindex : ℕ
  pub pi_flags : ℕ
  pub pi_lladdr : List ℕ
  pub pi_xname : List ℕ
  pub rx : List Packets

-- A frame that was handed to `ether_output_frame`: the chain, and the length in its header.
pub record Frame (A : Type 0) : Type 0 where
  pub chain : List A
  pub len : ℤ

-- The variables of the module and the parts of the kernel that it changes.
pub record Net : Type 0 where
  pub ifnets : List Ifnet
  pub pihead : List PluggedIf
  pub plugged : ℕ
  pub freed : List Mbuf

abbrev pub ifnamsiz : ℕ
ifnamsiz = 16

-- `strncmp(a, b, n) == 0`; a list ends where its string has the NUL.
unfoldable pub same_name : ℕ → List ℕ → List ℕ → Bool
same_name zero a b = true
same_name (suc n) [] [] = true
same_name (suc n) [] (c ∷ b) = c == 0
same_name (suc n) (c ∷ a) [] = c == 0
same_name (suc n) (c ∷ a) (d ∷ b) =
    if c == d then (if c == 0 then true else same_name n a b) else false

-- `u_short`.
abbrev pub u_short : ℕ → ℕ
u_short n = n % 65536

unfoldable pub find_by_index : ℕ → List PluggedIf → Option PluggedIf
find_by_index val [] = none
find_by_index val (pip ∷ head) = if pip.pi_index == val then some pip else find_by_index val head

unfoldable pub find_by_name : List ℕ → List PluggedIf → Option PluggedIf
find_by_name val [] = none
find_by_name val (pip ∷ head) =
    if same_name ifnamsiz pip.pi_xname val then some pip else find_by_name val head
