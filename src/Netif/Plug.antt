-- ===== src/Netif/Plug.antt =====
-- `caml_get_vifs`, `caml_plug_vif` and `caml_unplug_vif`.
use mirage_kfreebsd.Base.{
  ℕ, ◌+◌, ◌-◌, ◌/◌, ◌%◌, List, [], ◌∷◌, ◌++◌, Result, ok, raise, failure, Bool, true, false, ◌&&◌,
  Option, none, some, ltb, ◌==◌, if◌then◌else◌, take, get_or,
}
use mirage_kfreebsd.Netif.{
  Sockaddr, Ifnet, Mbuf, Packets, PluggedIf, Net, ifnamsiz, same_name, find_by_name, u_short,
}

abbrev pub af_link : ℕ
af_link = 18

abbrev pub ift_ether : ℕ
ift_ether = 6

unfoldable pub is_ether : Option Sockaddr → Bool
is_ether none = false
is_ether (some sdl) = sdl.family == af_link && sdl.sort == ift_ether

-- The first link-level Ethernet address of an interface.
unfoldable pub ether_addr : List (Option Sockaddr) → Option Sockaddr
ether_addr [] = none
ether_addr (ifa ∷ addrs) = if is_ether ifa then ifa else ether_addr addrs

abbrev pub has_ether : Ifnet → Bool
has_ether ifp = elim (ether_addr ifp.if_addrs) [ none ↦ false | some sdl ↦ true ]

-- The names are put in front of the result one after the other.
unfoldable pub vifs_loop : List Ifnet → List (List ℕ) → List (List ℕ)
vifs_loop [] result = result
vifs_loop (ifp ∷ ifnets) result =
    vifs_loop ifnets (if has_ether ifp then ifp.if_xname ∷ result else result)

unfoldable pub get_vifs : Net → List (List ℕ)
get_vifs net = vifs_loop net.ifnets []

-- The first interface of the name, as it is before its netgraph pointer is written.
unfoldable pub find_ifnet : List ℕ → List Ifnet → Option Ifnet
find_ifnet id [] = none
find_ifnet id (ifp ∷ ifnets) =
    if same_name ifnamsiz ifp.if_xname id then some ifp else find_ifnet id ifnets

-- `IFP2AC(ifp)->ac_netgraph = ...` at that interface.
unfoldable pub set_netgraph : Bool → List ℕ → List Ifnet → List Ifnet
set_netgraph on id [] = []
set_netgraph on id (ifp ∷ ifnets) =
    if same_name ifnamsiz ifp.if_xname id
    then record ifp { ac_netgraph = on } ∷ ifnets
    else ifp ∷ set_netgraph on id ifnets

-- "%02x".
abbrev hex_digit : ℕ → ℕ
hex_digit n = if ltb n 10 then n + b'0' else n + 87

unfoldable pub hex_byte : ℕ → List ℕ
hex_byte n = hex_digit (n / 16 % 16) ∷ hex_digit (n % 16) ∷ []

-- "%02x:%02x:%02x:%02x:%02x:%02x" of the first six bytes.
unfoldable pub format_lladdr : List ℕ → List ℕ
unfolding hex_byte
format_lladdr a =
    hex_byte (get_or a 0 0)
    ++ (b':'
        ∷ (hex_byte (get_or a 1 0)
            ++ (b':'
                ∷ (hex_byte (get_or a 2 0)
                    ++ (b':'
                        ∷ (hex_byte (get_or a 3 0)
                            ++ (b':'
                                ∷ (hex_byte (get_or a 4 0)
                                    ++ (b':' ∷ hex_byte (get_or a 5 0))))))))))

-- What `caml_plug_vif` returns: is the interface up, its index and its address.
pub record Vif : Type 0 where
  pub up : Bool
  pub llindex : ℕ
  pub lladdr : List ℕ

unfoldable pub plugged_if : Ifnet → Sockaddr → PluggedIf
plugged_if ifp sdl = record {
  pi_ifp = ifp;
  pi_index = u_short ifp.if_index;
  pi_llindex = u_short sdl.index;
  pi_flags = ifp.if_flags;
  pi_lladdr = format_lladdr sdl.lladdr;
  pi_xname = take ifnamsiz ifp.if_xname;
  rx = [];
}

-- `TAILQ_INSERT_TAIL`, into a list that is first emptied if nothing is plugged.
unfoldable pub insert_tail : PluggedIf → Net → Net
insert_tail pip net = record net {
  pihead = (if net.plugged == 0 then [] else net.pihead) ++ pip ∷ [];
  plugged = net.plugged + 1;
}

abbrev pub vif_of : PluggedIf → Vif
vif_of pip = record { up = pip.pi_flags % 2 == 1; llindex = pip.pi_llindex; lladdr = pip.pi_lladdr }

-- The netgraph pointer is set as soon as the name is found, and stays set if there is no address.
unfoldable pub plug_found : List ℕ → Option Ifnet → Net → Result Vif × Net
plug_found id none net = (raise (failure "Invalid interface"), net)
plug_found id (some ifp) net =
    let net' = record net { ifnets = set_netgraph true id net.ifnets } in
    elim (ether_addr ifp.if_addrs) [
      | none ↦ (raise (failure "Invalid interface"), net')
      | some sdl ↦
          let pip = plugged_if (record ifp { ac_netgraph = true }) sdl in
          (ok (vif_of pip), insert_tail pip net')
    ]

-- `memory` says whether the first `malloc` succeeds.
unfoldable pub plug_vif : Bool → List ℕ → Net → Result Vif × Net
plug_vif memory id net =
    if memory
    then plug_found id (find_ifnet id net.ifnets) net
    else (raise (failure "No memory for plugging a new interface"), net)

-- `TAILQ_REMOVE` of the interface that `find_pi_by_name` found: the first of its name.
unfoldable pub remove_by_name : List ℕ → List PluggedIf → List PluggedIf
remove_by_name id [] = []
remove_by_name id (pip ∷ head) =
    if same_name ifnamsiz pip.pi_xname id then head else pip ∷ remove_by_name id head

-- `m_freem(e1->me_m)` of each entry: the chain of its first packet.
unfoldable pub free_entries : List Packets → List Mbuf → List Mbuf
free_entries [] freed = freed
free_entries ([] ∷ rx) freed = free_entries rx freed
free_entries ((m ∷ more) ∷ rx) freed = free_entries rx (freed ++ m)

unfoldable pub unplug_vif : List ℕ → Net → Net
unplug_vif id net = elim (find_by_name id net.pihead) [
  | none ↦ net
  | some pip ↦ record {
    ifnets = set_netgraph false id net.ifnets;
    pihead = remove_by_name id net.pihead;
    plugged = net.plugged - 1;
    freed = free_entries pip.rx net.freed;
  }
]
