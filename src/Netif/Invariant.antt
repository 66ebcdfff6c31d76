-- ===== src/Netif/Invariant.antt =====
-- The list of plugged interfaces over any sequence of calls of the primitives and the hook.
use mirage_kfreebsd.Base.{
  ℕ, suc, ◌≡◌, refl, List, [], ◌∷◌, ok, Bool, true, false, Option, none, some, arith, length,
  length-append, Bool-cases, Option-cases, ◌==◌, inl, inr,
}
use mirage_kfreebsd.Netif.{Ifnet, Packets, PluggedIf, Net, find_by_name, u_short}
use mirage_kfreebsd.Netif.Plug.{
  plug_vif, plug_found, find_ifnet, ether_addr, insert_tail, unplug_vif, remove_by_name,
}
use mirage_kfreebsd.Netif.Receive.{ether_input, get_mbufs, update_by_index}

-- One call into the module.
pub data Call : Net → Net → Type 0 where
  plug : (memory : Bool) (id : List ℕ) (net : Net) → Call net (plug_vif memory id net).1
  unplug : (id : List ℕ) (net : Net) → Call net (unplug_vif id net)
  input :
      (left : Option Packets) (memory : Bool) (ifp : Ifnet) (mp : Packets) (net net' : Net)
      → ether_input memory ifp mp net ≡ ok (left, net')
      → Call net net'
  take_all : (id : ℕ) (net : Net) → Call net (get_mbufs id net).1

pub data Calls (a : Net) : Net → Type 0 where
  here : Calls a a
  after : {b c : Net} → Calls a b → Call b c → Calls a c

-- The counter that guards every operation is the length of the list.
abbrev pub Counted : Net → Type 0
Counted net = net.plugged ≡ length net.pihead

length-update_by_index :
    (val : ℕ) (f : List Packets → List Packets) (head : List PluggedIf)
    → length (update_by_index val f head) ≡ length head
unfolding update_by_index
length-update_by_index val f [] = refl
length-update_by_index val f (pip ∷ head) = ground (arith, length-update_by_index val f head)

length-remove_by_name :
    (id : List ℕ) (head : List PluggedIf) (pip : PluggedIf)
    → find_by_name id head ≡ some pip
    → suc (length (remove_by_name id head)) ≡ length head
unfolding remove_by_name find_by_name
length-remove_by_name id [] pip h = cc
length-remove_by_name id (p ∷ head) pip h = ground (arith, length-remove_by_name id head pip)

inserted-Counted : (pip : PluggedIf) (net : Net) → Counted net → Counted (insert_tail pip net)
unfolding insert_tail
inserted-Counted pip net h = elim (Bool-cases (net.plugged == 0)) [
  | inl empty ↦ rw (empty) (ground arith)
  | inr more ↦ rw (more, length-append net.pihead (pip ∷ [])) (omega arith)
]

plug_found-Counted :
    (id : List ℕ) (found : Option Ifnet) (net : Net)
    → Counted net
    → Counted (plug_found id found net).1
unfolding plug_found
plug_found-Counted id none net h = h
plug_found-Counted id (some ifp) net h = elim (Option-cases (ether_addr ifp.if_addrs)) [
  | inl no_addr ↦ rw (no_addr, plug_found) h
  | inr (sdl, addr) ↦ rw (addr, plug_found) (inserted-Counted _ _ h)
]

plug_vif-Counted :
    (memory : Bool) (id : List ℕ) (net : Net) → Counted net → Counted (plug_vif memory id net).1
unfolding plug_vif
plug_vif-Counted false id net h = h
plug_vif-Counted true id net h = plug_found-Counted id (find_ifnet id net.ifnets) net h

unplug_vif-Counted : (id : List ℕ) (net : Net) → Counted net → Counted (unplug_vif id net)
unfolding unplug_vif
unplug_vif-Counted id net h = elim (Option-cases (find_by_name id net.pihead)) [
  | inl no_name ↦ rw (no_name, unplug_vif) h
  | inr (pip, found) ↦
      rw (found, unplug_vif) (omega (arith, length-remove_by_name id net.pihead pip found))
]

ether_input-Counted :
    (left : Option Packets) (memory : Bool) (ifp : Ifnet) (mp : Packets) (net net' : Net)
    → ether_input memory ifp mp net ≡ ok (left, net')
    → Counted net
    → Counted net'
unfolding ether_input
ether_input-Counted left memory ifp mp net net' run h =
    ground (arith, length-update_by_index (u_short ifp.if_index) (λ rx. mp ∷ rx) net.pihead)

get_mbufs-Counted : (id : ℕ) (net : Net) → Counted net → Counted (get_mbufs id net).1
unfolding get_mbufs
get_mbufs-Counted id net h =
    ground (arith, length-update_by_index (u_short id) (λ rx. []) net.pihead)

-- From a state in which `plugged` is the length of the list of plugged interfaces, any sequence of
-- calls of `caml_plug_vif`, `caml_unplug_vif`, `netif_ether_input` and `caml_get_mbufs` that do not
-- fault, those that raise an exception included, leads to such a state.
pub Calls-Counted : {a b : Net} → Calls a b → Counted a → Counted b
Calls-Counted here h = h
Calls-Counted (after before (plug memory id net)) h =
    plug_vif-Counted memory id net (Calls-Counted before h)
Calls-Counted (after before (unplug id net)) h = unplug_vif-Counted id net (Calls-Counted before h)
Calls-Counted (after before (input left memory ifp mp net net' run)) h =
    ether_input-Counted left memory ifp mp net net' run (Calls-Counted before h)
Calls-Counted (after before (take_all id net)) h = get_mbufs-Counted id net (Calls-Counted before h)
