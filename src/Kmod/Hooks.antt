-- ===== src/Kmod/Hooks.antt =====
-- The hooks of ng_ether(4), over a load and an unload of the module.
use mirage_kfreebsd.Base.{◌≡◌, arith, true, none, some, ◌⊎◌}
use mirage_kfreebsd.Kmod.{Kmod, netif_ether, mod_load, mod_unload, event_handler, eexist, is_set}

-- `MOD_LOAD` reports EEXIST exactly when a hook is taken, and takes both hooks in either case; the
-- unload gives back neither but clears both, so the hooks of the module that had them are lost.
pub load_unload_hooks :
    (s : Kmod)
    → let (error, s') = event_handler mod_load s in
      let (error', s'') = event_handler mod_unload s' in
      ((error ≡ eexist) × ((is_set s.input_hook ≡ true) ⊎ (is_set s.output_hook ≡ true))
        ⊎ (error ≡ 0) × (s.input_hook ≡ none) × (s.output_hook ≡ none))
      × (s'.input_hook ≡ some netif_ether)
      × (s'.output_hook ≡ some netif_ether)
      × (error' ≡ 0)
      × (s''.input_hook ≡ none)
      × (s''.output_hook ≡ none)
unfolding event_handler
load_unload_hooks s = ground arith
