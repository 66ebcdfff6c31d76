-- ===== src/Kmod.antt =====
-- packages/mirage-platform/runtime/kernel/kmod.c: the kernel module, the thread that runs the OCaml
-- main loop, the sysctl that starts it and the hooks into the Ethernet layer.
pub mod System
pub mod Thread
pub mod Stop
pub mod Wakeup
pub mod Hooks
pub mod Block
use mirage_kfreebsd.Base.{
  ℕ, ◌+◌, ◌-◌, ◌*◌, ◌/◌, ◌%◌, ◌^◌, Result, ok, fault, ◌>>=◌, ◌>>◌, Bool, true, false, not, ◌&&◌,
  ◌||◌, Option, none, some, ltb, ◌==◌, if◌then◌else◌,
}
use mirage_kfreebsd.Base.Int.{ℤ, pos, negsuc, pos_part, neg_part, quot, ◌*ℤ◌}

pub data ThreadState : Type 0 where
  thr_none thr_running thr_stopped : ThreadState

abbrev pub is_none : ThreadState → Bool
is_none thr_none = true
is_none _ = false

abbrev pub is_running : ThreadState → Bool
is_running thr_running = true
is_running _ = false

abbrev pub is_stopped : ThreadState → Bool
is_stopped thr_stopped = true
is_stopped _ = false

-- Who owns a hook of ng_ether(4): this module, or another one.
pub data Hook : Type 0 where
  netif_ether : Hook
  foreign : ℕ → Hook

-- The variables of the module. `kthread` is the thread that `mirage_kthread` points to, or `none` for
-- NULL. The pointer is never reset: it stays when the thread has exited, where using it is undefined.
pub record Kmod : Type 0 where
  pub kthread_state : ThreadState
  pub kthread : Option ℕ
  pub input_hook : Option Hook
  pub output_hook : Option Hook

-- The module as it is loaded: the initialisers of the static variables.
abbrev pub initial : Kmod
initial = record { kthread_state = thr_none; kthread = none; input_hook = none; output_hook = none }

-- What `kthread_add` does: a stopped thread, or an error number that is not 0.
pub data KthreadAdd : Type 0 where
  created : ℕ → KthreadAdd
  failed : ℕ → KthreadAdd

-- `mirage_kthread_init`: the state is set whether the thread was made or not.
unfoldable pub kthread_init : KthreadAdd → Kmod → ℕ × Kmod
kthread_init (created t) s = (0, record s { kthread_state = thr_stopped; kthread = some t })
kthread_init (failed e) s = (e, record s { kthread_state = thr_stopped })

-- `mirage_kthread_launch` hands the thread to the scheduler; `exists` tells which threads there are.
unfoldable pub kthread_launch : (ℕ → Bool) → Kmod → Result ℕ
kthread_launch exists s = elim s.kthread [
  | none ↦ fault
  | some t ↦ if exists t then ok t else fault
]

-- A write to, or a read of, `kern.mirage.run`: what the two calls of sysctl(9) return, and whether
-- the request has a new value.
pub record Request : Type 0 where
  pub wired : ℕ
  pub handled : ℕ
  pub newptr : Bool

abbrev pub request_error : Request → ℕ
request_error req = if req.wired == 0 then req.handled else req.wired

-- `sysctl_kern_mirage_run`: its value and, if it launches one, the thread.
unfoldable pub sysctl_run : Request → KthreadAdd → (ℕ → Bool) → Kmod → Result (ℕ × Option ℕ × Kmod)
unfolding kthread_init kthread_launch
sysctl_run req add exists s =
    if not (request_error req == 0) || not req.newptr
    then ok (request_error req, none, s)
    else if is_none s.kthread_state
    then (do let (error, s') = kthread_init add s; t ← kthread_launch exists s'; ok (0, some t, s'))
    else ok (0, none, s)

-- Where `mirage_kthread_body` stands. A thread that has set the state to `THR_NONE` is not counted here
-- any more: it has only its call of `kthread_exit` before it.
pub data Body : Type 0 where
  no_thread launched looping finishing checking exiting : Body

-- What a step of the thread does besides its assignments.
pub data Event : Type 0 where
  silent : Event
  ran_main : Event
  ran_finalize : Event
  woke : Event
  left : Event

-- One step of `mirage_kthread_body`. The flag is what the step asks of OCaml: is the callback
-- registered, and has the main loop completed. The last clause is no step: there is no thread.
unfoldable pub body_step : Bool → Kmod → Body → Kmod × Body × Event
body_step found s launched =
    (record s { kthread_state = thr_running }, if found then looping else finishing, silent)
body_step completed s looping =
    if is_running s.kthread_state
    then (s, if completed then finishing else looping, ran_main)
    else (s, finishing, silent)
body_step found s finishing = (s, checking, if found then ran_finalize else silent)
body_step _ s checking = (s, exiting, if is_stopped s.kthread_state then woke else silent)
body_step _ s exiting = (record s { kthread_state = thr_none }, no_thread, left)
body_step _ s no_thread = (s, no_thread, silent)

-- `mirage_kthread_deinit` up to its `tsleep`: whether it goes to sleep.
unfoldable pub kthread_deinit : Kmod → Kmod × Bool
kthread_deinit s =
    if is_running s.kthread_state
    then (record s { kthread_state = thr_stopped }, true)
    else (s, false)

abbrev pub eexist : ℕ
eexist = 17

abbrev pub eopnotsupp : ℕ
eopnotsupp = 45

pub data ModuleEvent : Type 0 where
  mod_load mod_unload mod_other : ModuleEvent

abbrev pub is_set : Option Hook → Bool
is_set none = false
is_set (some h) = true

-- `event_handler`. Of an unload it is what happens up to the sleep, and with `hooks_off` behind it.
unfoldable pub hooks_on : Kmod → Kmod
hooks_on s = record s { input_hook = some netif_ether; output_hook = some netif_ether }

unfoldable pub hooks_off : Kmod → Kmod
hooks_off s = record s { input_hook = none; output_hook = none }

unfoldable pub event_handler : ModuleEvent → Kmod → ℕ × Kmod
unfolding hooks_on hooks_off kthread_deinit
event_handler mod_load s =
    (if is_set s.input_hook || is_set s.output_hook then eexist else 0, hooks_on s)
event_handler mod_unload s = let (s', sleeps) = kthread_deinit s in (0, hooks_off s')
event_handler mod_other s = (eopnotsupp, s)

-- An `int` of 32 bits, from the exact value of a product.
unfoldable pub wrap32 : ℤ → ℤ
wrap32 (pos n) = let w = n % 2 ^ 32 in if ltb w (2 ^ 31) then pos w else negsuc (2 ^ 32 - w - 1)
wrap32 (negsuc n) = let w = n % 2 ^ 32 in if ltb w (2 ^ 31) then negsuc w else pos (2 ^ 32 - w - 1)

-- The ticks for which `caml_block_kernel` pauses: `(block_timo * hz) / 1000000`, in `int`.
unfoldable pub block_ticks : ℕ → ℤ → ℤ
block_ticks hz v_timeout = quot (wrap32 (wrap32 v_timeout *ℤ pos hz)) 1000000
