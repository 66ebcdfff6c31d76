-- ===== src/Kmod/System.antt =====
-- The interleavings of the kernel thread, of the sysctl handler and of the unloading of the module.
use mirage_kfreebsd.Base.{ℕ, suc, ◌≡◌, ok, Bool, Option, none, some, if◌then◌else◌}
use mirage_kfreebsd.Kmod.{
  Kmod, initial, KthreadAdd, Request, sysctl_run, Body, no_thread, launched, Event, woke, ran_main,
  left, body_step, kthread_deinit, hooks_off,
}

-- Where `MOD_UNLOAD` stands: it has marked the state and not yet gone to sleep, it sleeps in
-- `tsleep`, it has been woken, or it is over.
pub data Unload : Type 0 where
  idle marked sleeping woken over : Unload

-- `calls` counts the calls of `OS.Main.run` that threads have made, and `leaving` the threads that have
-- set `THR_NONE` and not yet called `kthread_exit`.
pub record System : Type 0 where
  pub kmod : Kmod
  pub body : Body
  pub unload : Unload
  pub calls : ℕ
  pub leaving : ℕ

-- A wakeup is heard only by one who sleeps.
abbrev pub hear : Event → Unload → Unload
hear woke sleeping = woken
hear _ u = u

abbrev pub tally : Event → ℕ → ℕ
tally ran_main n = suc n
tally _ n = n

abbrev pub depart : Event → ℕ → ℕ
depart left n = suc n
depart _ n = n

unfoldable pub run_body : Bool → System → System
unfolding body_step
run_body answer s =
    let (k, b, e) = body_step answer s.kmod s.body in
    record {
      kmod = k;
      body = b;
      unload = hear e s.unload;
      calls = tally e s.calls;
      leaving = depart e s.leaving;
    }

-- A thread that the sysctl has launched is at the start of its body.
abbrev pub body_after : Option ℕ → Body → Body
body_after none b = b
body_after (some t) b = launched

unfoldable pub begin_unload : System → System
unfolding kthread_deinit hooks_off
begin_unload s =
    let (k, sleeps) = kthread_deinit s.kmod in
    if sleeps
    then record s { kmod = k; unload = marked }
    else record s { kmod = hooks_off k; unload = over }

pub data Step (s : System) : System → Type 0 where
  body : (answer : Bool) → Step s (run_body answer s)
  exit : (n : ℕ) → s.leaving ≡ suc n → Step s (record s { leaving = n })
  sysctl :
      (req : Request) (add : KthreadAdd) (exists : ℕ → Bool) (e : ℕ) (t : Option ℕ) (k : Kmod)
      → sysctl_run req add exists s.kmod ≡ ok (e, t, k)
      → Step s (record s { kmod = k; body = body_after t s.body })
  unload : s.unload ≡ idle → Step s (begin_unload s)
  sleep : s.unload ≡ marked → Step s (record s { unload = sleeping })
  resume : s.unload ≡ woken → Step s (record s { kmod = hooks_off s.kmod; unload = over })

pub data Reach (s : System) : System → Type 0 where
  here : Reach s s
  next : {t u : System} → Reach s t → Step t u → Reach s u

abbrev pub start : System
start = record { kmod = initial; body = no_thread; unload = idle; calls = 0; leaving = 0 }
