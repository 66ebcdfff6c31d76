-- ===== src/Kmod/Wakeup.antt =====
-- The sleep of `mirage_kthread_deinit` and the wakeup of `mirage_kthread_body`.
use mirage_kfreebsd.Base.{ℕ, ◌≡◌, refl, arith, Bool, true, false, Option, none, some, inl, inr}
use mirage_kfreebsd.Kmod.{
  ThreadState, thr_running, Kmod, Body, no_thread, launched, looping, finishing, checking, exiting,
  body_step,
}
use mirage_kfreebsd.Kmod.System.{
  Unload, sleeping, System, hear, body_after, run_body, Step, body, exit, sysctl, unload, sleep,
  resume, Reach, here, next,
}
use mirage_kfreebsd.Kmod.Thread.{Ran, sysctl_run-Ran}

-- The thread has passed its test of the state, or will start again as `THR_RUNNING`: it calls
-- `wakeup` in none of these.
abbrev IsDeaf : Body → ThreadState → Type 0
IsDeaf no_thread st = Unit
IsDeaf launched st = Unit
IsDeaf exiting st = Unit
IsDeaf looping st = st ≡ thr_running
IsDeaf finishing st = st ≡ thr_running
IsDeaf checking st = st ≡ thr_running

abbrev IsLost : System → Type 0
IsLost s = IsDeaf s.body s.kmod.kthread_state × (s.unload ≡ sleeping)

body_step-IsDeaf :
    (a : Bool) (k : Kmod) (b : Body) (u : Unload)
    → IsDeaf b k.kthread_state
    → u ≡ sleeping
    → let (k', b', e) = body_step a k b in IsDeaf b' k'.kthread_state × (hear e u ≡ sleeping)
unfolding body_step
body_step-IsDeaf a k no_thread u h e = (h, e)
body_step-IsDeaf true k launched u h e = (refl, e)
body_step-IsDeaf false k launched u h e = (refl, e)
body_step-IsDeaf true k looping u h e = rw h (refl, e)
body_step-IsDeaf false k looping u h e = rw h (refl, e)
body_step-IsDeaf true k finishing u h e = (h, e)
body_step-IsDeaf false k finishing u h e = (h, e)
body_step-IsDeaf a k checking u h e = rw h (tt, e)
body_step-IsDeaf a k exiting u h e = (tt, e)

sysctl-IsDeaf :
    (b : Body) (s k : Kmod) (t : Option ℕ)
    → Ran s t k
    → IsDeaf b s.kthread_state
    → IsDeaf (body_after t b) k.kthread_state
sysctl-IsDeaf b s k t (inl (none_made, same)) h = rw (none_made, same) h
sysctl-IsDeaf b s k none (inr (was, is, e)) h = absurd (is refl)
sysctl-IsDeaf b s k (some id) (inr (was, is, e)) h = tt

Step-IsLost : {s t : System} → Step s t → IsLost s → IsLost t
unfolding run_body
Step-IsLost {s} (body a) h = body_step-IsDeaf a s.kmod s.body s.unload h.0 h.1
Step-IsLost (exit n e) h = h
Step-IsLost {s} (sysctl req add exists e t k run) h =
    (sysctl-IsDeaf s.body s.kmod k t (sysctl_run-Ran req add exists s.kmod e t k run) h.0, h.1)
Step-IsLost (unload e) h = ground arith
Step-IsLost (sleep e) h = ground arith
Step-IsLost (resume e) h = ground arith

Reach-IsLost : {s t : System} → Reach s t → IsLost s → IsLost t
Reach-IsLost here h = h
Reach-IsLost (next r st) h = Step-IsLost st (Reach-IsLost r h)

-- If `mirage_kthread_deinit` goes to sleep when the thread has already tested the state on its way
-- out, no later step of the thread, of the sysctl or of a thread started anew ever wakes it.
pub lost_wakeup :
    {s t : System} → s.body ≡ exiting → s.unload ≡ sleeping → Reach s t → t.unload ≡ sleeping
lost_wakeup {s} at asleep r = (Reach-IsLost r (rw at (tt, asleep))).1
