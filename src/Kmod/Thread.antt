-- ===== src/Kmod/Thread.antt =====
-- How the thread, the sysctl and an unload work together: the start and the end of a thread.
use mirage_kfreebsd.Base.{
  ℕ, ◌≡◌, ◌≢◌, refl, ok, fault, arith, Bool, true, false, Option, none, some, ◌⊎◌, inl, inr,
  Bool-cases,
}
use mirage_kfreebsd.Kmod.{
  ThreadState, thr_none, thr_running, thr_stopped, Kmod, KthreadAdd, failed, Request, request_error,
  sysctl_run, Body, no_thread, launched, looping, finishing, checking, exiting, body_step,
  hooks_off, is_running,
}
use mirage_kfreebsd.Kmod.System.{
  System, run_body, begin_unload, body_after, Step, body, exit, sysctl, unload, sleep, resume,
  Reach, here, next, start,
}

-- What the state variable and the thread pointer say about where the thread stands.
abbrev pub Agrees : Body → ThreadState → Option ℕ → Type 0
Agrees no_thread st t = st ≡ thr_none
Agrees launched st t = (st ≡ thr_stopped) × (t ≢ none)
Agrees looping st t = (st ≢ thr_none) × (t ≢ none)
Agrees finishing st t = (st ≢ thr_none) × (t ≢ none)
Agrees checking st t = (st ≢ thr_none) × (t ≢ none)
Agrees exiting st t = (st ≢ thr_none) × (t ≢ none)

abbrev pub IsSound : System → Type 0
IsSound s = Agrees s.body s.kmod.kthread_state s.kmod.kthread

-- A run of the handler changes nothing, or makes a thread out of the state without one.
abbrev pub Ran : Kmod → Option ℕ → Kmod → Type 0
Ran s t k =
    ((t ≡ none) × (k ≡ s))
    ⊎ ((s.kthread_state ≡ thr_none)
        × (t ≢ none)
        × (k ≡ record s { kthread_state = thr_stopped; kthread = t }))

pub sysctl_run-Ran :
    (req : Request) (add : KthreadAdd) (exists : ℕ → Bool) (s : Kmod) (e : ℕ) (t : Option ℕ)
    (k : Kmod)
    → sysctl_run req add exists s ≡ ok (e, t, k)
    → Ran s t k
unfolding sysctl_run
sysctl_run-Ran req add exists s e t k h = ground arith

body_step-Agrees :
    (a : Bool) (k : Kmod) (b : Body)
    → Agrees b k.kthread_state k.kthread
    → let (k', b', e) = body_step a k b in Agrees b' k'.kthread_state k'.kthread
unfolding body_step
body_step-Agrees a k no_thread h = h
body_step-Agrees true k launched h = (ground arith, h.1)
body_step-Agrees false k launched h = (ground arith, h.1)
body_step-Agrees true k looping h = elim (Bool-cases (is_running k.kthread_state)) [
  | inl on ↦ rw on h
  | inr off ↦ rw off h
]
body_step-Agrees false k looping h = elim (Bool-cases (is_running k.kthread_state)) [
  | inl on ↦ rw on h
  | inr off ↦ rw off h
]
body_step-Agrees a k finishing h = h
body_step-Agrees a k checking h = h
body_step-Agrees a k exiting h = refl

sysctl-Agrees :
    (b : Body) (s k : Kmod) (t : Option ℕ)
    → Ran s t k
    → Agrees b s.kthread_state s.kthread
    → Agrees (body_after t b) k.kthread_state k.kthread
sysctl-Agrees b s k t (inl (none_made, same)) h = rw (none_made, same) h
sysctl-Agrees b s k none (inr (was, is, e)) h = absurd (is refl)
sysctl-Agrees b s k (some id) (inr (was, is, e)) h = rw e (refl, is)

stop-Agrees :
    (b : Body) (st : ThreadState) (t : Option ℕ)
    → st ≡ thr_running
    → Agrees b st t
    → Agrees b thr_stopped t
stop-Agrees no_thread st t e h = ground arith
stop-Agrees launched st t e h = ground arith
stop-Agrees looping st t e h = (ground arith, h.1)
stop-Agrees finishing st t e h = (ground arith, h.1)
stop-Agrees checking st t e h = (ground arith, h.1)
stop-Agrees exiting st t e h = (ground arith, h.1)

ThreadState-cases : (st : ThreadState) → (st ≡ thr_running) ⊎ (is_running st ≡ false)
ThreadState-cases thr_none = inr refl
ThreadState-cases thr_running = inl refl
ThreadState-cases thr_stopped = inr refl

begin_unload-IsSound : (s : System) → IsSound s → IsSound (begin_unload s)
unfolding begin_unload
begin_unload-IsSound s h = elim (ThreadState-cases s.kmod.kthread_state) [
  | inl on ↦ rw on (stop-Agrees s.body _ _ on h)
  | inr off ↦ rw off h
]

Step-IsSound : {s t : System} → Step s t → IsSound s → IsSound t
unfolding run_body hooks_off
Step-IsSound {s} (body a) h = body_step-Agrees a s.kmod s.body h
Step-IsSound (exit n e) h = h
Step-IsSound {s} (sysctl req add exists e t k run) h =
    sysctl-Agrees s.body s.kmod k t (sysctl_run-Ran req add exists s.kmod e t k run) h
Step-IsSound {s} (unload e) h = begin_unload-IsSound s h
Step-IsSound (sleep e) h = h
Step-IsSound {s} (resume e) h = h

pub Reach-IsSound : {s : System} → Reach start s → IsSound s
Reach-IsSound here = refl
Reach-IsSound (next r st) = Step-IsSound st (Reach-IsSound r)

no_thread_at :
    (b : Body) (st : ThreadState) (t : Option ℕ) → st ≡ thr_none → Agrees b st t → b ≡ no_thread
no_thread_at no_thread st t e h = refl
no_thread_at launched st t e h = ground arith
no_thread_at looping st t e h = absurd (h.0 e)
no_thread_at finishing st t e h = absurd (h.0 e)
no_thread_at checking st t e h = absurd (h.0 e)
no_thread_at exiting st t e h = absurd (h.0 e)

-- Whatever the thread, the sysctl and an unload have done before, the sysctl launches a thread only
-- when every thread before it has made its last assignment, of `THR_NONE`, and has at most its call of
-- `kthread_exit` left: two threads never both run OCaml code or use the module's variables.
pub launch_alone :
    {s : System} (req : Request) (add : KthreadAdd) (exists : ℕ → Bool) (e id : ℕ) (k : Kmod)
    → Reach start s
    → sysctl_run req add exists s.kmod ≡ ok (e, some id, k)
    → s.body ≡ no_thread
launch_alone {s} req add exists e id k r run =
    no_thread_of (sysctl_run-Ran req add exists s.kmod e (some id) k run)
  where
    no_thread_of : Ran s.kmod (some id) k → s.body ≡ no_thread
    no_thread_of (inl (kept, same)) = cc
    no_thread_of (inr (was, is, e)) = no_thread_at s.body _ _ was (Reach-IsSound r)

-- `mirage_kthread_init`'s error is not looked at: when the sysctl would start the thread, a `kthread_add`
-- that fails makes the handler use the pointer as it is, NULL or to a thread that has exited.
pub failed_add-fault :
    (req : Request) (error : ℕ) (exists : ℕ → Bool) (s : Kmod)
    → s.kthread_state ≡ thr_none
    → ((t : ℕ) → s.kthread ≡ some t → exists t ≡ false)
    → request_error req ≡ 0
    → req.newptr ≡ true
    → sysctl_run req (failed error) exists s ≡ fault
unfolding sysctl_run
failed_add-fault req error exists s was stale granted write = at_pointer s.kthread refl
  where
    at_pointer : (p : Option ℕ) → s.kthread ≡ p → sysctl_run req (failed error) exists s ≡ fault
    at_pointer none e = ground (arith, e)
    at_pointer (some t) e = ground (arith, e, stale t e)
