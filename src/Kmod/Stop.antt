-- ===== src/Kmod/Stop.antt =====
-- The way of `mirage_kthread_body` out of its loop, while other steps come in between.
use mirage_kfreebsd.Base.{ℕ, suc, ◌≡◌, ◌≤◌, refl, ap, ◌∙◌, arith, Bool, true, false, ◌⊎◌, inl, inr}
use mirage_kfreebsd.Kmod.{
  thr_stopped, Kmod, Body, no_thread, launched, looping, finishing, checking, exiting, Event,
  silent, ran_main, ran_finalize, woke, left, is_running, body_step,
}
use mirage_kfreebsd.Kmod.System.{
  Unload, idle, marked, sleeping, woken, over, System, hear, run_body, body_after, Step, body, exit,
  sysctl, unload, sleep, resume,
}
use mirage_kfreebsd.Kmod.Thread.{Ran, sysctl_run-Ran}

-- Steps in any order, of which at least `n` are the thread's own.
pub data Run (s : System) : ℕ → System → Type 0 where
  nothing : Run s 0 s
  own : {n : ℕ} {t : System} → Run s n t → (answer : Bool) → Run s (suc n) (run_body answer t)
  any : {n : ℕ} {t u : System} → Run s n t → Step t u → Run s n u

-- How far a thread that is to stop can be behind after `n` of its steps.
abbrev Behind : Body → ℕ → Type 0
Behind looping n = n ≤ 0
Behind finishing n = n ≤ 1
Behind checking n = n ≤ 2
Behind _ n = ⊥

abbrev IsUp : Unload → Type 0
IsUp u = (u ≡ woken) ⊎ (u ≡ over)

abbrev IsStopping : ℕ → System → Type 0
IsStopping n s =
    IsUp s.unload ⊎ ((s.unload ≡ sleeping) × (s.kmod.kthread_state ≡ thr_stopped) × Behind s.body n)

hear_woken : (e : Event) → hear e woken ≡ woken
hear_woken silent = refl
hear_woken ran_main = refl
hear_woken ran_finalize = refl
hear_woken woke = refl
hear_woken left = refl

hear_over : (e : Event) → hear e over ≡ over
hear_over silent = refl
hear_over ran_main = refl
hear_over ran_finalize = refl
hear_over woke = refl
hear_over left = refl

hear-IsUp : (e : Event) (u : Unload) → IsUp u → IsUp (hear e u)
hear-IsUp e u (inl at) = inl (ap (hear e) at ∙ hear_woken e)
hear-IsUp e u (inr at) = inr (ap (hear e) at ∙ hear_over e)

-- An own step of a thread that is to stop brings it on.
body_step-IsStopping :
    (a : Bool) (k : Kmod) (b : Body) (u : Unload) (n : ℕ)
    → u ≡ sleeping
    → k.kthread_state ≡ thr_stopped
    → Behind b n
    → let (k', b', e) = body_step a k b in
      IsUp (hear e u)
      ⊎ ((hear e u ≡ sleeping) × (k'.kthread_state ≡ thr_stopped) × Behind b' (suc n))
unfolding body_step
body_step-IsStopping a k no_thread u n e st behind = absurd behind
body_step-IsStopping a k launched u n e st behind = absurd behind
body_step-IsStopping true k looping u n e st behind =
    let off : is_running k.kthread_state ≡ false = ap is_running st in
    rw off (inr (e, st, omega arith))
body_step-IsStopping false k looping u n e st behind =
    let off : is_running k.kthread_state ≡ false = ap is_running st in
    rw off (inr (e, st, omega arith))
body_step-IsStopping true k finishing u n e st behind = inr (e, st, omega arith)
body_step-IsStopping false k finishing u n e st behind = inr (e, st, omega arith)
body_step-IsStopping a k checking u n e st behind = rw st (inl (inl (ap (hear woke) e)))
body_step-IsStopping a k exiting u n e st behind = absurd behind

own-IsStopping :
    (a : Bool) (s : System) (n : ℕ) → IsStopping n s → IsStopping (suc n) (run_body a s)
unfolding run_body
own-IsStopping a s n (inl up) =
    let (k, b, e) = body_step a s.kmod s.body in inl (hear-IsUp e s.unload up)
own-IsStopping a s n (inr (asleep, told, behind)) =
    body_step-IsStopping a s.kmod s.body s.unload n asleep told behind

Behind-less : (b : Body) (n : ℕ) → Behind b (suc n) → Behind b n
Behind-less no_thread n h = h
Behind-less launched n h = h
Behind-less looping n h = omega arith
Behind-less finishing n h = omega arith
Behind-less checking n h = omega arith
Behind-less exiting n h = h

not_idle : (s : System) (n : ℕ) → IsStopping n s → s.unload ≡ idle → ⊥
not_idle s n (inl (inl up)) e = ground arith
not_idle s n (inl (inr up)) e = ground arith
not_idle s n (inr (asleep, told, behind)) e = ground arith

not_marked : (s : System) (n : ℕ) → IsStopping n s → s.unload ≡ marked → ⊥
not_marked s n (inl (inl up)) e = ground arith
not_marked s n (inl (inr up)) e = ground arith
not_marked s n (inr (asleep, told, behind)) e = ground arith

Step-IsStopping : {s t : System} (n : ℕ) → Step s t → IsStopping n s → IsStopping n t
Step-IsStopping {s} n (body a) h = less (own-IsStopping a s n h)
  where
    less : IsStopping (suc n) (run_body a s) → IsStopping n (run_body a s)
    less (inl up) = inl up
    less (inr (asleep, told, behind)) = inr (asleep, told, Behind-less (run_body a s).body n behind)
Step-IsStopping n (exit m e) h = h
Step-IsStopping n (sysctl req add exists e t k run) (inl up) = inl up
Step-IsStopping {s} n (sysctl req add exists e t k run) (inr (asleep, told, behind)) =
    by_run (sysctl_run-Ran req add exists s.kmod e t k run)
  where
    by_run : Ran s.kmod t k → IsStopping n (record s { kmod = k; body = body_after t s.body })
    by_run (inl (none_made, same)) = rw (none_made, same) (inr (asleep, told, behind))
    by_run (inr (was, is, made)) = absurd (ground arith)
Step-IsStopping {s} n (unload e) h = absurd (not_idle s n h e)
Step-IsStopping {s} n (sleep e) h = absurd (not_marked s n h e)
Step-IsStopping n (resume e) h = inl (inr refl)

Run-IsStopping : {s t : System} {n : ℕ} → Run s n t → IsStopping 0 s → IsStopping n t
Run-IsStopping nothing h = h
Run-IsStopping {n = suc n} (own r answer) h = own-IsStopping answer _ n (Run-IsStopping r h)
Run-IsStopping {n = n} (any r st) h = Step-IsStopping n st (Run-IsStopping r h)

-- When `mirage_kthread_deinit` sleeps and the thread stands in its loop with the state `THR_STOPPED`, then
-- after any steps of the thread, of the sysctl and of the unload, three or more of them the thread's own,
-- the sleeper has been woken, whatever OCaml answers.
pub stop_wakes :
    {s t : System} {n : ℕ}
    → s.body ≡ looping
    → s.kmod.kthread_state ≡ thr_stopped
    → s.unload ≡ sleeping
    → Run s n t
    → 3 ≤ n
    → (t.unload ≡ woken) ⊎ (t.unload ≡ over)
stop_wakes {s} {t} {n} at told asleep r enough =
    conclude t.body (Run-IsStopping r (inr (asleep, told, rw at (omega arith))))
  where
    conclude :
        (b : Body)
        → (IsUp t.unload
            ⊎ ((t.unload ≡ sleeping) × (t.kmod.kthread_state ≡ thr_stopped) × Behind b n))
        → IsUp t.unload
    conclude b (inl up) = up
    conclude looping (inr (a, st, behind)) = absurd (omega arith)
    conclude finishing (inr (a, st, behind)) = absurd (omega arith)
    conclude checking (inr (a, st, behind)) = absurd (omega arith)
    conclude no_thread (inr (a, st, behind)) = absurd behind
    conclude launched (inr (a, st, behind)) = absurd behind
    conclude exiting (inr (a, st, behind)) = absurd behind
