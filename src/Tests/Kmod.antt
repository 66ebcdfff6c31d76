-- ===== src/Tests/Kmod.antt =====
-- packages/mirage-platform/runtime/kernel/kmod.c from the load of the module on.
use mirage_kfreebsd.Base.{ℕ, ◌≡◌, refl, ok, Bool, true, false, some, none, ◌==◌, ◌⊎◌, arith}
use mirage_kfreebsd.Kmod.{
  Kmod, initial, thr_none, thr_stopped, created, Request, sysctl_run, no_thread, launched, looping,
  exiting, foreign, kthread_init, kthread_launch,
}
use mirage_kfreebsd.Kmod.System.{
  System, Reach, idle, sleeping, woken, over, run_body, here, next, sysctl, body, start,
}
use mirage_kfreebsd.Kmod.Thread.{launch_alone}
use mirage_kfreebsd.Kmod.Stop.{Run, nothing, own, any, stop_wakes}
use mirage_kfreebsd.Kmod.Wakeup.{lost_wakeup}

abbrev write : Request
write = record { wired = 0; handled = 0; newptr = true }

abbrev with_thread : Kmod
with_thread = record initial { kthread_state = thr_stopped; kthread = some 7 }

abbrev only_7 : ℕ → Bool
only_7 t = t == 7

launches : sysctl_run write (created 7) only_7 initial ≡ ok (0, some 7, with_thread)
unfolding sysctl_run kthread_init kthread_launch
launches = refl

launch_alone_example : start.body ≡ no_thread
launch_alone_example = launch_alone write (created 7) only_7 0 7 with_thread here launches

abbrev after_sysctl : System
after_sysctl = record start { kmod = with_thread; body = launched }

abbrev asleep_too_late : System
asleep_too_late = record {
  kmod = with_thread;
  body = exiting;
  unload = sleeping;
  calls = 5;
  leaving = 0;
}

lost_wakeup_example : (run_body true asleep_too_late).unload ≡ sleeping
lost_wakeup_example = lost_wakeup refl refl (next here (body true))

abbrev hooked : Kmod
hooked = record initial { input_hook = some (foreign 3) }

-- A thread of which only the call of `kthread_exit` is left, and the next one.
abbrev last_thread_leaves : System
last_thread_leaves = record {
  kmod = record with_thread { kthread_state = thr_none };
  body = no_thread;
  unload = idle;
  calls = 0;
  leaving = 1;
}

leaves :
    run_body true (record last_thread_leaves { kmod = with_thread; body = exiting; leaving = 0 })
    ≡ last_thread_leaves
unfolding run_body
leaves = refl

relaunches :
    sysctl_run write (created 7) only_7 last_thread_leaves.kmod ≡ ok (0, some 7, with_thread)
unfolding sysctl_run kthread_init kthread_launch
relaunches = refl

-- Two kernel threads at the same time.
overlap :
    Reach last_thread_leaves (record last_thread_leaves { kmod = with_thread; body = launched })
overlap = next here (sysctl write (created 7) only_7 0 (some 7) with_thread relaunches)

-- A thread told to stop in its loop; a write to the sysctl comes between its steps.
abbrev stopping : System
stopping = record { kmod = with_thread; body = looping; unload = sleeping; calls = 5; leaving = 0 }

abbrev after_two : System
after_two = run_body true (run_body false stopping)

already : sysctl_run write (created 8) only_7 after_two.kmod ≡ ok (0, none, after_two.kmod)
unfolding sysctl_run run_body
already = refl

stopped : Run stopping 3 (run_body true after_two)
stopped =
    own
      (any (own (own nothing false) true)
        (sysctl write (created 8) only_7 0 none after_two.kmod already))
      true

stop_wakes_example :
    ((run_body true after_two).unload ≡ woken) ⊎ ((run_body true after_two).unload ≡ over)
stop_wakes_example = stop_wakes {s = stopping} refl refl refl stopped (omega arith)
