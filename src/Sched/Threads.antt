-- ===== src/Sched/Threads.antt =====
-- Creation and exit of threads in zkt/scheduler/sched.c. What kmalloc gives for a new `struct
-- thread` is its number, and whether kstack_alloc gives a stack is an argument. A number that
-- stands for no thread is in the state `dead`.
use manios.Base.{ℕ, zero, suc, ◌+◌, ◌%◌, ◌^◌, Bool, true, false, Option, none, some, List, [], ◌∷◌}
use manios.Sched.{
  ThreadState, runnable, running, dead, Thread, Sched, time_slice_ticks, updated, set_state,
  run_enqueue, schedule,
}

-- thread_alloc, once both have given memory.
unfoldable pub add_thread : ℕ → ThreadState → Sched → Sched
unfolding updated
add_thread t x s = record s {
  thread =
      updated s.thread t (record (s.thread t) { state = x; waiting_on = none; timed_out = false });
  thread_count = (s.thread_count + 1) % 2 ^ 32;
  all_threads = t ∷ s.all_threads;
}

unfoldable pub thread_alloc : Option ℕ → Bool → Sched → Option ℕ × Sched
unfolding add_thread
thread_alloc none stack s = (none, s)
thread_alloc (some t) false s = (none, s)
thread_alloc (some t) true s = (some t, add_thread t runnable s)

-- The rest of thread_create_in, with interrupts off again once thread_alloc has run.
unfoldable pub start_thread : Option ℕ × Sched → Option ℕ × Sched
start_thread (none, s) = (none, s)
start_thread (some t, s) = (some t, run_enqueue s t)

-- Up to the switch to the next thread, which frees this one.
unfoldable pub thread_exit : Sched → Sched
thread_exit s = schedule (set_state s s.current dead)

-- The end of sched_init; none for the panic.
unfoldable pub set_idle : ℕ → Option ℕ × Sched → Option Sched
set_idle main (none, s) = none
set_idle main (some t, s) =
    some (record s { idle = t; slice_left = time_slice_ticks; current = main })

-- The main thread and the idle thread, each with what kmalloc gives for it.
unfoldable pub sched_init : Option ℕ → Option ℕ → Bool → Sched → Option Sched
unfolding add_thread thread_alloc set_idle
sched_init none idle stack s = none
sched_init (some main) idle stack s =
    set_idle main (thread_alloc idle stack (add_thread main running s))

unfoldable pub sched_enable_preemption : Sched → Sched
sched_enable_preemption s = record s { preemptive = true }

-- The threads and their states, `max` at most.
sched_snapshot : (ℕ → Thread) → List ℕ → ℕ → List (ℕ × ThreadState)
sched_snapshot thread [] max = []
sched_snapshot thread (t ∷ ts) zero = []
sched_snapshot thread (t ∷ ts) (suc max) = (t, (thread t).state) ∷ sched_snapshot thread ts max
