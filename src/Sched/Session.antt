-- ===== src/Sched/Session.antt =====
-- The scheduler from sched_init on, through any calls of its threads and any timer ticks.
use manios.Base.{ℕ, ◌≡◌, ◌≢◌, Bool, true, false, Option, some}
use manios.Sched.{
  Sched, thread_yield, thread_sleep_until, waitq_sleep, waitq_sleep_until, waitq_wake_one,
  waitq_wake_all, sched_tick, updated,
}
use manios.Sched.Fits.{Coherent}
use manios.Sched.Resched.{thread_yield-Coherent}
use manios.Sched.Waiting.{
  thread_exit-Coherent, thread_sleep_until-Coherent, waitq_sleep-Coherent,
  waitq_sleep_until-Coherent,
}
use manios.Sched.Wakeups.{waitq_wake_one-Coherent, waitq_wake_all-Coherent, sched_tick-Coherent}
use manios.Sched.Creation.{Fresh, and_made, thread_alloc-Coherent, start_thread-Coherent}
use manios.Sched.Boot.{boot, sched_init-Coherent}
use manios.Sched.Threads.{
  thread_alloc, start_thread, thread_exit, sched_init, sched_enable_preemption,
}

-- A call of the thread that runs, or a timer tick, where `made` are the threads that thread_alloc
-- has made and that are not on the run queue yet. thread_create is two steps, since interrupts are
-- on between them: any calls and ticks may come there. The idle thread, which is sched.c's own,
-- neither waits nor ends.
pub data Call (made : ℕ → Bool) : Sched → (ℕ → Bool) → Sched → Type 0 where
  yields : (s : Sched) → Call made s made (thread_yield s)
  sleeps :
      (s : Sched) (tick : ℕ) → s.current ≢ s.idle → Call made s made (thread_sleep_until s tick)
  waits : (s : Sched) (q : ℕ) → s.current ≢ s.idle → Call made s made (waitq_sleep s q)
  waits_until :
      (s : Sched) (q tick : ℕ) → s.current ≢ s.idle → Call made s made (waitq_sleep_until s q tick)
  wakes_one : (s : Sched) (q : ℕ) → Call made s made (waitq_wake_one s q)
  wakes_all : (s : Sched) (q : ℕ) → Call made s made (waitq_wake_all s q)
  timer : (s : Sched) (now : ℕ) → Call made s made (sched_tick now s)
  exits : (s : Sched) → s.current ≢ s.idle → Call made s made (thread_exit s)
  preempts : (s : Sched) → Call made s made (sched_enable_preemption s)
  allocates :
      (s : Sched) (memory : Option ℕ) (stack : Bool)
      → Fresh s memory
      → Call made s (and_made made (thread_alloc memory stack s).0) (thread_alloc memory stack s).1
  starts_thread :
      (s : Sched) (t : ℕ)
      → made t ≡ true
      → Call made s (updated made t false) (start_thread (some t, s)).1

pub data Reach : (ℕ → Bool) → Sched → Type 0 where
  starts :
      (main idle : ℕ) (s : Sched)
      → main ≢ idle
      → sched_init (some main) (some idle) true boot ≡ some s
      → Reach (λ t. false) s
  calls :
      (made made' : ℕ → Bool) (s s' : Sched) → Reach made s → Call made s made' s' → Reach made' s'

Call-Coherent :
    {made : ℕ → Bool} {s : Sched} {made' : ℕ → Bool} {s' : Sched}
    → Call made s made' s'
    → Coherent made s
    → Coherent made' s'
unfolding sched_enable_preemption
Call-Coherent (yields s) h = thread_yield-Coherent s h
Call-Coherent (sleeps s tick busy) h = thread_sleep_until-Coherent s h busy tick
Call-Coherent (waits s q busy) h = waitq_sleep-Coherent s h busy q
Call-Coherent (waits_until s q tick busy) h = waitq_sleep_until-Coherent s h busy q tick
Call-Coherent (wakes_one s q) h = waitq_wake_one-Coherent s q h
Call-Coherent (wakes_all s q) h = waitq_wake_all-Coherent s q h
Call-Coherent (timer s now) h = sched_tick-Coherent now s h
Call-Coherent (exits s busy) h = thread_exit-Coherent s h busy
Call-Coherent (preempts s) h = record {
  fits = h.fits;
  active = h.active;
  only = h.only;
  all = h.all;
  counted = h.counted;
  pending = h.pending;
}
Call-Coherent (allocates s memory stack fresh) h = thread_alloc-Coherent s memory stack fresh h
Call-Coherent (starts_thread s t m) h = start_thread-Coherent s t m h

-- After sched_init with two numbers for the first two threads, and any calls and timer ticks of
-- Call: the current thread is the one that runs, and every thread is on the run queue, the
-- sleepers, the wait queues and the list of all threads exactly as often as its state says, but
-- that a thread which thread_create has allocated and not yet queued is runnable and on no queue;
-- thread_count is the length of the list of all threads modulo 2 ^ 32. In Call the idle thread
-- neither waits nor ends, a thread that is allocated has a number that is not in use, and a tick
-- may come between the two halves of thread_create.
pub Reach-Coherent : {made : ℕ → Bool} {s : Sched} → Reach made s → Coherent made s
Reach-Coherent (starts main idle s n e) = sched_init-Coherent main idle s n e
Reach-Coherent (calls made made' s s' r c) = Call-Coherent c (Reach-Coherent r)
