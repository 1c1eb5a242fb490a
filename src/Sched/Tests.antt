-- ===== src/Sched/Tests.antt =====
-- The scheduler at four threads: 1 runs, 2 is ready, 3 and 4 sleep until ticks 5 and 9, and 0
-- idles.
use manios.Base.{if◌then◌else◌, Bool, ◌==◌, ℕ, ◌≡◌, refl, true, false, none, some, [], ◌∷◌, arith}
use manios.Sched.{
  Sched, Thread, runnable, running, sleeping, insert_sleeper, schedule, sched_tick, end_tick,
  wake_due, wake_sleeper, time_out, count_idle, updated, time_slice_ticks, waitq_sleep_until,
  waitq_sleep, put_back, run_next, switch_to, finish_switch, is_dead, is_running, sleep_insert,
}
use manios.Sched.RoundRobin.{Ready, yields, yields-current}
use manios.Sched.Threads.{add_thread, thread_alloc, start_thread, thread_exit, set_idle, sched_init}
use manios.Sched.Boot.{boot}
use manios.Sched.Fits.{Coherent}
use manios.Sched.Session.{
  Reach, starts, calls, allocates, starts_thread, timer, waits_until, exits, Reach-Coherent,
}

abbrev thread_at : ℕ → Thread
thread_at t =
    if t == 1
    then record { state = running; wake_tick = 0; waiting_on = none; timed_out = false }
    else if t == 3
    then record { state = sleeping; wake_tick = 5; waiting_on = none; timed_out = false }
    else if t == 4
    then record { state = sleeping; wake_tick = 9; waiting_on = none; timed_out = false }
    else record { state = runnable; wake_tick = 0; waiting_on = none; timed_out = false }

abbrev four : Sched
four = record {
  current = 1;
  idle = 0;
  run_queue = 2 ∷ [];
  sleepers = 3 ∷ 4 ∷ [];
  thread = thread_at;
  waitq = λ q. [];
  all_threads = 4 ∷ 3 ∷ 2 ∷ 0 ∷ 1 ∷ [];
  preemptive = true;
  idle_ticks = 0;
  slice_left = 2;
  thread_count = 5;
}

tick_runs : (sched_tick 6 four).run_queue ≡ 2 ∷ 3 ∷ []
unfolding sched_tick count_idle end_tick wake_due wake_sleeper time_out updated
tick_runs = refl

four-Ready : Ready four
four-Ready = record { runs = refl; busy = omega arith; waiting = (omega arith, tt) }

yields-current_example : (yields 1 four).current ≡ 2
yields-current_example = yields-current 0 2 four four-Ready refl

-- Thread 1 starts 3, which it then waits for on the wait queue 7, for 40 ticks at most.
abbrev started : Sched
started = record (add_thread 2 runnable (add_thread 1 running boot)) {
  idle = 2;
  slice_left = time_slice_ticks;
  current = 1;
}

-- The timer ticks while 3 is made and not yet queued.
abbrev ticked : Sched
ticked = sched_tick 0 (thread_alloc (some 3) true started).1

abbrev created : Sched
created = (start_thread (some 3, ticked)).1

abbrev waited : Sched
waited = waitq_sleep_until created 7 40

abbrev nobody : ℕ → Bool
nobody t = false

abbrev only_3 : ℕ → Bool
only_3 = updated nobody 3 true

waited-Reach : Reach (updated only_3 3 false) waited
unfolding sched_init thread_alloc set_idle start_thread add_thread updated sched_tick count_idle
    end_tick wake_due
waited-Reach =
    calls (updated only_3 3 false) (updated only_3 3 false) created waited
      (calls only_3 (updated only_3 3 false) ticked created
        (calls only_3 only_3 (thread_alloc (some 3) true started).1 ticked
          (calls nobody only_3 started (thread_alloc (some 3) true started).1
            (starts 1 2 started (omega arith) refl) (allocates started (some 3) true refl))
          (timer (thread_alloc (some 3) true started).1 0))
        (starts_thread ticked 3 refl))
      (waits_until created 7 40 (omega arith))

Reach-Coherent_example : Coherent (updated only_3 3 false) (thread_exit waited)
unfolding waitq_sleep_until waitq_sleep start_thread thread_alloc add_thread schedule put_back
    run_next switch_to finish_switch is_dead is_running updated sleep_insert insert_sleeper
    sched_tick count_idle end_tick wake_due
Reach-Coherent_example = Reach-Coherent (
    calls (updated only_3 3 false) (updated only_3 3 false) waited (thread_exit waited) waited-Reach
      (exits waited (omega arith)))
