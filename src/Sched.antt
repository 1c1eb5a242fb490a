-- ===== src/Sched.antt =====
-- zkt/scheduler/sched.c: the run queue, the sleepers and the wait queues, once sched_init has run.
-- A thread is its number, a linked list the list of the numbers on it, and a wait queue is named by
-- a number too. `schedule` gives the state that the thread it switches to finds, after
-- finish_switch.
pub mod Sleepers
pub mod Counts
pub mod Fits
pub mod Switch
pub mod Starting
pub mod Resched
pub mod Threads
pub mod Waiting
pub mod Waking
pub mod Expiry
pub mod Wakeups
pub mod Creation
pub mod Boot
pub mod Session
pub mod Rouse
pub mod Tick
pub mod RoundRobin
mod Tests
use manios.Base.{
  ℕ, zero, suc, ◌+◌, ◌-◌, ◌*◌, ◌/◌, ◌%◌, ◌^◌, Bool, true, false, not, ◌&&◌, ◌||◌, Option, none,
  some, List, [], ◌∷◌, ◌++◌, ltb, leb, ◌==◌, if◌then◌else◌,
}

pub data ThreadState : Type 0 where
  runnable running sleeping blocked dead : ThreadState

pub record Thread : Type 0 where
  pub state : ThreadState
  pub wake_tick : ℕ
  -- The wait queue of a timed wait.
  pub waiting_on : Option ℕ
  pub timed_out : Bool

pub record Sched : Type 0 where
  pub current : ℕ
  pub idle : ℕ
  pub run_queue : List ℕ
  pub sleepers : List ℕ
  pub thread : ℕ → Thread
  pub waitq : ℕ → List ℕ
  pub all_threads : List ℕ
  pub preemptive : Bool
  pub idle_ticks : ℕ
  pub slice_left : ℕ
  pub thread_count : ℕ

-- TIME_SLICE_MS * TIMER_HZ / 1000
abbrev pub time_slice_ticks : ℕ
time_slice_ticks = 20 * 100 / 1000

-- `f` with another value at `i`.
pub updated {ℓ} : {A : Type ℓ} → (ℕ → A) → ℕ → A → ℕ → A
updated f i x j = if j == i then x else f j

abbrev pub set_state : Sched → ℕ → ThreadState → Sched
set_state s t x = record s { thread = updated s.thread t (record (s.thread t) { state = x }) }

abbrev pub run_enqueue : Sched → ℕ → Sched
run_enqueue s t = record s { run_queue = s.run_queue ++ (t ∷ []) }

-- sleep_insert on the list, where `tick` is the wake tick of a thread.
pub insert_sleeper : (ℕ → ℕ) → ℕ → List ℕ → List ℕ
insert_sleeper tick t [] = t ∷ []
insert_sleeper tick t (u ∷ us) =
    let rest = insert_sleeper tick t us in if leb (tick u) (tick t) then u ∷ rest else t ∷ u ∷ us

abbrev pub ticks : Sched → ℕ → ℕ
ticks s t = (s.thread t).wake_tick

pub sleep_insert : Sched → ℕ → Sched
sleep_insert s t = record s { sleepers = insert_sleeper (ticks s) t s.sleepers }

-- The walk of sleep_remove, waitq_remove and all_threads_remove.
pub unlink : ℕ → List ℕ → List ℕ
unlink t [] = []
unlink t (u ∷ us) = let rest = unlink t us in if u == t then us else u ∷ rest

pub sleep_remove : Sched → ℕ → Sched
sleep_remove s t = record s { sleepers = unlink t s.sleepers }

pub waitq_remove : Sched → ℕ → ℕ → Sched
waitq_remove s q t = record s { waitq = updated s.waitq q (unlink t (s.waitq q)) }

pub is_running : ThreadState → Bool
is_running running = true
is_running runnable = false
is_running sleeping = false
is_running blocked = false
is_running dead = false

pub is_dead : ThreadState → Bool
is_dead dead = true
is_dead runnable = false
is_dead sleeping = false
is_dead blocked = false
is_dead running = false

pub finish_switch : ℕ → Sched → Sched
finish_switch prev s =
    if is_dead (s.thread prev).state
    then record s {
      all_threads = unlink prev s.all_threads;
      thread_count = (s.thread_count + 2 ^ 32 - 1) % 2 ^ 32;
    }
    else s

-- A thread that was running goes to the end of the run queue; the idle thread does not.
pub put_back : Sched → Sched
put_back s =
    if is_running (s.thread s.current).state
    then (if s.current == s.idle
        then set_state s s.current runnable
        else run_enqueue (set_state s s.current runnable) s.current)
    else s

-- The rest of schedule, once the next thread is off the run queue.
pub switch_to : Sched → ℕ → Sched
switch_to s next =
    let s' = record (set_state s next running) { slice_left = time_slice_ticks } in
    if next == s.current then s' else finish_switch s.current (record s' { current = next })

-- run_dequeue, or the idle thread where the run queue is empty.
pub run_next : Sched → List ℕ → Sched
run_next s [] = switch_to s s.idle
run_next s (t ∷ ts) = switch_to (record s { run_queue = ts }) t

pub schedule : Sched → Sched
schedule s = let s' = put_back s in run_next s' s'.run_queue

pub thread_yield : Sched → Sched
thread_yield s = schedule s

pub thread_sleep_until : Sched → ℕ → Sched
thread_sleep_until s tick =
    let t = record (s.thread s.current) { state = sleeping; wake_tick = tick } in
    schedule (sleep_insert (record s { thread = updated s.thread s.current t }) s.current)

pub waitq_sleep : Sched → ℕ → Sched
waitq_sleep s q =
    let s' = set_state s s.current blocked in
    schedule (record s' { waitq = updated s.waitq q (s.waitq q ++ (s.current ∷ [])) })

pub waitq_sleep_until : Sched → ℕ → ℕ → Sched
waitq_sleep_until s q tick =
    let t = record (s.thread s.current) {
      waiting_on = some q;
      timed_out = false;
      wake_tick = tick;
    } in
    waitq_sleep (sleep_insert (record s { thread = updated s.thread s.current t }) s.current) q

-- The thread leaves the sleepers, in time for its timed wait.
pub end_timed_wait : Sched → ℕ → Option ℕ → Sched
end_timed_wait s t none = s
end_timed_wait s t (some q) =
    let s' = sleep_remove s t in
    record s' { thread = updated s.thread t (record (s.thread t) { waiting_on = none }) }

-- Once the thread is off its wait queue.
pub wake : Sched → ℕ → Sched
wake s t =
    let s' = end_timed_wait s t (s.thread t).waiting_on in run_enqueue (set_state s' t runnable) t

pub waitq_pop : Sched → ℕ → List ℕ → Sched
waitq_pop s q [] = s
waitq_pop s q (t ∷ ts) = wake (record s { waitq = updated s.waitq q ts }) t

-- `while (waitq_pop(wq))`
pub pop_all : Sched → ℕ → List ℕ → Sched
pop_all s q [] = s
pop_all s q (t ∷ ts) = pop_all (wake (record s { waitq = updated s.waitq q ts }) t) q ts

pub is_nil : List ℕ → Bool
is_nil [] = true
is_nil (t ∷ ts) = false

pub resched_if_idle : Sched → Sched
resched_if_idle s = if s.current == s.idle && not (is_nil s.run_queue) then schedule s else s

pub waitq_wake_one : Sched → ℕ → Sched
waitq_wake_one s q = resched_if_idle (waitq_pop s q (s.waitq q))

pub waitq_wake_all : Sched → ℕ → Sched
waitq_wake_all s q = resched_if_idle (pop_all s q (s.waitq q))

-- A timed wait that ran out.
pub time_out : Sched → ℕ → Option ℕ → Sched
time_out s t none = s
time_out s t (some q) =
    let s' = waitq_remove s q t in
    record s' {
      thread = updated s.thread t (record (s.thread t) { waiting_on = none; timed_out = true });
    }

pub wake_sleeper : Sched → ℕ → Sched
wake_sleeper s t =
    let s' = time_out s t (s.thread t).waiting_on in run_enqueue (set_state s' t runnable) t

-- `while (sleepers && sleepers->wake_tick <= now)`
pub wake_due : ℕ → List ℕ → Sched → Sched
wake_due now [] s = s
wake_due now (t ∷ ts) s = elim (leb (ticks s t) now) [
  | true ↦ wake_due now ts (wake_sleeper (record s { sleepers = ts }) t)
  | false ↦ s
]

-- The time of a process that is interrupted is counted by process.c.
pub count_idle : Sched → Sched
count_idle s =
    if s.current == s.idle then record s { idle_ticks = (s.idle_ticks + 1) % 2 ^ 64 } else s

-- The end of sched_tick: the idle thread gives way, or a time slice ends.
pub end_tick : Sched → Sched
end_tick s =
    if s.current == s.idle
    then (if is_nil s.run_queue then s else schedule s)
    else if not s.preemptive
    then s
    else let s' = record s { slice_left = (s.slice_left + 2 ^ 32 - 1) % 2 ^ 32 } in
      if s'.slice_left == 0 then schedule s' else s'

pub sched_tick : ℕ → Sched → Sched
sched_tick now s = let s' = count_idle s in end_tick (wake_due now s'.sleepers s')
