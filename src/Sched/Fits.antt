-- ===== src/Sched/Fits.antt =====
-- The lists that a thread stands on are those that its state says.
use manios.Base.{
  ℕ, ◌%◌, ◌^◌, ◌≡◌, ◌∙◌, Bool, true, false, Option, none, some, ◌==◌, ◌||◌, if◌then◌else◌, length,
}
use manios.Sched.{Sched, Thread, ThreadState, runnable, running, sleeping, blocked, dead}
use manios.Sched.Counts.{count}

-- How often a thread in this state stands on the run queue, the sleepers, its wait queue and the
-- list of all threads.
unfoldable pub on_run_queue : ThreadState → ℕ
on_run_queue runnable = 1
on_run_queue running = 0
on_run_queue sleeping = 0
on_run_queue blocked = 0
on_run_queue dead = 0

unfoldable pub on_sleepers : ThreadState → Option ℕ → ℕ
on_sleepers runnable w = 0
on_sleepers running w = 0
on_sleepers sleeping w = 1
on_sleepers blocked none = 0
on_sleepers blocked (some q) = 1
on_sleepers dead w = 0

unfoldable pub on_waitq : ThreadState → ℕ
on_waitq runnable = 0
on_waitq running = 0
on_waitq sleeping = 0
on_waitq blocked = 1
on_waitq dead = 0

unfoldable pub listed : ThreadState → ℕ
listed runnable = 1
listed running = 1
listed sleeping = 1
listed blocked = 1
listed dead = 0

unfoldable pub can_run : ThreadState → Bool
can_run runnable = true
can_run running = true
can_run sleeping = false
can_run blocked = false
can_run dead = false

-- The thread `x`, which stands so often on the run queue, the sleepers and the wait queues.
pub record Fits (off : Bool) (x : Thread) (run sleep : ℕ) (wait : ℕ → ℕ) : Type 0 where
  -- A thread that is off the run queue, as the idle thread is, never waits.
  pub idle_runs : off ≡ true → can_run x.state ≡ true
  pub runs : run ≡ (if off then 0 else on_run_queue x.state)
  pub sleeps : sleep ≡ on_sleepers x.state x.waiting_on
  -- The one wait queue of a blocked thread.
  pub queue : ℕ
  pub waits : (q : ℕ) → wait q ≡ (if q == queue then on_waitq x.state else 0)
  -- A timed wait is for that queue.
  pub timed : (q : ℕ) → x.waiting_on ≡ some q → (q ≡ queue) × (x.state ≡ blocked)

abbrev pub waiting : Sched → ℕ → ℕ → ℕ
waiting s t q = count t (s.waitq q)

-- The idle thread and those that are made but not started are never queued.
abbrev pub FitsIn : (ℕ → Bool) → Sched → ℕ → Type 0
FitsIn made s t =
    Fits (made t || t == s.idle) (s.thread t) (count t s.run_queue) (count t s.sleepers)
      (waiting s t)

-- A thread that thread_alloc has made, and that its maker has not put on the run queue yet.
abbrev pub IsPending : Sched → ℕ → Type 0
IsPending s t = ((t == s.idle) ≡ false) × ((s.thread t).state ≡ runnable)

-- Nothing that Fits reads has changed.
pub Fits-same :
    {i : Bool} {x x' : Thread} {run run' sleep sleep' : ℕ} {wait wait' : ℕ → ℕ}
    → x' ≡ x
    → run' ≡ run
    → sleep' ≡ sleep
    → ((q : ℕ) → wait' q ≡ wait q)
    → Fits i x run sleep wait
    → Fits i x' run' sleep' wait'
Fits-same {i} {x} {x'} ex er es ew f = record {
  idle_runs = rw ex f.idle_runs;
  runs = er ∙ rw ex f.runs;
  sleeps = es ∙ rw ex f.sleeps;
  queue = f.queue;
  waits = λ q. ew q ∙ rw ex (f.waits q);
  timed = rw ex f.timed;
}

-- Between two calls of the scheduler: one thread runs, every thread stands on the lists that its
-- state says, but for those of `made`, which are on no queue, and all_threads has each thread that is not dead once.
pub record Coherent (made : ℕ → Bool) (s : Sched) : Type 0 where
  pub fits : (t : ℕ) → FitsIn made s t
  pub active : (s.thread s.current).state ≡ running
  pub only : (t : ℕ) → (s.thread t).state ≡ running → t ≡ s.current
  pub all : (t : ℕ) → count t s.all_threads ≡ listed (s.thread t).state
  pub counted : s.thread_count ≡ length s.all_threads % 2 ^ 32
  pub pending : (t : ℕ) → made t ≡ true → IsPending s t
