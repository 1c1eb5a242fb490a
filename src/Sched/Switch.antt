-- ===== src/Sched/Switch.antt =====
-- schedule leaves one thread running and every thread on the lists that its state says.
use manios.Base.{
  ℕ, ◌+◌, ◌%◌, ◌^◌, ◌≡◌, ◌≢◌, refl, sym, ap, ◌∙◌, inl, inr, Bool, true, false, List, [], ◌∷◌, ◌++◌,
  arith, ◌==◌, if◌then◌else◌, Bool-cases, ◌||◌, length, true-ne-false,
}
use manios.Sched.{
  Sched, Thread, ThreadState, runnable, running, sleeping, blocked, dead, is_running, is_dead,
  updated, set_state, put_back,
}
use manios.Sched.Counts.{count, count-append}
use manios.Sched.Fits.{
  on_run_queue, on_sleepers, on_waitq, listed, can_run, Fits, FitsIn, IsPending, waiting, Fits-same,
}

pub updated_same_key : {A : Type 0} (f : ℕ → A) (t : ℕ) (x : A) → updated f t x t ≡ x
unfolding updated
updated_same_key f t x = let e : (t == t) ≡ true = ground arith in rw e refl

pub updated_other :
    {A : Type 0} (f : ℕ → A) (t : ℕ) (x : A) (u : ℕ) → (u == t) ≡ false → updated f t x u ≡ f u
unfolding updated
updated_other f t x u e = rw e refl

-- Every thread fits, but perhaps the current one is not listed as its state says: it may be on its
-- way out. It is not queued.
pub record Leaving (made : ℕ → Bool) (s : Sched) : Type 0 where
  pub fits : (t : ℕ) → FitsIn made s t
  pub only : (t : ℕ) → (s.thread t).state ≡ running → t ≡ s.current
  pub not_queued : (s.thread s.current).state ≢ runnable
  pub all :
      (t : ℕ) → count t s.all_threads ≡ (if t == s.current then 1 else listed (s.thread t).state)
  pub counted : s.thread_count ≡ length s.all_threads % 2 ^ 32
  pub pending : (t : ℕ) → made t ≡ true → IsPending s t

-- No thread runs.
pub record Rested (made : ℕ → Bool) (s : Sched) : Type 0 where
  pub fits : (t : ℕ) → FitsIn made s t
  pub nobody : (t : ℕ) → (s.thread t).state ≢ running
  pub all :
      (t : ℕ) → count t s.all_threads ≡ (if t == s.current then 1 else listed (s.thread t).state)
  pub counted : s.thread_count ≡ length s.all_threads % 2 ^ 32
  pub pending : (t : ℕ) → made t ≡ true → IsPending s t

is_running-eq : (x : ThreadState) → is_running x ≡ true → x ≡ running
unfolding is_running
is_running-eq running h = refl
is_running-eq runnable h = absurd (true-ne-false h refl)
is_running-eq sleeping h = absurd (true-ne-false h refl)
is_running-eq blocked h = absurd (true-ne-false h refl)
is_running-eq dead h = absurd (true-ne-false h refl)

not_running : (x : ThreadState) → is_running x ≡ false → x ≢ running
unfolding is_running
not_running x h e = let g : true ≡ false = rw e at h in cc

pub listed_alive : (x : ThreadState) → is_dead x ≡ false → listed x ≡ 1
unfolding is_dead listed
listed_alive runnable h = refl
listed_alive running h = refl
listed_alive sleeping h = refl
listed_alive blocked h = refl
listed_alive dead h = absurd (true-ne-false refl h)

pub listed_dead : (x : ThreadState) → is_dead x ≡ true → listed x ≡ 0
unfolding is_dead listed
listed_dead dead h = refl
listed_dead runnable h = absurd (true-ne-false h refl)
listed_dead running h = absurd (true-ne-false h refl)
listed_dead sleeping h = absurd (true-ne-false h refl)
listed_dead blocked h = absurd (true-ne-false h refl)

-- A running thread that stops, at the end of the run queue or idle.
Fits-stops :
    (i : Bool) (x : Thread) (run sleep : ℕ) (wait : ℕ → ℕ)
    → x.state ≡ running
    → Fits i x run sleep wait
    → Fits i (record x { state = runnable }) (if i then run else run + 1) sleep wait
unfolding on_run_queue on_sleepers on_waitq can_run
Fits-stops true x run sleep wait e f = record {
  idle_runs = λ y. refl;
  runs = f.runs;
  sleeps = rw e at f.sleeps;
  queue = f.queue;
  waits = rw e at f.waits;
  timed = λ q w. absurd (no_wait (f.timed q w).1);
}
  where
    no_wait : x.state ≡ blocked → ⊥
    no_wait b = cc
Fits-stops false x run sleep wait e f = record {
  idle_runs = λ y. refl;
  runs = let r : run ≡ 0 = rw e at f.runs in omega (arith, r);
  sleeps = rw e at f.sleeps;
  queue = f.queue;
  waits = rw e at f.waits;
  timed = λ q w. absurd (no_wait (f.timed q w).1);
}
  where
    no_wait : x.state ≡ blocked → ⊥
    no_wait b = cc

-- A runnable thread that starts, off the run queue.
pub Fits-starts :
    (i : Bool) (x : Thread) (run sleep : ℕ) (wait : ℕ → ℕ)
    → x.state ≡ runnable
    → Fits i x run sleep wait
    → Fits i (record x { state = running }) 0 sleep wait
unfolding on_run_queue on_sleepers on_waitq can_run
Fits-starts i x run sleep wait e f = record {
  idle_runs = λ y. refl;
  runs = zero_if i;
  sleeps = rw e at f.sleeps;
  queue = f.queue;
  waits = rw e at f.waits;
  timed = λ q w. absurd (no_wait (f.timed q w).1);
}
  where
    no_wait : x.state ≡ blocked → ⊥
    no_wait b = cc

    zero_if : (i : Bool) → ◌≡◌ {A = ℕ} 0 (if i then 0 else 0)
    zero_if true = refl
    zero_if false = refl

-- Stopping the running thread.
stops-Rested :
    {made : ℕ → Bool} (s : Sched) (queue : List ℕ)
    → Leaving made s
    → (s.thread s.current).state ≡ running
    → ((u : ℕ)
        → count u queue
          ≡ count u s.run_queue + (if u == s.current then (if u == s.idle then 0 else 1) else 0))
    → Rested made (record (set_state s s.current runnable) { run_queue = queue })
stops-Rested {made} s queue h e n = record {
  fits = λ u. elim (Bool-cases (u == s.current)) [
    | inl y ↦
        Fits-same (self u y) (longer u y) refl (λ q. refl)
          (Fits-stops (made u || u == s.idle) (s.thread u) (count u s.run_queue)
            (count u s.sleepers) (waiting s u) (runs u y) (h.fits u))
    | inr y ↦
        Fits-same (updated_other s.thread s.current stopped u y) (same u y) refl (λ q. refl)
          (h.fits u)
  ];
  nobody = λ u r. elim (Bool-cases (u == s.current)) [
    | inl y ↦ let r' : runnable ≡ running = sym (ap (λ x. x.state) (self u y)) ∙ r in cc
    | inr y ↦
        let r' : (s.thread u).state ≡ running =
          sym (ap (λ x. x.state) (updated_other s.thread s.current stopped u y)) ∙ r in
        let u' : u ≡ s.current = h.only u r' in true-ne-false (ground (arith, u')) y
  ];
  all = λ u. elim (Bool-cases (u == s.current)) [
    | inl y ↦ h.all u ∙ rw y refl
    | inr y ↦ h.all u ∙ rw (y, updated_other s.thread s.current stopped u y) refl
  ];
  counted = h.counted;
  pending = λ u m. (
    (h.pending u m).0,
    elim (Bool-cases (u == s.current)) [
      | inl y ↦ ap (λ x. x.state) (self u y)
      | inr y ↦ ap (λ x. x.state) (updated_other s.thread s.current stopped u y) ∙ (h.pending u m).1
    ],
  );
}
  where
    stopped : Thread
    stopped = record (s.thread s.current) { state = runnable }

    at : (u : ℕ) → (u == s.current) ≡ true → u ≡ s.current
    at u y = ground (arith, y)

    self :
        (u : ℕ)
        → (u == s.current) ≡ true
        → updated s.thread s.current stopped u ≡ record (s.thread u) { state = runnable }
    self u y = rw (at u y) (updated_same_key s.thread s.current stopped)

    runs : (u : ℕ) → (u == s.current) ≡ true → (s.thread u).state ≡ running
    runs u y = rw (at u y) e

    stopped_not : runnable ≡ running → ⊥
    stopped_not r = cc

    unmade : (u : ℕ) → (u == s.current) ≡ true → made u ≡ false
    unmade u y = elim (Bool-cases (made u)) [
      | inl m ↦
          let r : runnable ≡ running = sym (h.pending u m).1 ∙ runs u y in absurd (stopped_not r)
      | inr m ↦ m
    ]

    longer :
        (u : ℕ)
        → (u == s.current) ≡ true
        → count u queue
          ≡ (if made u || u == s.idle then count u s.run_queue else count u s.run_queue + 1)
    longer u y = let m = unmade u y in ground (arith, n u, y, m)

    same : (u : ℕ) → (u == s.current) ≡ false → count u queue ≡ count u s.run_queue
    same u y = ground (arith, n u, y)

pub put_back-Rested : {made : ℕ → Bool} (s : Sched) → Leaving made s → Rested made (put_back s)
unfolding put_back
put_back-Rested s h = elim (Bool-cases (is_running (s.thread s.current).state)) [
  | inl e ↦
      let r = is_running-eq (s.thread s.current).state e in
      rw e (elim (Bool-cases (s.current == s.idle)) [
        | inl i ↦ rw i (stops-Rested s s.run_queue h r (λ u. ground (arith, i)))
        | inr i ↦ rw i (
            stops-Rested s (s.run_queue ++ (s.current ∷ [])) h r
              (λ u. ground (arith, i, count-append u s.run_queue (s.current ∷ []))))
      ])
  | inr e ↦ rw e (record {
    fits = h.fits;
    nobody = λ u r.
        let u' : u ≡ s.current = h.only u r in
        not_running (s.thread s.current).state e (rw u' at r);
    all = h.all;
    counted = h.counted;
    pending = h.pending;
  })
]
