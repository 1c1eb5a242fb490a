-- ===== src/Sched/Waiting.antt =====
-- A thread that sleeps, waits or exits leaves the lists of the scheduler in step with the states of
-- the threads. The idle thread does none of these.
use manios.Base.{
  ℕ, ◌+◌, ◌≡◌, ◌≢◌, refl, sym, ap, ◌∙◌, inl, inr, Bool, true, false, ◌||◌, Option, none, some, List,
  [], ◌∷◌, ◌++◌, arith, ◌==◌, if◌then◌else◌, Bool-cases, true-ne-false,
}
use manios.Sched.{
  Sched, Thread, runnable, running, sleeping, blocked, dead, updated, thread_sleep_until,
  waitq_sleep, waitq_sleep_until, sleep_insert, insert_sleeper,
}
use manios.Sched.Counts.{one, count, count-append, count-insert_sleeper}
use manios.Sched.Fits.{
  on_run_queue, on_sleepers, on_waitq, listed, can_run, Fits, FitsIn, waiting, Fits-same, Coherent,
}
use manios.Sched.Switch.{Leaving, updated_same_key, updated_other}
use manios.Sched.Resched.{schedule-Coherent}
use manios.Sched.Threads.{thread_exit}

-- The running thread, which is not the idle thread, is on no list and in no timed wait.
record Quiet (x : Thread) (run sleep : ℕ) (wait : ℕ → ℕ) : Type 0 where
  run_zero : run ≡ 0
  sleep_zero : sleep ≡ 0
  wait_zero : (q : ℕ) → wait q ≡ 0
  untimed : x.waiting_on ≡ none

no_timed_wait : (w : Option ℕ) → ((q : ℕ) → w ≢ some q) → w ≡ none
no_timed_wait none h = refl
no_timed_wait (some q) h = absurd (h q refl)

runs-Quiet :
    {i : Bool} {x : Thread} {run sleep : ℕ} {wait : ℕ → ℕ}
    → x.state ≡ running
    → i ≡ false
    → Fits i x run sleep wait
    → Quiet x run sleep wait
unfolding on_run_queue on_sleepers on_waitq
runs-Quiet {i} {x} {run} {sleep} {wait} e n f = record {
  run_zero = rw (n, e) at f.runs;
  sleep_zero = rw e at f.sleeps;
  wait_zero = λ q.
      let w : wait q ≡ (if q == f.queue then 0 else 0) = rw e at f.waits q in ground (arith, w);
  untimed = no_timed_wait x.waiting_on (λ q w. absurd (no_wait (f.timed q w).1));
}
  where
    no_wait : x.state ≡ blocked → ⊥
    no_wait b = let r : running ≡ blocked = sym e ∙ b in cc

module _ {made : ℕ → Bool} (s : Sched) (h : Coherent made s) (busy : s.current ≢ s.idle) where
  unmade : made s.current ≡ false
  unmade = elim (Bool-cases (made s.current)) [
    | inl m ↦
        let r : running ≡ runnable = sym h.active ∙ (h.pending s.current m).1 in absurd (not r)
    | inr m ↦ m
  ]
    where
      not : running ≡ runnable → ⊥
      not r = cc

  not_idle : (made s.current || s.current == s.idle) ≡ false
  not_idle = let m = unmade in ground (arith, busy, m)

  quiet :
      Quiet
        (s.thread s.current)
        (count s.current s.run_queue)
        (count s.current s.sleepers)
        (waiting s s.current)
  quiet = runs-Quiet h.active not_idle (h.fits s.current)

  -- The current thread in another state, on the lists that this state says.
  leaves :
      (thread : ℕ → Thread) (sleepers : List ℕ) (waitq : ℕ → List ℕ)
      → ((u : ℕ) → (u == s.current) ≡ false → thread u ≡ s.thread u)
      → ((u : ℕ) → (u == s.current) ≡ false → count u sleepers ≡ count u s.sleepers)
      → ((u q : ℕ) → (u == s.current) ≡ false → count u (waitq q) ≡ count u (s.waitq q))
      → can_run (thread s.current).state ≡ false
      → FitsIn made (record s { thread = thread; sleepers = sleepers; waitq = waitq }) s.current
      → Leaving made (record s { thread = thread; sleepers = sleepers; waitq = waitq })
  unfolding can_run listed
  leaves thread sleepers waitq et es eq stops f = record {
    fits = λ u. elim (Bool-cases (u == s.current)) [
      | inl y ↦ let e : u ≡ s.current = ground (arith, y) in rw e f
      | inr y ↦ Fits-same (et u y) refl (es u y) (λ q. eq u q y) (h.fits u)
    ];
    only = λ u r. elim (Bool-cases (u == s.current)) [
      | inl y ↦ ground (arith, y)
      | inr y ↦ h.only u (sym (ap (λ x. x.state) (et u y)) ∙ r)
    ];
    not_queued = λ r. let c : true ≡ false = rw r at stops in cc;
    all = λ u. elim (Bool-cases (u == s.current)) [
      | inl y ↦ let e : u ≡ s.current = ground (arith, y) in h.all u ∙ rw (y, e, h.active) refl
      | inr y ↦ h.all u ∙ rw (y, et u y) refl
    ];
    counted = h.counted;
    pending = λ u m. (
      (h.pending u m).0,
      elim (Bool-cases (u == s.current)) [
        | inl y ↦
            let e : u ≡ s.current = ground (arith, y) in absurd (true-ne-false (rw e at m) unmade)
        | inr y ↦ ap (λ x. x.state) (et u y) ∙ (h.pending u m).1
      ],
    );
  }

  module _ (x : Thread) where
    abbrev now : ℕ → Thread
    now = updated s.thread s.current x

    now_at : now s.current ≡ x
    now_at = updated_same_key s.thread s.current x

    others : (u : ℕ) → (u == s.current) ≡ false → now u ≡ s.thread u
    others u y = updated_other s.thread s.current x u y

  untimed_wait : (q : ℕ) → (s.thread s.current).waiting_on ≡ some q → ⊥
  untimed_wait q w = let c : none ≡ some q = sym quiet.untimed ∙ w in cc

  -- How the current thread stands on the lists once it is in the state `x`.
  Fits-quits :
      (x : Thread) (sleep : ℕ) (wait : ℕ → ℕ) (queue : ℕ)
      → on_run_queue x.state ≡ 0
      → sleep ≡ on_sleepers x.state x.waiting_on
      → ((q : ℕ) → wait q ≡ (if q == queue then on_waitq x.state else 0))
      → ((q : ℕ) → x.waiting_on ≡ some q → (q ≡ queue) × (x.state ≡ blocked))
      → Fits (made s.current || s.current == s.idle) x (count s.current s.run_queue) sleep wait
  Fits-quits x sleep wait queue r es ew et = record {
    idle_runs = λ i. absurd (true-ne-false i not_idle);
    runs = rw (not_idle, r) quiet.run_zero;
    sleeps = es;
    queue = queue;
    waits = ew;
    timed = et;
  }

  pub thread_exit-Coherent : Coherent made (thread_exit s)
  unfolding thread_exit on_run_queue on_sleepers on_waitq can_run
  thread_exit-Coherent =
      let x = record (s.thread s.current) { state = dead } in
      schedule-Coherent (record s { thread = now x })
        (leaves (now x) s.sleepers s.waitq (others x) (λ u y. refl) (λ u q y. refl)
          (rw (now_at x) refl)
          (Fits-same (now_at x) refl refl (λ q. refl)
            (Fits-quits x (count s.current s.sleepers) (waiting s s.current) 0 refl quiet.sleep_zero
              (λ q. let z = quiet.wait_zero q in ground (arith, z))
              (λ q w. absurd (untimed_wait q w)))))

  module _ (tick : ℕ → ℕ) where
    longer_others :
        (u : ℕ)
        → (u == s.current) ≡ false
        → count u (insert_sleeper tick s.current s.sleepers) ≡ count u s.sleepers
    longer_others u y =
        let c = count-insert_sleeper tick u s.current s.sleepers in ground (arith, c, y)

    longer_self : count s.current (insert_sleeper tick s.current s.sleepers) ≡ 1
    longer_self =
        let c = count-insert_sleeper tick s.current s.current s.sleepers in
        ground (arith, c, quiet.sleep_zero)

  pub thread_sleep_until-Coherent : (tick : ℕ) → Coherent made (thread_sleep_until s tick)
  unfolding thread_sleep_until sleep_insert on_run_queue on_sleepers on_waitq can_run
  thread_sleep_until-Coherent tick =
      let x = record (s.thread s.current) { state = sleeping; wake_tick = tick } in
      let ticks : ℕ → ℕ = λ u. (now x u).wake_tick in
      schedule-Coherent (sleep_insert (record s { thread = now x }) s.current) (
        leaves (now x) (insert_sleeper ticks s.current s.sleepers) s.waitq (others x)
          (longer_others ticks) (λ u q y. refl) (rw (now_at x) refl)
          (Fits-same (now_at x) refl refl (λ q. refl)
            (Fits-quits x (count s.current (insert_sleeper ticks s.current s.sleepers))
              (waiting s s.current) 0 refl (longer_self ticks)
              (λ q. let z = quiet.wait_zero q in ground (arith, z))
              (λ q w. absurd (untimed_wait q w)))))

  -- The current thread at the end of the wait queue `q`.
  module _ (q : ℕ) where
    abbrev joined : ℕ → List ℕ
    joined = updated s.waitq q (s.waitq q ++ (s.current ∷ []))

    joined_count :
        (u p : ℕ)
        → count u (joined p) ≡ count u (s.waitq p) + (if p == q then one u s.current else 0)
    joined_count u p = elim (Bool-cases (p == q)) [
      | inl y ↦
          let e : p ≡ q = ground (arith, y) in
          rw (y, e, updated_same_key s.waitq q (s.waitq q ++ (s.current ∷ [])))
            (omega (arith, count-append u (s.waitq q) (s.current ∷ [])))
      | inr y ↦ rw (y, updated_other s.waitq q (s.waitq q ++ (s.current ∷ [])) p y) (omega arith)
    ]

    joined_others : (u p : ℕ) → (u == s.current) ≡ false → count u (joined p) ≡ count u (s.waitq p)
    joined_others u p y = let c = joined_count u p in ground (arith, c, y)

    joined_self : (p : ℕ) → count s.current (joined p) ≡ (if p == q then 1 else 0)
    joined_self p =
        let c = joined_count s.current p in let z = quiet.wait_zero p in ground (arith, c, z)

    pub waitq_sleep-Coherent : Coherent made (waitq_sleep s q)
    unfolding waitq_sleep on_run_queue on_sleepers on_waitq can_run
    waitq_sleep-Coherent =
        let x = record (s.thread s.current) { state = blocked } in
        schedule-Coherent (record s { thread = now x; waitq = joined })
          (leaves (now x) s.sleepers joined (others x) (λ u y. refl) joined_others
            (rw (now_at x) refl)
            (Fits-same (now_at x) refl refl (λ p. refl)
              (Fits-quits x (count s.current s.sleepers) (λ p. count s.current (joined p)) q refl
                (quiet.sleep_zero ∙ rw quiet.untimed refl) joined_self
                (λ p w. absurd (untimed_wait p w)))))

    pub waitq_sleep_until-Coherent : (tick : ℕ) → Coherent made (waitq_sleep_until s q tick)
    unfolding waitq_sleep_until waitq_sleep sleep_insert on_run_queue on_sleepers on_waitq can_run
    waitq_sleep_until-Coherent tick =
        schedule-Coherent (record s { thread = after; sleepers = longer; waitq = joined })
          (leaves after longer joined
            (λ u y.
              updated_other (now timed) s.current (record (now timed s.current) { state = blocked })
                u y
              ∙ others timed u y)
            (longer_others ticks) joined_others (rw after_at refl)
            (Fits-same after_at refl refl (λ p. refl)
              (Fits-quits stopped (count s.current longer) (λ p. count s.current (joined p)) q refl
                (longer_self ticks) joined_self (λ p w. (ground (arith, w), refl)))))
      where
        timed : Thread
        timed = record (s.thread s.current) {
          waiting_on = some q;
          timed_out = false;
          wake_tick = tick;
        }

        stopped : Thread
        stopped = record timed { state = blocked }

        after : ℕ → Thread
        after = updated (now timed) s.current (record (now timed s.current) { state = blocked })

        ticks : ℕ → ℕ
        ticks u = (now timed u).wake_tick

        longer : List ℕ
        longer = insert_sleeper ticks s.current s.sleepers

        after_at : after s.current ≡ stopped
        after_at =
            updated_same_key (now timed) s.current
              (record (now timed s.current) { state = blocked })
            ∙ rw (now_at timed) refl
