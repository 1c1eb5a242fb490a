-- ===== src/Sched/Resched.antt =====
-- schedule keeps the lists of the scheduler in step with the states of the threads.
use manios.Base.{
  ℕ, ◌+◌, ◌-◌, ◌%◌, ◌^◌, ◌≤◌, ◌≡◌, ◌≢◌, refl, sym, ◌∙◌, inl, inr, true, false, List, [], ◌∷◌, arith,
  ◌==◌, if◌then◌else◌, Bool-cases, true-ne-false, not, ◌&&◌, ◌||◌, Bool,
}
use manios.Sched.{
  Sched, ThreadState, runnable, running, sleeping, blocked, dead, run_next, schedule, put_back,
  resched_if_idle, end_tick, is_nil, thread_yield,
}
use manios.Sched.Counts.{count}
use manios.Sched.Fits.{on_run_queue, can_run, Coherent, listed}
use manios.Sched.Switch.{Leaving, Rested, put_back-Rested}
use manios.Sched.Starting.{switch_to-Coherent}

ready_idle : (x : ThreadState) → can_run x ≡ true → x ≢ running → x ≡ runnable
unfolding can_run
ready_idle runnable h n = refl
ready_idle running h n = absurd (n refl)
ready_idle sleeping h n = absurd (true-ne-false h refl)
ready_idle blocked h n = absurd (true-ne-false h refl)
ready_idle dead h n = absurd (true-ne-false h refl)

ready_queued : (x : ThreadState) → 1 ≤ on_run_queue x → x ≡ runnable
unfolding on_run_queue
ready_queued runnable h = refl
ready_queued running h = absurd (omega (arith, h))
ready_queued sleeping h = absurd (omega (arith, h))
ready_queued blocked h = absurd (omega (arith, h))
ready_queued dead h = absurd (omega (arith, h))

once_queued : (x : ThreadState) → on_run_queue x ≤ 1
unfolding on_run_queue
once_queued runnable = omega arith
once_queued running = omega arith
once_queued sleeping = omega arith
once_queued blocked = omega arith
once_queued dead = omega arith

run_next-Coherent :
    {made : ℕ → Bool} (s : Sched) (queue : List ℕ)
    → s.run_queue ≡ queue
    → Rested made s
    → Coherent made (run_next s queue)
unfolding run_next
run_next-Coherent {made} s [] e h =
    switch_to-Coherent s s.run_queue s.idle h
      (ready_idle (s.thread s.idle).state ((h.fits s.idle).idle_runs (ground arith))
        (h.nobody s.idle))
      (λ u y. refl) (rw e refl) idle_made
  where
    idle_made : made s.idle ≡ false
    idle_made = elim (Bool-cases (made s.idle)) [
      | inl m ↦ let n = (h.pending s.idle m).0 in absurd (ground (arith, n))
      | inr m ↦ m
    ]
run_next-Coherent {made} s (t ∷ ts) e h =
    switch_to-Coherent s ts t h (ready_queued (s.thread t).state (ground (arith, runs, twice)))
      (λ u y. let c : count u s.run_queue ≡ count u (t ∷ ts) = rw e refl in ground (arith, c, y))
      (ground (arith, runs, twice)) (ground (arith, runs, twice))
  where
    twice : on_run_queue (s.thread t).state ≤ 1
    twice = once_queued (s.thread t).state

    runs : 1 + count t ts ≡ (if made t || t == s.idle then 0 else on_run_queue (s.thread t).state)
    runs =
        let r = (h.fits t).runs in
        let c : count t s.run_queue ≡ count t (t ∷ ts) = rw e refl in ground (arith, r, c)

-- From a thread on its way out, or one that goes on, to a thread that runs.
pub schedule-Coherent : {made : ℕ → Bool} (s : Sched) → Leaving made s → Coherent made (schedule s)
unfolding schedule
schedule-Coherent s h =
    run_next-Coherent (put_back s) (put_back s).run_queue refl (put_back-Rested s h)

Coherent-Leaving : {made : ℕ → Bool} (s : Sched) → Coherent made s → Leaving made s
unfolding listed
Coherent-Leaving s h = record {
  fits = h.fits;
  only = h.only;
  not_queued = λ e. let a = h.active in let b : running ≡ runnable = sym a ∙ e in cc;
  all = λ u. elim (Bool-cases (u == s.current)) [
    | inl y ↦ let e : u ≡ s.current = ground (arith, y) in h.all u ∙ rw (y, e, h.active) refl
    | inr y ↦ h.all u ∙ rw y refl
  ];
  counted = h.counted;
  pending = h.pending;
}

pub thread_yield-Coherent :
    {made : ℕ → Bool} (s : Sched) → Coherent made s → Coherent made (thread_yield s)
unfolding thread_yield
thread_yield-Coherent s h = schedule-Coherent s (Coherent-Leaving s h)

pub resched_if_idle-Coherent :
    {made : ℕ → Bool} (s : Sched) → Coherent made s → Coherent made (resched_if_idle s)
unfolding resched_if_idle
resched_if_idle-Coherent s h = elim (Bool-cases (s.current == s.idle && not (is_nil s.run_queue))) [
  | inl y ↦ rw y (schedule-Coherent s (Coherent-Leaving s h))
  | inr y ↦ rw y h
]

-- The time slice is not one of the things that Coherent reads.
slice-Coherent :
    {made : ℕ → Bool} (s : Sched) (n : ℕ)
    → Coherent made s
    → Coherent made (record s { slice_left = n })
slice-Coherent s n h = record {
  fits = h.fits;
  active = h.active;
  only = h.only;
  all = h.all;
  counted = h.counted;
  pending = h.pending;
}

pub end_tick-Coherent : {made : ℕ → Bool} (s : Sched) → Coherent made s → Coherent made (end_tick s)
unfolding end_tick
end_tick-Coherent {made} s h = elim (Bool-cases (s.current == s.idle)) [
  | inl i ↦ elim (Bool-cases (is_nil s.run_queue)) [
    | inl n ↦ rw (i, n) h
    | inr n ↦ rw (i, n) (schedule-Coherent s (Coherent-Leaving s h))
  ]
  | inr i ↦ elim (Bool-cases (not s.preemptive)) [
    | inl p ↦ rw (i, p) h
    | inr p ↦ rw (i, p) (ends_slice ((s.slice_left + 2 ^ 32 - 1) % 2 ^ 32))
  ]
]
  where
    ends_slice :
        (n : ℕ)
        → Coherent made
            (if n == 0 then schedule (record s { slice_left = n }) else record s { slice_left = n })
    ends_slice n =
        let h' = slice-Coherent s n h in
        elim (Bool-cases (n == 0)) [
          | inl z ↦ rw z (
              schedule-Coherent (record s { slice_left = n })
                (Coherent-Leaving (record s { slice_left = n }) h'))
          | inr z ↦ rw z h'
        ]
