-- ===== src/Sched/Creation.antt =====
-- A thread that is created keeps the scheduler coherent, and sched_init makes it so.
use manios.Base.{
  ℕ, ◌≡◌, refl, sym, ap, ◌∙◌, inl, inr, Bool, true, false, ◌||◌, Option, none, some, [], ◌∷◌, arith,
  ◌==◌, if◌then◌else◌, Bool-cases, true-ne-false,
}
use manios.Sched.{Sched, Thread, runnable, running, dead, updated, run_enqueue}
use manios.Sched.Counts.{count, count-append}
use manios.Sched.Fits.{on_run_queue, on_sleepers, on_waitq, listed, can_run, Fits-same, Coherent}
use manios.Sched.Switch.{updated_same_key, updated_other}
use manios.Sched.Threads.{add_thread, thread_alloc, start_thread}

different : running ≡ runnable → ⊥
different b = cc

alive : running ≡ dead → ⊥
alive b = cc

-- A new thread, which is not on the run queue yet.
module _ {made : ℕ → Bool} (s : Sched) (h : Coherent made s) (t : ℕ)
    (fresh : (s.thread t).state ≡ dead) where
  abbrev new : Thread
  new = record (s.thread t) { state = runnable; waiting_on = none; timed_out = false }

  not_idle : (made t || t == s.idle) ≡ false
  unfolding can_run
  not_idle = elim (Bool-cases (made t || t == s.idle)) [
    | inl i ↦ absurd (true-ne-false ((h.fits t).idle_runs i) (rw fresh refl))
    | inr i ↦ i
  ]

  current_other : (s.current == t) ≡ false
  current_other = elim (Bool-cases (s.current == t)) [
    | inl y ↦
        let e : s.current ≡ t = ground (arith, y) in
        let b : running ≡ dead = sym h.active ∙ rw e fresh in absurd (alive b)
    | inr y ↦ y
  ]

  pub added-Coherent : Coherent (updated made t true) (add_thread t runnable s)
  unfolding can_run on_run_queue on_sleepers on_waitq listed add_thread
  added-Coherent = record {
    fits = λ u. elim (Bool-cases (u == t)) [
      | inl y ↦
          let e : u ≡ t = ground (arith, y) in
          let r : count t s.run_queue ≡ 0 = (h.fits t).runs ∙ rw (not_idle, fresh) refl in
          rw (e, updated_same_key s.thread t new, updated_same_key made t true)
            (record {
              idle_runs = λ i. refl;
              runs = r;
              sleeps = (h.fits t).sleeps ∙ rw fresh refl;
              queue = 0;
              waits = λ q.
                  let w : count t (s.waitq q) ≡ (if q == (h.fits t).queue then 0 else 0) =
                    rw fresh at ((h.fits t).waits q) in
                  ground (arith, w);
              timed = λ q w. absurd (ground (arith, w));
            })
      | inr y ↦ rw (updated_other s.thread t new u y, updated_other made t true u y) (h.fits u)
    ];
    active = ap (λ x. x.state) (updated_other s.thread t new s.current current_other) ∙ h.active;
    only = λ u r. elim (Bool-cases (u == t)) [
      | inl y ↦
          let e : u ≡ t = ground (arith, y) in
          let b : running ≡ runnable =
            sym r ∙ rw e (ap (λ x. x.state) (updated_same_key s.thread t new)) in
          absurd (different b)
      | inr y ↦ h.only u (sym (ap (λ x. x.state) (updated_other s.thread t new u y)) ∙ r)
    ];
    all = λ u. elim (Bool-cases (u == t)) [
      | inl y ↦
          let e : u ≡ t = ground (arith, y) in
          let c : count t s.all_threads ≡ 0 = h.all t ∙ rw fresh refl in
          rw (e, updated_same_key s.thread t new) (ground (arith, c))
      | inr y ↦ let c = h.all u in rw (updated_other s.thread t new u y) (ground (arith, c, y))
    ];
    counted = let n = h.counted in omega (arith, n);
    pending = λ u m. elim (Bool-cases (u == t)) [
      | inl y ↦
          let e : u ≡ t = ground (arith, y) in
          let i : (made t || t == s.idle) ≡ false = not_idle in
          rw (e, updated_same_key s.thread t new) (ground (arith, i), refl)
      | inr y ↦
          let p = h.pending u (sym (updated_other made t true u y) ∙ m) in
          (p.0, ap (λ x. x.state) (updated_other s.thread t new u y) ∙ p.1)
    ];
  }

-- The new thread is put on the run queue.
pub run_enqueue-Coherent :
    {made : ℕ → Bool} (s : Sched) (t : ℕ)
    → made t ≡ true
    → Coherent made s
    → Coherent (updated made t false) (run_enqueue s t)
unfolding can_run on_run_queue
run_enqueue-Coherent {made} s t m h = record {
  fits = λ u. elim (Bool-cases (u == t)) [
    | inl y ↦
        let e : u ≡ t = ground (arith, y) in
        let p = h.pending t m in
        let r : count t s.run_queue ≡ 0 = (h.fits t).runs ∙ rw m refl in
        let c = count-append t s.run_queue (t ∷ []) in
        rw (e, updated_same_key made t false)
          (record {
            idle_runs = λ i. rw p.1 refl;
            runs = rw (p.0, p.1) (ground (arith, c, r));
            sleeps = (h.fits t).sleeps;
            queue = (h.fits t).queue;
            waits = (h.fits t).waits;
            timed = (h.fits t).timed;
          })
    | inr y ↦
        let c = count-append u s.run_queue (t ∷ []) in
        rw (updated_other made t false u y)
          (Fits-same refl (ground (arith, c, y)) refl (λ q. refl) (h.fits u))
  ];
  active = h.active;
  only = h.only;
  all = h.all;
  counted = h.counted;
  pending = λ u n. elim (Bool-cases (u == t)) [
    | inl y ↦
        let e : u ≡ t = ground (arith, y) in
        absurd (true-ne-false (rw e at n) (updated_same_key made t false))
    | inr y ↦ h.pending u (sym (updated_other made t false u y) ∙ n)
  ];
}

-- What kmalloc gives for a thread stands for no thread yet.
abbrev pub Fresh : Sched → Option ℕ → Type 0
Fresh s none = Unit
Fresh s (some t) = (s.thread t).state ≡ dead

-- The threads made and not yet started, with what thread_alloc gives.
abbrev pub and_made : (ℕ → Bool) → Option ℕ → ℕ → Bool
and_made made none = made
and_made made (some t) = updated made t true

pub thread_alloc-Coherent :
    {made : ℕ → Bool} (s : Sched) (memory : Option ℕ) (stack : Bool)
    → Fresh s memory
    → Coherent made s
    → Coherent (and_made made (thread_alloc memory stack s).0) (thread_alloc memory stack s).1
unfolding thread_alloc
thread_alloc-Coherent s none stack f h = h
thread_alloc-Coherent s (some t) false f h = h
thread_alloc-Coherent s (some t) true f h = added-Coherent s h t f

pub start_thread-Coherent :
    {made : ℕ → Bool} (s : Sched) (t : ℕ)
    → made t ≡ true
    → Coherent made s
    → Coherent (updated made t false) (start_thread (some t, s)).1
unfolding start_thread
start_thread-Coherent s t m h = run_enqueue-Coherent s t m h
