-- ===== src/Sched/Boot.antt =====
-- sched_init leaves two threads, one of them running, on the lists that their states say.
use manios.Base.{
  ℕ, ◌≡◌, ◌≢◌, refl, sym, ◌∙◌, inl, inr, Bool, true, false, true-ne-false, none, some, [], arith,
  ◌==◌, if◌then◌else◌, Bool-cases,
}
use mathlib.Core.Option.{some-injective}
use manios.Sched.{Sched, Thread, ThreadState, runnable, running, dead, updated, time_slice_ticks}
use manios.Sched.Fits.{on_run_queue, on_sleepers, on_waitq, listed, can_run, Fits, FitsIn, Coherent}
use manios.Sched.Threads.{add_thread, thread_alloc, set_idle, sched_init}

-- The scheduler before sched_init: no list has a thread.
abbrev pub boot : Sched
boot = record {
  current = 0;
  idle = 0;
  run_queue = [];
  sleepers = [];
  thread = λ t. record { state = dead; wake_tick = 0; waiting_on = none; timed_out = false };
  waitq = λ q. [];
  all_threads = [];
  preemptive = false;
  idle_ticks = 0;
  slice_left = 0;
  thread_count = 0;
}

abbrev after_init : ℕ → ℕ → Sched
after_init main idle = record (add_thread idle runnable (add_thread main running boot)) {
  idle = idle;
  slice_left = time_slice_ticks;
  current = main;
}

init_gives :
    (main idle : ℕ) → sched_init (some main) (some idle) true boot ≡ some (after_init main idle)
unfolding sched_init set_idle thread_alloc
init_gives main idle = refl

-- The states that sched_init gives the threads.
init_states :
    (main idle u : ℕ)
    → main ≢ idle
    → ((after_init main idle).thread u).state
      ≡ (if u == idle then runnable else if u == main then running else dead)
unfolding add_thread updated
init_states main idle u n = elim (Bool-cases (u == idle)) [
  | inl i ↦ rw i refl
  | inr i ↦ elim (Bool-cases (u == main)) [ inl m ↦ rw (i, m) refl | inr m ↦ rw (i, m) refl ]
]

init_untimed : (main idle u : ℕ) → ((after_init main idle).thread u).waiting_on ≡ none
unfolding add_thread updated
init_untimed main idle u = elim (Bool-cases (u == idle)) [
  | inl i ↦ rw i refl
  | inr i ↦ elim (Bool-cases (u == main)) [ inl m ↦ rw (i, m) refl | inr m ↦ rw (i, m) refl ]
]

-- A thread on no list, in a state that says so.
Fits-unlisted :
    (i : Bool) (x : Thread)
    → x.waiting_on ≡ none
    → (i ≡ true → can_run x.state ≡ true)
    → (if i then 0 else on_run_queue x.state) ≡ 0
    → on_sleepers x.state none ≡ 0
    → on_waitq x.state ≡ 0
    → Fits i x 0 0 (λ q. 0)
Fits-unlisted i x u r z es ew = record {
  idle_runs = r;
  runs = sym z;
  sleeps = rw u (sym es);
  queue = 0;
  waits = λ q. rw ew (ground arith);
  timed = λ q w. absurd (ground (arith, w, u));
}

module _ (main idle : ℕ) (apart : main ≢ idle) where
  abbrev state_of : ℕ → ThreadState
  state_of u = ((after_init main idle).thread u).state

  idles : (u : ℕ) → (u == idle) ≡ true → state_of u ≡ runnable
  idles u i = init_states main idle u apart ∙ rw i refl

  runs : (u : ℕ) → (u == idle) ≡ false → (u == main) ≡ true → state_of u ≡ running
  runs u i m = init_states main idle u apart ∙ rw (i, m) refl

  absent : (u : ℕ) → (u == idle) ≡ false → (u == main) ≡ false → state_of u ≡ dead
  absent u i m = init_states main idle u apart ∙ rw (i, m) refl

  main_runs : (main == idle) ≡ false
  main_runs = ground (arith, apart)

  after_init-fits : (u : ℕ) → FitsIn (λ t. false) (after_init main idle) u
  unfolding can_run on_run_queue on_sleepers on_waitq add_thread
  after_init-fits u =
      Fits-unlisted (u == idle) ((after_init main idle).thread u) (init_untimed main idle u)
        (λ i. rw (idles u i) refl) (off (u == idle) refl) asleep waits
    where
      off : (b : Bool) → (u == idle) ≡ b → (if b then 0 else on_run_queue (state_of u)) ≡ 0
      off true i = refl
      off false i = elim (Bool-cases (u == main)) [
        | inl m ↦ rw (runs u i m) refl
        | inr m ↦ rw (absent u i m) refl
      ]

      asleep : on_sleepers (state_of u) none ≡ 0
      asleep = elim (Bool-cases (u == idle)) [
        | inl i ↦ rw (idles u i) refl
        | inr i ↦ elim (Bool-cases (u == main)) [
          | inl m ↦ rw (runs u i m) refl
          | inr m ↦ rw (absent u i m) refl
        ]
      ]

      waits : on_waitq (state_of u) ≡ 0
      waits = elim (Bool-cases (u == idle)) [
        | inl i ↦ rw (idles u i) refl
        | inr i ↦ elim (Bool-cases (u == main)) [
          | inl m ↦ rw (runs u i m) refl
          | inr m ↦ rw (absent u i m) refl
        ]
      ]

  after_init-Coherent : Coherent (λ t. false) (after_init main idle)
  unfolding listed add_thread
  after_init-Coherent = record {
    fits = after_init-fits;
    active = runs main main_runs (ground arith);
    only = λ u r. elim (Bool-cases (u == idle)) [
      | inl i ↦ let b : running ≡ runnable = sym r ∙ idles u i in absurd (not_runnable b)
      | inr i ↦ elim (Bool-cases (u == main)) [
        | inl m ↦ ground (arith, m)
        | inr m ↦ let b : running ≡ dead = sym r ∙ absent u i m in absurd (alive b)
      ]
    ];
    all = λ u. elim (Bool-cases (u == idle)) [
      | inl i ↦ rw (idles u i) (ground (arith, i, apart))
      | inr i ↦ elim (Bool-cases (u == main)) [
        | inl m ↦ rw (runs u i m) (ground (arith, i, m))
        | inr m ↦ rw (absent u i m) (ground (arith, i, m))
      ]
    ];
    counted = refl;
    pending = λ u m. absurd (true-ne-false m refl);
  }
    where
      not_runnable : running ≡ runnable → ⊥
      not_runnable b = cc

      alive : running ≡ dead → ⊥
      alive b = cc

pub sched_init-Coherent :
    (main idle : ℕ) (s : Sched)
    → main ≢ idle
    → sched_init (some main) (some idle) true boot ≡ some s
    → Coherent (λ t. false) s
sched_init-Coherent main idle s n e =
    let same : after_init main idle ≡ s =
      some-injective (after_init main idle) s (sym (init_gives main idle) ∙ e) in
    rw same at (after_init-Coherent main idle n)
