-- ===== src/Sched/Waking.antt =====
-- A thread that is woken leaves its wait queue and the sleepers, and goes on the run queue.
use manios.Base.{
  ℕ, ◌+◌, ◌≤◌, ◌≡◌, refl, sym, ap, ◌∙◌, inl, inr, Bool, true, false, ◌||◌, Option, none, some, List,
  [], ◌∷◌, ◌++◌, arith, ◌==◌, if◌then◌else◌, Bool-cases, true-ne-false,
}
use manios.Sched.{
  Sched, Thread, ThreadState, runnable, running, sleeping, blocked, dead, updated, unlink, is_dead,
  wake, end_timed_wait, sleep_remove, run_enqueue, set_state,
}
use manios.Sched.Counts.{one, count, count-append, count-unlink}
use manios.Sched.Fits.{on_run_queue, on_sleepers, on_waitq, listed, can_run, Fits-same, Coherent}
use manios.Sched.Switch.{updated_same_key, updated_other, listed_alive}

parked_off : (x : ThreadState) → can_run x ≡ false → on_run_queue x ≡ 0
unfolding can_run on_run_queue
parked_off runnable p = absurd (true-ne-false refl p)
parked_off running p = refl
parked_off sleeping p = refl
parked_off blocked p = refl
parked_off dead p = refl

module _ {made : ℕ → Bool} (s : Sched) (t : ℕ) (h : Coherent made s)
    (parked : can_run (s.thread t).state ≡ false) (alive : is_dead (s.thread t).state ≡ false) where
  awake : (made t || t == s.idle) ≡ false
  awake = elim (Bool-cases (made t || t == s.idle)) [
    | inl i ↦ absurd (true-ne-false ((h.fits t).idle_runs i) parked)
    | inr i ↦ i
  ]

  not_current : (t == s.current) ≡ false
  unfolding can_run
  not_current = elim (Bool-cases (t == s.current)) [
    | inl y ↦
        let e : t ≡ s.current = ground (arith, y) in
        absurd (true-ne-false (rw (e, h.active) refl) parked)
    | inr y ↦ y
  ]

  off_run_queue : count t s.run_queue ≡ 0
  off_run_queue = (h.fits t).runs ∙ rw awake (parked_off (s.thread t).state parked)

  -- The thread `t` on the run queue, and on no other list.
  pub rouses :
      (thread : ℕ → Thread) (sleepers : List ℕ) (waitq : ℕ → List ℕ)
      → ((u : ℕ) → (u == t) ≡ false → thread u ≡ s.thread u)
      → ((u : ℕ) → (u == t) ≡ false → count u sleepers ≡ count u s.sleepers)
      → ((u q : ℕ) → (u == t) ≡ false → count u (waitq q) ≡ count u (s.waitq q))
      → (thread t).state ≡ runnable
      → (thread t).waiting_on ≡ none
      → count t sleepers ≡ 0
      → ((q : ℕ) → count t (waitq q) ≡ 0)
      → Coherent made (record s {
        run_queue = s.run_queue ++ (t ∷ []);
        thread = thread;
        sleepers = sleepers;
        waitq = waitq;
      })
  unfolding can_run on_run_queue on_sleepers on_waitq listed
  rouses thread sleepers waitq et es eq ready untimed zs zq = record {
    fits = λ u. elim (Bool-cases (u == t)) [
      | inl y ↦
          let e : u ≡ t = ground (arith, y) in
          rw e (record {
            idle_runs = λ i. rw ready refl;
            runs =
                rw (awake, ready)
                  (omega (arith, count-append t s.run_queue (t ∷ []), off_run_queue, own_one));
            sleeps = zs ∙ rw ready refl;
            queue = 0;
            waits = λ q. let z = zq q in rw ready (ground (arith, z));
            timed = λ q w. absurd (no_wait q w);
          })
      | inr y ↦
          let c = count-append u s.run_queue (t ∷ []) in
          Fits-same (et u y) (ground (arith, c, y)) (es u y) (λ q. eq u q y) (h.fits u)
    ];
    active = ap (λ x. x.state) (et s.current (ground (arith, not_current))) ∙ h.active;
    only = λ u r. elim (Bool-cases (u == t)) [
      | inl y ↦
          let e : u ≡ t = ground (arith, y) in
          let b : running ≡ runnable = sym r ∙ rw e ready in absurd (different b)
      | inr y ↦ h.only u (sym (ap (λ x. x.state) (et u y)) ∙ r)
    ];
    all = λ u. elim (Bool-cases (u == t)) [
      | inl y ↦
          let e : u ≡ t = ground (arith, y) in
          h.all u ∙ rw (e, ready) (listed_alive (s.thread t).state alive)
      | inr y ↦ h.all u ∙ rw (et u y) refl
    ];
    counted = h.counted;
    pending = λ u m. (
      (h.pending u m).0,
      elim (Bool-cases (u == t)) [
        | inl y ↦ let e : u ≡ t = ground (arith, y) in rw e ready
        | inr y ↦ ap (λ x. x.state) (et u y) ∙ (h.pending u m).1
      ],
    );
  }
    where
      different : running ≡ runnable → ⊥
      different b = cc

      own_one : one t t ≡ 1
      own_one = ground arith

      no_wait : (q : ℕ) → (thread t).waiting_on ≡ some q → ⊥
      no_wait q w = let c : none ≡ some q = sym untimed ∙ w in cc

blocked_queued : (x : ThreadState) → 1 ≤ on_waitq x → x ≡ blocked
unfolding on_waitq
blocked_queued blocked h = refl
blocked_queued runnable h = absurd (omega (arith, h))
blocked_queued running h = absurd (omega (arith, h))
blocked_queued sleeping h = absurd (omega (arith, h))
blocked_queued dead h = absurd (omega (arith, h))

-- The head of a wait queue.
module _ {made : ℕ → Bool} (s : Sched) (h : Coherent made s) (q t : ℕ) (ts : List ℕ)
    (first : s.waitq q ≡ t ∷ ts) where
  abbrev dequeued : ℕ → List ℕ
  dequeued = updated s.waitq q ts

  queued : 1 + count t ts ≡ (if q == (h.fits t).queue then on_waitq (s.thread t).state else 0)
  queued =
      let c : count t (s.waitq q) ≡ count t (t ∷ ts) = rw first refl in
      let w = (h.fits t).waits q in ground (arith, c, w)

  is_blocked : (s.thread t).state ≡ blocked
  is_blocked = blocked_queued (s.thread t).state (ground (arith, queued))

  own_queue : (q == (h.fits t).queue) ≡ true
  own_queue = ground (arith, queued)

  dequeued_self : (p : ℕ) → count t (dequeued p) ≡ 0
  unfolding on_waitq
  dequeued_self p = elim (Bool-cases (p == q)) [
    | inl y ↦
        let e : p ≡ q = ground (arith, y) in
        let n : 1 + count t ts ≡ 1 = queued ∙ rw (own_queue, is_blocked) refl in
        rw (e, updated_same_key s.waitq q ts) (omega (arith, n))
    | inr y ↦
        let n : count t (s.waitq p) ≡ 0 =
          (h.fits t).waits p ∙ (let o = own_queue in ground (arith, y, o)) in
        rw (updated_other s.waitq q ts p y) n
  ]

  dequeued_others : (u p : ℕ) → (u == t) ≡ false → count u (dequeued p) ≡ count u (s.waitq p)
  dequeued_others u p z = elim (Bool-cases (p == q)) [
    | inl y ↦
        let e : p ≡ q = ground (arith, y) in
        rw (e, updated_same_key s.waitq q ts, first) (ground (arith, z))
    | inr y ↦ rw (updated_other s.waitq q ts p y) refl
  ]

  pub wake-Coherent : Coherent made (wake (record s { waitq = dequeued }) t)
  unfolding wake end_timed_wait sleep_remove can_run is_dead on_sleepers
  wake-Coherent = by_wait (s.thread t).waiting_on refl
    where
      rouse :
          (thread : ℕ → Thread) (sleepers : List ℕ)
          → ((u : ℕ) → (u == t) ≡ false → thread u ≡ s.thread u)
          → ((u : ℕ) → (u == t) ≡ false → count u sleepers ≡ count u s.sleepers)
          → (thread t).state ≡ runnable
          → (thread t).waiting_on ≡ none
          → count t sleepers ≡ 0
          → Coherent made (record s {
            run_queue = s.run_queue ++ (t ∷ []);
            thread = thread;
            sleepers = sleepers;
            waitq = dequeued;
          })
      rouse thread sleepers et es r u z =
          rouses s t h (rw is_blocked refl) (rw is_blocked refl) thread sleepers dequeued et es
            dequeued_others r u z dequeued_self

      by_wait :
          (w : Option ℕ)
          → (s.thread t).waiting_on ≡ w
          → Coherent made (
              run_enqueue
                (set_state (end_timed_wait (record s { waitq = dequeued }) t w) t runnable)
                t)
      by_wait none e =
          let x = record (s.thread t) { state = runnable } in
          rouse (updated s.thread t x) s.sleepers (λ u y. updated_other s.thread t x u y)
            (λ u y. refl) (rw (updated_same_key s.thread t x) refl)
            (rw (updated_same_key s.thread t x) e) ((h.fits t).sleeps ∙ rw (is_blocked, e) refl)
      by_wait (some p) e =
          let x = record (s.thread t) { waiting_on = none } in
          let mid = updated s.thread t x in
          let y = record (mid t) { state = runnable } in
          rouse (updated mid t y) (unlink t s.sleepers)
            (λ u z. updated_other mid t y u z ∙ updated_other s.thread t x u z)
            (λ u z. let c = count-unlink u t s.sleepers in ground (arith, c, z))
            (rw (updated_same_key mid t y) refl)
            (rw (updated_same_key mid t y, updated_same_key s.thread t x) refl)
            (let c = count-unlink t t s.sleepers in
              let n : count t s.sleepers ≡ 1 = (h.fits t).sleeps ∙ rw (is_blocked, e) refl in
              ground (arith, c, n))
