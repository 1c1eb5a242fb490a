-- ===== src/Sched/Expiry.antt =====
-- The first of the sleepers, when its time is there.
use manios.Base.{
  ℕ, ◌+◌, ◌-◌, ◌≡◌, refl, ◌∙◌, inl, inr, Bool, true, false, Option, none, some, List, [], ◌∷◌, ◌++◌,
  arith, ◌==◌, if◌then◌else◌, Bool-cases,
}
use manios.Sched.{
  Sched, Thread, ThreadState, runnable, running, sleeping, blocked, dead, updated, unlink, is_dead,
  time_out, wake_sleeper, waitq_remove, run_enqueue, set_state,
}
use manios.Sched.Counts.{one, count, count-unlink}
use manios.Sched.Fits.{on_sleepers, on_waitq, can_run, Coherent}
use manios.Sched.Switch.{updated_same_key, updated_other}
use manios.Sched.Waking.{rouses}

-- A thread among the sleepers sleeps, or waits for at most a time.
asleep :
    (x : Thread) (n : ℕ)
    → 1 + n ≡ on_sleepers x.state x.waiting_on
    → (n ≡ 0) × (can_run x.state ≡ false) × (is_dead x.state ≡ false)
unfolding on_sleepers can_run is_dead
asleep x n h = by_state x.state x.waiting_on h
  where
    by_state :
        (y : ThreadState) (w : Option ℕ)
        → 1 + n ≡ on_sleepers y w
        → (n ≡ 0) × (can_run y ≡ false) × (is_dead y ≡ false)
    by_state sleeping w e = (omega (arith, e), refl, refl)
    by_state blocked (some q) e = (omega (arith, e), refl, refl)
    by_state blocked none e = absurd (omega (arith, e))
    by_state runnable w e = absurd (omega (arith, e))
    by_state running w e = absurd (omega (arith, e))
    by_state dead w e = absurd (omega (arith, e))

unqueued :
    (x : ThreadState) (w : Option ℕ) (n : ℕ) → 1 + n ≡ on_sleepers x w → w ≡ none → on_waitq x ≡ 0
unfolding on_sleepers on_waitq
unqueued runnable w n h e = refl
unqueued running w n h e = refl
unqueued sleeping w n h e = refl
unqueued dead w n h e = refl
unqueued blocked none n h e = absurd (omega (arith, h))
unqueued blocked (some q) n h e = absurd (ground (arith, e))

-- The first of the sleepers.
module _ {made : ℕ → Bool} (s : Sched) (h : Coherent made s) (t : ℕ) (ts : List ℕ)
    (first : s.sleepers ≡ t ∷ ts) where
  rest_sleeps : 1 + count t ts ≡ on_sleepers (s.thread t).state (s.thread t).waiting_on
  rest_sleeps =
      let c : count t s.sleepers ≡ count t (t ∷ ts) = rw first refl in
      let f = (h.fits t).sleeps in ground (arith, c, f)

  rest_others : (u : ℕ) → (u == t) ≡ false → count u ts ≡ count u s.sleepers
  rest_others u y = rw first (ground (arith, y))

  removed :
      (u p q : ℕ)
      → count u (updated s.waitq q (unlink t (s.waitq q)) p)
        ≡ count u (s.waitq p) - (if p == q then one u t else 0)
  removed u p q = elim (Bool-cases (p == q)) [
    | inl y ↦
        let e : p ≡ q = ground (arith, y) in
        rw (y, e, updated_same_key s.waitq q (unlink t (s.waitq q))) (count-unlink u t (s.waitq q))
    | inr y ↦ rw (y, updated_other s.waitq q (unlink t (s.waitq q)) p y) (omega arith)
  ]

  pub wake_sleeper-Coherent : Coherent made (wake_sleeper (record s { sleepers = ts }) t)
  unfolding wake_sleeper time_out waitq_remove on_waitq
  wake_sleeper-Coherent = by_wait (s.thread t).waiting_on refl
    where
      rouse :
          (thread : ℕ → Thread) (waitq : ℕ → List ℕ)
          → ((u : ℕ) → (u == t) ≡ false → thread u ≡ s.thread u)
          → ((u q : ℕ) → (u == t) ≡ false → count u (waitq q) ≡ count u (s.waitq q))
          → (thread t).state ≡ runnable
          → (thread t).waiting_on ≡ none
          → ((q : ℕ) → count t (waitq q) ≡ 0)
          → Coherent made (record s {
            run_queue = s.run_queue ++ (t ∷ []);
            thread = thread;
            sleepers = ts;
            waitq = waitq;
          })
      rouse thread waitq et eq r u z =
          let a = asleep (s.thread t) (count t ts) rest_sleeps in
          rouses s t h a.1 a.2 thread ts waitq et rest_others eq r u a.0 z

      by_wait :
          (w : Option ℕ)
          → (s.thread t).waiting_on ≡ w
          → Coherent made
              (run_enqueue (set_state (time_out (record s { sleepers = ts }) t w) t runnable) t)
      by_wait none e =
          let x = record (s.thread t) { state = runnable } in
          rouse (updated s.thread t x) s.waitq (λ u y. updated_other s.thread t x u y)
            (λ u q y. refl) (rw (updated_same_key s.thread t x) refl)
            (rw (updated_same_key s.thread t x) e)
            (λ q.
              let w = (h.fits t).waits q in
              let o =
                unqueued (s.thread t).state (s.thread t).waiting_on (count t ts) rest_sleeps e in
              ground (arith, w, o))
      by_wait (some q) e =
          let x = record (s.thread t) { waiting_on = none; timed_out = true } in
          let mid = updated s.thread t x in
          let y = record (mid t) { state = runnable } in
          rouse (updated mid t y) (updated s.waitq q (unlink t (s.waitq q)))
            (λ u z. updated_other mid t y u z ∙ updated_other s.thread t x u z)
            (λ u p z. let c = removed u p q in ground (arith, c, z))
            (rw (updated_same_key mid t y) refl)
            (rw (updated_same_key mid t y, updated_same_key s.thread t x) refl)
            (λ p.
              let c = removed t p q in
              let w = (h.fits t).waits p in
              let i = ((h.fits t).timed q e).0 in
              let b = ((h.fits t).timed q e).1 in
              let o : on_waitq (s.thread t).state ≡ 1 = rw b refl in ground (arith, c, w, i, o))
