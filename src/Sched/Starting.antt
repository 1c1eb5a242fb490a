-- ===== src/Sched/Starting.antt =====
-- The thread that schedule takes runs, and the one that was left is freed if it is dead.
use manios.Base.{
  ℕ, ◌-◌, ◌≡◌, refl, sym, ap, ◌∙◌, inl, inr, Bool, true, false, ◌||◌, true-ne-false, List, arith,
  ◌==◌, Bool-cases,
}
use manios.Sched.{
  Sched, Thread, runnable, running, is_dead, updated, finish_switch, switch_to, time_slice_ticks,
}
use manios.Sched.Counts.{one, count, count-unlink, length-unlink}
use manios.Sched.Fits.{listed, FitsIn, IsPending, waiting, Fits-same, Coherent}
use manios.Sched.Switch.{
  Rested, updated_same_key, updated_other, listed_alive, listed_dead, Fits-starts,
}

module _ {made : ℕ → Bool} (s : Sched) (queue : List ℕ) (t : ℕ) (h : Rested made s)
    (ready : (s.thread t).state ≡ runnable)
    (others : (u : ℕ) → (u == t) ≡ false → count u queue ≡ count u s.run_queue)
    (taken : count t queue ≡ 0) (unmade : made t ≡ false) where
  abbrev started : Thread
  started = record (s.thread t) { state = running }

  abbrev after_start : Sched
  after_start = record s { run_queue = queue; thread = updated s.thread t started }

  started_at :
      (u : ℕ)
      → (u == t) ≡ true
      → updated s.thread t started u ≡ record (s.thread u) { state = running }
  started_at u y = let e : u ≡ t = ground (arith, y) in rw e (updated_same_key s.thread t started)

  starts-fits : (u : ℕ) → FitsIn made after_start u
  starts-fits u = elim (Bool-cases (u == t)) [
    | inl y ↦
        let e : u ≡ t = ground (arith, y) in
        Fits-same (started_at u y) (rw e taken) refl (λ q. refl)
          (Fits-starts (made u || u == s.idle) (s.thread u) (count u s.run_queue)
            (count u s.sleepers) (waiting s u) (rw e ready) (h.fits u))
    | inr y ↦
        Fits-same (updated_other s.thread t started u y) (others u y) refl (λ q. refl) (h.fits u)
  ]

  starts-active : (updated s.thread t started t).state ≡ running
  starts-active = ap (λ x. x.state) (updated_same_key s.thread t started)

  starts-only : (u : ℕ) → (updated s.thread t started u).state ≡ running → u ≡ t
  starts-only u r = elim (Bool-cases (u == t)) [
    | inl y ↦ ground (arith, y)
    | inr y ↦
        absurd (h.nobody u (sym (ap (λ x. x.state) (updated_other s.thread t started u y)) ∙ r))
  ]

  starts-IsPending : (u : ℕ) → made u ≡ true → IsPending after_start u
  starts-IsPending u m = (
    (h.pending u m).0,
    elim (Bool-cases (u == t)) [
      | inl y ↦ let e : u ≡ t = ground (arith, y) in absurd (true-ne-false (rw e at m) unmade)
      | inr y ↦ ap (λ x. x.state) (updated_other s.thread t started u y) ∙ (h.pending u m).1
    ],
  )

  -- All threads are listed as their states say, but for the one that was left.
  starts-all :
      (u : ℕ)
      → (u == s.current) ≡ false
      → count u s.all_threads ≡ listed (updated s.thread t started u).state
  unfolding listed
  starts-all u y = elim (Bool-cases (u == t)) [
    | inl z ↦
        let e : u ≡ t = ground (arith, z) in h.all u ∙ rw (y, started_at u z) (rw e (rw ready refl))
    | inr z ↦ h.all u ∙ rw (y, updated_other s.thread t started u z) refl
  ]

  -- The thread that was left, where it is on all_threads.
  left_behind : (u : ℕ) → (u == s.current) ≡ true → count u s.all_threads ≡ 1
  left_behind u y = h.all u ∙ rw y refl

  -- The thread that was left goes on.
  goes_on :
      (t == s.current) ≡ true → Coherent made (record after_start { slice_left = time_slice_ticks })
  unfolding listed
  goes_on y =
      let e : t ≡ s.current = ground (arith, y) in
      record {
        fits = starts-fits;
        active = ap (λ v. (updated s.thread t started v).state) (sym e) ∙ starts-active;
        only = λ u r. starts-only u r ∙ e;
        all = λ u. elim (Bool-cases (u == s.current)) [
          | inl z ↦
              let e' : u ≡ s.current = ground (arith, z) in
              left_behind u z ∙ rw (started_at u (ground (arith, e, e'))) refl
          | inr z ↦ starts-all u z
        ];
        counted = h.counted;
        pending = starts-IsPending;
      }

  abbrev after_switch : Sched
  after_switch = record after_start { slice_left = time_slice_ticks; current = t }

  -- Another thread goes on, and the one that was left is freed if it is dead.
  hands_over : (t == s.current) ≡ false → Coherent made (finish_switch s.current after_switch)
  unfolding finish_switch listed is_dead
  hands_over y = elim (Bool-cases (is_dead (updated s.thread t started s.current).state)) [
    | inl d ↦ rw d (record {
      fits = starts-fits;
      active = starts-active;
      only = starts-only;
      all = λ u. count-unlink u s.current s.all_threads ∙ without d u;
      counted =
          let n = h.counted in
          let m = length-unlink s.current s.all_threads (ground (arith, left_behind s.current)) in
          omega (arith, n, m);
      pending = starts-IsPending;
    })
    | inr d ↦ rw d (record {
      fits = starts-fits;
      active = starts-active;
      only = starts-only;
      all = λ u. elim (Bool-cases (u == s.current)) [
        | inl z ↦
            let e : u ≡ s.current = ground (arith, z) in
            left_behind u z
            ∙ sym (rw e (listed_alive (updated s.thread t started s.current).state d))
        | inr z ↦ starts-all u z
      ];
      counted = h.counted;
      pending = starts-IsPending;
    })
  ]
    where
      without :
          is_dead (updated s.thread t started s.current).state ≡ true
          → (u : ℕ)
          → count u s.all_threads - one u s.current ≡ listed (updated s.thread t started u).state
      without d u = elim (Bool-cases (u == s.current)) [
        | inl z ↦
            let e : u ≡ s.current = ground (arith, z) in
            rw (z, left_behind u z)
              (sym (rw e (listed_dead (updated s.thread t started s.current).state d)))
        | inr z ↦ rw z (omega (arith, starts-all u z))
      ]

  pub switch_to-Coherent : Coherent made (switch_to (record s { run_queue = queue }) t)
  unfolding switch_to
  switch_to-Coherent = elim (Bool-cases (t == s.current)) [
    | inl y ↦ rw y (goes_on y)
    | inr y ↦ rw y (hands_over y)
  ]
