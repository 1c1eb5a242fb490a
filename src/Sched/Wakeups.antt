-- ===== src/Sched/Wakeups.antt =====
-- The loops that wake threads, and a timer tick, keep the scheduler coherent.
use manios.Base.{
  ℕ, ◌≡◌, refl, ◌∙◌, inl, inr, Bool, true, false, Option, none, some, List, [], ◌∷◌, ◌==◌,
  Bool-cases, leb,
}
use manios.Sched.{
  Sched, updated, waitq_pop, pop_all, waitq_wake_one, waitq_wake_all, wake, wake_sleeper, wake_due,
  ticks, count_idle, sched_tick, end_timed_wait, time_out, sleep_remove, waitq_remove,
}
use manios.Sched.Fits.{Coherent}
use manios.Sched.Switch.{updated_same_key}
use manios.Sched.Resched.{resched_if_idle-Coherent, end_tick-Coherent}
use manios.Sched.Waking.{wake-Coherent}
use manios.Sched.Expiry.{wake_sleeper-Coherent}

waitq_pop-Coherent :
    {made : ℕ → Bool} (s : Sched) (q : ℕ) (us : List ℕ)
    → s.waitq q ≡ us
    → Coherent made s
    → Coherent made (waitq_pop s q us)
unfolding waitq_pop
waitq_pop-Coherent s q [] e h = h
waitq_pop-Coherent s q (t ∷ ts) e h = wake-Coherent s h q t ts e

wake-waitq : (s : Sched) (t q : ℕ) → (wake s t).waitq q ≡ s.waitq q
unfolding wake end_timed_wait sleep_remove
wake-waitq s t q = by_wait (s.thread t).waiting_on
  where
    by_wait : (w : Option ℕ) → (end_timed_wait s t w).waitq q ≡ s.waitq q
    by_wait none = refl
    by_wait (some p) = refl

pop_all-Coherent :
    {made : ℕ → Bool} (s : Sched) (q : ℕ) (us : List ℕ)
    → s.waitq q ≡ us
    → Coherent made s
    → Coherent made (pop_all s q us)
unfolding pop_all
pop_all-Coherent s q [] e h = h
pop_all-Coherent s q (t ∷ ts) e h =
    let s' = record s { waitq = updated s.waitq q ts } in
    pop_all-Coherent (wake s' t) q ts (wake-waitq s' t q ∙ updated_same_key s.waitq q ts)
      (wake-Coherent s h q t ts e)

wake_sleeper-sleepers : (s : Sched) (t : ℕ) → (wake_sleeper s t).sleepers ≡ s.sleepers
unfolding wake_sleeper time_out waitq_remove
wake_sleeper-sleepers s t = by_wait (s.thread t).waiting_on
  where
    by_wait : (w : Option ℕ) → (time_out s t w).sleepers ≡ s.sleepers
    by_wait none = refl
    by_wait (some p) = refl

wake_due-Coherent :
    {made : ℕ → Bool} (now : ℕ) (us : List ℕ) (s : Sched)
    → s.sleepers ≡ us
    → Coherent made s
    → Coherent made (wake_due now us s)
unfolding wake_due
wake_due-Coherent {made} now [] s e h = h
wake_due-Coherent {made} now (t ∷ ts) s e h = by_due (leb (ticks s t) now) (
    wake_due-Coherent now ts (wake_sleeper (record s { sleepers = ts }) t)
      (wake_sleeper-sleepers (record s { sleepers = ts }) t) (wake_sleeper-Coherent s h t ts e))
  where
    by_due :
        (b : Bool)
        → Coherent made (wake_due now ts (wake_sleeper (record s { sleepers = ts }) t))
        → Coherent made (elim b [
          | true ↦ wake_due now ts (wake_sleeper (record s { sleepers = ts }) t)
          | false ↦ s
        ])
    by_due true rest = rest
    by_due false rest = h

count_idle-Coherent : {made : ℕ → Bool} (s : Sched) → Coherent made s → Coherent made (count_idle s)
unfolding count_idle
count_idle-Coherent s h = elim (Bool-cases (s.current == s.idle)) [
  | inl y ↦ rw y (record {
    fits = h.fits;
    active = h.active;
    only = h.only;
    all = h.all;
    counted = h.counted;
    pending = h.pending;
  })
  | inr y ↦ rw y h
]

pub sched_tick-Coherent :
    {made : ℕ → Bool} (now : ℕ) (s : Sched) → Coherent made s → Coherent made (sched_tick now s)
unfolding sched_tick
sched_tick-Coherent now s h =
    let s' = count_idle s in
    end_tick-Coherent (wake_due now s'.sleepers s')
      (wake_due-Coherent now s'.sleepers s' refl (count_idle-Coherent s h))

pub waitq_wake_one-Coherent :
    {made : ℕ → Bool} (s : Sched) (q : ℕ) → Coherent made s → Coherent made (waitq_wake_one s q)
unfolding waitq_wake_one
waitq_wake_one-Coherent s q h =
    resched_if_idle-Coherent (waitq_pop s q (s.waitq q)) (waitq_pop-Coherent s q (s.waitq q) refl h)

pub waitq_wake_all-Coherent :
    {made : ℕ → Bool} (s : Sched) (q : ℕ) → Coherent made s → Coherent made (waitq_wake_all s q)
unfolding waitq_wake_all
waitq_wake_all-Coherent s q h =
    resched_if_idle-Coherent (pop_all s q (s.waitq q)) (pop_all-Coherent s q (s.waitq q) refl h)
