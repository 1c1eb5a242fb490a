-- ===== src/Sched/Tick.antt =====
-- sched_tick wakes exactly the sleepers that are due.
use manios.Base.{
  ℕ, ◌-◌, ◌≤◌, ◌<◌, ◌≡◌, Bool, false, if◌then◌else◌, ◌||◌, List, [], ◌∷◌, ◌++◌, ◌==◌, All,
}
use manios.Sched.{Sched, runnable}
use manios.Sched.Counts.{count}
use manios.Sched.Rouse.{woken, left}

abbrev is_in : ℕ → List ℕ → Bool
is_in u [] = false
is_in u (t ∷ ts) = u == t || is_in u ts

-- The sleepers up to `now` are woken, in order, and the others sleep on; no other thread changes.
pub record WakesDue (tick : ℕ → ℕ) (now : ℕ) (ts due rest : List ℕ) (s s' : Sched) : Type 0 where
  pub split : ts ≡ due ++ rest
  pub past : All (λ t. tick t ≤ now) due
  future : All (λ t. now < tick t) rest
  pub run_queue : s'.run_queue ≡ s.run_queue ++ due
  pub sleepers : s'.sleepers ≡ rest
  pub current : s'.current ≡ s.current
  pub awake : All (λ t. (s'.thread t).state ≡ runnable) due
  pub others : (u : ℕ) → (s.thread u).state ≡ runnable → (s'.thread u).state ≡ runnable
  threads : (u : ℕ) → s'.thread u ≡ (if is_in u due then woken (s.thread u) else s.thread u)
  waits :
      (u q : ℕ)
      → count u (s'.waitq q)
        ≡ count u (s.waitq q) - (if is_in u due then left (s.thread u).waiting_on q else 0)
