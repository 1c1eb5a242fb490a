-- ===== src/Mutex/Steps.antt =====
-- The steps that threads take on one mutex, in any order: a critical section of mutex.c is one
-- step.
use manios.Base.{ℕ, ◌≡◌, some, List, [], ◌∷◌, ◌++◌, ◌==◌, if◌then◌else◌}
use manios.Mutex.{Mutex, mutex_init, locked, slept, lock_round, mutex_lock, mutex_unlock}

-- The mutex, the threads that mutex_lock has let in and that have not left, and the threads that
-- are woken and have not tested the owner again.
pub record Locks : Type 0 where
  pub mutex : Mutex
  pub inside : List ℕ
  pub woken : List ℕ

abbrev pub without : ℕ → List ℕ → List ℕ
without t [] = []
without t (u ∷ us) = if u == t then us else u ∷ without t us

pub data Step : Locks → Locks → Type 0 where
  -- mutex_lock returns.
  lock_enters :
      {s : Locks} (t : ℕ) (m : Mutex)
      → mutex_lock t s.mutex ≡ locked m
      → Step s (record s { mutex = m; inside = t ∷ s.inside })
  -- mutex_lock sleeps.
  lock_sleeps :
      {s : Locks} (t : ℕ) (m : Mutex)
      → mutex_lock t s.mutex ≡ slept m
      → Step s (record s { mutex = m })
  -- A woken waiter tests the owner again, and mutex_lock returns.
  retry_enters :
      {s : Locks} (t : ℕ) (us vs : List ℕ) (m : Mutex)
      → s.woken ≡ us ++ (t ∷ vs)
      → lock_round t s.mutex.owner s.mutex.waiters ≡ locked m
      → Step s (record { mutex = m; inside = t ∷ s.inside; woken = us ++ vs })
  -- A woken waiter sleeps again.
  retry_sleeps :
      {s : Locks} (t : ℕ) (us vs : List ℕ) (m : Mutex)
      → s.woken ≡ us ++ (t ∷ vs)
      → lock_round t s.mutex.owner s.mutex.waiters ≡ slept m
      → Step s (record s { mutex = m; woken = us ++ vs })
  -- mutex_unlock returns.
  unlocks :
      {s : Locks} (t : ℕ) (m : Mutex) (ws : List ℕ)
      → mutex_unlock t s.mutex ≡ some (m, ws)
      → Step s (record { mutex = m; inside = without t s.inside; woken = s.woken ++ ws })

abbrev pub first_locks : Locks
first_locks = record { mutex = mutex_init; inside = []; woken = [] }

-- The states that are reached from a mutex that no thread has used.
pub data Reach : Locks → Type 0 where
  start : Reach first_locks
  next : {s s' : Locks} → Reach s → Step s s' → Reach s'
