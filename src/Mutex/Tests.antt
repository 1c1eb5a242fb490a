-- ===== src/Mutex/Tests.antt =====
-- Thread 2 waits for thread 1, and is woken by it.
use manios.Base.{refl, some, [], ◌∷◌, ◌≡◌}
use manios.Mutex.{Mutex, mutex_init, locked, slept, mutex_lock, mutex_unlock}
use manios.Mutex.Steps.{Locks, lock_enters, lock_sleeps, unlocks, Reach, start, next}
use manios.Mutex.Exclusion.{IsSound, Reach-IsSound}

abbrev held : Mutex
held = record { owner = some 1; waiters = [] }

abbrev waited_for : Mutex
waited_for = record { owner = some 1; waiters = 2 ∷ [] }

one_enters : mutex_lock 1 mutex_init ≡ locked held
unfolding mutex_lock
one_enters = refl

two_sleeps : mutex_lock 2 held ≡ slept waited_for
unfolding mutex_lock
two_sleeps = refl

one_leaves : mutex_unlock 1 waited_for ≡ some (mutex_init, 2 ∷ [])
unfolding mutex_unlock
one_leaves = refl

abbrev two_is_woken : Locks
two_is_woken = record { mutex = mutex_init; inside = []; woken = 2 ∷ [] }

abbrev three_steps : Reach two_is_woken
three_steps =
    next (next (next start (lock_enters 1 held one_enters)) (lock_sleeps 2 waited_for two_sleeps))
      (unlocks 1 mutex_init (2 ∷ []) one_leaves)

Reach-IsSound_example : IsSound two_is_woken
Reach-IsSound_example = Reach-IsSound three_steps
