-- ===== src/Mutex.antt =====
-- zkt/scheduler/mutex.c: the sleeping lock. A thread is its number, and the queue of waiters the
-- list of the threads that waitq_sleep has put on it.
pub mod Steps
pub mod Exclusion
mod Tests
use manios.Base.{
  ℕ, Bool, true, false, Option, none, some, List, [], ◌∷◌, ◌++◌, ◌==◌, if◌then◌else◌, not,
}

pub record Mutex : Type 0 where
  -- none: the NULL of a mutex that no thread holds
  pub owner : Option ℕ
  pub waiters : List ℕ

-- MUTEX_INIT
abbrev pub mutex_init : Mutex
mutex_init = record { owner = none; waiters = [] }

pub is_owner : Option ℕ → ℕ → Bool
is_owner none t = false
is_owner (some o) t = o == t

-- What mutex_lock does up to where the thread returns, sleeps or panics.
pub data Lock : Type 0 where
  locked : Mutex → Lock
  slept : Mutex → Lock
  already_held : Lock

-- One test of `while (m->owner)`, and what follows it. A woken waiter does it again.
pub lock_round : ℕ → Option ℕ → List ℕ → Lock
lock_round t none waiters = locked (record { owner = some t; waiters = waiters })
lock_round t (some o) waiters = slept (record { owner = some o; waiters = waiters ++ (t ∷ []) })

pub mutex_lock : ℕ → Mutex → Lock
unfolding is_owner lock_round
mutex_lock t m = if is_owner m.owner t then already_held else lock_round t m.owner m.waiters

-- waitq_wake_one: the queue that is left, and the threads that are woken.
pub wake_one : List ℕ → List ℕ × List ℕ
wake_one [] = ([], [])
wake_one (w ∷ ws) = (ws, w ∷ [])

-- The mutex, and the threads that are woken; none for the panic.
pub mutex_unlock : ℕ → Mutex → Option (Mutex × List ℕ)
unfolding is_owner wake_one
mutex_unlock t m =
    let (left, woken) = wake_one m.waiters in
    if not (is_owner m.owner t) then none else some (record { owner = none; waiters = left }, woken)
