-- ===== src/Mutex/Exclusion.antt =====
-- One thread at a time holds the mutex, and no wakeup is lost.
use manios.Base.{
  ℕ, ◌≡◌, ◌≢◌, refl, sym, ap, ◌∙◌, ◌⊎◌, inl, inr, true, Option, none, some, List, [], ◌∷◌, ◌++◌,
  ◌==◌, arith, Bool-cases,
}
use manios.Mutex.{
  Mutex, is_owner, Lock, locked, slept, already_held, lock_round, mutex_lock, wake_one,
  mutex_unlock,
}
use manios.Mutex.Steps.{
  Locks, without, Step, lock_enters, lock_sleeps, retry_enters, retry_sleeps, unlocks, Reach, start,
  next,
}

abbrev pub owners : Option ℕ → List ℕ
owners none = []
owners (some t) = t ∷ []

-- The threads inside are the owner, and where a free mutex has waiters a woken one will test it.
pub record IsSound (s : Locks) : Type 0 where
  pub exclusive : s.inside ≡ owners s.mutex.owner
  pub awake : s.mutex.owner ≡ none → (s.mutex.waiters ≡ []) ⊎ (s.woken ≢ [])

-- A round lets the thread in only where no thread owns the mutex.
lock_round-locked :
    (t : ℕ) (o : Option ℕ) (ws : List ℕ) (m : Mutex)
    → lock_round t o ws ≡ locked m
    → (o ≡ none) × (m.owner ≡ some t)
unfolding lock_round
lock_round-locked t none ws m e =
    let h : record { owner = some t; waiters = ws } ≡ m = cc in (refl, rw (sym h) refl)
lock_round-locked t (some o) ws m e = absurd cc

lock_round-slept :
    (t : ℕ) (o : Option ℕ) (ws : List ℕ) (m : Mutex)
    → lock_round t o ws ≡ slept m
    → (o ≢ none) × (m.owner ≡ o)
unfolding lock_round
lock_round-slept t none ws m e = absurd cc
lock_round-slept t (some o) ws m e =
    let h : record { owner = some o; waiters = ws ++ (t ∷ []) } ≡ m = cc in
    ((λ f. absurd cc), rw (sym h) refl)

mutex_lock-lock_round :
    (t : ℕ) (m : Mutex) (r : Lock)
    → mutex_lock t m ≡ r
    → r ≢ already_held
    → lock_round t m.owner m.waiters ≡ r
unfolding mutex_lock
mutex_lock-lock_round t m r e h = elim (Bool-cases (is_owner m.owner t)) [
  | inl y ↦ let g : already_held ≡ r = rw y at e in absurd (h (sym g))
  | inr y ↦ let g : lock_round t m.owner m.waiters ≡ r = rw y at e in g
]

enters-IsSound :
    (s : Locks) (t : ℕ) (m : Mutex) (us : List ℕ)
    → IsSound s
    → lock_round t s.mutex.owner s.mutex.waiters ≡ locked m
    → IsSound (record { mutex = m; inside = t ∷ s.inside; woken = us })
enters-IsSound s t m us h e =
    let (free, own) = lock_round-locked t s.mutex.owner s.mutex.waiters m e in
    record {
      exclusive = rw (own, h.exclusive, free) refl;
      awake = λ n. absurd (none_some (sym n ∙ own));
    }
  where
    none_some : {x : ℕ} → none ≡ some x → ⊥
    none_some p = cc

sleeps-IsSound :
    (s : Locks) (t : ℕ) (m : Mutex) (us : List ℕ)
    → IsSound s
    → lock_round t s.mutex.owner s.mutex.waiters ≡ slept m
    → IsSound (record { mutex = m; inside = s.inside; woken = us })
sleeps-IsSound s t m us h e =
    let (held, same) = lock_round-slept t s.mutex.owner s.mutex.waiters m e in
    record { exclusive = rw (same, h.exclusive) refl; awake = λ n. absurd (held (sym same ∙ n)) }

-- Only the owner unlocks.
mutex_unlock_lem :
    (t : ℕ) (o : Option ℕ) (waiters : List ℕ) (m : Mutex) (ws : List ℕ)
    → mutex_unlock t (record { owner = o; waiters = waiters }) ≡ some (m, ws)
    → (o ≡ some t) × (m.owner ≡ none) × ((m.waiters ≡ []) ⊎ (ws ≢ []))
unfolding mutex_unlock is_owner wake_one
mutex_unlock_lem t none waiters m ws e = absurd cc
mutex_unlock_lem t (some o) [] m ws e = elim (Bool-cases (o == t)) [
  | inl y ↦
      let own : o ≡ t = ground (arith, y) in
      let g : some (record { owner = none; waiters = [] }, []) ≡ some (m, ws) = rw y at e in
      let h : record { owner = none; waiters = [] } ≡ m = cc in
      (ap some own, rw (sym h) refl, inl (rw (sym h) refl))
  | inr y ↦ let g : none ≡ some (m, ws) = rw y at e in absurd cc
]
mutex_unlock_lem t (some o) (w ∷ rest) m ws e = elim (Bool-cases (o == t)) [
  | inl y ↦
      let own : o ≡ t = ground (arith, y) in
      let g : some (record { owner = none; waiters = rest }, w ∷ []) ≡ some (m, ws) = rw y at e in
      let h : record { owner = none; waiters = rest } ≡ m = cc in
      let v : w ∷ [] ≡ ws = cc in (ap some own, rw (sym h) refl, inr (λ p. absurd cc))
  | inr y ↦ let g : none ≡ some (m, ws) = rw y at e in absurd cc
]

unlocks-IsSound :
    (s : Locks) (t : ℕ) (m : Mutex) (ws : List ℕ)
    → IsSound s
    → mutex_unlock t s.mutex ≡ some (m, ws)
    → IsSound (record { mutex = m; inside = without t s.inside; woken = s.woken ++ ws })
unlocks-IsSound s t m ws h e =
    let (own, free, w) = mutex_unlock_lem t s.mutex.owner s.mutex.waiters m ws e in
    let here : (t == t) ≡ true = ground arith in
    record {
      exclusive = rw (h.exclusive, own, free, here) refl;
      awake = λ n. elim w [ inl q ↦ inl q | inr q ↦ inr (append_ne s.woken ws q) ];
    }
  where
    append_ne : (us vs : List ℕ) → vs ≢ [] → us ++ vs ≢ []
    append_ne [] vs q = q
    append_ne (u ∷ us) vs q = λ p. absurd cc

Step-IsSound : {s s' : Locks} → Step s s' → IsSound s → IsSound s'
Step-IsSound {s = s} (lock_enters t m e) h =
    enters-IsSound s t m s.woken h (mutex_lock-lock_round t s.mutex (locked m) e (λ p. absurd cc))
Step-IsSound {s = s} (lock_sleeps t m e) h =
    sleeps-IsSound s t m s.woken h (mutex_lock-lock_round t s.mutex (slept m) e (λ p. absurd cc))
Step-IsSound {s = s} (retry_enters t us vs m w e) h = enters-IsSound s t m (us ++ vs) h e
Step-IsSound {s = s} (retry_sleeps t us vs m w e) h = sleeps-IsSound s t m (us ++ vs) h e
Step-IsSound {s = s} (unlocks t m ws e) h = unlocks-IsSound s t m ws h e

-- Whatever threads lock and unlock a mutex, in whatever order, the threads that mutex_lock has let
-- in and that have not left are exactly the owner, so that there is one at most, and where the
-- mutex is free and threads wait for it, one that is woken is about to test it.
pub Reach-IsSound : {s : Locks} → Reach s → IsSound s
Reach-IsSound start = record { exclusive = refl; awake = λ n. inl refl }
Reach-IsSound (next r e) = Step-IsSound e (Reach-IsSound r)
