-- ===== src/Sched/Rouse.antt =====
-- What wake_sleeper changes of the thread that it wakes, and of nothing else.
use manios.Base.{
  ℕ, ◌-◌, ◌≡◌, refl, sym, ap, ◌∙◌, inl, inr, Bool, true, if◌then◌else◌, Option, none, some, List,
  [], ◌∷◌, ◌++◌, arith, ◌==◌, Bool-cases,
}
use manios.Sched.{
  Sched, Thread, ThreadState, runnable, updated, set_state, run_enqueue, ticks, time_out,
  wake_sleeper, waitq_remove, unlink,
}
use manios.Sched.Counts.{one, count, count-unlink}

abbrev timed : Option ℕ → Bool → Bool
timed none late = late
timed (some q) late = true

-- A sleeper that is woken: it waits for nothing, and its timed wait has timed out.
abbrev pub woken : Thread → Thread
woken x = record x {
  state = runnable;
  waiting_on = none;
  timed_out = timed x.waiting_on x.timed_out;
}

-- How often a sleeper that is woken leaves the wait queue `q`.
abbrev pub left : Option ℕ → ℕ → ℕ
left none q = 0
left (some p) q = if q == p then 1 else 0

-- What waking a thread changes and what not.
pub record Wakes (t : ℕ) (s s' : Sched) : Type 0 where
  pub run_queue : s'.run_queue ≡ s.run_queue ++ (t ∷ [])
  pub sleepers : s'.sleepers ≡ s.sleepers
  pub current : s'.current ≡ s.current
  pub same_ticks : (u : ℕ) → ticks s' u ≡ ticks s u
  pub awake : (s'.thread t).state ≡ runnable
  pub others : (u : ℕ) → (s.thread u).state ≡ runnable → (s'.thread u).state ≡ runnable
  pub threads : (u : ℕ) → s'.thread u ≡ (if u == t then woken (s.thread u) else s.thread u)
  pub waits :
      (u q : ℕ)
      → count u (s'.waitq q)
        ≡ count u (s.waitq q) - (if u == t then left (s.thread u).waiting_on q else 0)

updated_self {ℓ} : {A : Type ℓ} (f : ℕ → A) (t : ℕ) (x : A) → updated f t x t ≡ x
unfolding updated
updated_self f t x = rw same refl
  where
    same : (t == t) ≡ true
    same = ground arith

-- What a thread has in common with its new value it keeps under every number.
updated_same {ℓ κ} :
    {A : Type ℓ} {B : Type κ} (g : A → B) (f : ℕ → A) (t : ℕ) (x : A)
    → g x ≡ g (f t)
    → (u : ℕ) → g (updated f t x u) ≡ g (f u)
unfolding updated
updated_same g f t x e u = elim (Bool-cases (u == t)) [
  | inl y ↦ rw y (e ∙ ap (λ v. g (f v)) (ground (arith, y)))
  | inr y ↦ rw y refl
]

updated_state :
    (f : ℕ → Thread) (t : ℕ) (x : Thread)
    → x.state ≡ runnable
    → (u : ℕ) → (f u).state ≡ runnable
    → (updated f t x u).state ≡ runnable
unfolding updated
updated_state f t x e u h = elim (Bool-cases (u == t)) [ inl y ↦ rw y e | inr y ↦ rw y h ]

abbrev tick_of : Thread → ℕ
tick_of x = x.wake_tick

abbrev state_of : Thread → ThreadState
state_of x = x.state

woken_by :
    (x : Thread) {w : Option ℕ}
    → x.waiting_on ≡ w
    → record x { state = runnable; waiting_on = none; timed_out = timed w x.timed_out } ≡ woken x
woken_by x e =
    ap (λ v. record x { state = runnable; waiting_on = none; timed_out = timed v x.timed_out })
      (sym e)

-- The thread `t` alone has a new value.
updated-woken :
    (f : ℕ → Thread) (t : ℕ) (x : Thread)
    → x ≡ woken (f t)
    → (u : ℕ) → updated f t x u ≡ (if u == t then woken (f u) else f u)
unfolding updated
updated-woken f t x e u = elim (Bool-cases (u == t)) [
  | inl y ↦ let same : t ≡ u = ground (arith, y) in rw y (e ∙ ap (λ v. woken (f v)) same)
  | inr y ↦ rw y refl
]

-- It times out, and then it is runnable.
woken_twice :
    (f : ℕ → Thread) (t : ℕ) (x : Thread)
    → record x { state = runnable } ≡ woken (f t)
    → (u : ℕ)
    → updated (updated f t x) t (record (updated f t x t) { state = runnable }) u
      ≡ (if u == t then woken (f u) else f u)
unfolding updated
woken_twice f t x e u = elim (Bool-cases (u == t)) [
  | inl y ↦
      let same : t ≡ u = ground (arith, y) in
      rw y (ap made_runnable (updated_self f t x) ∙ e ∙ ap (λ v. woken (f v)) same)
  | inr y ↦ rw y refl
]
  where
    made_runnable : Thread → Thread
    made_runnable v = record v { state = runnable }

-- The thread `t` leaves the wait queue `p`.
unlinked :
    (waitq : ℕ → List ℕ) (p t u q : ℕ)
    → count u (updated waitq p (unlink t (waitq p)) q)
      ≡ count u (waitq q) - (if u == t then left (some p) q else 0)
unfolding updated
unlinked waitq p t u q = elim (Bool-cases (q == p)) [
  | inl y ↦
      let same : p ≡ q = ground (arith, y) in
      let c = count-unlink u t (waitq p) in rw y (c ∙ ap (λ v. count u (waitq v) - one u t) same)
  | inr y ↦ rw y (ground arith)
]

runnable-Wakes :
    (s : Sched) (t : ℕ)
    → (s.thread t).waiting_on ≡ none
    → Wakes t s (run_enqueue (set_state s t runnable) t)
runnable-Wakes s t e = record {
  run_queue = refl;
  sleepers = refl;
  current = refl;
  same_ticks = updated_same tick_of s.thread t _ refl;
  awake = ap state_of (updated_self s.thread t _);
  others = updated_state s.thread t _ refl;
  threads = updated-woken s.thread t _ (
      ap (λ w. record (s.thread t) { state = runnable; waiting_on = w }) e
      ∙ woken_by (s.thread t) e);
  waits = λ u q. elim (Bool-cases (u == t)) [
    | inl y ↦
        let same : u ≡ t = ground (arith, y) in
        let w : (s.thread u).waiting_on ≡ none = ap (λ v. (s.thread v).waiting_on) same ∙ e in
        rw (y, w) (omega arith)
    | inr y ↦ rw y (omega arith)
  ];
}

pub wake_sleeper-Wakes : (s : Sched) (t : ℕ) → Wakes t s (wake_sleeper s t)
unfolding wake_sleeper time_out waitq_remove
wake_sleeper-Wakes s t = go (s.thread t).waiting_on refl
  where
    go :
        (w : Option ℕ)
        → (s.thread t).waiting_on ≡ w
        → Wakes t s (let s' = time_out s t w in run_enqueue (set_state s' t runnable) t)
    go none e = runnable-Wakes s t e
    go (some q) e = record {
      run_queue = refl;
      sleepers = refl;
      current = refl;
      same_ticks =
          λ u. updated_same tick_of _ t _ refl u ∙ updated_same tick_of s.thread t _ refl u;
      awake = ap state_of (updated_self _ t _);
      others = λ u h. updated_state _ t _ refl u (updated_same state_of s.thread t _ refl u ∙ h);
      threads =
          woken_twice s.thread t (record (s.thread t) { waiting_on = none; timed_out = true })
            (woken_by (s.thread t) e);
      waits = λ u p. unlinked s.waitq q t u p ∙ elim (Bool-cases (u == t)) [
        | inl y ↦
            let same : u ≡ t = ground (arith, y) in
            let w : (s.thread u).waiting_on ≡ some q = ap (λ v. (s.thread v).waiting_on) same ∙ e in
            rw (y, w) refl
        | inr y ↦ rw y refl
      ];
    }
