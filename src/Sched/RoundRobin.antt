-- ===== src/Sched/RoundRobin.antt =====
-- schedule takes turns.
use mathlib.Core.Path.{subst}
use manios.Base.{
  All-snoc, ℕ, zero, suc, ◌≡◌, ◌≢◌, refl, sym, ap, ◌∙◌, inl, inr, true, false, not, ◌&&◌, none,
  some, List, [], ◌∷◌, ◌++◌, arith, ◌==◌, if◌then◌else◌, Bool-cases, All, get_elem?,
}
use manios.Sched.{
  Sched, running, runnable, updated, set_state, run_enqueue, is_running, is_dead, finish_switch,
  put_back, switch_to, run_next, schedule, thread_yield, time_slice_ticks,
}

-- The threads that schedule chooses from, in order.
abbrev candidates : Sched → List ℕ
candidates s =
    if is_running (s.thread s.current).state && not (s.current == s.idle)
    then s.run_queue ++ (s.current ∷ [])
    else s.run_queue

abbrev first_or : ℕ → List ℕ → ℕ
first_or d [] = d
first_or d (t ∷ ts) = t

abbrev rest_of : List ℕ → List ℕ
rest_of [] = []
rest_of (t ∷ ts) = ts

-- `s'` runs `t` for a whole time slice, with `ts` waiting for their turns.
pub record Runs (s s' : Sched) (t : ℕ) (ts : List ℕ) : Type 0 where
  pub current : s'.current ≡ t
  pub run_queue : s'.run_queue ≡ ts
  pub state : (s'.thread t).state ≡ running
  pub slice : s'.slice_left ≡ time_slice_ticks
  pub sleepers : s'.sleepers ≡ s.sleepers
  pub idle : s'.idle ≡ s.idle

same_number : (t : ℕ) → (t == t) ≡ true
same_number t = ground arith

finish_switch-Runs :
    {s s' : Sched} {t : ℕ} {ts : List ℕ} (prev : ℕ)
    → Runs s s' t ts
    → Runs s (finish_switch prev s') t ts
unfolding finish_switch
finish_switch-Runs {s' = s'} prev r = elim (Bool-cases (is_dead (s'.thread prev).state)) [
  | inl e ↦ rw e (record {
    current = r.current;
    run_queue = r.run_queue;
    state = r.state;
    slice = r.slice;
    sleepers = r.sleepers;
    idle = r.idle;
  })
  | inr e ↦ rw e r
]

switch_to-Runs : (s : Sched) (t : ℕ) → Runs s (switch_to s t) t s.run_queue
unfolding switch_to updated
switch_to-Runs s t = elim (Bool-cases (t == s.current)) [
  | inl e ↦ rw e (record {
    current = ground (arith, e);
    run_queue = refl;
    state = rw (same_number t) refl;
    slice = refl;
    sleepers = refl;
    idle = refl;
  })
  | inr e ↦ rw e (
      finish_switch-Runs s.current (record {
        current = refl;
        run_queue = refl;
        state = rw (same_number t) refl;
        slice = refl;
        sleepers = refl;
        idle = refl;
      }))
]

Runs-from :
    {s s₁ s' : Sched} {t : ℕ} {ts : List ℕ}
    → s₁.sleepers ≡ s.sleepers
    → s₁.idle ≡ s.idle
    → Runs s₁ s' t ts
    → Runs s s' t ts
Runs-from e i r = record {
  current = r.current;
  run_queue = r.run_queue;
  state = r.state;
  slice = r.slice;
  sleepers = r.sleepers ∙ e;
  idle = r.idle ∙ i;
}

run_next-Runs :
    (s : Sched) (ts : List ℕ)
    → s.run_queue ≡ ts
    → Runs s (run_next s ts) (first_or s.idle ts) (rest_of ts)
unfolding run_next
run_next-Runs s [] e = subst (Runs s (switch_to s s.idle) s.idle) e (switch_to-Runs s s.idle)
run_next-Runs s (t ∷ ts) e = Runs-from refl refl (switch_to-Runs (record s { run_queue = ts }) t)

-- schedule runs the first of the run queue for a whole time slice, where the thread that ran until
-- now is put at the end of the queue first if it can still run and is not the idle thread; the idle
-- thread runs if there is no other. The rest of the queue keeps its order, and no sleeper moves.
schedule-Runs :
    (s : Sched) → Runs s (schedule s) (first_or s.idle (candidates s)) (rest_of (candidates s))
unfolding schedule put_back
schedule-Runs s = elim (Bool-cases (is_running (s.thread s.current).state)) [
  | inl e ↦ rw e (elim (Bool-cases (s.current == s.idle)) [
    | inl i ↦
        rw i (Runs-from refl refl (run_next-Runs (set_state s s.current runnable) s.run_queue refl))
    | inr i ↦ rw i (
        Runs-from refl refl (
          run_next-Runs (run_enqueue (set_state s s.current runnable) s.current)
            (s.run_queue ++ (s.current ∷ [])) refl))
  ])
  | inr e ↦ rw e (run_next-Runs s s.run_queue refl)
]

-- A thread that runs, and is not the idle thread, which never waits for a turn.
pub record Ready (s : Sched) : Type 0 where
  pub runs : (s.thread s.current).state ≡ running
  pub busy : s.current ≢ s.idle
  pub waiting : All (λ t. t ≢ s.idle) s.run_queue

abbrev pub yields : ℕ → Sched → Sched
yields zero s = s
yields (suc n) s = yields n (thread_yield s)

get_elem?-append :
    (xs ys : List ℕ) (n t : ℕ) → get_elem? xs n ≡ some t → get_elem? (xs ++ ys) n ≡ some t
get_elem?-append [] ys n t e = cc
get_elem?-append (x ∷ xs) ys zero t e = e
get_elem?-append (x ∷ xs) ys (suc n) t e = get_elem?-append xs ys n t e

candidates-Ready :
    (s : Sched) {u : ℕ} {us : List ℕ}
    → Ready s
    → s.run_queue ≡ u ∷ us
    → candidates s ≡ u ∷ (us ++ (s.current ∷ []))
unfolding is_running
candidates-Ready s r e = rw (r.runs, other) (ap (λ q. q ++ (s.current ∷ [])) e)
  where
    other : (s.current == s.idle) ≡ false
    other = ground (arith, r.busy)

yield-Runs :
    (s : Sched) {u : ℕ} {us : List ℕ}
    → Ready s
    → s.run_queue ≡ u ∷ us
    → Runs s (thread_yield s) u (us ++ (s.current ∷ []))
unfolding thread_yield
yield-Runs s r e =
    subst (λ q. Runs s (schedule s) (first_or s.idle q) (rest_of q)) (candidates-Ready s r e)
      (schedule-Runs s)

yield-Ready :
    (s : Sched) {u : ℕ} {us : List ℕ} → Ready s → s.run_queue ≡ u ∷ us → Ready (thread_yield s)
yield-Ready s {u} {us} r e = record {
  runs = ap (λ t. ((thread_yield s).thread t).state) y.current ∙ y.state;
  busy = λ b. w.0 (sym y.current ∙ b ∙ y.idle);
  waiting =
      subst (λ i. All (λ t. t ≢ i) (thread_yield s).run_queue) (sym y.idle)
        (subst (All (λ t. t ≢ s.idle)) (sym y.run_queue)
          (All-snoc (λ t. t ≢ s.idle) us s.current w.1 r.busy));
}
  where
    y : Runs s (thread_yield s) u (us ++ (s.current ∷ []))
    y = yield-Runs s r e

    w : All (λ t. t ≢ s.idle) (u ∷ us)
    w = subst (All (λ t. t ≢ s.idle)) e r.waiting

none_ne_some : {t : ℕ} → none ≡ some t → ⊥
none_ne_some e = cc

queue_first : (ts : List ℕ) (t : ℕ) → get_elem? ts 0 ≡ some t → (us : List ℕ) × (ts ≡ t ∷ us)
queue_first [] t g = absurd (none_ne_some g)
queue_first (u ∷ us) t g = (us, cc)

queue_later :
    (ts : List ℕ) (n t : ℕ)
    → get_elem? ts (suc n) ≡ some t
    → (u : ℕ) × (us : List ℕ) × (ts ≡ u ∷ us) × (get_elem? us n ≡ some t)
queue_later [] n t g = absurd (none_ne_some g)
queue_later (u ∷ us) n t g = (u, us, refl, g)

-- The thread at place `n` of the run queue runs once `n + 1` yields have been made, where every
-- thread that gets its turn yields.
pub yields-current :
    (n t : ℕ) (s : Sched)
    → Ready s
    → get_elem? s.run_queue n ≡ some t
    → (yields (suc n) s).current ≡ t
yields-current zero t s r e = (yield-Runs s r (queue_first s.run_queue t e).1).current
yields-current (suc n) t s r e =
    let (u, us, q, g) = queue_later s.run_queue n t e in
    yields-current n t (thread_yield s) (yield-Ready s r q) (
      ap (λ ts. get_elem? ts n) (yield-Runs s r q).run_queue
      ∙ get_elem?-append us (s.current ∷ []) n t g)
