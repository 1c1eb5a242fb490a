-- ===== src/Sched/Counts.antt =====
-- How often a thread stands on a list of the scheduler.
use manios.Base.{
  ℕ, ◌+◌, ◌-◌, ◌≤◌, ◌≡◌, refl, inl, inr, List, [], ◌∷◌, ◌++◌, arith, leb, ◌==◌, if◌then◌else◌,
  Bool-cases, length,
}
use manios.Sched.{insert_sleeper, unlink}

abbrev pub one : ℕ → ℕ → ℕ
one t u = if t == u then 1 else 0

abbrev pub count : ℕ → List ℕ → ℕ
count t [] = 0
count t (u ∷ us) = one t u + count t us

pub count-append : (t : ℕ) (us vs : List ℕ) → count t (us ++ vs) ≡ count t us + count t vs
count-append t [] vs = omega arith
count-append t (u ∷ us) vs = omega (arith, count-append t us vs)

pub count-insert_sleeper :
    (tick : ℕ → ℕ) (t u : ℕ) (us : List ℕ)
    → count t (insert_sleeper tick u us) ≡ one t u + count t us
unfolding insert_sleeper
count-insert_sleeper tick t u [] = refl
count-insert_sleeper tick t u (v ∷ us) = elim (Bool-cases (leb (tick v) (tick u))) [
  | inl e ↦ rw e (omega (arith, count-insert_sleeper tick t u us))
  | inr e ↦ rw e refl
]

-- A thread that is unlinked leaves the list once, if it is there.
pub count-unlink : (t u : ℕ) (us : List ℕ) → count t (unlink u us) ≡ count t us - one t u
unfolding unlink
count-unlink t u [] = ground arith
count-unlink t u (v ∷ us) = ground (arith, count-unlink t u us)

pub length-unlink : (u : ℕ) (us : List ℕ) → 1 ≤ count u us → length (unlink u us) + 1 ≡ length us
unfolding unlink
length-unlink u [] h = absurd (omega arith)
length-unlink u (v ∷ us) h = elim (Bool-cases (v == u)) [
  | inl e ↦ rw e (omega arith)
  | inr e ↦
      let rest : 1 ≤ count u us = ground (arith, e, h) in
      rw e (omega (arith, length-unlink u us rest))
]
