-- ===== src/Sched/Sleepers.antt =====
-- The list of sleepers stays sorted by wake tick.
use manios.Base.{
  ℕ, ◌≤◌, ◌<◌, ◌≡◌, refl, ap, inl, inr, List, [], ◌∷◌, ◌++◌, arith, leb, Bool-cases, All,
}
use manios.Sched.{insert_sleeper}

abbrev pub Sorted : (ℕ → ℕ) → List ℕ → Type 0
Sorted tick [] = Unit
Sorted tick (t ∷ ts) = All (λ u. tick t ≤ tick u) ts × Sorted tick ts

All-lt :
    (tick : ℕ → ℕ) (b c : ℕ) (ts : List ℕ)
    → b < c
    → All (λ u. c ≤ tick u) ts
    → All (λ u. b < tick u) ts
All-lt tick b c [] h a = tt
All-lt tick b c (t ∷ ts) h a = (omega (arith, a.0), All-lt tick b c ts h a.1)

All-insert :
    (tick : ℕ → ℕ) (b t : ℕ) (ts : List ℕ)
    → b ≤ tick t
    → All (λ u. b ≤ tick u) ts
    → All (λ u. b ≤ tick u) (insert_sleeper tick t ts)
unfolding insert_sleeper
All-insert tick b t [] h a = (h, tt)
All-insert tick b t (u ∷ us) h a = elim (Bool-cases (leb (tick u) (tick t))) [
  | inl e ↦ rw e (a.0, All-insert tick b t us h a.1)
  | inr e ↦ rw e (h, a)
]

All-le :
    (tick : ℕ → ℕ) (b c : ℕ) (ts : List ℕ)
    → b ≤ c
    → All (λ u. c ≤ tick u) ts
    → All (λ u. b ≤ tick u) ts
All-le tick b c [] h a = tt
All-le tick b c (t ∷ ts) h a = (omega (arith, a.0), All-le tick b c ts h a.1)

-- `t` goes behind the sleepers that wake no later than it, and in front of the others.
abbrev Inserts : (ℕ → ℕ) → ℕ → List ℕ → List ℕ → Type 0
Inserts tick t ts ts' =
    (before : List ℕ) × (after : List ℕ) × (ts ≡ before ++ after)
    × (ts' ≡ before ++ (t ∷ after))
    × All (λ u. tick u ≤ tick t) before
    × All (λ u. tick t < tick u) after

further :
    (tick : ℕ → ℕ) (t u : ℕ) (us us' : List ℕ)
    → tick u ≤ tick t
    → Inserts tick t us us'
    → Inserts tick t (u ∷ us) (u ∷ us')
further tick t u us us' h (before, after, e, e', le, lt) =
    (u ∷ before, after, ap (λ r. u ∷ r) e, ap (λ r. u ∷ r) e', (h, le), lt)

-- sleep_insert puts a thread behind the sleepers that wake no later than it and in front of all
-- others, so that equal wake ticks keep their order, and the sleepers stay sorted.
insert_sleeper-Sorted :
    (tick : ℕ → ℕ) (t : ℕ) (ts : List ℕ)
    → Sorted tick ts
    → Sorted tick (insert_sleeper tick t ts) × Inserts tick t ts (insert_sleeper tick t ts)
unfolding insert_sleeper
insert_sleeper-Sorted tick t [] s = ((tt, tt), ([], [], refl, refl, tt, tt))
insert_sleeper-Sorted tick t (u ∷ us) s = elim (Bool-cases (leb (tick u) (tick t))) [
  | inl e ↦ rw e (
    (
      All-insert tick (tick u) t us (ground (arith, e)) s.0,
      (insert_sleeper-Sorted tick t us s.1).0,
    ),
    further tick t u us _ (ground (arith, e)) (insert_sleeper-Sorted tick t us s.1).1,
  )
  | inr e ↦ rw e (
    ((ground (arith, e), All-le tick (tick t) (tick u) us (ground (arith, e)) s.0), s),
    (
      [],
      u ∷ us,
      refl,
      refl,
      tt,
      (ground (arith, e), All-lt tick (tick t) (tick u) us (ground (arith, e)) s.0),
    ),
  )
]
