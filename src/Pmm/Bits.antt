-- ===== src/Pmm/Bits.antt =====
-- The loops of pmm.c over the bitmap.
use mathlib.Core.Path.{subst}
use manios.Base.{
  ℕ, zero, suc, ◌+◌, ◌≤◌, ◌<◌, ◌≡◌, refl, ◌⊎◌, inl, inr, Bool, true, false, List, [], ◌∷◌, arith,
  ◌==◌, if◌then◌else◌, get_or, set, length, Bool-cases,
}
use manios.Pmm.{count_from, all_set, word_is_full, skip_full, first_clear}

pub get_or-set :
    (xs : List Bool) (i j : ℕ) (v : Bool)
    → i < length xs
    → get_or (set xs i v) j false ≡ (if i == j then v else get_or xs j false)
get_or-set [] i j v h = absurd (omega arith)
get_or-set (x ∷ xs) zero zero v h = refl
get_or-set (x ∷ xs) zero (suc j) v h = ground arith
get_or-set (x ∷ xs) (suc i) zero v h = ground arith
get_or-set (x ∷ xs) (suc i) (suc j) v h = ground (arith, get_or-set xs i j v (omega arith))

-- Counting does not see a bit outside of what is counted.
count_from-set_ne :
    (bits : List Bool) (n f g : ℕ) (v : Bool)
    → g < length bits
    → (g < f) ⊎ (f + n ≤ g)
    → count_from (set bits g v) n f ≡ count_from bits n f
unfolding count_from
count_from-set_ne bits zero f g v h o = refl
count_from-set_ne bits (suc n) f g v h o =
    ground (arith, get_or-set bits g f v h, count_from-set_ne bits n (f + 1) g v h (omega arith))

-- Setting a clear bit takes one away.
pub count_from-set :
    (bits : List Bool) (n f g : ℕ)
    → g < length bits
    → get_or bits g false ≡ false
    → f ≤ g
    → g < f + n
    → count_from (set bits g true) n f + 1 ≡ count_from bits n f
unfolding count_from
count_from-set bits zero f g h c lo hi = absurd (omega arith)
count_from-set bits (suc n) f g h c lo hi = elim (Bool-cases (f == g)) [
  | inl e ↦ ground (
    arith,
    e,
    c,
    get_or-set bits g f true h,
    count_from-set_ne bits n (f + 1) g true h (inl (ground (arith, e))),
  )
  | inr e ↦ ground (
    arith,
    e,
    get_or-set bits g f true h,
    count_from-set bits n (f + 1) g h c (ground (arith, e)) (omega arith),
  )
]

-- Clearing a set bit adds one.
pub count_from-clear :
    (bits : List Bool) (n f g : ℕ)
    → g < length bits
    → get_or bits g false ≡ true
    → f ≤ g
    → g < f + n
    → count_from (set bits g false) n f ≡ count_from bits n f + 1
unfolding count_from
count_from-clear bits zero f g h c lo hi = absurd (omega arith)
count_from-clear bits (suc n) f g h c lo hi = elim (Bool-cases (f == g)) [
  | inl e ↦ ground (
    arith,
    e,
    c,
    get_or-set bits g f false h,
    count_from-set_ne bits n (f + 1) g false h (inl (ground (arith, e))),
  )
  | inr e ↦ ground (
    arith,
    e,
    get_or-set bits g f false h,
    count_from-clear bits n (f + 1) g h c (ground (arith, e)) (omega arith),
  )
]

-- No more frames are free than there are.
pub count_from-le : (bits : List Bool) (n f : ℕ) → count_from bits n f ≤ n
unfolding count_from
count_from-le bits zero f = omega arith
count_from-le bits (suc n) f = ground (arith, count_from-le bits n (f + 1))

-- Where nothing is free, every frame is used.
pub count_from-used :
    (bits : List Bool) (n f : ℕ)
    → ((g : ℕ) → f ≤ g → g < f + n → get_or bits g false ≡ true)
    → count_from bits n f ≡ 0
unfolding count_from
count_from-used bits zero f h = refl
count_from-used bits (suc n) f h =
    ground (arith, h f, count_from-used bits n (f + 1) (λ g lo hi. h g (omega arith) (omega arith)))

pub all_set-used :
    (bits : List Bool) (n f g : ℕ)
    → all_set bits n f ≡ true
    → f ≤ g
    → g < f + n
    → get_or bits g false ≡ true
unfolding all_set
all_set-used bits zero f g a lo hi = absurd (omega arith)
all_set-used bits (suc n) f g a lo hi = elim (Bool-cases (f == g)) [
  | inl e ↦ ground (arith, e, a)
  | inr e ↦ all_set-used bits n (f + 1) g (ground (arith, a)) (ground (arith, e)) (omega arith)
]

-- In a word that is not full ctz finds the first clear bit.
pub first_clear_lem :
    (bits : List Bool) (n f : ℕ)
    → all_set bits n f ≡ false
    → (first_clear bits n f < n)
      × (get_or bits (f + first_clear bits n f) false ≡ false)
      × ((g : ℕ) → f ≤ g → g < f + first_clear bits n f → get_or bits g false ≡ true)
unfolding all_set first_clear
first_clear_lem bits zero f a = cc
first_clear_lem bits (suc n) f a = elim (Bool-cases (get_or bits f false)) [
  | inl e ↦ rw e (later e (first_clear_lem bits n (f + 1) (ground (arith, e, a))))
  | inr e ↦ rw e (
    omega arith,
    subst (λ k. get_or bits k false ≡ false) (omega arith) e,
    λ g lo hi. absurd (omega arith),
  )
]
  where
    c : ℕ
    c = first_clear bits n (f + 1)

    later :
        get_or bits f false ≡ true
        → (c < n)
          × (get_or bits (f + 1 + c) false ≡ false)
          × ((g : ℕ) → f + 1 ≤ g → g < f + 1 + c → get_or bits g false ≡ true)
        → (c + 1 < suc n)
          × (get_or bits (f + (c + 1)) false ≡ false)
          × ((g : ℕ) → f ≤ g → g < f + (c + 1) → get_or bits g false ≡ true)
    later e (lt, clear, before) = (
      omega arith,
      subst (λ k. get_or bits k false ≡ false) (omega arith) clear,
      λ g lo hi. elim (Bool-cases (f == g)) [
        | inl y ↦ ground (arith, y, e)
        | inr y ↦ before g (ground (arith, y)) (omega arith)
      ],
    )

-- The walk over full words stops at the end, or at the first word that is not full.
pub skip_full_lem :
    (bits : List Bool) (n w : ℕ)
    → (w ≤ skip_full bits n w)
      × (skip_full bits n w ≤ w + n)
      × ((v : ℕ) → w ≤ v → v < skip_full bits n w → word_is_full bits v ≡ true)
      × (skip_full bits n w < w + n → word_is_full bits (skip_full bits n w) ≡ false)
unfolding skip_full
skip_full_lem bits zero w =
    (omega arith, omega arith, λ v lo hi. absurd (omega arith), λ h. absurd (omega arith))
skip_full_lem bits (suc n) w = elim (Bool-cases (word_is_full bits w)) [
  | inl e ↦ rw (e, skip_full) (later e (skip_full_lem bits n (w + 1)))
  | inr e ↦ rw (e, skip_full) (omega arith, omega arith, λ v lo hi. absurd (omega arith), λ h. e)
]
  where
    s : ℕ
    s = skip_full bits n (w + 1)

    later :
        word_is_full bits w ≡ true
        → (w + 1 ≤ s)
          × (s ≤ w + 1 + n)
          × ((v : ℕ) → w + 1 ≤ v → v < s → word_is_full bits v ≡ true)
          × (s < w + 1 + n → word_is_full bits s ≡ false)
        → (w ≤ s)
          × (s ≤ w + suc n)
          × ((v : ℕ) → w ≤ v → v < s → word_is_full bits v ≡ true)
          × (s < w + suc n → word_is_full bits s ≡ false)
    later e (lo, hi, full, stop) = (
      omega arith,
      omega arith,
      λ v lo' hi'. elim (Bool-cases (w == v)) [
        | inl y ↦ ground (arith, y, e)
        | inr y ↦ full v (ground (arith, y)) hi'
      ],
      λ h. stop (omega arith),
    )
