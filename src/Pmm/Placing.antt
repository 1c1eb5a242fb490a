-- ===== src/Pmm/Placing.antt =====
-- pmm_init finds a place for the bitmap, clear of the reserved regions.
use manios.Base.{
  ℕ, zero, suc, ◌+◌, ◌-◌, ◌%◌, ◌^◌, ◌≤◌, ◌<◌, ◌≡◌, refl, ap, ◌⊎◌, inl, inr, Bool, true, false, not,
  ◌&&◌, Option, some, List, [], ◌∷◌, arith, ltb, leb, if◌then◌else◌, length, Bool-cases, All,
  true-ne-false,
}
use manios.Pmm.{page_size}
use manios.Pmm.Init.{Region, region_end, rounded, bitmap_end, overlaps, avoid, place}

-- No reserved region has a byte between the addresses.
abbrev pub Clear : ℕ → ℕ → Region → Type 0
Clear start end r = r.usable ≡ false → (end ≤ r.base) ⊎ (region_end r ≤ start)

-- The reserved regions that end past `start`.
abbrev past_start : List Region → ℕ → ℕ
past_start [] start = 0
past_start (r ∷ rs) start =
    (if not r.usable && ltb start (region_end r) then 1 else 0) + past_start rs start

pub past_start-le : (rs : List Region) (start : ℕ) → past_start rs start ≤ length rs
past_start-le [] start = omega arith
past_start-le (r ∷ rs) start = ground (arith, past_start-le rs start)

past_start_mono : (rs : List Region) (s t : ℕ) → s ≤ t → past_start rs t ≤ past_start rs s
past_start_mono [] s t h = omega arith
past_start_mono (r ∷ rs) s t h = ground (arith, past_start_mono rs s t h, h)

-- A reserved region is below `gap`, or leaves 256 KiB free from there on.
abbrev pub Apart : ℕ → Region → Type 0
Apart gap r = r.usable ≡ false → (region_end r ≤ gap) ⊎ (gap + 2 ^ 18 ≤ r.base)

-- The place is found, from `start` to `gap`, clear of every reserved region.
abbrev pub Placed : ℕ → List Region → ℕ → ℕ → Option (ℕ × ℕ) → Type 0
Placed gap rs bytes start found =
    (at : ℕ) × (found ≡ some (at, bitmap_end bytes at))
    × (start ≤ at)
    × (at ≤ gap)
    × All (Clear at (bitmap_end bytes at)) rs

module _ (gap : ℕ) (aligned : gap % page_size ≡ 0) (low : gap + 2 ^ 18 ≤ 2 ^ 32) where
  reserved : (r : Region) (start end : ℕ) → overlaps r start end ≡ true → r.usable ≡ false
  reserved r start end o = ground (arith, o)

  stays_clear :
      (r : Region) (start end : ℕ)
      → overlaps r start end ≡ false
      → r.usable ≡ false
      → (end ≤ r.base) ⊎ (region_end r ≤ start)
  stays_clear r start end o u = elim (Bool-cases (leb end r.base)) [
    | inl e ↦ inl (ground (arith, e))
    | inr e ↦ inr (ground (arith, e, o, u))
  ]

  -- The bitmap goes behind a region that it overlaps, which leaves room.
  goes_on :
      (r : Region) (start end : ℕ)
      → overlaps r start end ≡ true
      → (region_end r ≤ gap) ⊎ (gap + 2 ^ 18 ≤ r.base)
      → end ≤ gap + 2 ^ 18
      → (region_end r ≤ rounded (region_end r + page_size - 1))
        × (rounded (region_end r + page_size - 1) ≤ gap)
        × (start ≤ rounded (region_end r + page_size - 1))
  goes_on r start end o (inl b) k =
      let s : start < region_end r = ground (arith, o) in
      (omega (arith, low, b), omega (arith, low, b, aligned), omega (arith, low, b, s))
  goes_on r start end o (inr b) k = absurd (ground (arith, o, b, k))

  -- What a round does, that goes from `start` to `next.0`.
  abbrev Rounds : List Region → ℕ → ℕ → Bool → ℕ × Bool → Type 0
  Rounds rs start end moved next =
      (start ≤ next.0)
      × (next.0 ≤ gap)
      × (next.1 ≡ false → (moved ≡ false) × (next.0 ≡ start) × All (Clear start end) rs)
      × (moved ≡ false → next.1 ≡ true → past_start rs next.0 + 1 ≤ past_start rs start)

  avoid-Rounds :
      (rs : List Region) (start end : ℕ) (moved : Bool)
      → All (Apart gap) rs
      → start ≤ gap
      → end ≤ gap + 2 ^ 18
      → Rounds rs start end moved (avoid rs end start moved)
  unfolding avoid
  avoid-Rounds [] start end moved a h k =
      (omega arith, h, λ m. (m, refl, tt), λ m m'. absurd (true-ne-false m' m))
  avoid-Rounds (r ∷ rs) start end moved a h k = elim (Bool-cases (overlaps r start end)) [
    | inl o ↦
        let next = rounded (region_end r + page_size - 1) in
        let g = goes_on r start end o (a.0 (reserved r start end o)) k in
        let i = avoid-Rounds rs next end true a.1 g.1 k in
        rw o (
          omega (arith, i.0, g.2),
          i.1,
          λ m. absurd (true-ne-false refl (i.2 m).0),
          λ m m'.
              let p =
                past_start_mono rs start (avoid rs end next true).0 (omega (arith, i.0, g.2)) in
              let u = reserved r start end o in ground (arith, p, o, u, i.0, g.0),
        )
    | inr o ↦
        let i = avoid-Rounds rs start end moved a.1 h k in
        rw o (
          i.0,
          i.1,
          λ m. ((i.2 m).0, (i.2 m).1, (λ u. stays_clear r start end o u, (i.2 m).2)),
          λ m m'. let p = i.3 m m' in ground (arith, p, i.0),
        )
  ]

  pub place-Placed :
      (fuel : ℕ) (rs : List Region) (bytes start : ℕ)
      → All (Apart gap) rs
      → start ≤ gap
      → bytes ≤ 2 ^ 17
      → past_start rs start < fuel
      → Placed gap rs bytes start (place fuel rs bytes start)
  unfolding place
  place-Placed zero rs bytes start a h b f = absurd (omega (arith, f))
  place-Placed (suc fuel) rs bytes start a h b f =
      elim (Bool-cases (avoid rs (bitmap_end bytes start) start false).1) [
        | inl m ↦
            let i =
              place-Placed fuel rs bytes next.0 a round.1 b (omega (arith, round.3 refl m, f)) in
            rw m (i.0, i.1, omega (arith, round.0, i.2), i.3, i.4)
        | inr m ↦
            let e : next.0 ≡ start = (round.2 m).1 in
            rw m
              (start, ap (λ x. some (x, bitmap_end bytes start)) e, omega arith, h, (round.2 m).2)
      ]
    where
      next : ℕ × Bool
      next = avoid rs (bitmap_end bytes start) start false

      round : Rounds rs start (bitmap_end bytes start) false next
      round = avoid-Rounds rs start (bitmap_end bytes start) false a h (omega (arith, low, h, b))
