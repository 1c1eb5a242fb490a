-- ===== src/Pmm/RunSearch.antt =====
-- The loop of pmm_alloc_contiguous: it ends, at the first run that meets the constraints.
use mathlib.Core.Path.{subst}
use manios.Base.{
  ℕ, zero, suc, ◌+◌, ◌*◌, ◌/◌, ◌%◌, ◌^◌, ◌≤◌, ◌<◌, ◌≡◌, ◌≢◌, inl, inr, Bool, true, false, List,
  arith, leb, leb→le, ◌==◌, get_or, Bool-cases, dec_lt, true-ne-false,
}
use manios.Pmm.Boundary.{boundary_moves, boundary_skips, boundary_near}
use manios.Pmm.{
  free_run, run_hi, crosses, Search, found, absent, out_of_fuel, search_run, page_size,
}

-- A free run is free, and the frame behind a short one is used.
free_run_lem :
    (bits : List Bool) (n f : ℕ)
    → (free_run bits n f ≤ n)
      × ((g : ℕ) → f ≤ g → g < f + free_run bits n f → get_or bits g false ≡ false)
      × (free_run bits n f < n → get_or bits (f + free_run bits n f) false ≡ true)
unfolding free_run
free_run_lem bits zero f = (omega arith, λ g lo hi. absurd (omega arith), λ h. absurd (omega arith))
free_run_lem bits (suc n) f = elim (Bool-cases (get_or bits f false)) [
  | inl e ↦ rw e (
    omega arith,
    λ g lo hi. absurd (omega arith),
    λ h. subst (λ k. get_or bits k false ≡ true) (omega arith) e,
  )
  | inr e ↦ rw e (later e (free_run_lem bits n (f + 1)))
]
  where
    r : ℕ
    r = free_run bits n (f + 1)

    later :
        get_or bits f false ≡ false
        → (r ≤ n)
          × ((g : ℕ) → f + 1 ≤ g → g < f + 1 + r → get_or bits g false ≡ false)
          × (r < n → get_or bits (f + 1 + r) false ≡ true)
        → (r + 1 ≤ suc n)
          × ((g : ℕ) → f ≤ g → g < f + (r + 1) → get_or bits g false ≡ false)
          × (r + 1 < suc n → get_or bits (f + (r + 1)) false ≡ true)
    later e (le, clear, used) = (
      omega arith,
      λ g lo hi. elim (Bool-cases (f == g)) [
        | inl y ↦ ground (arith, y, e)
        | inr y ↦ clear g (ground (arith, y)) (omega arith)
      ],
      λ h. subst (λ k. get_or bits k false ≡ true) (omega arith) (used (omega arith)),
    )

-- The constraints on a run: below the limit, within a boundary, and free.
abbrev pub Fits : List Bool → ℕ → ℕ → ℕ → ℕ → Type 0
Fits bits frames last boundary start =
    (start + frames ≤ last)
    × (crosses frames boundary start ≡ false)
    × ((g : ℕ) → start ≤ g → g < start + frames → get_or bits g false ≡ false)

-- What a search from `start` on finds.
abbrev pub FirstFit : List Bool → ℕ → ℕ → ℕ → ℕ → Search → Type 0
FirstFit bits frames last boundary start (found f) =
    Fits bits frames last boundary f
    × ((x : ℕ) → start ≤ x → x < f → ¬ (Fits bits frames last boundary x))
FirstFit bits frames last boundary start absent =
    (x : ℕ) → start ≤ x → ¬ (Fits bits frames last boundary x)
FirstFit bits frames last boundary start out_of_fuel = ⊥

-- A search from further on finds the same where no run between fits.
FirstFit-from :
    (bits : List Bool) (frames last boundary start next : ℕ) (r : Search)
    → ((x : ℕ) → start ≤ x → x < next → ¬ (Fits bits frames last boundary x))
    → FirstFit bits frames last boundary next r
    → FirstFit bits frames last boundary start r
FirstFit-from bits frames last boundary start next (found f) skipped (fits, first) = (
  fits,
  λ x lo hi fit. elim (dec_lt x next) [
    | yes p ↦ skipped x lo p fit
    | no p ↦ first x (omega arith) hi fit
  ],
)
FirstFit-from bits frames last boundary start next absent skipped first = λ x lo fit.
    elim (dec_lt x next) [ yes p ↦ skipped x lo p fit | no p ↦ first x (omega arith) fit ]
FirstFit-from bits frames last boundary start next out_of_fuel skipped first = elim first [ ]

-- One round: the run at `start` fits, or the search goes on behind runs that do not.
module _ (bits : List Bool) (frames last boundary start : ℕ) (small : last ≤ 2 ^ 20)
    (pos : 0 < frames) (pages : boundary % page_size ≡ 0) (below : start + frames ≤ last) where
  at_boundary :
      (r : Search)
      → crosses frames boundary start ≡ true
      → FirstFit bits frames last boundary (run_hi frames start / boundary * boundary / page_size) r
      → FirstFit bits frames last boundary start r
  at_boundary r c = FirstFit-from bits frames last boundary start _ r (λ x lo hi fit.
      true-ne-false
        (boundary_skips frames boundary start x pos lo (omega (arith, fit.0)) pages c hi) fit.1)

  here :
      crosses frames boundary start ≡ false
      → free_run bits frames start ≡ frames
      → FirstFit bits frames last boundary start (found start)
  here c r = (
    (below, c, λ g lo hi. (free_run_lem bits frames start).1 g lo (omega arith)),
    λ x lo hi. absurd (omega arith),
  )

  past_used :
      (r : Search)
      → free_run bits frames start ≢ frames
      → FirstFit bits frames last boundary (start + free_run bits frames start + 1) r
      → FirstFit bits frames last boundary start r
  past_used r short = FirstFit-from bits frames last boundary start _ r (λ x lo hi fit.
      true-ne-false ((free_run_lem bits frames start).2 some_used)
        (fit.2 (start + free_run bits frames start) (omega arith) (omega (arith, some_used))))
    where
      some_used : free_run bits frames start < frames
      some_used = omega (arith, (free_run_lem bits frames start).0)

-- Fuel past the last frame is enough.
pub search_run-FirstFit :
    (fuel : ℕ) (bits : List Bool) (frames last boundary start : ℕ)
    → start ≤ last
    → start + frames < 2 ^ 32
    → last < fuel + start
    → last ≤ 2 ^ 20
    → 0 < frames
    → boundary % page_size ≡ 0
    → FirstFit bits frames last boundary start (search_run fuel bits frames last boundary start)
unfolding search_run
search_run-FirstFit zero bits frames last boundary start le narrow fuel small pos pages =
    absurd (omega arith)
search_run-FirstFit (suc n) bits frames last boundary start le narrow fuel small pos pages =
    elim (Bool-cases (leb ((start + frames) % 2 ^ 32) last)) [
      | inl e ↦ rw e (elim (Bool-cases (crosses frames boundary start)) [
        | inl c ↦ rw c (
            at_boundary bits frames last boundary start small pos pages (below e) _ c (
              search_run-FirstFit n bits frames last boundary
                (run_hi frames start / boundary * boundary / page_size)
                (omega (
                  arith,
                  below e,
                  boundary_near frames boundary start pos (omega (arith, below e)),
                ))
                (omega (
                  arith,
                  below e,
                  boundary_near frames boundary start pos (omega (arith, below e)),
                ))
                (omega (
                  arith,
                  boundary_moves frames boundary start pages pos (omega (arith, below e)) c,
                ))
                small pos pages))
        | inr c ↦ rw c (elim (Bool-cases (free_run bits frames start == frames)) [
          | inl r ↦
              rw r (
                here bits frames last boundary start small pos pages (below e) c
                  (ground (arith, r)))
          | inr r ↦ rw r (
              past_used bits frames last boundary start small pos pages (below e) _
                (ground (arith, r))
                (search_run-FirstFit n bits frames last boundary
                  (start + free_run bits frames start + 1)
                  (ground (arith, r, below e, (free_run_lem bits frames start).0))
                  (omega (arith, below e, (free_run_lem bits frames start).0)) (omega arith) small
                  pos pages))
        ])
      ])
      | inr e ↦ rw e (λ x lo fit. absurd (ground (arith, e, fit.0)))
    ]
  where
    below : leb ((start + frames) % 2 ^ 32) last ≡ true → start + frames ≤ last
    below e = omega (arith, leb→le _ _ e)
