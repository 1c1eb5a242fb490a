-- ===== src/Pmm/Boundary.antt =====
-- The runs of pmm_alloc_contiguous that cross a boundary of whole pages.
use mathlib.Core.Path.{subst}
use native.Mathlib.Nat.{div-lt_iff_lt-mul, le-div_iff_mul-le, div-mul-le_self}
use manios.Base.{ℕ, ◌+◌, ◌*◌, ◌/◌, ◌%◌, ◌^◌, ◌≤◌, ◌<◌, ◌≡◌, ◌≢◌, true, arith}
use manios.Pmm.{run_lo, run_hi, crosses, page_size}

whole_pages : (q b : ℕ) → b % page_size ≡ 0 → q * b % page_size ≡ 0
whole_pages q b h = subst (λ x. q * x % page_size ≡ 0) (omega arith) (scaled (b / page_size))
  where
    scaled : (k : ℕ) → q * (k * page_size) % page_size ≡ 0
    scaled k = omega arith

-- With a boundary of whole pages the search goes on behind a run that crosses one.
pub boundary_moves :
    (frames boundary start : ℕ)
    → boundary % page_size ≡ 0
    → 0 < frames
    → start + frames ≤ 2 ^ 20
    → crosses frames boundary start ≡ true
    → start < run_hi frames start / boundary * boundary / page_size
unfolding crosses
boundary_moves frames boundary start pages pos small c =
    omega (arith, whole_pages q boundary pages, below)
  where
    lo : ℕ
    lo = run_lo start

    hi : ℕ
    hi = run_hi frames start

    q : ℕ
    q = hi / boundary

    some_boundary : 0 < boundary
    some_boundary = ground (arith, c)

    differ : lo / boundary ≢ q
    differ = ground (arith, c)

    mono : lo / boundary ≤ q
    mono = (le-div_iff_mul-le some_boundary).1 (omega (arith, div-mul-le_self lo boundary))

    below : lo < q * boundary
    below = (div-lt_iff_lt-mul some_boundary).0 (omega (arith, differ, mono))

-- The runs that are skipped at a boundary cross it.
pub boundary_skips :
    (frames boundary start x : ℕ)
    → 0 < frames
    → start ≤ x
    → x + frames ≤ 2 ^ 20
    → boundary % page_size ≡ 0
    → crosses frames boundary start ≡ true
    → x < run_hi frames start / boundary * boundary / page_size
    → crosses frames boundary x ≡ true
unfolding crosses
boundary_skips frames boundary start x pos le small pages c h =
    ground (arith, some_boundary, under, over)
  where
    q : ℕ
    q = run_hi frames start / boundary

    some_boundary : 0 < boundary
    some_boundary = ground (arith, c)

    under : run_lo x / boundary < q
    under = (div-lt_iff_lt-mul some_boundary).1 (omega (arith, whole_pages q boundary pages))

    over : q ≤ run_hi frames x / boundary
    over =
        (le-div_iff_mul-le some_boundary).1
          (omega (arith, div-mul-le_self (run_hi frames start) boundary))

pub boundary_near :
    (frames boundary start : ℕ)
    → 0 < frames
    → start + frames ≤ 2 ^ 20
    → run_hi frames start / boundary * boundary / page_size < start + frames
boundary_near frames boundary start pos small =
    omega (arith, div-mul-le_self (run_hi frames start) boundary)
