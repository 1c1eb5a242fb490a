-- ===== src/Heap/Live.antt =====
-- The heap as its clients see it: a map from the addresses of live allocations to their sizes.
use manios.Base.{
  ℕ, ◌+◌, ◌%◌, ◌≤◌, ◌<◌, ◌≡◌, refl, inl, inr, true, not, ◌&&◌, Option, none, some, List, [], ◌∷◌,
  arith, if◌then◌else◌, Bool-cases, leb, ◌==◌,
}
use manios.Heap.{Block, header_size, is_free, fits, split, taken, append_free}
use manios.Heap.Tiling.{Tiled, Tiled-le}
use manios.Heap.Alloc.{Fit, here, there}

unfoldable pub live : List Block → ℕ → Option ℕ
unfolding is_free
live [] p = none
live (b ∷ bs) p = if not (is_free b) && b.addr + header_size == p then some b.size else live bs p

-- Payloads lie behind the first header.
pub live-le :
    (bs : List Block) (e end p n : ℕ)
    → Tiled e bs end
    → live bs p ≡ some n
    → (e + header_size ≤ p) × (p + n ≤ end)
unfolding live
live-le [] e end p n t l = cc
live-le (b ∷ bs) e end p n t l =
    ground (arith, Tiled-le bs next end t.3, live-le bs next end p n t.3)
  where
    next : ℕ
    next = b.addr + header_size + b.size

pub live_below :
    (bs : List Block) (e end p : ℕ) → Tiled e bs end → p < e + header_size → live bs p ≡ none
unfolding live
live_below [] e end p t h = refl
live_below (b ∷ bs) e end p t h =
    ground (arith, live_below bs (b.addr + header_size + b.size) end p t.3)

-- Two live allocations do not overlap, headers included.
pub live_disjoint :
    (bs : List Block) (e end p q n m : ℕ)
    → Tiled e bs end
    → live bs p ≡ some n
    → live bs q ≡ some m
    → p < q
    → p + n + header_size ≤ q
unfolding live
live_disjoint [] e end p q n m t lp lq h = cc
live_disjoint (b ∷ bs) e end p q n m t lp lq h = ground (
  arith,
  live-le bs next end q m t.3,
  live-le bs next end p n t.3,
  live_disjoint bs next end p q n m t.3,
)
  where
    next : ℕ
    next = b.addr + header_size + b.size

-- The sizes of live allocations are multiples of the alignment, and so are their addresses.
pub live_aligned :
    (bs : List Block) (e end p n : ℕ)
    → Tiled e bs end
    → e % 16 ≡ 0
    → live bs p ≡ some n
    → p % 16 ≡ 0
unfolding live
live_aligned [] e end p n t a l = cc
live_aligned (b ∷ bs) e end p n t a l =
    ground (arith, t.0, t.2, live_aligned bs (b.addr + header_size + b.size) end p n t.3)

taken-ge : (b : Block) (size : ℕ) → fits b size ≡ true → size ≤ taken b size
unfolding fits taken
taken-ge b size f = ground arith

-- The block that is taken is no lower than the first, and has the bytes that were asked for.
pub Fit-le :
    {size : ℕ} {bs : List Block} {b : Block} {cs : List Block} (e end : ℕ)
    → Fit size bs b cs
    → Tiled e bs end
    → (e ≤ b.addr) × (size ≤ taken b size)
Fit-le {size} e end (here {b = b} f eq) t = (omega (arith, t.0), taken-ge b size f)
Fit-le e end (there {c = c} f r) t =
    omega (arith, t.0, Fit-le (c.addr + header_size + c.size) end r t.3)

live-split :
    (size : ℕ) (b : Block) (bs : List Block) (p : ℕ)
    → fits b size ≡ true
    → live (split b size bs) p
      ≡ (if b.addr + header_size == p then some (taken b size) else live (b ∷ bs) p)
unfolding live split taken fits
live-split size b bs p f = elim (Bool-cases (leb (size + header_size + 16) b.size)) [
  | inl big ↦ rw big (ground (arith, f))
  | inr small ↦ rw small (ground (arith, f))
]

-- Taking a block adds the allocation, and changes no other.
pub live-Fit :
    {size : ℕ} {bs : List Block} {b : Block} {cs : List Block} (e end p : ℕ)
    → Fit size bs b cs
    → Tiled e bs end
    → live cs p ≡ (if b.addr + header_size == p then some (taken b size) else live bs p)
unfolding live
live-Fit {size} e end p (here {b = b} {bs = bs} f eq) t = rw eq (live-split size b bs p f)
live-Fit e end p (there {c = c} f r) t = ground (
  arith,
  t.0,
  live-Fit (c.addr + header_size + c.size) end p r t.3,
  Fit-le (c.addr + header_size + c.size) end r t.3,
)

-- Growing the heap changes no allocation.
pub live-append_free :
    (bs : List Block) (end bytes p : ℕ) → live (append_free bs end bytes) p ≡ live bs p
unfolding live append_free
live-append_free [] end bytes p = refl
live-append_free (b ∷ []) end bytes p = elim (Bool-cases (is_free b)) [
  | inl f ↦ rw f (ground (arith, f))
  | inr f ↦ rw f (ground (arith, f))
]
live-append_free (b ∷ c ∷ bs) end bytes p = ground (arith, live-append_free (c ∷ bs) end bytes p)

-- The address of the block that is taken was not live.
pub live_fresh :
    {size : ℕ} {bs : List Block} {b : Block} {cs : List Block} (e end : ℕ)
    → Fit size bs b cs
    → Tiled e bs end
    → live bs (b.addr + header_size) ≡ none
unfolding live fits
live_fresh e end (here {b = b} {bs = bs} f eq) t =
    ground (arith, f, live_below bs (b.addr + header_size + b.size) end (b.addr + header_size) t.3)
live_fresh e end (there {c = c} f r) t = ground (
  arith,
  live_fresh (c.addr + header_size + c.size) end r t.3,
  Fit-le (c.addr + header_size + c.size) end r t.3,
)

pub Fit-aligned :
    {size : ℕ} {bs : List Block} {b : Block} {cs : List Block} (e end : ℕ)
    → Fit size bs b cs
    → Tiled e bs end
    → e % 16 ≡ 0
    → (b.addr + header_size) % 16 ≡ 0
Fit-aligned e end (here f eq) t a = omega (arith, t.0, a)
Fit-aligned e end (there {c = c} f r) t a =
    Fit-aligned (c.addr + header_size + c.size) end r t.3 (omega (arith, t.0, t.2, a))
