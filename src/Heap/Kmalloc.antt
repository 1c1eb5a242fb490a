-- ===== src/Heap/Kmalloc.antt =====
-- What kmalloc promises its callers.
use mathlib.Core.Path.{subst}
use manios.Base.{
  ℕ, ◌+◌, ◌%◌, ◌≤◌, ◌<◌, ◌≡◌, refl, sym, ◌∙◌, ap, ◌⊎◌, inl, inr, Bool, true, false, ◌||◌, Option,
  none, some, List, [], ◌∷◌, arith, if◌then◌else◌, Bool-cases, ltb, ◌==◌, ◌≢◌,
}
use manios.Heap.{
  Block, Heap, Pages, header_size, heap_start, heap_max_size, is_free, fits, taken, first_fit,
  append_free, grow_bytes, heap_grow, round_up, kmalloc, retry,
}
use manios.Heap.Tiling.{IsValid}
use manios.Heap.Alloc.{Fit}
use manios.Heap.Grow.{
  grown, with_taken, take_first_fit-Found, missed, took, heap_grow_cases, grow_bytes-room,
  heap_grow-IsValid,
}
use manios.Heap.Live.{live, live-Fit, live_fresh, Fit-le, Fit-aligned, live-append_free}

-- A pointer is to fresh, aligned memory of at least `size` bytes, and no other allocation is
-- touched; NULL leaves the allocations as they were.
abbrev pub Served : Heap → ℕ → Option ℕ → Heap → Type 0
Served h size none h' = (q : ℕ) → live h'.blocks q ≡ live h.blocks q
Served h size (some p) h' =
    (n : ℕ) × (size ≤ n)
    × (p % 16 ≡ 0)
    × (live h.blocks p ≡ none)
    × ((q : ℕ) → live h'.blocks q ≡ (if p == q then some n else live h.blocks q))

with_taken-Served :
    {h : Heap} (size n : ℕ) {b : Block} {cs : List Block}
    → IsValid h
    → size ≤ n
    → Fit n h.blocks b cs
    → Served h size (some (b.addr + header_size)) (with_taken h n b cs)
with_taken-Served {h} size n {b} v le f = (
  taken b n,
  omega (arith, Fit-le heap_start h.heap_end f v.tiled),
  Fit-aligned heap_start h.heap_end f v.tiled refl,
  live_fresh heap_start h.heap_end f v.tiled,
  λ q. live-Fit heap_start h.heap_end q f v.tiled,
)

-- The new space holds the block that it was mapped for.
first_fit-append_free :
    (size : ℕ) (bs : List Block) (end bytes : ℕ)
    → header_size + size ≤ bytes
    → first_fit size (append_free bs end bytes) ≢ none
unfolding first_fit append_free fits
first_fit-append_free size [] end bytes h = ground arith
first_fit-append_free size (b ∷ []) end bytes h = elim (Bool-cases (is_free b)) [
  | inl f ↦ rw f (ground (arith, f))
  | inr f ↦ rw f (ground (arith, f))
]
first_fit-append_free size (b ∷ c ∷ bs) end bytes h =
    ground (arith, first_fit-append_free size (c ∷ bs) end bytes h)

grown-Served :
    (h h' : Heap) (size : ℕ) (r : Option ℕ) (bytes : ℕ)
    → Served (grown h bytes) size r h'
    → Served h size r h'
grown-Served h h' size none bytes s = λ q. s q ∙ live-append_free h.blocks h.heap_end bytes q
grown-Served h h' size (some p) bytes (n, le, al, fresh, others) = (
  n,
  le,
  al,
  sym (live-append_free h.blocks h.heap_end bytes p) ∙ fresh,
  λ q. rw (← live-append_free h.blocks h.heap_end bytes q) (others q),
)

some_ne_none {ℓ} : {A : Type ℓ} {a : A} → some a ≡ none → ⊥
some_ne_none e = cc

module _ (pages : Pages) where
  open pages use {State}

  retry-Served :
      {h : Heap} (size n : ℕ) (st : State) (ok : Bool)
      → IsValid h
      → size ≤ n
      → let (r, h', _) = retry pages n (ok, h, st) in Served h size r h'
  unfolding retry
  retry-Served {h} size n st false v le = λ q. refl
  retry-Served {h} size n st true v le = elim (take_first_fit-Found h n) [
    | missed _ e ↦ rw (e, retry) (λ q. refl)
    | took b cs f e ↦ rw (e, retry) (with_taken-Served size n v le f)
  ]

  after_grow :
      {h : Heap} (size n : ℕ) (st : State)
      → IsValid h
      → size ≤ n
      → n ≤ heap_max_size
      → let (r, h', _) = retry pages n (heap_grow pages n (h, st)) in Served h size r h'
  after_grow {h} size n st v le small = elim (heap_grow_cases pages n h st) [
    | inl failed ↦ subst (λ g. Served g size result.0 result.1) failed.1 tried
    | inr grew ↦
        grown-Served h result.1 size result.0 (grow_bytes n)
          (subst (λ g. Served g size result.0 result.1) grew.1 tried)
  ]
    where
      result : Option ℕ × Heap × State
      result = retry pages n (heap_grow pages n (h, st))

      tried : Served (heap_grow pages n (h, st)).1 size result.0 result.1
      tried =
          retry-Served size n (heap_grow pages n (h, st)).2 (heap_grow pages n (h, st)).0
            (heap_grow-IsValid pages n st v small) le

  -- On a valid heap kmalloc returns NULL, and then no allocation changes, or a 16-byte aligned
  -- address that was not live: from then on it is live with at least `size` bytes, and every other
  -- allocation is as it was.
  pub kmalloc-Served :
      {h : Heap} (size : ℕ) (st : State)
      → IsValid h
      → let (r, h', _) = kmalloc pages size (h, st) in Served h size r h'
  unfolding kmalloc
  kmalloc-Served {h} size st v = elim (Bool-cases (size == 0 || ltb heap_max_size size)) [
    | inl e ↦ rw e (λ q. refl)
    | inr e ↦ rw e (elim (take_first_fit-Found h (round_up size)) [
      | missed _ e₁ ↦
          rw e₁ (after_grow size (round_up size) st v (ground (arith, e)) (ground (arith, e)))
      | took b cs f e₁ ↦ rw e₁ (with_taken-Served size (round_up size) v (ground (arith, e)) f)
    ])
  ]

  -- Once the heap has grown, the block is there.
  retry-grown :
      (h : Heap) (size : ℕ) (st : State)
      → size ≤ heap_max_size
      → (retry pages size (heap_grow pages size (h, st))).0 ≡ none
      → (heap_grow pages size (h, st)).0 ≡ false
  unfolding retry
  retry-grown h size st small null = elim (heap_grow_cases pages size h st) [
    | inl failed ↦ failed.0
    | inr grew ↦ found (heap_grow pages size (h, st)) grew.0 grew.1 null (
        first_fit-append_free size h.blocks h.heap_end (grow_bytes size)
          (grow_bytes-room size small))
  ]
    where
      found :
          (g : Bool × Heap × State)
          → g.0 ≡ true
          → g.1 ≡ grown h (grow_bytes size)
          → (retry pages size g).0 ≡ none
          → first_fit size (grown h (grow_bytes size)).blocks ≢ none
          → (heap_grow pages size (h, st)).0 ≡ false
      found (false, g, st') e₀ e₁ n some_block = cc
      found (true, g, st') e₀ e₁ n some_block = elim (take_first_fit-Found g size) [
        | missed none_fits _ ↦
            absurd (some_block (ap (λ (x : Heap). first_fit size x.blocks) (sym e₁) ∙ none_fits))
        | took b cs f e ↦ elim (some_ne_none (rw (e, retry) at n)) [ ]
      ]

  -- kmalloc returns NULL only for a size that is 0 or over the limit, or where no block fits and
  -- the heap cannot grow: after a growth the second try finds a block.
  pub kmalloc_null :
      (h : Heap) (size : ℕ) (st : State)
      → (kmalloc pages size (h, st)).0 ≡ none
      → (size ≡ 0)
        ⊎ ((heap_max_size < size)
            ⊎ (first_fit (round_up size) h.blocks ≡ none)
              × ((heap_grow pages (round_up size) (h, st)).0 ≡ false))
  unfolding kmalloc
  kmalloc_null h size st null = elim (Bool-cases (size == 0 || ltb heap_max_size size)) [
    | inl e ↦ ground (arith, e)
    | inr e ↦ inr (
        inr (elim (take_first_fit-Found h (round_up size)) [
          | missed none_fits e₁ ↦
              (none_fits, retry-grown h (round_up size) st (ground (arith, e)) (rw (e, e₁) at null))
          | took b cs f e₁ ↦ absurd (some_ne_none (rw (e, e₁) at null))
        ]))
  ]
