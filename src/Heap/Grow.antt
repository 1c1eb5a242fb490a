-- ===== src/Heap/Grow.antt =====
-- kmalloc, and the growth of the heap, keep it valid.
use manios.Base.{
  ℕ, ◌+◌, ◌-◌, ◌%◌, ◌≤◌, ◌<◌, ◌^◌, ◌≡◌, refl, sym, ◌⊎◌, inl, inr, Bool, true, false, ◌||◌, none,
  some, List, [], ◌∷◌, arith, Bool-cases, Option-cases, ltb, ◌==◌,
}
use manios.Heap.{
  Block, Heap, Pages, header_size, heap_start, heap_max_size, page_size, is_free, taken, first_fit,
  take_first_fit, append_free, grow_bytes, heap_grow, round_up, kmalloc, retry,
}
use manios.Heap.Tiling.{Tiled, Apart, NoTwoFree, used_sum, IsValid, Tiled-le, used_sum-le}
use manios.Heap.Alloc.{Fit, first_fit-Fit, Fit-Tiled, Fit-NoTwoFree, Fit-used_sum}

module _ (bytes : ℕ) (aligned : bytes % 16 ≡ 0) (large : header_size ≤ bytes) where
  append_free-Tiled :
      (bs : List Block) (e end : ℕ)
      → Tiled e bs end
      → Tiled e (append_free bs end bytes) (end + bytes)
  unfolding append_free
  append_free-Tiled [] e end t = (sym t, inr refl, omega arith, omega arith)
  append_free-Tiled (b ∷ []) e end t = elim (Bool-cases (is_free b)) [
    | inl f ↦ rw f (t.0, t.1, omega (arith, t.2), omega (arith, t.3))
    | inr f ↦ rw f (t.0, t.1, t.2, (sym t.3, inr refl, omega arith, omega arith))
  ]
  append_free-Tiled (b ∷ c ∷ bs) e end t =
      (t.0, t.1, t.2, append_free-Tiled (c ∷ bs) (b.addr + header_size + b.size) end t.3)

append_free-Apart :
    (a c : Block) (bs : List Block) (end bytes : ℕ)
    → Apart a (c ∷ bs)
    → Apart a (append_free (c ∷ bs) end bytes)
unfolding append_free is_free
append_free-Apart a c [] end bytes n = elim (Bool-cases (is_free c)) [
  | inl f ↦ rw f n
  | inr f ↦ rw f n
]
append_free-Apart a c (d ∷ bs) end bytes n = n

append_free-NoTwoFree :
    (bs : List Block) (end bytes : ℕ) → NoTwoFree bs → NoTwoFree (append_free bs end bytes)
unfolding append_free
append_free-NoTwoFree [] end bytes n = (tt, tt)
append_free-NoTwoFree (b ∷ []) end bytes n = elim (Bool-cases (is_free b)) [
  | inl f ↦ rw f (tt, tt)
  | inr f ↦ rw f (rw f, (tt, tt))
]
append_free-NoTwoFree (b ∷ c ∷ bs) end bytes n =
    (append_free-Apart b c bs end bytes n.0, append_free-NoTwoFree (c ∷ bs) end bytes n.1)

append_free-used_sum :
    (bs : List Block) (end bytes : ℕ) → used_sum (append_free bs end bytes) ≡ used_sum bs
unfolding append_free used_sum
append_free-used_sum [] end bytes = refl
append_free-used_sum (b ∷ []) end bytes = elim (Bool-cases (is_free b)) [
  | inl f ↦ rw f (ground (arith, f))
  | inr f ↦ rw f (ground (arith, f))
]
append_free-used_sum (b ∷ c ∷ bs) end bytes =
    ground (arith, append_free-used_sum (c ∷ bs) end bytes)

-- A successful growth appends `bytes` of free space.
abbrev pub grown : Heap → ℕ → Heap
grown h bytes = record h {
  blocks = append_free h.blocks h.heap_end bytes;
  heap_end = h.heap_end + bytes;
}

pub grown-IsValid :
    {h : Heap} (bytes : ℕ)
    → IsValid h
    → bytes % page_size ≡ 0
    → 0 < bytes
    → h.heap_end + bytes ≤ heap_start + heap_max_size
    → IsValid (grown h bytes)
grown-IsValid {h} bytes v p b fits = record {
  tiled =
      append_free-Tiled bytes (omega arith) (omega arith) h.blocks heap_start h.heap_end v.tiled;
  spaced = append_free-NoTwoFree h.blocks h.heap_end bytes v.spaced;
  bounded = fits;
  paged = omega (arith, v.paged);
  counted = rw append_free-used_sum v.counted;
}

grow_bytes-page : (size : ℕ) → grow_bytes size % page_size ≡ 0
unfolding grow_bytes
grow_bytes-page size = omega arith

pub grow_bytes-room : (size : ℕ) → size ≤ heap_max_size → header_size + size ≤ grow_bytes size
unfolding grow_bytes
grow_bytes-room size h = omega arith

module _ (pages : Pages) where
  open pages use {State}

  -- heap_grow fails and leaves the heap alone, or appends the bytes that it was to append.
  pub heap_grow_cases :
      (size : ℕ) (h : Heap) (st : State)
      → ((heap_grow pages size (h, st)).0 ≡ false) × ((heap_grow pages size (h, st)).1 ≡ h)
        ⊎ ((heap_grow pages size (h, st)).0 ≡ true)
          × ((heap_grow pages size (h, st)).1 ≡ grown h (grow_bytes size))
          × (ltb ((heap_start + heap_max_size + 2 ^ 32 - h.heap_end) % 2 ^ 32) (grow_bytes size)
              ≡ false)
  unfolding heap_grow
  heap_grow_cases size h st = ground arith

  pub heap_grow-IsValid :
      {h : Heap} (size : ℕ) (st : State)
      → IsValid h
      → size ≤ heap_max_size
      → IsValid (heap_grow pages size (h, st)).1
  heap_grow-IsValid {h} size st v small = elim (heap_grow_cases size h st) [
    | inl failed ↦ rw failed.1 v
    | inr grew ↦ rw grew.1 (
        grown-IsValid (grow_bytes size) v (grow_bytes-page size)
          (omega (arith, grow_bytes-room size small))
          (ground (arith, grew.2, Tiled-le h.blocks heap_start h.heap_end v.tiled)))
  ]

-- The heap once `b` is taken for `size` bytes, and `cs` are its blocks.
abbrev pub with_taken : Heap → ℕ → Block → List Block → Heap
with_taken h size b cs = record h {
  blocks = cs;
  used_bytes = (h.used_bytes + taken b size) % 2 ^ 32;
}

-- take_first_fit finds nothing, or takes the first block that fits.
pub data Found (h : Heap) (size : ℕ) : Type 0 where
  missed : first_fit size h.blocks ≡ none → take_first_fit h size ≡ none → Found h size
  took :
      (b : Block) (cs : List Block)
      → Fit size h.blocks b cs
      → take_first_fit h size ≡ some (b.addr + header_size, with_taken h size b cs)
      → Found h size

pub take_first_fit-Found : (h : Heap) (size : ℕ) → Found h size
unfolding take_first_fit
take_first_fit-Found h size = elim (Option-cases (first_fit size h.blocks)) [
  | inl e ↦ missed e (rw e)
  | inr ((b, cs), e) ↦ took b cs (first_fit-Fit size h.blocks e) (rw e)
]

-- Taking a block keeps the heap valid, and the count of used bytes does not wrap.
pub with_taken-IsValid :
    {h : Heap} (size : ℕ) {b : Block} {cs : List Block}
    → IsValid h
    → size % 16 ≡ 0
    → Fit size h.blocks b cs
    → IsValid (with_taken h size b cs)
with_taken-IsValid {h} size {b} {cs} v aligned f = record {
  tiled = tiled;
  spaced = Fit-NoTwoFree f v.spaced;
  bounded = v.bounded;
  paged = v.paged;
  counted =
      omega
        (arith, v.counted, v.bounded, Fit-used_sum f, used_sum-le cs heap_start h.heap_end tiled);
}
  where
    tiled : Tiled heap_start cs h.heap_end
    tiled = Fit-Tiled size aligned heap_start h.heap_end f v.tiled

module _ (pages : Pages) where
  open pages use {State}

  retry-IsValid :
      {h : Heap} (size : ℕ) (st : State) (ok : Bool)
      → IsValid h
      → size % 16 ≡ 0
      → IsValid (retry pages size (ok, h, st)).1
  unfolding retry
  retry-IsValid {h} size st false v aligned = v
  retry-IsValid {h} size st true v aligned = elim (take_first_fit-Found h size) [
    | missed _ e ↦ rw (e, retry) v
    | took b cs f e ↦ rw (e, retry) (with_taken-IsValid size v aligned f)
  ]

  -- kmalloc keeps a valid heap valid, whatever it returns.
  pub kmalloc-IsValid :
      {h : Heap} (size : ℕ) (st : State) → IsValid h → IsValid (kmalloc pages size (h, st)).1
  unfolding kmalloc
  kmalloc-IsValid {h} size st v = elim (Bool-cases (size == 0 || ltb heap_max_size size)) [
    | inl e ↦ rw e v
    | inr e ↦ rw e (elim (take_first_fit-Found h (round_up size)) [
      | missed _ e₁ ↦ rw e₁ (
          retry-IsValid (round_up size) (heap_grow pages (round_up size) (h, st)).2
            (heap_grow pages (round_up size) (h, st)).0
            (heap_grow-IsValid pages (round_up size) st v (ground (arith, e))) (omega arith))
      | took b cs f e₁ ↦ rw e₁ (with_taken-IsValid (round_up size) v (omega arith) f)
    ])
  ]
