-- ===== src/Heap/Tiling.antt =====
-- The invariant of the heap: the blocks tile the mapped region in address order, and no two free
-- blocks are neighbours. heap_check accepts every such heap.
use manios.Base.{
  ℕ, ◌+◌, ◌%◌, ◌≤◌, ◌<◌, ◌^◌, ◌≡◌, refl, ap, ◌⊎◌, true, false, ◌&&◌, some, List, [], ◌∷◌, arith,
  if◌then◌else◌,
}
use manios.Heap.{
  Block, Heap, magic_used, magic_free, header_size, heap_start, heap_max_size, page_size, is_free,
  sound_block, check_from, heap_check, init,
}

-- The blocks fill the addresses from `e` up to `end`.
abbrev pub Tiled : ℕ → List Block → ℕ → Type 0
Tiled e [] end = e ≡ end
Tiled e (b ∷ bs) end =
    (b.addr ≡ e)
    × ((b.magic ≡ magic_used) ⊎ (b.magic ≡ magic_free))
    × (b.size % 16 ≡ 0)
    × Tiled (b.addr + header_size + b.size) bs end

-- `b` is not a free block in front of a free one.
abbrev pub Apart : Block → List Block → Type 0
Apart b [] = Unit
Apart b (c ∷ cs) = (is_free b && is_free c) ≡ false

abbrev pub NoTwoFree : List Block → Type 0
NoTwoFree [] = Unit
NoTwoFree (b ∷ bs) = Apart b bs × NoTwoFree bs

-- The payload bytes of the allocated blocks.
unfoldable pub used_sum : List Block → ℕ
unfolding is_free
used_sum [] = 0
used_sum (b ∷ bs) = (if is_free b then 0 else b.size) + used_sum bs

pub record IsValid (h : Heap) : Type 0 where
  pub tiled : Tiled heap_start h.blocks h.heap_end
  pub spaced : NoTwoFree h.blocks
  pub bounded : h.heap_end ≤ heap_start + heap_max_size
  pub paged : h.heap_end % page_size ≡ 0
  pub counted : h.used_bytes ≡ used_sum h.blocks

pub Tiled-le : (bs : List Block) (e end : ℕ) → Tiled e bs end → e ≤ end
Tiled-le [] e end t = omega arith
Tiled-le (b ∷ bs) e end t = omega (arith, Tiled-le bs (b.addr + header_size + b.size) end t.3)

-- The payloads lie in the region, so their sum is below 2 ^ 32.
pub used_sum-le : (bs : List Block) (e end : ℕ) → Tiled e bs end → e + used_sum bs ≤ end
unfolding used_sum
used_sum-le [] e end t = omega arith
used_sum-le (b ∷ bs) e end t =
    ground (arith, used_sum-le bs (b.addr + header_size + b.size) end t.3)

-- With no wrap-around the walk goes from block to block.
next_address :
    (b : Block) (bs : List Block) (e end : ℕ)
    → Tiled e (b ∷ bs) end
    → end < 2 ^ 32
    → (b.addr + header_size + b.size) % 2 ^ 32 ≡ b.addr + header_size + b.size
next_address b bs e end t h = omega (arith, Tiled-le bs (b.addr + header_size + b.size) end t.3)

sound_block-Tiled :
    (b : Block) (bs : List Block) (e end : ℕ) → Tiled e (b ∷ bs) end → sound_block b e ≡ true
unfolding sound_block
sound_block-Tiled b bs e end t = ground (arith, t.0, t.1, t.2)

check_from-Tiled :
    (bs : List Block) (e end : ℕ)
    → Tiled e bs end
    → NoTwoFree bs
    → end < 2 ^ 32
    → check_from bs e ≡ some end
unfolding check_from
check_from-Tiled [] e end t n h = ap some t
check_from-Tiled (b ∷ []) e end t n h =
    rw (sound_block-Tiled b [] e end t, next_address b [] e end t h) (ap some t.3)
check_from-Tiled (b ∷ c ∷ bs) e end t n h =
    rw (sound_block-Tiled b (c ∷ bs) e end t, next_address b (c ∷ bs) e end t h, n.0)
      (check_from-Tiled (c ∷ bs) (b.addr + header_size + b.size) end t.3 n.1 h)

-- heap_check finds nothing to refuse in a valid heap.
pub heap_check-IsValid : {h : Heap} → IsValid h → heap_check h ≡ true
unfolding heap_check
heap_check-IsValid {h} v =
    ground (arith, v.bounded, check_from-Tiled h.blocks heap_start h.heap_end v.tiled v.spaced)

-- heap_init makes a valid heap.
pub init-IsValid : IsValid init
unfolding init used_sum
init-IsValid = record {
  tiled = refl;
  spaced = tt;
  bounded = omega arith;
  paged = refl;
  counted = refl;
}
