-- ===== src/Heap/Tests.antt =====
-- Runs of the heap, and the theorems at concrete heaps.
use manios.Base.{
  ℕ, ◌+◌, ◌-◌, ◌*◌, inl, inr, ap, ◌⊎◌, ◌<◌, false, ◌≡◌, refl, true, Option, none, some, [], ◌∷◌,
  arith, ◌==◌, if◌then◌else◌,
}
use manios.Heap.{
  Heap, Pages, magic_used, magic_free, heap_start, heap_max_size, kmalloc, kfree, heap_check,
  heap_grow, is_free, first_fit, fits, take_first_fit, split, taken, done, coalesce_all, coalesce,
  set_magic, find_block, free_block, check_from, sound_block, panic, double_free, round_up,
}
use manios.Heap.Tiling.{IsValid, used_sum}
use manios.Heap.Kmalloc.{Served, kmalloc-Served, kmalloc_null}
use manios.Heap.Kfree.{kfree-live, kfree-IsValid}
use manios.Heap.Session.{kfree-kmalloc}
use manios.Heap.Live.{live}

-- A machine of frames 1 to 3, with page tables that always suffice.
abbrev three_frames : Pages
three_frames = record {
  State = ℕ;
  alloc_frame = λ n. (n * 4096, n - 1);
  free_frame = λ n phys. n + 1;
  map_page = λ n addr frame. (true, n);
  unmap_page = λ n addr. (4096, n);
}

abbrev two_blocks : Heap
two_blocks = record {
  blocks =
      record { addr = heap_start; magic = magic_used; size = 48 }
      ∷ record { addr = heap_start + 64; magic = magic_free; size = 4016 }
      ∷ [];
  heap_end = heap_start + 4096;
  used_bytes = 48;
}

abbrev three_blocks : Heap
three_blocks = record {
  blocks =
      record { addr = heap_start; magic = magic_used; size = 48 }
      ∷ record { addr = heap_start + 64; magic = magic_used; size = 16 }
      ∷ record { addr = heap_start + 96; magic = magic_free; size = 3984 }
      ∷ [];
  heap_end = heap_start + 4096;
  used_bytes = 64;
}

kmalloc_second : kmalloc three_frames 1 (two_blocks, 2) ≡ (some (heap_start + 80), three_blocks, 2)
unfolding kmalloc take_first_fit first_fit fits split taken is_free
kmalloc_second = refl

abbrev over_limit : ℕ
over_limit = 0x10000001

kmalloc-over_limit : (kmalloc three_frames over_limit (two_blocks, 2)).0 ≡ none
unfolding kmalloc
kmalloc-over_limit = refl

two_blocks-IsValid : IsValid two_blocks
unfolding used_sum
two_blocks-IsValid = record {
  tiled = (refl, inl refl, refl, (refl, inr refl, refl, refl));
  spaced = (refl, (tt, tt));
  bounded = omega arith;
  paged = refl;
  counted = refl;
}

heap_check_runs : heap_check two_blocks ≡ true
unfolding heap_check check_from sound_block is_free
heap_check_runs = refl

double_free_panics :
    kfree
      (record two_blocks {
        blocks = record { addr = heap_start; magic = magic_free; size = 4080 } ∷ [];
      })
      0
      (heap_start + 16)
    ≡ panic double_free
unfolding kfree free_block find_block
double_free_panics = refl

live_two_blocks : live two_blocks.blocks (heap_start + 16) ≡ some 48
unfolding live
live_two_blocks = refl

live_three_blocks :
    (live three_blocks.blocks (heap_start + 16) ≡ some 48)
    × (live three_blocks.blocks (heap_start + 80) ≡ some 16)
unfolding live
live_three_blocks = (refl, refl)

kmalloc-Served_example :
    Served two_blocks 1
      (kmalloc three_frames 1 (two_blocks, 2)).0
      (kmalloc three_frames 1 (two_blocks, 2)).1
kmalloc-Served_example = kmalloc-Served three_frames 1 2 two_blocks-IsValid

kmalloc_null_example :
    (over_limit ≡ 0)
    ⊎ ((heap_max_size < over_limit)
        ⊎ (first_fit (round_up over_limit) two_blocks.blocks ≡ none)
          × ((heap_grow three_frames (round_up over_limit) (two_blocks, 2)).0 ≡ false))
kmalloc_null_example = kmalloc_null three_frames two_blocks over_limit 2 kmalloc-over_limit

kfree-live_example :
    (h' : Heap) × (kfree two_blocks 0 (heap_start + 16) ≡ done h')
    × IsValid h'
    × ((q : ℕ)
        → live h'.blocks q ≡ (if heap_start + 16 == q then none else live two_blocks.blocks q))
    × (h'.used_bytes + 48 ≡ two_blocks.used_bytes)
kfree-live_example =
    kfree-live 0 (heap_start + 16) 48 two_blocks-IsValid (omega arith) live_two_blocks

abbrev one_free_block : Heap
one_free_block = record {
  blocks = record { addr = heap_start; magic = magic_free; size = 4080 } ∷ [];
  heap_end = heap_start + 4096;
  used_bytes = 0;
}

kfree_runs : kfree two_blocks 0 (heap_start + 16) ≡ done one_free_block
unfolding kfree free_block find_block set_magic coalesce_all coalesce is_free
kfree_runs = refl

kfree-IsValid_example :
    IsValid one_free_block
    × ((heap_start + 16 ≡ 0) × (one_free_block ≡ two_blocks)
        ⊎ ((n : ℕ) × (live two_blocks.blocks (heap_start + 16) ≡ some n)))
kfree-IsValid_example = kfree-IsValid 0 (heap_start + 16) two_blocks-IsValid kfree_runs

kfree-kmalloc_example :
    (h' : Heap) × (kfree (kmalloc three_frames 1 (two_blocks, 2)).1 0 (heap_start + 80) ≡ done h')
    × IsValid h'
    × ((q : ℕ) → live h'.blocks q ≡ live two_blocks.blocks q)
kfree-kmalloc_example =
    kfree-kmalloc three_frames 1 0 (heap_start + 80) 2 two_blocks-IsValid (omega arith)
      (ap (λ (r : Option ℕ × Heap × ℕ). r.0) kmalloc_second)
