-- ===== src/Pmm/Tests.antt =====
-- The frame allocator at a memory of 40 frames.
use manios.Base.{◌*◌, ◌≡◌, refl, ◌⊎◌, true, false, ◌++◌, arith, replicate}
use manios.Pmm.{
  Pmm, alloc_frame, alloc_contiguous, free_frame, count_from, all_set, word_is_full, skip_full,
  first_clear, page_size, FreeError, done, panic, double_free,
}
use manios.Pmm.Bits.{all_set-used}
use manios.Pmm.Invariant.{IsValid}
use manios.Pmm.Alloc.{IsExhausted, TakesLowest, alloc_frame_lem}
use manios.Pmm.Contiguous.{NoRun, TakesRun, alloc_contiguous-FirstFit}
use manios.Base.{ℕ, ◌≤◌, ◌^◌, true-ne-false, List, [], ◌∷◌, some, inl, inr, All}
use manios.Pmm.Init.{
  Region, region_end, place, avoid, pmm_init, build_at, find_top, build, ready, free_usable,
  use_reserved, mark_frames, mark_range, all_used,
}
use manios.Pmm.Placing.{Clear}
use manios.Pmm.Building.{end_at, Builds, pmm_init-Builds}
use manios.Pmm.Free.{Releases, Refuses, free_frame_lem}

-- Frames 0 to 32 are used, 33 to 39 free, and the bits past them set.
abbrev forty : Pmm
forty = record {
  bits = replicate 33 true ++ (replicate 7 false ++ replicate 24 true);
  frame_count = 40;
  word_count = 2;
  search_hint = 0;
  free_count = 7;
  usable_count = 39;
}

alloc_runs : (alloc_frame forty).0 ≡ 33 * page_size
unfolding alloc_frame skip_full word_is_full all_set first_clear
alloc_runs = refl

free_runs : free_frame forty (39 * page_size) ≡ panic double_free
unfolding free_frame
free_runs = refl

forty-IsValid : IsValid forty
unfolding all_set count_from
forty-IsValid = record {
  shape = refl;
  words = refl;
  small = omega arith;
  tail = λ f lo hi. all_set-used forty.bits 24 40 f refl lo hi;
  full = λ f lo. absurd (omega arith);
  hint = omega arith;
  counted = refl;
  reserved = refl;
}

alloc_frame_lem_example :
    IsValid (alloc_frame forty).1
    × (IsExhausted forty (alloc_frame forty).0 (alloc_frame forty).1
        ⊎ TakesLowest forty (alloc_frame forty).0 (alloc_frame forty).1)
alloc_frame_lem_example = alloc_frame_lem forty-IsValid

free_frame_lem_example :
    ((s' : Pmm) × (free_frame forty (5 * page_size) ≡ done s') × Releases forty (5 * page_size) s')
    ⊎ ((e : FreeError) × (free_frame forty (5 * page_size) ≡ panic e)
        × Refuses forty (5 * page_size) e)
free_frame_lem_example = free_frame_lem (5 * page_size) forty-IsValid

-- Three frames below a limit, within three pages that start at a multiple of 12 KiB.
alloc_contiguous-FirstFit_example :
    NoRun forty 3 163839 12288 (alloc_contiguous 41 forty 3 163839 12288)
    ⊎ TakesRun forty 3 163839 12288 (alloc_contiguous 41 forty 3 163839 12288)
alloc_contiguous-FirstFit_example =
    alloc_contiguous-FirstFit forty 41 3 163839 12288 forty-IsValid (omega arith) (omega arith) refl
      (omega arith)

-- 640 KiB, a hole, and 15 MiB, of which a module takes 64 KiB behind the kernel; the ROM at 4 GiB.
abbrev map : List Region
map =
    record { base = 0; length = 654336; usable = true }
    ∷ record { base = 983040; length = 65536; usable = false }
    ∷ record { base = 1048576; length = 15728640; usable = true }
    ∷ record { base = 2097152; length = 65536; usable = false }
    ∷ record { base = 4294705152; length = 262144; usable = false }
    ∷ []

abbrev small_map : List Region
small_map =
    record { base = 0; length = 20480; usable = true }
    ∷ record { base = 8192; length = 4095; usable = false }
    ∷ []

-- The module at the end of the kernel moves the bitmap.
place_moves : place 2 map 512 2096900 ≡ some (2162688, 2166784)
unfolding place avoid region_end
place_moves = refl

small_init : pmm_init 3 small_map 4096 ≡ ready 4096 (build small_map 5 1 8192)
unfolding pmm_init build_at find_top region_end place avoid
small_init = refl

small_frees : (build small_map 5 1 8192).free_count ≡ 2
unfolding build free_usable use_reserved mark_frames mark_range all_used region_end count_from
small_frees = refl

abbrev gap : ℕ
gap = 2 ^ 22

pmm_init-Builds_example :
    (at : ℕ) × (2096900 ≤ at)
    × (at ≤ gap)
    × All (Clear at (end_at map at)) map
    × Builds map at (end_at map at) (pmm_init 6 map 2096900)
unfolding region_end find_top
pmm_init-Builds_example =
    pmm_init-Builds gap map 2096900 refl (omega arith)
      (
        λ u. absurd (true-ne-false refl u),
        (
          λ u. inl (omega arith),
          (
            λ u. absurd (true-ne-false refl u),
            (λ u. inl (omega arith), (λ u. inr (omega arith), tt)),
          ),
        ),
      )
      (omega arith) (omega arith) (omega arith)
