-- ===== src/Pmm/Init.antt =====
-- pmm_init in zkt/mm/pmm.c: the bitmap from the memory map of the boot loader. The addresses are
-- physical, V2P of those of the source, which is a shift by a multiple of the page size. The end of
-- the kernel image, which the linker gives, is an argument.
use manios.Base.{
  ℕ, zero, suc, ◌+◌, ◌-◌, ◌*◌, ◌/◌, ◌%◌, ◌^◌, Bool, true, false, not, ◌&&◌, ◌||◌, Option, none,
  some, List, [], ◌∷◌, ltb, leb, ◌==◌, if◌then◌else◌, set,
}
use manios.Pmm.{Pmm, page_size, count_from}

-- struct mem_region
pub record Region : Type 0 where
  pub base : ℕ
  pub length : ℕ
  pub usable : Bool

abbrev pub phys_addr_limit : ℕ
phys_addr_limit = 2 ^ 32

abbrev pub boot_mapped_limit : ℕ
boot_mapped_limit = 2 ^ 24

unfoldable pub region_end : Region → ℕ
region_end r =
    let end = (r.base + r.length) % 2 ^ 64 in
    if ltb phys_addr_limit end then phys_addr_limit else end

-- The loop that finds `top`.
unfoldable pub find_top : List Region → ℕ → ℕ
unfolding region_end
find_top [] top = top
find_top (r ∷ rs) top =
    find_top rs (
      if r.usable && ltb r.base phys_addr_limit && ltb top (region_end r)
      then region_end r
      else top)

-- `& ~(PAGE_SIZE - 1)` on 32 bits
abbrev pub rounded : ℕ → ℕ
rounded a = a % 2 ^ 32 / page_size * page_size

abbrev pub bitmap_end : ℕ → ℕ → ℕ
bitmap_end bytes start = rounded (start + bytes + page_size - 1)

abbrev pub overlaps : Region → ℕ → ℕ → Bool
overlaps r start end = not r.usable && ltb r.base end && ltb start (region_end r)

-- The inner loop of a round: bitmap_start and `moved`.
unfoldable pub avoid : List Region → ℕ → ℕ → Bool → ℕ × Bool
unfolding region_end
avoid [] end start moved = (start, moved)
avoid (r ∷ rs) end start moved =
    let past = avoid rs end (rounded (region_end r + page_size - 1)) true in
    let clear = avoid rs end start moved in if overlaps r start end then past else clear

-- `for (bool moved = true; moved;)`: where the bitmap starts and ends; none without enough fuel.
unfoldable pub place : ℕ → List Region → ℕ → ℕ → Option (ℕ × ℕ)
unfolding avoid
place zero rs bytes start = none
place (suc fuel) rs bytes start =
    let next = avoid rs (bitmap_end bytes start) start false in
    let again = place fuel rs bytes next.0 in
    if next.1 then again else some (next.0, bitmap_end bytes start)

-- mark_used or mark_free of `n` frames from `f` on.
unfoldable pub mark_range : Bool → List Bool → ℕ → ℕ → List Bool
mark_range used bits zero f = bits
mark_range used bits (suc n) f = mark_range used (set bits f used) n (f + 1)

-- `for (size_t f = first; f < end && f < frame_count; f++)`
unfoldable pub mark_frames : Bool → List Bool → ℕ → ℕ → ℕ → List Bool
unfolding mark_range
mark_frames used bits frame_count first end =
    mark_range used bits ((if ltb end frame_count then end else frame_count) - first) first

unfoldable pub free_usable : List Region → ℕ → List Bool → List Bool
unfolding mark_frames region_end
free_usable [] frame_count bits = bits
free_usable (r ∷ rs) frame_count bits = free_usable rs frame_count (
    if not r.usable || leb phys_addr_limit r.base
    then bits
    else mark_frames false bits frame_count ((r.base + page_size - 1) / page_size)
        (region_end r / page_size))

unfoldable pub use_reserved : List Region → ℕ → List Bool → List Bool
unfolding mark_frames region_end
use_reserved [] frame_count bits = bits
use_reserved (r ∷ rs) frame_count bits = use_reserved rs frame_count (
    if r.usable || leb phys_addr_limit r.base
    then bits
    else mark_frames true bits frame_count (r.base / page_size)
        ((region_end r + page_size - 1) / page_size))

-- `memset(bitmap, 0xFF, ...)`
unfoldable pub all_used : ℕ → List Bool
all_used zero = []
all_used (suc n) = true ∷ all_used n

-- The address of the bitmap with the static variables, or the panics.
pub data Init : Type 0 where
  ready : ℕ → Pmm → Init
  no_memory no_room out_of_fuel : Init

-- Once the bitmap has its place, from `start` to `end`.
unfoldable pub build : List Region → ℕ → ℕ → ℕ → Pmm
unfolding all_used use_reserved free_usable mark_frames count_from
build rs frame_count word_count end =
    let usable =
      use_reserved rs frame_count (free_usable rs frame_count (all_used (word_count * 32))) in
    let bits = mark_frames true usable frame_count 0 (end / page_size) in
    record {
      bits = bits;
      frame_count = frame_count;
      word_count = word_count;
      search_hint = 0;
      free_count = count_from bits frame_count 0;
      usable_count = count_from usable frame_count 0;
    }

unfoldable pub build_at : List Region → ℕ → ℕ → Option (ℕ × ℕ) → Init
unfolding build
build_at rs frame_count word_count none = out_of_fuel
build_at rs frame_count word_count (some (start, end)) =
    if ltb boot_mapped_limit end then no_room else ready start (build rs frame_count word_count end)

abbrev pub words_for : ℕ → ℕ
words_for frames = (frames + 32 - 1) / 32

-- The bitmap starts behind the kernel image at `kernel_end`.
unfoldable pub pmm_init : ℕ → List Region → ℕ → Init
unfolding build_at place find_top
pmm_init fuel rs kernel_end =
    let top = find_top rs 0 in
    let frames = top / page_size in
    if top == 0
    then no_memory
    else build_at rs frames (words_for frames) (place fuel rs (words_for frames * 4) kernel_end)
