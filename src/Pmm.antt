-- ===== src/Pmm.antt =====
-- zkt/mm/pmm.c: the physical frames. The bitmap is the list of its bits, word by word, bit 0 first,
-- so that bit `frame % 32` of word `frame / 32` is the entry `frame`.
pub mod Bits
pub mod Init
pub mod Invariant
pub mod Alloc
pub mod Boundary
pub mod RunSearch
pub mod Contiguous
pub mod Free
pub mod Marking
pub mod Placing
pub mod Building
mod Tests
use manios.Base.{
  ℕ, zero, suc, ◌+◌, ◌-◌, ◌*◌, ◌/◌, ◌%◌, ◌^◌, Bool, true, false, not, ◌&&◌, ◌||◌, Option, none,
  some, List, [], ◌∷◌, ltb, leb, ◌==◌, if◌then◌else◌, get_or, set,
}

-- The static variables; a set bit is a frame in use, reserved or absent.
pub record Pmm : Type 0 where
  pub bits : List Bool
  pub frame_count : ℕ
  pub word_count : ℕ
  pub search_hint : ℕ
  pub free_count : ℕ
  pub usable_count : ℕ

abbrev pub page_size : ℕ
page_size = 4096

abbrev pub bits_per_word : ℕ
bits_per_word = 32

abbrev pub mark_used : Pmm → ℕ → Pmm
mark_used s frame = record s { bits = set s.bits frame true }

abbrev pub mark_free : Pmm → ℕ → Pmm
mark_free s frame = record s { bits = set s.bits frame false }

abbrev pub is_used : Pmm → ℕ → Bool
is_used s frame = get_or s.bits frame false

-- The unused frames among the `n` from `f` on.
pub count_from : List Bool → ℕ → ℕ → ℕ
count_from bits zero f = 0
count_from bits (suc n) f =
    let rest = count_from bits n (f + 1) in if get_or bits f false then rest else rest + 1

pub count_free : Pmm → ℕ
unfolding count_from
count_free s = count_from s.bits s.frame_count 0

-- Whether the `n` bits from `f` on are set: `bitmap[w] == 0xFFFFFFFF` at the 32 of word `w`.
pub all_set : List Bool → ℕ → ℕ → Bool
all_set bits zero f = true
all_set bits (suc n) f = get_or bits f false && all_set bits n (f + 1)

pub word_is_full : List Bool → ℕ → Bool
unfolding all_set
word_is_full bits w = all_set bits bits_per_word (w * bits_per_word)

-- `while (w < word_count && ...) w++`, with `n` words left.
pub skip_full : List Bool → ℕ → ℕ → ℕ
skip_full bits zero w = w
skip_full bits (suc n) w = elim (word_is_full bits w) [
  | true ↦ skip_full bits n (w + 1)
  | false ↦ w
]

-- `__builtin_ctz(~bitmap[w])`, the first clear bit of the `n` from `f` on.
pub first_clear : List Bool → ℕ → ℕ → ℕ
first_clear bits zero f = 0
first_clear bits (suc n) f =
    let rest = first_clear bits n (f + 1) in if get_or bits f false then rest + 1 else 0

-- The physical address (0: no memory), and the new state.
pub alloc_frame : Pmm → ℕ × Pmm
alloc_frame s =
    let w = skip_full s.bits (s.word_count - s.search_hint) s.search_hint in
    let frame = w * bits_per_word + first_clear s.bits bits_per_word (w * bits_per_word) in
    if ltb w s.word_count
    then (
      frame * page_size % 2 ^ 32,
      record s {
        bits = set s.bits frame true;
        search_hint = w;
        free_count = (s.free_count + 2 ^ 32 - 1) % 2 ^ 32;
      },
    )
    else (0, record s { search_hint = w })

-- `while (run < frames && !is_used(start + run)) run++`, with `n` frames left.
pub free_run : List Bool → ℕ → ℕ → ℕ
free_run bits zero f = 0
free_run bits (suc n) f =
    let rest = free_run bits n (f + 1) in if get_or bits f false then 0 else rest + 1

pub mark_run : List Bool → ℕ → ℕ → List Bool
mark_run bits zero f = bits
mark_run bits (suc n) f = mark_run (set bits f true) n (f + 1)

-- `lo` and `hi` of the frames from `start` on.
abbrev pub run_lo : ℕ → ℕ
run_lo start = start * page_size % 2 ^ 32

abbrev pub run_hi : ℕ → ℕ → ℕ
run_hi frames start = (run_lo start + frames * page_size % 2 ^ 32 + 2 ^ 32 - 1) % 2 ^ 32

-- `boundary && lo / boundary != hi / boundary`
pub crosses : ℕ → ℕ → ℕ → Bool
crosses frames boundary start =
    not (boundary == 0) && not (run_lo start / boundary == run_hi frames start / boundary)

pub data Search : Type 0 where
  found : ℕ → Search
  absent out_of_fuel : Search

-- The loop over `start`, with a sum of 32 bits in its condition.
pub search_run : ℕ → List Bool → ℕ → ℕ → ℕ → ℕ → Search
search_run zero bits frames last boundary start = out_of_fuel
search_run (suc fuel) bits frames last boundary start =
    let run = free_run bits frames start in
    let next = run_hi frames start / boundary * boundary / page_size in
    let at_boundary = search_run fuel bits frames last boundary next in
    let past_used = search_run fuel bits frames last boundary (start + run + 1) in
    if leb ((start + frames) % 2 ^ 32) last
    then (if crosses frames boundary start
        then at_boundary
        else if run == frames
        then found start
        else past_used)
    else absent

pub take_run : Pmm → ℕ → Search → Option (ℕ × Pmm)
unfolding mark_run
take_run s frames (found start) = some (
  run_lo start,
  record s {
    bits = mark_run s.bits frames start;
    free_count = (s.free_count + 2 ^ 32 - frames) % 2 ^ 32;
  },
)
take_run s frames absent = some (0, s)
take_run s frames out_of_fuel = none

-- The first frame past `limit`, or past the memory.
abbrev pub last_frame : Pmm → ℕ → ℕ
last_frame s limit =
    if ltb (limit / page_size) s.frame_count then limit / page_size else s.frame_count

-- `none` where the loop does not end within `fuel` rounds.
pub alloc_contiguous : ℕ → Pmm → ℕ → ℕ → ℕ → Option (ℕ × Pmm)
unfolding take_run
alloc_contiguous fuel s frames limit boundary =
    if frames == 0
    then some (0, s)
    else take_run s frames (search_run fuel s.bits frames (last_frame s limit) boundary 0)

pub data FreeError : Type 0 where
  misaligned beyond_memory double_free : FreeError

pub data Freed : Type 0 where
  done : Pmm → Freed
  panic : FreeError → Freed

pub free_frame : Pmm → ℕ → Freed
free_frame s phys =
    let frame = phys / page_size in
    if not (phys % page_size == 0)
    then panic misaligned
    else if leb s.frame_count frame
    then panic beyond_memory
    else if is_used s frame
    then done (record s {
      bits = set s.bits frame false;
      free_count = (s.free_count + 1) % 2 ^ 32;
      search_hint =
          if ltb (frame / bits_per_word) s.search_hint
          then frame / bits_per_word
          else s.search_hint;
    })
    else panic double_free

pub free_frames : Pmm → ℕ
free_frames s = s.free_count

pub usable_frames : Pmm → ℕ
usable_frames s = s.usable_count
