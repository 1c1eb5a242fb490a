-- ===== src/Heap.antt =====
-- zkt/mm/heap.c: the kernel heap, a list of blocks in address order over pages that are mapped on
-- demand. The frames and the page tables are an interface, `Pages`.
pub mod Tiling
pub mod Alloc
pub mod Grow
pub mod Live
pub mod Kmalloc
pub mod Kfree
pub mod Session
mod Tests
use mathlib.Core.Option
use manios.Base.{
  ℕ, zero, suc, ◌+◌, ◌-◌, ◌*◌, ◌/◌, ◌%◌, ◌^◌, Bool, true, false, not, ◌&&◌, ◌||◌, Option, none,
  some, List, [], ◌∷◌, ltb, leb, ◌==◌, if◌then◌else◌,
}

-- `struct block`: its address, and its header but for `next`, which is the rest of the list.
pub record Block : Type 0 where
  pub addr : ℕ
  pub magic : ℕ
  pub size : ℕ

-- `heap_head`, `heap_end` and `used_bytes`
pub record Heap : Type 0 where
  pub blocks : List Block
  pub heap_end : ℕ
  pub used_bytes : ℕ

abbrev pub magic_used : ℕ
magic_used = 0x5A4B5455

abbrev pub magic_free : ℕ
magic_free = 0x5A4B5446

abbrev pub page_size : ℕ
page_size = 4096

abbrev pub heap_start : ℕ
heap_start = 0xD0000000

abbrev pub heap_max_size : ℕ
heap_max_size = 0x10000000

-- `sizeof(struct block)`
abbrev pub header_size : ℕ
header_size = 16

-- What the heap asks of pmm.c and of the page tables.
pub record Pages : Type 1 where
  pub State : Type 0
  -- a frame's address, 0 when there is none
  pub alloc_frame : State → ℕ × State
  pub free_frame : State → ℕ → State
  -- a virtual address and a frame; false when there is no memory for a page table
  pub map_page : State → ℕ → ℕ → Bool × State
  -- the frame that was mapped there
  pub unmap_page : State → ℕ → ℕ × State

pub init : Heap
init = record { blocks = []; heap_end = heap_start; used_bytes = 0 }

pub is_free : Block → Bool
is_free b = b.magic == magic_free

module _ (pages : Pages) where
  open pages use {State, alloc_frame, free_frame, map_page, unmap_page}

  -- `while (off) ...`, `k` pages from `start`
  unmap_pages : ℕ → ℕ → State → State
  unmap_pages zero start st = st
  unmap_pages (suc k) start st =
      let (phys, st₁) = unmap_page st (start + k * page_size) in
      unmap_pages k start (free_frame st₁ phys)

  -- `frame && vmm_map_page(...) == 0`
  try_map : ℕ → ℕ → State → Bool × State
  try_map zero addr st = (false, st)
  try_map (suc f) addr st = map_page st addr (suc f)

  give_back : ℕ → State → State
  give_back zero st = st
  give_back (suc f) st = free_frame st (suc f)

  -- The `for` loop of heap_grow: `n` pages are left, `k` are mapped.
  map_pages : ℕ → ℕ → ℕ → State → Bool × State
  unfolding unmap_pages try_map give_back
  map_pages zero k start st = (true, st)
  map_pages (suc n) k start st =
      let (frame, st₁) = alloc_frame st in
      let (ok, st₂) = try_map frame (start + k * page_size) st₁ in
      let rest = map_pages n (k + 1) start st₂ in
      if ok then rest else (false, unmap_pages k start (give_back frame st₂))

-- The new pages join a free last block, or are a block of their own.
pub append_free : List Block → ℕ → ℕ → List Block
unfolding is_free
append_free [] end bytes =
    record { addr = end; magic = magic_free; size = bytes - header_size } ∷ []
append_free (b ∷ []) end bytes =
    if is_free b
    then record b { size = b.size + bytes } ∷ []
    else b ∷ record { addr = end; magic = magic_free; size = bytes - header_size } ∷ []
append_free (b ∷ c ∷ bs) end bytes = b ∷ append_free (c ∷ bs) end bytes

-- The page-rounded length of a block with `size` payload bytes.
pub grow_bytes : ℕ → ℕ
grow_bytes size = (header_size + size + page_size - 1) % 2 ^ 32 / page_size * page_size

-- What `take_first_fit` leaves free of `b`.
abbrev pub leftover : Block → ℕ → Block
leftover b size = record {
  addr = b.addr + header_size + size;
  magic = magic_free;
  size = b.size - size - header_size;
}

-- `b` as an allocated block, of `size` bytes where enough is left over for another block.
pub split : Block → ℕ → List Block → List Block
split b size bs =
    if leb (size + header_size + 16) b.size
    then record b { magic = magic_used; size = size } ∷ leftover b size ∷ bs
    else record b { magic = magic_used } ∷ bs

-- The payload bytes that `take_first_fit` counts as used.
pub taken : Block → ℕ → ℕ
taken b size = if leb (size + header_size + 16) b.size then size else b.size

pub fits : Block → ℕ → Bool
unfolding is_free
fits b size = is_free b && leb size b.size

-- The walk came to the block over `b`, which stays.
abbrev pub behind : Block → Block × List Block → Block × List Block
behind b (c, cs) = (c, b ∷ cs)

-- The block that is found, and the blocks after it is taken.
pub first_fit : ℕ → List Block → Option (Block × List Block)
unfolding fits split
first_fit size [] = none
first_fit size (b ∷ bs) =
    let rest = Option.map (behind b) (first_fit size bs) in
    if fits b size then some (b, split b size bs) else rest

-- `(size + HEAP_ALIGN - 1) & ~(size_t)(HEAP_ALIGN - 1)`
abbrev pub round_up : ℕ → ℕ
round_up size = (size + 16 - 1) % 2 ^ 32 / 16 * 16

-- The payload's address.
pub take_first_fit : Heap → ℕ → Option (ℕ × Heap)
take_first_fit h size =
    Option.map
      (λ ((b, blocks) : Block × List Block). (
        b.addr + header_size,
        record h { blocks = blocks; used_bytes = (h.used_bytes + taken b size) % 2 ^ 32 },
      ))
      (first_fit size h.blocks)

module _ (pages : Pages) where
  open pages use {State}

  -- true for the 0 that means success
  pub heap_grow : ℕ → Heap × State → Bool × Heap × State
  unfolding grow_bytes
  heap_grow size (h, st) =
      let bytes = grow_bytes size in
      let (ok, st') = map_pages pages (bytes / page_size) 0 h.heap_end st in
      if ltb ((heap_start + heap_max_size + 2 ^ 32 - h.heap_end) % 2 ^ 32) bytes
      then (false, h, st)
      else if ok
      then (
        true,
        record h { blocks = append_free h.blocks h.heap_end bytes; heap_end = h.heap_end + bytes },
        st',
      )
      else (false, h, st')

  -- `take_first_fit` after the heap has grown, or the NULL when it could not.
  pub retry : ℕ → Bool × Heap × State → Option ℕ × Heap × State
  retry size (false, h, st) = (none, h, st)
  retry size (true, h, st) = elim (take_first_fit h size) [
    | none ↦ (none, h, st)
    | some (p, h') ↦ (some p, h', st)
  ]

  pub kmalloc : ℕ → Heap × State → Option ℕ × Heap × State
  unfolding retry
  kmalloc size (h, st) =
      if size == 0 || ltb heap_max_size size
      then (none, h, st)
      else (let n = round_up size in
          elim (take_first_fit h n) [
            | none ↦ retry n (heap_grow n (h, st))
            | some (p, h') ↦ (some p, h', st)
          ])

-- The messages of kfree's panics.
pub data Panic : Type 0 where
  not_from_kmalloc double_free corruption : Panic

pub data Freed : Type 0 where
  done : Heap → Freed
  panic : Panic → Freed
  -- A pointer into a payload whose bytes look like a used header: what follows is up to them.
  stray : Freed

pub find_block : List Block → ℕ → Option Block
find_block [] addr = none
find_block (b ∷ bs) addr = if b.addr == addr then some b else find_block bs addr

pub set_magic : List Block → ℕ → ℕ → List Block
set_magic [] addr magic = []
set_magic (b ∷ bs) addr magic =
    if b.addr == addr then record b { magic = magic } ∷ bs else b ∷ set_magic bs addr magic

-- The loop of kfree from block `c`: free neighbours are joined.
pub coalesce : Block → List Block → List Block
coalesce c [] = c ∷ []
coalesce c (d ∷ ds) = elim (is_free c && is_free d) [
  | true ↦ coalesce (record c { size = c.size + header_size + d.size }) ds
  | false ↦ c ∷ coalesce d ds
]

pub coalesce_all : List Block → List Block
unfolding coalesce
coalesce_all [] = []
coalesce_all (c ∷ cs) = coalesce c cs

-- kfree from the look at the header: a block's, or a word of somebody's payload.
pub free_block : Heap → ℕ → ℕ → Option Block → Freed
free_block h addr word none =
    if word == magic_free
    then panic double_free
    else if word == magic_used
    then stray
    else panic corruption
free_block h addr word (some b) =
    if b.magic == magic_free
    then panic double_free
    else if b.magic == magic_used
    then done (record h {
      blocks = coalesce_all (set_magic h.blocks addr magic_free);
      used_bytes = (h.used_bytes + 2 ^ 32 - b.size) % 2 ^ 32;
    })
    else panic corruption

-- `word` is what memory holds where the header would be, if that is no block's header.
pub kfree : Heap → ℕ → ℕ → Freed
unfolding free_block
kfree h word ptr =
    if ptr == 0
    then done h
    else if ltb ptr (heap_start + header_size) || leb h.heap_end ptr || not (ptr % 16 == 0)
    then panic not_from_kmalloc
    else free_block h (ptr - header_size) word (find_block h.blocks (ptr - header_size))

pub heap_used : Heap → ℕ
heap_used h = h.used_bytes

pub heap_mapped_bytes : Heap → ℕ
heap_mapped_bytes h = h.heap_end - heap_start

-- What heap_check refuses at a block, but for its neighbour.
pub sound_block : Block → ℕ → Bool
sound_block b expected =
    b.addr == expected && (b.magic == magic_used || b.magic == magic_free) && b.size % 16 == 0

-- The walk of heap_check from `expected`: the address past the last block, if nothing is refused.
pub check_from : List Block → ℕ → Option ℕ
unfolding sound_block is_free
check_from [] expected = some expected
check_from (b ∷ []) expected =
    if sound_block b expected then some ((b.addr + header_size + b.size) % 2 ^ 32) else none
check_from (b ∷ c ∷ bs) expected =
    let rest = check_from (c ∷ bs) ((b.addr + header_size + b.size) % 2 ^ 32) in
    if sound_block b expected && not (is_free b && is_free c) then rest else none

-- true for the 0 that means a consistent heap
pub heap_check : Heap → Bool
unfolding check_from
heap_check h = elim (check_from h.blocks heap_start) [ none ↦ false | some e ↦ e == h.heap_end ]
