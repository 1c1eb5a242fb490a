-- ===== src/Elf.antt =====
-- zkt/kernel/elf.c: loading a program. The image is the list of its bytes, and what elf_load asks
-- of the active address space and of the frame allocator is an interface, `Space`.
pub mod Format
pub mod Checks
pub mod Pages
pub mod SegmentLoops
pub mod Load
mod Tests
use manios.Base.{
  ℕ, zero, suc, ◌+◌, ◌-◌, ◌*◌, ◌/◌, ◌%◌, ◌^◌, bit_and, Bool, true, false, not, ◌&&◌, ◌||◌, List, [],
  ◌∷◌, ltb, leb, ◌==◌, if◌then◌else◌, get_or, take, drop, length, Option, none, some,
}
use manios.Elf.Format.{
  page_size, user_image_min, user_image_top, le16, le32, ElfHeader, header_size, read_header,
  ElfPhdr, phdr_size, read_phdr, read_phdrs, matches, valid_header, valid_segment, padded, Note,
  read_note, scan_notes, segment_notes, abi_version, is_load, is_writable, writable_segment_covers,
  version_note, next_note, bad_note,
}

pub data LoadError : Type 0 where
  enoexec enomem : LoadError

-- What elf_load asks of vmm.h and pmm.h, and the memory that it writes in the active address space.
pub record Space : Type 1 where
  pub State : Type 0
  -- vmm_translate succeeds
  pub is_mapped : State → ℕ → Bool
  -- a frame's address, 0 when there is none
  pub alloc_frame : State → ℕ × State
  pub free_frame : State → ℕ → State
  -- a user page, writable; false when it cannot be mapped
  pub map_page : State → ℕ → ℕ → Bool × State
  pub zero_page : State → ℕ → State
  pub copy_in : State → ℕ → List ℕ → State
  pub set_read_only : State → ℕ → State

abbrev pub page_of : ℕ → ℕ
page_of addr = addr / page_size * page_size

-- What the loop over the segments has found.
pub record Extent : Type 0 where
  pub entry_loaded : Bool
  pub start : ℕ
  pub end_ : ℕ

pub grow_extent : ℕ → ElfPhdr → Extent → Extent
grow_extent entry p x = record {
  entry_loaded =
      x.entry_loaded || leb p.vaddr entry && ltb ((entry + 2 ^ 32 - p.vaddr) % 2 ^ 32) p.memsz;
  start = if ltb (page_of p.vaddr) x.start then page_of p.vaddr else x.start;
  end_ = if ltb x.end_ ((p.vaddr + p.memsz) % 2 ^ 32) then (p.vaddr + p.memsz) % 2 ^ 32 else x.end_;
}

-- The rounds of a loop over the pages from `start` up to `end`, and one more.
abbrev pub page_rounds : ℕ → ℕ → ℕ
page_rounds start end = (end - start) / page_size + 2

module _ (space : Space) where
  open space use {
    State, is_mapped, alloc_frame, free_frame, map_page, zero_page, copy_in, set_read_only,
  }

  pub data Segments : Type 0 where
    all_loaded : Extent → State → Segments
    segment_failed : LoadError → State → Segments

  pub data Loaded : Type 0 where
    -- the entry point, the image's start and end, and the ABI version
    loaded : ℕ → ℕ → ℕ → ℕ → State → Loaded
    load_failed : LoadError → State → Loaded

  -- A page that is not mapped yet: false for the -ENOMEM.
  pub map_new : State → ℕ → Bool × State
  map_new st page =
      let (frame, st₁) = alloc_frame st in
      let (ok, st₂) = map_page st₁ page frame in
      if frame == 0
      then (false, st₁)
      else if ok
      then (true, zero_page st₂ page)
      else (false, free_frame st₂ frame)

  -- The loop of map_range, on fuel.
  pub map_range : ℕ → ℕ → ℕ → State → Bool × State
  map_range zero page end st = (true, st)
  map_range (suc fuel) page end st =
      let (ok, st') = map_new st page in
      let rest = map_range fuel (page + page_size) end st in
      let rest' = map_range fuel (page + page_size) end st' in
      if not (ltb page end)
      then (true, st)
      else if is_mapped st page
      then rest
      else if ok
      then rest'
      else (false, st')

  -- The segment's bytes, once its pages are there.
  abbrev pub fill_segment : List ℕ → ElfPhdr → State → State
  fill_segment image p st = copy_in st p.vaddr (take p.filesz (drop p.offset image))

  pub load_segments : List ℕ → ℕ → List ElfPhdr → Extent → State → Segments
  unfolding map_range
  load_segments image entry [] x st = all_loaded x st
  load_segments image entry (p ∷ ps) x st =
      let end = (p.vaddr + p.memsz) % 2 ^ 32 in
      let (ok, st') = map_range (page_rounds (page_of p.vaddr) end) (page_of p.vaddr) end st in
      let skipped = load_segments image entry ps x st in
      let rest = load_segments image entry ps (grow_extent entry p x) (fill_segment image p st') in
      if not (is_load p)
      then skipped
      else if not (valid_segment p (length image))
      then segment_failed enoexec st
      else if ok
      then rest
      else segment_failed enomem st'

  -- The pages of a segment without PF_W, but for those that a writable segment shares.
  pub protect_range : ℕ → List ElfPhdr → ℕ → ℕ → State → State
  protect_range zero ps page end st = st
  protect_range (suc fuel) ps page end st =
      let st' = if writable_segment_covers ps page then st else set_read_only st page in
      let rest = protect_range fuel ps (page + page_size) end st' in
      if ltb page end then rest else st

  pub protect_segments : List ElfPhdr → List ElfPhdr → State → State
  unfolding protect_range
  protect_segments all [] st = st
  protect_segments all (p ∷ ps) st =
      let end = (p.vaddr + p.memsz) % 2 ^ 32 in
      let st' = protect_range (page_rounds (page_of p.vaddr) end) all (page_of p.vaddr) end st in
      protect_segments all ps (if not (is_load p) || is_writable p then st else st')

  -- The end of elf_load, once the loop over the segments has ended.
  pub finish_load : List ElfPhdr → ℕ → ℕ → Segments → Loaded
  finish_load ps entry version (segment_failed e st) = load_failed e st
  finish_load ps entry version (all_loaded x st) =
      if x.entry_loaded
      then loaded entry x.start x.end_ version (protect_segments ps ps st)
      else load_failed enoexec st

  pub elf_load : List ℕ → State → Loaded
  elf_load image st =
      let h = read_header image in
      let ps = read_phdrs image h.phnum h.phoff in
      let version = abi_version image ps in
      if not (valid_header h (length image))
      then load_failed enoexec st
      else if ltb version 1 || ltb 2 version
      then load_failed enoexec st
      else finish_load ps h.entry version (
          load_segments image h.entry ps
            (record { entry_loaded = false; start = user_image_top; end_ = user_image_min }) st)
