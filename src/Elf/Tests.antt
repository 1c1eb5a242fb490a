-- ===== src/Elf/Tests.antt =====
-- elf_load of a program with one segment of 20 bytes at 0x1000 and a note, over a list of mapped
-- pages.
use manios.Base.{
  ℕ, ◌<◌, ◌≡◌, refl, Bool, true, false, ◌||◌, ◌&&◌, ltb, List, [], ◌∷◌, arith, ◌==◌, All,
}
use manios.Elf.{
  Space, loaded, elf_load, load_segments, map_range, map_new, protect_range, protect_segments,
  finish_load, grow_extent,
}
use manios.Elf.Format.{
  page_size, read_header, read_phdr, read_phdrs, le16, le32, valid_header, valid_segment, matches,
  read_note, scan_notes, segment_notes, abi_version, is_load, is_writable, writable_segment_covers,
}
use manios.Elf.Pages.{IsUserPage, Keeps, Mapping}
use manios.Elf.Load.{Outcome, elf_load-Outcome}

abbrev contains : List ℕ → ℕ → Bool
contains [] q = false
contains (p ∷ ps) q = p == q || contains ps q

abbrev page_list : Space
page_list = record {
  State = List ℕ;
  is_mapped = contains;
  alloc_frame = λ st. (page_size, st);
  free_frame = λ st frame. st;
  map_page = λ st page frame. (true, page ∷ st);
  zero_page = λ st page. st;
  copy_in = λ st addr bs. st;
  set_read_only = λ st page. st;
}

-- Only user pages are mapped.
abbrev UserPages : List ℕ → Type 0
UserPages st = All IsUserPage st

page_list-UserPages : Keeps page_list UserPages
page_list-UserPages = record {
  alloc = λ st i. i;
  free = λ st frame i. i;
  map = λ st page frame u i. (u, i);
  clear = λ st page u i. i;
  copy = λ st addr bs lo hi m i. i;
  protect = λ st page u i. i;
}

pages_mapped : Mapping page_list
pages_mapped = record {
  new = λ st page frame h. ground arith;
  map = λ st page frame q m. ground (arith, m);
  alloc = λ st q m. m;
  clear = λ st page q m. m;
}

abbrev program : List ℕ
program =
    127 ∷ 69 ∷ 76 ∷ 70 ∷ 1 ∷ 1 ∷ 1 ∷ 0 ∷ 0 ∷ 0 ∷ 0 ∷ 0 ∷ 0 ∷ 0 ∷ 0 ∷ 0 ∷ 2 ∷ 0 ∷ 3 ∷ 0 ∷ 1 ∷ 0 ∷ 0
    ∷ 0 ∷ 4 ∷ 16 ∷ 0 ∷ 0 ∷ 52 ∷ 0 ∷ 0 ∷ 0 ∷ 0 ∷ 0 ∷ 0 ∷ 0 ∷ 0 ∷ 0 ∷ 0 ∷ 0 ∷ 52 ∷ 0 ∷ 32 ∷ 0 ∷ 2 ∷ 0
    ∷ 0 ∷ 0 ∷ 0 ∷ 0 ∷ 0 ∷ 0 ∷ 4 ∷ 0 ∷ 0 ∷ 0 ∷ 116 ∷ 0 ∷ 0 ∷ 0 ∷ 0 ∷ 0 ∷ 0 ∷ 0 ∷ 0 ∷ 0 ∷ 0 ∷ 0 ∷ 20
    ∷ 0 ∷ 0 ∷ 0 ∷ 20 ∷ 0 ∷ 0 ∷ 0 ∷ 4 ∷ 0 ∷ 0 ∷ 0 ∷ 4 ∷ 0 ∷ 0 ∷ 0 ∷ 1 ∷ 0 ∷ 0 ∷ 0 ∷ 136 ∷ 0 ∷ 0 ∷ 0
    ∷ 0 ∷ 16 ∷ 0 ∷ 0 ∷ 0 ∷ 0 ∷ 0 ∷ 0 ∷ 8 ∷ 0 ∷ 0 ∷ 0 ∷ 20 ∷ 0 ∷ 0 ∷ 0 ∷ 5 ∷ 0 ∷ 0 ∷ 0 ∷ 4 ∷ 0 ∷ 0
    ∷ 0 ∷ 4 ∷ 0 ∷ 0 ∷ 0 ∷ 4 ∷ 0 ∷ 0 ∷ 0 ∷ 1 ∷ 0 ∷ 0 ∷ 0 ∷ 90 ∷ 75 ∷ 84 ∷ 0 ∷ 2 ∷ 0 ∷ 0 ∷ 0 ∷ 1 ∷ 2
    ∷ 3 ∷ 4 ∷ 5 ∷ 6 ∷ 7 ∷ 8 ∷ []

program_loads : elf_load page_list program [] ≡ loaded 0x1004 0x1000 0x1014 2 (0x1000 ∷ [])
unfolding elf_load load_segments map_range map_new protect_range protect_segments finish_load
    read_header read_phdr read_phdrs le16 le32 valid_header valid_segment matches read_note
    scan_notes segment_notes abi_version is_load is_writable writable_segment_covers grow_extent
program_loads = refl

abbrev are_bytes : List ℕ → Bool
are_bytes [] = true
are_bytes (b ∷ bs) = ltb b 256 && are_bytes bs

are_bytes-All : (bs : List ℕ) → are_bytes bs ≡ true → All (λ b. b < 256) bs
are_bytes-All [] h = tt
are_bytes-All (b ∷ bs) h = (ground (arith, h), are_bytes-All bs (ground (arith, h)))

program_bytes : All (λ b. b < 256) program
program_bytes = are_bytes-All program refl

elf_load-Outcome_example : Outcome page_list UserPages program (elf_load page_list program [])
elf_load-Outcome_example =
    elf_load-Outcome page_list UserPages program [] page_list-UserPages pages_mapped (omega arith)
      program_bytes tt
