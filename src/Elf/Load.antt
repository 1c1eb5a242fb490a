-- ===== src/Elf/Load.antt =====
-- elf_load stays in the user image and in the file, and what it reports of a program is right.
use manios.Base.{
  ℕ, zero, suc, ◌+◌, ◌%◌, ◌^◌, ◌≤◌, ◌<◌, ◌≡◌, refl, inl, inr, true, false, ◌||◌, List, [], ◌∷◌,
  arith, ltb, length, Bool-cases, All, true-ne-false, get_or,
}
use manios.Elf.{
  Space, Extent, Segments, all_loaded, segment_failed, Loaded, loaded, load_failed, finish_load,
  elf_load,
}
use manios.Elf.Format.{
  ElfHeader, ElfPhdr, page_size, user_image_min, user_image_top, is_load, le16, read_header,
  read_phdrs, abi_version, valid_header, le32,
}
use manios.Elf.Checks.{FitsImage, Covers}
use manios.Elf.Pages.{Keeps, Mapping}
use manios.Elf.SegmentLoops.{SegmentsFit, After, load_segments-After, protect_segments-Keeps}

-- What elf_load reports of a program that it has loaded.
abbrev pub Reports : List ℕ → ℕ → ℕ → ℕ → ℕ → Type 0
Reports image entry start end version =
    let h = read_header image in
    let ps = read_phdrs image h.phnum h.phoff in
    (valid_header h (length image) ≡ true)
    × (version ≡ abi_version image ps)
    × (1 ≤ version)
    × (version ≤ 2)
    × (entry ≡ h.entry)
    × (start % page_size ≡ 0)
    × (user_image_min ≤ start)
    × (start ≤ entry)
    × (entry < end)
    × (end ≤ user_image_top)
    × All
        (λ p.
          is_load p ≡ true
          → FitsImage p (length image) × (start ≤ p.vaddr) × (p.vaddr + p.memsz ≤ end))
        ps

-- The property holds of the state that elf_load leaves, and its report is right.
abbrev pub Outcome : (space : Space) → (space.State → Type 0) → List ℕ → Loaded space → Type 0
Outcome space Inv image (load_failed e st) = Inv st
Outcome space Inv image (loaded entry start end version st) =
    Inv st × Reports image entry start end version

get_or-lt : (bs : List ℕ) (i : ℕ) → All (λ b. b < 256) bs → get_or bs i 0 < 256
get_or-lt [] i h = omega arith
get_or-lt (b ∷ bs) zero h = h.0
get_or-lt (b ∷ bs) (suc i) h = get_or-lt bs i h.1

le32-lt : (bs : List ℕ) (i : ℕ) → All (λ b. b < 256) bs → le32 bs i < 2 ^ 32
unfolding le32 le16
le32-lt bs i h = omega (
  arith,
  get_or-lt bs i h,
  get_or-lt bs (i + 1) h,
  get_or-lt bs (i + 2) h,
  get_or-lt bs (i + 2 + 1) h,
)

module _ (space : Space) (Inv : space.State → Type 0) (image : List ℕ) (keeps : Keeps space Inv)
    (laws : Mapping space) (small : length image < 2 ^ 32) where
  finish_load-Outcome :
      (x : Extent) (r : Segments space)
      → let h = read_header image in
        let ps = read_phdrs image h.phnum h.phoff in
        let version = abi_version image ps in
        valid_header h (length image) ≡ true
        → (1 ≤ version) × (version ≤ 2)
        → After space Inv keeps laws image small h.entry ps x r
        → Outcome space Inv image (finish_load space ps h.entry version r)
  unfolding finish_load After
  finish_load-Outcome x (segment_failed e st) v range a = a
  finish_load-Outcome x (all_loaded y st) v range (i, c, w, fits) =
      elim (Bool-cases y.entry_loaded) [
        | inl l ↦ rw l (
          protect_segments-Keeps space Inv keeps laws image small _ _ y st fits i,
          (
            v,
            refl,
            range.0,
            range.1,
            refl,
            c.aligned,
            c.low,
            (c.inside l).0,
            (c.inside l).1,
            c.high,
            segments _ fits,
          ),
        )
        | inr l ↦ rw l i
      ]
    where
      segments :
          (ps : List ElfPhdr)
          → SegmentsFit ps (length image) y
          → All
              (λ p.
                is_load p ≡ true
                → FitsImage p (length image) × (y.start ≤ p.vaddr) × (p.vaddr + p.memsz ≤ y.end_))
              ps
      segments [] f = tt
      segments (p ∷ ps) f = ((λ l. ((f.0 l).0, (f.0 l).1.start, (f.0 l).1.end_)), segments ps f.1)

-- elf_load keeps any property of the address space that is kept by what it does to pages of the
-- user image and to bytes of it in pages that are mapped, whatever bytes the image holds and
-- whether it succeeds or fails: it writes nowhere else. Where it succeeds, the header is valid, the
-- ABI version is the note's and one that the kernel runs, the entry point lies in the image it
-- reports, which starts on a page, lies in the user image and contains every segment that is
-- loaded, and each of these lies in the file.
pub elf_load-Outcome :
    (space : Space) (Inv : space.State → Type 0) (image : List ℕ) (st : space.State)
    → Keeps space Inv
    → Mapping space
    → length image < 2 ^ 32
    → All (λ b. b < 256) image
    → Inv st
    → Outcome space Inv image (elf_load space image st)
unfolding elf_load read_header
elf_load-Outcome space Inv image st keeps laws small bytes i =
    elim (Bool-cases (valid_header h (length image))) [
      | inl v ↦ rw v (elim (Bool-cases (ltb version 1 || ltb 2 version)) [
        | inl y ↦ rw y i
        | inr y ↦ rw y (
            finish_load-Outcome space Inv image keeps laws small first _ v (ground (arith, y)) (
              load_segments-After space Inv keeps laws image small h.entry ps first st
                (le32-lt image 24 bytes) first-Covers i))
      ])
      | inr v ↦ rw v i
    ]
  where
    h : ElfHeader
    h = read_header image

    ps : List ElfPhdr
    ps = read_phdrs image h.phnum h.phoff

    version : ℕ
    version = abi_version image ps

    first : Extent
    first = record { entry_loaded = false; start = user_image_top; end_ = user_image_min }

    first-Covers : Covers h.entry first
    first-Covers = record {
      aligned = refl;
      low = omega arith;
      high = omega arith;
      inside = λ e. absurd (true-ne-false e refl);
    }
