-- ===== src/Elf/Checks.antt =====
-- What the checks of elf_load mean in numbers.
use manios.Base.{
  ℕ, ◌+◌, ◌%◌, ◌^◌, ◌≤◌, ◌<◌, ◌≡◌, inl, inr, true, List, arith, length, length-take, length-drop,
  take, drop, Bool-cases,
}
use manios.Elf.{Extent, grow_extent}
use manios.Elf.Format.{ElfPhdr, page_size, user_image_min, user_image_top, valid_segment}

-- The segment's bytes lie in the file, and its memory in the user image.
pub record FitsImage (p : ElfPhdr) (size : ℕ) : Type 0 where
  pub holds_file : p.filesz ≤ p.memsz
  pub in_file : p.offset + p.filesz ≤ size
  pub above : user_image_min ≤ p.vaddr
  pub below : p.vaddr + p.memsz ≤ user_image_top

pub valid_segment-FitsImage :
    (p : ElfPhdr) (size : ℕ) → size < 2 ^ 32 → valid_segment p size ≡ true → FitsImage p size
unfolding valid_segment
valid_segment-FitsImage p size h v = record {
  holds_file = ground (arith, v);
  in_file = ground (arith, v);
  above = ground (arith, v);
  below = ground (arith, v);
}

-- All the bytes that are copied are there.
pub length-copied :
    (p : ElfPhdr) (image : List ℕ)
    → FitsImage p (length image)
    → length (take p.filesz (drop p.offset image)) ≡ p.filesz
length-copied p image f =
    omega (arith, length-take p.filesz (drop p.offset image), length-drop p.offset image, f.in_file)

-- What is true of the extent of the segments so far.
pub record Covers (entry : ℕ) (x : Extent) : Type 0 where
  pub aligned : x.start % page_size ≡ 0
  pub low : user_image_min ≤ x.start
  pub high : x.end_ ≤ user_image_top
  pub inside : x.entry_loaded ≡ true → (x.start ≤ entry) × (entry < x.end_)

-- `y` is as large as `x`.
pub record Within (x y : Extent) : Type 0 where
  pub start : y.start ≤ x.start
  pub end_ : x.end_ ≤ y.end_

pub grow_extent-Within : (entry : ℕ) (p : ElfPhdr) (x : Extent) → Within x (grow_extent entry p x)
unfolding grow_extent
grow_extent-Within entry p x = record { start = ground arith; end_ = ground arith }

-- The segment lies in the extent.
pub record InExtent (p : ElfPhdr) (x : Extent) : Type 0 where
  pub start : x.start ≤ p.vaddr
  pub end_ : p.vaddr + p.memsz ≤ x.end_

pub grow_extent-InExtent :
    (entry size : ℕ) (p : ElfPhdr) (x : Extent)
    → FitsImage p size
    → InExtent p (grow_extent entry p x)
unfolding grow_extent
grow_extent-InExtent entry size p x f = record {
  start = ground (arith, f.below);
  end_ = ground (arith, f.below);
}

pub grow_extent-Covers :
    (entry size : ℕ) (p : ElfPhdr) (x : Extent)
    → entry < 2 ^ 32
    → FitsImage p size
    → Covers entry x
    → Covers entry (grow_extent entry p x)
unfolding grow_extent
grow_extent-Covers entry size p x h f c = record {
  aligned = ground (arith, c.aligned);
  low = ground (arith, c.low, f.above);
  high = ground (arith, c.high, f.below);
  inside = λ e. elim (Bool-cases x.entry_loaded) [
    | inl y ↦ (
      omega (arith, (c.inside y).0, (grow_extent-Within entry p x).start),
      omega (arith, (c.inside y).1, (grow_extent-Within entry p x).end_),
    )
    | inr y ↦ entry_here (ground (arith, e, y)) (ground (arith, e, y, f.below))
  ];
}
  where
    entry_here :
        p.vaddr ≤ entry
        → entry < p.vaddr + p.memsz
        → ((grow_extent entry p x).start ≤ entry) × (entry < (grow_extent entry p x).end_)
    entry_here lo hi = (
      omega (arith, lo, (grow_extent-InExtent entry size p x f).start),
      omega (arith, hi, (grow_extent-InExtent entry size p x f).end_),
    )
