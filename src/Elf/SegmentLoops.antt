-- ===== src/Elf/SegmentLoops.antt =====
-- The loops of elf_load over the segments.
use manios.Base.{
  ℕ, ◌+◌, ◌%◌, ◌^◌, ◌<◌, ◌≡◌, inl, inr, true, List, [], ◌∷◌, arith, length, Bool-cases, All,
  true-ne-false,
}
use manios.Elf.{
  Space, page_of, page_rounds, map_range, Extent, grow_extent, fill_segment, load_segments,
  Segments, all_loaded, segment_failed, protect_segments,
}
use manios.Elf.Format.{ElfPhdr, is_load, is_writable, valid_segment}
use manios.Elf.Checks.{
  FitsImage, valid_segment-FitsImage, length-copied, Covers, grow_extent-Covers, Within,
  grow_extent-Within, InExtent, grow_extent-InExtent,
}
use manios.Elf.Pages.{Keeps, Mapping, map_range-Keeps, protect_range-Keeps, map_range-Mapping}

-- The segments that are loaded fit the file and the user image, and lie in the extent.
abbrev pub SegmentsFit : List ElfPhdr → ℕ → Extent → Type 0
SegmentsFit ps size x = All (λ p. is_load p ≡ true → FitsImage p size × InExtent p x) ps

module _ (space : Space) (Inv : space.State → Type 0) (keeps : Keeps space Inv)
    (laws : Mapping space) (image : List ℕ) (small : length image < 2 ^ 32) where
  open space use {State, is_mapped}

  -- What a segment's pages and bytes leave of the property.
  segment-Keeps :
      (p : ElfPhdr) (st : State)
      → FitsImage p (length image)
      → let end = (p.vaddr + p.memsz) % 2 ^ 32 in
        let r = map_range space (page_rounds (page_of p.vaddr) end) (page_of p.vaddr) end st in
        Inv st → Inv r.1 × (r.0 ≡ true → Inv (fill_segment space image p r.1))
  segment-Keeps p st f i = (
    pages_kept,
    λ ok.
        keeps.copy _ p.vaddr _ f.above
          (omega (arith, length-copied p image f, f.holds_file, f.below))
          (λ q b hi lo.
            (map_range-Mapping space laws (page_rounds (page_of p.vaddr) end) (page_of p.vaddr) end
                st (omega arith) (omega arith) ok).0
              q b (omega (arith, b, lo))
              (omega (arith, hi, length-copied p image f, f.holds_file, f.below)))
          pages_kept,
  )
    where
      end : ℕ
      end = (p.vaddr + p.memsz) % 2 ^ 32

      pages_kept :
          Inv (map_range space (page_rounds (page_of p.vaddr) end) (page_of p.vaddr) end st).1
      pages_kept =
          map_range-Keeps space Inv keeps (page_rounds (page_of p.vaddr) end) (page_of p.vaddr) end
            st (omega arith) (omega (arith, f.above)) (omega (arith, f.below)) i

  unfoldable pub After : ℕ → List ElfPhdr → Extent → Segments space → Type 0
  After entry ps x (segment_failed e st) = Inv st
  After entry ps x (all_loaded y st) =
      Inv st × Covers entry y × Within x y × SegmentsFit ps (length image) y

  -- One more segment in front.
  After-cons :
      (entry : ℕ) (p : ElfPhdr) (ps : List ElfPhdr) (x x' : Extent) (r : Segments space)
      → Within x x'
      → (is_load p ≡ true → FitsImage p (length image) × InExtent p x')
      → After entry ps x' r
      → After entry (p ∷ ps) x r
  unfolding After
  After-cons entry p ps x x' (segment_failed e st) w f i = i
  After-cons entry p ps x x' (all_loaded y st) w f (i, c, v, fits) = (
    i,
    c,
    record { start = omega (arith, w.start, v.start); end_ = omega (arith, w.end_, v.end_) },
    (
      λ l. (
        (f l).0,
        record {
          start = omega (arith, (f l).1.start, v.start);
          end_ = omega (arith, (f l).1.end_, v.end_);
        },
      ),
      fits,
    ),
  )

  pub load_segments-After :
      (entry : ℕ) (ps : List ElfPhdr) (x : Extent) (st : State)
      → entry < 2 ^ 32
      → Covers entry x
      → Inv st
      → After entry ps x (load_segments space image entry ps x st)
  unfolding load_segments After
  load_segments-After entry [] x st h c i =
      (i, c, record { start = omega arith; end_ = omega arith }, tt)
  load_segments-After entry (p ∷ ps) x st h c i = elim (Bool-cases (is_load p)) [
    | inl y ↦ rw y (elim (Bool-cases (valid_segment p (length image))) [
      | inl z ↦
          rw z
            (elim (Bool-cases
              (map_range space (page_rounds (page_of p.vaddr) end) (page_of p.vaddr) end st).0) [
                | inl ok ↦ rw ok (
                    After-cons entry p ps x (grow_extent entry p x) _ (grow_extent-Within entry p x)
                      (λ l. (fits z, grow_extent-InExtent entry (length image) p x (fits z)))
                      (load_segments-After entry ps (grow_extent entry p x) _ h
                        (grow_extent-Covers entry (length image) p x h (fits z) c)
                        ((segment-Keeps p st (fits z) i).1 ok)))
                | inr bad ↦ rw bad (segment-Keeps p st (fits z) i).0
              ])
      | inr z ↦ rw z i
    ])
    | inr y ↦ rw y (
        After-cons entry p ps x x _ (record { start = omega arith; end_ = omega arith })
          (λ l. absurd (true-ne-false l y)) (load_segments-After entry ps x st h c i))
  ]
    where
      end : ℕ
      end = (p.vaddr + p.memsz) % 2 ^ 32

      fits : valid_segment p (length image) ≡ true → FitsImage p (length image)
      fits z = valid_segment-FitsImage p (length image) small z

  pub protect_segments-Keeps :
      (all ps : List ElfPhdr) (x : Extent) (st : State)
      → SegmentsFit ps (length image) x
      → Inv st
      → Inv (protect_segments space all ps st)
  unfolding protect_segments
  protect_segments-Keeps all [] x st f i = i
  protect_segments-Keeps all (p ∷ ps) x st f i = elim (Bool-cases (is_load p)) [
    | inl y ↦ rw y (elim (Bool-cases (is_writable p)) [
      | inl z ↦ rw z (protect_segments-Keeps all ps x st f.1 i)
      | inr z ↦ rw z (
          protect_segments-Keeps all ps x _ f.1 (
            protect_range-Keeps space Inv keeps (page_rounds (page_of p.vaddr) end) all
              (page_of p.vaddr) end st (omega arith) (omega (arith, (f.0 y).0.above))
              (omega (arith, (f.0 y).0.below)) i))
    ])
    | inr y ↦ rw y (protect_segments-Keeps all ps x st f.1 i)
  ]
    where
      end : ℕ
      end = (p.vaddr + p.memsz) % 2 ^ 32
