-- ===== src/Pmm/Building.antt =====
-- pmm_init gives a valid bitmap whose free frames are exactly those of the memory map behind it.
use manios.Base.{
  ℕ, zero, suc, ◌+◌, ◌-◌, ◌*◌, ◌/◌, ◌%◌, ◌^◌, ◌≤◌, ◌<◌, ◌≡◌, refl, ◌∙◌, ◌⊎◌, inl, inr, Bool, true,
  false, not, ◌&&◌, List, [], ◌∷◌, arith, ltb, leb, ◌==◌, if◌then◌else◌, get_or, length, Bool-cases,
  All,
}
use manios.Pmm.{Pmm, page_size, count_from, is_used}
use manios.Pmm.Invariant.{IsValid}
use manios.Pmm.Init.{
  Region, phys_addr_limit, boot_mapped_limit, region_end, find_top, bitmap_end, place, free_usable,
  use_reserved, all_used, Init, ready, no_room, build, build_at, words_for, pmm_init,
}
use manios.Pmm.Marking.{
  holds, touches, any_region, region_end-le, length-mark_frames, get_or-mark_frames,
  length-free_usable, length-use_reserved, get_or-free_usable, get_or-use_reserved, length-all_used,
  get_or-all_used,
}
use manios.Pmm.Placing.{Clear, Apart, Placed, place-Placed, past_start-le}

-- A frame of the memory map that can be used.
abbrev usable_frame : List Region → ℕ → Bool
usable_frame rs f = any_region (λ r. holds r f) rs && not (any_region (λ r. touches r f) rs)

abbrev count_frames : (ℕ → Bool) → ℕ → ℕ → ℕ
count_frames p zero f = 0
count_frames p (suc n) f = (if p f then 1 else 0) + count_frames p n (f + 1)

count_from-frames :
    (bits : List Bool) (p : ℕ → Bool) (n f : ℕ)
    → ((g : ℕ) → g < f + n → get_or bits g false ≡ not (p g))
    → count_from bits n f ≡ count_frames p n f
unfolding count_from
count_from-frames bits p zero f h = refl
count_from-frames bits p (suc n) f h =
    let i = count_from-frames bits p n (f + 1) (λ g k. h g (omega (arith, k))) in
    let e = h f (omega arith) in rw e (ground (arith, i))

module _ (rs : List Region) (frames : ℕ) (small : frames ≤ 2 ^ 20) where
  abbrev words : ℕ
  words = words_for frames

  abbrev with_usable : List Bool
  with_usable = free_usable rs frames (all_used (words * 32))

  abbrev with_reserved : List Bool
  with_reserved = use_reserved rs frames with_usable

  length-with_usable : length with_usable ≡ words * 32
  length-with_usable =
      length-free_usable rs frames (all_used (words * 32)) ∙ length-all_used (words * 32)

  length-with_reserved : length with_reserved ≡ words * 32
  length-with_reserved = length-use_reserved rs frames with_usable ∙ length-with_usable

  get_or-with_reserved :
      (g : ℕ)
      → g < words * 32
      → get_or with_reserved g false ≡ not (ltb g frames && usable_frame rs g)
  get_or-with_reserved g h =
      let a = get_or-all_used (words * 32) g h in
      let l = length-all_used (words * 32) in
      let u = get_or-free_usable rs frames (all_used (words * 32)) g (omega (arith, l)) small in
      let l' = length-with_usable in
      let r = get_or-use_reserved rs frames with_usable g (omega (arith, l')) small in
      r ∙ rw (u, a) (ground arith)

  module _ (end : ℕ) where
    abbrev built : Pmm
    built = build rs frames words end

    is_used-built :
        (g : ℕ)
        → g < words * 32
        → is_used built g ≡ not (ltb g frames && usable_frame rs g && leb (end / page_size) g)
    unfolding build
    is_used-built g h =
        let l = length-with_reserved in
        let m =
          get_or-mark_frames true with_reserved frames 0 (end / page_size) g (omega (arith, l)) in
        let r = get_or-with_reserved g h in m ∙ rw r (ground arith)

    built-IsValid : 1 ≤ frames → page_size ≤ end → IsValid built
    unfolding build
    built-IsValid p e = record {
      shape =
          length-mark_frames true with_reserved frames 0 (end / page_size) ∙ length-with_reserved;
      words = refl;
      small = small;
      tail = λ f k h. let u = is_used-built f h in u ∙ ground (arith, k);
      full = λ f h. absurd (omega (arith, h));
      hint = omega arith;
      counted = refl;
      reserved = is_used-built 0 (omega (arith, p)) ∙ ground (arith, e);
    }

    usable-built : built.usable_count ≡ count_frames (usable_frame rs) frames 0
    unfolding build
    usable-built =
        count_from-frames with_reserved (usable_frame rs) frames 0
          (λ g h. get_or-with_reserved g (omega (arith, h)) ∙ ground (arith, h))

find_top-ge : (rs : List Region) (top : ℕ) → top ≤ find_top rs top
unfolding find_top
find_top-ge [] top = omega arith
find_top-ge (r ∷ rs) top =
    let next =
      if r.usable && ltb r.base phys_addr_limit && ltb top (region_end r)
      then region_end r
      else top in
    let grows : top ≤ next = ground arith in omega (arith, find_top-ge rs next, grows)

find_top-le : (rs : List Region) (top : ℕ) → top ≤ 2 ^ 32 → find_top rs top ≤ 2 ^ 32
unfolding find_top
find_top-le [] top h = h
find_top-le (r ∷ rs) top h =
    let e = region_end-le r in
    find_top-le rs
      (if r.usable && ltb r.base phys_addr_limit && ltb top (region_end r)
        then region_end r
        else top)
      (ground (arith, h, e))

-- A usable region below 4 GiB ends at `top` at most.
abbrev EndsBy : ℕ → Region → Type 0
EndsBy top r = r.usable ≡ true → r.base < 2 ^ 32 → region_end r ≤ top

find_top-EndsBy : (rs : List Region) (top : ℕ) → All (EndsBy (find_top rs top)) rs
unfolding find_top
find_top-EndsBy [] top = tt
find_top-EndsBy (r ∷ rs) top =
    let next =
      if r.usable && ltb r.base phys_addr_limit && ltb top (region_end r)
      then region_end r
      else top in
    let g = find_top-ge rs next in
    (
      λ u b. let n : region_end r ≤ next = ground (arith, u, b) in omega (arith, g, n),
      find_top-EndsBy rs next,
    )

widen : (a b : ℕ) (rs : List Region) → a ≤ b → All (EndsBy a) rs → All (EndsBy b) rs
widen a b [] h e = tt
widen a b (r ∷ rs) h e = (λ u l. omega (arith, e.0 u l, h), widen a b rs h e.1)

-- The bitmap lies from `at` to `end`.
abbrev pub Builds : List Region → ℕ → ℕ → Init → Type 0
Builds rs at end init =
    ((boot_mapped_limit < end) × (init ≡ no_room))
    ⊎ ((s : Pmm) × (end ≤ boot_mapped_limit)
        × (init ≡ ready at s)
        × IsValid s
        × All (EndsBy (s.frame_count * page_size + page_size - 1)) rs
        × ((f : ℕ)
            → f < s.frame_count
            → is_used s f ≡ not (usable_frame rs f && leb (end / page_size) f))
        × (s.usable_count ≡ count_frames (usable_frame rs) s.frame_count 0))

-- The frames that `top` gives, and the end of their bitmap at `at`.
abbrev frames_of : List Region → ℕ
frames_of rs = find_top rs 0 / page_size

abbrev pub end_at : List Region → ℕ → ℕ
end_at rs at = bitmap_end (words_for (frames_of rs) * 4) at

-- pmm_init on a memory map with a usable region past the first page, and with a page `gap` at or
-- behind the end of the kernel from which 256 KiB are free of reserved regions: as many rounds as
-- there are regions, and one, are enough to place the bitmap. It lies behind the kernel, at `gap`
-- at most, and overlaps no reserved region. pmm_init panics exactly where it ends past the boot
-- mapping; otherwise the bitmap is valid, it covers every usable region below 4 GiB, a frame is
-- free exactly where it lies in a usable region, touches no reserved one and is behind the bitmap,
-- and usable_count counts the frames in the map that can be used.
pub pmm_init-Builds :
    (gap : ℕ) (rs : List Region) (kernel_end : ℕ)
    → gap % page_size ≡ 0
    → gap + 2 ^ 18 ≤ 2 ^ 32
    → All (Apart gap) rs
    → 0 < kernel_end
    → kernel_end ≤ gap
    → page_size ≤ find_top rs 0
    → (at : ℕ) × (kernel_end ≤ at)
      × (at ≤ gap)
      × All (Clear at (end_at rs at)) rs
      × Builds rs at (end_at rs at) (pmm_init (length rs + 1) rs kernel_end)
unfolding pmm_init build_at build
pmm_init-Builds gap rs kernel_end aligned low apart k g t = (
  found.0,
  found.2,
  found.3,
  found.4,
  rw (some_top, found.1)
      (elim (Bool-cases (ltb boot_mapped_limit end)) [
        | inl e ↦ inl (ground (arith, e), rw e refl)
        | inr e ↦ inr (
          build rs frames (words_for frames) end,
          ground (arith, e),
          rw e refl,
          built-IsValid rs frames small end (omega (arith, t)) behind,
          widen (find_top rs 0) (frames * page_size + page_size - 1) rs (omega arith)
              (find_top-EndsBy rs 0),
          λ f h. is_used-built rs frames small end f (omega (arith, h)) ∙ ground (arith, h),
          usable-built rs frames small end,
        )
      ]),
)
  where
    frames : ℕ
    frames = frames_of rs

    small : frames ≤ 2 ^ 20
    small = omega (arith, find_top-le rs 0 (omega arith))

    some_top : (find_top rs 0 == 0) ≡ false
    some_top = ground (arith, t)

    found :
        Placed gap rs
          (words_for frames * 4)
          kernel_end
          (place (length rs + 1) rs (words_for frames * 4) kernel_end)
    found =
        place-Placed gap aligned low (length rs + 1) rs (words_for frames * 4) kernel_end apart g
          (omega (arith, small)) (omega (arith, past_start-le rs kernel_end))

    end : ℕ
    end = end_at rs found.0

    behind : page_size ≤ end
    behind = omega (arith, found.2, found.3, k, low, small)
