-- ===== src/Pmm/Marking.antt =====
-- Which bits the loops of pmm_init over the memory map set and clear.
use manios.Base.{
  ℕ, zero, suc, ◌+◌, ◌-◌, ◌*◌, ◌/◌, ◌^◌, ◌≤◌, ◌<◌, ◌≡◌, refl, ap, ◌∙◌, inl, inr, Bool, true, false,
  not, ◌&&◌, ◌||◌, List, [], ◌∷◌, arith, ltb, leb, if◌then◌else◌, get_or, set, length, length-set,
  Bool-cases,
}
use manios.Pmm.{page_size}
use manios.Pmm.Bits.{get_or-set}
use manios.Pmm.Init.{
  Region, phys_addr_limit, region_end, mark_range, mark_frames, free_usable, use_reserved, all_used,
}

-- The whole frame lies in the region, which is usable.
abbrev pub holds : Region → ℕ → Bool
holds r f = r.usable && leb r.base (f * page_size) && leb ((f + 1) * page_size) (region_end r)

-- A byte of the frame lies in the region, or around where an empty one begins; it is reserved.
abbrev pub touches : Region → ℕ → Bool
touches r f = not r.usable && ltb r.base ((f + 1) * page_size) && ltb (f * page_size) (region_end r)

abbrev pub any_region : (Region → Bool) → List Region → Bool
any_region p [] = false
any_region p (r ∷ rs) = p r || any_region p rs

pub region_end-le : (r : Region) → region_end r ≤ 2 ^ 32
unfolding region_end
region_end-le r = ground arith

length-mark_range :
    (used : Bool) (bits : List Bool) (n f : ℕ) → length (mark_range used bits n f) ≡ length bits
unfolding mark_range
length-mark_range used bits zero f = refl
length-mark_range used bits (suc n) f =
    length-mark_range used (set bits f used) n (f + 1) ∙ length-set bits f used

get_or-mark_range :
    (used : Bool) (bits : List Bool) (n f g : ℕ)
    → f + n ≤ length bits
    → get_or (mark_range used bits n f) g false
      ≡ (if leb f g && ltb g (f + n) then used else get_or bits g false)
unfolding mark_range
get_or-mark_range used bits zero f g h = ground arith
get_or-mark_range used bits (suc n) f g h = ground (
  arith,
  get_or-set bits f g used (omega arith),
  get_or-mark_range used (set bits f used) n (f + 1) g (rw (length-set bits f used) (omega arith)),
)

pub length-mark_frames :
    (used : Bool) (bits : List Bool) (frames first end : ℕ)
    → length (mark_frames used bits frames first end) ≡ length bits
unfolding mark_frames
length-mark_frames used bits frames first end =
    length-mark_range used bits ((if ltb end frames then end else frames) - first) first

pub get_or-mark_frames :
    (used : Bool) (bits : List Bool) (frames first end g : ℕ)
    → frames ≤ length bits
    → get_or (mark_frames used bits frames first end) g false
      ≡ (if leb first g && ltb g end && ltb g frames then used else get_or bits g false)
unfolding mark_frames
get_or-mark_frames used bits frames first end g h =
    elim (Bool-cases (leb first (if ltb end frames then end else frames))) [
      | inl e ↦ ground (
        arith,
        e,
        get_or-mark_range used bits ((if ltb end frames then end else frames) - first) first g
            (ground (arith, e, h)),
      )
      | inr e ↦
          let z : (if ltb end frames then end else frames) - first ≡ 0 = ground (arith, e) in
          rw z (ground (arith, e))
    ]

-- One region, when its frames are marked.
abbrev freed_by : Region → ℕ → List Bool → List Bool
freed_by r frames bits =
    if not r.usable || leb phys_addr_limit r.base
    then bits
    else mark_frames false bits frames ((r.base + page_size - 1) / page_size)
        (region_end r / page_size)

abbrev used_by : Region → ℕ → List Bool → List Bool
used_by r frames bits =
    if r.usable || leb phys_addr_limit r.base
    then bits
    else mark_frames true bits frames (r.base / page_size)
        ((region_end r + page_size - 1) / page_size)

get_or-freed_by :
    (r : Region) (frames : ℕ) (bits : List Bool) (g : ℕ)
    → frames ≤ length bits
    → frames ≤ 2 ^ 20
    → get_or (freed_by r frames bits) g false
      ≡ (if holds r g && ltb g frames then false else get_or bits g false)
get_or-freed_by r frames bits g h k =
    let m =
      get_or-mark_frames false bits frames ((r.base + page_size - 1) / page_size)
        (region_end r / page_size) g h in
    let e = region_end-le r in ground (arith, m, e, k)

get_or-used_by :
    (r : Region) (frames : ℕ) (bits : List Bool) (g : ℕ)
    → frames ≤ length bits
    → frames ≤ 2 ^ 20
    → get_or (used_by r frames bits) g false
      ≡ (if touches r g && ltb g frames then true else get_or bits g false)
get_or-used_by r frames bits g h k =
    let m =
      get_or-mark_frames true bits frames (r.base / page_size)
        ((region_end r + page_size - 1) / page_size) g h in
    let e = region_end-le r in ground (arith, m, e, k)

length-freed_by :
    (r : Region) (frames : ℕ) (bits : List Bool) → length (freed_by r frames bits) ≡ length bits
length-freed_by r frames bits = ground (
  arith,
  length-mark_frames false bits frames ((r.base + page_size - 1) / page_size)
      (region_end r / page_size),
)

length-used_by :
    (r : Region) (frames : ℕ) (bits : List Bool) → length (used_by r frames bits) ≡ length bits
length-used_by r frames bits = ground (
  arith,
  length-mark_frames true bits frames (r.base / page_size)
      ((region_end r + page_size - 1) / page_size),
)

pub length-free_usable :
    (rs : List Region) (frames : ℕ) (bits : List Bool)
    → length (free_usable rs frames bits) ≡ length bits
unfolding free_usable
length-free_usable [] frames bits = refl
length-free_usable (r ∷ rs) frames bits =
    length-free_usable rs frames (freed_by r frames bits) ∙ length-freed_by r frames bits

pub length-use_reserved :
    (rs : List Region) (frames : ℕ) (bits : List Bool)
    → length (use_reserved rs frames bits) ≡ length bits
unfolding use_reserved
length-use_reserved [] frames bits = refl
length-use_reserved (r ∷ rs) frames bits =
    length-use_reserved rs frames (used_by r frames bits) ∙ length-used_by r frames bits

pub get_or-free_usable :
    (rs : List Region) (frames : ℕ) (bits : List Bool) (g : ℕ)
    → frames ≤ length bits
    → frames ≤ 2 ^ 20
    → get_or (free_usable rs frames bits) g false
      ≡ (if any_region (λ r. holds r g) rs && ltb g frames then false else get_or bits g false)
unfolding free_usable
get_or-free_usable [] frames bits g h k = refl
get_or-free_usable (r ∷ rs) frames bits g h k =
    let l = length-freed_by r frames bits in
    let i = get_or-free_usable rs frames (freed_by r frames bits) g (omega (arith, l, h)) k in
    let m = get_or-freed_by r frames bits g h k in i ∙ rw m (ground arith)

pub get_or-use_reserved :
    (rs : List Region) (frames : ℕ) (bits : List Bool) (g : ℕ)
    → frames ≤ length bits
    → frames ≤ 2 ^ 20
    → get_or (use_reserved rs frames bits) g false
      ≡ (if any_region (λ r. touches r g) rs && ltb g frames then true else get_or bits g false)
unfolding use_reserved
get_or-use_reserved [] frames bits g h k = refl
get_or-use_reserved (r ∷ rs) frames bits g h k =
    let l = length-used_by r frames bits in
    let i = get_or-use_reserved rs frames (used_by r frames bits) g (omega (arith, l, h)) k in
    let m = get_or-used_by r frames bits g h k in i ∙ rw m (ground arith)

pub length-all_used : (n : ℕ) → length (all_used n) ≡ n
unfolding all_used
length-all_used zero = refl
length-all_used (suc n) = ap suc (length-all_used n)

pub get_or-all_used : (n g : ℕ) → g < n → get_or (all_used n) g false ≡ true
unfolding all_used
get_or-all_used zero g h = absurd (omega (arith, h))
get_or-all_used (suc n) zero h = refl
get_or-all_used (suc n) (suc g) h = get_or-all_used n g (omega (arith, h))
