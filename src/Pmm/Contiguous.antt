-- ===== src/Pmm/Contiguous.antt =====
-- pmm_alloc_contiguous ends, and takes a run of free frames that meets its constraints.
use manios.Base.{
  ℕ, zero, suc, ◌+◌, ◌-◌, ◌*◌, ◌%◌, ◌^◌, ◌≤◌, ◌<◌, ◌≡◌, refl, sym, ap, ◌∙◌, ◌⊎◌, inl, inr, Bool,
  true, false, ◌&&◌, Option, some, List, arith, ltb, leb, ◌==◌, if◌then◌else◌, get_or, set, length,
  length-set, dec_lt, true-ne-false,
}
use manios.Pmm.{
  Pmm, is_used, count_from, mark_run, Search, found, absent, out_of_fuel, search_run, take_run,
  last_frame, alloc_contiguous, page_size,
}
use manios.Pmm.Bits.{get_or-set, count_from-set, count_from-le}
use manios.Pmm.Invariant.{IsValid}
use manios.Pmm.RunSearch.{Fits, FirstFit, search_run-FirstFit}

length-mark_run : (bits : List Bool) (n f : ℕ) → length (mark_run bits n f) ≡ length bits
unfolding mark_run
length-mark_run bits zero f = refl
length-mark_run bits (suc n) f =
    length-mark_run (set bits f true) n (f + 1) ∙ length-set bits f true

-- Exactly the frames of the run become used.
used-mark_run :
    (bits : List Bool) (n f g : ℕ)
    → f + n ≤ length bits
    → get_or (mark_run bits n f) g false
      ≡ (if leb f g && ltb g (f + n) then true else get_or bits g false)
unfolding mark_run
used-mark_run bits zero f g h = ground arith
used-mark_run bits (suc n) f g h = ground (
  arith,
  get_or-set bits f g true (omega arith),
  used-mark_run (set bits f true) n (f + 1) g (rw (length-set bits f true) (omega arith)),
)

count-mark_run :
    (bits : List Bool) (n f m : ℕ)
    → f + n ≤ length bits
    → f + n ≤ m
    → ((g : ℕ) → f ≤ g → g < f + n → get_or bits g false ≡ false)
    → count_from (mark_run bits n f) m 0 + n ≡ count_from bits m 0
unfolding mark_run
count-mark_run bits zero f m h k clear = omega arith
count-mark_run bits (suc n) f m h k clear = omega (
  arith,
  count-mark_run (set bits f true) n (f + 1) m (rw (length-set bits f true) (omega arith))
      (omega arith)
      (λ g lo hi.
        ground
          (arith, get_or-set bits f g true (omega arith), clear g (omega arith) (omega arith))),
  count_from-set bits m 0 f (omega arith) (clear f (omega arith) (omega arith)) (omega arith)
      (omega arith),
)

-- No run fits, and nothing changes.
abbrev pub NoRun : Pmm → ℕ → ℕ → ℕ → Option (ℕ × Pmm) → Type 0
NoRun s frames limit boundary r =
    (r ≡ some (0, s)) × ((x : ℕ) → ¬ (Fits s.bits frames (last_frame s limit) boundary x))

-- `s'` is `s` with the first run that fits used, at an address other than 0.
abbrev pub TakesRun : Pmm → ℕ → ℕ → ℕ → Option (ℕ × Pmm) → Type 0
TakesRun s frames limit boundary r =
    (f : ℕ) × (s' : Pmm) × (r ≡ some (f * page_size, s'))
    × (0 < f)
    × Fits s.bits frames (last_frame s limit) boundary f
    × ((x : ℕ) → x < f → ¬ (Fits s.bits frames (last_frame s limit) boundary x))
    × ((g : ℕ) → is_used s' g ≡ (if leb f g && ltb g (f + frames) then true else is_used s g))
    × (s'.free_count + frames ≡ s.free_count)
    × IsValid s'

module _ {s : Pmm} (frames limit boundary f : ℕ) (v : IsValid s) (pos : 0 < frames)
    (fits : Fits s.bits frames (last_frame s limit) boundary f) where
  run_taken : Pmm
  run_taken = record s {
    bits = mark_run s.bits frames f;
    free_count = (s.free_count + 2 ^ 32 - frames) % 2 ^ 32;
  }

  run_in_memory : f + frames ≤ s.frame_count
  run_in_memory = ground (arith, fits.0)

  used-run_taken :
      (g : ℕ) → is_used run_taken g ≡ (if leb f g && ltb g (f + frames) then true else is_used s g)
  unfolding run_taken
  used-run_taken g =
      used-mark_run s.bits frames f g (omega (arith, run_in_memory, v.shape, v.words))

  counted-run : count_from run_taken.bits s.frame_count 0 + frames ≡ s.free_count
  unfolding run_taken
  counted-run =
      count-mark_run s.bits frames f s.frame_count (omega (arith, run_in_memory, v.shape, v.words))
        run_in_memory fits.2
      ∙ sym v.counted

  count-run_taken : run_taken.free_count + frames ≡ s.free_count
  unfolding run_taken
  count-run_taken =
      omega (arith, counted-run, v.counted, v.small, count_from-le s.bits s.frame_count 0)

  run_taken-IsValid : IsValid run_taken
  unfolding run_taken
  run_taken-IsValid = record {
    shape = length-mark_run s.bits frames f ∙ v.shape;
    words = v.words;
    small = v.small;
    tail = λ g lo hi. ground (arith, used-run_taken g, v.tail g);
    full = λ g lo. ground (arith, used-run_taken g, v.full g);
    hint = v.hint;
    counted = omega (arith, counted-run, count-run_taken);
    reserved = ground (arith, used-run_taken 0, v.reserved);
  }

  run_above : 0 < f
  run_above = elim (dec_lt 0 f) [
    | yes p ↦ p
    | no p ↦ absurd (true-ne-false v.reserved (fits.2 0 (omega arith) (omega arith)))
  ]

result :
    {s : Pmm} (frames limit boundary : ℕ)
    → IsValid s
    → 0 < frames
    → (r : Search) → FirstFit s.bits frames (last_frame s limit) boundary 0 r
    → NoRun s frames limit boundary (take_run s frames r)
      ⊎ TakesRun s frames limit boundary (take_run s frames r)
unfolding take_run run_taken
result {s} frames limit boundary v pos (found f) (fits, first) = inr (
  f,
  run_taken {s = s} frames limit boundary f v pos fits,
  ap (λ x. some (x, run_taken {s = s} frames limit boundary f v pos fits))
      (omega (arith, run_in_memory frames limit boundary f v pos fits, v.small)),
  run_above frames limit boundary f v pos fits,
  fits,
  λ x. first x (omega arith),
  used-run_taken frames limit boundary f v pos fits,
  count-run_taken frames limit boundary f v pos fits,
  run_taken-IsValid frames limit boundary f v pos fits,
)
result frames limit boundary v pos absent first = inl (refl, λ x. first x (omega arith))
result frames limit boundary v pos out_of_fuel first = elim first [ ]

-- With a 32-bit number of frames above 0, a boundary of whole pages (0: none) and fuel past the
-- last frame, the loop of pmm_alloc_contiguous ends. It returns 0 and changes nothing where no run
-- of free frames meets the limit and the boundary. Otherwise it takes the first such run, at an
-- address other than 0: exactly its frames become used, the count of free frames drops by them, and
-- the bitmap stays valid.
pub alloc_contiguous-FirstFit :
    (s : Pmm) (fuel frames limit boundary : ℕ)
    → IsValid s
    → 0 < frames
    → frames < 2 ^ 32
    → boundary % page_size ≡ 0
    → last_frame s limit < fuel
    → NoRun s frames limit boundary (alloc_contiguous fuel s frames limit boundary)
      ⊎ TakesRun s frames limit boundary (alloc_contiguous fuel s frames limit boundary)
unfolding alloc_contiguous
alloc_contiguous-FirstFit s fuel frames limit boundary v pos narrow pages enough = rw some_frames (
    result frames limit boundary v pos
      (search_run fuel s.bits frames (last_frame s limit) boundary 0)
      (search_run-FirstFit fuel s.bits frames (last_frame s limit) boundary 0 (omega arith)
        (omega arith) (omega arith) (ground (arith, v.small)) pos pages))
  where
    some_frames : (frames == 0) ≡ false
    some_frames = ground arith
