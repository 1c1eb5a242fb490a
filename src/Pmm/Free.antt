-- ===== src/Pmm/Free.antt =====
-- pmm_free_frame, and the frames that an allocation and its release go through.
use manios.Base.{
  ℕ, ◌+◌, ◌/◌, ◌%◌, ◌^◌, ◌≤◌, ◌<◌, ◌≡◌, ◌≢◌, sym, ap, ◌∙◌, ◌⊎◌, inl, inr, true, false, arith, ltb,
  leb, ◌==◌, if◌then◌else◌, set, length, length-set, Bool-cases,
}
use manios.Pmm.{
  Pmm, is_used, count_from, free_frame, bits_per_word, page_size, done, panic, FreeError,
  misaligned, beyond_memory, double_free,
}
use manios.Pmm.Bits.{get_or-set, count_from-clear, count_from-le}
use manios.Pmm.Invariant.{IsValid}

-- The state once frame `f` is free.
abbrev released : Pmm → ℕ → Pmm
released s f = record s {
  bits = set s.bits f false;
  free_count = (s.free_count + 1) % 2 ^ 32;
  search_hint = if ltb (f / bits_per_word) s.search_hint then f / bits_per_word else s.search_hint;
}

module _ {s : Pmm} (f : ℕ) (v : IsValid s) (used : is_used s f ≡ true)
    (in_range : f < s.frame_count) where
  f-lt : f < length s.bits
  f-lt = omega (arith, v.shape, v.words)

  used-released : (g : ℕ) → is_used (released s f) g ≡ (if f == g then false else is_used s g)
  used-released g = get_or-set s.bits f g false f-lt

  count-released : count_from (released s f).bits s.frame_count 0 ≡ s.free_count + 1
  count-released =
      count_from-clear s.bits s.frame_count 0 f f-lt used (omega arith) (omega arith)
      ∙ ap (λ k. k + 1) (sym v.counted)

  hint-released : (released s f).search_hint ≤ f / bits_per_word
  hint-released = ground arith

  released-IsValid : 0 < f → IsValid (released s f)
  released-IsValid above = record {
    shape = length-set s.bits f false ∙ v.shape;
    words = v.words;
    small = v.small;
    tail = λ g lo hi. ground (arith, used-released g, v.tail g);
    full = λ g lo. ground (arith, used-released g, v.full g);
    hint = ground (arith, v.hint);
    counted =
        omega (arith, count-released, v.counted, v.small, count_from-le s.bits s.frame_count 0);
    reserved = ground (arith, used-released 0, v.reserved);
  }

-- The frame at `phys` was used and is free in `s'`, which is valid unless it is frame 0; no other
-- frame changes.
abbrev pub Releases : Pmm → ℕ → Pmm → Type 0
Releases s phys s' =
    (phys % page_size ≡ 0)
    × (phys / page_size < s.frame_count)
    × (is_used s (phys / page_size) ≡ true)
    × (0 < phys / page_size → IsValid s')
    × ((g : ℕ) → is_used s' g ≡ (if phys / page_size == g then false else is_used s g))
    × (s'.free_count ≡ s.free_count + 1)

-- The panics, each with what it is for.
abbrev pub Refuses : Pmm → ℕ → FreeError → Type 0
Refuses s phys misaligned = phys % page_size ≢ 0
Refuses s phys beyond_memory = s.frame_count ≤ phys / page_size
Refuses s phys double_free = is_used s (phys / page_size) ≡ false

-- pmm_free_frame either frees a used frame, changing no other frame and counting one more free, and
-- keeps the bitmap valid unless it frees frame 0, which no allocation gives; or panics: on a
-- misaligned address, on one past the last frame, or on a free frame.
pub free_frame_lem :
    {s : Pmm} (phys : ℕ)
    → IsValid s
    → ((s' : Pmm) × (free_frame s phys ≡ done s') × Releases s phys s')
      ⊎ ((e : FreeError) × (free_frame s phys ≡ panic e) × Refuses s phys e)
unfolding free_frame
free_frame_lem {s} phys v = elim (Bool-cases (phys % page_size == 0)) [
  | inr odd ↦ inr (misaligned, ground (arith, odd), ground (arith, odd))
  | inl even ↦ elim (Bool-cases (leb s.frame_count (phys / page_size))) [
    | inl far ↦ inr (beyond_memory, ground (arith, even, far), ground (arith, far))
    | inr near ↦ elim (Bool-cases (is_used s (phys / page_size))) [
      | inr clear ↦ inr (double_free, ground (arith, even, near, clear), clear)
      | inl used ↦ inl (freed even near used (ground (arith, near)))
    ]
  ]
]
  where
    freed :
        (phys % page_size == 0) ≡ true
        → leb s.frame_count (phys / page_size) ≡ false
        → is_used s (phys / page_size) ≡ true
        → phys / page_size < s.frame_count
        → (s' : Pmm) × (free_frame s phys ≡ done s') × Releases s phys s'
    freed even near used lt = (
      released s (phys / page_size),
      ground (arith, even, near, used),
      (
        ground (arith, even),
        lt,
        used,
        released-IsValid (phys / page_size) v used lt,
        used-released (phys / page_size) v used lt,
        omega (arith, v.counted, v.small, count_from-le s.bits s.frame_count 0),
      ),
    )
