-- ===== src/Pmm/Alloc.antt =====
-- pmm_alloc_frame takes the lowest free frame.
use mathlib.Core.Path.{subst}
use manios.Base.{
  ℕ, ◌+◌, ◌-◌, ◌*◌, ◌/◌, ◌%◌, ◌^◌, ◌≤◌, ◌<◌, ◌≡◌, refl, sym, ◌∙◌, ◌⊎◌, inl, inr, true, false, arith,
  ltb, ◌==◌, if◌then◌else◌, set, length, length-set, Bool-cases, dec_lt, true-ne-false, ltb→lt,
}
use manios.Pmm.{
  Pmm, is_used, count_from, word_is_full, skip_full, first_clear, alloc_frame, bits_per_word,
  page_size,
}
use manios.Pmm.Bits.{
  get_or-set, count_from-set, count_from-used, count_from-le, all_set-used, first_clear_lem,
  skip_full_lem,
}
use manios.Pmm.Invariant.{IsValid}

-- The word that the search stops at.
abbrev stop : Pmm → ℕ
stop s = skip_full s.bits (s.word_count - s.search_hint) s.search_hint

used_below_stop : {s : Pmm} (g : ℕ) → IsValid s → g < stop s * bits_per_word → is_used s g ≡ true
unfolding word_is_full
used_below_stop {s} g v h = elim (dec_lt (g / bits_per_word) s.search_hint) [
  | yes p ↦ v.full g (omega arith)
  | no p ↦
      all_set-used s.bits bits_per_word (g / bits_per_word * bits_per_word) g
        ((skip_full_lem s.bits (s.word_count - s.search_hint) s.search_hint).2 (g / bits_per_word)
          (omega arith) (omega arith))
        (omega arith) (omega arith)
]

-- The frame that is found where the search stops before the end.
abbrev found : Pmm → ℕ
found s = stop s * bits_per_word + first_clear s.bits bits_per_word (stop s * bits_per_word)

record IsLowest (s : Pmm) : Type 0 where
  above : 0 < found s
  below : found s < s.frame_count
  clear : is_used s (found s) ≡ false
  lowest : (g : ℕ) → g < found s → is_used s g ≡ true

found-IsLowest : {s : Pmm} → IsValid s → stop s < s.word_count → IsLowest s
unfolding word_is_full
found-IsLowest {s} v h = there (
    first_clear_lem s.bits bits_per_word (stop s * bits_per_word) (
      (skip_full_lem s.bits (s.word_count - s.search_hint) s.search_hint).3
        (omega (arith, v.hint))))
  where
    c : ℕ
    c = first_clear s.bits bits_per_word (stop s * bits_per_word)

    there :
        (c < bits_per_word)
          × (is_used s (found s) ≡ false)
          × ((g : ℕ)
              → stop s * bits_per_word ≤ g
              → g < stop s * bits_per_word + c
              → is_used s g ≡ true)
        → IsLowest s
    there (lt, clear, before) = record {
      above = elim (dec_lt 0 (found s)) [
        | yes p ↦ p
        | no p ↦
            absurd (true-ne-false v.reserved (subst (λ k. is_used s k ≡ false) (omega arith) clear))
      ];
      below = elim (dec_lt (found s) s.frame_count) [
        | yes p ↦ p
        | no p ↦ absurd (true-ne-false (v.tail (found s) (omega arith) (omega arith)) clear)
      ];
      clear = clear;
      lowest = λ g lo. elim (dec_lt g (stop s * bits_per_word)) [
        | yes p ↦ used_below_stop g v p
        | no p ↦ before g (omega arith) lo
      ];
    }

-- The state once the frame that is found is taken.
abbrev taken : Pmm → Pmm
taken s = record s {
  bits = set s.bits (found s) true;
  search_hint = stop s;
  free_count = (s.free_count + 2 ^ 32 - 1) % 2 ^ 32;
}

module _ {s : Pmm} (v : IsValid s) (h : stop s < s.word_count) where
  found-lt : found s < length s.bits
  found-lt = omega (arith, (found-IsLowest v h).below, v.shape, v.words)

  used-taken : (g : ℕ) → is_used (taken s) g ≡ (if found s == g then true else is_used s g)
  used-taken g = get_or-set s.bits (found s) g true found-lt

  count-taken : count_from (taken s).bits s.frame_count 0 + 1 ≡ s.free_count
  count-taken =
      count_from-set s.bits s.frame_count 0 (found s) found-lt (found-IsLowest v h).clear
        (omega arith) (omega (arith, (found-IsLowest v h).below))
      ∙ sym v.counted

  taken-IsValid : IsValid (taken s)
  taken-IsValid = record {
    shape = length-set s.bits (found s) true ∙ v.shape;
    words = v.words;
    small = v.small;
    tail = λ f lo hi. ground (arith, used-taken f, v.tail f);
    full = λ f lo. ground (arith, used-taken f, used_below_stop f v lo);
    hint = omega arith;
    counted = omega (arith, count-taken, v.counted, v.small, count_from-le s.bits s.frame_count 0);
    reserved = ground (arith, used-taken 0, v.reserved);
  }

stop-le : {s : Pmm} → IsValid s → stop s ≤ s.word_count
stop-le {s} v =
    omega (arith, (skip_full_lem s.bits (s.word_count - s.search_hint) s.search_hint).1, v.hint)

-- A search that comes to the end leaves the hint there.
module _ {s : Pmm} (v : IsValid s) (h : s.word_count ≤ stop s) where
  none_free : s.free_count ≡ 0
  none_free =
      v.counted
      ∙ count_from-used s.bits s.frame_count 0
          (λ g lo hi. used_below_stop g v (omega (arith, v.words)))

  ended-IsValid : IsValid (record s { search_hint = stop s })
  ended-IsValid = record {
    shape = v.shape;
    words = v.words;
    small = v.small;
    tail = v.tail;
    full = λ f lo. used_below_stop f v lo;
    hint = stop-le v;
    counted = v.counted;
    reserved = v.reserved;
  }

-- No frame is free, and none changes.
abbrev pub IsExhausted : Pmm → ℕ → Pmm → Type 0
IsExhausted s phys s' = (phys ≡ 0) × (s.free_count ≡ 0) × (s'.free_count ≡ 0) × (s'.bits ≡ s.bits)

-- `phys` is the lowest free frame, not frame 0; it is used in `s'`, and no other frame changes.
abbrev pub TakesLowest : Pmm → ℕ → Pmm → Type 0
TakesLowest s phys s' =
    (f : ℕ) × (phys ≡ f * page_size)
    × (0 < f)
    × (f < s.frame_count)
    × (is_used s f ≡ false)
    × ((g : ℕ) → g < f → is_used s g ≡ true)
    × ((g : ℕ) → is_used s' g ≡ (if f == g then true else is_used s g))
    × (s'.free_count + 1 ≡ s.free_count)

-- pmm_alloc_frame keeps the bitmap valid. Either no frame is free: it returns 0 and no frame
-- changes. Or it returns the address of the lowest free frame, which is not frame 0, marks it used,
-- changes no other frame, and counts one less free.
pub alloc_frame_lem :
    {s : Pmm}
    → IsValid s
    → let (phys, s') = alloc_frame s in IsValid s' × (IsExhausted s phys s' ⊎ TakesLowest s phys s')
unfolding alloc_frame
alloc_frame_lem {s} v = elim (Bool-cases (ltb (stop s) s.word_count)) [
  | inl e ↦ rw e (
    taken-IsValid v (ltb→lt _ _ e),
    inr (
      found s,
      ground (arith, (found-IsLowest v (ltb→lt _ _ e)).below, v.small),
      (found-IsLowest v (ltb→lt _ _ e)).above,
      (found-IsLowest v (ltb→lt _ _ e)).below,
      (found-IsLowest v (ltb→lt _ _ e)).clear,
      (found-IsLowest v (ltb→lt _ _ e)).lowest,
      used-taken v (ltb→lt _ _ e),
      omega (
        arith,
        count-taken v (ltb→lt _ _ e),
        v.counted,
        v.small,
        count_from-le s.bits s.frame_count 0,
      ),
    ),
  )
  | inr e ↦ rw e (
    ended-IsValid v (ground (arith, e)),
    inl (refl, none_free v (ground (arith, e)), none_free v (ground (arith, e)), refl),
  )
]
