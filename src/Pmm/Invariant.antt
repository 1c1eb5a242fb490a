-- ===== src/Pmm/Invariant.antt =====
-- The invariant of the frame bitmap.
use manios.Base.{ℕ, ◌+◌, ◌-◌, ◌*◌, ◌/◌, ◌≤◌, ◌<◌, ◌^◌, ◌≡◌, true, length}
use manios.Pmm.{Pmm, is_used, count_from, bits_per_word}

pub record IsValid (s : Pmm) : Type 0 where
  pub shape : length s.bits ≡ s.word_count * bits_per_word
  pub words : s.word_count ≡ (s.frame_count + bits_per_word - 1) / bits_per_word
  -- Without PAE there are 4 GiB of memory at most.
  pub small : s.frame_count ≤ 2 ^ 20
  -- The bits past the last frame read as used.
  pub tail : (f : ℕ) → s.frame_count ≤ f → f < s.word_count * bits_per_word → is_used s f ≡ true
  -- Every word below the hint is full.
  pub full : (f : ℕ) → f < s.search_hint * bits_per_word → is_used s f ≡ true
  pub hint : s.search_hint ≤ s.word_count
  pub counted : s.free_count ≡ count_from s.bits s.frame_count 0
  -- Frame 0 is never free: its address is the 0 that means failure.
  pub reserved : is_used s 0 ≡ true
