-- ===== src/Udp/Checksum.antt =====
-- The Internet checksum: a packet whose stored checksum is right sums to 0.
use manios.Base.{
  ℕ, ◌+◌, ◌-◌, ◌*◌, ◌%◌, ◌^◌, ◌≤◌, ◌<◌, ◌≡◌, ◌∙◌, List, [], ◌∷◌, arith, ◌==◌, if◌then◌else◌, length,
  All,
}
use manios.Udp.{inet_sum, fold_carries, inet_fold}

-- The sum of the big-endian words, an odd byte at the end as the high one.
abbrev pub word_sum : List ℕ → ℕ
word_sum [] = 0
word_sum (a ∷ []) = a * 2 ^ 8
word_sum (a ∷ b ∷ bytes) = a * 2 ^ 8 + b + word_sum bytes

pub inet_sum_lem :
    (sum : ℕ) (bytes : List ℕ)
    → sum + word_sum bytes < 2 ^ 32
    → inet_sum sum bytes ≡ sum + word_sum bytes
unfolding inet_sum
inet_sum_lem sum [] h = omega arith
inet_sum_lem sum (a ∷ []) h = omega (arith, h)
inet_sum_lem sum (a ∷ b ∷ bytes) h =
    let m : (sum + (a * 2 ^ 8 + b)) % 2 ^ 32 ≡ sum + (a * 2 ^ 8 + b) = omega (arith, h) in
    let i = inet_sum_lem (sum + (a * 2 ^ 8 + b)) bytes (omega (arith, h)) in rw m (omega (arith, i))

pub word_sum_le :
    (bytes : List ℕ) → All (λ b. b < 256) bytes → word_sum bytes ≤ 2 ^ 16 * length bytes
word_sum_le [] h = omega arith
word_sum_le (a ∷ []) h = omega (arith, h.0)
word_sum_le (a ∷ b ∷ bytes) h = omega (arith, h.0, h.1.0, word_sum_le bytes h.1.1)

-- Folding keeps the sum modulo 2 ^ 16 - 1, and does not make 0 of another sum.
fold_carries_lem :
    (sum : ℕ)
    → sum < 2 ^ 32
    → (fold_carries 3 sum < 2 ^ 16)
      × (fold_carries 3 sum % 65535 ≡ sum % 65535)
      × (0 < sum → 0 < fold_carries 3 sum)
unfolding fold_carries
fold_carries_lem sum h = (ground (arith, h), ground (arith, h), λ p. ground (arith, h, p))

abbrev stored_for : ℕ → ℕ
stored_for f = if 2 ^ 16 - 1 - f % 2 ^ 16 == 0 then 65535 else 2 ^ 16 - 1 - f % 2 ^ 16

stored_for_lem :
    (sum f : ℕ)
    → f < 2 ^ 16
    → f % 65535 ≡ sum % 65535
    → (stored_for f ≤ 65535) × ((sum + stored_for f) % 65535 ≡ 0) × (0 < stored_for f)
stored_for_lem sum f h e = (ground (arith, h, e), ground (arith, h, e), ground (arith, h, e))

zero_fold : (g : ℕ) → g < 2 ^ 16 → g % 65535 ≡ 0 → 0 < g → 2 ^ 16 - 1 - g % 2 ^ 16 ≡ 0
zero_fold g h e p = omega (arith, h, e, p)

-- What udp_send stores makes the whole sum fold to 0.
pub inet_fold-stored :
    (sum : ℕ)
    → sum + 65535 < 2 ^ 32
    → inet_fold (sum + (if inet_fold sum == 0 then 65535 else inet_fold sum)) ≡ 0
unfolding inet_fold
inet_fold-stored sum h =
    let a = fold_carries_lem sum (omega (arith, h)) in
    let s = stored_for_lem sum (fold_carries 3 sum) a.0 a.1 in
    let whole = sum + stored_for (fold_carries 3 sum) in
    let b = fold_carries_lem whole (omega (arith, h, s.0)) in
    zero_fold (fold_carries 3 whole) b.0 (b.1 ∙ s.1) (b.2 (omega (arith, s.2)))

pub inet_fold-stored_bounds :
    (sum : ℕ)
    → sum < 2 ^ 32
    → ((if inet_fold sum == 0 then 65535 else inet_fold sum) < 2 ^ 16)
      × (0 < (if inet_fold sum == 0 then 65535 else inet_fold sum))
unfolding inet_fold
inet_fold-stored_bounds sum h =
    let a = fold_carries_lem sum h in
    let s = stored_for_lem sum (fold_carries 3 sum) a.0 a.1 in (omega (arith, s.0), s.2)
