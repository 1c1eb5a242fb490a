-- ===== src/Sha256/Counters.antt =====
-- The counters of a hash hold the length in bits.
use mathlib.Core.Path.{subst}
use manios.Base.{
  ℕ, ◌+◌, ◌*◌, ◌/◌, ◌%◌, ◌^◌, ◌<◌, ◌≡◌, ap, inl, inr, List, [], ◌∷◌, ◌++◌, arith, ltb, length,
  length-append, All, Bool-cases,
}
use manios.Sha256.{Sha256, count_bits, update, be32}
use manios.Sha256.Absorb.{absorb, IsOpen, update-absorb}
use manios.Sha256.Padding.{strip, absorb-with_bits, update-IsOpen}
use manios.Sha256.Blocks.{updates, concat, be64}

-- The counters are words, and count `n` bits.
pub record Counts (n : ℕ) (c : Sha256) : Type 0 where
  pub low : c.bits_lo < 2 ^ 32
  pub high : c.bits_hi < 2 ^ 32
  pub sum : c.bits_hi * 2 ^ 32 + c.bits_lo ≡ n % 2 ^ 64

count_bits-Counts :
    {n : ℕ} {c : Sha256} (len : ℕ)
    → len < 2 ^ 32
    → Counts n c
    → Counts (n + 8 * len) (count_bits c len)
count_bits-Counts {n} {c} len h k = record {
  low = omega arith;
  high = omega arith;
  sum = elim (Bool-cases (ltb ((c.bits_lo + len * 8 % 2 ^ 32) % 2 ^ 32) c.bits_lo)) [
    | inl y ↦ rw y (ground (arith, y, k.low, k.high, k.sum))
    | inr y ↦ rw y (ground (arith, y, k.low, k.high, k.sum))
  ];
}

absorb_lo : (c : Sha256) (p : List ℕ) → (absorb c p).bits_lo ≡ c.bits_lo
absorb_lo c p = ap lo_of (absorb-with_bits (strip c) c.bits_lo c.bits_hi p)
  where
    lo_of : Sha256 → ℕ
    lo_of s = s.bits_lo

absorb_hi : (c : Sha256) (p : List ℕ) → (absorb c p).bits_hi ≡ c.bits_hi
absorb_hi c p = ap hi_of (absorb-with_bits (strip c) c.bits_lo c.bits_hi p)
  where
    hi_of : Sha256 → ℕ
    hi_of s = s.bits_hi

pub update-Counts :
    {n : ℕ} {c : Sha256} (p : List ℕ)
    → IsOpen c
    → length p < 2 ^ 32
    → Counts n c
    → Counts (n + 8 * length p) (update c p)
update-Counts {n} {c} p o h k = rw (update-absorb c p o) (record {
  low = omega (arith, absorb_lo d p, new.low);
  high = omega (arith, absorb_hi d p, new.high);
  sum = omega (arith, absorb_lo d p, absorb_hi d p, new.sum);
})
  where
    d : Sha256
    d = count_bits c (length p)

    new : Counts (n + 8 * length p) (count_bits c (length p))
    new = count_bits-Counts (length p) h k

pub updates-Counts :
    (ps : List (List ℕ)) (n : ℕ) (c : Sha256)
    → IsOpen c
    → All (λ p. length p < 2 ^ 32) ps
    → Counts n c
    → Counts (n + 8 * length (concat ps)) (updates c ps)
updates-Counts [] n c o h k = subst (λ m. Counts m c) more k
  where
    more : n ≡ n + 8 * 0
    more = omega arith
updates-Counts (p ∷ ps) n c o h k =
    subst (λ m. Counts m (updates (update c p) ps)) total
      (updates-Counts ps (n + 8 * length p) (update c p) (update-IsOpen c p o) h.1
        (update-Counts p o h.0 k))
  where
    total : n + 8 * length p + 8 * length (concat ps) ≡ n + 8 * length (p ++ concat ps)
    total = omega (arith, length-append p (concat ps))

-- The eight bytes of the length.
pub length_bytes : {n : ℕ} {c : Sha256} → Counts n c → be32 c.bits_hi ++ be32 c.bits_lo ≡ be64 n
unfolding be32
length_bytes {n} {c} k = cc (byte_0, byte_1, byte_2, byte_3, byte_4, byte_5, byte_6, byte_7)
  where
    byte_0 : c.bits_hi / 2 ^ 24 % 256 ≡ n / 2 ^ 56 % 256
    byte_0 = omega (arith, k.low, k.high, k.sum)

    byte_1 : c.bits_hi / 2 ^ 16 % 256 ≡ n / 2 ^ 48 % 256
    byte_1 = omega (arith, k.low, k.high, k.sum)

    byte_2 : c.bits_hi / 2 ^ 8 % 256 ≡ n / 2 ^ 40 % 256
    byte_2 = omega (arith, k.low, k.high, k.sum)

    byte_3 : c.bits_hi % 256 ≡ n / 2 ^ 32 % 256
    byte_3 = omega (arith, k.low, k.high, k.sum)

    byte_4 : c.bits_lo / 2 ^ 24 % 256 ≡ n / 2 ^ 24 % 256
    byte_4 = omega (arith, k.low, k.high, k.sum)

    byte_5 : c.bits_lo / 2 ^ 16 % 256 ≡ n / 2 ^ 16 % 256
    byte_5 = omega (arith, k.low, k.high, k.sum)

    byte_6 : c.bits_lo / 2 ^ 8 % 256 ≡ n / 2 ^ 8 % 256
    byte_6 = omega (arith, k.low, k.high, k.sum)

    byte_7 : c.bits_lo % 256 ≡ n % 256
    byte_7 = omega (arith, k.low, k.high, k.sum)
