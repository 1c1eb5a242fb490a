-- ===== src/Sha256/Padding.antt =====
-- The counters of a hash, and the loop of sha256_final that fills up the block.
use mathlib.Core.Path.{subst}
use manios.Base.{
  ℕ, zero, suc, ◌+◌, ◌-◌, ◌%◌, ◌≤◌, ◌<◌, ◌≡◌, ◌≢◌, refl, sym, ap, ◌∙◌, inl, inr, List, [], ◌∷◌,
  arith, ◌==◌, length, Bool-cases, replicate,
}
use manios.Sha256.{Sha256, block_len, flush, count_bits, update, pad_loop}
use manios.Sha256.Absorb.{push, absorb, IsOpen, push-IsOpen, absorb-IsOpen, update-absorb}

abbrev pub with_bits : Sha256 → ℕ → ℕ → Sha256
with_bits c lo hi = record c { bits_lo = lo; bits_hi = hi }

-- The hash without its counters, which the blocks do not depend on.
abbrev pub strip : Sha256 → Sha256
strip c = with_bits c 0 0

push-with_bits :
    (c : Sha256) (b lo hi : ℕ) → push (with_bits c lo hi) b ≡ with_bits (push c b) lo hi
unfolding push flush
push-with_bits c b lo hi = elim (Bool-cases (c.used + 1 == block_len)) [
  | inl y ↦ rw y refl
  | inr y ↦ rw y refl
]

pub absorb-with_bits :
    (c : Sha256) (lo hi : ℕ) (p : List ℕ)
    → absorb (with_bits c lo hi) p ≡ with_bits (absorb c p) lo hi
unfolding absorb
absorb-with_bits c lo hi [] = refl
absorb-with_bits c lo hi (b ∷ bs) =
    ap (λ s. absorb s bs) (push-with_bits c b lo hi) ∙ absorb-with_bits (push c b) lo hi bs

pub strip-update : (c : Sha256) (p : List ℕ) → IsOpen c → strip (update c p) ≡ absorb (strip c) p
strip-update c p o =
    ap strip (update-absorb c p o) ∙ sym (absorb-with_bits (count_bits c (length p)) 0 0 p)

push-used : (c : Sha256) (b : ℕ) → c.used < block_len → (push c b).used ≡ (c.used + 1) % block_len
unfolding push flush
push-used c b h = elim (Bool-cases (c.used + 1 == block_len)) [
  | inl y ↦ rw y (ground (arith, y))
  | inr y ↦ rw y (ground (arith, y))
]

pub absorb-used :
    (c : Sha256) (p : List ℕ) → IsOpen c → (absorb c p).used ≡ (c.used + length p) % block_len
unfolding absorb
absorb-used c [] o = omega (arith, o.room)
absorb-used c (b ∷ bs) o =
    omega (arith, absorb-used (push c b) bs (push-IsOpen c b o), push-used c b o.room)

pub update-IsOpen : (c : Sha256) (p : List ℕ) → IsOpen c → IsOpen (update c p)
update-IsOpen c p o =
    subst IsOpen (sym (update-absorb c p o))
      (absorb-IsOpen (count_bits c (length p)) p (record { room = o.room; shape = o.shape }))

pub update-used :
    (c : Sha256) (p : List ℕ) → IsOpen c → (update c p).used ≡ (c.used + length p) % block_len
update-used c p o =
    ap used_of (update-absorb c p o)
    ∙ absorb-used (count_bits c (length p)) p (record { room = o.room; shape = o.shape })
  where
    used_of : Sha256 → ℕ
    used_of s = s.used

-- The zeros up to the place of the length, eight bytes before the end of the block.
abbrev pub zeros : ℕ → List ℕ
zeros used = replicate ((block_len + 56 - used) % block_len) 0

zeros_end : (used : ℕ) → (block_len + 56 - used) % block_len ≡ 0 → zeros used ≡ []
zeros_end used e = ap (λ k. replicate k 0) e

zeros_step :
    (used : ℕ)
    → used < block_len
    → used ≢ block_len - 8
    → zeros used ≡ 0 ∷ zeros ((used + 1) % block_len)
zeros_step used lt ne = ap (λ k. replicate k 0) one_more
  where
    one_more :
        (block_len + 56 - used) % block_len
        ≡ suc ((block_len + 56 - (used + 1) % block_len) % block_len)
    one_more = omega arith

-- As many rounds as there are zeros to come are enough.
pub pad_loop-absorb :
    (fuel : ℕ) (c : Sha256)
    → IsOpen c
    → (block_len + 56 - c.used) % block_len ≤ fuel
    → strip (pad_loop fuel c) ≡ absorb (strip c) (zeros c.used)
unfolding pad_loop absorb
pad_loop-absorb zero c o h = rw (zeros_end c.used (omega arith)) refl
pad_loop-absorb (suc fuel) c o h = elim (Bool-cases (c.used == block_len - 8)) [
  | inl y ↦ rw (y, zeros_end c.used (ground (arith, y))) refl
  | inr y ↦
      rw (y, zeros_step c.used o.room (ground (arith, y)))
        (pad_loop-absorb fuel (update c (0 ∷ [])) (update-IsOpen c (0 ∷ []) o)
            (ground (arith, y, used_next, o.room))
          ∙ ap (λ s. absorb s (zeros (update c (0 ∷ [])).used)) (strip-update c (0 ∷ []) o)
          ∙ ap (λ u. absorb (push (strip c) 0) (zeros u)) used_next)
]
  where
    used_next : (update c (0 ∷ [])).used ≡ (c.used + 1) % block_len
    used_next = update-used c (0 ∷ []) o

-- With room in the block, and at the length's place after the loop.
pub pad_loop-IsOpen : (fuel : ℕ) (c : Sha256) → IsOpen c → IsOpen (pad_loop fuel c)
unfolding pad_loop
pad_loop-IsOpen zero c o = o
pad_loop-IsOpen (suc fuel) c o = elim (Bool-cases (c.used == block_len - 8)) [
  | inl y ↦ rw y o
  | inr y ↦ rw y (pad_loop-IsOpen fuel (update c (0 ∷ [])) (update-IsOpen c (0 ∷ []) o))
]
