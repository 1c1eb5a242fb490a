-- ===== src/Sha256/Digest.antt =====
-- sha256_final of a hash of pieces is the digest of the whole message.
use manios.Base.{
  ℕ, ◌+◌, ◌-◌, ◌*◌, ◌/◌, ◌%◌, ◌^◌, ◌<◌, ◌≡◌, refl, sym, ap, ◌∙◌, List, [], ◌∷◌, ◌++◌, arith, length,
  length-append, length-replicate, All,
}
use manios.Sha256.{Sha256, block_len, init, update, pad_loop, be32, be32_all, final}
use manios.Sha256.Absorb.{absorb, absorb-append, IsOpen}
use manios.Sha256.Padding.{
  strip, strip-update, absorb-used, update-IsOpen, update-used, zeros, pad_loop-absorb,
  pad_loop-IsOpen,
}
use manios.Sha256.Blocks.{
  be64, padded, digest, absorb-blocks, updates, concat, updates-IsOpen, strip-updates,
}
use manios.Sha256.Fips.{fips_digest}
use manios.Sha256.Standard.{digest-fips_digest}
use manios.Sha256.Counters.{Counts, updates-Counts, length_bytes}

module _ (c : Sha256) (o : IsOpen c) where
  -- What sha256_final absorbs of `c`.
  final-absorb :
      strip (update (pad_loop 64 (update c (0x80 ∷ []))) (be32 c.bits_hi ++ be32 c.bits_lo))
      ≡ absorb
          (strip c)
          (0x80 ∷ (zeros ((c.used + 1) % block_len) ++ (be32 c.bits_hi ++ be32 c.bits_lo)))
  unfolding absorb
  final-absorb =
      strip-update (pad_loop 64 c1) len (pad_loop-IsOpen 64 c1 o1)
      ∙ ap (λ s. absorb s len) (pad_loop-absorb 64 c1 o1 (omega (arith, o1.room)))
      ∙ ap (λ u. absorb (absorb (strip c1) (zeros u)) len) (update-used c (0x80 ∷ []) o)
      ∙ ap (λ s. absorb (absorb s (zeros ((c.used + 1) % block_len))) len)
          (strip-update c (0x80 ∷ []) o)
      ∙ sym (absorb-append (absorb (strip c) (0x80 ∷ [])) (zeros ((c.used + 1) % block_len)) len)
    where
      c1 : Sha256
      c1 = update c (0x80 ∷ [])

      o1 : IsOpen c1
      o1 = update-IsOpen c (0x80 ∷ []) o

      len : List ℕ
      len = be32 c.bits_hi ++ be32 c.bits_lo

init-IsOpen : (block : List ℕ) → length block ≡ block_len → IsOpen (init block)
unfolding init
init-IsOpen block e = record { room = omega arith; shape = e }

init-Counts : (block : List ℕ) → Counts 0 (init block)
unfolding init
init-Counts block = record { low = omega arith; high = omega arith; sum = refl }

length-padded : (m : List ℕ) → length (padded m) ≡ length (padded m) / block_len * block_len
length-padded m = omega (
  arith,
  length-append m _,
  length-append (zeros ((length m + 1) % block_len)) (be64 (8 * length m)),
  length-replicate {A = ℕ} ((block_len + 56 - (length m + 1) % block_len) % block_len) 0,
)

module _ (block : List ℕ) (ps : List (List ℕ)) (e : length block ≡ block_len)
    (short : All (λ p. length p < 2 ^ 32) ps) where
  hashed : Sha256
  hashed = updates (init block) ps

  hashed-IsOpen : IsOpen hashed
  unfolding hashed
  hashed-IsOpen = updates-IsOpen (init block) ps (init-IsOpen block e)

  hashed-absorb : strip hashed ≡ absorb (init block) (concat ps)
  unfolding hashed init
  hashed-absorb = strip-updates (init block) ps (init-IsOpen block e)

  hashed-used : hashed.used ≡ length (concat ps) % block_len
  unfolding init
  hashed-used =
      ap used_of hashed-absorb
      ∙ absorb-used (init block) (concat ps) (init-IsOpen block e)
      ∙ ap (λ k. k % block_len) zero_used
    where
      used_of : Sha256 → ℕ
      used_of s = s.used

      zero_used : 0 + length (concat ps) ≡ length (concat ps)
      zero_used = omega arith

  hashed_length : be32 hashed.bits_hi ++ be32 hashed.bits_lo ≡ be64 (8 * length (concat ps))
  unfolding hashed
  hashed_length =
      length_bytes
        (updates-Counts ps 0 (init block) (init-IsOpen block e) short (init-Counts block))
      ∙ ap be64 zero_bits
    where
      zero_bits : 0 + 8 * length (concat ps) ≡ 8 * length (concat ps)
      zero_bits = omega arith

  hashed-padded :
      absorb (strip hashed) (
        0x80
        ∷ (zeros ((hashed.used + 1) % block_len) ++ (be32 hashed.bits_hi ++ be32 hashed.bits_lo)))
      ≡ absorb (init block) (padded (concat ps))
  hashed-padded =
      ap (λ r. absorb (strip hashed) (0x80 ∷ (zeros ((hashed.used + 1) % block_len) ++ r)))
        hashed_length
      ∙ ap (λ u. absorb (strip hashed) (0x80 ∷ (zeros u ++ be64 (8 * length (concat ps))))) place
      ∙ ap
          (λ s. absorb s (
            0x80 ∷ (zeros ((length (concat ps) + 1) % block_len) ++ be64 (8 * length (concat ps)))))
          hashed-absorb
      ∙ sym (absorb-append (init block) (concat ps) _)
    where
      place : (hashed.used + 1) % block_len ≡ (length (concat ps) + 1) % block_len
      place = omega (arith, hashed-used)

-- sha256_final, block by block with the code's own compression.
pub final-blocks :
    (block : List ℕ) (ps : List (List ℕ))
    → length block ≡ block_len
    → All (λ p. length p < 2 ^ 32) ps
    → final (updates (init block) ps) ≡ digest (concat ps)
unfolding final digest hashed init
final-blocks block ps e short = ap be32_all (
    ap h_of (
      final-absorb (hashed block ps e short) (hashed-IsOpen block ps e short)
      ∙ hashed-padded block ps e short)
    ∙ absorb-blocks (length (padded (concat ps)) / block_len) (init block) (padded (concat ps)) e
        refl (length-padded (concat ps)))
  where
    h_of : Sha256 → List ℕ
    h_of s = s.h

-- sha256_init, sha256_update for each of the pieces and sha256_final give the digest that FIPS
-- 180-4 defines of the pieces joined, with its constants computed from the roots of the primes:
-- the message, a one bit, zeros and the length in bits (modulo 2^64), hashed block by block. Each
-- piece is shorter than 4 GiB; what the block held before does not matter.
pub final-digest :
    (block : List ℕ) (ps : List (List ℕ))
    → length block ≡ block_len
    → All (λ p. length p < 2 ^ 32) ps
    → final (updates (init block) ps) ≡ fips_digest (concat ps)
final-digest block ps e short = final-blocks block ps e short ∙ digest-fips_digest (concat ps)
