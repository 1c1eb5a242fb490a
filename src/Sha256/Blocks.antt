-- ===== src/Sha256/Blocks.antt =====
-- The padded message, compressed block by block, and what sha256_update does of it.
use manios.Base.{
  ℕ, zero, suc, ◌+◌, ◌*◌, ◌/◌, ◌%◌, ◌^◌, ◌≡◌, refl, sym, ap, ◌∙◌, true, List, [], ◌∷◌, ◌++◌, arith,
  ◌==◌, length, take, drop, length-take, length-drop, take-append-drop,
}
use manios.Base.Bytes.{blit}
use manios.Sha256.{Sha256, block_len, initial_hash, flush, update, be32_all}
use manios.Sha256.Compress.{compress}
use manios.Sha256.Absorb.{absorb, absorb-append, absorb-copied, IsOpen}
use manios.Sha256.Padding.{strip, strip-update, update-IsOpen, zeros}

-- The hash words after `n` blocks.
unfoldable pub hash_blocks : ℕ → List ℕ → List ℕ → List ℕ
hash_blocks zero h bs = h
hash_blocks (suc n) h bs = hash_blocks n (compress h (take block_len bs)) (drop block_len bs)

-- A length in bits as eight bytes.
abbrev pub be64 : ℕ → List ℕ
be64 x =
    x / 2 ^ 56 % 256
    ∷ x / 2 ^ 48 % 256
    ∷ x / 2 ^ 40 % 256
    ∷ x / 2 ^ 32 % 256
    ∷ x / 2 ^ 24 % 256
    ∷ x / 2 ^ 16 % 256
    ∷ x / 2 ^ 8 % 256
    ∷ x % 256
    ∷ []

-- The message, a one bit, zeros and the length, to a whole number of blocks.
abbrev pub padded : List ℕ → List ℕ
padded m = m ++ (0x80 ∷ (zeros ((length m + 1) % block_len) ++ be64 (8 * length m)))

unfoldable pub digest : List ℕ → List ℕ
unfolding hash_blocks
digest m = be32_all (hash_blocks (length (padded m) / block_len) initial_hash (padded m))

blit-all : (xs ys : List ℕ) → length ys ≡ length xs → blit xs 0 ys ≡ ys
blit-all [] [] e = refl
blit-all [] (y ∷ ys) e = absurd (omega arith)
blit-all (x ∷ xs) [] e = absurd (omega arith)
blit-all (x ∷ xs) (y ∷ ys) e = ap (λ r. y ∷ r) (blit-all xs ys (omega arith))

-- A whole block into an empty one is compressed.
absorb_block :
    (c : Sha256) (b : List ℕ)
    → length c.block ≡ block_len
    → c.used ≡ 0
    → length b ≡ block_len
    → absorb c b ≡ record c { h = compress c.h b; block = b; used = 0 }
unfolding flush
absorb_block c b e u n =
    absorb-copied c b (record { room = omega arith; shape = e }) (omega arith)
    ∙ rw full (
        ap (λ r. record c { h = compress c.h r; block = r; used = 0 })
          (ap (λ k. blit c.block k b) u ∙ blit-all c.block b (omega arith)))
  where
    full : (c.used + length b == block_len) ≡ true
    full = ground arith

pub absorb-blocks :
    (n : ℕ) (c : Sha256) (bs : List ℕ)
    → length c.block ≡ block_len
    → c.used ≡ 0
    → length bs ≡ n * block_len
    → (absorb c bs).h ≡ hash_blocks n c.h bs
unfolding hash_blocks absorb
absorb-blocks zero c [] e u l = refl
absorb-blocks zero c (b ∷ bs) e u l = absurd (omega arith)
absorb-blocks (suc n) c bs e u l =
    ap (λ r. (absorb c r).h) (sym (take-append-drop block_len bs))
    ∙ ap h_of (absorb-append c (take block_len bs) (drop block_len bs))
    ∙ ap (λ s. (absorb s (drop block_len bs)).h) (absorb_block c (take block_len bs) e u whole)
    ∙ absorb-blocks n _ (drop block_len bs) whole refl (omega (arith, length-drop block_len bs))
  where
    h_of : Sha256 → List ℕ
    h_of s = s.h

    whole : length (take block_len bs) ≡ block_len
    whole = omega (arith, length-take block_len bs)

-- The message in pieces.
abbrev pub updates : Sha256 → List (List ℕ) → Sha256
updates c [] = c
updates c (p ∷ ps) = updates (update c p) ps

abbrev pub concat : List (List ℕ) → List ℕ
concat [] = []
concat (p ∷ ps) = p ++ concat ps

pub updates-IsOpen : (c : Sha256) (ps : List (List ℕ)) → IsOpen c → IsOpen (updates c ps)
updates-IsOpen c [] o = o
updates-IsOpen c (p ∷ ps) o = updates-IsOpen (update c p) ps (update-IsOpen c p o)

pub strip-updates :
    (c : Sha256) (ps : List (List ℕ))
    → IsOpen c
    → strip (updates c ps) ≡ absorb (strip c) (concat ps)
unfolding absorb
strip-updates c [] o = refl
strip-updates c (p ∷ ps) o =
    strip-updates (update c p) ps (update-IsOpen c p o)
    ∙ ap (λ s. absorb s (concat ps)) (strip-update c p o)
    ∙ sym (absorb-append (strip c) p (concat ps))
