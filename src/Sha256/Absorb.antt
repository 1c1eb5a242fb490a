-- ===== src/Sha256/Absorb.antt =====
-- sha256_update takes its bytes one after another, however it copies them.
use manios.Base.{
  ℕ, zero, suc, ◌+◌, ◌≤◌, ◌<◌, ◌≡◌, refl, sym, ap, ◌∙◌, inl, inr, false, List, [], ◌∷◌, ◌++◌, arith,
  ◌==◌, length, take, drop, set, length-set, length-take, length-drop, take-append-drop, Bool-cases,
}
use manios.Base.Bytes.{blit, blit-nil}
use manios.Sha256.{Sha256, block_len, flush, chunk_len, fill, count_bits, update_loop, update}

-- One byte goes into the block.
unfoldable pub push : Sha256 → ℕ → Sha256
push c b = flush (record c { block = set c.block c.used b; used = c.used + 1 })

unfoldable pub absorb : Sha256 → List ℕ → Sha256
absorb c [] = c
absorb c (b ∷ bs) = absorb (push c b) bs

pub absorb-append : (c : Sha256) (xs ys : List ℕ) → absorb c (xs ++ ys) ≡ absorb (absorb c xs) ys
unfolding absorb
absorb-append c [] ys = refl
absorb-append c (x ∷ xs) ys = absorb-append (push c x) xs ys

-- There is room in the block.
pub record IsOpen (c : Sha256) : Type 0 where
  pub room : c.used < block_len
  pub shape : length c.block ≡ block_len

flush-IsOpen : (c : Sha256) → c.used ≤ block_len → length c.block ≡ block_len → IsOpen (flush c)
unfolding flush
flush-IsOpen c le e = elim (Bool-cases (c.used == block_len)) [
  | inl y ↦ rw y (record { room = omega arith; shape = e })
  | inr y ↦ rw y (record { room = ground (arith, y); shape = e })
]

pub flush_open : (c : Sha256) → c.used < block_len → flush c ≡ c
unfolding flush
flush_open c lt = rw not_full refl
  where
    not_full : (c.used == block_len) ≡ false
    not_full = ground arith

pub push-IsOpen : (c : Sha256) (b : ℕ) → IsOpen c → IsOpen (push c b)
unfolding push
push-IsOpen c b o = flush-IsOpen _ (omega (arith, o.room)) (length-set c.block c.used b ∙ o.shape)

pub absorb-IsOpen : (c : Sha256) (bs : List ℕ) → IsOpen c → IsOpen (absorb c bs)
unfolding absorb
absorb-IsOpen c [] o = o
absorb-IsOpen c (b ∷ bs) o = absorb-IsOpen (push c b) bs (push-IsOpen c b o)

set-blit :
    (xs : List ℕ) (i b : ℕ) (bs : List ℕ)
    → i < length xs
    → blit (set xs i b) (suc i) bs ≡ blit xs i (b ∷ bs)
set-blit [] i b bs h = absurd (omega arith)
set-blit (x ∷ xs) zero b bs h = refl
set-blit (x ∷ xs) (suc i) b bs h = ap (λ r. x ∷ r) (set-blit xs i b bs (omega arith))

-- The state with `bs` copied into the block.
abbrev pub copied : Sha256 → List ℕ → Sha256
copied c bs = record c { block = blit c.block c.used bs; used = c.used + length bs }

copied_nil : (c : Sha256) → copied c [] ≡ c
copied_nil c =
    ap (λ b. record c { block = b; used = c.used + 0 }) (blit-nil c.block c.used)
    ∙ ap (λ u. record c { used = u }) (omega arith)

copied_step :
    (c : Sha256) (b : ℕ) (bs : List ℕ)
    → c.used < length c.block
    → copied (record c { block = set c.block c.used b; used = c.used + 1 }) bs ≡ copied c (b ∷ bs)
copied_step c b bs h =
    ap (λ k. record c { block = blit (set c.block c.used b) k bs; used = c.used + 1 + length bs })
      (omega arith)
    ∙ ap (λ r. record c { block = r; used = c.used + 1 + length bs })
        (set-blit c.block c.used b bs h)
    ∙ ap (λ u. record c { block = blit c.block c.used (b ∷ bs); used = u }) (omega arith)

-- Bytes for which there is room are copied at once.
pub absorb-copied :
    (c : Sha256) (bs : List ℕ)
    → IsOpen c
    → c.used + length bs ≤ block_len
    → absorb c bs ≡ flush (copied c bs)
unfolding absorb push
absorb-copied c [] o h = sym (ap flush (copied_nil c) ∙ flush_open c o.room)
absorb-copied c (b ∷ bs) o h = elim (Bool-cases (c.used + 1 == block_len)) [
  | inl y ↦
      last bs (ground (arith, y, h))
      ∙ ap flush (copied_step c b bs (omega (arith, o.room, o.shape)))
  | inr y ↦
      ap (λ s. absorb s bs) (flush_open c' (ground (arith, y, o.room)))
      ∙ absorb-copied c' bs
          (record {
            room = ground (arith, y, o.room);
            shape = length-set c.block c.used b ∙ o.shape;
          })
          (omega arith)
      ∙ ap flush (copied_step c b bs (omega (arith, o.room, o.shape)))
]
  where
    c' : Sha256
    c' = record c { block = set c.block c.used b; used = c.used + 1 }

    last : (bs : List ℕ) → length bs ≡ 0 → absorb (flush c') bs ≡ flush (copied c' bs)
    last [] e = sym (ap flush (copied_nil c'))
    last (x ∷ xs) e = absurd (omega arith)

length-chunk :
    (c : Sha256) (p : List ℕ) → IsOpen c → length (take (chunk_len c p) p) ≡ chunk_len c p
length-chunk c p o = ground (arith, length-take (chunk_len c p) p, o.room)

-- A round of the loop takes in the bytes of its chunk.
round-absorb :
    (c : Sha256) (p : List ℕ)
    → IsOpen c
    → flush (fill c (chunk_len c p) p) ≡ absorb c (take (chunk_len c p) p)
round-absorb c p o =
    ap
      (λ k.
        flush
          (record c { block = blit c.block c.used (take (chunk_len c p) p); used = c.used + k }))
      (sym (length-chunk c p o))
    ∙ sym (absorb-copied c (take (chunk_len c p) p) o (ground (arith, length-chunk c p o, o.room)))

-- With fuel for every byte, the loop takes in all of them in order.
pub update_loop-absorb :
    (fuel : ℕ) (c : Sha256) (p : List ℕ)
    → IsOpen c
    → length p ≤ fuel
    → update_loop fuel c p ≡ absorb c p
unfolding update_loop absorb
update_loop-absorb zero c [] o h = refl
update_loop-absorb zero c (b ∷ bs) o h = absurd (omega arith)
update_loop-absorb (suc fuel) c [] o h = refl
update_loop-absorb (suc fuel) c (b ∷ bs) o h =
    ap (λ s. update_loop fuel s (drop n p)) (round-absorb c p o)
    ∙ update_loop-absorb fuel (absorb c (take n p)) (drop n p) (absorb-IsOpen c (take n p) o)
        (ground (arith, length-drop n p, o.room))
    ∙ sym (absorb-append c (take n p) (drop n p))
    ∙ ap (absorb c) (take-append-drop n p)
  where
    p : List ℕ
    p = b ∷ bs

    n : ℕ
    n = chunk_len c (b ∷ bs)

pub update-absorb :
    (c : Sha256) (p : List ℕ) → IsOpen c → update c p ≡ absorb (count_bits c (length p)) p
unfolding update
update-absorb c p o =
    update_loop-absorb (length p) (count_bits c (length p)) p
      (record { room = o.room; shape = o.shape }) (omega arith)
