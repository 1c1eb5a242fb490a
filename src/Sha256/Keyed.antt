-- ===== src/Sha256/Keyed.antt =====
-- HMAC-SHA-256 is that of RFC 2104.
use manios.Base.{
  ℕ, zero, suc, ◌-◌, ◌*◌, ◌/◌, ◌^◌, ◌≤◌, ◌<◌, ◌≡◌, refl, ap, ◌∙◌, inl, inr, List, [], ◌∷◌, ◌++◌,
  arith, ltb, if◌then◌else◌, length, length-append, length-map, length-replicate, append-nil, All,
  replicate, Bool-cases, bit_xor,
}
use manios.Base.Bytes.{blit}
use manios.Sha256.{
  block_len, initial_hash, init, update, be32, be32_all, final, sha256, Hmac, xor_each, key_block,
  hmac_init, hmac_update, hmac_final,
}
use manios.Sha256.Compress.{length-compress}
use manios.Sha256.Blocks.{hash_blocks, padded, digest, updates, concat}
use manios.Sha256.Digest.{final-blocks}

-- sha256 is the digest.
pub sha256-digest :
    (block key : List ℕ)
    → length block ≡ block_len
    → length key < 2 ^ 32
    → sha256 block key ≡ digest key
unfolding sha256
sha256-digest block key e short =
    final-blocks block (key ∷ []) e (short, tt) ∙ ap digest (append-nil key)

length-hash_blocks : (n : ℕ) (h bs : List ℕ) → length h ≡ 8 → length (hash_blocks n h bs) ≡ 8
unfolding hash_blocks
length-hash_blocks zero h bs e = e
length-hash_blocks (suc n) h bs e = length-hash_blocks n _ _ (length-compress h _)

length-be32_all : (xs : List ℕ) → length (be32_all xs) ≡ 4 * length xs
unfolding be32_all be32
length-be32_all [] = refl
length-be32_all (x ∷ xs) = omega (arith, length-be32_all xs)

length-digest : (m : List ℕ) → length (digest m) ≡ 32
unfolding digest
length-digest m = omega (
  arith,
  length-be32_all (hash_blocks (length (padded m) / block_len) initial_hash (padded m)),
  length-hash_blocks (length (padded m) / block_len) initial_hash (padded m) refl,
)

-- The key of RFC 2104, padded with zeros to a block.
abbrev pub short_key : List ℕ → List ℕ
short_key key = if ltb block_len (length key) then digest key else key

abbrev pub block_key : List ℕ → List ℕ
block_key key = short_key key ++ replicate (block_len - length (short_key key)) 0

-- H(K xor opad, H(K xor ipad, text))
abbrev pub hmac : List ℕ → List ℕ → List ℕ
hmac key m = digest (xor_each 0x5c (block_key key) ++ digest (xor_each 0x36 (block_key key) ++ m))

blit-zeros :
    (n : ℕ) (xs : List ℕ)
    → length xs ≤ n
    → blit (replicate n 0) 0 xs ≡ xs ++ replicate (n - length xs) 0
blit-zeros zero [] h = refl
blit-zeros zero (x ∷ xs) h = absurd (omega arith)
blit-zeros (suc n) [] h = ap (λ k. replicate k 0) whole
  where
    whole : suc n ≡ suc n - 0
    whole = omega arith
blit-zeros (suc n) (x ∷ xs) h =
    ap (λ r. x ∷ r) (blit-zeros n xs (omega arith) ∙ ap (λ k. xs ++ replicate k 0) (omega arith))

key_block-block_key :
    (scratch key : List ℕ)
    → length scratch ≡ block_len
    → length key < 2 ^ 32
    → key_block scratch key ≡ block_key key
unfolding key_block
key_block-block_key scratch key e short = elim (Bool-cases (ltb block_len (length key))) [
  | inl y ↦ rw y (
      ap (blit (replicate block_len 0) 0) (sha256-digest scratch key e short)
      ∙ blit-zeros block_len (digest key) (omega (arith, length-digest key)))
  | inr y ↦ rw y (blit-zeros block_len key (ground (arith, y)))
]

length-block_key : (key : List ℕ) → length (block_key key) ≡ block_len
length-block_key key = elim (Bool-cases (ltb block_len (length key))) [
  | inl y ↦ rw y (
      length-append (digest key) _
      ∙ omega
          (arith, length-digest key, length-replicate {A = ℕ} (block_len - length (digest key)) 0))
  | inr y ↦
      rw y (
        length-append key _
        ∙ ground (arith, y, length-replicate {A = ℕ} (block_len - length key) 0))
]

-- The text in pieces.
abbrev pub hmac_updates : Hmac → List (List ℕ) → Hmac
hmac_updates h [] = h
hmac_updates h (p ∷ ps) = hmac_updates (hmac_update h p) ps

updated_inner : (h : Hmac) (ps : List (List ℕ)) → (hmac_updates h ps).inner ≡ updates h.inner ps
unfolding hmac_update
updated_inner h [] = refl
updated_inner h (p ∷ ps) = updated_inner (hmac_update h p) ps

updated_key : (h : Hmac) (ps : List (List ℕ)) → (hmac_updates h ps).outer_key ≡ h.outer_key
unfolding hmac_update
updated_key h [] = refl
updated_key h (p ∷ ps) = updated_key (hmac_update h p) ps

length-xor_each : (x : ℕ) (ks : List ℕ) → length (xor_each x ks) ≡ length ks
unfolding xor_each
length-xor_each x ks = length-map ks (λ k. bit_xor k x)

module _ (block scratch key : List ℕ) (es : length scratch ≡ block_len)
    (short : length key < 2 ^ 32) where
  init_key : (hmac_init block scratch key).outer_key ≡ xor_each 0x5c (block_key key)
  unfolding hmac_init
  init_key = ap (xor_each 0x5c) (key_block-block_key scratch key es short)

  init_inner :
      (hmac_init block scratch key).inner ≡ update (init block) (xor_each 0x36 (block_key key))
  unfolding hmac_init
  init_inner =
      ap (λ k. update (init block) (xor_each 0x36 k)) (key_block-block_key scratch key es short)

-- hmac_sha256_init, hmac_sha256_update for each of the pieces and hmac_sha256_final give the HMAC
-- of RFC 2104 over SHA-256 of the pieces joined; a key longer than a block is hashed first. The key
-- and each piece are shorter than 4 GiB.
pub hmac_final-hmac :
    (block scratch outer key : List ℕ) (ps : List (List ℕ))
    → length block ≡ block_len
    → length scratch ≡ block_len
    → length outer ≡ block_len
    → length key < 2 ^ 32
    → All (λ p. length p < 2 ^ 32) ps
    → hmac_final outer (hmac_updates (hmac_init block scratch key) ps) ≡ hmac key (concat ps)
unfolding hmac_final
hmac_final-hmac block scratch outer key ps eb es eo short h =
    ap (λ k. final (update (update (init outer) k) (final H.inner))) outer_key
    ∙ ap (λ t. final (update (update (init outer) (pad 0x5c)) t)) inner
    ∙ final-blocks outer (pad 0x5c ∷ digest (pad 0x36 ++ concat ps) ∷ []) eo
        (length_pad 0x5c, (omega (arith, length-digest (pad 0x36 ++ concat ps)), tt))
    ∙ ap (λ t. digest (pad 0x5c ++ t)) (append-nil (digest (pad 0x36 ++ concat ps)))
  where
    H : Hmac
    H = hmac_updates (hmac_init block scratch key) ps

    pad : ℕ → List ℕ
    pad x = xor_each x (block_key key)

    length_pad : (x : ℕ) → length (pad x) < 2 ^ 32
    length_pad x = omega (arith, length-xor_each x (block_key key), length-block_key key)

    outer_key : H.outer_key ≡ pad 0x5c
    outer_key = updated_key (hmac_init block scratch key) ps ∙ init_key block scratch key es short

    inner : final H.inner ≡ digest (pad 0x36 ++ concat ps)
    inner =
        ap final (updated_inner (hmac_init block scratch key) ps)
        ∙ ap (λ s. final (updates s ps)) (init_inner block scratch key es short)
        ∙ final-blocks block (pad 0x36 ∷ ps) eb (length_pad 0x36, h)
