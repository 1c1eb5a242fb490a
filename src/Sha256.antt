-- ===== src/Sha256.antt =====
-- zkt/kernel/sha256.c: SHA-256 over a message that comes in pieces, HMAC, and equal_secret. A
-- buffer is the list of its bytes and `uint32_t` has 32 bits. What sha256_final and
-- hmac_sha256_final clear at the end is not part of their result.
pub mod Compress
pub mod Absorb
pub mod Padding
pub mod Counters
pub mod Blocks
pub mod Digest
pub mod Keyed
pub mod Secret
pub mod Fips
pub mod Standard
mod Tests
use manios.Sha256.Compress.{compress}
use manios.Base.{
  ℕ, zero, suc, ◌+◌, ◌-◌, ◌*◌, ◌/◌, ◌%◌, ◌^◌, bit_xor, bit_or, Bool, true, false, List, [], ◌∷◌,
  ◌++◌, map, ltb, ◌==◌, if◌then◌else◌, length, take, drop, replicate,
}
use manios.Base.Bytes.{blit}

abbrev pub block_len : ℕ
block_len = 64

pub record Sha256 : Type 0 where
  pub h : List ℕ
  pub block : List ℕ
  pub used : ℕ
  pub bits_lo : ℕ
  pub bits_hi : ℕ

abbrev pub initial_hash : List ℕ
initial_hash =
    0x6a09e667 ∷ 0xbb67ae85 ∷ 0x3c6ef372 ∷ 0xa54ff53a ∷ 0x510e527f ∷ 0x9b05688c ∷ 0x1f83d9ab
    ∷ 0x5be0cd19 ∷ []

-- sha256_init of a structure whose block holds `block`.
pub init : List ℕ → Sha256
init block = record { h = initial_hash; block = block; used = 0; bits_lo = 0; bits_hi = 0 }

-- The length in bits, in two words.
abbrev pub count_bits : Sha256 → ℕ → Sha256
count_bits c len =
    let add = len * 8 % 2 ^ 32 in
    let carry = if ltb ((c.bits_lo + add) % 2 ^ 32) c.bits_lo then 1 else 0 in
    record c {
      bits_hi = (c.bits_hi + (len / 2 ^ 29 + carry)) % 2 ^ 32;
      bits_lo = (c.bits_lo + add) % 2 ^ 32;
    }

-- A full block is compressed.
pub flush : Sha256 → Sha256
flush c = if c.used == block_len then record c { h = compress c.h c.block; used = 0 } else c

-- The bytes that one round of the loop of sha256_update takes.
abbrev pub chunk_len : Sha256 → List ℕ → ℕ
chunk_len c p = if ltb (length p) (block_len - c.used) then length p else block_len - c.used

abbrev pub fill : Sha256 → ℕ → List ℕ → Sha256
fill c n p = record c { block = blit c.block c.used (take n p); used = c.used + n }

-- The loop of sha256_update, on fuel.
pub update_loop : ℕ → Sha256 → List ℕ → Sha256
update_loop zero c p = c
update_loop (suc fuel) c [] = c
update_loop (suc fuel) c (b ∷ bs) =
    let n = chunk_len c (b ∷ bs) in update_loop fuel (flush (fill c n (b ∷ bs))) (drop n (b ∷ bs))

-- One round takes a byte at least.
pub update : Sha256 → List ℕ → Sha256
update c p = update_loop (length p) (count_bits c (length p)) p

-- `while (c->used != SHA256_BLOCK - 8)`, on fuel: sha256_final starts it with 64 rounds.
pub pad_loop : ℕ → Sha256 → Sha256
pad_loop zero c = c
pad_loop (suc fuel) c =
    let rest = pad_loop fuel (update c (0 ∷ [])) in if c.used == block_len - 8 then c else rest

-- `(uint8_t)(x >> 24)` to `(uint8_t)x`
unfoldable pub be32 : ℕ → List ℕ
be32 x = x / 2 ^ 24 % 256 ∷ x / 2 ^ 16 % 256 ∷ x / 2 ^ 8 % 256 ∷ x % 256 ∷ []

unfoldable pub be32_all : List ℕ → List ℕ
be32_all [] = []
be32_all (x ∷ xs) = be32 x ++ be32_all xs

pub final : Sha256 → List ℕ
unfolding be32_all
final c =
    let padded = pad_loop 64 (update c (0x80 ∷ [])) in
    be32_all (update padded (be32 c.bits_hi ++ be32 c.bits_lo)).h

pub sha256 : List ℕ → List ℕ → List ℕ
sha256 block p = final (update (init block) p)

pub record Hmac : Type 0 where
  pub inner : Sha256
  pub outer_key : List ℕ

pub xor_each : ℕ → List ℕ → List ℕ
xor_each x = map (λ k. bit_xor k x)

-- The key in a block: hashed if it is longer, else followed by zeros.
pub key_block : List ℕ → List ℕ → List ℕ
key_block scratch key =
    if ltb block_len (length key)
    then blit (replicate block_len 0) 0 (sha256 scratch key)
    else blit (replicate block_len 0) 0 key

-- `block` is what the block of the hash held before, and `scratch` that of the key's hash.
pub hmac_init : List ℕ → List ℕ → List ℕ → Hmac
unfolding xor_each
hmac_init block scratch key =
    let k = key_block scratch key in
    record { inner = update (init block) (xor_each 0x36 k); outer_key = xor_each 0x5c k }

pub hmac_update : Hmac → List ℕ → Hmac
hmac_update h p = record h { inner = update h.inner p }

pub hmac_final : List ℕ → Hmac → List ℕ
hmac_final block h = final (update (update (init block) h.outer_key) (final h.inner))

-- The loop of equal_secret over bytes of the same number.
pub differences : ℕ → List ℕ → List ℕ → ℕ
differences diff [] ys = diff
differences diff (x ∷ xs) [] = diff
differences diff (x ∷ xs) (y ∷ ys) = differences (bit_or diff (bit_xor x y)) xs ys

pub equal_secret : List ℕ → List ℕ → Bool
unfolding differences
equal_secret xs ys = differences 0 xs ys == 0
