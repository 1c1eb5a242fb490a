-- ===== src/Sha256/Compress.antt =====
-- The compression function of SHA-256 (`compress` of zkt/kernel/sha256.c), on words of 32 bits.
use manios.Base.{
  ℕ, zero, suc, ◌+◌, ◌-◌, ◌*◌, ◌/◌, ◌%◌, ◌^◌, bit_and, bit_or, bit_xor, List, [], ◌∷◌, ◌++◌, get_or,
  length, ◌≡◌, refl, replicate,
}

abbrev pub round_keys : List ℕ
round_keys =
    0x428a2f98 ∷ 0x71374491 ∷ 0xb5c0fbcf ∷ 0xe9b5dba5 ∷ 0x3956c25b ∷ 0x59f111f1 ∷ 0x923f82a4
    ∷ 0xab1c5ed5 ∷ 0xd807aa98 ∷ 0x12835b01 ∷ 0x243185be ∷ 0x550c7dc3 ∷ 0x72be5d74 ∷ 0x80deb1fe
    ∷ 0x9bdc06a7 ∷ 0xc19bf174 ∷ 0xe49b69c1 ∷ 0xefbe4786 ∷ 0x0fc19dc6 ∷ 0x240ca1cc ∷ 0x2de92c6f
    ∷ 0x4a7484aa ∷ 0x5cb0a9dc ∷ 0x76f988da ∷ 0x983e5152 ∷ 0xa831c66d ∷ 0xb00327c8 ∷ 0xbf597fc7
    ∷ 0xc6e00bf3 ∷ 0xd5a79147 ∷ 0x06ca6351 ∷ 0x14292967 ∷ 0x27b70a85 ∷ 0x2e1b2138 ∷ 0x4d2c6dfc
    ∷ 0x53380d13 ∷ 0x650a7354 ∷ 0x766a0abb ∷ 0x81c2c92e ∷ 0x92722c85 ∷ 0xa2bfe8a1 ∷ 0xa81a664b
    ∷ 0xc24b8b70 ∷ 0xc76c51a3 ∷ 0xd192e819 ∷ 0xd6990624 ∷ 0xf40e3585 ∷ 0x106aa070 ∷ 0x19a4c116
    ∷ 0x1e376c08 ∷ 0x2748774c ∷ 0x34b0bcb5 ∷ 0x391c0cb3 ∷ 0x4ed8aa4a ∷ 0x5b9cca4f ∷ 0x682e6ff3
    ∷ 0x748f82ee ∷ 0x78a5636f ∷ 0x84c87814 ∷ 0x8cc70208 ∷ 0x90befffa ∷ 0xa4506ceb ∷ 0xbef9a3f7
    ∷ 0xc67178f2 ∷ []

unfoldable pub ror : ℕ → ℕ → ℕ
ror x n = bit_or (x / 2 ^ n) (x * 2 ^ (32 - n) % 2 ^ 32)

-- The word of the four bytes from `i` on.
unfoldable pub word_at : List ℕ → ℕ → ℕ
word_at p i =
    bit_or
      (bit_or (bit_or (get_or p i 0 * 2 ^ 24) (get_or p (i + 1) 0 * 2 ^ 16))
        (get_or p (i + 2) 0 * 2 ^ 8))
      (get_or p (i + 3) 0)

-- The first `n` words, from word `t` on.
unfoldable pub load : ℕ → ℕ → List ℕ → List ℕ
load zero t p = []
load (suc n) t p = word_at p (4 * t) ∷ load n (t + 1) p

-- `w[t]`, where `w` holds the words before it.
unfoldable pub next_word : List ℕ → ℕ
next_word w =
    let t = length w in
    let w15 = get_or w (t - 15) 0 in
    let w2 = get_or w (t - 2) 0 in
    let s0 = bit_xor (bit_xor (ror w15 7) (ror w15 18)) (w15 / 2 ^ 3) in
    let s1 = bit_xor (bit_xor (ror w2 17) (ror w2 19)) (w2 / 2 ^ 10) in
    (get_or w (t - 16) 0 + s0 + get_or w (t - 7) 0 + s1) % 2 ^ 32

unfoldable pub extend : ℕ → List ℕ → List ℕ
extend zero w = w
extend (suc n) w = extend n (w ++ (next_word w ∷ []))

pub record Working : Type 0 where
  pub a : ℕ
  pub b : ℕ
  pub c : ℕ
  pub d : ℕ
  pub e : ℕ
  pub f : ℕ
  pub g : ℕ
  pub h : ℕ

unfoldable pub round : Working → ℕ → ℕ → Working
round s k w =
    let sum_e = bit_xor (bit_xor (ror s.e 6) (ror s.e 11)) (ror s.e 25) in
    let choice = bit_xor (bit_and s.e s.f) (bit_and (2 ^ 32 - 1 - s.e) s.g) in
    let t1 = (s.h + sum_e + choice + k + w) % 2 ^ 32 in
    let sum_a = bit_xor (bit_xor (ror s.a 2) (ror s.a 13)) (ror s.a 22) in
    let majority = bit_xor (bit_xor (bit_and s.a s.b) (bit_and s.a s.c)) (bit_and s.b s.c) in
    let t2 = (sum_a + majority) % 2 ^ 32 in
    record {
      a = (t1 + t2) % 2 ^ 32;
      b = s.a;
      c = s.b;
      d = s.c;
      e = (s.d + t1) % 2 ^ 32;
      f = s.e;
      g = s.f;
      h = s.g;
    }

-- The rounds whose keys are left, from word `t` on.
unfoldable pub rounds : List ℕ → ℕ → List ℕ → Working → Working
rounds [] t w s = s
rounds (k ∷ ks) t w s = rounds ks (t + 1) w (round s k (get_or w t 0))

abbrev pub working : List ℕ → Working
working h = record {
  a = get_or h 0 0;
  b = get_or h 1 0;
  c = get_or h 2 0;
  d = get_or h 3 0;
  e = get_or h 4 0;
  f = get_or h 5 0;
  g = get_or h 6 0;
  h = get_or h 7 0;
}

-- The hash words after the block `p`.
unfoldable pub compress : List ℕ → List ℕ → List ℕ
unfolding load extend rounds
compress h p =
    let w = extend 48 (load 16 0 p) in
    let s = rounds round_keys 0 w (working h) in
    (get_or h 0 0 + s.a) % 2 ^ 32
    ∷ (get_or h 1 0 + s.b) % 2 ^ 32
    ∷ (get_or h 2 0 + s.c) % 2 ^ 32
    ∷ (get_or h 3 0 + s.d) % 2 ^ 32
    ∷ (get_or h 4 0 + s.e) % 2 ^ 32
    ∷ (get_or h 5 0 + s.f) % 2 ^ 32
    ∷ (get_or h 6 0 + s.g) % 2 ^ 32
    ∷ (get_or h 7 0 + s.h) % 2 ^ 32
    ∷ []

pub length-compress : (h p : List ℕ) → length (compress h p) ≡ 8
unfolding compress
length-compress h p = refl

-- The hash after the one block of "abc" (FIPS 180-4).
abc_hash :
    compress
      (0x6a09e667 ∷ 0xbb67ae85 ∷ 0x3c6ef372 ∷ 0xa54ff53a ∷ 0x510e527f ∷ 0x9b05688c ∷ 0x1f83d9ab
        ∷ 0x5be0cd19 ∷ [])
      ((97 ∷ 98 ∷ 99 ∷ 128 ∷ []) ++ (replicate 59 0 ++ (24 ∷ [])))
    ≡ 0xba7816bf ∷ 0x8f01cfea ∷ 0x414140de ∷ 0x5dae2223 ∷ 0xb00361a3 ∷ 0x96177a9c ∷ 0xb410ff61
      ∷ 0xf20015ad ∷ []
unfolding compress load extend rounds round next_word word_at ror
abc_hash = refl
