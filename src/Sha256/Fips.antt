-- ===== src/Sha256/Fips.antt =====
-- SHA-256 as FIPS 180-4 defines it, apart from the code: the constants are computed from the
-- square and the cube roots of the primes, and the message is padded and hashed by the standard's
-- formulas. Bytes and 32-bit words are numbers.
use manios.Base.{
  ℕ, zero, suc, ◌+◌, ◌-◌, ◌*◌, ◌/◌, ◌%◌, ◌^◌, bit_and, bit_or, bit_xor, List, [], ◌∷◌, ◌++◌, get_or,
  length, leb, if◌then◌else◌, take, drop, replicate,
}

-- The first 64 primes.
abbrev primes : List ℕ
primes =
    2 ∷ 3 ∷ 5 ∷ 7 ∷ 11 ∷ 13 ∷ 17 ∷ 19 ∷ 23 ∷ 29 ∷ 31 ∷ 37 ∷ 41 ∷ 43 ∷ 47 ∷ 53 ∷ 59 ∷ 61 ∷ 67 ∷ 71
    ∷ 73 ∷ 79 ∷ 83 ∷ 89 ∷ 97 ∷ 101 ∷ 103 ∷ 107 ∷ 109 ∷ 113 ∷ 127 ∷ 131 ∷ 137 ∷ 139 ∷ 149 ∷ 151 ∷ 157
    ∷ 163 ∷ 167 ∷ 173 ∷ 179 ∷ 181 ∷ 191 ∷ 193 ∷ 197 ∷ 199 ∷ 211 ∷ 223 ∷ 227 ∷ 229 ∷ 233 ∷ 239 ∷ 241
    ∷ 251 ∷ 257 ∷ 263 ∷ 269 ∷ 271 ∷ 277 ∷ 281 ∷ 283 ∷ 293 ∷ 307 ∷ 311 ∷ []

-- The largest number with the leading bits of `r`, and `k` bits more, whose power `n` reaches.
unfoldable pub root : (ℕ → ℕ) → ℕ → ℕ → ℕ → ℕ
root power zero n r = r
root power (suc k) n r = root power k n (if leb (power (r + 2 ^ k)) n then r + 2 ^ k else r)

abbrev square : ℕ → ℕ
square x = x * x

abbrev cube : ℕ → ℕ
cube x = x * x * x

-- The first 32 bits of the fractional parts of the roots.
unfoldable pub square_roots : List ℕ → List ℕ
unfolding root
square_roots [] = []
square_roots (p ∷ ps) = root square 40 (p * 2 ^ 64) 0 % 2 ^ 32 ∷ square_roots ps

unfoldable pub cube_roots : List ℕ → List ℕ
unfolding root
cube_roots [] = []
cube_roots (p ∷ ps) = root cube 36 (p * 2 ^ 96) 0 % 2 ^ 32 ∷ cube_roots ps

unfoldable pub constants : List ℕ
unfolding cube_roots
constants = cube_roots primes

unfoldable pub start_hash : List ℕ
unfolding square_roots
start_hash = square_roots (take 8 primes)

abbrev add : ℕ → ℕ → ℕ
add x y = (x + y) % 2 ^ 32

abbrev rotr : ℕ → ℕ → ℕ
rotr n x = bit_or (x / 2 ^ n) (x * 2 ^ (32 - n) % 2 ^ 32)

abbrev shr : ℕ → ℕ → ℕ
shr n x = x / 2 ^ n

abbrev ch : ℕ → ℕ → ℕ → ℕ
ch x y z = bit_xor (bit_and x y) (bit_and (2 ^ 32 - 1 - x) z)

abbrev maj : ℕ → ℕ → ℕ → ℕ
maj x y z = bit_xor (bit_xor (bit_and x y) (bit_and x z)) (bit_and y z)

abbrev big_sigma_0 : ℕ → ℕ
big_sigma_0 x = bit_xor (bit_xor (rotr 2 x) (rotr 13 x)) (rotr 22 x)

abbrev big_sigma_1 : ℕ → ℕ
big_sigma_1 x = bit_xor (bit_xor (rotr 6 x) (rotr 11 x)) (rotr 25 x)

abbrev sigma_0 : ℕ → ℕ
sigma_0 x = bit_xor (bit_xor (rotr 7 x) (rotr 18 x)) (shr 3 x)

abbrev sigma_1 : ℕ → ℕ
sigma_1 x = bit_xor (bit_xor (rotr 17 x) (rotr 19 x)) (shr 10 x)

-- Word `t` of a block, big-endian.
abbrev block_word : List ℕ → ℕ → ℕ
block_word b t =
    bit_or
      (bit_or (bit_or (get_or b (4 * t) 0 * 2 ^ 24) (get_or b (4 * t + 1) 0 * 2 ^ 16))
        (get_or b (4 * t + 2) 0 * 2 ^ 8))
      (get_or b (4 * t + 3) 0)

unfoldable pub block_words : ℕ → ℕ → List ℕ → List ℕ
block_words zero t b = []
block_words (suc n) t b = block_word b t ∷ block_words n (t + 1) b

-- `n` more words of the message schedule.
unfoldable pub schedule : ℕ → List ℕ → List ℕ
schedule zero w = w
schedule (suc n) w = schedule n (
    w
    ++ ((get_or w (length w - 16) 0
            + sigma_0 (get_or w (length w - 15) 0)
            + get_or w (length w - 7) 0
            + sigma_1 (get_or w (length w - 2) 0))
          % 2 ^ 32
        ∷ []))

-- The working variables after the rounds whose constants are left, from word `t` on.
unfoldable pub working_variables : List ℕ → ℕ → List ℕ → (a b c d e f g h : ℕ) → List ℕ
working_variables [] t w a b c d e f g h = a ∷ b ∷ c ∷ d ∷ e ∷ f ∷ g ∷ h ∷ []
working_variables (k ∷ ks) t w a b c d e f g h =
    let t1 = (h + big_sigma_1 e + ch e f g + k + get_or w t 0) % 2 ^ 32 in
    let t2 = add (big_sigma_0 a) (maj a b c) in
    working_variables ks (t + 1) w (add t1 t2) a b c (add d t1) e f g

abbrev pub nth : List ℕ → ℕ → ℕ
nth xs i = get_or xs i 0

abbrev pub added : List ℕ → List ℕ → List ℕ
added v xs =
    add (nth v 0) (nth xs 0)
    ∷ add (nth v 1) (nth xs 1)
    ∷ add (nth v 2) (nth xs 2)
    ∷ add (nth v 3) (nth xs 3)
    ∷ add (nth v 4) (nth xs 4)
    ∷ add (nth v 5) (nth xs 5)
    ∷ add (nth v 6) (nth xs 6)
    ∷ add (nth v 7) (nth xs 7)
    ∷ []

-- The hash value after the block `b`.
unfoldable pub next_hash : List ℕ → List ℕ → List ℕ
unfolding constants schedule block_words working_variables
next_hash v b = added v (
    working_variables constants 0 (schedule 48 (block_words 16 0 b)) (nth v 0) (nth v 1) (nth v 2)
      (nth v 3) (nth v 4) (nth v 5) (nth v 6) (nth v 7))

-- The last `n` bytes of a number, big-endian.
abbrev pub big_endian : ℕ → ℕ → List ℕ
big_endian zero x = []
big_endian (suc n) x = x / 256 ^ n % 256 ∷ big_endian n x

abbrev pub all_big_endian : List ℕ → List ℕ
all_big_endian [] = []
all_big_endian (x ∷ xs) = big_endian 4 x ++ all_big_endian xs

-- A one bit, the fewest zeros that leave eight bytes of the last block, and the length in bits.
abbrev pub pad : List ℕ → List ℕ
pad m = m ++ (128 ∷ (replicate ((119 - length m % 64) % 64) 0 ++ big_endian 8 (8 * length m)))

unfoldable pub hash_value : ℕ → List ℕ → List ℕ → List ℕ
hash_value zero v bs = v
hash_value (suc n) v bs = hash_value n (next_hash v (take 64 bs)) (drop 64 bs)

unfoldable pub fips_digest : List ℕ → List ℕ
unfolding hash_value
fips_digest m = all_big_endian (hash_value (length (pad m) / 64) start_hash (pad m))
