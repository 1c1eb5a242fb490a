-- ===== src/Sha256/Standard.antt =====
-- The compression function and the digest of zkt/kernel/sha256.c are those of FIPS 180-4.
use manios.Base.{
  ℕ, zero, suc, ◌+◌, ◌-◌, ◌*◌, ◌/◌, ◌%◌, ◌^◌, ◌≡◌, refl, ap, ◌∙◌, List, [], ◌∷◌, ◌++◌, arith,
  get_or, length, take, drop, replicate,
}
use manios.Sha256.{initial_hash, be32, be32_all}
use manios.Sha256.Compress.{
  round_keys, ror, word_at, load, next_word, extend, Working, round, rounds, working, compress,
}
use manios.Sha256.Blocks.{hash_blocks, be64, padded, digest}
use manios.Sha256.Fips.{
  root, square_roots, cube_roots, constants, start_hash, block_words, schedule, working_variables,
  next_hash, big_endian, all_big_endian, pad, nth, added, hash_value, fips_digest,
}

keys_eq : round_keys ≡ constants
unfolding constants cube_roots root
keys_eq = refl

start_eq : initial_hash ≡ start_hash
unfolding start_hash square_roots root
start_eq = refl

load_eq : (n t : ℕ) (p : List ℕ) → load n t p ≡ block_words n t p
unfolding load word_at block_words
load_eq zero t p = refl
load_eq (suc n) t p = ap (λ ws. word_at p (4 * t) ∷ ws) (load_eq n (t + 1) p)

extend_eq : (n : ℕ) (w : List ℕ) → extend n w ≡ schedule n w
unfolding extend next_word ror schedule
extend_eq zero w = refl
extend_eq (suc n) w = extend_eq n (w ++ (next_word w ∷ []))

abbrev variables : Working → List ℕ
variables s = s.a ∷ s.b ∷ s.c ∷ s.d ∷ s.e ∷ s.f ∷ s.g ∷ s.h ∷ []

rounds_eq :
    (ks : List ℕ) (t : ℕ) (w : List ℕ) (s : Working)
    → variables (rounds ks t w s) ≡ working_variables ks t w s.a s.b s.c s.d s.e s.f s.g s.h
unfolding rounds round ror working_variables
rounds_eq [] t w s = refl
rounds_eq (k ∷ ks) t w s = rounds_eq ks (t + 1) w (round s k (get_or w t 0))

pub compress-next_hash : (h p : List ℕ) → compress h p ≡ next_hash h p
unfolding compress next_hash
compress-next_hash h p = ap (added h) (
    rounds_eq round_keys 0 (extend 48 (load 16 0 p)) (working h)
    ∙ ap (λ ks. from_words ks (extend 48 (load 16 0 p))) keys_eq
    ∙ ap (from_words constants) (extend_eq 48 (load 16 0 p) ∙ ap (schedule 48) (load_eq 16 0 p)))
  where
    from_words : List ℕ → List ℕ → List ℕ
    from_words ks w =
        working_variables ks 0 w (nth h 0) (nth h 1) (nth h 2) (nth h 3) (nth h 4) (nth h 5)
          (nth h 6) (nth h 7)

hash_blocks_eq : (n : ℕ) (h bs : List ℕ) → hash_blocks n h bs ≡ hash_value n h bs
unfolding hash_blocks hash_value
hash_blocks_eq zero h bs = refl
hash_blocks_eq (suc n) h bs =
    hash_blocks_eq n (compress h (take 64 bs)) (drop 64 bs)
    ∙ ap (λ v. hash_value n v (drop 64 bs)) (compress-next_hash h (take 64 bs))

over_one : (x : ℕ) → x ≡ x / 1
over_one x = omega arith

length_eq : (x : ℕ) → be64 x ≡ big_endian 8 x
length_eq x =
    ap
      (λ b.
        x / 2 ^ 56 % 256
        ∷ x / 2 ^ 48 % 256
        ∷ x / 2 ^ 40 % 256
        ∷ x / 2 ^ 32 % 256
        ∷ x / 2 ^ 24 % 256
        ∷ x / 2 ^ 16 % 256
        ∷ x / 2 ^ 8 % 256
        ∷ b % 256
        ∷ [])
      (over_one x)

bytes_eq : (xs : List ℕ) → be32_all xs ≡ all_big_endian xs
unfolding be32_all be32
bytes_eq [] = refl
bytes_eq (x ∷ xs) =
    ap (λ b. (x / 2 ^ 24 % 256 ∷ x / 2 ^ 16 % 256 ∷ x / 2 ^ 8 % 256 ∷ b % 256 ∷ []) ++ be32_all xs)
      (over_one x)
    ∙ ap (λ bs. big_endian 4 x ++ bs) (bytes_eq xs)

pad_eq : (m : List ℕ) → padded m ≡ pad m
pad_eq m =
    ap (λ n. m ++ (128 ∷ (replicate n 0 ++ be64 (8 * length m)))) zeros_eq
    ∙ ap (λ r. m ++ (128 ∷ (replicate ((119 - length m % 64) % 64) 0 ++ r)))
        (length_eq (8 * length m))
  where
    zeros_eq : (64 + 56 - (length m + 1) % 64) % 64 ≡ (119 - length m % 64) % 64
    zeros_eq = omega arith

pub digest-fips_digest : (m : List ℕ) → digest m ≡ fips_digest m
unfolding digest fips_digest
digest-fips_digest m =
    bytes_eq (hash_blocks (length (padded m) / 64) initial_hash (padded m))
    ∙ ap all_big_endian (
        hash_blocks_eq (length (padded m) / 64) initial_hash (padded m)
        ∙ ap (λ v. hash_value (length (padded m) / 64) v (padded m)) start_eq
        ∙ ap (λ bs. hash_value (length bs / 64) start_hash bs) (pad_eq m))
