-- ===== src/Base/Bytes.antt =====
-- Buffers: `memcpy` into one, and the stretches of it before and after the copy.
use manios.Base.Lists.{length, take, drop, get_or}
use Prim.Native.Nat.{ℕ, zero, suc, ◌+◌, ◌≤◌}
use mathlib.Core.Path.{◌≡◌, refl, ap, ◌∙◌}
use mathlib.Core.List.{List, [], ◌∷◌, ◌++◌}
use native.Mathlib.Omega.{arith}

-- memcpy(buf + i, bs, length bs); what would lie past the end of the buffer is not written.
abbrev pub blit {ℓ} : {A : Type ℓ} → List A → ℕ → List A → List A
blit [] i bs = []
blit (x ∷ xs) zero [] = x ∷ xs
blit (x ∷ xs) zero (b ∷ bs) = b ∷ blit xs zero bs
blit (x ∷ xs) (suc i) bs = x ∷ blit xs i bs

module _ {ℓ} {A : Type ℓ} where
  pub length-blit : (xs : List A) (i : ℕ) (bs : List A) → length (blit xs i bs) ≡ length xs
  length-blit [] i bs = refl
  length-blit (x ∷ xs) zero [] = refl
  length-blit (x ∷ xs) zero (b ∷ bs) = ap suc (length-blit xs zero bs)
  length-blit (x ∷ xs) (suc i) bs = ap suc (length-blit xs i bs)

  -- The first `k` elements, where the copy ends at `k`.
  pub take-blit :
      (xs : List A) (i k : ℕ) (bs : List A)
      → k ≡ i + length bs
      → k ≤ length xs
      → take k (blit xs i bs) ≡ take i xs ++ bs
  take-blit [] zero zero [] e h = refl
  take-blit [] zero zero (b ∷ bs) e h = absurd (omega arith)
  take-blit [] (suc i) zero bs e h = absurd (omega arith)
  take-blit [] i (suc k) bs e h = elim h [ ]
  take-blit (x ∷ xs) zero zero [] e h = refl
  take-blit (x ∷ xs) zero (suc k) [] e h = absurd (omega arith)
  take-blit (x ∷ xs) zero zero (b ∷ bs) e h = absurd (omega arith)
  take-blit (x ∷ xs) zero (suc k) (b ∷ bs) e h =
      ap (λ t. b ∷ t) (take-blit xs zero k bs (omega arith) (omega arith))
  take-blit (x ∷ xs) (suc i) zero bs e h = absurd (omega arith)
  take-blit (x ∷ xs) (suc i) (suc k) bs e h =
      ap (λ t. x ∷ t) (take-blit xs i k bs (omega arith) (omega arith))

  -- What stands past the copy is kept.
  pub drop-blit :
      (xs : List A) (i k : ℕ) (bs : List A) → i + length bs ≤ k → drop k (blit xs i bs) ≡ drop k xs
  drop-blit [] i k bs h = refl
  drop-blit (x ∷ xs) zero k [] h = refl
  drop-blit (x ∷ xs) zero zero (b ∷ bs) h = absurd (omega arith)
  drop-blit (x ∷ xs) zero (suc k) (b ∷ bs) h = drop-blit xs zero k bs (omega arith)
  drop-blit (x ∷ xs) (suc i) zero bs h = absurd (omega arith)
  drop-blit (x ∷ xs) (suc i) (suc k) bs h = drop-blit xs i k bs (omega arith)

  pub blit-nil : (xs : List A) (i : ℕ) → blit xs i [] ≡ xs
  blit-nil [] i = refl
  blit-nil (x ∷ xs) zero = refl
  blit-nil (x ∷ xs) (suc i) = ap (λ t. x ∷ t) (blit-nil xs i)

  -- Two copies in a row are one copy.
  pub blit-blit :
      (xs : List A) (i k : ℕ) (ys zs : List A)
      → k ≡ i + length ys
      → blit (blit xs i ys) k zs ≡ blit xs i (ys ++ zs)
  blit-blit [] i k ys zs e = refl
  blit-blit (x ∷ xs) zero zero [] zs e = refl
  blit-blit (x ∷ xs) zero (suc k) [] zs e = absurd (omega arith)
  blit-blit (x ∷ xs) zero zero (y ∷ ys) zs e = absurd (omega arith)
  blit-blit (x ∷ xs) zero (suc k) (y ∷ ys) zs e =
      ap (λ t. y ∷ t) (blit-blit xs zero k ys zs (omega arith))
  blit-blit (x ∷ xs) (suc i) zero ys zs e = absurd (omega arith)
  blit-blit (x ∷ xs) (suc i) (suc k) ys zs e =
      ap (λ t. x ∷ t) (blit-blit xs i k ys zs (omega arith))

  pub drop-drop : (xs : List A) (i n k : ℕ) → k ≡ i + n → drop k xs ≡ drop n (drop i xs)
  drop-drop xs zero n k e = let e' : k ≡ n = omega arith in rw e'
  drop-drop xs (suc i) n zero e = absurd (omega arith)
  drop-drop [] (suc i) zero (suc k) e = refl
  drop-drop [] (suc i) (suc n) (suc k) e = refl
  drop-drop (x ∷ xs) (suc i) n (suc k) e = drop-drop xs i n k (omega arith)

  pub drop-length : (ys zs : List A) → drop (length ys) (ys ++ zs) ≡ zs
  drop-length [] zs = refl
  drop-length (y ∷ ys) zs = drop-length ys zs

  pub take-length : (ys zs : List A) → take (length ys) (ys ++ zs) ≡ ys
  take-length [] zs = refl
  take-length (y ∷ ys) zs = ap (λ t. y ∷ t) (take-length ys zs)

  -- Reading past a prefix that has been found at `i`.
  pub drop-past :
      (xs : List A) (i : ℕ) (ys zs : List A) → drop i xs ≡ ys ++ zs → drop (i + length ys) xs ≡ zs
  drop-past xs i ys zs e =
      drop-drop xs i (length ys) (i + length ys) refl ∙ rw e (drop-length ys zs)

  pub get_or-drop :
      (xs : List A) (i : ℕ) (d y : A) (ys : List A) → drop i xs ≡ y ∷ ys → get_or xs i d ≡ y
  get_or-drop [] zero d y ys e = cc
  get_or-drop [] (suc i) d y ys e = cc
  get_or-drop (x ∷ xs) zero d y ys e = cc
  get_or-drop (x ∷ xs) (suc i) d y ys e = get_or-drop xs i d y ys e

  -- The stretch that a copy has written.
  pub take-drop-blit :
      (xs : List A) (i : ℕ) (ys : List A)
      → i + length ys ≤ length xs
      → take (length ys) (drop i (blit xs i ys)) ≡ ys
  take-drop-blit [] zero [] h = refl
  take-drop-blit [] zero (y ∷ ys) h = absurd (omega arith)
  take-drop-blit [] (suc i) ys h = absurd (omega arith)
  take-drop-blit (x ∷ xs) zero [] h = refl
  take-drop-blit (x ∷ xs) zero (y ∷ ys) h =
      ap (λ t. y ∷ t) (take-drop-blit xs zero ys (omega arith))
  take-drop-blit (x ∷ xs) (suc i) ys h = take-drop-blit xs i ys (omega arith)

  pub blit_zero :
      (xs ys : List A) → length ys ≤ length xs → blit xs 0 ys ≡ ys ++ drop (length ys) xs
  blit_zero [] [] h = refl
  blit_zero [] (y ∷ ys) h = absurd (omega arith)
  blit_zero (x ∷ xs) [] h = refl
  blit_zero (x ∷ xs) (y ∷ ys) h = ap (λ t. y ∷ t) (blit_zero xs ys (omega arith))

  pub take-append :
      (k n : ℕ) (ys zs : List A) → k ≡ length ys + n → take k (ys ++ zs) ≡ ys ++ take n zs
  take-append k n [] zs e = let e' : k ≡ n = omega arith in rw e'
  take-append zero n (y ∷ ys) zs e = absurd (omega arith)
  take-append (suc k) n (y ∷ ys) zs e = ap (λ t. y ∷ t) (take-append k n ys zs (omega arith))
