-- ===== src/Sha256/Secret.antt =====
-- equal_secret is equality.
use Prim.Native.Nat.{max, digits, differ, bit_or-bitwise, bit_xor-bitwise}
use mathlib.Core.Path.{subst}
use manios.Base.{
  ℕ, zero, suc, ◌/◌, ◌%◌, ◌≤◌, ◌<◌, ◌≡◌, ◌↔◌, refl, sym, ◌∙◌, bit_or, bit_xor, true, List, [], ◌∷◌,
  arith, length,
}
use manios.Sha256.{differences, equal_secret}

-- Digit by digit: `bit_or` is 0 where both are, and `bit_xor` where both are the same.
or_zero : (n a b : ℕ) → a ≤ n → digits (λ y. y) max n a b ≡ 0 → (a ≡ 0) × (b ≡ 0)
or_zero zero zero b h e = (refl, e)
or_zero zero (suc a) b h e = absurd (omega arith)
or_zero (suc n) zero b h e = (refl, e)
or_zero (suc n) (suc a) b h e =
    absurd (omega (arith, or_zero n (suc a / 2) (b / 2) (omega arith) (omega arith)))

differ_zero : (x y : ℕ) → x < 2 → y < 2 → differ x y ≡ 0 → x ≡ y
differ_zero zero y h k e = sym e
differ_zero (suc x) zero h k e = absurd (omega arith)
differ_zero (suc zero) (suc zero) h k e = refl
differ_zero (suc zero) (suc (suc y)) h k e = absurd (omega arith)
differ_zero (suc (suc x)) (suc y) h k e = absurd (omega arith)

xor_zero : (n a b : ℕ) → a ≤ n → digits (λ y. y) differ n a b ≡ 0 → a ≡ b
xor_zero zero zero b h e = sym e
xor_zero zero (suc a) b h e = absurd (omega arith)
xor_zero (suc n) zero b h e = sym e
xor_zero (suc n) (suc a) b h e = omega (
  arith,
  xor_zero n (suc a / 2) (b / 2) (omega arith) (omega arith),
  differ_zero (suc a % 2) (b % 2) (omega arith) (omega arith) (omega arith),
)

differ_self : (x : ℕ) → differ x x ≡ 0
differ_self zero = refl
differ_self (suc x) = differ_self x

xor_self : (n a : ℕ) → a ≤ n → digits (λ y. y) differ n a a ≡ 0
xor_self zero zero h = refl
xor_self zero (suc a) h = absurd (omega arith)
xor_self (suc n) zero h = refl
xor_self (suc n) (suc a) h =
    omega (arith, xor_self n (suc a / 2) (omega arith), differ_self (suc a % 2))

bit_or_zero : (a b : ℕ) → bit_or a b ≡ 0 → (a ≡ 0) × (b ≡ 0)
bit_or_zero a b e = or_zero a a b (omega arith) (sym (bit_or-bitwise a b) ∙ e)

bit_xor_zero : (a b : ℕ) → bit_xor a b ≡ 0 → a ≡ b
bit_xor_zero a b e = xor_zero a a b (omega arith) (sym (bit_xor-bitwise a b) ∙ e)

bit_xor_self : (a : ℕ) → bit_xor a a ≡ 0
bit_xor_self a = bit_xor-bitwise a a ∙ xor_self a a (omega arith)

no_difference :
    (diff : ℕ) (xs ys : List ℕ)
    → length xs ≡ length ys
    → differences diff xs ys ≡ 0
    → (diff ≡ 0) × (xs ≡ ys)
unfolding differences
no_difference diff [] [] l e = (e, refl)
no_difference diff [] (y ∷ ys) l e = absurd (omega arith)
no_difference diff (x ∷ xs) [] l e = absurd (omega arith)
no_difference diff (x ∷ xs) (y ∷ ys) l e =
    let (z, tails) = no_difference (bit_or diff (bit_xor x y)) xs ys (omega arith) e in
    let (d, same) = bit_or_zero diff (bit_xor x y) z in (d, cc (bit_xor_zero x y same, tails))

differences_self : (xs : List ℕ) → differences 0 xs xs ≡ 0
unfolding differences
differences_self [] = refl
differences_self (x ∷ xs) = rw (bit_xor_self x) (differences_self xs)

-- For as many bytes on both sides, equal_secret holds exactly where all bytes are the same.
pub equal_secret_iff :
    (xs ys : List ℕ) → length xs ≡ length ys → (equal_secret xs ys ≡ true) ↔ (xs ≡ ys)
unfolding equal_secret
equal_secret_iff xs ys l = (
  λ h. (no_difference 0 xs ys l (ground (arith, h))).1,
  λ e. ground (arith, subst (λ zs. differences 0 xs zs ≡ 0) e (differences_self xs)),
)
