-- ===== src/Namespace/CleanPath/Names.antt =====
-- What a path means: the names between its slashes, followed one after the other from the root.
use manios.Base.{
  ℕ, ◌+◌, ◌≡◌, refl, sym, ◌∙◌, inl, inr, false, ◌||◌, List, [], ◌∷◌, ◌++◌, ltb, ◌==◌, if◌then◌else◌,
  length, Option, none, some, Bool-cases, ap, All,
}
use manios.Namespace.CleanPath.{
  Cleaned, cleaned, name_too_long, name_max, path_max, is_slash, is_dot, is_dotdot, skip_slashes,
  name_of, after_name,
}

add_byte : ℕ → List (List ℕ) → List (List ℕ)
add_byte c [] = (c ∷ []) ∷ []
add_byte c (n ∷ ns) = (c ∷ n) ∷ ns

-- The names between the slashes, the empty ones too.
unfoldable pub names : List ℕ → List (List ℕ)
unfolding add_byte
names [] = [] ∷ []
names (c ∷ p) = if is_slash c then [] ∷ names p else add_byte c (names p)

abbrev pub up : List (List ℕ) → List (List ℕ)
up [] = []
up (n ∷ s) = s

-- The path of the names from the root, the last name first in the list.
unfoldable pub below_root : List (List ℕ) → List ℕ
below_root [] = []
below_root (n ∷ s) = below_root s ++ (b'/' ∷ n)

unfoldable pub path_to : List (List ℕ) → List ℕ
unfolding below_root
path_to [] = b'/' ∷ []
path_to (n ∷ s) = below_root (n ∷ s)

-- An empty name and "." stay, ".." goes up, any other name down, within the limits.
unfoldable pub follow : List (List ℕ) → List ℕ → Option (List (List ℕ))
unfolding path_to
follow s n =
    if length n == 0 || is_dot n
    then some s
    else if is_dotdot n
    then some (up s)
    else if ltb name_max (length n) || ltb path_max (length (path_to s) + 1 + length n)
    then none
    else some (n ∷ s)

abbrev pub and_then : {A B : Type 0} → Option A → (A → Option B) → Option B
and_then none f = none
and_then (some s) f = f s

unfoldable pub follow_all : List (List ℕ) → List (List ℕ) → Option (List (List ℕ))
follow_all s [] = some s
follow_all s (n ∷ ns) = and_then (follow s n) (λ s'. follow_all s' ns)

unfoldable pub outcome : Option (List (List ℕ)) → Cleaned
outcome none = name_too_long
outcome (some s) = cleaned (path_to s)

pub follow_nil : (s : List (List ℕ)) → follow s [] ≡ some s
unfolding follow
follow_nil s = refl

follow_all_empty :
    (s : List (List ℕ)) (ns : List (List ℕ)) → follow_all s ([] ∷ ns) ≡ follow_all s ns
unfolding follow_all
follow_all_empty s ns = rw (follow_nil s) refl

after_names : List ℕ → List (List ℕ)
after_names [] = []
after_names (c ∷ p) = names p

names-name_of : (p : List ℕ) → names p ≡ name_of p ∷ after_names (after_name p)
unfolding names name_of after_name after_names add_byte
names-name_of [] = refl
names-name_of (c ∷ p) = elim (Bool-cases (is_slash c)) [
  | inl y ↦ rw y refl
  | inr y ↦ rw y (ap (add_byte c) (names-name_of p))
]

follow_all-after_names :
    (s : List (List ℕ)) (p : List ℕ)
    → follow_all s (after_names (after_name p)) ≡ follow_all s (names (after_name p))
unfolding names after_name after_names
follow_all-after_names s [] = sym (follow_all_empty s [])
follow_all-after_names s (c ∷ p) = elim (Bool-cases (is_slash c)) [
  | inl y ↦ rw (y, y) (sym (follow_all_empty s (names p)))
  | inr y ↦ rw y (follow_all-after_names s p)
]

-- The names of a path are its first and those of the rest.
pub follow_all-names :
    (s : List (List ℕ)) (p : List ℕ)
    → follow_all s (names p)
      ≡ and_then (follow s (name_of p)) (λ s'. follow_all s' (names (after_name p)))
unfolding follow_all
follow_all-names s p =
    rw (names-name_of p)
      (λ i. and_then (follow s (name_of p)) (λ s'. follow_all-after_names s' p i))

-- Slashes at the start say nothing.
pub follow_all-skip_slashes :
    (s : List (List ℕ)) (p : List ℕ)
    → follow_all s (names (skip_slashes p)) ≡ follow_all s (names p)
unfolding names skip_slashes
follow_all-skip_slashes s [] = refl
follow_all-skip_slashes s (c ∷ p) = elim (Bool-cases (is_slash c)) [
  | inl y ↦ rw y (follow_all-skip_slashes s p ∙ sym (follow_all_empty s (names p)))
  | inr y ↦ rw y (rw y refl)
]

abbrev pub NoSlash : List ℕ → Type 0
NoSlash n = All (λ c. is_slash c ≡ false) n

pub names-NoSlash : (p : List ℕ) → All NoSlash (names p)
unfolding names add_byte
names-NoSlash [] = (tt, tt)
names-NoSlash (c ∷ p) = elim (Bool-cases (is_slash c)) [
  | inl y ↦ rw y (tt, names-NoSlash p)
  | inr y ↦ rw y (add_byte-NoSlash (names p) y (names-NoSlash p))
]
  where
    add_byte-NoSlash :
        (ns : List (List ℕ)) → is_slash c ≡ false → All NoSlash ns → All NoSlash (add_byte c ns)
    add_byte-NoSlash [] y h = ((y, tt), tt)
    add_byte-NoSlash (n ∷ ns) y h = ((y, h.0), h.1)

names_one : (n : List ℕ) → NoSlash n → names n ≡ n ∷ []
unfolding names add_byte
names_one [] h = refl
names_one (c ∷ n) h = rw (h.0, names_one n h.1) refl

-- A name behind a slash is the last of the names.
pub names-slash : (p n : List ℕ) → NoSlash n → names (p ++ (b'/' ∷ n)) ≡ names p ++ (n ∷ [])
unfolding names add_byte
names-slash [] n h = rw (names_one n h) refl
names-slash (c ∷ p) n h = elim (Bool-cases (is_slash c)) [
  | inl y ↦ rw y (ap (λ ns. [] ∷ ns) (names-slash p n h))
  | inr y ↦ rw (y, names-slash p n h, names-name_of p) refl
]

pub follow_all_root : follow_all [] (names []) ≡ some []
unfolding names follow_all follow
follow_all_root = refl

pub follow_all_slash : follow_all [] (names (b'/' ∷ [])) ≡ some []
unfolding names follow_all follow
follow_all_slash = refl
