-- ===== src/Ramfs/Names.antt =====
-- The elements of a path, which make_path takes one by one.
use manios.Base.{
  ℕ, ◌≤◌, ◌≡◌, refl, ap, ◌∙◌, inl, inr, true, false, List, [], ◌∷◌, arith, ◌==◌, if◌then◌else◌,
  length, Bool-cases,
}
use manios.Namespace.CleanPath.{name_of, after_name}
use manios.Ramfs.{skip_slash}

abbrev onto_first : ℕ → List (List ℕ) → List (List ℕ)
onto_first c [] = (c ∷ []) ∷ []
onto_first c (name ∷ names) = (c ∷ name) ∷ names

-- The path cut at every slash.
unfoldable pub pieces : List ℕ → List (List ℕ)
pieces [] = [] ∷ []
pieces (c ∷ path) = if c == b'/' then [] ∷ pieces path else onto_first c (pieces path)

abbrev nonempty : List (List ℕ) → List (List ℕ)
nonempty [] = []
nonempty ([] ∷ names) = nonempty names
nonempty ((c ∷ name) ∷ names) = (c ∷ name) ∷ nonempty names

unfoldable pub elements : List ℕ → List (List ℕ)
unfolding pieces
elements path = nonempty (pieces path)

abbrev pieces_after : List ℕ → List (List ℕ)
pieces_after [] = []
pieces_after (c ∷ path) = pieces path

pieces-name_of : (path : List ℕ) → pieces path ≡ name_of path ∷ pieces_after (after_name path)
unfolding pieces name_of after_name
pieces-name_of [] = refl
pieces-name_of (c ∷ path) = elim (Bool-cases (c == b'/')) [
  | inl e ↦ rw e refl
  | inr e ↦ rw (e, pieces-name_of path) refl
]

nonempty-after :
    (path : List ℕ)
    → nonempty (pieces_after (after_name path)) ≡ elements (skip_slash (after_name path))
unfolding elements pieces name_of after_name skip_slash
nonempty-after [] = refl
nonempty-after (c ∷ path) = elim (Bool-cases (c == b'/')) [
  | inl e ↦ rw e (rw e refl)
  | inr e ↦ rw e (nonempty-after path)
]

pub elements-empty :
    (path : List ℕ)
    → (length (name_of path) == 0) ≡ true
    → elements path ≡ elements (skip_slash (after_name path))
unfolding elements
elements-empty path h =
    ap nonempty (pieces-name_of path) ∙ by_name (name_of path) h ∙ nonempty-after path
  where
    by_name :
        (name : List ℕ)
        → (length name == 0) ≡ true
        → nonempty (name ∷ pieces_after (after_name path))
          ≡ nonempty (pieces_after (after_name path))
    by_name [] e = refl
    by_name (c ∷ name) e = absurd (ground (arith, e))

pub elements-name :
    (path : List ℕ)
    → (length (name_of path) == 0) ≡ false
    → elements path ≡ name_of path ∷ elements (skip_slash (after_name path))
unfolding elements
elements-name path h =
    ap nonempty (pieces-name_of path)
    ∙ by_name (name_of path) h
    ∙ ap (λ names. name_of path ∷ names) (nonempty-after path)
  where
    by_name :
        (name : List ℕ)
        → (length name == 0) ≡ false
        → nonempty (name ∷ pieces_after (after_name path))
          ≡ name ∷ nonempty (pieces_after (after_name path))
    by_name [] e = absurd (ground (arith, e))
    by_name (c ∷ name) e = refl

after_name_le : (path : List ℕ) → length (after_name path) ≤ length path
unfolding after_name
after_name_le [] = omega arith
after_name_le (c ∷ path) = ground (arith, after_name_le path)

skip_slash_le : (path : List ℕ) → length (skip_slash path) ≤ length path
unfolding skip_slash
skip_slash_le [] = omega arith
skip_slash_le (c ∷ path) = ground arith

-- Each round takes a byte at least.
pub shorter : (c : ℕ) (path : List ℕ) → length (skip_slash (after_name (c ∷ path))) ≤ length path
unfolding after_name skip_slash
shorter c path = elim (Bool-cases (c == b'/')) [
  | inl e ↦ rw e (rw e (omega arith))
  | inr e ↦
      let a = after_name_le path in
      let s = skip_slash_le (after_name path) in rw e (omega (arith, a, s))
]
