-- ===== src/Namespace/CleanPath/Canonical.antt =====
-- The paths that vfs_clean_path gives.
use manios.Base.{
  ℕ, ◌+◌, ◌≤◌, ◌<◌, ◌≡◌, refl, sym, ◌∙◌, inl, inr, Bool, true, false, ◌||◌, List, [], ◌∷◌, ◌++◌,
  ltb, ◌==◌, if◌then◌else◌, get_or, length, Option, none, some, Bool-cases, arith, All,
  length-append, append_assoc,
}
use manios.Namespace.CleanPath.{
  cleaned, not_absolute, name_max, path_max, is_slash, is_dot, is_dotdot, clean_path,
}
use manios.Namespace.CleanPath.Names.{
  names, up, below_root, path_to, follow, follow_all, outcome, and_then, names-NoSlash, names-slash,
  NoSlash, follow_all_root, follow_all_slash,
}
use manios.Namespace.CleanPath.Loop.{clean_path-meaning}

-- A name that goes down, below the names of `s`.
pub record IsStep (s : List (List ℕ)) (n : List ℕ) : Type 0 where
  pub not_empty : 0 < length n
  pub no_slash : NoSlash n
  pub not_dot : is_dot n ≡ false
  pub not_dotdot : is_dotdot n ≡ false
  pub name_fits : length n ≤ name_max
  pub path_fits : length (path_to s) + 1 + length n ≤ path_max

abbrev pub Canonical : List (List ℕ) → Type 0
Canonical [] = Unit
Canonical (n ∷ s) = IsStep s n × Canonical s

abbrev pub AllCanonical : Option (List (List ℕ)) → Type 0
AllCanonical none = Unit
AllCanonical (some s) = Canonical s

follow-Canonical :
    (s : List (List ℕ)) (n : List ℕ) → Canonical s → NoSlash n → AllCanonical (follow s n)
unfolding follow
follow-Canonical s [] g f = g
follow-Canonical s (c ∷ n) g f = elim (Bool-cases (length (c ∷ n) == 0 || is_dot (c ∷ n))) [
  | inl y ↦ rw y g
  | inr y ↦ rw y (elim (Bool-cases (is_dotdot (c ∷ n))) [
    | inl z ↦ rw z (up-Canonical s g)
    | inr z ↦
        rw z
          (elim (Bool-cases (
            ltb name_max (length (c ∷ n))
            || ltb path_max (length (path_to s) + 1 + length (c ∷ n)))) [
              | inl w ↦ rw w tt
              | inr w ↦ rw w (
                record {
                  not_empty = omega arith;
                  no_slash = f;
                  not_dot = ground (arith, y);
                  not_dotdot = z;
                  name_fits = ground (arith, w);
                  path_fits = ground (arith, w);
                },
                g,
              )
            ])
  ])
]
  where
    up-Canonical : (s : List (List ℕ)) → Canonical s → Canonical (up s)
    up-Canonical [] g = tt
    up-Canonical (n ∷ s) g = g.1

follow_all-Canonical :
    (s ns : List (List ℕ)) → Canonical s → All NoSlash ns → AllCanonical (follow_all s ns)
unfolding follow_all
follow_all-Canonical s [] g f = g
follow_all-Canonical s (n ∷ ns) g f =
    go (follow s n) (follow-Canonical s n g f.0) (λ t h. follow_all-Canonical t ns h f.1)
  where
    go :
        (o : Option (List (List ℕ)))
        → AllCanonical o
        → ((t : List (List ℕ)) → Canonical t → AllCanonical (follow_all t ns))
        → AllCanonical (and_then o (λ t. follow_all t ns))
    go none h rest = tt
    go (some t) h rest = rest t h

-- The step is taken.
follow-IsStep : (s : List (List ℕ)) (n : List ℕ) → IsStep s n → follow s n ≡ some (n ∷ s)
unfolding follow
follow-IsStep s n h = rw (counts, h.not_dotdot, fits) refl
  where
    counts : (length n == 0 || is_dot n) ≡ false
    counts = ground (arith, h.not_empty, h.not_dot)

    fits : (ltb name_max (length n) || ltb path_max (length (path_to s) + 1 + length n)) ≡ false
    fits = ground (arith, h.name_fits, h.path_fits)

follow_all-snoc :
    (s ns : List (List ℕ)) (n : List ℕ)
    → follow_all s (ns ++ (n ∷ [])) ≡ and_then (follow_all s ns) (λ t. follow t n)
unfolding follow_all
follow_all-snoc s [] n = go (follow s n)
  where
    go : (o : Option (List (List ℕ))) → and_then o (λ t. some t) ≡ o
    go none = refl
    go (some t) = refl
follow_all-snoc s (m ∷ ns) n = go (follow s m) (λ t. follow_all-snoc t ns n)
  where
    go :
        (o : Option (List (List ℕ)))
        → ((t : List (List ℕ))
            → follow_all t (ns ++ (n ∷ [])) ≡ and_then (follow_all t ns) (λ t'. follow t' n))
        → and_then o (λ t. follow_all t (ns ++ (n ∷ [])))
          ≡ and_then (and_then o (λ t. follow_all t ns)) (λ t. follow t n)
    go none rest = refl
    go (some t) rest = rest t

follow_all-below_root :
    (s : List (List ℕ)) → Canonical s → follow_all [] (names (below_root s)) ≡ some s
unfolding below_root
follow_all-below_root [] g = follow_all_root
follow_all-below_root (n ∷ s) g = rw (names-slash (below_root s) n g.0.no_slash) (
    follow_all-snoc [] (names (below_root s)) n
    ∙ rw (follow_all-below_root s g.1) (follow-IsStep s n g.0))

follow_all-path_to : (s : List (List ℕ)) → Canonical s → follow_all [] (names (path_to s)) ≡ some s
unfolding path_to
follow_all-path_to [] g = follow_all_slash
follow_all-path_to (n ∷ s) g = follow_all-below_root (n ∷ s) g

-- A path starts with a slash.
slash_first : (s : List (List ℕ)) (n : List ℕ) → get_or (below_root s ++ (b'/' ∷ n)) 0 0 ≡ b'/'
unfolding below_root
slash_first [] n = refl
slash_first (m ∷ s) n =
    rw (append_assoc (below_root s) (b'/' ∷ m) (b'/' ∷ n)) (slash_first s (m ++ (b'/' ∷ n)))

path_to_slash : (s : List (List ℕ)) → get_or (path_to s) 0 0 ≡ b'/'
unfolding path_to below_root
path_to_slash [] = refl
path_to_slash (n ∷ s) = slash_first s n

length-path_to : (s : List (List ℕ)) → Canonical s → length (path_to s) ≤ path_max
unfolding path_to below_root
length-path_to [] g = omega arith
length-path_to (n ∷ []) g = omega (arith, g.0.path_fits)
length-path_to (n ∷ m ∷ s) g =
    omega (arith, g.0.path_fits, length-append (below_root (m ∷ s)) (b'/' ∷ n))

-- The names that a result stands for.
outcome-Canonical :
    (o : Option (List (List ℕ))) (out : List ℕ)
    → AllCanonical o
    → outcome o ≡ cleaned out
    → (s : List (List ℕ)) × (out ≡ path_to s) × Canonical s
unfolding outcome
outcome-Canonical none out g e = absurd cc
outcome-Canonical (some s) out g e = (s, cc, g)

absolute :
    (slash : Bool) (o : Option (List (List ℕ))) (out : List ℕ)
    → (if slash then outcome o else not_absolute) ≡ cleaned out
    → outcome o ≡ cleaned out
absolute true o out e = e
absolute false o out e = absurd cc

-- The path of such names, within the limit.
abbrev pub IsCleanPath : List ℕ → Type 0
IsCleanPath out = (s : List (List ℕ)) × (out ≡ path_to s) × Canonical s × (length out ≤ path_max)

-- What vfs_clean_path gives is the path of some names, in their order from the root: each is not
-- empty, holds no slash, is neither "." nor ".." and has at most 63 bytes. The path has at most 255
-- bytes, which is what a buffer of VFS_PATH_MAX + 1 bytes holds with the NUL.
pub clean_path-IsCleanPath : (path out : List ℕ) → clean_path path ≡ cleaned out → IsCleanPath out
clean_path-IsCleanPath path out e =
    let (s, o, g) =
      outcome-Canonical (follow_all [] (names path)) out
        (follow_all-Canonical [] (names path) tt (names-NoSlash path))
        (absolute (is_slash (get_or path 0 0)) (follow_all [] (names path)) out
          (sym (clean_path-meaning path) ∙ e)) in
    (s, o, g, rw o (length-path_to s g))

-- A path that vfs_clean_path has cleaned is left as it is.
pub clean_path_idempotent :
    (path out : List ℕ) → clean_path path ≡ cleaned out → clean_path out ≡ cleaned out
unfolding outcome
clean_path_idempotent path out e =
    let (s, o, g, h) = clean_path-IsCleanPath path out e in
    rw o (clean_path-meaning (path_to s) ∙ rw (path_to_slash s, follow_all-path_to s g) refl)

-- The names of a path lead to such names.
pub follow_all-AllCanonical : (path : List ℕ) → AllCanonical (follow_all [] (names path))
follow_all-AllCanonical path = follow_all-Canonical [] (names path) tt (names-NoSlash path)
