-- ===== src/Namespace/CleanPath/Loop.antt =====
-- The loop of vfs_clean_path follows the names of the path.
use manios.Base.{
  ℕ, zero, suc, ◌+◌, ◌-◌, ◌≤◌, ◌<◌, ◌≡◌, refl, sym, ap, ◌∙◌, inl, inr, true, false, ◌||◌, List, [],
  ◌∷◌, ◌++◌, ltb, ◌==◌, if◌then◌else◌, get_or, take, length, Option, none, some, Bool-cases, arith,
  All, length-append, append_assoc,
}
use manios.Base.Bytes.{take-length}
use manios.Namespace.CleanPath.{
  Cleaned, cleaned, not_absolute, name_too_long, name_max, path_max, is_slash, is_dot, is_dotdot,
  skip_slashes, name_of, after_name, trim_name, drop_last, add_name, enter, clean_loop, clean_path,
}
use manios.Namespace.CleanPath.Names.{
  NoSlash, names, up, below_root, path_to, follow, follow_all, outcome, and_then, follow_all-names,
  follow_all-skip_slashes,
}

-- A name of a path: not empty, and without a slash.
abbrev pub IsName : List ℕ → Type 0
IsName n = (0 < length n) × NoSlash n

pub name_of-NoSlash : (p : List ℕ) → NoSlash (name_of p)
unfolding name_of
name_of-NoSlash [] = tt
name_of-NoSlash (c ∷ p) = elim (Bool-cases (is_slash c)) [
  | inl y ↦ rw y tt
  | inr y ↦ rw y (y, name_of-NoSlash p)
]

get_or-append :
    (xs ys : List ℕ) (i k : ℕ) → k ≡ length xs + i → get_or (xs ++ ys) k 0 ≡ get_or ys i 0
get_or-append [] ys i k e = let e' : k ≡ i = omega arith in rw e'
get_or-append (x ∷ xs) ys i zero e = absurd (omega arith)
get_or-append (x ∷ xs) ys i (suc k) e = get_or-append xs ys i k (omega arith)

get_or-NoSlash : (n : List ℕ) (i : ℕ) → i < length n → NoSlash n → is_slash (get_or n i 0) ≡ false
get_or-NoSlash [] i h f = absurd (omega arith)
get_or-NoSlash (c ∷ n) zero h f = f.0
get_or-NoSlash (c ∷ n) (suc i) h f = get_or-NoSlash n i (omega arith) f.1

-- The last name is passed, up to the slash before it.
trim_name-slash :
    (b n : List ℕ) (k m : ℕ)
    → m ≡ length b + k
    → k ≤ length n
    → NoSlash n
    → trim_name (b ++ (b'/' ∷ n)) (suc m) ≡ suc (length b)
unfolding trim_name
trim_name-slash b n zero m e h f =
    rw (get_or-append b (b'/' ∷ n) 0 m e) (elim (Bool-cases (ltb 1 (suc m))) [
      | inl y ↦ rw y (omega arith)
      | inr y ↦ rw y (omega arith)
    ])
trim_name-slash b n (suc k) zero e h f = absurd (omega arith)
trim_name-slash b n (suc k) (suc m) e h f =
    rw
      (
        get_or-append b (b'/' ∷ n) (suc k) (suc m) e,
        get_or-NoSlash n k (omega arith) f,
        lt→true (omega arith),
      )
      (trim_name-slash b n k m (omega arith) (omega arith) f)
  where
    lt→true : 1 < suc (suc m) → ltb 1 (suc (suc m)) ≡ true
    lt→true g = ground arith

drop_last-slash :
    (b n : List ℕ)
    → NoSlash n
    → drop_last (b ++ (b'/' ∷ n))
      ≡ take (if ltb 1 (suc (length b)) then length b else suc (length b)) (b ++ (b'/' ∷ n))
unfolding drop_last
drop_last-slash b n f =
    let e : length (b ++ (b'/' ∷ n)) ≡ suc (length b + length n) =
      omega (arith, length-append b (b'/' ∷ n)) in
    rw (e, trim_name-slash b n (length n) (length b + length n) refl (omega arith) f, suc-minus)
      refl
  where
    suc-minus : suc (length b) - 1 ≡ length b
    suc-minus = omega arith

drop_last_root : drop_last (b'/' ∷ []) ≡ b'/' ∷ []
unfolding drop_last trim_name
drop_last_root = refl

drop_last-path_to : (s : List (List ℕ)) → All IsName s → drop_last (path_to s) ≡ path_to (up s)
unfolding path_to below_root
drop_last-path_to [] g = drop_last_root
drop_last-path_to (n ∷ []) g = drop_last-slash [] n g.0.1
drop_last-path_to (n ∷ m ∷ s) g =
    let long : ltb 1 (suc (length (below_root (m ∷ s)))) ≡ true =
      ground (arith, length-append (below_root s) (b'/' ∷ m)) in
    drop_last-slash (below_root (m ∷ s)) n g.0.1 ∙ rw long (take-length (below_root (m ∷ s)) _)

add_name-path_to :
    (s : List (List ℕ)) (n : List ℕ) → All IsName s → add_name (path_to s) n ≡ path_to (n ∷ s)
unfolding path_to below_root
add_name-path_to [] n g = refl
add_name-path_to (m ∷ s) n g =
    let long : ltb 1 (length (below_root s ++ (b'/' ∷ m))) ≡ true =
      ground (arith, length-append (below_root s) (b'/' ∷ m), g.0.0) in
    rw long (append_assoc _ (b'/' ∷ []) n)

pub enter-follow :
    (s : List (List ℕ)) (n : List ℕ)
    → All IsName s
    → NoSlash n
    → enter (path_to s) n ≡ and_then (follow s n) (λ t. some (path_to t))
unfolding enter follow
enter-follow s n g f = elim (Bool-cases (length n == 0 || is_dot n)) [
  | inl y ↦ rw y refl
  | inr y ↦ rw y (elim (Bool-cases (is_dotdot n)) [
    | inl z ↦ rw z (ap some (drop_last-path_to s g))
    | inr z ↦
        rw z
          (elim (Bool-cases
            (ltb name_max (length n) || ltb path_max (length (path_to s) + 1 + length n))) [
              | inl w ↦ rw w refl
              | inr w ↦ rw w (ap some (add_name-path_to s n g))
            ])
  ])
]

abbrev AllNames : Option (List (List ℕ)) → Type 0
AllNames none = Unit
AllNames (some s) = All IsName s

follow-AllNames :
    (s : List (List ℕ)) (n : List ℕ) → All IsName s → NoSlash n → AllNames (follow s n)
unfolding follow
follow-AllNames s [] g f = g
follow-AllNames s (c ∷ n) g f = elim (Bool-cases (length (c ∷ n) == 0 || is_dot (c ∷ n))) [
  | inl y ↦ rw y g
  | inr y ↦ rw y (elim (Bool-cases (is_dotdot (c ∷ n))) [
    | inl z ↦ rw z (up-IsName s g)
    | inr z ↦
        rw z
          (elim (Bool-cases (
            ltb name_max (length (c ∷ n))
            || ltb path_max (length (path_to s) + 1 + length (c ∷ n)))) [
              | inl w ↦ rw w tt
              | inr w ↦ rw w ((omega arith, f), g)
            ])
  ])
]
  where
    up-IsName : (s : List (List ℕ)) → All IsName s → All IsName (up s)
    up-IsName [] g = tt
    up-IsName (n ∷ s) g = g.1

length-after_name : (p : List ℕ) → length (after_name p) ≤ length p
unfolding after_name
length-after_name [] = omega arith
length-after_name (c ∷ p) = elim (Bool-cases (is_slash c)) [
  | inl y ↦ rw y (omega arith)
  | inr y ↦ rw y (omega (arith, length-after_name p))
]

length-skip_slashes : (p : List ℕ) → length (skip_slashes p) ≤ length p
unfolding skip_slashes
length-skip_slashes [] = omega arith
length-skip_slashes (c ∷ p) = elim (Bool-cases (is_slash c)) [
  | inl y ↦ rw y (omega (arith, length-skip_slashes p))
  | inr y ↦ rw y (omega arith)
]

-- A round passes a byte at least.
length-round : (c : ℕ) (p : List ℕ) → length (after_name (skip_slashes (c ∷ p))) ≤ length p
unfolding skip_slashes after_name
length-round c p = elim (Bool-cases (is_slash c)) [
  | inl y ↦ rw y (omega (arith, length-after_name (skip_slashes p), length-skip_slashes p))
  | inr y ↦ rw (y, y) (length-after_name p)
]

clean_round :
    (fuel : ℕ) (p : List ℕ) (o : Option (List (List ℕ)))
    → ((s : List (List ℕ))
        → All IsName s
        → clean_loop fuel p (path_to s) ≡ outcome (follow_all s (names p)))
    → AllNames o
    → elim (and_then o (λ t. some (path_to t))) [
      | none ↦ name_too_long
      | some out ↦ clean_loop fuel p out
    ]
      ≡ outcome (and_then o (λ t. follow_all t (names p)))
unfolding outcome
clean_round fuel p none rest g = refl
clean_round fuel p (some s) rest g = rest s g

follow_all_end : (s : List (List ℕ)) → cleaned (path_to s) ≡ outcome (follow_all s (names []))
unfolding names outcome follow_all follow
follow_all_end s = refl

clean_loop-follow_all :
    (fuel : ℕ) (p : List ℕ) (s : List (List ℕ))
    → length p ≤ fuel
    → All IsName s
    → clean_loop fuel p (path_to s) ≡ outcome (follow_all s (names p))
unfolding clean_loop
clean_loop-follow_all zero [] s h g = follow_all_end s
clean_loop-follow_all zero (c ∷ p) s h g = absurd (omega arith)
clean_loop-follow_all (suc fuel) [] s h g = follow_all_end s
clean_loop-follow_all (suc fuel) (c ∷ cs) s h g =
    let p = skip_slashes (c ∷ cs) in
    rw (clean_loop, enter-follow s (name_of p) g (name_of-NoSlash p))
      (clean_round fuel (after_name p) (follow s (name_of p))
        (λ t k. clean_loop-follow_all fuel (after_name p) t (omega (arith, length-round c cs)) k)
        (follow-AllNames s (name_of p) g (name_of-NoSlash p)))
    ∙ ap outcome (sym (follow_all-names s p) ∙ follow_all-skip_slashes s (c ∷ cs))

clean_loop-root :
    (path : List ℕ)
    → clean_loop (length path) path (b'/' ∷ []) ≡ outcome (follow_all [] (names path))
unfolding path_to
clean_loop-root path = clean_loop-follow_all (length path) path [] (omega arith) tt

-- What the path stands for, from the root; only an absolute path stands for something.
abbrev pub meaning : List ℕ → Cleaned
meaning path =
    if is_slash (get_or path 0 0) then outcome (follow_all [] (names path)) else not_absolute

-- vfs_clean_path takes the names of an absolute path in their order from the root: an empty name
-- and "." stay, ".." goes up by a name and stays at the root, and any other name goes down, and it
-- fails with ENAMETOOLONG exactly where a name has more than 63 bytes or the path with it more than
-- 255. The result is the path of the names that remain. A path that is not absolute fails with
-- EINVAL.
pub clean_path-meaning : (path : List ℕ) → clean_path path ≡ meaning path
unfolding clean_path
clean_path-meaning path = elim (Bool-cases (is_slash (get_or path 0 0))) [
  | inl y ↦ rw y (clean_loop-root path)
  | inr y ↦ rw y refl
]
