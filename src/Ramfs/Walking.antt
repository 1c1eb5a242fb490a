-- ===== src/Ramfs/Walking.antt =====
-- make_path, round by round.
use mathlib.Core.Path.{subst}
use manios.Base.{
  ℕ, zero, suc, ◌<◌, ◌≡◌, refl, sym, ap, inl, inr, Bool, true, false, some, not, ◌&&◌, List, [],
  ◌∷◌, arith, ltb, ◌==◌, if◌then◌else◌, length, true-ne-false,
}
use manios.Namespace.CleanPath.{name_of, after_name, name_max}
use manios.Ramfs.{
  RamNode, Nodes, nil, name_too_long, not_dir, is_dir, new_node, Made, Entered, Finish, skip_slash,
  enter_child, make_path, fails,
}
use manios.Ramfs.Names.{elements, elements-empty, elements-name, shorter}
use manios.Ramfs.Tree.{subtree, all_given, Enters, enter_child-Enters}
use manios.Ramfs.Paths.{found, find, is_prefix, same_path, Kept, Makes}
use manios.Ramfs.Descent.{above}
use manios.Ramfs.Making.{missing-absent, descends_there, descends_new}

module _ (finish : Finish)
    (keeps : (root : Bool) (r : RamNode) (children : Nodes)
      → (finish root r children).1.name ≡ r.name) where
  make_path-name :
      (fuel : ℕ) (path : List ℕ) (root : Bool) (r : RamNode) (children : Nodes) (memory : List Bool)
      → (make_path fuel path finish root r children memory).node_at.name ≡ r.name
  unfolding make_path
  make_path-name zero path root r children memory = refl
  make_path-name (suc fuel) [] root r children memory = keeps root r children
  make_path-name (suc fuel) (c ∷ path) root r children memory =
      ground
        (arith, make_path-name fuel (skip_slash (after_name (c ∷ path))) root r children memory)

  -- The child is there or it is made, or there is no memory.
  through :
      (go : RamNode → Nodes → List Bool → Made) (name : List ℕ) (es : List (List ℕ)) (root : Bool)
      (r : RamNode) (children : Nodes) (memory : List Bool) (e : Entered)
      → ((r' : RamNode) (children' : Nodes) (memory' : List Bool)
          → Makes finish es false r' children' memory' (go r' children' memory'))
      → Enters go name memory children e
      → ltb name_max (length name) ≡ false
      → is_dir r.type ≡ true
      → Makes finish (name ∷ es) root r children memory (above go name es r children e)
  through go name es root r children memory e ih (inl (r', children', there, c)) l d =
      descends_there finish go name es root r children e l d r' children' memory there c
        (ih r' children' memory)
  through go name es root r children memory e ih (inr (absent, inl (rest, g, c))) l d =
      subst (λ m. Makes finish (name ∷ es) root r children m (above go name es r children e))
        (sym g)
        (descends_new finish go name es root r children e l d rest absent c
          (ih (new_node name) nil rest))
  through go name es root r children memory e ih (inr (absent, inr (g, rc, n))) l d = inl (
    inr (
        inr (
          ap found (absent (subtree es)),
          rw (missing-absent name es children (absent (λ q ms. some (q, ms)))) (longer memory g),
          rc,
        )),
    λ p. inl (ap (λ ns. find p r ns) n),
  )
    where
      longer : (m : List Bool) → all_given 1 m ≡ false → all_given (suc (length es)) m ≡ false
      longer [] h = refl
      longer (true ∷ m) h = absurd (true-ne-false refl h)
      longer (false ∷ m) h = refl

  -- One round, whatever its three tests give.
  round :
      (path : List ℕ) (root : Bool) (r : RamNode) (children : Nodes) (memory : List Bool)
      (again : Made) (go : RamNode → Nodes → List Bool → Made)
      → ((r' : RamNode) (children' : Nodes) (memory' : List Bool)
          → (go r' children' memory').node_at.name ≡ r'.name)
      → Makes finish (elements (skip_slash (after_name path))) root r children memory again
      → ((r' : RamNode) (children' : Nodes) (memory' : List Bool)
          → Makes finish
              (elements (skip_slash (after_name path)))
              false
              r'
              children'
              memory'
              (go r' children' memory'))
      → (long empty is_directory : Bool) → ltb name_max (length (name_of path)) ≡ long
      → (length (name_of path) == 0) ≡ empty
      → is_dir r.type ≡ is_directory
      → Makes finish (elements path) root r children memory (
          if long
          then fails name_too_long r children memory
          else if empty
          then again
          else if not is_directory
          then fails not_dir r children memory
          else above go
              (name_of path)
              (elements (skip_slash (after_name path)))
              r
              children
              (enter_child go (name_of path) memory children))
  round path root r children memory again go kept i ih true empty d l m t =
      let some_name : (length (name_of path) == 0) ≡ false = ground (arith, l) in
      inl (inl (rw (elements-name path some_name, l) refl, refl), λ p. inl refl)
  round path root r children memory again go kept i ih false true d l m t =
      rw (elements-empty path m) i
  round path root r children memory again go kept i ih false false false l m t =
      inl (inr (inl (([], r, refl, rw (elements-name path m) refl, refl, t), refl)), λ p. inl refl)
  round path root r children memory again go kept i ih false false true l m t =
      rw (elements-name path m) (
        through go (name_of path) (elements (skip_slash (after_name path))) root r children memory
          (enter_child go (name_of path) memory children) ih
          (enter_child-Enters go (name_of path) kept memory children) l t)

  pub make_path-Makes :
      (fuel : ℕ) (path : List ℕ) (root : Bool) (r : RamNode) (children : Nodes) (memory : List Bool)
      → length path < fuel
      → Makes finish
          (elements path)
          root
          r
          children
          memory
          (make_path fuel path finish root r children memory)
  unfolding make_path elements
  make_path-Makes zero path root r children memory h = absurd (omega (arith, h))
  make_path-Makes (suc fuel) [] root r children memory h = inr (
    (refl, on_way, refl),
    r,
    children,
    inl refl,
    rw (and_true root) refl,
    rw (and_true root) refl,
    top,
  )
    where
      on_way :
          (p : List (List ℕ)) (x : RamNode)
          → is_prefix p [] ≡ true
          → same_path p [] ≡ false
          → find p r children ≡ some x
          → is_dir x.type ≡ true
      on_way [] x a d q = absurd (true-ne-false refl d)
      on_way (n ∷ p) x a d q = absurd (true-ne-false a refl)

      and_true : (b : Bool) → (b && true) ≡ b
      and_true true = refl
      and_true false = refl

      top :
          (p : List (List ℕ))
          → same_path p [] ≡ false
          → Kept [] r children
              (fails (finish root r children).0 (finish root r children).1 children memory)
              p
      top [] d = absurd (true-ne-false refl d)
      top (n ∷ p) d = inl refl
  make_path-Makes (suc fuel) (c ∷ path) root r children memory h =
      let rest = skip_slash (after_name (c ∷ path)) in
      let fewer : length rest < fuel = omega (arith, shorter c path, h) in
      round (c ∷ path) root r children memory (make_path fuel rest finish root r children memory)
        (make_path fuel rest finish false) (make_path-name fuel rest false)
        (make_path-Makes fuel rest root r children memory fewer)
        (λ r' children' memory'. make_path-Makes fuel rest false r' children' memory' fewer)
        (ltb name_max (length (name_of (c ∷ path)))) (length (name_of (c ∷ path)) == 0)
        (is_dir r.type) refl refl refl
