-- ===== src/Ramfs/Making.antt =====
-- make_path on every path, and the operations that call it.
use mathlib.Core.Option.{some-injective}
use manios.Base.{
  ℕ, suc, ◌≡◌, refl, sym, ap, ◌∙◌, inl, inr, Bool, true, false, ◌&&◌, ◌||◌, Option, none, some,
  List, [], ◌∷◌, ltb, length, true-ne-false,
}
use manios.Namespace.{same}
use manios.Namespace.Mounts.{same_refl, same_eq}
use manios.Namespace.CleanPath.{name_max}
use manios.Ramfs.{RamNode, Nodes, nil, is_dir, new_node, Made, Entered, Finish}
use manios.Ramfs.Tree.{find_in, Subtree, subtree, Continues}
use manios.Ramfs.Paths.{found, find, is_prefix, same_path, missing, Refused, Reaches, Makes}
use manios.Ramfs.Descent.{
  some-none, and_false, new_find, above, at_name, spared_there, at_new, spared_new, spared_all,
  spared_others,
}

or_true : (b : Bool) → (b || true) ≡ true
or_true true = refl
or_true false = refl

and_left : (a b : Bool) → (a && b) ≡ true → a ≡ true
and_left true b h = refl
and_left false b h = absurd (true-ne-false refl (sym h))

and_right : (a b : Bool) → (a && b) ≡ true → b ≡ true
and_right true b h = h
and_right false b h = absurd (true-ne-false refl (sym h))

missing-there :
    (name : List ℕ) (es : List (List ℕ)) (children : Nodes) {x : Subtree}
    → find_in (λ q ms. some (q, ms)) name children ≡ some x
    → missing (name ∷ es) children ≡ missing es x.1
missing-there name es children h = rw (missing, h) refl

pub missing-absent :
    (name : List ℕ) (es : List (List ℕ)) (children : Nodes)
    → find_in (λ q ms. some (q, ms)) name children ≡ none
    → missing (name ∷ es) children ≡ suc (length es)
missing-absent name es children h = rw (missing, h) refl

missing_nil : (es : List (List ℕ)) → missing es nil ≡ length es
missing_nil [] = refl
missing_nil (e ∷ es) = refl

module _ (finish : Finish) (go : RamNode → Nodes → List Bool → Made) (name : List ℕ)
    (es : List (List ℕ)) (root : Bool) (r : RamNode) (children : Nodes) (e : Entered)
    (short : ltb name_max (length name) ≡ false) (is_directory : is_dir r.type ≡ true) where
  -- The name is there.
  pub descends_there :
      (r' : RamNode) (children' : Nodes) (memory : List Bool)
      → ((below : RamNode → Nodes → Option Subtree)
          → find_in below name children ≡ below r' children')
      → Continues go name children e r' children' memory
      → Makes finish es false r' children' memory (go r' children' memory)
      → Makes finish (name ∷ es) root r children memory (above go name es r children e)
  descends_there r' children' memory there c (inl (why, k)) = inl (
    refused why,
    spared_all go name es r children e
        (λ below. below (go r' children' memory).node_at (go r' children' memory).children) c.1
        (λ p. spared_there go name es r children e r' children' memory there c p (k p)),
  )
    where
      refused :
          Refused es r' children' memory (go r' children' memory).rc
          → Refused (name ∷ es) r children memory e.rc
      refused (inl (l, x)) = inl (rw l (or_true (ltb name_max (length name))), c.0 ∙ x)
      refused (inr (inl ((p, n, a, d, f, t), x))) = inr (
          inl (
            (
              name ∷ p,
              n,
              rw (same_refl name) a,
              rw (same_refl name) d,
              ap found (there (subtree p)) ∙ f,
              t,
            ),
            c.0 ∙ x,
          ))
      refused (inr (inr (f, g, x))) = inr (
          inr (
            ap found (there (subtree es)) ∙ f,
            rw (missing-there name es children (there (λ q ms. some (q, ms)))) g,
            c.0 ∙ x,
          ))
  descends_there r' children' memory there c (inr (pass, n, ns, reach, x, f, k)) = inr (
    (
      rw (short, pass.0) refl,
      passes,
      rw (missing-there name es children (there (λ q ms. some (q, ms)))) pass.2,
    ),
    n,
    ns,
    reaches es reach,
    c.0 ∙ x ∙ ap (λ b. (finish b n ns).0) (sym (and_false root)),
    ap found (at_name go name es r children e r' children' memory there c es)
        ∙ f
        ∙ ap (λ b. some (finish b n ns).1) (sym (and_false root)),
    spared_others go name es r children e
        (λ below. below (go r' children' memory).node_at (go r' children' memory).children) c.1
        (λ p d. spared_there go name es r children e r' children' memory there c p (k p d)),
  )
    where
      passes :
          (p : List (List ℕ)) (y : RamNode)
          → is_prefix p (name ∷ es) ≡ true
          → same_path p (name ∷ es) ≡ false
          → find p r children ≡ some y
          → is_dir y.type ≡ true
      passes [] y a d q = rw (sym (some-injective r y q)) is_directory
      passes (m ∷ p) y a d q =
          let e : m ≡ name = same_eq m name (and_left (same m name) (is_prefix p es) a) in
          pass.1 p y (and_right (same m name) (is_prefix p es) a) (rw (e, same_refl name) at d)
            (ap found (sym (there (subtree p))) ∙ rw e at q)

      reaches :
          (es' : List (List ℕ))
          → Reaches es' r' children' n ns
          → Reaches (name ∷ es') r children n ns
      reaches es' (inl q) = inl (there (subtree es') ∙ q)
      reaches [] (inr (o, m, z)) = absurd (some-none o)
      reaches (m ∷ ms) (inr (o, q, z)) = inr (there (subtree (m ∷ ms)) ∙ o, q, z)

  -- The name is missing, and there is memory for a new node.
  pub descends_new :
      (rest : List Bool)
      → ((below : RamNode → Nodes → Option Subtree) → find_in below name children ≡ none)
      → Continues go name children e (new_node name) nil rest
      → Makes finish es false (new_node name) nil rest (go (new_node name) nil rest)
      → Makes finish (name ∷ es) root r children (true ∷ rest) (above go name es r children e)
  descends_new rest absent c (inl (why, k)) = inl (
    refused why,
    spared_all go name es r children e
        (λ below.
          below (go (new_node name) nil rest).node_at (go (new_node name) nil rest).children)
        c.1 (λ p. spared_new go name es r children e rest absent c p (k p)),
  )
    where
      refused :
          Refused es (new_node name) nil rest (go (new_node name) nil rest).rc
          → Refused (name ∷ es) r children (true ∷ rest) e.rc
      refused (inl (l, x)) = inl (rw l (or_true (ltb name_max (length name))), c.0 ∙ x)
      refused (inr (inl ((p, n, a, d, f, t), x))) = absurd (true-ne-false (new_find name p n f) t)
      refused (inr (inr (f, g, x))) = inr (
          inr (
            ap found (absent (subtree es)),
            rw
                (
                  missing-absent name es children (absent (λ q ms. some (q, ms))),
                  sym (missing_nil es),
                )
                g,
            c.0 ∙ x,
          ))
  descends_new rest absent c (inr (pass, n, ns, reach, x, f, k)) = inr (
    (
      rw (short, pass.0) refl,
      passes,
      rw (missing-absent name es children (absent (λ q ms. some (q, ms))), sym (missing_nil es))
          pass.2,
    ),
    n,
    ns,
    reaches es reach,
    c.0 ∙ x ∙ ap (λ b. (finish b n ns).0) (sym (and_false root)),
    ap found (at_new go name es r children e rest absent c es)
        ∙ f
        ∙ ap (λ b. some (finish b n ns).1) (sym (and_false root)),
    spared_others go name es r children e
        (λ below.
          below (go (new_node name) nil rest).node_at (go (new_node name) nil rest).children)
        c.1 (λ p d. spared_new go name es r children e rest absent c p (k p d)),
  )
    where
      passes :
          (p : List (List ℕ)) (y : RamNode)
          → is_prefix p (name ∷ es) ≡ true
          → same_path p (name ∷ es) ≡ false
          → find p r children ≡ some y
          → is_dir y.type ≡ true
      passes [] y a d q = rw (sym (some-injective r y q)) is_directory
      passes (m ∷ p) y a d q =
          let e : m ≡ name = same_eq m name (and_left (same m name) (is_prefix p es) a) in
          absurd (some-none (sym (ap found (sym (absent (subtree p))) ∙ (rw e at q))))

      reaches :
          (es' : List (List ℕ))
          → Reaches es' (new_node name) nil n ns
          → Reaches (name ∷ es') r children n ns
      reaches [] (inl q) =
          let e : (new_node name, nil) ≡ (n, ns) = some-injective (new_node name, nil) (n, ns) q in
          inr (absent (subtree []), sym (ap (λ x. x.0) e), sym (ap (λ x. x.1) e))
      reaches (m ∷ ms) (inl q) = absurd (some-none (sym q))
      reaches [] (inr (o, m, z)) = absurd (some-none o)
      reaches (m ∷ ms) (inr (o, q, z)) = inr (absent (subtree (m ∷ ms)), q, z)
