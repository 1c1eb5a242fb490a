-- ===== src/Ramfs/Descent.antt =====
-- From what make_path does below a child to what it does at its parent.
use mathlib.Core.Option.{some-injective}
use mathlib.Core.Path.{subst}
use manios.Base.{
  ℕ, zero, suc, ◌≡◌, refl, sym, ap, ◌∙◌, inl, inr, Bool, true, false, ◌&&◌, Option, none, some,
  List, [], ◌∷◌, arith, if◌then◌else◌, Bool-cases, true-ne-false,
}
use manios.Namespace.{same}
use manios.Namespace.Mounts.{same_refl, same_eq}
use manios.Ramfs.{RamNode, Nodes, nil, is_dir, new_node, Made, Entered}
use manios.Ramfs.Tree.{find_in, Subtree, subtree, all_given, Continues}
use manios.Ramfs.Paths.{found, find, same_path, Kept}

pub some-none : {A : Type 0} {x : A} → some x ≡ none → ⊥
some-none e = absurd (ground (arith, e))

pub and_false : (b : Bool) → (b && false) ≡ false
and_false true = refl
and_false false = refl

pub all_given_shorter :
    (n : ℕ) (memory : List Bool) → all_given n memory ≡ false → all_given (suc n) memory ≡ false
all_given_shorter zero memory h = absurd (true-ne-false refl h)
all_given_shorter (suc n) [] h = refl
all_given_shorter (suc n) (true ∷ memory) h = all_given_shorter n memory h
all_given_shorter (suc n) (false ∷ memory) h = refl

pub new_find :
    (name : List ℕ) (p : List (List ℕ)) (x : RamNode)
    → find p (new_node name) nil ≡ some x
    → is_dir x.type ≡ true
new_find name [] x h =
    let e : new_node name ≡ x = some-injective (new_node name) x h in rw (sym e) refl
new_find name (n ∷ p) x h = absurd (some-none (sym h))

module _ (go : RamNode → Nodes → List Bool → Made) (name : List ℕ) (es : List (List ℕ))
    (r : RamNode) (children : Nodes) (e : Entered) where
  abbrev pub above : Made
  above = record { rc = e.rc; node_at = r; children = e.nodes; memory = e.memory }

  -- Below the child `r'` that was there.
  module _ (r' : RamNode) (children' : Nodes) (memory : List Bool)
      (there : (below : RamNode → Nodes → Option Subtree)
        → find_in below name children ≡ below r' children')
      (c : Continues go name children e r' children' memory) where
    pub at_name :
        (p : List (List ℕ))
        → subtree (name ∷ p) r e.nodes
          ≡ subtree p (go r' children' memory).node_at (go r' children' memory).children
    at_name p = c.1 (subtree p) name ∙ rw (same_refl name) refl

    pub spared_there :
        (p : List (List ℕ))
        → Kept es r' children' (go r' children' memory) p
        → Kept (name ∷ es) r children above (name ∷ p)
    spared_there p (inl q) = inl (ap found (at_name p) ∙ q ∙ ap found (sym (there (subtree p))))
    spared_there [] (inr (o, k, w)) = absurd (some-none o)
    spared_there (n ∷ p) (inr (o, k, w)) = inr (
      ap found (there (subtree (n ∷ p))) ∙ o,
      rw (same_refl name) k,
      ap found (at_name (n ∷ p)) ∙ w,
    )

  -- Below a new child.
  module _ (memory : List Bool)
      (missing : (below : RamNode → Nodes → Option Subtree) → find_in below name children ≡ none)
      (c : Continues go name children e (new_node name) nil memory) where
    pub at_new :
        (p : List (List ℕ))
        → subtree (name ∷ p) r e.nodes
          ≡ subtree p
              (go (new_node name) nil memory).node_at
              (go (new_node name) nil memory).children
    at_new p = c.1 (subtree p) name ∙ rw (same_refl name) refl

    pub spared_new :
        (p : List (List ℕ))
        → Kept es (new_node name) nil (go (new_node name) nil memory) p
        → Kept (name ∷ es) r children above (name ∷ p)
    spared_new [] (inl q) =
        inr (ap found (missing (subtree [])), rw (same_refl name) refl, ap found (at_new []) ∙ q)
    spared_new (n ∷ p) (inl q) =
        inl (ap found (at_new (n ∷ p)) ∙ q ∙ sym (ap found (missing (subtree (n ∷ p)))))
    spared_new [] (inr (o, k, w)) = absurd (some-none o)
    spared_new (n ∷ p) (inr (o, k, w)) =
        inr (
          ap found (missing (subtree (n ∷ p))),
          rw (same_refl name) k,
          ap found (at_new (n ∷ p)) ∙ w,
        )

  -- The rest of the tree.
  spared_beside :
      (x : (RamNode → Nodes → Option Subtree) → Option Subtree) (n : List ℕ) (p : List (List ℕ))
      → ((below : RamNode → Nodes → Option Subtree) (other : List ℕ)
          → find_in below other e.nodes
            ≡ (if same name other then x below else find_in below other children))
      → same name n ≡ false
      → Kept (name ∷ es) r children above (n ∷ p)
  spared_beside x n p c z = inl (ap found (c (subtree p) n ∙ rw z refl))

  -- Every path, once those below the name are.
  pub spared_all :
      (x : (RamNode → Nodes → Option Subtree) → Option Subtree)
      → ((below : RamNode → Nodes → Option Subtree) (other : List ℕ)
          → find_in below other e.nodes
            ≡ (if same name other then x below else find_in below other children))
      → ((p : List (List ℕ)) → Kept (name ∷ es) r children above (name ∷ p))
      → (p : List (List ℕ)) → Kept (name ∷ es) r children above p
  spared_all x c k [] = inl refl
  spared_all x c k (n ∷ p) = elim (Bool-cases (same name n)) [
    | inl z ↦ subst (λ m. Kept (name ∷ es) r children above (m ∷ p)) (same_eq name n z) (k p)
    | inr z ↦ spared_beside x n p c z
  ]

  -- Every path but that of the caller's node.
  pub spared_others :
      (x : (RamNode → Nodes → Option Subtree) → Option Subtree)
      → ((below : RamNode → Nodes → Option Subtree) (other : List ℕ)
          → find_in below other e.nodes
            ≡ (if same name other then x below else find_in below other children))
      → ((p : List (List ℕ))
          → same_path p es ≡ false
          → Kept (name ∷ es) r children above (name ∷ p))
      → (p : List (List ℕ)) → same_path p (name ∷ es) ≡ false
      → Kept (name ∷ es) r children above p
  spared_others x c k [] h = inl refl
  spared_others x c k (n ∷ p) h = elim (Bool-cases (same name n)) [
    | inl z ↦
        subst
          (λ m. same_path (m ∷ p) (name ∷ es) ≡ false → Kept (name ∷ es) r children above (m ∷ p))
          (same_eq name n z) (λ h'. k p (rw (same_refl name) at h')) h
    | inr z ↦ spared_beside x n p c z
  ]
