-- ===== src/Ramfs/Tree.antt =====
-- The tree as a map from paths to nodes, and what the search of make_path for a child does to it.
use mathlib.Core.Path.{subst}
use manios.Base.{
  ℕ, zero, suc, ◌&&◌, ◌≡◌, refl, sym, ap, ◌∙◌, ◌⊎◌, inl, inr, Bool, true, false, Option, none, some,
  List, [], ◌∷◌, if◌then◌else◌, Bool-cases,
}
use manios.Namespace.{same}
use manios.Namespace.Mounts.{same_eq}
use manios.Ramfs.{
  RamNode, Nodes, nil, node, no_memory, new_node, Made, Entered, at_child, enter_child,
}

abbrev pub Subtree : Type 0
Subtree = RamNode × Nodes

-- What `below` finds at the child of that name.
abbrev pub find_in : (RamNode → Nodes → Option Subtree) → List ℕ → Nodes → Option Subtree
find_in below name nil = none
find_in below name (node r children next) =
    if same r.name name then below r children else find_in below name next

-- The node at the names from `r` on, with its children.
abbrev pub subtree : List (List ℕ) → RamNode → Nodes → Option Subtree
subtree [] r children = some (r, children)
subtree (name ∷ names) r children = find_in (subtree names) name children

-- Whether kmalloc gives memory `n` times.
abbrev pub all_given : ℕ → List Bool → Bool
all_given zero memory = true
all_given (suc n) [] = false
all_given (suc n) (b ∷ memory) = b && all_given n memory

module _ (go : RamNode → Nodes → List Bool → Made) (name : List ℕ) where
  -- `go` runs at the child `r`, and only what is below that name may change.
  abbrev pub Continues : Nodes → Entered → RamNode → Nodes → List Bool → Type 0
  Continues before e r children memory =
      (e.rc ≡ (go r children memory).rc)
      × ((below : RamNode → Nodes → Option Subtree) (other : List ℕ)
          → find_in below other e.nodes ≡ (
              if same name other
              then below (go r children memory).node_at (go r children memory).children
              else find_in below other before))

  abbrev pub Enters : List Bool → Nodes → Entered → Type 0
  Enters memory before e =
      ((r : RamNode) × (children : Nodes) × ((below : RamNode → Nodes → Option Subtree)
          → find_in below name before ≡ below r children)
        × Continues before e r children memory)
      ⊎ (((below : RamNode → Nodes → Option Subtree) → find_in below name before ≡ none)
          × (((rest : List Bool) × (memory ≡ true ∷ rest)
                × Continues before e (new_node name) nil rest)
              ⊎ ((all_given 1 memory ≡ false) × (e.rc ≡ no_memory) × (e.nodes ≡ before))))

  module _
      (kept : (r : RamNode) (children : Nodes) (memory : List Bool)
        → (go r children memory).node_at.name ≡ r.name) where
    -- A child of that name, in front of `next`.
    replaced :
        (r : RamNode) (children next : Nodes) (memory : List Bool)
        → r.name ≡ name
        → (below : RamNode → Nodes → Option Subtree) (other : List ℕ)
        → find_in below other (at_child (go r children memory) next).nodes ≡ (
            if same name other
            then below (go r children memory).node_at (go r children memory).children
            else find_in below other next)
    replaced r children next memory e below other =
        let k : (go r children memory).node_at.name ≡ name = kept r children memory ∙ e in rw k refl

    over :
        (r : RamNode) (children next : Nodes) (memory : List Bool)
        → r.name ≡ name
        → (below : RamNode → Nodes → Option Subtree) (other : List ℕ)
        → (if same name other
            then below (go r children memory).node_at (go r children memory).children
            else find_in below other next)
          ≡ (if same name other
              then below (go r children memory).node_at (go r children memory).children
              else find_in below other (node r children next))
    over r children next memory e below other = elim (Bool-cases (same name other)) [
      | inl z ↦ rw z refl
      | inr z ↦ rw (e, z) refl
    ]

    -- A child of another name in front.
    module _ (r : RamNode) (children next : Nodes) (y : same r.name name ≡ false) where
      beside :
          (e : Entered) (below : RamNode → Nodes → Option Subtree) (other : List ℕ)
          (x : Option Subtree)
          → find_in below other e.nodes ≡ (if same name other then x else find_in below other next)
          → find_in below other (node r children e.nodes)
            ≡ (if same name other then x else find_in below other (node r children next))
      beside e below other x h = elim (Bool-cases (same name other)) [
        | inl z ↦
            let n : name ≡ other = same_eq name other z in
            let y' : same r.name other ≡ false = rw n at y in rw (z, y') (h ∙ rw z refl)
        | inr z ↦
            let h' : find_in below other e.nodes ≡ find_in below other next = h ∙ rw z refl in
            rw (z, h') refl
      ]

      past :
          (memory : List Bool) (e : Entered)
          → Enters memory next e
          → Enters memory (node r children next) (record e { nodes = node r children e.nodes })
      past memory e (inl (r', children', f, (rc, c))) = inl (
        r',
        children',
        λ below. rw y (f below),
        (
          rc,
          λ below other.
              beside e below other
                (below (go r' children' memory).node_at (go r' children' memory).children)
                (c below other),
        ),
      )
      past memory e (inr (f, inl (rest, g, (rc, c)))) = inr (
        λ below. rw y (f below),
        inl (
          rest,
          g,
          (
            rc,
            λ below other.
                beside e below other
                  (below (go (new_node name) nil rest).node_at
                    (go (new_node name) nil rest).children)
                  (c below other),
          ),
        ),
      )
      past memory e (inr (f, inr (g, rc, n))) =
          inr (λ below. rw y (f below), inr (g, rc, ap (λ t. node r children t) n))

    pub enter_child-Enters :
        (memory : List Bool) (before : Nodes)
        → Enters memory before (enter_child go name memory before)
    unfolding enter_child
    enter_child-Enters [] nil = inr (λ below. refl, inr (refl, refl, refl))
    enter_child-Enters (false ∷ memory) nil = inr (λ below. refl, inr (refl, refl, refl))
    enter_child-Enters (true ∷ memory) nil =
        inr
          (λ below. refl, inl (memory, refl, (refl, replaced (new_node name) nil nil memory refl)))
    enter_child-Enters memory (node r children next) = elim (Bool-cases (same r.name name)) [
      | inl y ↦
          let e : r.name ≡ name = same_eq r.name name y in
          rw y (
            inl (
              r,
              children,
              λ below. refl,
              (
                refl,
                λ below other.
                    replaced r children next memory e below other
                    ∙ over r children next memory e below other,
              ),
            ))
      | inr y ↦
          let e : enter_child go name memory (node r children next)
              ≡ record (enter_child go name memory next) {
                nodes = node r children (enter_child go name memory next).nodes;
              } =
            rw y refl in
          subst (λ t. Enters memory (node r children next) t) (sym e)
            (past r children next y memory (enter_child go name memory next)
              (enter_child-Enters memory next))
    ]
