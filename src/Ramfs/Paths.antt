-- ===== src/Ramfs/Paths.antt =====
-- What make_path does to the tree, on every path.
use manios.Base.{
  ℕ, suc, ◌≡◌, ◌⊎◌, Bool, true, false, ◌&&◌, ◌||◌, Option, none, some, List, [], ◌∷◌, ltb, length,
}
use manios.Namespace.{same}
use manios.Namespace.CleanPath.{name_max}
use manios.Ramfs.{
  RamNode, Nodes, nil, Status, name_too_long, not_dir, no_memory, is_dir, new_node, Made, Finish,
}
use manios.Ramfs.Tree.{find_in, Subtree, subtree, all_given}

abbrev pub found : Option Subtree → Option RamNode
found none = none
found (some x) = some x.0

-- The node at the names.
abbrev pub find : List (List ℕ) → RamNode → Nodes → Option RamNode
find names r children = found (subtree names r children)

abbrev pub is_prefix : List (List ℕ) → List (List ℕ) → Bool
is_prefix [] es = true
is_prefix (n ∷ p) [] = false
is_prefix (n ∷ p) (e ∷ es) = same n e && is_prefix p es

abbrev pub same_path : List (List ℕ) → List (List ℕ) → Bool
same_path [] [] = true
same_path [] (e ∷ es) = false
same_path (n ∷ p) [] = false
same_path (n ∷ p) (e ∷ es) = same n e && same_path p es

-- The last of the names, or `name` where there is none.
abbrev last_name : List ℕ → List (List ℕ) → List ℕ
last_name name [] = name
last_name name (n ∷ names) = last_name n names

abbrev any_too_long : List (List ℕ) → Bool
any_too_long [] = false
any_too_long (e ∷ es) = ltb name_max (length e) || any_too_long es

-- The node at `p` is as before, or it is a new directory on the way to `es`.
abbrev pub Kept : List (List ℕ) → RamNode → Nodes → Made → List (List ℕ) → Type 0
Kept es r children made p =
    (find p made.node_at made.children ≡ find p r children)
    ⊎ ((find p r children ≡ none)
        × (is_prefix p es ≡ true)
        × (find p made.node_at made.children ≡ some (new_node (last_name r.name p))))

-- How many nodes of the names are missing.
abbrev pub missing : List (List ℕ) → Nodes → ℕ
missing [] children = 0
missing (e ∷ es) children = elim (find_in (λ r c. some (r, c)) e children) [
  | none ↦ suc (length es)
  | some x ↦ missing es x.1
]

-- A name is too long, a node on the way is no directory, or there is no memory for a missing one.
abbrev pub Refused : List (List ℕ) → RamNode → Nodes → List Bool → Status → Type 0
Refused es r children memory rc =
    ((any_too_long es ≡ true) × (rc ≡ name_too_long))
    ⊎ ((((p : List (List ℕ)) × (x : RamNode) × (is_prefix p es ≡ true)
            × (same_path p es ≡ false)
            × (find p r children ≡ some x)
            × (is_dir x.type ≡ false))
          × (rc ≡ not_dir))
        ⊎ ((find es r children ≡ none)
            × (all_given (missing es children) memory ≡ false)
            × (rc ≡ no_memory)))

-- What Refused names is not the case: no name is too long, every node on the way is a directory,
-- and there is memory for every missing one.
abbrev pub Passes : List (List ℕ) → RamNode → Nodes → List Bool → Type 0
Passes es r children memory =
    (any_too_long es ≡ false)
    × ((p : List (List ℕ)) (x : RamNode)
        → is_prefix p es ≡ true
        → same_path p es ≡ false
        → find p r children ≡ some x
        → is_dir x.type ≡ true)
    × (all_given (missing es children) memory ≡ true)

-- The node that make_path gives: the one there, or a new one.
abbrev pub Reaches : List (List ℕ) → RamNode → Nodes → RamNode → Nodes → Type 0
Reaches es r children r' children' =
    (subtree es r children ≡ some (r', children'))
    ⊎ ((subtree es r children ≡ none) × (r' ≡ new_node (last_name r.name es)) × (children' ≡ nil))

abbrev pub is_empty : List (List ℕ) → Bool
is_empty [] = true
is_empty (e ∷ es) = false

module _ (finish : Finish) where
  -- The caller gets its node, and changes nothing else.
  abbrev Finishes : List (List ℕ) → Bool → RamNode → Nodes → List Bool → Made → Type 0
  Finishes es root r children memory made =
      Passes es r children memory
      × (r' : RamNode) × (children' : Nodes) × Reaches es r children r' children'
      × (made.rc ≡ (finish (root && is_empty es) r' children').0)
      × (find es made.node_at made.children ≡ some (finish (root && is_empty es) r' children').1)
      × ((p : List (List ℕ)) → same_path p es ≡ false → Kept es r children made p)

  abbrev pub Makes : List (List ℕ) → Bool → RamNode → Nodes → List Bool → Made → Type 0
  Makes es root r children memory made =
      (Refused es r children memory made.rc × ((p : List (List ℕ)) → Kept es r children made p))
      ⊎ Finishes es root r children memory made
