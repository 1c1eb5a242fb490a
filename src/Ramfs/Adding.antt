-- ===== src/Ramfs/Adding.antt =====
-- What ramfs_mkdir, ramfs_add_file and ramfs_add_mutable_file do to the tree.
use mathlib.Core.Path.{subst}
use manios.Base.{
  ℕ, ◌+◌, ◌≡◌, refl, sym, ap, ◌∙◌, ◌⊎◌, inl, inr, Bool, true, false, ◌||◌, none, some, List, [],
  ◌∷◌, arith, if◌then◌else◌, length, Bool-cases, true-ne-false,
}
use manios.Namespace.{same}
use manios.Namespace.Mounts.{same_eq}
use manios.Zrp.Msg.{file}
use manios.Ramfs.{
  RamNode, Nodes, ok, exists, Made, Finish, has_children, finish_file, finish_mutable, finish_dir,
  ramfs_add_file, ramfs_add_mutable_file, ramfs_mkdir,
}
use manios.Ramfs.Names.{elements}
use manios.Ramfs.Tree.{subtree}
use manios.Ramfs.Paths.{found, find, same_path, Kept, Refused, Passes, Reaches, is_empty, Makes}
use manios.Ramfs.Descent.{some-none}
use manios.Ramfs.Walking.{make_path-Makes}

same_path_eq : (p q : List (List ℕ)) → same_path p q ≡ true → p ≡ q
same_path_eq [] [] h = refl
same_path_eq [] (e ∷ es) h = absurd (true-ne-false h refl)
same_path_eq (n ∷ p) [] h = absurd (true-ne-false h refl)
same_path_eq (n ∷ p) (e ∷ es) h = elim (Bool-cases (same n e)) [
  | inl y ↦
      let t : same_path p es ≡ true = rw y at h in
      ap (λ m. m ∷ p) (same_eq n e y) ∙ ap (λ ps. e ∷ ps) (same_path_eq p es t)
  | inr y ↦ absurd (true-ne-false h (rw y refl))
]

-- A node that is the root or has children is left, any other one becomes `change` of it.
abbrev finish_with : (RamNode → RamNode) → Finish
finish_with change is_root r children =
    if has_children children || is_root then (exists, r) else (ok, change r)

keeps :
    (change : RamNode → RamNode)
    → ((r : RamNode) → (change r).name ≡ r.name)
    → (root : Bool) (r : RamNode) (children : Nodes)
    → (finish_with change root r children).1.name ≡ r.name
keeps change named root r children = elim (Bool-cases (has_children children || root)) [
  | inl y ↦ rw y refl
  | inr y ↦ rw y (named r)
]

-- The path is refused; or it passes, and names the root or a directory that is not empty, and the
-- tree only gains directories; or it passes, and its node, which may be new, becomes `change` of it.
abbrev pub Adds : (RamNode → RamNode) → List (List ℕ) → RamNode → Nodes → List Bool → Made → Type 0
Adds change es root children memory made =
    (Refused es root children memory made.rc × ((p : List (List ℕ)) → Kept es root children made p))
    ⊎ (Passes es root children memory
        × (r : RamNode) × (below : Nodes) × Reaches es root children r below
        × (((has_children below || is_empty es ≡ true)
              × (made.rc ≡ exists)
              × ((p : List (List ℕ)) → Kept es root children made p))
            ⊎ ((has_children below || is_empty es ≡ false)
                × (made.rc ≡ ok)
                × (find es made.node_at made.children ≡ some (change r))
                × ((p : List (List ℕ)) → same_path p es ≡ false → Kept es root children made p))))

module _ (change : RamNode → RamNode) (es : List (List ℕ)) (root : RamNode) (children : Nodes)
    (memory : List Bool) (made : Made) where
  -- The node that is left as it is.
  left_alone :
      (r : RamNode) (below : Nodes)
      → Reaches es root children r below
      → has_children below || is_empty es ≡ true
      → find es made.node_at made.children ≡ some r
      → find es made.node_at made.children ≡ find es root children
  left_alone r below (inl q) b f = f ∙ sym (ap found q)
  left_alone r below (inr (o, n, z)) b f = absurd (no_node es o (rw z at b))
    where
      no_node : (p : List (List ℕ)) → subtree p root children ≡ none → is_empty p ≡ true → ⊥
      no_node [] e t = some-none e
      no_node (m ∷ p) e t = absurd (true-ne-false t refl)

  Makes-Adds :
      Makes (finish_with change) es true root children memory made
      → Adds change es root children memory made
  Makes-Adds (inl x) = inl x
  Makes-Adds (inr (pass, r, below, reach, rc, f, k)) =
      elim (Bool-cases (has_children below || is_empty es)) [
        | inl b ↦ inr (
          pass,
          r,
          below,
          reach,
          inl (
            b,
            rc ∙ rw b refl,
            λ p. elim (Bool-cases (same_path p es)) [
              | inl y ↦ inl (
                  subst (λ q. find q made.node_at made.children ≡ find q root children)
                    (sym (same_path_eq p es y)) (left_alone r below reach b (f ∙ rw b refl)))
              | inr y ↦ k p y
            ],
          ),
        )
        | inr b ↦ inr (pass, r, below, reach, inr (b, rc ∙ rw b refl, f ∙ rw b refl, k))
      ]

-- ramfs_add_file, as Adds has it: it is refused only by a name too long, a node on the way that is
-- no directory, or missing memory for a missing node. Otherwise none of these is the case, no name
-- is too long, every node on the way is a directory and there is memory for all that is missing: it
-- fails on the root and on a directory that is not empty, and else the node at the path is a file
-- with these contents. In every case each other path has what it had, or a new directory where it
-- had nothing and is on the way.
pub ramfs_add_file-Adds :
    (path contents : List ℕ) (root : RamNode) (children : Nodes) (memory : List Bool)
    → Adds
        (λ r. record r { type = file; contents = contents })
        (elements path)
        root
        children
        memory
        (ramfs_add_file path contents root children memory)
unfolding ramfs_add_file
ramfs_add_file-Adds path contents root children memory =
    let change : RamNode → RamNode = λ r. record r { type = file; contents = contents } in
    Makes-Adds change (elements path) root children memory
      (ramfs_add_file path contents root children memory)
      (make_path-Makes (finish_file contents) (keeps change (λ r. refl)) (length path + 1) path true
        root children memory (omega arith))

ramfs_add_mutable_file-Adds :
    (path : List ℕ) (root : RamNode) (children : Nodes) (memory : List Bool)
    → Adds
        (λ r. record r { type = file; contents = []; owned = false; writable = true })
        (elements path)
        root
        children
        memory
        (ramfs_add_mutable_file path root children memory)
unfolding ramfs_add_mutable_file
ramfs_add_mutable_file-Adds path root children memory =
    let change : RamNode → RamNode =
      λ r. record r { type = file; contents = []; owned = false; writable = true } in
    Makes-Adds change (elements path) root children memory
      (ramfs_add_mutable_file path root children memory)
      (make_path-Makes finish_mutable (keeps change (λ r. refl)) (length path + 1) path true root
        children memory (omega arith))

ramfs_mkdir-Makes :
    (path : List ℕ) (root : RamNode) (children : Nodes) (memory : List Bool)
    → Makes finish_dir
        (elements path)
        true
        root
        children
        memory
        (ramfs_mkdir path root children memory)
unfolding ramfs_mkdir
ramfs_mkdir-Makes path root children memory =
    make_path-Makes finish_dir (λ b r c. refl) (length path + 1) path true root children memory
      (omega arith)
