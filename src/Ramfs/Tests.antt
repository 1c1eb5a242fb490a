-- ===== src/Ramfs/Tests.antt =====
-- A tree with the directory "n" and the file "motd".
use manios.Base.{ℕ, ◌≡◌, refl, true, some, List, [], ◌∷◌, arith}
use manios.Zrp.Msg.{file}
use manios.Namespace.{same}
use manios.Namespace.CleanPath.{name_of, after_name}
use manios.Ramfs.{
  RamNode, Nodes, nil, node, ok, new_node, ramfs_add_file, ramfs_destroy, destroy_children,
  free_node, make_path, enter_child, skip_slash, ram_write,
}
use manios.Ramfs.Names.{elements}
use manios.Ramfs.Adding.{Adds, ramfs_add_file-Adds}
use manios.Ramfs.Files.{Writes, ram_write-Writes}

abbrev root : RamNode
root = new_node []

abbrev motd : RamNode
motd = record (new_node (109 ∷ 111 ∷ 116 ∷ 100 ∷ [])) { type = file; contents = 72 ∷ 105 ∷ [] }

abbrev tree : Nodes
tree = node (new_node (110 ∷ [])) nil (node motd nil nil)

-- "n/a"
abbrev below_n : List ℕ
below_n = 110 ∷ 47 ∷ 97 ∷ []

adds_below : (ramfs_add_file below_n (1 ∷ 2 ∷ []) root tree (true ∷ [])).rc ≡ ok
unfolding ramfs_add_file make_path enter_child skip_slash name_of after_name same
adds_below = refl

destroys : ramfs_destroy root tree ≡ some 3
unfolding ramfs_destroy destroy_children free_node
destroys = refl

ramfs_add_file-Adds_example :
    Adds
      (λ r. record r { type = file; contents = 1 ∷ 2 ∷ [] })
      (elements below_n)
      root
      tree
      (true ∷ [])
      (ramfs_add_file below_n (1 ∷ 2 ∷ []) root tree (true ∷ []))
ramfs_add_file-Adds_example = ramfs_add_file-Adds below_n (1 ∷ 2 ∷ []) root tree (true ∷ [])

ram_write-Writes_example : Writes true motd 4 (33 ∷ []) (ram_write true motd 4 (33 ∷ []))
ram_write-Writes_example = ram_write-Writes true motd 4 (33 ∷ []) (omega arith)
