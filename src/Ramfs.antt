-- ===== src/Ramfs.antt =====
-- zkt/fs/ramfs.c: the in-memory tree. A node is its fields with two lists of nodes, `children` and
-- `next`, as its pointers have it; the data of a file is the list of its bytes, and its size their
-- number. What kmalloc gives is a list of answers, used in order; with none left it gives NULL.
pub mod Names
pub mod Tree
pub mod Paths
pub mod Descent
pub mod Making
pub mod Walking
pub mod Adding
pub mod Files
pub mod Truncation
mod Tests
use manios.Base.{
  ℕ, zero, suc, ◌+◌, ◌-◌, ◌%◌, ◌^◌, Bool, true, false, not, ◌&&◌, ◌||◌, Option, none, some, List,
  [], ◌∷◌, ltb, leb, ◌==◌, if◌then◌else◌, length, take, drop, replicate,
}
use manios.Base.Bytes.{blit}
use manios.Namespace.{same}
use manios.Namespace.CleanPath.{name_of, after_name, name_max}
use manios.Zrp.Msg.{VnodeType, dir, file, device, pipe}

pub record RamNode : Type 0 where
  pub name : List ℕ
  pub type : VnodeType
  pub refs : ℕ
  pub contents : List ℕ
  -- Whether `owned_data` is a block, and whether the operations are those of a writable file.
  pub owned : Bool
  pub writable : Bool

pub data Nodes : Type 0 where
  nil : Nodes
  node : RamNode → Nodes → Nodes → Nodes

pub data Status : Type 0 where
  ok name_too_long not_dir no_memory exists no_entry invalid out_of_fuel : Status

abbrev pub is_dir : VnodeType → Bool
is_dir dir = true
is_dir file = false
is_dir device = false
is_dir pipe = false

unfoldable pub ram_walk : List ℕ → Nodes → Option RamNode × Nodes
ram_walk name nil = (none, nil)
ram_walk name (node r children next) =
    let rest = ram_walk name next in
    let r' = record r { refs = (r.refs + 1) % 2 ^ 32 } in
    if same r.name name then (some r', node r' children next) else (rest.0, node r children rest.1)

-- The name, type and size of the entry at the index; none for the 0.
unfoldable pub ram_readdir : Nodes → ℕ → Option (List ℕ × VnodeType × ℕ)
ram_readdir nil index = none
ram_readdir (node r children next) zero = some (r.name, r.type, length r.contents)
ram_readdir (node r children next) (suc index) = ram_readdir next index

unfoldable pub ram_read : RamNode → ℕ → ℕ → List ℕ
ram_read r offset len =
    let size = length r.contents in
    if leb size offset
    then []
    else take (if ltb (size - offset) len then size - offset else len) (drop offset r.contents)

-- Whether kmalloc gives a new buffer is `memory`.
unfoldable pub ram_write : Bool → RamNode → ℕ → List ℕ → Status × RamNode
ram_write memory r offset bytes =
    let len = length bytes in
    let end = (offset + len) % 2 ^ 32 in
    let size = if ltb (length r.contents) end then end else length r.contents in
    if ltb (2 ^ 32 - 1 - offset) len
    then (invalid, r)
    else if len == 0
    then (ok, r)
    else if not memory
    then (no_memory, r)
    else (
      ok,
      record r {
        contents = blit (blit (replicate size 0) 0 r.contents) offset bytes;
        owned = true;
      },
    )

unfoldable pub ram_truncate : Bool → RamNode → ℕ → Status × RamNode
ram_truncate memory r size =
    let copy = if ltb (length r.contents) size then length r.contents else size in
    if size == length r.contents
    then (ok, r)
    else if size == 0
    then (ok, record r { contents = []; owned = false })
    else if not memory
    then (no_memory, r)
    else (
      ok,
      record r { contents = blit (replicate size 0) 0 (take copy r.contents); owned = true },
    )

abbrev pub new_node : List ℕ → RamNode
new_node name = record {
  name = name;
  type = dir;
  refs = 1;
  contents = [];
  owned = false;
  writable = false;
}

-- What make_path leaves of the node that it starts at.
pub record Made : Type 0 where
  pub rc : Status
  pub node_at : RamNode
  pub children : Nodes
  pub memory : List Bool

pub record Entered : Type 0 where
  pub rc : Status
  pub nodes : Nodes
  pub memory : List Bool

abbrev pub at_child : Made → Nodes → Entered
at_child m next = record { rc = m.rc; nodes = node m.node_at m.children next; memory = m.memory }

-- The search for the name among the children, the creation of what is missing, and what `go` does
-- there.
unfoldable pub enter_child :
    (RamNode → Nodes → List Bool → Made) → List ℕ → List Bool → Nodes → Entered
enter_child go name [] nil = record { rc = no_memory; nodes = nil; memory = [] }
enter_child go name (false ∷ memory) nil = record { rc = no_memory; nodes = nil; memory = memory }
enter_child go name (true ∷ memory) nil = at_child (go (new_node name) nil memory) nil
enter_child go name memory (node r children next) =
    let rest = enter_child go name memory next in
    if same r.name name
    then at_child (go r children memory) next
    else record rest { nodes = node r children rest.nodes }

-- `if (*path == '/') path++`
unfoldable pub skip_slash : List ℕ → List ℕ
skip_slash [] = []
skip_slash (c ∷ path) = if c == b'/' then path else c ∷ path

-- What the caller of make_path does with the node it gets: whether it is the root, its fields and
-- children.
abbrev pub Finish : Type 0
Finish = Bool → RamNode → Nodes → Status × RamNode

abbrev pub fails : Status → RamNode → Nodes → List Bool → Made
fails rc r children memory = record { rc = rc; node_at = r; children = children; memory = memory }

-- make_path from a node on, and what its caller does then; a unit of fuel for each round.
unfoldable pub make_path : ℕ → List ℕ → Finish → Bool → RamNode → Nodes → List Bool → Made
unfolding skip_slash enter_child
make_path zero path finish root r children memory = fails out_of_fuel r children memory
make_path (suc fuel) [] finish root r children memory =
    let f = finish root r children in fails f.0 f.1 children memory
make_path (suc fuel) (c ∷ path) finish root r children memory =
    let name = name_of (c ∷ path) in
    let rest = skip_slash (after_name (c ∷ path)) in
    let again = make_path fuel rest finish root r children memory in
    let e = enter_child (make_path fuel rest finish false) name memory children in
    if ltb name_max (length name)
    then fails name_too_long r children memory
    else if length name == 0
    then again
    else if not (is_dir r.type)
    then fails not_dir r children memory
    else record { rc = e.rc; node_at = r; children = e.nodes; memory = e.memory }

abbrev on_tree : List ℕ → Finish → RamNode → Nodes → List Bool → Made
on_tree path finish root children memory =
    make_path (length path + 1) path finish true root children memory

unfoldable pub ramfs_create : Bool → Option RamNode
ramfs_create true = some (new_node [])
ramfs_create false = none

abbrev pub finish_dir : Finish
finish_dir is_root r children = (if is_dir r.type then ok else exists, r)

unfoldable pub ramfs_mkdir : List ℕ → RamNode → Nodes → List Bool → Made
unfolding make_path
ramfs_mkdir path root children memory = on_tree path finish_dir root children memory

abbrev pub has_children : Nodes → Bool
has_children nil = false
has_children (node r children next) = true

abbrev pub finish_file : List ℕ → Finish
finish_file contents is_root r children =
    if has_children children || is_root
    then (exists, r)
    else (ok, record r { type = file; contents = contents })

unfoldable pub ramfs_add_file : List ℕ → List ℕ → RamNode → Nodes → List Bool → Made
unfolding make_path
ramfs_add_file path contents root children memory =
    on_tree path (finish_file contents) root children memory

abbrev pub finish_mutable : Finish
finish_mutable is_root r children =
    if has_children children || is_root
    then (exists, r)
    else (ok, record r { type = file; contents = []; owned = false; writable = true })

unfoldable pub ramfs_add_mutable_file : List ℕ → RamNode → Nodes → List Bool → Made
unfolding make_path
ramfs_add_mutable_file path root children memory = on_tree path finish_mutable root children memory

-- The blocks that destroy frees of a node, once those of its children are; none for the panic.
unfoldable pub free_node : RamNode → Option ℕ → Option ℕ
free_node r none = none
free_node r (some n) = if not (r.refs == 1) then none else some (n + (if r.owned then 2 else 1))

abbrev both_freed : Option ℕ → Option ℕ → Option ℕ
both_freed none n = none
both_freed (some m) none = none
both_freed (some m) (some n) = some (m + n)

unfoldable pub destroy_children : Nodes → Option ℕ
unfolding free_node
destroy_children nil = some 0
destroy_children (node r children next) =
    both_freed (free_node r (destroy_children children)) (destroy_children next)

unfoldable pub ramfs_destroy : RamNode → Nodes → Option ℕ
unfolding free_node destroy_children
ramfs_destroy root children = free_node root (destroy_children children)
