-- ===== src/Namespace.antt =====
-- zkt/fs/namespace.c: paths and the mount tables that they are resolved in. A vnode is its number,
-- a location the list of its members, and a string the list of its bytes. The walk operation of a
-- file system is a parameter.
pub mod CleanPath
pub mod Locations
pub mod Mounts
pub mod Count
pub mod Remount
pub mod Fork
pub mod Resolve
mod Tests
use manios.Base.{
  ℕ, zero, suc, ◌+◌, ◌-◌, ◌%◌, ◌^◌, Bool, true, false, not, ◌&&◌, List, [], ◌∷◌, ◌++◌, ◌==◌,
  if◌then◌else◌, take, drop, length, Option, none, some,
}
use manios.Namespace.Locations.{
  Vnodes, vnode_ref, vnode_unref, Member, set_label, location_copy, location_release,
}
use manios.Namespace.CleanPath.{
  Cleaned, cleaned, not_absolute, name_too_long, path_max, name_of, after_name, clean_path,
}

pub record Mount : Type 0 where
  pub path : List ℕ
  pub loc : List Member

pub record Ns : Type 0 where
  pub refs : ℕ
  pub root : ℕ
  pub mounts : List Mount

-- strcmp(a, b) == 0
unfoldable pub same : List ℕ → List ℕ → Bool
same [] [] = true
same [] (y ∷ ys) = false
same (x ∷ xs) [] = false
same (x ∷ xs) (y ∷ ys) = x == y && same xs ys

pub find_mount : List Mount → List ℕ → Option (List Member)
unfolding same
find_mount [] canon = none
find_mount (m ∷ ms) canon =
    let rest = find_mount ms canon in if same m.path canon then some m.loc else rest

-- kmalloc gives memory for a namespace, or not.
pub ns_create : Bool → ℕ → Vnodes → Option Ns × Vnodes
ns_create false root st = (none, st)
ns_create true root st = (some (record { refs = 1; root = root; mounts = [] }), vnode_ref root st)

-- `while (ns->mounts)`
pub release_mounts : List Mount → Vnodes → Vnodes
unfolding location_release
release_mounts [] st = st
release_mounts (m ∷ ms) st = release_mounts ms (location_release m.loc st)

abbrev pub ns_ref : Option Ns → Option Ns
ns_ref none = none
ns_ref (some ns) = some (record ns { refs = (ns.refs + 1) % 2 ^ 32 })

-- The namespace that is left, if any.
pub ns_unref : Option Ns → Vnodes → Option Ns × Vnodes
unfolding release_mounts
ns_unref none st = (none, st)
ns_unref (some ns) st =
    let left = (ns.refs + 2 ^ 32 - 1) % 2 ^ 32 in
    if not (left == 0)
    then (some (record ns { refs = left }), st)
    else (none, vnode_unref ns.root (release_mounts ns.mounts st))

-- The loop of ns_fork: whether every copy got memory, and the copies. `alloc k` tells whether the
-- k-th kmalloc gives memory.
pub copy_mounts : List Mount → (ℕ → Bool) → ℕ → List Mount → Vnodes → Bool × List Mount × Vnodes
unfolding location_copy
copy_mounts [] alloc k copies st = (true, copies, st)
copy_mounts (m ∷ ms) alloc k copies st =
    let copy : Mount = record { path = take path_max m.path; loc = m.loc } in
    let rest = copy_mounts ms alloc (suc k) (copies ++ (copy ∷ [])) (location_copy m.loc st) in
    if alloc k then rest else (false, copies, st)

-- The rest of ns_fork, once ns_create has run.
pub fork_mounts : (ℕ → Bool) → Ns → Option Ns → Vnodes → Option Ns × Vnodes
unfolding copy_mounts ns_unref
fork_mounts alloc src none st = (none, st)
fork_mounts alloc src (some ns) st =
    let (ok, copies, st') = copy_mounts src.mounts alloc 1 [] st in
    if ok
    then (some (record ns { mounts = copies }), st')
    else (none, (ns_unref (some (record ns { mounts = copies })) st').1)

pub ns_fork : (ℕ → Bool) → Ns → Vnodes → Option Ns × Vnodes
unfolding ns_create fork_mounts
ns_fork alloc src st =
    let (ns, st') = ns_create (alloc 0) src.root st in fork_mounts alloc src ns st'

-- The entry for the path is given the location, or a new one is added at the end.
pub replace_mount : List ℕ → List Member → List Mount → List Mount
replace_mount canon loc [] = record { path = take path_max canon; loc = loc } ∷ []
replace_mount canon loc (m ∷ ms) =
    let rest = replace_mount canon loc ms in
    if same m.path canon then record m { loc = loc } ∷ ms else m ∷ rest

-- False for the -ENOMEM. kmalloc runs only where the path has no entry.
pub ns_set_mount : Bool → List ℕ → List Member → Ns → Vnodes → Bool × Ns × Vnodes
unfolding find_mount replace_mount location_release
ns_set_mount memory canon loc ns st =
    let ns' = record ns { mounts = replace_mount canon loc ns.mounts } in
    elim (find_mount ns.mounts canon) [
      | some old ↦ (true, ns', location_release old st)
      | none ↦ if memory then (true, ns', st) else (false, ns, location_release loc st)
    ]

pub unlink_mount : List ℕ → List Mount → List Mount
unlink_mount canon [] = []
unlink_mount canon (m ∷ ms) =
    let rest = unlink_mount canon ms in if same m.path canon then ms else m ∷ rest

-- False for the -ENOENT.
pub ns_remove_mount : List ℕ → Ns → Vnodes → Bool × Ns × Vnodes
unfolding find_mount unlink_mount location_release
ns_remove_mount canon ns st = elim (find_mount ns.mounts canon) [
  | some old ↦ (true, record ns { mounts = unlink_mount canon ns.mounts }, location_release old st)
  | none ↦ (false, ns, st)
]

-- apply_mount on what a path has resolved to so far.
pub apply_mount : List Mount → List ℕ → List Member → Vnodes → List Member × Vnodes
unfolding find_mount location_copy location_release
apply_mount mounts canon loc st = elim (find_mount mounts canon) [
  | some mounted ↦ (mounted, location_release loc (location_copy mounted st))
  | none ↦ (loc, st)
]

-- A negated error of a walk, or the vnode found, on which the walk has taken a reference.
pub data Walked : Type 0 where
  found : ℕ → Walked
  walk_failed : ℕ → Walked

-- What ns_resolve gives: the location and the cleaned path, or the error.
pub data Resolved : Type 0 where
  resolved : List Member → List ℕ → Vnodes → Resolved
  resolve_failed : ℕ → Vnodes → Resolved

abbrev pub enotdir : ℕ
enotdir = 20

abbrev pub einval : ℕ
einval = 22

abbrev pub enametoolong : ℕ
enametoolong = 36

-- `can_walk` tells of a directory with a walk operation.
module _ (can_walk : ℕ → Bool) (walk : ℕ → List ℕ → Walked) where
  -- walk_location, with `rc` the error so far.
  pub walk_location : List Member → List ℕ → ℕ → Walked
  walk_location [] name rc = walk_failed rc
  walk_location (m ∷ ms) name rc =
      if not (can_walk m.v)
      then walk_location ms name rc
      else elim (walk m.v name) [ found v ↦ found v | walk_failed r ↦ walk_location ms name r ]

  -- The loop of ns_resolve, on fuel, with the prefix walked and what it resolved to.
  pub resolve_loop : ℕ → List Mount → List ℕ → List ℕ → List Member → Vnodes → Resolved
  unfolding walk_location apply_mount
  resolve_loop zero mounts p prefix loc st = resolved loc prefix st
  resolve_loop (suc fuel) mounts [] prefix loc st = resolved loc prefix st
  resolve_loop (suc fuel) mounts (c ∷ cs) prefix loc st =
      let name = name_of (c ∷ cs) in
      elim (walk_location loc name enotdir) [
        | walk_failed rc ↦ resolve_failed rc (location_release loc st)
        | found next ↦
            let prefix' = prefix ++ (b'/' ∷ name) in
            let (loc', st') =
              apply_mount mounts prefix' (set_label next prefix' ∷ [])
                (location_release loc (vnode_ref next st)) in
            resolve_loop fuel mounts (drop 1 (after_name (c ∷ cs))) prefix' loc' st'
      ]

  -- The rest of ns_resolve, once the loop has ended: `canon` is the cleaned path.
  pub end_resolve : List ℕ → Resolved → Resolved
  end_resolve clean (resolved loc prefix st) = resolved loc clean st
  end_resolve clean (resolve_failed rc st) = resolve_failed rc st

  -- The rest of ns_resolve, once the path is cleaned.
  pub resolve_clean : Ns → Vnodes → Cleaned → Resolved
  unfolding resolve_loop end_resolve
  resolve_clean ns st not_absolute = resolve_failed einval st
  resolve_clean ns st name_too_long = resolve_failed enametoolong st
  resolve_clean ns st (cleaned clean) =
      let (loc, st') =
        apply_mount ns.mounts (b'/' ∷ []) (set_label ns.root (b'/' ∷ []) ∷ [])
          (vnode_ref ns.root st) in
      end_resolve clean (resolve_loop (length clean) ns.mounts (drop 1 clean) [] loc st')

  pub ns_resolve : Ns → List ℕ → Vnodes → Resolved
  unfolding resolve_clean
  ns_resolve ns path st = resolve_clean ns st (clean_path path)
