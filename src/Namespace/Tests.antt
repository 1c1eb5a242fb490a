-- ===== src/Namespace/Tests.antt =====
-- A namespace with "/a" mounted, and a file system in which every name leads to vnode 7.
use manios.Base.{ℕ, ◌≡◌, refl, Bool, true, List, [], ◌∷◌, none, arith}
use manios.Namespace.Locations.{Vnodes, Member}
use manios.Namespace.{
  Ns, Walked, found, ns_fork, ns_set_mount, ns_remove_mount, ns_resolve, find_mount,
}
use manios.Namespace.Fork.{Forked, ns_fork-Forked}
use manios.Namespace.Remount.{
  Remounted, Unmounted, ns_set_mount-Remounted, ns_remove_mount-Unmounted,
}
use manios.Namespace.Resolve.{Resolves, visit_path, ns_resolve-Resolves}

abbrev a_path : List ℕ
a_path = b'/' ∷ b'a' ∷ []

abbrev a_member : Member
a_member = record { v = 3; label = a_path }

abbrev vnodes : Vnodes
vnodes = record { refs = λ u. 1; released = [] }

abbrev with_a : Ns
with_a = record { refs = 1; root = 0; mounts = record { path = a_path; loc = a_member ∷ [] } ∷ [] }

abbrev all_directories : ℕ → Bool
all_directories v = true

abbrev walk_to_seven : ℕ → List ℕ → Walked
walk_to_seven v name = found 7

ns_fork-Forked_example : Forked (λ k. true) with_a vnodes (ns_fork (λ k. true) with_a vnodes)
ns_fork-Forked_example = ns_fork-Forked (λ k. true) with_a vnodes (omega arith, tt)

not_found : find_mount [] a_path ≡ none
unfolding find_mount
not_found = refl

ns_set_mount-Remounted_example :
    Remounted true a_path
      (a_member ∷ [])
      with_a
      vnodes
      (ns_set_mount true a_path (a_member ∷ []) with_a vnodes)
ns_set_mount-Remounted_example =
    ns_set_mount-Remounted true a_path (a_member ∷ []) with_a vnodes (omega arith) (not_found, tt)

ns_remove_mount-Unmounted_example :
    Unmounted a_path with_a vnodes (ns_remove_mount a_path with_a vnodes)
ns_remove_mount-Unmounted_example = ns_remove_mount-Unmounted a_path with_a vnodes (not_found, tt)

ns_resolve-Resolves_example :
    Resolves all_directories walk_to_seven with_a vnodes
      (visit_path all_directories walk_to_seven with_a a_path)
      (ns_resolve all_directories walk_to_seven with_a a_path vnodes)
ns_resolve-Resolves_example = ns_resolve-Resolves all_directories walk_to_seven with_a a_path vnodes
