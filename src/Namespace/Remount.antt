-- ===== src/Namespace/Remount.antt =====
-- ns_set_mount and ns_remove_mount change one path, and lose no reference.
use manios.Base.{
  ◌⊎◌, ℕ, ◌+◌, ◌%◌, ◌^◌, ◌≤◌, ◌≡◌, refl, inl, inr, Bool, true, false, List, if◌then◌else◌, arith,
  Bool-cases, Option-cases, length, none, some,
}
use manios.Namespace.CleanPath.{path_max}
use manios.Namespace.Locations.{Vnodes, Member}
use manios.Namespace.{Ns, same, find_mount, replace_mount, ns_set_mount, ns_remove_mount}
use manios.Namespace.Count.{count, total, refs-location_release}
use manios.Namespace.Mounts.{
  Distinct, find_mount-replace_mount, replace_mount-Distinct, find_mount-unlink_mount,
  unlink_mount-Distinct, total-replace_mount, total-replace_mount_new, total-unlink_mount,
}

-- The path has the location, and every other path what it had, where there is an entry or memory for
-- a new one; else the table is as it was.
abbrev pub Remounted : Bool → List ℕ → List Member → Ns → Vnodes → Bool × Ns × Vnodes → Type 0
Remounted memory canon loc ns st (true, ns', st') =
    ((memory ≡ true) ⊎ ((old : List Member) × (find_mount ns.mounts canon ≡ some old)))
    × Distinct ns'.mounts
    × ((p : List ℕ)
        → find_mount ns'.mounts p ≡ (if same canon p then some loc else find_mount ns.mounts p))
    × ((u : ℕ)
        → (st'.refs u + total u ns.mounts + count u loc) % 2 ^ 32
          ≡ (st.refs u + total u ns'.mounts) % 2 ^ 32)
Remounted memory canon loc ns st (false, ns', st') =
    (memory ≡ false)
    × (find_mount ns.mounts canon ≡ none)
    × (ns' ≡ ns)
    × ((u : ℕ) → (st'.refs u + count u loc) % 2 ^ 32 ≡ st.refs u % 2 ^ 32)

-- Where no path has two entries, ns_set_mount gives the path the location, leaves what every other
-- path finds, keeps the paths distinct and takes over the references of the location: the counts
-- are less by what the table no longer holds. Only where the path has no entry and kmalloc fails it
-- changes no entry, and drops the references of the location. Counts are modulo 2 ^ 32.
pub ns_set_mount-Remounted :
    (memory : Bool) (canon : List ℕ) (loc : List Member) (ns : Ns) (st : Vnodes)
    → length canon ≤ path_max
    → Distinct ns.mounts
    → Remounted memory canon loc ns st (ns_set_mount memory canon loc ns st)
unfolding ns_set_mount
ns_set_mount-Remounted memory canon loc ns st h d =
    elim (Option-cases (find_mount ns.mounts canon)) [
      | inl e ↦
          rw (ns_set_mount, e)
            (elim (Bool-cases memory) [
              | inl y ↦ rw y (
                inl refl,
                set,
                paths,
                λ u. omega (arith, total-replace_mount_new ns.mounts canon loc u e),
              )
              | inr y ↦ rw y (refl, e, refl, λ u. refs-location_release loc u st)
            ])
      | inr (old, e) ↦
          rw (ns_set_mount, e)
            (
              inr (old, e),
              set,
              paths,
              λ u. omega (
                arith,
                total-replace_mount ns.mounts canon loc old u e,
                refs-location_release old u st,
              ),
            )
    ]
  where
    set : Distinct (replace_mount canon loc ns.mounts)
    set = replace_mount-Distinct ns.mounts canon loc h d

    paths :
        (p : List ℕ)
        → find_mount (replace_mount canon loc ns.mounts) p
          ≡ (if same canon p then some loc else find_mount ns.mounts p)
    paths p = find_mount-replace_mount ns.mounts canon loc p h

-- The path had an entry; no path finds it once it is removed, and every other path finds what it did.
abbrev pub Unmounted : List ℕ → Ns → Vnodes → Bool × Ns × Vnodes → Type 0
Unmounted canon ns st (true, ns', st') =
    ((old : List Member) × (find_mount ns.mounts canon ≡ some old))
    × Distinct ns'.mounts
    × ((p : List ℕ)
        → find_mount ns'.mounts p ≡ (if same canon p then none else find_mount ns.mounts p))
    × ((u : ℕ)
        → (st'.refs u + total u ns.mounts) % 2 ^ 32 ≡ (st.refs u + total u ns'.mounts) % 2 ^ 32)
Unmounted canon ns st (false, ns', st') =
    (find_mount ns.mounts canon ≡ none) × (ns' ≡ ns) × (st' ≡ st)

-- Where no path has two entries, ns_remove_mount of a path with an entry removes it, leaves what
-- every other path finds and drops exactly the references that the entry held; of a path without
-- one it fails and changes nothing. Counts are modulo 2 ^ 32.
pub ns_remove_mount-Unmounted :
    (canon : List ℕ) (ns : Ns) (st : Vnodes)
    → Distinct ns.mounts
    → Unmounted canon ns st (ns_remove_mount canon ns st)
unfolding ns_remove_mount
ns_remove_mount-Unmounted canon ns st d = elim (Option-cases (find_mount ns.mounts canon)) [
  | inl e ↦ rw (ns_remove_mount, e) (e, refl, refl)
  | inr (old, e) ↦
      rw (ns_remove_mount, e)
        (
          (old, e),
          unlink_mount-Distinct ns.mounts canon d,
          (λ p. find_mount-unlink_mount ns.mounts canon p d),
          λ u.
              omega
                (arith, total-unlink_mount ns.mounts canon old u e, refs-location_release old u st),
        )
]
