-- ===== src/Namespace/Fork.antt =====
-- ns_fork copies the mount table, and a fork that fails leaves no reference behind.
use manios.Base.{
  zero, false, take, ◌<◌, ◌==◌, ℕ, suc, ◌+◌, ◌%◌, ◌^◌, ◌≤◌, ◌≡◌, refl, ap, ◌∙◌, inl, inr, true,
  List, [], ◌∷◌, ◌++◌, Bool, Bool-cases, arith, All, length, Option, none, some, append-nil,
  append_assoc, take-whole, true-ne-false,
}
use manios.Namespace.CleanPath.{path_max}
use manios.Namespace.Locations.{Vnodes, vnode_ref, location_copy}
use manios.Namespace.{
  Mount, Ns, copy_mounts, ns_create, fork_mounts, ns_fork, ns_unref, release_mounts,
}
use manios.Namespace.Count.{
  one, total, total-append, refs-vnode_ref, refs-vnode_unref, refs-location_copy,
  refs-release_mounts,
}

-- Paths that fit the buffer of an entry.
abbrev pub PathsFit : List Mount → Type 0
PathsFit ms = All (λ m. length m.path ≤ path_max) ms

-- The copies, and what they hold.
copy_mounts_lem :
    (ms : List Mount) (alloc : ℕ → Bool) (k : ℕ) (copies : List Mount) (st : Vnodes)
    → PathsFit ms
    → let r = copy_mounts ms alloc k copies st in
      (r.0 ≡ true → r.1 ≡ copies ++ ms)
      × ((u : ℕ) → (r.2.refs u + total u copies) % 2 ^ 32 ≡ (st.refs u + total u r.1) % 2 ^ 32)
unfolding copy_mounts
copy_mounts_lem [] alloc k copies st f = (λ y. rw (append-nil copies) refl, λ u. refl)
copy_mounts_lem (m ∷ ms) alloc k copies st f = elim (Bool-cases (alloc k)) [
  | inl y ↦
      let ih = copy_mounts_lem ms alloc (suc k) (copies ++ (m ∷ [])) (location_copy m.loc st) f.1 in
      rw y (
        rw (take-whole path_max m.path f.0) (
          (λ e. ih.0 e ∙ append_assoc copies (m ∷ []) ms),
          λ u. omega (arith, ih.1 u, total-append u copies (m ∷ []), refs-location_copy m.loc u st),
        ))
  | inr y ↦ rw y ((λ e. absurd (true-ne-false e refl)), λ u. refl)
]

-- Every copy got memory, or one did not.
copy_mounts-alloc :
    (ms : List Mount) (alloc : ℕ → Bool) (k : ℕ) (copies : List Mount) (st : Vnodes)
    → let r = copy_mounts ms alloc k copies st in
      (r.0 ≡ true → (i : ℕ) → k ≤ i → i < k + length ms → alloc i ≡ true)
      × (r.0 ≡ false → (i : ℕ) × (i < k + length ms) × (alloc i ≡ false))
unfolding copy_mounts
copy_mounts-alloc [] alloc k copies st =
    (λ e i lo hi. absurd (omega (arith, lo, hi)), λ e. absurd (true-ne-false refl e))
copy_mounts-alloc (m ∷ ms) alloc k copies st = elim (Bool-cases (alloc k)) [
  | inl y ↦
      let copy : Mount = record { path = take path_max m.path; loc = m.loc } in
      let ih =
        copy_mounts-alloc ms alloc (suc k) (copies ++ (copy ∷ [])) (location_copy m.loc st) in
      rw y (
        (λ e i lo hi. elim (Bool-cases (i == k)) [
          | inl z ↦ let same : i ≡ k = ground (arith, z) in rw same y
          | inr z ↦ ih.0 e i (ground (arith, z, lo)) (omega (arith, hi))
        ]),
        λ e. let (i, lt, f) = ih.1 e in (i, omega (arith, lt), f),
      )
  | inr y ↦ rw y ((λ e. absurd (true-ne-false e refl)), λ e. (k, omega arith, y))
]

-- A fork has its own copy of the table and a reference on each vnode of it; a failed one has none.
abbrev pub Forked : (ℕ → Bool) → Ns → Vnodes → Option Ns × Vnodes → Type 0
Forked alloc src st (none, st') =
    ((i : ℕ) × (i ≤ length src.mounts) × (alloc i ≡ false))
    × ((u : ℕ) → st'.refs u % 2 ^ 32 ≡ st.refs u % 2 ^ 32)
Forked alloc src st (some ns, st') =
    ((i : ℕ) → i ≤ length src.mounts → alloc i ≡ true)
    × (ns.refs ≡ 1)
    × (ns.root ≡ src.root)
    × (ns.mounts ≡ src.mounts)
    × ((u : ℕ) → st'.refs u % 2 ^ 32 ≡ (st.refs u + one u src.root + total u src.mounts) % 2 ^ 32)

-- Where every kmalloc gives memory, ns_fork gives a namespace with one reference, the root and the
-- mount table of the source, and counts one more reference on the root and on each member mounted.
-- Where one of them fails, it gives nothing and leaves every count as it was. Every path of the
-- table is one that a mount entry holds. Counts are modulo 2 ^ 32.
pub ns_fork-Forked :
    (alloc : ℕ → Bool) (src : Ns) (st : Vnodes)
    → PathsFit src.mounts
    → Forked alloc src st (ns_fork alloc src st)
unfolding ns_fork ns_create fork_mounts ns_unref
ns_fork-Forked alloc src st f = elim (Bool-cases (alloc 0)) [
  | inl y ↦ rw y (elim (Bool-cases (copy_mounts src.mounts alloc 1 [] first).0) [
    | inl z ↦ rw z (
      given y z,
      refl,
      refl,
      lem.0 z,
      λ u. omega (arith, lem.1 u, ap (total u) (lem.0 z), refs-vnode_ref src.root u st),
    )
    | inr z ↦ rw z (
      missing z,
      λ u. omega (
        arith,
        refs-vnode_unref src.root u (release_mounts copied.1 copied.2),
        refs-release_mounts copied.1 u copied.2,
        lem.1 u,
        refs-vnode_ref src.root u st,
      ),
    )
  ])
  | inr y ↦ rw y ((0, omega arith, y), λ u. refl)
]
  where
    given :
        alloc 0 ≡ true
        → (copy_mounts src.mounts alloc 1 [] (vnode_ref src.root st)).0 ≡ true
        → (i : ℕ) → i ≤ length src.mounts
        → alloc i ≡ true
    given y z zero h = y
    given y z (suc i) h =
        (copy_mounts-alloc src.mounts alloc 1 [] (vnode_ref src.root st)).0 z (suc i) (omega arith)
          (omega (arith, h))

    missing :
        (copy_mounts src.mounts alloc 1 [] (vnode_ref src.root st)).0 ≡ false
        → (i : ℕ) × (i ≤ length src.mounts) × (alloc i ≡ false)
    missing z =
        let (i, lt, f) = (copy_mounts-alloc src.mounts alloc 1 [] (vnode_ref src.root st)).1 z in
        (i, omega (arith, lt), f)

    first : Vnodes
    first = vnode_ref src.root st

    copied : Bool × List Mount × Vnodes
    copied = copy_mounts src.mounts alloc 1 [] first

    lem :
        let r = copy_mounts src.mounts alloc 1 [] first in
        (r.0 ≡ true → r.1 ≡ src.mounts)
        × ((u : ℕ) → (r.2.refs u + 0) % 2 ^ 32 ≡ (first.refs u + total u r.1) % 2 ^ 32)
    lem = copy_mounts_lem src.mounts alloc 1 [] first f
