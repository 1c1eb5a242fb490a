-- ===== src/Namespace/Count.antt =====
-- What the operations on locations do to the counts, modulo 2 ^ 32.
use manios.Base.{
  ℕ, ◌+◌, ◌%◌, ◌^◌, ◌≡◌, inl, inr, List, [], ◌∷◌, ◌++◌, ◌==◌, if◌then◌else◌, Bool-cases, arith,
}
use manios.Namespace.Locations.{
  Vnodes, vnode_ref, vnode_unref, Member, location_copy, location_release,
}
use manios.Namespace.{Mount, release_mounts}

abbrev pub one : ℕ → ℕ → ℕ
one u v = if u == v then 1 else 0

-- The members that are the vnode.
abbrev pub count : ℕ → List Member → ℕ
count u [] = 0
count u (m ∷ ms) = one u m.v + count u ms

abbrev pub total : ℕ → List Mount → ℕ
total u [] = 0
total u (m ∷ ms) = count u m.loc + total u ms

pub refs-vnode_ref :
    (v u : ℕ) (st : Vnodes) → (vnode_ref v st).refs u % 2 ^ 32 ≡ (st.refs u + one u v) % 2 ^ 32
unfolding vnode_ref
refs-vnode_ref v u st = elim (Bool-cases (u == v)) [
  | inl y ↦ rw y (omega arith)
  | inr y ↦ rw y (omega arith)
]

pub refs-vnode_unref :
    (v u : ℕ) (st : Vnodes) → ((vnode_unref v st).refs u + one u v) % 2 ^ 32 ≡ st.refs u % 2 ^ 32
unfolding vnode_unref
refs-vnode_unref v u st = elim (Bool-cases (u == v)) [
  | inl y ↦ let e : u ≡ v = ground (arith, y) in rw y (rw e (omega arith))
  | inr y ↦ rw y (omega arith)
]

pub refs-location_copy :
    (ms : List Member) (u : ℕ) (st : Vnodes)
    → (location_copy ms st).refs u % 2 ^ 32 ≡ (st.refs u + count u ms) % 2 ^ 32
unfolding location_copy
refs-location_copy [] u st = omega arith
refs-location_copy (m ∷ ms) u st =
    omega (arith, refs-location_copy ms u (vnode_ref m.v st), refs-vnode_ref m.v u st)

pub refs-location_release :
    (ms : List Member) (u : ℕ) (st : Vnodes)
    → ((location_release ms st).refs u + count u ms) % 2 ^ 32 ≡ st.refs u % 2 ^ 32
unfolding location_release
refs-location_release [] u st = omega arith
refs-location_release (m ∷ ms) u st =
    omega (arith, refs-location_release ms u (vnode_unref m.v st), refs-vnode_unref m.v u st)

pub refs-release_mounts :
    (ms : List Mount) (u : ℕ) (st : Vnodes)
    → ((release_mounts ms st).refs u + total u ms) % 2 ^ 32 ≡ st.refs u % 2 ^ 32
unfolding release_mounts
refs-release_mounts [] u st = omega arith
refs-release_mounts (m ∷ ms) u st =
    omega (
      arith,
      refs-release_mounts ms u (location_release m.loc st),
      refs-location_release m.loc u st,
    )

pub total-append : (u : ℕ) (ms ns : List Mount) → total u (ms ++ ns) ≡ total u ms + total u ns
total-append u [] ns = omega arith
total-append u (m ∷ ms) ns = omega (arith, total-append u ms ns)
