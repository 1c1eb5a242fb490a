-- ===== src/Namespace/Locations.antt =====
-- vnode_ref and vnode_unref of zkt/fs/vfs.c, and the locations of zkt/fs/namespace.c, each with a
-- reference on its members.
use manios.Base.{ℕ, ◌+◌, ◌-◌, ◌%◌, ◌^◌, ◌==◌, if◌then◌else◌, List, [], ◌∷◌, take}

-- The reference counts of the vnodes, and the vnodes released with their last one, newest first.
pub record Vnodes : Type 0 where
  pub refs : ℕ → ℕ
  pub released : List ℕ

unfoldable pub vnode_ref : ℕ → Vnodes → Vnodes
vnode_ref v st = record st { refs = λ u. if u == v then (st.refs u + 1) % 2 ^ 32 else st.refs u }

unfoldable pub vnode_unref : ℕ → Vnodes → Vnodes
vnode_unref v st =
    let left = (st.refs v + 2 ^ 32 - 1) % 2 ^ 32 in
    record {
      refs = λ u. if u == v then left else st.refs u;
      released = if left == 0 then v ∷ st.released else st.released;
    }

-- A member of a location: a vnode, and the label that says where it came from.
pub record Member : Type 0 where
  pub v : ℕ
  pub label : List ℕ

-- set_label: LOCATION_LABEL_MAX bytes with the NUL
abbrev pub set_label : ℕ → List ℕ → Member
set_label v label = record { v = v; label = take 31 label }

-- The references of location_copy.
unfoldable pub location_copy : List Member → Vnodes → Vnodes
unfolding vnode_ref
location_copy [] st = st
location_copy (m ∷ ms) st = location_copy ms (vnode_ref m.v st)

unfoldable pub location_release : List Member → Vnodes → Vnodes
unfolding vnode_unref
location_release [] st = st
location_release (m ∷ ms) st = location_release ms (vnode_unref m.v st)
