-- ===== src/Namespace/Resolve.antt =====
-- ns_resolve walks the names of the cleaned path from the root, and holds a reference on each
-- member of what it resolves to, and on nothing where it fails.
use manios.Base.{
  ℕ, zero, suc, ◌+◌, ◌%◌, ◌^◌, ◌≤◌, ◌≡◌, refl, sym, ap, ◌∙◌, ◌⊎◌, inl, inr, Bool, List, [], ◌∷◌,
  ◌++◌, if◌then◌else◌, arith, All, Bool-cases, Option-cases, length, length-append, length-drop,
  drop, get_or, Option, none, some, append_assoc, append-nil,
}
use manios.Namespace.CleanPath.{is_slash, name_of, after_name}
use manios.Namespace.CleanPath.Names.{NoSlash, names, path_to, below_root, follow_all, outcome}
use manios.Namespace.CleanPath.Loop.{IsName, clean_path-meaning}
use manios.Namespace.CleanPath.Canonical.{Canonical, AllCanonical, follow_all-AllCanonical}
use manios.Namespace.Locations.{
  Vnodes, vnode_ref, Member, set_label, location_copy, location_release,
}
use manios.Namespace.{
  Mount, Ns, find_mount, apply_mount, Walked, found, walk_failed, Resolved, resolved,
  resolve_failed, enotdir, einval, enametoolong, walk_location, resolve_loop, end_resolve,
  resolve_clean, ns_resolve,
}
use manios.Namespace.Count.{count, refs-vnode_ref, refs-location_copy, refs-location_release}

-- The counts are those of `base` and one for each member.
abbrev pub Holds : Vnodes → List Member → Vnodes → Type 0
Holds base loc st = (u : ℕ) → st.refs u % 2 ^ 32 ≡ (base.refs u + count u loc) % 2 ^ 32

-- What stands at a path of the table, else `loc`.
abbrev pub mounted : List Mount → List ℕ → List Member → List Member
mounted mounts p loc = elim (find_mount mounts p) [ some l ↦ l | none ↦ loc ]

apply_mount_lem :
    (mounts : List Mount) (p : List ℕ) (loc : List Member) (base st : Vnodes)
    → Holds base loc st
    → let r = apply_mount mounts p loc st in (r.0 ≡ mounted mounts p loc) × Holds base r.0 r.1
unfolding apply_mount
apply_mount_lem mounts p loc base st h = elim (Option-cases (find_mount mounts p)) [
  | inl e ↦ rw (apply_mount, e) (rw (mounted, e) refl, h)
  | inr (l, e) ↦
      rw (apply_mount, e)
        (
          rw (mounted, e) refl,
          λ u. omega (
            arith,
            h u,
            refs-location_release loc u (location_copy l st),
            refs-location_copy l u st,
          ),
        )
]

pub data Visited : Type 0 where
  visited : List Member → Visited
  visit_failed : ℕ → Visited

Walked-cases : (w : Walked) → ((rc : ℕ) × (w ≡ walk_failed rc)) ⊎ ((v : ℕ) × (w ≡ found v))
Walked-cases (walk_failed rc) = inl (rc, refl)
Walked-cases (found v) = inr (v, refl)

-- The names in their order, each behind a slash.
slashed : List (List ℕ) → List ℕ
slashed [] = []
slashed (n ∷ ns) = b'/' ∷ (n ++ slashed ns)

abbrev pub in_order : List (List ℕ) → List (List ℕ) → List (List ℕ)
in_order [] ns = ns
in_order (n ∷ s) ns = in_order s (n ∷ ns)

slashed-in_order : (s ns : List (List ℕ)) → slashed (in_order s ns) ≡ below_root s ++ slashed ns
unfolding slashed below_root
slashed-in_order [] ns = refl
slashed-in_order (n ∷ s) ns =
    slashed-in_order s (n ∷ ns) ∙ sym (append_assoc (below_root s) (b'/' ∷ n) (slashed ns))

drop-path_to : (s : List (List ℕ)) → drop 1 (path_to s) ≡ drop 1 (slashed (in_order s []))
unfolding path_to slashed
drop-path_to [] = refl
drop-path_to (n ∷ s) =
    rw (slashed-in_order (n ∷ s) []) (ap (drop 1) (sym (append-nil (below_root (n ∷ s)))))

in_order-IsName : (s ns : List (List ℕ)) → Canonical s → All IsName ns → All IsName (in_order s ns)
in_order-IsName [] ns g h = h
in_order-IsName (n ∷ s) ns g h = in_order-IsName s (n ∷ ns) g.1 ((g.0.not_empty, g.0.no_slash), h)

name_of-slashed : (n : List ℕ) (ns : List (List ℕ)) → NoSlash n → name_of (n ++ slashed ns) ≡ n
unfolding name_of slashed
name_of-slashed [] [] h = refl
name_of-slashed [] (m ∷ ns) h = refl
name_of-slashed (c ∷ n) ns h = rw (h.0, name_of-slashed n ns h.1) refl

after_name-slashed :
    (n : List ℕ) (ns : List (List ℕ)) → NoSlash n → after_name (n ++ slashed ns) ≡ slashed ns
unfolding after_name slashed
after_name-slashed [] [] h = refl
after_name-slashed [] (m ∷ ns) h = refl
after_name-slashed (c ∷ n) ns h = rw (h.0, after_name-slashed n ns h.1) refl

module _ (can_walk : ℕ → Bool) (walk : ℕ → List ℕ → Walked) (ns : Ns) where
  -- The walk of the names: each is looked up in what the names before it lead to, and a mount at
  -- its path stands in for it.
  pub visit : List (List ℕ) → List ℕ → List Member → Visited
  visit [] prefix loc = visited loc
  visit (n ∷ rest) prefix loc =
      let prefix' = prefix ++ (b'/' ∷ n) in
      elim (walk_location can_walk walk loc n enotdir) [
        | walk_failed rc ↦ visit_failed rc
        | found v ↦ visit rest prefix' (mounted ns.mounts prefix' (set_label v prefix' ∷ []))
      ]

  -- What a path leads to: an error, or the walk of its names from what stands at the root.
  abbrev pub visit_names : Option (List (List ℕ)) → Visited
  visit_names none = visit_failed enametoolong
  visit_names (some s) =
      visit (in_order s []) [] (mounted ns.mounts (b'/' ∷ []) (set_label ns.root (b'/' ∷ []) ∷ []))

  abbrev pub visit_path : List ℕ → Visited
  visit_path path =
      if is_slash (get_or path 0 0)
      then visit_names (follow_all [] (names path))
      else visit_failed einval

  -- The result is the one expected, and the references held are its own.
  abbrev pub Resolves : Vnodes → Visited → Resolved → Type 0
  Resolves base w (resolved loc clean st) = (w ≡ visited loc) × Holds base loc st
  Resolves base w (resolve_failed rc st) = (w ≡ visit_failed rc) × Holds base [] st

  resolve_loop-Resolves :
      (fuel : ℕ) (rest : List (List ℕ)) (prefix : List ℕ) (loc : List Member) (base st : Vnodes)
      → length (drop 1 (slashed rest)) ≤ fuel
      → All IsName rest
      → Holds base loc st
      → Resolves base
          (visit rest prefix loc)
          (resolve_loop can_walk walk fuel ns.mounts (drop 1 (slashed rest)) prefix loc st)
  unfolding slashed visit resolve_loop
  resolve_loop-Resolves zero [] prefix loc base st h g k = (refl, k)
  resolve_loop-Resolves (suc fuel) [] prefix loc base st h g k = (refl, k)
  resolve_loop-Resolves fuel ([] ∷ rest) prefix loc base st h g k = absurd (omega (arith, g.0.0))
  resolve_loop-Resolves zero ((c ∷ n) ∷ rest) prefix loc base st h g k = absurd (omega arith)
  resolve_loop-Resolves (suc fuel) ((c ∷ n) ∷ rest) prefix loc base st h g k =
      elim (Walked-cases (walk_location can_walk walk loc (c ∷ n) enotdir)) [
        | inl (rc, e) ↦
            rw (resolve_loop, visit, name_of-slashed (c ∷ n) rest g.0.1, e)
              (refl, λ u. omega (arith, k u, refs-location_release loc u st))
        | inr (v, e) ↦
            let p = prefix ++ (b'/' ∷ c ∷ n) in
            let m =
              apply_mount_lem ns.mounts p (set_label v p ∷ []) base
                (location_release loc (vnode_ref v st))
                (λ u. omega (
                  arith,
                  k u,
                  refs-vnode_ref v u st,
                  refs-location_release loc u (vnode_ref v st),
                )) in
            rw
              (
                resolve_loop,
                visit,
                name_of-slashed (c ∷ n) rest g.0.1,
                e,
                name_of-slashed (c ∷ n) rest g.0.1,
                after_name-slashed (c ∷ n) rest g.0.1,
                sym m.0,
              )
              (resolve_loop-Resolves fuel rest p _ base _
                (omega (arith, h, length-append n (slashed rest), length-drop 1 (slashed rest))) g.1
                m.1)
      ]

  -- What the loop gives, with the cleaned path.
  end_resolve-Resolves :
      (base : Vnodes) (w : Visited) (clean : List ℕ) (r : Resolved)
      → Resolves base w r
      → Resolves base w (end_resolve can_walk walk clean r)
  unfolding end_resolve
  end_resolve-Resolves base w clean (resolved loc prefix st) h = h
  end_resolve-Resolves base w clean (resolve_failed rc st) h = h

  resolve_clean-Resolves :
      (st : Vnodes) (o : Option (List (List ℕ)))
      → AllCanonical o
      → Resolves st (visit_names o) (resolve_clean can_walk walk ns st (outcome o))
  unfolding resolve_clean outcome
  resolve_clean-Resolves st none g = (refl, λ u. omega arith)
  resolve_clean-Resolves st (some s) g =
      let root = set_label ns.root (b'/' ∷ []) ∷ [] in
      let m =
        apply_mount_lem ns.mounts (b'/' ∷ []) root st (vnode_ref ns.root st)
          (λ u. omega (arith, refs-vnode_ref ns.root u st)) in
      rw (drop-path_to s, sym m.0)
        (end_resolve-Resolves st _ (path_to s) _ (
          resolve_loop-Resolves (length (path_to s)) (in_order s []) [] _ st _
            (rw (sym (drop-path_to s)) (omega (arith, length-drop 1 (path_to s))))
            (in_order-IsName s [] g tt) m.1))

  -- Whatever the path and the mount table, ns_resolve gives what the walk of the path's names leads
  -- to or fails with its error, and counts one reference more on each member of the location that
  -- it gives, and none where it fails. Counts are modulo 2 ^ 32, and no other thread changes the
  -- table meanwhile.
  pub ns_resolve-Resolves :
      (path : List ℕ) (st : Vnodes)
      → Resolves st (visit_path path) (ns_resolve can_walk walk ns path st)
  unfolding ns_resolve
  ns_resolve-Resolves path st =
      rw (clean_path-meaning path) (elim (Bool-cases (is_slash (get_or path 0 0))) [
        | inr y ↦ rw y (refl, λ u. omega arith)
        | inl y ↦
            rw y (
              resolve_clean-Resolves st (follow_all [] (names path)) (follow_all-AllCanonical path))
      ])
