-- ===== src/Namespace/Mounts.antt =====
-- The mount table is a map from paths to locations, and holds the references that it is given.
use manios.Base.{
  ℕ, ◌+◌, ◌≤◌, ◌≡◌, refl, sym, ◌∙◌, inl, inr, true, false, List, [], ◌∷◌, ◌==◌, if◌then◌else◌,
  Bool-cases, take-whole, arith, length, none, some, true-ne-false,
}
use manios.Namespace.CleanPath.{path_max}
use manios.Namespace.Locations.{Member}
use manios.Namespace.{Mount, same, find_mount, replace_mount, unlink_mount}
use manios.Namespace.Count.{count, total}

pub same_refl : (xs : List ℕ) → same xs xs ≡ true
unfolding same
same_refl [] = refl
same_refl (x ∷ xs) = let e : (x == x) ≡ true = ground arith in rw e (same_refl xs)

pub same_eq : (xs ys : List ℕ) → same xs ys ≡ true → xs ≡ ys
unfolding same
same_eq [] [] h = refl
same_eq [] (y ∷ ys) h = absurd (true-ne-false h refl)
same_eq (x ∷ xs) [] h = absurd (true-ne-false h refl)
same_eq (x ∷ xs) (y ∷ ys) h = elim (Bool-cases (x == y)) [
  | inl e ↦
      let x_eq : x ≡ y = ground (arith, e) in
      let h' : same xs ys ≡ true = rw e at h in rw (x_eq, same_eq xs ys h') refl
  | inr e ↦ let h' : false ≡ true = rw e at h in absurd (true-ne-false h' refl)
]

same_sym : (xs ys : List ℕ) → same xs ys ≡ false → same ys xs ≡ false
same_sym xs ys h = elim (Bool-cases (same ys xs)) [
  | inl e ↦ absurd (true-ne-false (rw (same_eq ys xs e) (same_refl xs)) h)
  | inr e ↦ e
]

none_found : (canon : List ℕ) → find_mount [] canon ≡ none
unfolding find_mount
none_found canon = refl

-- No path has two entries.
abbrev pub Distinct : List Mount → Type 0
Distinct [] = Unit
Distinct (m ∷ ms) = (find_mount ms m.path ≡ none) × Distinct ms

pub find_mount-replace_mount :
    (ms : List Mount) (canon : List ℕ) (loc : List Member) (p : List ℕ)
    → length canon ≤ path_max
    → find_mount (replace_mount canon loc ms) p
      ≡ (if same canon p then some loc else find_mount ms p)
unfolding find_mount replace_mount
find_mount-replace_mount [] canon loc p h = rw (take-whole path_max canon h) refl
find_mount-replace_mount (m ∷ ms) canon loc p h = elim (Bool-cases (same m.path canon)) [
  | inl y ↦ rw y (
      rw (sym (same_eq m.path canon y))
        (elim (Bool-cases (same m.path p)) [ inl w ↦ rw w refl | inr w ↦ rw w refl ]))
  | inr y ↦ rw y (elim (Bool-cases (same m.path p)) [
    | inl w ↦
        let other : same canon p ≡ false =
          rw (sym (same_eq m.path p w)) (same_sym m.path canon y) in
        rw (w, other) refl
    | inr w ↦ rw w (find_mount-replace_mount ms canon loc p h)
  ])
]

pub replace_mount-Distinct :
    (ms : List Mount) (canon : List ℕ) (loc : List Member)
    → length canon ≤ path_max
    → Distinct ms
    → Distinct (replace_mount canon loc ms)
unfolding replace_mount
replace_mount-Distinct [] canon loc h d = (none_found _, tt)
replace_mount-Distinct (m ∷ ms) canon loc h d = elim (Bool-cases (same m.path canon)) [
  | inl y ↦ rw y d
  | inr y ↦ rw y (
    find_mount-replace_mount ms canon loc m.path h ∙ rw (same_sym m.path canon y) d.0,
    replace_mount-Distinct ms canon loc h d.1,
  )
]

pub find_mount-unlink_mount :
    (ms : List Mount) (canon p : List ℕ)
    → Distinct ms
    → find_mount (unlink_mount canon ms) p ≡ (if same canon p then none else find_mount ms p)
unfolding find_mount unlink_mount
find_mount-unlink_mount [] canon p d = elim (Bool-cases (same canon p)) [
  | inl y ↦ rw y refl
  | inr y ↦ rw y refl
]
find_mount-unlink_mount (m ∷ ms) canon p d = elim (Bool-cases (same m.path canon)) [
  | inl y ↦ rw y (
      rw (sym (same_eq m.path canon y)) (elim (Bool-cases (same m.path p)) [
        | inl w ↦ rw w (rw (sym (same_eq m.path p w)) d.0)
        | inr w ↦ rw w refl
      ]))
  | inr y ↦ rw y (elim (Bool-cases (same m.path p)) [
    | inl w ↦
        let other : same canon p ≡ false =
          rw (sym (same_eq m.path p w)) (same_sym m.path canon y) in
        rw (w, other) refl
    | inr w ↦ rw w (find_mount-unlink_mount ms canon p d.1)
  ])
]

pub unlink_mount-Distinct :
    (ms : List Mount) (canon : List ℕ) → Distinct ms → Distinct (unlink_mount canon ms)
unfolding unlink_mount
unlink_mount-Distinct [] canon d = tt
unlink_mount-Distinct (m ∷ ms) canon d = elim (Bool-cases (same m.path canon)) [
  | inl y ↦ rw y d.1
  | inr y ↦ rw y (
    find_mount-unlink_mount ms canon m.path d.1 ∙ rw (same_sym m.path canon y) d.0,
    unlink_mount-Distinct ms canon d.1,
  )
]

-- What the table holds in place of the entry's members.
pub total-replace_mount :
    (ms : List Mount) (canon : List ℕ) (loc old : List Member) (u : ℕ)
    → find_mount ms canon ≡ some old
    → total u (replace_mount canon loc ms) + count u old ≡ total u ms + count u loc
unfolding find_mount replace_mount
total-replace_mount [] canon loc old u e = absurd cc
total-replace_mount (m ∷ ms) canon loc old u e = elim (Bool-cases (same m.path canon)) [
  | inl y ↦
      let e' : some m.loc ≡ some old = rw y at e in
      let o : m.loc ≡ old = cc in rw y (rw o (omega arith))
  | inr y ↦
      let e' : find_mount ms canon ≡ some old = rw y at e in
      rw y (omega (arith, total-replace_mount ms canon loc old u e'))
]

pub total-replace_mount_new :
    (ms : List Mount) (canon : List ℕ) (loc : List Member) (u : ℕ)
    → find_mount ms canon ≡ none
    → total u (replace_mount canon loc ms) ≡ total u ms + count u loc
unfolding find_mount replace_mount
total-replace_mount_new [] canon loc u e = omega arith
total-replace_mount_new (m ∷ ms) canon loc u e = elim (Bool-cases (same m.path canon)) [
  | inl y ↦ let e' : some m.loc ≡ none = rw y at e in absurd cc
  | inr y ↦
      let e' : find_mount ms canon ≡ none = rw y at e in
      rw y (omega (arith, total-replace_mount_new ms canon loc u e'))
]

pub total-unlink_mount :
    (ms : List Mount) (canon : List ℕ) (old : List Member) (u : ℕ)
    → find_mount ms canon ≡ some old
    → total u (unlink_mount canon ms) + count u old ≡ total u ms
unfolding find_mount unlink_mount
total-unlink_mount [] canon old u e = absurd cc
total-unlink_mount (m ∷ ms) canon old u e = elim (Bool-cases (same m.path canon)) [
  | inl y ↦
      let e' : some m.loc ≡ some old = rw y at e in
      let o : m.loc ≡ old = cc in rw y (rw o (omega arith))
  | inr y ↦
      let e' : find_mount ms canon ≡ some old = rw y at e in
      rw y (omega (arith, total-unlink_mount ms canon old u e'))
]
