-- ===== src/Arp/Slots.antt =====
-- Which entry of the cache arp_learn takes.
use manios.Base.{
  ℕ, suc, ◌+◌, ◌≤◌, ◌<◌, ◌≡◌, refl, sym, ap, ◌⊎◌, inl, inr, true, false, ◌||◌, List, [], ◌∷◌, ltb,
  arith, All, Bool-cases, length, get_elem?, some,
}
use manios.Arp.{ArpEntry, is_free, find_slot, slot_of}

-- Unused, or no entry is unused and none was used longer ago.
abbrev pub Worst : List ArpEntry → ArpEntry → Type 0
Worst es e =
    (is_free e.ifc ≡ true) ⊎ All (λ c. (is_free c.ifc ≡ false) × (e.last_used ≤ c.last_used)) es

-- The entry at an index.
abbrev pub At : List ArpEntry → ℕ → ArpEntry → Type 0
At es k e = get_elem? es k ≡ some e

-- Where the loop finds its entry.
abbrev Place : List ArpEntry → ℕ → ℕ → ArpEntry → ℕ → ArpEntry → Type 0
Place cs i best e k x = ((k ≡ best) × (x ≡ e)) ⊎ ((j : ℕ) × (k ≡ i + j) × At cs j x)

Place-better :
    (cs : List ArpEntry) (i best k : ℕ) (e c x : ArpEntry)
    → Place cs (suc i) i c k x
    → Place (c ∷ cs) i best e k x
Place-better cs i best k e c x (inl (p, q)) = inr (0, omega (arith, p), ap some (sym q))
Place-better cs i best k e c x (inr (j, p, q)) = inr (suc j, omega (arith, p), q)

Place-cons :
    (cs : List ArpEntry) (i best k : ℕ) (e c x : ArpEntry)
    → Place cs (suc i) best e k x
    → Place (c ∷ cs) i best e k x
Place-cons cs i best k e c x (inl p) = inl p
Place-cons cs i best k e c x (inr (j, p, q)) = inr (suc j, omega (arith, p), q)

Worst-better :
    (cs : List ArpEntry) (e c x : ArpEntry)
    → is_free e.ifc ≡ false
    → (is_free c.ifc || ltb c.last_used e.last_used) ≡ true
    → Worst (c ∷ cs) x
    → Worst (e ∷ c ∷ cs) x
Worst-better cs e c x y z (inl f) = inl f
Worst-better cs e c x y z (inr w) = inr ((y, ground (arith, z, w.0.0, w.0.1)), w)

Worst-cons :
    (cs : List ArpEntry) (e c x : ArpEntry)
    → (is_free c.ifc || ltb c.last_used e.last_used) ≡ false
    → Worst (e ∷ cs) x
    → Worst (e ∷ c ∷ cs) x
Worst-cons cs e c x z (inl f) = inl f
Worst-cons cs e c x z (inr w) = inr (w.0, ((ground (arith, z), ground (arith, z, w.0.1)), w.1))

find_slot_nil : (i best : ℕ) (e : ArpEntry) → find_slot [] i best e ≡ best
unfolding find_slot
find_slot_nil i best e = refl

find_slot_free :
    (c e : ArpEntry) (cs : List ArpEntry) (i best : ℕ)
    → is_free e.ifc ≡ true
    → find_slot (c ∷ cs) i best e ≡ best
unfolding find_slot
find_slot_free c e cs i best y = rw y refl

find_slot_better :
    (c e : ArpEntry) (cs : List ArpEntry) (i best : ℕ)
    → is_free e.ifc ≡ false
    → (is_free c.ifc || ltb c.last_used e.last_used) ≡ true
    → find_slot (c ∷ cs) i best e ≡ find_slot cs (suc i) i c
unfolding find_slot
find_slot_better c e cs i best y z = rw (y, z) refl

find_slot_keep :
    (c e : ArpEntry) (cs : List ArpEntry) (i best : ℕ)
    → is_free e.ifc ≡ false
    → (is_free c.ifc || ltb c.last_used e.last_used) ≡ false
    → find_slot (c ∷ cs) i best e ≡ find_slot cs (suc i) best e
unfolding find_slot
find_slot_keep c e cs i best y z = rw (y, z) refl

only_entry : (e : ArpEntry) → Worst (e ∷ []) e
only_entry e = elim (Bool-cases (is_free e.ifc)) [
  | inl y ↦ inl y
  | inr y ↦ inr ((y, omega arith), tt)
]

find_slot-Worst :
    (cs : List ArpEntry) (i best : ℕ) (e : ArpEntry)
    → (x : ArpEntry) × Place cs i best e (find_slot cs i best e) x × Worst (e ∷ cs) x
find_slot-Worst [] i best e = (e, inl (find_slot_nil i best e, refl), only_entry e)
find_slot-Worst (c ∷ cs) i best e = elim (Bool-cases (is_free e.ifc)) [
  | inl y ↦ (e, inl (find_slot_free c e cs i best y, refl), inl y)
  | inr y ↦ elim (Bool-cases (is_free c.ifc || ltb c.last_used e.last_used)) [
    | inl z ↦
        let (x, p, w) = find_slot-Worst cs (suc i) i c in
        (
          x,
          rw (find_slot_better c e cs i best y z) (Place-better cs i best _ e c x p),
          Worst-better cs e c x y z w,
        )
    | inr z ↦
        let (x, p, w) = find_slot-Worst cs (suc i) best e in
        (
          x,
          rw (find_slot_keep c e cs i best y z) (Place-cons cs i best _ e c x p),
          Worst-cons cs e c x z w,
        )
  ]
]

-- The slot holds an unused entry, or the least recently used one of a full cache.
pub slot_of-Worst :
    (es : List ArpEntry) → 0 < length es → (x : ArpEntry) × At es (slot_of es) x × Worst es x
unfolding slot_of
slot_of-Worst [] h = absurd (omega arith)
slot_of-Worst (e ∷ es) h = let (x, p, w) = find_slot-Worst (e ∷ es) 0 0 e in (x, at x p, tail x w)
  where
    at :
        (x : ArpEntry)
        → Place (e ∷ es) 0 0 e (find_slot (e ∷ es) 0 0 e) x
        → At (e ∷ es) (find_slot (e ∷ es) 0 0 e) x
    at x (inl (p, q)) = rw (p, q) refl
    at x (inr (j, p, q)) = let h' : find_slot (e ∷ es) 0 0 e ≡ j = omega (arith, p) in rw h' q

    tail : (x : ArpEntry) → Worst (e ∷ e ∷ es) x → Worst (e ∷ es) x
    tail x (inl f) = inl f
    tail x (inr w) = inr w.1
