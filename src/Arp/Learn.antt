-- ===== src/Arp/Learn.antt =====
-- What the cache knows after arp_learn.
use manios.Base.{
  ℕ, zero, suc, ◌≤◌, ◌<◌, ◌≡◌, refl, ◌⊎◌, inl, inr, true, false, ◌&&◌, List, [], ◌∷◌, ◌==◌,
  if◌then◌else◌, arith, All, Bool-cases, length, set, length-set, take, Option, none, some,
  true-ne-false,
}
use manios.Arp.{ArpEntry, Arp, is_ifc, is_free, has_key, next, lookup, slot_of, slot_for, arp_learn}
use manios.Arp.Frame.{eth_alen}
use manios.Arp.Slots.{At, Worst, slot_of-Worst}

-- The address that the cache has for one: that of the first entry found.
unfoldable pub find_mac : List ArpEntry → ℕ → ℕ → Option (List ℕ)
find_mac [] id ip = none
find_mac (e ∷ es) id ip =
    let rest = find_mac es id ip in if has_key e id ip then some e.mac else rest

pub next-none : (o : Option ℕ) → next o ≡ none → o ≡ none
next-none none h = refl
next-none (some k) h = absurd cc

pub next-some : (o : Option ℕ) (k : ℕ) → next o ≡ some k → (j : ℕ) × (o ≡ some j) × (k ≡ suc j)
next-some none k h = absurd cc
next-some (some j) k h = (j, refl, cc)

pub lookup-none :
    (es : List ArpEntry) (id ip : ℕ) → lookup es id ip ≡ none → find_mac es id ip ≡ none
unfolding lookup find_mac
lookup-none [] id ip h = refl
lookup-none (e ∷ es) id ip h = elim (Bool-cases (has_key e id ip)) [
  | inl y ↦ let g : some 0 ≡ none = rw y at h in absurd cc
  | inr y ↦
      let g : next (lookup es id ip) ≡ none = rw y at h in
      rw y (lookup-none es id ip (next-none _ g))
]

-- The entry that lookup finds.
lookup-At :
    (es : List ArpEntry) (id ip k : ℕ)
    → lookup es id ip ≡ some k
    → (x : ArpEntry) × At es k x × (has_key x id ip ≡ true)
unfolding lookup
lookup-At [] id ip k h = absurd cc
lookup-At (e ∷ es) id ip k h = elim (Bool-cases (has_key e id ip)) [
  | inl y ↦ let g : some 0 ≡ some k = rw y at h in let z : k ≡ 0 = cc in (e, rw z refl, y)
  | inr y ↦
      let g : next (lookup es id ip) ≡ some k = rw y at h in
      let (j, p, q) = next-some (lookup es id ip) k g in
      let (x, a, t) = lookup-At es id ip j p in (x, rw q a, t)
]

-- The key of the entry written, where lookup finds it there.
find_mac-set_found :
    (es : List ArpEntry) (id ip k : ℕ) (x' : ArpEntry)
    → lookup es id ip ≡ some k
    → has_key x' id ip ≡ true
    → find_mac (set es k x') id ip ≡ some x'.mac
unfolding lookup find_mac
find_mac-set_found [] id ip k x' h h' = absurd cc
find_mac-set_found (e ∷ es) id ip k x' h h' = elim (Bool-cases (has_key e id ip)) [
  | inl y ↦ let g : some 0 ≡ some k = rw y at h in let z : k ≡ 0 = cc in rw z (rw h' refl)
  | inr y ↦
      let g : next (lookup es id ip) ≡ some k = rw y at h in
      let (j, p, q) = next-some (lookup es id ip) k g in
      rw q (rw y (find_mac-set_found es id ip j x' p h'))
]

-- An entry whose key is another is written over: the key finds what it did.
find_mac-set_other :
    (es : List ArpEntry) (k id ip : ℕ) (x x' : ArpEntry)
    → At es k x
    → has_key x id ip ≡ false
    → has_key x' id ip ≡ false
    → find_mac (set es k x') id ip ≡ find_mac es id ip
unfolding find_mac
find_mac-set_other [] k id ip x x' a h h' = absurd cc
find_mac-set_other (e ∷ es) zero id ip x x' a h h' =
    let e_eq : e ≡ x = cc in let g : has_key e id ip ≡ false = rw e_eq h in rw (h', g) refl
find_mac-set_other (e ∷ es) (suc k) id ip x x' a h h' =
    rw (find_mac-set_other es k id ip x x' a h h') refl

-- The key of the entry written, where no entry has it.
find_mac-set_new :
    (es : List ArpEntry) (k id ip : ℕ) (x' : ArpEntry)
    → k < length es
    → find_mac es id ip ≡ none
    → has_key x' id ip ≡ true
    → find_mac (set es k x') id ip ≡ some x'.mac
unfolding find_mac
find_mac-set_new [] k id ip x' b h h' = absurd (omega arith)
find_mac-set_new (e ∷ es) zero id ip x' b h h' = rw h' refl
find_mac-set_new (e ∷ es) (suc k) id ip x' b h h' = elim (Bool-cases (has_key e id ip)) [
  | inl y ↦ let g : some e.mac ≡ none = rw y at h in absurd cc
  | inr y ↦
      let g : find_mac es id ip ≡ none = rw y at h in
      rw y (find_mac-set_new es k id ip x' (omega arith) g h')
]

same_key :
    (o : Option ℕ) (i id ip id' ip' : ℕ)
    → (is_ifc o id && i == ip) ≡ true
    → (is_ifc o id' && i == ip') ≡ true
    → (id == id' && ip == ip') ≡ true
unfolding is_ifc
same_key none i id ip id' ip' h h' = absurd (true-ne-false h refl)
same_key (some n) i id ip id' ip' h h' = ground (arith, h, h')

At-lt : (es : List ArpEntry) (k : ℕ) (x : ArpEntry) → At es k x → k < length es
At-lt [] k x h = absurd cc
At-lt (e ∷ es) zero x h = omega arith
At-lt (e ∷ es) (suc k) x h = omega (arith, At-lt es k x h)

-- The entry for the key was written over: the cache was full, and none was used longer ago.
abbrev pub Evicted : List ArpEntry → ℕ → ℕ → Type 0
Evicted es id ip =
    (x : ArpEntry) × (has_key x id ip ≡ true)
    × ((k : ℕ) × At es k x)
    × All (λ c. (is_free c.ifc ≡ false) × (x.last_used ≤ c.last_used)) es

pub record Learned (id ip : ℕ) (mac : List ℕ) (es es' : List ArpEntry) : Type 0 where
  pub size : length es' ≡ length es
  pub known : find_mac es' id ip ≡ some (take eth_alen mac)
  pub others :
      (id' ip' : ℕ)
      → (id == id' && ip == ip') ≡ false
      → (find_mac es' id' ip' ≡ find_mac es id' ip')
        ⊎ ((find_mac es id ip ≡ none) × Evicted es id' ip')

-- The entry written over is unused, or has another key than the one that is asked for.
other_key : (x : ArpEntry) (id ip : ℕ) → is_free x.ifc ≡ true → has_key x id ip ≡ false
unfolding is_free is_ifc
other_key x id ip h = go x.ifc h
  where
    go : (o : Option ℕ) → is_free o ≡ true → (is_ifc o id && x.ip == ip) ≡ false
    go none h = refl
    go (some n) h = absurd (true-ne-false h refl)

different_key :
    (x : ArpEntry) (id ip id' ip' : ℕ)
    → has_key x id ip ≡ true
    → (id == id' && ip == ip') ≡ false
    → has_key x id' ip' ≡ false
different_key x id ip id' ip' t d = elim (Bool-cases (has_key x id' ip')) [
  | inl u ↦ absurd (true-ne-false (same_key x.ifc x.ip id ip id' ip' t u) d)
  | inr u ↦ u
]

evicted :
    (es : List ArpEntry) (id ip k : ℕ) (x : ArpEntry)
    → At es k x
    → has_key x id ip ≡ true
    → Worst es x
    → Evicted es id ip
evicted es id ip k x a y (inl f) = absurd (true-ne-false y (other_key x id ip f))
evicted es id ip k x a y (inr w) = (x, y, (k, a), w)

module _ (now id ip : ℕ) (mac : List ℕ) where
  abbrev learned_entry : ArpEntry
  learned_entry = record { ifc = some id; ip = ip; mac = take eth_alen mac; last_used = now }

  -- Its own key.
  learned_entry-has_key : has_key learned_entry id ip ≡ true
  unfolding is_ifc
  learned_entry-has_key = ground arith

  learned_entry_other :
      (id' ip' : ℕ) → (id == id' && ip == ip') ≡ false → has_key learned_entry id' ip' ≡ false
  unfolding is_ifc
  learned_entry_other id' ip' h = h

  learn_at :
      (es : List ArpEntry) (o : Option ℕ)
      → 0 < length es
      → lookup es id ip ≡ o
      → Learned id ip mac es (set es (slot_for es o) learned_entry)
  unfolding slot_for
  learn_at es (some k) h e =
      let (x, a, t) = lookup-At es id ip k e in
      record {
        size = length-set es k learned_entry;
        known = find_mac-set_found es id ip k learned_entry e learned_entry-has_key;
        others = λ id' ip' d. inl (
            find_mac-set_other es k id' ip' x learned_entry a (different_key x id ip id' ip' t d)
              (learned_entry_other id' ip' d));
      }
  learn_at es none h e =
      let (x, a, w) = slot_of-Worst es h in
      record {
        size = length-set es (slot_of es) learned_entry;
        known =
            find_mac-set_new es (slot_of es) id ip learned_entry (At-lt es (slot_of es) x a)
              (lookup-none es id ip e) learned_entry-has_key;
        others = λ id' ip' d. elim (Bool-cases (has_key x id' ip')) [
          | inl y ↦ inr (lookup-none es id ip e, evicted es id' ip' (slot_of es) x a y w)
          | inr y ↦ inl (
              find_mac-set_other es (slot_of es) id' ip' x learned_entry a y
                (learned_entry_other id' ip' d))
        ];
      }

  -- In a cache that has entries, arp_learn makes the address known. Any other address is known as
  -- before, except that where the key is new and every entry is in use, the entry written over is
  -- lost, and no entry was used longer ago.
  pub arp_learn-Learned :
      (s : Arp) → 0 < length s.cache → Learned id ip mac s.cache (arp_learn now id ip mac s).cache
  unfolding arp_learn
  arp_learn-Learned s h = learn_at s.cache (lookup s.cache id ip) h refl
