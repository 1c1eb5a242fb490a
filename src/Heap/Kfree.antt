-- ===== src/Heap/Kfree.antt =====
-- What kfree does: it frees exactly the allocation that it is given, and joins free neighbours.
use mathlib.Core.Path.{subst}
use manios.Base.{
  ℕ, ◌+◌, ◌-◌, ◌%◌, ◌<◌, ◌^◌, ◌≡◌, refl, sym, ◌∙◌, ◌⊎◌, inl, inr, true, false, ◌&&◌, Option, none,
  some, List, [], ◌∷◌, arith, if◌then◌else◌, Bool-cases, ◌==◌,
}
use manios.Heap.{
  Block, Heap, magic_used, magic_free, header_size, heap_start, is_free, kfree, free_block,
  find_block, set_magic, coalesce, coalesce_all, done,
}
use manios.Heap.Tiling.{Tiled, Apart, NoTwoFree, IsValid, used_sum, used_sum-le}
use manios.Heap.Live.{live, live_below, live-le, live_aligned}

abbrev joined : Block → Block → Block
joined c d = record c { size = c.size + header_size + d.size }

-- The two turns of the loop.
coalesce_join :
    (c d : Block) (ds : List Block)
    → (is_free c && is_free d) ≡ true
    → coalesce c (d ∷ ds) ≡ coalesce (joined c d) ds
unfolding coalesce
coalesce_join c d ds f = ground (arith, f)

coalesce_skip :
    (c d : Block) (ds : List Block)
    → (is_free c && is_free d) ≡ false
    → coalesce c (d ∷ ds) ≡ c ∷ coalesce d ds
unfolding coalesce
coalesce_skip c d ds f = ground (arith, f)

coalesce-nil : (c : Block) → coalesce c [] ≡ c ∷ []
unfolding coalesce
coalesce-nil c = refl

coalesce-Tiled :
    (cs : List Block) (c : Block) (e end : ℕ) → Tiled e (c ∷ cs) end → Tiled e (coalesce c cs) end
coalesce-Tiled [] c e end t = rw (coalesce-nil c) t
coalesce-Tiled (d ∷ ds) c e end t = elim (Bool-cases (is_free c && is_free d)) [
  | inl f ↦ rw (coalesce_join c d ds f) (
      coalesce-Tiled ds (joined c d) e end
        (t.0, t.1, size_aligned, subst (λ a. Tiled a ds end) (omega (arith, t.3.0)) t.3.3))
  | inr f ↦
      rw (coalesce_skip c d ds f)
        (t.0, t.1, t.2, coalesce-Tiled ds d (c.addr + header_size + c.size) end t.3)
]
  where
    size_aligned : (c.size + header_size + d.size) % 16 ≡ 0
    size_aligned = omega (arith, t.2, t.3.2)

coalesce-Apart :
    (a : Block) (cs : List Block) (c : Block)
    → (is_free a && is_free c) ≡ false
    → Apart a (coalesce c cs)
coalesce-Apart a [] c f = rw (coalesce-nil c) f
coalesce-Apart a (d ∷ ds) c f = elim (Bool-cases (is_free c && is_free d)) [
  | inl g ↦ rw (coalesce_join c d ds g) (coalesce-Apart a ds (joined c d) (unfold is_free in f))
  | inr g ↦ rw (coalesce_skip c d ds g) f
]

coalesce-NoTwoFree : (cs : List Block) (c : Block) → NoTwoFree (coalesce c cs)
coalesce-NoTwoFree [] c = rw (coalesce-nil c) (tt, tt)
coalesce-NoTwoFree (d ∷ ds) c = elim (Bool-cases (is_free c && is_free d)) [
  | inl f ↦ rw (coalesce_join c d ds f) (coalesce-NoTwoFree ds (joined c d))
  | inr f ↦ rw (coalesce_skip c d ds f) (coalesce-Apart c ds d f, coalesce-NoTwoFree ds d)
]

used_sum-coalesce : (cs : List Block) (c : Block) → used_sum (coalesce c cs) ≡ used_sum (c ∷ cs)
unfolding used_sum
used_sum-coalesce [] c = rw (coalesce-nil c)
used_sum-coalesce (d ∷ ds) c = elim (Bool-cases (is_free c && is_free d)) [
  | inl f ↦ ground (arith, f, coalesce_join c d ds f, used_sum-coalesce ds (joined c d))
  | inr f ↦ ground (arith, f, coalesce_skip c d ds f, used_sum-coalesce ds d)
]

live-coalesce : (cs : List Block) (c : Block) (p : ℕ) → live (coalesce c cs) p ≡ live (c ∷ cs) p
unfolding live
live-coalesce [] c p = rw (coalesce-nil c)
live-coalesce (d ∷ ds) c p = elim (Bool-cases (is_free c && is_free d)) [
  | inl f ↦ ground (arith, f, coalesce_join c d ds f, live-coalesce ds (joined c d) p)
  | inr f ↦ ground (arith, f, coalesce_skip c d ds f, live-coalesce ds d p)
]

none_ne_some {ℓ} : {A : Type ℓ} {a : A} → none ≡ some a → ⊥
none_ne_some e = cc

-- The header in front of a live allocation.
find_block-live :
    (bs : List Block) (e end a n : ℕ)
    → Tiled e bs end
    → live bs (a + header_size) ≡ some n
    → (b : Block) × (find_block bs a ≡ some b) × (b.size ≡ n) × (b.magic ≡ magic_used)
unfolding find_block live
find_block-live [] e end a n t l = absurd (none_ne_some l)
find_block-live (b ∷ bs) e end a n t l = elim (Bool-cases (b.addr == a)) [
  | inl y ↦ (b, ground (arith, y), ground (arith, y, l, below), ground (arith, y, l, below, t.1))
  | inr y ↦ rw y (find_block-live bs next end a n t.3 (ground (arith, y, l)))
]
  where
    next : ℕ
    next = b.addr + header_size + b.size

    below : a + header_size < next + header_size → live bs (a + header_size) ≡ none
    below h = live_below bs next end (a + header_size) t.3 h

set_magic-Tiled :
    (bs : List Block) (e end a : ℕ) → Tiled e bs end → Tiled e (set_magic bs a magic_free) end
unfolding set_magic
set_magic-Tiled [] e end a t = t
set_magic-Tiled (b ∷ bs) e end a t = elim (Bool-cases (b.addr == a)) [
  | inl y ↦ rw y (t.0, inr refl, t.2, t.3)
  | inr y ↦ rw y (t.0, t.1, t.2, set_magic-Tiled bs (b.addr + header_size + b.size) end a t.3)
]

live-set_magic :
    (bs : List Block) (e end a q : ℕ)
    → Tiled e bs end
    → live (set_magic bs a magic_free) q ≡ (if a + header_size == q then none else live bs q)
unfolding set_magic live
live-set_magic [] e end a q t = ground arith
live-set_magic (b ∷ bs) e end a q t = ground (
  arith,
  t.0,
  live-set_magic bs (b.addr + header_size + b.size) end a q t.3,
  live_below bs (b.addr + header_size + b.size) end q t.3,
)

used_sum-set_magic :
    (bs : List Block) (e end a n : ℕ)
    → Tiled e bs end
    → live bs (a + header_size) ≡ some n
    → used_sum (set_magic bs a magic_free) + n ≡ used_sum bs
unfolding set_magic live used_sum
used_sum-set_magic [] e end a n t l = absurd (none_ne_some l)
used_sum-set_magic (b ∷ bs) e end a n t l = ground (
  arith,
  l,
  t.0,
  used_sum-set_magic bs (b.addr + header_size + b.size) end a n t.3,
  live_below bs (b.addr + header_size + b.size) end (a + header_size) t.3,
)

coalesce_all-Tiled : (bs : List Block) (e end : ℕ) → Tiled e bs end → Tiled e (coalesce_all bs) end
unfolding coalesce_all
coalesce_all-Tiled [] e end t = t
coalesce_all-Tiled (b ∷ bs) e end t = coalesce-Tiled bs b e end t

coalesce_all-NoTwoFree : (bs : List Block) → NoTwoFree (coalesce_all bs)
unfolding coalesce_all
coalesce_all-NoTwoFree [] = tt
coalesce_all-NoTwoFree (b ∷ bs) = coalesce-NoTwoFree bs b

used_sum-coalesce_all : (bs : List Block) → used_sum (coalesce_all bs) ≡ used_sum bs
unfolding coalesce_all
used_sum-coalesce_all [] = refl
used_sum-coalesce_all (b ∷ bs) = used_sum-coalesce bs b

live-coalesce_all : (bs : List Block) (p : ℕ) → live (coalesce_all bs) p ≡ live bs p
unfolding coalesce_all
live-coalesce_all [] p = refl
live-coalesce_all (b ∷ bs) p = live-coalesce bs b p

-- The heap once the block at `a`, of `n` bytes, is free.
abbrev pub freed : Heap → ℕ → ℕ → Heap
freed h a n = record h {
  blocks = coalesce_all (set_magic h.blocks a magic_free);
  used_bytes = (h.used_bytes + 2 ^ 32 - n) % 2 ^ 32;
}

freed-IsValid :
    {h : Heap} (a n : ℕ)
    → IsValid h
    → live h.blocks (a + header_size) ≡ some n
    → IsValid (freed h a n)
freed-IsValid {h} a n v l = record {
  tiled =
      coalesce_all-Tiled _ heap_start h.heap_end
        (set_magic-Tiled h.blocks heap_start h.heap_end a v.tiled);
  spaced = coalesce_all-NoTwoFree _;
  bounded = v.bounded;
  paged = v.paged;
  counted = rw used_sum-coalesce_all (
      omega (
        arith,
        v.counted,
        v.bounded,
        used_sum-set_magic h.blocks heap_start h.heap_end a n v.tiled l,
        used_sum-le h.blocks heap_start h.heap_end v.tiled,
      ));
}

-- The tests on the pointer let an allocation of at least a byte pass.
kfree_in_range :
    (h : Heap) (word p n : ℕ)
    → IsValid h
    → 0 < n
    → live h.blocks p ≡ some n
    → kfree h word p ≡ free_block h (p - header_size) word (find_block h.blocks (p - header_size))
unfolding kfree
kfree_in_range h word p n v pos l = ground (
  arith,
  pos,
  live-le h.blocks heap_start h.heap_end p n v.tiled l,
  live_aligned h.blocks heap_start h.heap_end p n v.tiled refl l,
)

-- kfree of a live allocation succeeds, whatever the payloads hold: the heap stays valid, the
-- allocation is gone and no other changes, and heap_used falls by its size.
pub kfree-live :
    {h : Heap} (word p n : ℕ)
    → IsValid h
    → 0 < n
    → live h.blocks p ≡ some n
    → (h' : Heap) × (kfree h word p ≡ done h')
      × IsValid h'
      × ((q : ℕ) → live h'.blocks q ≡ (if p == q then none else live h.blocks q))
      × (h'.used_bytes + n ≡ h.used_bytes)
unfolding free_block
kfree-live {h} word p n v pos l = (
  freed h a n,
  kfree_in_range h word p n v pos l ∙ ground (arith, found),
  freed-IsValid a n v l',
  λ q.
      live-coalesce_all (set_magic h.blocks a magic_free) q
      ∙ rw (live-set_magic h.blocks heap_start h.heap_end a q v.tiled, back),
  omega (
    arith,
    v.counted,
    v.bounded,
    used_sum-le h.blocks heap_start h.heap_end v.tiled,
    used_sum-set_magic h.blocks heap_start h.heap_end a n v.tiled l',
  ),
)
  where
    a : ℕ
    a = p - header_size

    back : a + header_size ≡ p
    back = omega (arith, live-le h.blocks heap_start h.heap_end p n v.tiled l)

    l' : live h.blocks (a + header_size) ≡ some n
    l' = rw back l

    found : (b : Block) × (find_block h.blocks a ≡ some b) × (b.size ≡ n) × (b.magic ≡ magic_used)
    found = find_block-live h.blocks heap_start h.heap_end a n v.tiled l'

live-find_block :
    (bs : List Block) (a : ℕ) {b : Block}
    → find_block bs a ≡ some b
    → b.magic ≡ magic_used
    → live bs (a + header_size) ≡ some b.size
unfolding find_block live
live-find_block [] a e u = absurd (none_ne_some e)
live-find_block (c ∷ cs) a {b} e u = elim (Bool-cases (c.addr == a)) [
  | inl y ↦ ground (arith, y, e, u)
  | inr y ↦ ground (arith, y, live-find_block cs a (rw y at e) u)
]

-- free_block frees only behind a used header.
free_block_done :
    (h : Heap) (a word : ℕ) (o : Option Block) {h' : Heap}
    → free_block h a word o ≡ done h'
    → (b : Block) × (o ≡ some b) × (b.magic ≡ magic_used) × (h' ≡ freed h a b.size)
unfolding free_block
free_block_done h a word none e = absurd (ground arith)
free_block_done h a word (some b) e = (b, refl, ground arith, ground arith)

-- Where kfree of a pointer that is not NULL succeeds, it was a live allocation's.
kfree_done :
    (h : Heap) {h' : Heap} (word p : ℕ)
    → kfree h word p ≡ done h'
    → (p == 0) ≡ false
    → (a n : ℕ) × (a + header_size ≡ p)
      × (live h.blocks (a + header_size) ≡ some n)
      × (h' ≡ freed h a n)
unfolding kfree
kfree_done h {h'} word p e z = later (
    free_block_done h (p - header_size) word (find_block h.blocks (p - header_size)) {h' = h'}
      (ground (arith, z, e)))
  where
    later :
        (b : Block) × (find_block h.blocks (p - header_size) ≡ some b)
          × (b.magic ≡ magic_used)
          × (h' ≡ freed h (p - header_size) b.size)
        → (a n : ℕ) × (a + header_size ≡ p)
          × (live h.blocks (a + header_size) ≡ some n)
          × (h' ≡ freed h a n)
    later (b, found, u, eq) = (
      p - header_size,
      b.size,
      ground (arith, z, e),
      live-find_block h.blocks (p - header_size) found u,
      eq,
    )

kfree_null : (h : Heap) (word p : ℕ) → (p == 0) ≡ true → kfree h word p ≡ done h
unfolding kfree
kfree_null h word p z = ground (arith, z)

done-eq : {h h' : Heap} → done h ≡ done h' → h ≡ h'
done-eq e = cc

-- Where kfree on a valid heap succeeds, the heap stays valid, and the pointer was NULL, which
-- changes nothing, or the address of a live allocation. To succeed is neither to panic nor to take
-- a stray pointer, whose word in somebody's payload looks like a used header.
pub kfree-IsValid :
    {h h' : Heap} (word p : ℕ)
    → IsValid h
    → kfree h word p ≡ done h'
    → IsValid h' × ((p ≡ 0) × (h' ≡ h) ⊎ ((n : ℕ) × (live h.blocks p ≡ some n)))
kfree-IsValid {h} {h'} word p v e = elim (Bool-cases (p == 0)) [
  | inl z ↦ unchanged z (done-eq (sym (kfree_null h word p z) ∙ e))
  | inr z ↦ freed_one (kfree_done h word p e z)
]
  where
    unchanged :
        (p == 0) ≡ true
        → h ≡ h'
        → IsValid h' × ((p ≡ 0) × (h' ≡ h) ⊎ ((n : ℕ) × (live h.blocks p ≡ some n)))
    unchanged z eq = (subst IsValid eq v, inl (ground (arith, z), sym eq))

    freed_one :
        (a n : ℕ) × (a + header_size ≡ p)
          × (live h.blocks (a + header_size) ≡ some n)
          × (h' ≡ freed h a n)
        → IsValid h' × ((p ≡ 0) × (h' ≡ h) ⊎ ((n : ℕ) × (live h.blocks p ≡ some n)))
    freed_one (a, n, back, l, eq) =
        (subst IsValid (sym eq) (freed-IsValid a n v l), inr (n, rw (← back) l))
