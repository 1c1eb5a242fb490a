-- ===== src/Heap/Alloc.antt =====
-- kmalloc keeps the heap valid, and what it returns.
use mathlib.Core.Option
use mathlib.Core.Path.{subst}
use manios.Base.{
  ℕ, ◌+◌, ◌-◌, ◌%◌, ◌≡◌, refl, ◌⊎◌, inl, inr, true, false, none, some, List, [], ◌∷◌, arith,
  Bool-cases, Option-cases, leb, some-eq,
}
use manios.Heap.{
  Block, magic_used, header_size, is_free, fits, split, taken, leftover, behind, first_fit,
}
use manios.Heap.Tiling.{Tiled, Apart, NoTwoFree, used_sum}

-- `b` is the first block of `bs` that fits, and `cs` are the blocks once it is taken.
pub data Fit (size : ℕ) : List Block → Block → List Block → Type 0 where
  here :
      {b : Block} {bs cs : List Block}
      → fits b size ≡ true
      → cs ≡ split b size bs
      → Fit size (b ∷ bs) b cs
  there :
      {c b : Block} {bs cs : List Block}
      → fits c size ≡ false
      → Fit size bs b cs
      → Fit size (c ∷ bs) b (c ∷ cs)

pub first_fit-Fit :
    (size : ℕ) (bs : List Block) {b : Block} {cs : List Block}
    → first_fit size bs ≡ some (b, cs)
    → Fit size bs b cs
unfolding first_fit
first_fit-Fit size [] e = cc
first_fit-Fit size (c ∷ bs) {b} {cs} e = elim (Bool-cases (fits c size)) [
  | inl f ↦ moved (here f refl) (some-eq (rw f at e))
  | inr f ↦ later f (Option-cases (first_fit size bs)) (λ d ds. first_fit-Fit size bs) (rw f at e)
]
  where
    moved :
        {r : Block × List Block} → Fit size (c ∷ bs) r.0 r.1 → r ≡ (b, cs) → Fit size (c ∷ bs) b cs
    moved fit eq = subst (λ (r : Block × List Block). Fit size (c ∷ bs) r.0 r.1) eq fit

    later :
        fits c size ≡ false
        → (first_fit size bs ≡ none) ⊎ ((r : Block × List Block) × (first_fit size bs ≡ some r))
        → ((d : Block) (ds : List Block) → first_fit size bs ≡ some (d, ds) → Fit size bs d ds)
        → Option.map (behind c) (first_fit size bs) ≡ some (b, cs)
        → Fit size (c ∷ bs) b cs
    later f (inl e₁) ih e₂ = cc
    later f (inr ((d, ds), e₁)) ih e₂ = moved (there f (ih d ds e₁)) (some-eq (rw e₁ at e₂))

module _ (size : ℕ) (aligned : size % 16 ≡ 0) where
  split-Tiled :
      (b : Block) (bs : List Block) (e end : ℕ)
      → fits b size ≡ true
      → Tiled e (b ∷ bs) end
      → Tiled e (split b size bs) end
  unfolding split fits
  split-Tiled b bs e end f t = elim (Bool-cases (leb (size + header_size + 16) b.size)) [
    | inl big ↦ rw big (
      t.0,
      inl refl,
      aligned,
      (refl, inr refl, rest_aligned, subst (λ a. Tiled a bs end) (ground arith) t.3),
    )
    | inr small ↦ rw small (t.0, inl refl, t.2, t.3)
  ]
    where
      rest_aligned : (b.size - size - header_size) % 16 ≡ 0
      rest_aligned = omega (arith, t.2, aligned)

  pub Fit-Tiled :
      {bs : List Block} {b : Block} {cs : List Block} (e end : ℕ)
      → Fit size bs b cs
      → Tiled e bs end
      → Tiled e cs end
  Fit-Tiled e end (here {b = b} {bs = bs} f eq) t = rw eq (split-Tiled b bs e end f t)
  Fit-Tiled e end (there {c = c} f r) t =
      (t.0, t.1, t.2, Fit-Tiled (c.addr + header_size + c.size) end r t.3)

-- Taking a block sets no two free blocks side by side.
split-Apart : (a b : Block) (size : ℕ) (bs : List Block) → Apart a (split b size bs)
unfolding split is_free
split-Apart a b size bs = elim (Bool-cases (leb (size + header_size + 16) b.size)) [
  | inl big ↦ rw big (ground arith)
  | inr small ↦ rw small (ground arith)
]

-- What follows a free block is not free, so it may follow any block.
pub Apart-is_free :
    (b : Block) (bs : List Block) (c : Block) → is_free b ≡ true → Apart b bs → Apart c bs
Apart-is_free b [] c f n = tt
Apart-is_free b (d ∷ ds) c f n = ground arith

fits-is_free : (b : Block) (size : ℕ) → fits b size ≡ true → is_free b ≡ true
unfolding fits
fits-is_free b size f = ground arith

Fit-Apart :
    {size : ℕ} {bs : List Block} {b : Block} {cs : List Block} (a : Block)
    → Fit size bs b cs
    → Apart a bs
    → Apart a cs
Fit-Apart {size} a (here {b = b} {bs = bs} f eq) n = rw eq (split-Apart a b size bs)
Fit-Apart a (there f r) n = n

split-NoTwoFree :
    (b : Block) (size : ℕ) (bs : List Block)
    → fits b size ≡ true
    → NoTwoFree (b ∷ bs)
    → NoTwoFree (split b size bs)
unfolding split fits
split-NoTwoFree b size bs f n = elim (Bool-cases (leb (size + header_size + 16) b.size)) [
  | inl big ↦ rw big (refl, (Apart-is_free b bs (leftover b size) (fits-is_free b size f) n.0, n.1))
  | inr small ↦
      rw small
        (Apart-is_free b bs (record b { magic = magic_used }) (fits-is_free b size f) n.0, n.1)
]

pub Fit-NoTwoFree :
    {size : ℕ} {bs : List Block} {b : Block} {cs : List Block}
    → Fit size bs b cs
    → NoTwoFree bs
    → NoTwoFree cs
Fit-NoTwoFree {size} (here {b = b} {bs = bs} f eq) n = rw eq (split-NoTwoFree b size bs f n)
Fit-NoTwoFree (there {c = c} f r) n = (Fit-Apart c r n.0, Fit-NoTwoFree r n.1)

split-used_sum :
    (b : Block) (size : ℕ) (bs : List Block)
    → fits b size ≡ true
    → used_sum (split b size bs) ≡ used_sum (b ∷ bs) + taken b size
unfolding split fits taken used_sum
split-used_sum b size bs f = ground arith

pub Fit-used_sum :
    {size : ℕ} {bs : List Block} {b : Block} {cs : List Block}
    → Fit size bs b cs
    → used_sum cs ≡ used_sum bs + taken b size
unfolding used_sum
Fit-used_sum {size} (here {b = b} {bs = bs} f eq) = rw eq (split-used_sum b size bs f)
Fit-used_sum (there {c = c} f r) = ground (arith, Fit-used_sum r)
