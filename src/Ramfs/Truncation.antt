-- ===== src/Ramfs/Truncation.antt =====
-- The size of a writable file: ram_truncate.
use manios.Base.{
  ℕ, zero, suc, ◌≤◌, ◌<◌, ◌≡◌, ◌≢◌, refl, ◌∙◌, ◌⊎◌, inl, inr, Bool, true, false, List, [], ◌∷◌,
  arith, ltb, ◌==◌, if◌then◌else◌, length, take, get_or, Bool-cases, length-take,
}
use manios.Base.Bytes.{blit}
use manios.Ramfs.{RamNode, Status, ok, no_memory, ram_truncate}
use manios.Ramfs.Files.{zeros, length-grown, get_or-grown, get_or-past}

get_or-take :
    (xs : List ℕ) (n i : ℕ) → get_or (take n xs) i 0 ≡ (if ltb i n then get_or xs i 0 else 0)
get_or-take xs zero i = ground arith
get_or-take [] (suc n) i = ground arith
get_or-take (x ∷ xs) (suc n) zero = ground arith
get_or-take (x ∷ xs) (suc n) (suc i) = let r = get_or-take xs n i in ground (arith, r)

-- The file has the size, its bytes up to it, and zeros past them.
abbrev Resized : ℕ → RamNode → RamNode → Type 0
Resized size r r' =
    (length r'.contents ≡ size)
    × ((i : ℕ) → get_or r'.contents i 0 ≡ (if ltb i size then get_or r.contents i 0 else 0))

cut :
    (r : RamNode) (size : ℕ)
    → Resized size r (record r {
      contents =
          blit
            (zeros size)
            0
            (take (if ltb (length r.contents) size then length r.contents else size) r.contents);
      owned = true;
    })
cut r size = (
  length-grown size (take copy r.contents),
  λ i.
      let g = get_or-grown size (take copy r.contents) i short in
      let t = get_or-take r.contents copy i in
      let p = get_or-past r.contents i in
      g ∙ t ∙ elim (Bool-cases (ltb i (length r.contents))) [
        | inl y ↦ ground (arith, y)
        | inr y ↦ rw (p (ground (arith, y))) (ground arith)
      ],
)
  where
    copy : ℕ
    copy = if ltb (length r.contents) size then length r.contents else size

    least : copy ≤ size
    least = ground arith

    short : length (take copy r.contents) ≤ size
    short = let l = length-take copy r.contents in omega (arith, l, least)

abbrev Truncates : Bool → RamNode → ℕ → Status × RamNode → Type 0
Truncates memory r size result =
    ((memory ≡ false) × (0 < size) × (size ≢ length r.contents) × (result ≡ (no_memory, r)))
    ⊎ ((r' : RamNode) × (result ≡ (ok, r')) × Resized size r r')

ram_truncate-Truncates :
    (memory : Bool) (r : RamNode) (size : ℕ) → Truncates memory r size (ram_truncate memory r size)
unfolding ram_truncate
ram_truncate-Truncates memory r size = elim (Bool-cases (size == length r.contents)) [
  | inl e ↦ inr (
    r,
    rw e refl,
    (
      ground (arith, e),
      λ i.
          let p = get_or-past r.contents i in
          elim (Bool-cases (ltb i size)) [
            | inl y ↦ rw y refl
            | inr y ↦ rw y (p (ground (arith, y, e)))
          ],
    ),
  )
  | inr e ↦ elim (Bool-cases (size == 0)) [
    | inl z ↦ inr (
      record r { contents = []; owned = false },
      rw (e, z) refl,
      (ground (arith, z), λ i. ground (arith, z)),
    )
    | inr z ↦ by_memory memory e z
  ]
]
  where
    by_memory :
        (m : Bool)
        → (size == length r.contents) ≡ false
        → (size == 0) ≡ false
        → Truncates m r size (ram_truncate m r size)
    by_memory false e z = inl (refl, ground (arith, z), ground (arith, e), rw (e, z) refl)
    by_memory true e z = inr (
      record r {
        contents =
            blit (zeros size) 0
              (take (if ltb (length r.contents) size then length r.contents else size) r.contents);
        owned = true;
      },
      rw (e, z) refl,
      cut r size,
    )
