-- ===== src/Ramfs/Files.antt =====
-- The contents of a writable file: ram_write and ram_read.
use manios.Base.{
  ℕ, zero, suc, ◌+◌, ◌-◌, ◌%◌, ◌^◌, ◌≤◌, ◌<◌, ◌≡◌, ◌≢◌, refl, ap, ◌∙◌, ◌⊎◌, inl, inr, Bool, true,
  false, ◌&&◌, List, [], ◌∷◌, arith, ltb, leb, ◌==◌, if◌then◌else◌, length, take, drop, replicate,
  get_or, Bool-cases,
}
use manios.Base.Bytes.{blit, length-blit}
use manios.Ramfs.{RamNode, Status, ok, invalid, no_memory, ram_read, ram_write}

get_or-blit :
    (xs : List ℕ) (i : ℕ) (bs : List ℕ) (j : ℕ)
    → i + length bs ≤ length xs
    → get_or (blit xs i bs) j 0
      ≡ (if leb i j && ltb j (i + length bs) then get_or bs (j - i) 0 else get_or xs j 0)
get_or-blit [] i [] j h = ground arith
get_or-blit [] i (b ∷ bs) j h = absurd (omega (arith, h))
get_or-blit (x ∷ xs) zero [] j h = ground arith
get_or-blit (x ∷ xs) zero (b ∷ bs) zero h = ground arith
get_or-blit (x ∷ xs) zero (b ∷ bs) (suc j) h =
    let i = get_or-blit xs zero bs j (omega (arith, h)) in ground (arith, i)
get_or-blit (x ∷ xs) (suc i) bs zero h = ground arith
get_or-blit (x ∷ xs) (suc i) bs (suc j) h =
    let r = get_or-blit xs i bs j (omega (arith, h)) in ground (arith, r)

drop-blit_self :
    (xs : List ℕ) (i : ℕ) (bs : List ℕ)
    → i + length bs ≤ length xs
    → take (length bs) (drop i (blit xs i bs)) ≡ bs
drop-blit_self [] i [] h = refl
drop-blit_self [] i (b ∷ bs) h = absurd (omega (arith, h))
drop-blit_self (x ∷ xs) zero [] h = refl
drop-blit_self (x ∷ xs) zero (b ∷ bs) h =
    ap (λ t. b ∷ t) (drop-blit_self xs zero bs (omega (arith, h)))
drop-blit_self (x ∷ xs) (suc i) bs h = drop-blit_self xs i bs (omega (arith, h))

abbrev pub zeros : ℕ → List ℕ
zeros n = replicate n 0

length-zeros : (n : ℕ) → length (zeros n) ≡ n
length-zeros zero = refl
length-zeros (suc n) = ap suc (length-zeros n)

get_or-zeros : (n i d : ℕ) → d ≡ 0 → get_or (zeros n) i d ≡ 0
get_or-zeros zero i d e = e
get_or-zeros (suc n) zero d e = refl
get_or-zeros (suc n) (suc i) d e = get_or-zeros n i d e

pub get_or-past : (xs : List ℕ) (i : ℕ) → length xs ≤ i → get_or xs i 0 ≡ 0
get_or-past [] i h = refl
get_or-past (x ∷ xs) zero h = absurd (omega (arith, h))
get_or-past (x ∷ xs) (suc i) h = get_or-past xs i (omega (arith, h))

-- A buffer of zeros with the old contents at its start.
pub length-grown : (size : ℕ) (xs : List ℕ) → length (blit (zeros size) 0 xs) ≡ size
length-grown size xs = length-blit (zeros size) 0 xs ∙ length-zeros size

pub get_or-grown :
    (size : ℕ) (xs : List ℕ) (i : ℕ)
    → length xs ≤ size
    → get_or (blit (zeros size) 0 xs) i 0 ≡ get_or xs i 0
get_or-grown size xs i h =
    let l = length-zeros size in
    let b = get_or-blit (zeros size) 0 xs i (omega (arith, l, h)) in
    let z = get_or-zeros size i 0 refl in
    let p = get_or-past xs i in
    elim (Bool-cases (ltb i (length xs))) [
      | inl y ↦ b ∙ ground (arith, y)
      | inr y ↦ b ∙ rw z (ground (arith, y, p (ground (arith, y))))
    ]

-- The file has the bytes from `offset` on, what it had elsewhere, and zeros in a gap.
abbrev HasWritten : RamNode → ℕ → List ℕ → RamNode → Type 0
HasWritten r offset bytes r' =
    (length r'.contents ≡ (
      if ltb (length r.contents) (offset + length bytes)
      then offset + length bytes
      else length r.contents))
    × ((i : ℕ)
        → get_or r'.contents i 0 ≡ (
            if leb offset i && ltb i (offset + length bytes)
            then get_or bytes (i - offset) 0
            else get_or r.contents i 0))
    × (ram_read r' offset (length bytes) ≡ bytes)

abbrev pub Writes : Bool → RamNode → ℕ → List ℕ → Status × RamNode → Type 0
Writes memory r offset bytes result =
    ((2 ^ 32 ≤ offset + length bytes) × (result ≡ (invalid, r)))
    ⊎ ((offset + length bytes < 2 ^ 32)
        × (((length bytes ≡ 0) × (result ≡ (ok, r)))
            ⊎ (((length bytes ≢ 0) × (memory ≡ false) × (result ≡ (no_memory, r)))
                ⊎ ((r' : RamNode) × (memory ≡ true)
                    × (length bytes ≢ 0)
                    × (result ≡ (ok, r'))
                    × HasWritten r offset bytes r'))))

written :
    (r : RamNode) (offset : ℕ) (bytes : List ℕ) (size : ℕ)
    → length bytes ≢ 0
    → size ≡ (
        if ltb (length r.contents) (offset + length bytes)
        then offset + length bytes
        else length r.contents)
    → HasWritten r offset bytes
        (record r { contents = blit (blit (zeros size) 0 r.contents) offset bytes; owned = true })
unfolding ram_read
written r offset bytes size n e = (
  long ∙ e,
  λ i.
      let b = get_or-blit grown offset bytes i (omega (arith, l, fits)) in
      let g = get_or-grown size r.contents i holds in b ∙ rw g refl,
  reads,
)
  where
    grown : List ℕ
    grown = blit (zeros size) 0 r.contents

    l : length grown ≡ size
    l = length-grown size r.contents

    fits : offset + length bytes ≤ size
    fits = ground (arith, e)

    holds : length r.contents ≤ size
    holds = ground (arith, e)

    long : length (blit grown offset bytes) ≡ size
    long = length-blit grown offset bytes ∙ l

    reads :
        (if leb (length (blit grown offset bytes)) offset
          then []
          else take
              (if ltb (length (blit grown offset bytes) - offset) (length bytes)
                then length (blit grown offset bytes) - offset
                else length bytes)
              (drop offset (blit grown offset bytes)))
        ≡ bytes
    reads =
        let a : leb size offset ≡ false = ground (arith, fits, n) in
        let b : ltb (size - offset) (length bytes) ≡ false = ground (arith, fits) in
        rw (long, a, b) (drop-blit_self grown offset bytes (omega (arith, l, fits)))

-- ram_write at a 32-bit offset fails where the end does not fit in 32 bits, changes nothing for no
-- bytes, and fails without memory; otherwise the file grows to the end of the write if it was
-- shorter, has the bytes where they were written, zeros in a gap and what it had elsewhere, and
-- ram_read there gives the bytes back.
pub ram_write-Writes :
    (memory : Bool) (r : RamNode) (offset : ℕ) (bytes : List ℕ)
    → offset < 2 ^ 32
    → Writes memory r offset bytes (ram_write memory r offset bytes)
unfolding ram_write ram_read
ram_write-Writes memory r offset bytes h =
    elim (Bool-cases (ltb (2 ^ 32 - 1 - offset) (length bytes))) [
      | inl o ↦ inl (ground (arith, o), rw o refl)
      | inr o ↦
          let small : offset + length bytes < 2 ^ 32 = ground (arith, o, h) in
          inr (
            small,
            elim (Bool-cases (length bytes == 0)) [
              | inl z ↦ inl (ground (arith, z), rw (o, z) refl)
              | inr z ↦ inr (by_memory memory o z small)
            ],
          )
    ]
  where
    by_memory :
        (m : Bool)
        → ltb (2 ^ 32 - 1 - offset) (length bytes) ≡ false
        → (length bytes == 0) ≡ false
        → offset + length bytes < 2 ^ 32
        → ((length bytes ≢ 0) × (m ≡ false) × (ram_write m r offset bytes ≡ (no_memory, r)))
          ⊎ ((r' : RamNode) × (m ≡ true)
              × (length bytes ≢ 0)
              × (ram_write m r offset bytes ≡ (ok, r'))
              × HasWritten r offset bytes r')
    by_memory false o z small = inl (ground (arith, z), refl, rw (o, z) refl)
    by_memory true o z small =
        let size =
          if ltb (length r.contents) ((offset + length bytes) % 2 ^ 32)
          then (offset + length bytes) % 2 ^ 32
          else length r.contents in
        inr (
          record r { contents = blit (blit (zeros size) 0 r.contents) offset bytes; owned = true },
          refl,
          ground (arith, z),
          rw (o, z) refl,
          written r offset bytes size (ground (arith, z)) (ground (arith, small)),
        )
