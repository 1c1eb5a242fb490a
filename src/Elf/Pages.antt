-- ===== src/Elf/Pages.antt =====
-- The loops of elf_load over pages touch only pages of the user image, and map all that they cover.
use mathlib.Core.Path.{subst}
use manios.Base.{
  ℕ, zero, suc, ◌+◌, ◌*◌, ◌%◌, ◌≤◌, ◌<◌, ◌≡◌, inl, inr, true, List, arith, ltb, ◌==◌, length,
  Bool-cases,
}
use manios.Elf.{Space, map_new, map_range, protect_range}
use manios.Elf.Format.{ElfPhdr, page_size, user_image_min, user_image_top, writable_segment_covers}

pub record IsUserPage (page : ℕ) : Type 0 where
  pub aligned : page % page_size ≡ 0
  pub low : user_image_min ≤ page
  pub high : page + page_size ≤ user_image_top

-- The property `Inv` of the state is kept by what happens to pages of the user image, and to bytes
-- of it in pages that are mapped.
pub record Keeps (space : Space) (Inv : space.State → Type 0) : Type 0 where
  pub alloc : (st : space.State) → Inv st → Inv (space.alloc_frame st).1
  pub free : (st : space.State) (frame : ℕ) → Inv st → Inv (space.free_frame st frame)
  pub map :
      (st : space.State) (page frame : ℕ)
      → IsUserPage page
      → Inv st
      → Inv (space.map_page st page frame).1
  pub clear :
      (st : space.State) (page : ℕ) → IsUserPage page → Inv st → Inv (space.zero_page st page)
  pub copy :
      (st : space.State) (addr : ℕ) (bs : List ℕ)
      → user_image_min ≤ addr
      → addr + length bs ≤ user_image_top
      → ((page : ℕ)
          → page % page_size ≡ 0
          → page < addr + length bs
          → addr < page + page_size
          → space.is_mapped st page ≡ true)
      → Inv st
      → Inv (space.copy_in st addr bs)
  pub protect :
      (st : space.State) (page : ℕ) → IsUserPage page → Inv st → Inv (space.set_read_only st page)

-- A page stays mapped, and one that vmm_map_page accepts is mapped.
pub record Mapping (space : Space) : Type 0 where
  pub new :
      (st : space.State) (page frame : ℕ)
      → (space.map_page st page frame).0 ≡ true
      → space.is_mapped (space.map_page st page frame).1 page ≡ true
  pub map :
      (st : space.State) (page frame q : ℕ)
      → space.is_mapped st q ≡ true
      → space.is_mapped (space.map_page st page frame).1 q ≡ true
  pub alloc :
      (st : space.State) (q : ℕ)
      → space.is_mapped st q ≡ true
      → space.is_mapped (space.alloc_frame st).1 q ≡ true
  pub clear :
      (st : space.State) (page q : ℕ)
      → space.is_mapped st q ≡ true
      → space.is_mapped (space.zero_page st page) q ≡ true

module _ (space : Space) (Inv : space.State → Type 0) (keeps : Keeps space Inv) where
  open space use {State, alloc_frame, map_page, is_mapped, zero_page, free_frame, set_read_only}

  map_new-Keeps : (st : State) (page : ℕ) → IsUserPage page → Inv st → Inv (map_new space st page).1
  unfolding map_new
  map_new-Keeps st page u i = elim (Bool-cases (frame == 0)) [
    | inl y ↦ rw y (keeps.alloc st i)
    | inr y ↦ rw y (elim (Bool-cases (map_page st₁ page frame).0) [
      | inl z ↦ rw z (keeps.clear _ page u (keeps.map st₁ page frame u (keeps.alloc st i)))
      | inr z ↦ rw z (keeps.free _ frame (keeps.map st₁ page frame u (keeps.alloc st i)))
    ])
  ]
    where
      frame : ℕ
      frame = (alloc_frame st).0

      st₁ : State
      st₁ = (alloc_frame st).1

  pub map_range-Keeps :
      (fuel page end : ℕ) (st : State)
      → page % page_size ≡ 0
      → user_image_min ≤ page
      → end ≤ user_image_top
      → Inv st
      → Inv (map_range space fuel page end st).1
  unfolding map_range
  map_range-Keeps zero page end st a lo hi i = i
  map_range-Keeps (suc fuel) page end st a lo hi i = elim (Bool-cases (ltb page end)) [
    | inl y ↦ rw y (elim (Bool-cases (is_mapped st page)) [
      | inl z ↦
          rw z (map_range-Keeps fuel (page + page_size) end st (omega arith) (omega arith) hi i)
      | inr z ↦ rw z (elim (Bool-cases (map_new space st page).0) [
        | inl w ↦ rw w (
            map_range-Keeps fuel (page + page_size) end _ (omega arith) (omega arith) hi
              (map_new-Keeps st page (user y) i))
        | inr w ↦ rw w (map_new-Keeps st page (user y) i)
      ])
    ])
    | inr y ↦ rw y i
  ]
    where
      user : ltb page end ≡ true → IsUserPage page
      user y = record { aligned = a; low = lo; high = ground (arith, y) }

  pub protect_range-Keeps :
      (fuel : ℕ) (ps : List ElfPhdr) (page end : ℕ) (st : State)
      → page % page_size ≡ 0
      → user_image_min ≤ page
      → end ≤ user_image_top
      → Inv st
      → Inv (protect_range space fuel ps page end st)
  unfolding protect_range
  protect_range-Keeps zero ps page end st a lo hi i = i
  protect_range-Keeps (suc fuel) ps page end st a lo hi i = elim (Bool-cases (ltb page end)) [
    | inl y ↦ rw y (elim (Bool-cases (writable_segment_covers ps page)) [
      | inl z ↦
          rw z
            (protect_range-Keeps fuel ps (page + page_size) end st (omega arith) (omega arith) hi i)
      | inr z ↦ rw z (
          protect_range-Keeps fuel ps (page + page_size) end _ (omega arith) (omega arith) hi
            (keeps.protect st page (user y) i))
    ])
    | inr y ↦ rw y i
  ]
    where
      user : ltb page end ≡ true → IsUserPage page
      user y = record { aligned = a; low = lo; high = ground (arith, y) }

module _ (space : Space) (laws : Mapping space) where
  open space use {State, alloc_frame, map_page, is_mapped}

  map_new-Mapping :
      (st : State) (page : ℕ)
      → (map_new space st page).0 ≡ true
      → (is_mapped (map_new space st page).1 page ≡ true)
        × ((q : ℕ) → is_mapped st q ≡ true → is_mapped (map_new space st page).1 q ≡ true)
  unfolding map_new
  map_new-Mapping st page = elim (Bool-cases (frame == 0)) [
    | inl y ↦ rw y (λ h. cc)
    | inr y ↦ rw y (elim (Bool-cases (map_page st₁ page frame).0) [
      | inl z ↦ rw z (λ h. (
        laws.clear _ page page (laws.new st₁ page frame z),
        λ q m. laws.clear _ page q (laws.map st₁ page frame q (laws.alloc st q m)),
      ))
      | inr z ↦ rw z (λ h. cc)
    ])
  ]
    where
      frame : ℕ
      frame = (alloc_frame st).0

      st₁ : State
      st₁ = (alloc_frame st).1

  -- With fuel to come to the end, a loop that does not fail leaves all its pages mapped.
  pub map_range-Mapping :
      (fuel page end : ℕ) (st : State)
      → page % page_size ≡ 0
      → end ≤ page + fuel * page_size
      → (map_range space fuel page end st).0 ≡ true
      → ((q : ℕ)
          → q % page_size ≡ 0
          → page ≤ q
          → q < end
          → is_mapped (map_range space fuel page end st).1 q ≡ true)
        × ((q : ℕ)
            → is_mapped st q ≡ true
            → is_mapped (map_range space fuel page end st).1 q ≡ true)
  unfolding map_range
  map_range-Mapping zero page end st a f = λ h. (λ q b lo hi. absurd (omega arith), λ q m. m)
  map_range-Mapping (suc fuel) page end st a f = elim (Bool-cases (ltb page end)) [
    | inl y ↦ rw y (elim (Bool-cases (is_mapped st page)) [
      | inl z ↦ rw z (λ h.
          further z (λ q m. m)
            (map_range-Mapping fuel (page + page_size) end st (omega arith) (omega arith) h))
      | inr z ↦ rw z (elim (Bool-cases (map_new space st page).0) [
        | inl w ↦ rw w (λ h.
            further (map_new-Mapping st page w).0 (map_new-Mapping st page w).1
              (map_range-Mapping fuel (page + page_size) end _ (omega arith) (omega arith) h))
        | inr w ↦ rw w (λ h. cc)
      ])
    ])
    | inr y ↦ rw y (λ h. (λ q b lo hi. absurd (ground (arith, y)), λ q m. m))
  ]
    where
      further :
          {st' st₂ : State}
          → is_mapped st' page ≡ true
          → ((q : ℕ) → is_mapped st q ≡ true → is_mapped st' q ≡ true)
          → ((q : ℕ) → q % page_size ≡ 0 → page + page_size ≤ q → q < end → is_mapped st₂ q ≡ true)
            × ((q : ℕ) → is_mapped st' q ≡ true → is_mapped st₂ q ≡ true)
          → ((q : ℕ) → q % page_size ≡ 0 → page ≤ q → q < end → is_mapped st₂ q ≡ true)
            × ((q : ℕ) → is_mapped st q ≡ true → is_mapped st₂ q ≡ true)
      further {st'} {st₂} here kept (rest, stay) = (
        λ q b lo hi. elim (Bool-cases (q == page)) [
          | inl e ↦ subst (λ k. is_mapped st₂ k ≡ true) (ground (arith, e)) (stay page here)
          | inr e ↦ rest q b (ground (arith, e)) hi
        ],
        λ q m. stay q (kept q m),
      )
