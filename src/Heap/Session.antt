-- ===== src/Heap/Session.antt =====
-- Any sequence of kmalloc and kfree calls, as steps.
use mathlib.Core.Path.{subst}
use manios.Base.{ℕ, ◌<◌, ◌≡◌, ◌∙◌, some, arith}
use manios.Heap.Live.{live}
use manios.Heap.{Heap, Pages, kmalloc, kfree, done}
use manios.Heap.Tiling.{IsValid}
use manios.Heap.Grow.{kmalloc-IsValid}
use manios.Heap.Kfree.{kfree-live}
use manios.Heap.Kmalloc.{Served, kmalloc-Served}

module _ (pages : Pages) where
  open pages use {State}

  -- A call, in whatever state the frames and page tables are then.
  pub data Step (h : Heap) : Heap → Type 0 where
    alloc : (size : ℕ) (st : State) {h' : Heap} → (kmalloc pages size (h, st)).1 ≡ h' → Step h h'
    release : (word p : ℕ) {h' : Heap} → kfree h word p ≡ done h' → Step h h'

  pub data Reach (h : Heap) : Heap → Type 0 where
    start : Reach h h
    next : {g k : Heap} → Reach h g → Step g k → Reach h k

-- The kmalloc of a pointer and its kfree give back the allocations as they were, and the heap stays
-- valid.
pub kfree-kmalloc :
    (pages : Pages) {h : Heap} (size word p : ℕ) (st : pages.State)
    → IsValid h
    → 0 < size
    → (kmalloc pages size (h, st)).0 ≡ some p
    → (h' : Heap) × (kfree (kmalloc pages size (h, st)).1 word p ≡ done h')
      × IsValid h'
      × ((q : ℕ) → live h'.blocks q ≡ live h.blocks q)
kfree-kmalloc pages {h} size word p st v pos e =
    given_back (subst (λ r. Served h size r after) e (kmalloc-Served pages size st v))
  where
    after : Heap
    after = (kmalloc pages size (h, st)).1

    given_back :
        Served h size (some p) after
        → (h' : Heap) × (kfree after word p ≡ done h')
          × IsValid h'
          × ((q : ℕ) → live h'.blocks q ≡ live h.blocks q)
    given_back (n, le, al, fresh, others) =
        let (h', e', v', others', _) =
          kfree-live word p n (kmalloc-IsValid pages size st v) (omega arith)
            (others p ∙ ground arith) in
        (h', e', v', λ q. others' q ∙ ground (arith, others q, fresh))
