-- ===== src/Mbr/Tests.antt =====
-- A disk of 100 blocks whose sector 0 names one partition of 50 blocks from block 10 on.
use manios.Base.{ℕ, ◌≡◌, refl, arith, All, true, List, [], ◌∷◌, ◌++◌, replicate, some}
use manios.Mbr.{Partition, mbr_scan, request_blocks, through_partition}
use manios.Mbr.Bounds.{LiesIn, Confined, mbr_scan-LiesIn, through_partition-Confined}

abbrev sector : List ℕ
sector =
    replicate 446 0
    ++ (0 ∷ 0 ∷ 0 ∷ 0 ∷ 6 ∷ 0 ∷ 0 ∷ 0 ∷ 10 ∷ 0 ∷ 0 ∷ 0 ∷ 50 ∷ 0 ∷ 0 ∷ 0 ∷ [])
    ++ replicate 48 0
    ++ (0x55 ∷ 0xAA ∷ [])

abbrev partition : Partition
partition = record { number = 1; first = 10; count = 50 }

one_partition : mbr_scan (some sector) 512 100 (λ i. true) (λ p. true) ≡ partition ∷ []
unfolding mbr_scan
one_partition = refl

mbr_scan-LiesIn_example : All (LiesIn 100) (mbr_scan (some sector) 512 100 (λ i. true) (λ p. true))
mbr_scan-LiesIn_example =
    mbr_scan-LiesIn 100 (omega arith) (some sector) 512 (λ i. true) (λ p. true)

through_partition-Confined_example :
    Confined partition 5 10 (through_partition partition 100 (request_blocks 50 5 10))
through_partition-Confined_example =
    through_partition-Confined partition 100 5 10
      (record { not_table = omega arith; has_blocks = omega arith; on_disk = omega arith })
      (omega arith) (omega arith) (omega arith)
