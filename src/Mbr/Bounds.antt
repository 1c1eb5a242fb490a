-- ===== src/Mbr/Bounds.antt =====
-- The partitions that are registered lie in the disk, and requests to them stay in them.
use manios.Base.{
  ℕ, zero, suc, ◌+◌, ◌-◌, ◌*◌, ◌%◌, ◌^◌, ◌≤◌, ◌<◌, ◌≡◌, refl, inl, inr, Bool, false, not, ◌||◌,
  List, ltb, leb, ◌==◌, get_or, arith, All, Bool-cases, Option-cases, Option, none, some,
}
use manios.Mbr.{
  table_offset, entry_size, le32, is_extended, Partition, read_entry, scan_entries, looks_like_mbr,
  mbr_scan, Request, call, no_blocks, out_of_range, request_blocks, partition_request,
  through_partition,
}

-- The partition has blocks, the first is not the table's, and the last is on the disk.
pub record LiesIn (disk_blocks : ℕ) (p : Partition) : Type 0 where
  pub not_table : 0 < p.first
  pub has_blocks : 0 < p.count
  pub on_disk : p.first + p.count ≤ disk_blocks

abbrev Entry : ℕ → Option Partition → Type 0
Entry disk_blocks none = Unit
Entry disk_blocks (some p) = LiesIn disk_blocks p

abbrev refused : ℕ → ℕ → ℕ → ℕ → Bool
refused disk_blocks first count type =
    type == 0
    || count == 0
    || is_extended type
    || first == 0
    || leb disk_blocks first
    || ltb ((disk_blocks + 2 ^ 32 - first) % 2 ^ 32) count

accepted-LiesIn :
    (disk_blocks first count type number : ℕ)
    → disk_blocks < 2 ^ 32
    → refused disk_blocks first count type ≡ false
    → LiesIn disk_blocks (record { number = number; first = first; count = count })
accepted-LiesIn disk_blocks first count type number h y = record {
  not_table = ground (arith, y);
  has_blocks = ground (arith, y);
  on_disk = ground (arith, y);
}

read_entry-Entry :
    (s : List ℕ) (disk_blocks i : ℕ)
    → disk_blocks < 2 ^ 32
    → Entry disk_blocks (read_entry s disk_blocks i)
unfolding read_entry
read_entry-Entry s disk_blocks i h =
    let e = table_offset + i * entry_size in
    elim (Bool-cases
      (refused disk_blocks (le32 s (e + 8)) (le32 s (e + 12)) (get_or s (e + 4) 0))) [
        | inl y ↦ rw y tt
        | inr y ↦ rw y (
            accepted-LiesIn disk_blocks (le32 s (e + 8)) (le32 s (e + 12)) (get_or s (e + 4) 0)
              (i + 1) h y)
      ]

module _ (disk_blocks : ℕ) (small : disk_blocks < 2 ^ 32) where
  scan_entries-LiesIn :
      (s : List ℕ) (memory : ℕ → Bool) (is_new : Partition → Bool) (i n : ℕ)
      → All (LiesIn disk_blocks) (scan_entries s disk_blocks memory is_new i n)
  unfolding scan_entries
  scan_entries-LiesIn s memory is_new i zero = tt
  scan_entries-LiesIn s memory is_new i (suc n) =
      let rest = scan_entries-LiesIn s memory is_new (suc i) n in
      elim (Option-cases (read_entry s disk_blocks i)) [
        | inl e ↦ rw (scan_entries, e) rest
        | inr (p, e) ↦
            let fits : Entry disk_blocks (some p) =
              rw e at (read_entry-Entry s disk_blocks i small) in
            rw (scan_entries, e)
              (elim (Bool-cases (memory i)) [
                | inl y ↦
                    rw y (elim (Bool-cases (is_new p)) [
                      | inl z ↦ rw z (fits, rest)
                      | inr z ↦ rw z rest
                    ])
                | inr y ↦ rw y tt
              ])
      ]

  -- Whatever the bytes of the sector, each partition that mbr_scan registers has a block at least,
  -- does not hold the partition table's block and ends on the disk, where the disk's blocks are
  -- counted in 32 bits.
  pub mbr_scan-LiesIn :
      (sector : Option (List ℕ)) (block_size : ℕ) (memory : ℕ → Bool) (is_new : Partition → Bool)
      → All (LiesIn disk_blocks) (mbr_scan sector block_size disk_blocks memory is_new)
  unfolding mbr_scan
  mbr_scan-LiesIn none block_size memory is_new = tt
  mbr_scan-LiesIn (some s) block_size memory is_new =
      elim (Bool-cases (not (block_size == 512) || not (looks_like_mbr s))) [
        | inl y ↦ rw y tt
        | inr y ↦ rw y (scan_entries-LiesIn s memory is_new 0 4)
      ]

-- What becomes of a request to a partition: it reaches the disk moved to the partition and inside
-- it, it asks for nothing, or it does not lie in the partition.
abbrev pub Confined : Partition → ℕ → ℕ → Request → Type 0
Confined p lba count (call l n) =
    (l ≡ p.first + lba) × (n ≡ count) × (0 < count) × (lba + count ≤ p.count)
Confined p lba count no_blocks = (count ≡ 0) × (lba ≤ p.count)
Confined p lba count out_of_range = p.count < lba + count

-- The disk takes the request that partition_read makes.
moved_request :
    (p : Partition) (disk_blocks lba count : ℕ)
    → LiesIn disk_blocks p
    → disk_blocks < 2 ^ 32
    → lba + count ≤ p.count
    → (count == 0) ≡ false
    → Confined p lba count (partition_request p disk_blocks lba count)
unfolding partition_request request_blocks
moved_request p disk_blocks lba count f hd h z =
    let moved : (p.first + lba) % 2 ^ 32 ≡ p.first + lba = omega (arith, f.on_disk, h, hd) in
    let taken : (ltb disk_blocks (p.first + lba)
          || ltb ((disk_blocks + 2 ^ 32 - (p.first + lba)) % 2 ^ 32) count)
        ≡ false =
      ground (arith, f.on_disk, h, hd) in
    rw (moved, taken, z) (refl, refl, ground (arith, z), h)

-- A request to a partition that lies in its disk reaches the disk exactly where it is not empty and
-- lies in the partition, moved to where the partition starts; the disk never refuses it.
pub through_partition-Confined :
    (p : Partition) (disk_blocks lba count : ℕ)
    → LiesIn disk_blocks p
    → disk_blocks < 2 ^ 32
    → lba < 2 ^ 32
    → count < 2 ^ 32
    → Confined p lba count (through_partition p disk_blocks (request_blocks p.count lba count))
unfolding through_partition partition_request request_blocks
through_partition-Confined p disk_blocks lba count f hd hl hc =
    elim (Bool-cases (ltb p.count lba || ltb ((p.count + 2 ^ 32 - lba) % 2 ^ 32) count)) [
      | inl y ↦ rw y (ground (arith, y, f.on_disk))
      | inr y ↦ rw y (elim (Bool-cases (count == 0)) [
        | inl z ↦ rw z (ground (arith, z), ground (arith, y))
        | inr z ↦ rw z (moved_request p disk_blocks lba count f hd (ground (arith, y, hl, hc)) z)
      ])
    ]
