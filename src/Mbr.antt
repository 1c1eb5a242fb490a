-- ===== src/Mbr.antt =====
-- zkt/drivers/mbr.c and the block requests of zkt/drivers/device.c: the partitions of a disk. A
-- sector is the list of its bytes, and device_register and kmalloc are parameters.
pub mod Bounds
mod Tests
use manios.Base.{
  ℕ, zero, suc, ◌+◌, ◌-◌, ◌*◌, ◌%◌, ◌^◌, bit_and, Bool, true, false, not, ◌&&◌, ◌||◌, List, [], ◌∷◌,
  ltb, leb, ◌==◌, if◌then◌else◌, get_or, Option, none, some,
}

abbrev pub table_offset : ℕ
table_offset = 446

abbrev pub entry_size : ℕ
entry_size = 16

pub le32 : List ℕ → ℕ → ℕ
le32 s i =
    get_or s i 0
    + get_or s (i + 1) 0 * 2 ^ 8
    + get_or s (i + 2) 0 * 2 ^ 16
    + get_or s (i + 3) 0 * 2 ^ 24

pub is_extended : ℕ → Bool
is_extended type = type == 0x05 || type == 0x0F || type == 0x85

pub has_fat_bpb : List ℕ → Bool
has_fat_bpb s =
    let bytes_per_sector = get_or s 11 0 + get_or s 12 0 * 2 ^ 8 in
    let per_cluster = get_or s 13 0 in
    let reserved = get_or s 14 0 + get_or s 15 0 * 2 ^ 8 in
    let fats = get_or s 16 0 in
    let media = get_or s 21 0 in
    bytes_per_sector == 512
    && not (per_cluster == 0)
    && bit_and per_cluster (per_cluster - 1) == 0
    && leb 1 reserved
    && (fats == 1 || fats == 2)
    && (media == 0xF0 || leb 0xF8 media)

-- The loop over the four entries, of which `n` are left from `i` on.
pub statuses_ok : List ℕ → ℕ → ℕ → Bool
statuses_ok s i zero = true
statuses_ok s i (suc n) =
    let status = get_or s (table_offset + i * entry_size) 0 in
    let rest = statuses_ok s (suc i) n in
    if not (status == 0x00) && not (status == 0x80) then false else rest

pub looks_like_mbr : List ℕ → Bool
unfolding has_fat_bpb statuses_ok
looks_like_mbr s =
    if not (get_or s 510 0 == 0x55) || not (get_or s 511 0 == 0xAA) || has_fat_bpb s
    then false
    else statuses_ok s 0 4

-- A partition: its number in the table, its first block on the disk and its blocks.
pub record Partition : Type 0 where
  pub number : ℕ
  pub first : ℕ
  pub count : ℕ

-- The entry `i`; none where mbr_scan passes over it.
pub read_entry : List ℕ → ℕ → ℕ → Option Partition
unfolding le32 is_extended
read_entry s block_count i =
    let e = table_offset + i * entry_size in
    let type = get_or s (e + 4) 0 in
    let first = le32 s (e + 8) in
    let count = le32 s (e + 12) in
    if type == 0
      || count == 0
      || is_extended type
      || first == 0
      || leb block_count first
      || ltb ((block_count + 2 ^ 32 - first) % 2 ^ 32) count
    then none
    else some (record { number = i + 1; first = first; count = count })

-- The loop of mbr_scan over the `n` entries from `i` on: the partitions that device_register takes.
-- `memory i` tells whether kmalloc gives memory for the entry, `is_new` whether its name is not
-- taken.
pub scan_entries : List ℕ → ℕ → (ℕ → Bool) → (Partition → Bool) → ℕ → ℕ → List Partition
unfolding read_entry
scan_entries s block_count memory is_new i zero = []
scan_entries s block_count memory is_new i (suc n) =
    let rest = scan_entries s block_count memory is_new (suc i) n in
    elim (read_entry s block_count i) [
      | none ↦ rest
      | some p ↦ if not (memory i) then [] else if is_new p then p ∷ rest else rest
    ]

-- mbr_scan; `sector` is what the read of block 0 gives, none where it or kmalloc fails.
pub mbr_scan : Option (List ℕ) → ℕ → ℕ → (ℕ → Bool) → (Partition → Bool) → List Partition
unfolding looks_like_mbr scan_entries
mbr_scan none block_size block_count memory is_new = []
mbr_scan (some s) block_size block_count memory is_new =
    if not (block_size == 512) || not (looks_like_mbr s)
    then []
    else scan_entries s block_count memory is_new 0 4

-- What device_read_blocks and device_write_blocks do with a request to a block device that has the
-- operation: the call of the operation, or the result.
pub data Request : Type 0 where
  call : ℕ → ℕ → Request
  no_blocks : Request
  out_of_range : Request

pub request_blocks : ℕ → ℕ → ℕ → Request
request_blocks block_count lba count =
    if ltb block_count lba || ltb ((block_count + 2 ^ 32 - lba) % 2 ^ 32) count
    then out_of_range
    else if count == 0
    then no_blocks
    else call lba count

-- partition_read and partition_write: the request that the disk gets.
pub partition_request : Partition → ℕ → ℕ → ℕ → Request
unfolding request_blocks
partition_request p disk_blocks lba count =
    request_blocks disk_blocks ((p.first + lba) % 2 ^ 32) count

-- A request to a partition's device.
pub through_partition : Partition → ℕ → Request → Request
unfolding partition_request
through_partition p disk_blocks (call lba count) = partition_request p disk_blocks lba count
through_partition p disk_blocks no_blocks = no_blocks
through_partition p disk_blocks out_of_range = out_of_range
