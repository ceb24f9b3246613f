-- ===== src/Partition/Bounds.antt =====
-- Where the partition lies on the disk.
use node_disk_manager.Base.{ℕ, ◌-◌, ◌+◌, ◌*◌, ◌/◌, ◌^◌, ◌≤◌, ◌<◌, ◌≡◌, ◌⊎◌, inl, inr, [], arith}
use node_disk_manager.Partition.{start_sector, end_sector, primary_partition_table_size}

module _ (disk_size : ℕ) (fits : disk_size < 2 ^ 64) where
  -- With the block size 512 or 4096 of real disks, at least two mebibytes, and less than 2^64 bytes, the partition starts
  -- after the primary table, ends before the backup table, is not empty, and lies on the disk: the
  -- subtractions do not wrap.
  pub partition_bounds :
      (block_size : ℕ)
      → (block_size ≡ 512) ⊎ (block_size ≡ 4096)
      → 2097152 ≤ disk_size
      → (primary_partition_table_size block_size + 1 ≤ start_sector block_size [])
        × (start_sector block_size [] ≤ end_sector block_size disk_size)
        × (end_sector block_size disk_size + primary_partition_table_size block_size + 1
            ≡ disk_size / block_size)
        × ((end_sector block_size disk_size + 1) * block_size ≤ disk_size)
  unfolding start_sector end_sector
  partition_bounds block_size (inl e) large = rw e (omega arith)
  partition_bounds block_size (inr e) large = rw e (omega arith)

  -- With the block size 512 or 4096 and a size below 2^64 bytes: where the disk has no more blocks than
  -- a partition table needs, the last sector wraps, and it lies behind the end of the disk.
  pub partition_wraps :
      (block_size : ℕ)
      → (block_size ≡ 512) ⊎ (block_size ≡ 4096)
      → disk_size / block_size ≤ primary_partition_table_size block_size
      → disk_size / block_size ≤ end_sector block_size disk_size
  unfolding end_sector
  partition_wraps block_size (inl e) small =
      let few : disk_size / 512 ≤ 33 = rw e at small in rw e (omega arith)
  partition_wraps block_size (inr e) small =
      let few : disk_size / 4096 ≤ 5 = rw e at small in rw e (omega arith)

-- The last block that GPT leaves to partitions, by the standard: the blocks are numbered from 0, and
-- at the end of the disk stand 128 entries of 128 bytes each and then one block with the header.
abbrev pub last_usable : ℕ → ℕ → ℕ
last_usable block_size disk_size = disk_size / block_size - 1 - 128 * 128 / block_size - 1

pub end_sector_lem :
    (block_size disk_size : ℕ)
    → (block_size ≡ 512) ⊎ (block_size ≡ 4096)
    → 2097152 ≤ disk_size
    → disk_size < 2 ^ 64
    → end_sector block_size disk_size ≡ last_usable block_size disk_size
unfolding end_sector
end_sector_lem block_size disk_size (inl e) large fits = rw e (omega arith)
end_sector_lem block_size disk_size (inr e) large fits = rw e (omega arith)
