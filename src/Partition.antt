-- ===== src/Partition.antt =====
-- pkg/partition/partition.go: writing a GPT partition table on a disk that has none. The fields
-- `table` and `disk` of the source's Disk are passed on here: the table is a value, and the open
-- disk is named by its path in each request. Sectors are uint64, and their subtraction wraps.
pub mod Bounds
pub mod Sound
pub mod Outcomes
mod Tests
use node_disk_manager.Base.{
  ℕ, ◌+◌, ◌-◌, ◌/◌, ◌%◌, ◌^◌, String, Bool, true, false, not, Option, none, some, List, [], ◌∷◌,
  ◌++◌, ◌==◌, eqb, get_or, if◌then◌else◌,
}
use node_disk_manager.Cluster.Disk.{
  Partition, PartitionTable, open_disk, read_table, read_file_system, write_table,
}
use node_disk_manager.Cluster.Program.{
  Program, Outcome, done, failed, disk_error, ret, ask_disk, ◌>>=◌, ◌>>◌,
}

pub record Disk : Type 0 where
  pub dev_path : String
  pub disk_size : ℕ
  pub logical_block_size : ℕ

-- a - b on uint64
abbrev pub sub64 : ℕ → ℕ → ℕ
sub64 a b = (a + 2 ^ 64 - b) % 2 ^ 64

-- createPartitionTable, with the disk after it; none is the error
unfoldable pub new_partition_table : Disk → Option (Disk × PartitionTable)
new_partition_table d =
    if eqb d.disk_size 0
    then none
    else (let size = if eqb d.logical_block_size 0 then 512 else d.logical_block_size in
        some (
          record d { logical_block_size = size },
          record { logical_sector_size = size; protective_mbr = true; partitions = [] },
        ))

-- PrimaryPartitionTableSize
abbrev pub primary_partition_table_size : ℕ → ℕ
primary_partition_table_size block_size = 16384 / block_size + 1

-- the first sector; the second partition would start at 0
unfoldable pub start_sector : ℕ → List Partition → ℕ
start_sector block_size [] = 1048576 / block_size
start_sector block_size (_ ∷ _) = 0

unfoldable pub end_sector : ℕ → ℕ → ℕ
end_sector block_size disk_size =
    sub64 (sub64 (disk_size / block_size) (primary_partition_table_size block_size)) 1

-- addPartition, which never fails
unfoldable pub add_partition : Disk → PartitionTable → PartitionTable
unfolding start_sector end_sector
add_partition d table = record table {
  partitions =
      table.partitions
      ++ record {
        start = start_sector d.logical_block_size table.partitions;
        end = end_sector d.logical_block_size d.disk_size;
        name = "OpenEBS_NDM";
      }
        ∷ [];
}

-- the outcome of a request that only succeeds or fails
abbrev pub must_succeed : Option String → Program (Outcome Unit)
must_succeed none = ret (failed disk_error)
must_succeed (some _) = ret (done tt)

abbrev pub must_fail : Option String → Program (Outcome Unit)
must_fail none = ret (done tt)
must_fail (some _) = ret (failed disk_error)

abbrev pub must_be_empty : Option String → Program (Outcome Unit)
must_be_empty r = if not (get_or r "" == "") then ret (failed disk_error) else ret (done tt)

-- applyPartitionTable
unfoldable pub apply_partition_table : String → PartitionTable → Program (Outcome Unit)
apply_partition_table path table = elim table.partitions [
  | [] ↦ ret (failed disk_error)
  | _ ∷ _ ↦ ask_disk (write_table path table) must_succeed
]

-- The tests with which both CreateSinglePartition and CreatePartitionTable begin.
unfoldable pub check_blank : String → Program (Outcome Unit)
check_blank path =
    ask_disk (open_disk path) must_succeed
    >> ask_disk (read_table path) must_fail
    >> ask_disk (read_file_system path) must_be_empty

unfoldable pub write_single : Option (Disk × PartitionTable) → Program (Outcome Unit)
write_single none = ret (failed disk_error)
write_single (some (d, table)) = apply_partition_table d.dev_path (add_partition d table)

unfoldable pub write_empty : Option (Disk × PartitionTable) → Program (Outcome Unit)
write_empty none = ret (failed disk_error)
write_empty (some (d, table)) = ask_disk (write_table d.dev_path table) must_succeed

-- CreateSinglePartition
unfoldable pub create_single_partition : Disk → Program (Outcome Unit)
unfolding write_single
create_single_partition d = check_blank d.dev_path >> write_single (new_partition_table d)

-- CreatePartitionTable
unfoldable pub create_partition_table : Disk → Program (Outcome Unit)
unfolding write_empty
create_partition_table d = check_blank d.dev_path >> write_empty (new_partition_table d)
