-- ===== src/Partition/Tests.antt =====
-- A disk of 64 MiB, blank, with a table, and without a size.
use node_disk_manager.Base.{
  String, Option, none, some, [], ◌∷◌, ◌≡◌, ◌≤◌, inl, inr, refl, ◌+◌, ◌*◌, ◌/◌, arith,
}
use node_disk_manager.Cluster.Disk.{
  DiskRequest, open_disk, read_table, read_file_system, write_table,
}
use node_disk_manager.Cluster.Program.{not_found, err, done, failed, disk_error}
use node_disk_manager.Cluster.Safe.{table_write}
use node_disk_manager.Cluster.Run.{Replies, run}
use node_disk_manager.Partition.{
  Disk, create_single_partition, create_partition_table, start_sector, end_sector,
  primary_partition_table_size,
}
use node_disk_manager.Partition.Bounds.{partition_bounds, partition_wraps}
use node_disk_manager.Partition.Outcomes.{
  run-create_single_partition, create_partition_refuses, single_table,
}

abbrev disk : Disk
disk = record { dev_path = "/dev/sdb"; disk_size = 67108864; logical_block_size = 512 }

abbrev blank_answers : DiskRequest → Option String
blank_answers (open_disk _) = some ""
blank_answers (read_table _) = none
blank_answers (read_file_system _) = some ""
blank_answers (write_table _ _) = some ""

abbrev used_answers : DiskRequest → Option String
used_answers (open_disk _) = some ""
used_answers (read_table _) = some ""
used_answers (read_file_system _) = some "ext4"
used_answers (write_table _ _) = some ""

abbrev answers : (DiskRequest → Option String) → Replies
answers disk = record {
  claim = λ _. err not_found;
  claim_update = λ _. err not_found;
  device = λ _. err not_found;
  devices = λ _. err not_found;
  device_create = λ _. err not_found;
  device_update = λ _. err not_found;
  taints = λ _. err not_found;
  job = λ _. err not_found;
  job_create = λ _. err not_found;
  job_delete = λ _. err not_found;
  disk = disk;
}

run-create_single_partition_example :
    run (answers blank_answers) (create_single_partition disk)
    ≡ (table_write "/dev/sdb" (single_table disk) ∷ [], done tt)
run-create_single_partition_example =
    run-create_single_partition (answers blank_answers) disk (inl refl) (omega arith) (omega arith)
      (λ e. cc, refl, refl)

create_partition_refuses_example :
    (run (answers used_answers) (create_single_partition disk) ≡ ([], failed disk_error))
    × (run (answers used_answers) (create_partition_table disk) ≡ ([], failed disk_error))
create_partition_refuses_example =
    create_partition_refuses (answers used_answers) disk (inl (inr (inl (λ e. cc))))

partition_bounds_example :
    (primary_partition_table_size 512 + 1 ≤ start_sector 512 [])
    × (start_sector 512 [] ≤ end_sector 512 67108864)
    × (end_sector 512 67108864 + primary_partition_table_size 512 + 1 ≡ 67108864 / 512)
    × ((end_sector 512 67108864 + 1) * 512 ≤ 67108864)
partition_bounds_example = partition_bounds 67108864 (omega arith) 512 (inl refl) (omega arith)

partition_wraps_example : 8192 / 512 ≤ end_sector 512 8192
partition_wraps_example = partition_wraps 8192 (omega arith) 512 (inl refl) (omega arith)
