-- ===== src/Partition/Sound.antt =====
-- A partition table is written only on a disk that was seen to be blank.
use node_disk_manager.Base.{
  eqb, [], true, if◌then◌else◌, List, ◌⊎◌, String, ◌≡◌, Option, none, some, ◌∷◌, In, refl, inl, inr,
  get_or, Bool-cases, ◌==◌, eq_iff,
}
use node_disk_manager.Cluster.Disk.{
  write_table, Partition, PartitionTable, DiskRequest, open_disk, read_table, read_file_system,
}
use node_disk_manager.Cluster.Program.{
  done, Program, Outcome, failed, Failure, disk_error, ask_disk, ◌>>◌,
}
use node_disk_manager.Cluster.Safe.{Safe->>=, table_write, History, Write, Safe, Then, asked_disk}
use node_disk_manager.Partition.{
  add_partition, write_single, write_empty, create_single_partition, create_partition_table,
  new_partition_table, apply_partition_table, Disk, check_blank, must_succeed, must_fail,
  must_be_empty,
}

-- The disk was opened, no partition table could be read from it, and no file system was found.
abbrev pub WasBlank : History → String → Type 0
WasBlank h path =
    ((o : String) × In (open_disk path, some o) h.asked)
    × In (read_table path, none) h.asked
    × (r : Option String) × In (read_file_system path, r) h.asked
    × (get_or r "" ≡ "")

module _ (h : History) (path : String) where
  -- what is known after the tests
  abbrev pub after_tests : String → Option String → History
  after_tests o r = record h {
    asked =
        (read_file_system path, r) ∷ (read_table path, none) ∷ (open_disk path, some o) ∷ h.asked;
  }

  pub after_tests-WasBlank :
      (o : String) (r : Option String) → get_or r "" ≡ "" → WasBlank (after_tests o r) path
  after_tests-WasBlank o r e = ((o, inr (inr (inl refl))), inr (inl refl), r, inl refl, e)

  module _ (policy : History → Write → Type 0) {B : Type 0} (post : History → Outcome B → Type 0)
      (f : Unit → Program (Outcome B)) (bad : (h' : History) (e : Failure) → post h' (failed e))
      (good : (o : String) (r : Option String)
        → get_or r "" ≡ ""
        → Safe policy post (after_tests o r) (f tt)) where
    file_system-Safe :
        (o : String) (r : Option String)
        → Safe policy (Then policy post f) (after_tests o r) (must_be_empty r)
    file_system-Safe o r = elim (Bool-cases (get_or r "" == "")) [
      | inl e ↦ rw e (good o r ((eq_iff (get_or r "") "").0 e))
      | inr e ↦ rw e (bad _ disk_error)
    ]

    table-Safe :
        (o : String) (r : Option String)
        → Safe policy
            (Then policy post f)
            (asked_disk (read_table path) r (asked_disk (open_disk path) (some o) h))
            (must_fail r >> ask_disk (read_file_system path) must_be_empty)
    table-Safe o none = (tt, file_system-Safe o)
    table-Safe o (some _) = bad _ disk_error

    open-Safe :
        (r : Option String)
        → Safe policy (Then policy post f) (asked_disk (open_disk path) r h) (
            (must_succeed r >> ask_disk (read_table path) must_fail)
            >> ask_disk (read_file_system path) must_be_empty)
    open-Safe none = bad _ disk_error
    open-Safe (some o) = (tt, table-Safe o)

    pub check_blank-Safe : Safe policy (Then policy post f) h (check_blank path)
    unfolding check_blank
    check_blank-Safe = (tt, open-Safe)

new_partition_table-cases :
    (d : Disk)
    → (new_partition_table d ≡ none)
      ⊎ ((d' : Disk) × (table : PartitionTable) × (new_partition_table d ≡ some (d', table))
          × (d'.dev_path ≡ d.dev_path))
unfolding new_partition_table
new_partition_table-cases d = elim (Bool-cases (eqb d.disk_size 0)) [
  | inl e ↦ inl (rw e refl)
  | inr e ↦ inr (
    record d {
      logical_block_size = if eqb d.logical_block_size 0 then 512 else d.logical_block_size;
    },
    record {
      logical_sector_size = if eqb d.logical_block_size 0 then 512 else d.logical_block_size;
      protective_mbr = true;
      partitions = [];
    },
    rw e refl,
    refl,
  )
]

module _ (policy : History → Write → Type 0) (post : History → Outcome Unit → Type 0)
    (all : (h' : History) (o : Outcome Unit) → post h' o) where
  answered-Safe :
      (h : History) (q : DiskRequest) (r : Option String)
      → Safe policy post (asked_disk q r h) (must_succeed r)
  answered-Safe h q none = all _ (failed disk_error)
  answered-Safe h q (some _) = all _ (done tt)

  apply_partition_table-Safe :
      (h : History) (path : String) (table : PartitionTable) (ps : List Partition)
      → table.partitions ≡ ps
      → policy h (table_write path table)
      → Safe policy post h (apply_partition_table path table)
  unfolding apply_partition_table
  apply_partition_table-Safe h path table [] e a =
      rw (e, apply_partition_table) (all h (failed disk_error))
  apply_partition_table-Safe h path table (p ∷ ps) e a =
      rw (e, apply_partition_table) (a, answered-Safe h (write_table path table))

  module _ (h : History) (d : Disk)
      (allowed : (o : String) (r : Option String)
        → get_or r "" ≡ ""
        → (table : PartitionTable)
        → policy (after_tests h d.dev_path o r) (table_write d.dev_path table)) where
    pub create_single_partition-Safe : Safe policy post h (create_single_partition d)
    unfolding create_single_partition write_single add_partition
    create_single_partition-Safe =
        Safe->>= policy post (λ _. write_single (new_partition_table d)) (check_blank d.dev_path) h
          (check_blank-Safe h d.dev_path policy post (λ _. write_single (new_partition_table d))
            (λ h' e. all h' (failed e)) single)
      where
        single :
            (o : String) (r : Option String)
            → get_or r "" ≡ ""
            → Safe policy post (after_tests h d.dev_path o r) (write_single (new_partition_table d))
        single o r e = elim (new_partition_table-cases d) [
          | inl n ↦ rw n (all _ (failed disk_error))
          | inr (d', table, n, same) ↦ rw n (
              apply_partition_table-Safe _ d'.dev_path (add_partition d' table) _ refl
                (rw same (allowed o r e (add_partition d' table))))
        ]

    pub create_partition_table-Safe : Safe policy post h (create_partition_table d)
    unfolding create_partition_table write_empty
    create_partition_table-Safe =
        Safe->>= policy post (λ _. write_empty (new_partition_table d)) (check_blank d.dev_path) h
          (check_blank-Safe h d.dev_path policy post (λ _. write_empty (new_partition_table d))
            (λ h' e. all h' (failed e)) empty)
      where
        empty :
            (o : String) (r : Option String)
            → get_or r "" ≡ ""
            → Safe policy post (after_tests h d.dev_path o r) (write_empty (new_partition_table d))
        empty o r e = elim (new_partition_table-cases d) [
          | inl n ↦ rw n (all _ (failed disk_error))
          | inr (d', table, n, same) ↦
              rw n (rw same (allowed o r e table), answered-Safe _ (write_table d'.dev_path table))
        ]
