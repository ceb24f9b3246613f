-- ===== src/Partition/Outcomes.antt =====
-- What creating a partition does, by what the disk answers.
use node_disk_manager.Base.{
  ◌≤◌, ◌<◌, ◌^◌, ◌∙◌, ap, Option-cases, ℕ, ◌/◌, String, true, eqb, Bool-cases, Option, none, some,
  [], ◌∷◌, ◌≡◌, ◌≢◌, ◌⊎◌, ◌==◌, inl, inr, refl, get_or, eq_iff, if◌then◌else◌, arith,
}
use node_disk_manager.Cluster.Disk.{
  PartitionTable, open_disk, read_table, read_file_system, write_table,
}
use node_disk_manager.Cluster.Program.{Outcome, done, failed, disk_error, Program, ◌>>=◌}
use node_disk_manager.Cluster.Safe.{table_write}
use node_disk_manager.Cluster.Run.{sends, Replies, run}
use node_disk_manager.Partition.Bounds.{last_usable, end_sector_lem}
use node_disk_manager.Partition.{
  write_empty, create_partition_table, Disk, new_partition_table, start_sector, add_partition,
  apply_partition_table, check_blank, write_single, create_single_partition, must_succeed,
}

-- What the tests find out: the disk can be opened, and it has neither a partition table nor a file
-- system.
abbrev pub AnswersBlank : Replies → String → Type 0
AnswersBlank s path =
    (s.disk (open_disk path) ≢ none)
    × (s.disk (read_table path) ≡ none)
    × (get_or (s.disk (read_file_system path)) "" ≡ "")

abbrev pub block_size_of : Disk → ℕ
block_size_of d = if eqb d.logical_block_size 0 then 512 else d.logical_block_size

-- the table with the one partition, from one mebibyte to the last block that GPT leaves to partitions
abbrev pub single_table : Disk → PartitionTable
single_table d = record {
  logical_sector_size = block_size_of d;
  protective_mbr = true;
  partitions =
      record {
        start = 1048576 / block_size_of d;
        end = last_usable (block_size_of d) d.disk_size;
        name = "OpenEBS_NDM";
      }
      ∷ [];
}

-- the outcome of the last write
abbrev pub accepted : Option String → Outcome Unit
accepted none = failed disk_error
accepted (some _) = done tt

module _ (s : Replies) (d : Disk) where
  run-must_succeed : (r : Option String) → run s (must_succeed r) ≡ ([], accepted r)
  run-must_succeed none = refl
  run-must_succeed (some _) = refl

  -- The tests of a blank disk pass.
  run-check_blank :
      {B : Type 0} (f : Unit → Program (Outcome B))
      → AnswersBlank s d.dev_path
      → run s (check_blank d.dev_path >>= f) ≡ run s (f tt)
  unfolding check_blank
  run-check_blank f (opened, no_table, no_fs) =
      elim (Option-cases (s.disk (open_disk d.dev_path))) [
        | inl e ↦ absurd (opened e)
        | inr (o, e) ↦
            let fs : (get_or (s.disk (read_file_system d.dev_path)) "" == "") ≡ true =
              (eq_iff _ _).1 no_fs in
            rw (e, no_table, fs) refl
      ]

  module _ (real : (block_size_of d ≡ 512) ⊎ (block_size_of d ≡ 4096))
      (large : 2097152 ≤ d.disk_size) (fits : d.disk_size < 2 ^ 64) where
    run-write_single : run s (write_single (new_partition_table d)) ≡ (
      table_write d.dev_path (single_table d) ∷ [],
      accepted (s.disk (write_table d.dev_path (single_table d))),
    )
    unfolding write_single new_partition_table add_partition apply_partition_table start_sector
    run-write_single = elim (Bool-cases (eqb d.disk_size 0)) [
      | inl e ↦ absurd (ground arith)
      | inr e ↦
          rw (e, end_sector_lem (block_size_of d) d.disk_size real large fits)
            (ap (sends (table_write d.dev_path (single_table d)))
              (run-must_succeed (s.disk (write_table d.dev_path (single_table d)))))
    ]

    -- On a blank disk of at least two mebibytes and less than 2^64 bytes, with blocks of 512 or 4096
    -- bytes (512 where the size of the blocks is not known), CreateSinglePartition writes one table and
    -- nothing else: with a protective MBR and one partition that starts at one mebibyte and ends at the
    -- last block that GPT leaves to partitions. Its outcome is that of the write.
    pub run-create_single_partition :
        AnswersBlank s d.dev_path
        → run s (create_single_partition d) ≡ (
          table_write d.dev_path (single_table d) ∷ [],
          accepted (s.disk (write_table d.dev_path (single_table d))),
        )
    unfolding create_single_partition
    run-create_single_partition blank =
        run-check_blank (λ _. write_single (new_partition_table d)) blank ∙ run-write_single

  -- A disk is refused that cannot be opened, has a partition table or has a file system.
  abbrev pub IsRefused : Type 0
  IsRefused =
      (s.disk (open_disk d.dev_path) ≡ none)
      ⊎ (s.disk (read_table d.dev_path) ≢ none)
      ⊎ (get_or (s.disk (read_file_system d.dev_path)) "" ≢ "")

  check_blank_cases :
      {B : Type 0} (f : Unit → Program (Outcome B))
      → (run s (check_blank d.dev_path >>= f) ≡ ([], failed disk_error))
        ⊎ ((run s (check_blank d.dev_path >>= f) ≡ run s (f tt)) × ¬ IsRefused)
  unfolding check_blank
  check_blank_cases f = elim (Option-cases (s.disk (open_disk d.dev_path))) [
    | inl e ↦ inl (rw e refl)
    | inr (o, e) ↦ elim (Option-cases (s.disk (read_table d.dev_path))) [
      | inr (t, g) ↦ inl (rw (e, g) refl)
      | inl g ↦ elim (Bool-cases (get_or (s.disk (read_file_system d.dev_path)) "" == "")) [
        | inr fs ↦ inl (rw (e, g, fs) refl)
        | inl fs ↦ inr (
          rw (e, g, fs) refl,
          λ refused. elim refused [
            | inl x ↦ cc
            | inr (inl x) ↦ x g
            | inr (inr x) ↦ x ((eq_iff _ _).0 fs)
          ],
        )
      ]
    ]
  ]

  -- a function that fails where the disk has no size, after the tests
  refused_or_empty :
      (f : Unit → Program (Outcome Unit))
      → (d.disk_size ≡ 0 → run s (f tt) ≡ ([], failed disk_error))
      → IsRefused ⊎ (d.disk_size ≡ 0)
      → run s (check_blank d.dev_path >>= f) ≡ ([], failed disk_error)
  refused_or_empty f fails why = elim (check_blank_cases f) [
    | inl e ↦ e
    | inr (e, fine) ↦ elim why [ inl refused ↦ absurd (fine refused) | inr empty ↦ e ∙ fails empty ]
  ]

  -- A disk that cannot be opened, or has a partition table or a file system, or has no size, is left
  -- alone by both functions: they return an error and write nothing.
  pub create_partition_refuses :
      IsRefused ⊎ (d.disk_size ≡ 0)
      → (run s (create_single_partition d) ≡ ([], failed disk_error))
        × (run s (create_partition_table d) ≡ ([], failed disk_error))
  unfolding create_single_partition create_partition_table write_single write_empty
      new_partition_table
  create_partition_refuses why = (
    refused_or_empty (λ _. write_single (new_partition_table d)) (λ e. rw e refl) why,
    refused_or_empty (λ _. write_empty (new_partition_table d)) (λ e. rw e refl) why,
  )
