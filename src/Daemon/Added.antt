-- ===== src/Daemon/Added.antt =====
-- Adding a device writes only what Allowed admits.
use node_disk_manager.Base.{
  String, Bool, true, false, Bool-cases, Option, none, Option-cases, List, [], ◌∷◌, ◌≡◌, ◌⊎◌, inl,
  inr, refl, ◌&&◌, get_or,
}
use node_disk_manager.Api.{BlockDevice}
use node_disk_manager.Cluster.Disk.{PartitionTable}
use node_disk_manager.Cluster.Program.{Outcome, done, failed, ret, need_rescan}
use node_disk_manager.Cluster.Safe.{
  History, Write, Safe, Safe->>=, Safe-handle, Any, Then, read_device, claim_write, device_create,
  device_write, job_create, job_delete, table_write,
}
use node_disk_manager.Cluster.Mono.{Safe-mono}
use node_disk_manager.Store.Allowed.{KeepsClaims}
use node_disk_manager.Partition.Sound.{
  after_tests, after_tests-WasBlank, create_single_partition-Safe, create_partition_table-Safe,
}
use node_disk_manager.Daemon.{
  Node, LocalDevice, Hierarchy, StorageEngine, no_engine, cstor, zfs_local_pv, mayastor, local_pv,
  jiva, add_to_hierarchy,
}
use node_disk_manager.Daemon.Uuid.{generate_uuid}
use node_disk_manager.Daemon.Add.{is_zfs, is_mayastor, is_local_pv, is_cstor, with_uuid}
use node_disk_manager.Daemon.Publish.{
  publish, partition_device, identify, add_checked, add_block_device, check_in_use,
}
use node_disk_manager.Daemon.Allowed.{AddsDevice, IsIdle}
use node_disk_manager.Daemon.Sound.{AllRead}
use node_disk_manager.Daemon.Checked.Unmanaged.{OnlyIf}
use node_disk_manager.Daemon.Checked.{Passed, check_in_use-Safe}
use node_disk_manager.Features.Gates.{partition_table_uuid, is_enabled}
use node_disk_manager.Daemon.Published.{publish-Safe}

idle_of :
    (b : Bool) (e : StorageEngine)
    → (b && is_mayastor e) ≡ false
    → (b && is_zfs e) ≡ false
    → (b && is_local_pv e) ≡ false
    → (b && is_cstor e) ≡ false
    → (b ≡ false) ⊎ (e ≡ no_engine) ⊎ (e ≡ jiva)
idle_of false e m z l c = inl refl
idle_of true no_engine m z l c = inr (inl refl)
idle_of true jiva m z l c = inr (inr refl)
idle_of true mayastor m z l c = absurd cc
idle_of true zfs_local_pv m z l c = absurd cc
idle_of true local_pv m z l c = absurd cc
idle_of true cstor m z l c = absurd cc

KeepsClaims-AddsDevice :
    (node : Node) (bd : LocalDevice) (h : History) (w : Write)
    → KeepsClaims h w
    → AddsDevice node bd h w
KeepsClaims-AddsDevice node bd h (claim_write c) k = k
KeepsClaims-AddsDevice node bd h (device_create d) k = k
KeepsClaims-AddsDevice node bd h (device_write d) k = k
KeepsClaims-AddsDevice node bd h (job_create j) k = k
KeepsClaims-AddsDevice node bd h (job_delete n) k = k
KeepsClaims-AddsDevice node bd h (table_write p t) k = absurd k

-- no condition on the result
abbrev pub AnyResult : History → Hierarchy × Outcome Unit → Type 0
AnyResult h o = Unit

module _ (node : Node) (items : List BlockDevice) where
  rescan-Any :
      (bd : LocalDevice) (h : History) (o : Outcome Unit)
      → Then (AddsDevice node bd) Any (λ _. ret (failed need_rescan)) h o
  rescan-Any bd h (done _) = tt
  rescan-Any bd h (failed e) = tt

  module _ (bd : LocalDevice) (h : History) (no_uuid : generate_uuid node bd ≡ none)
      (idle : IsIdle bd) (no_partitions : bd.dependent_devices.partitions ≡ [])
      (no_holders : bd.dependent_devices.holders ≡ []) where
    may_partition :
        (o : String) (r : Option String)
        → get_or r "" ≡ ""
        → (table : PartitionTable)
        → AddsDevice node bd (after_tests h bd.dev_path o r) (table_write bd.dev_path table)
    may_partition o r e table = record {
      same_path = refl;
      was_blank = after_tests-WasBlank h bd.dev_path o r e;
      no_uuid = no_uuid;
      no_partitions = no_partitions;
      no_holders = no_holders;
      idle = idle;
    }

    partition_device-Safe : Safe (AddsDevice node bd) Any h (partition_device node bd)
    unfolding partition_device
    partition_device-Safe = elim (Bool-cases (is_enabled partition_table_uuid node.gates)) [
      | inl e ↦
          rw (e, partition_device)
            (Safe->>= (AddsDevice node bd) Any (λ _. ret (failed need_rescan)) _ h
              (create_partition_table-Safe (AddsDevice node bd)
                (Then (AddsDevice node bd) Any (λ _. ret (failed need_rescan))) (rescan-Any bd) h _
                may_partition))
      | inr e ↦
          rw (e, partition_device)
            (create_single_partition-Safe (AddsDevice node bd) Any (λ _ _. tt) h _ may_partition)
    ]

  identify-Safe :
      (bd : LocalDevice) (h : History) (partitions holders : List String)
      → bd.dependent_devices.partitions ≡ partitions
      → bd.dependent_devices.holders ≡ holders
      → generate_uuid node bd ≡ none
      → IsIdle bd
      → Safe (AddsDevice node bd) Any h (identify node bd partitions holders)
  unfolding identify
  identify-Safe bd h (_ ∷ _) holders e f no_uuid idle = tt
  identify-Safe bd h [] (_ ∷ _) e f no_uuid idle = tt
  identify-Safe bd h [] [] e f no_uuid idle = partition_device-Safe bd h no_uuid idle e f

  IsIdle-Passed :
      (cache : Hierarchy) (bd : LocalDevice)
      → Passed node cache bd
      → generate_uuid node bd ≡ none
      → IsIdle bd
  IsIdle-Passed cache bd (unmanaged, parent, inl named) no_uuid = absurd (named no_uuid)
  IsIdle-Passed cache bd (unmanaged, parent, inr upgraded) no_uuid =
      idle_of bd.dev_use.in_use bd.dev_use.used_by unmanaged.0 unmanaged.1 upgraded.0 upgraded.1

  add_checked-Safe :
      (cache : Hierarchy) (bd : LocalDevice) (h : History) (o : Outcome Bool)
      → OnlyIf (λ h'. Passed node cache bd × AllRead items h') h o
      → Safe (AddsDevice node bd) AnyResult h (add_checked node cache bd items o)
  unfolding add_checked
  add_checked-Safe cache bd h (failed e) p = tt
  add_checked-Safe cache bd h (done false) p = tt
  add_checked-Safe cache bd h (done true) (p, all) = elim (Option-cases (generate_uuid node bd)) [
    | inl e ↦
        rw (e, add_checked)
          (Safe-handle (AddsDevice node bd) AnyResult (λ o. ret (cache, o))
            (identify node bd bd.dependent_devices.partitions bd.dependent_devices.holders) h
            (identify-Safe bd h _ _ refl refl e (IsIdle-Passed cache bd p e)))
    | inr (uuid, e) ↦
        let named = with_uuid uuid bd in
        let after = (add_to_hierarchy named cache).0 in
        rw (e, add_checked)
          (λ r.
            Safe-handle (AddsDevice node bd) AnyResult (λ o. ret (after, o))
              (publish node after named items r) (read_device r h)
              (Safe-mono KeepsClaims (AddsDevice node bd) (KeepsClaims-AddsDevice node bd) Any Any
                (λ h a p. p) (publish node after named items r) (read_device r h)
                (publish-Safe node items after named h all r)))
  ]

  -- Whatever the API server and the disk answer, addBlockDevice writes a partition table only on the
  -- device itself, when it has no identity, no partitions and no holders, is not used by mayastor,
  -- zfs-localpv, localpv or cstor, and was seen to be blank; and it creates resources without a
  -- claim or writes a resource that was read, with its claim left alone. The resources `items` count
  -- as read at the start.
  pub add_block_device-Safe :
      (cache : Hierarchy) (bd : LocalDevice) (h : History)
      → AllRead items h
      → Safe (AddsDevice node bd) AnyResult h (add_block_device node cache bd items)
  unfolding add_block_device
  add_block_device-Safe cache bd h all =
      Safe-handle (AddsDevice node bd) AnyResult (add_checked node cache bd items)
        (check_in_use node cache bd items) h
        (Safe-mono KeepsClaims (AddsDevice node bd) (KeepsClaims-AddsDevice node bd) _ _
          (add_checked-Safe cache bd) (check_in_use node cache bd items) h
          (check_in_use-Safe node cache bd items h all))
