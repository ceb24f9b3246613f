-- ===== src/Daemon/Sound.antt =====
-- Adding a device writes only what Allowed admits.
use node_disk_manager.Base.{
  arith, List-cases, String, Option, some, Option-cases, List, ◌≡◌, inl, inr, In, In-find_first,
  StringMap, ◌==◌,
}
use node_disk_manager.Api.{BlockDevice}
use node_disk_manager.Cluster.Program.{Reply, ok, err}
use node_disk_manager.Cluster.Safe.{History, Safe, Any, read_device}
use node_disk_manager.Store.{existing_block_device}
use node_disk_manager.Store.Allowed.{KeepsClaims}
use node_disk_manager.Store.Sound.{push_known-Safe}
use node_disk_manager.Daemon.{Node, LocalDevice}
use node_disk_manager.Daemon.Convert.{to_device}
use node_disk_manager.Daemon.Convert.Status.{to_device-unclaimed}
use node_disk_manager.Daemon.Add.{
  partition_uuid_annotation, fsuuid_annotation, create_or_update, create_if_no_holders,
  existing_with_fs_uuid, existing_with_partition_uuid, gpt_scheme, has_annotation,
}

-- The resources that the caller has are among those that were read.
abbrev pub AllRead : List BlockDevice → History → Type 0
AllRead items h = (item : BlockDevice) → In item items → In item h.listed

-- an optional resource that was read
abbrev pub WasRead : Option BlockDevice → History → Type 0
WasRead existing h = (item : BlockDevice) → existing ≡ some item → In item h.listed

pub read_device-AllRead :
    (items : List BlockDevice) (h : History) (r : Reply BlockDevice)
    → AllRead items h
    → AllRead items (read_device r h)
read_device-AllRead items h (ok d) all = λ item m. inr (all item m)
read_device-AllRead items h (err e) all = all

module _ (node : Node) (items : List BlockDevice) where
  module _ (h : History) (all : AllRead items h) where
    pub existing-WasRead : (uuid : String) → WasRead (existing_block_device items uuid) h
    unfolding existing_block_device
    existing-WasRead uuid =
        λ item e. all item (In-find_first (λ i. uuid == i.meta.name) item items e).0

    pub fs_uuid-WasRead : (bd : LocalDevice) → WasRead (existing_with_fs_uuid bd items) h
    unfolding existing_with_fs_uuid
    fs_uuid-WasRead bd = λ item e.
        let first =
          In-find_first (has_annotation fsuuid_annotation bd.fs_info.file_system_uuid) item items in
        all item (ground (arith, first))

    pub partition_uuid-WasRead :
        (bd : LocalDevice) → WasRead (existing_with_partition_uuid bd items) h
    unfolding existing_with_partition_uuid
    partition_uuid-WasRead bd = λ item e.
        let first =
          In-find_first
            (has_annotation partition_uuid_annotation bd.partition_info.partition_table_uuid) item
            items in
        all item (ground (arith, first))

  module _ (h : History) where
    pub create_or_update-Safe :
        (annotations : StringMap String) (bd : LocalDevice) (existing : Option BlockDevice)
        → WasRead existing h
        → Safe KeepsClaims Any h (create_or_update node annotations bd existing)
    unfolding create_or_update
    create_or_update-Safe annotations bd existing m = elim (Option-cases (to_device node bd)) [
      | inl e ↦ rw (e, create_or_update) tt
      | inr (b, e) ↦
          rw (e, create_or_update)
            (push_known-Safe node.namespace existing
              (record b { meta = record b.meta { annotations = annotations } })
              (to_device-unclaimed node bd b e) h m)
    ]

    pub create_if_no_holders-Safe :
        (bd : LocalDevice)
        → AllRead items h
        → Safe KeepsClaims Any h (create_if_no_holders node bd items)
    unfolding create_if_no_holders
    create_if_no_holders-Safe bd all = elim (List-cases bd.dependent_devices.holders) [
      | inl e ↦
          rw (e, create_if_no_holders)
            (create_or_update-Safe gpt_scheme bd (existing_block_device items bd.uuid)
              (existing-WasRead h all bd.uuid))
      | inr (_, _, e) ↦ rw (e, create_if_no_holders) tt
    ]
