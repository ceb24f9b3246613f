-- ===== src/Daemon/Probes/Marks.antt =====
-- What the used-by probe may change.
use node_disk_manager.Base.{
  ap, false, arith, String, true, Bool-cases, Option, none, some, ◌==◌, ◌≡◌, ◌⊎◌, inl, inr, refl,
}
use node_disk_manager.Daemon.{
  DeviceUsage, Node, LocalDevice, cstor, zfs_local_pv, mayastor, local_pv,
}
use node_disk_manager.Daemon.Uuid.{generate_uuid, uuid_field}
use node_disk_manager.Daemon.Probes.{
  DiskContent, has_local_volume, mark_zfs, mark_spdk, mark_engine, zfs_path, fill_used_by,
}
use node_disk_manager.Cluster.Safe.{History}
use node_disk_manager.Daemon.Allowed.{MayPartition, IsIdle}

-- The usage of a device is as it was, or an engine with its own rules is noted as its user.
abbrev pub IsMarked : LocalDevice → LocalDevice → Type 0
IsMarked before after =
    (after.dev_use ≡ before.dev_use)
    ⊎ ((after.dev_use.in_use ≡ true)
        × ((after.dev_use.used_by ≡ local_pv)
            ⊎ (after.dev_use.used_by ≡ zfs_local_pv)
            ⊎ (after.dev_use.used_by ≡ cstor)
            ⊎ (after.dev_use.used_by ≡ mayastor)))

module _ (disk : DiskContent) (node : Node) where
  -- Nothing that the identity depends on changes.
  abbrev KeepsUuid : LocalDevice → LocalDevice → Type 0
  KeepsUuid before after = uuid_field node after ≡ uuid_field node before

  mark_zfs-IsMarked :
      (path : String) (bd : LocalDevice)
      → IsMarked bd (mark_zfs disk path bd) × KeepsUuid bd (mark_zfs disk path bd)
  unfolding mark_zfs uuid_field
  mark_zfs-IsMarked path bd = elim (Bool-cases (disk.in_use_by_kernel bd.dev_path)) [
    | inl e ↦ rw e (inr (refl, inr (inl refl)), refl)
    | inr e ↦ rw e (inr (refl, inr (inr (inl refl))), refl)
  ]

  mark_spdk-IsMarked :
      (bd : LocalDevice) → IsMarked bd (mark_spdk disk bd) × KeepsUuid bd (mark_spdk disk bd)
  unfolding mark_spdk uuid_field
  mark_spdk-IsMarked bd = elim (Bool-cases (disk.has_spdk_signature bd.dev_path)) [
    | inl e ↦ rw e (inr (refl, inr (inr (inr refl))), refl)
    | inr e ↦ rw e (inl refl, refl)
  ]

  mark_engine-IsMarked :
      (path : Option String) (bd : LocalDevice)
      → IsMarked bd (mark_engine disk path bd) × KeepsUuid bd (mark_engine disk path bd)
  unfolding mark_engine
  mark_engine-IsMarked none bd = mark_spdk-IsMarked bd
  mark_engine-IsMarked (some path) bd =
      elim (Bool-cases (disk.on_disk_file_system path == "zfs_member")) [
        | inl e ↦ rw e (mark_zfs-IsMarked path bd)
        | inr e ↦ rw e (mark_spdk-IsMarked bd)
      ]

  fill_used_by-KeepsUuid :
      (bd : LocalDevice) → IsMarked bd (fill_used_by disk bd) × KeepsUuid bd (fill_used_by disk bd)
  unfolding fill_used_by uuid_field
  fill_used_by-KeepsUuid bd = elim (Bool-cases (bd.dev_path == "")) [
    | inl e ↦ rw (e, fill_used_by) (inl refl, refl)
    | inr e ↦ elim (Bool-cases (has_local_volume bd.fs_info.mount_point)) [
      | inl v ↦ rw (e, fill_used_by) (rw v (inr (refl, inl refl), refl))
      | inr v ↦ rw (e, fill_used_by) (rw v (mark_engine-IsMarked (zfs_path disk bd) bd))
    ]
  ]

  -- The used-by probe leaves the usage of a device as it is, or notes localpv, zfs-localpv, cstor or
  -- mayastor as its user; and it never changes the identity of the device.
  pub fill_used_by-IsMarked :
      (bd : LocalDevice)
      → IsMarked bd (fill_used_by disk bd)
        × (generate_uuid node (fill_used_by disk bd) ≡ generate_uuid node bd)
  unfolding generate_uuid
  fill_used_by-IsMarked bd =
      let (marked, keeps) = fill_used_by-KeepsUuid bd in (marked, rw (keeps, generate_uuid) refl)

  engine_not-IsIdle :
      (bd : LocalDevice)
      → bd.dev_use.in_use ≡ true
      → (bd.dev_use.used_by ≡ local_pv)
        ⊎ (bd.dev_use.used_by ≡ zfs_local_pv)
        ⊎ (bd.dev_use.used_by ≡ cstor)
        ⊎ (bd.dev_use.used_by ≡ mayastor)
      → ¬ IsIdle bd
  engine_not-IsIdle bd used by idle = ground arith

  -- A device that the used-by probe finds in use is not one on which adding a device may write a
  -- partition table.
  pub used_device_kept :
      (bd : LocalDevice) (h : History) (path : String)
      → bd.dev_use.in_use ≡ false
      → (fill_used_by disk bd).dev_use.in_use ≡ true
      → ¬ MayPartition node (fill_used_by disk bd) h path
  used_device_kept bd h path unused used may = elim (fill_used_by-IsMarked bd).0 [
    | inl same ↦
        let f : (fill_used_by disk bd).dev_use.in_use ≡ bd.dev_use.in_use =
          ap (λ (u : DeviceUsage). u.in_use) same in
        absurd cc
    | inr (u, by) ↦ engine_not-IsIdle (fill_used_by disk bd) u by may.idle
  ]
