-- ===== src/Sysfs/Fill/Sizes.antt =====
-- What the sysfs probe changes of a device.
use node_disk_manager.Base.{
  eqb, ◌⊎◌, Bool-cases, ◌^^◌, ℕ, ◌*◌, ◌<◌, ◌^◌, Option, Option-cases, some, ◌≡◌, ◌≢◌, refl, arith,
  inl, inr,
}
use node_disk_manager.Daemon.{Node, LocalDevice}
use node_disk_manager.Daemon.Uuid.{generate_uuid, uuid_field, uuid_of}
use node_disk_manager.Sysfs.{
  get_hardware_sector_size, get_physical_block_size, get_logical_block_size, SysFiles, SysDevice,
  new_sys_device, get_capacity_in_bytes,
}
use node_disk_manager.Sysfs.Fill.{fill_sysfs, sized_device, fill_from, with_capacity, size_or}

-- a size that was known is the same
abbrev pub IsKept : ℕ → ℕ → Type 0
IsKept before after = (before ≡ 0) ⊎ (after ≡ before)

abbrev pub KeepsKnown : Node → LocalDevice → LocalDevice → Type 0
KeepsKnown node before after =
    (generate_uuid node after ≡ generate_uuid node before)
    × (after.dev_use ≡ before.dev_use)
    × (after.dependent_devices ≡ before.dependent_devices)
    × IsKept before.device_attributes.logical_block_size after.device_attributes.logical_block_size
    × IsKept before.device_attributes.physical_block_size
        after.device_attributes.physical_block_size
    × IsKept before.device_attributes.hardware_sector_size
        after.device_attributes.hardware_sector_size

size_or-IsKept : (known : ℕ) (read : Option ℕ) → IsKept known (size_or known read)
size_or-IsKept known read = elim (Bool-cases (eqb known 0)) [
  | inl e ↦ inl (ground arith)
  | inr e ↦ inr (ground arith)
]

module _ (files : SysFiles) where
  with_capacity-KeepsKnown :
      (node : Node) (bd : LocalDevice) (c : Option ℕ) → KeepsKnown node bd (with_capacity bd c)
  unfolding generate_uuid uuid_field uuid_of
  with_capacity-KeepsKnown node bd c = (refl, refl, refl, inr refl, inr refl, inr refl)

  fill_from-KeepsKnown :
      (node : Node) (bd : LocalDevice) (c : Option ℕ) (s : SysDevice)
      → KeepsKnown node bd (fill_from files (with_capacity bd c) s)
  unfolding generate_uuid uuid_field uuid_of
  fill_from-KeepsKnown node bd c s =
      let a = bd.device_attributes in
      (
        refl,
        refl,
        refl,
        size_or-IsKept a.logical_block_size (get_logical_block_size files s),
        size_or-IsKept a.physical_block_size (get_physical_block_size files s),
        size_or-IsKept a.hardware_sector_size (get_hardware_sector_size files s),
      )

  -- Whatever /sys holds, the sysfs probe changes neither the identity of a device nor its usage nor
  -- the devices that depend on it, and it keeps the block sizes and the sector size that are known,
  -- those that are not zero.
  pub fill_sysfs-KeepsKnown :
      (node : Node) (bd : LocalDevice) → KeepsKnown node bd (fill_sysfs files bd)
  unfolding fill_sysfs
  fill_sysfs-KeepsKnown node bd = elim (Option-cases (new_sys_device files bd.dev_path)) [
    | inl n ↦ rw (n, fill_sysfs) (refl, refl, refl, inr refl, inr refl, inr refl)
    | inr (s, n) ↦ elim (Option-cases (sized_device files bd s)) [
      | inl z ↦
          rw (n, fill_sysfs)
            (rw z (with_capacity-KeepsKnown node bd (get_capacity_in_bytes files s)))
      | inr (sized, z) ↦
          rw (n, fill_sysfs)
            (rw z (fill_from-KeepsKnown node bd (get_capacity_in_bytes files s) sized))
    ]
  ]

  module _ (bd : LocalDevice) (s : SysDevice) (n : ℕ)
      (found : new_sys_device files bd.dev_path ≡ some s)
      (reads : files.number (s.sys_path ^^ "size") ≡ some n) (nonempty : n ≢ 0)
      (small : n < 2 ^ 55) where
    reads_capacity : get_capacity_in_bytes files s ≡ some (n * 512)
    unfolding get_capacity_in_bytes
    reads_capacity = rw (reads, get_capacity_in_bytes) (ground arith)

    -- Where the size file of a device has n blocks, not zero and less than 2^55 of them, the sysfs
    -- probe notes a capacity of exactly 512 n bytes, also where the parent of a partition cannot be
    -- found.
    pub fill_sysfs_capacity : (fill_sysfs files bd).storage ≡ n * 512
    unfolding fill_sysfs
    fill_sysfs_capacity = elim (Option-cases (sized_device files bd s)) [
      | inl z ↦ rw (found, fill_sysfs) (rw (z, reads_capacity) refl)
      | inr (sized, z) ↦ rw (found, fill_sysfs) (rw (z, reads_capacity) refl)
    ]
