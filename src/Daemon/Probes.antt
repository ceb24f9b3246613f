-- ===== src/Daemon/Probes.antt =====
-- cmd/ndm_daemonset/controller/probe.go, usedbyprobe.go and customtagprobe.go of
-- cmd/ndm_daemonset/probe: which probes fill in a device, the engine that uses it, and its tags. What
-- the used-by probe reads from a disk (libblkid, the kernel, the SPDK super block) and Go's regular
-- expressions are parameters. The probes that only read the operating system are not modelled.
pub mod Marks
mod Tests
use node_disk_manager.Base.{
  ℕ, String, Bool, true, false, not, ◌&&◌, ◌||◌, ◌==◌, ◌^^◌, Option, none, some, List, [], ◌∷◌,
  StringMap, insert, keep, contains, contains_text, if◌then◌else◌,
}
use node_disk_manager.Daemon.{
  LocalDevice, StorageEngine, cstor, zfs_local_pv, mayastor, local_pv, partition_type,
}

-- Probe, with its FillBlockDeviceDetails
pub record Probe : Type 0 where
  pub name : String
  pub state : Bool
  pub fills : LocalDevice → LocalDevice

abbrev pub no_names : List String → Bool
no_names [] = true
no_names (_ ∷ _) = false

-- ListProbe
unfoldable pub list_probe : List String → List Probe → List Probe
list_probe requested probes =
    keep (λ probe. probe.state && (no_names requested || contains requested probe.name)) probes

unfoldable pub run_probes : List Probe → LocalDevice → LocalDevice
run_probes [] bd = bd
run_probes (probe ∷ probes) bd = run_probes probes (probe.fills bd)

-- FillBlockDeviceDetails of the controller
unfoldable pub fill_details :
    StringMap String → List Probe → List String → LocalDevice → LocalDevice
fill_details node_attributes probes requested bd =
    run_probes (list_probe requested probes)
      (record bd { node_attributes = node_attributes; labels = [] })

-- What the used-by probe reads from a disk.
pub record DiskContent : Type 0 where
  pub on_disk_file_system : String → String
  pub on_disk_label : String → String
  pub in_use_by_kernel : String → Bool
  pub has_spdk_signature : String → Bool
  pub is_match_regex : String → String → Bool

abbrev pub used_by : StorageEngine → LocalDevice → LocalDevice
used_by engine bd = record bd { dev_use = record { in_use = true; used_by = engine } }

-- the test of the mount points for a local volume
unfoldable pub has_local_volume : List String → Bool
has_local_volume [] = false
has_local_volume (mount_point ∷ mount_points) =
    let rest = has_local_volume mount_points in
    if contains_text mount_point "kubernetes.io/local-volume"
      || contains_text mount_point "kubernetes.io~local-volume"
    then true
    else rest

module _ (disk : DiskContent) where
  -- getBlockDeviceZFSPartition
  unfoldable pub zfs_partition_of : String → List String → Option String
  zfs_partition_of dev_path (data_partition ∷ meta_partition ∷ []) =
      let p = if disk.is_match_regex ".+[0-9]+$" dev_path then "p" else "" in
      if data_partition == (dev_path ^^ p ^^ "1") && meta_partition == (dev_path ^^ p ^^ "9")
      then some (dev_path ^^ p ^^ "1")
      else none
  zfs_partition_of dev_path _ = none

  -- where a ZFS file system is looked for
  unfoldable pub zfs_path : LocalDevice → Option String
  zfs_path bd =
      if not (bd.device_attributes.device_type == partition_type)
      then zfs_partition_of bd.dev_path bd.dependent_devices.partitions
      else some bd.dev_path

  -- the device has a ZFS file system at the path
  unfoldable pub mark_zfs : String → LocalDevice → LocalDevice
  mark_zfs path bd =
      let marked = record bd {
        fs_info = record bd.fs_info { file_system = "zfs_member" };
        labels = insert "ndm.io/zpool-name" (disk.on_disk_label path) bd.labels;
      } in
      if disk.in_use_by_kernel bd.dev_path
      then used_by zfs_local_pv marked
      else used_by cstor marked

  unfoldable pub mark_spdk : LocalDevice → LocalDevice
  mark_spdk bd = if disk.has_spdk_signature bd.dev_path then used_by mayastor bd else bd

  unfoldable pub mark_engine : Option String → LocalDevice → LocalDevice
  mark_engine none bd = mark_spdk bd
  mark_engine (some path) bd =
      if disk.on_disk_file_system path == "zfs_member" then mark_zfs path bd else mark_spdk bd

  -- FillBlockDeviceDetails of the used-by probe
  unfoldable pub fill_used_by : LocalDevice → LocalDevice
  fill_used_by bd =
      if bd.dev_path == ""
      then bd
      else if has_local_volume bd.fs_info.mount_point
      then used_by local_pv bd
      else mark_engine (zfs_path bd) bd

  -- a tag of the custom tag probe
  abbrev pub tag_field : String → LocalDevice → String
  tag_field tag_type bd = if tag_type == "path" then bd.dev_path else ""

  -- FillBlockDeviceDetails of the custom tag probe; a tag is its type, its pattern and its label
  unfoldable pub fill_tags : List (String × String × String) → LocalDevice → LocalDevice
  fill_tags [] bd = bd
  fill_tags ((tag_type, regex, label) ∷ tags) bd = fill_tags tags (
      if disk.is_match_regex regex (tag_field tag_type bd)
      then record bd { labels = insert "openebs.io/block-device-tag" label bd.labels }
      else bd)
