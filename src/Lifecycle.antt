-- ===== src/Lifecycle.antt =====
-- The life of one BlockDevice resource under the writes of all parts of the program: the reconcilers
-- of claims (Claim) and of devices (Device), and the daemon (Store, and the events in Daemon). The
-- API server accepts a write only if the resource version that it carries is the current one. So an
-- accepted write of a device is one that a run of a part performs, and if the run had read the device
-- under the name, the uid and the resource version that it writes, then what it had read is the device
-- before the write. The server stores what was sent under a resource version of its own.
pub mod Effects
pub mod Held
pub mod Machine
mod Tests
use node_disk_manager.Base.{ℕ, String, Bool, Option, List, In, StringMap, ◌≡◌}
use node_disk_manager.Base.Int.{ℤ}
use node_disk_manager.Api.{BlockDevice, BlockDeviceClaim, ObjectReference, LabelSelector, unclaimed}
use node_disk_manager.Cluster.Safe.{History, start, device_write}
use node_disk_manager.Cluster.Performs.{Performs}
use node_disk_manager.Claim.Allowed.{SameVersion}
use node_disk_manager.Store.{push_block_device, deactivate_stale, mark_unknown}
use node_disk_manager.Store.Sound.{known}
use node_disk_manager.Daemon.{Hierarchy, LocalDevice, Node}
use node_disk_manager.Daemon.Events.{
  change_block_device_event, delete_block_device_event, add_block_device_event,
}

-- What the parts take from libraries and from their environment.
pub record Setting : Type 0 where
  pub as_int64 : String → ℤ × Bool
  pub does_not_exist : String → Option (StringMap String → Bool)
  pub reference : BlockDeviceClaim → Option ObjectReference
  pub valid_selector : LabelSelector → Bool
  pub env : String → Option String
  pub pull_secrets : List String
  pub namespace : String

-- The server's check of the resource version.
abbrev pub IsCurrent : BlockDevice → BlockDevice → History → Type 0
IsCurrent before after h =
    (read : BlockDevice) → In read h.listed → SameVersion read after → read ≡ before

-- A run of the reconciler of claims that writes the device, when it knows `h`.
abbrev pub ClaimRun : Setting → BlockDevice → BlockDevice → History → Type 0
ClaimRun s before after h =
    (name : String) × Performs h (device_write after) start (
      node_disk_manager.Claim.reconcile s.as_int64 s.does_not_exist s.reference s.valid_selector
        name)
    × IsCurrent before after h

-- A run of the reconciler of devices that writes the device, when it knows `h`.
abbrev pub DeviceRun : Setting → BlockDevice → BlockDevice → History → Type 0
DeviceRun s before after h =
    (name : String) × Performs h (device_write after) start
      (node_disk_manager.Device.reconcile s.env s.pull_secrets s.namespace name)
    × IsCurrent before after h

-- One accepted write of a run of one part.
pub data Step (s : Setting) (before after : BlockDevice) : Type 0 where
  by_claims : (h : History) → ClaimRun s before after h → Step s before after
  by_devices : (h : History) → DeviceRun s before after h → Step s before after
  by_push :
      (old_bd : Option BlockDevice) (bd : BlockDevice) (h : History)
      → bd.status.claim_state ≡ unclaimed
      → Performs h
          (device_write after)
          (record start { listed = known old_bd })
          (push_block_device s.namespace old_bd bd)
      → IsCurrent before after h
      → Step s before after
  by_deactivation :
      (host_name : String) (sparse_uuids devices : List String) (h : History)
      → Performs h (device_write after) start (deactivate_stale host_name sparse_uuids devices)
      → IsCurrent before after h
      → Step s before after
  by_shutdown :
      (host_name : String) (h : History)
      → Performs h (device_write after) start (mark_unknown host_name)
      → IsCurrent before after h
      → Step s before after
  by_add_event :
      (node : Node) (fill : LocalDevice → LocalDevice) (passes : LocalDevice → Bool)
      (cache : Hierarchy) (devices : List LocalDevice) (h : History)
      → Performs h
          (device_write after)
          start
          (add_block_device_event node fill passes cache devices)
      → IsCurrent before after h
      → Step s before after
  by_remove_event :
      (node : Node) (cache : Hierarchy) (devices : List LocalDevice) (h : History)
      → Performs h (device_write after) start (delete_block_device_event node cache devices)
      → IsCurrent before after h
      → Step s before after
  by_change_event :
      (node : Node) (fill : LocalDevice → LocalDevice) (passes : LocalDevice → Bool)
      (all_devices : Bool) (devices : List LocalDevice) (cache : Hierarchy) (h : History)
      → Performs h
          (device_write after)
          start
          (change_block_device_event node fill passes all_devices devices cache)
      → IsCurrent before after h
      → Step s before after

-- the device as the server stores it
abbrev pub stored : ℕ → BlockDevice → BlockDevice
stored version sent = record sent { meta = record sent.meta { resource_version = version } }

-- Any number of accepted writes, in order.
pub data Steps (s : Setting) : BlockDevice → BlockDevice → Type 0 where
  stop : (bd : BlockDevice) → Steps s bd bd
  step :
      (first sent last : BlockDevice) (version : ℕ)
      → Step s first sent
      → Steps s (stored version sent) last
      → Steps s first last
