-- ===== src/Device/Tests.antt =====
-- The reconciler of devices with an empty environment.
use node_disk_manager.Base.{none, []}
use node_disk_manager.Cluster.Safe.{Any, Safe, start}
use node_disk_manager.Device.{reconcile}
use node_disk_manager.Device.Allowed.{Allowed}
use node_disk_manager.Device.Sound.{reconcile_device-Safe}

reconcile_device-Safe_example :
    Safe Allowed Any start (reconcile (λ _. none) [] "openebs" "blockdevice-1")
reconcile_device-Safe_example = reconcile_device-Safe (λ _. none) [] "openebs" "blockdevice-1"
