-- ===== src/Device.antt =====
-- pkg/controllers/blockdevice/blockdevice_controller.go: the reconciler of devices.
pub mod Allowed
mod Cleaning
pub mod Sound
mod Tests
use node_disk_manager.Base.{
  String, Bool, true, false, Option, List, [], ◌∷◌, ◌++◌, if◌then◌else◌, contains, remove_string,
}
use node_disk_manager.Api.{BlockDevice, ClaimState, unclaimed, released, claimed}
use node_disk_manager.Cluster.Program.{
  Program, Reply, ok, err, not_found, Outcome, done, failed, api, ret, get_device, update_device,
  handle,
}
use node_disk_manager.Claim.{is_reconcile_disabled, block_device_finalizer}
use node_disk_manager.Cleaner.{clean}

abbrev pub cleaned_device : BlockDevice → BlockDevice
cleaned_device bd = record bd {
  meta = record bd.meta { finalizers = remove_string bd.meta.finalizers block_device_finalizer };
  status = record bd.status { claim_state = unclaimed };
}

abbrev pub protected_device : BlockDevice → BlockDevice
protected_device bd = record bd {
  meta = record bd.meta { finalizers = bd.meta.finalizers ++ block_device_finalizer ∷ [] };
}

-- The case BlockDeviceReleased after Clean. The errors of Clean and of the update are only logged.
unfoldable pub after_clean : BlockDevice → Outcome Bool → Program (Outcome Unit)
after_clean bd (failed _) = ret (done tt)
after_clean bd (done true) = update_device (cleaned_device bd) (λ _. ret (done tt))
after_clean bd (done false) = ret (done tt)

module _ (env : String → Option String) (pull_secrets : List String) (namespace : String) where
  -- the switch of Reconcile
  unfoldable pub reconcile_state : ClaimState → BlockDevice → Program (Outcome Unit)
  reconcile_state released bd = handle (clean env pull_secrets namespace bd) (after_clean bd)
  reconcile_state claimed bd =
      if contains bd.meta.finalizers block_device_finalizer
      then ret (done tt)
      else update_device (protected_device bd) (λ _. ret (done tt))
  reconcile_state unclaimed bd = ret (done tt)

  unfoldable pub reconcile_read : Reply BlockDevice → Program (Outcome Unit)
  reconcile_read (err not_found) = ret (done tt)
  reconcile_read (err e) = ret (failed (api e))
  reconcile_read (ok bd) =
      if is_reconcile_disabled bd.meta
      then ret (done tt)
      else reconcile_state bd.status.claim_state bd

  -- Reconcile
  unfoldable pub reconcile : String → Program (Outcome Unit)
  reconcile name = get_device name reconcile_read
