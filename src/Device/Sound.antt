-- ===== src/Device/Sound.antt =====
-- The reconciler of devices makes only the writes that Device/Allowed describes.
use node_disk_manager.Base.{
  String, ◌≡◌, false, Option, List, [], ◌∷◌, In, In-snoc, refl, inl, inr, Bool-cases, contains,
  In→contains,
}
use node_disk_manager.Api.{BlockDevice, ClaimState, unclaimed, released, claimed}
use node_disk_manager.Cluster.Program.{ok, err, not_found, already_exists, conflict, other_error}
use node_disk_manager.Cluster.Safe.{Any, History, start, Safe, Safe-handle}
use node_disk_manager.Claim.{block_device_finalizer, is_reconcile_disabled}
use node_disk_manager.Cleaner.{clean}
use node_disk_manager.Device.{after_clean, reconcile_state, reconcile_read, reconcile}
use node_disk_manager.Device.Allowed.{Allowed}
use node_disk_manager.Device.Cleaning.{clean-Safe}

lacks :
    (fs : List String) → contains fs block_device_finalizer ≡ false → ¬ In block_device_finalizer fs
lacks fs c i = let there = In→contains fs block_device_finalizer i in absurd (cc)

module _ (env : String → Option String) (pull_secrets : List String) (namespace : String) where
  -- what is known once the device was read
  abbrev having : BlockDevice → History
  having bd = record start { listed = bd ∷ [] }

  reconcile_state-Safe :
      (bd : BlockDevice) (state : ClaimState)
      → bd.status.claim_state ≡ state
      → Safe Allowed Any (having bd) (reconcile_state env pull_secrets namespace state bd)
  unfolding reconcile_state
  reconcile_state-Safe bd released s =
      Safe-handle Allowed Any (after_clean bd) (clean env pull_secrets namespace bd) (having bd)
        (clean-Safe bd s env pull_secrets namespace (having bd) (inl refl))
  reconcile_state-Safe bd claimed s =
      elim (Bool-cases (contains bd.meta.finalizers block_device_finalizer)) [
        | inl p ↦ rw p tt
        | inr p ↦ rw p (
          (
            bd,
            inl refl,
            record { same_name = refl; same_uid = refl; same_version = refl },
            inr (s, lacks bd.meta.finalizers p, In-snoc _ _, refl, refl),
          ),
          λ _. tt,
        )
      ]
  reconcile_state-Safe bd unclaimed s = tt

  -- Whatever the API server answers, each write of Reconcile is one of these. The device that was
  -- read, if it is released and its cleanup job was read as succeeded and a job was deleted, becomes
  -- unclaimed without the finalizer; if it is claimed and lacks the finalizer, it gets it, its status
  -- unchanged. Both leave its spec alone and are sent with the name, the uid and the resource version
  -- that were read. A cleanup job with the name for this device is created only if the device is
  -- released, and active unless its job was read as unfinished. A job is deleted only if the device
  -- is released, and inactive unless its job was read as succeeded; it is the job read under the
  -- name for this device, or has no name.
  pub reconcile_device-Safe :
      (name : String) → Safe Allowed Any start (reconcile env pull_secrets namespace name)
  unfolding reconcile reconcile_read
  reconcile_device-Safe name (err not_found) = tt
  reconcile_device-Safe name (err already_exists) = tt
  reconcile_device-Safe name (err conflict) = tt
  reconcile_device-Safe name (err other_error) = tt
  reconcile_device-Safe name (ok bd) = elim (Bool-cases (is_reconcile_disabled bd.meta)) [
    | inl e ↦ rw e tt
    | inr e ↦ rw e (reconcile_state-Safe bd bd.status.claim_state refl)
  ]
