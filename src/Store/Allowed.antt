-- ===== src/Store/Allowed.antt =====
-- What the daemon may write to the resources, said without the code of the store.
use node_disk_manager.Base.{String, ◌≡◌, ◌⊎◌, List, In}
use node_disk_manager.Api.{BlockDevice, unclaimed, inactive}
use node_disk_manager.Cluster.Safe.{
  History, Write, claim_write, device_create, device_write, job_create, job_delete, table_write,
}
use node_disk_manager.Claim.Allowed.{SameVersion}

-- A write that leaves a claim on the device alone: the state of the claim, the finalizers, and the
-- reference, if the device is in use.
pub record KeepsClaim (before after : BlockDevice) : Type 0 where
  pub same_claim_state : after.status.claim_state ≡ before.status.claim_state
  pub same_finalizers : after.meta.finalizers ≡ before.meta.finalizers
  pub same_reference :
      (before.status.claim_state ≡ unclaimed) ⊎ (after.spec.claim_ref ≡ before.spec.claim_ref)

-- A device is created without a claim, or a device that was read is written at its version with
-- its claim left alone.
abbrev pub KeepsClaims : History → Write → Type 0
KeepsClaims h (claim_write _) = ⊥
KeepsClaims h (device_create bd) = bd.status.claim_state ≡ unclaimed
KeepsClaims h (device_write after) =
    (before : BlockDevice) × In before h.listed × SameVersion before after × KeepsClaim before after
KeepsClaims h (job_create _) = ⊥
KeepsClaims h (job_delete _) = ⊥
KeepsClaims h (table_write _ _) = ⊥

-- A device that was listed and is not present becomes inactive, and nothing else of it changes.
abbrev pub DeactivatesMissing : List String → History → Write → Type 0
DeactivatesMissing present h (claim_write _) = ⊥
DeactivatesMissing present h (device_create _) = ⊥
DeactivatesMissing present h (device_write after) =
    (before : BlockDevice) × In before h.listed
    × (¬ In before.meta.name present)
    × (after.status.state ≡ inactive)
    × (after.status.claim_state ≡ before.status.claim_state)
    × (after.meta ≡ before.meta)
    × (after.spec ≡ before.spec)
DeactivatesMissing present h (job_create _) = ⊥
DeactivatesMissing present h (job_delete _) = ⊥
DeactivatesMissing present h (table_write _ _) = ⊥
