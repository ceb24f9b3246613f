-- ===== src/Claim/Allowed.antt =====
-- What the reconciler of claims may write, said without the code of the reconciler.
use node_disk_manager.Base.{String, ◌≡◌, ◌≢◌, ◌⊎◌, Bool, none, some, List, [], ◌∷◌, In}
use node_disk_manager.Base.Int.{ℤ}
use node_disk_manager.Api.{
  BlockDevice, BlockDeviceClaim, ObjectReference, ClaimPhase, claimed, released, fresh, pending,
  invalid_capacity, other_phase,
}
use node_disk_manager.Cluster.Safe.{
  History, Write, claim_write, device_write, device_create, job_create, job_delete, table_write,
}
use node_disk_manager.Select.Sound.{Satisfies}
use node_disk_manager.Claim.{block_device_finalizer, block_device_claim_finalizer}

-- The claim is waiting for a device.
abbrev pub IsWaiting : ClaimPhase → Type 0
IsWaiting fresh = Unit
IsWaiting pending = Unit
IsWaiting invalid_capacity = Unit
IsWaiting ClaimPhase.done = ⊥
IsWaiting (other_phase _) = ⊥

-- An object reference to the claim.
pub record RefersTo (bdc : BlockDeviceClaim) (ref : ObjectReference) : Type 0 where
  pub same_name : ref.name ≡ bdc.meta.name
  pub same_uid : ref.uid ≡ bdc.meta.uid
  pub same_kind : ref.kind ≡ bdc.type_meta.kind

-- The device is held by the claim.
abbrev pub HeldBy : BlockDeviceClaim → BlockDevice → Type 0
HeldBy bdc bd =
    (bd.status.claim_state ≡ claimed)
    × (ref : ObjectReference) × (bd.spec.claim_ref ≡ some ref)
    × RefersTo bdc ref

-- The same object, at the resource version at which it was read: the server rejects the write if
-- anybody changed the device in between.
pub record SameVersion (before after : BlockDevice) : Type 0 where
  pub same_name : after.meta.name ≡ before.meta.name
  pub same_uid : after.meta.uid ≡ before.meta.uid
  pub same_version : after.meta.resource_version ≡ before.meta.resource_version

module _ (as_int64 : String → ℤ × Bool) where
  -- A device that satisfies the claim becomes held by the claim and protected from deletion.
  abbrev pub Takes : BlockDeviceClaim → BlockDevice → BlockDevice → Type 0
  Takes bdc before after =
      IsWaiting bdc.phase
      × (bdc.meta.deletion_timestamp ≡ none)
      × Satisfies as_int64 bdc.spec before
      × HeldBy bdc after
      × In block_device_finalizer after.meta.finalizers

  -- A device that the claim holds is set free for cleaning, when the claim is being deleted and
  -- nobody else protects it.
  abbrev pub Frees : BlockDeviceClaim → BlockDevice → BlockDevice → Type 0
  Frees bdc before after =
      (bdc.phase ≡ ClaimPhase.done)
      × (bdc.meta.deletion_timestamp ≢ none)
      × (bdc.meta.finalizers ≡ block_device_claim_finalizer ∷ [])
      × HeldBy bdc before
      × (after.status.claim_state ≡ released)
      × (after.spec.claim_ref ≡ none)

  -- The claim goes on waiting.
  abbrev pub Waits : BlockDeviceClaim → BlockDeviceClaim → Type 0
  Waits old new =
      IsWaiting old.phase × (new.phase ≡ pending) × (new.meta ≡ old.meta) × (new.spec ≡ old.spec)

  -- The claim is bound to a device that was written, with success, as held by it.
  abbrev pub Binds : List BlockDevice → BlockDeviceClaim → BlockDeviceClaim → Type 0
  Binds written old new =
      IsWaiting old.phase
      × (old.meta.deletion_timestamp ≡ none)
      × (new.phase ≡ ClaimPhase.done)
      × In block_device_claim_finalizer new.meta.finalizers
      × (bd : BlockDevice) × In bd written
      × (new.spec.block_device_name ≡ bd.meta.name)
      × HeldBy old bd

  -- The claim gives up its protection, after a device was written, with success, as set free.
  abbrev pub LetsGo : List BlockDevice → BlockDeviceClaim → BlockDeviceClaim → Type 0
  LetsGo written old new =
      (old.phase ≡ ClaimPhase.done)
      × (old.meta.deletion_timestamp ≢ none)
      × (new.meta.finalizers ≡ [])
      × (bd : BlockDevice) × In bd written
      × (bd.status.claim_state ≡ released)
      × (bd.spec.claim_ref ≡ none)

  abbrev pub Allowed : History → Write → Type 0
  Allowed h (claim_write new) =
      (old : BlockDeviceClaim) × (h.claim ≡ some old)
      × (Waits old new ⊎ Binds h.written old new ⊎ LetsGo h.written old new)
  Allowed h (device_write after) =
      (bdc : BlockDeviceClaim) × (h.claim ≡ some bdc)
      × (before : BlockDevice) × In before h.listed
      × SameVersion before after
      × (Takes bdc before after ⊎ Frees bdc before after)
  Allowed h (device_create _) = ⊥
  Allowed h (job_create _) = ⊥
  Allowed h (job_delete _) = ⊥
  Allowed h (table_write _ _) = ⊥
