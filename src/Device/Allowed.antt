-- ===== src/Device/Allowed.antt =====
-- What the reconciler of devices may write, said without the code of the reconciler.
use node_disk_manager.Base.{◌≡◌, ◌≢◌, ◌⊎◌, [], In}
use node_disk_manager.Api.{BlockDevice, active, unclaimed, released, claimed}
use node_disk_manager.Cluster.Program.{Job}
use node_disk_manager.Cluster.Safe.{
  History, Write, claim_write, device_create, device_write, job_create, job_delete, table_write,
}
use node_disk_manager.Claim.{block_device_finalizer}
use node_disk_manager.Claim.Allowed.{SameVersion}
use node_disk_manager.Cleaner.{cleaning_job_name}

-- The cleanup job of the device was read and had succeeded.
abbrev pub WasWiped : History → BlockDevice → Type 0
WasWiped h bd = (job : Job) × In (cleaning_job_name bd.meta.name, job) h.jobs × (job.succeeded ≢ 0)

-- The cleanup job of the device was read and had not succeeded.
abbrev pub WasUnfinished : History → BlockDevice → Type 0
WasUnfinished h bd =
    (job : Job) × In (cleaning_job_name bd.meta.name, job) h.jobs × (job.succeeded ≡ 0)

-- A released device is free again, after its cleanup job succeeded and a job was deleted.
abbrev pub Recycles : History → BlockDevice → BlockDevice → Type 0
Recycles h before after =
    (before.status.claim_state ≡ released)
    × WasWiped h before
    × (h.deleted ≢ [])
    × (after.status.claim_state ≡ unclaimed)
    × (¬ In block_device_finalizer after.meta.finalizers)
    × (after.spec ≡ before.spec)

-- A claimed device gets the finalizer that it lacked.
abbrev pub Protects : BlockDevice → BlockDevice → Type 0
Protects before after =
    (before.status.claim_state ≡ claimed)
    × (¬ In block_device_finalizer before.meta.finalizers)
    × In block_device_finalizer after.meta.finalizers
    × (after.status ≡ before.status)
    × (after.spec ≡ before.spec)

abbrev pub Allowed : History → Write → Type 0
Allowed h (claim_write _) = ⊥
Allowed h (table_write _ _) = ⊥
Allowed h (device_create _) = ⊥
Allowed h (device_write after) =
    (before : BlockDevice) × In before h.listed
    × SameVersion before after
    × (Recycles h before after ⊎ Protects before after)
Allowed h (job_create job) =
    (bd : BlockDevice) × In bd h.listed
    × (bd.status.claim_state ≡ released)
    × (job.name ≡ cleaning_job_name bd.meta.name)
    × ((bd.status.state ≡ active) ⊎ WasUnfinished h bd)
Allowed h (job_delete name) =
    (bd : BlockDevice) × In bd h.listed
    × (bd.status.claim_state ≡ released)
    × ((name ≡ "")
        ⊎ ((job : Job) × In (cleaning_job_name bd.meta.name, job) h.jobs × (name ≡ job.name)))
    × ((bd.status.state ≢ active) ⊎ WasWiped h bd)
