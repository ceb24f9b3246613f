-- ===== src/Cluster/Safe.antt =====
-- A program that keeps to a policy, whatever the API server answers. The policy says which writes
-- are allowed after what the program has read and written so far.
use node_disk_manager.Base.{String, List, [], ◌∷◌, ◌++◌, Option, none, some}
use node_disk_manager.Cluster.Disk.{
  DiskRequest, PartitionTable, open_disk, read_table, read_file_system, write_table,
}
use node_disk_manager.Api.{BlockDevice, BlockDeviceClaim}
use node_disk_manager.Cluster.Program.{
  ask_disk, check, api, check_error, ApiError, Taint, Program, Reply, ok, err, Job, Outcome, done,
  failed, ret, get_claim, update_claim, get_device, list_devices, create_device, update_device,
  get_taints, get_job, create_job, delete_job, ◌>>=◌, handle,
}

-- What the server has answered to one run of the program: the claim it read last, the devices it
-- read, the devices it wrote with success, as they were sent, the jobs it read, with the names
-- that it asked for, the names of the jobs it deleted with success, and what it asked of disks, with
-- the answers.
pub record History : Type 0 where
  pub claim : Option BlockDeviceClaim
  pub listed : List BlockDevice
  pub written : List BlockDevice
  pub jobs : List (String × Job)
  pub deleted : List String
  pub asked : List (DiskRequest × Option String)

abbrev pub start : History
start = record { claim = none; listed = []; written = []; jobs = []; deleted = []; asked = [] }

pub data Write : Type 0 where
  claim_write : BlockDeviceClaim → Write
  device_create device_write : BlockDevice → Write
  job_create : Job → Write
  job_delete : String → Write
  table_write : String → PartitionTable → Write

abbrev pub read_claim : Reply BlockDeviceClaim → History → History
read_claim (ok c) h = record h { claim = some c }
read_claim (err _) h = h

abbrev pub read_device : Reply BlockDevice → History → History
read_device (ok d) h = record h { listed = d ∷ h.listed }
read_device (err _) h = h

abbrev pub read_devices : Reply (List BlockDevice) → History → History
read_devices (ok ds) h = record h { listed = ds ++ h.listed }
read_devices (err _) h = h

abbrev pub wrote_device : BlockDevice → Reply BlockDevice → History → History
wrote_device d (ok _) h = record h { written = d ∷ h.written }
wrote_device d (err _) h = h

abbrev pub read_job : String → Reply Job → History → History
read_job n (ok j) h = record h { jobs = (n, j) ∷ h.jobs }
read_job n (err _) h = h

abbrev pub removed_job : String → Reply Job → History → History
removed_job n (ok _) h = record h { deleted = n ∷ h.deleted }
removed_job n (err _) h = h

abbrev pub asked_disk : DiskRequest → Option String → History → History
asked_disk q r h = record h { asked = (q, r) ∷ h.asked }

-- Only one of the requests to a disk is a write.
abbrev pub AllowsDisk : (History → Write → Type 0) → History → DiskRequest → Type 0
AllowsDisk policy h (open_disk _) = Unit
AllowsDisk policy h (read_table _) = Unit
AllowsDisk policy h (read_file_system _) = Unit
AllowsDisk policy h (write_table path table) = policy h (table_write path table)

-- no condition on the result
abbrev pub Any : History → Outcome Unit → Type 0
Any h o = Unit

module _ (policy : History → Write → Type 0) where
  -- Every write of the program is allowed by the policy, and what it returns satisfies `post`, for
  -- every reply to every request.
  abbrev pub Safe : {A : Type 0} → (History → A → Type 0) → History → Program A → Type 0
  Safe post h (ret a) = post h a
  Safe post h (get_claim n k) = (r : Reply BlockDeviceClaim) → Safe post (read_claim r h) (k r)
  Safe post h (update_claim c k) =
      policy h (claim_write c) × ((r : Reply BlockDeviceClaim) → Safe post h (k r))
  Safe post h (get_device n k) = (r : Reply BlockDevice) → Safe post (read_device r h) (k r)
  Safe post h (list_devices s k) =
      (r : Reply (List BlockDevice)) → Safe post (read_devices r h) (k r)
  Safe post h (create_device d k) =
      policy h (device_create d) × ((r : Reply BlockDevice) → Safe post h (k r))
  Safe post h (update_device d k) =
      policy h (device_write d) × ((r : Reply BlockDevice) → Safe post (wrote_device d r h) (k r))
  Safe post h (get_taints n k) = (r : Reply (List Taint)) → Safe post h (k r)
  Safe post h (get_job n k) = (r : Reply Job) → Safe post (read_job n r h) (k r)
  Safe post h (create_job j k) = policy h (job_create j) × ((r : Reply Job) → Safe post h (k r))
  Safe post h (delete_job n k) =
      policy h (job_delete n) × ((r : Reply Job) → Safe post (removed_job n r h) (k r))
  Safe post h (ask_disk q k) =
      AllowsDisk policy h q × ((r : Option String) → Safe post (asked_disk q r h) (k r))

  -- what the first part of a sequence has to establish
  abbrev pub Then :
      {A B : Type 0}
      → (History → Outcome B → Type 0)
      → (A → Program (Outcome B))
      → History
      → Outcome A
      → Type 0
  Then post f h (done a) = Safe post h (f a)
  Then post f h (failed e) = post h (failed e)

  pub Safe->>= :
      {A B : Type 0} (post : History → Outcome B → Type 0) (f : A → Program (Outcome B))
      (m : Program (Outcome A)) (h : History)
      → Safe (Then post f) h m
      → Safe post h (m >>= f)
  Safe->>= post f (ret (done a)) h s = s
  Safe->>= post f (ret (failed e)) h s = s
  Safe->>= post f (get_claim n k) h s = λ r. Safe->>= post f (k r) (read_claim r h) (s r)
  Safe->>= post f (update_claim c k) h (w, s) = (w, λ r. Safe->>= post f (k r) h (s r))
  Safe->>= post f (get_device n k) h s = λ r. Safe->>= post f (k r) (read_device r h) (s r)
  Safe->>= post f (list_devices q k) h s = λ r. Safe->>= post f (k r) (read_devices r h) (s r)
  Safe->>= post f (create_device d k) h (w, s) = (w, λ r. Safe->>= post f (k r) h (s r))
  Safe->>= post f (update_device d k) h (w, s) =
      (w, λ r. Safe->>= post f (k r) (wrote_device d r h) (s r))
  Safe->>= post f (get_taints n k) h s = λ r. Safe->>= post f (k r) h (s r)
  Safe->>= post f (get_job n k) h s = λ r. Safe->>= post f (k r) (read_job n r h) (s r)
  Safe->>= post f (create_job j k) h (w, s) = (w, λ r. Safe->>= post f (k r) h (s r))
  Safe->>= post f (delete_job n k) h (w, s) =
      (w, λ r. Safe->>= post f (k r) (removed_job n r h) (s r))
  Safe->>= post f (ask_disk q k) h (w, s) = (w, λ r. Safe->>= post f (k r) (asked_disk q r h) (s r))

  pub Safe-handle :
      {A B : Type 0} (post : History → B → Type 0) (f : A → Program B) (m : Program A) (h : History)
      → Safe (λ h' a. Safe post h' (f a)) h m
      → Safe post h (handle m f)
  Safe-handle post f (ret a) h s = s
  Safe-handle post f (get_claim n k) h s = λ r. Safe-handle post f (k r) (read_claim r h) (s r)
  Safe-handle post f (update_claim c k) h (w, s) = (w, λ r. Safe-handle post f (k r) h (s r))
  Safe-handle post f (get_device n k) h s = λ r. Safe-handle post f (k r) (read_device r h) (s r)
  Safe-handle post f (list_devices q k) h s = λ r. Safe-handle post f (k r) (read_devices r h) (s r)
  Safe-handle post f (create_device d k) h (w, s) = (w, λ r. Safe-handle post f (k r) h (s r))
  Safe-handle post f (update_device d k) h (w, s) =
      (w, λ r. Safe-handle post f (k r) (wrote_device d r h) (s r))
  Safe-handle post f (get_taints n k) h s = λ r. Safe-handle post f (k r) h (s r)
  Safe-handle post f (get_job n k) h s = λ r. Safe-handle post f (k r) (read_job n r h) (s r)
  Safe-handle post f (create_job j k) h (w, s) = (w, λ r. Safe-handle post f (k r) h (s r))
  Safe-handle post f (delete_job n k) h (w, s) =
      (w, λ r. Safe-handle post f (k r) (removed_job n r h) (s r))
  Safe-handle post f (ask_disk q k) h (w, s) =
      (w, λ r. Safe-handle post f (k r) (asked_disk q r h) (s r))

  module _ (h : History) where
    -- the three requests with the continuations that the program uses
    pub list_devices-Safe :
        (post : History → Outcome (List BlockDevice) → Type 0)
        → ((ds : List BlockDevice) → post (record h { listed = ds ++ h.listed }) (done ds))
        → ((e : ApiError) → post h (failed (api e)))
        → (r : Reply (List BlockDevice)) → Safe post (read_devices r h) (check r)
    list_devices-Safe post good bad (ok ds) = good ds
    list_devices-Safe post good bad (err e) = bad e

    pub update_device-Safe :
        (post : History → Outcome Unit → Type 0) (d : BlockDevice)
        → post (record h { written = d ∷ h.written }) (done tt)
        → ((e : ApiError) → post h (failed (api e)))
        → (r : Reply BlockDevice) → Safe post (wrote_device d r h) (check_error r)
    update_device-Safe post d good bad (ok _) = good
    update_device-Safe post d good bad (err e) = bad e

    pub update_claim-Safe :
        (post : History → Outcome Unit → Type 0)
        → ((o : Outcome Unit) → post h o)
        → (r : Reply BlockDeviceClaim) → Safe post h (check_error r)
    update_claim-Safe post all (ok _) = all (done tt)
    update_claim-Safe post all (err e) = all (failed (api e))
