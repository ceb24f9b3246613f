-- ===== src/Cluster/Performs.antt =====
-- A write that a program performs for some replies of the API server, with what it had read and
-- written before.
use node_disk_manager.Base.{String, Option, ◌≡◌, ◌⊎◌, inl, inr, List}
use node_disk_manager.Api.{BlockDevice, BlockDeviceClaim}
use node_disk_manager.Cluster.Program.{
  ask_disk, Program, Reply, Job, Taint, ret, get_claim, update_claim, get_device, list_devices,
  create_device, update_device, get_taints, get_job, create_job, delete_job,
}
use node_disk_manager.Cluster.Safe.{
  table_write, AllowsDisk, asked_disk, History, Write, claim_write, device_create, device_write,
  job_create, job_delete, read_claim, read_device, read_devices, wrote_device, read_job,
  removed_job, Safe,
}
use node_disk_manager.Cluster.Disk.{
  write_table, read_file_system, read_table, open_disk, DiskRequest,
}

-- The write is the one at hand, or a later one.
abbrev pub Now : History → Write → History → Write → Type 0
Now at w h this = (at ≡ h) × (w ≡ this)

abbrev pub NowDisk : History → Write → History → DiskRequest → Type 0
NowDisk at w h (open_disk _) = ⊥
NowDisk at w h (read_table _) = ⊥
NowDisk at w h (read_file_system _) = ⊥
NowDisk at w h (write_table path table) = Now at w h (table_write path table)

abbrev pub Performs : {A : Type 0} → History → Write → History → Program A → Type 0
Performs at w h (ret a) = ⊥
Performs at w h (get_claim n k) =
    (r : Reply BlockDeviceClaim) × Performs at w (read_claim r h) (k r)
Performs at w h (update_claim c k) =
    Now at w h (claim_write c) ⊎ ((r : Reply BlockDeviceClaim) × Performs at w h (k r))
Performs at w h (get_device n k) = (r : Reply BlockDevice) × Performs at w (read_device r h) (k r)
Performs at w h (list_devices q k) =
    (r : Reply (List BlockDevice)) × Performs at w (read_devices r h) (k r)
Performs at w h (create_device d k) =
    Now at w h (device_create d) ⊎ ((r : Reply BlockDevice) × Performs at w h (k r))
Performs at w h (update_device d k) =
    Now at w h (device_write d)
    ⊎ ((r : Reply BlockDevice) × Performs at w (wrote_device d r h) (k r))
Performs at w h (get_taints n k) = (r : Reply (List Taint)) × Performs at w h (k r)
Performs at w h (get_job n k) = (r : Reply Job) × Performs at w (read_job n r h) (k r)
Performs at w h (create_job j k) =
    Now at w h (job_create j) ⊎ ((r : Reply Job) × Performs at w h (k r))
Performs at w h (delete_job n k) =
    Now at w h (job_delete n) ⊎ ((r : Reply Job) × Performs at w (removed_job n r h) (k r))
Performs at w h (ask_disk q k) =
    NowDisk at w h q ⊎ ((r : Option String) × Performs at w (asked_disk q r h) (k r))

now-AllowsDisk :
    (policy : History → Write → Type 0) (at : History) (w : Write) (h : History) (q : DiskRequest)
    → AllowsDisk policy h q
    → NowDisk at w h q
    → policy at w
now-AllowsDisk policy at w h (open_disk _) s now = absurd now
now-AllowsDisk policy at w h (read_table _) s now = absurd now
now-AllowsDisk policy at w h (read_file_system _) s now = absurd now
now-AllowsDisk policy at w h (write_table _ _) s now = rw now.0 (rw now.1 s)

-- What a program that keeps to a policy performs is allowed by the policy.
pub Performs-Safe :
    {A : Type 0} (policy : History → Write → Type 0) (post : History → A → Type 0) (at : History)
    (w : Write) (h : History) (p : Program A)
    → Safe policy post h p
    → Performs at w h p
    → policy at w
Performs-Safe policy post at w h (ret a) s d = absurd d
Performs-Safe policy post at w h (get_claim n k) s d =
    Performs-Safe policy post at w (read_claim d.0 h) (k d.0) (s d.0) d.1
Performs-Safe policy post at w h (update_claim c k) s (inl now) = rw now.0 (rw now.1 s.0)
Performs-Safe policy post at w h (update_claim c k) s (inr later) =
    Performs-Safe policy post at w h (k later.0) (s.1 later.0) later.1
Performs-Safe policy post at w h (get_device n k) s d =
    Performs-Safe policy post at w (read_device d.0 h) (k d.0) (s d.0) d.1
Performs-Safe policy post at w h (list_devices q k) s d =
    Performs-Safe policy post at w (read_devices d.0 h) (k d.0) (s d.0) d.1
Performs-Safe policy post at w h (create_device d k) s (inl now) = rw now.0 (rw now.1 s.0)
Performs-Safe policy post at w h (create_device d k) s (inr later) =
    Performs-Safe policy post at w h (k later.0) (s.1 later.0) later.1
Performs-Safe policy post at w h (update_device d k) s (inl now) = rw now.0 (rw now.1 s.0)
Performs-Safe policy post at w h (update_device d k) s (inr later) =
    Performs-Safe policy post at w (wrote_device d later.0 h) (k later.0) (s.1 later.0) later.1
Performs-Safe policy post at w h (get_taints n k) s d =
    Performs-Safe policy post at w h (k d.0) (s d.0) d.1
Performs-Safe policy post at w h (get_job n k) s d =
    Performs-Safe policy post at w (read_job n d.0 h) (k d.0) (s d.0) d.1
Performs-Safe policy post at w h (create_job j k) s (inl now) = rw now.0 (rw now.1 s.0)
Performs-Safe policy post at w h (create_job j k) s (inr later) =
    Performs-Safe policy post at w h (k later.0) (s.1 later.0) later.1
Performs-Safe policy post at w h (delete_job n k) s (inl now) = rw now.0 (rw now.1 s.0)
Performs-Safe policy post at w h (delete_job n k) s (inr later) =
    Performs-Safe policy post at w (removed_job n later.0 h) (k later.0) (s.1 later.0) later.1
Performs-Safe policy post at w h (ask_disk q k) s (inl now) = now-AllowsDisk policy at w h q s.0 now
Performs-Safe policy post at w h (ask_disk q k) s (inr later) =
    Performs-Safe policy post at w (asked_disk q later.0 h) (k later.0) (s.1 later.0) later.1
