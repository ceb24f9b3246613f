-- ===== src/Cluster/Run.antt =====
-- A run of a program with given replies: the writes that it sends, in order, and its result. The
-- replies do not depend on what was written before, which is enough for programs that read first.
use node_disk_manager.Base.{refl, ◌∙◌, ap, ◌≡◌, Option, String, List, [], ◌∷◌}
use node_disk_manager.Api.{BlockDevice, BlockDeviceClaim, LabelSelector}
use node_disk_manager.Cluster.Program.{
  handle, ask_disk, Program, Reply, Job, Taint, ret, get_claim, update_claim, get_device,
  list_devices, create_device, update_device, get_taints, get_job, create_job, delete_job,
}
use node_disk_manager.Cluster.Safe.{
  table_write, Write, claim_write, device_create, device_write, job_create, job_delete,
}
use node_disk_manager.Cluster.Disk.{
  write_table, read_file_system, read_table, open_disk, DiskRequest,
}

pub record Replies : Type 0 where
  pub claim : String → Reply BlockDeviceClaim
  pub claim_update : BlockDeviceClaim → Reply BlockDeviceClaim
  pub device : String → Reply BlockDevice
  pub devices : LabelSelector → Reply (List BlockDevice)
  pub device_create : BlockDevice → Reply BlockDevice
  pub device_update : BlockDevice → Reply BlockDevice
  pub taints : String → Reply (List Taint)
  pub job : String → Reply Job
  pub job_create : Job → Reply Job
  pub job_delete : String → Reply Job
  pub disk : DiskRequest → Option String

abbrev pub sends : {A : Type 0} → Write → List Write × A → List Write × A
sends w (ws, a) = (w ∷ ws, a)

abbrev pub sends_disk : {A : Type 0} → DiskRequest → List Write × A → List Write × A
sends_disk (open_disk _) x = x
sends_disk (read_table _) x = x
sends_disk (read_file_system _) x = x
sends_disk (write_table path table) x = sends (table_write path table) x

abbrev pub run : {A : Type 0} → Replies → Program A → List Write × A
run s (ret a) = ([], a)
run s (get_claim n k) = run s (k (s.claim n))
run s (update_claim c k) = sends (claim_write c) (run s (k (s.claim_update c)))
run s (get_device n k) = run s (k (s.device n))
run s (list_devices q k) = run s (k (s.devices q))
run s (create_device d k) = sends (device_create d) (run s (k (s.device_create d)))
run s (update_device d k) = sends (device_write d) (run s (k (s.device_update d)))
run s (get_taints n k) = run s (k (s.taints n))
run s (get_job n k) = run s (k (s.job n))
run s (create_job j k) = sends (job_create j) (run s (k (s.job_create j)))
run s (delete_job n k) = sends (job_delete n) (run s (k (s.job_delete n)))
run s (ask_disk q k) = sends_disk q (run s (k (s.disk q)))

-- A program whose result is looked at, without further requests, makes the same writes.
module _ {A B : Type 0} (s : Replies) (f : A → B) where
  abbrev with_result : List Write × A → List Write × B
  with_result (ws, a) = (ws, f a)

  sends-with_result :
      (w : Write) (x : List Write × A) → sends w (with_result x) ≡ with_result (sends w x)
  sends-with_result w (ws, a) = refl

  sends_disk-with_result :
      (q : DiskRequest) (x : List Write × A)
      → sends_disk q (with_result x) ≡ with_result (sends_disk q x)
  sends_disk-with_result (open_disk _) x = refl
  sends_disk-with_result (read_table _) x = refl
  sends_disk-with_result (read_file_system _) x = refl
  sends_disk-with_result (write_table path table) x = sends-with_result (table_write path table) x

  pub run-handle : (m : Program A) → run s (handle m (λ a. ret (f a))) ≡ with_result (run s m)
  run-handle (ret a) = refl
  run-handle (get_claim n k) = run-handle (k (s.claim n))
  run-handle (update_claim c k) =
      ap (sends (claim_write c)) (run-handle (k (s.claim_update c)))
      ∙ sends-with_result (claim_write c) _
  run-handle (get_device n k) = run-handle (k (s.device n))
  run-handle (list_devices q k) = run-handle (k (s.devices q))
  run-handle (create_device d k) =
      ap (sends (device_create d)) (run-handle (k (s.device_create d)))
      ∙ sends-with_result (device_create d) _
  run-handle (update_device d k) =
      ap (sends (device_write d)) (run-handle (k (s.device_update d)))
      ∙ sends-with_result (device_write d) _
  run-handle (get_taints n k) = run-handle (k (s.taints n))
  run-handle (get_job n k) = run-handle (k (s.job n))
  run-handle (create_job j k) =
      ap (sends (job_create j)) (run-handle (k (s.job_create j)))
      ∙ sends-with_result (job_create j) _
  run-handle (delete_job n k) =
      ap (sends (job_delete n)) (run-handle (k (s.job_delete n)))
      ∙ sends-with_result (job_delete n) _
  run-handle (ask_disk q k) =
      ap (sends_disk q) (run-handle (k (s.disk q))) ∙ sends_disk-with_result q _
