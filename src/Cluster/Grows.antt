-- ===== src/Cluster/Grows.antt =====
-- The devices that a program has read stay read.
use node_disk_manager.Base.{String, List, [], ◌∷◌, ◌++◌, In, inr}
use node_disk_manager.Api.{BlockDevice, BlockDeviceClaim}
use node_disk_manager.Cluster.Program.{
  ask_disk, delete_job, create_job, get_job, get_taints, update_device, create_device, list_devices,
  get_device, update_claim, get_claim, Program, Reply, ok, err, Job, ret,
}
use node_disk_manager.Cluster.Safe.{
  History, Write, Safe, read_claim, read_device, read_devices, wrote_device, read_job, removed_job,
}

abbrev pub Grows : History → History → Type 0
Grows before after = (item : BlockDevice) → In item before.listed → In item after.listed

In-append_right : (item : BlockDevice) (xs ys : List BlockDevice) → In item ys → In item (xs ++ ys)
In-append_right item [] ys m = m
In-append_right item (x ∷ xs) ys m = inr (In-append_right item xs ys m)

module _ (base h : History) (g : Grows base h) where
  claim-Grows : (r : Reply BlockDeviceClaim) → Grows base (read_claim r h)
  claim-Grows (ok _) = g
  claim-Grows (err _) = g

  device-Grows : (r : Reply BlockDevice) → Grows base (read_device r h)
  device-Grows (ok _) = λ item m. inr (g item m)
  device-Grows (err _) = g

  devices-Grows : (r : Reply (List BlockDevice)) → Grows base (read_devices r h)
  devices-Grows (ok ds) = λ item m. In-append_right item ds h.listed (g item m)
  devices-Grows (err _) = g

  wrote-Grows : (d : BlockDevice) (r : Reply BlockDevice) → Grows base (wrote_device d r h)
  wrote-Grows d (ok _) = g
  wrote-Grows d (err _) = g

  job-Grows : (n : String) (r : Reply Job) → Grows base (read_job n r h)
  job-Grows n (ok _) = g
  job-Grows n (err _) = g

  removed-Grows : (n : String) (r : Reply Job) → Grows base (removed_job n r h)
  removed-Grows n (ok _) = g
  removed-Grows n (err _) = g

module _ (policy : History → Write → Type 0) {A : Type 0} (post : History → A → Type 0)
    (base : History) where
  pub Safe-Grows :
      (m : Program A) (h : History)
      → Grows base h
      → Safe policy post h m
      → Safe policy (λ h' a. post h' a × Grows base h') h m
  Safe-Grows (ret a) h g s = (s, g)
  Safe-Grows (get_claim n k) h g s = λ r. Safe-Grows (k r) _ (claim-Grows base h g r) (s r)
  Safe-Grows (update_claim c k) h g (w, s) = (w, λ r. Safe-Grows (k r) _ g (s r))
  Safe-Grows (get_device n k) h g s = λ r. Safe-Grows (k r) _ (device-Grows base h g r) (s r)
  Safe-Grows (list_devices q k) h g s = λ r. Safe-Grows (k r) _ (devices-Grows base h g r) (s r)
  Safe-Grows (create_device d k) h g (w, s) = (w, λ r. Safe-Grows (k r) _ g (s r))
  Safe-Grows (update_device d k) h g (w, s) =
      (w, λ r. Safe-Grows (k r) _ (wrote-Grows base h g d r) (s r))
  Safe-Grows (get_taints n k) h g s = λ r. Safe-Grows (k r) _ g (s r)
  Safe-Grows (get_job n k) h g s = λ r. Safe-Grows (k r) _ (job-Grows base h g n r) (s r)
  Safe-Grows (create_job j k) h g (w, s) = (w, λ r. Safe-Grows (k r) _ g (s r))
  Safe-Grows (delete_job n k) h g (w, s) =
      (w, λ r. Safe-Grows (k r) _ (removed-Grows base h g n r) (s r))
  Safe-Grows (ask_disk q k) h g (w, s) = (w, λ r. Safe-Grows (k r) _ g (s r))
