-- ===== src/Cluster/Mono.antt =====
-- A program that keeps to a policy keeps to a weaker one, and its result satisfies a weaker condition.
use node_disk_manager.Cluster.Disk.{
  DiskRequest, open_disk, read_table, read_file_system, write_table,
}
use node_disk_manager.Cluster.Program.{
  ask_disk, delete_job, create_job, get_job, get_taints, update_device, create_device, list_devices,
  get_device, update_claim, get_claim, Program, ret,
}
use node_disk_manager.Cluster.Safe.{History, Write, Safe, AllowsDisk, table_write}

module _ (policy weaker : History → Write → Type 0)
    (imp : (h : History) (w : Write) → policy h w → weaker h w) where
  AllowsDisk-mono : (h : History) (q : DiskRequest) → AllowsDisk policy h q → AllowsDisk weaker h q
  AllowsDisk-mono h (open_disk _) a = tt
  AllowsDisk-mono h (read_table _) a = tt
  AllowsDisk-mono h (read_file_system _) a = tt
  AllowsDisk-mono h (write_table path table) a = imp h (table_write path table) a

  module _ {A : Type 0} (post result : History → A → Type 0)
      (arr : (h : History) (a : A) → post h a → result h a) where
    pub Safe-mono : (m : Program A) (h : History) → Safe policy post h m → Safe weaker result h m
    Safe-mono (ret a) h s = arr h a s
    Safe-mono (get_claim n k) h s = λ r. Safe-mono (k r) _ (s r)
    Safe-mono (update_claim c k) h (w, s) = (imp h _ w, λ r. Safe-mono (k r) _ (s r))
    Safe-mono (get_device n k) h s = λ r. Safe-mono (k r) _ (s r)
    Safe-mono (list_devices q k) h s = λ r. Safe-mono (k r) _ (s r)
    Safe-mono (create_device d k) h (w, s) = (imp h _ w, λ r. Safe-mono (k r) _ (s r))
    Safe-mono (update_device d k) h (w, s) = (imp h _ w, λ r. Safe-mono (k r) _ (s r))
    Safe-mono (get_taints n k) h s = λ r. Safe-mono (k r) _ (s r)
    Safe-mono (get_job n k) h s = λ r. Safe-mono (k r) _ (s r)
    Safe-mono (create_job j k) h (w, s) = (imp h _ w, λ r. Safe-mono (k r) _ (s r))
    Safe-mono (delete_job n k) h (w, s) = (imp h _ w, λ r. Safe-mono (k r) _ (s r))
    Safe-mono (ask_disk q k) h (w, s) = (AllowsDisk-mono h q w, λ r. Safe-mono (k r) _ (s r))
