-- ===== src/Daemon/Checked/Unmanaged.antt =====
-- A device of mayastor or zfs-localpv ends the processing (deviceInUseByMayastor and
-- deviceInUseByZFSLocalPV in cmd/ndm_daemonset/probe/addhandler.go).
use node_disk_manager.Base.{
  Bool, true, false, Bool-cases, none, some, Option-cases, ◌≡◌, inl, inr, refl, lookup, insert,
}
use node_disk_manager.Api.{BlockDevice}
use node_disk_manager.Cluster.Program.{Program, Outcome, done, failed, ret, ◌>>◌}
use node_disk_manager.Cluster.Safe.{History, Safe, Safe->>=, Any, Then}
use node_disk_manager.Cluster.Mono.{Safe-mono}
use node_disk_manager.Store.{push_block_device, create_block_device}
use node_disk_manager.Store.Allowed.{KeepsClaims}
use node_disk_manager.Store.Sound.{push_known-Safe}
use node_disk_manager.Daemon.{Node, LocalDevice, Hierarchy}
use node_disk_manager.Daemon.Uuid.{generate_uuid_from_partition_table}
use node_disk_manager.Daemon.Convert.{to_device}
use node_disk_manager.Daemon.Convert.Status.{to_device-unclaimed}
use node_disk_manager.Daemon.Add.{
  push_zfs, used_by_zfs, in_use_by_zfs, handle_unmanaged_devices, is_used_by, is_zfs, is_mayastor,
  with_uuid, is_partition,
}

-- The processing goes on only where `P` holds.
abbrev pub OnlyIf : (History → Type 0) → History → Outcome Bool → Type 0
OnlyIf P h (done true) = P h
OnlyIf P h (done false) = Unit
OnlyIf P h (failed e) = Unit

pub OnlyIf-mono :
    (P Q : History → Type 0)
    → ((h : History) → P h → Q h)
    → (h : History) (o : Outcome Bool) → OnlyIf P h o
    → OnlyIf Q h o
OnlyIf-mono P Q f h (done true) p = f h p
OnlyIf-mono P Q f h (done false) p = tt
OnlyIf-mono P Q f h (failed e) p = tt

-- neither mayastor nor zfs-localpv uses the device
abbrev pub IsUnmanaged : LocalDevice → Type 0
IsUnmanaged bd = (is_used_by is_mayastor bd ≡ false) × (is_used_by is_zfs bd ≡ false)

module _ (h : History) where
  -- a program that ends the processing, after writes
  pub stop-Safe :
      (P : History → Type 0) (m : Program (Outcome Unit))
      → Safe KeepsClaims Any h m
      → Safe KeepsClaims (OnlyIf P) h (m >> ret (done false))
  stop-Safe P m s =
      Safe->>= KeepsClaims (OnlyIf P) (λ _. ret (done false)) m h
        (Safe-mono KeepsClaims KeepsClaims (λ h w p. p) Any
          (Then KeepsClaims (OnlyIf P) (λ _. ret (done false))) stopped m h s)
    where
      stopped :
          (h : History) (o : Outcome Unit)
          → Any h o
          → Then KeepsClaims (OnlyIf P) (λ _. ret (done false)) h o
      stopped h (done _) p = tt
      stopped h (failed e) p = tt

module _ (node : Node) where
  module _ (h : History) where
    -- the resource with the tag of zfs-localpv
    tagged-Safe :
        (bd : LocalDevice) (b : BlockDevice)
        → to_device node bd ≡ some b
        → Safe KeepsClaims Any h (
            create_block_device node.namespace (record b {
              meta = record b.meta {
                labels = insert "openebs.io/block-device-tag" "zfs-localpv" b.meta.labels;
              };
            }))
    unfolding push_block_device
    tagged-Safe bd b n =
        push_known-Safe node.namespace none
          (record b {
            meta = record b.meta {
              labels = insert "openebs.io/block-device-tag" "zfs-localpv" b.meta.labels;
            };
          })
          (to_device-unclaimed node bd b n) h (λ item e. absurd cc)

    push_zfs-Safe :
        (P : History → Type 0) (bd : LocalDevice) → Safe KeepsClaims (OnlyIf P) h (push_zfs node bd)
    unfolding push_zfs
    push_zfs-Safe P bd = elim (Option-cases (generate_uuid_from_partition_table node bd)) [
      | inl e ↦ rw (e, push_zfs) tt
      | inr (uuid, e) ↦ elim (Option-cases (to_device node (with_uuid uuid bd))) [
        | inl n ↦ rw (e, push_zfs) (rw n tt)
        | inr (b, n) ↦
            rw (e, push_zfs) (rw n (stop-Safe h P _ (tagged-Safe (with_uuid uuid bd) b n)))
      ]
    ]

    used_by_zfs-Safe :
        (bd : LocalDevice) (K : History → Type 0)
        → K h
        → Safe KeepsClaims
            (OnlyIf (λ h'. (is_used_by is_zfs bd ≡ false) × K h'))
            h
            (used_by_zfs node bd)
    unfolding used_by_zfs
    used_by_zfs-Safe bd K k = elim (Bool-cases (is_used_by is_zfs bd)) [
      | inl e ↦ rw (e, used_by_zfs) (push_zfs-Safe _ bd)
      | inr e ↦ rw (e, used_by_zfs) (refl, k)
    ]

    in_use_by_zfs-Safe :
        (cache : Hierarchy) (bd : LocalDevice) (K : History → Type 0)
        → K h
        → Safe KeepsClaims
            (OnlyIf (λ h'. (is_used_by is_zfs bd ≡ false) × K h'))
            h
            (in_use_by_zfs node cache bd)
    unfolding in_use_by_zfs
    in_use_by_zfs-Safe cache bd K k = elim (Bool-cases (is_partition bd)) [
      | inr e ↦ rw (e, in_use_by_zfs) (used_by_zfs-Safe bd K k)
      | inl e ↦ elim (Option-cases (lookup bd.dependent_devices.parent cache)) [
        | inl n ↦ rw (e, in_use_by_zfs) (rw n tt)
        | inr (parent, n) ↦ elim (Bool-cases (is_used_by is_zfs parent)) [
          | inl u ↦ rw (e, in_use_by_zfs) (rw n (rw u tt))
          | inr u ↦ rw (e, in_use_by_zfs) (rw n (rw u (used_by_zfs-Safe bd K k)))
        ]
      ]
    ]

    pub handle_unmanaged_devices-Safe :
        (cache : Hierarchy) (bd : LocalDevice) (K : History → Type 0)
        → K h
        → Safe KeepsClaims
            (OnlyIf (λ h'. IsUnmanaged bd × K h'))
            h
            (handle_unmanaged_devices node cache bd)
    unfolding handle_unmanaged_devices
    handle_unmanaged_devices-Safe cache bd K k = elim (Bool-cases (is_used_by is_mayastor bd)) [
      | inl e ↦ rw (e, handle_unmanaged_devices) tt
      | inr e ↦
          rw (e, handle_unmanaged_devices)
            (Safe-mono KeepsClaims KeepsClaims (λ h w p. p) _ _
              (OnlyIf-mono (λ h'. (is_used_by is_zfs bd ≡ false) × K h')
                (λ h'. ((false ≡ false) × (is_used_by is_zfs bd ≡ false)) × K h')
                (λ h' p. ((refl, p.0), p.1)))
              (in_use_by_zfs node cache bd) h (in_use_by_zfs-Safe cache bd K k))
    ]
