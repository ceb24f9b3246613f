-- ===== src/Daemon/Changed.antt =====
-- A change event writes only what Allowed admits.
use node_disk_manager.Base.{
  Bool, true, false, Bool-cases, Option-cases, List, [], ◌∷◌, inl, inr, lookup,
}
use node_disk_manager.Cluster.Safe.{History, Safe, Safe-handle, Any, start}
use node_disk_manager.Cluster.Mono.{Safe-mono}
use node_disk_manager.Store.{update_block_device}
use node_disk_manager.Store.Allowed.{KeepsClaims}
use node_disk_manager.Store.Sound.{update_block_device-Safe}
use node_disk_manager.Daemon.{Node, LocalDevice, Hierarchy}
use node_disk_manager.Daemon.Add.{with_uuid}
use node_disk_manager.Daemon.Convert.{to_device}
use node_disk_manager.Daemon.Convert.Status.{to_device-unclaimed}
use node_disk_manager.Daemon.Change.{
  change_block_device, update_changed, uuid_or_generated, is_unchanged,
}
use node_disk_manager.Daemon.Events.{
  values_of, change_named, change_devices, change_block_device_event,
}
use node_disk_manager.Daemon.Gone.{AnyOf}

module _ (node : Node) where
  module _ (passes : LocalDevice → Bool) where
    update_changed-Safe :
        (bd : LocalDevice) (h : History) → Safe KeepsClaims Any h (update_changed node passes bd)
    unfolding update_changed update_block_device
    update_changed-Safe bd h = elim (Option-cases (to_device node bd)) [
      | inl e ↦ rw (e, update_changed) tt
      | inr (b, e) ↦
          rw (e, update_changed)
            (λ r.
              update_block_device-Safe
                (record b { meta = record b.meta { namespace = node.namespace } })
                (to_device-unclaimed node bd b e) Any h (λ h' o. tt) r)
    ]

    pub change_block_device-Safe :
        (cache : Hierarchy) (bd filled : LocalDevice) (h : History)
        → Safe KeepsClaims Any h (change_block_device node passes cache bd filled).1
    unfolding change_block_device
    change_block_device-Safe cache bd filled h =
        elim (Option-cases (uuid_or_generated node passes filled)) [
          | inl e ↦ rw (e, change_block_device) tt
          | inr (uuid, e) ↦ elim (Bool-cases (is_unchanged bd (with_uuid uuid filled))) [
            | inl u ↦ rw (e, change_block_device) (rw u tt)
            | inr u ↦ elim (Bool-cases (passes (with_uuid uuid filled))) [
              | inr p ↦ rw (e, change_block_device) (rw u (rw p tt))
              | inl p ↦
                  rw (e, change_block_device)
                    (rw u (rw p (update_changed-Safe (with_uuid uuid filled) h)))
            ]
          ]
        ]

    module _ (fill : LocalDevice → LocalDevice) where
      change_devices-Safe :
          (bds : List LocalDevice) (cache : Hierarchy) (h : History)
          → Safe KeepsClaims AnyOf h (change_devices node fill passes bds cache)
      unfolding change_devices
      change_devices-Safe [] cache h = tt
      change_devices-Safe (bd ∷ bds) cache h =
          let changed = change_block_device node passes cache bd (fill bd) in
          Safe-handle KeepsClaims AnyOf (λ _. change_devices node fill passes bds changed.0)
            changed.1 h
            (Safe-mono KeepsClaims KeepsClaims (λ h w k. k) Any
              (λ h' o. Safe KeepsClaims AnyOf h' (change_devices node fill passes bds changed.0))
              (λ h' o k. change_devices-Safe bds changed.0 h') changed.1 h
              (change_block_device-Safe cache bd (fill bd) h))

      change_named-Safe :
          (bds : List LocalDevice) (cache : Hierarchy) (h : History)
          → Safe KeepsClaims AnyOf h (change_named node fill passes bds cache)
      unfolding change_named
      change_named-Safe [] cache h = tt
      change_named-Safe (bd ∷ bds) cache h = elim (Option-cases (lookup bd.dev_path cache)) [
        | inl e ↦ rw (e, change_named) (change_named-Safe bds cache h)
        | inr (cached, e) ↦
            let changed = change_block_device node passes cache cached (fill cached) in
            rw (e, change_named)
              (Safe-handle KeepsClaims AnyOf (λ _. change_named node fill passes bds changed.0)
                changed.1 h
                (Safe-mono KeepsClaims KeepsClaims (λ h w k. k) Any
                  (λ h' o. Safe KeepsClaims AnyOf h' (change_named node fill passes bds changed.0))
                  (λ h' o k. change_named-Safe bds changed.0 h') changed.1 h
                  (change_block_device-Safe cache cached (fill cached) h)))
      ]

      -- Whatever the probes and the API server answer, the handling of a change event leaves the claims
      -- on devices alone, as the handling of a remove event does, and writes no partition table.
      pub change_block_device_event-Safe :
          (all_devices : Bool) (devices : List LocalDevice) (cache : Hierarchy)
          → Safe KeepsClaims AnyOf start
              (change_block_device_event node fill passes all_devices devices cache)
      unfolding change_block_device_event
      change_block_device_event-Safe true devices cache =
          change_devices-Safe (values_of node fill passes cache) cache start
      change_block_device_event-Safe false devices cache = change_named-Safe devices cache start
