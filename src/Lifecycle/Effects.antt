-- ===== src/Lifecycle/Effects.antt =====
-- What an accepted write does to the device.
use node_disk_manager.Base.{refl, some, ◌≡◌, ◌++◌, inl, inr, ap}
use node_disk_manager.Api.{BlockDevice, BlockDeviceClaim, ObjectReference, ObjectMeta, DeviceSpec}
use node_disk_manager.Cluster.Safe.{Any, History, start, device_write}
use node_disk_manager.Cluster.Performs.{Performs-Safe}
use node_disk_manager.Select.Eligible.{BuildsTagRequirement}
use node_disk_manager.Claim.Allowed.{Takes, Frees, RefersTo, SameVersion}
use node_disk_manager.Claim.Sound.{reconcile-Safe}
use node_disk_manager.Device.Allowed.{Recycles, Protects}
use node_disk_manager.Device.Sound.{reconcile_device-Safe}
use node_disk_manager.Store.Allowed.{KeepsClaim, KeepsClaims, DeactivatesMissing}
use node_disk_manager.Store.Sound.{push_block_device-Safe, known}
use node_disk_manager.Store.States.{deactivate_stale-Safe, mark_unknown-Safe}
use node_disk_manager.Lifecycle.{
  Setting, Step, by_claims, by_devices, by_push, by_deactivation, by_shutdown, by_add_event,
  by_remove_event, by_change_event,
}
use node_disk_manager.Daemon.Handled.{add_block_device_event-Safe, AnyAdding, AddsDevices}
use node_disk_manager.Daemon.Changed.{change_block_device_event-Safe}
use node_disk_manager.Daemon.Gone.{delete_block_device_event-Safe, AnyOf}

module _ (s : Setting) (before after : BlockDevice) where
  -- The write is one of the reconciler of claims, in a run that had read this claim.
  abbrev pub RanFor : BlockDeviceClaim → Step s before after → Type 0
  RanFor by (by_claims h run) = h.claim ≡ some by
  RanFor by _ = ⊥

  -- The write is one of the reconciler of devices, in a run that knew this much.
  abbrev pub RanKnowing : History → Step s before after → Type 0
  RanKnowing h (by_devices known_then run) = known_then ≡ h
  RanKnowing h _ = ⊥

  -- The write frees the device from the claim that its run had read.
  abbrev pub FreedFrom : BlockDeviceClaim → Step s before after → Type 0
  FreedFrom by now = RanFor by now × Frees s.as_int64 by before after

  -- The write makes the device free, in a run that had read the cleanup job as succeeded.
  abbrev pub Recycled : Step s before after → Type 0
  Recycled now = (h : History) × RanKnowing h now × Recycles h before after

pub data Effect (s : Setting) (before after : BlockDevice) (now : Step s before after)
    : Type 0 where
  taken : (bdc : BlockDeviceClaim) → Takes s.as_int64 bdc before after → Effect s before after now
  freed : (by : BlockDeviceClaim) → FreedFrom s before after by now → Effect s before after now
  recycled : Recycled s before after now → Effect s before after now
  protected : Protects before after → Effect s before after now
  kept : KeepsClaim before after → Effect s before after now

module _ (s : Setting) (builds : BuildsTagRequirement s.does_not_exist)
    (refers : (bdc : BlockDeviceClaim) (ref : ObjectReference)
      → s.reference bdc ≡ some ref
      → RefersTo bdc ref) where
  pub Step-Effect :
      (before after : BlockDevice) (now : Step s before after) → Effect s before after now
  Step-Effect before after (by_claims h (name, p, current)) =
      let (bdc, was_read, read, m, same, effect) =
        Performs-Safe (node_disk_manager.Claim.Allowed.Allowed s.as_int64) Any h
          (device_write after) start _
          (reconcile-Safe s.as_int64 s.does_not_exist s.reference s.valid_selector builds refers
            name)
          p in
      let is : read ≡ before = current read m same in
      elim effect [ inl t ↦ taken bdc (rw is at t) | inr f ↦ freed bdc (was_read, rw is at f) ]
  Step-Effect before after (by_devices h (name, p, current)) =
      let (read, m, same, effect) =
        Performs-Safe node_disk_manager.Device.Allowed.Allowed Any h (device_write after) start _
          (reconcile_device-Safe s.env s.pull_secrets s.namespace name) p in
      let is : read ≡ before = current read m same in
      elim effect [ inl r ↦ recycled (h, refl, rw is at r) | inr q ↦ protected (rw is at q) ]
  Step-Effect before after (by_push old_bd bd h new p current) =
      let (read, m, same, keeps) =
        Performs-Safe KeepsClaims Any h (device_write after)
          (record start { listed = known old_bd }) _
          (push_block_device-Safe s.namespace old_bd bd new) p in
      let is : read ≡ before = current read m same in kept (rw is at keeps)
  Step-Effect before after (by_deactivation host_name sparse_uuids devices h p current) =
      let (read, m, _, _, same_claim, same_meta, same_spec) =
        Performs-Safe (DeactivatesMissing (devices ++ sparse_uuids)) Any h (device_write after)
          start _ (deactivate_stale-Safe host_name sparse_uuids devices) p in
      let same : SameVersion read after = record {
        same_name = ap (λ (x : ObjectMeta). x.name) same_meta;
        same_uid = ap (λ (x : ObjectMeta). x.uid) same_meta;
        same_version = ap (λ (x : ObjectMeta). x.resource_version) same_meta;
      } in
      let keeps : KeepsClaim read after = record {
        same_claim_state = same_claim;
        same_finalizers = ap (λ (x : ObjectMeta). x.finalizers) same_meta;
        same_reference = inr (ap (λ (x : DeviceSpec). x.claim_ref) same_spec);
      } in
      let is : read ≡ before = current read m same in kept (rw is at keeps)
  Step-Effect before after (by_shutdown host_name h p current) =
      let (read, m, same, keeps) =
        Performs-Safe KeepsClaims Any h (device_write after) start _ (mark_unknown-Safe host_name)
          p in
      let is : read ≡ before = current read m same in kept (rw is at keeps)
  Step-Effect before after (by_add_event node fill passes cache devices h p current) =
      let (read, m, same, keeps) =
        Performs-Safe (AddsDevices node fill passes devices) (AnyAdding node fill passes) h
          (device_write after) start _ (add_block_device_event-Safe node fill passes cache devices)
          p in
      let is : read ≡ before = current read m same in kept (rw is at keeps)
  Step-Effect before after (by_remove_event node cache devices h p current) =
      let (read, m, same, keeps) =
        Performs-Safe KeepsClaims AnyOf h (device_write after) start _
          (delete_block_device_event-Safe node cache devices) p in
      let is : read ≡ before = current read m same in kept (rw is at keeps)
  Step-Effect before after
        (by_change_event node fill passes all_devices devices cache h p current) =
      let (read, m, same, keeps) =
        Performs-Safe KeepsClaims AnyOf h (device_write after) start _
          (change_block_device_event-Safe node passes fill all_devices devices cache) p in
      let is : read ≡ before = current read m same in kept (rw is at keeps)
