-- ===== src/Daemon/Gone.antt =====
-- A remove event writes only what Allowed admits.
use node_disk_manager.Base.{
  if◌then◌else◌, String, true, false, Bool-cases, Option, none, some, Option-cases, List, [], ◌∷◌,
  ◌≡◌, inl, inr, refl, In-append,
}
use node_disk_manager.Api.{BlockDevice}
use node_disk_manager.Cluster.Program.{Program, Reply, ok, err, done, ret, handle}
use node_disk_manager.Cluster.Safe.{History, Safe, Safe-handle, Any, start, read_devices}
use node_disk_manager.Cluster.Mono.{Safe-mono}
use node_disk_manager.Cluster.Grows.{Grows, Safe-Grows}
use node_disk_manager.Features.Gates.{is_enabled, gpt_based_uuid}
use node_disk_manager.Store.{list_block_devices, finish_list, drop_disabled, existing_block_device}
use node_disk_manager.Store.Listed.{drop_disabled-In}
use node_disk_manager.Store.Allowed.{KeepsClaims}
use node_disk_manager.Daemon.{Node, LocalDevice, Hierarchy}
use node_disk_manager.Daemon.Add.{is_partition, deactivate, existing_with_partition_uuid}
use node_disk_manager.Daemon.Uuid.{
  generate_uuid, generate_legacy_uuid, generate_uuid_from_partition_table,
}
use node_disk_manager.Daemon.Sound.{
  AllRead, WasRead, existing-WasRead, fs_uuid-WasRead, partition_uuid-WasRead,
}
use node_disk_manager.Daemon.Published.{deactivate-Safe}
use node_disk_manager.Daemon.Delete.{
  resource_of, deactivate_found, delete_block_device, remove_from_hierarchy, or_else,
  existing_named,
}
use node_disk_manager.Daemon.Events.{
  delete_result, Deleting, delete_device, delete_devices, delete_listed, delete_block_device_event,
}

or_else-WasRead :
    (first second : Option BlockDevice) (h : History)
    → WasRead first h
    → WasRead second h
    → WasRead (or_else first second) h
or_else-WasRead none second h f s = s
or_else-WasRead (some item) second h f s = f

module _ (node : Node) (items : List BlockDevice) where
  module _ (h : History) (all : AllRead items h) where
    named-WasRead : (uuid : Option String) → WasRead (existing_named uuid items) h
    named-WasRead none = λ item e. absurd cc
    named-WasRead (some uuid) = existing-WasRead node items h all uuid

    resource_of-WasRead : (bd : LocalDevice) → WasRead (resource_of node bd items) h
    unfolding resource_of
    resource_of-WasRead bd = or_else-WasRead _ _ h (named-WasRead (generate_uuid node bd)) (
        or_else-WasRead _ _ h (named-WasRead (generate_uuid_from_partition_table node bd)) (
          or_else-WasRead _ _ h (fs_uuid-WasRead node items h all bd) (
            or_else-WasRead _ _ h annotated
              (existing-WasRead node items h all (generate_legacy_uuid node bd).0))))
      where
        annotated :
            WasRead (if is_partition bd then none else existing_with_partition_uuid bd items) h
        annotated = λ item e. elim (Bool-cases (is_partition bd)) [
          | inl p ↦ let f : none ≡ some item = rw p at e in absurd cc
          | inr p ↦ partition_uuid-WasRead node items h all bd item (rw p at e)
        ]

    deactivate_found-Safe :
        (found : Option BlockDevice)
        → WasRead found h
        → Safe KeepsClaims Any h (deactivate_found node found)
    unfolding deactivate_found
    deactivate_found-Safe none read = tt
    deactivate_found-Safe (some item) read =
        deactivate-Safe node items h item (ret (done tt)) (read item refl) (λ r. tt)

    pub delete_block_device-Safe :
        (cache : Hierarchy) (bd : LocalDevice)
        → Safe KeepsClaims Any h (delete_block_device node cache bd items).1
    unfolding delete_block_device
    delete_block_device-Safe cache bd = elim (Bool-cases (remove_from_hierarchy bd cache).1) [
      | inl e ↦
          rw (e, delete_block_device)
            (deactivate_found-Safe (resource_of node bd items) (resource_of-WasRead bd))
      | inr e ↦ rw (e, delete_block_device) tt
    ]

  -- the resources are still among those that were read
  abbrev StillRead : {A : Type 0} → History → A → Type 0
  StillRead h a = AllRead items h

  noted-Safe :
      {A B : Type 0} (post : History → A → Type 0) (note : A → B) (m : Program A) (h : History)
      → AllRead items h
      → Safe KeepsClaims post h m
      → Safe KeepsClaims StillRead h (handle m (λ a. ret (note a)))
  noted-Safe post note m h all s =
      Safe-handle KeepsClaims StillRead (λ a. ret (note a)) m h
        (Safe-mono KeepsClaims KeepsClaims (λ h w k. k) (λ h' a. post h' a × Grows h h') StillRead
          (λ h' a q item x. q.1 item (all item x)) m h
          (Safe-Grows KeepsClaims post h m h (λ item x. x) s))

  delete_device-Safe :
      (st : Deleting) (bd : LocalDevice) (h : History)
      → AllRead items h
      → Safe KeepsClaims StillRead h (delete_device node items st bd)
  unfolding delete_device
  delete_device-Safe (cache, deactivated) bd h all =
      elim (Bool-cases (is_enabled gpt_based_uuid node.gates)) [
        | inl g ↦
            rw (g, delete_device)
              (noted-Safe Any _ _ h all (delete_block_device-Safe h all cache bd))
        | inr g ↦ elim (Bool-cases (is_partition bd)) [
          | inl e ↦ rw (g, delete_device) (rw e all)
          | inr e ↦ elim (Option-cases (existing_block_device items bd.uuid)) [
            | inl n ↦ rw (g, delete_device) (rw e (rw n all))
            | inr (item, n) ↦
                rw (g, delete_device)
                  (rw e (
                    rw n (
                      noted-Safe {B = Deleting} Any (λ _. (cache, deactivated))
                        (deactivate item (ret (done tt))) h all
                        (deactivate-Safe node items h item (ret (done tt))
                          (existing-WasRead node items h all bd.uuid item n) (λ r. tt)))))
          ]
        ]
      ]

  delete_devices-Safe :
      (bds : List LocalDevice) (st : Deleting) (h : History)
      → AllRead items h
      → Safe KeepsClaims StillRead h (delete_devices node items bds st)
  unfolding delete_devices
  delete_devices-Safe [] st h all = all
  delete_devices-Safe (bd ∷ bds) st h all =
      Safe-handle KeepsClaims StillRead (delete_devices node items bds)
        (delete_device node items st bd) h
        (Safe-mono KeepsClaims KeepsClaims (λ h w k. k) StillRead
          (λ h' st'. Safe KeepsClaims StillRead h' (delete_devices node items bds st'))
          (λ h' st' all'. delete_devices-Safe bds st' h' all') (delete_device node items st bd) h
          (delete_device-Safe st bd h all))

-- no condition on the result
abbrev pub AnyOf : {A : Type 0} → History → A → Type 0
AnyOf h a = Unit

module _ (node : Node) where
  -- Whatever the API server answers, the handling of a remove event leaves the claims on devices alone:
  -- it writes a device only at a version that it has read, with the same claim state and finalizers
  -- and, for a device in use, the same reference, a new resource would be unclaimed, and no partition
  -- table is written.
  pub delete_block_device_event-Safe :
      (cache : Hierarchy) (devices : List LocalDevice)
      → Safe KeepsClaims AnyOf start (delete_block_device_event node cache devices)
  unfolding delete_block_device_event list_block_devices finish_list delete_listed
  delete_block_device_event-Safe cache devices =
      Safe-handle KeepsClaims AnyOf (λ st. ret (delete_result node st))
        (handle (list_block_devices node.host_name false) (delete_listed node cache devices)) start
        listed
    where
      ended :
          (items : List BlockDevice) (h : History)
          → AllRead items h
          → Safe KeepsClaims
              (λ h' st. Safe KeepsClaims AnyOf h' (ret (delete_result node st)))
              h
              (delete_devices node items devices (cache, true))
      ended items h all =
          Safe-mono KeepsClaims KeepsClaims (λ h w k. k) (StillRead node items) _ (λ h' st all'. tt)
            (delete_devices node items devices (cache, true)) h
            (delete_devices-Safe node items devices (cache, true) h all)

      listed :
          (r : Reply (List BlockDevice))
          → Safe KeepsClaims
              (λ h' st. Safe KeepsClaims AnyOf h' (ret (delete_result node st)))
              (read_devices r start)
              (handle (finish_list r) (delete_listed node cache devices))
      listed (err e) = ended [] start (λ item m. absurd m)
      listed (ok items) =
          ended (drop_disabled items) (read_devices (ok items) start)
            (λ item m. In-append item items [] (drop_disabled-In items item m))
