-- ===== src/Daemon/Handled.antt =====
-- The events of the kernel write only what is allowed for one of the devices of the message.
use node_disk_manager.Base.{
  Bool, true, Bool-cases, Option-cases, List, [], ◌∷◌, ◌≡◌, inl, inr, refl, In, In-append,
}
use node_disk_manager.Api.{BlockDevice}
use node_disk_manager.Cluster.Program.{Program, Reply, ok, err, ret, handle}
use node_disk_manager.Cluster.Safe.{
  read_devices, History, Write, Safe, Safe-handle, Any, start, claim_write, device_create,
  device_write, job_create, job_delete, table_write,
}
use node_disk_manager.Cluster.Mono.{Safe-mono}
use node_disk_manager.Cluster.Grows.{Grows, Safe-Grows}
use node_disk_manager.Features.Gates.{is_enabled, gpt_based_uuid}
use node_disk_manager.Store.{list_block_devices, finish_list, drop_disabled, existing_block_device}
use node_disk_manager.Store.Allowed.{KeepsClaims}
use node_disk_manager.Store.Sound.{push_known-Safe}
use node_disk_manager.Daemon.{Node, LocalDevice, Hierarchy}
use node_disk_manager.Daemon.Add.{is_partition}
use node_disk_manager.Daemon.Convert.{to_device}
use node_disk_manager.Daemon.Convert.Status.{to_device-unclaimed}
use node_disk_manager.Daemon.Allowed.{AddsDevice, MayPartition}
use node_disk_manager.Daemon.Sound.{AllRead, existing-WasRead}
use node_disk_manager.Daemon.Added.{add_block_device-Safe, AnyResult}
use node_disk_manager.Daemon.Events.{
  Adding, is_parent_or_slave, note_result, note_push, push_local, add_passed, add_device,
  add_devices, add_listed, add_block_device_event,
}
use node_disk_manager.Store.Listed.{drop_disabled-In}

module _ (node : Node) (fill : LocalDevice → LocalDevice) (passes : LocalDevice → Bool) where
  -- A partition table is written for one of the devices, which passes the filters, and the devices
  -- have to be identified by their content.
  abbrev pub AddsDevices : List LocalDevice → History → Write → Type 0
  AddsDevices devices h (claim_write _) = ⊥
  AddsDevices devices h (device_create d) = KeepsClaims h (device_create d)
  AddsDevices devices h (device_write d) = KeepsClaims h (device_write d)
  AddsDevices devices h (job_create _) = ⊥
  AddsDevices devices h (job_delete _) = ⊥
  AddsDevices devices h (table_write path _) =
      (device : LocalDevice) × In device devices
      × (passes (fill device) ≡ true)
      × (is_enabled gpt_based_uuid node.gates ≡ true)
      × MayPartition node (fill device) h path

  module _ (all_devices : List LocalDevice) (items : List BlockDevice) where
    from_device :
        (device : LocalDevice)
        → In device all_devices
        → passes (fill device) ≡ true
        → is_enabled gpt_based_uuid node.gates ≡ true
        → (h : History) (w : Write) → AddsDevice node (fill device) h w
        → AddsDevices all_devices h w
    from_device device m p g h (claim_write _) a = a
    from_device device m p g h (device_create _) a = a
    from_device device m p g h (device_write _) a = a
    from_device device m p g h (job_create _) a = a
    from_device device m p g h (job_delete _) a = a
    from_device device m p g h (table_write path _) a = (device, m, p, g, a)

    KeepsClaims-AddsDevices :
        (h : History) (w : Write) → KeepsClaims h w → AddsDevices all_devices h w
    KeepsClaims-AddsDevices h (claim_write _) a = a
    KeepsClaims-AddsDevices h (device_create _) a = a
    KeepsClaims-AddsDevices h (device_write _) a = a
    KeepsClaims-AddsDevices h (job_create _) a = a
    KeepsClaims-AddsDevices h (job_delete _) a = a
    KeepsClaims-AddsDevices h (table_write _ _) a = absurd a

    push_local-Safe :
        (bd : LocalDevice) (h : History)
        → AllRead items h
        → Safe KeepsClaims Any h (push_local node bd items)
    unfolding push_local
    push_local-Safe bd h all =
        elim (Option-cases
          (to_device node (record bd { node_attributes = node.node_attributes }))) [
            | inl e ↦ rw (e, push_local) tt
            | inr (b, e) ↦
                rw (e, push_local)
                  (push_known-Safe node.namespace (existing_block_device items bd.uuid) b
                    (to_device-unclaimed node _ b e) h (existing-WasRead node items h all bd.uuid))
          ]

    -- the resources are still among those that were read
    abbrev StillRead : History → Adding → Type 0
    StillRead h st = AllRead items h

    noted-Safe :
        {A : Type 0} (policy : History → Write → Type 0) (post : History → A → Type 0)
        → ((h : History) (w : Write) → policy h w → AddsDevices all_devices h w)
        → (note : A → Adding) (m : Program A) (h : History) → AllRead items h
        → Safe policy post h m
        → Safe (AddsDevices all_devices) StillRead h (handle m (λ a. ret (note a)))
    noted-Safe policy post imp note m h all s =
        Safe-handle (AddsDevices all_devices) StillRead (λ a. ret (note a)) m h
          (Safe-mono policy (AddsDevices all_devices) imp (λ h' a. post h' a × Grows h h')
            (λ h' a. AllRead items h') (λ h' a q item x. q.1 item (all item x)) m h
            (Safe-Grows policy post h m h (λ item x. x) s))

    module _ (device : LocalDevice) (m : In device all_devices)
        (p : passes (fill device) ≡ true) where
      add_passed-Safe :
          (st : Adding) (h : History)
          → AllRead items h
          → Safe
              (AddsDevices all_devices)
              StillRead
              h
              (add_passed node fill passes items st (fill device))
      unfolding add_passed
      add_passed-Safe st h all = elim (Bool-cases (is_enabled gpt_based_uuid node.gates)) [
        | inl g ↦ elim (Bool-cases (is_parent_or_slave (fill device) st.errored)) [
          | inl e ↦ rw (g, add_passed) (rw e all)
          | inr e ↦
              rw (g, add_passed)
                (rw e (
                  noted-Safe (AddsDevice node (fill device)) AnyResult (from_device device m p g)
                    (note_result (fill device) st) _ h all
                    (add_block_device-Safe node items st.cache (fill device) h all)))
        ]
        | inr g ↦ elim (Bool-cases (is_partition (fill device))) [
          | inl e ↦ rw (g, add_passed) (rw e all)
          | inr e ↦
              rw (g, add_passed)
                (rw e (
                  noted-Safe KeepsClaims Any KeepsClaims-AddsDevices (note_push st) _ h all
                    (push_local-Safe (fill device) h all)))
        ]
      ]

    add_device-Safe :
        (device : LocalDevice)
        → In device all_devices
        → (st : Adding) (h : History) → AllRead items h
        → Safe (AddsDevices all_devices) StillRead h (add_device node fill passes items st device)
    unfolding add_device
    add_device-Safe device m st h all = elim (Bool-cases (passes (fill device))) [
      | inl p ↦ rw (p, add_device) (add_passed-Safe device m p _ h all)
      | inr p ↦ rw (p, add_device) all
    ]

    add_devices-Safe :
        (devices : List LocalDevice)
        → ((device : LocalDevice) → In device devices → In device all_devices)
        → (st : Adding) (h : History) → AllRead items h
        → Safe (AddsDevices all_devices) StillRead h (add_devices node fill passes items devices st)
    unfolding add_devices
    add_devices-Safe [] among st h all = all
    add_devices-Safe (device ∷ devices) among st h all =
        Safe-handle (AddsDevices all_devices) StillRead (add_devices node fill passes items devices)
          (add_device node fill passes items st device) h
          (Safe-mono (AddsDevices all_devices) (AddsDevices all_devices) (λ h w a. a) StillRead
            (λ h' st'.
              Safe (AddsDevices all_devices) StillRead h'
                (add_devices node fill passes items devices st'))
            (λ h' st' all'. add_devices-Safe devices (λ d m. among d (inr m)) st' h' all')
            (add_device node fill passes items st device) h
            (add_device-Safe device (among device (inl refl)) st h all))

  abbrev pub AnyAdding : History → Adding → Type 0
  AnyAdding h st = Unit

  -- Whatever the probes, the API server and the disks answer, the handling of an add event writes a
  -- partition table only on a device of the event that passes the filters, has no identity, no
  -- partitions and no holders, is not used by mayastor, zfs-localpv, localpv or cstor, and was seen
  -- to be blank, and only with the feature GPTBasedUUID; and it creates resources without a claim or
  -- writes a resource that was read, with its claim left alone.
  pub add_block_device_event-Safe :
      (cache : Hierarchy) (devices : List LocalDevice)
      → Safe
          (AddsDevices devices)
          AnyAdding
          start
          (add_block_device_event node fill passes cache devices)
  unfolding add_block_device_event list_block_devices finish_list add_listed
  add_block_device_event-Safe cache devices = listed
    where
      listed :
          (r : Reply (List BlockDevice))
          → Safe
              (AddsDevices devices)
              AnyAdding
              (read_devices r start)
              (handle (finish_list r) (add_listed node fill passes cache devices))
      listed (err e) = tt
      listed (ok items) =
          Safe-mono (AddsDevices devices) (AddsDevices devices) (λ h w a. a)
            (StillRead devices (drop_disabled items)) AnyAdding (λ h st all. tt) _ _
            (add_devices-Safe devices (drop_disabled items) devices (λ d m. m) _ _
              (λ item m. In-append item items [] (drop_disabled-In items item m)))
