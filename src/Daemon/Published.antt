-- ===== src/Daemon/Published.antt =====
-- The resource of a device that has its identity is made, or brought up to date.
use node_disk_manager.Base.{
  Bool-cases, some, Option-cases, List, List-cases, ◌≡◌, inl, inr, refl, In, lookup,
}
use node_disk_manager.Api.{inactive, BlockDevice, is_unclaimed}
use node_disk_manager.Cluster.Program.{
  Program, Reply, ok, err, not_found, already_exists, conflict, other_error, Outcome,
}
use node_disk_manager.Cluster.Safe.{History, Safe, Any, read_device, wrote_device}
use node_disk_manager.Store.{existing_block_device, with_state}
use node_disk_manager.Store.Allowed.{KeepsClaims}
use node_disk_manager.Daemon.{Node, LocalDevice, Hierarchy}
use node_disk_manager.Daemon.Uuid.{generate_uuid}
use node_disk_manager.Daemon.Add.{is_partition, gpt_scheme, deactivate}
use node_disk_manager.Daemon.Publish.{publish_with_parent, publish_partition, publish_new, publish}
use node_disk_manager.Daemon.Sound.{
  AllRead, read_device-AllRead, existing-WasRead, create_or_update-Safe, create_if_no_holders-Safe,
}

module _ (node : Node) (items : List BlockDevice) where
  -- a resource that was read is made inactive
  pub deactivate-Safe :
      (h : History) (before : BlockDevice) (m : Program (Outcome Unit))
      → In before h.listed
      → ((r : Reply BlockDevice)
          → Safe KeepsClaims Any (wrote_device (with_state inactive before) r h) m)
      → Safe KeepsClaims Any h (deactivate before m)
  deactivate-Safe h before m read s = (
    (
      before,
      read,
      record { same_name = refl; same_uid = refl; same_version = refl },
      record { same_claim_state = refl; same_finalizers = refl; same_reference = inr refl },
    ),
    s,
  )

  wrote_device-AllRead :
      (h : History) (d : BlockDevice) (r : Reply BlockDevice)
      → AllRead items h
      → AllRead items (wrote_device d r h)
  wrote_device-AllRead h d (ok _) all = all
  wrote_device-AllRead h d (err _) all = all

  publish_with_parent-Safe :
      (bd : LocalDevice) (h : History)
      → AllRead items h
      → (r : Reply BlockDevice)
      → Safe KeepsClaims Any (read_device r h) (publish_with_parent node bd items r)
  unfolding publish_with_parent
  publish_with_parent-Safe bd h all (err not_found) = create_if_no_holders-Safe node items h bd all
  publish_with_parent-Safe bd h all (err already_exists) = tt
  publish_with_parent-Safe bd h all (err conflict) = tt
  publish_with_parent-Safe bd h all (err other_error) = tt
  publish_with_parent-Safe bd h all (ok parent) =
      elim (Bool-cases (is_unclaimed parent.status.claim_state)) [
        | inr e ↦ rw e tt
        | inl e ↦ rw e (
            deactivate-Safe (read_device (ok parent) h) parent _ (inl refl) (λ r.
              create_or_update-Safe node items _ gpt_scheme bd (existing_block_device items bd.uuid)
                (existing-WasRead node items
                  (wrote_device (with_state inactive parent) r (read_device (ok parent) h))
                  (wrote_device-AllRead (read_device (ok parent) h) (with_state inactive parent) r
                    (read_device-AllRead items h (ok parent) all))
                  bd.uuid)))
      ]

  publish_partition-Safe :
      (cache : Hierarchy) (bd : LocalDevice) (h : History)
      → AllRead items h
      → Safe KeepsClaims Any h (publish_partition node cache bd items)
  unfolding publish_partition
  publish_partition-Safe cache bd h all =
      elim (Option-cases (lookup bd.dependent_devices.parent cache)) [
        | inl e ↦ rw (e, publish_partition) tt
        | inr (parent, e) ↦ elim (Option-cases (generate_uuid node parent)) [
          | inl f ↦ rw (e, publish_partition) (rw f (create_if_no_holders-Safe node items h bd all))
          | inr (uuid, f) ↦
              rw (e, publish_partition) (rw f (λ r. publish_with_parent-Safe bd h all r))
        ]
      ]

  publish_new-Safe :
      (cache : Hierarchy) (bd : LocalDevice) (h : History)
      → AllRead items h
      → Safe KeepsClaims Any h (publish_new node cache bd items)
  unfolding publish_new
  publish_new-Safe cache bd h all = elim (Bool-cases (is_partition bd)) [
    | inl e ↦ rw (e, publish_new) (publish_partition-Safe cache bd h all)
    | inr e ↦ elim (List-cases bd.dependent_devices.partitions) [
      | inl f ↦ rw (e, publish_new) (rw f (create_if_no_holders-Safe node items h bd all))
      | inr (_, _, f) ↦ rw (e, publish_new) (rw f tt)
    ]
  ]

  pub publish-Safe :
      (cache : Hierarchy) (bd : LocalDevice) (h : History)
      → AllRead items h
      → (r : Reply BlockDevice)
      → Safe KeepsClaims Any (read_device r h) (publish node cache bd items r)
  unfolding publish
  publish-Safe cache bd h all (err not_found) = publish_new-Safe cache bd h all
  publish-Safe cache bd h all (err already_exists) = tt
  publish-Safe cache bd h all (err conflict) = tt
  publish-Safe cache bd h all (err other_error) = tt
  publish-Safe cache bd h all (ok d) =
      create_or_update-Safe node items (read_device (ok d) h) gpt_scheme bd _ (λ item e.
        elim (Bool-cases (is_unclaimed d.status.claim_state)) [
          | inl u ↦
              let f : existing_block_device items bd.uuid ≡ some item = rw u at e in
              inr (existing-WasRead node items h all bd.uuid item f)
          | inr u ↦ let f : some d ≡ some item = rw u at e in inl cc
        ])
