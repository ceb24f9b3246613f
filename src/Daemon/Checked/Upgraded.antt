-- ===== src/Daemon/Checked/Upgraded.antt =====
-- The upgrade of the devices of localpv and cstor (upgradeBD in
-- cmd/ndm_daemonset/probe/addhandler.go).
use node_disk_manager.Base.{
  ◌∙◌, false, not, Bool-cases, Option, none, some, Option-cases, List, ◌≡◌, ◌⊎◌, ◌≢◌, inl, inr,
  refl, ◌||◌,
}
use node_disk_manager.Api.{BlockDevice, is_unclaimed}
use node_disk_manager.Cluster.Program.{Program, Outcome}
use node_disk_manager.Cluster.Safe.{History, Safe, Any}
use node_disk_manager.Store.Allowed.{KeepsClaims}
use node_disk_manager.Daemon.{Node, LocalDevice}
use node_disk_manager.Daemon.Uuid.{generate_uuid, generate_legacy_uuid}
use node_disk_manager.Daemon.Add.{
  existing_with_partition_uuid, existing_with_fs_uuid, create_or_update_with_partition_uuid,
  create_or_update_with_fs_uuid, is_used_by, is_local_pv, is_cstor, legacy_device, upgrade_legacy,
  existing_gpt, upgrade_in_use, upgrade_bd, with_uuid,
}
use node_disk_manager.Daemon.Sound.{
  partition_uuid-WasRead, create_or_update-Safe, fs_uuid-WasRead, existing-WasRead, WasRead,
  AllRead,
}
use node_disk_manager.Daemon.Checked.Unmanaged.{stop-Safe, OnlyIf}

module _ (node : Node) where
  -- Neither does an engine whose devices are upgraded, unless the device has an identity.
  abbrev pub IsUpgraded : LocalDevice → Type 0
  IsUpgraded bd =
      (generate_uuid node bd ≢ none)
      ⊎ ((is_used_by is_local_pv bd ≡ false) × (is_used_by is_cstor bd ≡ false))

  module _ (h : History) where
    existing_gpt-named :
        (bd : LocalDevice) (items : List BlockDevice) (item : BlockDevice)
        → existing_gpt node bd items ≡ some item
        → generate_uuid node bd ≢ none
    unfolding existing_gpt
    existing_gpt-named bd items item e n =
        let f : none ≡ some item = rw (n, existing_gpt) at e in absurd cc

    module _ (find : LocalDevice → List BlockDevice → Option BlockDevice)
        (push : LocalDevice → Option BlockDevice → Program (Outcome Unit)) (bd : LocalDevice)
        (items : List BlockDevice) (all : AllRead items h) (found : WasRead (find bd items) h)
        (pushed : (d : LocalDevice) (existing : Option BlockDevice)
          → WasRead existing h
          → Safe KeepsClaims Any h (push d existing)) where
      legacy_device-WasRead : WasRead (legacy_device node find push bd items) h
      unfolding legacy_device
      legacy_device-WasRead = λ item e. elim (Option-cases (find bd items)) [
        | inl n ↦
            existing-WasRead node items h all (generate_legacy_uuid node bd).0 item
              (rw (n, legacy_device) at e)
        | inr (x, n) ↦ found item (n ∙ (rw (n, legacy_device) at e))
      ]

      upgrade_legacy-Safe :
          (P : History → Type 0)
          → Safe KeepsClaims (OnlyIf P) h (upgrade_legacy node find push bd items)
      unfolding upgrade_legacy
      upgrade_legacy-Safe P = elim (Option-cases (legacy_device node find push bd items)) [
        | inl e ↦
            rw (e, upgrade_legacy)
              (stop-Safe h P _
                (pushed (with_uuid (generate_legacy_uuid node bd).0 bd) none (λ item n. absurd cc)))
        | inr (x, e) ↦
            elim (Bool-cases
              (not (is_unclaimed x.status.claim_state) || (generate_legacy_uuid node bd).1)) [
                | inl u ↦
                    rw (e, upgrade_legacy)
                      (rw u (
                        stop-Safe h P _ (
                          pushed (with_uuid x.meta.name bd) (some x)
                            (λ item n. legacy_device-WasRead item (e ∙ n)))))
                | inr u ↦ rw (e, upgrade_legacy) (rw u tt)
              ]
      ]

      upgrade_in_use-Safe :
          (P : History → Type 0)
          → ((generate_uuid node bd ≢ none) → P h)
          → Safe KeepsClaims (OnlyIf P) h (upgrade_in_use node find push bd items)
      unfolding upgrade_in_use
      upgrade_in_use-Safe P f = elim (Option-cases (existing_gpt node bd items)) [
        | inl e ↦ rw (e, upgrade_in_use) (upgrade_legacy-Safe _)
        | inr (x, e) ↦ elim (Bool-cases (not (is_unclaimed x.status.claim_state))) [
          | inl u ↦ rw (e, upgrade_in_use) (rw u (f (existing_gpt-named bd items x e)))
          | inr u ↦ rw (e, upgrade_in_use) (rw u tt)
        ]
      ]

    pub upgrade_bd-Safe :
        (bd : LocalDevice) (items : List BlockDevice)
        → AllRead items h
        → Safe KeepsClaims
            (OnlyIf (λ h'. IsUpgraded bd × AllRead items h'))
            h
            (upgrade_bd node bd items)
    unfolding upgrade_bd create_or_update_with_fs_uuid create_or_update_with_partition_uuid
    upgrade_bd-Safe bd items all = elim (Bool-cases (is_used_by is_local_pv bd)) [
      | inl e ↦
          rw (e, upgrade_bd)
            (upgrade_in_use-Safe existing_with_fs_uuid (create_or_update_with_fs_uuid node) bd items
              all (fs_uuid-WasRead node items h all bd)
              (λ d existing m. create_or_update-Safe node items h _ d existing m) _
              (λ p. (inl p, all)))
      | inr e ↦ elim (Bool-cases (is_used_by is_cstor bd)) [
        | inl f ↦
            rw (e, upgrade_bd)
              (rw f (
                upgrade_in_use-Safe existing_with_partition_uuid
                  (create_or_update_with_partition_uuid node) bd items all
                  (partition_uuid-WasRead node items h all bd)
                  (λ d existing m. create_or_update-Safe node items h _ d existing m) _
                  (λ p. (inl p, all))))
        | inr f ↦ rw (e, upgrade_bd) (rw f (inr (refl, refl), all))
      ]
    ]
