-- ===== src/Claim/Progress.antt =====
-- What Reconcile of claims does when the API server accepts its writes.
use node_disk_manager.Base.{
  contains, String, ◌≡◌, ◌≢◌, ◌⊎◌, Bool, true, false, Option, none, some, List, [], ◌∷◌, In, refl,
  inl, inr, Option-cases, StringMap, ap, ◌∙◌,
}
use node_disk_manager.Base.Int.{ℤ}
use node_disk_manager.Api.{
  claimed, BlockDevice, BlockDeviceClaim, ObjectReference, LabelSelector, ClaimPhase, fresh,
  pending,
}
use node_disk_manager.Cluster.Program.{
  Outcome, done, ok, Program, check, check_error, update_device, update_claim, ◌>>=◌, ◌>>◌,
}
use node_disk_manager.Cluster.Safe.{claim_write, device_write}
use node_disk_manager.Cluster.Run.{Replies, run, sends}
use node_disk_manager.Select.Choose.{device, filter, new_config}
use node_disk_manager.Select.Eligible.{BuildsTagRequirement}
use node_disk_manager.Select.Sound.{Satisfies, filter_sound, filter_complete}
use node_disk_manager.Claim.{
  without_finalizer, released_device, find_claimed, is_only_protected, is_live, release_found,
  release_claimed_block_device, empty_selector, finalizer_handling, block_device_claim_finalizer,
  reconcile, reconcile_claim, reconcile_phase, claim_device_for_claim, get_list_of_devices,
  take_selected, claim_block_device, update_claim_status, claimed_device, with_finalizer, bound_to,
  is_reconcile_disabled, has_bad_capacity, generate_selector,
}
use node_disk_manager.Claim.Allowed.{HeldBy}
use node_disk_manager.Claim.Found.{HeldBy-find_claimed, find_claimed-HeldBy, dead}

module _ (as_int64 : String → ℤ × Bool) (does_not_exist : String → Option (StringMap String → Bool))
    (reference : BlockDeviceClaim → Option ObjectReference) (valid_selector : LabelSelector → Bool)
    (s : Replies)
    (accepts_claim : (c : BlockDeviceClaim) → (c' : BlockDeviceClaim) × (s.claim_update c ≡ ok c'))
    (accepts_device : (d : BlockDevice) → (d' : BlockDevice) × (s.device_update d ≡ ok d'))
    (name : String) (bdc : BlockDeviceClaim) (bds : List BlockDevice) (read : s.claim name ≡ ok bdc)
    (enabled : is_reconcile_disabled bdc.meta ≡ false) where
  abbrev reconciling : ClaimPhase → Program (Outcome Unit)
  reconciling phase = reconcile_phase as_int64 does_not_exist reference valid_selector phase bdc

  run-reconcile :
      run s (reconcile as_int64 does_not_exist reference valid_selector name)
      ≡ run s (reconciling bdc.phase)
  unfolding reconcile reconcile_claim
  run-reconcile =
      ap (λ r. run s (reconcile_claim as_int64 does_not_exist reference valid_selector r)) read
      ∙ rw enabled refl

  run-get_list_of_devices :
      (selector : LabelSelector) (f : List BlockDevice → Program (Outcome Unit))
      → valid_selector selector ≡ true
      → s.devices selector ≡ ok bds
      → run s (get_list_of_devices valid_selector selector >>= f) ≡ run s (f bds)
  unfolding get_list_of_devices
  run-get_list_of_devices selector f valid listed =
      rw (valid, get_list_of_devices) (ap (λ r. run s (check r >>= f)) listed)

  update_device_run :
      (d : BlockDevice) (f : Unit → Program (Outcome Unit))
      → run s (update_device d check_error >>= f) ≡ sends (device_write d) (run s (f tt))
  update_device_run d f =
      ap (λ r. sends (device_write d) (run s (check_error r >>= f))) (accepts_device d).1

  update_claim_run :
      (c : BlockDeviceClaim) → run s (update_claim c check_error) ≡ (claim_write c ∷ [], done tt)
  update_claim_run c = ap (λ r. sends (claim_write c) (run s (check_error r))) (accepts_claim c).1

  module _ (no_deletion : bdc.meta.deletion_timestamp ≡ none)
      (has_capacity : has_bad_capacity as_int64 bdc ≡ false)
      (valid : valid_selector (generate_selector bdc) ≡ true)
      (listed : s.devices (generate_selector bdc) ≡ ok bds) where
    claim_run :
        (bd : BlockDevice) (ref : ObjectReference)
        → filter as_int64 does_not_exist (new_config bdc.spec) bds ≡ device bd
        → reference (bound_to bd bdc) ≡ some ref
        → run s (claim_device_for_claim as_int64 does_not_exist reference valid_selector bdc) ≡ (
          device_write (claimed_device ref bd)
              ∷ claim_write (with_finalizer (bound_to bd bdc))
              ∷ [],
          done tt,
        )
    unfolding claim_device_for_claim take_selected claim_block_device update_claim_status
    claim_run bd ref chosen is_ref = rw has_capacity (
        run-get_list_of_devices (generate_selector bdc) _ valid listed
        ∙ (rw chosen (
            rw (is_ref, claim_block_device)
              (update_device_run (claimed_device ref bd) _
                ∙ ap (sends (device_write (claimed_device ref bd)))
                    (update_claim_run (with_finalizer (bound_to bd bdc)))))))

    phase_run :
        (bdc.phase ≡ fresh) ⊎ (bdc.phase ≡ pending)
        → run s (reconciling bdc.phase)
          ≡ run s (claim_device_for_claim as_int64 does_not_exist reference valid_selector bdc)
    unfolding reconcile_phase
    phase_run (inl p) = ap (λ q. run s (reconciling q)) p ∙ rw no_deletion refl
    phase_run (inr p) = ap (λ q. run s (reconciling q)) p ∙ rw no_deletion refl

    -- A claim that waits, is not being deleted, has no bad capacity and is not disabled for
    -- reconciliation, with a device in the list that satisfies it: where the server returns the claim
    -- and the list and accepts the writes, the claim's selector converts, the DoesNotExist
    -- requirement is built and a reference can be made, Reconcile writes exactly two objects. First a
    -- device of the list that satisfies the claim, with the claim's reference, the finalizer and the
    -- state claimed; then the claim, bound to that device, with its own finalizer. It returns no
    -- error.
    pub reconcile_binds :
        (bd : BlockDevice)
        → In bd bds
        → Satisfies as_int64 bdc.spec bd
        → BuildsTagRequirement does_not_exist
        → ((c : BlockDeviceClaim) → reference c ≢ none)
        → (bdc.phase ≡ fresh) ⊎ (bdc.phase ≡ pending)
        → (found : BlockDevice) × (ref : ObjectReference) × In found bds
          × Satisfies as_int64 bdc.spec found
          × (reference (bound_to found bdc) ≡ some ref)
          × (run s (reconcile as_int64 does_not_exist reference valid_selector name) ≡ (
            device_write (claimed_device ref found)
                ∷ claim_write (with_finalizer (bound_to found bdc))
                ∷ [],
            done tt,
          ))
    reconcile_binds bd m fits builds refs waiting =
        let (found, chosen) =
          filter_complete as_int64 does_not_exist builds bdc.spec bds bd m fits in
        let (i, sat) = filter_sound as_int64 does_not_exist builds bdc.spec bds found chosen in
        elim (Option-cases (reference (bound_to found bdc))) [
          | inl n ↦ absurd (refs (bound_to found bdc) n)
          | inr (ref, is_ref) ↦ (
            found,
            ref,
            i,
            sat,
            is_ref,
            run-reconcile ∙ phase_run waiting ∙ claim_run found ref chosen is_ref,
          )
        ]

  -- the update that finalizer_handling ends with
  release_run :
      (bd : BlockDevice)
      → bdc.phase ≡ ClaimPhase.done
      → is_live bdc.meta ≡ false
      → is_only_protected bdc.meta.finalizers ≡ true
      → valid_selector empty_selector ≡ true
      → s.devices empty_selector ≡ ok bds
      → find_claimed bdc bds ≡ done (some bd)
      → run s (reconciling bdc.phase)
        ≡ (device_write (released_device bd) ∷ claim_write (without_finalizer bdc) ∷ [], done tt)
  unfolding reconcile_phase finalizer_handling release_claimed_block_device release_found
      get_list_of_devices
  release_run bd p deleted alone valid listed f =
      ap (λ q. run s (reconciling q)) p
      ∙ rw (deleted, finalizer_handling)
          (rw (alone, finalizer_handling)
            (rw (valid, get_list_of_devices)
              (ap
                  (λ r. run s (
                    (check r >>= (λ ds. release_found (find_claimed bdc ds)))
                    >> update_claim (without_finalizer bdc) check_error))
                  listed
                ∙ (rw (f, release_found)
                    (update_device_run (released_device bd) _
                      ∙ ap (sends (device_write (released_device bd)))
                          (update_claim_run (without_finalizer bdc)))))))

  -- A bound claim that is being deleted, has only its own finalizer left and is not disabled for
  -- reconciliation, with a device in the list that it holds, where no claimed device of the list
  -- lacks its reference: where the server returns the claim and the list and accepts the writes, and
  -- the empty selector converts, Reconcile writes exactly two objects. First a device of the list
  -- that the claim holds, released and without its reference; then the claim without the finalizer.
  -- It returns no error.
  pub reconcile_frees :
      (bd : BlockDevice)
      → bdc.phase ≡ ClaimPhase.done
      → bdc.meta.deletion_timestamp ≢ none
      → bdc.meta.finalizers ≡ block_device_claim_finalizer ∷ []
      → valid_selector empty_selector ≡ true
      → s.devices empty_selector ≡ ok bds
      → ((d : BlockDevice) → In d bds → d.status.claim_state ≡ claimed → d.spec.claim_ref ≢ none)
      → In bd bds
      → HeldBy bdc bd
      → (found : BlockDevice) × In found bds
        × HeldBy bdc found
        × (run s (reconcile as_int64 does_not_exist reference valid_selector name) ≡ (
          device_write (released_device found) ∷ claim_write (without_finalizer bdc) ∷ [],
          done tt,
        ))
  unfolding contains
  reconcile_frees bd p deleted alone valid listed refs m held =
      let (found, f) = HeldBy-find_claimed bdc bds bd refs m held in
      let (i, by) = find_claimed-HeldBy bdc bds found f in
      (
        found,
        i,
        by,
        run-reconcile ∙ release_run found p (dead bdc.meta deleted) (rw alone refl) valid listed f,
      )
