-- ===== src/Claim/Sound.antt =====
-- The reconciler of claims makes only the writes that Claim/Allowed describes.
use node_disk_manager.Base.{
  In-snoc, In-append, String, ◌≡◌, Bool, Option, none, some, List, [], ◌++◌, refl, inl, inr,
  Bool-cases, Option-cases, StringMap,
}
use node_disk_manager.Base.Int.{ℤ}
use node_disk_manager.Api.{
  BlockDevice, BlockDeviceClaim, ObjectReference, LabelSelector, ClaimPhase, fresh, pending,
  invalid_capacity, other_phase,
}
use node_disk_manager.Cluster.Program.{
  Outcome, done, failed, Failure, ok, err, already_exists, conflict, other_error, not_found, ret,
}
use node_disk_manager.Cluster.Safe.{
  Any, update_device-Safe, update_claim-Safe, History, start, Safe, Then, Safe->>=,
}
use node_disk_manager.Select.Choose.{Selected, device, filter, new_config}
use node_disk_manager.Select.Eligible.{BuildsTagRequirement}
use node_disk_manager.Select.Sound.{filter_sound}
use node_disk_manager.Claim.{
  with_phase, claimed_device, get_list_of_devices, is_live, claim_block_device, bound_to,
  update_claim_status, take_selected, claim_device_for_claim, has_bad_capacity, generate_selector,
  reconcile_phase, reconcile, reconcile_claim, is_reconcile_disabled,
}
use node_disk_manager.Claim.Allowed.{Allowed, IsWaiting, RefersTo}
use node_disk_manager.Claim.Found.{live}
use node_disk_manager.Claim.Freed.{get_list_of_devices-Safe, finalizer_handling-Safe, having}

module _ (as_int64 : String → ℤ × Bool) (does_not_exist : String → Option (StringMap String → Bool))
    (reference : BlockDeviceClaim → Option ObjectReference) (valid_selector : LabelSelector → Bool)
    (builds : BuildsTagRequirement does_not_exist)
    (refers : (bdc : BlockDeviceClaim) (ref : ObjectReference)
      → reference bdc ≡ some ref
      → RefersTo bdc ref) where
  module _ (bdc : BlockDeviceClaim) (waiting : IsWaiting bdc.phase)
      (no_deletion : bdc.meta.deletion_timestamp ≡ none) where
    -- an error that is returned after whatever went before
    given_up :
        (x : Failure) (h : History) (o : Outcome Unit)
        → Then (Allowed as_int64) Any (λ (_ : Unit). ret (failed x)) h o
    given_up x h (done _) = tt
    given_up x h (failed _) = tt

    -- the device that was taken, and the claim bound to it
    claim_block_device-Safe :
        (bds : List BlockDevice) (bd : BlockDevice)
        → filter as_int64 does_not_exist (new_config bdc.spec) bds ≡ device bd
        → Safe
            (Allowed as_int64)
            (Then
              (Allowed as_int64)
              Any
              (λ _. update_claim_status ClaimPhase.done (bound_to bd bdc)))
            (having bdc (bds ++ []))
            (claim_block_device reference bd (bound_to bd bdc))
    unfolding claim_block_device update_claim_status
    claim_block_device-Safe bds bd f = elim (Option-cases (reference (bound_to bd bdc))) [
      | inl n ↦ rw (n, claim_block_device) tt
      | inr (ref, is_ref) ↦
          rw (is_ref, claim_block_device)
            (let r = refers (bound_to bd bdc) ref is_ref in
              let (m, fits) = filter_sound as_int64 does_not_exist builds bdc.spec bds bd f in
              let refs : RefersTo bdc ref = record {
                same_name = r.same_name;
                same_uid = r.same_uid;
                same_kind = r.same_kind;
              } in
              (
                (
                  bdc,
                  refl,
                  bd,
                  In-append bd bds [] m,
                  record { same_name = refl; same_uid = refl; same_version = refl },
                  inl (waiting, no_deletion, fits, (refl, ref, refl, refs), In-snoc _ _),
                ),
                update_device-Safe (Allowed as_int64) _ _ (claimed_device ref bd)
                    (
                      (
                        bdc,
                        refl,
                        inr (
                            inl (
                              waiting,
                              no_deletion,
                              refl,
                              In-snoc _ _,
                              claimed_device ref bd,
                              inl refl,
                              refl,
                              (refl, ref, refl, refs),
                            )),
                      ),
                      update_claim-Safe (Allowed as_int64) _ Any (λ _. tt),
                    )
                    (λ _. tt),
              ))
    ]

    take_selected-Safe :
        (bds : List BlockDevice) (o : Selected)
        → filter as_int64 does_not_exist (new_config bdc.spec) bds ≡ o
        → Safe (Allowed as_int64) Any (having bdc (bds ++ [])) (take_selected reference bdc o)
    unfolding take_selected update_claim_status
    take_selected-Safe bds (Selected.failed _) f = (
      (bdc, refl, inl (waiting, refl, refl, refl)),
      update_claim-Safe (Allowed as_int64) _ Any (λ _. tt),
    )
    take_selected-Safe bds (device bd) f =
        Safe->>= (Allowed as_int64) Any _ (claim_block_device reference bd (bound_to bd bdc))
          (having bdc (bds ++ [])) (claim_block_device-Safe bds bd f)

    claim_device_for_claim-Safe :
        Safe
          (Allowed as_int64)
          Any
          (having bdc [])
          (claim_device_for_claim as_int64 does_not_exist reference valid_selector bdc)
    unfolding claim_device_for_claim update_claim_status
    claim_device_for_claim-Safe = elim (Bool-cases (has_bad_capacity as_int64 bdc)) [
      | inl e ↦ rw e (
          Safe->>= (Allowed as_int64) Any (λ _. ret (failed Failure.invalid_capacity))
            (update_claim_status pending (with_phase pending bdc)) (having bdc [])
            (
              (bdc, refl, inl (waiting, refl, refl, refl)),
              update_claim-Safe (Allowed as_int64) (having bdc [])
                  (Then (Allowed as_int64) Any (λ _. ret (failed Failure.invalid_capacity)))
                  (given_up Failure.invalid_capacity (having bdc [])),
            ))
      | inr e ↦ rw e (
          Safe->>= (Allowed as_int64) Any _
            (get_list_of_devices valid_selector (generate_selector bdc)) (having bdc [])
            (get_list_of_devices-Safe as_int64 valid_selector _ Any (λ _ _. tt) bdc
              (generate_selector bdc) (λ bds. take_selected-Safe bds _ refl)))
    ]

  reconcile_phase-Safe :
      (phase : ClaimPhase) (bdc : BlockDeviceClaim)
      → bdc.phase ≡ phase
      → Safe
          (Allowed as_int64)
          Any
          (having bdc [])
          (reconcile_phase as_int64 does_not_exist reference valid_selector phase bdc)
  unfolding reconcile_phase
  reconcile_phase-Safe pending bdc p = elim (Bool-cases (is_live bdc.meta)) [
    | inl e ↦ rw e (claim_device_for_claim-Safe bdc (rw p tt) (live bdc.meta e))
    | inr e ↦ rw e tt
  ]
  reconcile_phase-Safe fresh bdc p = elim (Bool-cases (is_live bdc.meta)) [
    | inl e ↦ rw e (claim_device_for_claim-Safe bdc (rw p tt) (live bdc.meta e))
    | inr e ↦ rw e tt
  ]
  reconcile_phase-Safe invalid_capacity bdc p =
      ((bdc, refl, inl (rw p tt, refl, refl, refl)), λ r. tt)
  reconcile_phase-Safe ClaimPhase.done bdc p = finalizer_handling-Safe as_int64 valid_selector bdc p
  reconcile_phase-Safe (other_phase _) bdc p = tt

  -- Whatever the API server answers, each write of Reconcile is one of these. A device that was
  -- listed in this run and satisfies the claim, which waits and is not being deleted, becomes
  -- claimed, refers to the claim and is protected by the finalizer. A device that was listed and is
  -- held by the claim becomes released without a reference, where the claim is bound, is being
  -- deleted and has no other finalizer. Both are sent with the name, the uid and the resource
  -- version that were read. The claim becomes pending with its metadata and spec unchanged, or it
  -- becomes bound to a device that was before written with success as held by it, or its last
  -- finalizer is removed after a device was written with success as released. It assumes that
  -- GetReference returns a reference to its object, and that the DoesNotExist requirement is built.
  pub reconcile-Safe :
      (name : String)
      → Safe
          (Allowed as_int64)
          Any
          start
          (reconcile as_int64 does_not_exist reference valid_selector name)
  unfolding reconcile reconcile_claim
  reconcile-Safe name (err not_found) = tt
  reconcile-Safe name (err already_exists) = tt
  reconcile-Safe name (err conflict) = tt
  reconcile-Safe name (err other_error) = tt
  reconcile-Safe name (ok bdc) = elim (Bool-cases (is_reconcile_disabled bdc.meta)) [
    | inl e ↦ rw e tt
    | inr e ↦ rw e (reconcile_phase-Safe bdc.phase bdc refl)
  ]
