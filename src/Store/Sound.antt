-- ===== src/Store/Sound.antt =====
-- The daemon never changes a claim on a device.
use node_disk_manager.Base.{
  List, ◌∷◌, [], Option, none, some, String, ◌≡◌, true, In, refl, inl, inr, Bool-cases,
}
use node_disk_manager.Api.{BlockDevice, ClaimState, unclaimed, is_unclaimed}
use node_disk_manager.Cluster.Program.{
  Failure, not_found, already_exists, conflict, other_error, ret, ◌>>=◌, Reply, ok, err, Outcome,
  done, failed, api, check,
}
use node_disk_manager.Cluster.Safe.{
  start, Safe-handle, Any, History, Safe, update_device-Safe, read_device,
}
use node_disk_manager.Store.{
  update_block_device, create_block_device, update_existing, update_again, push_block_device,
  merge_block_device_data, merge_metadata, update_merged,
}
use node_disk_manager.Claim.Allowed.{SameVersion}
use node_disk_manager.Store.Allowed.{KeepsClaims, KeepsClaim}

unclaimed_of : (s : ClaimState) → is_unclaimed s ≡ true → s ≡ unclaimed
unclaimed_of unclaimed e = refl
unclaimed_of ClaimState.released e = absurd cc
unclaimed_of ClaimState.claimed e = absurd cc

module _ (bd : BlockDevice) (new : bd.status.claim_state ≡ unclaimed) where
  merge-KeepsClaim : (old_bd : BlockDevice) → KeepsClaim old_bd (merge_block_device_data bd old_bd)
  unfolding merge_block_device_data merge_metadata
  merge-KeepsClaim old_bd = elim (Bool-cases (is_unclaimed old_bd.status.claim_state)) [
    | inl free ↦
        let u = unclaimed_of old_bd.status.claim_state free in
        rw free (record { same_claim_state = cc; same_finalizers = refl; same_reference = inl u })
    | inr used ↦
        rw used
          (record { same_claim_state = refl; same_finalizers = refl; same_reference = inr refl })
  ]

  merge-SameVersion :
      (old_bd : BlockDevice) → SameVersion old_bd (merge_block_device_data bd old_bd)
  unfolding merge_block_device_data merge_metadata
  merge-SameVersion old_bd = elim (Bool-cases (is_unclaimed old_bd.status.claim_state)) [
    | inl free ↦ rw free (record { same_name = refl; same_uid = refl; same_version = refl })
    | inr used ↦ rw used (record { same_name = refl; same_uid = refl; same_version = refl })
  ]

  update_merged-Safe :
      (post : History → Outcome Unit → Type 0) (h : History) (old_bd : BlockDevice)
      → In old_bd h.listed
      → ((h' : History) (o : Outcome Unit) → post h' o)
      → Safe KeepsClaims post h (update_merged bd old_bd)
  unfolding update_merged
  update_merged-Safe post h old_bd m all = (
    (old_bd, m, merge-SameVersion old_bd, merge-KeepsClaim old_bd),
    update_device-Safe KeepsClaims h post (merge_block_device_data bd old_bd) (all _ (done tt))
        (λ e. all h (failed (api e))),
  )

  -- UpdateBlockDevice with a Get first
  pub update_block_device-Safe :
      (post : History → Outcome Unit → Type 0) (h : History)
      → ((h' : History) (o : Outcome Unit) → post h' o)
      → (r : Reply BlockDevice)
      → Safe KeepsClaims post (read_device r h) (check r >>= update_merged bd)
  update_block_device-Safe post h all (ok old_bd) =
      update_merged-Safe post (read_device (ok old_bd) h) old_bd (inl refl) all
  update_block_device-Safe post h all (err e) = all h (failed (api e))

  update_again-Safe : (h : History) (o : Outcome Unit) → Safe KeepsClaims Any h (update_again bd o)
  unfolding update_again update_block_device
  update_again-Safe h (done _) = tt
  update_again-Safe h (failed (api conflict)) =
      Safe-handle KeepsClaims Any (λ _. ret (done tt)) (update_block_device bd none) h
        (λ r. update_block_device-Safe (λ h' o. Unit) h (λ h' o. tt) r)
  update_again-Safe h (failed (api not_found)) = tt
  update_again-Safe h (failed (api already_exists)) = tt
  update_again-Safe h (failed (api other_error)) = tt
  update_again-Safe h (failed Failure.bad_selector) = tt
  update_again-Safe h (failed Failure.invalid_capacity) = tt
  update_again-Safe h (failed Failure.no_reference) = tt
  update_again-Safe h (failed Failure.nothing_to_release) = tt
  update_again-Safe h (failed Failure.nil_pointer) = tt
  update_again-Safe h (failed Failure.disk_error) = tt
  update_again-Safe h (failed Failure.unreachable_state) = tt
  update_again-Safe h (failed Failure.no_parent) = tt
  update_again-Safe h (failed Failure.no_identity) = tt
  update_again-Safe h (failed Failure.bad_label) = tt
  update_again-Safe h (failed Failure.need_rescan) = tt

  update_existing-Safe :
      (h : History) (r : Reply BlockDevice) → Safe KeepsClaims Any h (update_existing bd r)
  unfolding update_existing update_block_device
  update_existing-Safe h (ok _) = tt
  update_existing-Safe h (err already_exists) =
      Safe-handle KeepsClaims Any (update_again bd) (update_block_device bd none) h (λ r.
        update_block_device-Safe (λ h' o. Safe KeepsClaims Any h' (update_again bd o)) h
          update_again-Safe r)
  update_existing-Safe h (err not_found) = tt
  update_existing-Safe h (err conflict) = tt
  update_existing-Safe h (err other_error) = tt

-- A new resource that is unclaimed is pushed over a resource that was read, or over none.
pub push_known-Safe :
    (namespace : String) (old_bd : Option BlockDevice) (bd : BlockDevice)
    → bd.status.claim_state ≡ unclaimed
    → (h : History) → ((item : BlockDevice) → old_bd ≡ some item → In item h.listed)
    → Safe KeepsClaims Any h (push_block_device namespace old_bd bd)
unfolding push_block_device create_block_device update_block_device
push_known-Safe namespace none bd new h m = (
  new,
  update_existing-Safe (record bd { meta = record bd.meta { namespace = namespace } }) new h,
)
push_known-Safe namespace (some old_bd) bd new h m =
    update_merged-Safe bd new Any h old_bd (m old_bd refl) (λ h' o. tt)

-- the resource that the caller already has
abbrev pub known : Option BlockDevice → List BlockDevice
known none = []
known (some old_bd) = old_bd ∷ []

-- For a new resource that is unclaimed, as the daemon makes them, and whatever the API server
-- answers: PushBlockDeviceResource creates a device without a claim, or it writes a device that it
-- was given or has read, with the name, the uid and the resource version of that, the same claim
-- state and finalizers, and the same reference to a claim if the device is in use.
pub push_block_device-Safe :
    (namespace : String) (old_bd : Option BlockDevice) (bd : BlockDevice)
    → bd.status.claim_state ≡ unclaimed
    → Safe KeepsClaims Any
        (record start { listed = known old_bd })
        (push_block_device namespace old_bd bd)
push_block_device-Safe namespace none bd new =
    push_known-Safe namespace none bd new _ (λ item e. absurd cc)
push_block_device-Safe namespace (some old_bd) bd new =
    push_known-Safe namespace (some old_bd) bd new _ (λ item e. inl cc)
