-- ===== src/Claim/Freed.antt =====
-- The release of a device, when its claim is deleted, makes only the writes that Claim/Allowed
-- describes.
use node_disk_manager.Base.{
  In-append, remove_string, ◌≢◌, String, ◌≡◌, Bool, Option, none, some, List, [], ◌∷◌, ◌++◌, refl,
  inl, inr, Bool-cases,
}
use node_disk_manager.Base.Int.{ℤ}
use node_disk_manager.Api.{BlockDevice, BlockDeviceClaim, LabelSelector, ClaimPhase}
use node_disk_manager.Cluster.Program.{
  Outcome, done, failed, Failure, Program, check_error, update_claim,
}
use node_disk_manager.Cluster.Safe.{
  Any, update_device-Safe, update_claim-Safe, list_devices-Safe, History, start, Safe, Then,
  Safe->>=,
}
use node_disk_manager.Claim.{
  released_device, empty_selector, bad_selector, api, get_list_of_devices, finalizer_handling,
  release_claimed_block_device, release_found, find_claimed, without_finalizer,
  block_device_claim_finalizer, is_live, is_only_protected,
}
use node_disk_manager.Claim.Allowed.{Allowed}
use node_disk_manager.Claim.Found.{find_claimed-HeldBy, not_live, only_protected}

-- what is known when the claim was read, and after the list request
abbrev pub having : BlockDeviceClaim → List BlockDevice → History
having bdc bds = record start { claim = some bdc; listed = bds }

module _ (as_int64 : String → ℤ × Bool) (valid_selector : LabelSelector → Bool) where
  pub get_list_of_devices-Safe :
      {B : Type 0} (f : List BlockDevice → Program (Outcome B))
      (post : History → Outcome B → Type 0) (fine : (h : History) (e : Failure) → post h (failed e))
      (bdc : BlockDeviceClaim) (selector : LabelSelector)
      → ((bds : List BlockDevice) → Safe (Allowed as_int64) post (having bdc (bds ++ [])) (f bds))
      → Safe
          (Allowed as_int64)
          (Then (Allowed as_int64) post f)
          (having bdc [])
          (get_list_of_devices valid_selector selector)
  unfolding get_list_of_devices
  get_list_of_devices-Safe f post fine bdc selector s =
      elim (Bool-cases (valid_selector selector)) [
        | inl e ↦ rw e (
            list_devices-Safe (Allowed as_int64) (having bdc []) _ s
              (λ x. fine (having bdc []) (api x)))
        | inr e ↦ rw e (fine (having bdc []) bad_selector)
      ]

  module _ (bdc : BlockDeviceClaim) (is_done : bdc.phase ≡ ClaimPhase.done)
      (deleted : bdc.meta.deletion_timestamp ≢ none)
      (alone : bdc.meta.finalizers ≡ block_device_claim_finalizer ∷ []) where
    -- the release, and the update that follows it
    release_found-Safe :
        (bds : List BlockDevice) (o : Outcome (Option BlockDevice))
        → find_claimed bdc bds ≡ o
        → Safe
            (Allowed as_int64)
            (Then (Allowed as_int64) Any (λ _. update_claim (without_finalizer bdc) check_error))
            (having bdc (bds ++ []))
            (release_found o)
    unfolding release_found remove_string
    release_found-Safe bds (failed e) f = tt
    release_found-Safe bds (done none) f = tt
    release_found-Safe bds (done (some bd)) f =
        let (m, held) = find_claimed-HeldBy bdc bds bd f in
        (
          (
            bdc,
            refl,
            bd,
            In-append bd bds [] m,
            record { same_name = refl; same_uid = refl; same_version = refl },
            inr (is_done, deleted, alone, held, refl, refl),
          ),
          update_device-Safe (Allowed as_int64) _ _ (released_device bd)
              (
                (
                  bdc,
                  refl,
                  inr (
                      inr (
                        is_done,
                        deleted,
                        rw alone refl,
                        released_device bd,
                        inl refl,
                        refl,
                        refl,
                      )),
                ),
                update_claim-Safe (Allowed as_int64) _ Any (λ _. tt),
              )
              (λ _. tt),
        )

  pub finalizer_handling-Safe :
      (bdc : BlockDeviceClaim)
      → bdc.phase ≡ ClaimPhase.done
      → Safe (Allowed as_int64) Any (having bdc []) (finalizer_handling valid_selector bdc)
  unfolding finalizer_handling release_claimed_block_device
  finalizer_handling-Safe bdc is_done = elim (Bool-cases (is_live bdc.meta)) [
    | inl e ↦ rw e tt
    | inr e ↦ rw e (elim (Bool-cases (is_only_protected bdc.meta.finalizers)) [
      | inl o ↦ rw o (
          Safe->>= (Allowed as_int64) Any (λ _. update_claim (without_finalizer bdc) check_error)
            (release_claimed_block_device valid_selector bdc) (having bdc [])
            (Safe->>= (Allowed as_int64) _ (λ bds. release_found (find_claimed bdc bds))
              (get_list_of_devices valid_selector empty_selector) (having bdc [])
              (get_list_of_devices-Safe (λ bds. release_found (find_claimed bdc bds))
                (Then (Allowed as_int64) Any
                  (λ _. update_claim (without_finalizer bdc) check_error))
                (λ _ _. tt) bdc empty_selector
                (λ bds.
                  release_found-Safe bdc is_done (not_live bdc.meta e)
                    (only_protected bdc.meta.finalizers o) bds (find_claimed bdc bds) refl))))
      | inr o ↦ rw o tt
    ])
  ]
