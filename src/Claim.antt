-- ===== src/Claim.antt =====
-- pkg/controllers/blockdeviceclaim/blockdeviceclaim_controller.go: the reconciler of claims.
-- Its laws are in Claim/Allowed and Claim/Sound. The claim that the source changes in place is
-- passed on here. Three functions of libraries are parameters: Quantity.AsInt64 and
-- labels.NewRequirement, as in Select, `reference`, which is reference.GetReference of client-go
-- with the scheme of the manager, and `valid_selector`, whether v1.LabelSelectorAsSelector
-- succeeds. The result is always the empty ctrl.Result, so only the error is kept.
pub mod Allowed
mod Found
mod Freed
pub mod Sound
pub mod Progress
mod Tests
use node_disk_manager.Base.{
  ℕ, String, Bool, true, false, not, ◌&&◌, Option, none, some, List, [], ◌∷◌, ◌++◌, ◌==◌, eqb,
  if◌then◌else◌, length, get_or, lookup, insert, contains, remove_string, StringMap,
}
use node_disk_manager.Base.Int.{ℤ}
use node_disk_manager.Api.{
  BlockDevice, BlockDeviceClaim, ObjectReference, LabelSelector, ObjectMeta, ClaimPhase, fresh,
  pending, invalid_capacity, other_phase, claimed, released, is_claimed,
}
use node_disk_manager.Cluster.Program.{
  Program, Reply, ok, err, ApiError, not_found, Outcome, done, failed, api, bad_selector,
  no_reference, nothing_to_release, nil_pointer, Failure, ret, get_claim, update_claim,
  update_device, list_devices, check, check_error, ◌>>=◌, ◌>>◌,
}
use node_disk_manager.Select.Filters.{get_requested_capacity}
use node_disk_manager.Select.Choose.{Selected, SelectError, device, filter, new_config}

abbrev pub block_device_finalizer : String
block_device_finalizer = "openebs.io/bd-protection"

abbrev pub block_device_claim_finalizer : String
block_device_claim_finalizer = "openebs.io/bdc-protection"

abbrev pub host_name_label : String
host_name_label = "kubernetes.io/hostname"

abbrev pub is_reconcile_disabled : ObjectMeta → Bool
is_reconcile_disabled meta = get_or (lookup "openebs.io/reconcile" meta.annotations) "" == "false"

-- DeletionTimestamp.IsZero()
abbrev pub is_live : ObjectMeta → Bool
is_live meta = elim meta.deletion_timestamp [ none ↦ true | some _ ↦ false ]

abbrev pub empty_selector : LabelSelector
empty_selector = record { match_labels = []; match_expressions = [] }

-- the host name of generateSelector
abbrev pub selector_host : BlockDeviceClaim → String
selector_host bdc =
    if bdc.spec.block_device_node_attributes.host_name == ""
    then bdc.spec.host_name
    else bdc.spec.block_device_node_attributes.host_name

unfoldable pub generate_selector : BlockDeviceClaim → LabelSelector
generate_selector bdc =
    let selector = get_or bdc.spec.selector empty_selector in
    if selector_host bdc == "" then selector else record selector {
      match_labels = insert host_name_label (selector_host bdc) selector.match_labels;
    }

-- isDeviceRequestedByThisDeviceClaim; it follows the pointer ClaimRef of a claimed device
unfoldable pub names_claim : BlockDeviceClaim → Option ObjectReference → Outcome Bool
names_claim bdc none = failed nil_pointer
names_claim bdc (some ref) =
    done (ref.name == bdc.meta.name && ref.uid == bdc.meta.uid && ref.kind == bdc.type_meta.kind)

unfoldable pub is_requested_by : BlockDeviceClaim → BlockDevice → Outcome Bool
unfolding names_claim
is_requested_by bdc item =
    if not (is_claimed item.status.claim_state)
    then done false
    else names_claim bdc item.spec.claim_ref

-- the loop of releaseClaimedBlockDevice
unfoldable pub find_claimed : BlockDeviceClaim → List BlockDevice → Outcome (Option BlockDevice)
find_claimed bdc [] = done none
find_claimed bdc (bd ∷ rest) = elim (is_requested_by bdc bd) [
  | failed e ↦ failed e
  | done true ↦ done (some bd)
  | done false ↦ find_claimed bdc rest
]

abbrev pub released_device : BlockDevice → BlockDevice
released_device bd = record bd {
  spec = record bd.spec { claim_ref = none };
  status = record bd.status { claim_state = released };
}

abbrev pub claimed_device : ObjectReference → BlockDevice → BlockDevice
claimed_device ref bd = record bd {
  meta = record bd.meta { finalizers = bd.meta.finalizers ++ block_device_finalizer ∷ [] };
  spec = record bd.spec { claim_ref = some ref };
  status = record bd.status { claim_state = claimed };
}

abbrev pub with_phase : ClaimPhase → BlockDeviceClaim → BlockDeviceClaim
with_phase phase bdc = record bdc { phase = phase }

-- the claim in memory after a device was selected
abbrev pub bound_to : BlockDevice → BlockDeviceClaim → BlockDeviceClaim
bound_to bd bdc = record bdc {
  spec = record bdc.spec { block_device_name = bd.meta.name };
  phase = ClaimPhase.done;
}

abbrev pub with_finalizer : BlockDeviceClaim → BlockDeviceClaim
with_finalizer bdc = record bdc {
  meta = record bdc.meta { finalizers = bdc.meta.finalizers ++ block_device_claim_finalizer ∷ [] };
}

abbrev pub without_finalizer : BlockDeviceClaim → BlockDeviceClaim
without_finalizer bdc = record bdc {
  meta = record bdc.meta {
    finalizers = remove_string bdc.meta.finalizers block_device_claim_finalizer;
  };
}

-- updateClaimStatus
unfoldable pub update_claim_status : ClaimPhase → BlockDeviceClaim → Program (Outcome Unit)
update_claim_status ClaimPhase.done bdc = update_claim (with_finalizer bdc) check_error
update_claim_status _ bdc = update_claim bdc check_error

unfoldable pub release_found : Outcome (Option BlockDevice) → Program (Outcome Unit)
release_found (failed e) = ret (failed e)
release_found (done none) = ret (failed nothing_to_release)
release_found (done (some bd)) = update_device (released_device bd) check_error

-- the test of FinalizerHandling on the finalizers of the claim
abbrev pub is_only_protected : List String → Bool
is_only_protected fs = eqb (length fs) 1 && contains fs block_device_claim_finalizer

module _ (valid_selector : LabelSelector → Bool) where
  -- getListofDevices
  unfoldable pub get_list_of_devices : LabelSelector → Program (Outcome (List BlockDevice))
  get_list_of_devices selector =
      if valid_selector selector then list_devices selector check else ret (failed bad_selector)

  unfoldable pub release_claimed_block_device : BlockDeviceClaim → Program (Outcome Unit)
  release_claimed_block_device bdc =
      get_list_of_devices empty_selector >>= (λ bds. release_found (find_claimed bdc bds))

  unfoldable pub finalizer_handling : BlockDeviceClaim → Program (Outcome Unit)
  finalizer_handling bdc =
      if is_live bdc.meta
      then ret (done tt)
      else if is_only_protected bdc.meta.finalizers
      then release_claimed_block_device bdc >> update_claim (without_finalizer bdc) check_error
      else ret (done tt)

module _ (reference : BlockDeviceClaim → Option ObjectReference) where
  -- claimBlockDevice
  unfoldable pub claim_block_device : BlockDevice → BlockDeviceClaim → Program (Outcome Unit)
  claim_block_device bd bdc = elim (reference bdc) [
    | none ↦ ret (failed no_reference)
    | some ref ↦ update_device (claimed_device ref bd) check_error
  ]

  -- the two branches after config.Filter
  unfoldable pub take_selected : BlockDeviceClaim → Selected → Program (Outcome Unit)
  take_selected bdc (Selected.failed _) = update_claim_status pending (with_phase pending bdc)
  take_selected bdc (device bd) =
      claim_block_device bd (bound_to bd bdc)
      >> update_claim_status ClaimPhase.done (bound_to bd bdc)

-- the capacity is checked in automatic selection only
abbrev pub has_bad_capacity : (String → ℤ × Bool) → BlockDeviceClaim → Bool
has_bad_capacity as_int64 bdc =
    bdc.spec.block_device_name == "" && not (get_requested_capacity as_int64 bdc.spec.requests).1

module _ (as_int64 : String → ℤ × Bool) (does_not_exist : String → Option (StringMap String → Bool))
    (reference : BlockDeviceClaim → Option ObjectReference)
    (valid_selector : LabelSelector → Bool) where
  -- claimDeviceForBlockDeviceClaim
  unfoldable pub claim_device_for_claim : BlockDeviceClaim → Program (Outcome Unit)
  claim_device_for_claim bdc =
      if has_bad_capacity as_int64 bdc
      then update_claim_status pending (with_phase pending bdc)
        >> ret (failed Failure.invalid_capacity)
      else get_list_of_devices valid_selector (generate_selector bdc) >>= (λ bds.
        take_selected reference bdc (filter as_int64 does_not_exist (new_config bdc.spec) bds))

  -- the switch of Reconcile
  unfoldable pub reconcile_phase : ClaimPhase → BlockDeviceClaim → Program (Outcome Unit)
  reconcile_phase pending bdc =
      if is_live bdc.meta then claim_device_for_claim bdc else ret (done tt)
  reconcile_phase fresh bdc = if is_live bdc.meta then claim_device_for_claim bdc else ret (done tt)
  -- the error of this update is only logged
  reconcile_phase invalid_capacity bdc = update_claim (with_phase pending bdc) (λ _. ret (done tt))
  reconcile_phase ClaimPhase.done bdc = finalizer_handling valid_selector bdc
  reconcile_phase (other_phase _) bdc = ret (done tt)

  unfoldable pub reconcile_claim : Reply BlockDeviceClaim → Program (Outcome Unit)
  reconcile_claim (err not_found) = ret (done tt)
  reconcile_claim (err e) = ret (failed (api e))
  reconcile_claim (ok bdc) =
      if is_reconcile_disabled bdc.meta then ret (done tt) else reconcile_phase bdc.phase bdc

  -- Reconcile
  unfoldable pub reconcile : String → Program (Outcome Unit)
  reconcile name = get_claim name reconcile_claim
