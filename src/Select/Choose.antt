-- ===== src/Select/Choose.antt =====
-- pkg/select/blockdevice/config.go and select.go.
use node_disk_manager.Base.{
  String, Bool, not, List, [], ◌∷◌, ◌++◌, StringMap, Option, ◌==◌, if◌then◌else◌,
}
use node_disk_manager.Base.Int.{ℤ}
use node_disk_manager.Api.{BlockDevice, DeviceClaimSpec}
use node_disk_manager.Select.Filters.{FilterKey, apply_filters}

pub data SelectError : Type 0 where
  no_blockdevices no_match no_resources : SelectError

pub data Selected : Type 0 where
  device : BlockDevice → Selected
  failed : SelectError → Selected

-- NewConfig; the client that it stores is never used
pub record Config : Type 0 where
  pub claim_spec : DeviceClaimSpec
  pub manual_selection : Bool

abbrev pub new_config : DeviceClaimSpec → Config
new_config spec = record {
  claim_spec = spec;
  manual_selection = not (spec.block_device_name == "");
}

-- the keys that getCandidateDevices applies
abbrev pub candidate_keys : Bool → List FilterKey
candidate_keys is_manual =
    (FilterKey.active ∷ FilterKey.unclaimed ∷ FilterKey.out_legacy_annotation
      ∷ FilterKey.block_device_tag ∷ [])
    ++ (if is_manual
        then FilterKey.block_device_name ∷ []
        else FilterKey.out_sparse_block_devices ∷ FilterKey.device_type ∷ FilterKey.volume_mode
          ∷ FilterKey.node_name ∷ [])

-- `&items[0]`, or the error where the list is empty
abbrev pub first_or : SelectError → List BlockDevice → Selected
first_or e [] = failed e
first_or e (bd ∷ _) = device bd

module _ (as_int64 : String → ℤ × Bool)
    (does_not_exist : String → Option (StringMap String → Bool)) where
  unfoldable pub get_candidate_devices : Config → List BlockDevice → List BlockDevice
  get_candidate_devices c bds =
      apply_filters as_int64 does_not_exist c.claim_spec bds (candidate_keys c.manual_selection)

  -- on the candidates, which are not empty
  unfoldable pub get_selected_device : Config → List BlockDevice → Selected
  get_selected_device c bds =
      if c.manual_selection
      then first_or no_match bds
      else first_or no_resources
          (apply_filters as_int64 does_not_exist c.claim_spec bds (FilterKey.resource_storage ∷ []))

  unfoldable pub select_candidate : Config → List BlockDevice → Selected
  select_candidate c [] = failed no_match
  select_candidate c (bd ∷ bds) = get_selected_device c (bd ∷ bds)

  -- Config.Filter
  unfoldable pub filter : Config → List BlockDevice → Selected
  unfolding select_candidate
  filter c [] = failed no_blockdevices
  filter c (bd ∷ bds) = select_candidate c (get_candidate_devices c (bd ∷ bds))
