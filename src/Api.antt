-- ===== src/Api.antt =====
-- api/v1alpha1: the BlockDevice and BlockDeviceClaim resources, with the Kubernetes metadata that
-- the operator and the daemon read or write. Numbers of the types uint64 and uint32 are ℕ.
-- Of ObjectMeta the fields that no code here touches (generateName, generation, and so on) are
-- left out; a missing map is the empty map, since no code tells the two apart but by creating one.
-- The typed strings are data types. The states of a BlockDevice have the values that the CRD's
-- validation admits; the phase of a claim and the volume mode, which it does not restrict, have
-- one more constructor for any other string.
use node_disk_manager.Base.{ℕ, String, Bool, true, false, Option, List, StringMap}

-- metav1.TypeMeta
pub record TypeMeta : Type 0 where
  pub kind : String
  pub api_version : String

-- metav1.ObjectMeta
pub record ObjectMeta : Type 0 where
  pub name : String
  pub namespace : String
  pub uid : String
  pub resource_version : ℕ
  pub deletion_timestamp : Option ℕ
  pub labels : StringMap String
  pub annotations : StringMap String
  pub finalizers : List String

-- v1.ObjectReference
pub record ObjectReference : Type 0 where
  pub kind : String
  pub namespace : String
  pub name : String
  pub uid : String
  pub api_version : String
  pub resource_version : ℕ

pub record NodeAttribute : Type 0 where
  pub node_name : String

pub record DeviceCapacity : Type 0 where
  pub storage : ℕ
  pub physical_sector_size : ℕ
  pub logical_sector_size : ℕ

pub record DeviceDetails : Type 0 where
  pub device_type : String
  pub drive_type : String
  pub logical_block_size : ℕ
  pub physical_block_size : ℕ
  pub hardware_sector_size : ℕ
  pub model : String
  pub compliance : String
  pub serial : String
  pub vendor : String
  pub firmware_revision : String

pub record FileSystemInfo : Type 0 where
  pub fs_type : String
  pub mountpoint : String

pub record DeviceDevLink : Type 0 where
  pub kind : String
  pub links : List String

pub record DeviceSpec : Type 0 where
  pub aggregate_device : String
  pub capacity : DeviceCapacity
  pub claim_ref : Option ObjectReference
  pub details : DeviceDetails
  pub dev_links : List DeviceDevLink
  pub file_system : FileSystemInfo
  pub node_attributes : NodeAttribute
  pub parent_device : String
  pub partitioned : String
  pub path : String

-- DeviceClaimState
pub data ClaimState : Type 0 where
  unclaimed released claimed : ClaimState

-- BlockDeviceState
pub data DeviceState : Type 0 where
  active inactive unknown : DeviceState

pub record DeviceStatus : Type 0 where
  pub claim_state : ClaimState
  pub state : DeviceState

pub record BlockDevice : Type 0 where
  pub type_meta : TypeMeta
  pub meta : ObjectMeta
  pub spec : DeviceSpec
  pub status : DeviceStatus

abbrev pub is_active : DeviceState → Bool
is_active active = true
is_active _ = false

abbrev pub is_unclaimed : ClaimState → Bool
is_unclaimed unclaimed = true
is_unclaimed _ = false

abbrev pub is_claimed : ClaimState → Bool
is_claimed claimed = true
is_claimed _ = false

-- BlockDeviceVolumeMode; `unset` is the empty string
pub data VolumeMode : Type 0 where
  unset block file_system : VolumeMode
  other_mode : String → VolumeMode

pub record DeviceClaimDetails : Type 0 where
  pub block_volume_mode : VolumeMode
  pub device_format : String
  pub allow_partition : Bool

pub record BlockDeviceNodeAttributes : Type 0 where
  pub node_name : String
  pub host_name : String

-- metav1.LabelSelectorRequirement
pub record SelectorRequirement : Type 0 where
  pub key : String
  pub operator : String
  pub values : List String

-- metav1.LabelSelector
pub record LabelSelector : Type 0 where
  pub match_labels : StringMap String
  pub match_expressions : List SelectorRequirement

-- `requests` maps a resource name to the text of its resource.Quantity.
pub record DeviceClaimSpec : Type 0 where
  pub selector : Option LabelSelector
  pub requests : StringMap String
  pub device_type : String
  pub host_name : String
  pub details : DeviceClaimDetails
  pub block_device_name : String
  pub block_device_node_attributes : BlockDeviceNodeAttributes

-- DeviceClaimPhase; `fresh` is the empty string and `done` is "Bound"
pub data ClaimPhase : Type 0 where
  fresh pending invalid_capacity done : ClaimPhase
  other_phase : String → ClaimPhase

pub record BlockDeviceClaim : Type 0 where
  pub type_meta : TypeMeta
  pub meta : ObjectMeta
  pub spec : DeviceClaimSpec
  pub phase : ClaimPhase
