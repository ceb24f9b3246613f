-- ===== src/Select/Filters.antt =====
-- pkg/select/blockdevice/filters.go and pkg/select/verify/resourceverify.go.
-- `as_int64` is Quantity.AsInt64 of apimachinery on the text of a quantity, and `does_not_exist`
-- is labels.NewRequirement with the operator DoesNotExist: a test on a label set, or none where
-- it returns an error.
use Prim.Native.Char.{code}
use node_disk_manager.Base.{
  ℕ, String, get_or, Bool, true, false, not, ◌&&◌, ◌||◌, Option, none, some, List, [], ◌∷◌, keep,
  lookup, StringMap, ◌==◌, leb, eqb, is_some, if◌then◌else◌,
}
use node_disk_manager.Base.Int.{ℤ, pos, is_nonpos, to_u64}
use node_disk_manager.Api.{
  BlockDevice, DeviceClaimSpec, LabelSelector, SelectorRequirement, VolumeMode, unset, block,
  file_system, is_active, is_unclaimed,
}

-- The filter keys.
pub data FilterKey : Type 0 where
  active unclaimed device_type volume_mode block_device_name resource_storage : FilterKey
  out_sparse_block_devices node_name block_device_tag out_legacy_annotation : FilterKey

abbrev pub uuid_scheme_annotation : String
uuid_scheme_annotation = "internal.openebs.io/uuid-scheme"

abbrev pub block_device_tag_label : String
block_device_tag_label = "openebs.io/block-device-tag"

-- unicode.IsSpace
is_space : ℕ → Bool
is_space c =
    (leb 9 c && leb c 13)
    || eqb c 32
    || eqb c 0x85
    || eqb c 0xA0
    || eqb c 0x1680
    || (leb 0x2000 c && leb c 0x200a)
    || eqb c 0x2028
    || eqb c 0x2029
    || eqb c 0x202f
    || eqb c 0x205f
    || eqb c 0x3000

-- len(strings.TrimSpace(s)) == 0
pub is_blank : String → Bool
unfolding is_space
is_blank String.[] = true
is_blank (String.◌∷◌ c s) = is_space (code c) && is_blank s

-- isBDTagDoesNotExistSelectorRequired
unfoldable pub has_tag_key : List SelectorRequirement → Bool
has_tag_key [] = false
has_tag_key (req ∷ reqs) = if req.key == block_device_tag_label then true else has_tag_key reqs

unfoldable pub tag_selector_required : Option LabelSelector → Bool
unfolding has_tag_key
tag_selector_required none = true
tag_selector_required (some options) =
    if is_some (lookup block_device_tag_label options.match_labels)
    then false
    else not (has_tag_key options.match_expressions)

-- The test of filterVolumeMode on one device, for a mode that is set.
fits_mode : VolumeMode → String → BlockDevice → Bool
fits_mode block format bd =
    not (not (bd.spec.file_system.fs_type == "") || not (bd.spec.file_system.mountpoint == ""))
fits_mode file_system format bd =
    if bd.spec.file_system.fs_type == "" || bd.spec.file_system.mountpoint == ""
    then false
    else not (not (format == "") && not (bd.spec.file_system.fs_type == format))
fits_mode _ format bd = true

unfoldable pub volume_mode_filter : VolumeMode → String → List BlockDevice → List BlockDevice
unfolding fits_mode
volume_mode_filter unset format original = original
volume_mode_filter mode format original = keep (fits_mode mode format) original

-- a loop that appends the first element that passes and breaks
unfoldable pub first_only : (BlockDevice → Bool) → List BlockDevice → List BlockDevice
first_only p [] = []
first_only p (bd ∷ rest) = if p bd then bd ∷ [] else first_only p rest

-- the first loop of filterBlockDeviceTag
abbrev pub tag_not_blank : BlockDevice → Bool
tag_not_blank bd = elim (lookup block_device_tag_label bd.meta.labels) [
  | none ↦ true
  | some v ↦ not (is_blank v)
]

abbrev pub not_legacy : BlockDevice → Bool
not_legacy bd = elim (lookup uuid_scheme_annotation bd.meta.annotations) [
  | none ↦ true
  | some scheme ↦ not (scheme == "legacy")
]

unfoldable pub filter_active : List BlockDevice → DeviceClaimSpec → List BlockDevice
filter_active original spec = keep (λ bd. is_active bd.status.state) original

unfoldable pub filter_unclaimed : List BlockDevice → DeviceClaimSpec → List BlockDevice
filter_unclaimed original spec = keep (λ bd. is_unclaimed bd.status.claim_state) original

unfoldable pub filter_device_type : List BlockDevice → DeviceClaimSpec → List BlockDevice
filter_device_type original spec =
    if spec.device_type == ""
    then original
    else keep (λ bd. bd.spec.details.device_type == spec.device_type) original

unfoldable pub filter_volume_mode : List BlockDevice → DeviceClaimSpec → List BlockDevice
unfolding volume_mode_filter
filter_volume_mode original spec =
    volume_mode_filter spec.details.block_volume_mode spec.details.device_format original

unfoldable pub filter_block_device_name : List BlockDevice → DeviceClaimSpec → List BlockDevice
filter_block_device_name original spec =
    first_only (λ bd. bd.meta.name == spec.block_device_name) original

unfoldable pub filter_out_sparse_block_device :
    List BlockDevice → DeviceClaimSpec → List BlockDevice
filter_out_sparse_block_device original spec =
    keep (λ bd. not (bd.spec.details.device_type == "sparse")) original

unfoldable pub filter_node_name : List BlockDevice → DeviceClaimSpec → List BlockDevice
filter_node_name original spec =
    if spec.block_device_node_attributes.node_name == ""
    then original
    else keep
        (λ bd. bd.spec.node_attributes.node_name == spec.block_device_node_attributes.node_name)
        original

unfoldable pub filter_out_legacy_annotation : List BlockDevice → DeviceClaimSpec → List BlockDevice
filter_out_legacy_annotation original spec = keep not_legacy original

-- The requirement could not be built, or it is applied to the labels.
tag_requirement_filter : Option (StringMap String → Bool) → List BlockDevice → List BlockDevice
tag_requirement_filter none bds = bds
tag_requirement_filter (some matches) bds = keep (λ bd. matches bd.meta.labels) bds

unfoldable pub checked_capacity : ℤ × Bool → ℤ × Bool
checked_capacity (capacity, is_ok) =
    if not is_ok || is_nonpos capacity then (pos 0, false) else (capacity, true)

module _ (as_int64 : String → ℤ × Bool) where
  -- GetRequestedCapacity: the capacity, and whether there was no error. A missing entry is the
  -- zero Quantity.
  unfoldable pub get_requested_capacity : StringMap String → ℤ × Bool
  unfolding checked_capacity
  get_requested_capacity requests =
      checked_capacity (as_int64 (get_or (lookup "storage" requests) "0"))

  unfoldable pub filter_resource_storage : List BlockDevice → DeviceClaimSpec → List BlockDevice
  filter_resource_storage original spec =
      let (capacity, _) = get_requested_capacity spec.requests in
      first_only (λ bd. leb (to_u64 capacity) bd.spec.capacity.storage) original

module _ (does_not_exist : String → Option (StringMap String → Bool)) where
  unfoldable pub filter_block_device_tag : List BlockDevice → DeviceClaimSpec → List BlockDevice
  unfolding tag_requirement_filter
  filter_block_device_tag original spec =
      let empty_tag_filtered = keep tag_not_blank original in
      if not (tag_selector_required spec.selector)
      then empty_tag_filtered
      else tag_requirement_filter (does_not_exist block_device_tag_label) empty_tag_filtered

module _ (as_int64 : String → ℤ × Bool)
    (does_not_exist : String → Option (StringMap String → Bool)) where
  -- filterFuncMap
  unfoldable pub filter_func : FilterKey → List BlockDevice → DeviceClaimSpec → List BlockDevice
  filter_func FilterKey.active = filter_active
  filter_func FilterKey.unclaimed = filter_unclaimed
  filter_func FilterKey.device_type = filter_device_type
  filter_func FilterKey.volume_mode = filter_volume_mode
  filter_func FilterKey.block_device_name = filter_block_device_name
  filter_func FilterKey.resource_storage = filter_resource_storage as_int64
  filter_func FilterKey.out_sparse_block_devices = filter_out_sparse_block_device
  filter_func FilterKey.node_name = filter_node_name
  filter_func FilterKey.block_device_tag = filter_block_device_tag does_not_exist
  filter_func FilterKey.out_legacy_annotation = filter_out_legacy_annotation

  unfoldable pub apply_filters :
      DeviceClaimSpec → List BlockDevice → List FilterKey → List BlockDevice
  apply_filters claim_spec filtered [] = filtered
  apply_filters claim_spec filtered (key ∷ keys) =
      apply_filters claim_spec (filter_func key filtered claim_spec) keys
