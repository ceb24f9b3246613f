-- ===== src/Select/Eligible.antt =====
-- When a device satisfies a claim, said without the filters of filters.go.
use node_disk_manager.Base.{
  ℕ, ◌≤◌, String, ◌≡◌, ◌≢◌, ◌⊎◌, Bool, true, false, Option, none, some, map, In, lookup, get_or,
  StringMap,
}
use node_disk_manager.Base.Int.{ℤ, pos}
use node_disk_manager.Api.{
  BlockDevice, DeviceClaimSpec, LabelSelector, SelectorRequirement, VolumeMode, unset, block,
  file_system, other_mode, active, unclaimed,
}
use node_disk_manager.Select.Filters.{uuid_scheme_annotation, block_device_tag_label, is_blank}

-- Any device that a claim may get: connected, free, not on the legacy UUID scheme.
pub record IsFree (bd : BlockDevice) : Type 0 where
  pub is_active : bd.status.state ≡ active
  pub is_unclaimed : bd.status.claim_state ≡ unclaimed
  pub not_legacy : lookup uuid_scheme_annotation bd.meta.annotations ≢ some "legacy"

-- The claim's selector names the tag label.
abbrev pub MentionsTag : Option LabelSelector → Type 0
MentionsTag none = ⊥
MentionsTag (some s) =
    (lookup block_device_tag_label s.match_labels ≢ none)
    ⊎ In block_device_tag_label (map (λ (r : SelectorRequirement). r.key) s.match_expressions)

-- A tagged device is only for the claims that name the tag, and never if the tag is blank.
abbrev pub TagAllows : Option LabelSelector → BlockDevice → Type 0
TagAllows s bd =
    (lookup block_device_tag_label bd.meta.labels ≡ none)
    ⊎ ((v : String) × (lookup block_device_tag_label bd.meta.labels ≡ some v)
        × (is_blank v ≡ false)
        × MentionsTag s)

abbrev pub FitsMode : VolumeMode → String → BlockDevice → Type 0
FitsMode unset format bd = Unit
FitsMode block format bd =
    (bd.spec.file_system.fs_type ≡ "") × (bd.spec.file_system.mountpoint ≡ "")
FitsMode file_system format bd =
    (bd.spec.file_system.fs_type ≢ "")
    × (bd.spec.file_system.mountpoint ≢ "")
    × ((format ≡ "") ⊎ (bd.spec.file_system.fs_type ≡ format))
FitsMode (other_mode _) format bd = Unit

-- What an automatic claim asks of the device itself.
pub record MeetsSpec (spec : DeviceClaimSpec) (bd : BlockDevice) : Type 0 where
  pub not_sparse : bd.spec.details.device_type ≢ "sparse"
  pub has_type : (spec.device_type ≡ "") ⊎ (bd.spec.details.device_type ≡ spec.device_type)
  pub fits_mode : FitsMode spec.details.block_volume_mode spec.details.device_format bd
  pub on_node :
      (spec.block_device_node_attributes.node_name ≡ "")
      ⊎ (bd.spec.node_attributes.node_name ≡ spec.block_device_node_attributes.node_name)

-- The bytes that a claim asks for, where its quantity reads as a positive int64.
abbrev pub bytes_asked : ℤ × Bool → ℕ
bytes_asked (pos n, true) = n
bytes_asked _ = 0

abbrev pub HasCapacity : (String → ℤ × Bool) → DeviceClaimSpec → BlockDevice → Type 0
HasCapacity as_int64 spec bd =
    bytes_asked (as_int64 (get_or (lookup "storage" spec.requests) "0")) ≤ bd.spec.capacity.storage

-- labels.NewRequirement(tag, DoesNotExist): it is built, and matches where the label is missing.
abbrev pub BuildsTagRequirement : (String → Option (StringMap String → Bool)) → Type 0
BuildsTagRequirement does_not_exist =
    (matches : StringMap String → Bool) × (does_not_exist block_device_tag_label ≡ some matches)
    × ((labels : StringMap String)
        → matches labels
          ≡ elim (lookup block_device_tag_label labels) [ none ↦ true | some _ ↦ false ])
