-- ===== src/Select/Each.antt =====
-- What each filter of filters.go keeps.
use node_disk_manager.Base.{
  String, ◌≡◌, ◌≢◌, ◌⊎◌, ◌↔◌, Bool, true, false, Option, none, some, List, [], ◌∷◌, map, In,
  keep_iff, keep_mem, keep, lookup, StringMap, if◌then◌else◌, not, ◌==◌, eq_iff, arith,
}
use node_disk_manager.Api.{
  BlockDevice, DeviceClaimSpec, LabelSelector, SelectorRequirement, VolumeMode, unset, block,
  file_system, other_mode, active, unclaimed,
}
use node_disk_manager.Select.Filters.{
  uuid_scheme_annotation, block_device_tag_label, has_tag_key, tag_selector_required, filter_active,
  filter_unclaimed, filter_device_type, filter_volume_mode, filter_node_name,
  filter_out_sparse_block_device, filter_out_legacy_annotation, filter_block_device_tag, first_only,
  volume_mode_filter, tag_not_blank,
}
use node_disk_manager.Select.Eligible.{MentionsTag, TagAllows, FitsMode, BuildsTagRequirement}

pub In-first_only :
    (p : BlockDevice → Bool) (bd : BlockDevice) (l : List BlockDevice)
    → In bd (first_only p l)
    → In bd l × (p bd ≡ true)
unfolding first_only
In-first_only p bd [] h = absurd h
In-first_only p bd (x ∷ l) h = ground (arith, In-first_only p bd l)

pub first_only-ne-nil :
    (p : BlockDevice → Bool) (bd : BlockDevice) (l : List BlockDevice)
    → In bd l
    → p bd ≡ true
    → first_only p l ≢ []
unfolding first_only
first_only-ne-nil p bd [] m t = absurd m
first_only-ne-nil p bd (x ∷ l) m t = ground (arith, first_only-ne-nil p bd l)

has_tag_key_iff :
    (reqs : List SelectorRequirement)
    → (has_tag_key reqs ≡ true)
      ↔ In block_device_tag_label (map (λ (r : SelectorRequirement). r.key) reqs)
unfolding has_tag_key
has_tag_key_iff [] = ground arith
has_tag_key_iff (r ∷ reqs) =
    ground (arith, eq_iff r.key block_device_tag_label, has_tag_key_iff reqs)

tag_selector_required_iff :
    (s : Option LabelSelector) → (tag_selector_required s ≡ false) ↔ MentionsTag s
unfolding tag_selector_required
tag_selector_required_iff none = ground arith
tag_selector_required_iff (some s) = ground (arith, has_tag_key_iff s.match_expressions)

not_legacy_iff :
    (scheme : Option String)
    → (elim scheme as (λ _. Bool) [ none ↦ true | some s ↦ not (s == "legacy") ] ≡ true)
      ↔ (scheme ≢ some "legacy")
not_legacy_iff none = ground arith
not_legacy_iff (some s) = ground (arith, eq_iff s "legacy")

-- A filter that an empty request switches off.
optional_iff :
    (request : String) (field : BlockDevice → String) (bd : BlockDevice) (l : List BlockDevice)
    → In bd (if request == "" then l else keep (λ b. field b == request) l)
      ↔ (In bd l × ((request ≡ "") ⊎ (field bd ≡ request)))
optional_iff request field bd l = ground (
  arith,
  eq_iff request "",
  keep_iff (λ (b : BlockDevice). field b == request) bd l (eq_iff (field bd) request),
)

fits_mode_iff :
    (mode : VolumeMode) (format : String) (bd : BlockDevice) (l : List BlockDevice)
    → In bd (volume_mode_filter mode format l) ↔ (In bd l × FitsMode mode format bd)
unfolding volume_mode_filter
fits_mode_iff unset format bd l = ground arith
fits_mode_iff block format bd l = keep_iff _ bd l (
    ground (arith, eq_iff bd.spec.file_system.fs_type "", eq_iff bd.spec.file_system.mountpoint ""))
fits_mode_iff file_system format bd l = keep_iff _ bd l (
    ground (
      arith,
      eq_iff bd.spec.file_system.fs_type "",
      eq_iff bd.spec.file_system.mountpoint "",
      eq_iff format "",
      eq_iff bd.spec.file_system.fs_type format,
    ))
fits_mode_iff (other_mode _) format bd l = keep_iff (λ _. true) bd l (ground arith)

module _ (bd : BlockDevice) (spec : DeviceClaimSpec) (l : List BlockDevice) where
  pub filter_active_lem : In bd (filter_active l spec) ↔ (In bd l × (bd.status.state ≡ active))
  unfolding filter_active
  filter_active_lem = keep_iff _ bd l (ground arith)

  pub filter_unclaimed_lem :
      In bd (filter_unclaimed l spec) ↔ (In bd l × (bd.status.claim_state ≡ unclaimed))
  unfolding filter_unclaimed
  filter_unclaimed_lem = keep_iff _ bd l (ground arith)

  pub filter_out_legacy_annotation_lem :
      In bd (filter_out_legacy_annotation l spec)
      ↔ (In bd l × (lookup uuid_scheme_annotation bd.meta.annotations ≢ some "legacy"))
  unfolding filter_out_legacy_annotation
  filter_out_legacy_annotation_lem =
      keep_iff _ bd l (not_legacy_iff (lookup uuid_scheme_annotation bd.meta.annotations))

  pub filter_out_sparse_block_device_lem :
      In bd (filter_out_sparse_block_device l spec)
      ↔ (In bd l × (bd.spec.details.device_type ≢ "sparse"))
  unfolding filter_out_sparse_block_device
  filter_out_sparse_block_device_lem =
      keep_iff _ bd l (ground (arith, eq_iff bd.spec.details.device_type "sparse"))

  pub filter_device_type_lem :
      In bd (filter_device_type l spec)
      ↔ (In bd l × ((spec.device_type ≡ "") ⊎ (bd.spec.details.device_type ≡ spec.device_type)))
  unfolding filter_device_type
  filter_device_type_lem = optional_iff spec.device_type (λ b. b.spec.details.device_type) bd l

  pub filter_node_name_lem : In bd (filter_node_name l spec) ↔ (
      In bd l
      × ((spec.block_device_node_attributes.node_name ≡ "")
          ⊎ (bd.spec.node_attributes.node_name ≡ spec.block_device_node_attributes.node_name)))
  unfolding filter_node_name
  filter_node_name_lem =
      optional_iff spec.block_device_node_attributes.node_name
        (λ b. b.spec.node_attributes.node_name) bd l

  pub filter_volume_mode_lem :
      In bd (filter_volume_mode l spec)
      ↔ (In bd l × FitsMode spec.details.block_volume_mode spec.details.device_format bd)
  unfolding filter_volume_mode
  filter_volume_mode_lem =
      fits_mode_iff spec.details.block_volume_mode spec.details.device_format bd l

  pub filter_block_device_tag_lem :
      (does_not_exist : String → Option (StringMap String → Bool))
      → BuildsTagRequirement does_not_exist
      → In bd (filter_block_device_tag does_not_exist l spec)
        ↔ (In bd l × TagAllows spec.selector bd)
  unfolding filter_block_device_tag
  filter_block_device_tag_lem does_not_exist (matches, built, law) = rw built (
      ground (
        arith,
        keep_mem tag_not_blank bd l,
        keep_mem (λ (b : BlockDevice). matches b.meta.labels) bd (keep tag_not_blank l),
        law bd.meta.labels,
        tag_selector_required_iff spec.selector,
      ))
