-- ===== src/Select/Chain.antt =====
-- The devices that are left after the filters that each mode applies.
use node_disk_manager.Base.{String, ◌≡◌, ◌↔◌, Bool, true, false, Option, List, In, StringMap, ◌==◌}
use node_disk_manager.Base.Int.{ℤ}
use node_disk_manager.Api.{BlockDevice, DeviceClaimSpec}
use node_disk_manager.Select.Filters.{
  filter_active, filter_unclaimed, filter_out_legacy_annotation, filter_block_device_tag,
  filter_out_sparse_block_device, filter_device_type, filter_volume_mode, filter_node_name,
  apply_filters, filter_func, filter_block_device_name,
}
use node_disk_manager.Select.Each.{
  filter_active_lem, filter_unclaimed_lem, filter_out_legacy_annotation_lem,
  filter_out_sparse_block_device_lem, filter_device_type_lem, filter_node_name_lem,
  filter_volume_mode_lem, filter_block_device_tag_lem,
}
use node_disk_manager.Select.Eligible.{IsFree, MeetsSpec, TagAllows, BuildsTagRequirement}
use node_disk_manager.Select.Choose.{new_config, get_candidate_devices}

module _ (does_not_exist : String → Option (StringMap String → Bool))
    (builds : BuildsTagRequirement does_not_exist) (spec : DeviceClaimSpec)
    (bds : List BlockDevice) where
  -- the filters that both modes apply
  abbrev pub common : List BlockDevice
  common =
      filter_block_device_tag does_not_exist
        (filter_out_legacy_annotation (filter_unclaimed (filter_active bds spec) spec) spec) spec

  -- the filters of the automatic mode
  abbrev pub automatic : List BlockDevice
  automatic =
      filter_node_name
        (filter_volume_mode (filter_device_type (filter_out_sparse_block_device common spec) spec)
          spec)
        spec

  pub common_iff :
      (bd : BlockDevice) → In bd common ↔ (In bd bds × IsFree bd × TagAllows spec.selector bd)
  common_iff bd =
      let actives = filter_active bds spec in
      let frees = filter_unclaimed actives spec in
      let news = filter_out_legacy_annotation frees spec in
      (
        λ m.
            let t = (filter_block_device_tag_lem bd spec news does_not_exist builds).0 m in
            let n = (filter_out_legacy_annotation_lem bd spec frees).0 t.0 in
            let f = (filter_unclaimed_lem bd spec actives).0 n.0 in
            let a = (filter_active_lem bd spec bds).0 f.0 in
            (a.0, record { is_active = a.1; is_unclaimed = f.1; not_legacy = n.1 }, t.1),
        λ h. (filter_block_device_tag_lem bd spec news does_not_exist builds).1 (
          (filter_out_legacy_annotation_lem bd spec frees).1 (
            (filter_unclaimed_lem bd spec actives).1
                ((filter_active_lem bd spec bds).1 (h.0, h.1.is_active), h.1.is_unclaimed),
            h.1.not_legacy,
          ),
          h.2,
        ),
      )

  pub automatic_iff : (bd : BlockDevice) → In bd automatic ↔ (In bd common × MeetsSpec spec bd)
  automatic_iff bd =
      let solid = filter_out_sparse_block_device common spec in
      let typed = filter_device_type solid spec in
      let moded = filter_volume_mode typed spec in
      (
        λ m.
            let n = (filter_node_name_lem bd spec moded).0 m in
            let v = (filter_volume_mode_lem bd spec typed).0 n.0 in
            let t = (filter_device_type_lem bd spec solid).0 v.0 in
            let s = (filter_out_sparse_block_device_lem bd spec common).0 t.0 in
            (s.0, record { not_sparse = s.1; has_type = t.1; fits_mode = v.1; on_node = n.1 }),
        λ h. (filter_node_name_lem bd spec moded).1 (
          (filter_volume_mode_lem bd spec typed).1 (
            (filter_device_type_lem bd spec solid).1 (
              (filter_out_sparse_block_device_lem bd spec common).1 (h.0, h.1.not_sparse),
              h.1.has_type,
            ),
            h.1.fits_mode,
          ),
          h.1.on_node,
        ),
      )

  pub candidates_manual :
      (as_int64 : String → ℤ × Bool)
      → (spec.block_device_name == "") ≡ false
      → get_candidate_devices as_int64 does_not_exist (new_config spec) bds
        ≡ filter_block_device_name common spec
  unfolding get_candidate_devices apply_filters filter_func
  candidates_manual as_int64 e = rw e

  pub candidates_automatic :
      (as_int64 : String → ℤ × Bool)
      → (spec.block_device_name == "") ≡ true
      → get_candidate_devices as_int64 does_not_exist (new_config spec) bds ≡ automatic
  unfolding get_candidate_devices apply_filters filter_func
  candidates_automatic as_int64 e = rw e
