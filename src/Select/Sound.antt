-- ===== src/Select/Sound.antt =====
-- The selection returns a device that satisfies the claim, and finds one where there is one.
use node_disk_manager.Base.{
  leb, Bool-cases, [], ◌∷◌, String, ◌≡◌, sym, ◌∙◌, ◌≢◌, ◌⊎◌, inl, inr, Bool, true, false, Option,
  List, In, StringMap, ◌==◌, eq_iff, arith,
}
use node_disk_manager.Base.Int.{to_u64, ℤ}
use node_disk_manager.Api.{BlockDevice, DeviceClaimSpec}
use node_disk_manager.Select.Filters.{
  get_requested_capacity, filter_resource_storage, filter_block_device_name,
}
use node_disk_manager.Select.Each.{first_only-ne-nil, In-first_only}
use node_disk_manager.Select.Eligible.{
  IsFree, MeetsSpec, TagAllows, HasCapacity, BuildsTagRequirement,
}
use node_disk_manager.Select.Chain.{
  common, automatic, common_iff, automatic_iff, candidates_manual, candidates_automatic,
}
use node_disk_manager.Select.Chosen.{
  HasCapacity-iff, chosen_automatic, first_or-found, In-first_or, chosen, chosen_manual,
  chosen_automatic_sound,
}
use node_disk_manager.Select.Choose.{
  no_resources, filter, no_match, device, new_config, get_candidate_devices,
}

-- All that a claim asks of its device.
abbrev pub Satisfies : (String → ℤ × Bool) → DeviceClaimSpec → BlockDevice → Type 0
Satisfies as_int64 spec bd =
    IsFree bd
    × TagAllows spec.selector bd
    × (((spec.block_device_name ≢ "") × (bd.meta.name ≡ spec.block_device_name))
        ⊎ ((spec.block_device_name ≡ "") × MeetsSpec spec bd × HasCapacity as_int64 spec bd))

module _ (as_int64 : String → ℤ × Bool) (does_not_exist : String → Option (StringMap String → Bool))
    (builds : BuildsTagRequirement does_not_exist) (spec : DeviceClaimSpec) (bds : List BlockDevice)
    (bd : BlockDevice) where
  manual_sound :
      (spec.block_device_name == "") ≡ false
      → chosen as_int64 does_not_exist spec
          (get_candidate_devices as_int64 does_not_exist (new_config spec) bds)
        ≡ device bd
      → In bd bds × Satisfies as_int64 spec bd
  unfolding filter_block_device_name
  manual_sound e h =
      let named =
        In-first_only (λ (b : BlockDevice). b.meta.name == spec.block_device_name) bd
          (common does_not_exist builds spec bds)
          (In-first_or no_match bd _ (
            sym (
              chosen_manual as_int64 does_not_exist spec
                (filter_block_device_name (common does_not_exist builds spec bds) spec) e)
            ∙ (rw (candidates_manual does_not_exist builds spec bds as_int64 e) at h))) in
      let c = (common_iff does_not_exist builds spec bds bd).0 named.0 in
      (
        c.0,
        (
          c.1,
          c.2,
          inl (
            ground (arith, eq_iff spec.block_device_name ""),
            (eq_iff bd.meta.name spec.block_device_name).0 named.1,
          ),
        ),
      )

  automatic_sound :
      (spec.block_device_name == "") ≡ true
      → chosen as_int64 does_not_exist spec
          (get_candidate_devices as_int64 does_not_exist (new_config spec) bds)
        ≡ device bd
      → In bd bds × Satisfies as_int64 spec bd
  automatic_sound e h =
      let last =
        chosen_automatic_sound as_int64 does_not_exist spec
          (automatic does_not_exist builds spec bds) bd e
          (rw (candidates_automatic does_not_exist builds spec bds as_int64 e) at h) in
      let a = (automatic_iff does_not_exist builds spec bds bd).0 last.0 in
      let c = (common_iff does_not_exist builds spec bds bd).0 a.0 in
      (c.0, (c.1, c.2, inr ((eq_iff spec.block_device_name "").0 e, a.1, last.1)))

  In-nonempty : (l : List BlockDevice) → In bd l → l ≢ []
  In-nonempty [] m e = absurd m
  In-nonempty (x ∷ l) m e = cc

  manual_complete :
      (spec.block_device_name == "") ≡ false
      → In bd (common does_not_exist builds spec bds)
      → bd.meta.name ≡ spec.block_device_name
      → (found : BlockDevice) × (chosen as_int64 does_not_exist spec
            (get_candidate_devices as_int64 does_not_exist (new_config spec) bds)
          ≡ device found)
  unfolding filter_block_device_name
  manual_complete e m n =
      let named = filter_block_device_name (common does_not_exist builds spec bds) spec in
      rw (candidates_manual does_not_exist builds spec bds as_int64 e) (
        rw (chosen_manual as_int64 does_not_exist spec named e) (
          first_or-found no_match named (
            first_only-ne-nil (λ (b : BlockDevice). b.meta.name == spec.block_device_name) bd
              (common does_not_exist builds spec bds) m
              ((eq_iff bd.meta.name spec.block_device_name).1 n))))

  automatic_complete :
      (spec.block_device_name == "") ≡ true
      → In bd (automatic does_not_exist builds spec bds)
      → HasCapacity as_int64 spec bd
      → (found : BlockDevice) × (chosen as_int64 does_not_exist spec
            (get_candidate_devices as_int64 does_not_exist (new_config spec) bds)
          ≡ device found)
  unfolding filter_resource_storage
  automatic_complete e m c =
      let cands = automatic does_not_exist builds spec bds in
      rw (candidates_automatic does_not_exist builds spec bds as_int64 e) (
        rw (chosen_automatic as_int64 does_not_exist spec cands e (In-nonempty cands m)) (
          first_or-found no_resources (filter_resource_storage as_int64 cands spec) (
            first_only-ne-nil
              (λ (b : BlockDevice).
                leb (to_u64 (get_requested_capacity as_int64 spec.requests).0)
                  b.spec.capacity.storage)
              bd cands m ((HasCapacity-iff as_int64 spec bd).1 c))))

module _ (as_int64 : String → ℤ × Bool) (does_not_exist : String → Option (StringMap String → Bool))
    (builds : BuildsTagRequirement does_not_exist) (spec : DeviceClaimSpec) where
  -- A device that the selection returns is one of the given devices and satisfies the claim: it is
  -- active, unclaimed and not on the legacy UUID scheme, its tag allows it, and it is the device
  -- that the claim names or, where the claim names none, it is not sparse and meets the claim's
  -- device type, volume mode, node name and capacity. It assumes that the DoesNotExist requirement is
  -- built.
  pub filter_sound :
      (bds : List BlockDevice) (bd : BlockDevice)
      → filter as_int64 does_not_exist (new_config spec) bds ≡ device bd
      → In bd bds × Satisfies as_int64 spec bd
  unfolding filter
  filter_sound [] bd h = absurd (cc)
  filter_sound (x ∷ bds) bd h = elim (Bool-cases (spec.block_device_name == "")) [
    | inl e ↦ automatic_sound as_int64 does_not_exist builds spec (x ∷ bds) bd e h
    | inr e ↦ manual_sound as_int64 does_not_exist builds spec (x ∷ bds) bd e h
  ]

  -- Where some device of the list satisfies the claim, the selection returns a device, if the
  -- DoesNotExist requirement is built.
  pub filter_complete :
      (bds : List BlockDevice) (bd : BlockDevice)
      → In bd bds
      → Satisfies as_int64 spec bd
      → (found : BlockDevice) × (filter as_int64 does_not_exist (new_config spec) bds
          ≡ device found)
  unfolding filter
  filter_complete [] bd m s = absurd m
  filter_complete (x ∷ bds) bd m (free, tag, inl (named, same)) =
      manual_complete as_int64 does_not_exist builds spec (x ∷ bds) bd
        (ground (arith, eq_iff spec.block_device_name ""))
        ((common_iff does_not_exist builds spec (x ∷ bds) bd).1 (m, free, tag)) same
  filter_complete (x ∷ bds) bd m (free, tag, inr (unnamed, meets, fits)) =
      automatic_complete as_int64 does_not_exist builds spec (x ∷ bds) bd
        ((eq_iff spec.block_device_name "").1 unnamed)
        ((automatic_iff does_not_exist builds spec (x ∷ bds) bd).1
          ((common_iff does_not_exist builds spec (x ∷ bds) bd).1 (m, free, tag), meets))
        fits
