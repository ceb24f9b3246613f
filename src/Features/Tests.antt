-- ===== src/Features/Tests.antt =====
-- The theorem on feature gates at a command line that switches a dependency off.
use node_disk_manager.Base.{
  String, ◌≡◌, true, false, none, some, [], ◌∷◌, refl, inl, inr, insert, contains,
}
use node_disk_manager.Features.Gates.{
  gpt_based_uuid, partition_table_uuid, supported_features, FeatureFlag, new_feature_gate,
  set_flags, parse_feature, is_enabled, set_feature_flag, check_truthy,
}
use node_disk_manager.Features.Step.{resolved}
use node_disk_manager.Features.Resolve.{set_feature_flag_resolves}

abbrev asked : FeatureFlag
asked =
    (gpt_based_uuid, false)
    ∷ ("APIService", false)
    ∷ ("UseOSDisk", false)
    ∷ ("ChangeDetection", false)
    ∷ (partition_table_uuid, true)
    ∷ []

set_feature_flag_resolves_example :
    (g : FeatureFlag) × (set_feature_flag 2 supported_features
        ("PartitionTableUUID" ∷ "GPTBasedUUID=no" ∷ [])
        new_feature_gate
      ≡ some (g, none))
    × ((f : String) → is_enabled f g ≡ resolved asked f)
unfolding set_flags parse_feature contains check_truthy insert
set_feature_flag_resolves_example =
    set_feature_flag_resolves 0 supported_features ("PartitionTableUUID" ∷ "GPTBasedUUID=no" ∷ [])
      new_feature_gate asked (inr (inr (inr (inr (inl refl))))) refl
