-- ===== src/Sysfs/Parent.antt =====
-- The two ways in which the program finds the parent of a device agree.
use node_disk_manager.Base.{
  refl, inl, ap, ◌∙◌, inr, Option-cases, split, none, String, some, List, [], ◌∷◌, ◌≡◌, ◌≢◌, eq_iff,
  arith,
}
use node_disk_manager.Mount.Util.{get_parent_block_device, after_nvme, after_block}
use node_disk_manager.Sysfs.{
  SysDevice, parent_after_nvme, get_parent, parent_after_block, unless_same,
}

unless_same-other :
    (name parent p : String) → unless_same name parent ≡ some p → (parent ≡ p) × (p ≢ name)
unless_same-other name parent p e = ground (arith, eq_iff name parent)

block-agrees :
    (name p : String) (parts : List String)
    → parent_after_block name parts ≡ some (some p)
    → (after_block parts ≡ some p) × (p ≢ name)
unfolding parent_after_block after_block
block-agrees name p [] e = absurd cc
block-agrees name p (part ∷ []) e = ground arith
block-agrees name p (part ∷ next ∷ parts) e =
    ground (arith, block-agrees name p (next ∷ parts), unless_same-other name next p)

no_block :
    (name : String) (parts : List String)
    → parent_after_block name parts ≡ none
    → after_block parts ≡ none
unfolding parent_after_block after_block
no_block name [] e = refl
no_block name (part ∷ []) e = refl
no_block name (part ∷ next ∷ parts) e = ground (arith, no_block name (next ∷ parts))

nvme-agrees :
    (name p : String) (parts : List String)
    → parent_after_nvme name parts ≡ some (some p)
    → (after_nvme parts ≡ some p) × (p ≢ name)
unfolding parent_after_nvme after_nvme
nvme-agrees name p [] e = absurd cc
nvme-agrees name p (part ∷ []) e = ground arith
nvme-agrees name p (part ∷ next ∷ []) e = ground (arith, nvme-agrees name p (next ∷ []))
nvme-agrees name p (part ∷ next ∷ namespace ∷ parts) e =
    ground
      (arith, nvme-agrees name p (next ∷ namespace ∷ parts), unless_same-other name namespace p)

-- Where getParent of pkg/sysfs finds a parent, getParentBlockDevice of pkg/mount finds the same one in
-- the path, and it is not the device itself.
pub get_parent_agrees :
    (s : SysDevice) (p : String)
    → get_parent s ≡ some p
    → (get_parent_block_device s.sys_path ≡ some p) × (p ≢ s.device_name)
unfolding get_parent get_parent_block_device
get_parent_agrees s p e =
    let parts = split b'/' s.sys_path in
    elim (Option-cases (parent_after_block s.device_name parts)) [
      | inr (found, b) ↦
          let f : found ≡ some p = rw (b, get_parent) at e in
          let (a, other) = block-agrees s.device_name p parts (b ∙ ap some f) in
          (rw (a, get_parent_block_device) refl, other)
      | inl n ↦ elim (Option-cases (parent_after_nvme s.device_name parts)) [
        | inr (found, b) ↦
            let f : found ≡ some p = rw (n, b, get_parent) at e in
            let (a, other) = nvme-agrees s.device_name p parts (b ∙ ap some f) in
            (rw (no_block s.device_name parts n, get_parent_block_device) a, other)
        | inl b ↦ let f : none ≡ some p = rw (n, b, get_parent) at e in absurd cc
      ]
    ]
