-- ===== src/Daemon/Convert/Status.antt =====
-- The resource of a device is new, active and without a claim, and has its name.
use node_disk_manager.Base.{
  ◌∙◌, ap, String, Option-cases, none, some, List, [], ◌∷◌, ◌≡◌, inl, inr, arith,
}
use node_disk_manager.Api.{active, BlockDevice, unclaimed}
use node_disk_manager.Daemon.{Node, LocalDevice}
use node_disk_manager.Daemon.Convert.{
  device_spec, object_meta, label_paths, add_found_label, add_label, add_labels, add_bd_labels,
  to_device,
}

-- Only labels were added.
abbrev pub Labelled : BlockDevice → BlockDevice → Type 0
Labelled before after =
    (after.status ≡ before.status)
    × (after.meta.name ≡ before.meta.name)
    × (after.spec ≡ before.spec)

Labelled-trans : (a b c : BlockDevice) → Labelled a b → Labelled b c → Labelled a c
Labelled-trans a b c (s, n, p) (t, m, q) = (t ∙ s, m ∙ n, q ∙ p)

module _ (node : Node) where
  add_found_label-Labelled :
      (path : String) (bd b : BlockDevice) (values : List (List String))
      → add_found_label node path bd values ≡ some b
      → Labelled bd b
  unfolding add_found_label
  add_found_label-Labelled path bd b [] e = ground arith
  add_found_label-Labelled path bd b ([] ∷ rest) e = ground arith
  add_found_label-Labelled path bd b ((first ∷ others) ∷ rest) e = ground arith

  add_label-Labelled :
      (path : String) (bd b : BlockDevice) → add_label node path bd ≡ some b → Labelled bd b
  unfolding add_label
  add_label-Labelled path bd b e = ground (arith, add_found_label-Labelled path bd b)

  add_labels-Labelled :
      (paths : List String) (bd b : BlockDevice) → add_labels node paths bd ≡ some b → Labelled bd b
  unfolding add_labels
  add_labels-Labelled [] bd b e = ground arith
  add_labels-Labelled (path ∷ paths) bd b e = elim (Option-cases (add_label node path bd)) [
    | inl n ↦ let f : none ≡ some b = rw (n, add_labels) at e in absurd cc
    | inr (x, n) ↦
        let f : add_labels node paths x ≡ some b = rw (n, add_labels) at e in
        Labelled-trans bd x b (add_label-Labelled path bd x n) (add_labels-Labelled paths x b f)
  ]

  add_bd_labels-Labelled : (bd b : BlockDevice) → add_bd_labels node bd ≡ some b → Labelled bd b
  unfolding add_bd_labels
  add_bd_labels-Labelled bd b e = elim (Option-cases node.meta_configs) [
    | inl n ↦ let f : some bd ≡ some b = rw (n, add_bd_labels) at e in ground arith
    | inr (configs, n) ↦
        add_labels-Labelled (label_paths [] configs) bd b (rw (n, add_bd_labels) at e)
  ]

  -- The resource that ToDevice makes is unclaimed and active, and has the identity of the device as
  -- its name and the path of the device.
  pub to_device-new :
      (bd : LocalDevice) (b : BlockDevice)
      → to_device node bd ≡ some b
      → (b.status.claim_state ≡ unclaimed)
        × (b.status.state ≡ active)
        × (b.meta.name ≡ bd.uuid)
        × (b.spec.path ≡ bd.dev_path)
        × (b.spec.capacity.storage ≡ bd.storage)
  unfolding to_device object_meta device_spec
  to_device-new bd b e =
      let (s, n, p) = add_bd_labels-Labelled _ b e in
      (
        ap (λ x. x.claim_state) s,
        ap (λ x. x.state) s,
        n,
        ap (λ x. x.path) p,
        ap (λ x. x.capacity.storage) p,
      )

  pub to_device-unclaimed :
      (bd : LocalDevice) (b : BlockDevice)
      → to_device node bd ≡ some b
      → b.status.claim_state ≡ unclaimed
  to_device-unclaimed bd b e = (to_device-new bd b e).0
