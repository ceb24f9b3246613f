-- ===== src/Daemon/Roundtrip.antt =====
-- The resource of a device, when the device is added and when it is removed.
use node_disk_manager.Base.{
  if◌then◌else◌, Bool, ap, erase, lookup, [], ◌∷◌, inr, inl, String, true, Option-cases, some, List,
  ◌≡◌, ◌==◌, refl, sym, In, In-find_first, find_first-ne-none, ◌∙◌, eq_iff, eq_refl,
}
use node_disk_manager.Api.{BlockDevice, inactive}
use node_disk_manager.Store.{with_state, existing_block_device}
use node_disk_manager.Daemon.{Node, LocalDevice, Hierarchy}
use node_disk_manager.Daemon.Uuid.{generate_uuid}
use node_disk_manager.Daemon.Convert.{to_device}
use node_disk_manager.Daemon.Convert.Status.{to_device-new}
use node_disk_manager.Daemon.Add.{with_uuid}
use node_disk_manager.Daemon.Delete.{
  resource_of, delete_block_device, remove_from_hierarchy, deactivate_found,
}
use node_disk_manager.Cluster.Run.{run, Replies}
use node_disk_manager.Cluster.Program.{ret, done}
use node_disk_manager.Cluster.Safe.{device_write}

existing-found :
    (items : List BlockDevice) (uuid : String) (item : BlockDevice)
    → In item items
    → item.meta.name ≡ uuid
    → (found : BlockDevice) × (existing_block_device items uuid ≡ some found)
      × In found items
      × (found.meta.name ≡ uuid)
unfolding existing_block_device
existing-found items uuid item m same = elim (Option-cases (existing_block_device items uuid)) [
  | inl n ↦
      absurd (find_first-ne-none (λ i. uuid == i.meta.name) item items m (rw same (eq_refl uuid)) n)
  | inr (found, e) ↦
      let (among, named) = In-find_first (λ i. uuid == i.meta.name) found items e in
      (found, e, among, sym ((eq_iff uuid found.meta.name).0 named))
]

module _ (node : Node) (cache : Hierarchy) (bd cached : LocalDevice) (items : List BlockDevice)
    (uuid : String) (made item : BlockDevice) (named : generate_uuid node bd ≡ some uuid)
    (is_made : to_device node (with_uuid uuid bd) ≡ some made) (listed : In item items)
    (same_name : item.meta.name ≡ made.meta.name) where
  resource_of-made :
      (found : BlockDevice) × (resource_of node bd items ≡ some found)
      × In found items
      × (found.meta.name ≡ made.meta.name)
  unfolding resource_of
  resource_of-made =
      let name : made.meta.name ≡ uuid = (to_device-new node (with_uuid uuid bd) made is_made).2 in
      let (found, e, among, same) = existing-found items uuid item listed (same_name ∙ name) in
      (found, rw (named, resource_of) (rw e refl), among, same ∙ sym name)

  leaves_cache :
      lookup bd.dev_path cache ≡ some cached
      → remove_from_hierarchy bd cache ≡ (erase bd.dev_path cache, true)
  unfolding remove_from_hierarchy
  leaves_cache e = rw (e, remove_from_hierarchy) refl

  -- A device is in the cache and has an identity, and the list has an item with the name of the
  -- resource that ToDevice makes for it under that identity. Then deleteBlockDevice, whatever the API
  -- server answers, makes exactly one write: an item of the list with that name becomes inactive, and is
  -- otherwise sent as it was listed. It returns no error, and takes the path of the device out of the
  -- cache.
  pub run-delete_block_device :
      (s : Replies)
      → lookup bd.dev_path cache ≡ some cached
      → (found : BlockDevice) × In found items
        × (found.meta.name ≡ made.meta.name)
        × (run s (delete_block_device node cache bd items).1
            ≡ (device_write (with_state inactive found) ∷ [], done tt))
        × ((delete_block_device node cache bd items).0 ≡ erase bd.dev_path cache)
  unfolding delete_block_device deactivate_found
  run-delete_block_device s in_cache =
      let (found, e, among, same) = resource_of-made in
      let removed = leaves_cache in_cache in
      (
        found,
        among,
        same,
        ap
              (λ (r : Hierarchy × Bool).
                run s (
                  if r.1 then deactivate_found node (resource_of node bd items) else ret (done tt)))
              removed
            ∙ ap (λ r. run s (deactivate_found node r)) e,
        ap (λ (r : Hierarchy × Bool). r.0) removed,
      )
