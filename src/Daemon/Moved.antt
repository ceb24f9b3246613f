-- ===== src/Daemon/Moved.antt =====
-- What the identity of a device does not depend on.
use node_disk_manager.Base.{inr, eq_iff, inl, Bool-cases, String, ◌≡◌, ◌≢◌, ◌==◌, refl}
use node_disk_manager.Daemon.{Node, LocalDevice}
use node_disk_manager.Daemon.Uuid.{generate_uuid, uuid_field, uuid_of}

module _ (node : Node) (bd : LocalDevice) (host_name dev_path sys_path : String)
    (other : bd.device_attributes.device_type ≢ "loop") where
  uuid_field-moved :
      uuid_field
        (record node { host_name = host_name })
        (record bd { dev_path = dev_path; sys_path = sys_path })
      ≡ uuid_field node bd
  unfolding uuid_field
  uuid_field-moved = elim (Bool-cases (bd.device_attributes.device_type == "loop")) [
    | inl e ↦ absurd (other ((eq_iff bd.device_attributes.device_type "loop").0 e))
    | inr e ↦ rw (e, uuid_field) refl
  ]

  -- A device that is not a loop device keeps its identity when it is attached to another node or
  -- under another path.
  pub generate_uuid-moved :
      generate_uuid
        (record node { host_name = host_name })
        (record bd { dev_path = dev_path; sys_path = sys_path })
      ≡ generate_uuid node bd
  unfolding generate_uuid uuid_of
  generate_uuid-moved = rw (uuid_field-moved, generate_uuid) refl
