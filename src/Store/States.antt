-- ===== src/Store/States.antt =====
-- The writes of DeactivateStaleBlockDeviceResource and MarkBlockDeviceStatusToUnknown.
use node_disk_manager.Base.{
  String, ◌≡◌, true, false, List, [], ◌∷◌, ◌++◌, In, In-append, refl, inl, inr, Bool-cases,
  contains, In→contains,
}
use node_disk_manager.Api.{BlockDevice, DeviceState, inactive, unknown}
use node_disk_manager.Cluster.Program.{Reply, ok, err, Program, Outcome}
use node_disk_manager.Cluster.Safe.{
  Any, History, Write, start, Safe, Then, Safe->>=, wrote_device, read_devices,
}
use node_disk_manager.Store.{
  deactivate_missing, set_states, finish_list, list_block_devices, deactivate_stale, mark_unknown,
  drop_disabled, with_state,
}
use node_disk_manager.Store.Allowed.{KeepsClaims, DeactivatesMissing}
use node_disk_manager.Store.Listed.{drop_disabled-In}

-- Every device that is still to be handled was listed.
WereListed : List BlockDevice → History → Type 0
WereListed items h = (bd : BlockDevice) → In bd items → In bd h.listed

module _ (policy : History → Write → Type 0) where
  -- a loop goes on after a write, whatever the reply
  wrote_device-Safe :
      (items : List BlockDevice) (h : History) (p : Program (Outcome Unit)) (d : BlockDevice)
      → WereListed items h
      → ((h' : History) → WereListed items h' → Safe policy Any h' p)
      → (r : Reply BlockDevice) → Safe policy Any (wrote_device d r h) p
  unfolding WereListed
  wrote_device-Safe items h p d listed k (ok _) = k (record h { written = d ∷ h.written }) listed
  wrote_device-Safe items h p d listed k (err e) = k h listed

  finish_list-Safe :
      (f : List BlockDevice → Program (Outcome Unit))
      → ((items : List BlockDevice) (h : History)
          → WereListed items h
          → Safe policy Any h (f items))
      → (r : Reply (List BlockDevice))
      → Safe policy (Then policy Any f) (read_devices r start) (finish_list r)
  unfolding finish_list WereListed
  finish_list-Safe f k (err e) = tt
  finish_list-Safe f k (ok items) =
      k (drop_disabled items) (read_devices (ok items) start)
        (λ bd m. In-append bd items [] (drop_disabled-In items bd m))

not_present :
    (present : List String) (name : String) → contains present name ≡ false → ¬ In name present
not_present present name c i =
    let there : contains present name ≡ true = In→contains present name i in absurd (cc)

deactivate_missing-Safe :
    (present : List String) (items : List BlockDevice) (h : History)
    → WereListed items h
    → Safe (DeactivatesMissing present) Any h (deactivate_missing present items)
unfolding deactivate_missing WereListed
deactivate_missing-Safe present [] h listed = tt
deactivate_missing-Safe present (item ∷ items) h listed =
    elim (Bool-cases (contains present item.meta.name)) [
      | inl c ↦ rw c (deactivate_missing-Safe present items h (λ bd m. listed bd (inr m)))
      | inr c ↦ rw c (
        (
          item,
          listed item (inl refl),
          not_present present item.meta.name c,
          refl,
          refl,
          refl,
          refl,
        ),
        wrote_device-Safe (DeactivatesMissing present) items h (deactivate_missing present items)
            (with_state inactive item) (λ bd m. listed bd (inr m))
            (deactivate_missing-Safe present items),
      )
    ]

set_states-Safe :
    (state : DeviceState) (items : List BlockDevice) (h : History)
    → WereListed items h
    → Safe KeepsClaims Any h (set_states state items)
unfolding set_states WereListed
set_states-Safe state [] h listed = tt
set_states-Safe state (item ∷ items) h listed = (
  (
    item,
    listed item (inl refl),
    record { same_name = refl; same_uid = refl; same_version = refl },
    record { same_claim_state = refl; same_finalizers = refl; same_reference = inr refl },
  ),
  wrote_device-Safe KeepsClaims items h (set_states state items) (with_state state item)
      (λ bd m. listed bd (inr m)) (set_states-Safe state items),
)

-- Whatever the API server answers, DeactivateStaleBlockDeviceResource writes only devices that were
-- listed and whose names are neither among the devices present nor among the sparse files; each
-- becomes inactive, and its claim state, its metadata and its spec are unchanged.
pub deactivate_stale-Safe :
    (host_name : String) (sparse_uuids devices : List String)
    → Safe
        (DeactivatesMissing (devices ++ sparse_uuids))
        Any
        start
        (deactivate_stale host_name sparse_uuids devices)
unfolding deactivate_stale list_block_devices
deactivate_stale-Safe host_name sparse_uuids devices =
    let present = devices ++ sparse_uuids in
    Safe->>= (DeactivatesMissing present) Any (deactivate_missing present)
      (list_block_devices host_name false) start
      (finish_list-Safe (DeactivatesMissing present) (deactivate_missing present)
        (deactivate_missing-Safe present))

-- Whatever the API server answers, MarkBlockDeviceStatusToUnknown writes only devices that were
-- listed, at their versions, with the same claim state, finalizers and reference.
pub mark_unknown-Safe : (host_name : String) → Safe KeepsClaims Any start (mark_unknown host_name)
unfolding mark_unknown list_block_devices
mark_unknown-Safe host_name =
    Safe->>= KeepsClaims Any (set_states unknown) (list_block_devices host_name false) start
      (finish_list-Safe KeepsClaims (set_states unknown) (set_states-Safe unknown))
