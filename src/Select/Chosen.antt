-- ===== src/Select/Chosen.antt =====
-- The choice among the candidates: the first that passes the last test.
use node_disk_manager.Base.{
  ℕ, ◌≤◌, String, ◌≡◌, refl, sym, ◌∙◌, zero, suc, ◌≢◌, ◌↔◌, Bool, true, false, Option, List, [],
  ◌∷◌, In, lookup, get_or, StringMap, ◌==◌, arith, leb,
}
use node_disk_manager.Base.Int.{ℤ, pos, negsuc, to_u64}
use node_disk_manager.Api.{BlockDevice, DeviceClaimSpec}
use node_disk_manager.Select.Filters.{
  apply_filters, filter_func, filter_resource_storage, checked_capacity, get_requested_capacity,
}
use node_disk_manager.Select.Each.{In-first_only}
use node_disk_manager.Select.Eligible.{bytes_asked, HasCapacity}
use node_disk_manager.Select.Choose.{
  Selected, SelectError, no_match, no_resources, first_or, select_candidate, device, new_config,
  get_selected_device,
}

-- the test of filterResourceStorage
capacity_test_iff :
    (answer : ℤ × Bool) (storage : ℕ)
    → (leb (to_u64 (checked_capacity answer).0) storage ≡ true) ↔ (bytes_asked answer ≤ storage)
unfolding checked_capacity
capacity_test_iff (pos zero, true) storage = ground arith
capacity_test_iff (pos zero, false) storage = ground arith
capacity_test_iff (pos (suc k), true) storage = ground arith
capacity_test_iff (pos (suc k), false) storage = ground arith
capacity_test_iff (negsuc k, true) storage = ground arith
capacity_test_iff (negsuc k, false) storage = ground arith

pub HasCapacity-iff :
    (as_int64 : String → ℤ × Bool) (spec : DeviceClaimSpec) (bd : BlockDevice)
    → (leb (to_u64 (get_requested_capacity as_int64 spec.requests).0) bd.spec.capacity.storage
        ≡ true)
      ↔ HasCapacity as_int64 spec bd
unfolding get_requested_capacity
HasCapacity-iff as_int64 spec bd =
    capacity_test_iff (as_int64 (get_or (lookup "storage" spec.requests) "0"))
      bd.spec.capacity.storage

pub In-first_or :
    (e : SelectError) (bd : BlockDevice) (l : List BlockDevice) → first_or e l ≡ device bd → In bd l
In-first_or e bd [] h = ground arith
In-first_or e bd (x ∷ l) h = ground arith

pub first_or-found :
    (e : SelectError) (l : List BlockDevice)
    → l ≢ []
    → (bd : BlockDevice) × (first_or e l ≡ device bd)
first_or-found e [] h = absurd (h refl)
first_or-found e (x ∷ l) h = (x, refl)

module _ (as_int64 : String → ℤ × Bool) (does_not_exist : String → Option (StringMap String → Bool))
    (spec : DeviceClaimSpec) where
  abbrev pub chosen : List BlockDevice → Selected
  chosen = select_candidate as_int64 does_not_exist (new_config spec)

  pub chosen_manual :
      (cands : List BlockDevice)
      → (spec.block_device_name == "") ≡ false
      → chosen cands ≡ first_or no_match cands
  unfolding select_candidate get_selected_device
  chosen_manual [] e = refl
  chosen_manual (x ∷ cands) e = rw e

  pub chosen_automatic :
      (cands : List BlockDevice)
      → (spec.block_device_name == "") ≡ true
      → cands ≢ []
      → chosen cands ≡ first_or no_resources (filter_resource_storage as_int64 cands spec)
  unfolding select_candidate get_selected_device apply_filters filter_func
  chosen_automatic [] e h = absurd (h refl)
  chosen_automatic (x ∷ cands) e h = rw e

  pub chosen_automatic_sound :
      (cands : List BlockDevice) (bd : BlockDevice)
      → (spec.block_device_name == "") ≡ true
      → chosen cands ≡ device bd
      → In bd cands × HasCapacity as_int64 spec bd
  unfolding filter_resource_storage select_candidate
  chosen_automatic_sound [] bd e h = absurd (cc)
  chosen_automatic_sound (x ∷ cands) bd e h =
      let found =
        In-first_only
          (λ (b : BlockDevice).
            leb (to_u64 (get_requested_capacity as_int64 spec.requests).0) b.spec.capacity.storage)
          bd (x ∷ cands)
          (In-first_or no_resources bd _ (sym (chosen_automatic (x ∷ cands) e (λ p. cc)) ∙ h)) in
      (found.0, (HasCapacity-iff as_int64 spec bd).0 found.1)
