-- ===== src/Device/Cleaning.antt =====
-- The writes of Clean, and of the reconciler after it.
use node_disk_manager.Base.{
  remove_string, leb, String, ◌≡◌, ◌≢◌, ◌⊎◌, Bool, true, false, Option, List, In, refl, inl, inr,
  Bool-cases, arith, eqb, contains, In→contains, contains-remove_string,
}
use node_disk_manager.Api.{BlockDevice, DeviceState, active, released, is_active}
use node_disk_manager.Cluster.Program.{
  api, Program, Outcome, done, failed, Failure, Reply, ok, err, not_found, already_exists, conflict,
  other_error, Job, ret, delete_job, check_error, ◌>>=◌, ◌>>◌,
}
use node_disk_manager.Cluster.Safe.{
  Any, History, Safe, Then, Safe->>=, Safe-handle, read_job, removed_job,
}
use node_disk_manager.Claim.{block_device_finalizer}
use node_disk_manager.Cleaner.{
  CleanupState, succeeded, cleaning_job_name, cancel_job, fetched_name, removed_of, remove_job,
  run_job, start_job, clean_state, clean_progress, clean, running_of, is_cleaning_job_running,
  new_cleanup_job,
}
use node_disk_manager.Device.{after_clean}
use node_disk_manager.Device.Allowed.{Allowed, WasWiped, WasUnfinished}

active_of : (s : DeviceState) → is_active s ≡ true → s ≡ active
active_of active e = refl
active_of DeviceState.inactive e = absurd cc
active_of DeviceState.unknown e = absurd cc

inactive_of : (s : DeviceState) → is_active s ≡ false → s ≢ active
inactive_of s i e = let on : is_active s ≡ true = rw e refl in absurd (cc)

no_finalizer :
    (fs : List String) → ¬ In block_device_finalizer (remove_string fs block_device_finalizer)
no_finalizer fs i =
    let there = In→contains (remove_string fs block_device_finalizer) block_device_finalizer i in
    let gone : contains (remove_string fs block_device_finalizer) block_device_finalizer ≡ false =
      contains-remove_string fs block_device_finalizer block_device_finalizer in
    absurd (cc)

module _ (bd : BlockDevice) (is_released : bd.status.claim_state ≡ released) where
  abbrev name : String
  name = cleaning_job_name bd.meta.name

  cleaned_false : (h : History) → Safe Allowed Any h (after_clean bd (done false))
  unfolding after_clean
  cleaned_false h = tt

  cleaned_failed : (h : History) (e : Failure) → Safe Allowed Any h (after_clean bd (failed e))
  unfolding after_clean
  cleaned_failed h e = tt

  deleted-Safe :
      {B : Type 0} (post : History → Outcome B → Type 0) (f : Unit → Program (Outcome B))
      (h : History) (n : String)
      → ((h' : History) (e : Failure) → post h' (failed e))
      → ((j : Job) → Safe Allowed post (removed_job n (ok j) h) (f tt))
      → (r : Reply Job) → Safe Allowed (Then Allowed post f) (removed_job n r h) (check_error r)
  deleted-Safe post f h n bad good (ok j) = good j
  deleted-Safe post f h n bad good (err e) = bad h (api e)

  delete-Safe :
      {B : Type 0} (post : History → Outcome B → Type 0) (f : Unit → Program (Outcome B))
      (h : History) (r : Reply Job)
      → In bd h.listed
      → (bd.status.state ≢ active) ⊎ WasWiped h bd
      → ((h' : History) (e : Failure) → post h' (failed e))
      → ((j : Job)
          → Safe Allowed post (removed_job (fetched_name r) (ok j) (read_job name r h)) (f tt))
      → Safe Allowed
          (Then Allowed post f)
          (read_job name r h)
          (delete_job (fetched_name r) check_error)
  delete-Safe post f h (ok j) m why bad good =
      let still : (bd.status.state ≢ active) ⊎ WasWiped (read_job name (ok j) h) bd = elim why [
        | inl off ↦ inl off
        | inr (job, i, nz) ↦ inr (job, inr i, nz)
      ] in
      (
        (bd, m, is_released, inr (j, inl refl, refl), still),
        deleted-Safe post f (read_job name (ok j) h) j.name bad good,
      )
  delete-Safe post f h (err e) m why bad good =
      ((bd, m, is_released, inl refl, why), deleted-Safe post f h "" bad good)

  -- after Clean
  abbrev Cleaned : History → Outcome Bool → Type 0
  Cleaned h o = Safe Allowed Any h (after_clean bd o)

  module _ (env : String → Option String) (pull_secrets : List String) (namespace : String) where
    -- after RemoveJob
    abbrev Removed : History → Outcome CleanupState → Type 0
    Removed h o = Safe Allowed Cleaned h (clean_state env pull_secrets namespace bd o)

    recycled-Safe :
        (h : History) (r : Reply Job) (j : Job)
        → In bd h.listed
        → WasWiped h bd
        → Cleaned (removed_job (fetched_name r) (ok j) (read_job name r h)) (done true)
    unfolding after_clean
    recycled-Safe h (ok job) j m (wiped, i, nz) = (
      (
        bd,
        m,
        record { same_name = refl; same_uid = refl; same_version = refl },
        inl (is_released, (wiped, inr i, nz), λ e. cc, refl, no_finalizer bd.meta.finalizers, refl),
      ),
      λ _. tt,
    )
    recycled-Safe h (err e) j m wiped = (
      (
        bd,
        m,
        record { same_name = refl; same_uid = refl; same_version = refl },
        inl (is_released, wiped, λ e. cc, refl, no_finalizer bd.meta.finalizers, refl),
      ),
      λ _. tt,
    )

    stopped :
        (h : History) (r : Reply Job) → Safe Allowed Cleaned h (check_error r >> ret (done false))
    unfolding after_clean
    stopped h (ok _) = tt
    stopped h (err e) = tt

    start_job-Safe :
        (h : History)
        → In bd h.listed
        → (bd.status.state ≡ active) ⊎ WasUnfinished h bd
        → Safe Allowed Cleaned h (start_job env pull_secrets namespace bd)
    unfolding start_job run_job after_clean new_cleanup_job
    start_job-Safe h m why (ok ts) = ((bd, m, is_released, refl, why), stopped h)
    start_job-Safe h m why (err e) = tt

    removed_of-Safe :
        (h : History) (r : Reply Job)
        → In bd h.listed
        → Safe Allowed Removed (read_job name r h) (removed_of bd.meta.name r)
    unfolding removed_of clean_state cancel_job
    removed_of-Safe h (err not_found) m = elim (Bool-cases (is_active bd.status.state)) [
      | inl a ↦ rw a (start_job-Safe h m (inl (active_of bd.status.state a)))
      | inr i ↦ rw i (cleaned_false h)
    ]
    removed_of-Safe h (err already_exists) m = cleaned_false h
    removed_of-Safe h (err conflict) m = cleaned_false h
    removed_of-Safe h (err other_error) m = cleaned_false h
    removed_of-Safe h (ok job) m = elim (Bool-cases (eqb job.succeeded 0)) [
      | inl z ↦ rw z (start_job-Safe _ m (inr (job, inl refl, ground arith)))
      | inr nz ↦ rw nz (
          let wiped : WasWiped (read_job name (ok job) h) bd = (job, inl refl, ground arith) in
          Safe->>= Allowed Removed (λ _. ret (done succeeded)) (cancel_job bd.meta.name)
            (read_job name (ok job) h)
            (λ r.
              delete-Safe Removed (λ _. ret (done succeeded)) (read_job name (ok job) h) r m
                (inr wiped) (λ h' e. cleaned_false h')
                (λ j. recycled-Safe (read_job name (ok job) h) r j m wiped)))
    ]

    progress-Safe :
        (h : History) (in_progress : Bool)
        → In bd h.listed
        → Safe Allowed Cleaned h (clean_progress env pull_secrets namespace bd in_progress)
    unfolding clean_progress remove_job cancel_job clean_state
    progress-Safe h false m =
        Safe-handle Allowed Cleaned (clean_state env pull_secrets namespace bd)
          (remove_job bd.meta.name) h (λ r. removed_of-Safe h r m)
    progress-Safe h true m = elim (Bool-cases (is_active bd.status.state)) [
      | inl a ↦ rw a (cleaned_false h)
      | inr i ↦ rw i (
          Safe->>= Allowed Cleaned (λ _. ret (done false)) (cancel_job bd.meta.name) h
            (λ r.
              delete-Safe Cleaned (λ _. ret (done false)) h r m
                (inl (inactive_of bd.status.state i)) (λ h' e. cleaned_failed h' e)
                (λ j. cleaned_false _)))
    ]

    running_of-Safe :
        (h : History) (r : Reply Job)
        → In bd h.listed
        → Safe Allowed Cleaned
            (read_job name r h)
            (running_of r >>= clean_progress env pull_secrets namespace bd)
    unfolding running_of
    running_of-Safe h (err not_found) m = progress-Safe h false m
    running_of-Safe h (err already_exists) m = progress-Safe h true m
    running_of-Safe h (err conflict) m = progress-Safe h true m
    running_of-Safe h (err other_error) m = progress-Safe h true m
    running_of-Safe h (ok job) m = progress-Safe (read_job name (ok job) h) (leb job.succeeded 0) m

    pub clean-Safe :
        (h : History)
        → In bd h.listed
        → Safe Allowed Cleaned h (clean env pull_secrets namespace bd)
    unfolding clean is_cleaning_job_running
    clean-Safe h m = λ r. running_of-Safe h r m
