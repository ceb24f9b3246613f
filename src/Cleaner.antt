-- ===== src/Cleaner.antt =====
-- pkg/cleaner: the job that wipes a released device. The object keys all have the namespace of
-- the operator, so a job is named by its name alone. `env` is os.LookupEnv, and `pull_secrets` is
-- the result of GetOpenEBSImagePullSecrets. A Job here has the fields that vary; the constant ones
-- (the container's name, the privileged flag, the restart policy) are left out.
use node_disk_manager.Base.{
  ◌^^◌, String, Bool, true, false, not, Option, List, [], ◌∷◌, map, ◌==◌, leb, eqb, if◌then◌else◌,
  get_or, lookup,
}
use node_disk_manager.Api.{BlockDevice, DeviceSpec, is_active}
use node_disk_manager.Cluster.Program.{
  Program, Reply, ok, err, not_found, Outcome, done, failed, api, ret, get_job, create_job,
  delete_job, get_taints, check, check_error, ◌>>=◌, ◌>>◌, handle, Job, Taint, Toleration, exists,
  equal,
}
use node_disk_manager.Claim.{host_name_label}

-- CleanupState; the state Unknown comes with an error only, which is the Outcome `failed`
pub data CleanupState : Type 0 where
  job_not_found running succeeded : CleanupState

pub data CleanMode : Type 0 where
  block_mode file_system_mode : CleanMode

unfoldable pub cleaning_job_name : String → String
cleaning_job_name bd_name = "cleanup-" ^^ bd_name

unfoldable pub volume_mode : DeviceSpec → CleanMode
volume_mode spec = if not (spec.file_system.mountpoint == "") then file_system_mode else block_mode

-- the body of the loop of getTolerationsForTaints
abbrev pub toleration_for : Taint → Toleration
toleration_for taint =
    if taint.value == ""
    then record { key = taint.key; operator = exists; value = ""; effect = taint.effect }
    else record { key = taint.key; operator = equal; value = taint.value; effect = taint.effect }

unfoldable pub tolerations_for_taints : List Taint → List Toleration
tolerations_for_taints taints = map toleration_for taints

-- getCleanUpImage
unfoldable pub cleanup_image : (String → Option String) → String
cleanup_image env = get_or (env "CLEANUP_JOB_IMAGE") "quay.io/openebs/linux-utils:latest"

-- os.Getenv, which is empty where the variable is not set
unfoldable pub service_account : (String → Option String) → String
service_account env = get_or (env "SERVICE_ACCOUNT") ""

-- the script for a block device
block_script : String → String
block_script path =
    "(pvs -o pv_name,vg_name|grep " ^^ path
    ^^ "|awk '{print $2}'| xargs -I {} sh -c 'dmsetup info -c -o name --noheadings|grep ^{}- "
    ^^ "| xargs -t -I {} dmsetup remove {} ') && (fdisk -o Device -l " ^^ path ^^ " | grep \"^"
    ^^ path ^^ "\" | xargs -I '{}' wipefs -fa '{}') && wipefs -fa " ^^ path ^^ " "

clean_args : CleanMode → DeviceSpec → String
unfolding block_script
clean_args block_mode spec =
    if spec.details.device_type == "disk"
    then block_script spec.path ^^ "&& partprobe " ^^ spec.path ^^ " "
    else block_script spec.path
clean_args file_system_mode spec = "find /tmp -mindepth 1 -maxdepth 1 -print0 | xargs -0 rm -rf"

-- the host path and the path in the container that getVolumeMounts is called with
unfoldable pub clean_paths : CleanMode → DeviceSpec → String × String
clean_paths block_mode spec =
    if spec.details.device_type == "sparse" then (spec.path, spec.path) else ("/dev", "/dev")
clean_paths file_system_mode spec = (spec.file_system.mountpoint, "/tmp")

-- GetNodeName
abbrev pub node_name_of : BlockDevice → String
node_name_of bd = bd.spec.node_attributes.node_name

-- IsCleaningJobRunning: an error other than NotFound counts as running
unfoldable pub running_of : Reply Job → Program (Outcome Bool)
running_of (err not_found) = ret (done false)
running_of (err _) = ret (done true)
running_of (ok job) = ret (done (leb job.succeeded 0))

unfoldable pub is_cleaning_job_running : String → Program (Outcome Bool)
is_cleaning_job_running bd_name = get_job (cleaning_job_name bd_name) running_of

-- CancelJob: the error of Get is not looked at, and the job is then the empty object
abbrev pub fetched_name : Reply Job → String
fetched_name (ok job) = job.name
fetched_name (err _) = ""

unfoldable pub cancel_job : String → Program (Outcome Unit)
cancel_job bd_name =
    get_job (cleaning_job_name bd_name) (λ r. delete_job (fetched_name r) check_error)

-- RemoveJob
unfoldable pub removed_of : String → Reply Job → Program (Outcome CleanupState)
removed_of bd_name (err not_found) = ret (done job_not_found)
removed_of bd_name (err e) = ret (failed (api e))
removed_of bd_name (ok job) =
    if eqb job.succeeded 0 then ret (done running) else cancel_job bd_name >> ret (done succeeded)

unfoldable pub remove_job : String → Program (Outcome CleanupState)
remove_job bd_name = get_job (cleaning_job_name bd_name) (removed_of bd_name)

module _ (env : String → Option String) (pull_secrets : List String) (namespace : String) where
  -- NewCleanupJob, which never fails
  unfoldable pub new_cleanup_job : BlockDevice → CleanMode → List Toleration → Job
  unfolding clean_args clean_paths
  new_cleanup_job bd mode tolerations =
      let node_name = get_or (lookup host_name_label bd.meta.labels) "" in
      record {
        name = cleaning_job_name bd.meta.name;
        namespace = namespace;
        labels = (host_name_label, node_name) ∷ ("blockdevice", bd.meta.name) ∷ [];
        image = cleanup_image env;
        command = "/bin/sh" ∷ "-c" ∷ [];
        args = clean_args mode bd.spec ∷ [];
        volumes = ("vol-mount", (clean_paths mode bd.spec).0) ∷ [];
        mounts = ("vol-mount", (clean_paths mode bd.spec).1) ∷ [];
        tolerations = tolerations;
        service_account = service_account env;
        node_selector = (host_name_label, node_name) ∷ [];
        pull_secrets = pull_secrets;
        succeeded = 0;
      }

  -- runJob
  unfoldable pub run_job : BlockDevice → CleanMode → Program (Outcome Unit)
  run_job bd mode = get_taints (node_name_of bd) check >>= (λ taints.
      create_job (new_cleanup_job bd mode (tolerations_for_taints taints)) check_error)

  unfoldable pub start_job : BlockDevice → Program (Outcome Bool)
  start_job bd = run_job bd (volume_mode bd.spec) >> ret (done false)

  -- the rest of Clean, where no cleanup is in progress
  unfoldable pub clean_state : BlockDevice → Outcome CleanupState → Program (Outcome Bool)
  unfolding start_job
  clean_state bd (failed _) = ret (done false)
  clean_state bd (done succeeded) = ret (done true)
  clean_state bd (done job_not_found) =
      if not (is_active bd.status.state) then ret (done false) else start_job bd
  clean_state bd (done running) = start_job bd

  unfoldable pub clean_progress : BlockDevice → Bool → Program (Outcome Bool)
  clean_progress bd true =
      if not (is_active bd.status.state)
      then cancel_job bd.meta.name >> ret (done false)
      else ret (done false)
  clean_progress bd false = handle (remove_job bd.meta.name) (clean_state bd)

  -- Clean: whether the device is clean
  unfoldable pub clean : BlockDevice → Program (Outcome Bool)
  clean bd = is_cleaning_job_running bd.meta.name >>= clean_progress bd
