-- ===== src/Cluster/Program.antt =====
-- What the operator and the daemon say to the API server (client.Client of controller-runtime). The
-- server is not part of the repository: a program is a tree of requests, each with a continuation
-- for every reply, so a statement about a program holds for all replies, errors included.
-- Each request carries what the call sends; an update or a create is answered with the stored
-- object. Events sent to the recorder and log lines have no effect and are left out.
use node_disk_manager.Base.{Option, ℕ, String, List, StringMap}
use node_disk_manager.Cluster.Disk.{DiskRequest}
use node_disk_manager.Api.{BlockDevice, BlockDeviceClaim, LabelSelector}

-- The errors that the program tells apart (errors.IsNotFound and its like).
pub data ApiError : Type 0 where
  not_found already_exists conflict other_error : ApiError

pub data Reply (A : Type 0) : Type 0 where
  ok : A → Reply A
  err : ApiError → Reply A

-- v1.Taint and v1.Toleration
pub record Taint : Type 0 where
  pub key : String
  pub value : String
  pub effect : String

pub data TolerationOperator : Type 0 where
  exists equal : TolerationOperator

pub record Toleration : Type 0 where
  pub key : String
  pub operator : TolerationOperator
  pub value : String
  pub effect : String

-- The parts of batchv1.Job that the cleaner fills in or reads. `volume` is the host path and
-- `mount` the path in the container; `succeeded` is the count in the status.
pub record Job : Type 0 where
  pub name : String
  pub namespace : String
  pub labels : StringMap String
  pub image : String
  pub command : List String
  pub args : List String
  pub volumes : List (String × String)
  pub mounts : List (String × String)
  pub tolerations : List Toleration
  pub service_account : String
  pub node_selector : StringMap String
  pub pull_secrets : List String
  pub succeeded : ℕ

pub data Program (A : Type 0) : Type 0 where
  ret : A → Program A
  get_claim : String → (Reply BlockDeviceClaim → Program A) → Program A
  update_claim : BlockDeviceClaim → (Reply BlockDeviceClaim → Program A) → Program A
  get_device : String → (Reply BlockDevice → Program A) → Program A
  list_devices : LabelSelector → (Reply (List BlockDevice) → Program A) → Program A
  create_device : BlockDevice → (Reply BlockDevice → Program A) → Program A
  update_device : BlockDevice → (Reply BlockDevice → Program A) → Program A
  get_taints : String → (Reply (List Taint) → Program A) → Program A
  get_job : String → (Reply Job → Program A) → Program A
  create_job : Job → (Reply Job → Program A) → Program A
  delete_job : String → (Reply Job → Program A) → Program A
  ask_disk : DiskRequest → (Option String → Program A) → Program A

-- What a function of the program returns with its error.
pub data Failure : Type 0 where
  api : ApiError → Failure
  bad_selector invalid_capacity no_reference nothing_to_release nil_pointer : Failure
  disk_error unreachable_state no_parent no_identity bad_label need_rescan : Failure

pub data Outcome (A : Type 0) : Type 0 where
  done : A → Outcome A
  failed : Failure → Outcome A

-- `if err != nil { return err }` after each call
infixl 5 ◌>>=◌ ◌>>◌
abbrev pub ◌>>=◌ :
    {A B : Type 0} → Program (Outcome A) → (A → Program (Outcome B)) → Program (Outcome B)
ret (done a) >>= f = f a
ret (failed e) >>= f = ret (failed e)
get_claim n k >>= f = get_claim n (λ r. k r >>= f)
update_claim c k >>= f = update_claim c (λ r. k r >>= f)
get_device n k >>= f = get_device n (λ r. k r >>= f)
list_devices s k >>= f = list_devices s (λ r. k r >>= f)
create_device d k >>= f = create_device d (λ r. k r >>= f)
update_device d k >>= f = update_device d (λ r. k r >>= f)
get_taints n k >>= f = get_taints n (λ r. k r >>= f)
get_job n k >>= f = get_job n (λ r. k r >>= f)
create_job j k >>= f = create_job j (λ r. k r >>= f)
delete_job n k >>= f = delete_job n (λ r. k r >>= f)
ask_disk q k >>= f = ask_disk q (λ r. k r >>= f)

abbrev pub ◌>>◌ : {A B : Type 0} → Program (Outcome A) → Program (Outcome B) → Program (Outcome B)
m >> n = m >>= λ _. n

-- a call that returns the object, or the error as it is
abbrev pub check : {A : Type 0} → Reply A → Program (Outcome A)
check (ok a) = ret (done a)
check (err e) = ret (failed (api e))

-- a call whose error is returned, where the object is not used
abbrev pub check_error : {A : Type 0} → Reply A → Program (Outcome Unit)
check_error (ok _) = ret (done tt)
check_error (err e) = ret (failed (api e))

-- a call whose error the caller looks at itself
abbrev pub handle : {A B : Type 0} → Program A → (A → Program B) → Program B
handle (ret a) f = f a
handle (get_claim n k) f = get_claim n (λ r. handle (k r) f)
handle (update_claim c k) f = update_claim c (λ r. handle (k r) f)
handle (get_device n k) f = get_device n (λ r. handle (k r) f)
handle (list_devices s k) f = list_devices s (λ r. handle (k r) f)
handle (create_device d k) f = create_device d (λ r. handle (k r) f)
handle (update_device d k) f = update_device d (λ r. handle (k r) f)
handle (get_taints n k) f = get_taints n (λ r. handle (k r) f)
handle (get_job n k) f = get_job n (λ r. handle (k r) f)
handle (create_job j k) f = create_job j (λ r. handle (k r) f)
handle (delete_job n k) f = delete_job n (λ r. handle (k r) f)
handle (ask_disk q k) f = ask_disk q (λ r. handle (k r) f)
