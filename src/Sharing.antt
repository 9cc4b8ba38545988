-- ===== src/Sharing.antt =====
-- cmd/hami-kubelet-plugin/sharing.go: time slicing, and the MPS control daemon of a claim; with the
-- loops over nvidia-smi of nvlib.go. The API server, the files, the mounts and nvidia-smi are
-- parameters.
pub mod Stopping
use k8s_dra_driver.Common.{
  ℕ, Bool, true, false, not, Option, none, some, List, [], ◌∷◌, String, ◌<>◌, eqb, if◌then◌else◌,
  Outcome, ok, err, panic, Fault, not_found, failure, and_then, Exec, ◌>>=◌, ◌>>◌, pure, raise,
  lift, asks,
}
use k8s_dra_driver.Devices.Prepared.{ContainerEdits, Mount}

-- MpsControlDaemon: its names and directories, and the UUIDs of its devices.
pub record MpsControlDaemon : Type 0 where
  pub id : String
  pub name : String
  pub root_dir : String
  pub pipe_dir : String
  pub shm_dir : String
  pub log_dir : String
  pub uuids : List String
  pub gpu_uuids : List String

-- What `Create` of a deployment gives.
pub data CreateReply : Type 0 where
  created already_exists refused : CreateReply

-- `render` parses and executes the template and converts the object; `normalize` is that of the
-- configuration API. `pod_containers` gives, for each pod of a deployment, which containers are ready.
-- `is_deleted` says that a deployment is gone or marked for deletion: a deletion in the foreground
-- leaves it, marked, until its pods are gone.
pub record MpsHost (A : Type 0) : Type 0 where
  pub get_deployment : String → A → Outcome ℕ
  pub is_deleted : String → A → Bool
  pub pod_containers : String → A → Outcome (List (List Bool))
  pub create_deployment : String → Exec A CreateReply
  pub delete_deployment : String → Exec A (Unit {0})
  pub normalize : List String → A → Outcome (Unit {0})
  pub render : MpsControlDaemon → A → Outcome (Unit {0})
  pub stat : String → A → Outcome (Unit {0})
  pub mkdir_all : String → Exec A (Unit {0})
  pub remove_all : String → Exec A (Unit {0})
  pub look_path : A → Outcome (Unit {0})
  pub mount_tmpfs : String → Exec A (Unit {0})
  pub cleanup_mount_point : String → Exec A (Unit {0})
  pub nvidia_smi : List String → Exec A (Unit {0})
  pub retry_on_error : Exec A (Unit {0}) → Exec A (Unit {0})

module _ {A : Type 0} (host : MpsHost A) where
  -- (l deviceLib) setTimeSlice; `time_slice` is the number as a text.
  unfoldable pub set_time_slice : List String → String → Exec A (Unit {0})
  set_time_slice [] time_slice = pure tt
  set_time_slice (uuid ∷ uuids) time_slice =
      let rest = set_time_slice uuids time_slice in
      host.nvidia_smi ("compute-policy" ∷ "-i" ∷ uuid ∷ "--set-timeslice" ∷ time_slice ∷ []) >> rest

  -- (l deviceLib) setComputeMode
  unfoldable pub set_compute_mode : List String → String → Exec A (Unit {0})
  set_compute_mode [] mode = pure tt
  set_compute_mode (uuid ∷ uuids) mode =
      let rest = set_compute_mode uuids mode in
      host.nvidia_smi ("-i" ∷ uuid ∷ "-c" ∷ mode ∷ []) >> rest

  -- (t *TimeSlicingManager) SetTimeSlice
  unfoldable pub time_slicing_set_time_slice : List String → String → Exec A (Unit {0})
  unfolding set_time_slice set_compute_mode
  time_slicing_set_time_slice uuids interval =
      set_compute_mode uuids "DEFAULT" >> set_time_slice uuids interval

  abbrev pub is_started_of : Outcome ℕ → Outcome Bool
  is_started_of (ok n) = ok true
  is_started_of (err (not_found m)) = ok false
  is_started_of (err (failure m)) = err (failure m)
  is_started_of panic = panic

  -- (m *MpsManager) IsControlDaemonStarted
  abbrev pub is_control_daemon_started : String → A → Outcome Bool
  is_control_daemon_started id a =
      is_started_of (host.get_deployment ("mps-control-daemon-" <> id) a)

  -- (m *MpsManager) IsControlDaemonStopped
  abbrev pub is_control_daemon_stopped : String → A → Outcome Bool
  is_control_daemon_stopped id a = and_then (is_control_daemon_started id a) (λ b. ok (not b))

  -- A deployment that is there already is no error.
  abbrev pub of_create : CreateReply → Exec A (Unit {0})
  of_create created = pure tt
  of_create already_exists = pure tt
  of_create refused = raise "failed to create deployment"

  -- `Start`, where the deployment is not there; `has_config` says whether a configuration is given.
  unfoldable pub start_daemon : MpsControlDaemon → Bool → Exec A (Unit {0})
  unfolding set_compute_mode
  start_daemon d has_config =
      (if has_config then asks (host.normalize d.uuids) else pure tt)
      >> asks (host.render d)
      >> host.mkdir_all d.shm_dir
      >> host.mkdir_all d.pipe_dir
      >> host.mkdir_all d.log_dir
      >> asks host.look_path
      >> host.mount_tmpfs d.shm_dir
      >> set_compute_mode d.gpu_uuids "EXCLUSIVE_PROCESS"
      >> host.create_deployment d.name
      >>= λ reply. of_create reply

  -- (m *MpsControlDaemon) Start
  unfoldable pub start : MpsControlDaemon → Bool → Exec A (Unit {0})
  unfolding start_daemon
  start d has_config = asks (is_control_daemon_started d.id) >>= λ started.
      if started then pure tt else start_daemon d has_config

  abbrev pub one_container : List Bool → Outcome (Unit {0})
  one_container (true ∷ []) = ok tt
  one_container (false ∷ []) = err (failure "control daemon not yet ready")
  one_container [] = err (failure "unexpected number of container statuses in pod")
  one_container (a ∷ b ∷ bs) = err (failure "unexpected number of container statuses in pod")

  abbrev pub one_pod : List (List Bool) → Outcome (Unit {0})
  one_pod (p ∷ []) = one_container p
  one_pod [] = err (failure "unexpected number of pods in deployment")
  one_pod (p ∷ q ∷ ps) = err (failure "unexpected number of pods in deployment")

  -- One call of the function that `AssertReady` retries.
  abbrev pub ready : String → A → Outcome (Unit {0})
  ready name a = and_then (host.get_deployment name a) (λ replicas.
      if not (eqb replicas 1)
      then err (failure "waiting for MPS control daemon to come online")
      else and_then (host.pod_containers name a) one_pod)

  -- (m *MpsControlDaemon) AssertReady
  abbrev pub assert_ready : MpsControlDaemon → Exec A (Unit {0})
  assert_ready d = host.retry_on_error (asks (ready d.name))

  -- A deployment that is not there is no error.
  abbrev pub unless_found : Outcome (Unit {0}) × A → Outcome (Unit {0}) × A
  unless_found (ok u, a) = (ok tt, a)
  unless_found (err (not_found m), a) = (ok tt, a)
  unless_found (err (failure m), a) = (err (failure m), a)
  unless_found (panic, a) = (panic, a)

  unfoldable pub stop_daemon : MpsControlDaemon → Exec A (Unit {0})
  stop_daemon d =
      (λ a. unless_found (host.delete_deployment d.name a))
      >> asks host.look_path
      >> host.cleanup_mount_point d.shm_dir
      >> host.remove_all d.root_dir

  -- Only a root directory that is not there ends `Stop` early; another error of `Stat` does not.
  abbrev pub stop_of : MpsControlDaemon → Outcome (Unit {0}) → Exec A (Unit {0})
  stop_of d (err (not_found m)) = pure tt
  stop_of d (err (failure m)) = stop_daemon d
  stop_of d (ok u) = stop_daemon d
  stop_of d panic = lift panic

  -- (m *MpsControlDaemon) Stop
  unfoldable pub stop : MpsControlDaemon → Exec A (Unit {0})
  unfolding stop_daemon
  stop d a = stop_of d (host.stat d.root_dir a) a
