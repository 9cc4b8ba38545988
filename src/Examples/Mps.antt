-- ===== src/Examples/Mps.antt =====
-- The property of the MPS control daemon on a host with one daemon.
use k8s_dra_driver.Common.{
  Bool, true, false, not, [], ◌∷◌, Outcome, ok, err, not_found, ◌≡◌, ◌⊎◌, refl, ap, sym,
}
use k8s_dra_driver.Sharing.{MpsControlDaemon, MpsHost, created, stop}
use k8s_dra_driver.Sharing.Stopping.{is_missing, IsMpsHost, stop-Stopped}

abbrev there_if : {A : Type 0} → Bool → A → Outcome A
there_if true a = ok a
there_if false a = err (not_found "not found")

-- The state says whether the deployment and the root directory are there.
abbrev host : MpsHost (Bool × Bool)
host = record {
  get_deployment = λ n s. there_if s.0 1;
  is_deleted = λ n s. not s.0;
  pod_containers = λ n s. ok ((true ∷ []) ∷ []);
  create_deployment = λ n s. (ok created, (true, s.1));
  delete_deployment = λ n s. (ok tt, (false, s.1));
  normalize = λ u s. ok tt;
  render = λ d s. ok tt;
  stat = λ d s. there_if s.1 tt;
  mkdir_all = λ d s. (ok tt, (s.0, true));
  remove_all = λ d s. (ok tt, (s.0, false));
  look_path = λ s. ok tt;
  mount_tmpfs = λ d s. (ok tt, s);
  cleanup_mount_point = λ d s. (ok tt, s);
  nvidia_smi = λ c s. (ok tt, s);
  retry_on_error = λ m. m;
}

host-IsMpsHost : IsMpsHost host
host-IsMpsHost = record {
  deleted = λ n a a' e. ap (λ p. not p.1.0) (sym e);
  missing = λ n m a a' e. cc e;
  removed = λ d a a' e. ap (λ p. is_missing {A = Unit {0}} (there_if p.1.1 tt)) (sym e);
  get-cleanup = λ n d a. refl;
  get-remove_all = λ n d a. refl;
}

abbrev daemon : MpsControlDaemon
daemon = record {
  id = "u1-abcde";
  name = "mps-control-daemon-u1-abcde";
  root_dir = "/mps/u1-abcde";
  pipe_dir = "/mps/u1-abcde/pipe";
  shm_dir = "/mps/u1-abcde/shm";
  log_dir = "/mps/u1-abcde/log";
  uuids = "GPU-1" ∷ [];
  gpu_uuids = "GPU-1" ∷ [];
}

abbrev running : Bool × Bool
running = (true, true)

stop-Stopped_example :
    ((is_missing (host.stat daemon.root_dir running) ≡ true)
      × ((stop host daemon running).1 ≡ running))
    ⊎ ((is_missing (host.stat daemon.root_dir (stop host daemon running).1) ≡ true)
        × (host.is_deleted daemon.name (stop host daemon running).1 ≡ true))
unfolding stop
stop-Stopped_example = stop-Stopped host host-IsMpsHost daemon running refl
