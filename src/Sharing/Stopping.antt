-- ===== src/Sharing/Stopping.antt =====
-- What is left of an MPS control daemon that was stopped.
use k8s_dra_driver.Common.{
  Bool, true, false, String, Outcome, ok, err, panic, not_found, failure, is_ok, ◌>>◌, asks,
  Ensures, chain-cases, ◌≡◌, ◌⊎◌, inl, inr, refl, ap, sym, ◌∙◌,
}
use k8s_dra_driver.Sharing.{MpsControlDaemon, MpsHost, unless_found, stop_daemon, stop_of, stop}

abbrev pub is_missing : {A : Type 0} → Outcome A → Bool
is_missing (err (not_found m)) = true
is_missing (err (failure m)) = false
is_missing (ok a) = false
is_missing panic = false

-- What the host does: a deployment that was deleted, or was not there to delete, is gone or marked
-- for deletion; a directory that was removed is not found; the mounts and the directories are not
-- deployments.
pub record IsMpsHost {A : Type 0} (host : MpsHost A) : Type 0 where
  pub deleted :
      (name : String) (a a' : A)
      → host.delete_deployment name a ≡ (ok tt, a')
      → host.is_deleted name a' ≡ true
  pub missing :
      (name m : String) (a a' : A)
      → host.delete_deployment name a ≡ (err (not_found m), a')
      → host.is_deleted name a' ≡ true
  pub removed :
      (dir : String) (a a' : A)
      → host.remove_all dir a ≡ (ok tt, a')
      → is_missing (host.stat dir a') ≡ true
  pub get-cleanup :
      (name dir : String) (a : A)
      → host.is_deleted name (host.cleanup_mount_point dir a).1 ≡ host.is_deleted name a
  pub get-remove_all :
      (name dir : String) (a : A)
      → host.is_deleted name (host.remove_all dir a).1 ≡ host.is_deleted name a

module _ {A : Type 0} (host : MpsHost A) (host-IsMpsHost : IsMpsHost host)
    (d : MpsControlDaemon) where
  open host-IsMpsHost use {deleted, missing, removed, get-cleanup, get-remove_all}

  -- The root directory is not there, and the deployment is gone or marked for deletion.
  abbrev Stopped : A → Type 0
  Stopped a = (is_missing (host.stat d.root_dir a) ≡ true) × (host.is_deleted d.name a ≡ true)

  -- The last call, from a state without the deployment.
  remove-Stopped :
      (a : A) (p : Outcome (Unit {0}) × A)
      → host.remove_all d.root_dir a ≡ p
      → host.is_deleted d.name a ≡ true
      → is_ok p.0 ≡ true
      → Stopped p.1
  remove-Stopped a (ok tt, a') e m b = (
    removed d.root_dir a a' e,
    (ap (λ p. host.is_deleted d.name p.1) (sym e) ∙ get-remove_all d.name d.root_dir a) ∙ m,
  )
  remove-Stopped a (err x, a') e m b = cc
  remove-Stopped a (panic, a') e m b = cc

  clean-Stopped :
      (a : A)
      → host.is_deleted d.name a ≡ true
      → is_ok ((host.cleanup_mount_point d.shm_dir >> host.remove_all d.root_dir) a).0 ≡ true
      → Stopped ((host.cleanup_mount_point d.shm_dir >> host.remove_all d.root_dir) a).1
  clean-Stopped a m =
      chain-cases (host.cleanup_mount_point d.shm_dir) (λ _. host.remove_all d.root_dir)
        (λ p. is_ok p.0 ≡ true → Stopped p.1) a
        (λ u a' e b.
          remove-Stopped a' _ refl
            (ap (λ p. host.is_deleted d.name p.1) (sym e) ∙ get-cleanup d.name d.shm_dir a ∙ m) b)
        (λ r a' b e b' c. cc)

  path-Stopped :
      (a : A)
      → host.is_deleted d.name a ≡ true
      → is_ok
          ((asks host.look_path >> host.cleanup_mount_point d.shm_dir >> host.remove_all d.root_dir)
            a).0
        ≡ true
      → Stopped
          ((asks host.look_path >> host.cleanup_mount_point d.shm_dir >> host.remove_all d.root_dir)
            a).1
  path-Stopped a m =
      chain-cases (asks host.look_path)
        (λ _. host.cleanup_mount_point d.shm_dir >> host.remove_all d.root_dir)
        (λ p. is_ok p.0 ≡ true → Stopped p.1) a
        (λ u a' e b. clean-Stopped a' (ap (λ p. host.is_deleted d.name p.1) (sym e) ∙ m) b)
        (λ r a' b e b' c. cc)

  -- A deletion that `Stop` goes on after has deleted the deployment, or has not found it.
  deletion_lem :
      (a : A) (p : Outcome (Unit {0}) × A) (u : Unit {0}) (a' : A)
      → host.delete_deployment d.name a ≡ p
      → unless_found host p ≡ (ok u, a')
      → host.is_deleted d.name a' ≡ true
  deletion_lem a (ok u, b) u' a' e f =
      ap (host.is_deleted d.name) (sym (ap (λ p. p.1) f)) ∙ deleted d.name a b e
  deletion_lem a (err (not_found m), b) u' a' e f =
      ap (host.is_deleted d.name) (sym (ap (λ p. p.1) f)) ∙ missing d.name m a b e
  deletion_lem a (err (failure m), b) u' a' e f = cc (ap (λ p. is_ok p.0) f)
  deletion_lem a (panic, b) u' a' e f = cc (ap (λ p. is_ok p.0) f)

  stop_daemon-Stopped : Ensures Stopped (stop_daemon host d)
  unfolding stop_daemon
  stop_daemon-Stopped a =
      chain-cases (λ a. unless_found host (host.delete_deployment d.name a)) _
        (λ p. is_ok p.0 ≡ true → Stopped p.1) a
        (λ u a' e b. path-Stopped a' (deletion_lem a _ u a' refl e) b) (λ r a' b e b' c. cc)

  stop_of-Stopped :
      (r : Outcome (Unit {0})) (a : A)
      → host.stat d.root_dir a ≡ r
      → is_ok (stop_of host d r a).0 ≡ true
      → ((is_missing (host.stat d.root_dir a) ≡ true) × ((stop_of host d r a).1 ≡ a))
        ⊎ Stopped (stop_of host d r a).1
  stop_of-Stopped (err (not_found m)) a e b = inl (ap is_missing e, refl)
  stop_of-Stopped (err (failure m)) a e b = inr (stop_daemon-Stopped a b)
  stop_of-Stopped (ok u) a e b = inr (stop_daemon-Stopped a b)
  stop_of-Stopped panic a e b = cc

  -- `Stop` of a daemon that returns no error either finds no root directory and changes nothing, or
  -- leaves no root directory, and its deployment gone or marked for deletion.
  pub stop-Stopped :
      (a : A)
      → is_ok (stop host d a).0 ≡ true
      → ((is_missing (host.stat d.root_dir a) ≡ true) × ((stop host d a).1 ≡ a))
        ⊎ ((is_missing (host.stat d.root_dir (stop host d a).1) ≡ true)
            × (host.is_deleted d.name (stop host d a).1 ≡ true))
  unfolding stop
  stop-Stopped a b = stop_of-Stopped (host.stat d.root_dir a) a refl b
