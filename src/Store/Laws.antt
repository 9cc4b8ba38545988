-- ===== src/Store/Laws.antt =====
-- What the driver relies on of the checkpoint manager and of the file lock.
use k8s_dra_driver.Common.{ℕ, ◌≡◌, ◌⊎◌, ok, err, Fault}
use k8s_dra_driver.Checkpoint.{Checkpoint}
use k8s_dra_driver.Checkpoint.Persist.{persist}
use k8s_dra_driver.Checkpoint.RoundTrip.{written}
use k8s_dra_driver.Store.{CheckpointFile}

-- A write that succeeds leaves the marshalled checkpoint in the file; the file is replaced as a
-- whole, so one that fails leaves it as it was. The lock does not touch the file. What is read was
-- decoded from JSON, so it has no field that is not exported.
pub record IsFile {D : Type 0} (file : CheckpointFile D) : Type 0 where
  pub load-acquire : (d : D) → file.load (file.acquire d).1 ≡ file.load d
  pub load-release : (d : D) → file.load (file.release d) ≡ file.load d
  pub create_outcome :
      (cp : Checkpoint) (d : D)
      → (((file.create cp d).0 ≡ ok tt)
          × (c1 : ℕ) × (c2 : ℕ) × (file.load (file.create cp d).1
              ≡ ok (persist (written c1 c2 cp))))
        ⊎ ((e : Fault) × ((file.create cp d).0 ≡ err e)
            × (file.load (file.create cp d).1 ≡ file.load d))
  pub persist-load : (d : D) (c : Checkpoint) → file.load d ≡ ok c → persist c ≡ c
