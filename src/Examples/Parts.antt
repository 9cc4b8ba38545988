-- ===== src/Examples/Parts.antt =====
-- Concrete parameters: an encoding, a checkpoint file, a configuration API and managers.
use k8s_dra_driver.Common.{
  ℕ, ◌+◌, ◌-◌, eqb, false, none, [], ◌∷◌, String, ◌<>◌, if◌then◌else◌, Outcome, ok, err, failure,
  not_found, Exec, pure, raise, ◌≡◌, refl, ap, sym, ◌∙◌, inl,
}
use k8s_dra_driver.Kube.{ResourceClaim}
use k8s_dra_driver.Checkpoint.{Checkpoint, CheckpointV2}
use k8s_dra_driver.Checkpoint.Persist.{persist, persist_v2}
use k8s_dra_driver.Checkpoint.Idempotent.{persist-persist, v2_again}
use k8s_dra_driver.Checkpoint.Codec.{Json, IsJson}
use k8s_dra_driver.Checkpoint.RoundTrip.{written}
use k8s_dra_driver.Store.{CheckpointFile}
use k8s_dra_driver.Store.Laws.{IsFile}
use k8s_dra_driver.State.{ConfigApi, ConfigKind, gpu_config, mig_config, vfio_config, Managers}

-- Bytes, as the values that they encode.
pub data Bytes : Type 0 where
  of_checkpoint : Checkpoint → Bytes
  of_v2 : CheckpointV2 → Bytes

abbrev decoded : Bytes → Outcome Checkpoint
decoded (of_checkpoint c) = ok c
decoded (of_v2 v) = err (failure "not a checkpoint")

abbrev pub json : Json Bytes
json = record {
  encode = λ c. ok (of_checkpoint (persist c));
  encode_v2 = λ v. ok (of_v2 (persist_v2 v));
  decode = decoded;
  new_checksum = λ b. 7;
  verify = λ n b. if eqb n 7 then ok tt else err (failure "checkpoint is corrupted");
}

decoded-encode :
    (c : Checkpoint) (b : Bytes)
    → ok (of_checkpoint (persist c)) ≡ ok b
    → decoded b ≡ ok (persist c)
decoded-encode c (of_checkpoint x) e = cc
decoded-encode c (of_v2 x) e = cc

pub json-IsJson : IsJson json
json-IsJson = record {
  decode-encode = decoded-encode;
  encode-persist = λ c. ap (λ x. ok (of_checkpoint x)) (persist-persist c);
  encode_v2-persist_v2 = λ v. ap (λ x. ok (of_v2 x)) (v2_again v);
  verify-new_checksum = λ b. refl;
}

-- A file that holds the last checkpoint that was written.
abbrev pub file : CheckpointFile Checkpoint
file = record {
  acquire = pure tt;
  release = λ d. d;
  load = λ d. ok (persist d);
  create = λ c d. (ok tt, written 7 7 c);
  names = λ d. ok ("checkpoint.json" ∷ []);
}

read_again : (d c : Checkpoint) → ok (persist d) ≡ ok c → persist c ≡ c
read_again d c e = let same : persist d ≡ c = cc in ap persist (sym same) ∙ persist-persist d ∙ same

pub file-IsFile : IsFile file
file-IsFile = record {
  load-acquire = λ d. refl;
  load-release = λ d. refl;
  create_outcome = λ cp d. inl (refl, 7, 7, refl);
  persist-load = read_again;
}

-- A configuration is its kind.
abbrev pub api : ConfigApi ConfigKind String String
api = record {
  decode = λ text. ok gpu_config;
  kind = λ c. c;
  default_gpu_config = gpu_config;
  default_mig_device_config = mig_config;
  default_vfio_device_config = vfio_config;
  normalize = λ c. ok c;
  validate = λ c. ok tt;
  is_time_slicing = λ c. false;
  get_time_slicing_config = λ c. ok none;
  is_mps = λ c. false;
  get_mps_config = λ c. ok none;
  default_time_slicing_config = ok none;
}

-- The node counts the CDI files.
abbrev pub managers : Managers ℕ String String
managers = record {
  create_claim_spec_file = λ uid devices n. (ok tt, n + 1);
  delete_claim_spec_file = λ uid n. (ok tt, n - 1);
  qualified_name = λ vendor class name. vendor <> "/" <> class <> "=" <> name;
  hami_unprepare = λ uid devices. pure tt;
  hami_container_edits = λ claim devices. pure none;
  set_time_slice = λ uuids t. pure tt;
  mps_start = λ uid devices m. pure tt;
  mps_assert_ready = λ uid devices. pure tt;
  mps_id = λ uid devices. uid;
  mps_container_edits = λ uid devices. none;
  mps_stop = λ uid group. pure tt;
  vfio_configure = λ d. pure tt;
  vfio_unconfigure = λ d. pure tt;
  create_mig_device = λ spec. raise "no MIG";
  delete_mig_device = λ d. pure tt;
  find_mig_dev_by_spec = λ spec. pure none;
  obliterate_stale_mig_devices = λ names. pure tt;
  discover_vfio_device = λ d. raise "no vfio";
  discover_gpu_by_pci_bus_id = λ id. raise "no gpu";
}

-- An API server that knows no claim.
abbrev pub no_claims : String → String → Exec ℕ ResourceClaim
no_claims name namespace n = (err (not_found "resourceclaim"), n)
