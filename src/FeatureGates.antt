-- ===== src/FeatureGates.antt =====
-- pkg/featuregates/featuregates.go: the project's feature gates, their defaults and the validation
-- of their dependencies. The gate registry of Kubernetes is not modelled: a `Gates` record holds
-- what `Enabled` answers for each gate once the flags have been read.
pub mod Laws
use k8s_dra_driver.Common.{Bool, true, false, not, ◌&&◌, Option, none, some, String, if◌then◌else◌}

pub record Gates : Type 0 where
  pub hami_core_support : Bool
  pub time_slicing_settings : Bool
  pub mps_support : Bool
  pub imex_daemons_with_dns_names : Bool
  pub passthrough_support : Bool
  pub nvml_device_health_check : Bool
  pub dynamic_mig : Bool
  pub compute_domain_cliques : Bool
  pub crash_on_nvlink_fabric_errors : Bool

-- The `Default` of each gate of `defaultFeatureGates`.
abbrev pub default_feature_gates : Gates
default_feature_gates = record {
  hami_core_support = true;
  time_slicing_settings = false;
  mps_support = false;
  imex_daemons_with_dns_names = true;
  passthrough_support = false;
  dynamic_mig = false;
  nvml_device_health_check = false;
  compute_domain_cliques = false;
  crash_on_nvlink_fabric_errors = true;
}

-- The two forms of message: "A is currently mutually exclusive with B", "A requires B to also be
-- enabled".
pub data GateError : Type 0 where
  exclusive : String → String → GateError
  requires : String → String → GateError

-- The first block: what HAMiCoreSupport excludes.
validate_hami_core : Gates → Option GateError
validate_hami_core g =
    if g.time_slicing_settings
    then some (exclusive "HAMiCoreSupport" "TimeSlicingSettings")
    else if g.mps_support
    then some (exclusive "HAMiCoreSupport" "MPSSupport")
    else if g.passthrough_support
    then some (exclusive "HAMiCoreSupport" "PassthroughSupport")
    else if g.dynamic_mig
    then some (exclusive "HAMiCoreSupport" "DynamicMIG")
    else if g.compute_domain_cliques
    then some (exclusive "HAMiCoreSupport" "ComputeDomainCliques")
    else none

-- The blocks below it.
validate_rest : Gates → Option GateError
validate_rest g =
    if g.compute_domain_cliques && not g.imex_daemons_with_dns_names
    then some (requires "ComputeDomainCliques" "IMEXDaemonsWithDNSNames")
    else if g.dynamic_mig && g.passthrough_support
    then some (exclusive "DynamicMIG" "PassthroughSupport")
    else if g.dynamic_mig && g.nvml_device_health_check
    then some (exclusive "DynamicMIG" "NVMLDeviceHealthCheck")
    else if g.dynamic_mig && g.mps_support
    then some (exclusive "DynamicMIG" "MPSSupport")
    else none

pub validate_feature_gates : Gates → Option GateError
unfolding validate_hami_core validate_rest
validate_feature_gates g = elim (if g.hami_core_support then validate_hami_core g else none) [
  | some e ↦ some e
  | none ↦ validate_rest g
]
